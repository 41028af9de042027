-- ===== src/Control/Workspace/Tests.antt =====
-- A suite and an invitation (apps/api/breakroom_api/team_workspace.py).
use breakroom.Base.{◌≡◌, refl, ap, true, false, none, [], ◌∷◌, length, ◌=ℕ=◌}
use breakroom.Control.Rows.{owner, developer, Invitation, Store, Settings}
use breakroom.Control.Monad.{Answer, ok, problem, http, transaction, ◌>>=◌}
use breakroom.Control.Accounts.Tokens.{development_issuer}
use breakroom.Control.Workspace.Readiness.{EvidenceRow, SuiteCase, suite_readiness, compatible}
use breakroom.Control.Workspace.Evidence.{EachHasEvidence, suite_readiness-HasEvidence}
use breakroom.Control.Workspace.Invitations.{Who, WorkspaceCall, Joined, accept_invitation}
use breakroom.Control.Workspace.Acceptance.{Names, IsInvited, accept_invitation-IsInvited}

abbrev test_case : SuiteCase
test_case = record { case_id = "lost-response"; case_version = "1"; manifest_hash = "hash" }

abbrev test_row : EvidenceRow
test_row = record {
  id = "report_a";
  case_id = "lost-response";
  verdict = "PASS";
  case_version = "1";
  execution_status = "completed";
  checks =
      record { id = "no_duplicate_effects"; status = "pass" }
      ∷ record { id = "fault_coverage"; status = "pass" }
      ∷ [];
  original_case_manifest_hash = "hash";
  original_source_manifest_hash = none;
}

ready_test : (suite_readiness (test_case ∷ []) (test_row ∷ [])).status ≡ "PASS"
unfolding suite_readiness compatible
ready_test = refl

suite_readiness-HasEvidence_example :
    ((length (test_case ∷ []) =ℕ= 0) ≡ false) × EachHasEvidence (test_row ∷ []) (test_case ∷ [])
suite_readiness-HasEvidence_example =
    suite_readiness-HasEvidence (test_case ∷ []) (test_row ∷ []) ready_test

-- A report of another version of the case does not count.
other_version_test :
    (suite_readiness (record test_case { case_version = "2" } ∷ []) (test_row ∷ [])).status
    ≡ "INCONCLUSIVE"
unfolding suite_readiness compatible
other_version_test = refl

abbrev test_settings : Settings
test_settings = record {
  environment = "test";
  dev_login = true;
  password_enabled = true;
  mail_available = true;
  session_ttl_seconds = 3600;
  public_origin = "https://breakroom.test";
  billing_enabled = false;
  price_id = "";
  unit_amount = 0;
  currency = "usd";
  seat_limit = 5;
  report_limit = 100;
  storage_limit = 1000000;
}

abbrev test_call : WorkspaceCall
test_call = record {
  billing = record {
    settings = test_settings;
    now = 1000;
    opaque_id = "id";
    digest = λ r. "digest";
    provider = record {
      create_customer = λ p k. problem (http 503);
      create_checkout = λ customer p k. problem (http 503);
      retrieve_checkout = λ id. problem (http 503);
      retrieve_subscription = λ id. problem (http 503);
      cancel_subscription = λ id k b. problem (http 503);
    };
  };
  secret = "secret";
  hash = λ s. s;
}

abbrev test_who : Who
test_who = record {
  user = record {
    id = "user_b";
    issuer = development_issuer;
    subject = "b@example.com";
    email = "b@example.com";
    display_name = "B";
  };
  by_key = false;
}

abbrev test_invitation : Invitation
test_invitation = record {
  id = "invitation";
  project_id = "p";
  invited_by = "user_a";
  email = "b@example.com";
  role = developer;
  token_hash = "token";
  created_at = 500;
  expires_at = 5000;
  revoked_at = none;
  accepted_at = none;
}

abbrev test_store : Store
test_store = record {
  users = [];
  sessions = [];
  credentials = [];
  account_tokens = [];
  auth_limits = [];
  projects = "p" ∷ [];
  memberships = record { project_id = "p"; user_id = "user_a"; role = owner } ∷ [];
  invitations = test_invitation ∷ [];
  reports = [];
  accounts = [];
  operations = [];
  events = [];
}

identified : Store → Answer Who
identified db = ok test_who

abbrev joined : Joined
joined = record { project_id = "p"; role = developer; already_member = false }

joined_test : (accept_invitation test_call identified "token" test_store).0 ≡ ok joined
unfolding accept_invitation ◌>>=◌ transaction identified
joined_test = refl

answered : {A : Type 0} (x : Answer A × Store) (a : A) → x.0 ≡ ok a → x ≡ (ok a, x.1)
answered x a h = ap (λ r. (r, x.1)) h

accept_invitation-IsInvited_example :
    (who : Who) × (identified test_store ≡ ok who)
    × (i : Invitation) × Names test_call "token" test_store i
    × IsInvited test_call who i joined test_store
        (accept_invitation test_call identified "token" test_store).1
accept_invitation-IsInvited_example =
    accept_invitation-IsInvited test_call identified "token" test_store _ joined
      (answered _ joined joined_test)
