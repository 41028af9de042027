-- ===== src/Control/Billing/Account.antt =====
-- `account`, `usage`, `view` and `enforce` (apps/api/breakroom_api/team_billing.py).
use breakroom.Base.{
  ℕ, ◌+◌, ◌*◌, String, Bool, true, false, not, ◌&&◌, ◌||◌, Option, none, some, List, [], ◌∷◌, ◌++◌,
  first, filter, update_where, length, leb, ltb, ◌==◌, ◌=ℕ=◌, if◌then◌else◌,
}
use breakroom.Control.Rows.{
  Account, SyncState, ready, syncing, resyncing, unsure, Store, Settings, StoredReport,
}
use breakroom.Control.Monad.{Act, http, gets, require, ◌>>=◌, ◌>>◌}
use breakroom.Control.Billing.Provider.{BillingCall, is_terminal}

abbrev pub blank_account : String → Account
blank_account project_id = record {
  project_id = project_id;
  customer_id = none;
  subscription_id = none;
  status = "none";
  sync_state = ready;
  cancel_at_period_end = false;
  current_period_end = none;
  paid_through = none;
}

unfoldable pub find_account : String → List Account → Option Account
find_account project_id = first (λ a. a.project_id == project_id)

-- `account(con, project_id)`
unfoldable pub account_of : Store → String → Account
unfolding find_account
account_of db project_id = elim (find_account project_id db.accounts) [
  | none ↦ blank_account project_id
  | some a ↦ a
]

-- `account(con, project_id, create=True)`
abbrev pub with_account : String → Store → Store
with_account project_id db = elim (find_account project_id db.accounts) [
  | none ↦ record db { accounts = db.accounts ++ blank_account project_id ∷ [] }
  | some _ ↦ db
]

-- UPDATE team_billing_accounts ... WHERE project_id = ?
unfoldable pub update_account : String → (Account → Account) → Store → Store
update_account project_id f db = record db {
  accounts = update_where (λ a. a.project_id == project_id) f db.accounts;
}

abbrev pub has_text : Option String → Bool
has_text none = false
has_text (some _) = true

-- `account["subscription_id"] and account["status"] in TERMINAL`, and its counterpart
unfoldable pub has_live_subscription : Account → Bool
has_live_subscription a = has_text a.subscription_id && not (is_terminal a.status)

unfoldable pub has_ended_subscription : Account → Bool
has_ended_subscription a = has_text a.subscription_id && is_terminal a.status

pub record Usage : Type 0 where
  pub seats : ℕ
  pub reports : ℕ
  pub storage_bytes : ℕ

unfoldable pub octets_of : List StoredReport → ℕ
octets_of [] = 0
octets_of (r ∷ rs) = r.octets + octets_of rs

unfoldable pub usage : Store → String → Usage
unfolding octets_of
usage db project_id = record {
  seats = length (filter (λ m. m.project_id == project_id) db.memberships);
  reports = length (filter (λ r. r.project_id == project_id) db.reports);
  storage_bytes = octets_of (filter (λ r. r.project_id == project_id) db.reports);
}

unfoldable pub limits : Settings → Usage
limits s =
    if s.billing_enabled
    then record { seats = s.seat_limit; reports = s.report_limit; storage_bytes = s.storage_limit }
    else record { seats = 25; reports = 1000; storage_bytes = 256 * 1024 * 1024 }

pub data Access : Type 0 where
  local_development paid read_only : Access

abbrev is_synced : SyncState → Bool
is_synced ready = true
is_synced resyncing = true
is_synced syncing = false
is_synced unsure = false

abbrev is_after : Option ℕ → ℕ → Bool
is_after none now = false
is_after (some t) now = ltb now t

unfoldable pub is_paid : Account → ℕ → Bool
is_paid a now = a.status == "active" && is_synced a.sync_state && is_after a.paid_through now

-- The field `access` of `view`.
unfoldable pub access : Settings → ℕ → Account → Access
unfolding is_paid
access s now a =
    if not s.billing_enabled then local_development else if is_paid a now then paid else read_only

-- The other fields of `view` that vary with the account.
pub record View : Type 0 where
  pub status : String
  pub access : Access
  pub sync_state : SyncState
  pub can_cancel : Bool
  pub checkout_available : Bool
  pub paid_through : Option ℕ
  pub limits : Usage
  pub usage : Usage

unfoldable pub billing_view : BillingCall → String → Store → View
unfolding access limits usage has_live_subscription
billing_view c project_id db =
    let a = account_of db project_id in
    let can_cancel : Bool = c.settings.billing_enabled && has_live_subscription a in
    record {
      status = if c.settings.billing_enabled then a.status else "disabled";
      access = access c.settings c.now a;
      sync_state = a.sync_state;
      can_cancel = can_cancel;
      checkout_available = c.settings.billing_enabled && not can_cancel;
      paid_through = a.paid_through;
      limits = limits c.settings;
      usage = usage db project_id;
    }

abbrev is_read_only : Access → Bool
is_read_only read_only = true
is_read_only paid = false
is_read_only local_development = false

-- `if addition and usage + addition > limit`
abbrev within : ℕ → ℕ → ℕ → Bool
within addition used limit = addition =ℕ= 0 || leb (used + addition) limit

-- `enforce`: the size of the upload is what PostgreSQL counts of it.
unfoldable pub enforce : BillingCall → String → ℕ → Option ℕ → Act (Unit {0})
unfolding billing_view
enforce c project_id added_seats upload = do
  v ← gets (billing_view c project_id)
  require (not (is_read_only v.access)) (http 402)
  require (within added_seats v.usage.seats v.limits.seats) (http 409)
  require (within (elim upload [ none ↦ 0 | some _ ↦ 1 ]) v.usage.reports v.limits.reports)
      (http 409)
  require
      (within (elim upload [ none ↦ 0 | some n ↦ n ]) v.usage.storage_bytes v.limits.storage_bytes)
      (http 409)
