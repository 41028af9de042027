-- ===== src/Evaluator/Evidence.antt =====
-- What the answer of `_claim_checks` means
-- (packages/breakroom-core/src/breakroom/evaluator.py).
use breakroom.Base.{
  ◌≡◌, ◌≢◌, refl, subst, ◌⊎◌, inl, inr, String, Bool, true, false, not, Option, none, some, List,
  ◌&&◌, [], ◌∷◌, ◌++◌, any, all, arith, ◌==◌, if◌then◌else◌, member, Bool-cases, eq_of_test,
}
use breakroom.Simulator.Rows.{Refund, RefundStatus, Value, int, text, boolean, null}
use breakroom.Simulator.Calls.{Event, Response}
use breakroom.Simulator.Queries.{find_refund}
use breakroom.Evaluator.Fields.{
  Fields, get, has, equal, status_name, refund_fields, evidence_records,
}
use breakroom.Evaluator.Claims.{
  State, AgentResult, Claim, dict, CheckStatus, pass, fail, unknown, of_refund, claim_kind, cited,
  claim_keys, record_keys, refund_named, refund_against_state, refund_against_response, check_claim,
  check_each, claim_checks,
}

-- A claim that fails its own check fails the list, wherever it stands.
check_each-fail :
    (check : Claim → CheckStatus) (flag : Bool) (before : List Claim) (c : Claim)
    (after : List Claim)
    → check c ≡ fail
    → check_each check flag (before ++ c ∷ after) ≡ fail
unfolding check_each
check_each-fail check flag [] c after h = rw h refl
check_each-fail check flag (x ∷ xs) c after h =
    ground (arith, check_each-fail check true xs c after h, check_each-fail check flag xs c after h)

check_each-flagged :
    (check : Claim → CheckStatus) (cs : List Claim) → check_each check true cs ≢ pass
unfolding check_each
check_each-flagged check [] = λ h. cc
check_each-flagged check (x ∷ xs) = λ h. ground (arith, check_each-flagged check xs)

-- A list that passes has only claims that pass.
check_each-pass :
    (check : Claim → CheckStatus) (flag : Bool) (before : List Claim) (c : Claim)
    (after : List Claim)
    → check_each check flag (before ++ c ∷ after) ≡ pass
    → check c ≡ pass
unfolding check_each
check_each-pass check flag [] c after h = ground (arith, check_each-flagged check after)
check_each-pass check flag (x ∷ xs) c after h =
    ground
      (arith, check_each-flagged check (xs ++ c ∷ after), check_each-pass check flag xs c after)

-- What the state says against a refund claim: it names no refund, or one of another status, or one of
-- which it states another order, amount or currency.
abbrev pub Contradicted : State → RefundStatus → Fields → Type 0
Contradicted state status claim =
    (id : String) × (get "refund_id" claim ≡ text id)
    × ((find_refund id state.refunds ≡ none)
        ⊎ ((r : Refund) × (find_refund id state.refunds ≡ some r)
            × (((status_name r.status == status_name status) ≡ false)
                ⊎ ((key : String) × (member key claim_keys ≡ true)
                    × (has key claim ≡ true)
                    × (equal (get key claim) (get key (refund_fields r)) ≡ false)))))

late_fail : (b : Bool) (s : CheckStatus) → (if b then fail else if true then fail else s) ≡ fail
late_fail true s = refl
late_fail false s = refl

any_of :
    (ks : List String) (p : String → Bool) (key : String)
    → member key ks ≡ true
    → p key ≡ true
    → any p ks ≡ true
any_of [] p key h e = cc
any_of (k ∷ ks) p key h e = elim (Bool-cases (k == key)) [
  | inl same ↦ ground (arith, eq_of_test k key same, e)
  | inr differ ↦ ground (arith, differ, any_of ks p key, e)
]

refund_against_state-fail :
    (state : State) (status : RefundStatus) (claim : Fields)
    → Contradicted state status claim
    → refund_against_state state status claim ≡ fail
unfolding refund_against_state equal
refund_against_state-fail state status claim (id, named, inl missing) = rw (named, missing) refl
refund_against_state-fail state status claim (id, named, inr (r, found, inl other)) =
    rw (named, found, other) refl
refund_against_state-fail state status claim
      (id, named, inr (r, found, inr (key, k, given, other))) =
    rw
      (
        named,
        found,
        any_of claim_keys
            (λ key. has key claim && not (equal (get key claim) (get key (refund_fields r)))) key k
            (rw (given, other) refl),
      )
      (late_fail _ (if any (λ key. not (has key claim)) claim_keys then unknown else pass))

check_claim-fail :
    (state : State) (events : List Event) (result : AgentResult) (status : RefundStatus)
    (claim : Fields)
    → claim_kind (get "type" claim) ≡ some (of_refund status)
    → Contradicted state status claim
    → check_claim state events result (dict claim) ≡ fail
unfolding check_claim
check_claim-fail state events result status claim kind false_claim =
    rw (check_claim, kind, refund_against_state-fail state status claim false_claim) refl

early_or : (b : Bool) (s : CheckStatus) → s ≡ fail → (if b then fail else s) ≡ fail
early_or true s h = refl
early_or false s h = h

-- A refund claim that names no refund of the state, or one of another status, or that states another
-- order, amount or currency than the refund has, fails the check, wherever it stands among the
-- claims, whatever evidence it cites or leaves out, and whatever the other claims are.
pub claim_checks-fail :
    (result : AgentResult) (events : List Event) (state : State) (before : List Claim)
    (claim : Fields) (after : List Claim) (status : RefundStatus)
    → result.claims ≡ before ++ dict claim ∷ after
    → claim_kind (get "type" claim) ≡ some (of_refund status)
    → Contradicted state status claim
    → claim_checks (some result) events state ≡ fail
unfolding claim_checks
claim_checks-fail result events state [] claim after status here kind false_claim = rw (here) (
    early_or _ _ (
      check_each-fail (check_claim state events result) false [] (dict claim) after
        (check_claim-fail state events result status claim kind false_claim)))
claim_checks-fail result events state (x ∷ xs) claim after status here kind false_claim =
    rw (here) (
      early_or _ _ (
        check_each-fail (check_claim state events result) false (x ∷ xs) (dict claim) after
          (check_claim-fail state events result status claim kind false_claim)))

-- A refund of the state, and a cited response, that establish a refund claim.
pub record IsEstablished (state : State) (events : List Event) (status : RefundStatus)
    (claim : Fields) : Type 0 where
  pub id : String
  pub named : get "refund_id" claim ≡ text id
  pub refund : Refund
  pub found : find_refund id state.refunds ≡ some refund
  pub same_status : (status_name refund.status == status_name status) ≡ true
  pub same_terms :
      any (λ key. not (equal (get key claim) (get key (refund_fields refund)))) claim_keys ≡ false
  pub response : Response
  pub is_cited : cited (get "evidence_ref" claim) events ≡ some response
  pub shows :
      any
        (λ item. all (λ key. equal (get key item) (get key (refund_fields refund))) record_keys)
        (evidence_records response)
      ≡ true

refund_named-some :
    (v : Value) (refunds : List Refund) (r : Refund)
    → refund_named v refunds ≡ some r
    → (id : String) × (v ≡ text id) × (find_refund id refunds ≡ some r)
refund_named-some (text id) refunds r h = (id, refl, h)
refund_named-some (int i) refunds r h = cc
refund_named-some (boolean b) refunds r h = cc
refund_named-some null refunds r h = cc

some_of_pass {ℓ} :
    {A : Type ℓ} (o : Option A) (missing : CheckStatus) (f : A → CheckStatus)
    → missing ≢ pass
    → elim o [ none ↦ missing | some a ↦ f a ] ≡ pass
    → (a : A) × (o ≡ some a) × (f a ≡ pass)
some_of_pass none missing f differs h = elim (differs h) [ ]
some_of_pass (some a) missing f differs h = (a, refl, h)

three_tests :
    (a b c : Bool)
    → (if not a then fail else if b then fail else if c then pass else fail) ≡ pass
    → (a ≡ true) × (b ≡ false) × (c ≡ true)
three_tests a b c h = ground arith

refund_of_pass :
    (state : State) (events : List Event) (status : RefundStatus) (claim : Fields)
    (response : Response)
    → cited (get "evidence_ref" claim) events ≡ some response
    → refund_against_response state status claim response ≡ pass
    → IsEstablished state events status claim
unfolding refund_against_response
refund_of_pass state events status claim response is_cited h =
    let (r, named, tests) = some_of_pass _ fail _ (λ e. cc) h in
    let (id, at, found) = refund_named-some _ _ r named in
    let (status_ok, terms_ok, shown) = three_tests _ _ _ tests in
    record {
      id = id;
      named = at;
      refund = r;
      found = found;
      same_status = status_ok;
      same_terms = terms_ok;
      response = response;
      is_cited = is_cited;
      shows = shown;
    }

state_then_response :
    (s : CheckStatus) (o : Option Response) (f : Response → CheckStatus)
    → elim s [ fail ↦ fail | unknown ↦ unknown | pass ↦ elim o [ none ↦ unknown | some r ↦ f r ] ]
      ≡ pass
    → (r : Response) × (o ≡ some r) × (f r ≡ pass)
state_then_response fail o f h = cc
state_then_response unknown o f h = cc
state_then_response pass o f h = some_of_pass o unknown f (λ e. cc) h

claim_of_pass :
    (state : State) (events : List Event) (result : AgentResult) (status : RefundStatus)
    (claim : Fields)
    → claim_kind (get "type" claim) ≡ some (of_refund status)
    → check_claim state events result (dict claim) ≡ pass
    → (response : Response) × (cited (get "evidence_ref" claim) events ≡ some response)
      × (refund_against_response state status claim response ≡ pass)
unfolding check_claim
claim_of_pass state events result status claim kind h =
    state_then_response (refund_against_state state status claim) _ _ (rw (check_claim, kind) at h)

late_or : (b : Bool) (s : CheckStatus) → (if b then fail else s) ≡ pass → s ≡ pass
late_or true s h = cc
late_or false s h = h

each_of_pass :
    (cs : List Claim) (b : Bool) (f : List Claim → CheckStatus)
    → elim cs [ [] ↦ unknown | c ∷ cs ↦ if b then fail else f (c ∷ cs) ] ≡ pass
    → f cs ≡ pass
each_of_pass [] b f h = cc
each_of_pass (c ∷ cs) b f h = late_or b _ h

-- Where the check of the claims passes, a refund of the state has the identifier, status, amount,
-- currency and order of any refund claim, and the response that the claim cites shows that refund.
pub claim_checks-IsEstablished :
    (result : AgentResult) (events : List Event) (state : State) (before : List Claim)
    (claim : Fields) (after : List Claim) (status : RefundStatus)
    → result.claims ≡ before ++ dict claim ∷ after
    → claim_kind (get "type" claim) ≡ some (of_refund status)
    → claim_checks (some result) events state ≡ pass
    → IsEstablished state events status claim
unfolding claim_checks
claim_checks-IsEstablished result events state before claim after status here kind h =
    let each =
      each_of_pass result.claims _ (check_each (check_claim state events result) false) h in
    let own =
      check_each-pass (check_claim state events result) false before (dict claim) after
        (subst (λ cs. check_each (check_claim state events result) false cs ≡ pass) here each) in
    let (response, is_cited, against) = claim_of_pass state events result status claim kind own in
    refund_of_pass state events status claim response is_cited against
