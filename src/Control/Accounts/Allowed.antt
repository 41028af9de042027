-- ===== src/Control/Accounts/Allowed.antt =====
-- How many attempts a window lets through (apps/api/breakroom_api/password_db.py).
use breakroom.Base.{
  ℕ, suc, ◌+◌, ◌≤◌, ◌≡◌, sym, ap, ◌∙◌, subst, String, Bool, true, false, some, List, [], ◌∷◌, leb,
  arith, ◌==◌, if◌then◌else◌,
}
use breakroom.Control.Rows.{AuthLimit, Store}
use breakroom.Control.Monad.{Answer, ok, problem}
use breakroom.Control.Accounts.Request.{AuthCall}
use breakroom.Control.Accounts.Limits.{
  AttemptKind, find_limit, budget_of, account_bucket, peer_bucket, consume_attempts,
}
use breakroom.Control.Accounts.Windows.{consume_attempts-Passes}

abbrev count_allowed : Answer Bool → ℕ → ℕ
count_allowed (ok true) n = suc n
count_allowed (ok false) n = n
count_allowed (problem e) n = n

-- How many of the calls are let through, one after the other.
unfoldable pub allowed_count : AttemptKind → String → List (AuthCall × String) → Store → ℕ
unfolding consume_attempts
allowed_count kind email [] db = 0
allowed_count kind email (call ∷ calls) db =
    let x = consume_attempts call.0 kind email call.1 db in
    count_allowed x.0 (allowed_count kind email calls x.1)

-- The calls are for one bucket, before its window ends; the digest tells it from the peer's.
pub data InWindow (kind : AttemptKind) (email key : String) (t : ℕ)
    : List (AuthCall × String) → Type 0 where
  no_call : InWindow kind email key t []
  next_call :
      (c : AuthCall) (peer : String) {calls : List (AuthCall × String)}
      → account_bucket c kind email ≡ key
      → (key == peer_bucket c kind peer) ≡ false
      → leb t c.now ≡ false
      → InWindow kind email key t calls
      → InWindow kind email key t ((c, peer) ∷ calls)

added_count :
    (r : Answer Bool) (a : Bool) (n k l m : ℕ)
    → r ≡ ok a
    → l + (if a then 1 else 0) ≤ k
    → n + k ≤ m
    → count_allowed r n + l ≤ m
added_count (ok true) true n k l m e h i = omega arith
added_count (ok false) false n k l m e h i = omega arith
added_count (ok true) false n k l m e h i = cc
added_count (ok false) true n k l m e h i = cc
added_count (problem p) a n k l m e h i = cc

-- For calls within the window of an account's bucket, whose digest tells it from the peers' buckets,
-- the attempts that are let through and those counted before are at most the account's maximum.
pub allowed_count-budget :
    (kind : AttemptKind) (email key : String) (t : ℕ) (calls : List (AuthCall × String))
    (db : Store) (l : AuthLimit)
    → InWindow kind email key t calls
    → l.expires_at ≡ t
    → l.attempts ≤ (budget_of kind).account_max
    → find_limit key db.auth_limits ≡ some l
    → allowed_count kind email calls db + l.attempts ≤ (budget_of kind).account_max
unfolding allowed_count
allowed_count-budget kind email key t calls db l no_call w k f = omega (arith, k)
allowed_count-budget kind email key t calls db l (next_call c peer {calls = rest} same n e more) w k
      f =
    let p =
      consume_attempts-Passes c kind email peer l db (ap (λ z. leb z c.now) w ∙ e)
        (subst (λ z. (z == peer_bucket c kind peer) ≡ false) (sym same) n) k
        (subst (λ z. find_limit z db.auth_limits ≡ some l) (sym same) f) in
    let i = p.is_within in
    let after = (consume_attempts c kind email peer db).1 in
    added_count _ p.allowed _ i.row.attempts l.attempts _ p.is_answer i.is_counted (
      allowed_count-budget kind email key t rest after i.row more (i.same_window ∙ w) i.is_bounded
        (subst (λ z. find_limit z after.auth_limits ≡ some i.row) same i.found))
