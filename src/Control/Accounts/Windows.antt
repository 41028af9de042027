-- ===== src/Control/Accounts/Windows.antt =====
-- What one call does to a bucket (apps/api/breakroom_api/password_db.py).
use breakroom.Base.{
  ℕ, ◌+◌, ◌≤◌, ◌≡◌, refl, ap, ◌∙◌, subst, String, Bool, true, false, ◌&&◌, some, leb, arith, ◌==◌,
  if◌then◌else◌,
}
use Prim.Native.Nat.{Ordering, lt, eq, gt}
use Prim.Native.String.{compare}
use breakroom.Control.Rows.{AuthLimit, Store}
use breakroom.Control.Monad.{Act, Answer, ok, problem, pure, transaction, ◌>>=◌}
use breakroom.Control.Accounts.Request.{AuthCall}
use breakroom.Control.Accounts.Limits.{
  AttemptKind, find_limit, reserve_attempt, reserve_both, budget_of, account_bucket, peer_bucket,
  consume_attempts,
}
use breakroom.Control.Accounts.Passes.{Passes, reserve_own, reserve_case}

ok_eq : {a b : Bool} → ok a ≡ ok b → b ≡ a
ok_eq h = cc

finished :
    (key : String) (maximum : ℕ) (l m : AuthLimit) (a : Bool) (y : Answer Bool × Store)
    (p q : Bool → Bool) (d : Store)
    → m.expires_at ≡ l.expires_at
    → l.attempts + (if p a then 1 else 0) ≤ m.attempts
    → ((b : Bool) → (if a && b then 1 else 0) ≤ (if p a then 1 else 0) + (if q b then 1 else 0))
    → Passes key maximum m y q
    → Passes key maximum l (((λ (_ : Store). y) >>= λ b. pure (a && b)) d) (λ r. r)
unfolding ◌>>=◌
finished key maximum l m a (ok b, s) p q d w k c h = record {
  allowed = a && b;
  is_answer = refl;
  is_within = record {
    row = h.is_within.row;
    found = h.is_within.found;
    same_window = h.is_within.same_window ∙ w;
    is_counted = omega (
      arith,
      k,
      c b,
      subst (λ z. m.attempts + (if q z then 1 else 0) ≤ h.is_within.row.attempts)
          (ok_eq h.is_answer) h.is_within.is_counted,
    );
    is_bounded = h.is_within.is_bounded;
  };
}
finished key maximum l m a (problem e, s) p q d w k c h = cc

joined :
    (key : String) (maximum : ℕ) (l : AuthLimit) (x : Answer Bool × Store) (n : Act Bool)
    (p q : Bool → Bool) (db : Store)
    → ((a b : Bool) → (if a && b then 1 else 0) ≤ (if p a then 1 else 0) + (if q b then 1 else 0))
    → Passes key maximum l x p
    → ((m : AuthLimit)
        → m.expires_at ≡ l.expires_at
        → m.attempts ≤ maximum
        → find_limit key x.1.auth_limits ≡ some m
        → Passes key maximum m (n x.1) q)
    → Passes key maximum l (((λ (_ : Store). x) >>= λ a. n >>= λ b. pure (a && b)) db) (λ r. r)
unfolding ◌>>=◌
joined key maximum l (ok a, s) n p q db c h k =
    let i = h.is_within in
    finished key maximum l i.row a (n s) p q s i.same_window
      (subst (λ z. l.attempts + (if p z then 1 else 0) ≤ i.row.attempts) (ok_eq h.is_answer)
        i.is_counted)
      (c a) (k i.row i.same_window i.is_bounded i.found)
joined key maximum l (problem e, s) n p q db c h k = cc

first_counts : (a b : Bool) → (if a && b then 1 else 0) ≤ (if a then 1 else 0) + 0
first_counts true true = omega arith
first_counts true false = omega arith
first_counts false b = omega arith

second_counts : (a b : Bool) → (if a && b then 1 else 0) ≤ 0 + (if b then 1 else 0)
second_counts true true = omega arith
second_counts true false = omega arith
second_counts false b = omega arith

both_own :
    (c : AuthCall) (seconds : ℕ) (key other : String) (maximum m : ℕ) (l : AuthLimit) (db : Store)
    → leb l.expires_at c.now ≡ false
    → (key == other) ≡ false
    → l.attempts ≤ maximum
    → find_limit key db.auth_limits ≡ some l
    → Passes key maximum l (reserve_both c seconds (key, maximum) (other, m) db) (λ a. a)
unfolding reserve_both ◌>>=◌
both_own c seconds key other maximum m l db e n k f =
    joined key maximum l (reserve_attempt c seconds key maximum db)
      (reserve_attempt c seconds other m) (λ a. a) (λ _. false) db first_counts
      (reserve_own c seconds key maximum l db e k f)
      λ r w b found. reserve_case c seconds key other maximum m r _ _ refl n b found

both_other :
    (c : AuthCall) (seconds : ℕ) (key other : String) (maximum m : ℕ) (l : AuthLimit) (db : Store)
    → leb l.expires_at c.now ≡ false
    → (key == other) ≡ false
    → l.attempts ≤ maximum
    → find_limit key db.auth_limits ≡ some l
    → Passes key maximum l (reserve_both c seconds (other, m) (key, maximum) db) (λ a. a)
unfolding reserve_both ◌>>=◌
both_other c seconds key other maximum m l db e n k f =
    joined key maximum l (reserve_attempt c seconds other m db)
      (reserve_attempt c seconds key maximum) (λ _. false) (λ a. a) db second_counts
      (reserve_case c seconds key other maximum m l _ db refl n k f)
      λ r w b found. reserve_own c seconds key maximum r _ (ap (λ t. leb t c.now) w ∙ e) b found

committed :
    (key : String) (maximum : ℕ) (l : AuthLimit) (x : Answer Bool × Store) (db : Store)
    → Passes key maximum l x (λ a. a)
    → Passes key maximum l (transaction (λ _. x) db) (λ a. a)
unfolding transaction
committed key maximum l (ok a, s) db h = h
committed key maximum l (problem e, s) db h = cc

ordered :
    (key : String) (maximum : ℕ) (l : AuthLimit) (r : Ordering) (m n : Act Bool) (db : Store)
    → Passes key maximum l (m db) (λ a. a)
    → Passes key maximum l (n db) (λ a. a)
    → Passes key maximum l ((elim r as (λ _. Act Bool) [ lt ↦ m | eq ↦ m | gt ↦ n ]) db) (λ a. a)
ordered key maximum l lt m n db h k = h
ordered key maximum l eq m n db h k = h
ordered key maximum l gt m n db h k = k

pub consume_attempts-Passes :
    (c : AuthCall) (kind : AttemptKind) (email peer : String) (l : AuthLimit) (db : Store)
    → leb l.expires_at c.now ≡ false
    → (account_bucket c kind email == peer_bucket c kind peer) ≡ false
    → l.attempts ≤ (budget_of kind).account_max
    → find_limit (account_bucket c kind email) db.auth_limits ≡ some l
    → Passes
        (account_bucket c kind email)
        (budget_of kind).account_max
        l
        (consume_attempts c kind email peer db)
        (λ a. a)
unfolding consume_attempts ◌>>=◌ transaction
consume_attempts-Passes c kind email peer l db e n k f =
    let key = account_bucket c kind email in
    let other = peer_bucket c kind peer in
    let b = budget_of kind in
    ordered key b.account_max l (compare key other) _ _ db
      (committed key b.account_max l
        (reserve_both c b.seconds (key, b.account_max) (other, b.peer_max) db) db
        (both_own c b.seconds key other b.account_max b.peer_max l db e n k f))
      (committed key b.account_max l
        (reserve_both c b.seconds (other, b.peer_max) (key, b.account_max) db) db
        (both_other c b.seconds key other b.account_max b.peer_max l db e n k f))
