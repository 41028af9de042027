-- ===== src/Control/Accounts/Passes.antt =====
-- One pass over a bucket (apps/api/breakroom_api/password_db.py).
use breakroom.Base.{
  ℕ, ◌+◌, ◌≤◌, ◌≡◌, refl, sym, ap, ◌∙◌, subst, String, Bool, true, false, Option, none, some, List,
  first_test, first-append_found, first-update_where, map_found, updated, leb, arith, ◌==◌,
  eq_of_test, if◌then◌else◌,
}
use breakroom.Control.Rows.{AuthLimit, Store}
use breakroom.Control.Monad.{Answer, ok, ◌>>=◌}
use breakroom.Control.Accounts.Request.{AuthCall}
use breakroom.Control.Accounts.Limits.{
  find_limit, update_limit, renew_limit, reserve_row, reserve_attempt,
}

-- The row of a bucket after a call that answered `allowed`: an attempt that was let through is counted,
-- within the maximum, and the window is the same.
pub record IsWithin (key : String) (maximum : ℕ) (l : AuthLimit) (allowed : Bool) (after : Store)
    : Type 0 where
  pub row : AuthLimit
  pub found : find_limit key after.auth_limits ≡ some row
  pub same_window : row.expires_at ≡ l.expires_at
  pub is_counted : l.attempts + (if allowed then 1 else 0) ≤ row.attempts
  pub is_bounded : row.attempts ≤ maximum

-- What one pass answers, and the row that it leaves for `key`.
pub record Passes (key : String) (maximum : ℕ) (l : AuthLimit) (x : Answer Bool × Store)
    (counts : Bool → Bool) : Type 0 where
  pub allowed : Bool
  pub is_answer : x.0 ≡ ok allowed
  pub is_within : IsWithin key maximum l (counts allowed) x.1

found_updated :
    (key other : String) (f : AuthLimit → AuthLimit) (db : Store) (l : AuthLimit)
    → ((x : AuthLimit) → (f x).bucket_hash ≡ x.bucket_hash)
    → find_limit key db.auth_limits ≡ some l
    → find_limit key (update_limit other f db).auth_limits
      ≡ some (if l.bucket_hash == other then f l else l)
unfolding find_limit update_limit
found_updated key other f db l keeps h =
    first-update_where (λ x. x.bucket_hash == other) (λ x. x.bucket_hash == key) f db.auth_limits
      (λ x. ap (λ k. k == key) (keeps x))
    ∙ ap (λ r. map_found (updated (λ x. x.bucket_hash == other) f) r) h

key_of :
    (key : String) (xs : List AuthLimit) (l : AuthLimit)
    → find_limit key xs ≡ some l
    → (l.bucket_hash == key) ≡ true
unfolding find_limit
key_of key xs l h = first_test (λ x. x.bucket_hash == key) xs l h

renew_own :
    (b : Bool) (c : AuthCall) (seconds : ℕ) (key : String) (maximum : ℕ) (l : AuthLimit)
    (db : Store)
    → leb l.expires_at c.now ≡ false
    → leb maximum l.attempts ≡ b
    → l.attempts ≤ maximum
    → find_limit key db.auth_limits ≡ some l
    → Passes key maximum l (renew_limit c seconds key maximum l db) (λ a. a)
unfolding renew_limit ◌>>=◌
renew_own true c seconds key maximum l db e h k f =
    rw (e, h)
      (record {
        allowed = false;
        is_answer = refl;
        is_within = record {
          row = l;
          found = f;
          same_window = refl;
          is_counted = omega arith;
          is_bounded = k;
        };
      })
renew_own false c seconds key maximum l db e h k f =
    rw (e, h)
      (record {
        allowed = true;
        is_answer = refl;
        is_within = record {
          row = record l { attempts = l.attempts + 1 };
          found =
              found_updated key key (λ x. record x { attempts = l.attempts + 1 }) db l (λ x. refl) f
              ∙ rw (key_of key db.auth_limits l f) refl;
          same_window = refl;
          is_counted = omega arith;
          is_bounded = ground arith;
        };
      })

unchanged :
    (key other : String) (f : AuthLimit → AuthLimit) (db : Store) (l : AuthLimit)
    → ((x : AuthLimit) → (f x).bucket_hash ≡ x.bucket_hash)
    → (key == other) ≡ false
    → find_limit key db.auth_limits ≡ some l
    → find_limit key (update_limit other f db).auth_limits ≡ some l
unchanged key other f db l keeps n h =
    found_updated key other f db l keeps h
    ∙ ap (λ b. some (if b then f l else l))
        (ap (λ k. k == other) (eq_of_test l.bucket_hash key (key_of key db.auth_limits l h)) ∙ n)

kept :
    (key : String) (maximum : ℕ) (l : AuthLimit) (b : Bool) (after : Store)
    → l.attempts ≤ maximum
    → find_limit key after.auth_limits ≡ some l
    → Passes key maximum l (ok b, after) (λ _. false)
kept key maximum l b after k h = record {
  allowed = b;
  is_answer = refl;
  is_within = record {
    row = l;
    found = h;
    same_window = refl;
    is_counted = omega arith;
    is_bounded = k;
  };
}

renew_other :
    (a b : Bool) (c : AuthCall) (seconds : ℕ) (key other : String) (maximum m : ℕ) (l r : AuthLimit)
    (db : Store)
    → leb r.expires_at c.now ≡ a
    → leb m r.attempts ≡ b
    → (key == other) ≡ false
    → l.attempts ≤ maximum
    → find_limit key db.auth_limits ≡ some l
    → Passes key maximum l (renew_limit c seconds other m r db) (λ _. false)
unfolding renew_limit ◌>>=◌
renew_other true b c seconds key other maximum m l r db e h n k f =
    rw e (kept key maximum l true _ k (unchanged key other _ db l (λ x. refl) n f))
renew_other false true c seconds key other maximum m l r db e h n k f =
    rw (e, h) (kept key maximum l false db k f)
renew_other false false c seconds key other maximum m l r db e h n k f =
    rw (e, h) (kept key maximum l true _ k (unchanged key other _ db l (λ x. refl) n f))

pub reserve_own :
    (c : AuthCall) (seconds : ℕ) (key : String) (maximum : ℕ) (l : AuthLimit) (db : Store)
    → leb l.expires_at c.now ≡ false
    → l.attempts ≤ maximum
    → find_limit key db.auth_limits ≡ some l
    → Passes key maximum l (reserve_attempt c seconds key maximum db) (λ a. a)
unfolding reserve_attempt reserve_row ◌>>=◌
reserve_own c seconds key maximum l db e k f =
    subst (λ r. Passes key maximum l (reserve_row c seconds key maximum r db) (λ a. a)) (sym f)
      (renew_own (leb maximum l.attempts) c seconds key maximum l db e refl k f)

pub reserve_case :
    (c : AuthCall) (seconds : ℕ) (key other : String) (maximum m : ℕ) (l : AuthLimit)
    (row : Option AuthLimit) (db : Store)
    → find_limit other db.auth_limits ≡ row
    → (key == other) ≡ false
    → l.attempts ≤ maximum
    → find_limit key db.auth_limits ≡ some l
    → Passes key maximum l (reserve_attempt c seconds other m db) (λ _. false)
unfolding reserve_attempt reserve_row ◌>>=◌ find_limit
reserve_case c seconds key other maximum m l none db e n k f =
    subst (λ r. Passes key maximum l (reserve_row c seconds other m r db) (λ _. false)) (sym e)
      (kept key maximum l true _ k
        (first-append_found (λ x. x.bucket_hash == key) db.auth_limits _ l f))
reserve_case c seconds key other maximum m l (some r) db e n k f =
    subst (λ r. Passes key maximum l (reserve_row c seconds other m r db) (λ _. false)) (sym e)
      (renew_other (leb r.expires_at c.now) (leb m r.attempts) c seconds key other maximum m l r db
        refl refl n k f)
