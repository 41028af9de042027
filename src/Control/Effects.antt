-- ===== src/Control/Effects.antt =====
-- Rules for what a handler does to the database, however it ends (apps/api/breakroom_api).
use breakroom.Base.{
  ◌≡◌, refl, sym, ◌∙◌, subst, Bool, true, false, Option, none, some, if◌then◌else◌,
}
use breakroom.Control.Rows.{Store}
use breakroom.Control.Monad.{
  Act, Answer, ok, problem, Problem, http, unavailable, invalid_request, unexpected, pure, fail,
  query, gets, reply, transaction, handle, modify, require, when, ◌>>=◌,
}

pub record Preorder (R : Store → Store → Type 0) : Type 0 where
  pub same : (a : Store) → R a a
  pub chain : (a b c : Store) → R a b → R b c → R a c

-- The relation holds between the database before and after, also beside a raise.
pub record Keeps {ℓ} {A : Type ℓ} (R : Store → Store → Type 0) (m : Act A) : Type 0 where
  pub at : (db : Store) → R db (m db).1

module _ {R : Store → Store → Type 0} (o : Preorder R) where
  pub Keeps-pure {ℓ} : {A : Type ℓ} (a : A) → Keeps R (pure a)
  unfolding ◌>>=◌
  Keeps-pure a = record { at = o.same }

  pub Keeps-fail {ℓ} : {A : Type ℓ} (e : Problem) → Keeps R (fail {A = A} e)
  unfolding ◌>>=◌
  Keeps-fail e = record { at = o.same }

  pub Keeps-query {ℓ} : {A : Type ℓ} (q : Store → Answer A) → Keeps R (query q)
  unfolding ◌>>=◌
  Keeps-query q = record { at = o.same }

  pub Keeps-gets {ℓ} : {A : Type ℓ} (f : Store → A) → Keeps R (gets f)
  unfolding ◌>>=◌
  Keeps-gets f = record { at = o.same }

  pub Keeps-reply {ℓ} : {A : Type ℓ} (r : Answer A) → Keeps R (reply r)
  unfolding ◌>>=◌
  Keeps-reply r = record { at = o.same }

  pub Keeps-require : (b : Bool) (e : Problem) → Keeps R (require b e)
  unfolding ◌>>=◌
  Keeps-require b e = record { at = o.same }

  pub Keeps-when : (b : Bool) (m : Act (Unit {0})) → Keeps R m → Keeps R (when b m)
  unfolding ◌>>=◌
  Keeps-when true m h = record { at = h.at }
  Keeps-when false m h = record { at = o.same }

  rolled_back {ℓ} :
      {A : Type ℓ} (db : Store) (x : Answer A × Store) → R db x.1 → R db (transaction (λ _. x) db).1
  unfolding transaction
  rolled_back db (ok a, d) h = h
  rolled_back db (problem e, d) h = o.same db

  pub Keeps-transaction {ℓ} : {A : Type ℓ} (m : Act A) → Keeps R m → Keeps R (transaction m)
  unfolding transaction
  Keeps-transaction m h = record { at = λ db. rolled_back db (m db) (h.at db) }

  caught {ℓ} :
      {A : Type ℓ} (f : Problem → Act A) (db : Store) (x : Answer A × Store)
      → R db x.1
      → ((e : Problem) → Keeps R (f e))
      → R db (handle (λ _. x) f db).1
  unfolding handle
  caught f db (ok a, d) h k = h
  caught f db (problem unavailable, d) h k = o.chain db d _ h ((k unavailable).at d)
  caught f db (problem invalid_request, d) h k = o.chain db d _ h ((k invalid_request).at d)
  caught f db (problem (http code), d) h k = h
  caught f db (problem unexpected, d) h k = h

  pub Keeps-handle {ℓ} :
      {A : Type ℓ} (m : Act A) (f : Problem → Act A)
      → Keeps R m
      → ((e : Problem) → Keeps R (f e))
      → Keeps R (handle m f)
  unfolding handle
  Keeps-handle m f h k = record { at = λ db. caught f db (m db) (h.at db) k }

  bound {ℓ κ} :
      {A : Type ℓ} {B : Type κ} (f : A → Act B) (db : Store) (x : Answer A × Store)
      → R db x.1
      → ((a : A) → Keeps R (f a))
      → R db (((λ _. x) >>= f) db).1
  unfolding ◌>>=◌
  bound f db (ok a, d) h k = o.chain db d _ h ((k a).at d)
  bound f db (problem e, d) h k = h

  pub Keeps-bind {ℓ κ} :
      {A : Type ℓ} {B : Type κ} (m : Act A) (f : A → Act B)
      → Keeps R m
      → ((a : A) → Keeps R (f a))
      → Keeps R (m >>= f)
  unfolding ◌>>=◌
  Keeps-bind m f h k = record { at = λ db. bound f db (m db) (h.at db) k }

pub Keeps-if {ℓ} :
    {A : Type ℓ} {R : Store → Store → Type 0} (b : Bool) (m n : Act A)
    → Keeps R m
    → Keeps R n
    → Keeps R (if b then m else n)
Keeps-if true m n h k = h
Keeps-if false m n h k = k

pub Keeps-case {ℓ} :
    {A : Type ℓ} {R : Store → Store → Type 0} (b : Bool) (m n : Act A)
    → (b ≡ true → Keeps R m)
    → (b ≡ false → Keeps R n)
    → Keeps R (if b then m else n)
Keeps-case true m n h k = h refl
Keeps-case false m n h k = k refl

pub Keeps-option {ℓ κ} :
    {A : Type ℓ} {B : Type κ} {R : Store → Store → Type 0} (x : Option B) (m : Act A)
    (f : B → Act A)
    → Keeps R m
    → ((b : B) → Keeps R (f b))
    → Keeps R (elim x [ none ↦ m | some b ↦ f b ])
Keeps-option none m f h k = h
Keeps-option (some b) m f h k = k b

pub Keeps-modify :
    {R : Store → Store → Type 0} (f : Store → Store)
    → ((db : Store) → R db (f db))
    → Keeps R (modify f)
unfolding ◌>>=◌
Keeps-modify f h = record { at = h }

-- The rest of a handler behind an answer from outside, with what it answered.
pub Keeps-ask {ℓ κ} :
    {A : Type ℓ} {B : Type κ} {R : Store → Store → Type 0} (o : Preorder R) (r : Answer A)
    (f : A → Act B)
    → ((a : A) → r ≡ ok a → Keeps R (f a))
    → Keeps R (reply r >>= f)
unfolding ◌>>=◌
Keeps-ask o (ok a) f k = record { at = (k a refl).at }
Keeps-ask o (problem e) f k = record { at = o.same }

-- The same at one database, behind actions that only read.
module _ {R : Store → Store → Type 0} (o : Preorder R) (db : Store) where
  pub at-ask {ℓ κ} :
      {A : Type ℓ} {B : Type κ} (r : Answer A) (f : A → Act B)
      → ((a : A) → r ≡ ok a → R db (f a db).1)
      → R db ((reply r >>= f) db).1
  unfolding ◌>>=◌
  at-ask (ok a) f k = k a refl
  at-ask (problem e) f k = o.same db

  pub at-gets {ℓ κ} :
      {A : Type ℓ} {B : Type κ} (g : Store → A) (f : A → Act B)
      → R db (f (g db) db).1
      → R db ((gets g >>= f) db).1
  unfolding ◌>>=◌
  at-gets g f k = k

  pub at-require {κ} :
      {B : Type κ} (b : Bool) (e : Problem) (f : Unit {0} → Act B)
      → (b ≡ true → R db (f tt db).1)
      → R db ((require b e >>= f) db).1
  unfolding ◌>>=◌
  at-require true e f k = k refl
  at-require false e f k = o.same db

  pub at-modify {κ} :
      {B : Type κ} (f : Store → Store) (b : B)
      → R db (f db)
      → R db ((modify f >>= λ _. pure b) db).1
  unfolding ◌>>=◌
  at-modify f b k = k

  pub at-if {ℓ} :
      {A : Type ℓ} (b : Bool) (m n : Act A)
      → R db (m db).1
      → R db (n db).1
      → R db ((if b then m else n) db).1
  at-if true m n h k = h
  at-if false m n h k = k

  pub at-option {ℓ κ} :
      {A : Type ℓ} {B : Type κ} (x : Option B) (m : Act A) (f : B → Act A)
      → (x ≡ none → R db (m db).1)
      → ((b : B) → x ≡ some b → R db (f b db).1)
      → R db ((elim x as (λ _. Act A) [ none ↦ m | some b ↦ f b ]) db).1
  at-option none m f h k = h refl
  at-option (some b) m f h k = k b refl

  read_then {ℓ κ} :
      {A : Type ℓ} {B : Type κ} (x : Answer A × Store) (f : A → Act B)
      → x.1 ≡ db
      → ((a : A) → R db (f a db).1)
      → R db (((λ _. x) >>= f) db).1
  unfolding ◌>>=◌
  read_then (ok a, d) f e k = subst (λ s. R db (f a s).1) (sym e) (k a)
  read_then (problem p, d) f e k = subst (λ s. R db s) (sym e) (o.same db)

  pub at-Reads {ℓ κ} :
      {A : Type ℓ} {B : Type κ} (m : Act A) (f : A → Act B)
      → (m db).1 ≡ db
      → ((a : A) → R db (f a db).1)
      → R db ((m >>= f) db).1
  unfolding ◌>>=◌
  at-Reads m f e k = read_then (m db) f e k

pub Unchanged-order : Preorder (λ a b. b ≡ a)
Unchanged-order = record { same = λ a. refl; chain = λ a b c p q. q ∙ p }

pub ruleset keep_rules = (
  Keeps-pure, Keeps-fail, Keeps-query, Keeps-gets, Keeps-reply, Keeps-require, Keeps-when,
  Keeps-transaction, Keeps-handle, Keeps-bind, Keeps-if, Keeps-option,
)
