-- ===== src/Control/Billing/Kept/Events.antt =====
-- How the rows of webhook events develop (apps/api/breakroom_api/team_billing.py).
use breakroom.Base.{
  ◌+◌, ℕ, ◌≡◌, refl, ap, sym, ◌∙◌, String, Bool, true, false, not, ◌&&◌, ◌||◌, Option, none, some,
  List, [], ◌∷◌, ◌++◌, ◌==◌, all, leb, filter, first, update_where, updated, map_found,
  first-append_found, first-update_where, Bool-cases, inl, inr, eq_of_test, arith, if◌then◌else◌,
}
use breakroom.Control.Rows.{BillingEvent, processing}
use breakroom.Control.Billing.Provider.{BillingCall}
use breakroom.Control.Billing.Inbox.{find_event}
use breakroom.Control.Billing.Worker.{earliest}

-- An event of this identifier has been attempted `n` times or more.
abbrev pub is_tried : String → ℕ → BillingEvent → Bool
is_tried id n e = not (e.event_id == id) || leb n e.attempts

-- A row of the event is on record, with this digest.
pub record IsRecorded (id digest : String) (xs : List BillingEvent) : Type 0 where
  pub row : BillingEvent
  pub found : find_event id xs ≡ some row
  pub same_digest : row.payload_hash ≡ digest

-- What a claim writes.
abbrev pub claimed_row : BillingCall → BillingEvent → BillingEvent → BillingEvent
claimed_row c e x = record x {
  status = processing;
  attempts = e.attempts + 1;
  lease_token = some c.opaque_id;
  lease_until = some (c.now + 120);
}

-- No row of an event is lost, no digest changes, and no count of attempts falls.
pub record Advances (xs ys : List BillingEvent) : Type 0 where
  pub recorded : (id digest : String) → IsRecorded id digest xs → IsRecorded id digest ys
  pub tried :
      (id digest : String) (n : ℕ)
      → IsRecorded id digest xs
      → all (is_tried id n) xs ≡ true
      → all (is_tried id n) ys ≡ true

pub Advances-refl : (xs : List BillingEvent) → Advances xs xs
Advances-refl xs = record { recorded = λ id d h. h; tried = λ id d n r h. h }

pub Advances-trans :
    (xs ys zs : List BillingEvent) → Advances xs ys → Advances ys zs → Advances xs zs
Advances-trans xs ys zs f g = record {
  recorded = λ id d h. g.recorded id d (f.recorded id d h);
  tried = λ id d n r h. g.tried id d n (f.recorded id d r) (f.tried id d n r h);
}

all-append_one :
    (p : BillingEvent → Bool) (xs : List BillingEvent) (e : BillingEvent)
    → all p xs ≡ true
    → p e ≡ true
    → all p (xs ++ e ∷ []) ≡ true
all-append_one p [] e h k = ground arith
all-append_one p (x ∷ xs) e h k = ground (arith, all-append_one p xs e)

-- A new event is of no identifier on record.
other_event :
    (id digest : String) (e : BillingEvent) (xs : List BillingEvent)
    → find_event e.event_id xs ≡ none
    → IsRecorded id digest xs
    → (e.event_id == id) ≡ false
other_event id digest e xs new r = elim (Bool-cases (e.event_id == id)) [
  | inl same ↦ cc (ap (λ i. find_event i xs) (eq_of_test e.event_id id same), new, r.found)
  | inr differ ↦ differ
]

pub Advances-append :
    (xs : List BillingEvent) (e : BillingEvent)
    → find_event e.event_id xs ≡ none
    → Advances xs (xs ++ e ∷ [])
unfolding find_event
Advances-append xs e new = record {
  recorded = λ id d r. record {
    row = r.row;
    found = first-append_found (λ x. x.event_id == id) xs (e ∷ []) r.row r.found;
    same_digest = r.same_digest;
  };
  tried =
      λ id d n r h. all-append_one (is_tried id n) xs e h (rw (other_event id d e xs new r) refl);
}

-- An update of the rows of one event that keeps identifier and digest, and the attempts of which
-- are at least any number that all of those rows have.
pub record IsUpdate (id : String) (f : BillingEvent → BillingEvent) (xs : List BillingEvent)
    : Type 0 where
  pub same_id : (x : BillingEvent) → (f x).event_id ≡ x.event_id
  pub same_hash : (x : BillingEvent) → (f x).payload_hash ≡ x.payload_hash
  pub no_fall :
      (n : ℕ) (x : BillingEvent)
      → all (is_tried id n) xs ≡ true
      → leb n x.attempts ≡ true
      → leb n (f x).attempts ≡ true

updated_digest :
    (b : Bool) (f : BillingEvent → BillingEvent) (x : BillingEvent)
    → (f x).payload_hash ≡ x.payload_hash
    → (if b then f x else x).payload_hash ≡ x.payload_hash
updated_digest true f x h = h
updated_digest false f x h = refl

IsRecorded-update :
    (id : String) (f : BillingEvent → BillingEvent) (xs : List BillingEvent) (u : IsUpdate id f xs)
    (other digest : String)
    → IsRecorded other digest xs
    → IsRecorded other digest (update_where (λ e. e.event_id == id) f xs)
unfolding find_event
IsRecorded-update id f xs u other digest r = record {
  row = updated (λ e. e.event_id == id) f r.row;
  found =
      first-update_where (λ e. e.event_id == id) (λ e. e.event_id == other) f xs
        (λ x. ap (λ i. i == other) (u.same_id x))
      ∙ ap (map_found (updated (λ e. e.event_id == id) f)) r.found;
  same_digest = updated_digest (r.row.event_id == id) f r.row (u.same_hash r.row) ∙ r.same_digest;
}

-- Rows of one event that all pass the test still do.
tried_row :
    (id other : String) (n : ℕ) (f : BillingEvent → BillingEvent) (x : BillingEvent)
    → (f x).event_id ≡ x.event_id
    → (id ≡ other → leb n x.attempts ≡ true → leb n (f x).attempts ≡ true)
    → is_tried other n x ≡ true
    → is_tried other n (if x.event_id == id then f x else x) ≡ true
tried_row id other n f x same h k = elim (Bool-cases (x.event_id == id)) [
  | inr differ ↦ rw differ k
  | inl own ↦ elim (Bool-cases (x.event_id == other)) [
    | inr differ ↦ rw (own, same, differ) refl
    | inl this ↦
        let e : id ≡ other =
          sym (eq_of_test x.event_id id own) ∙ eq_of_test x.event_id other this in
        rw (own, same, this) (h e (rw this at k))
  ]
]

tried-update :
    (id other : String) (n : ℕ) (f : BillingEvent → BillingEvent) (xs : List BillingEvent)
    → ((x : BillingEvent) → (f x).event_id ≡ x.event_id)
    → ((x : BillingEvent) → id ≡ other → leb n x.attempts ≡ true → leb n (f x).attempts ≡ true)
    → all (is_tried other n) xs ≡ true
    → all (is_tried other n) (update_where (λ e. e.event_id == id) f xs) ≡ true
tried-update id other n f [] same h k = refl
tried-update id other n f (x ∷ xs) same h k =
    let (head, rest) = both (is_tried other n x) _ k in
    both_true (tried_row id other n f x (same x) (h x) head)
      (tried-update id other n f xs same h rest)
  where
    both : (a b : Bool) → (a && b) ≡ true → (a ≡ true) × (b ≡ true)
    both a b h = ground arith

    both_true : {a b : Bool} → a ≡ true → b ≡ true → (a && b) ≡ true
    both_true p q = ground arith

pub Advances-update :
    (id : String) (f : BillingEvent → BillingEvent) (xs : List BillingEvent)
    → IsUpdate id f xs
    → Advances xs (update_where (λ e. e.event_id == id) f xs)
Advances-update id f xs u = record {
  recorded = IsRecorded-update id f xs u;
  tried = λ other d n r h.
      tried-update id other n f xs u.same_id
        (λ x e. u.no_fall n x (ap (λ i. all (is_tried i n) xs) e ∙ h)) h;
}

all-filter :
    (p q : BillingEvent → Bool) (xs : List BillingEvent)
    → all p xs ≡ true
    → all p (filter q xs) ≡ true
all-filter p q [] h = refl
all-filter p q (x ∷ xs) h = ground (arith, all-filter p q xs)

earliest-all :
    (p : BillingEvent → Bool) (xs : List BillingEvent) (e : BillingEvent)
    → earliest xs ≡ some e
    → all p xs ≡ true
    → p e ≡ true
unfolding earliest
earliest-all p [] e found h = cc
earliest-all p (x ∷ xs) e found h =
    let (head, rest) = both (p x) (all p xs) h in
    chosen (earliest xs) head (λ f k. earliest-all p xs f k rest) found
  where
    both : (a b : Bool) → (a && b) ≡ true → (a ≡ true) × (b ≡ true)
    both a b h = ground arith

    one : {y z : BillingEvent} → some y ≡ some z → p y ≡ true → p z ≡ true
    one k m = ap p (cc) ∙ m

    chosen :
        (r : Option BillingEvent)
        → p x ≡ true
        → ((f : BillingEvent) → r ≡ some f → p f ≡ true)
        → elim r [
          | none ↦ some x
          | some f ↦ if leb x.created_at f.created_at then some x else some f
        ]
          ≡ some e
        → p e ≡ true
    chosen none h k found = one found h
    chosen (some f) h k found = elim (Bool-cases (leb x.created_at f.created_at)) [
      | inl first ↦ one (rw first at found) h
      | inr second ↦ one (rw second at found) (k f refl)
    ]

-- The row that the worker claims is one of the list, so it passes what all of them pass.
pub claimed-all :
    (p q : BillingEvent → Bool) (xs : List BillingEvent) (e : BillingEvent)
    → earliest (filter q xs) ≡ some e
    → all p xs ≡ true
    → p e ≡ true
claimed-all p q xs e found h = earliest-all p (filter q xs) e found (all-filter p q xs h)
