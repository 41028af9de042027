-- ===== src/Evaluator/Quiet.antt =====
-- Lists of checks of which none fails, or none is unknown (packages/breakroom-core/src/breakroom/evaluator.py).
use breakroom.Base.{
  member, ◌≡◌, refl, sym, String, Bool, true, false, List, [], ◌∷◌, ◌++◌, map, any, arith,
}
use breakroom.Evaluator.Record.{Category, safety, Check, Trial, of_bool, item}
use breakroom.Evaluator.Checks.{
  soften, is_fail, is_unknown, registered_checks, safety_checks, closing_checks, raw_checks,
}

any-false-append {ℓ} :
    {A : Type ℓ} (p : A → Bool) (xs ys : List A)
    → any p (xs ++ ys) ≡ false
    → (any p xs ≡ false) × (any p ys ≡ false)
any-false-append p [] ys h = (refl, h)
any-false-append p (x ∷ xs) ys h = ground (arith, any-false-append p xs ys)

-- No check of the list passes the test.
pub record Quiet (p : Check → Bool) (checks : List Check) : Type 0 where
  pub none_of : any p checks ≡ false

-- Where no check of a chain passes the test, none of either part does.
pub Quiet-append :
    {p : Check → Bool} (xs ys : List Check) → Quiet p (xs ++ ys) → Quiet p xs × Quiet p ys
Quiet-append {p = p} xs ys q =
    let (a, b) = any-false-append p xs ys q.none_of in
    (record { none_of = a }, record { none_of = b })

pub Quiet-registered :
    {p : Check → Bool} (t : Trial) (name : String) (checks : List Check)
    → Quiet p (registered_checks t name checks)
    → member name t.case.assertions ≡ true
    → Quiet p checks
Quiet-registered t name checks q m = ground arith

pub of_bool-Quiet :
    (id : String) (c : Category) (b : Bool) (refs : List String)
    → Quiet is_fail (item id c (of_bool b) refs)
    → b ≡ true
of_bool-Quiet id c true refs q = refl
of_bool-Quiet id c false refs q = sym q.none_of

is_unknown-soften : (c : Check) → is_unknown (soften c) ≡ false → is_unknown c ≡ false
unfolding soften
is_unknown-soften c h = ground arith

pub any-soften :
    (cs : List Check) → any is_unknown (map soften cs) ≡ false → any is_unknown cs ≡ false
any-soften [] h = refl
any-soften (c ∷ cs) h = ground (arith, any-soften cs, is_unknown-soften c)

-- The checks of a trial, group by group.
module _ (t : Trial) (p : Check → Bool) where
  pub groups-Quiet : Quiet p (raw_checks t) → Quiet p (safety_checks t) × Quiet p (closing_checks t)
  unfolding raw_checks
  groups-Quiet q =
      let (a, last) = Quiet-append _ _ q in
      let (b, _) = Quiet-append _ _ a in
      let (c, _) = Quiet-append _ _ b in let (first, _) = Quiet-append _ _ c in (first, last)

-- A failed safety check stays failed after an interrupted execution.
abbrev pub hard_fail : Check → Bool
hard_fail c = elim c.category [ safety ↦ is_fail c | _ ↦ false ]

hard_fail-soften : (c : Check) → is_fail (soften c) ≡ false → hard_fail c ≡ false
unfolding soften
hard_fail-soften c h = ground arith

pub any_hard-soften :
    (cs : List Check) → any is_fail (map soften cs) ≡ false → any hard_fail cs ≡ false
any_hard-soften [] h = refl
any_hard-soften (c ∷ cs) h = ground (arith, any_hard-soften cs, hard_fail-soften c)

hard_fail-is_fail : (c : Check) → is_fail c ≡ false → hard_fail c ≡ false
hard_fail-is_fail c h = ground arith

pub any_hard-is_fail : (cs : List Check) → any is_fail cs ≡ false → any hard_fail cs ≡ false
any_hard-is_fail [] h = refl
any_hard-is_fail (c ∷ cs) h = ground (arith, any_hard-is_fail cs, hard_fail-is_fail c)

pub of_bool-hard :
    (id : String) (b : Bool) (refs : List String)
    → Quiet hard_fail (item id safety (of_bool b) refs)
    → b ≡ true
of_bool-hard id true refs q = refl
of_bool-hard id false refs q = sym q.none_of
