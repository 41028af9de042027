-- ===== src/Control/Accounts/Budgets.antt =====
-- What the budgets leave alone (apps/api/breakroom_api/password_db.py).
use breakroom.Base.{Option, none, some, ℕ, ◌≡◌, refl, ◌∙◌, String, Bool}
use Prim.Native.Nat.{Ordering, lt, eq, gt}
use Prim.Native.String.{compare}
use breakroom.Control.Rows.{AuthLimit, Store}
use breakroom.Control.Monad.{Act}
use breakroom.Control.Effects.{
  Preorder, Keeps, Keeps-modify, Keeps-bind, Keeps-gets, Keeps-pure, Keeps-if, Keeps-transaction,
  Keeps-require,
}
use breakroom.Control.Accounts.Request.{HttpRequest, AuthCall}
use breakroom.Control.Accounts.Limits.{
  AttemptKind, reserve_attempt, reserve_row, reserve_both, renew_limit, consume_attempts,
  update_limit, account_bucket, peer_bucket,
}
use breakroom.Control.Accounts.Handlers.{attempt}

-- The budgets leave the other tables alone.
abbrev pub SameTables : Store → Store → Type 0
SameTables a b =
    (b.account_tokens ≡ a.account_tokens) × (b.credentials ≡ a.credentials) × (b.users ≡ a.users)

o : Preorder SameTables
o = record {
  same = λ a. (refl, refl, refl);
  chain = λ a b c h k. (k.0 ∙ h.0, k.1 ∙ h.1, k.2 ∙ h.2);
}

Keeps-renew_limit :
    (c : AuthCall) (n : ℕ) (key : String) (m : ℕ) (l : AuthLimit)
    → Keeps SameTables (renew_limit c n key m l)
unfolding renew_limit update_limit
Keeps-renew_limit c n key m l =
    Keeps-if _ _ _ (Keeps-bind o _ _ (Keeps-modify _ λ db. (refl, refl, refl)) λ _. Keeps-pure o _)
      (Keeps-if _ _ _ (Keeps-pure o _)
        (Keeps-bind o _ _ (Keeps-modify _ λ db. (refl, refl, refl)) λ _. Keeps-pure o _))

Keeps-reserve_row :
    (c : AuthCall) (n : ℕ) (key : String) (m : ℕ) (row : Option AuthLimit)
    → Keeps SameTables (reserve_row c n key m row)
unfolding reserve_row
Keeps-reserve_row c n key m none =
    Keeps-bind o _ _ (Keeps-modify _ λ db. (refl, refl, refl)) λ _. Keeps-pure o _
Keeps-reserve_row c n key m (some l) = Keeps-renew_limit c n key m l

Keeps-reserve_attempt :
    (c : AuthCall) (n : ℕ) (key : String) (m : ℕ) → Keeps SameTables (reserve_attempt c n key m)
unfolding reserve_attempt
Keeps-reserve_attempt c n key m =
    Keeps-bind o _ _ (Keeps-gets o _) λ row. Keeps-reserve_row c n key m row

Keeps-ordering :
    (r : Ordering) (m n : Act Bool)
    → Keeps SameTables m
    → Keeps SameTables n
    → Keeps SameTables (elim r as (λ _. Act Bool) [ lt ↦ m | eq ↦ m | gt ↦ n ])
Keeps-ordering lt m n h k = h
Keeps-ordering eq m n h k = h
Keeps-ordering gt m n h k = k

Keeps-reserve_both :
    (c : AuthCall) (n : ℕ) (a b : String × ℕ) → Keeps SameTables (reserve_both c n a b)
unfolding reserve_both
Keeps-reserve_both c n a b =
    Keeps-bind o _ _ (Keeps-reserve_attempt c n a.0 a.1)
      λ _. Keeps-bind o _ _ (Keeps-reserve_attempt c n b.0 b.1) λ _. Keeps-pure o _

Keeps-consume_attempts :
    (c : AuthCall) (kind : AttemptKind) (email peer : String)
    → Keeps SameTables (consume_attempts c kind email peer)
unfolding consume_attempts
Keeps-consume_attempts c kind email peer =
    Keeps-ordering (compare (account_bucket c kind email) (peer_bucket c kind peer)) _ _
      (Keeps-transaction o _ (Keeps-reserve_both c _ _ _))
      (Keeps-transaction o _ (Keeps-reserve_both c _ _ _))

pub Keeps-attempt :
    (c : AuthCall) (request : HttpRequest) (kind : AttemptKind) (email : String)
    → Keeps SameTables (attempt c request kind email)
unfolding attempt
Keeps-attempt c request kind email =
    Keeps-bind o _ _ (Keeps-consume_attempts c kind email request.peer) λ _. Keeps-require o _ _
