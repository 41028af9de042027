-- ===== src/Control/Accounts/Resets.antt =====
-- What a password reset leaves (apps/api/breakroom_api/password_auth.py).
use breakroom.Base.{
  ◌≡◌, refl, sym, ap, ◌∙◌, subst, inl, inr, String, Bool, true, false, not, some, List, [], ◌∷◌,
  any, filter, first_test, first-update_where, update_where, ltb, arith, ◌==◌,
}
use breakroom.Control.Rows.{Credential, AccountToken, reset, Store}
use breakroom.Control.Monad.{ok, modify, ◌>>=◌}
use breakroom.Control.Answers.{
  option_run, require_run, modify_run, fail_run, bind_run, reply_run, transaction_run,
}
use breakroom.Control.Accounts.Request.{HttpRequest, AuthCall}
use breakroom.Control.Accounts.Limits.{token_kind}
use breakroom.Control.Accounts.Tokens.{
  find_token, lock_credential, find_credential, update_credential, consume_token,
}
use breakroom.Control.Accounts.Sessions.{require_origin}
use breakroom.Control.Accounts.Handlers.{available, attempt}
use breakroom.Control.Accounts.Passwords.{revoke_all, replace_password, reset_password}
use breakroom.Control.Accounts.Budgets.{SameTables, Keeps-attempt}
use breakroom.Control.Accounts.Credentials.{IsConsumed, consume_token-IsConsumed}

-- The token was there for its user and had not expired; the user has the new password, no session
-- and no token.
pub record IsReset (c : AuthCall) (raw password : String) (db after : Store) : Type 0 where
  pub token : AccountToken
  pub found : find_token (c.hash raw) reset db.account_tokens ≡ some token
  pub is_valid : ltb c.now token.expires_at ≡ true
  pub encoded : String
  pub is_encoded : c.hash_password password ≡ ok encoded
  pub no_session : any (λ s. s.user_id == token.user_id) after.sessions ≡ false
  pub no_token : any (λ t. t.user_id == token.user_id) after.account_tokens ≡ false
  pub credential : Credential
  pub has_credential : find_credential token.user_id after.credentials ≡ some credential
  pub is_new : credential.password_hash ≡ encoded

any-filter-none {ℓ} :
    {A : Type ℓ} (q : A → Bool) (xs : List A) → any q (filter (λ x. not (q x)) xs) ≡ false
any-filter-none q [] = refl
any-filter-none q (x ∷ xs) = ground (arith, any-filter-none q xs)

renewed :
    (c : AuthCall) (uid encoded : String) (xs : List Credential) (x : Credential)
    → find_credential uid xs ≡ some x
    → (y : Credential) × (find_credential uid (
          update_where
            (λ z. z.user_id == uid)
            (λ z. record z { password_hash = encoded; changed_at = c.now })
            xs)
        ≡ some y)
      × (y.password_hash ≡ encoded)
unfolding find_credential
renewed c uid encoded xs x h = (
  record x { password_hash = encoded; changed_at = c.now },
  first-update_where (λ z. z.user_id == uid) (λ z. z.user_id == uid) _ xs (λ z. refl)
      ∙ rw (h, first_test (λ z. z.user_id == uid) xs x h) refl,
  refl,
)

replaced :
    (c : AuthCall) (raw password encoded : String) (t : AccountToken) (db mid after : Store)
    → c.hash_password password ≡ ok encoded
    → IsConsumed c raw reset t db mid
    → after
      ≡ revoke_all t.user_id (
          update_credential t.user_id
            (λ z. record z { password_hash = encoded; changed_at = c.now })
            mid)
    → IsReset c raw password db after
unfolding revoke_all update_credential lock_credential
replaced c raw password encoded t db mid after e h u =
    let r = renewed c t.user_id encoded db.credentials h.credential h.has_credential in
    record {
      token = t;
      found = h.found;
      is_valid = h.is_valid;
      encoded = encoded;
      is_encoded = e;
      no_session =
          ap (λ s. any (λ x. x.user_id == t.user_id) s.sessions) u ∙ any-filter-none _ mid.sessions;
      no_token =
          ap (λ s. any (λ x. x.user_id == t.user_id) s.account_tokens) u
          ∙ any-filter-none _ mid.account_tokens;
      credential = r.0;
      has_credential =
          ap (λ s. find_credential t.user_id s.credentials) u
          ∙ ap
              (λ s. find_credential t.user_id (
                update_where (λ z. z.user_id == t.user_id)
                  (λ z. record z { password_hash = encoded; changed_at = c.now }) s.credentials))
              h.removed
          ∙ r.1;
      is_new = r.2;
    }

modify_done : (f : Store → Store) (db after : Store) → modify f db ≡ (ok tt, after) → after ≡ f db
unfolding ◌>>=◌
modify_done f db after h = ap (λ r. r.1) (sym h)

replace_password-IsReset :
    (c : AuthCall) (raw password encoded : String) (db after : Store)
    → c.hash_password password ≡ ok encoded
    → replace_password c raw encoded db ≡ (ok tt, after)
    → IsReset c raw password db after
unfolding replace_password
replace_password-IsReset c raw password encoded db after e h =
    let (row, mid, m, k) = bind_run (consume_token c raw reset) _ db after tt h in
    elim (option_run row _ _ mid _ k) [
      | inl (_, z) ↦ fail_run _ mid after _ z
      | inr (t, same, z) ↦
          replaced c raw password encoded t db mid after e
            (consume_token-IsConsumed c raw reset t db mid (m ∙ ap (λ r. (ok r, mid)) same))
            (modify_done _ _ after (modify_run _ _ mid _ z))
    ]

-- The budgets do not change what a reset is about.
at_start :
    (c : AuthCall) (raw password : String) (a db after : Store)
    → SameTables a db
    → IsReset c raw password db after
    → IsReset c raw password a after
at_start c raw password a db after s h = record {
  token = h.token;
  found = ap (λ ts. find_token (c.hash raw) reset ts) (sym s.0) ∙ h.found;
  is_valid = h.is_valid;
  encoded = h.encoded;
  is_encoded = h.is_encoded;
  no_session = h.no_session;
  no_token = h.no_token;
  credential = h.credential;
  has_credential = h.has_credential;
  is_new = h.is_new;
}

-- A reset that succeeds had a token of the user that had not expired, and leaves the user with the
-- hash of the new password, no session and no account token.
pub reset_password-IsReset :
    (c : AuthCall) (request : HttpRequest) (raw password : String) (db after : Store)
    → reset_password c request raw password db ≡ (ok tt, after)
    → IsReset c raw password db after
unfolding reset_password available require_origin
reset_password-IsReset c request raw password db after h =
    let k = (require_run _ _ _ db after tt (require_run _ _ _ db after tt h).1).1 in
    let (u, mid, m, l) = bind_run (attempt c request token_kind (c.hash raw)) _ db after tt k in
    let (encoded, e, z) = reply_run (c.hash_password password) _ mid after tt l in
    at_start c raw password db mid after
      (subst (λ s. SameTables db s) (ap (λ r. r.1) m)
        ((Keeps-attempt c request token_kind (c.hash raw)).at db))
      (replace_password-IsReset c raw password encoded mid after e
        (transaction_run _ mid after tt z))
