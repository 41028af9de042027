-- ===== src/Control/Accounts/Credentials.antt =====
-- What a token, a sign-in and a reset mean (apps/api/breakroom_api/password_db.py,
-- password_auth.py).
use breakroom.Base.{
  ◌≡◌, refl, ap, ◌∙◌, subst, inl, inr, String, Bool, true, false, not, none, some, List, [], ◌∷◌,
  filter, first, ltb, arith, if◌then◌else◌,
}
use breakroom.Control.Rows.{Credential, AccountToken, Purpose, Store}
use breakroom.Control.Monad.{ok}
use breakroom.Control.Answers.{
  option_run, option_pass, pure_pass, gets_run, gets_pass, modify_run, pure_run,
}
use breakroom.Control.Accounts.Request.{AuthCall}
use breakroom.Control.Accounts.Tokens.{
  find_token, names_token, lock_credential, take_token, consume_token,
}

first-filter-none {ℓ} :
    {A : Type ℓ} (q : A → Bool) (xs : List A) → first q (filter (λ x. not (q x)) xs) ≡ none
first-filter-none q [] = refl
first-filter-none q (x ∷ xs) = ground (arith, first-filter-none q xs)

-- A token that was consumed was there, had not expired, and is gone.
pub record IsConsumed (c : AuthCall) (raw : String) (p : Purpose) (t : AccountToken)
    (db after : Store) : Type 0 where
  pub found : find_token (c.hash raw) p db.account_tokens ≡ some t
  pub is_valid : ltb c.now t.expires_at ≡ true
  pub credential : Credential
  pub has_credential : lock_credential t.user_id db ≡ some credential
  pub removed : after ≡ record db {
    account_tokens = filter (λ x. not (names_token (c.hash raw) p x)) db.account_tokens;
  }

unexpired :
    {t u : AccountToken} (b : Bool) → (if b then some t else none) ≡ some u → (b ≡ true) × (t ≡ u)
unexpired true h = (refl, cc)
unexpired false h = cc

missing : {A : Type 0} {t : AccountToken} → none ≡ some t → A
missing h = cc

taken :
    (c : AuthCall) (raw : String) (p : Purpose) (t u : AccountToken) (db after : Store)
    (x : Credential)
    → find_token (c.hash raw) p db.account_tokens ≡ some u
    → lock_credential u.user_id db ≡ some x
    → take_token c (c.hash raw) p u db ≡ (ok (some t), after)
    → IsConsumed c raw p t db after
unfolding take_token
taken c raw p t u db after x found has m =
    let r = pure_run _ _ _ after (modify_run _ _ db _ m) in
    let v = unexpired (ltb c.now u.expires_at) r.0 in
    subst (λ z. IsConsumed c raw p z db after) v.1
      (record {
        found = found;
        is_valid = v.0;
        credential = x;
        has_credential = has;
        removed = r.1;
      })

pub consume_token-IsConsumed :
    (c : AuthCall) (raw : String) (p : Purpose) (t : AccountToken) (db after : Store)
    → consume_token c raw p db ≡ (ok (some t), after)
    → IsConsumed c raw p t db after
unfolding consume_token take_token
consume_token-IsConsumed c raw p t db after h =
    elim (option_run (find_token (c.hash raw) p db.account_tokens) _ _ db _ (gets_run _ _ db _ h)) [
      | inl (_, k) ↦ missing (pure_run _ _ db after k).0
      | inr (u, found, k) ↦
          elim (option_run (lock_credential u.user_id db) _ _ db _ (gets_run _ _ db _ k)) [
            | inl (_, m) ↦ missing (pure_run _ _ db after m).0
            | inr (x, has, m) ↦ taken c raw p t u db after x found has m
          ]
    ]

no_token :
    (d : AuthCall) (raw : String) (p : Purpose) (db : Store)
    → find_token (d.hash raw) p db.account_tokens ≡ none
    → consume_token d raw p db ≡ (ok none, db)
unfolding consume_token
no_token d raw p db h =
    gets_pass _ _ db _
      (option_pass (find_token (d.hash raw) p db.account_tokens) _ _ db h ∙ pure_pass none db)

token_gone :
    (c d : AuthCall) (raw : String) (p : Purpose) (t : AccountToken) (db after : Store)
    → d.hash raw ≡ c.hash raw
    → IsConsumed c raw p t db after
    → find_token (d.hash raw) p after.account_tokens ≡ none
unfolding find_token
token_gone c d raw p t db after e h =
    ap (λ k. first (names_token k p) after.account_tokens) e
    ∙ ap (λ s. first (names_token (c.hash raw) p) s.account_tokens) h.removed
    ∙ first-filter-none (names_token (c.hash raw) p) db.account_tokens

-- After a call that consumed a token, a call for the same token with the same digest finds nothing
-- and changes nothing.
pub consume_token-once :
    (c d : AuthCall) (raw : String) (p : Purpose) (t : AccountToken) (db after : Store)
    → d.hash raw ≡ c.hash raw
    → consume_token c raw p db ≡ (ok (some t), after)
    → consume_token d raw p after ≡ (ok none, after)
consume_token-once c d raw p t db after e h =
    no_token d raw p after
      (token_gone c d raw p t db after e (consume_token-IsConsumed c raw p t db after h))
