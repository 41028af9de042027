-- ===== src/Control/Workspace/Invitations.antt =====
-- The invitations of a project (apps/api/breakroom_api/team_workspace.py). `identity` and `authorize`
-- are what the caller passes.
use breakroom.Base.{
  ℕ, ◌+◌, ◌*◌, String, Bool, true, false, not, ◌&&◌, ◌||◌, Option, none, some, List, [], ◌∷◌, ◌++◌,
  any, filter, first, update_where, length, leb, ltb, member, ◌==◌,
}
use breakroom.Base.Fold.{casefold}
use breakroom.Control.Rows.{User, Role, viewer, developer, owner, Membership, Invitation, Store}
use breakroom.Control.Monad.{
  Act, Answer, http, gets, query, modify, pure, fail, require, transaction, ◌>>=◌, ◌>>◌,
}
use breakroom.Control.Billing.Provider.{BillingCall}
use breakroom.Control.Billing.Account.{enforce}
use breakroom.Control.Accounts.Tokens.{development_issuer, user_email_verified}

-- A person, or an API key.
pub record Who : Type 0 where
  pub user : User
  pub by_key : Bool

-- One call: what billing is given, the secret that it draws, and SHA-256.
pub record WorkspaceCall : Type 0 where
  pub billing : BillingCall
  pub secret : String
  pub hash : String → String

-- `human`
unfoldable pub human : Who → Act Who
human who = do require (not who.by_key) (http 403); pure who

abbrev pub is_set : Option ℕ → Bool
is_set none = false
is_set (some _) = true

unfoldable pub is_active : WorkspaceCall → String → Invitation → Bool
is_active c project_id i =
    i.project_id == project_id
    && not (is_set i.revoked_at)
    && not (is_set i.accepted_at)
    && ltb c.billing.now i.expires_at

-- An earlier link for the same address.
unfoldable pub is_superseded : String → String → Invitation → Bool
is_superseded project_id email i =
    i.project_id == project_id
    && i.email == email
    && not (is_set i.accepted_at)
    && not (is_set i.revoked_at)

abbrev pub new_invitation : WorkspaceCall → String → Who → String → Role → ℕ → Invitation
new_invitation c project_id who email role expires_days = record {
  id = c.billing.opaque_id;
  project_id = project_id;
  invited_by = who.user.id;
  email = email;
  role = role;
  token_hash = c.hash c.secret;
  created_at = c.billing.now;
  expires_at = c.billing.now + expires_days * 86400;
  revoked_at = none;
  accepted_at = none;
}

-- The transaction of `create_invitation`.
unfoldable pub issue_invitation :
    WorkspaceCall → String → (Store → Answer Who) → String → Role → ℕ → Act Invitation
unfolding human enforce is_active is_superseded
issue_invitation c project_id authorize email role expires_days = do
  who ← query authorize
  human who
  enforce c.billing project_id 1 none
  active ← gets (λ db. length (filter (is_active c project_id) db.invitations))
  require (not (leb 100 active)) (http 409)
  modify (λ db. record db {
    invitations =
        update_where (is_superseded project_id email)
          (λ i. record i { revoked_at = some c.billing.now }) db.invitations
        ++ new_invitation c project_id who email role expires_days ∷ [];
  })
  pure (new_invitation c project_id who email role expires_days)

-- `create_invitation`
unfoldable pub create_invitation :
    WorkspaceCall → String → (Store → Answer Who) → String → Role → ℕ → Act Invitation
unfolding issue_invitation
create_invitation c project_id authorize email role expires_days =
    transaction (issue_invitation c project_id authorize email role expires_days)

abbrev pub names_invitation : String → String → Invitation → Bool
names_invitation project_id id i = i.id == id && i.project_id == project_id

-- `revoke_invitation`
unfoldable pub revoke_invitation :
    WorkspaceCall → String → String → (Store → Answer Who) → Act (Unit {0})
unfolding human
revoke_invitation c project_id id authorize = transaction (do
  who ← query authorize
  human who
  found ← gets (λ db. any (names_invitation project_id id) db.invitations)
  modify (λ db. record db {
    invitations =
        update_where (names_invitation project_id id)
          (λ i. record i { revoked_at = some c.billing.now }) db.invitations;
  })
  require found (http 404))

unfoldable pub find_invitation : String → List Invitation → Option Invitation
find_invitation hash = first (λ i. i.token_hash == hash)

unfoldable pub invitation_by_id : String → List Invitation → Option Invitation
invitation_by_id id = first (λ i. i.id == id)

unfoldable pub find_member : String → String → List Membership → Option Membership
find_member project_id user_id = first (λ m. m.project_id == project_id && m.user_id == user_id)

abbrev pub is_owner : Option Membership → Bool
is_owner none = false
is_owner (some m) = elim m.role [ owner ↦ true | viewer ↦ false | developer ↦ false ]

-- The invitation may still be accepted.
unfoldable pub is_open : WorkspaceCall → Invitation → Bool
is_open c i =
    not (is_set i.revoked_at) && not (is_set i.accepted_at) && ltb c.billing.now i.expires_at

abbrev pub is_local : WorkspaceCall → User → Bool
is_local c user =
    user.issuer == development_issuer
    && c.billing.settings.dev_login
    && (c.billing.settings.environment == "development" || c.billing.settings.environment == "test")

pub record Joined : Type 0 where
  pub project_id : String
  pub role : Role
  pub already_member : Bool

-- The membership of a person who was invited, which takes a seat where it is new.
unfoldable pub join_project : WorkspaceCall → User → Invitation → Act Joined
unfolding find_member enforce
join_project c user i = do
  member ← gets (λ db. find_member i.project_id user.id db.memberships)
  elim member [
    | some m ↦ pure (record { project_id = i.project_id; role = m.role; already_member = true })
    | none ↦ do
      enforce c.billing i.project_id 1 none
      modify (λ db. record db {
        memberships =
            db.memberships
            ++ record { project_id = i.project_id; user_id = user.id; role = i.role } ∷ [];
      })
      pure (record { project_id = i.project_id; role = i.role; already_member = false })
  ]

abbrev pub accepted_now : WorkspaceCall → String → Store → Store
accepted_now c id db = record db {
  invitations =
      update_where (λ x. x.id == id) (λ x. record x { accepted_at = some c.billing.now })
        db.invitations;
}

-- What `accept_invitation` does with the row under its lock.
unfoldable pub accept_open : WorkspaceCall → User → Invitation → Act Joined
unfolding is_open find_member user_email_verified casefold join_project
accept_open c user i = do
  project ← gets (λ db. member i.project_id db.projects)
  require (project && is_open c i) (http 410)
  inviter ← gets (λ db. find_member i.project_id i.invited_by db.memberships)
  require (is_owner inviter) (http 410)
  verified ← gets (user_email_verified user)
  require (is_local c user || verified) (http 403)
  require (casefold user.email == i.email) (http 403)
  joined ← join_project c user i
  modify (accepted_now c i.id)
  pure joined

-- The invitation that the token names, read once and then under its lock.
unfoldable pub accept_named : WorkspaceCall → User → String → Act Joined
unfolding find_invitation invitation_by_id accept_open
accept_named c user token = do
  row ← gets (λ db. find_invitation (c.hash token) db.invitations)
  elim row [
    | none ↦ fail (http 404)
    | some r ↦ do
      locked ← gets (λ db. invitation_by_id r.id db.invitations)
      elim locked [ none ↦ fail (http 410) | some i ↦ accept_open c user i ]
  ]

-- The transaction of `accept_invitation`.
unfoldable pub accept_row : WorkspaceCall → (Store → Answer Who) → String → Act Joined
unfolding human accept_named
accept_row c identity token = do who ← query identity; human who; accept_named c who.user token

-- `accept_invitation`
unfoldable pub accept_invitation : WorkspaceCall → (Store → Answer Who) → String → Act Joined
unfolding accept_row
accept_invitation c identity token = transaction (accept_row c identity token)
