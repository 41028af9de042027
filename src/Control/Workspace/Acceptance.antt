-- ===== src/Control/Workspace/Acceptance.antt =====
-- Who joins a project (apps/api/breakroom_api/team_workspace.py).
use breakroom.Base.{
  ◌≡◌, refl, sym, ap, ◌∙◌, subst, inl, inr, String, Bool, true, false, not, ◌&&◌, ◌||◌, some,
  update_where, member, ◌==◌,
}
use breakroom.Base.Fold.{casefold}
use breakroom.Control.Rows.{Membership, Invitation, Store}
use breakroom.Control.Monad.{Answer, ok}
use breakroom.Control.Answers.{
  option_run, require_run, gets_run, modify_run, pure_run, fail_run, bind_run, query_run,
  transaction_run,
}
use breakroom.Control.Accounts.Tokens.{user_email_verified}
use breakroom.Control.Workspace.Invitations.{
  Who, WorkspaceCall, human, find_invitation, invitation_by_id, find_member, is_owner, is_open,
  is_local, Joined, join_project, accept_open, accept_named, accept_row, accept_invitation,
}
use breakroom.Control.Workspace.Joining.{
  joined_memberships, SameInvitations, Keeps-join_project, join_project-Joins,
}

-- The person is the one whom an owner of the project invited, is a member of it from then on, and
-- the invitation is used up.
pub record IsInvited (c : WorkspaceCall) (who : Who) (i : Invitation) (j : Joined)
    (db after : Store) : Type 0 where
  pub is_human : who.by_key ≡ false
  pub is_current : is_open c i ≡ true
  pub by_owner : is_owner (find_member i.project_id i.invited_by db.memberships) ≡ true
  pub is_verified : (is_local c who.user || user_email_verified who.user db) ≡ true
  pub is_addressee : (casefold who.user.email == i.email) ≡ true
  pub used :
      after.invitations
      ≡ update_where
          (λ x. x.id == i.id)
          (λ x. record x { accepted_at = some c.billing.now })
          db.invitations
  pub memberships : after.memberships ≡ joined_memberships who.user i db.memberships
  pub row : Membership
  pub found : find_member i.project_id who.user.id after.memberships ≡ some row
  pub same_role : row.role ≡ j.role
  pub same_project : j.project_id ≡ i.project_id

second_true : (a b : Bool) → (a && b) ≡ true → b ≡ true
second_true true b h = h
second_true false b h = cc

false_of_not : (b : Bool) → not b ≡ true → b ≡ false
false_of_not false h = refl
false_of_not true h = cc

accept_open-IsInvited :
    (c : WorkspaceCall) (who : Who) (i : Invitation) (db after : Store) (j : Joined)
    → who.by_key ≡ false
    → accept_open c who.user i db ≡ (ok j, after)
    → IsInvited c who i j db after
unfolding accept_open
accept_open-IsInvited c who i db after j human h =
    let (is_ready, k) = require_run _ _ _ db after j (gets_run _ _ db _ h) in
    let (by_owner, l) = require_run _ _ _ db after j (gets_run _ _ db _ k) in
    let (verified, m) = require_run _ _ _ db after j (gets_run _ _ db _ l) in
    let (addressee, n) = require_run _ _ _ db after j m in
    let (joined, mid, r, z) = bind_run (join_project c who.user i) _ db after j n in
    let (answer, last) = pure_run _ _ _ after (modify_run _ _ mid _ z) in
    let m = join_project-Joins c who.user i db mid joined r in
    record {
      is_human = human;
      is_current = second_true (member i.project_id db.projects) _ is_ready;
      by_owner = by_owner;
      is_verified = verified;
      is_addressee = addressee;
      used =
          ap (λ s. s.invitations) last
          ∙ ap
              (λ xs.
                update_where (λ x. x.id == i.id)
                  (λ x. record x { accepted_at = some c.billing.now }) xs)
              (subst (λ s. SameInvitations db s) (ap (λ x. x.1) r)
                ((Keeps-join_project c who.user i).at db));
      memberships = ap (λ s. s.memberships) last ∙ m.memberships;
      row = m.row;
      found = ap (λ s. find_member i.project_id who.user.id s.memberships) last ∙ m.found;
      same_role = m.same_role ∙ ap (λ x. x.role) answer;
      same_project = ap (λ x. x.project_id) (sym answer) ∙ m.same_project;
    }

-- The invitation that a token names.
abbrev pub Names : WorkspaceCall → String → Store → Invitation → Type 0
Names c token db i =
    (r : Invitation) × (find_invitation (c.hash token) db.invitations ≡ some r)
    × (invitation_by_id r.id db.invitations ≡ some i)

accept_named-IsInvited :
    (c : WorkspaceCall) (who : Who) (token : String) (db after : Store) (j : Joined)
    → who.by_key ≡ false
    → accept_named c who.user token db ≡ (ok j, after)
    → (i : Invitation) × Names c token db i × IsInvited c who i j db after
unfolding accept_named
accept_named-IsInvited c who token db after j person h =
    elim (option_run (find_invitation (c.hash token) db.invitations) _ _ db _
      (gets_run _ _ db _ h)) [
        | inl (_, k) ↦ fail_run _ db after j k
        | inr (r, e, k) ↦
            elim (option_run (invitation_by_id r.id db.invitations) _ _ db _
              (gets_run _ _ db _ k)) [
                | inl (_, l) ↦ fail_run _ db after j l
                | inr (i, f, l) ↦ (i, (r, e, f), accept_open-IsInvited c who i db after j person l)
              ]
      ]

accept_row-IsInvited :
    (c : WorkspaceCall) (identity : Store → Answer Who) (token : String) (db after : Store)
    (j : Joined)
    → accept_row c identity token db ≡ (ok j, after)
    → (who : Who) × (identity db ≡ ok who)
      × (i : Invitation) × Names c token db i
      × IsInvited c who i j db after
unfolding accept_row human
accept_row-IsInvited c identity token db after j h =
    let (who, e, k) = query_run identity _ db after j h in
    let (b, mid, m, l) = bind_run (human who) _ db after j k in
    let (person, p) = require_run _ _ _ db mid b m in
    let same = (pure_run _ _ db mid p).1 in
    let r =
      accept_named-IsInvited c who token db after j (false_of_not who.by_key person)
        (ap (λ s. accept_named c who.user token s) (sym same) ∙ l) in
    (who, e, r.0, r.1, r.2)

-- Whoever joins with a token is a person, not an API key, with a verified email address or a local
-- development sign-in, whose address is that of an invitation that was open then and came from an
-- owner of the project. From then on the invitation is accepted, and this user is a member of its
-- project with the role that the answer names: the memberships are those on record where the user
-- was a member already, else one more with the invitation's role.
pub accept_invitation-IsInvited :
    (c : WorkspaceCall) (identity : Store → Answer Who) (token : String) (db after : Store)
    (j : Joined)
    → accept_invitation c identity token db ≡ (ok j, after)
    → (who : Who) × (identity db ≡ ok who)
      × (i : Invitation) × Names c token db i
      × IsInvited c who i j db after
unfolding accept_invitation
accept_invitation-IsInvited c identity token db after j h =
    accept_row-IsInvited c identity token db after j (transaction_run _ db after j h)
