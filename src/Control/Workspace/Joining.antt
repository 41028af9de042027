-- ===== src/Control/Workspace/Joining.antt =====
-- Who is a member after `join_project` (apps/api/breakroom_api/team_workspace.py).
use breakroom.Base.{
  eq_refl, List, [], ◌∷◌, ◌++◌, first-append_missing, ℕ, ◌≡◌, refl, sym, ap, ◌∙◌, inl, inr, String,
  ◌&&◌, none, some, ◌==◌,
}
use breakroom.Control.Rows.{User, Membership, Invitation, Store}
use breakroom.Control.Monad.{ok}
use breakroom.Control.Effects.{
  Preorder, Keeps, Keeps-bind, Keeps-gets, Keeps-pure, Keeps-option, Keeps-require, Keeps-modify,
  Unchanged-order,
}
use breakroom.Control.Answers.{option_run, gets_run, modify_run, pure_run, bind_run}
use breakroom.Control.Billing.Provider.{BillingCall}
use breakroom.Control.Billing.Account.{enforce}
use breakroom.Control.Workspace.Invitations.{WorkspaceCall, find_member, Joined, join_project}

-- The memberships of a project that a user joins by an invitation: those on record where the user is
-- a member already, else one more, of this user, in the invitation's project and role.
abbrev pub joined_memberships : User → Invitation → List Membership → List Membership
joined_memberships user i ms = elim (find_member i.project_id user.id ms) [
  | some m ↦ ms
  | none ↦ ms ++ record { project_id = i.project_id; user_id = user.id; role = i.role } ∷ []
]

abbrev pub SameInvitations : Store → Store → Type 0
SameInvitations a b = b.invitations ≡ a.invitations

o : Preorder SameInvitations
o = record { same = λ a. refl; chain = λ a b c h k. k ∙ h }

Keeps-enforce :
    {R : Store → Store → Type 0} (o : Preorder R) (c : BillingCall) (p : String) (n : ℕ)
    → Keeps R (enforce c p n none)
unfolding enforce
Keeps-enforce o c p n = Keeps-bind o _ _ (Keeps-gets o _) λ v.
    Keeps-bind o _ _ (Keeps-require o _ _) λ _.
      Keeps-bind o _ _ (Keeps-require o _ _)
        λ _. Keeps-bind o _ _ (Keeps-require o _ _) λ _. Keeps-require o _ _

pub Keeps-join_project :
    (c : WorkspaceCall) (u : User) (i : Invitation) → Keeps SameInvitations (join_project c u i)
unfolding join_project
Keeps-join_project c u i = Keeps-bind o _ _ (Keeps-gets o _) λ m.
    Keeps-option m _ _
      (Keeps-bind o _ _ (Keeps-enforce o c.billing i.project_id 1)
        λ _. Keeps-bind o _ _ (Keeps-modify _ λ db. refl) λ _. Keeps-pure o _)
      (λ x. Keeps-pure o _)

-- What joining leaves of the memberships, and the row of the user.
pub record Joins (user : User) (i : Invitation) (db after : Store) (j : Joined) : Type 0 where
  pub memberships : after.memberships ≡ joined_memberships user i db.memberships
  pub row : Membership
  pub found : find_member i.project_id user.id after.memberships ≡ some row
  pub same_role : row.role ≡ j.role
  pub same_project : j.project_id ≡ i.project_id

joined-new :
    (user : User) (i : Invitation) (ms : List Membership)
    → find_member i.project_id user.id ms ≡ none
    → joined_memberships user i ms
      ≡ ms ++ record { project_id = i.project_id; user_id = user.id; role = i.role } ∷ []
joined-new user i ms new = rw (joined_memberships, new) refl

joined-old :
    (user : User) (i : Invitation) (ms : List Membership) (m : Membership)
    → find_member i.project_id user.id ms ≡ some m
    → joined_memberships user i ms ≡ ms
joined-old user i ms m old = rw (joined_memberships, old) refl

found-joined :
    (user : User) (i : Invitation) (ms : List Membership)
    → find_member i.project_id user.id ms ≡ none
    → (let row : Membership = record {
      project_id = i.project_id;
      user_id = user.id;
      role = i.role;
    } in
        find_member i.project_id user.id (ms ++ row ∷ []) ≡ some row)
unfolding find_member
found-joined user i ms new =
    first-append_missing (λ m. m.project_id == i.project_id && m.user_id == user.id) ms
      (record { project_id = i.project_id; user_id = user.id; role = i.role } ∷ []) new
    ∙ rw (eq_refl i.project_id, eq_refl user.id) refl

pub join_project-Joins :
    (c : WorkspaceCall) (user : User) (i : Invitation) (db after : Store) (j : Joined)
    → join_project c user i db ≡ (ok j, after)
    → Joins user i db after j
unfolding join_project
join_project-Joins c user i db after j h =
    elim (option_run (find_member i.project_id user.id db.memberships) _ _ db _
      (gets_run _ _ db _ h)) [
        | inl (new, k) ↦
            let (_, mid, e, l) = bind_run (enforce c.billing i.project_id 1 none) _ db after j k in
            let (answer, last) = pure_run _ _ _ after (modify_run _ _ mid _ l) in
            let same : mid ≡ db =
              ap (λ x. x.1) (sym e)
              ∙ (Keeps-enforce Unchanged-order c.billing i.project_id 1).at db in
            let row : Membership = record {
              project_id = i.project_id;
              user_id = user.id;
              role = i.role;
            } in
            record {
              memberships =
                  ap (λ s. s.memberships) last
                  ∙ ap (λ s. s.memberships ++ row ∷ []) same
                  ∙ sym (joined-new user i db.memberships new);
              row = row;
              found =
                  ap (λ s. find_member i.project_id user.id s.memberships) last
                  ∙ ap (λ s. find_member i.project_id user.id (s.memberships ++ row ∷ [])) same
                  ∙ found-joined user i db.memberships new;
              same_role = ap (λ x. x.role) answer;
              same_project = ap (λ x. x.project_id) (sym answer);
            }
        | inr (m, old, k) ↦
            let (answer, last) = pure_run _ _ db after k in
            record {
              memberships =
                  ap (λ s. s.memberships) last ∙ sym (joined-old user i db.memberships m old);
              row = m;
              found = ap (λ s. find_member i.project_id user.id s.memberships) last ∙ old;
              same_role = ap (λ x. x.role) answer;
              same_project = ap (λ x. x.project_id) (sym answer);
            }
      ]
