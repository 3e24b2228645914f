-- ===== src/Accounts/Operations.antt =====
-- Whatever is done to the members and the invitations, a workspace keeps an owner.
use try_ops_try_on_mlops.Base.{
  String, string_eq, ◌≡◌, refl, Option, none, some, List, [], ◌∷◌, ◌==◌, ◌&&◌, ◌||◌, not,
  Bool-cases, Option-cases, inl, inr, keep, contains,
}
use try_ops_try_on_mlops.Base.Json.{end}
use try_ops_try_on_mlops.Base.Text.{strip, characters}
use try_ops_try_on_mlops.Base.Result.{Result, raised, ok}
use try_ops_try_on_mlops.Accounts.Table.{find_row, insert_row}
use try_ops_try_on_mlops.Accounts.Store.{
  Services, Profile, Invitation, Store, Done, email_of, role_of,
}
use try_ops_try_on_mlops.Accounts.Members.{update_account_member, remove_account_member}
use try_ops_try_on_mlops.Accounts.Invitations.{
  accept_rows, accept_pending_invitations, log_event, is_pending,
}
use try_ops_try_on_mlops.Accounts.Inviting.{
  row_by_id, invite_unless, invite_as, revoked_row, revoke_rows, has_email, already_member,
  new_invitation, accept_at_once, insert_invitation, create_account_invitation,
  revoke_account_invitation,
}
use try_ops_try_on_mlops.Accounts.Owners.{Owned, update_account_member-Owned}
use try_ops_try_on_mlops.Accounts.Joining.{
  log_event-members, Owned-members, accept_rows-Owned, committed-Owned,
}

-- The calls that the API makes, with the times that `_now` gives.
pub data Operation : Type 0 where
  updating : String → String → Option String → Option String → Operation
  removing : String → String → Operation
  inviting : String → Option String → Option String → String → String → Operation
  accepting : Profile → String → Operation
  revoking : String → String → String → String → Operation

module _ (S : Services) where
  -- the database that a call leaves, whether it returns or raises
  unfoldable pub after : Store → Operation → Store
  unfolding update_account_member remove_account_member create_account_invitation
      accept_pending_invitations revoke_account_invitation
  after d (updating account_id id role status) =
      (update_account_member d account_id id role status).0
  after d (removing account_id id) = (remove_account_member d account_id id).0
  after d (inviting account_id email role by now) =
      (create_account_invitation S d account_id email role by now).0
  after d (accepting p now) = (accept_pending_invitations S p now d).0
  after d (revoking account_id id actor now) =
      (revoke_account_invitation S d account_id id actor now).0

  unfoldable pub after_all : Store → List Operation → Store
  unfolding after
  after_all d [] = d
  after_all d (o ∷ os) = after_all (after d o) os

  accept_pending_invitations-Owned :
      (a : String) (p : Profile) (now : String) (d : Store)
      → Owned a d
      → Owned a (accept_pending_invitations S p now d).0
  unfolding accept_pending_invitations
  accept_pending_invitations-Owned a p now d o =
      let email = email_of S p.email in
      let subject = strip p.subject in
      let rows = keep (is_pending S email) d.invitations in
      elim (Bool-cases (email == "" || subject == "")) [
        | inl t ↦ rw (t, accept_pending_invitations) o
        | inr f ↦
            rw (f, accept_pending_invitations)
              (committed-Owned a d (accept_rows S p email subject now rows d)
                (λ d' h. accept_rows-Owned a S p email subject now rows d d' h o) o)
      ]

  accept_at_once-Owned :
      (a email now : String) (p : Option Profile) (d : Store)
      → Owned a d
      → Owned a (accept_at_once S email now p d).0
  unfolding accept_at_once
  accept_at_once-Owned a email now none d o = o
  accept_at_once-Owned a email now (some p) d o = elim (Bool-cases (p.subject == "")) [
    | inl t ↦ rw t o
    | inr f ↦ rw f (accept_pending_invitations-Owned a (record p { email = some email }) now d o)
  ]

  row_by_id-Owned : (a id : String) (x : Done Unit) → Owned a x.0 → Owned a (row_by_id id x).0
  row_by_id-Owned a id (d, raised text) o = o
  row_by_id-Owned a id (d, ok u) o = o

  insert_invitation-Owned :
      (a : String) (d : Store) (account_id email : String) (p : Option Profile)
      (role invited_by now : String)
      → Owned a d
      → Owned a (insert_invitation S d account_id email p role invited_by now).0
  unfolding insert_invitation
  insert_invitation-Owned a d account_id email p role invited_by now o =
      let i = new_invitation S d account_id email p role invited_by now in
      elim (Option-cases (insert_row (λ i j. i.id == j.id) i d.invitations)) [
        | inl clash ↦ rw (clash, insert_invitation) o
        | inr (rows, put) ↦
            rw (put, insert_invitation)
              (row_by_id-Owned a i.id
                (accept_at_once S email now p (record d { invitations = rows }))
                (accept_at_once-Owned a email now p (record d { invitations = rows })
                  (Owned-members a d (record d { invitations = rows }) refl o)))
      ]

  invite_unless-Owned :
      (a : String) (d : Store) (account_id email role invited_by now : String)
      (pending : Option Invitation)
      → Owned a d
      → Owned a (invite_unless S d account_id email role invited_by now pending).0
  invite_unless-Owned a d account_id email role invited_by now (some i) o = o
  invite_unless-Owned a d account_id email role invited_by now none o =
      let p = find_row (has_email S email) d.profiles in
      elim (Bool-cases (already_member d account_id p)) [
        | inl t ↦ rw t o
        | inr f ↦ rw f (insert_invitation-Owned a d account_id email p role invited_by now o)
      ]

  invite_as-Owned :
      (a : String) (d : Store) (account_id email invited_by now : String) (r : Result String)
      → Owned a d
      → Owned a (invite_as S d account_id email invited_by now r).0
  invite_as-Owned a d account_id email invited_by now (raised text) o = o
  invite_as-Owned a d account_id email invited_by now (ok role) o =
      invite_unless-Owned a d account_id email role invited_by now
        (find_row (λ i. i.account_id == account_id && is_pending S email i) d.invitations) o

  create_account_invitation-Owned :
      (a : String) (d : Store) (account_id : String) (email role : Option String)
      (invited_by now : String)
      → Owned a d
      → Owned a (create_account_invitation S d account_id email role invited_by now).0
  unfolding create_account_invitation
  create_account_invitation-Owned a d account_id email role invited_by now o =
      let address = email_of S email in
      elim (Bool-cases (address == "" || not (contains "@" (characters address)))) [
        | inl t ↦ rw (t, create_account_invitation) o
        | inr f ↦
            rw (f, create_account_invitation)
              (invite_as-Owned a d account_id address invited_by now (role_of role) o)
      ]

  revoked_row-Owned :
      (a : String) (d : Store) (account_id id : String) (r : Result Store)
      → ((d' : Store) → r ≡ ok d' → d'.members ≡ d.members)
      → Owned a d
      → Owned a (revoked_row d account_id id r).0
  revoked_row-Owned a d account_id id (raised text) same o = o
  revoked_row-Owned a d account_id id (ok d') same o = Owned-members a d d' (same d' refl) o

  after-Owned : (a : String) (d : Store) (o : Operation) → Owned a d → Owned a (after d o)
  unfolding after remove_account_member revoke_account_invitation
  after-Owned a d (updating account_id id role status) h =
      update_account_member-Owned a d account_id id role status h
  after-Owned a d (removing account_id id) h =
      update_account_member-Owned a d account_id id none (some "removed") h
  after-Owned a d (inviting account_id email role by now) h =
      create_account_invitation-Owned a d account_id email role by now h
  after-Owned a d (accepting p now) h = accept_pending_invitations-Owned a p now d h
  after-Owned a d (revoking account_id id actor now) h =
      let d1 = revoke_rows account_id id now d in
      let log = log_event S account_id now actor "account.invitation.revoked" id end d1 in
      revoked_row-Owned a d account_id id log
        (log_event-members S account_id now actor "account.invitation.revoked" id end d1) h

  -- Whatever calls are made one after the other, with whatever arguments, whether they return or
  -- raise: if the ids of the members are distinct and a workspace has an active owner, the same
  -- holds afterwards.
  pub after_all-Owned :
      (a : String) (d : Store) (os : List Operation) → Owned a d → Owned a (after_all d os)
  unfolding after_all
  after_all-Owned a d [] h = h
  after_all-Owned a d (o ∷ os) h = after_all-Owned a (after d o) os (after-Owned a d o h)
