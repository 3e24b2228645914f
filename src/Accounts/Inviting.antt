-- ===== src/Accounts/Inviting.antt =====
-- src/tryops/db.py: `create_account_invitation` and `revoke_account_invitation`.
use try_ops_try_on_mlops.Base.{
  String, string_eq, option_eq, Bool, true, false, Option, none, some, [], ◌∷◌, length, ◌==◌, ◌&&◌,
  ◌||◌, not, contains, if◌then◌else◌,
}
use try_ops_try_on_mlops.Base.Json.{end}
use try_ops_try_on_mlops.Base.Result.{Result, raised, ok, or_raise}
use try_ops_try_on_mlops.Base.Text.{concat, characters}
use try_ops_try_on_mlops.Accounts.Table.{find_row, update_rows, insert_row}
use try_ops_try_on_mlops.Accounts.Store.{
  Services, Profile, Invitation, Store, Done, email_of, role_of, stable_id,
}
use try_ops_try_on_mlops.Accounts.Invitations.{
  is_subject, is_active, log_event, is_pending, accept_pending_invitations,
}

abbrev revoke_row : String → Invitation → Invitation
revoke_row now i = record i { status = "revoked"; revoked_at = some now; updated_at = now }

-- `WHERE LOWER(email)=?`, which a missing email does not meet
abbrev pub has_email : Services → String → Profile → Bool
has_email S email p = elim p.email [ none ↦ false | some e ↦ S.sql_lower e == email ]

-- `if invited_subject:` and the select of an active member with that subject
abbrev pub already_member : Store → String → Option Profile → Bool
already_member d account_id none = false
already_member d account_id (some p) =
    not (p.subject == "")
    && elim (find_row (λ m. is_subject account_id p.subject m && is_active m) d.members) [
      | none ↦ false
      | some m ↦ true
    ]

abbrev subject_of : Option Profile → Option String
subject_of none = none
subject_of (some p) = some p.subject

abbrev pub new_invitation :
    Services → Store → String → String → Option Profile → String → String → String → Invitation
new_invitation S d account_id email profile role invited_by now = record {
  id =
      stable_id S "invite"
        (concat (account_id ∷ ":" ∷ email ∷ ":" ∷ S.invitation_uuid (length d.invitations) ∷ []));
  account_id = account_id;
  email = email;
  invited_subject = subject_of profile;
  role = role;
  status = "pending";
  invited_by = invited_by;
  created_at = now;
  updated_at = now;
  accepted_at = none;
  revoked_at = none;
}

abbrev pub row_by_id : String → Done Unit → Done (Option Invitation)
row_by_id id (d, raised text) = (d, raised text)
row_by_id id (d, ok u) = (d, ok (find_row (λ i. i.id == id) d.invitations))

-- A user who is known already has the invitation accepted at once.
unfoldable pub accept_at_once : Services → String → String → Option Profile → Store → Done Unit
unfolding accept_pending_invitations
accept_at_once S email now none d = (d, ok tt)
accept_at_once S email now (some p) d =
    if p.subject == ""
    then (d, ok tt)
    else accept_pending_invitations S
        (record { subject = p.subject; email = some email; display_name = p.display_name }) now d

-- the insertion, which is committed before the acceptance
unfoldable pub insert_invitation :
    Services
    → Store
    → String
    → String
    → Option Profile
    → String
    → String
    → String
    → Done (Option Invitation)
unfolding accept_at_once stable_id
insert_invitation S d account_id email profile role invited_by now =
    let i = new_invitation S d account_id email profile role invited_by now in
    elim (insert_row (λ i j. i.id == j.id) i d.invitations) [
      | none ↦ (d, raised "UNIQUE constraint failed")
      | some rows ↦
          row_by_id i.id (accept_at_once S email now profile (record d { invitations = rows }))
    ]

-- a pending invitation is given back, and a known member is refused
abbrev pub invite_unless :
    Services
    → Store
    → String
    → String
    → String
    → String
    → String
    → Option Invitation
    → Done (Option Invitation)
invite_unless S d account_id email role invited_by now (some existing) = (d, ok (some existing))
invite_unless S d account_id email role invited_by now none =
    let profile = find_row (has_email S email) d.profiles in
    if already_member d account_id profile
    then (d, raised "user is already an active workspace member")
    else insert_invitation S d account_id email profile role invited_by now

abbrev pub invite_as :
    Services → Store → String → String → String → String → Result String → Done (Option Invitation)
invite_as S d account_id email invited_by now (raised text) = (d, raised text)
invite_as S d account_id email invited_by now (ok role) =
    invite_unless S d account_id email role invited_by now
      (find_row (λ i. i.account_id == account_id && is_pending S email i) d.invitations)

unfoldable pub create_account_invitation :
    Services
    → Store
    → String
    → Option String
    → Option String
    → String
    → String
    → Done (Option Invitation)
unfolding insert_invitation email_of role_of
create_account_invitation S d account_id email role invited_by now =
    let address = email_of S email in
    if address == "" || not (contains "@" (characters address))
    then (d, raised "valid email is required")
    else invite_as S d account_id address invited_by now (role_of role)

abbrev is_invitation : String → String → Invitation → Bool
is_invitation account_id invitation_id i = i.id == invitation_id && i.account_id == account_id

abbrev pub revoked_row : Store → String → String → Result Store → Done Invitation
revoked_row d account_id invitation_id (raised text) = (d, raised text)
revoked_row d account_id invitation_id (ok d') = (
  d',
  or_raise (find_row (is_invitation account_id invitation_id) d'.invitations)
      "invitation not found",
)

abbrev pub revoke_rows : String → String → String → Store → Store
revoke_rows account_id invitation_id now d = record d {
  invitations =
      update_rows (λ i. is_invitation account_id invitation_id i && i.status == "pending")
        (revoke_row now) d.invitations;
}

unfoldable pub revoke_account_invitation :
    Services → Store → String → String → String → String → Done Invitation
revoke_account_invitation S d account_id invitation_id actor now =
    revoked_row d account_id invitation_id (
      log_event S account_id now actor "account.invitation.revoked" invitation_id end
        (revoke_rows account_id invitation_id now d))
