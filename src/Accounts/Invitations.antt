-- ===== src/Accounts/Invitations.antt =====
-- src/tryops/db.py: the invitations to a workspace, made, accepted and revoked.
use try_ops_try_on_mlops.Base.{
  String, string_eq, Bool, false, Option, none, some, List, [], ◌∷◌, length, ◌==◌, ◌&&◌, ◌||◌, keep,
  if◌then◌else◌,
}
use try_ops_try_on_mlops.Base.Json.{Fields, end, field, str, bool}
use try_ops_try_on_mlops.Base.Result.{Result, raised, ok, ◌>>=◌, or_raise}
use try_ops_try_on_mlops.Base.Text.{strip, concat}
use try_ops_try_on_mlops.Accounts.Table.{find_row, update_rows, insert_row}
use try_ops_try_on_mlops.Accounts.Store.{
  Services, Member, Profile, Invitation, AuditEvent, Store, Done, email_of, role_of, stable_id,
  is_member, members_clash,
}

-- `WHERE account_id=? AND subject=?`
abbrev pub is_subject : String → String → Member → Bool
is_subject account_id subject m = m.account_id == account_id && m.subject == subject

abbrev pub is_active : Member → Bool
is_active m = m.status == "active"

-- `SET email=?, display_name=?, role=?, status='active', last_seen_at=?`
abbrev pub reactivate : String → Option String → String → String → Member → Member
reactivate email display_name role now m = record m {
  email = some email;
  display_name = display_name;
  role = role;
  status = "active";
  last_seen_at = some now;
}

abbrev accept_row : String → String → Invitation → Invitation
accept_row subject now i = record i {
  status = "accepted";
  invited_subject = some subject;
  accepted_at = some now;
  updated_at = now;
}

-- `INSERT INTO account_audit_log`
abbrev pub log_event :
    Services → String → String → String → String → String → Fields → Store → Result Store
log_event S account_id now actor action target detail d =
    let event : AuditEvent = record {
      id = S.event_uuid (length d.audit_log);
      account_id = account_id;
      created_at = now;
      actor_subject = actor;
      action = action;
      target = target;
      detail = detail;
    } in
    or_raise (insert_row (λ e f. e.id == f.id) event d.audit_log) "UNIQUE constraint failed"
    >>= λ log. ok (record d { audit_log = log })

-- The role that an accepted invitation leaves: an active member keeps the one they have.
abbrev pub accepted_role : Member → String → String
accepted_role m role = if is_active m then m.role else role

abbrev pub rejoin : Member → String → Option String → String → String → String → Store → Store
rejoin m email display_name now account_id role d = record d {
  members =
      update_rows (is_member account_id m.id)
        (reactivate email display_name (accepted_role m role) now) d.members;
}

abbrev new_member : Services → String → Option String → String → String → String → String → Member
new_member S email display_name subject now account_id role = record {
  id = stable_id S "member" (concat (account_id ∷ ":" ∷ subject ∷ []));
  account_id = account_id;
  subject = subject;
  email = some email;
  display_name = display_name;
  role = role;
  status = "active";
  created_at = now;
  last_seen_at = some now;
}

abbrev pub insert_member : Member → Store → Result Store
insert_member m d =
    or_raise (insert_row members_clash m d.members) "UNIQUE constraint failed" >>= λ rows.
    ok (record d { members = rows })

-- the membership: an old one is active again, or a new one is inserted
unfoldable pub join_account :
    Services → Profile → String → String → String → String → String → Store → Result Store
unfolding stable_id
join_account S profile email subject now account_id role d =
    elim (find_row (is_subject account_id subject) d.members) [
      | some m ↦ ok (rejoin m email profile.display_name now account_id role d)
      | none ↦ insert_member (new_member S email profile.display_name subject now account_id role) d
    ]

-- the detail of the event that an acceptance logs
abbrev accepted_detail : Store → String → String → String → String → Fields
accepted_detail d account_id subject role email =
    let found = find_row (is_subject account_id subject) d.members in
    field "role" (str (elim found [ none ↦ role | some m ↦ accepted_role m role ])) (
      field "email" (str email)
        (field "existing_member" (bool (elim found [ none ↦ false | some m ↦ is_active m ])) end))

-- one round of the loop
unfoldable pub accept_one :
    Services → Profile → String → String → String → Invitation → Store → Result Store
unfolding join_account role_of
accept_one S profile email subject now i d = role_of (some i.role) >>= λ role.
    join_account S profile email subject now i.account_id role d >>= λ d'.
    log_event S i.account_id now subject "account.invitation.accepted" i.id
      (accepted_detail d i.account_id subject role email)
      (record d' {
        invitations = update_rows (λ j. j.id == i.id) (accept_row subject now) d'.invitations;
      })

unfoldable pub accept_rows :
    Services → Profile → String → String → String → List Invitation → Store → Result Store
unfolding accept_one
accept_rows S profile email subject now [] d = ok d
accept_rows S profile email subject now (i ∷ rows) d =
    accept_one S profile email subject now i d >>= accept_rows S profile email subject now rows

-- the pending invitations for an email
abbrev pub is_pending : Services → String → Invitation → Bool
is_pending S email i = S.sql_lower i.email == email && i.status == "pending"

abbrev pub committed : Store → Result Store → Done Unit
committed d (raised text) = (d, raised text)
committed d (ok d') = (d', ok tt)

unfoldable pub accept_pending_invitations : Services → Profile → String → Store → Done Unit
unfolding accept_rows email_of
accept_pending_invitations S profile now d =
    let email = email_of S profile.email in
    let subject = strip profile.subject in
    if email == "" || subject == ""
    then (d, ok tt)
    else committed d
        (accept_rows S profile email subject now (keep (is_pending S email) d.invitations) d)
