-- ===== src/Accounts/Members.antt =====
-- src/tryops/db.py: `update_account_member` and `remove_account_member`.
use try_ops_try_on_mlops.Base.{
  String, string_eq, Bool, Option, none, some, [], ◌∷◌, ◌==◌, ◌&&◌, ◌||◌, not, contains, leb,
  if◌then◌else◌,
}
use try_ops_try_on_mlops.Base.Result.{Result, raised, ok}
use try_ops_try_on_mlops.Base.Text.{strip}
use try_ops_try_on_mlops.Accounts.Table.{find_row, update_rows}
use try_ops_try_on_mlops.Accounts.Store.{
  Member, Store, Done, text_or, role_of, is_member, active_owner_count,
}

-- `role or current.get("role")`
abbrev given_or : Option String → String → Option String
given_or value default = some (text_or value default)

-- `SET role=?, status=?`
abbrev pub set_role_status : String → String → Member → Member
set_role_status role status m = record m { role = role; status = status }

abbrev pub write_member : Store → String → String → String → String → Store
write_member d account_id member_id role status = record d {
  members = update_rows (is_member account_id member_id) (set_role_status role status) d.members;
}

-- The write would leave the workspace without an active owner.
unfoldable pub drops_last_owner : Store → String → Member → String → String → Bool
unfolding active_owner_count
drops_last_owner d account_id current next_role next_status =
    (current.role == "account_owner"
      && (not (next_role == "account_owner") || not (next_status == "active")))
    && leb (active_owner_count d account_id) 1

-- the test for the last owner, and the write
unfoldable pub update_checked :
    Store → String → String → Member → String → String → Done (Option Member)
unfolding drops_last_owner
update_checked d account_id member_id current next_role next_status =
    if not (contains next_status ("active" ∷ "removed" ∷ "disabled" ∷ []))
    then (d, raised "status must be active, disabled, or removed")
    else (if drops_last_owner d account_id current next_role next_status
        then (d, raised "cannot remove or demote the last workspace owner")
        else (let d' = write_member d account_id member_id next_role next_status in
            (d', ok (find_row (is_member account_id member_id) d'.members))))

abbrev pub update_as :
    Store → String → String → Member → Option String → Result String → Done (Option Member)
update_as d account_id member_id current status (raised text) = (d, raised text)
update_as d account_id member_id current status (ok next_role) =
    update_checked d account_id member_id current next_role
      (strip (text_or status (text_or (some current.status) "active")))

unfoldable pub update_account_member :
    Store → String → String → Option String → Option String → Done (Option Member)
unfolding update_checked role_of
update_account_member d account_id member_id role status =
    elim (find_row (is_member account_id member_id) d.members) [
      | none ↦ (d, raised "member not found")
      | some current ↦
          update_as d account_id member_id current status (role_of (given_or role current.role))
    ]

unfoldable pub remove_account_member : Store → String → String → Done (Option Member)
unfolding update_account_member
remove_account_member d account_id member_id =
    update_account_member d account_id member_id none (some "removed")
