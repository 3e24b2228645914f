-- ===== src/Accounts/Tests.antt =====
-- Calls on the members of a workspace at concrete inputs.
use try_ops_try_on_mlops.Base.{
  ◌≡◌, refl, string_eq, option_eq, some, none, List, [], ◌∷◌, map, arith, ltb, if◌then◌else◌,
}
use try_ops_try_on_mlops.Base.Result.{raised}
use try_ops_try_on_mlops.Base.Text.{strip, lstrip_by, rstrip_by}
use try_ops_try_on_mlops.Base.Slices.{take_text}
use try_ops_try_on_mlops.Accounts.Store.{
  Services, Member, Store, email_of, role_of, stable_id, active_owner_count,
}
use try_ops_try_on_mlops.Accounts.Members.{
  drops_last_owner, update_checked, update_account_member, remove_account_member,
}
use try_ops_try_on_mlops.Accounts.Invitations.{
  join_account, accept_one, accept_rows, accept_pending_invitations,
}
use try_ops_try_on_mlops.Accounts.Inviting.{
  accept_at_once, insert_invitation, create_account_invitation, revoke_account_invitation,
}
use try_ops_try_on_mlops.Accounts.Owners.{Owned}
use try_ops_try_on_mlops.Accounts.Operations.{
  Operation, updating, removing, inviting, accepting, revoking, after, after_all, after_all-Owned,
}

abbrev plain : Services
plain = record {
  lower = λ s. s;
  sql_lower = λ s. s;
  hexdigest = λ s. s;
  event_uuid = λ n. if ltb n 1 then "first" else (if ltb n 2 then "second" else "later");
  invitation_uuid = λ n. if ltb n 1 then "a" else "b";
}

abbrev ann : Member
ann = record {
  id = "member-1";
  account_id = "studio";
  subject = "ann";
  email = some "ann@example.org";
  display_name = some "Ann";
  role = "account_owner";
  status = "active";
  created_at = "monday";
  last_seen_at = none;
}

abbrev studio : Store
studio = record { profiles = []; members = ann ∷ []; invitations = []; audit_log = [] }

-- Ann cannot leave; Bob is invited as an owner and accepts, and then Ann can.
abbrev calls : List Operation
calls =
    removing "studio" "member-1"
    ∷ inviting "studio" (some " bob@example.org ") (some "account_owner") "ann" "tuesday"
    ∷ accepting (record { subject = "bob"; email = some "bob@example.org"; display_name = none })
        "tuesday"
    ∷ updating "studio" "member-1" (some "account_viewer") none
    ∷ removing "studio" "member_studio:bob"
    ∷ revoking "studio" "invite" "ann" "friday"
    ∷ []

last_owner_stays :
    (remove_account_member studio "studio" "member-1").1
    ≡ raised "cannot remove or demote the last workspace owner"
unfolding remove_account_member update_account_member update_checked drops_last_owner
    active_owner_count role_of strip lstrip_by rstrip_by
last_owner_stays = refl

roles :
    map (λ m. m.role) (after_all plain studio calls).members
    ≡ "account_viewer" ∷ "account_owner" ∷ []
unfolding after_all after remove_account_member update_account_member update_checked
    drops_last_owner active_owner_count role_of strip lstrip_by rstrip_by create_account_invitation
    insert_invitation accept_at_once accept_pending_invitations accept_rows accept_one join_account
    email_of stable_id take_text revoke_account_invitation
roles = refl

after_all-Owned_example : Owned "studio" (after_all plain studio calls)
after_all-Owned_example =
    after_all-Owned plain "studio" studio calls ((tt, tt), unfold active_owner_count in omega arith)
