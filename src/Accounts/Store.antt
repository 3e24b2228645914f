-- ===== src/Accounts/Store.antt =====
-- src/tryops/db.py: the tables of members, profiles, invitations and account events, and the helpers
-- `_email`, `_role` and `_stable_id`. What Python and the database do to a text is a parameter.
use try_ops_try_on_mlops.Base.{
  ℕ, String, string_eq, option_eq, Bool, Option, none, some, List, [], ◌∷◌, count_if, ◌==◌, ◌&&◌,
  ◌||◌, contains, if◌then◌else◌,
}
use try_ops_try_on_mlops.Base.Json.{Fields}
use try_ops_try_on_mlops.Base.Result.{Result, raised, ok}
use try_ops_try_on_mlops.Base.Slices.{take_text}
use try_ops_try_on_mlops.Base.Text.{strip, concat}

-- `str.lower`, SQL's `LOWER`, `sha256(...).hexdigest()`, and the ids that `uuid4` gives: one for an
-- event of the log and one for an invitation, by how much is there already
pub record Services : Type 0 where
  pub lower : String → String
  pub sql_lower : String → String
  pub hexdigest : String → String
  pub event_uuid : ℕ → String
  pub invitation_uuid : ℕ → String

pub record Member : Type 0 where
  pub id : String
  pub account_id : String
  pub subject : String
  pub email : Option String
  pub display_name : Option String
  pub role : String
  pub status : String
  pub created_at : String
  pub last_seen_at : Option String

pub record Profile : Type 0 where
  pub subject : String
  pub email : Option String
  pub display_name : Option String

pub record Invitation : Type 0 where
  pub id : String
  pub account_id : String
  pub email : String
  pub invited_subject : Option String
  pub role : String
  pub status : String
  pub invited_by : String
  pub created_at : String
  pub updated_at : String
  pub accepted_at : Option String
  pub revoked_at : Option String

-- The detail is the object that `json.dumps` writes.
pub record AuditEvent : Type 0 where
  pub id : String
  pub account_id : String
  pub created_at : String
  pub actor_subject : String
  pub action : String
  pub target : String
  pub detail : Fields

pub record Store : Type 0 where
  pub profiles : List Profile
  pub members : List Member
  pub invitations : List Invitation
  pub audit_log : List AuditEvent

-- What a function comes to, and the database as it is committed then: what is not committed when
-- an exception is raised is rolled back as the connection is closed.
abbrev pub Done : Type 0 → Type 0
Done A = Store × Result A

-- `value or default` on a text that may be missing
abbrev pub text_or : Option String → String → String
text_or none default = default
text_or (some t) default = if t == "" then default else t

unfoldable pub email_of : Services → Option String → String
email_of S value = S.lower (strip (text_or value ""))

unfoldable pub role_of : Option String → Result String
role_of value =
    let role = strip (text_or value "account_member") in
    if contains role ("account_owner" ∷ "account_member" ∷ "account_viewer" ∷ "platform_admin" ∷ [])
    then ok (if role == "platform_admin" then "account_owner" else role)
    else raised "role must be account_owner, account_member, or account_viewer"

unfoldable pub stable_id : Services → String → String → String
stable_id S prefix value = concat (prefix ∷ "_" ∷ take_text 16 (S.hexdigest value) ∷ [])

-- `WHERE id=? AND account_id=?`
abbrev pub is_member : String → String → Member → Bool
is_member account_id member_id m = m.id == member_id && m.account_id == account_id

-- `PRIMARY KEY (id)` and `UNIQUE(account_id, subject)`
abbrev pub members_clash : Member → Member → Bool
members_clash m n = n.id == m.id || (n.account_id == m.account_id && n.subject == m.subject)

abbrev pub is_active_owner : String → Member → Bool
is_active_owner account_id m =
    m.account_id == account_id && (m.role == "account_owner" && m.status == "active")

unfoldable pub active_owner_count : Store → String → ℕ
active_owner_count d account_id = count_if (is_active_owner account_id) d.members
