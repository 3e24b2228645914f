-- ===== src/Auth/Session.antt =====
-- src/tryops/auth.py: `build_rbac_session`, and what its navigation shows. The order in which Python goes through a
-- set of texts is a parameter: entries with one place in the navigation come in that order.
use try_ops_try_on_mlops.Base.{
  ℕ, String, string_eq, Bool, ◌&&◌, ◌||◌, Option, none, some, List, [], ◌∷◌, ◌++◌, map, contains,
  leb, if◌then◌else◌, ◌==◌,
}
use try_ops_try_on_mlops.Base.Dict
use try_ops_try_on_mlops.Base.Dict.{Dict}
use try_ops_try_on_mlops.Base.Json
use try_ops_try_on_mlops.Base.Json.{
  or_else, Json, Fields, end, null, bool, str, arr, nil, obj, truthy, iterate,
}
use try_ops_try_on_mlops.Base.Python.{Python}
use try_ops_try_on_mlops.Base.Result.{Result, ok, ◌>>=◌, or_raise}
use try_ops_try_on_mlops.Base.Sets.{sorted_set}
use try_ops_try_on_mlops.Base.Sort.{sort_by}
use try_ops_try_on_mlops.Auth.Keys.{Principal, not_iterable}

pub record Permissions : Type 0 where
  pub nav : List String
  pub can_read_account : Bool
  pub can_manage_account : Bool
  pub can_run_workload : Bool
  pub can_read_admin : Bool
  pub can_read_lineage : Bool
  pub can_create_lineage : Bool
  pub can_promote : Bool

pub data Accounts : Type 0 where
  given : Json → Accounts
  no_accounts : Accounts
  only : Fields → Option Fields → Accounts

pub record Session : Type 0 where
  pub principal : Principal
  pub account : Option Fields
  pub accounts : Accounts
  pub membership : Option Fields
  pub permissions : Permissions

abbrev pub public_nav_items : List String
public_nav_items = "vton" ∷ []

abbrev pub scope_nav_items : List (String × List String)
scope_nav_items =
    ("account:read", "account" ∷ "llm" ∷ "vton" ∷ [])
    ∷ (
      "admin:read",
      "dashboard" ∷ "history" ∷ "runs" ∷ "registry" ∷ "evaluations" ∷ "experiments" ∷ [],
    )
    ∷ ("lineage:read", "governance" ∷ [])
    ∷ ("promotion:evaluate", "incidents" ∷ [])
    ∷ []

abbrev pub nav_places : Dict String ℕ
nav_places =
    ("dashboard", 0)
    ∷ ("llm", 1)
    ∷ ("vton", 2)
    ∷ ("history", 3)
    ∷ ("runs", 4)
    ∷ ("registry", 5)
    ∷ ("evaluations", 6)
    ∷ ("governance", 7)
    ∷ ("incidents", 8)
    ∷ []

-- `_nav_order`
abbrev pub nav_order : String → ℕ
nav_order item = Dict.get_or item 100 nav_places

-- `xs.remove(x)` where `x` is in `xs`: the first one goes
abbrev pub remove : String → List String → List String
remove x [] = []
remove x (y ∷ ys) = if y == x then ys else y ∷ remove x ys

-- the loop over `SCOPE_NAV_ITEMS`
abbrev pub extend_nav : List String → List (String × List String) → List String → List String
extend_nav scopes [] nav = nav
extend_nav scopes ((scope, items) ∷ rest) nav =
    extend_nav scopes rest (if contains scope scopes then nav ++ items else nav)

-- the items of the navigation, before they are made a set
abbrev pub nav_items : List String → Bool → Bool → List String
nav_items scopes can_read_account can_run_workload =
    let all : List String = extend_nav scopes scope_nav_items public_nav_items in
    let some_items : List String = if can_read_account then all else remove "account" all in
    if can_run_workload then some_items else remove "llm" some_items

abbrev pub is_account_role : String → Bool
is_account_role role = contains role ("account_owner" ∷ "account_member" ∷ "account_viewer" ∷ [])

abbrev pub can_run : String → List String → Bool → Bool
can_run membership_role scopes is_platform_admin =
    (contains "workload:run" scopes
      && contains membership_role ("account_owner" ∷ "account_member" ∷ []))
    || is_platform_admin

-- what `build_rbac_session` shows of the account's list
abbrev pub listed_accounts : Option Json → Option Fields → Option Fields → Accounts
listed_accounts accounts account membership =
    let other : Accounts = elim account [ none ↦ no_accounts | some a ↦ only a membership ] in
    elim accounts [ none ↦ other | some v ↦ if truthy v then given v else other ]

module _ (py : Python) (set_order : List String → List String) where
  abbrev pub text_or : String → String → Fields → String
  text_or key default principal =
      py.json_text (or_else (Json.get_or key null principal) (str default))

  abbrev pub text_of : String → Fields → String
  text_of key principal = py.json_text (Json.get_or key (str "") principal)

  abbrev pub membership_role : Option Fields → String
  membership_role none = text_or "role" "" end
  membership_role (some m) = text_or "role" "" m

  abbrev pub is_platform_admin : Fields → List String → Bool
  is_platform_admin principal scopes =
      contains "admin:read" scopes
      || py.json_text (Json.get_or "role" null principal) == "platform_admin"

  unfoldable pub permissions_of : Fields → List String → Option Fields → Permissions
  unfolding sorted_set sort_by
  permissions_of principal scopes membership =
      let role : String = membership_role membership in
      let admin : Bool = is_platform_admin principal scopes in
      let can_read_account : Bool = contains "account:read" scopes && is_account_role role in
      let can_run_workload : Bool = can_run role scopes admin in
      record {
        nav =
            sort_by (λ a b. leb (nav_order a) (nav_order b))
              (set_order (nav_items scopes can_read_account can_run_workload));
        can_read_account = can_read_account || admin;
        can_manage_account = role == "account_owner" || admin;
        can_run_workload = can_run_workload;
        can_read_admin = admin;
        can_read_lineage = contains "lineage:read" scopes;
        can_create_lineage = contains "lineage:create" scopes;
        can_promote = contains "promotion:evaluate" scopes;
      }

  abbrev pub principal_of : Fields → List String → Principal
  principal_of principal scopes = record {
    key_id = text_of "key_id" principal;
    subject =
        py.json_text (
          or_else (Json.get_or "subject" null principal) (Json.get_or "key_id" (str "") principal));
    provider = text_or "provider" "api_key" principal;
    email = text_or "email" "" principal;
    username = text_or "username" "" principal;
    display_name = text_or "display_name" "" principal;
    role = text_of "role" principal;
    scopes = scopes;
  }

  unfoldable pub build_rbac_session :
      Fields → Option Fields → Option Fields → Option Json → Result Session
  unfolding sorted_set permissions_of
  build_rbac_session principal account membership accounts = do
    items ← or_raise (iterate (Json.get_or "scopes" (arr nil) principal)) not_iterable
    let scopes = sorted_set (map py.json_text items)
    ok (record {
      principal = principal_of principal scopes;
      account = account;
      accounts = listed_accounts accounts account membership;
      membership = membership;
      permissions = permissions_of principal scopes membership;
    })
