-- ===== src/Auth/Navigation.antt =====
-- What the navigation of `build_rbac_session` shows.
use mathlib.Core.Path.{subst}
use try_ops_try_on_mlops.Base.{
  String, string_eq, Bool, true, false, ◌&&◌, ◌||◌, ◌≡◌, ◌∙◌, ap, refl, Option, List, map, contains,
  ◌==◌, arith, leb,
}
use try_ops_try_on_mlops.Base.Json
use try_ops_try_on_mlops.Base.Json.{Json, Fields, null, arr, nil, iterate}
use try_ops_try_on_mlops.Base.Python.{Python}
use try_ops_try_on_mlops.Base.Result.{ok, or_raise, >>=-eq-ok}
use try_ops_try_on_mlops.Base.Sets.{sorted_set}
use try_ops_try_on_mlops.Auth.Keys.{not_iterable}
use try_ops_try_on_mlops.Auth.Session.{
  Session, nav_items, nav_order, build_rbac_session, permissions_of, principal_of, listed_accounts,
  membership_role, is_account_role, can_run, is_platform_admin,
}
use try_ops_try_on_mlops.Auth.Shown.{
  known_items, shown, contains-sort_by, shown-vton, shown-account, shown-llm, shown-dashboard,
  shown-history, shown-runs, shown-registry, shown-evaluations, shown-experiments, shown-governance,
  shown-incidents, shown-known,
}

-- An order of a set lists its members.
abbrev pub ListsMembers : (List String → List String) → Type 0
ListsMembers set_order =
    (item : String) (xs : List String) → contains item (set_order xs) ≡ contains item xs

-- the roles of an account that may see it, and those that may run workloads in it
abbrev pub may_read : String → Bool
may_read role = role == "account_owner" || role == "account_member" || role == "account_viewer"

abbrev pub may_run : String → Bool
may_run role = role == "account_owner" || role == "account_member"

is_account_role-may_read : (role : String) → is_account_role role ≡ may_read role
is_account_role-may_read role = ground arith

-- What a session's navigation shows, by the scopes, the role in the account and the principal's own role.
pub record Navigation (scopes : List String) (role principal_role : String) (nav : List String)
    : Type 0 where
  pub vton : contains "vton" nav ≡ true
  pub account : contains "account" nav ≡ (contains "account:read" scopes && may_read role)
  pub llm : contains "llm" nav ≡ (
      contains "account:read" scopes
      && ((contains "workload:run" scopes && may_run role)
          || (contains "admin:read" scopes || principal_role == "platform_admin")))
  pub dashboard : contains "dashboard" nav ≡ contains "admin:read" scopes
  pub history : contains "history" nav ≡ contains "admin:read" scopes
  pub runs : contains "runs" nav ≡ contains "admin:read" scopes
  pub registry : contains "registry" nav ≡ contains "admin:read" scopes
  pub evaluations : contains "evaluations" nav ≡ contains "admin:read" scopes
  pub experiments : contains "experiments" nav ≡ contains "admin:read" scopes
  pub governance : contains "governance" nav ≡ contains "lineage:read" scopes
  pub incidents : contains "incidents" nav ≡ contains "promotion:evaluate" scopes
  pub others : (item : String) → contains item known_items ≡ false → contains item nav ≡ false

can_run-may_run :
    (role : String) (scopes : List String) (admin : Bool)
    → can_run role scopes admin ≡ ((contains "workload:run" scopes && may_run role) || admin)
can_run-may_run role scopes admin = ground arith

&&-again : (a b : Bool) → (a && (a && b)) ≡ (a && b)
&&-again true b = refl
&&-again false b = refl

module _ (py : Python) (set_order : List String → List String)
    (lists : ListsMembers set_order) where
  permissions_of-Navigation :
      (principal : Fields) (scopes : List String) (membership : Option Fields)
      → Navigation scopes
          (membership_role py set_order membership)
          (py.json_text (Json.get_or "role" null principal))
          (permissions_of py set_order principal scopes membership).nav
  unfolding permissions_of shown
  permissions_of-Navigation principal scopes membership =
      let p = permissions_of py set_order principal scopes membership in
      let role = membership_role py set_order membership in
      let scope = contains "account:read" scopes in
      let reads : Bool = scope && is_account_role role in
      let runs : Bool = p.can_run_workload in
      let listed : (item : String)
          → contains item p.nav ≡ contains item (nav_items scopes reads runs) =
        λ item.
          contains-sort_by (λ a b. leb (nav_order a) (nav_order b)) item
            (set_order (nav_items scopes reads runs))
          ∙ lists item (nav_items scopes reads runs) in
      record {
        vton = listed "vton" ∙ shown-vton scopes reads runs;
        account =
            listed "account"
            ∙ shown-account scopes reads runs
            ∙ &&-again scope (is_account_role role)
            ∙ ap (λ (b : Bool). scope && b) (is_account_role-may_read role);
        llm =
            listed "llm"
            ∙ shown-llm scopes reads runs
            ∙ ap (λ (b : Bool). scope && b)
                (can_run-may_run role scopes (is_platform_admin py set_order principal scopes));
        dashboard = listed "dashboard" ∙ shown-dashboard scopes reads runs;
        history = listed "history" ∙ shown-history scopes reads runs;
        runs = listed "runs" ∙ shown-runs scopes reads runs;
        registry = listed "registry" ∙ shown-registry scopes reads runs;
        evaluations = listed "evaluations" ∙ shown-evaluations scopes reads runs;
        experiments = listed "experiments" ∙ shown-experiments scopes reads runs;
        governance = listed "governance" ∙ shown-governance scopes reads runs;
        incidents = listed "incidents" ∙ shown-incidents scopes reads runs;
        others = λ item h. listed item ∙ shown-known scopes reads runs item h;
      }

  -- The navigation of a session always shows "vton", and no item but eleven: "account" exactly with the scope
  -- account:read and a role in the account; "llm" exactly with that scope and either the scope workload:run as
  -- owner or member, or the scope admin:read, or the role platform_admin of the principal; six items exactly
  -- with the scope admin:read; "governance" and "incidents" exactly with lineage:read and promotion:evaluate. The
  -- scopes are those of the session's principal, and Python's order of a set is taken to list its members.
  pub build_rbac_session-Navigation :
      (principal : Fields) (account membership : Option Fields) (accounts : Option Json)
      (s : Session)
      → build_rbac_session py set_order principal account membership accounts ≡ ok s
      → Navigation s.principal.scopes
          (membership_role py set_order membership)
          (py.json_text (Json.get_or "role" null principal))
          s.permissions.nav
  unfolding build_rbac_session
  build_rbac_session-Navigation principal account membership accounts s h =
      let session : List Json → Session = λ items.
        let scopes = sorted_set (map py.json_text items) in
        record {
          principal = principal_of py set_order principal scopes;
          account = account;
          accounts = listed_accounts accounts account membership;
          membership = membership;
          permissions = permissions_of py set_order principal scopes membership;
        } in
      let (items, _, made) =
        >>=-eq-ok (or_raise (iterate (Json.get_or "scopes" (arr nil) principal)) not_iterable)
          (λ items. ok (session items)) s h in
      let same : session items ≡ s = cc (made) in
      subst
        (λ (x : Session).
          Navigation x.principal.scopes (membership_role py set_order membership)
            (py.json_text (Json.get_or "role" null principal)) x.permissions.nav)
        same (permissions_of-Navigation principal (sorted_set (map py.json_text items)) membership)
