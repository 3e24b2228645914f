-- ===== src/Accounts/Joining.antt =====
-- Who joins a workspace takes no owner away.
use text.Mathlib.TextEquality.{eq_iff}
use try_ops_try_on_mlops.Base.{
  String, string_eq, true, ◌≡◌, refl, Option, some, List, [], ◌∷◌, arith, Bool-cases, Option-cases,
  inl, inr, count_if-append,
}
use try_ops_try_on_mlops.Base.Json.{Fields}
use try_ops_try_on_mlops.Base.Result.{Result, raised, ok, >>=-eq-ok}
use try_ops_try_on_mlops.Accounts.Table.{
  find_row, insert_row, find_row-true, find_row-by_key, count_if-update_rows, update_rows-Distinct,
  insert_row-Distinct,
}
use try_ops_try_on_mlops.Accounts.Store.{
  Services, Member, Profile, Invitation, Store, role_of, is_member, members_clash, is_active_owner,
  active_owner_count,
}
use try_ops_try_on_mlops.Accounts.Invitations.{
  is_subject, reactivate, rejoin, insert_member, accepted_role, join_account, accept_one,
  accept_rows, log_event, committed,
}
use try_ops_try_on_mlops.Accounts.Owners.{Owned, is_member-id}

insert_member-Owned :
    (a : String) (m : Member) (d d' : Store) → insert_member m d ≡ ok d' → Owned a d → Owned a d'
unfolding active_owner_count
insert_member-Owned a m d d' h o = elim (Option-cases (insert_row members_clash m d.members)) [
  | inl clash ↦ absurd (let e : raised "UNIQUE constraint failed" ≡ ok d' = rw clash at h in cc (e))
  | inr (rows, put) ↦
      let e : ok (record d { members = rows }) ≡ ok d' = rw put at h in
      let (grown, keyed) =
        insert_row-Distinct (λ n. n.id) members_clash m d.members rows
          (λ n same. ground (arith, (eq_iff n.id m.id).1 same)) put o.0 in
      let made : record d { members = rows } ≡ d' = cc (e) in
      rw (← made) (
        keyed,
        rw grown (omega (arith, o.1, count_if-append (is_active_owner a) d.members (m ∷ []))),
      )
]

rejoin-Owned :
    (a : String) (m : Member) (email : String) (display_name : Option String)
    (subject now account_id role : String) (d : Store)
    → find_row (is_subject account_id subject) d.members ≡ some m
    → Owned a d
    → Owned a (rejoin m email display_name now account_id role d)
unfolding active_owner_count
rejoin-Owned a m email display_name subject now account_id role d found o =
    let p = is_subject account_id subject in
    let q = is_member account_id m.id in
    let f = reactivate email display_name (accepted_role m role) now in
    let here = find_row-true p d.members m found in
    let hit : q m ≡ true = ground (arith, (eq_iff m.id m.id).1 refl, here) in
    let there =
      find_row-by_key (λ n. n.id) p q d.members m o.0 (is_member-id account_id m.id) found hit in
    let moved =
      count_if-update_rows (λ n. n.id) q (is_active_owner a) f d.members m o.0
        (is_member-id account_id m.id) there in
    (
      update_rows-Distinct (λ n. n.id) q f d.members (λ n. refl) o.0,
      elim (Bool-cases (is_active_owner a m)) [
        | inr e ↦ omega (arith, o.1, rw e at moved)
        | inl t ↦
            let still : is_active_owner a (f m) ≡ true = ground (arith, t) in
            omega (arith, o.1, rw (t, still) at moved)
      ],
    )

join_account-Owned :
    (a : String) (S : Services) (p : Profile) (email subject now account_id role : String)
    (d d' : Store)
    → join_account S p email subject now account_id role d ≡ ok d'
    → Owned a d
    → Owned a d'
unfolding join_account
join_account-Owned a S p email subject now account_id role d d' h o =
    elim (Option-cases (find_row (is_subject account_id subject) d.members)) [
      | inl absent ↦ insert_member-Owned a _ d d' (rw (absent, join_account) at h) o
      | inr (m, found) ↦
          let same : ok (rejoin m email p.display_name now account_id role d) ≡ ok d' =
            rw (found, join_account) at h in
          let eq : rejoin m email p.display_name now account_id role d ≡ d' = cc (same) in
          rw (← eq) (rejoin-Owned a m email p.display_name subject now account_id role d found o)
    ]

-- The log is no part of the members.
pub log_event-members :
    (S : Services) (account_id now actor action target : String) (detail : Fields) (d d' : Store)
    → log_event S account_id now actor action target detail d ≡ ok d'
    → d'.members ≡ d.members
log_event-members S account_id now actor action target detail d d' h =
    let (log, put, made) = >>=-eq-ok _ (λ log. ok (record d { audit_log = log })) d' h in
    let eq : record d { audit_log = log } ≡ d' = cc (made) in rw (← eq) refl

pub Owned-members : (a : String) (d d' : Store) → d'.members ≡ d.members → Owned a d → Owned a d'
unfolding active_owner_count
Owned-members a d d' e h = rw e h

accept_one-Owned :
    (a : String) (S : Services) (p : Profile) (email subject now : String) (i : Invitation)
    (d d' : Store)
    → accept_one S p email subject now i d ≡ ok d'
    → Owned a d
    → Owned a d'
unfolding accept_one
accept_one-Owned a S p email subject now i d d' h o =
    let (role, _, h1) = >>=-eq-ok (role_of (some i.role)) _ d' h in
    let (d1, joined, h2) =
      >>=-eq-ok (join_account S p email subject now i.account_id role d) _ d' h1 in
    let o1 = join_account-Owned a S p email subject now i.account_id role d d1 joined o in
    Owned-members a d1 d' (log_event-members S _ _ _ _ _ _ _ d' h2) o1

pub accept_rows-Owned :
    (a : String) (S : Services) (p : Profile) (email subject now : String) (rows : List Invitation)
    (d d' : Store)
    → accept_rows S p email subject now rows d ≡ ok d'
    → Owned a d
    → Owned a d'
unfolding accept_rows
accept_rows-Owned a S p email subject now [] d d' h o = let e : d ≡ d' = cc (h) in rw (← e) o
accept_rows-Owned a S p email subject now (i ∷ rows) d d' h o =
    let (d1, first, rest) = >>=-eq-ok (accept_one S p email subject now i d) _ d' h in
    accept_rows-Owned a S p email subject now rows d1 d' rest
      (accept_one-Owned a S p email subject now i d d1 first o)

pub committed-Owned :
    (a : String) (d : Store) (r : Result Store)
    → ((d' : Store) → r ≡ ok d' → Owned a d')
    → Owned a d
    → Owned a (committed d r).0
committed-Owned a d (raised text) h o = o
committed-Owned a d (ok d') h o = h d' refl
