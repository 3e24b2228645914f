-- ===== src/Accounts/Owners.antt =====
-- A change of a member's role or status leaves the workspace an owner.
use text.Mathlib.TextEquality.{eq_iff}
use try_ops_try_on_mlops.Base.{
  ◌+◌, ◌<◌, String, string_eq, true, false, ◌≡◌, refl, Option, some, [], ◌∷◌, ◌==◌, arith,
  if◌then◌else◌, Bool-cases, Option-cases, inl, inr, count_if, contains,
}
use try_ops_try_on_mlops.Base.Result.{Result, raised, ok}
use try_ops_try_on_mlops.Accounts.Table.{
  find_row, find_row-true, Distinct, count_if-update_rows, update_rows-Distinct,
}
use try_ops_try_on_mlops.Accounts.Store.{
  Member, Store, is_member, is_active_owner, active_owner_count,
}
use try_ops_try_on_mlops.Accounts.Members.{
  set_role_status, write_member, drops_last_owner, update_as, update_checked, update_account_member,
}

-- The ids of the members are a primary key.
abbrev pub Keyed : Store → Type 0
Keyed d = Distinct (λ m. m.id) d.members

abbrev HasOwner : String → Store → Type 0
HasOwner a d = 0 < active_owner_count d a

abbrev pub Owned : String → Store → Type 0
Owned a d = Keyed d × HasOwner a d

pub is_member-id :
    (a m : String) (s t : Member) → is_member a m s ≡ true → is_member a m t ≡ true → s.id ≡ t.id
is_member-id a m s t hs ht =
    let es : s.id ≡ m = (eq_iff s.id m).0 (ground arith) in
    let et : t.id ≡ m = (eq_iff t.id m).0 (ground arith) in cc (es, et)

-- Both tests of an account's id at one row.
same_account :
    (a b : String) (m : Member) → (m.account_id == a) ≡ true → (m.account_id == b) ≡ true → a ≡ b
same_account a b m ha hb =
    let ea = (eq_iff m.account_id a).0 ha in let eb = (eq_iff m.account_id b).0 hb in cc (ea, eb)

write_member-Keyed :
    (d : Store) (account_id member_id role status : String)
    → Keyed d
    → Keyed (write_member d account_id member_id role status)
write_member-Keyed d account_id member_id role status h =
    update_rows-Distinct (λ m. m.id) (is_member account_id member_id) (set_role_status role status)
      d.members (λ m. refl) h

write_member-count :
    (a : String) (d : Store) (account_id member_id : String) (current : Member)
    (role status : String)
    → find_row (is_member account_id member_id) d.members ≡ some current
    → Keyed d
    → count_if (is_active_owner a) (write_member d account_id member_id role status).members
        + (if is_active_owner a current then 1 else 0)
      ≡ count_if (is_active_owner a) d.members
        + (if is_active_owner a (set_role_status role status current) then 1 else 0)
write_member-count a d account_id member_id current role status found h =
    count_if-update_rows (λ m. m.id) (is_member account_id member_id) (is_active_owner a)
      (set_role_status role status) d.members current h (is_member-id account_id member_id) found

-- An owner who is written over with another role or status is not the only one.
write_member-HasOwner :
    (a : String) (d : Store) (account_id member_id : String) (current : Member)
    (role status : String)
    → find_row (is_member account_id member_id) d.members ≡ some current
    → drops_last_owner d account_id current role status ≡ false
    → Owned a d
    → HasOwner a (write_member d account_id member_id role status)
unfolding drops_last_owner active_owner_count
write_member-HasOwner a d account_id member_id current role status found kept h =
    let moved = write_member-count a d account_id member_id current role status found h.0 in
    elim (Bool-cases (is_active_owner a current)) [
      | inr e ↦ omega (arith, h.1, rw e at moved)
      | inl t ↦ elim (Bool-cases (is_active_owner a (set_role_status role status current))) [
        | inl t' ↦ omega (arith, h.1, rw (t, t') at moved)
        | inr e' ↦
            let here = find_row-true (is_member account_id member_id) d.members current found in
            let same =
              same_account a account_id current (ground (arith, t)) (ground (arith, here)) in
            let more : 1 < count_if (is_active_owner a) d.members =
              rw same (ground (arith, kept, t, e')) in
            omega (arith, more, rw (t, e') at moved)
      ]
    ]

update_checked-Owned :
    (a : String) (d : Store) (account_id member_id : String) (current : Member)
    (next_role next_status : String)
    → find_row (is_member account_id member_id) d.members ≡ some current
    → Owned a d
    → Owned a (update_checked d account_id member_id current next_role next_status).0
unfolding update_checked
update_checked-Owned a d account_id member_id current next_role next_status found h =
    elim (Bool-cases (contains next_status ("active" ∷ "removed" ∷ "disabled" ∷ []))) [
      | inr bad ↦ rw bad h
      | inl good ↦ elim (Bool-cases (drops_last_owner d account_id current next_role next_status)) [
        | inl t ↦ rw (good, t) h
        | inr f ↦
            rw (good, f)
              (
                write_member-Keyed d account_id member_id next_role next_status h.0,
                write_member-HasOwner a d account_id member_id current next_role next_status found f
                    h,
              )
      ]
    ]

update_as-Owned :
    (a : String) (d : Store) (account_id member_id : String) (current : Member)
    (status : Option String) (r : Result String)
    → find_row (is_member account_id member_id) d.members ≡ some current
    → Owned a d
    → Owned a (update_as d account_id member_id current status r).0
update_as-Owned a d account_id member_id current status (raised text) found h = h
update_as-Owned a d account_id member_id current status (ok next_role) found h =
    update_checked-Owned a d account_id member_id current next_role _ found h

pub update_account_member-Owned :
    (a : String) (d : Store) (account_id member_id : String) (role status : Option String)
    → Owned a d
    → Owned a (update_account_member d account_id member_id role status).0
unfolding update_account_member
update_account_member-Owned a d account_id member_id role status h =
    elim (Option-cases (find_row (is_member account_id member_id) d.members)) [
      | inl gone ↦ rw (gone, update_account_member) h
      | inr (current, found) ↦
          rw (found, update_account_member)
            (update_as-Owned a d account_id member_id current status _ found h)
    ]
