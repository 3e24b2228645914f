-- ===== src/Base/Json.antt =====
-- The values that `json.loads` builds and that the program passes on as `Any`. Numbers are
-- integers: the code that reads such a value as a float has its own type of numbers.
use mathlib.Core.Bool.{Bool, true, false, not}
use mathlib.Core.Option.{Option, none, some}
use mathlib.Core.List.{List, [], ◌∷◌, map}
use try_ops_try_on_mlops.Base.Text.{characters}
use Prim.Native.Nat.{zero, suc}
use Prim.Native.String.{String}
use mathlib.Core.Path.{◌≡◌, refl}
use mathlib.Core.Logic.{◌≢◌}
use native.Mathlib.Omega.{arith}
use text.Mathlib.TextEquality.{eq_iff}
use text.Mathlib.TextPositions.{eq_refl}
use try_ops_try_on_mlops.Base.Tests.{string_eq, ◌==◌, if◌then◌else◌}
use try_ops_try_on_mlops.Base.Int.{ℤ, pos, negsuc}

mutual
  pub data Json : Type 0 where
    null : Json
    bool : Bool → Json
    num : ℤ → Json
    str : String → Json
    arr : Items → Json
    obj : Fields → Json

  pub data Items : Type 0 where
    nil : Items
    cons : Json → Items → Items

  pub data Fields : Type 0 where
    end : Fields
    field : String → Json → Fields → Fields

-- `d.get(k)`, with `none` for a missing key
abbrev pub get : String → Fields → Option Json
get k end = none
get k (field j v d) = if j == k then some v else get k d

-- `d.get(k, default)`
abbrev pub get_or : String → Json → Fields → Json
get_or k v d = elim (get k d) [ none ↦ v | some w ↦ w ]

abbrev pub append_field : String → Json → Fields → Fields
append_field k v end = field k v end
append_field k v (field j w d) = field j w (append_field k v d)

-- `d.setdefault(k, v)`
abbrev pub setdefault : String → Json → Fields → Fields
setdefault k v d = elim (get k d) [ none ↦ append_field k v d | some w ↦ d ]

-- `bool(v)`
abbrev pub truthy : Json → Bool
truthy null = false
truthy (bool b) = b
truthy (num (pos zero)) = false
truthy (num (pos (suc n))) = true
truthy (num (negsuc n)) = true
truthy (str s) = not (s == "")
truthy (arr nil) = false
truthy (arr (cons v vs)) = true
truthy (obj end) = false
truthy (obj (field k v d)) = true

-- `a or b` of two values
abbrev pub or_else : Json → Json → Json
or_else a b = if truthy a then a else b

-- `v == s` for a text `s`
abbrev pub is_str : String → Json → Bool
is_str s (str t) = t == s
is_str s _ = false

get-append_field :
    (k j : String) (v : Json) (d : Fields)
    → get j (append_field k v d)
      ≡ elim (get j d) [ none ↦ if k == j then some v else none | some w ↦ some w ]
get-append_field k j v end = refl
get-append_field k j v (field i w d) = ground (arith, get-append_field k j v d)

-- `setdefault` gives a missing key its value, and changes nothing else.
pub get-setdefault_self :
    (k : String) (v : Json) (d : Fields) → get k (setdefault k v d) ≡ some (get_or k v d)
get-setdefault_self k v d = ground (arith, get-append_field k k v d, eq_refl k)

pub get-setdefault_ne :
    (k j : String) (v : Json) (d : Fields) → k ≢ j → get j (setdefault k v d) ≡ get j d
get-setdefault_ne k j v d ne = ground (arith, get-append_field k j v d, eq_iff k j)

-- `v if isinstance(v, dict) else {}`
abbrev pub as_dict : Json → Fields
as_dict (obj d) = d
as_dict _ = end

abbrev pub elements : Items → List Json
elements nil = []
elements (cons v vs) = v ∷ elements vs

abbrev keys : Fields → List Json
keys end = []
keys (field k v d) = str k ∷ keys d

-- what `for item in v` goes through; `none` is the `TypeError` of what is not iterable
abbrev pub iterate : Json → Option (List Json)
iterate (arr vs) = some (elements vs)
iterate (obj d) = some (keys d)
iterate (str s) = some (map str (characters s))
iterate _ = none
