-- ===== src/Base/Text.antt =====
-- Python's `str` methods that the program uses.
use Prim.Native.Char.{Char, code}
use Prim.Native.Nat.{ℕ, ◌-◌}
use Prim.Native.String.{String, ◌++◌, count}
use text.Mathlib.Text.{starts_with}
use mathlib.Core.Path.{◌≡◌, refl}
use mathlib.Core.List.{List, [], ◌∷◌}
use mathlib.Core.Bool.{Bool, ◌&&◌, ◌||◌}
use try_ops_try_on_mlops.Base.Tests.{leb, nat_eq, ◌==◌, if◌then◌else◌}

-- `c.isspace()`
abbrev pub is_space : Char → Bool
is_space ch =
    let c = code ch in
    (leb 9 c && leb c 13)
    || (leb 28 c && leb c 32)
    || c == 0x85
    || c == 0xa0
    || c == 0x1680
    || (leb 0x2000 c && leb c 0x200a)
    || c == 0x2028
    || c == 0x2029
    || c == 0x202f
    || c == 0x205f
    || c == 0x3000

module _ (cut : Char → Bool) where
  unfoldable pub lstrip_by : String → String
  lstrip_by String.[] = String.[]
  lstrip_by (String.◌∷◌ c s) = let rest = lstrip_by s in if cut c then rest else String.◌∷◌ c s

  -- a character in front of a text that is stripped at its end
  abbrev pub put : Char → String → String
  put c String.[] = if cut c then String.[] else String.◌∷◌ c String.[]
  put c (String.◌∷◌ d s) = String.◌∷◌ c (String.◌∷◌ d s)

  unfoldable pub rstrip_by : String → String
  rstrip_by String.[] = String.[]
  rstrip_by (String.◌∷◌ c s) = put c (rstrip_by s)

-- `s.strip()`
unfoldable pub strip : String → String
unfolding lstrip_by rstrip_by
strip s = rstrip_by is_space (lstrip_by is_space s)

strip_both : strip "  a b\t " ≡ "a b"
unfolding strip
strip_both = refl

-- `s.replace(old, new)` behind `skip` characters that a match has used up
unfoldable pub replace_from : String → String → ℕ → String → String
replace_from old new skip String.[] = String.[]
replace_from old new skip (String.◌∷◌ c s) =
    let hit : Bool = skip == 0 && starts_with (String.◌∷◌ c s) old in
    let rest = replace_from old new (if hit then count old - 1 else skip - 1) s in
    if hit then new ++ rest else if skip == 0 then String.◌∷◌ c rest else rest

-- `s.replace(old, new)` for an `old` that is not empty
unfoldable pub replace : String → String → String → String
unfolding replace_from
replace s old new = replace_from old new 0 s

replace_all : replace "/root/x: /root" "/root" "$R" ≡ "$R/x: $R"
unfolding replace
replace_all = refl

-- an f-string, as the list of its parts
abbrev pub concat : List String → String
concat [] = String.[]
concat (s ∷ ss) = s ++ concat ss

-- `sep.join(parts)`
abbrev pub join : String → List String → String
join sep [] = String.[]
join sep (s ∷ []) = s
join sep (s ∷ t ∷ ss) = s ++ (sep ++ join sep (t ∷ ss))

abbrev pub characters : String → List String
characters String.[] = []
characters (String.◌∷◌ c s) = String.◌∷◌ c String.[] ∷ characters s

join_three : join ", " ("a" ∷ "b" ∷ "c" ∷ []) ≡ "a, b, c"
join_three = refl
