-- ===== src/Image/Bytes.antt =====
-- Byte strings as lists of numbers: reads, slices, and `struct` with the format ">I".
use try_ops_try_on_mlops.Base.{
  ℕ, zero, suc, ◌+◌, ◌*◌, ◌/◌, ◌%◌, ◌<◌, ltb, nat_eq, Bool, true, false, ◌&&◌, ◌≡◌, refl, none,
  some, List, [], ◌∷◌, ◌++◌, length, get_elem?, take, drop, All, arith, if◌then◌else◌, ◌==◌, ap,
}
use try_ops_try_on_mlops.Base.Result.{Result, raised, ok}

abbrev pub IsBytes : List ℕ → Type 0
IsBytes bytes = All (λ b. b < 256) bytes

-- a read that is never out of range, with what stands for one that were
abbrev pub at_or : List ℕ → ℕ → ℕ → ℕ
at_or [] i d = d
at_or (b ∷ bytes) zero d = b
at_or (b ∷ bytes) (suc i) d = at_or bytes i d

-- `bytes[i]`
abbrev pub byte_at : List ℕ → ℕ → Result ℕ
byte_at bytes i = elim (get_elem? bytes i) [ none ↦ raised "index out of range" | some b ↦ ok b ]

abbrev pub same_bytes : List ℕ → List ℕ → Bool
same_bytes [] [] = true
same_bytes (a ∷ as') (b ∷ bs) = a == b && same_bytes as' bs
same_bytes _ _ = false

abbrev pub from_u32_bytes : ℕ → ℕ → ℕ → ℕ → ℕ
from_u32_bytes a b c d = ((a * 256 + b) * 256 + c) * 256 + d

-- `struct.unpack(">I", bytes)`
abbrev pub unpack_u32 : List ℕ → Result ℕ
unpack_u32 (a ∷ b ∷ c ∷ d ∷ []) = ok (from_u32_bytes a b c d)
unpack_u32 _ = raised "unpack requires a buffer of 4 bytes"

abbrev pub u32_bytes : ℕ → List ℕ
u32_bytes n = n / 0x1000000 % 256 ∷ n / 0x10000 % 256 ∷ n / 0x100 % 256 ∷ n % 256 ∷ []

-- `struct.pack(">I", n)`
abbrev pub pack_u32 : ℕ → Result (List ℕ)
pack_u32 n = if ltb n 0x100000000 then ok (u32_bytes n) else raised "argument out of range"

pub from-u32_bytes :
    (n : ℕ)
    → n < 0x100000000
    → from_u32_bytes (n / 0x1000000 % 256) (n / 0x10000 % 256) (n / 0x100 % 256) (n % 256) ≡ n
from-u32_bytes n h = omega arith

pub unpack-pack : (n : ℕ) → n < 0x100000000 → unpack_u32 (u32_bytes n) ≡ ok n
unpack-pack n h = ap ok (from-u32_bytes n h)

pub same_bytes_refl : (bs : List ℕ) → same_bytes bs bs ≡ true
same_bytes_refl [] = refl
same_bytes_refl (b ∷ bs) = ground (arith, same_bytes_refl bs)

pub take-append : (xs ys : List ℕ) (n : ℕ) → n ≡ length xs → take n (xs ++ ys) ≡ xs
take-append [] ys zero h = refl
take-append [] ys (suc n) h = absurd (omega arith)
take-append (x ∷ xs) ys zero h = absurd (omega arith)
take-append (x ∷ xs) ys (suc n) h = ap (λ (zs : List ℕ). x ∷ zs) (take-append xs ys n (omega arith))

pub drop-append : (xs ys : List ℕ) (n : ℕ) → n ≡ length xs → drop n (xs ++ ys) ≡ ys
drop-append [] ys zero h = refl
drop-append [] ys (suc n) h = absurd (omega arith)
drop-append (x ∷ xs) ys zero h = absurd (omega arith)
drop-append (x ∷ xs) ys (suc n) h = drop-append xs ys n (omega arith)
