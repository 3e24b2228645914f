-- ===== src/Image/Stream.antt =====
-- The loop over the chunks of a PNG file: its fuel is enough, and it takes one written chunk after the other.
use mathlib.Core.List.{append_assoc}
use try_ops_try_on_mlops.Base.{
  ℕ, zero, suc, ◌+◌, ◌-◌, ◌≤◌, ◌<◌, ltb, nat_eq, false, ◌≡◌, refl, Option, none, some, List, [],
  ◌∷◌, ◌++◌, length, take, drop, arith, Bool-cases, inl, inr, ap, ◌∙◌, length-append, sym,
}
use try_ops_try_on_mlops.Base.Result.{Result, raised, ok, ◌>>=◌}
use try_ops_try_on_mlops.Image.Bytes.{unpack_u32, unpack-pack, u32_bytes, take-append, drop-append}
use try_ops_try_on_mlops.Image.Png.{Chunks, take_chunk, read_chunks, iend_type}

same_bind {ℓ κ} :
    {A : Type ℓ} {B : Type κ} (m : Result A) (f g : A → Result B)
    → ((a : A) → f a ≡ g a)
    → (m >>= f) ≡ (m >>= g)
same_bind (raised text) f g h = refl
same_bind (ok a) f g h = h a

length-drop_le : (n : ℕ) (bytes : List ℕ) → length (drop n bytes) ≤ length bytes - n
length-drop_le zero bytes = omega arith
length-drop_le (suc n) [] = omega arith
length-drop_le (suc n) (b ∷ bytes) = omega (arith, length-drop_le n bytes)

-- With fuel for each byte the loop ends by its own tests: more fuel changes nothing.
pub read_chunks_enough :
    (f g : ℕ) (rest : List ℕ) (found : Chunks)
    → length rest ≤ f
    → length rest ≤ g
    → read_chunks f rest found ≡ read_chunks g rest found
unfolding read_chunks
read_chunks_enough zero zero rest found hf hg = refl
read_chunks_enough zero (suc g) [] found hf hg = refl
read_chunks_enough zero (suc g) (b ∷ rest) found hf hg = absurd (omega arith)
read_chunks_enough (suc f) zero [] found hf hg = refl
read_chunks_enough (suc f) zero (b ∷ rest) found hf hg = absurd (omega arith)
read_chunks_enough (suc f) (suc g) rest found hf hg = elim (Bool-cases (ltb (length rest) 8)) [
  | inl short ↦ rw (short, read_chunks) refl
  | inr long ↦
      let fewer : (n : ℕ) → (length (drop (12 + n) rest) ≤ f) × (length (drop (12 + n) rest) ≤ g) =
        λ n.
          let le = length-drop_le (12 + n) rest in
          (ground (arith, long, le), ground (arith, long, le)) in
      rw (long, read_chunks)
        (same_bind (unpack_u32 (take 4 rest)) _ _ (λ n.
          same_bind (take_chunk (take 4 (drop 4 rest)) (take n (drop 8 rest)) found) _ _ (elim [
            | none ↦ refl
            | some found' ↦
                read_chunks_enough f g (drop (12 + n) rest) found' (fewer n).0 (fewer n).1
          ])))
]

-- One round of the loop, by what it reads.
round :
    (fuel n : ℕ) (rest : List ℕ) (found : Chunks) (more : Option Chunks)
    → ltb (length rest) 8 ≡ false
    → unpack_u32 (take 4 rest) ≡ ok n
    → take_chunk (take 4 (drop 4 rest)) (take n (drop 8 rest)) found ≡ ok more
    → read_chunks (suc fuel) rest found
      ≡ elim more [ none ↦ ok found | some found' ↦ read_chunks fuel (drop (12 + n) rest) found' ]
unfolding read_chunks
round fuel n rest found more long size taken = rw (long, read_chunks) (rw size (rw taken refl))

drop-nil : (n : ℕ) → drop {A = ℕ} n [] ≡ []
drop-nil zero = refl
drop-nil (suc n) = refl

pub drop-drop : (a b : ℕ) (bytes : List ℕ) → drop (b + a) bytes ≡ drop b (drop a bytes)
drop-drop zero b bytes = ap (λ (k : ℕ). drop k bytes) (omega arith)
drop-drop (suc a) b [] = drop-nil (b + suc a) ∙ sym (drop-nil b)
drop-drop (suc a) b (x ∷ bytes) =
    let e : b + suc a ≡ suc (b + a) = omega arith in rw e (drop-drop a b bytes)

module _ (chunk_type : List ℕ) (typed : length chunk_type ≡ 4) (body : List ℕ) (crc : ℕ) where
  -- a chunk as `_chunk` lays it out
  abbrev pub written : List ℕ
  written = u32_bytes (length body) ++ (chunk_type ++ (body ++ u32_bytes crc))

  length-written : length written ≡ 12 + length body
  length-written = omega (
    arith,
    length-append {0} chunk_type (body ++ u32_bytes crc),
    length-append {0} body (u32_bytes crc),
  )

  -- A chunk that does not end the file is taken, and the loop goes on behind it.
  pub read-written :
      (fuel : ℕ) (rest : List ℕ) (found found' : Chunks)
      → length body < 0x100000000
      → take_chunk chunk_type body found ≡ ok (some found')
      → read_chunks (suc fuel) (written ++ rest) found ≡ read_chunks fuel rest found'
  read-written fuel rest found found' small taken =
      let n = length body in
      let long : ltb (length (written ++ rest)) 8 ≡ false =
        let e = length-append {0} written rest in
        let e' = length-written in ground (arith, e, e') in
      let size : unpack_u32 (take 4 (written ++ rest)) ≡ ok n = unpack-pack n small in
      let behind : drop 4 (written ++ rest) ≡ chunk_type ++ ((body ++ u32_bytes crc) ++ rest) =
        append_assoc chunk_type (body ++ u32_bytes crc) rest in
      let name : take 4 (drop 4 (written ++ rest)) ≡ chunk_type =
        rw behind (take-append chunk_type _ 4 (omega arith)) in
      let inside : drop 8 (written ++ rest) ≡ (body ++ u32_bytes crc) ++ rest =
        drop-drop 4 4 (written ++ rest) ∙ rw behind (drop-append chunk_type _ 4 (omega arith)) in
      let content : take n (drop 8 (written ++ rest)) ≡ body =
        rw (inside, append_assoc) (take-append body _ n refl) in
      let next : drop (12 + n) (written ++ rest) ≡ rest =
        drop-append written rest (12 + n) (sym length-written) in
      let step =
        round fuel n (written ++ rest) found (some found') long size (rw (name, content) taken) in
      step ∙ ap (λ (bytes : List ℕ). read_chunks fuel bytes found') next

-- The IEND chunk ends the file.
pub read-iend :
    (fuel crc : ℕ) (found : Chunks)
    → read_chunks (suc fuel) (written iend_type refl [] crc) found ≡ ok found
unfolding read_chunks take_chunk
read-iend fuel crc found = refl
