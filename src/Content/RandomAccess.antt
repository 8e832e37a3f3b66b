-- ===== src/Content/RandomAccess.antt =====
-- `read` serves any range from the bytes' positions alone.
use prfs.Prelude.{
  ℕ, ◌+◌, ◌-◌, ◌*◌, ◌/◌, ◌%◌, ◌<◌, ◌≤◌, ◌≡◌, refl, ap, ◌∙◌, some, arith, inl, inr, min, div_bounds,
  ltb, if◌then◌else◌, sym,
}
use native.Mathlib.Decide.{dec_lt}
use mathlib.Core.Path.{fun_ext}
use prfs.Bytes.{u32, u64}
use prfs.Content.{read_to, read, ContentConfig, Env, Buffer, alphabet, read_loop, read}
use prfs.Content.Rounds.{content_byte, step_size_eq, read_loop_lem}

div_mono : (a b d : ℕ) → 0 < d → a ≤ b → a / d ≤ b / d
div_mono a b d h le = grind (arith, div_bounds a d h, div_bounds b d h)

module _ (env : Env) (c : ContentConfig) (seed offset end : ℕ) (out : Buffer)
    (small : c.block_size + 16 ≤ u32) (pos : 0 < c.block_size) (inside : offset < end)
    (fits : end + c.block_size < u64) where
  abbrev size_of : ℕ
  size_of = c.block_size

  blocks_left : ℕ
  blocks_left = (end - 1) / size_of + 1 - offset / size_of

  read_to-eq :
      (done : Buffer)
      → read_loop env c seed
          (alphabet env c.entropy)
          offset
          end
          blocks_left
          (offset / size_of)
          (λ _. 0)
          out
        ≡ some done
      → read_to env c seed offset end out ≡ some (end - offset, done)
  unfolding read_to blocks_left
  read_to-eq done e =
      let last : (end + u64 - 1) % u64 ≡ end - 1 = omega arith in
      let count : (end + u64 - offset) % u64 ≡ end - offset = omega arith in
      rw
        (step_size_eq env c seed offset end small pos inside (omega arith), last, e, read_to, count)

  blocks_end : offset / size_of + blocks_left ≡ (end - 1) / size_of + 1
  unfolding blocks_left
  blocks_end = omega (arith, div_mono offset (end - 1) size_of pos (omega arith))

  pub read_to_lem :
      (filled : Buffer) × (read_to env c seed offset end out ≡ some (end - offset, filled))
      × ((i : ℕ) → offset + i < end → filled i ≡ content_byte env c seed (offset + i))
      × ((i : ℕ) → end ≤ offset + i → filled i ≡ out i)
  read_to_lem =
      let first = div_bounds offset size_of pos in
      let last = div_bounds (end - 1) size_of pos in
      let stop = ap (λ (n : ℕ). n * size_of) blocks_end in
      let (done, e, s) =
        read_loop_lem env c seed offset end small pos inside (omega arith) blocks_left
          (offset / size_of) (λ _. 0) out (omega arith) (omega arith) (omega arith) in
      (
        done,
        read_to-eq done e,
        λ i h. s.0 i (omega arith) (omega arith) h,
        λ i h. s.1 i (inr (inl h)),
      )

read_passes :
    (env : Env) (c : ContentConfig) (seed size offset len : ℕ) (out : Buffer)
    → offset < size
    → 0 < len
    → read env c seed size offset len out
      ≡ read_to env c seed offset (min ((offset + len) % u64) size) out
unfolding read
read_passes env c seed size offset len out before some_bytes = ground arith

-- The caller's buffer with the `n` bytes of the file from `offset` on at its front.
unfoldable pub with_file_bytes : Env → ContentConfig → ℕ → ℕ → ℕ → Buffer → Buffer
with_file_bytes env c seed offset n out i =
    if ltb i n then content_byte env c seed (offset + i) else out i

with_file_bytes_at :
    (env : Env) (c : ContentConfig) (seed offset n i x : ℕ) (out : Buffer)
    → (i < n → x ≡ content_byte env c seed (offset + i))
    → (n ≤ i → x ≡ out i)
    → x ≡ with_file_bytes env c seed offset n out i
unfolding with_file_bytes
with_file_bytes_at env c seed offset n i x out inside outside = elim (dec_lt i n) [
  | yes here ↦ inside here ∙ ground arith
  | no away ↦ outside (omega arith) ∙ ground arith
]

pub with_no_bytes :
    (env : Env) (c : ContentConfig) (seed offset n : ℕ) (out : Buffer)
    → n ≡ 0
    → out ≡ with_file_bytes env c seed offset n out
with_no_bytes env c seed offset n out e = fun_ext (λ i.
    with_file_bytes_at env c seed offset n i (out i) out (λ h. absurd (omega arith)) (λ h. refl))

-- With a block size above 0 and at most 2 ^ 32 - 16, a read whose range ends below 2 ^ 64, of a file
-- whose size plus one block is below 2 ^ 64, is answered: the count is the part of the range inside the file, those bytes are the file's at
-- their positions, which do not depend on the range, and the rest of the caller's buffer is not
-- touched.
pub read_lem :
    (env : Env) (c : ContentConfig) (seed size offset len : ℕ) (out : Buffer)
    → 0 < c.block_size
    → c.block_size + 16 ≤ u32
    → offset + len < u64
    → size + c.block_size < u64
    → read env c seed size offset len out
      ≡ some
          (min len (size - offset), with_file_bytes env c seed offset (min len (size - offset)) out)
unfolding read
read_lem env c seed size offset len out pos small range fits = elim (dec_lt offset size) [
  | no past ↦
      let count : min len (size - offset) ≡ 0 = omega arith in
      let untouched : read env c seed size offset len out ≡ some (0, out) = ground arith in
      untouched
      ∙ ap (λ (n : ℕ). some (n, out)) (sym count)
      ∙ ap (λ (b : Buffer). some (min len (size - offset), b))
          (with_no_bytes env c seed offset (min len (size - offset)) out count)
  | yes before ↦ elim (dec_lt 0 len) [
    | no empty ↦
        let count : min len (size - offset) ≡ 0 = omega arith in
        let untouched : read env c seed size offset len out ≡ some (0, out) = ground arith in
        untouched
        ∙ ap (λ (n : ℕ). some (n, out)) (sym count)
        ∙ ap (λ (b : Buffer). some (min len (size - offset), b))
            (with_no_bytes env c seed offset (min len (size - offset)) out count)
    | yes some_bytes ↦
        let end : ℕ = min (offset + len) size in
        let (filled, e, served, kept) =
          read_to_lem env c seed offset end out small pos (omega arith) (omega arith) in
        let wrap : (offset + len) % u64 ≡ offset + len = omega arith in
        let count : end - offset ≡ min len (size - offset) = omega arith in
        let bytes : filled ≡ with_file_bytes env c seed offset (min len (size - offset)) out =
          fun_ext (λ i.
            with_file_bytes_at env c seed offset (min len (size - offset)) i (filled i) out
              (λ h. served i (omega arith)) (λ h. kept i (omega arith))) in
        read_passes env c seed size offset len out before some_bytes
        ∙ ap (λ (n : ℕ). read_to env c seed offset (min n size) out) wrap
        ∙ e
        ∙ ap (λ (n : ℕ). some (n, filled)) count
        ∙ ap (λ (b : Buffer). some (min len (size - offset), b)) bytes
  ]
]
