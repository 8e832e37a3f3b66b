-- ===== src/Content/Blocks.antt =====
-- A block is filled byte by byte from the generator's words, by position alone.
use prfs.Prelude.{
  if◌then◌else◌, Bool-cases, ℕ, zero, suc, ◌+◌, ◌-◌, ◌*◌, ◌/◌, ◌%◌, ◌<◌, ◌≤◌, ◌≡◌, refl, ◌∙◌, List,
  some, arith, ◌⊎◌, inl, inr,
}
use prfs.Bytes.{u32}
use native.Mathlib.Decide.{dec_lt}
use prfs.Content.{
  Env, ContentConfig, memset, is_hole, group_words, gen_block, alphabet, Buffer, write, fill,
  gen_loop, map_byte, raw_byte,
}

-- The byte of a block at index `j`, from its own group of words.
unfoldable pub block_byte : ℕ → (ℕ → List ℕ) → ℕ → ℕ
block_byte k words j = map_byte (raw_byte (words (j / 16)) (j % 16)) k

module _ (bs k : ℕ) (small : bs + 16 ≤ u32) where
  fill_past :
      (out : List ℕ) (off left i : ℕ) (buf : Buffer) (j : ℕ)
      → off + i + left < u32
      → (j < off + i) ⊎ (off + i + left ≤ j)
      → fill bs k out off left i buf j ≡ buf j
  unfolding fill
  fill_past out off zero i buf j h past = refl
  fill_past out off (suc left) i buf j h past = ground (
    arith,
    fill_past out off left (i + 1) (write ((off + i) % u32) (map_byte (raw_byte out i) k) buf) j,
  )

  fill_outside :
      (out : List ℕ) (off left i : ℕ) (buf : Buffer) (j : ℕ)
      → off + i + left < u32
      → bs ≤ j
      → fill bs k out off left i buf j ≡ buf j
  unfolding fill
  fill_outside out off zero i buf j h past = refl
  fill_outside out off (suc left) i buf j h past = ground (
    arith,
    fill_outside out off left (i + 1) (write ((off + i) % u32) (map_byte (raw_byte out i) k) buf) j,
  )

  fill_at :
      (out : List ℕ) (off left i : ℕ) (buf : Buffer) (j : ℕ)
      → off + i + left < u32
      → off + i ≤ j
      → j < off + i + left
      → j < bs
      → fill bs k out off left i buf j ≡ map_byte (raw_byte out (j - off)) k
  unfolding fill
  fill_at out off zero i buf j h lo hi inside = absurd (omega arith)
  fill_at out off (suc left) i buf j h lo hi inside = ground (
    arith,
    fill_at out off left (i + 1) (write ((off + i) % u32) (map_byte (raw_byte out i) k) buf) j,
    fill_past out off left (i + 1) (write ((off + i) % u32) (map_byte (raw_byte out i) k) buf) j,
  )

  gen_loop_stop :
      (words : ℕ → List ℕ) (fuel off g : ℕ) (buf : Buffer)
      → bs ≤ off
      → gen_loop bs k words (suc fuel) off g buf ≡ some buf
  unfolding gen_loop
  gen_loop_stop words fuel off g buf past = ground arith

  gen_loop_next :
      (words : ℕ → List ℕ) (fuel g : ℕ) (buf : Buffer)
      → g * 16 < bs
      → gen_loop bs k words (suc fuel) (g * 16) g buf
        ≡ gen_loop bs k words fuel ((g + 1) * 16) (g + 1) (fill bs k (words g) (g * 16) 16 0 buf)
  unfolding gen_loop
  gen_loop_next words fuel g buf inside =
      let off_next : (g * 16 + 16) % u32 ≡ (g + 1) * 16 = omega arith in
      let g_next : (g + 1) % u32 ≡ g + 1 = omega arith in ground arith

  -- What the loop of `genBlock` makes of a buffer from the group `g` on.
  abbrev Filled : (ℕ → List ℕ) → ℕ → Buffer → Buffer → Type 0
  Filled words g buf filled =
      ((j : ℕ) → g * 16 ≤ j → j < bs → filled j ≡ block_byte k words j)
      × ((j : ℕ) → (j < g * 16) ⊎ (bs ≤ j) → filled j ≡ buf j)

  fill_group :
      (words : ℕ → List ℕ) (g : ℕ) (buf : Buffer) (j : ℕ)
      → g * 16 < bs
      → g * 16 ≤ j
      → j < (g + 1) * 16
      → j < bs
      → fill bs k (words g) (g * 16) 16 0 buf j ≡ block_byte k words j
  unfolding block_byte
  fill_group words g buf j inside lo hi jbs =
      let group : j / 16 ≡ g = omega arith in
      let index : j % 16 ≡ j - g * 16 = omega arith in
      rw (group, index)
        (fill_at (words g) (g * 16) 16 0 buf j (omega arith) (omega arith) (omega arith) jbs)

  Filled-next :
      (words : ℕ → List ℕ) (g : ℕ) (buf filled : Buffer)
      → g * 16 < bs
      → Filled words (g + 1) (fill bs k (words g) (g * 16) 16 0 buf) filled
      → Filled words g buf filled
  Filled-next words g buf filled inside f = (at_or_later, untouched)
    where
      at_or_later : (j : ℕ) → g * 16 ≤ j → j < bs → filled j ≡ block_byte k words j
      at_or_later j lo hi = elim (dec_lt j ((g + 1) * 16)) [
        | yes early ↦ f.1 j (inl early) ∙ fill_group words g buf j inside lo early hi
        | no late ↦ f.0 j (omega arith) hi
      ]

      untouched : (j : ℕ) → (j < g * 16) ⊎ (bs ≤ j) → filled j ≡ buf j
      untouched j (inl early) =
          f.1 j (inl (omega arith))
          ∙ fill_past (words g) (g * 16) 16 0 buf j (omega arith) (inl (omega arith))
      untouched j (inr late) =
          f.1 j (inr late) ∙ fill_outside (words g) (g * 16) 16 0 buf j (omega arith) late

  -- The loop of `genBlock`, with enough fuel, sets every byte of the block from `g * 16` on.
  gen_loop_lem :
      (words : ℕ → List ℕ) (fuel g : ℕ) (buf : Buffer)
      → bs + 16 ≤ (fuel + g) * 16
      → g * 16 < bs + 16
      → (filled : Buffer) × (gen_loop bs k words fuel (g * 16) g buf ≡ some filled)
        × Filled words g buf filled
  gen_loop_lem words zero g buf enough room = absurd (omega arith)
  gen_loop_lem words (suc fuel) g buf enough room = elim (dec_lt (g * 16) bs) [
    | yes inside ↦
        let next = fill bs k (words g) (g * 16) 16 0 buf in
        let (filled, e, f) = gen_loop_lem words fuel (g + 1) next (omega arith) (omega arith) in
        (filled, gen_loop_next words fuel g buf inside ∙ e, Filled-next words g buf filled inside f)
    | no done ↦ (
      buf,
      gen_loop_stop words fuel (g * 16) g buf (omega arith),
      (λ j lo hi. absurd (omega arith), λ j out. refl),
    )
  ]

-- The byte of block `b` at index `j`: a hole reads as zeros.
unfoldable pub expected_byte : Env → ContentConfig → ℕ → ℕ → ℕ → ℕ
expected_byte env c seed b j =
    if is_hole c seed b then 0 else block_byte (alphabet env c.entropy) (group_words env c seed b) j

-- `genBlock` ends, and fills the whole block, whatever the buffer held.
pub gen_block_lem :
    (env : Env) (c : ContentConfig) (seed b : ℕ) (buf : Buffer)
    → c.block_size + 16 ≤ u32
    → (filled : Buffer) × (gen_block env c seed b (alphabet env c.entropy) buf ≡ some filled)
      × ((j : ℕ) → j < c.block_size → filled j ≡ expected_byte env c seed b j)
unfolding gen_block expected_byte
gen_block_lem env c seed b buf small = elim (Bool-cases (is_hole c seed b)) [
  | inl hole ↦ (memset 0 c.block_size buf, rw hole, λ j h. rw hole (ground arith))
  | inr data' ↦
      let k = alphabet env c.entropy in
      let words = group_words env c seed b in
      let (filled, e, f) =
        gen_loop_lem c.block_size k small words (c.block_size / 16 + 2) 0 buf (omega arith)
          (omega arith) in
      (filled, rw data' e, λ j h. rw data' (f.0 j (omega arith) h))
]
