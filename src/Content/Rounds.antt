-- ===== src/Content/Rounds.antt =====
-- The rounds of `read`: each copies its block's part of the range.
use prfs.Prelude.{
  ℕ, zero, suc, ◌+◌, ◌-◌, ◌*◌, ◌/◌, ◌%◌, ◌<◌, ◌≤◌, ◌≡◌, refl, ap, ◌∙◌, some, arith, ◌⊎◌, inl, inr,
  min, max,
}
use native.Mathlib.Decide.{dec_lt}
use prfs.Bytes.{u32, u64}
use prfs.Content.{
  copy_round, ContentConfig, Env, Buffer, memcpy, gen_block, alphabet, step_size, read_loop,
}
use prfs.Content.Blocks.{expected_byte, gen_block_lem}

-- The byte of a file at position `p`.
unfoldable pub content_byte : Env → ContentConfig → ℕ → ℕ → ℕ
content_byte env c seed p = expected_byte env c seed (p / c.block_size) (p % c.block_size)

in_block : (b bs p : ℕ) → b * bs ≤ p → p < b * bs + bs → (p / bs ≡ b) × (p % bs ≡ p - b * bs)
in_block b bs p lo hi = (grind arith, grind arith)

content_byte_in_block :
    (env : Env) (c : ContentConfig) (seed b p : ℕ)
    → b * c.block_size ≤ p
    → p < b * c.block_size + c.block_size
    → expected_byte env c seed b (p - b * c.block_size) ≡ content_byte env c seed p
unfolding content_byte
content_byte_in_block env c seed b p lo hi =
    let q = in_block b c.block_size p lo hi in rw (q.0, q.1)

module _ (env : Env) (c : ContentConfig) (seed offset end : ℕ) (small : c.block_size + 16 ≤ u32)
    (pos : 0 < c.block_size) (inside : offset < end) (bounded : end < u64) where
  abbrev bs : ℕ
  bs = c.block_size

  pub step_size_eq : step_size c ≡ bs
  step_size_eq = ground arith

  start_fits :
      (b : ℕ) → b * bs + bs < u64 → (b * bs % u64 ≡ b * bs) × ((b * bs + bs) % u64 ≡ b * bs + bs)
  start_fits b room = omega arith

  copy_round-eq :
      (b : ℕ) (filled out : Buffer)
      → b * bs + bs < u64
      → offset < b * bs + bs
      → b * bs < end
      → copy_round c offset end b filled out
        ≡ memcpy
            (max offset (b * bs) - offset)
            filled
            (max offset (b * bs) - b * bs)
            (min end (b * bs + bs) - max offset (b * bs))
            out
  unfolding copy_round
  copy_round-eq b filled out room late early =
      let f = λ (n s e : ℕ).
        memcpy (max offset s - offset) filled (max offset s - s)
          ((min end e + u64 - max offset s) % u64) out in
      let width : (min end (b * bs + bs) + u64 - max offset (b * bs)) % u64
          ≡ min end (b * bs + bs) - max offset (b * bs) =
        omega arith in
      ap (λ (n : ℕ). f n (b * n % u64) ((b * n % u64 + n) % u64)) step_size_eq
      ∙ ap (λ (s : ℕ). f bs s ((s + bs) % u64)) (start_fits b room).0
      ∙ ap (λ (e : ℕ). f bs (b * bs) e) (start_fits b room).1
      ∙ ap
          (λ (n : ℕ).
            memcpy (max offset (b * bs) - offset) filled (max offset (b * bs) - b * bs) n out)
          width

  copy_inside :
      (b i : ℕ) (filled out : Buffer)
      → b * bs + bs < u64
      → offset < b * bs + bs
      → b * bs < end
      → b * bs ≤ offset + i
      → offset + i < b * bs + bs
      → offset + i < end
      → copy_round c offset end b filled out i ≡ filled (offset + i - b * bs)
  copy_inside b i filled out room late early lo hi before =
      let index : i - (max offset (b * bs) - offset) + (max offset (b * bs) - b * bs)
          ≡ offset + i - b * bs =
        omega arith in
      ap (λ f. f i) (copy_round-eq b filled out room late early) ∙ ground arith

  copy_outside :
      (b i : ℕ) (filled out : Buffer)
      → b * bs + bs < u64
      → offset < b * bs + bs
      → b * bs < end
      → (offset + i < b * bs) ⊎ (end ≤ offset + i) ⊎ (b * bs + bs ≤ offset + i)
      → copy_round c offset end b filled out i ≡ out i
  copy_outside b i filled out room late early away =
      ap (λ f. f i) (copy_round-eq b filled out room late early) ∙ ground arith

  -- What the rounds from block `b` on make of the output.
  abbrev pub Served : ℕ → ℕ → Buffer → Buffer → Type 0
  Served left b out done =
      ((i : ℕ)
        → b * bs ≤ offset + i
        → offset + i < (b + left) * bs
        → offset + i < end
        → done i ≡ content_byte env c seed (offset + i))
      × ((i : ℕ)
          → (offset + i < b * bs) ⊎ (end ≤ offset + i) ⊎ ((b + left) * bs ≤ offset + i)
          → done i ≡ out i)

  Served-next :
      (left b : ℕ) (filled out done : Buffer)
      → b * bs + bs < u64
      → offset < b * bs + bs
      → b * bs < end
      → ((j : ℕ) → j < bs → filled j ≡ expected_byte env c seed b j)
      → Served left (b + 1) (copy_round c offset end b filled out) done
      → Served (suc left) b out done
  Served-next left b filled out done room late early f s = (served, untouched)
    where
      now :
          (i : ℕ)
          → b * bs ≤ offset + i
          → offset + i < b * bs + bs
          → offset + i < end
          → done i ≡ content_byte env c seed (offset + i)
      now i lo hi before =
          s.1 i (inl (omega arith))
          ∙ copy_inside b i filled out room late early lo hi before
          ∙ f (offset + i - b * bs) (omega arith)
          ∙ content_byte_in_block env c seed b (offset + i) lo hi

      served :
          (i : ℕ)
          → b * bs ≤ offset + i
          → offset + i < (b + suc left) * bs
          → offset + i < end
          → done i ≡ content_byte env c seed (offset + i)
      served i lo hi before = elim (dec_lt (offset + i) (b * bs + bs)) [
        | yes here ↦ now i lo here before
        | no later ↦ s.0 i (omega arith) (omega arith) before
      ]

      untouched :
          (i : ℕ)
          → (offset + i < b * bs) ⊎ (end ≤ offset + i) ⊎ ((b + suc left) * bs ≤ offset + i)
          → done i ≡ out i
      untouched i (inl below) =
          s.1 i (inl (omega arith)) ∙ copy_outside b i filled out room late early (inl below)
      untouched i (inr (inl past)) =
          s.1 i (inr (inl past)) ∙ copy_outside b i filled out room late early (inr (inl past))
      untouched i (inr (inr past)) =
          s.1 i (inr (inr (omega arith)))
          ∙ copy_outside b i filled out room late early (inr (inr (omega arith)))

  read_loop-some :
      (left b : ℕ) (block filled out : Buffer)
      → gen_block env c seed b (alphabet env c.entropy) block ≡ some filled
      → read_loop env c seed (alphabet env c.entropy) offset end (suc left) b block out
        ≡ read_loop env c seed
            (alphabet env c.entropy)
            offset
            end
            left
            (b + 1)
            filled
            (copy_round c offset end b filled out)
  unfolding read_loop
  read_loop-some left b block filled out e = rw (e, read_loop)

  pub read_loop_lem :
      (left b : ℕ) (block out : Buffer)
      → (b + left) * bs < u64
      → (b + left) * bs < end + bs
      → offset < b * bs + bs
      → (done : Buffer) × (read_loop env c seed (alphabet env c.entropy) offset end left b block out
          ≡ some done)
        × Served left b out done
  unfolding read_loop
  read_loop_lem zero b block out room stop late =
      (out, refl, (λ i lo hi before. absurd (omega arith), λ i away. refl))
  read_loop_lem (suc left) b block out room stop late =
      let (filled, e, f) = gen_block_lem env c seed b block small in
      let (done, e', s) =
        read_loop_lem left (b + 1) filled (copy_round c offset end b filled out) (omega arith)
          (omega arith) (omega arith) in
      (
        done,
        read_loop-some left b block filled out e ∙ e',
        Served-next left b filled out done (omega arith) late (omega arith) f s,
      )
