-- ===== src/Nfsv3/Seeds.antt =====
-- The content seed that a WRITE makes, in the store.
use prfs.Prelude.{
  ℕ, ◌<◌, ◌≡◌, ◌≢◌, refl, ◌∙◌, [], ◌∷◌, ◌==◌, true, false, Bool-cases, inl, inr, some, Option-cases,
  if◌then◌else◌, arith, ◌+◌, ◌*◌, ◌%◌, bit_xor,
}
use prfs.Bytes.{Bytes, u64}
use prfs.Core.Record.{NodeRec, reg, type_code, ok}
use prfs.Core.Tables.{load_node, store_node}
use prfs.Core.Store.{Store, is_snap_dir, rr}
use prfs.Core.Attrs.{set_content_seed, set_guarded, content_seed, attrs, read_node}
use prfs.Core.Loads.{Bounded}
use prfs.Core.Ops.{StoreOk}
use prfs.Core.Invariant.{fits, loaded_Bounded}
use prfs.Core.Namespace.Live.{load_node-store_node}
use prfs.Names.{live}
use prfs.Nfsv3.Attrs.{mix_seed, mix_loop}

mix_seed-nonzero : (seed off : ℕ) (bytes : Bytes) → mix_seed seed off bytes ≢ 0
unfolding mix_seed
mix_seed-nonzero seed off bytes = ground arith

module _ (s : Store) (k : StoreOk s) (id x : ℕ) (hid : id < u64) (hx : x < u64)
    (real : is_snap_dir id ≡ false) (nonzero : x ≢ 0) where
  stored :
      (r : NodeRec)
      → load_node s.db id s.cur ≡ some r
      → (r.type == type_code reg) ≡ true
      → content_seed (live id) (record s { db = store_node id s.cur (record r { spec = x }) s.db })
        ≡ x
  unfolding content_seed attrs read_node rr store_node
  stored r e wanted =
      let b = loaded_Bounded s id r k hid e in
      let w = record r { spec = x } in
      let bw : Bounded s.cur w = omega (arith, b.fits) in
      let same : (id == id) ≡ true = ground arith in
      let found : load_node (store_node id s.cur w s.db) id s.cur ≡ some w =
        load_node-store_node s.cur id w s.db id (fits s k) hid hid bw k.db_ok ∙ rw same refl in
      let apart : (x == 0) ≡ false = ground (arith, nonzero) in rw (real, found, wanted, apart) refl

  content_seed-set_content_seed :
      (set_content_seed (live id) x s).0 ≡ ok
      → content_seed (live id) (set_content_seed (live id) x s).1 ≡ x
  unfolding set_content_seed set_guarded
  content_seed-set_content_seed = elim (Option-cases (load_node s.db id s.cur)) [
    | inl missing ↦ rw (missing, set_guarded) (λ h. cc)
    | inr (r, e) ↦ elim (Bool-cases (r.type == type_code reg)) [
      | inl wanted ↦ rw (e, set_guarded, wanted) (λ h. stored r e wanted)
      | inr other ↦ rw (e, set_guarded, other) (λ h. cc)
    ]
  ]

pub mix_loop-lt : (bytes : Bytes) (h : ℕ) → h < u64 → mix_loop bytes h < u64
unfolding mix_loop
mix_loop-lt [] h small = small
mix_loop-lt (c ∷ bytes) h small = mix_loop-lt bytes _ (omega arith)

mix_seed_cons-lt : (seed off c : ℕ) (bytes : Bytes) → mix_seed seed off (c ∷ bytes) < u64
unfolding mix_seed mix_loop
mix_seed_cons-lt seed off c bytes =
    let h =
      bit_xor (bit_xor seed ((off + 0x9E3779B97F4A7C15) % u64)) (c % 256) * 0x100000001B3 % u64 in
    or_one (mix_loop bytes h) (mix_loop-lt bytes h (omega arith))
  where
    or_one : (h : ℕ) → h < u64 → (if h == 0 then 1 else h) < u64
    or_one h small = ground arith

-- In a well-formed store, once the seed that a write of at least one byte makes of a file's seed is
-- set, with success, on a node with an id of 64 bits that is not a `.snapshot` directory, the live
-- view of the node shows that seed.
pub content_seed-mix_seed :
    (s : Store) (id off c : ℕ) (bytes : Bytes)
    → StoreOk s
    → id < u64
    → is_snap_dir id ≡ false
    → let x = mix_seed (content_seed (live id) s) off (c ∷ bytes) in
      (set_content_seed (live id) x s).0 ≡ ok
      → content_seed (live id) (set_content_seed (live id) x s).1 ≡ x
content_seed-mix_seed s id off c bytes k hid real =
    let seed = content_seed (live id) s in
    content_seed-set_content_seed s k id (mix_seed seed off (c ∷ bytes)) hid
      (mix_seed_cons-lt seed off c bytes) real (mix_seed-nonzero seed off (c ∷ bytes))
