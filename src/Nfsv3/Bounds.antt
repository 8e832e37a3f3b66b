-- ===== src/Nfsv3/Bounds.antt =====
-- What the NFSv3 front-end takes from a message or from the store fits the type that it has.
use prfs.Prelude.{
  ℕ, ◌+◌, ◌*◌, ◌%◌, ◌<◌, sym, subst, ◌==◌, inl, inr, Bool-cases, Option-cases, Option, none, some,
  arith, ltb, leb, not, zero, suc, ◌/◌, Bool, true, false, ◌||◌, if◌then◌else◌, drop, bit_xor, ◌&&◌,
}
use prfs.Bytes.{Bytes, u32, u64, cmp, is_eq}
use prfs.Bytes.Encoding.{rdbe-lt}
use prfs.Kv.{find}
use prfs.Core.Record.{NodeRec, reg, type_code}
use prfs.Core.Attrs.{attrs, read_node, content_seed}
use prfs.Core.Loads.{load_node-Bounded}
use prfs.Core.Ops.{StoreOk}
use prfs.Core.Tables.{Db, load_node, is_dir}
use prfs.Core.Links.{down_key, snapshot_name}
use prfs.Core.Store.{
  rr, Store, Handle, latest, is_snap_dir, snap_base, snap_dir_of, parse_snap, existed_at, lookup,
  lookup_at, lookup_dir, lookup_snap_dir, node_by_id, to_handle,
}
use prfs.Nfsv3.{
  Reader, rd32, rd64, rest_of, read_u32, read_u64, size, Cred, read_cred, cred_body, skip_opaque,
  padded,
}
use prfs.Nfsv3.Attrs.{mix_seed, mix_loop}
use prfs.Nfsv3.Seeds.{mix_loop-lt}
use Prim.Native.Nat.{digits, differ, bit_xor-bitwise}

rd32-lt : (p : Bytes) → rd32 p < u32
rd32-lt p = omega arith

pub rd64-lt : (p : Bytes) → rd64 p < u64
rd64-lt p = omega (arith, rd32-lt p, rd32-lt (drop 4 p))

pub read_u32-lt : (r : Reader) → (read_u32 r).0 < u32
unfolding read_u32
read_u32-lt r = elim (Bool-cases (ltb (size r) (r.pos + 4))) [
  | inl short ↦ rw (read_u32, short) (omega arith)
  | inr enough ↦ rw (read_u32, enough) (rd32-lt (rest_of r))
]

pub read_u64-lt : (r : Reader) → (read_u64 r).0 < u64
unfolding read_u64
read_u64-lt r = omega (arith, read_u32-lt r, read_u32-lt (read_u32 r).1)

-- Every handle in a result of `nodeById` has the number that is asked for.
abbrev pub Fits : Option Handle → Type 0
Fits none = Unit
Fits (some h) = h.id < u64

pub if-Holds {ℓ κ} :
    {A : Type ℓ} (P : A → Type κ) (b : Bool) {x y : A} → P x → P y → P (if b then x else y)
if-Holds P true p q = p
if-Holds P false p q = q

pub node_by_id-Fits : (id snap : ℕ) (s : Store) → id < u64 → Fits (node_by_id id snap s)
unfolding node_by_id
node_by_id-Fits id snap s h =
    if-Holds Fits (existed_at s.db (if is_snap_dir id then snap_base id else id) (rr s snap)) h tt

abbrev pub ViewFits : Option Handle → Type 0
ViewFits none = Unit
ViewFits (some h) = h.snap < u64

pub node_by_id-ViewFits : (id snap : ℕ) (s : Store) → snap < u64 → ViewFits (node_by_id id snap s)
unfolding node_by_id
node_by_id-ViewFits id snap s h =
    if-Holds ViewFits (existed_at s.db (if is_snap_dir id then snap_base id else id) (rr s snap)) h
      tt

-- The seed of a file is a field of its record, or its number.
pub content_seed-lt :
    (n : Handle) (s : Store) → StoreOk s → n.id < u64 → n.snap < u64 → content_seed n s < u64
unfolding content_seed attrs read_node rr
content_seed-lt n s k h v =
    let g = rr s n.snap in
    let fits : g < u64 =
      if-Holds (λ (x : ℕ). x < u64) (n.snap == latest) (omega (arith, k.cur_open)) v in
    let b =
      load_node-Bounded s.cur n.id g s.db (omega (arith, k.cur_open)) h fits k.db_ok.nodes_ok in
    let r = read_node n.id n.snap s in
    if-Holds (λ (x : ℕ). x < u64) (r.type == type_code reg && not (r.spec == 0))
      (if-Holds (λ (x : NodeRec). x.spec < u64) (is_snap_dir n.id) (omega arith) b.fits.spec_fits) h

to_handle-Fits : (snap : ℕ) (o : Option Bytes) → Fits (to_handle snap o)
to_handle-Fits snap none = tt
to_handle-Fits snap (some child) = rdbe-lt child

lookup_at-Fits :
    (d : Handle) (name : Bytes) (db : Db) (o : Option NodeRec) → Fits (lookup_at d name db o)
unfolding lookup_at snap_dir_of
lookup_at-Fits d name db none = tt
lookup_at-Fits d name db (some dr) =
    if-Holds Fits (is_eq (cmp name snapshot_name) && d.snap == latest && is_dir dr) (omega arith)
      (to_handle-Fits d.snap (find (down_key d.id dr.dn_link_ver name) db.down_links))

lookup_snap_dir-Fits :
    (base : ℕ) (name : Bytes) (s : Store) → base < u64 → Fits (lookup_snap_dir base name s)
unfolding lookup_snap_dir
lookup_snap_dir-Fits base name s h = elim (Option-cases (parse_snap name)) [
  | inl e ↦ rw (lookup_snap_dir, e) tt
  | inr (n, e) ↦
      rw (lookup_snap_dir, e)
        (if-Holds Fits (ltb n 1 || leb s.cur n || not (existed_at s.db base n)) tt h)
]

pub lookup-Fits : (d : Handle) (name : Bytes) (s : Store) → Fits (lookup d name s)
unfolding lookup lookup_dir snap_base
lookup-Fits d name s =
    if-Holds Fits (is_snap_dir d.id) (lookup_snap_dir-Fits (snap_base d.id) name s (omega arith))
      (lookup_at-Fits d name s.db (load_node s.db d.id (rr s d.snap)))

-- Numbers of `k` binary digits
top : ℕ → ℕ
top zero = 1
top (suc k) = 2 * top k

differ-le : (x y : ℕ) → x < 2 → y < 2 → differ x y < 2
differ-le zero y h g = g
differ-le (suc x) zero h g = h
differ-le (suc x) (suc y) h g = differ-le x y (omega arith) (omega arith)

digits-lt : (n k a b : ℕ) → a < top k → b < top k → digits (λ (c : ℕ). c) differ n a b < top k
unfolding top
digits-lt zero k a b h g = g
digits-lt (suc n) k zero b h g = g
digits-lt (suc n) zero (suc a) b h g = absurd (omega (arith, h))
digits-lt (suc n) (suc k) (suc a) b h g = omega (
  arith,
  digits-lt n k (suc a / 2) (b / 2) (omega arith) (omega arith),
  differ-le (suc a % 2) (b % 2) (omega arith) (omega arith),
)

bit_xor-lt : (a b : ℕ) → a < u64 → b < u64 → bit_xor a b < u64
unfolding top
bit_xor-lt a b h g =
    subst (λ (x : ℕ). x < u64) (sym (λ i. bit_xor-bitwise a b i)) (digits-lt a 64 a b h g)

pub mix_seed-lt : (seed off : ℕ) (bytes : Bytes) → seed < u64 → mix_seed seed off bytes < u64
unfolding mix_seed
mix_seed-lt seed off bytes h =
    let m = mix_loop bytes (bit_xor seed ((off + 0x9E3779B97F4A7C15) % u64)) in
    if-Holds (λ (x : ℕ). x < u64) (m == 0) (omega arith)
      (mix_loop-lt bytes _ (bit_xor-lt seed ((off + 0x9E3779B97F4A7C15) % u64) h (omega arith)))

abbrev pub CredFits : Cred → Type 0
CredFits c = (c.uid < u32) × (c.gid < u32)

cred_body-Fits : (flavor end : ℕ) (r : Reader) → CredFits (cred_body flavor end r).0
unfolding cred_body
cred_body-Fits flavor end r =
    let r2 = skip_opaque (read_u32 r).1 in
    if-Holds (λ (x : Cred × Reader). CredFits x.0) (flavor == 1)
      (read_u32-lt r2, read_u32-lt (read_u32 r2).1) (omega arith)

pub read_cred-Fits : (r : Reader) → CredFits (read_cred r).0
unfolding read_cred
read_cred-Fits r =
    let r2 = (read_u32 (read_u32 r).1).1 in
    let end = r2.pos + padded (read_u32 (read_u32 r).1).0 in
    if-Holds (λ (x : Cred × Reader). CredFits x.0) (not r2.ok || ltb (size r2) end) (omega arith)
      (cred_body-Fits (read_u32 r).0 end r2)
