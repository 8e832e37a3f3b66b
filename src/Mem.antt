-- ===== src/Mem.antt =====
-- The reference store, src/reference/memstore.cpp: its state and private helpers.
pub mod Ops
pub mod Attrs
pub mod Views
pub mod History
pub mod Runs
pub mod Intervals
pub mod Listings
pub mod Kept
pub mod Invariant
pub mod Steps
pub mod Isolation
pub mod Lookups
pub mod Reaching
pub mod Refinement
use prfs.Prelude.{
  ℕ, zero, suc, ◌+◌, ◌-◌, ◌*◌, ◌/◌, ◌%◌, List, [], ◌∷◌, ◌++◌, ◌==◌, ltb, leb, Bool, true, false,
  ◌&&◌, ◌||◌, not, Option, none, some, if◌then◌else◌, compare, Ordering, ◌≡◌, arith, length, Order,
  same, find_in, change_in, or_default, nat_order,
}
use prfs.Bytes.{Bytes, u32, u64, cmp}
use prfs.Bytes.Order.{cmp_refl, eq_of_cmp, cmp_flip, cmp_flip_gt, cmp_trans}
use prfs.Core.Record.{FileType, reg, dir, lnk, type_code, default_mode}
use prfs.Core.Tables.{put_id}
use prfs.Core.History.{SnapInfo}
use prfs.Core.Store.{Handle, latest, is_snap_dir, snap_base}

pub record Attr : Type 0 where
  pub type : FileType
  pub mode : ℕ
  pub uid : ℕ
  pub gid : ℕ
  pub nlink : ℕ
  pub atime_ns : ℕ
  pub mtime_ns : ℕ
  pub size : ℕ
  pub atime : ℕ
  pub mtime : ℕ
  pub ctime : ℕ
  pub spec : ℕ

-- `Attr{}`
abbrev pub empty_attr : Attr
empty_attr = record {
  type = reg;
  mode = 0;
  uid = 0;
  gid = 0;
  nlink = 0;
  atime_ns = 0;
  mtime_ns = 0;
  size = 0;
  atime = 0;
  mtime = 0;
  ctime = 0;
  spec = 0;
}

pub record NodeVer : Type 0 where
  pub snap : ℕ
  pub a : Attr
  pub blob : Bytes

pub record LinkIv : Type 0 where
  pub born : ℕ
  pub dead : ℕ
  pub child : ℕ

-- The key of `m_links`, in the order of `std::pair`.
abbrev pub LinkKey : Type 0
LinkKey = ℕ × Bytes

abbrev pub link_order : LinkKey → LinkKey → Ordering
link_order a b = elim (compare a.0 b.0) [
  | Ordering.lt ↦ Ordering.lt
  | Ordering.eq ↦ cmp a.1 b.1
  | Ordering.gt ↦ Ordering.gt
]

pub link_order_refl : (a : LinkKey) → link_order a a ≡ Ordering.eq
link_order_refl (a, b) = ground (arith, cmp_refl b)

pub eq_of_link_order : (a b : LinkKey) → link_order a b ≡ Ordering.eq → a ≡ b
eq_of_link_order (a, b) (c, d) h = ground (arith, eq_of_cmp b d)

pub link_order_flip : (a b : LinkKey) → link_order a b ≡ Ordering.lt → link_order b a ≡ Ordering.gt
link_order_flip (a, b) (c, d) h = ground (arith, cmp_flip b d)

pub link_order_flip_gt :
    (a b : LinkKey) → link_order a b ≡ Ordering.gt → link_order b a ≡ Ordering.lt
link_order_flip_gt (a, b) (c, d) h = ground (arith, cmp_flip_gt b d)

pub link_order_trans :
    (a b c : LinkKey)
    → link_order a b ≡ Ordering.lt
    → link_order b c ≡ Ordering.lt
    → link_order a c ≡ Ordering.lt
link_order_trans (a, x) (b, y) (c, z) h k = ground (arith, cmp_trans x y z)

instance abbrev pub link_key_order : Order LinkKey
link_key_order = record {
  order = link_order;
  order_refl = link_order_refl;
  eq_of_order = eq_of_link_order;
  order_flip = link_order_flip;
  order_flip_gt = link_order_flip_gt;
  order_trans = link_order_trans;
}

pub record MemStore : Type 0 where
  pub nodes : List (ℕ × List NodeVer)
  pub links : List (LinkKey × List LinkIv)
  pub names : List (ℕ × List Bytes)
  pub changes : List (ℕ × List ℕ)
  pub snaps : List (ℕ × SnapInfo)
  pub content_config : Bytes
  pub next : ℕ
  pub cur : ℕ
  pub root : ℕ
  pub clock : ℕ

unfoldable pub resolve : MemStore → ℕ → ℕ
resolve s g = if g == latest then s.cur else g

-- `if (v.snap <= rg) best = &v; else break;`
unfoldable pub best_loop : ℕ → Option NodeVer → List NodeVer → Option NodeVer
best_loop rg best [] = best
best_loop rg best (v ∷ vs) =
    let rest = best_loop rg (some v) vs in if leb v.snap rg then rest else best

unfoldable pub eff_r : MemStore → ℕ → ℕ → Option NodeVer
unfolding best_loop
eff_r s id rg = best_loop rg none (or_default [] (find_in id s.nodes))

unfoldable pub eff : MemStore → ℕ → ℕ → Option NodeVer
unfolding eff_r resolve
eff s id g = eff_r s id (resolve s g)

abbrev pub attr_of : Option NodeVer → Attr
attr_of none = empty_attr
attr_of (some v) = v.a

-- `effAttr` calls itself on the base of a `.snapshot` directory, which is none itself.
unfoldable pub eff_attr : MemStore → ℕ → ℕ → Attr
unfolding eff
eff_attr s id g =
    let base = attr_of (eff s (snap_base id) g) in
    if is_snap_dir id
    then record empty_attr {
      type = dir;
      mode = 0o555;
      nlink = 1;
      atime = base.atime;
      mtime = base.mtime;
      ctime = base.ctime;
    }
    else attr_of (eff s id g)

-- `liveVer(id)` changed by `f`: the last version, if it is of the current snapshot, or else a copy
-- of it that is added.
unfoldable pub live_vers : ℕ → (NodeVer → NodeVer) → List NodeVer → List NodeVer
live_vers cur f [] = f (record { snap = cur; a = empty_attr; blob = [] }) ∷ []
live_vers cur f (v ∷ []) = if v.snap == cur then f v ∷ [] else v ∷ f (record v { snap = cur }) ∷ []
live_vers cur f (v ∷ w ∷ vs) = v ∷ live_vers cur f (w ∷ vs)

unfoldable pub live_ver : ℕ → (NodeVer → NodeVer) → MemStore → MemStore
unfolding live_vers
live_ver id f s = record s { nodes = change_in id [] (live_vers s.cur f) s.nodes }

unfoldable pub touch : ℕ → MemStore → MemStore
touch id s = record s { changes = change_in s.cur [] (put_id id) s.changes }

unfoldable pub is_live_at : LinkIv → ℕ → Bool
is_live_at iv rg = leb iv.born rg && (iv.dead == 0 || ltb rg iv.dead)

unfoldable pub live_at_r : List LinkIv → ℕ → Option ℕ
unfolding is_live_at
live_at_r [] rg = none
live_at_r (iv ∷ ivs) rg =
    let rest = live_at_r ivs rg in if is_live_at iv rg then some iv.child else rest

unfoldable pub link_live_at : MemStore → LinkKey → ℕ → Option ℕ
unfolding live_at_r resolve
link_live_at s key g = live_at_r (or_default [] (find_in key s.links)) (resolve s g)

-- `std::set<std::string>::insert`
unfoldable pub put_name : Bytes → List Bytes → List Bytes
put_name n [] = n ∷ []
put_name n (x ∷ xs) = elim (cmp x n) [
  | Ordering.lt ↦ x ∷ put_name n xs
  | Ordering.eq ↦ x ∷ xs
  | Ordering.gt ↦ n ∷ x ∷ xs
]

abbrev pub names_of : MemStore → ℕ → List Bytes
names_of s d = or_default [] (find_in d s.names)
