-- ===== src/Core/Isolation.antt =====
-- Snapshot isolation: a view of a sealed snapshot reads the same after any operations.
use prfs.Prelude.{
  ℕ, ◌<◌, ◌≡◌, refl, sym, ap, ◌∙◌, subst, [], ◌++◌, arith, true, false, Option, none, some, ◌%◌,
  map,
}
use prfs.Bytes.{Bytes, u64, be, has_prefix}
use prfs.Bytes.Order.{has_prefix-append}
use prfs.Bytes.Encoding.{be-append}
use prfs.Kv.{Map, find}
use prfs.Kv.Laws.{Sorted}
use prfs.Kv.Prefix.{scan, with_prefix, scan_lem, find-with_prefix}
use prfs.Core.Record.{NodeRec}
use prfs.Core.Tables.{load_node, or_empty, scan_down_links, to_link}
use prfs.Core.Links.{down_key}
use prfs.Core.Store.{
  Store, Handle, latest, snap_bit, rr, is_snap_dir, snap_base, lookup, lookup_at, lookup_dir,
}
use prfs.Core.Attrs.{attrs, read_node}
use prfs.Core.History.{snap_info}
use prfs.Core.Views.{readdir, list_at, parents, parents_at, to_named, parents_loop}
use prfs.Core.Loads.{Bounded, load_node-Bounded}
use prfs.Core.Writes.{DbOk, Frozen}

-- The node `id` viewed at the snapshot `n` reads the same in both stores.
pub record SameView (n id : ℕ) (a b : Store) : Type 0 where
  pub same_attrs : attrs (record { id = id; snap = n }) b ≡ attrs (record { id = id; snap = n }) a
  pub same_lookup :
      (name : Bytes)
      → lookup (record { id = id; snap = n }) name b ≡ lookup (record { id = id; snap = n }) name a
  pub same_readdir :
      readdir (record { id = id; snap = n }) b ≡ readdir (record { id = id; snap = n }) a
  pub same_parents :
      parents (record { id = id; snap = n }) b ≡ parents (record { id = id; snap = n }) a
  pub same_info : snap_info n b ≡ snap_info n a

rr-sealed : (s : Store) (n : ℕ) → n < latest → rr s n ≡ n
unfolding rr
rr-sealed s n h = ground arith

scan-Frozen :
    (p : Bytes) (m k : Map)
    → Sorted m
    → Sorted k
    → with_prefix p k ≡ with_prefix p m
    → scan p k ≡ scan p m
scan-Frozen p m k sm sk e = scan_lem p k sk ∙ e ∙ sym (scan_lem p m sm)

find-Frozen :
    (d v : ℕ) (name : Bytes) (m k : Map)
    → Sorted m
    → Sorted k
    → with_prefix (be d ++ be v) k ≡ with_prefix (be d ++ be v) m
    → find (down_key d v name) k ≡ find (down_key d v name) m
find-Frozen d v name m k sm sk e =
    let p =
      subst (λ x. has_prefix (be d ++ be v) x ≡ true) (be-append d v name)
        (has_prefix-append (be d ++ be v) name) in
    sym (find-with_prefix (be d ++ be v) _ k sk p)
    ∙ ap (find (down_key d v name)) e
    ∙ find-with_prefix (be d ++ be v) _ m sm p

-- Two stores that agree on what lies before the first one's snapshot.
module _ (a b : Store) (n id : ℕ) (before : n < a.cur) (open' : n < latest) (hc : a.cur < u64)
    (hid : id < u64) (real : is_snap_dir id ≡ false) (good : DbOk a.cur a.db)
    (down : Sorted b.db.down_links) (up : Sorted b.db.up_links)
    (frozen : Frozen a.cur a.db b.db) where
  abbrev h : Handle
  h = record { id = id; snap = n }

  load_same : (i : ℕ) → i < u64 → load_node b.db i (rr b n) ≡ load_node a.db i (rr a n)
  load_same i hi = rw (rr-sealed a n open', rr-sealed b n open') (frozen.loads i n hi before)

  bounded : Bounded n (or_empty (load_node a.db id (rr a n)))
  bounded =
      rw (rr-sealed a n open')
        (load_node-Bounded a.cur id n a.db hc hid (omega arith) good.nodes_ok)

  lookup_at-Frozen :
      (name : Bytes) (o : Option NodeRec)
      → Bounded n (or_empty o)
      → lookup_at h name b.db o ≡ lookup_at h name a.db o
  unfolding lookup_at
  lookup_at-Frozen name none w = refl
  lookup_at-Frozen name (some r) w = rw (
      find-Frozen id r.dn_link_ver name a.db.down_links b.db.down_links good.down_sorted down
        (frozen.downs id r.dn_link_ver hid (omega (arith, w.dn))))

  list_at-Frozen :
      (o : Option NodeRec) → Bounded n (or_empty o) → list_at h b.db o ≡ list_at h a.db o
  unfolding list_at scan_down_links
  list_at-Frozen none w = refl
  list_at-Frozen (some r) w =
      ap (λ m. map (to_named n) (map to_link m))
        (scan-Frozen (be id ++ be r.dn_link_ver) a.db.down_links b.db.down_links good.down_sorted
          down (frozen.downs id r.dn_link_ver hid (omega (arith, w.dn))))

  parents_at-Frozen :
      (o : Option NodeRec) → Bounded n (or_empty o) → parents_at h b.db o ≡ parents_at h a.db o
  unfolding parents_at
  parents_at-Frozen none w = refl
  parents_at-Frozen (some r) w = ap (parents_loop n []) (
      scan-Frozen (be id ++ be r.up_link_ver) a.db.up_links b.db.up_links good.up_sorted up
        (frozen.ups id r.up_link_ver hid (omega (arith, w.up))))

  view_attrs : attrs h b ≡ attrs h a
  unfolding attrs read_node snap_base
  view_attrs = rw (load_same id hid, load_same (id % snap_bit) (omega arith))

  view_lookup : (name : Bytes) → lookup h name b ≡ lookup h name a
  unfolding lookup lookup_dir
  view_lookup name =
      rw (real, load_same id hid) (lookup_at-Frozen name (load_node a.db id (rr a n)) bounded)

  view_readdir : readdir h b ≡ readdir h a
  unfolding readdir
  view_readdir = rw (real, load_same id hid) (list_at-Frozen (load_node a.db id (rr a n)) bounded)

  view_parents : parents h b ≡ parents h a
  unfolding parents
  view_parents = rw (load_same id hid) (parents_at-Frozen (load_node a.db id (rr a n)) bounded)

  view_info : snap_info n b ≡ snap_info n a
  unfolding snap_info
  view_info = rw (frozen.labels n before, snap_info)

  pub Frozen-SameView : SameView n id a b
  Frozen-SameView = record {
    same_attrs = view_attrs;
    same_lookup = view_lookup;
    same_readdir = view_readdir;
    same_parents = view_parents;
    same_info = view_info;
  }
