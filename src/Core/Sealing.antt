-- ===== src/Core/Sealing.antt =====
-- What `snapshot` seals: the live view at the time of the call, readable ever after.
use prfs.Prelude.{
  ℕ, ◌+◌, ◌<◌, ◌≡◌, refl, true, ◌==◌, sym, ap, ◌∙◌, List, [], ◌∷◌, ◌++◌, arith, false, Option, none,
  some, length, ◌%◌, All, map, leb, if◌then◌else◌,
}
use prfs.Bytes.{Bytes, u64, be}
use prfs.Bytes.Encoding.{rdbe-be, drop-be}
use prfs.Bytes.Order.{cmp_refl}
use prfs.Kv.{find}
use prfs.Kv.Laws.{find-put, elim_eq}
use prfs.Core.Record.{NodeRec}
use prfs.Core.Tables.{Db, empty_db, load_node, put_meta, Link, scan_down_links, get_meta}
use prfs.Core.Store.{open_store, Store, Handle, latest, rr, snap_bit, snap_base, is_snap_dir}
use prfs.Core.Attrs.{attrs, read_node}
use prfs.Core.Views.{readdir, list_at, Named, to_named}
use prfs.Core.History.{snapshot, snap_info}
use prfs.Core.Isolation.{SameView}
use prfs.Core.Ops.{Op, snapshots, run, InRange, StoreOk}
use prfs.Core.Sealed.{run-StoreOk, run-SameView, open_store-StoreOk, apply-StoreOk}

-- A store made over an empty engine is well-formed after any sequence of calls with arguments in
-- range that is too short to bring the snapshot counter to the number of the live view.
pub reached-StoreOk :
    (ops : List Op)
    → All InRange ops
    → 1 + length ops < latest
    → StoreOk (run ops (open_store empty_db))
unfolding open_store get_meta find
reached-StoreOk ops h room =
    run-StoreOk ops (open_store empty_db) open_store-StoreOk h (omega arith)

-- A listing without the snapshot of its handles.
abbrev pub to_entry : Named → Link
to_entry (name, h) = (name, h.id)

entry-named : (snap : ℕ) (ls : List Link) → map to_entry (map (to_named snap) ls) ≡ ls
entry-named snap [] = refl
entry-named snap (l ∷ ls) = ap (λ ms. l ∷ ms) (entry-named snap ls)

list_at-entries :
    (id n m : ℕ) (db : Db) (o : Option NodeRec)
    → map to_entry (list_at (record { id = id; snap = n }) db o)
      ≡ map to_entry (list_at (record { id = id; snap = m }) db o)
unfolding list_at
list_at-entries id n m db none = refl
list_at-entries id n m db (some r) =
    entry-named n (scan_down_links db id r.dn_link_ver)
    ∙ sym (entry-named m (scan_down_links db id r.dn_link_ver))

found-snapshot :
    (label : Bytes) (s : Store)
    → find (be s.cur) (snapshot label s).1.db.snaps ≡ some (be s.clock ++ label)
unfolding snapshot put_meta
found-snapshot label s =
    find-put (be s.cur) (be s.cur) (be s.clock ++ label) s.db.snaps
    ∙ ap (λ o. elim_eq o (some (be s.clock ++ label)) (find (be s.cur) s.db.snaps))
        (cmp_refl (be s.cur))

long_enough : (x : ℕ) (label : Bytes) → leb 8 (length (be x ++ label)) ≡ true
unfolding be
long_enough x label = ground arith

snap_info-snapshot :
    (label : Bytes) (s : Store)
    → s.clock < u64
    → snap_info s.cur (snapshot label s).1 ≡ record { id = s.cur; ctime = s.clock; label = label }
unfolding snap_info
snap_info-snapshot label s fits = rw (
  found-snapshot label s,
  snap_info,
  long_enough s.clock label,
  rdbe-be s.clock label fits,
  drop-be s.clock label,
)

module _ (ops : List Op) (label : Bytes) (s : Store) (id : ℕ) (ok : StoreOk s)
    (ranges : All InRange ops) (room : s.cur + 1 + length ops < latest) (fits : id < u64)
    (real : is_snap_dir id ≡ false) where
  abbrev sealed : Store
  sealed = (snapshot label s).1

  abbrev later : Store
  later = run ops sealed

  sealed_cur : sealed.cur ≡ s.cur + 1
  unfolding snapshot
  sealed_cur = omega arith

  kept : SameView s.cur id sealed later
  kept =
      run-SameView ops sealed s.cur id (apply-StoreOk (snapshots label) s ok tt (omega arith))
        ranges (omega (arith, sealed_cur)) (omega (arith, sealed_cur)) fits real

  sealed_load : (i : ℕ) → load_node sealed.db i (rr sealed s.cur) ≡ load_node s.db i (rr s latest)
  unfolding snapshot put_meta load_node rr
  sealed_load i =
      let same : (if s.cur == latest then (s.cur + 1) % u64 else s.cur) ≡ s.cur =
        ground (arith, ok.cur_open) in
      rw same refl

  sealed-attrs :
      attrs (record { id = id; snap = s.cur }) sealed ≡ attrs (record { id = id; snap = latest }) s
  unfolding attrs read_node snap_base
  sealed-attrs = rw (sealed_load id, sealed_load (id % snap_bit))

  sealed_list : (h : Handle) (o : Option NodeRec) → list_at h sealed.db o ≡ list_at h s.db o
  unfolding list_at scan_down_links snapshot put_meta
  sealed_list h none = refl
  sealed_list h (some r) = refl

  sealed-readdir :
      map to_entry (readdir (record { id = id; snap = s.cur }) sealed)
      ≡ map to_entry (readdir (record { id = id; snap = latest }) s)
  unfolding readdir
  sealed-readdir =
      rw (real, sealed_load id, sealed_list (record { id = id; snap = s.cur }))
        (list_at-entries id s.cur latest s.db (load_node s.db id (rr s latest)))

  -- In a well-formed store, the snapshot that `snapshot` seals shows, after any further calls
  -- with arguments in range that leave the counter below the number of the live view, the
  -- attributes and the listing of a node that the live view showed at the time of the call, for a
  -- node with an id of 64 bits that is not a `.snapshot` directory; and its record holds the
  -- clock and the label of the call.
  pub snapshot_lem :
      (attrs (record { id = id; snap = (snapshot label s).0 }) later
        ≡ attrs (record { id = id; snap = latest }) s)
      × (map to_entry (readdir (record { id = id; snap = (snapshot label s).0 }) later)
          ≡ map to_entry (readdir (record { id = id; snap = latest }) s))
      × (snap_info (snapshot label s).0 later
          ≡ record { id = s.cur; ctime = s.clock; label = label })
  unfolding snapshot
  snapshot_lem = (
    kept.same_attrs ∙ sealed-attrs,
    ap (map to_entry) kept.same_readdir ∙ sealed-readdir,
    kept.same_info ∙ snap_info-snapshot label s ok.clock_fits,
  )
