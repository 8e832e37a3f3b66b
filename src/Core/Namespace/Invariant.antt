-- ===== src/Core/Namespace/Invariant.antt =====
-- Every call keeps the links placed.
use prfs.Prelude.{
  ℕ, suc, ◌+◌, ◌%◌, ◌<◌, ◌≤◌, ◌≡◌, refl, sym, ap, ◌∙◌, subst, Bool, Bool-cases, inl, inr, Option,
  none, some, Option-cases, arith,
}
use prfs.Bytes.{Bytes, u64}
use prfs.Core.Record.{NodeRec}
use prfs.Core.Tables.{load_node, store_node, put_meta}
use prfs.Core.Store.{Store, Handle, latest}
use prfs.Core.Attrs.{
  mutate_node, set_guarded, set_mode, set_uid, set_gid, set_size, set_atime, set_mtime, set_ctime,
  set_atime_nsec, set_mtime_nsec,
}
use prfs.Core.History.{snapshot}
use prfs.Core.Loads.{Bounded, load_node-Bounded}
use prfs.Core.Latest.{load_node_later}
use prfs.Core.Ops.{
  Attr, set_attr, width, StoreOk, mode, uid, gid, size, atime, mtime, ctime, atime_nsec, mtime_nsec,
}
use prfs.Core.Invariant.{fits, loaded_Bounded}
use prfs.Core.Namespace.Live.{IsPlaced, link_ver, reached, versions_of}
use prfs.Core.Namespace.Changes.{IsHidden, store_node-IsHidden, up_links-IsHidden}

-- The state in which the live map is what the operations make of it.
pub record NamesOk (s : Store) : Type 0 where
  pub started : 1 ≤ s.cur
  pub placed : IsPlaced s.cur s.db

-- A call that no name shows.
abbrev pub Unseen : Store → Store → Type 0
Unseen s t = (t.cur ≡ s.cur) × IsHidden s.cur s.db t.db

Unseen-same : (s : Store) → Unseen s s
Unseen-same s = (refl, up_links-IsHidden s.cur s.db s.db refl refl)

module _ (s : Store) (id : ℕ) (fn : NodeRec → NodeRec) (ok' : StoreOk s) (hid : id < u64)
    (keeps : (r : NodeRec)
      → Bounded s.cur r
      → Bounded s.cur (fn r) × ((fn r).dn_link_ver ≡ r.dn_link_ver)) where
  stored :
      (r : NodeRec)
      → load_node s.db id s.cur ≡ some r
      → Unseen s (record s { db = store_node id s.cur (fn r) s.db })
  stored r e =
      let k = keeps r (loaded_Bounded s id r ok' hid e) in
      (
        refl,
        store_node-IsHidden s.cur id (fn r) s.db (fits s ok') hid k.0 ok'.db_ok
            (k.1 ∙ ap link_ver (sym e)),
      )

  pub mutate_node-Unseen : Unseen s (mutate_node id fn s)
  unfolding mutate_node
  mutate_node-Unseen = elim (Option-cases (load_node s.db id s.cur)) [
    | inl e ↦ rw (e, mutate_node) (Unseen-same s)
    | inr (r, e) ↦ rw (e, mutate_node) (stored r e)
  ]

  pub set_guarded-Unseen : (wanted : NodeRec → Bool) → Unseen s (set_guarded id wanted fn s).1
  unfolding set_guarded
  set_guarded-Unseen wanted = elim (Option-cases (load_node s.db id s.cur)) [
    | inl e ↦ rw (e, set_guarded) (Unseen-same s)
    | inr (r, e) ↦ elim (Bool-cases (wanted r)) [
      | inl fine ↦ rw (e, set_guarded, fine) (stored r e)
      | inr refused ↦ rw (e, set_guarded, refused) (Unseen-same s)
    ]
  ]

pub set_attr-Unseen :
    (a : Attr) (h : Handle) (x : ℕ) (s : Store)
    → StoreOk s
    → h.id < u64
    → x < width a
    → Unseen s (set_attr a h x s)
unfolding set_mode set_uid set_gid set_size set_atime set_mtime set_ctime set_atime_nsec
    set_mtime_nsec
set_attr-Unseen mode h x s k hid hx = mutate_node-Unseen s h.id _ k hid (λ r b. (omega arith, refl))
set_attr-Unseen uid h x s k hid hx = mutate_node-Unseen s h.id _ k hid (λ r b. (omega arith, refl))
set_attr-Unseen gid h x s k hid hx = mutate_node-Unseen s h.id _ k hid (λ r b. (omega arith, refl))
set_attr-Unseen size h x s k hid hx = mutate_node-Unseen s h.id _ k hid (λ r b. (omega arith, refl))
set_attr-Unseen atime h x s k hid hx =
    mutate_node-Unseen s h.id _ k hid (λ r b. (omega arith, refl))
set_attr-Unseen mtime h x s k hid hx =
    mutate_node-Unseen s h.id _ k hid (λ r b. (omega arith, refl))
set_attr-Unseen ctime h x s k hid hx =
    mutate_node-Unseen s h.id _ k hid (λ r b. (omega arith, refl))
set_attr-Unseen atime_nsec h x s k hid hx =
    mutate_node-Unseen s h.id _ k hid (λ r b. (omega arith, refl))
set_attr-Unseen mtime_nsec h x s k hid hx =
    mutate_node-Unseen s h.id _ k hid (λ r b. (omega arith, refl))

pub Unseen-NamesOk : (s t : Store) → Unseen s t → NamesOk s → NamesOk t
Unseen-NamesOk s t u n = record {
  started = rw u.0 n.started;
  placed = subst (λ c. IsPlaced c t.db) (sym u.0) (u.1.placed n.placed);
}

-- The versions that a new record reaches are all that there are so far.
pub reached_most : (s : Store) (d : ℕ) → StoreOk s → d < u64 → reached s.cur s.db d ≤ suc s.cur
reached_most s d k hd =
    let b = load_node-Bounded s.cur d s.cur s.db (fits s k) hd (fits s k) k.db_ok.nodes_ok in
    most (load_node s.db d s.cur) b.dn
  where
    most : (o : Option NodeRec) → link_ver o ≤ s.cur → versions_of o ≤ suc s.cur
    most none h = omega arith
    most (some r) h = omega arith

pub snapshot-NamesOk :
    (label : Bytes) (s : Store)
    → StoreOk s
    → s.cur + 1 < latest
    → NamesOk s
    → NamesOk (snapshot label s).1
unfolding snapshot put_meta load_node
snapshot-NamesOk label s k room n =
    let next : (s.cur + 1) % u64 ≡ s.cur + 1 = omega arith in
    record {
      started = omega arith;
      placed = record {
        none_newer = λ d v name hd hv h. n.placed.none_newer d v name hd hv (
            subst (λ o. versions_of o ≤ v)
              (load_node_later d s.cur ((s.cur + 1) % u64) hd (omega arith) (omega arith) s.db
                k.db_ok.nodes_ok)
              h);
      };
    }
