-- ===== src/Core/Loads.antt =====
-- `loadNode` against `storeNode`: a write is read back at its snapshot and later, and seen nowhere
-- else.
use prfs.Prelude.{
  Bool-cases, ℕ, ◌<◌, ◌≤◌, ◌≡◌, refl, sym, ap, ◌∙◌, subst, [], ◌∷◌, ◌++◌, arith, true, Option, none,
  some, All, ◌⊎◌, inl, inr, ◌≢◌,
}
use prfs.Bytes.{u64, be, cmp, is_eq}
use prfs.Kv.{Map, Entry, put, seek}
use prfs.Kv.Laws.{Sorted, put-Sorted, All-put}
use prfs.Kv.Scan.{floor, floor-put}
use prfs.Kv.Seek.{AtHead, settle-floor}
use prfs.Core.Record.{NodeRec, empty_rec, serialize, Fits, deserialize-Fits, deserialize-serialize}
use prfs.Core.Tables.{Db, load_node, version_at, is_node_key, is_version_of, store_node, or_empty}
use prfs.Core.Versions.{
  IsVersion, OnSome, OnSome-floor, All-seek_from, floor-NotAbove, is_version_of_lem,
  is_node_key-cmp, moved_other, moved_self,
}

-- The node table of a store at the snapshot `cur`.
pub record NodesOk (cur : ℕ) (m : Map) : Type 0 where
  pub sorted : Sorted m
  pub versions : All (IsVersion cur) m

module _ (cur id rg : ℕ) (hcur : cur < u64) (hid : id < u64) (hrg : rg < u64) where
  key_test :
      (e : Entry) → IsVersion cur e → is_node_key id rg e.0 ≡ is_eq (cmp e.0 (be id ++ be rg))
  key_test e v =
      subst (λ k. is_node_key id rg k ≡ is_eq (cmp k (be id ++ be rg))) (sym v.key_eq)
        (is_node_key-cmp v.id v.snap v.id_fits (omega (arith, v.snap_le)) id rg hid hrg)

  AtHead-versions :
      (h : Map) → All (IsVersion cur) h → AtHead (is_node_key id rg) (be id ++ be rg) h
  AtHead-versions [] a = tt
  AtHead-versions (e ∷ h) a = key_test e a.0

  -- In a well-formed node table, `loadNode` of an id and a snapshot of 64 bits reads the last
  -- version in key order that is not above them, if that is a version of the node, and nothing
  -- otherwise.
  pub load_node-floor :
      (db : Db)
      → NodesOk cur db.nodes
      → load_node db id rg ≡ version_at id rg (floor (be id ++ be rg) db.nodes)
  unfolding load_node seek
  load_node-floor db ok = ap (version_at id rg) (
      settle-floor (is_node_key id rg) (be id ++ be rg) db.nodes ok.sorted (
        AtHead-versions _ (All-seek_from (IsVersion cur) (be id ++ be rg) [] db.nodes ok.versions)))

pub IsVersion-new :
    (cur id : ℕ) (r : NodeRec)
    → id < u64
    → Fits r
    → r.dn_link_ver ≤ cur
    → r.up_link_ver ≤ cur
    → IsVersion cur (be id ++ be cur, serialize r)
IsVersion-new cur id r hid fits dn up = record {
  id = id;
  snap = cur;
  key_eq = refl;
  id_fits = hid;
  snap_le = omega arith;
  dn_le = rw (deserialize-serialize r fits) dn;
  up_le = rw (deserialize-serialize r fits) up;
}

pub store_node-NodesOk :
    (cur id : ℕ) (r : NodeRec) (db : Db)
    → id < u64
    → Fits r
    → r.dn_link_ver ≤ cur
    → r.up_link_ver ≤ cur
    → NodesOk cur db.nodes
    → NodesOk cur (store_node id cur r db).nodes
unfolding store_node
store_node-NodesOk cur id r db hid fits dn up ok = record {
  sorted = put-Sorted (be id ++ be cur) (serialize r) db.nodes ok.sorted;
  versions =
      All-put (IsVersion cur) (be id ++ be cur) (serialize r) db.nodes
        (IsVersion-new cur id r hid fits dn up) ok.versions;
}

module _ (cur i : ℕ) (r : NodeRec) (db : Db) (hcur : cur < u64) (hi : i < u64) (fits : Fits r)
    (dn : r.dn_link_ver ≤ cur) (up : r.up_link_ver ≤ cur) (ok : NodesOk cur db.nodes) where
  floor-store_node :
      (id rg : ℕ)
      → id < u64
      → rg < u64
      → load_node (store_node i cur r db) id rg
        ≡ version_at id rg (floor (be id ++ be rg) (put (be i ++ be cur) (serialize r) db.nodes))
  unfolding store_node
  floor-store_node id rg hid hrg =
      load_node-floor cur id rg hcur hid hrg (store_node i cur r db)
        (store_node-NodesOk cur i r db hi fits dn up ok)

  -- In a well-formed node table and with ids, snapshots and the record in range, a write changes
  -- nothing that `loadNode` reads of the other nodes, nor of the node at a snapshot older than
  -- the write.
  pub load_node-store_node_other :
      (id rg : ℕ)
      → id < u64
      → rg < u64
      → (i ≢ id) ⊎ (rg < cur)
      → load_node (store_node i cur r db) id rg ≡ load_node db id rg
  load_node-store_node_other id rg hid hrg other =
      floor-store_node id rg hid hrg
      ∙ ap (version_at id rg)
          (floor-put (be id ++ be rg) (be i ++ be cur) (serialize r) db.nodes ok.sorted)
      ∙ moved_other id rg cur i cur (serialize r) hid hrg hcur hi (omega arith)
          (floor (be id ++ be rg) db.nodes)
          (OnSome-floor (IsVersion cur) (be id ++ be rg) db.nodes ok.versions) other
      ∙ sym (load_node-floor cur id rg hcur hid hrg db ok)

  -- In a well-formed node table, whose versions are not newer than the write, and with ids,
  -- snapshots and the record in range, the record is read back whole at the snapshot of the write
  -- and at every later one.
  pub load_node-store_node_self :
      (rg : ℕ) → rg < u64 → cur ≤ rg → load_node (store_node i cur r db) i rg ≡ some r
  load_node-store_node_self rg hrg later =
      floor-store_node i rg hi hrg
      ∙ ap (version_at i rg)
          (floor-put (be i ++ be rg) (be i ++ be cur) (serialize r) db.nodes ok.sorted)
      ∙ moved_self i rg cur (serialize r) hi hrg later (floor (be i ++ be rg) db.nodes)
          (OnSome-floor (IsVersion cur) (be i ++ be rg) db.nodes ok.versions)
          (floor-NotAbove (be i ++ be rg) db.nodes)
      ∙ ap some (deserialize-serialize r fits)

-- A record at the snapshot `rg`: in range, with link sets no newer than `rg`.
pub record Bounded (rg : ℕ) (r : NodeRec) : Type 0 where
  pub fits : Fits r
  pub dn : r.dn_link_ver ≤ rg
  pub up : r.up_link_ver ≤ rg

empty-Bounded : (rg : ℕ) → Bounded rg empty_rec
empty-Bounded rg = record { fits = omega arith; dn = omega arith; up = omega arith }

version_le :
    (id rg cur : ℕ) (e : Entry)
    → cur < u64
    → (a : IsVersion cur e) → is_version_of id rg e.0 ≡ true
    → a.snap ≤ rg
version_le id rg cur e hc a seen =
    let test =
      sym (is_version_of_lem a.id a.snap a.id_fits (omega (arith, a.snap_le)) id rg)
      ∙ ap (is_version_of id rg) (sym a.key_eq)
      ∙ seen in
    ground (arith, test)

version_at-Bounded :
    (cur id rg : ℕ) (o : Option Entry)
    → cur < u64
    → OnSome (IsVersion cur) o
    → Bounded rg (or_empty (version_at id rg o))
unfolding version_at
version_at-Bounded cur id rg none hc a = empty-Bounded rg
version_at-Bounded cur id rg (some e) hc a = elim (Bool-cases (is_version_of id rg e.0)) [
  | inl seen ↦
      let le = version_le id rg cur e hc a seen in
      rw seen (record {
        fits = deserialize-Fits e.1;
        dn = omega (arith, a.dn_le);
        up = omega (arith, a.up_le);
      })
  | inr hidden ↦ rw hidden (empty-Bounded rg)
]

pub load_node-Bounded :
    (cur id rg : ℕ) (db : Db)
    → cur < u64
    → id < u64
    → rg < u64
    → NodesOk cur db.nodes
    → Bounded rg (or_empty (load_node db id rg))
load_node-Bounded cur id rg db hc hid hrg ok = rw (load_node-floor cur id rg hc hid hrg db ok) (
    version_at-Bounded cur id rg _ hc
      (OnSome-floor (IsVersion cur) (be id ++ be rg) db.nodes ok.versions))
