-- ===== src/Core/Sealed.antt =====
-- Sealed snapshots, over any sequence of calls.
use prfs.Prelude.{
  some, ◌++◌, ℕ, ◌+◌, ◌<◌, ◌≤◌, ◌≡◌, refl, ap, ◌∙◌, List, [], ◌∷◌, arith, false, inl, inr, length,
  ◌%◌, All,
}
use prfs.Bytes.{Bytes, u64, be, cmp}
use prfs.Bytes.Encoding.{be-injective}
use prfs.Bytes.Order.{Ordering-cases, eq_of_cmp}
use prfs.Kv.Laws.{find-put, elim_eq}
use prfs.Kv.{Map, Entry, find}
use prfs.Core.Tables.{store_node, empty_db, get_meta, load_node, put_meta}
use prfs.Core.Record.{NodeRec, empty_rec}
use prfs.Core.Store.{open_store, Store, latest, is_snap_dir}
use prfs.Core.History.{snapshot}
use prfs.Core.Loads.{store_node-NodesOk}
use prfs.Core.Versions.{IsVersion}
use prfs.Core.Writes.{Frozen, Writes-Frozen}
use prfs.Core.Isolation.{SameView, Frozen-SameView}
use prfs.Core.Ops.{Op, snapshots, apply, InRange, StoreOk, run}
use prfs.Core.Invariant.{Made-StoreOk, apply-Made, is_snapshot, fits}

IsVersion-mono : (c d : ℕ) (e : Entry) → c ≤ d → IsVersion c e → IsVersion d e
IsVersion-mono c d e h v = record {
  id = v.id;
  snap = v.snap;
  key_eq = v.key_eq;
  id_fits = v.id_fits;
  snap_le = omega (arith, v.snap_le);
  dn_le = v.dn_le;
  up_le = v.up_le;
}

All-IsVersion-mono : (c d : ℕ) (m : Map) → c ≤ d → All (IsVersion c) m → All (IsVersion d) m
All-IsVersion-mono c d [] h a = tt
All-IsVersion-mono c d (e ∷ m) h a = (IsVersion-mono c d e h a.0, All-IsVersion-mono c d m h a.1)

-- `snapshot` seals the current snapshot: it moves the counter and labels what it sealed.
snapshot-StoreOk :
    (label : Bytes) (s : Store) → StoreOk s → s.cur + 1 < latest → StoreOk (snapshot label s).1
unfolding snapshot put_meta
snapshot-StoreOk label s k room =
    let next : (s.cur + 1) % u64 ≡ s.cur + 1 = omega arith in
    record {
      db_ok = record {
        nodes_ok = record {
          sorted = k.db_ok.nodes_ok.sorted;
          versions = All-IsVersion-mono s.cur _ s.db.nodes (omega arith) k.db_ok.nodes_ok.versions;
        };
        down_sorted = k.db_ok.down_sorted;
        up_sorted = k.db_ok.up_sorted;
      };
      cur_open = omega arith;
      next_fits = k.next_fits;
      clock_fits = k.clock_fits;
    }

-- The operations before the sealing that `op` may be.
apply_cases :
    (P : Store → Type 0) (op : Op) (s : Store)
    → ((label : Bytes) → P (snapshot label s).1)
    → (is_snapshot op ≡ false → P (apply op s))
    → P (apply op s)
unfolding is_snapshot
apply_cases P (snapshots label) s sealing other = sealing label
apply_cases P op s sealing other = other refl

pub apply-StoreOk :
    (op : Op) (s : Store) → StoreOk s → InRange op → s.cur + 1 < latest → StoreOk (apply op s)
apply-StoreOk op s k h room =
    apply_cases StoreOk op s (λ label. snapshot-StoreOk label s k room)
      (λ other. Made-StoreOk s (apply op s) k (apply-Made op s k h other))

snapshot-cur :
    (label : Bytes) (s : Store) → s.cur + 1 < latest → (snapshot label s).1.cur ≡ s.cur + 1
unfolding snapshot
snapshot-cur label s room = omega arith

pub apply-cur :
    (op : Op) (s : Store)
    → StoreOk s
    → InRange op
    → s.cur + 1 < latest
    → (s.cur ≤ (apply op s).cur) × ((apply op s).cur ≤ s.cur + 1)
apply-cur op s k h room =
    apply_cases (λ t. (s.cur ≤ t.cur) × (t.cur ≤ s.cur + 1)) op s
      (λ label. omega (arith, snapshot-cur label s room))
      (λ other. omega (arith, (apply-Made op s k h other).same_cur))

-- The label of a snapshot is written once, when it is sealed.
snapshot-Frozen :
    (label : Bytes) (s : Store) → s.cur < u64 → Frozen s.cur s.db (snapshot label s).1.db
unfolding snapshot put_meta load_node
snapshot-Frozen label s h = record {
  loads = λ id rg p q. refl;
  downs = λ d v p q. refl;
  ups = λ c v p q. refl;
  labels = λ g q. find-put (be g) (be s.cur) (be s.clock ++ label) s.db.snaps ∙ other_key g q;
}
  where
    other_key :
        (g : ℕ)
        → g < s.cur
        → elim_eq (cmp (be s.cur) (be g)) (some (be s.clock ++ label)) (find (be g) s.db.snaps)
          ≡ find (be g) s.db.snaps
    other_key g q = elim (Ordering-cases (cmp (be s.cur) (be g))) [
      | inl lt ↦ rw lt
      | inr (inl eq) ↦ absurd (
          omega (
            arith,
            be-injective s.cur g [] [] h (omega arith)
                (ap (λ k. k ++ []) (eq_of_cmp (be s.cur) (be g) eq)),
          ))
      | inr (inr gt) ↦ rw gt
    ]

apply-Frozen : (op : Op) (s : Store) → StoreOk s → InRange op → Frozen s.cur s.db (apply op s).db
apply-Frozen op s k h =
    apply_cases (λ t. Frozen s.cur s.db t.db) op s (λ label. snapshot-Frozen label s (fits s k))
      (λ other. Writes-Frozen (fits s k) k.db_ok (apply-Made op s k h other).writes)

-- One call leaves every sealed view as it was.
pub apply-SameView :
    (op : Op) (s : Store) (n id : ℕ)
    → StoreOk s
    → InRange op
    → s.cur + 1 < latest
    → n < s.cur
    → id < u64
    → is_snap_dir id ≡ false
    → SameView n id s (apply op s)
apply-SameView op s n id k h room before hid real =
    let after = apply-StoreOk op s k h room in
    Frozen-SameView s (apply op s) n id before (omega arith) (fits s k) hid real k.db_ok
      after.db_ok.down_sorted after.db_ok.up_sorted (apply-Frozen op s k h)

pub SameView-trans :
    {n id : ℕ} {a b c : Store} → SameView n id a b → SameView n id b c → SameView n id a c
SameView-trans f g = record {
  same_attrs = g.same_attrs ∙ f.same_attrs;
  same_lookup = λ name. g.same_lookup name ∙ f.same_lookup name;
  same_readdir = g.same_readdir ∙ f.same_readdir;
  same_parents = g.same_parents ∙ f.same_parents;
  same_info = g.same_info ∙ f.same_info;
}

pub SameView-refl : (n id : ℕ) (a : Store) → SameView n id a a
SameView-refl n id a = record {
  same_attrs = refl;
  same_lookup = λ name. refl;
  same_readdir = refl;
  same_parents = refl;
  same_info = refl;
}

-- Any sequence of calls keeps a store well-formed, as long as the arguments are in the ranges of
-- their types and the snapshot counter stays below the number of the live view.
pub run-StoreOk :
    (ops : List Op) (s : Store)
    → StoreOk s
    → All InRange ops
    → s.cur + length ops < latest
    → StoreOk (run ops s)
unfolding run
run-StoreOk [] s k h room = k
run-StoreOk (op ∷ ops) s k h room =
    let c = apply-cur op s k h.0 (omega arith) in
    run-StoreOk ops (apply op s) (apply-StoreOk op s k h.0 (omega arith)) h.1 (omega (arith, c))

-- Snapshot isolation. In a well-formed store, the attributes, every lookup, the listing and the
-- parents of a node viewed at a sealed snapshot, and the snapshot's own record, are the same
-- after any sequence of calls with arguments in range, for a node with an id of 64 bits that is
-- not a `.snapshot` directory, as long as the snapshot counter stays below the number of the live
-- view.
pub run-SameView :
    (ops : List Op) (s : Store) (n id : ℕ)
    → StoreOk s
    → All InRange ops
    → s.cur + length ops < latest
    → n < s.cur
    → id < u64
    → is_snap_dir id ≡ false
    → SameView n id s (run ops s)
unfolding run
run-SameView [] s n id k h room before hid real = SameView-refl n id s
run-SameView (op ∷ ops) s n id k h room before hid real =
    let c = apply-cur op s k h.0 (omega arith) in
    SameView-trans (apply-SameView op s n id k h.0 (omega arith) before hid real) (
      run-SameView ops (apply op s) n id (apply-StoreOk op s k h.0 (omega arith)) h.1
        (omega (arith, c)) (omega (arith, c)) hid real)

-- A new store over an empty engine is well-formed.
pub open_store-StoreOk : StoreOk (open_store empty_db)
unfolding open_store get_meta put_meta find store_node
open_store-StoreOk =
    let root : NodeRec = record empty_rec {
      type = 1;
      mode = 0o755;
      nlink = 1;
      dn_link_ver = 1;
      up_link_ver = 1;
    } in
    record {
      db_ok = record {
        nodes_ok =
            store_node-NodesOk 1 1 root empty_db (omega arith) (omega arith) (omega arith)
              (omega arith) (record { sorted = tt; versions = tt });
        down_sorted = tt;
        up_sorted = tt;
      };
      cur_open = omega arith;
      next_fits = omega arith;
      clock_fits = omega arith;
    }
