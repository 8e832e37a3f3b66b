-- ===== src/Core/Namespace/Reached.antt =====
-- The invariant over any sequence of calls.
use prfs.Prelude.{
  ℕ, ◌+◌, ◌%◌, ◌<◌, ◌≤◌, ◌≡◌, refl, sym, subst, List, [], ◌∷◌, ◌==◌, Bool, Bool-cases, inl, inr,
  Option, some, if◌then◌else◌, arith, codes, length, All,
}
use prfs.Bytes.{Bytes, u64}
use prfs.Kv.{find}
use prfs.Core.Record.{NodeRec, FileType, le, Error, type_code, default_mode, empty_rec}
use prfs.Core.Tables.{Db, load_node, store_node, put_meta, empty_db, get_meta}
use prfs.Core.Store.{
  Store, Handle, latest, alloc, link, unlink, move, set_time, set_content_config, open_store,
}
use prfs.Core.Attrs.{set_blob, set_rdev, set_content_seed}
use prfs.Core.Loads.{Bounded}
use prfs.Core.Writes.{DbOk, Write, Writes-DbOk, done, more}
use prfs.Core.Ops.{
  Op, creates, links, unlinks, moves, sets, sets_blob, sets_rdev, sets_seed, sets_config, sets_time,
  snapshots, apply, InRange, StoreOk, run,
}
use prfs.Core.Invariant.{fits, default_mode-lt, type_code-lt}
use prfs.Core.Sealed.{apply-StoreOk, apply-cur}
use prfs.Core.Namespace.Live.{IsPlaced, load_node-store_node, reached, versions_of}
use prfs.Core.Namespace.Changes.{up_links-IsHidden}
use prfs.Core.Namespace.Refines.{Outcome, link_t-Outcome, unlink_t-Outcome}
use prfs.Core.Namespace.Moves.{move_t-Outcome, MoveOutcome}
use prfs.Core.Namespace.Invariant.{
  NamesOk, Unseen-NamesOk, set_attr-Unseen, set_guarded-Unseen, snapshot-NamesOk, reached_most,
}

module _ (t : FileType) (blob : Bytes) (spec : ℕ) (s : Store) (k : StoreOk s) (h : spec < u64) where
  abbrev new_rec : NodeRec
  new_rec = record empty_rec {
    type = type_code t;
    mode = default_mode t;
    spec = spec;
    blob = blob;
    dn_link_ver = s.cur;
    up_link_ver = s.cur;
    atime = s.clock;
    mtime = s.clock;
    ctime = s.clock;
  }

  abbrev counted : Db
  counted = put_meta (codes "next_node") ((s.next + 1) % u64) s.db

  new_rec-Bounded : Bounded s.cur new_rec
  new_rec-Bounded = record {
    fits = omega (arith, default_mode-lt t, type_code-lt t, k.clock_fits, k.cur_open);
    dn = omega arith;
    up = omega arith;
  }

  counted-DbOk : DbOk s.cur counted
  unfolding put_meta
  counted-DbOk =
      Writes-DbOk (more done (Write.put_meta (codes "next_node") (le 8 ((s.next + 1) % u64)) s.db))
        k.db_ok

  -- What the store loads after a creation: the new record, and the others as they were.
  pub load_node-alloc :
      (d : ℕ)
      → d < u64
      → load_node (alloc t blob spec s).1.db d s.cur
        ≡ (if s.next == d then some new_rec else load_node s.db d s.cur)
  unfolding alloc put_meta load_node
  load_node-alloc d hd =
      load_node-store_node s.cur s.next new_rec counted d (fits s k) k.next_fits hd new_rec-Bounded
        counted-DbOk

  pub alloc-NamesOk : NamesOk s → NamesOk (alloc t blob spec s).1
  unfolding alloc put_meta store_node
  alloc-NamesOk n = record {
    started = n.started;
    placed = record {
      none_newer = λ d v name hd hv g.
          n.placed.none_newer d v name hd hv
            (before d v hd (subst (λ o. versions_of o ≤ v) (load_node-alloc d hd) g));
    };
  }
    where
      before :
          (d v : ℕ)
          → d < u64
          → versions_of (if s.next == d then some new_rec else load_node s.db d s.cur) ≤ v
          → reached s.cur s.db d ≤ v
      before d v hd g = elim (Bool-cases (s.next == d)) [
        | inl here ↦
            let g' =
              subst
                (λ (b : Bool). versions_of (if b then some new_rec else load_node s.db d s.cur) ≤ v)
                here g in
            omega (arith, g', reached_most s d k hd)
        | inr away ↦
            subst
              (λ (b : Bool). versions_of (if b then some new_rec else load_node s.db d s.cur) ≤ v)
              away g
      ]

meta-NamesOk :
    (s t : Store)
    → t.cur ≡ s.cur
    → t.db.nodes ≡ s.db.nodes
    → t.db.down_links ≡ s.db.down_links
    → NamesOk s
    → NamesOk t
meta-NamesOk s t c a b n = Unseen-NamesOk s t (c, up_links-IsHidden s.cur s.db t.db a b) n

Outcome-NamesOk :
    (s : Store) (d : ℕ) (name : Bytes) (x : Option ℕ) (r : Error × Db)
    → NamesOk s
    → Outcome s.cur d name x s.db r
    → NamesOk (record s { db = r.1 })
Outcome-NamesOk s d name x r n (inl o) = record { started = n.started; placed = o.1.placed }
Outcome-NamesOk s d name x r n (inr o) = record {
  started = n.started;
  placed = subst (IsPlaced s.cur) (sym o.1) n.placed;
}

unlink-NamesOk :
    (d : Handle) (name : Bytes) (s : Store)
    → StoreOk s
    → d.id < u64
    → NamesOk s
    → NamesOk (unlink d name s).1
unfolding unlink
unlink-NamesOk d name s k hd n =
    elim (unlink_t-Outcome s.cur d.id name s.db (fits s k) n.started hd k.db_ok n.placed) [
      | inl missing ↦ rw missing.1 n
      | inr (c, e, r, u) ↦ rw r (record { started = n.started; placed = u.placed })
    ]

move-NamesOk :
    (s : Store) (sd : ℕ) (sn : Bytes) (dd : ℕ) (dn : Bytes) (r : Error × Db)
    → NamesOk s
    → MoveOutcome s.cur sd sn dd dn s.db r
    → NamesOk (record s { db = r.1 })
move-NamesOk s sd sn dd dn r n (inl o) = record { started = n.started; placed = o.1.placed }
move-NamesOk s sd sn dd dn r n (inr o) = record {
  started = n.started;
  placed = subst (IsPlaced s.cur) (sym o.1) n.placed;
}

pub apply-NamesOk :
    (op : Op) (s : Store)
    → StoreOk s
    → NamesOk s
    → InRange op
    → s.cur + 1 < latest
    → NamesOk (apply op s)
unfolding link move set_content_config set_time put_meta set_blob set_rdev set_content_seed
apply-NamesOk (creates t blob spec) s k n h room = alloc-NamesOk t blob spec s k h n
apply-NamesOk (links d name c) s k n h room =
    Outcome-NamesOk s d.id name _ _ n
      (link_t-Outcome s.cur d.id name s.db (fits s k) n.started h.0 k.db_ok n.placed c.id h.1)
apply-NamesOk (unlinks d name) s k n h room = unlink-NamesOk d name s k h n
apply-NamesOk (moves sd sn dd dn) s k n h room =
    move-NamesOk s sd.id sn dd.id dn _ n
      (move_t-Outcome s.cur sd.id sn dd.id dn s.db (fits s k) n.started h.0 h.1 k.db_ok n.placed)
apply-NamesOk (sets a d x) s k n h room = Unseen-NamesOk s _ (set_attr-Unseen a d x s k h.0 h.1) n
apply-NamesOk (sets_blob d t blob) s k n h room =
    Unseen-NamesOk s _ (set_guarded-Unseen s d.id _ k h (λ r b. (omega arith, refl)) _) n
apply-NamesOk (sets_rdev d maj min) s k n h room =
    Unseen-NamesOk s _
      (set_guarded-Unseen s d.id _ k h.0 (λ r b. (omega (arith, h.1, h.2), refl)) _) n
apply-NamesOk (sets_seed d seed) s k n h room =
    Unseen-NamesOk s _ (set_guarded-Unseen s d.id _ k h.0 (λ r b. (omega (arith, h.1), refl)) _) n
apply-NamesOk (sets_config blob) s k n h room = meta-NamesOk s _ refl refl refl n
apply-NamesOk (sets_time t) s k n h room = meta-NamesOk s _ refl refl refl n
apply-NamesOk (snapshots label) s k n h room = snapshot-NamesOk label s k room n

pub run-NamesOk :
    (ops : List Op) (s : Store)
    → StoreOk s
    → NamesOk s
    → All InRange ops
    → s.cur + length ops < latest
    → NamesOk (run ops s)
unfolding run
run-NamesOk [] s k n h room = n
run-NamesOk (op ∷ ops) s k n h room =
    let c = apply-cur op s k h.0 (omega arith) in
    run-NamesOk ops (apply op s) (apply-StoreOk op s k h.0 (omega arith))
      (apply-NamesOk op s k n h.0 (omega arith)) h.1 (omega (arith, c))

pub open_store-NamesOk : NamesOk (open_store empty_db)
unfolding open_store get_meta put_meta find store_node
open_store-NamesOk = record {
  started = omega arith;
  placed = record { none_newer = λ d v name hd hv h. refl };
}
