-- ===== src/Core/Invariant.antt =====
-- Every operation keeps the store well-formed, and leaves the sealed snapshots as they are.
use prfs.Prelude.{
  ℕ, ◌+◌, ◌<◌, ◌≡◌, refl, sym, subst, arith, Bool, true, false, Bool-cases, inl, inr, some,
  Option-cases, ◌%◌, codes,
}
use prfs.Bytes.{Bytes, u32, u64}
use prfs.Core.Record.{NodeRec, FileType, reg, dir, lnk, type_code, default_mode, le}
use prfs.Core.Tables.{Db, load_node, or_empty, put_meta}
use prfs.Core.Store.{Store, Handle, alloc, link, unlink, move, set_time, set_content_config}
use prfs.Core.Attrs.{
  mutate_node, set_guarded, set_mode, set_uid, set_gid, set_size, set_atime, set_mtime, set_ctime,
  set_atime_nsec, set_mtime_nsec, set_blob, set_rdev, set_content_seed,
}
use prfs.Core.Loads.{Bounded, load_node-Bounded}
use prfs.Core.Writes.{DbOk, Write, Writes, node, done, more, Writes-DbOk}
use prfs.Core.Transactions.{link_t-Writes, unlink_t-Writes, move_t-Writes}
use prfs.Core.Ops.{
  Attr, Op, creates, links, unlinks, moves, sets, sets_blob, sets_rdev, sets_seed, sets_config,
  sets_time, snapshots, apply, set_attr, width, InRange, StoreOk, mode, uid, gid, size, atime,
  mtime, ctime, atime_nsec, mtime_nsec,
}

-- What a call other than `snapshot` does to the state.
pub record Made (s t : Store) : Type 0 where
  pub same_cur : t.cur ≡ s.cur
  pub writes : Writes s.cur s.db t.db
  pub next_fits : t.next < u64
  pub clock_fits : t.clock < u64

pub loaded_Bounded :
    (s : Store) (id : ℕ) (r : NodeRec)
    → StoreOk s
    → id < u64
    → load_node s.db id s.cur ≡ some r
    → Bounded s.cur r
loaded_Bounded s id r ok hid e =
    subst (λ o. Bounded s.cur (or_empty o)) e
      (load_node-Bounded s.cur id s.cur s.db (omega (arith, ok.cur_open)) hid
        (omega (arith, ok.cur_open)) ok.db_ok.nodes_ok)

unchanged : (s : Store) → StoreOk s → Made s s
unchanged s k = record {
  same_cur = refl;
  writes = done;
  next_fits = k.next_fits;
  clock_fits = k.clock_fits;
}

-- A record that is loaded, changed within its bounds and stored.
module _ (s : Store) (id : ℕ) (fn : NodeRec → NodeRec) (ok' : StoreOk s) (hid : id < u64)
    (keeps : (r : NodeRec) → Bounded s.cur r → Bounded s.cur (fn r)) where
  mutate_node-Made : Made s (mutate_node id fn s)
  unfolding mutate_node
  mutate_node-Made = elim (Option-cases (load_node s.db id s.cur)) [
    | inl e ↦
        rw (e, mutate_node)
          (record {
            same_cur = refl;
            writes = done;
            next_fits = ok'.next_fits;
            clock_fits = ok'.clock_fits;
          })
    | inr (r, e) ↦
        rw (e, mutate_node)
          (record {
            same_cur = refl;
            writes =
                more done (node id (fn r) s.db hid (keeps r (loaded_Bounded s id r ok' hid e)));
            next_fits = ok'.next_fits;
            clock_fits = ok'.clock_fits;
          })
  ]

  set_guarded-Made : (wanted : NodeRec → Bool) → Made s (set_guarded id wanted fn s).1
  unfolding set_guarded
  set_guarded-Made wanted = elim (Option-cases (load_node s.db id s.cur)) [
    | inl e ↦ rw (e, set_guarded) (unchanged s ok')
    | inr (r, e) ↦ elim (Bool-cases (wanted r)) [
      | inl yes' ↦
          rw (e, set_guarded, yes')
            (record {
              same_cur = refl;
              writes =
                  more done (node id (fn r) s.db hid (keeps r (loaded_Bounded s id r ok' hid e)));
              next_fits = ok'.next_fits;
              clock_fits = ok'.clock_fits;
            })
      | inr no' ↦ rw (e, set_guarded, no') (unchanged s ok')
    ]
  ]

set_attr-Made :
    (a : Attr) (h : Handle) (x : ℕ) (s : Store)
    → StoreOk s
    → h.id < u64
    → x < width a
    → Made s (set_attr a h x s)
unfolding set_mode set_uid set_gid set_size set_atime set_mtime set_ctime set_atime_nsec
    set_mtime_nsec
set_attr-Made mode h x s k hid hx = mutate_node-Made s h.id _ k hid (λ r b. omega arith)
set_attr-Made uid h x s k hid hx = mutate_node-Made s h.id _ k hid (λ r b. omega arith)
set_attr-Made gid h x s k hid hx = mutate_node-Made s h.id _ k hid (λ r b. omega arith)
set_attr-Made size h x s k hid hx = mutate_node-Made s h.id _ k hid (λ r b. omega arith)
set_attr-Made atime h x s k hid hx = mutate_node-Made s h.id _ k hid (λ r b. omega arith)
set_attr-Made mtime h x s k hid hx = mutate_node-Made s h.id _ k hid (λ r b. omega arith)
set_attr-Made ctime h x s k hid hx = mutate_node-Made s h.id _ k hid (λ r b. omega arith)
set_attr-Made atime_nsec h x s k hid hx = mutate_node-Made s h.id _ k hid (λ r b. omega arith)
set_attr-Made mtime_nsec h x s k hid hx = mutate_node-Made s h.id _ k hid (λ r b. omega arith)

pub fits : (s : Store) → StoreOk s → s.cur < u64
fits s k = omega (arith, k.cur_open)

pub default_mode-lt : (t : FileType) → default_mode t < u32
unfolding default_mode
default_mode-lt reg = omega arith
default_mode-lt dir = omega arith
default_mode-lt lnk = omega arith
default_mode-lt t = omega arith

pub type_code-lt : (t : FileType) → type_code t < u32
type_code-lt reg = omega arith
type_code-lt t = omega arith

alloc-Made :
    (t : FileType) (blob : Bytes) (spec : ℕ) (s : Store)
    → StoreOk s
    → spec < u64
    → Made s (alloc t blob spec s).1
unfolding alloc put_meta
alloc-Made t blob spec s k h =
    let cur_fits : s.cur < u64 = omega (arith, k.cur_open) in
    record {
      same_cur = refl;
      writes =
          more (more done (Write.put_meta (codes "next_node") (le 8 ((s.next + 1) % u64)) s.db)) (
            node s.next _ _ k.next_fits (record {
              fits = omega (arith, default_mode-lt t, type_code-lt t, k.clock_fits);
              dn = omega arith;
              up = omega arith;
            }));
      next_fits = omega arith;
      clock_fits = k.clock_fits;
    }

db-Made : (s : Store) (b : Db) → StoreOk s → Writes s.cur s.db b → Made s (record s { db = b })
db-Made s b k w = record {
  same_cur = refl;
  writes = w;
  next_fits = k.next_fits;
  clock_fits = k.clock_fits;
}

unfoldable pub is_snapshot : Op → Bool
is_snapshot (snapshots label) = true
is_snapshot _ = false

pub apply-Made :
    (op : Op) (s : Store) → StoreOk s → InRange op → is_snapshot op ≡ false → Made s (apply op s)
unfolding link unlink move set_content_config set_time put_meta set_blob set_rdev set_content_seed
    is_snapshot
apply-Made (creates t blob spec) s k h n = alloc-Made t blob spec s k h
apply-Made (links d name c) s k h n =
    db-Made s _ k (link_t-Writes (fits s k) d.id name c.id s.db h.0 h.1 k.db_ok)
apply-Made (unlinks d name) s k h n =
    db-Made s _ k (unlink_t-Writes (fits s k) d.id name s.db h k.db_ok)
apply-Made (moves sd sn dd dn) s k h n =
    db-Made s _ k (move_t-Writes (fits s k) sd.id sn dd.id dn s.db h.0 h.1 k.db_ok)
apply-Made (sets a d x) s k h n = set_attr-Made a d x s k h.0 h.1
apply-Made (sets_blob d t blob) s k h n = set_guarded-Made s d.id _ k h (λ r b. omega arith) _
apply-Made (sets_rdev d maj min) s k h n =
    set_guarded-Made s d.id _ k h.0 (λ r b. omega (arith, h.1, h.2)) _
apply-Made (sets_seed d seed) s k h n =
    set_guarded-Made s d.id _ k h.0 (λ r b. omega (arith, h.1)) _
apply-Made (sets_config blob) s k h n =
    db-Made s _ k (more done (Write.put_meta (codes "content_config") blob s.db))
apply-Made (sets_time t) s k h n = record {
  same_cur = refl;
  writes = more done (Write.put_meta (codes "clock") (le 8 t) s.db);
  next_fits = k.next_fits;
  clock_fits = h;
}
apply-Made (snapshots label) s k h n = cc

pub Made-StoreOk : (s t : Store) → StoreOk s → Made s t → StoreOk t
Made-StoreOk s t k m = record {
  db_ok = subst (λ c. DbOk c t.db) (sym m.same_cur) (Writes-DbOk m.writes k.db_ok);
  cur_open = rw m.same_cur k.cur_open;
  next_fits = m.next_fits;
  clock_fits = m.clock_fits;
}
