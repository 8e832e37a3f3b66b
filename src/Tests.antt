-- ===== src/Tests.antt =====
-- The theorems applied at concrete inputs.
pub mod Parts
pub mod Names
pub mod Nfs
pub mod Server
use prfs.Core.Reaching.{reachable_lem}
use mathlib.Core.List.{Memᴰ}
use prfs.Core.Diffs.{Turned, diff_nodes-Turned}
use prfs.Core.Changes.{ChangesOk}
use prfs.Core.Candidates.{ChangedIn, candidates_lem}
use prfs.Core.Links.{reach_loop, reachable}
use prfs.Core.History.{diff_nodes, created}
use prfs.Core.Store.{rr}
use prfs.Kv.Laws.{Sorted}
use prfs.Core.Names.{Resolves, readdir-Resolves, parse_snap-to_string}
use prfs.Core.Errors.{answer, apply-kept, is_move}
use prfs.Core.Views.{to_string}
use prfs.Core.Store.{parse_snap, snap_bit}
use prfs.Core.Record.{Error, ok}
use prfs.Core.Ops.{apply}
use prfs.Prelude.{true, ◌⊎◌}
use prfs.Prelude.{
  ℕ, ◌+◌, ◌*◌, ◌-◌, ◌%◌, ◌<◌, ◌≤◌, ◌≡◌, ◌↔◌, refl, List, [], ◌∷◌, ◌++◌, arith, some, none, codes,
  map, min, inr, compare, length, All, false,
}
use prfs.Bytes.{u64, be, rdbe, cmp}
use prfs.Bytes.Encoding.{cmp-be}
use prfs.Kv.{Map, find, put, del, seek, prev}
use prfs.Kv.Laws.{find-put, find-del, elim_eq, Sorted}
use prfs.Kv.Scan.{floor}
use prfs.Kv.Prefix.{scan, with_prefix, scan_lem}
use prfs.Core.Record.{NodeRec, empty_rec, dir, serialize, deserialize, Fits, deserialize-serialize}
use prfs.Core.Tables.{
  candidates, put_meta, is_node_key, is_version_of, Db, empty_db, load_node, store_node, version_at,
  get_meta,
}
use prfs.Core.Store.{Store, Handle, open_store, latest, is_snap_dir}
use prfs.Core.Attrs.{attrs}
use prfs.Core.Views.{readdir}
use prfs.Core.History.{snapshot, snap_info, Stats}
use prfs.Core.Loads.{
  store_node-NodesOk, load_node-floor, load_node-store_node_self, load_node-store_node_other,
  NodesOk,
}
use prfs.Core.Isolation.{SameView}
use prfs.Core.Ops.{Op, Attr, creates, links, unlinks, moves, sets, snapshots, run, InRange, StoreOk}
use prfs.Core.Sealed.{run-StoreOk, run-SameView, open_store-StoreOk, apply-StoreOk}
use prfs.Core.Sealing.{reached-StoreOk, snapshot_lem, to_entry}
use prfs.Content.{ContentConfig, Env, Buffer, read}
use prfs.Content.{default_config as default_content}
use prfs.Content.Config.{deserialize-serialize_config}
use prfs.Content.Config
use prfs.Content.RandomAccess.{with_file_bytes, read_lem}
use prfs.FsStat.{default_config, fs_stat, used_bytes, sum_files, fs_stat_lem, used_bytes_lem}

abbrev start : Store
start = open_store empty_db

abbrev live : ℕ → Handle
live n = record { id = n; snap = latest }

-- A directory is made, linked, sealed, moved and unlinked.
abbrev calls : List Op
calls =
    creates dir [] 0
    ∷ links (live 1) (codes "a") (live 2)
    ∷ sets Attr.mode (live 2) 0o700
    ∷ snapshots (codes "one")
    ∷ moves (live 1) (codes "a") (live 1) (codes "b")
    ∷ unlinks (live 1) (codes "b")
    ∷ []

calls-InRange : All InRange calls
calls-InRange = omega arith

reached-StoreOk_example : StoreOk (run calls (open_store empty_db))
reached-StoreOk_example = reached-StoreOk calls calls-InRange (omega arith)

root_real : is_snap_dir 1 ≡ false
unfolding is_snap_dir
root_real = refl

calls_room : start.cur + length calls < latest
unfolding open_store get_meta find
calls_room = omega arith

start_room : start.cur + 1 + length calls < latest
unfolding open_store get_meta find
start_room = omega arith

abbrev sealed : Store
sealed = (snapshot (codes "first") start).1

one_room : start.cur + 1 < latest
one_room = omega (arith, start_room)

sealed_room : sealed.cur + length calls < latest
unfolding open_store get_meta find snapshot
sealed_room = omega arith

sealed_open : 1 < sealed.cur
unfolding open_store get_meta find snapshot
sealed_open = omega arith

sealed-StoreOk : StoreOk sealed
sealed-StoreOk = apply-StoreOk (snapshots (codes "first")) start open_store-StoreOk tt one_room

run-SameView_example : SameView 1 1 sealed (run calls sealed)
run-SameView_example =
    run-SameView calls sealed 1 1 sealed-StoreOk calls-InRange sealed_room sealed_open (omega arith)
      root_real

snapshot_lem_example :
    (attrs (record { id = 1; snap = (snapshot (codes "first") start).0 }) (run calls sealed)
      ≡ attrs (record { id = 1; snap = latest }) start)
    × (map to_entry (
          readdir (record { id = 1; snap = (snapshot (codes "first") start).0 }) (run calls sealed))
        ≡ map to_entry (readdir (record { id = 1; snap = latest }) start))
    × (snap_info (snapshot (codes "first") start).0 (run calls sealed)
        ≡ record { id = start.cur; ctime = start.clock; label = codes "first" })
snapshot_lem_example =
    snapshot_lem calls (codes "first") start 1 open_store-StoreOk calls-InRange start_room
      (omega arith) root_real

abbrev sample : NodeRec
sample = record empty_rec {
  mode = 0o644;
  nlink = 1;
  size = 5000000000;
  mtime = 7;
  dn_link_ver = 2;
  up_link_ver = 1;
  blob = codes "x";
}

sample-Fits : Fits sample
sample-Fits = omega arith

deserialize-serialize_example : deserialize (serialize sample) ≡ sample
deserialize-serialize_example = deserialize-serialize sample sample-Fits

no_nodes : NodesOk 3 empty_db.nodes
no_nodes = record { sorted = tt; versions = tt }

load_node-store_node_self_example : load_node (store_node 5 3 sample empty_db) 5 9 ≡ some sample
load_node-store_node_self_example =
    load_node-store_node_self 3 5 sample empty_db (omega arith) (omega arith) sample-Fits
      (omega arith) (omega arith) no_nodes 9 (omega arith) (omega arith)

load_node-store_node_other_example :
    load_node (store_node 5 3 sample empty_db) 5 2 ≡ load_node empty_db 5 2
load_node-store_node_other_example =
    load_node-store_node_other 3 5 sample empty_db (omega arith) (omega arith) sample-Fits
      (omega arith) (omega arith) no_nodes 5 2 (omega arith) (omega arith) (inr (omega arith))

abbrev two : Db
two = store_node 5 3 sample (store_node 5 1 empty_rec empty_db)

one-NodesOk : NodesOk 3 (store_node 5 1 empty_rec empty_db).nodes
unfolding store_node put
one-NodesOk = record {
  sorted = (tt, tt);
  versions = (
    record {
      id = 5;
      snap = 1;
      key_eq = refl;
      id_fits = omega arith;
      snap_le = omega arith;
      dn_le = one_version.0;
      up_le = one_version.1;
    },
    tt,
  );
}
  where
    one_version :
        ((deserialize (serialize empty_rec)).dn_link_ver ≤ 1)
        × ((deserialize (serialize empty_rec)).up_link_ver ≤ 1)
    one_version = rw (deserialize-serialize empty_rec (omega arith)) (omega arith)

two-NodesOk : NodesOk 3 two.nodes
two-NodesOk =
    store_node-NodesOk 3 5 sample (store_node 5 1 empty_rec empty_db) (omega arith) sample-Fits
      (omega arith) (omega arith) one-NodesOk

load_node-floor_example : load_node two 5 2 ≡ version_at 5 2 (floor (be 5 ++ be 2) two.nodes)
load_node-floor_example =
    load_node-floor 3 5 2 (omega arith) (omega arith) (omega arith) two two-NodesOk

abbrev root_snapshots : Handle
root_snapshots = record { id = snap_bit + 1; snap = latest }

root_virtual : is_snap_dir root_snapshots.id ≡ true
unfolding is_snap_dir
root_virtual = refl

sealed_below : (1 ≤ sealed.cur) × (sealed.cur < latest)
sealed_below = omega (arith, sealed_room, sealed_open)

readdir-Resolves_example : All (Resolves root_snapshots sealed) (readdir root_snapshots sealed)
readdir-Resolves_example =
    readdir-Resolves root_snapshots sealed root_virtual sealed_below.0 sealed_below.1

parse_snap-to_string_example : parse_snap (to_string 1203) ≡ some 1203
parse_snap-to_string_example = parse_snap-to_string 1203 (omega arith)

not_a_move : is_move (unlinks (live 1) (codes "a")) ≡ false
unfolding is_move
not_a_move = refl

apply-kept_example :
    (answer (unlinks (live 1) (codes "a")) start ≡ ok)
    ⊎ (apply (unlinks (live 1) (codes "a")) start ≡ start)
apply-kept_example = apply-kept (unlinks (live 1) (codes "a")) start not_a_move

reachable_lem_example :
    reach_loop empty_db 1 1 (length empty_db.down_links + 2) (2 ∷ []) []
    ≡ some (reachable empty_db 1 2 1)
reachable_lem_example = reachable_lem empty_db 1 2 1 tt (omega arith)

-- The root is there after the sealed snapshot 0, and was not before.
diff_nodes-Turned_example :
    Memᴰ (1, created) (diff_nodes 0 latest start)
    ↔ Memᴰ 1 (candidates start.db (rr start 0) (rr start latest))
      × Turned created (load_node start.db 1 (rr start 0)) (load_node start.db 1 (rr start latest))
diff_nodes-Turned_example = diff_nodes-Turned 0 latest start 1 created

root_is_listed : diff_nodes 0 latest start ≡ (1, created) ∷ []
unfolding diff_nodes open_store get_meta put_meta find store_node put candidates seek be rdbe cmp
    load_node rr serialize deserialize prev is_node_key is_version_of
root_is_listed = refl

start-ChangesOk : ChangesOk start.db.changes
unfolding open_store get_meta find store_node put put_meta
start-ChangesOk = ((tt, tt), ((1, 1, omega arith, omega arith, refl), tt))

candidates_lem_example : Memᴰ 1 (candidates start.db 0 1) ↔ ChangedIn 0 1 1 start.db.changes
candidates_lem_example = candidates_lem start.db 0 1 1 start-ChangesOk (omega arith) (omega arith)
