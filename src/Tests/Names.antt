-- ===== src/Tests/Names.antt =====
-- The theorems about names, and about the reference store, at concrete inputs.
use prfs.Prelude.{
  ℕ, ◌+◌, ◌<◌, ◌≤◌, find_in, change_in, ◌≡◌, ◌≢◌, ◌⊎◌, refl, sym, ◌∙◌, List, [], ◌∷◌, arith, some,
  none, if◌then◌else◌, codes, length, All, false,
}
use prfs.Bytes.{Bytes, u64, cmp, is_eq, be, rdbe, be_loop, rdbe_loop, has_prefix}
use prfs.Kv.{find, put, seek, last, last_from, prev, end_from, step_prev, seek_from}
use prfs.Kv.Prefix.{scan, scan_loop}
use prfs.Core.Record.{deserialize, serialize, le, rdle, default_mode, dir, ok, noent}
use prfs.Core.Links.{
  snapshot_name, link_guard, reachable as core_reachable, reach_loop as core_reach_loop, visit,
  push_dirs, is_dir_at, seen_before, add_link,
}
use prfs.Core.Tables.{
  empty_db, get_meta, put_meta, store_node, load_node, is_node_key, is_version_of, version_at,
  scan_down_links,
}
use prfs.Core.Store.{Store, open_store, latest, is_snap_dir, lookup, link, unlink, move, alloc}
use prfs.Core.Ops.{Op, creates, links, unlinks, moves, snapshots, run, apply, InRange}
use prfs.Core.Errors.{answer}
use prfs.Core.Namespace.Lookups.{unlink-lookup, move-lookup, lookup-live_at, made-NamesOk}
use prfs.Core.Namespace.Refinement.{apply-Refined, view}
use prfs.Names.{live, same_name, IsPlain, Refined}
use prfs.Mem.{MemStore, live_at_r}
use prfs.Mem.History.{snapshot}
use prfs.Mem.Ops.{
  unlink as mem_unlink, move as mem_move, link as mem_link, alloc as mem_alloc, new_store,
  reach_loop, reachable, count_names,
}
use prfs.Mem.Runs.{run as mem_run, apply as mem_apply, answer as mem_answer}
use prfs.Mem.Invariant.{MemOk, new_store-MemOk}
use prfs.Mem.Lookups.{view as mem_view, lookup-live_at as mem_lookup-live_at, run-MemOk}
use prfs.Mem.Refinement.{mem_apply-Refined}
use prfs.Mem.Isolation.{SameView, run-MemSameView}
use prfs.Mem.Reaching.{mem_reachable_lem}
use prfs.Agreement.{SameNames, same_answers-SameNames}

-- A directory behind the name `a` of the root.
abbrev linked_calls : List Op
linked_calls = creates dir [] 0 ∷ links (live 1) (codes "a") (live 2) ∷ []

linked_calls-InRange : All InRange linked_calls
linked_calls-InRange = omega arith

linked_room : 2 + length linked_calls < latest
linked_room = omega arith

abbrev linked_store : Store
linked_store = run linked_calls (open_store empty_db)

abbrev linked_mem : MemStore
linked_mem = mem_run linked_calls new_store

abbrev rename : Op
rename = moves (live 1) (codes "a") (live 1) (codes "b")

root_plain : is_snap_dir 1 ≡ false
unfolding is_snap_dir
root_plain = refl

a_plain : is_eq (cmp (codes "a") snapshot_name) ≡ false
unfolding cmp
a_plain = refl

b_plain : is_eq (cmp (codes "b") snapshot_name) ≡ false
unfolding cmp
b_plain = refl

apply-Refined_example :
    Refined rename
      (answer rename linked_store)
      (view linked_store)
      (view (apply rename linked_store))
      1
      (codes "b")
apply-Refined_example =
    apply-Refined linked_calls linked_calls-InRange linked_room 1 (codes "b") (omega arith)
      (root_plain, b_plain) rename (omega arith) (root_plain, a_plain) tt

unlink-lookup_example :
    ((lookup (live 1) (codes "a") linked_store ≡ none)
      × (unlink (live 1) (codes "a") linked_store ≡ (noent, linked_store)))
    ⊎ ((lookup (live 1) (codes "a") linked_store ≢ none)
        × ((unlink (live 1) (codes "a") linked_store).0 ≡ ok)
        × (lookup (live 1) (codes "a") (unlink (live 1) (codes "a") linked_store).1 ≡ (
            if same_name 1 (codes "a") 1 (codes "a")
            then none
            else lookup (live 1) (codes "a") linked_store)))
unlink-lookup_example =
    unlink-lookup linked_calls linked_calls-InRange linked_room 1 (codes "a") (omega arith)
      root_plain a_plain (live 1) (codes "a") (omega arith) root_plain a_plain

move-lookup_example :
    (((move (live 1) (codes "a") (live 1) (codes "b") linked_store).0 ≡ ok)
      × (lookup (live 1) (codes "b") (move (live 1) (codes "a") (live 1) (codes "b") linked_store).1
          ≡ (if same_name 1 (codes "a") 1 (codes "b")
              then none
              else if same_name 1 (codes "b") 1 (codes "b")
              then lookup (live 1) (codes "a") linked_store
              else lookup (live 1) (codes "b") linked_store)))
    ⊎ (((move (live 1) (codes "a") (live 1) (codes "b") linked_store).0 ≢ ok)
        × ((move (live 1) (codes "a") (live 1) (codes "b") linked_store).1 ≡ linked_store))
move-lookup_example =
    move-lookup linked_calls linked_calls-InRange linked_room 1 (codes "b") (omega arith) root_plain
      b_plain (live 1) (codes "a") (live 1) (codes "b") (omega arith) (omega arith) root_plain
      a_plain

mem_apply-Refined_example :
    Refined rename
      (mem_answer rename linked_mem)
      (mem_view linked_mem)
      (mem_view (mem_apply rename linked_mem))
      1
      (codes "b")
mem_apply-Refined_example =
    mem_apply-Refined linked_calls rename 1 (codes "b") linked_room (root_plain, b_plain)
      (root_plain, a_plain)

run-MemOk_example :
    MemOk linked_mem × ((mem_run linked_calls new_store).cur ≤ new_store.cur + length linked_calls)
unfolding new_store
run-MemOk_example = run-MemOk linked_calls new_store new_store-MemOk (omega arith)

abbrev more_calls : List Op
more_calls = snapshots (codes "one") ∷ rename ∷ unlinks (live 1) (codes "b") ∷ []

sealed_mem-MemOk : MemOk (mem_run more_calls new_store)
unfolding new_store
sealed_mem-MemOk = (run-MemOk more_calls new_store new_store-MemOk (omega arith)).0

mem_reachable_lem_example :
    reach_loop linked_mem 1 (count_names linked_mem.names + 2) (2 ∷ []) []
    ≡ some (reachable linked_mem 2 1)
mem_reachable_lem_example = mem_reachable_lem linked_mem 2 1

-- One snapshot is sealed, and the name under it goes on.
sealed_cur : (mem_run more_calls new_store).cur ≡ 2
unfolding new_store mem_run mem_unlink find_in mem_move snapshot
sealed_cur = refl

run-MemSameView_example :
    SameView 1 1
      (mem_run more_calls new_store)
      (mem_run linked_calls (mem_run more_calls new_store))
run-MemSameView_example =
    run-MemSameView linked_calls (mem_run more_calls new_store) 1 1 sealed_mem-MemOk
      (omega (arith, sealed_cur)) (omega (arith, sealed_cur)) root_plain

-- A directory that nothing names yet.
abbrev fresh_calls : List Op
fresh_calls = creates dir [] 0 ∷ []

none_yet :
    (e : ℕ) (n : Bytes)
    → e < u64
    → IsPlain e n
    → view (run fresh_calls (open_store empty_db)) e n ≡ none
unfolding run alloc open_store get_meta find put_meta store_node
none_yet e n he plain =
    lookup-live_at e n (run fresh_calls (open_store empty_db))
      (made-NamesOk fresh_calls (omega arith) (omega arith) e n he plain.0 plain.1) he plain.0
      plain.1

mem_none_yet :
    (e : ℕ) (n : Bytes) → IsPlain e n → mem_view (mem_run fresh_calls new_store) e n ≡ none
unfolding mem_run new_store find_in mem_alloc live_at_r
mem_none_yet e n plain = mem_lookup-live_at e n (mem_run fresh_calls new_store) plain

links_there : (link (live 1) (codes "a") (live 2) (run fresh_calls (open_store empty_db))).0 ≡ ok
unfolding link run link_guard cmp load_node seek alloc store_node put put_meta open_store get_meta
    find be is_node_key rdbe is_version_of deserialize serialize be_loop rdbe_loop le rdle
    default_mode version_at last last_from prev end_from step_prev seek_from core_reachable
    core_reach_loop visit push_dirs scan_down_links scan scan_loop is_dir_at seen_before has_prefix
    add_link
links_there = refl

mem_links_there : (mem_link (live 1) (codes "a") (live 2) (mem_run fresh_calls new_store)).0 ≡ ok
unfolding mem_link mem_run cmp is_snap_dir find_in mem_alloc change_in new_store
mem_links_there = refl

fresh-SameNames :
    SameNames
      (view (run fresh_calls (open_store empty_db)))
      (mem_view (mem_run fresh_calls new_store))
fresh-SameNames e n he plain = none_yet e n he plain ∙ sym (mem_none_yet e n plain)

same_answers-SameNames_example :
    view
      (apply (links (live 1) (codes "a") (live 2)) (run fresh_calls (open_store empty_db)))
      1
      (codes "a")
    ≡ mem_view
        (mem_apply (links (live 1) (codes "a") (live 2)) (mem_run fresh_calls new_store))
        1
        (codes "a")
same_answers-SameNames_example =
    same_answers-SameNames fresh_calls fresh_calls (links (live 1) (codes "a") (live 2))
      (omega arith) (omega arith) (omega arith) fresh-SameNames (omega arith) tt
      (λ h. mem_links_there, λ h. links_there) 1 (codes "a") (omega arith) (root_plain, a_plain) tt
