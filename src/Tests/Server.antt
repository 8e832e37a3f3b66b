-- ===== src/Tests/Server.antt =====
-- The theorems about the NFSv3 server at concrete inputs.
use prfs.Core.Views.{readdir}
use prfs.Core.Following.{follow, past, follow-readdir}
use prfs.Prelude.{
  suc, ℕ, ◌+◌, ◌%◌, ◌^◌, ◌≤◌, ◌≡◌, refl, List, [], ◌∷◌, ◌++◌, true, false, none, some, codes,
  length, drop, arith, inl, inr,
}
use prfs.Bytes.{Bytes, cmp, be, rdbe, has_prefix}
use prfs.Kv.{find, put, seek, prev}
use prfs.Kv.Prefix.{scan}
use prfs.Core.History.{snapshot}
use prfs.Core.Links.{link_guard, add_link}
use prfs.Nfsv3.Calls.{nth_proc}
use prfs.Core.Record.{reg, serialize, deserialize}
use prfs.Core.Tables.{
  scan_down_links, empty_db, get_meta, put_meta, load_node, store_node, is_node_key, is_version_of,
}
use prfs.Core.Store.{rr, link, alloc, Store, open_store, latest, is_snap_dir, lookup}
use prfs.Core.Isolation.{SameView}
use prfs.Core.Ops.{Op, creates, links, snapshots, run, StoreOk}
use prfs.Core.Sealed.{run-StoreOk, open_store-StoreOk}
use prfs.Core.Sequences.{Runs}
use prfs.Di.{empty_registry}
use prfs.Host.{ProviderRead}
use prfs.Names.{live}
use prfs.Nfsv3.{Reader, rd32, no_cred, put_u32, put_fh, put_str}
use prfs.Nfsv3.Dirs.{page_dir}
use prfs.Nfsv3.Paging.{Returned, page_dir-Returned}
use prfs.Nfsv3.Server.{Server, dispatch, framed, serve, session}
use prfs.Nfsv3.Streams.{framed_lem, InRange, sent, answers, session-answers}
use prfs.Nfsv3.Effects.{Leaves, shared-kept, serve-Runs, serve-SameView}

-- A store with a file in its root, behind one sealed snapshot.
abbrev made : List Op
made = creates reg [] 0 ∷ links (live 1) (codes "a") (live 2) ∷ snapshots (codes "s") ∷ []

abbrev sealed : Store
sealed = run made (open_store empty_db)

sealed-StoreOk : StoreOk sealed
unfolding open_store get_meta find
sealed-StoreOk =
    run-StoreOk made (open_store empty_db) open_store-StoreOk (omega arith) (omega arith)

sealed_counter : sealed.cur ≡ 2
unfolding run snapshot link alloc open_store get_meta find
sealed_counter = refl

-- A provider that generates nothing.
abbrev no_bytes : ProviderRead
no_bytes cp cfg seed size off len out = some (0, out)

abbrev server : Server
server = record {
  host = record { fs = sealed; registry = empty_registry; options = [] };
  cookies = [];
}

-- A call of the NFS program without credentials.
abbrev call : ℕ → Bytes → Bytes
call proc args =
    put_u32 0 (
      put_u32 0 (
        put_u32 0 (
          put_u32 0
            (put_u32 proc (put_u32 3 (put_u32 100003 (put_u32 2 (put_u32 0 (put_u32 7 [])))))))))
    ++ args

-- MKDIR of "d" in the root, with no attribute set.
abbrev mkdir_call : Bytes
mkdir_call = call 9 (
    put_str (codes "d") (put_fh 1 latest [])
    ++ 0 ∷ 0 ∷ 0 ∷ 0 ∷ 0 ∷ 0 ∷ 0 ∷ 0 ∷ 0 ∷ 0 ∷ 0 ∷ 0 ∷ 0 ∷ 0 ∷ 0 ∷ 0 ∷ 0 ∷ 0 ∷ 0 ∷ 0 ∷ 0 ∷ 0 ∷ 0 ∷ 0
      ∷ [])

abbrev calls : List Bytes
calls = mkdir_call ∷ call 0 [] ∷ []

-- The directory is there after the calls.
mkdir_runs :
    lookup (live 1) (codes "d") (serve none no_bytes [] true calls server).host.fs ≡ some (live 3)
unfolding lookup is_snap_dir load_node seek serve run snapshot put_meta link_guard cmp store_node
    put open_store get_meta find be is_node_key rdbe is_version_of deserialize serialize add_link rr
    prev scan_down_links scan has_prefix
mkdir_runs = refl

serve-Runs_example : Runs sealed (serve none no_bytes [] true calls server).host.fs
serve-Runs_example = serve-Runs none no_bytes [] true calls server sealed-StoreOk

root_real : is_snap_dir 1 ≡ false
unfolding is_snap_dir
root_real = refl

serve-SameView_example : SameView 1 1 sealed (serve none no_bytes [] true calls server).host.fs
serve-SameView_example =
    serve-SameView none no_bytes [] true calls server 1 1 sealed-StoreOk
      (omega (arith, sealed_counter)) (omega (arith, sealed_counter)) (omega arith) root_real

abbrev args : Reader
args = record { p = put_fh 1 latest []; pos = 0; ok = true }

shared-kept_example : Leaves sealed (dispatch none no_bytes [] true 100003 3 1 no_cred args server)
unfolding nth_proc
shared-kept_example = shared-kept none no_bytes [] true 100003 3 1 no_cred args server refl

page_dir-Returned_example : Returned 4096 0 128 (page_dir (live 1) 0 4096 0 [] sealed)
page_dir-Returned_example =
    page_dir-Returned (live 1) 0 4096 0 [] sealed (omega (arith, sealed_counter)) (tt, omega arith)

framed_lem_example :
    (rd32 (framed (codes "reply")) % 2 ^ 31 ≡ length (codes "reply"))
    × (2 ^ 31 ≤ rd32 (framed (codes "reply")))
    × (drop 4 (framed (codes "reply")) ≡ codes "reply")
framed_lem_example = framed_lem (codes "reply") (omega arith)

abbrev stream : Bytes
stream = framed (call 0 [])

both_fit : InRange mkdir_call × InRange (call 0 [])
unfolding put_u32 put_str put_fh
both_fit = ((omega arith, omega arith), (omega arith, omega arith))

session-answers_example :
    session none no_bytes [] true 3 (sent calls (0 ∷ 0 ∷ 0 ∷ 23 ∷ [])) server
    ≡ answers none no_bytes [] true calls server
session-answers_example =
    session-answers none no_bytes [] true calls (0 ∷ 0 ∷ 0 ∷ 23 ∷ []) 3 server
      (both_fit.0, (both_fit.1, tt)) (inr (inl (omega arith))) (omega arith)

null_frames :
    (session none no_bytes [] true 60 stream server).frames
    ≡ framed (put_u32 0 (put_u32 0 (put_u32 0 (put_u32 0 (put_u32 1 (put_u32 7 [])))))) ∷ []
unfolding session
null_frames = refl

follow-readdir_example :
    follow (suc (sealed.cur + length sealed.db.down_links)) (live 1) [] 1 sealed
    ≡ past [] (readdir (live 1) sealed)
follow-readdir_example = follow-readdir (live 1) 0 sealed sealed-StoreOk root_real
