-- ===== src/Mem/History.antt =====
-- Snapshots, differences and statistics of `MemStore`.
use prfs.Prelude.{
  ℕ, ◌+◌, ◌%◌, List, [], ◌∷◌, ◌++◌, ◌==◌, ltb, leb, Bool, false, ◌&&◌, ◌||◌, not, Option, none,
  some, if◌then◌else◌, find_in, change_in, nat_order,
}
use prfs.Bytes.{Bytes, u64}
use prfs.Core.Record.{reg, type_code}
use prfs.Core.Tables.{put_id}
use prfs.Core.History.{
  SnapInfo, NodeChange, created, removed, modified_content, modified_attrs, PathChange, PathDiff,
  Stats, no_stats, count_type, with_id, bytes_eq,
}
use prfs.Mem.{NodeVer, LinkIv, LinkKey, MemStore, resolve, eff_r, is_live_at, live_at_r}

unfoldable pub snapshot : Bytes → MemStore → ℕ × MemStore
snapshot label s =
    let v = s.cur in
    let info : SnapInfo = record { id = v; ctime = s.clock; label = label } in
    (v, record s { cur = (v + 1) % u64; snaps = change_in v info (λ old. info) s.snaps })

unfoldable pub snap_info : ℕ → MemStore → SnapInfo
snap_info g s = elim (find_in g s.snaps) [
  | none ↦ record { id = g; ctime = 0; label = [] }
  | some info ↦ info
]

-- `cand.insert(ids.begin(), ids.end())`
unfoldable pub put_ids : List ℕ → List ℕ → List ℕ
unfolding put_id
put_ids [] out = out
put_ids (id ∷ ids) out = put_ids ids (put_id id out)

unfoldable pub candidates_loop : ℕ → ℕ → List (ℕ × List ℕ) → List ℕ → List ℕ
unfolding put_ids
candidates_loop ra rb [] out = out
candidates_loop ra rb ((n, ids) ∷ changes) out =
    candidates_loop ra rb changes (if ltb ra n && leb n rb then put_ids ids out else out)

-- `v && v->a.nlink > 0`
abbrev pub alive : Option NodeVer → Bool
alive none = false
alive (some v) = let a = v.a in not (a.nlink == 0)

unfoldable pub compare_vers : NodeVer → NodeVer → Option NodeChange
unfolding bytes_eq
compare_vers va vb =
    let x = va.a in
    let y = vb.a in
    if not (bytes_eq va.blob vb.blob) || not (x.spec == y.spec) || not (x.size == y.size)
    then some modified_content
    else if not (x.mode == y.mode)
        || not (x.uid == y.uid)
        || not (x.gid == y.gid)
        || not (x.mtime == y.mtime)
    then some modified_attrs
    else none

abbrev pub compare_found : Option NodeVer → Option NodeVer → Option NodeChange
compare_found (some va) (some vb) = compare_vers va vb
compare_found va vb = none

unfoldable pub node_change : Option NodeVer → Option NodeVer → Option NodeChange
unfolding compare_vers
node_change va vb =
    if not (alive va) && not (alive vb)
    then none
    else if not (alive va)
    then some created
    else if not (alive vb)
    then some removed
    else compare_found va vb

unfoldable pub diff_loop : MemStore → ℕ → ℕ → List ℕ → List (ℕ × NodeChange)
unfolding node_change eff_r
diff_loop s ra rb [] = []
diff_loop s ra rb (id ∷ ids) =
    with_id id (node_change (eff_r s id ra) (eff_r s id rb)) (diff_loop s ra rb ids)

unfoldable pub diff_nodes : ℕ → ℕ → MemStore → List (ℕ × NodeChange)
unfolding diff_loop candidates_loop resolve
diff_nodes a b s =
    let ra = resolve s a in
    let rb = resolve s b in diff_loop s ra rb (candidates_loop ra rb s.changes [])

abbrev pub path_diff : PathChange → LinkKey → ℕ → PathDiff
path_diff change k child = record { change = change; parent = k.0; name = k.1; child = child }

unfoldable pub path_change : LinkKey → Option ℕ → Option ℕ → List PathDiff
path_change k none none = []
path_change k none (some cb) = path_diff PathChange.added k cb ∷ []
path_change k (some ca) none = path_diff PathChange.removed k ca ∷ []
path_change k (some ca) (some cb) =
    if ca == cb
    then []
    else path_diff PathChange.removed k ca ∷ path_diff PathChange.added k cb ∷ []

unfoldable pub diff_paths_loop : ℕ → ℕ → List (LinkKey × List LinkIv) → List PathDiff
unfolding path_change live_at_r
diff_paths_loop ra rb [] = []
diff_paths_loop ra rb ((k, ivs) ∷ links) =
    path_change k (live_at_r ivs ra) (live_at_r ivs rb) ++ diff_paths_loop ra rb links

unfoldable pub diff_paths : ℕ → ℕ → MemStore → List PathDiff
unfolding diff_paths_loop resolve
diff_paths a b s = diff_paths_loop (resolve s a) (resolve s b) s.links

unfoldable pub count_node : Option NodeVer → Stats → Stats
unfolding count_type
count_node none t = t
count_node (some v) t =
    let a = v.a in
    if a.nlink == 0 then t else record t {
      nodes = count_type (type_code a.type) t.nodes;
      total_size =
          if type_code a.type == type_code reg then (t.total_size + a.size) % u64 else t.total_size;
    }

unfoldable pub count_nodes : MemStore → ℕ → List (ℕ × List NodeVer) → Stats → Stats
unfolding count_node eff_r
count_nodes s rg [] t = t
count_nodes s rg ((id, vers) ∷ nodes) t = count_nodes s rg nodes (count_node (eff_r s id rg) t)

unfoldable pub count_ivs : ℕ → List LinkIv → Stats → Stats
unfolding is_live_at
count_ivs rg [] t = t
count_ivs rg (iv ∷ ivs) t =
    count_ivs rg ivs (if is_live_at iv rg then record t { links = (t.links + 1) % u64 } else t)

unfoldable pub count_links : ℕ → List (LinkKey × List LinkIv) → Stats → Stats
unfolding count_ivs
count_links rg [] t = t
count_links rg ((k, ivs) ∷ links) t = count_links rg links (count_ivs rg ivs t)

unfoldable pub stats : ℕ → MemStore → Stats
unfolding count_nodes count_links resolve
stats g s = let rg = resolve s g in count_links rg s.links (count_nodes s rg s.nodes no_stats)
