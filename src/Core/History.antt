-- ===== src/Core/History.antt =====
-- Snapshots, differences and statistics of `PrfsStore`.
use prfs.Prelude.{
  ℕ, zero, suc, ◌+◌, ◌%◌, List, [], ◌∷◌, ◌++◌, drop, ◌==◌, leb, Bool, false, ◌&&◌, ◌||◌, not,
  Option, none, some, if◌then◌else◌, codes, length,
}
use prfs.Bytes.{Bytes, u64, be, rdbe, cmp, is_eq}
use prfs.Kv.{find, put}
use prfs.Core.Record.{NodeRec, reg, type_code}
use prfs.Core.Tables.{
  Db, load_node, or_empty, Link, scan_down_links, is_dir, put_meta, has_name, link_set,
  each_eff_node, candidates,
}
use prfs.Core.Store.{Store, rr}

unfoldable pub snapshot : Bytes → Store → ℕ × Store
snapshot label s =
    let v = s.cur in
    let cur = (v + 1) % u64 in
    let db = put_meta (codes "cur_snap") cur s.db in
    (
      v,
      record s { cur = cur; db = record db { snaps = put (be v) (be s.clock ++ label) db.snaps } },
    )

pub record SnapInfo : Type 0 where
  pub id : ℕ
  pub ctime : ℕ
  pub label : Bytes

unfoldable pub snap_info : ℕ → Store → SnapInfo
snap_info g s = elim (find (be g) s.db.snaps) [
  | none ↦ record { id = g; ctime = 0; label = [] }
  | some v ↦
      if leb 8 (length v)
      then record { id = g; ctime = rdbe v; label = drop 8 v }
      else record { id = g; ctime = 0; label = [] }
]

pub data NodeChange : Type 0 where
  created removed modified_content modified_attrs : NodeChange

unfoldable pub bytes_eq : Bytes → Bytes → Bool
bytes_eq a b = is_eq (cmp a b)

-- `loadNode(...) && nlink > 0`
abbrev pub alive : Option NodeRec → Bool
alive none = false
alive (some r) = not (r.nlink == 0)

unfoldable pub compare_nodes : NodeRec → NodeRec → Option NodeChange
unfolding bytes_eq
compare_nodes va vb =
    if not (bytes_eq va.blob vb.blob) || not (va.spec == vb.spec) || not (va.size == vb.size)
    then some modified_content
    else if not (va.mode == vb.mode)
        || not (va.uid == vb.uid)
        || not (va.gid == vb.gid)
        || not (va.mtime == vb.mtime)
    then some modified_attrs
    else none

unfoldable pub node_change : Option NodeRec → Option NodeRec → Option NodeChange
unfolding compare_nodes
node_change va vb =
    if not (alive va) && not (alive vb)
    then none
    else if not (alive va)
    then some created
    else if not (alive vb)
    then some removed
    else compare_nodes (or_empty va) (or_empty vb)

abbrev pub with_id : ℕ → Option NodeChange → List (ℕ × NodeChange) → List (ℕ × NodeChange)
with_id id none out = out
with_id id (some c) out = (id, c) ∷ out

unfoldable pub diff_loop : Db → ℕ → ℕ → List ℕ → List (ℕ × NodeChange)
unfolding node_change
diff_loop db ra rb [] = []
diff_loop db ra rb (id ∷ ids) =
    with_id id (node_change (load_node db id ra) (load_node db id rb)) (diff_loop db ra rb ids)

unfoldable pub diff_nodes : ℕ → ℕ → Store → List (ℕ × NodeChange)
unfolding diff_loop
diff_nodes a b s = diff_loop s.db (rr s a) (rr s b) (candidates s.db (rr s a) (rr s b))

pub data PathChange : Type 0 where
  added removed : PathChange

pub record PathDiff : Type 0 where
  pub change : PathChange
  pub parent : ℕ
  pub name : Bytes
  pub child : ℕ

-- The links of the second list whose names the first lacks.
unfoldable pub missing : PathChange → ℕ → List Link → List Link → List PathDiff
missing change parent sa [] = []
missing change parent sa ((name, child) ∷ sb) =
    let rest = missing change parent sa sb in
    if has_name name sa
    then rest
    else record { change = change; parent = parent; name = name; child = child } ∷ rest

unfoldable pub diff_paths_loop : Db → ℕ → ℕ → List ℕ → List PathDiff
unfolding missing
diff_paths_loop db ra rb [] = []
diff_paths_loop db ra rb (d ∷ ds) =
    let sa = link_set db d ra in
    let sb = link_set db d rb in
    missing PathChange.added d sa sb
    ++ (missing PathChange.removed d sb sa ++ diff_paths_loop db ra rb ds)

unfoldable pub diff_paths : ℕ → ℕ → Store → List PathDiff
unfolding diff_paths_loop
diff_paths a b s = diff_paths_loop s.db (rr s a) (rr s b) (candidates s.db (rr s a) (rr s b))

pub record Stats : Type 0 where
  pub nodes : List ℕ
  pub links : ℕ
  pub total_size : ℕ

-- `s.nodes[t]++` of a `uint64_t[7]`
unfoldable pub count_type : ℕ → List ℕ → List ℕ
count_type t [] = []
count_type zero (n ∷ ns) = ((n + 1) % u64) ∷ ns
count_type (suc t) (n ∷ ns) = n ∷ count_type t ns

abbrev pub no_stats : Stats
no_stats = record { nodes = 0 ∷ 0 ∷ 0 ∷ 0 ∷ 0 ∷ 0 ∷ 0 ∷ []; links = 0; total_size = 0 }

unfoldable pub count_nodes : List (ℕ × NodeRec) → Stats → Stats
unfolding count_type
count_nodes [] s = s
count_nodes ((id, n) ∷ ns) s = count_nodes ns (
    if n.nlink == 0 then s else record s {
      nodes = count_type n.type s.nodes;
      total_size = if n.type == type_code reg then (s.total_size + n.size) % u64 else s.total_size;
    })

unfoldable pub count_links : Db → List (ℕ × NodeRec) → Stats → Stats
count_links db [] s = s
count_links db ((id, n) ∷ ns) s = count_links db ns (
    if is_dir n
    then record s { links = (s.links + length (scan_down_links db id n.dn_link_ver)) % u64 }
    else s)

unfoldable pub stats : ℕ → Store → Stats
unfolding count_nodes count_links
stats g s =
    let effective = each_eff_node s.db (rr s g) in
    count_links s.db effective (count_nodes effective no_stats)
