-- ===== src/Mem/Ops.antt =====
-- `MemStore`: the constructor, creation, `lookup`, `link`, `unlink` and `move`.
use prfs.Prelude.{
  ℕ, zero, suc, ◌+◌, ◌-◌, ◌%◌, List, [], ◌∷◌, ◌++◌, ◌==◌, ltb, leb, Bool, true, false, ◌&&◌, ◌||◌,
  not, Option, none, some, if◌then◌else◌, length, change_in, nat_order,
}
use prfs.Bytes.{Bytes, u32, u64, cmp, is_eq}
use prfs.Core.Record.{
  FileType, reg, dir, lnk, fifo, sock, type_code, default_mode, Error, ok, noent, exist, notdir,
  inval,
}
use prfs.Core.Links.{snapshot_name, seen_before, or_false}
use prfs.Core.Store.{
  Handle, latest, is_snap_dir, snap_base, snap_dir_of, parse_snap, rdev_spec, rising,
}
use prfs.Mem.{
  empty_attr, NodeVer, LinkIv, link_key_order, MemStore, resolve, eff_r, eff, eff_attr, live_ver,
  touch, is_live_at, link_live_at, put_name, names_of,
}

-- `m_nodes[id].push_back(v)`
abbrev pub push_ver : ℕ → NodeVer → MemStore → MemStore
push_ver id v s = record s { nodes = change_in id [] (λ vs. vs ++ v ∷ []) s.nodes }

unfoldable pub new_store : MemStore
unfolding touch
new_store =
    let a = record empty_attr { type = dir; mode = 0o755; nlink = 1 } in
    touch 1 (
      push_ver 1 (record { snap = 1; a = a; blob = [] })
        (record {
          nodes = [];
          links = [];
          names = [];
          changes = [];
          snaps = [];
          content_config = [];
          next = 2;
          cur = 1;
          root = 1;
          clock = 0;
        }))

abbrev pub set_content_config : Bytes → MemStore → MemStore
set_content_config blob s = record s { content_config = blob }

abbrev pub set_time : ℕ → MemStore → MemStore
set_time t s = record s { clock = t }

abbrev pub rw_root : MemStore → Handle
rw_root s = record { id = s.root; snap = latest }

abbrev pub snapshot_root : ℕ → MemStore → Handle
snapshot_root n s = record { id = s.root; snap = n }

abbrev pub is_found : Option NodeVer → Bool
is_found none = false
is_found (some v) = true

unfoldable pub node_by_id : ℕ → ℕ → MemStore → Option Handle
unfolding eff_r resolve
node_by_id id snap s =
    let base = if is_snap_dir id then snap_base id else id in
    if is_found (eff_r s base (resolve s snap))
    then some (record { id = id; snap = snap })
    else none

unfoldable pub snapshots : MemStore → List ℕ
snapshots s = rising (s.cur - 1) 1

unfoldable pub alloc : FileType → Bytes → ℕ → MemStore → Handle × MemStore
unfolding touch
alloc t blob spec s =
    let id = s.next in
    let a = record empty_attr {
      type = t;
      mode = default_mode t;
      spec = spec;
      atime = s.clock;
      mtime = s.clock;
      ctime = s.clock;
    } in
    let v : NodeVer = record { snap = s.cur; a = a; blob = blob } in
    (
      record { id = id; snap = latest },
      touch id (push_ver id v (record s { next = (id + 1) % u64 })),
    )

unfoldable pub mkdir : MemStore → Handle × MemStore
unfolding alloc
mkdir = alloc dir [] 0

unfoldable pub mkfile : Bytes → MemStore → Handle × MemStore
unfolding alloc
mkfile c = alloc reg c 0

unfoldable pub symlink : Bytes → MemStore → Handle × MemStore
unfolding alloc
symlink t = alloc lnk t 0

unfoldable pub mkfifo : MemStore → Handle × MemStore
unfolding alloc
mkfifo = alloc fifo [] 0

unfoldable pub mksock : MemStore → Handle × MemStore
unfolding alloc
mksock = alloc sock [] 0

unfoldable pub mknod : FileType → ℕ → ℕ → MemStore → Handle × MemStore
unfolding alloc
mknod t maj min = alloc t [] (rdev_spec maj min)

unfoldable pub lookup_snap_dir : ℕ → Bytes → MemStore → Option Handle
unfolding eff_r
lookup_snap_dir base name s = elim (parse_snap name) [
  | none ↦ none
  | some n ↦
      if ltb n 1 || leb s.cur n || not (is_found (eff_r s base n))
      then none
      else some (record { id = base; snap = n })
]

abbrev pub to_handle : ℕ → Option ℕ → Option Handle
to_handle snap none = none
to_handle snap (some child) = some (record { id = child; snap = snap })

abbrev pub is_type : FileType → Handle → MemStore → Bool
is_type t h s = type_code (eff_attr s h.id h.snap).type == type_code t

unfoldable pub lookup : Handle → Bytes → MemStore → Option Handle
unfolding lookup_snap_dir link_live_at eff_attr
lookup d name s =
    if is_snap_dir d.id
    then lookup_snap_dir (snap_base d.id) name s
    else if is_eq (cmp name snapshot_name) && d.snap == latest && is_type dir d s
    then some (record { id = snap_dir_of d.id; snap = latest })
    else to_handle d.snap (link_live_at s (d.id, name) d.snap)

abbrev pub is_dir_ver : Option NodeVer → Bool
is_dir_ver none = false
is_dir_ver (some v) = type_code v.a.type == type_code dir

abbrev pub push_child : MemStore → Option ℕ → List ℕ → List ℕ
push_child s none st = st
push_child s (some child) st = if is_dir_ver (eff s child latest) then child ∷ st else st

unfoldable pub push_children : MemStore → ℕ → List Bytes → List ℕ → List ℕ
unfolding eff link_live_at
push_children s n [] st = st
push_children s n (name ∷ names) st =
    push_children s n names (push_child s (link_live_at s (n, name) latest) st)

-- The search of `reachable`, with the stack and the nodes seen, on fuel.
unfoldable pub reach_loop : MemStore → ℕ → ℕ → List ℕ → List ℕ → Option Bool
unfolding push_children seen_before
reach_loop s to zero st seen = none
reach_loop s to (suc fuel) [] seen = some false
reach_loop s to (suc fuel) (n ∷ st) seen =
    let skip = reach_loop s to fuel st seen in
    let rest = reach_loop s to fuel (push_children s n (names_of s n) st) (n ∷ seen) in
    if n == to then some true else if seen_before n seen then skip else rest

unfoldable pub count_names : List (ℕ × List Bytes) → ℕ
count_names [] = 0
count_names ((d, ns) ∷ m) = length ns + count_names m

unfoldable pub reachable : MemStore → ℕ → ℕ → Bool
unfolding reach_loop count_names
reachable s from to = or_false (reach_loop s to (count_names s.names + 2) (from ∷ []) [])

unfoldable pub link_guard : Handle → Bytes → Handle → MemStore → Error
unfolding reachable link_live_at eff_attr
link_guard d name child s =
    if is_eq (cmp name snapshot_name)
    then inval
    else if not (is_type dir d s)
    then notdir
    else if is_type dir child s && reachable s child.id d.id
    then inval
    else elim (link_live_at s (d.id, name) latest) [ none ↦ ok | some dummy ↦ exist ]

abbrev pub inc_nlink : NodeVer → NodeVer
inc_nlink v = let a = v.a in record v { a = record a { nlink = (a.nlink + 1) % u32 } }

abbrev pub dec_nlink : NodeVer → NodeVer
dec_nlink v = let a = v.a in record v { a = record a { nlink = (a.nlink + (u32 - 1)) % u32 } }

unfoldable pub add_link : ℕ → Bytes → ℕ → MemStore → MemStore
unfolding live_ver touch put_name
add_link d name child s =
    let iv : LinkIv = record { born = s.cur; dead = 0; child = child } in
    let linked = record s {
      links = change_in (d, name) [] (λ ivs. ivs ++ iv ∷ []) s.links;
      names = change_in d [] (put_name name) s.names;
    } in
    touch child (touch d (live_ver child inc_nlink linked))

unfoldable pub link : Handle → Bytes → Handle → MemStore → Error × MemStore
unfolding link_guard add_link
link d name child s = elim (link_guard d name child s) [
  | ok ↦ (ok, add_link d.id name child.id s)
  | e ↦ (e, s)
]

-- What `unlink` does to the first live interval: it is erased, or ends.
unfoldable pub end_iv : ℕ → List LinkIv → List LinkIv
unfolding is_live_at
end_iv cur [] = []
end_iv cur (iv ∷ ivs) =
    let rest = end_iv cur ivs in
    if is_live_at iv cur
    then if iv.born == cur then ivs else record iv { dead = cur } ∷ ivs
    else iv ∷ rest

unfoldable pub remove_link : ℕ → Bytes → ℕ → MemStore → MemStore
unfolding live_ver touch end_iv
remove_link d name child s =
    let unlinked = record s { links = change_in (d, name) [] (end_iv s.cur) s.links } in
    touch child (touch d (live_ver child dec_nlink unlinked))

unfoldable pub unlink : Handle → Bytes → MemStore → Error × MemStore
unfolding remove_link link_live_at
unlink d name s = elim (link_live_at s (d.id, name) latest) [
  | none ↦ (noent, s)
  | some child ↦ (ok, remove_link d.id name child s)
]

-- The second half of `move`, past `link`.
unfoldable pub unlink_after : Handle → Bytes → Error × MemStore → Error × MemStore
unfolding unlink
unlink_after sdir sn (ok, s) = unlink sdir sn s
unlink_after sdir sn (e, s) = (e, s)

unfoldable pub move : Handle → Bytes → Handle → Bytes → MemStore → Error × MemStore
unfolding link unlink_after
move sdir sn ddir dn s = elim (link_live_at s (sdir.id, sn) latest) [
  | none ↦ (noent, s)
  | some child ↦ unlink_after sdir sn (link ddir dn (record { id = child; snap = latest }) s)
]
