-- ===== src/Core/Links.antt =====
-- The namespace transactions of `PrfsStore`: copy-on-write link sets, `reachable`, `linkT`,
-- `unlinkT`, and the guarded writes of one record.
use prfs.Prelude.{
  ℕ, zero, suc, ◌+◌, ◌-◌, ◌%◌, List, [], ◌∷◌, ◌++◌, drop, ◌==◌, Bool, true, false, ◌&&◌, ◌||◌, not,
  Option, none, some, if◌then◌else◌, codes, length, map,
}
use prfs.Bytes.{Bytes, u32, be, rdbe, cmp, is_eq}
use prfs.Kv.{Entry, find, put, del}
use prfs.Kv.Prefix.{scan}
use prfs.Core.Record.{NodeRec, Error, ok, noent, exist, notdir, inval}
use prfs.Core.Tables.{Db, load_node, or_empty, store_node, Link, scan_down_links, is_dir}

abbrev pub snapshot_name : Bytes
snapshot_name = codes ".snapshot"

-- `be(dir) + be(dv) + name`
abbrev pub down_key : ℕ → ℕ → Bytes → Bytes
down_key dir_id dv name = be dir_id ++ (be dv ++ name)

-- `be(child) + be(uv) + be(dir) + name`
abbrev pub up_key : ℕ → ℕ → ℕ → Bytes → Bytes
up_key child uv dir_id name = be child ++ (be uv ++ (be dir_id ++ name))

unfoldable pub copy_down : ℕ → ℕ → List Link → Db → Db
copy_down dir_id cur [] db = db
copy_down dir_id cur ((name, child) ∷ copies) db =
    copy_down dir_id cur copies
      (record db { down_links = put (down_key dir_id cur name) (be child) db.down_links })

-- The version in which the link set may be written is `cur` on both paths: the result is the store.
unfoldable pub ensure_writable_dn_links : ℕ → ℕ → Db → Db
unfolding copy_down
ensure_writable_dn_links cur dir_id db =
    let r = or_empty (load_node db dir_id cur) in
    if r.dn_link_ver == cur
    then db
    else store_node dir_id cur (record r { dn_link_ver = cur })
        (copy_down dir_id cur (scan_down_links db dir_id r.dn_link_ver) db)

abbrev pub suffix : Entry → Bytes
suffix (k, v) = drop 16 k

unfoldable pub copy_up : ℕ → ℕ → List Bytes → Db → Db
copy_up node cur [] db = db
copy_up node cur (suffix ∷ copies) db =
    copy_up node cur copies
      (record db { up_links = put (be node ++ (be cur ++ suffix)) [] db.up_links })

unfoldable pub ensure_writable_up_links : ℕ → ℕ → Db → Db
unfolding copy_up
ensure_writable_up_links cur node db =
    let r = or_empty (load_node db node cur) in
    if r.up_link_ver == cur
    then db
    else store_node node cur (record r { up_link_ver = cur })
        (copy_up node cur (map suffix (scan (be node ++ be r.up_link_ver) db.up_links)) db)

unfoldable pub seen_before : ℕ → List ℕ → Bool
seen_before n [] = false
seen_before n (x ∷ seen) = n == x || seen_before n seen

unfoldable pub is_dir_at : Db → ℕ → ℕ → Bool
is_dir_at db cur id = elim (load_node db id cur) [ none ↦ false | some r ↦ is_dir r ]

-- The top of the stack is the head of the list.
unfoldable pub push_dirs : Db → ℕ → List Link → List ℕ → List ℕ
unfolding is_dir_at
push_dirs db cur [] st = st
push_dirs db cur ((name, child) ∷ ls) st =
    push_dirs db cur ls (if is_dir_at db cur child then child ∷ st else st)

-- What the loop pushes for a node that it has not seen.
unfoldable pub visit : Db → ℕ → ℕ → List ℕ → List ℕ
unfolding push_dirs
visit db cur n st = elim (load_node db n cur) [
  | none ↦ st
  | some r ↦ if is_dir r then push_dirs db cur (scan_down_links db n r.dn_link_ver) st else st
]

-- The loop of `reachable` on fuel; `none` means that the fuel ran out.
unfoldable pub reach_loop : Db → ℕ → ℕ → ℕ → List ℕ → List ℕ → Option Bool
unfolding visit seen_before
reach_loop db cur to zero st seen = none
reach_loop db cur to (suc fuel) [] seen = some false
reach_loop db cur to (suc fuel) (n ∷ st) seen = elim (n == to) [
  | true ↦ some true
  | false ↦ elim (seen_before n seen) [
    | true ↦ reach_loop db cur to fuel st seen
    | false ↦ reach_loop db cur to fuel (visit db cur n st) (n ∷ seen)
  ]
]

abbrev pub or_false : Option Bool → Bool
or_false none = false
or_false (some b) = b

-- Each entry of the link table is pushed once at most.
unfoldable pub reachable : Db → ℕ → ℕ → ℕ → Bool
unfolding reach_loop
reachable db cur from to = or_false (reach_loop db cur to (length db.down_links + 2) (from ∷ []) [])

-- The writes of `linkT`, past its guards.
unfoldable pub add_link : ℕ → ℕ → Bytes → ℕ → Db → Db
unfolding ensure_writable_dn_links ensure_writable_up_links
add_link cur dir_id name child db =
    let db1 = ensure_writable_dn_links cur dir_id db in
    let db2 = ensure_writable_up_links cur child db1 in
    let db3 = record db2 {
      down_links = put (down_key dir_id cur name) (be child) db2.down_links;
      up_links = put (up_key child cur dir_id name) [] db2.up_links;
    } in
    let cr = or_empty (load_node db3 child cur) in
    store_node child cur (record cr { nlink = (cr.nlink + 1) % u32 }) db3

-- The guards of `linkT`, in their order.
unfoldable pub link_guard : ℕ → ℕ → Bytes → ℕ → Db → Error
unfolding reachable
link_guard cur dir_id name child db =
    if is_eq (cmp name snapshot_name) then inval else elim (load_node db dir_id cur) [
      | none ↦ noent
      | some dr ↦ if not (is_dir dr) then notdir else elim (load_node db child cur) [
        | none ↦ noent
        | some cr ↦
            if is_dir cr && reachable db cur child dir_id
            then inval
            else elim (find (down_key dir_id dr.dn_link_ver name) db.down_links) [
              | some _ ↦ exist
              | none ↦ ok
            ]
      ]
    ]

unfoldable pub link_t : ℕ → ℕ → Bytes → ℕ → Db → Error × Db
link_t cur dir_id name child db = elim (link_guard cur dir_id name child db) [
  | ok ↦ (ok, add_link cur dir_id name child db)
  | e ↦ (e, db)
]

-- The writes of `unlinkT`, past its guards.
unfoldable pub remove_link : ℕ → ℕ → Bytes → ℕ → Db → Db
unfolding ensure_writable_dn_links ensure_writable_up_links
remove_link cur dir_id name cid db =
    let db1 = ensure_writable_dn_links cur dir_id db in
    let db2 = ensure_writable_up_links cur cid db1 in
    let db3 = record db2 {
      down_links = del (down_key dir_id cur name) db2.down_links;
      up_links = del (up_key cid cur dir_id name) db2.up_links;
    } in
    let cr = or_empty (load_node db3 cid cur) in
    store_node cid cur (record cr { nlink = cr.nlink - 1 }) db3

abbrev pub to_child : Option Bytes → Option ℕ
to_child none = none
to_child (some v) = some (rdbe v)

unfoldable pub child_in : ℕ → Bytes → Db → Option NodeRec → Option ℕ
child_in dir_id name db none = none
child_in dir_id name db (some dr) =
    to_child (find (down_key dir_id dr.dn_link_ver name) db.down_links)

-- The child behind a name of a live directory.
unfoldable pub child_of : ℕ → ℕ → Bytes → Db → Option ℕ
unfolding child_in
child_of cur dir_id name db = child_in dir_id name db (load_node db dir_id cur)

unfoldable pub unlink_t : ℕ → ℕ → Bytes → Db → Error × Db
unlink_t cur dir_id name db = elim (child_of cur dir_id name db) [
  | none ↦ (noent, db)
  | some cid ↦ (ok, remove_link cur dir_id name cid db)
]
