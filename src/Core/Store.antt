-- ===== src/Core/Store.antt =====
-- `PrfsStore`: its state and the operations of `IPrfs`. A `Node` is a handle, and a null one is
-- `none`. The engine is the memory engine, to which writes apply directly.
use prfs.Prelude.{
  ℕ, zero, suc, ◌+◌, ◌-◌, ◌*◌, ◌/◌, ◌%◌, ◌^◌, List, [], ◌∷◌, ◌==◌, ltb, leb, Bool, true, false,
  ◌&&◌, ◌||◌, not, Option, none, some, if◌then◌else◌, codes,
}
use prfs.Bytes.{Bytes, u32, u64, rdbe, cmp, is_eq}
use prfs.Kv.{find, put}
use prfs.Core.Record.{
  NodeRec, empty_rec, FileType, reg, dir, lnk, fifo, sock, type_code, default_mode, Error, ok,
  noent,
}
use prfs.Core.Tables.{Db, load_node, store_node, is_dir, get_meta, put_meta}
use prfs.Core.Links.{snapshot_name, down_key, child_of, link_t, unlink_t}

pub record Store : Type 0 where
  pub db : Db
  pub next : ℕ
  pub cur : ℕ
  pub root : ℕ
  pub clock : ℕ

pub record Handle : Type 0 where
  pub id : ℕ
  pub snap : ℕ

abbrev pub latest : ℕ
latest = u64 - 1

abbrev pub snap_bit : ℕ
snap_bit = 2 ^ 63

-- `(id & SNAP_BIT) != 0`, `id & ~SNAP_BIT` and `id | SNAP_BIT` of a `uint64_t`
unfoldable pub is_snap_dir : ℕ → Bool
is_snap_dir id = id / snap_bit % 2 == 1

unfoldable pub snap_base : ℕ → ℕ
snap_base id = id % snap_bit

unfoldable pub snap_dir_of : ℕ → ℕ
snap_dir_of id = id % snap_bit + snap_bit

-- `rr`: a view resolves to the snapshot at which it reads.
unfoldable pub rr : Store → ℕ → ℕ
rr s g = if g == latest then s.cur else g

or_else : Option ℕ → ℕ → ℕ
or_else none x = x
or_else (some y) x = y

-- The constructor: the members' initialisers, then what the engine holds.
unfoldable pub open_store : Db → Store
unfolding or_else
open_store kv = elim (get_meta (codes "root") kv) [
  | some root ↦ record {
    db = kv;
    next = or_else (get_meta (codes "next_node") kv) 1;
    cur = or_else (get_meta (codes "cur_snap") kv) 1;
    root = root;
    clock = or_else (get_meta (codes "clock") kv) 0;
  }
  | none ↦
      let r = record empty_rec {
        type = type_code dir;
        mode = 0o755;
        nlink = 1;
        dn_link_ver = 1;
        up_link_ver = 1;
      } in
      record {
        db = put_meta (codes "clock") 0 (
            put_meta (codes "cur_snap") 1
              (put_meta (codes "next_node") 2 (put_meta (codes "root") 1 (store_node 1 1 r kv))));
        next = 2;
        cur = 1;
        root = 1;
        clock = 0;
      }
]

unfoldable pub content_config : Store → Bytes
content_config s = elim (find (codes "content_config") s.db.meta) [ none ↦ [] | some v ↦ v ]

unfoldable pub set_content_config : Bytes → Store → Store
set_content_config blob s =
    let db = s.db in
    record s { db = record db { meta = put (codes "content_config") blob db.meta } }

unfoldable pub set_time : ℕ → Store → Store
set_time t s = record s { clock = t; db = put_meta (codes "clock") t s.db }

abbrev pub rw_root : Store → Handle
rw_root s = record { id = s.root; snap = latest }

abbrev pub snapshot_root : ℕ → Store → Handle
snapshot_root n s = record { id = s.root; snap = n }

abbrev pub is_some : Option NodeRec → Bool
is_some none = false
is_some (some _) = true

unfoldable pub existed_at : Db → ℕ → ℕ → Bool
existed_at db id n = is_some (load_node db id n)

unfoldable pub node_by_id : ℕ → ℕ → Store → Option Handle
unfolding existed_at
node_by_id id snap s =
    let base = if is_snap_dir id then snap_base id else id in
    if existed_at s.db base (rr s snap) then some (record { id = id; snap = snap }) else none

-- `for (SnapId s = 1; s < m_cur; ++s)`, with `left` rounds to go
unfoldable pub rising : ℕ → ℕ → List ℕ
rising zero n = []
rising (suc left) n = n ∷ rising left (n + 1)

unfoldable pub snapshots : Store → List ℕ
unfolding rising
snapshots s = rising (s.cur - 1) 1

-- `m_next++` wraps as a `uint64_t` does.
unfoldable pub alloc : FileType → Bytes → ℕ → Store → Handle × Store
alloc type blob spec s =
    let id = s.next in
    let next = (id + 1) % u64 in
    let r = record empty_rec {
      type = type_code type;
      mode = default_mode type;
      spec = spec;
      blob = blob;
      dn_link_ver = s.cur;
      up_link_ver = s.cur;
      atime = s.clock;
      mtime = s.clock;
      ctime = s.clock;
    } in
    (
      record { id = id; snap = latest },
      record s { next = next; db = store_node id s.cur r (put_meta (codes "next_node") next s.db) },
    )

-- `(uint64_t(maj) << 32) | min` of two `uint32_t`
abbrev pub rdev_spec : ℕ → ℕ → ℕ
rdev_spec maj min = maj * u32 + min

unfoldable pub mkdir : Store → Handle × Store
unfolding alloc
mkdir = alloc dir [] 0

unfoldable pub mkfile : Bytes → Store → Handle × Store
unfolding alloc
mkfile c = alloc reg c 0

unfoldable pub symlink : Bytes → Store → Handle × Store
unfolding alloc
symlink t = alloc lnk t 0

unfoldable pub mkfifo : Store → Handle × Store
unfolding alloc
mkfifo = alloc fifo [] 0

unfoldable pub mksock : Store → Handle × Store
unfolding alloc
mksock = alloc sock [] 0

unfoldable pub mknod : FileType → ℕ → ℕ → Store → Handle × Store
unfolding alloc
mknod t maj min = alloc t [] (rdev_spec maj min)

-- `parseSnap`: the value wraps, and other bytes than digits are refused.
unfoldable pub parse_loop : Bytes → ℕ → Option ℕ
parse_loop [] v = some v
parse_loop (c ∷ s) v =
    let rest = parse_loop s ((v * 10 + (c - b'0')) % u64) in
    if ltb c b'0' || ltb b'9' c then none else rest

unfoldable pub parse_snap : Bytes → Option ℕ
unfolding parse_loop
parse_snap [] = none
parse_snap (c ∷ s) = parse_loop (c ∷ s) 0

unfoldable pub lookup_snap_dir : ℕ → Bytes → Store → Option Handle
unfolding parse_snap existed_at
lookup_snap_dir base name s = elim (parse_snap name) [
  | none ↦ none
  | some n ↦
      if ltb n 1 || leb s.cur n || not (existed_at s.db base n)
      then none
      else some (record { id = base; snap = n })
]

abbrev pub to_handle : ℕ → Option Bytes → Option Handle
to_handle snap none = none
to_handle snap (some child) = some (record { id = rdbe child; snap = snap })

-- The rest of `lookup`, past `loadNode`.
unfoldable pub lookup_at : Handle → Bytes → Db → Option NodeRec → Option Handle
lookup_at d name db none = none
lookup_at d name db (some dr) =
    if is_eq (cmp name snapshot_name) && d.snap == latest && is_dir dr
    then some (record { id = snap_dir_of d.id; snap = latest })
    else to_handle d.snap (find (down_key d.id dr.dn_link_ver name) db.down_links)

unfoldable pub lookup_dir : Handle → Bytes → Store → Option Handle
unfolding lookup_at
lookup_dir d name s = lookup_at d name s.db (load_node s.db d.id (rr s d.snap))

unfoldable pub lookup : Handle → Bytes → Store → Option Handle
unfolding lookup_snap_dir lookup_dir
lookup d name s =
    if is_snap_dir d.id then lookup_snap_dir (snap_base d.id) name s else lookup_dir d name s

unfoldable pub link : Handle → Bytes → Handle → Store → Error × Store
unfolding link_t
link d name child s =
    let (e, db) = link_t s.cur d.id name child.id s.db in (e, record s { db = db })

unfoldable pub unlink : Handle → Bytes → Store → Error × Store
unfolding unlink_t
unlink d name s = let (e, db) = unlink_t s.cur d.id name s.db in (e, record s { db = db })

-- The second half of `move`, past `linkT`.
unfoldable pub unlink_after : ℕ → ℕ → Bytes → Error × Db → Error × Db
unlink_after cur sdir sn (ok, linked) = unlink_t cur sdir sn linked
unlink_after cur sdir sn (e, linked) = (e, linked)

unfoldable pub move_t : ℕ → ℕ → Bytes → ℕ → Bytes → Db → Error × Db
move_t cur sdir sn ddir dn db = elim (child_of cur sdir sn db) [
  | none ↦ (noent, db)
  | some child ↦ unlink_after cur sdir sn (link_t cur ddir dn child db)
]

unfoldable pub move : Handle → Bytes → Handle → Bytes → Store → Error × Store
unfolding move_t
move sdir sn ddir dn s =
    let (e, db) = move_t s.cur sdir.id sn ddir.id dn s.db in (e, record s { db = db })
