-- ===== src/Core/Ops.antt =====
-- The mutations of `IPrfs` and `INode` as one type, for theorems about any sequence of calls.
use prfs.Prelude.{ℕ, ◌<◌, List, [], ◌∷◌}
use prfs.Bytes.{Bytes, u32, u64}
use prfs.Core.Record.{FileType}
use prfs.Core.Store.{Store, Handle, latest, alloc, link, unlink, move, set_time, set_content_config}
use prfs.Core.Attrs.{
  set_mode, set_uid, set_gid, set_size, set_atime, set_mtime, set_ctime, set_atime_nsec,
  set_mtime_nsec, set_blob, set_rdev, set_content_seed,
}
use prfs.Core.History.{snapshot}
use prfs.Core.Writes.{DbOk}

pub data Attr : Type 0 where
  mode uid gid size atime mtime ctime atime_nsec mtime_nsec : Attr

-- `creates` stands for `mkdir`, `mkfile`, `symlink`, `mkfifo`, `mksock` and `mknod`, and
-- `sets_blob` for `setContent` and `setTarget`.
pub data Op : Type 0 where
  creates : FileType → Bytes → ℕ → Op
  links : Handle → Bytes → Handle → Op
  unlinks : Handle → Bytes → Op
  moves : Handle → Bytes → Handle → Bytes → Op
  sets : Attr → Handle → ℕ → Op
  sets_blob : Handle → FileType → Bytes → Op
  sets_rdev : Handle → ℕ → ℕ → Op
  sets_seed : Handle → ℕ → Op
  sets_config : Bytes → Op
  sets_time : ℕ → Op
  snapshots : Bytes → Op

abbrev pub set_attr : Attr → Handle → ℕ → Store → Store
set_attr mode = set_mode
set_attr uid = set_uid
set_attr gid = set_gid
set_attr size = set_size
set_attr atime = set_atime
set_attr mtime = set_mtime
set_attr ctime = set_ctime
set_attr atime_nsec = set_atime_nsec
set_attr mtime_nsec = set_mtime_nsec

-- The store after a call, whatever it returns.
abbrev pub apply : Op → Store → Store
apply (creates t blob spec) s = (alloc t blob spec s).1
apply (links d name c) s = (link d name c s).1
apply (unlinks d name) s = (unlink d name s).1
apply (moves sd sn dd dn) s = (move sd sn dd dn s).1
apply (sets a h x) s = set_attr a h x s
apply (sets_blob h t blob) s = (set_blob h t blob s).1
apply (sets_rdev h maj min) s = (set_rdev h maj min s).1
apply (sets_seed h seed) s = (set_content_seed h seed s).1
apply (sets_config blob) s = set_content_config blob s
apply (sets_time t) s = set_time t s
apply (snapshots label) s = (snapshot label s).1

unfoldable pub run : List Op → Store → Store
run [] s = s
run (op ∷ ops) s = run ops (apply op s)

-- The width of an attribute's type.
abbrev pub width : Attr → ℕ
width mode = u32
width uid = u32
width gid = u32
width size = u64
width atime = u64
width mtime = u64
width ctime = u64
width atime_nsec = u32
width mtime_nsec = u32

-- The arguments are values of their types.
abbrev pub InRange : Op → Type 0
InRange (creates t blob spec) = spec < u64
InRange (links d name c) = (d.id < u64) × (c.id < u64)
InRange (unlinks d name) = d.id < u64
InRange (moves sd sn dd dn) = (sd.id < u64) × (dd.id < u64)
InRange (sets a h x) = (h.id < u64) × (x < width a)
InRange (sets_blob h t blob) = h.id < u64
InRange (sets_rdev h maj min) = (h.id < u64) × (maj < u32) × (min < u32)
InRange (sets_seed h seed) = (h.id < u64) × (seed < u64)
InRange (sets_config blob) = Unit
InRange (sets_time t) = t < u64
InRange (snapshots label) = Unit

-- The state that every operation keeps: well-formed tables, and counters in range.
pub record StoreOk (s : Store) : Type 0 where
  pub db_ok : DbOk s.cur s.db
  pub cur_open : s.cur < latest
  pub next_fits : s.next < u64
  pub clock_fits : s.clock < u64
