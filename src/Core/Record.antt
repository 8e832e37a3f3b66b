-- ===== src/Core/Record.antt =====
-- `NodeRec`, its serialization, and the enumerations of include/prfs/prfs.hpp.
use prfs.Prelude.{ℕ, zero, suc, ◌+◌, ◌*◌, ◌/◌, ◌%◌, ◌<◌, ◌≡◌, [], ◌∷◌, ◌++◌, drop, arith}
use prfs.Bytes.{Bytes, u32, u64}

-- `enum class Type`
pub data FileType : Type 0 where
  reg dir lnk blk chr fifo sock : FileType

-- `uint32_t(t)`
abbrev pub type_code : FileType → ℕ
type_code reg = 0
type_code dir = 1
type_code lnk = 2
type_code blk = 3
type_code chr = 4
type_code fifo = 5
type_code sock = 6

pub data Error : Type 0 where
  ok noent exist notdir isdir inval notempty perm : Error

unfoldable pub default_mode : FileType → ℕ
default_mode dir = 0o755
default_mode lnk = 0o777
default_mode _ = 0o644

pub record NodeRec : Type 0 where
  pub type : ℕ
  pub mode : ℕ
  pub uid : ℕ
  pub gid : ℕ
  pub nlink : ℕ
  pub atime_ns : ℕ
  pub mtime_ns : ℕ
  pub size : ℕ
  pub atime : ℕ
  pub mtime : ℕ
  pub ctime : ℕ
  pub spec : ℕ
  pub dn_link_ver : ℕ
  pub up_link_ver : ℕ
  pub blob : Bytes

-- A record as it is declared, with every field zero.
abbrev pub empty_rec : NodeRec
empty_rec = record {
  type = 0;
  mode = 0;
  uid = 0;
  gid = 0;
  nlink = 0;
  atime_ns = 0;
  mtime_ns = 0;
  size = 0;
  atime = 0;
  mtime = 0;
  ctime = 0;
  spec = 0;
  dn_link_ver = 0;
  up_link_ver = 0;
  blob = [];
}

-- The bytes of an unsigned integer in memory, on a little-endian machine.
unfoldable pub le : ℕ → ℕ → Bytes
le zero x = []
le (suc n) x = (x % 256) ∷ le n (x / 256)

-- `memcpy(&x, p, n)`. A cell of memory holds a byte.
unfoldable pub rdle : ℕ → Bytes → ℕ
rdle zero p = 0
rdle (suc n) [] = 0
rdle (suc n) (b ∷ p) = b % 256 + 256 * rdle n p

unfoldable pub serialize : NodeRec → Bytes
unfolding le
serialize r =
    le 4 r.type
    ++ (le 4 r.mode
        ++ (le 4 r.uid
            ++ (le 4 r.gid
                ++ (le 4 r.nlink
                    ++ (le 8 r.size
                        ++ (le 8 r.atime
                            ++ (le 8 r.mtime
                                ++ (le 8 r.ctime
                                    ++ (le 8 r.spec
                                        ++ (le 8 r.dn_link_ver
                                            ++ (le 8 r.up_link_ver
                                                ++ (le 4 r.atime_ns
                                                    ++ (le 4 r.mtime_ns ++ r.blob)))))))))))))

-- The offsets are what `off += 4` and `off += 8` add up to.
unfoldable pub deserialize : Bytes → NodeRec
unfolding rdle
deserialize v = record {
  type = rdle 4 v;
  mode = rdle 4 (drop 4 v);
  uid = rdle 4 (drop 8 v);
  gid = rdle 4 (drop 12 v);
  nlink = rdle 4 (drop 16 v);
  size = rdle 8 (drop 20 v);
  atime = rdle 8 (drop 28 v);
  mtime = rdle 8 (drop 36 v);
  ctime = rdle 8 (drop 44 v);
  spec = rdle 8 (drop 52 v);
  dn_link_ver = rdle 8 (drop 60 v);
  up_link_ver = rdle 8 (drop 68 v);
  atime_ns = rdle 4 (drop 76 v);
  mtime_ns = rdle 4 (drop 80 v);
  blob = drop 84 v;
}

-- The ranges of the fields' types.
pub record Fits (r : NodeRec) : Type 0 where
  pub type_fits : r.type < u32
  pub mode_fits : r.mode < u32
  pub uid_fits : r.uid < u32
  pub gid_fits : r.gid < u32
  pub nlink_fits : r.nlink < u32
  pub atime_ns_fits : r.atime_ns < u32
  pub mtime_ns_fits : r.mtime_ns < u32
  pub size_fits : r.size < u64
  pub atime_fits : r.atime < u64
  pub mtime_fits : r.mtime < u64
  pub ctime_fits : r.ctime < u64
  pub spec_fits : r.spec < u64
  pub dn_link_ver_fits : r.dn_link_ver < u64
  pub up_link_ver_fits : r.up_link_ver < u64

rdle-le4 : (x : ℕ) (s : Bytes) → x < u32 → rdle 4 (le 4 x ++ s) ≡ x
unfolding rdle le
rdle-le4 x s h = omega arith

rdle-le8 : (x : ℕ) (s : Bytes) → x < u64 → rdle 8 (le 8 x ++ s) ≡ x
unfolding rdle le
rdle-le8 x s h = omega arith

-- A record whose fields are in the ranges of their types is read back whole from its bytes.
pub deserialize-serialize : (r : NodeRec) → Fits r → deserialize (serialize r) ≡ r
unfolding serialize deserialize
deserialize-serialize r f = λ i. record {
  type = rdle-le4 r.type (drop 4 (serialize r)) f.type_fits i;
  mode = rdle-le4 r.mode (drop 8 (serialize r)) f.mode_fits i;
  uid = rdle-le4 r.uid (drop 12 (serialize r)) f.uid_fits i;
  gid = rdle-le4 r.gid (drop 16 (serialize r)) f.gid_fits i;
  nlink = rdle-le4 r.nlink (drop 20 (serialize r)) f.nlink_fits i;
  atime_ns = rdle-le4 r.atime_ns (drop 80 (serialize r)) f.atime_ns_fits i;
  mtime_ns = rdle-le4 r.mtime_ns r.blob f.mtime_ns_fits i;
  size = rdle-le8 r.size (drop 28 (serialize r)) f.size_fits i;
  atime = rdle-le8 r.atime (drop 36 (serialize r)) f.atime_fits i;
  mtime = rdle-le8 r.mtime (drop 44 (serialize r)) f.mtime_fits i;
  ctime = rdle-le8 r.ctime (drop 52 (serialize r)) f.ctime_fits i;
  spec = rdle-le8 r.spec (drop 60 (serialize r)) f.spec_fits i;
  dn_link_ver = rdle-le8 r.dn_link_ver (drop 68 (serialize r)) f.dn_link_ver_fits i;
  up_link_ver = rdle-le8 r.up_link_ver (drop 76 (serialize r)) f.up_link_ver_fits i;
  blob = r.blob;
}

rdle_step :
    (n bound : ℕ) → ((p : Bytes) → rdle n p < bound) → (p : Bytes) → rdle (suc n) p < 256 * bound
unfolding rdle
rdle_step n bound below [] = omega (arith, below [])
rdle_step n bound below (b ∷ p) = omega (arith, below p)

rdle_zero : (p : Bytes) → rdle 0 p < 1
unfolding rdle
rdle_zero p = omega arith

rdle4-lt : (p : Bytes) → rdle 4 p < u32
rdle4-lt = rdle_step 3 _ (rdle_step 2 _ (rdle_step 1 _ (rdle_step 0 1 rdle_zero)))

rdle8-lt : (p : Bytes) → rdle 8 p < u64
rdle8-lt = rdle_step 7 _ (rdle_step 6 _ (rdle_step 5 _ (rdle_step 4 _ rdle4-lt)))

-- A record that is read is in range, whatever the bytes.
pub deserialize-Fits : (v : Bytes) → Fits (deserialize v)
unfolding deserialize
deserialize-Fits v = record {
  type_fits = rdle4-lt v;
  mode_fits = rdle4-lt (drop 4 v);
  uid_fits = rdle4-lt (drop 8 v);
  gid_fits = rdle4-lt (drop 12 v);
  nlink_fits = rdle4-lt (drop 16 v);
  atime_ns_fits = rdle4-lt (drop 76 v);
  mtime_ns_fits = rdle4-lt (drop 80 v);
  size_fits = rdle8-lt (drop 20 v);
  atime_fits = rdle8-lt (drop 28 v);
  mtime_fits = rdle8-lt (drop 36 v);
  ctime_fits = rdle8-lt (drop 44 v);
  spec_fits = rdle8-lt (drop 52 v);
  dn_link_ver_fits = rdle8-lt (drop 60 v);
  up_link_ver_fits = rdle8-lt (drop 68 v);
}
