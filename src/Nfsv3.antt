-- ===== src/Nfsv3.antt =====
-- XDR in the NFSv3 front-end, plugins/nfsv3/nfsv3.cpp: the reader of a message and the writer of a
-- reply. A message is shorter than 2 ^ 63 bytes, so that positions in it do not wrap.
pub mod Attrs
pub mod RoundTrip
pub mod Procs
pub mod Creates
pub mod Dirs
pub mod Filling
pub mod Paging
pub mod Calls
pub mod Server
pub mod Streams
pub mod Bounds
pub mod Programs
pub mod Making
pub mod Queries
pub mod Effects
pub mod ReadOnly
pub mod Seeds
use prfs.Prelude.{
  ℕ, zero, suc, ◌+◌, ◌-◌, ◌*◌, ◌/◌, ◌%◌, List, [], ◌∷◌, ◌++◌, ◌==◌, ltb, leb, Bool, true, false,
  ◌&&◌, ◌||◌, not, Option, none, some, if◌then◌else◌, length, drop, take, get_or,
}
use prfs.Bytes.{Bytes, u32, u64}

-- `rd32`, of bytes that the callers have checked to be there
abbrev pub rd32 : Bytes → ℕ
rd32 p =
    get_or p 0 0 % 256 * 16777216
    + get_or p 1 0 % 256 * 65536
    + get_or p 2 0 % 256 * 256
    + get_or p 3 0 % 256

abbrev pub rd64 : Bytes → ℕ
rd64 p = rd32 p * u32 + rd32 (drop 4 p)

pub record Reader : Type 0 where
  pub p : Bytes
  pub pos : ℕ
  pub ok : Bool

abbrev pub size : Reader → ℕ
size r = length r.p

abbrev pub rest_of : Reader → Bytes
rest_of r = drop r.pos r.p

abbrev pub failed : Reader → Reader
failed r = record r { ok = false }

abbrev pub advance : ℕ → Reader → Reader
advance k r = record r { pos = r.pos + k }

unfoldable pub read_u32 : Reader → ℕ × Reader
read_u32 r = if ltb (size r) (r.pos + 4) then (0, failed r) else (rd32 (rest_of r), advance 4 r)

unfoldable pub read_u64 : Reader → ℕ × Reader
unfolding read_u32
read_u64 r = let (hi, r1) = read_u32 r in let (lo, r2) = read_u32 r1 in (hi * u32 + lo, r2)

-- `(len + 3u) & ~size_t(3)`: the sum is one of `uint32_t`, and wraps.
unfoldable pub padded : ℕ → ℕ
padded len = let n = (len + 3) % u32 in n - n % 4

unfoldable pub skip : ℕ → Reader → Reader
skip k r = if ltb (size r) (r.pos + k) then failed r else advance k r

unfoldable pub skip_opaque : Reader → Reader
unfolding read_u32 padded skip
skip_opaque r = let (len, r1) = read_u32 r in skip (padded len) r1

-- What `str` does with the bytes of the message: `outside` is a read past their end, whose
-- behaviour is undefined.
pub data Str : Type 0 where
  refused : Reader → Str
  outside : Str
  taken : Bytes → Reader → Str

unfoldable pub take_str : ℕ → Reader → Str
unfolding padded
take_str len r =
    if not r.ok || ltb (size r) (r.pos + padded len)
    then refused (failed r)
    else if ltb (size r) (r.pos + len)
    then outside
    else taken (take len (rest_of r)) (advance (padded len) r)

unfoldable pub read_str : Reader → Str
unfolding read_u32 take_str
read_str r = let (len, r1) = read_u32 r in take_str len r1

unfoldable pub skip_auth : Reader → Reader
unfolding read_u32 skip_opaque
skip_auth r = skip_opaque (read_u32 r).1

-- `none` for a handle that is refused
unfoldable pub read_fh : Reader → Option (ℕ × ℕ) × Reader
unfolding read_u32
read_fh r =
    let (len, r1) = read_u32 r in
    if not r1.ok || not (len == 16) || ltb (size r1) (r1.pos + 16)
    then (none, failed r1)
    else (some (rd64 (rest_of r1), rd64 (drop 8 (rest_of r1))), advance 16 r1)

pub record Cred : Type 0 where
  pub uid : ℕ
  pub gid : ℕ
  pub sys : Bool

abbrev pub no_cred : Cred
no_cred = record { uid = 0; gid = 0; sys = false }

-- The body of a credential that ends at `end`, of the flavor `AUTH_SYS` (1) or another.
unfoldable pub cred_body : ℕ → ℕ → Reader → Cred × Reader
unfolding read_u32 skip_opaque
cred_body flavor end r =
    let (stamp, r1) = read_u32 r in
    let r2 = skip_opaque r1 in
    let (uid, r3) = read_u32 r2 in
    let (gid, r4) = read_u32 r3 in
    if flavor == 1
    then (record { uid = uid; gid = gid; sys = true }, record r4 { pos = end })
    else (no_cred, record r { pos = end })

unfoldable pub read_cred : Reader → Cred × Reader
unfolding read_u32 padded cred_body
read_cred r =
    let (flavor, r1) = read_u32 r in
    let (len, r2) = read_u32 r1 in
    let end = r2.pos + padded len in
    if not r2.ok || ltb (size r2) end then (no_cred, failed r2) else cred_body flavor end r2

-- The words that the writer appends.
abbrev pub word : ℕ → Bytes
word x = (x / 16777216 % 256) ∷ (x / 65536 % 256) ∷ (x / 256 % 256) ∷ (x % 256) ∷ []

unfoldable pub put_u32 : ℕ → Bytes → Bytes
put_u32 x v = v ++ word x

unfoldable pub put_u64 : ℕ → Bytes → Bytes
unfolding put_u32
put_u64 x v = put_u32 (x % u32) (put_u32 (x / u32 % u32) v)

unfoldable pub put_fh : ℕ → ℕ → Bytes → Bytes
unfolding put_u32 put_u64
put_fh id snap v = put_u64 snap (put_u64 id (put_u32 16 v))

-- `while (v.size() % 4) v.push_back(0)`: three rounds are enough.
unfoldable pub pad_loop : ℕ → Bytes → Bytes
pad_loop zero v = v
pad_loop (suc fuel) v =
    let rest = pad_loop fuel (v ++ 0 ∷ []) in if length v % 4 == 0 then v else rest

-- `str`, and `opaque`, which does the same to other bytes
unfoldable pub put_str : Bytes → Bytes → Bytes
unfolding put_u32 pad_loop
put_str s v = pad_loop 3 (put_u32 (length s % u32) v ++ s)

unfoldable pub put_time_ns : ℕ → ℕ → Bytes → Bytes
unfolding put_u32
put_time_ns t ns v = put_u32 ns (put_u32 (t % u32) v)

unfoldable pub put_time : ℕ → Bytes → Bytes
unfolding put_time_ns
put_time t v = put_time_ns t 0 v
