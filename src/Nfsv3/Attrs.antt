-- ===== src/Nfsv3/Attrs.antt =====
-- The attributes and statuses that the NFSv3 front-end sends, and the seeds and cookies that it
-- makes.
use prfs.Prelude.{
  ℕ, zero, suc, ◌+◌, ◌*◌, ◌/◌, ◌%◌, ◌^◌, [], ◌∷◌, ◌==◌, Bool, true, false, ◌||◌, Option, none, some,
  if◌then◌else◌, bit_xor,
}
use prfs.Bytes.{Bytes, u64}
use prfs.Core.Record.{
  reg, blk, chr, type_code, Error, ok, noent, exist, notdir, isdir, inval, notempty, perm,
}
use prfs.Core.Store.{Store, Handle, latest, snap_bit}
use prfs.Core.Attrs.{attrs, rdev, content_seed, set_uid, set_gid}
use prfs.Content.{ContentConfig, allocated_blocks}
use prfs.Nfsv3.{Cred, put_u32, put_u64, put_time, put_time_ns}

-- `h ^ (h >> k)` of a `uint64_t`
abbrev shifted : ℕ → ℕ → ℕ
shifted k h = bit_xor h (h / 2 ^ k)

unfoldable pub view_fileid : ℕ → ℕ → ℕ
view_fileid id snap =
    let h = bit_xor id (snap * 0x9E3779B97F4A7C15 % u64) in
    let h1 = shifted 30 h * 0xbf58476d1ce4e5b9 % u64 in
    let h2 = shifted 27 h1 * 0x94d049bb133111eb % u64 in
    let h3 = shifted 31 h2 in if snap == latest then id else if h3 % 2 == 0 then h3 + 1 else h3

-- `kFtype3`, at the number of a type
abbrev pub ftype3 : ℕ → ℕ
ftype3 zero = 1
ftype3 (suc zero) = 2
ftype3 (suc (suc zero)) = 5
ftype3 (suc (suc (suc zero))) = 3
ftype3 (suc (suc (suc (suc zero)))) = 4
ftype3 (suc (suc (suc (suc (suc zero))))) = 7
ftype3 (suc (suc (suc (suc (suc (suc t)))))) = 6

-- The published policy is `none` while `ready` is false.
unfoldable pub used_bytes : Option ContentConfig → Handle → Store → ℕ
unfolding attrs content_seed allocated_blocks
used_bytes none n s = (attrs n s).size
used_bytes (some cfg) n s =
    let r = attrs n s in
    if r.type == type_code reg
    then allocated_blocks cfg (content_seed n s) r.size * 512 % u64
    else r.size

unfoldable pub encode_fattr : Option ContentConfig → Handle → Store → Bytes → Bytes
unfolding attrs rdev used_bytes view_fileid put_u32 put_u64 put_time put_time_ns
encode_fattr policy n s w =
    let r = attrs n s in
    let device = r.type == type_code blk || r.type == type_code chr in
    let rd = rdev n s in
    let maj = if device then rd.0 else 0 in
    let min = if device then rd.1 else 0 in
    let w1 =
      put_u32 r.gid
        (put_u32 r.uid (put_u32 r.nlink (put_u32 r.mode (put_u32 (ftype3 r.type) w)))) in
    let w2 = put_u32 min (put_u32 maj (put_u64 (used_bytes policy n s) (put_u64 r.size w1))) in
    let w3 =
      put_u64 (view_fileid n.id n.snap) (put_u64 (if n.snap == latest then 0 else n.snap) w2) in
    put_time r.ctime (put_time_ns r.mtime r.mtime_ns (put_time_ns r.atime r.atime_ns w3))

unfoldable pub encode_post_op : Option ContentConfig → Option Handle → Store → Bytes → Bytes
unfolding encode_fattr put_u32
encode_post_op policy none s w = put_u32 0 w
encode_post_op policy (some n) s w = encode_fattr policy n s (put_u32 1 w)

unfoldable pub to_nfs_stat : Error → ℕ
to_nfs_stat ok = 0
to_nfs_stat noent = 2
to_nfs_stat exist = 17
to_nfs_stat notdir = 20
to_nfs_stat isdir = 21
to_nfs_stat notempty = 66
to_nfs_stat perm = 1
to_nfs_stat inval = 22

pub record PreAttr : Type 0 where
  pub have : Bool
  pub size : ℕ
  pub mtime : ℕ
  pub ctime : ℕ

unfoldable pub pre_of : Option Handle → Store → PreAttr
unfolding attrs
pre_of none s = record { have = false; size = 0; mtime = 0; ctime = 0 }
pre_of (some n) s =
    let r = attrs n s in record { have = true; size = r.size; mtime = r.mtime; ctime = r.ctime }

unfoldable pub encode_pre : PreAttr → Bytes → Bytes
unfolding put_u32 put_u64 put_time
encode_pre p w =
    if p.have
    then put_time p.ctime (put_time p.mtime (put_u64 p.size (put_u32 1 w)))
    else put_u32 0 w

unfoldable pub encode_wcc : Option ContentConfig → PreAttr → Option Handle → Store → Bytes → Bytes
unfolding encode_pre encode_post_op
encode_wcc policy before after s w = encode_post_op policy after s (encode_pre before w)

unfoldable pub apply_cred : Cred → Option Handle → Store → Store
unfolding set_uid set_gid
apply_cred cred none s = s
apply_cred cred (some n) s = if cred.sys then set_gid n cred.gid (set_uid n cred.uid s) else s

-- `for (unsigned char c : bytes) h = (h ^ c) * 0x100000001B3ull`
unfoldable pub mix_loop : Bytes → ℕ → ℕ
mix_loop [] h = h
mix_loop (c ∷ bytes) h = mix_loop bytes (bit_xor h (c % 256) * 0x100000001B3 % u64)

unfoldable pub mix_seed : ℕ → ℕ → Bytes → ℕ
unfolding mix_loop
mix_seed seed off bytes =
    let h = mix_loop bytes (bit_xor seed ((off + 0x9E3779B97F4A7C15) % u64)) in
    if h == 0 then 1 else h

-- `h | CK_ENTRY` sets the top bit.
unfoldable pub name_cookie : Bytes → ℕ
unfolding mix_loop
name_cookie name = mix_loop name 1469598103934665603 % snap_bit + snap_bit
