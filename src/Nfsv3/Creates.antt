-- ===== src/Nfsv3/Creates.antt =====
-- The verbs of the NFSv3 front-end that set attributes and make nodes.
use prfs.Prelude.{ℕ, [], ◌==◌, ◌||◌, not, Option, none, some, if◌then◌else◌}
use prfs.Bytes.{Bytes}
use prfs.Core.Record.{blk, chr, Error, ok}
use prfs.Core.Store.{
  Store, Handle, latest, node_by_id, lookup, link, mkfile, mkdir, symlink, mknod, mkfifo, mksock,
}
use prfs.Core.Attrs.{
  set_mode, set_uid, set_gid, set_size, set_atime, set_mtime, set_ctime, set_atime_nsec,
  set_mtime_nsec, set_target, set_rdev,
}
use prfs.Content.{ContentConfig}
use prfs.Nfsv3.{Reader, Cred, read_u32, read_u64, read_fh, read_str, put_u32, put_fh}
use prfs.Nfsv3.Attrs.{PreAttr, pre_of, encode_post_op, encode_wcc, to_nfs_stat, apply_cred}
use prfs.Nfsv3.Procs.{
  Reply, success, garbage, with_fh, with_str, status_wcc, touch_dir, dirop_parent,
}

-- `if (r.u32()) { … = r.u32(); … }` and the same with `r.u64()`
unfoldable pub set_word : (ℕ → Store → Store) → Reader → Store → Reader × Store
unfolding read_u32
set_word act r s =
    let (on, r1) = read_u32 r in
    let (x, r2) = read_u32 r1 in if on == 0 then (r1, s) else (r2, act x s)

unfoldable pub set_long : (ℕ → Store → Store) → Reader → Store → Reader × Store
unfolding read_u32 read_u64
set_long act r s =
    let (on, r1) = read_u32 r in
    let (x, r2) = read_u64 r1 in if on == 0 then (r1, s) else (r2, act x s)

-- `SET_TO_SERVER_TIME` (1) and `SET_TO_CLIENT_TIME` (2)
unfoldable pub set_when :
    (ℕ → Store → Store) → (ℕ → Store → Store) → Reader → Store → Reader × Store
unfolding read_u32
set_when sec nsec r s =
    let (how, r1) = read_u32 r in
    let (x, r2) = read_u32 r1 in
    let (ns, r3) = read_u32 r2 in
    if how == 1 then (r1, sec s.clock s) else if how == 2 then (r3, nsec ns (sec x s)) else (r1, s)

unfoldable pub apply_sattr : Handle → Reader → Store → Reader × Store
unfolding set_word set_long set_when set_mode set_uid set_gid set_size set_atime set_mtime
    set_atime_nsec set_mtime_nsec
apply_sattr n r s =
    let (r1, s1) = set_word (set_mode n) r s in
    let (r2, s2) = set_word (set_uid n) r1 s1 in
    let (r3, s3) = set_word (set_gid n) r2 s2 in
    let (r4, s4) = set_long (set_size n) r3 s3 in
    let (r5, s5) = set_when (set_atime n) (set_atime_nsec n) r4 s4 in
    set_when (set_mtime n) (set_mtime_nsec n) r5 s5

-- A new node, its owner, and the attributes that the call sets: the reader past them too.
unfoldable pub dressed : Cred → Reader → Handle × Store → Reader × Store
unfolding apply_cred apply_sattr
dressed cred r (child, s) = apply_sattr child r (apply_cred cred (some child) s)

abbrev pub with_rdev : Handle → Reader × Store → Store
with_rdev child (r, s) =
    let (maj, r1) = read_u32 r in let (min, r2) = read_u32 r1 in (set_rdev child maj min s).1

module _ (policy : Option ContentConfig) where
  -- The guard is read, and neither it nor the reader is used after.
  unfoldable pub setattr : ℕ → Option Handle → Reader → Store → Bytes → Reply
  unfolding pre_of apply_sattr set_ctime encode_wcc put_u32
  setattr snap none r s w = status_wcc policy 70 (pre_of none s) none s w
  setattr snap (some n) r s w =
      let pre = pre_of (some n) s in
      let t = (apply_sattr n r s).1 in
      if not (snap == latest)
      then status_wcc policy 30 pre (some n) s w
      else status_wcc policy 0 pre (some n) (set_ctime n t.clock t) w

  unfoldable pub nfs_setattr : Reader → Store → Bytes → Reply
  unfolding read_fh node_by_id setattr
  nfs_setattr r s w =
      with_fh (garbage s w) (read_fh r) (λ id snap r1. setattr snap (node_by_id id snap s) r1 s w)

  unfoldable pub encode_new_object : Handle → PreAttr → Handle → Store → Bytes → Bytes
  unfolding put_u32 put_fh encode_post_op encode_wcc
  encode_new_object child pre d s w =
      encode_wcc policy pre (some d) s
        (encode_post_op policy (some child) s (put_fh child.id latest (put_u32 1 w)))

  abbrev pub after_create : Handle → PreAttr → Handle → Bytes → Error × Store → Reply
  after_create d pre child w (ok, s) =
      let t = touch_dir policy d s in success (encode_new_object child pre d t (put_u32 0 w)) t
  after_create d pre child w (e, s) = status_wcc policy (to_nfs_stat e) pre (some d) s w

  unfoldable pub finish_create : Handle → PreAttr → Bytes → Handle → Store → Bytes → Reply
  unfolding link touch_dir encode_new_object to_nfs_stat encode_wcc put_u32
  finish_create d pre name child s w = after_create d pre child w (link d name child s)

  -- `mode` is 1 for `CREATE_GUARDED` and 2 for `CREATE_EXCLUSIVE`.
  unfoldable pub create_at :
      Cred → Handle → PreAttr → Bytes → ℕ → Option Handle → Reader → Store → Bytes → Reply
  unfolding mkfile apply_cred apply_sattr finish_create encode_new_object encode_wcc put_u32
  create_at cred d pre name mode none r s w =
      let (child, s1) = mkfile [] s in
      let s2 = apply_cred cred (some child) s1 in
      let s3 = (apply_sattr child r s2).1 in
      finish_create d pre name child (if mode == 2 then s2 else s3) w
  create_at cred d pre name mode (some existing) r s w =
      let s1 = (apply_sattr existing r s).1 in
      let t = if mode == 2 then s else s1 in
      if mode == 1
      then status_wcc policy 17 pre (some d) s w
      else success (encode_new_object existing pre d t (put_u32 0 w)) t

  unfoldable pub nfs_create : Cred → Reader → Store → Bytes → Reply
  unfolding dirop_parent read_u32 lookup create_at
  nfs_create cred r s w = dirop_parent policy r s w (λ d pre name r1.
      let (mode, r2) = read_u32 r1 in
      let made = create_at cred d pre name mode (lookup d name s) r2 s w in
      if not r2.ok then garbage s w else made)

  unfoldable pub nfs_mkdir : Cred → Reader → Store → Bytes → Reply
  unfolding dirop_parent mkdir dressed finish_create
  nfs_mkdir cred r s w = dirop_parent policy r s w (λ d pre name r1.
      let made = mkdir s in finish_create d pre name made.0 (dressed cred r1 made).1 w)

  unfoldable pub symlink_to : Handle → PreAttr → Bytes → Handle → Bytes → Reader × Store → Reply
  unfolding read_str set_target finish_create
  symlink_to d pre name child w (r, s) =
      with_str (garbage s w) (read_str r)
        (λ target r1. finish_create d pre name child (set_target child target s).1 w)

  unfoldable pub nfs_symlink : Cred → Reader → Store → Bytes → Reply
  unfolding dirop_parent symlink dressed symlink_to
  nfs_symlink cred r s w = dirop_parent policy r s w (λ d pre name r1.
      let made = symlink [] s in symlink_to d pre name made.0 w (dressed cred r1 made))

  -- The types are `NF3BLK` (3), `NF3CHR` (4), `NF3SOCK` (6) and `NF3FIFO` (7).
  unfoldable pub mknod_at : Cred → ℕ → Handle → PreAttr → Bytes → Reader → Store → Bytes → Reply
  unfolding read_u32 mknod mkfifo mksock dressed set_rdev finish_create encode_wcc put_u32
  mknod_at cred type d pre name r s w =
      let dev = mknod (if type == 3 then blk else chr) 0 0 s in
      let pipe = mkfifo s in
      let socket = mksock s in
      if type == 3 || type == 4
      then finish_create d pre name dev.0 (with_rdev dev.0 (dressed cred r dev)) w
      else if type == 7
      then finish_create d pre name pipe.0 (dressed cred r pipe).1 w
      else if type == 6
      then finish_create d pre name socket.0 (dressed cred r socket).1 w
      else status_wcc policy 10007 pre (some d) s w

  unfoldable pub nfs_mknod : Cred → Reader → Store → Bytes → Reply
  unfolding dirop_parent read_u32 mknod_at
  nfs_mknod cred r s w =
      dirop_parent policy r s w
        (λ d pre name r1. let (type, r2) = read_u32 r1 in mknod_at cred type d pre name r2 s w)

  unfoldable pub nfs_commit : Reader → Store → Bytes → Reply
  unfolding read_fh read_u64 read_u32 node_by_id pre_of encode_wcc put_u32
  nfs_commit r s w = with_fh (garbage s w) (read_fh r) (λ id snap r1.
      let (offset, r2) = read_u64 r1 in
      let (count, r3) = read_u32 r2 in
      elim (node_by_id id snap s) [
        | none ↦ status_wcc policy 70 (pre_of none s) none s w
        | some n ↦
            success
              (put_u32 0
                (put_u32 0 (encode_wcc policy (pre_of (some n) s) (some n) s (put_u32 0 w))))
              s
      ])
