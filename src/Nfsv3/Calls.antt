-- ===== src/Nfsv3/Calls.antt =====
-- The front-end's dispatch of calls: READ, the file system's limits, the MOUNT program, and the
-- tables of procedures.
use prfs.Prelude.{
  ℕ, zero, suc, ◌+◌, ◌%◌, ◌^◌, List, [], ◌∷◌, ◌==◌, ltb, leb, Bool, true, false, not, Option, none,
  some, if◌then◌else◌, codes,
}
use prfs.Bytes.{Bytes, u32, u64}
use prfs.Core.Record.{reg, dir}
use prfs.Core.Store.{Store, Handle, latest, rw_root, node_by_id}
use prfs.Core.Attrs.{attrs}
use prfs.Content.{ContentConfig, Buffer}
use prfs.FsStat.{default_config, fs_stat_at, fs_info}
use prfs.Host.{Host, ProviderRead, read_file}
use prfs.Nfsv3.{
  Reader, Cred, read_u32, read_u64, read_fh, read_str, put_u32, put_u64, put_fh, put_str,
}
use prfs.Nfsv3.Attrs.{encode_post_op}
use prfs.Nfsv3.Procs.{
  Reply, ended, replied, success, garbage, with_fh, with_str, is_type, nfs_getattr, nfs_lookup,
  nfs_access, nfs_readlink, nfs_write, nfs_remove, nfs_rmdir, nfs_rename, nfs_link,
}
use prfs.Nfsv3.Creates.{nfs_setattr, nfs_create, nfs_mkdir, nfs_symlink, nfs_mknod, nfs_commit}
use prfs.Nfsv3.Dirs.{Cookies, eof_word, nfs_readdir, nfs_readdir_plus}

abbrev pub max_read : ℕ
max_read = 2 ^ 20

-- The first bytes of a buffer.
unfoldable pub bytes_of : ℕ → Buffer → ℕ → Bytes
bytes_of zero buf at' = []
bytes_of (suc n) buf at' = buf at' ∷ bytes_of n buf (at' + 1)

-- The NFS program's procedures, at their numbers.
pub data Proc : Type 0 where
  null getattr setattr lookup access readlink read write create mkdir symlink mknod remove rmdir
        rename link readdir readdirplus fsstat fsinfo pathconf commit :
      Proc

abbrev pub numbered : List Proc
numbered =
    null ∷ getattr ∷ setattr ∷ lookup ∷ access ∷ readlink ∷ read ∷ write ∷ create ∷ mkdir ∷ symlink
    ∷ mknod ∷ remove ∷ rmdir ∷ rename ∷ link ∷ readdir ∷ readdirplus ∷ fsstat ∷ fsinfo ∷ pathconf
    ∷ commit ∷ []

unfoldable pub nth_proc : ℕ → List Proc → Option Proc
nth_proc n [] = none
nth_proc zero (p ∷ ps) = some p
nth_proc (suc n) (p ∷ ps) = nth_proc n ps

abbrev pub is_mutating : Option Proc → Bool
is_mutating (some setattr) = true
is_mutating (some write) = true
is_mutating (some create) = true
is_mutating (some mkdir) = true
is_mutating (some symlink) = true
is_mutating (some mknod) = true
is_mutating (some remove) = true
is_mutating (some rmdir) = true
is_mutating (some rename) = true
is_mutating (some link) = true
is_mutating proc = false

abbrev pub fsstat_body : Store → Handle → ℕ → Bytes → Bytes
fsstat_body s n snap w =
    let st = fs_stat_at s default_config snap in
    let w1 = put_u64 st.abytes (put_u64 st.fbytes (put_u64 st.tbytes w)) in
    put_u32 st.invarsec (put_u64 st.afiles (put_u64 st.ffiles (put_u64 st.tfiles w1)))

abbrev pub fsinfo_body : Handle → ℕ → Bytes → Bytes
fsinfo_body n snap w =
    let fi = fs_info default_config in
    let w1 = put_u32 fi.rtmult (put_u32 fi.rtpref (put_u32 fi.rtmax w)) in
    let w2 = put_u32 fi.wtmult (put_u32 fi.wtpref (put_u32 fi.wtmax w1)) in
    let w3 = put_u64 fi.maxfilesize (put_u32 fi.dtpref w2) in
    put_u32 fi.properties (put_u32 fi.time_delta_nsec (put_u32 fi.time_delta_sec w3))

-- 65535 links and names of 255 bytes, which are not cut; the case of a name is kept.
abbrev pub pathconf_body : Handle → ℕ → Bytes → Bytes
pathconf_body n snap w =
    let w1 = put_u32 1 (put_u32 255 (put_u32 0xFFFF w)) in put_u32 1 (put_u32 0 (put_u32 1 w1))

module _ (policy : Option ContentConfig) where
  -- `if (!r.fh(id, snap))`, `nodeById`, and the attributes of the node in front of the body.
  unfoldable pub node_reply : (Handle → ℕ → Bytes → Bytes) → Reader → Store → Bytes → Reply
  unfolding read_fh node_by_id encode_post_op put_u32
  node_reply body r s w = with_fh (garbage s w) (read_fh r) (λ id snap r1.
      elim (node_by_id id snap s) [
        | none ↦ success (put_u32 70 w) s
        | some n ↦ success (body n snap (encode_post_op policy (some n) s (put_u32 0 w))) s
      ])

  unfoldable pub nfs_fsstat : Reader → Store → Bytes → Reply
  unfolding node_reply fs_stat_at put_u32 put_u64
  nfs_fsstat r s = node_reply (fsstat_body s) r s

  unfoldable pub nfs_fsinfo : Reader → Store → Bytes → Reply
  unfolding node_reply fs_info put_u32 put_u64
  nfs_fsinfo r s = node_reply fsinfo_body r s

  unfoldable pub nfs_pathconf : Reader → Store → Bytes → Reply
  unfolding node_reply put_u32
  nfs_pathconf r s = node_reply pathconf_body r s

  module _ (generate : ProviderRead) (chosen : Bytes) where
    -- The buffer begins as zeros, and `none` is an exception of the provider.
    abbrev pub read_reply : Handle → ℕ → Store → Bytes → Option (ℕ × Buffer) → Reply
    read_reply n off s w none = ended
    read_reply n off s w (some (got, buf)) =
        let eof = leb (attrs n s).size ((off + got) % u64) in
        success
          (put_str (bytes_of got buf 0) (
            put_u32 (eof_word eof)
              (put_u32 (got % u32) (encode_post_op policy (some n) s (put_u32 0 w)))))
          s

    unfoldable pub read_node_at : Option Handle → ℕ → ℕ → Host → Bytes → Reply
    unfolding attrs read_file bytes_of encode_post_op put_u32 put_str
    read_node_at none off cnt h w = success (put_u32 70 w) h.fs
    read_node_at (some n) off cnt h w =
        let want = if ltb max_read cnt then max_read else cnt in
        let answer = read_reply n off h.fs w (read_file generate chosen n off want (λ j. 0) h) in
        if is_type dir n h.fs
        then success (encode_post_op policy (some n) h.fs (put_u32 21 w)) h.fs
        else if not (is_type reg n h.fs)
        then success (encode_post_op policy (some n) h.fs (put_u32 22 w)) h.fs
        else answer

    unfoldable pub nfs_read : Reader → Host → Bytes → Reply
    unfolding read_fh read_u64 read_u32 node_by_id read_node_at
    nfs_read r h w = with_fh (garbage h.fs w) (read_fh r) (λ id snap r1.
        let (off, r2) = read_u64 r1 in
        let (cnt, r3) = read_u32 r2 in
        let answer = read_node_at (node_by_id id snap h.fs) off cnt h w in
        if not r3.ok then garbage h.fs w else answer)

    -- Only the listings touch the cookies; `none` is a number without a procedure.
    unfoldable pub nfs_call : Option Proc → Cred → Reader → Host → Cookies → Bytes → Reply × Cookies
    unfolding nfs_getattr nfs_setattr nfs_lookup nfs_access nfs_readlink nfs_read nfs_write
        nfs_create nfs_mkdir nfs_symlink nfs_mknod nfs_remove nfs_rmdir nfs_rename nfs_link
        nfs_readdir nfs_readdir_plus nfs_fsstat nfs_fsinfo nfs_pathconf nfs_commit
    nfs_call none cred r h m w = (replied 3 w h.fs, m)
    nfs_call (some null) cred r h m w = (success w h.fs, m)
    nfs_call (some getattr) cred r h m w = (nfs_getattr policy r h.fs w, m)
    nfs_call (some setattr) cred r h m w = (nfs_setattr policy r h.fs w, m)
    nfs_call (some lookup) cred r h m w = (nfs_lookup policy r h.fs w, m)
    nfs_call (some access) cred r h m w = (nfs_access policy r h.fs w, m)
    nfs_call (some readlink) cred r h m w = (nfs_readlink policy r h.fs w, m)
    nfs_call (some read) cred r h m w = (nfs_read r h w, m)
    nfs_call (some write) cred r h m w = (nfs_write policy r h.fs w, m)
    nfs_call (some create) cred r h m w = (nfs_create policy cred r h.fs w, m)
    nfs_call (some mkdir) cred r h m w = (nfs_mkdir policy cred r h.fs w, m)
    nfs_call (some symlink) cred r h m w = (nfs_symlink policy cred r h.fs w, m)
    nfs_call (some mknod) cred r h m w = (nfs_mknod policy cred r h.fs w, m)
    nfs_call (some remove) cred r h m w = (nfs_remove policy r h.fs w, m)
    nfs_call (some rmdir) cred r h m w = (nfs_rmdir policy r h.fs w, m)
    nfs_call (some rename) cred r h m w = (nfs_rename policy r h.fs w, m)
    nfs_call (some link) cred r h m w = (nfs_link policy r h.fs w, m)
    nfs_call (some readdir) cred r h m w = nfs_readdir policy r m h.fs w
    nfs_call (some readdirplus) cred r h m w = nfs_readdir_plus policy r m h.fs w
    nfs_call (some fsstat) cred r h m w = (nfs_fsstat r h.fs w, m)
    nfs_call (some fsinfo) cred r h m w = (nfs_fsinfo r h.fs w, m)
    nfs_call (some pathconf) cred r h m w = (nfs_pathconf r h.fs w, m)
    nfs_call (some commit) cred r h m w = (nfs_commit policy r h.fs w, m)

unfoldable pub mount_mnt : Reader → Store → Bytes → Reply
unfolding read_str put_u32 put_fh
mount_mnt r s w = with_str (garbage s w) (read_str r) (λ path r1.
    success (put_u32 1 (put_u32 0 (put_u32 2 (put_fh (rw_root s).id latest (put_u32 0 w))))) s)

unfoldable pub mount_umnt : Reader → Store → Bytes → Reply
unfolding read_str
mount_umnt r s w = with_str (garbage s w) (read_str r) (λ path r1. success w s)

unfoldable pub mount_export : Store → Bytes → Reply
unfolding put_u32 put_str
mount_export s w = success (put_u32 0 (put_u32 0 (put_str (codes "/") (put_u32 1 w)))) s

unfoldable pub mount_call : ℕ → Reader → Store → Bytes → Reply
unfolding mount_mnt mount_umnt mount_export
mount_call proc r s w =
    if proc == 0
    then success w s
    else if proc == 1
    then mount_mnt r s w
    else if proc == 3
    then mount_umnt r s w
    else if proc == 5
    then mount_export s w
    else replied 3 w s
