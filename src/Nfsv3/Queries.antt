-- ===== src/Nfsv3/Queries.antt =====
-- The calls of the NFSv3 front-end that only read leave the store as it was.
use prfs.Prelude.{ℕ, ◌+◌, ◌==◌, Bool, true, false, Option, none, some, ltb, not, if◌then◌else◌}
use prfs.Bytes.{Bytes}
use prfs.Core.Record.{reg, dir, lnk}
use prfs.Core.Store.{Store, Handle, node_by_id, lookup}
use prfs.Content.{ContentConfig, Buffer}
use prfs.Host.{Host, ProviderRead, read_file}
use prfs.Nfsv3.{read_fh, skip, Reader, read_u32, read_u64, read_str}
use prfs.Nfsv3.Bounds.{if-Holds}
use prfs.Nfsv3.Procs.{
  Reply, replied, garbage, stored, getattr, readlink, found_child, lookup_in, is_type, nfs_getattr,
  nfs_lookup, nfs_access, nfs_readlink,
}
use prfs.Nfsv3.Creates.{nfs_commit}
use prfs.Nfsv3.Dirs.{
  Cookies, Paged, listed, list_node, page_dir, readdir_args, nfs_readdir, nfs_readdir_plus,
}
use prfs.Nfsv3.Calls.{
  max_read, node_reply, read_reply, read_node_at, nfs_read, mount_mnt, mount_umnt, mount_export,
  mount_call,
}
use prfs.Nfsv3.Programs.{with_str-Holds, with_fh-Holds}

-- The calls that only read, for any property of the store before them.
module _ (policy : Option ContentConfig) (P : Store → Type 0) (s : Store) (p : P s)
    (w : Bytes) where
  getattr-kept : (n : Option Handle) → P (stored (getattr policy n s w) s)
  unfolding getattr
  getattr-kept none = p
  getattr-kept (some n) = p

  pub nfs_getattr-kept : (r : Reader) → P (stored (nfs_getattr policy r s w) s)
  unfolding nfs_getattr
  nfs_getattr-kept r =
      with_fh-Holds P s (garbage s w) r _ p (λ id snap r1 h v. getattr-kept (node_by_id id snap s))

  readlink-kept : (n : Option Handle) → P (stored (readlink policy n s w) s)
  unfolding readlink
  readlink-kept none = p
  readlink-kept (some n) = if-Holds (λ x. P (stored x s)) (not (is_type lnk n s)) p p

  pub nfs_readlink-kept : (r : Reader) → P (stored (nfs_readlink policy r s w) s)
  unfolding nfs_readlink
  nfs_readlink-kept r =
      with_fh-Holds P s (garbage s w) r _ p (λ id snap r1 h v. readlink-kept (node_by_id id snap s))

  found_child-kept :
      (d : Handle) (child : Option Handle) → P (stored (found_child policy d child s w) s)
  unfolding found_child
  found_child-kept d none = p
  found_child-kept d (some child) = p

  lookup_in-kept : (d : Option Handle) (name : Bytes) → P (stored (lookup_in policy d name s w) s)
  unfolding lookup_in
  lookup_in-kept none name = p
  lookup_in-kept (some d) name =
      if-Holds (λ x. P (stored x s)) (not (is_type dir d s)) p
        (found_child-kept d (lookup d name s))

  pub nfs_lookup-kept : (r : Reader) → P (stored (nfs_lookup policy r s w) s)
  unfolding nfs_lookup
  nfs_lookup-kept r = with_fh-Holds P s (garbage s w) r _ p (λ id snap r1 h v.
      with_str-Holds P s (garbage s w) (read_str r1) _ p p
        (λ name r2. lookup_in-kept (node_by_id id snap s) name))

  answered-kept :
      (n : Option Handle) (v : Bytes) (body : Handle → Bytes)
      → P (stored (elim n [ none ↦ replied 0 v s | some m ↦ replied 0 (body m) s ]) s)
  answered-kept none v body = p
  answered-kept (some n) v body = p

  pub nfs_access-kept : (r : Reader) → P (stored (nfs_access policy r s w) s)
  unfolding nfs_access
  nfs_access-kept r = with_fh-Holds P s (garbage s w) r _ p (λ id snap r1 h v.
      if-Holds (λ x. P (stored x s)) (not (read_u32 r1).1.ok) p
        (answered-kept (node_by_id id snap s) _ _))

  pub node_reply-kept :
      (body : Handle → ℕ → Bytes → Bytes) (r : Reader) → P (stored (node_reply policy body r s w) s)
  unfolding node_reply
  node_reply-kept body r =
      with_fh-Holds P s (garbage s w) r _ p
        (λ id snap r1 h v. answered-kept (node_by_id id snap s) _ _)

  pub nfs_commit-kept : (r : Reader) → P (stored (nfs_commit policy r s w) s)
  unfolding nfs_commit
  nfs_commit-kept r =
      with_fh-Holds P s (garbage s w) r _ p
        (λ id snap r1 h v. answered-kept (node_by_id id snap s) _ _)

  listed-kept :
      (plus : Bool) (d : Handle) (found : Option Paged) (m : Cookies)
      → P (stored (listed policy plus d found m s w).0 s)
  listed-kept plus d none m = p
  listed-kept plus d (some found) m =
      if-Holds (λ (x : Reply × Cookies). P (stored x.0 s)) (found.status == 0) p p

  list_node-kept :
      (plus : Bool) (d : Option Handle) (cookie max : ℕ) (m : Cookies)
      → P (stored (list_node policy plus d cookie max m s w).0 s)
  unfolding list_node
  list_node-kept plus none cookie max m = p
  list_node-kept plus (some d) cookie max m =
      if-Holds (λ (x : Reply × Cookies). P (stored x.0 s)) (not (is_type dir d s)) p
        (listed-kept plus d (page_dir d cookie max (if plus then 88 + 24 else 0) m s) m)

  readdir_args-kept :
      (plus : Bool) (x : Option (ℕ × ℕ) × Reader) (m : Cookies)
      → P (stored (readdir_args policy plus x m s w).0 s)
  readdir_args-kept plus (none, r) m = p
  readdir_args-kept plus (some (id, snap), r) m =
      let r2 = skip 8 (read_u64 r).1 in
      let (max, r4) = read_u32 (if plus then (read_u32 r2).1 else r2) in
      if-Holds (λ (x : Reply × Cookies). P (stored x.0 s)) (not r4.ok) p
        (list_node-kept plus (node_by_id id snap s) (read_u64 r).0 max m)

  pub nfs_readdir-kept : (r : Reader) (m : Cookies) → P (stored (nfs_readdir policy r m s w).0 s)
  unfolding nfs_readdir
  nfs_readdir-kept r m = readdir_args-kept false (read_fh r) m

  pub nfs_readdir_plus-kept :
      (r : Reader) (m : Cookies) → P (stored (nfs_readdir_plus policy r m s w).0 s)
  unfolding nfs_readdir_plus
  nfs_readdir_plus-kept r m = readdir_args-kept true (read_fh r) m

  pub mount_call-kept : (proc : ℕ) (r : Reader) → P (stored (mount_call proc r s w) s)
  unfolding mount_call mount_mnt mount_umnt mount_export
  mount_call-kept proc r =
      let Q = λ (x : Reply). P (stored x s) in
      if-Holds Q (proc == 0) p (
        if-Holds Q (proc == 1) (with_str-Holds P s (garbage s w) (read_str r) _ p p (λ path r1. p))
          (if-Holds Q (proc == 3)
            (with_str-Holds P s (garbage s w) (read_str r) _ p p (λ path r1. p))
            (if-Holds Q (proc == 5) p p)))

module _ (policy : Option ContentConfig) (generate : ProviderRead) (chosen : Bytes)
    (P : Store → Type 0) (h : Host) (p : P h.fs) (w : Bytes) where
  read_reply-kept :
      (n : Handle) (off : ℕ) (x : Option (ℕ × Buffer))
      → P (stored (read_reply policy generate chosen n off h.fs w x) h.fs)
  read_reply-kept n off none = p
  read_reply-kept n off (some x) = p

  read_node_at-kept :
      (n : Option Handle) (off cnt : ℕ)
      → P (stored (read_node_at policy generate chosen n off cnt h w) h.fs)
  unfolding read_node_at
  read_node_at-kept none off cnt = p
  read_node_at-kept (some n) off cnt =
      let want = if ltb max_read cnt then max_read else cnt in
      let Q = λ (x : Reply). P (stored x h.fs) in
      if-Holds Q (is_type dir n h.fs) p (
        if-Holds Q (not (is_type reg n h.fs)) p
          (read_reply-kept n off (read_file generate chosen n off want (λ j. 0) h)))

  pub nfs_read-kept : (r : Reader) → P (stored (nfs_read policy generate chosen r h w) h.fs)
  unfolding nfs_read
  nfs_read-kept r = with_fh-Holds P h.fs (garbage h.fs w) r _ p (λ id snap r1 i v.
      if-Holds (λ x. P (stored x h.fs)) (not (read_u32 (read_u64 r1).1).1.ok) p
        (read_node_at-kept (node_by_id id snap h.fs) (read_u64 r1).0 (read_u32 (read_u64 r1).1).0))
