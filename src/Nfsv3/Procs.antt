-- ===== src/Nfsv3/Procs.antt =====
-- Procedures of the NFSv3 front-end over the store. Each runs alone, under the host's mutex.
use prfs.Prelude.{
  ℕ, ◌+◌, ◌%◌, List, [], ◌∷◌, ◌==◌, ltb, Bool, true, false, ◌&&◌, not, Option, none, some,
  if◌then◌else◌, length,
}
use prfs.Bytes.{Bytes, u32, u64}
use prfs.Core.Record.{FileType, reg, dir, lnk, type_code, Error}
use prfs.Core.Store.{Store, Handle, latest, node_by_id, lookup, link, unlink, move}
use prfs.Core.Attrs.{attrs, target, content_seed, set_content_seed, set_size, set_mtime, set_ctime}
use prfs.Core.Views.{Named, readdir}
use prfs.Content.{ContentConfig}
use prfs.Nfsv3.{
  Reader, Str, refused, outside, taken, read_u32, read_u64, read_str, read_fh, put_u32, put_fh,
  put_str,
}
use prfs.Nfsv3.Attrs.{
  PreAttr, pre_of, encode_fattr, encode_post_op, encode_wcc, to_nfs_stat, mix_seed,
}

-- What becomes of a call: `undefined` stands for what `Reader.str` may do, `ended` for an exception,
-- which ends the session, and `replied` for the accept status, the result and the store after.
pub data Reply : Type 0 where
  undefined : Reply
  ended : Reply
  replied : ℕ → Bytes → Store → Reply

-- `SUCCESS` and `GARBAGE_ARGS`
abbrev pub success : Bytes → Store → Reply
success w s = replied 0 w s

abbrev pub garbage : Store → Bytes → Reply
garbage s w = replied 4 w s

abbrev pub is_type : FileType → Handle → Store → Bool
is_type t n s = (attrs n s).type == type_code t

-- The store after a call that begins in `s`.
abbrev pub stored : Reply → Store → Store
stored (replied st w t) s = t
stored other s = s

-- `if (!r.fh(id, snap))`, with the reply to bad arguments
abbrev pub with_fh : Reply → Option (ℕ × ℕ) × Reader → (ℕ → ℕ → Reader → Reply) → Reply
with_fh bad (none, r) act = bad
with_fh bad (some (id, snap), r) act = act id snap r

-- A string, and `if (!r.ok)`
abbrev pub with_str : Reply → Str → (Bytes → Reader → Reply) → Reply
with_str bad (refused r) act = bad
with_str bad outside act = undefined
with_str bad (taken name r) act = act name r

abbrev pub is_none : List Named → Bool
is_none [] = true
is_none (e ∷ es) = false

module _ (policy : Option ContentConfig) where
  unfoldable pub getattr : Option Handle → Store → Bytes → Reply
  unfolding put_u32 encode_fattr
  getattr none s w = success (put_u32 70 w) s
  getattr (some n) s w = success (encode_fattr policy n s (put_u32 0 w)) s

  unfoldable pub nfs_getattr : Reader → Store → Bytes → Reply
  unfolding read_fh node_by_id getattr
  nfs_getattr r s w =
      with_fh (garbage s w) (read_fh r) (λ id snap r1. getattr (node_by_id id snap s) s w)

  unfoldable pub readlink : Option Handle → Store → Bytes → Reply
  unfolding put_u32 put_str encode_post_op attrs target
  readlink none s w = success (put_u32 70 w) s
  readlink (some n) s w =
      if not (is_type lnk n s)
      then success (encode_post_op policy (some n) s (put_u32 22 w)) s
      else success (put_str (target n s) (encode_post_op policy (some n) s (put_u32 0 w))) s

  unfoldable pub nfs_readlink : Reader → Store → Bytes → Reply
  unfolding read_fh node_by_id readlink
  nfs_readlink r s w =
      with_fh (garbage s w) (read_fh r) (λ id snap r1. readlink (node_by_id id snap s) s w)

  unfoldable pub found_child : Handle → Option Handle → Store → Bytes → Reply
  unfolding put_u32 put_fh encode_post_op
  found_child d none s w = success (encode_post_op policy (some d) s (put_u32 2 w)) s
  found_child d (some child) s w =
      success
        (encode_post_op policy (some d) s
          (encode_post_op policy (some child) s (put_fh child.id child.snap (put_u32 0 w))))
        s

  unfoldable pub lookup_in : Option Handle → Bytes → Store → Bytes → Reply
  unfolding put_u32 encode_post_op attrs lookup found_child
  lookup_in none name s w = success (put_u32 70 w) s
  lookup_in (some d) name s w =
      if not (is_type dir d s)
      then success (encode_post_op policy (some d) s (put_u32 20 w)) s
      else found_child d (lookup d name s) s w

  unfoldable pub nfs_lookup : Reader → Store → Bytes → Reply
  unfolding read_fh read_str node_by_id lookup_in
  nfs_lookup r s w = with_fh (garbage s w) (read_fh r) (λ id snap r1.
      with_str (garbage s w) (read_str r1) (λ name r2. lookup_in (node_by_id id snap s) name s w))

  unfoldable pub nfs_access : Reader → Store → Bytes → Reply
  unfolding read_fh read_u32 node_by_id put_u32 encode_post_op
  nfs_access r s w = with_fh (garbage s w) (read_fh r) (λ id snap r1.
      let (want, r2) = read_u32 r1 in
      if not r2.ok then garbage s w else elim (node_by_id id snap s) [
        | none ↦ success (put_u32 70 w) s
        | some n ↦ success (put_u32 want (encode_post_op policy (some n) s (put_u32 0 w))) s
      ])

  -- A status and the `wcc_data` of one node, which is how the mutations end.
  abbrev pub status_wcc : ℕ → PreAttr → Option Handle → Store → Bytes → Reply
  status_wcc st pre n s w = success (encode_wcc policy pre n s (put_u32 st w)) s

  unfoldable pub touch_dir : Handle → Store → Store
  unfolding set_mtime set_ctime
  touch_dir d s = set_ctime d s.clock (set_mtime d s.clock s)

  abbrev pub touched : ℕ → Handle → Store → Store
  touched st d s = if st == 0 then touch_dir d s else s

  -- `diropParent` past its arguments, with what the verb does in a live directory
  unfoldable pub in_parent : ℕ → Option Handle → Store → Bytes → (Handle → PreAttr → Reply) → Reply
  unfolding pre_of attrs encode_wcc put_u32
  in_parent snap none s w act = status_wcc 70 (pre_of none s) none s w
  in_parent snap (some d) s w act =
      let pre = pre_of (some d) s in
      let done = act d pre in
      if not (is_type dir d s)
      then status_wcc 20 pre (some d) s w
      else if not (snap == latest)
      then status_wcc 30 pre (some d) s w
      else done

  -- The verbs do not pass on that `diropParent` cannot read its arguments: they succeed with an
  -- empty result.
  unfoldable pub dirop_parent :
      Reader → Store → Bytes → (Handle → PreAttr → Bytes → Reader → Reply) → Reply
  unfolding read_fh read_str node_by_id in_parent
  dirop_parent r s w act = with_fh (success w s) (read_fh r) (λ id snap r1.
      with_str (success w s) (read_str r1)
        (λ name r2. in_parent snap (node_by_id id snap s) s w (λ d pre. act d pre name r2)))

  abbrev pub after_error : Handle → PreAttr → Bytes → Error × Store → Reply
  after_error d pre w (e, s) =
      let st = to_nfs_stat e in status_wcc st pre (some d) (touched st d s) w

  unfoldable pub nfs_remove : Reader → Store → Bytes → Reply
  unfolding dirop_parent unlink to_nfs_stat touch_dir encode_wcc put_u32
  nfs_remove r s w = dirop_parent r s w (λ d pre name r1. after_error d pre w (unlink d name s))

  unfoldable pub rmdir_child : Handle → PreAttr → Bytes → Option Handle → Store → Bytes → Reply
  unfolding attrs readdir unlink to_nfs_stat touch_dir encode_wcc put_u32
  rmdir_child d pre name none s w = status_wcc 2 pre (some d) s w
  rmdir_child d pre name (some child) s w =
      if not (is_type dir child s)
      then status_wcc 20 pre (some d) s w
      else if not (is_none (readdir child s))
      then status_wcc 66 pre (some d) s w
      else after_error d pre w (unlink d name s)

  unfoldable pub nfs_rmdir : Reader → Store → Bytes → Reply
  unfolding dirop_parent lookup rmdir_child
  nfs_rmdir r s w =
      dirop_parent r s w (λ d pre name r1. rmdir_child d pre name (lookup d name s) s w)

  -- Both directories' `wcc_data`
  abbrev pub wcc_two : ℕ → PreAttr → Option Handle → PreAttr → Option Handle → Store → Bytes → Reply
  wcc_two st fpre fd tpre td s w =
      success (encode_wcc policy tpre td s (encode_wcc policy fpre fd s (put_u32 st w))) s

  abbrev pub after_move : Handle → PreAttr → Handle → PreAttr → Bytes → Error × Store → Reply
  after_move fd fpre td tpre w (e, s) =
      let st = to_nfs_stat e in
      let t = if st == 0 then touch_dir td (touch_dir fd s) else s in
      wcc_two st fpre (some fd) tpre (some td) t w

  unfoldable pub rename :
      ℕ → Option Handle → Bytes → ℕ → Option Handle → Bytes → Store → Bytes → Reply
  unfolding pre_of move to_nfs_stat touch_dir encode_wcc put_u32
  rename fsnap (some fd) from tsnap (some td) to s w =
      let fpre = pre_of (some fd) s in
      let tpre = pre_of (some td) s in
      if fsnap == latest && tsnap == latest
      then after_move fd fpre td tpre w (move fd from td to s)
      else wcc_two 30 fpre (some fd) tpre (some td) s w
  rename fsnap fd from tsnap td to s w = wcc_two 70 (pre_of fd s) fd (pre_of td s) td s w

  unfoldable pub nfs_rename : Reader → Store → Bytes → Reply
  unfolding read_fh read_str node_by_id rename
  nfs_rename r s w = with_fh (garbage s w) (read_fh r) (λ fid fsnap r1.
      with_str (garbage s w) (read_str r1) (λ from r2.
        with_fh (garbage s w) (read_fh r2) (λ tid tsnap r3.
          with_str (garbage s w) (read_str r3) (λ to r4.
            rename fsnap (node_by_id fid fsnap s) from tsnap (node_by_id tid tsnap s) to s w))))

  abbrev pub linked : Handle → Handle → PreAttr → Bytes → ℕ → Store → Reply
  linked file d pre w st s =
      success
        (encode_wcc policy pre (some d) s (encode_post_op policy (some file) s (put_u32 st w))) s

  abbrev pub after_link : Handle → Handle → PreAttr → Bytes → Error × Store → Reply
  after_link file d pre w (e, s) = let st = to_nfs_stat e in linked file d pre w st (touched st d s)

  unfoldable pub link_file : Option Handle → ℕ → Option Handle → Bytes → Store → Bytes → Reply
  unfolding pre_of link to_nfs_stat touch_dir encode_wcc encode_post_op put_u32
  link_file (some file) dsnap (some d) name s w =
      let pre = pre_of (some d) s in
      if dsnap == latest
      then after_link file d pre w (link d name file s)
      else linked file d pre w 30 s
  link_file file dsnap d name s w =
      success (encode_wcc policy (pre_of d s) d s (encode_post_op policy file s (put_u32 70 w))) s

  unfoldable pub nfs_link : Reader → Store → Bytes → Reply
  unfolding read_fh read_str node_by_id link_file
  nfs_link r s w = with_fh (garbage s w) (read_fh r) (λ fid fsnap r1.
      with_fh (garbage s w) (read_fh r1) (λ did dsnap r2.
        with_str (garbage s w) (read_str r2)
          (λ name r3. link_file (node_by_id fid fsnap s) dsnap (node_by_id did dsnap s) name s w)))

  -- What a WRITE does to the store: `off + data.size()` is a `uint64_t`.
  unfoldable pub written : Handle → ℕ → Bytes → Store → Store
  unfolding content_seed set_content_seed set_size set_mtime attrs mix_seed
  written n off bytes s =
      let s1 = (set_content_seed n (mix_seed (content_seed n s) off bytes) s).1 in
      let end = (off + length bytes) % u64 in
      let s2 = if ltb (attrs n s1).size end then set_size n end s1 else s1 in
      set_mtime n s2.clock s2

  unfoldable pub write : ℕ → Option Handle → ℕ → Bytes → Store → Bytes → Reply
  unfolding pre_of attrs encode_wcc put_u32 written
  write snap none off bytes s w = status_wcc 70 (pre_of none s) none s w
  write snap (some n) off bytes s w =
      let pre = pre_of (some n) s in
      let t = written n off bytes s in
      if not (is_type reg n s)
      then status_wcc 22 pre (some n) s w
      else if not (snap == latest)
      then status_wcc 30 pre (some n) s w
      else success
          (put_u32 0 (
            put_u32 0 (
              put_u32 2
                (put_u32 (length bytes % u32) (encode_wcc policy pre (some n) t (put_u32 0 w))))))
          t

  unfoldable pub nfs_write : Reader → Store → Bytes → Reply
  unfolding read_fh read_u64 read_u32 read_str node_by_id write
  nfs_write r s w = with_fh (garbage s w) (read_fh r) (λ id snap r1.
      let (off, r2) = read_u64 r1 in
      let (count, r3) = read_u32 r2 in
      let (stable, r4) = read_u32 r3 in
      with_str (garbage s w) (read_str r4)
        (λ bytes r5. write snap (node_by_id id snap s) off bytes s w))
