-- ===== src/Nfsv3/Making.antt =====
-- The verbs of the NFSv3 front-end that set attributes and make nodes, as programs over the store.
use prfs.Prelude.{ℕ, ◌<◌, ◌≡◌, refl, [], ◌==◌, Option, none, some, arith, not, ◌||◌, if◌then◌else◌}
use prfs.Bytes.{Bytes, u32, u64}
use prfs.Core.Record.{
  FileType, reg, dir, lnk, blk, chr, fifo, sock, Error, ok, noent, exist, notdir, isdir, inval,
  notempty, perm,
}
use prfs.Core.Store.{Store, Handle, latest, node_by_id, lookup, link, mkfile, mkdir, symlink, alloc}
use prfs.Core.Attrs.{set_target}
use prfs.Core.Ops.{
  Attr, mode, uid, gid, size, atime, mtime, ctime, atime_nsec, mtime_nsec, set_attr, width, StoreOk,
  creates, links, sets_blob, sets_rdev,
}
use prfs.Core.Invariant.{is_snapshot}
use prfs.Core.Sequences.{Runs, Runs-none, Runs-one, Runs-trans}
use prfs.Content.{ContentConfig}
use prfs.Nfsv3.{Reader, Cred, read_u32, read_u64, read_str}
use prfs.Nfsv3.Attrs.{PreAttr, apply_cred}
use prfs.Nfsv3.Bounds.{
  Fits, CredFits, if-Holds, node_by_id-Fits, lookup-Fits, read_u32-lt, read_u64-lt,
}
use prfs.Nfsv3.Procs.{Reply, garbage, stored}
use prfs.Nfsv3.Programs.{
  with_str-Holds, with_fh-Holds, dirop_parent-Holds, set_attr-Runs, touch_dir-Runs,
}
use prfs.Nfsv3.Creates.{
  set_word, set_long, set_when, apply_sattr, setattr, nfs_setattr, after_create, finish_create,
  create_at, nfs_create, dressed, nfs_mkdir, symlink_to, nfs_symlink, with_rdev, mknod_at,
  nfs_mknod,
}

module _ (s : Store) where
  -- One field of the attributes: the store is left, or the field is set to a value of its type.
  set_word-Runs :
      {t : Store} (a : Attr) (h : Handle) (r : Reader)
      → Runs s t
      → h.id < u64
      → width a ≡ u32
      → Runs s (set_word (set_attr a h) r t).1
  unfolding set_word
  set_word-Runs {t} a h r f hid wide =
      let r1 = (read_u32 r).1 in
      let fits : (read_u32 r1).0 < width a = omega (arith, read_u32-lt r1, wide) in
      if-Holds (λ (x : Reader × Store). Runs s x.1) ((read_u32 r).0 == 0) f
        (Runs-trans f (set_attr-Runs a h (read_u32 r1).0 t f.after hid fits))

  set_long-Runs :
      {t : Store} (a : Attr) (h : Handle) (r : Reader)
      → Runs s t
      → h.id < u64
      → width a ≡ u64
      → Runs s (set_long (set_attr a h) r t).1
  unfolding set_long
  set_long-Runs {t} a h r f hid wide =
      let r1 = (read_u32 r).1 in
      let fits : (read_u64 r1).0 < width a = omega (arith, read_u64-lt r1, wide) in
      if-Holds (λ (x : Reader × Store). Runs s x.1) ((read_u32 r).0 == 0) f
        (Runs-trans f (set_attr-Runs a h (read_u64 r1).0 t f.after hid fits))

  set_when-Runs :
      {t : Store} (a b : Attr) (h : Handle) (r : Reader)
      → Runs s t
      → h.id < u64
      → width a ≡ u64
      → width b ≡ u32
      → Runs s (set_when (set_attr a h) (set_attr b h) r t).1
  unfolding set_when
  set_when-Runs {t} a b h r f hid wide narrow =
      let r1 = (read_u32 r).1 in
      let r2 = (read_u32 r1).1 in
      let x = (read_u32 r1).0 in
      let ns = (read_u32 r2).0 in
      let now : t.clock < width a = omega (arith, f.after.clock_fits, wide) in
      let sec : x < width a = omega (arith, read_u32-lt r1, wide) in
      let nsec : ns < width b = omega (arith, read_u32-lt r2, narrow) in
      let one = Runs-trans f (set_attr-Runs a h x t f.after hid sec) in
      if-Holds (λ (y : Reader × Store). Runs s y.1) ((read_u32 r).0 == 1)
        (Runs-trans f (set_attr-Runs a h t.clock t f.after hid now))
        (if-Holds (λ (y : Reader × Store). Runs s y.1) ((read_u32 r).0 == 2)
          (Runs-trans one (set_attr-Runs b h ns (set_attr a h x t) one.after hid nsec)) f)

  apply_sattr-Runs :
      {t : Store} (h : Handle) (r : Reader) → Runs s t → h.id < u64 → Runs s (apply_sattr h r t).1
  unfolding apply_sattr
  apply_sattr-Runs {t} h r f hid =
      let p1 = set_word (set_attr mode h) r t in
      let p2 = set_word (set_attr uid h) p1.0 p1.1 in
      let p3 = set_word (set_attr gid h) p2.0 p2.1 in
      let p4 = set_long (set_attr size h) p3.0 p3.1 in
      let p5 = set_when (set_attr atime h) (set_attr atime_nsec h) p4.0 p4.1 in
      let f1 = set_word-Runs mode h r f hid refl in
      let f2 = set_word-Runs uid h p1.0 f1 hid refl in
      let f3 = set_word-Runs gid h p2.0 f2 hid refl in
      let f4 = set_long-Runs size h p3.0 f3 hid refl in
      let f5 = set_when-Runs atime atime_nsec h p4.0 f4 hid refl refl in
      set_when-Runs mtime mtime_nsec h p5.0 f5 hid refl refl

  apply_cred-Runs :
      {t : Store} (cred : Cred) (h : Handle)
      → Runs s t
      → CredFits cred
      → h.id < u64
      → Runs s (apply_cred cred (some h) t)
  unfolding apply_cred
  apply_cred-Runs {t} cred h f c hid =
      let one = Runs-trans f (set_attr-Runs uid h cred.uid t f.after hid c.0) in
      if-Holds (Runs s) cred.sys (Runs-trans one (set_attr-Runs gid h cred.gid _ one.after hid c.1))
        f

  -- A new node's number is the store's next one.
  dressed-Runs :
      (cred : Cred) (r : Reader) (t : FileType) (spec : ℕ)
      → StoreOk s
      → CredFits cred
      → spec < u64
      → Runs s (dressed cred r (alloc t [] spec s)).1
  unfolding dressed alloc is_snapshot
  dressed-Runs cred r t spec k c h =
      apply_sattr-Runs (alloc t [] spec s).0 r
        (apply_cred-Runs cred (alloc t [] spec s).0 (Runs-one (creates t [] spec) s k h refl) c
          k.next_fits)
        k.next_fits

  module _ (policy : Option ContentConfig) where
    after_create-Runs :
        {t : Store} (d : Handle) (pre : PreAttr) (child : Handle) (w : Bytes) (e : Error)
        → Runs s t
        → d.id < u64
        → Runs s (stored (after_create policy d pre child w (e, t)) s)
    after_create-Runs {t} d pre child w ok f hd =
        Runs-trans f (touch_dir-Runs policy d t f.after hd)
    after_create-Runs d pre child w noent f hd = f
    after_create-Runs d pre child w exist f hd = f
    after_create-Runs d pre child w notdir f hd = f
    after_create-Runs d pre child w isdir f hd = f
    after_create-Runs d pre child w notempty f hd = f
    after_create-Runs d pre child w perm f hd = f
    after_create-Runs d pre child w inval f hd = f

    finish_create-Runs :
        {t : Store} (d : Handle) (pre : PreAttr) (name : Bytes) (child : Handle) (w : Bytes)
        → Runs s t
        → d.id < u64
        → child.id < u64
        → Runs s (stored (finish_create policy d pre name child t w) s)
    unfolding finish_create is_snapshot
    finish_create-Runs {t} d pre name child w f hd hc =
        after_create-Runs d pre child w (link d name child t).0
          (Runs-trans f (Runs-one (links d name child) t f.after (hd, hc) refl)) hd

    module _ (k : StoreOk s) (w : Bytes) where
      setattr-Runs :
          (snap : ℕ) (n : Option Handle) (r : Reader)
          → Fits n
          → Runs s (stored (setattr policy snap n r s w) s)
      unfolding setattr
      setattr-Runs snap none r h = Runs-none s k
      setattr-Runs snap (some n) r h =
          let f = apply_sattr-Runs n r (Runs-none s k) h in
          if-Holds (λ x. Runs s (stored x s)) (not (snap == latest)) (Runs-none s k)
            (Runs-trans f (set_attr-Runs ctime n _ _ f.after h f.after.clock_fits))

      pub nfs_setattr-Runs : (r : Reader) → Runs s (stored (nfs_setattr policy r s w) s)
      unfolding nfs_setattr
      nfs_setattr-Runs r =
          with_fh-Holds (Runs s) s (garbage s w) r _ (Runs-none s k) (λ id snap r1 h hv.
            setattr-Runs snap (node_by_id id snap s) r1 (node_by_id-Fits id snap s h))

      module _ (cred : Cred) (c : CredFits cred) where
        create_at-Runs :
            (d : Handle) (pre : PreAttr) (name : Bytes) (how : ℕ) (child : Option Handle)
            (r : Reader)
            → d.id < u64
            → Fits child
            → Runs s (stored (create_at policy cred d pre name how child r s w) s)
        unfolding create_at mkfile alloc is_snapshot
        create_at-Runs d pre name how none r hd h =
            let made = mkfile [] s in
            let f =
              apply_cred-Runs cred made.0 (Runs-one (creates reg [] 0) s k (omega arith) refl) c
                k.next_fits in
            finish_create-Runs d pre name made.0 w
              (if-Holds (Runs s) (how == 2) f (apply_sattr-Runs made.0 r f k.next_fits)) hd
              k.next_fits
        create_at-Runs d pre name how (some existing) r hd h =
            let f = Runs-none s k in
            if-Holds (λ x. Runs s (stored x s)) (how == 1) f
              (if-Holds (Runs s) (how == 2) f (apply_sattr-Runs existing r f h))

        pub nfs_create-Runs : (r : Reader) → Runs s (stored (nfs_create policy cred r s w) s)
        unfolding nfs_create
        nfs_create-Runs r =
            dirop_parent-Holds policy (Runs s) r s w _ (Runs-none s k) (λ d pre name r1 hd.
              let r2 = (read_u32 r1).1 in
              if-Holds (λ x. Runs s (stored x s)) (not r2.ok) (Runs-none s k)
                (create_at-Runs d pre name (read_u32 r1).0 (lookup d name s) r2 hd
                  (lookup-Fits d name s)))

        pub nfs_mkdir-Runs : (r : Reader) → Runs s (stored (nfs_mkdir policy cred r s w) s)
        unfolding nfs_mkdir mkdir alloc
        nfs_mkdir-Runs r =
            dirop_parent-Holds policy (Runs s) r s w _ (Runs-none s k) (λ d pre name r1 hd.
              finish_create-Runs d pre name (mkdir s).0 w
                (dressed-Runs cred r1 dir 0 k c (omega arith)) hd k.next_fits)

        symlink_to-Runs :
            {t : Store} (d : Handle) (pre : PreAttr) (name : Bytes) (child : Handle) (r : Reader)
            → Runs s t
            → d.id < u64
            → child.id < u64
            → Runs s (stored (symlink_to policy d pre name child w (r, t)) s)
        unfolding symlink_to set_target is_snapshot
        symlink_to-Runs {t} d pre name child r f hd hc =
            with_str-Holds (Runs s) s (garbage t w) (read_str r) _ (Runs-none s k) f (λ target r1.
              finish_create-Runs d pre name child w
                (Runs-trans f (Runs-one (sets_blob child lnk target) t f.after hc refl)) hd hc)

        pub nfs_symlink-Runs : (r : Reader) → Runs s (stored (nfs_symlink policy cred r s w) s)
        unfolding nfs_symlink symlink alloc
        nfs_symlink-Runs r =
            dirop_parent-Holds policy (Runs s) r s w _ (Runs-none s k) (λ d pre name r1 hd.
              symlink_to-Runs d pre name (symlink [] s).0 (dressed cred r1 (symlink [] s)).0
                (dressed-Runs cred r1 lnk 0 k c (omega arith)) hd k.next_fits)

        with_rdev-Runs :
            {t : Store} (child : Handle) (r : Reader)
            → Runs s t
            → child.id < u64
            → Runs s (with_rdev child (r, t))
        unfolding is_snapshot
        with_rdev-Runs {t} child r f hc =
            let r1 = (read_u32 r).1 in
            Runs-trans f (
              Runs-one (sets_rdev child (read_u32 r).0 (read_u32 r1).0) t f.after
                (hc, read_u32-lt r, read_u32-lt r1) refl)

        mknod_at-Runs :
            (type : ℕ) (d : Handle) (pre : PreAttr) (name : Bytes) (r : Reader)
            → d.id < u64
            → Runs s (stored (mknod_at policy cred type d pre name r s w) s)
        unfolding mknod_at alloc
        mknod_at-Runs type d pre name r hd =
            let node = λ (t : FileType). dressed-Runs cred r t 0 k c (omega arith) in
            let dev = if type == 3 then blk else chr in
            let P = λ (x : Reply). Runs s (stored x s) in
            if-Holds P (type == 3 || type == 4)
              (finish_create-Runs d pre name (alloc dev [] 0 s).0 w
                (with_rdev-Runs (alloc dev [] 0 s).0 _ (node dev) k.next_fits) hd k.next_fits)
              (if-Holds P (type == 7)
                (finish_create-Runs d pre name (alloc fifo [] 0 s).0 w (node fifo) hd k.next_fits)
                (if-Holds P (type == 6)
                  (finish_create-Runs d pre name (alloc sock [] 0 s).0 w (node sock) hd k.next_fits)
                  (Runs-none s k)))

        pub nfs_mknod-Runs : (r : Reader) → Runs s (stored (nfs_mknod policy cred r s w) s)
        unfolding nfs_mknod
        nfs_mknod-Runs r =
            dirop_parent-Holds policy (Runs s) r s w _ (Runs-none s k)
              (λ d pre name r1 hd. mknod_at-Runs (read_u32 r1).0 d pre name (read_u32 r1).1 hd)
