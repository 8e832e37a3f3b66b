-- ===== src/Nfsv3/Programs.antt =====
-- The verbs of the NFSv3 front-end that change entries and file content, as programs over the store.
use prfs.Prelude.{
  ℕ, ◌+◌, ◌%◌, ◌<◌, refl, ◌==◌, ◌&&◌, Option, none, some, arith, ltb, not, ◌||◌, length, drop,
}
use prfs.Bytes.{Bytes, u64}
use prfs.Core.Record.{reg, dir}
use prfs.Core.Store.{Store, Handle, latest, node_by_id, lookup, link, unlink, move}
use prfs.Core.Attrs.{attrs, content_seed}
use prfs.Core.Views.{readdir}
use prfs.Core.Ops.{
  Attr, size, mtime, ctime, set_attr, width, StoreOk, sets, links, unlinks, moves, sets_seed,
}
use prfs.Core.Invariant.{is_snapshot}
use prfs.Core.Sequences.{Runs, Runs-none, Runs-one, Runs-trans}
use prfs.Content.{ContentConfig}
use prfs.Nfsv3.{
  Reader, Str, refused, outside, taken, read_str, read_fh, read_u32, read_u64, rd64, rest_of,
  advance,
}
use prfs.Nfsv3.Attrs.{PreAttr, pre_of, to_nfs_stat, mix_seed}
use prfs.Nfsv3.Bounds.{
  Fits, ViewFits, node_by_id-ViewFits, content_seed-lt, if-Holds, node_by_id-Fits, mix_seed-lt,
  rd64-lt,
}
use prfs.Nfsv3.Procs.{
  Reply, garbage, success, stored, with_str, with_fh, is_type, in_parent, dirop_parent, touch_dir,
  touched, after_error, is_none, rmdir_child, rename, link_file, written, write, nfs_write,
  nfs_remove, nfs_rmdir, nfs_rename, nfs_link,
}

-- A property of the store after a reply, from that of the replies that it may be.
pub with_str-Holds :
    (P : Store → Type 0) (s : Store) (bad : Reply) (x : Str) (act : Bytes → Reader → Reply)
    → P s
    → P (stored bad s)
    → ((name : Bytes) (r : Reader) → P (stored (act name r) s))
    → P (stored (with_str bad x act) s)
with_str-Holds P s bad (refused r) act p b h = b
with_str-Holds P s bad outside act p b h = p
with_str-Holds P s bad (taken name r) act p b h = h name r

-- The numbers of a handle that is read are of 64 bits.
pub with_fh-Holds :
    (P : Store → Type 0) (s : Store) (bad : Reply) (r : Reader) (act : ℕ → ℕ → Reader → Reply)
    → P (stored bad s)
    → ((id snap : ℕ) (r1 : Reader) → id < u64 → snap < u64 → P (stored (act id snap r1) s))
    → P (stored (with_fh bad (read_fh r) act) s)
unfolding read_fh
with_fh-Holds P s bad r act b h =
    let r1 = (read_u32 r).1 in
    if-Holds (λ (x : Option (ℕ × ℕ) × Reader). P (stored (with_fh bad x act) s))
      (not r1.ok || not ((read_u32 r).0 == 16) || ltb (length r1.p) (r1.pos + 16)) b
      (h (rd64 (rest_of r1)) (rd64 (drop 8 (rest_of r1))) (advance 16 r1) (rd64-lt (rest_of r1))
        (rd64-lt (drop 8 (rest_of r1))))

pub set_attr-Runs :
    (a : Attr) (h : Handle) (x : ℕ) (s : Store)
    → StoreOk s
    → h.id < u64
    → x < width a
    → Runs s (set_attr a h x s)
unfolding is_snapshot
set_attr-Runs a h x s k hid hx = Runs-one (sets a h x) s k (hid, hx) refl

module _ (policy : Option ContentConfig) where
  pub touch_dir-Runs :
      (d : Handle) (s : Store) → StoreOk s → d.id < u64 → Runs s (touch_dir policy d s)
  unfolding touch_dir
  touch_dir-Runs d s k h =
      let one = set_attr-Runs mtime d s.clock s k h k.clock_fits in
      Runs-trans one (set_attr-Runs ctime d s.clock _ one.after h k.clock_fits)

  touched-Runs :
      (st : ℕ) (d : Handle) (s t : Store) → Runs s t → d.id < u64 → Runs s (touched policy st d t)
  touched-Runs st d s t f h =
      if-Holds (Runs s) (st == 0) (Runs-trans f (touch_dir-Runs d t f.after h)) f

  -- A verb in a directory does what it does where the directory is there, or nothing.
  pub in_parent-Holds :
      (P : Store → Type 0) (snap : ℕ) (n : Option Handle) (s : Store) (w : Bytes)
      (act : Handle → PreAttr → Reply)
      → P s
      → Fits n
      → ((d : Handle) (pre : PreAttr) → d.id < u64 → P (stored (act d pre) s))
      → P (stored (in_parent policy snap n s w act) s)
  unfolding in_parent
  in_parent-Holds P snap none s w act p fits h = p
  in_parent-Holds P snap (some d) s w act p fits h =
      if-Holds (λ x. P (stored x s)) (not (is_type dir d s)) p
        (if-Holds (λ x. P (stored x s)) (not (snap == latest)) p (h d (pre_of (some d) s) fits))

  pub dirop_parent-Holds :
      (P : Store → Type 0) (r : Reader) (s : Store) (w : Bytes)
      (act : Handle → PreAttr → Bytes → Reader → Reply)
      → P s
      → ((d : Handle) (pre : PreAttr) (name : Bytes) (r1 : Reader)
          → d.id < u64
          → P (stored (act d pre name r1) s))
      → P (stored (dirop_parent policy r s w act) s)
  unfolding dirop_parent
  dirop_parent-Holds P r s w act p h = with_fh-Holds P s (success w s) r _ p (λ id snap r1 hid hv.
      with_str-Holds P s (success w s) (read_str r1) _ p p (λ name r2.
        in_parent-Holds P snap (node_by_id id snap s) s w (λ d pre. act d pre name r2) p
          (node_by_id-Fits id snap s hid) (λ d pre hd. h d pre name r2 hd)))

  module _ (s : Store) (k : StoreOk s) (w : Bytes) where
    after_unlink-Runs :
        (d : Handle) (pre : PreAttr) (name : Bytes)
        → d.id < u64
        → Runs s (stored (after_error policy d pre w (unlink d name s)) s)
    unfolding is_snapshot
    after_unlink-Runs d pre name h =
        touched-Runs (to_nfs_stat (unlink d name s).0) d s (unlink d name s).1
          (Runs-one (unlinks d name) s k h refl) h

    pub nfs_remove-Runs : (r : Reader) → Runs s (stored (nfs_remove policy r s w) s)
    unfolding nfs_remove
    nfs_remove-Runs r =
        dirop_parent-Holds (Runs s) r s w _ (Runs-none s k)
          (λ d pre name r1 h. after_unlink-Runs d pre name h)

    rmdir_child-Runs :
        (d : Handle) (pre : PreAttr) (name : Bytes) (child : Option Handle)
        → d.id < u64
        → Runs s (stored (rmdir_child policy d pre name child s w) s)
    unfolding rmdir_child
    rmdir_child-Runs d pre name none h = Runs-none s k
    rmdir_child-Runs d pre name (some child) h =
        if-Holds (λ x. Runs s (stored x s)) (not (is_type dir child s)) (Runs-none s k)
          (if-Holds (λ x. Runs s (stored x s)) (not (is_none (readdir child s))) (Runs-none s k)
            (after_unlink-Runs d pre name h))

    pub nfs_rmdir-Runs : (r : Reader) → Runs s (stored (nfs_rmdir policy r s w) s)
    unfolding nfs_rmdir
    nfs_rmdir-Runs r =
        dirop_parent-Holds (Runs s) r s w _ (Runs-none s k)
          (λ d pre name r1 h. rmdir_child-Runs d pre name (lookup d name s) h)

    rename-Runs :
        (fsnap : ℕ) (fd : Option Handle) (from : Bytes) (tsnap : ℕ) (td : Option Handle)
        (to : Bytes)
        → Fits fd
        → Fits td
        → Runs s (stored (rename policy fsnap fd from tsnap td to s w) s)
    unfolding rename is_snapshot
    rename-Runs fsnap none from tsnap td to f t = Runs-none s k
    rename-Runs fsnap (some fd) from tsnap none to f t = Runs-none s k
    rename-Runs fsnap (some fd) from tsnap (some td) to f t =
        let moved = Runs-one (moves fd from td to) s k (f, t) refl in
        let both = Runs-trans moved (touch_dir-Runs fd (move fd from td to s).1 moved.after f) in
        if-Holds (λ x. Runs s (stored x s)) (fsnap == latest && tsnap == latest)
          (if-Holds (Runs s) (to_nfs_stat (move fd from td to s).0 == 0)
            (Runs-trans both (touch_dir-Runs td _ both.after t)) moved)
          (Runs-none s k)

    pub nfs_rename-Runs : (r : Reader) → Runs s (stored (nfs_rename policy r s w) s)
    unfolding nfs_rename
    nfs_rename-Runs r =
        let none = Runs-none s k in
        with_fh-Holds (Runs s) s (garbage s w) r _ none (λ fid fsnap r1 hf fv.
          with_str-Holds (Runs s) s (garbage s w) (read_str r1) _ none none (λ from r2.
            with_fh-Holds (Runs s) s (garbage s w) r2 _ none (λ tid tsnap r3 ht tv.
              with_str-Holds (Runs s) s (garbage s w) (read_str r3) _ none none (λ to r4.
                rename-Runs fsnap (node_by_id fid fsnap s) from tsnap (node_by_id tid tsnap s) to
                  (node_by_id-Fits fid fsnap s hf) (node_by_id-Fits tid tsnap s ht)))))

    link_file-Runs :
        (file : Option Handle) (dsnap : ℕ) (d : Option Handle) (name : Bytes)
        → Fits file
        → Fits d
        → Runs s (stored (link_file policy file dsnap d name s w) s)
    unfolding link_file is_snapshot
    link_file-Runs none dsnap d name f h = Runs-none s k
    link_file-Runs (some file) dsnap none name f h = Runs-none s k
    link_file-Runs (some file) dsnap (some d) name f h =
        if-Holds (λ x. Runs s (stored x s)) (dsnap == latest)
          (touched-Runs (to_nfs_stat (link d name file s).0) d s (link d name file s).1
            (Runs-one (links d name file) s k (h, f) refl) h)
          (Runs-none s k)

    pub nfs_link-Runs : (r : Reader) → Runs s (stored (nfs_link policy r s w) s)
    unfolding nfs_link
    nfs_link-Runs r =
        let none = Runs-none s k in
        with_fh-Holds (Runs s) s (garbage s w) r _ none (λ fid fsnap r1 hf fv.
          with_fh-Holds (Runs s) s (garbage s w) r1 _ none (λ did dsnap r2 hd dv.
            with_str-Holds (Runs s) s (garbage s w) (read_str r2) _ none none (λ name r3.
              link_file-Runs (node_by_id fid fsnap s) dsnap (node_by_id did dsnap s) name
                (node_by_id-Fits fid fsnap s hf) (node_by_id-Fits did dsnap s hd))))

    written-Runs :
        (n : Handle) (off : ℕ) (bytes : Bytes)
        → n.id < u64
        → n.snap < u64
        → Runs s (written policy n off bytes s)
    unfolding written is_snapshot
    written-Runs n off bytes h v =
        let end = (off + length bytes) % u64 in
        let x = mix_seed (content_seed n s) off bytes in
        let one =
          Runs-one (sets_seed n x) s k (h, mix_seed-lt _ off bytes (content_seed-lt n s k h v))
            refl in
        let two =
          if-Holds (Runs s) (ltb (attrs n _).size end)
            (Runs-trans one (set_attr-Runs size n end _ one.after h (omega arith))) one in
        Runs-trans two (set_attr-Runs mtime n _ _ two.after h two.after.clock_fits)

    write-Runs :
        (snap : ℕ) (n : Option Handle) (off : ℕ) (bytes : Bytes)
        → Fits n
        → ViewFits n
        → Runs s (stored (write policy snap n off bytes s w) s)
    unfolding write
    write-Runs snap none off bytes f v = Runs-none s k
    write-Runs snap (some n) off bytes f v =
        if-Holds (λ x. Runs s (stored x s)) (not (is_type reg n s)) (Runs-none s k)
          (if-Holds (λ x. Runs s (stored x s)) (not (snap == latest)) (Runs-none s k)
            (written-Runs n off bytes f v))

    pub nfs_write-Runs : (r : Reader) → Runs s (stored (nfs_write policy r s w) s)
    unfolding nfs_write
    nfs_write-Runs r =
        with_fh-Holds (Runs s) s (garbage s w) r _ (Runs-none s k) (λ id snap r1 h hv.
          with_str-Holds (Runs s) s (garbage s w)
            (read_str (read_u32 (read_u32 (read_u64 r1).1).1).1) _ (Runs-none s k) (Runs-none s k)
            (λ bytes r5.
              write-Runs snap (node_by_id id snap s) (read_u64 r1).0 bytes
                (node_by_id-Fits id snap s h) (node_by_id-ViewFits id snap s hv)))
