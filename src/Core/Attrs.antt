-- ===== src/Core/Attrs.antt =====
-- The attributes of a node: `readNode`, `mutateNode`, the accessors of `PrfsNode` and the guarded
-- setters of `PrfsStore`.
use prfs.Prelude.{ℕ, ◌/◌, ◌%◌, [], ◌==◌, Bool, ◌&&◌, ◌||◌, not, none, some, if◌then◌else◌}
use prfs.Bytes.{Bytes, u32}
use prfs.Core.Record.{
  NodeRec, empty_rec, FileType, reg, dir, lnk, blk, chr, type_code, Error, ok, noent, inval,
}
use prfs.Core.Tables.{load_node, or_empty, store_node}
use prfs.Core.Store.{Store, Handle, is_snap_dir, snap_base, rr, rdev_spec}

abbrev pub empty_rec_at : ℕ → ℕ → Store → NodeRec
empty_rec_at id snap s = or_empty (load_node s.db id (rr s snap))

-- `readNode` calls itself on the base of a `.snapshot` directory, which is none itself.
unfoldable pub read_node : ℕ → ℕ → Store → NodeRec
read_node id snap s =
    let base = empty_rec_at (snap_base id) snap s in
    if is_snap_dir id
    then record empty_rec {
      type = type_code dir;
      mode = 0o555;
      nlink = 1;
      atime = base.atime;
      mtime = base.mtime;
      ctime = base.ctime;
    }
    else empty_rec_at id snap s

-- `mutateNode` writes the record of the live view, whatever the handle's.
unfoldable pub mutate_node : ℕ → (NodeRec → NodeRec) → Store → Store
mutate_node id fn s = elim (load_node s.db id s.cur) [
  | none ↦ s
  | some r ↦ record s { db = store_node id s.cur (fn r) s.db }
]

-- The setters of `PrfsNode`; the arguments are of the fields' types.
unfoldable pub set_mode : Handle → ℕ → Store → Store
unfolding mutate_node
set_mode h x = mutate_node h.id (λ r. record r { mode = x })

unfoldable pub set_uid : Handle → ℕ → Store → Store
unfolding mutate_node
set_uid h x = mutate_node h.id (λ r. record r { uid = x })

unfoldable pub set_gid : Handle → ℕ → Store → Store
unfolding mutate_node
set_gid h x = mutate_node h.id (λ r. record r { gid = x })

unfoldable pub set_size : Handle → ℕ → Store → Store
unfolding mutate_node
set_size h x = mutate_node h.id (λ r. record r { size = x })

unfoldable pub set_atime : Handle → ℕ → Store → Store
unfolding mutate_node
set_atime h x = mutate_node h.id (λ r. record r { atime = x; atime_ns = 0 })

unfoldable pub set_mtime : Handle → ℕ → Store → Store
unfolding mutate_node
set_mtime h x = mutate_node h.id (λ r. record r { mtime = x; mtime_ns = 0 })

unfoldable pub set_ctime : Handle → ℕ → Store → Store
unfolding mutate_node
set_ctime h x = mutate_node h.id (λ r. record r { ctime = x })

unfoldable pub set_atime_nsec : Handle → ℕ → Store → Store
unfolding mutate_node
set_atime_nsec h x = mutate_node h.id (λ r. record r { atime_ns = x })

unfoldable pub set_mtime_nsec : Handle → ℕ → Store → Store
unfolding mutate_node
set_mtime_nsec h x = mutate_node h.id (λ r. record r { mtime_ns = x })

-- The record behind a handle, of which `type()`, `mode()`, `size()` and the others give a field.
unfoldable pub attrs : Handle → Store → NodeRec
unfolding read_node
attrs h s = read_node h.id h.snap s

unfoldable pub target : Handle → Store → Bytes
unfolding attrs
target h s = let r = attrs h s in if r.type == type_code lnk then r.blob else []

unfoldable pub content : Handle → Store → Bytes
unfolding attrs
content h s = let r = attrs h s in if r.type == type_code reg then r.blob else []

unfoldable pub rdev : Handle → Store → ℕ × ℕ
unfolding attrs
rdev h s = let spec = (attrs h s).spec in (spec / u32 % u32, spec % u32)

unfoldable pub content_seed : Handle → Store → ℕ
unfolding attrs
content_seed h s =
    let r = attrs h s in if r.type == type_code reg && not (r.spec == 0) then r.spec else h.id

-- `setBlob`, `setRdev` and `setContentSeed`: a missing node, a node of another type, the write.
unfoldable pub set_guarded : ℕ → (NodeRec → Bool) → (NodeRec → NodeRec) → Store → Error × Store
set_guarded id wanted fn s = elim (load_node s.db id s.cur) [
  | none ↦ (noent, s)
  | some r ↦
      if wanted r then (ok, record s { db = store_node id s.cur (fn r) s.db }) else (inval, s)
]

unfoldable pub set_blob : Handle → FileType → Bytes → Store → Error × Store
unfolding set_guarded
set_blob n want blob =
    set_guarded n.id (λ r. r.type == type_code want) (λ r. record r { blob = blob })

unfoldable pub set_content : Handle → Bytes → Store → Error × Store
unfolding set_blob
set_content n c = set_blob n reg c

unfoldable pub set_target : Handle → Bytes → Store → Error × Store
unfolding set_blob
set_target n t = set_blob n lnk t

unfoldable pub set_rdev : Handle → ℕ → ℕ → Store → Error × Store
unfolding set_guarded
set_rdev dev maj min =
    set_guarded dev.id (λ r. r.type == type_code blk || r.type == type_code chr)
      (λ r. record r { spec = rdev_spec maj min })

unfoldable pub set_content_seed : Handle → ℕ → Store → Error × Store
unfolding set_guarded
set_content_seed n seed =
    set_guarded n.id (λ r. r.type == type_code reg) (λ r. record r { spec = seed })
