-- ===== src/Mem/Attrs.antt =====
-- The accessors of `MemNode` and the guarded setters of `MemStore`.
use prfs.Prelude.{ℕ, ◌/◌, ◌%◌, [], ◌==◌, Bool, ◌&&◌, ◌||◌, not, Option, none, some, if◌then◌else◌}
use prfs.Bytes.{Bytes, u32}
use prfs.Core.Record.{FileType, reg, lnk, blk, chr, Error, ok, inval}
use prfs.Core.Store.{Handle, rdev_spec}
use prfs.Core.Ops.{
  Op, creates, links, unlinks, moves, sets, sets_blob, sets_rdev, sets_seed, sets_config, sets_time,
  mode, uid, gid, size, atime, mtime, ctime, atime_nsec, mtime_nsec,
}
use prfs.Core.Ops
use prfs.Mem.{Attr, NodeVer, MemStore, eff, eff_attr, live_ver, touch}
use prfs.Mem.Ops.{is_type}

-- A write to the live version, and its record among the changes.
unfoldable pub mutate : ℕ → (NodeVer → NodeVer) → MemStore → MemStore
unfolding live_ver touch
mutate id f s = touch id (live_ver id f s)

abbrev pub with_attr : (Attr → Attr) → NodeVer → NodeVer
with_attr f v = record v { a = f v.a }

unfoldable pub set_mode : Handle → ℕ → MemStore → MemStore
unfolding mutate
set_mode h x = mutate h.id (with_attr (λ a. record a { mode = x }))

unfoldable pub set_uid : Handle → ℕ → MemStore → MemStore
unfolding mutate
set_uid h x = mutate h.id (with_attr (λ a. record a { uid = x }))

unfoldable pub set_gid : Handle → ℕ → MemStore → MemStore
unfolding mutate
set_gid h x = mutate h.id (with_attr (λ a. record a { gid = x }))

unfoldable pub set_size : Handle → ℕ → MemStore → MemStore
unfolding mutate
set_size h x = mutate h.id (with_attr (λ a. record a { size = x }))

unfoldable pub set_atime : Handle → ℕ → MemStore → MemStore
unfolding mutate
set_atime h x = mutate h.id (with_attr (λ a. record a { atime = x; atime_ns = 0 }))

unfoldable pub set_mtime : Handle → ℕ → MemStore → MemStore
unfolding mutate
set_mtime h x = mutate h.id (with_attr (λ a. record a { mtime = x; mtime_ns = 0 }))

unfoldable pub set_ctime : Handle → ℕ → MemStore → MemStore
unfolding mutate
set_ctime h x = mutate h.id (with_attr (λ a. record a { ctime = x }))

unfoldable pub set_atime_nsec : Handle → ℕ → MemStore → MemStore
unfolding mutate
set_atime_nsec h x = mutate h.id (with_attr (λ a. record a { atime_ns = x }))

unfoldable pub set_mtime_nsec : Handle → ℕ → MemStore → MemStore
unfolding mutate
set_mtime_nsec h x = mutate h.id (with_attr (λ a. record a { mtime_ns = x }))

abbrev pub set_attr : prfs.Core.Ops.Attr → Handle → ℕ → MemStore → MemStore
set_attr mode = set_mode
set_attr uid = set_uid
set_attr gid = set_gid
set_attr size = set_size
set_attr atime = set_atime
set_attr mtime = set_mtime
set_attr ctime = set_ctime
set_attr atime_nsec = set_atime_nsec
set_attr mtime_nsec = set_mtime_nsec

-- The attributes behind a handle, of which `type()`, `mode()`, `size()` and the others give a
-- field.
unfoldable pub attrs : Handle → MemStore → Attr
unfolding eff_attr
attrs h s = eff_attr s h.id h.snap

abbrev pub blob_of : Option NodeVer → Bytes
blob_of none = []
blob_of (some v) = v.blob

abbrev pub spec_of : Option NodeVer → ℕ
spec_of none = 0
spec_of (some v) = let a = v.a in a.spec

unfoldable pub target : Handle → MemStore → Bytes
unfolding eff eff_attr
target h s = if is_type lnk h s then blob_of (eff s h.id h.snap) else []

unfoldable pub content : Handle → MemStore → Bytes
unfolding eff eff_attr
content h s = if is_type reg h s then blob_of (eff s h.id h.snap) else []

unfoldable pub rdev : Handle → MemStore → ℕ × ℕ
unfolding eff
rdev h s = let spec = spec_of (eff s h.id h.snap) in (spec / u32 % u32, spec % u32)

unfoldable pub content_seed : Handle → MemStore → ℕ
unfolding eff eff_attr
content_seed h s =
    let spec = spec_of (eff s h.id h.snap) in
    if is_type reg h s && not (spec == 0) then spec else h.id

-- A setter of `MemStore`: the wrong type is refused.
unfoldable pub set_guarded : Bool → ℕ → (NodeVer → NodeVer) → MemStore → Error × MemStore
unfolding mutate
set_guarded wanted id f s = if wanted then (ok, mutate id f s) else (inval, s)

unfoldable pub set_blob : Handle → FileType → Bytes → MemStore → Error × MemStore
unfolding set_guarded eff_attr
set_blob h want blob s = set_guarded (is_type want h s) h.id (λ v. record v { blob = blob }) s

unfoldable pub set_content : Handle → Bytes → MemStore → Error × MemStore
unfolding set_blob
set_content h c = set_blob h reg c

unfoldable pub set_target : Handle → Bytes → MemStore → Error × MemStore
unfolding set_blob
set_target h t = set_blob h lnk t

unfoldable pub set_rdev : Handle → ℕ → ℕ → MemStore → Error × MemStore
unfolding set_guarded eff_attr
set_rdev h maj min s =
    set_guarded (is_type blk h s || is_type chr h s) h.id
      (with_attr (λ a. record a { spec = rdev_spec maj min })) s

unfoldable pub set_content_seed : Handle → ℕ → MemStore → Error × MemStore
unfolding set_guarded eff_attr
set_content_seed h seed s =
    set_guarded (is_type reg h s) h.id (with_attr (λ a. record a { spec = seed })) s
