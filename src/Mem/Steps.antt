-- ===== src/Mem/Steps.antt =====
-- The calls on `MemStore` as steps.
use prfs.Prelude.{
  ℕ, ◌≡◌, ◌≢◌, ◌⊎◌, refl, Bool, true, false, inl, inr, none, some, Option-cases, arith,
}
use prfs.Bytes.{Bytes}
use prfs.Core.Record.{FileType, Error, ok, noent, exist, notdir, isdir, inval, notempty, perm}
use prfs.Core.Store.{Handle, latest, rdev_spec}
use prfs.Core.Ops.{
  Op, creates, links, unlinks, moves, sets, sets_blob, sets_rdev, sets_seed, sets_config, sets_time,
  snapshots, Attr, mode, uid, gid, size, atime, mtime, ctime, atime_nsec, mtime_nsec,
}
use prfs.Mem
use prfs.Mem.{NodeVer, MemStore, link_live_at}
use prfs.Mem.Ops.{
  alloc, link, unlink, move, unlink_after, link_guard, add_link, remove_link, set_content_config,
  set_time,
}
use prfs.Mem.Attrs.{
  mutate, with_attr, set_guarded, set_attr, set_mode, set_uid, set_gid, set_size, set_atime,
  set_mtime, set_ctime, set_atime_nsec, set_mtime_nsec, set_blob, set_rdev, set_content_seed,
}
use prfs.Mem.History.{snapshot}
use prfs.Mem.Runs.{apply}
use prfs.Mem.Intervals.{IsInPlace}
use prfs.Mem.Invariant.{live_at}

-- What a call does in the current snapshot.
pub data Step : MemStore → MemStore → Type 0 where
  mutated : (id : ℕ) (f : NodeVer → NodeVer) → IsInPlace f → (s : MemStore) → Step s (mutate id f s)
  allocated :
      (t : FileType) (blob : Bytes) (spec : ℕ) (s : MemStore) → Step s (alloc t blob spec s).1
  linked :
      (d : ℕ) (name : Bytes) (c : ℕ) (s : MemStore)
      → live_at s (d, name) ≡ none
      → Step s (add_link d name c s)
  unlinked : (d : ℕ) (name : Bytes) (c : ℕ) (s : MemStore) → Step s (remove_link d name c s)
  configured : (blob : Bytes) (s : MemStore) → Step s (set_content_config blob s)
  timed : (t : ℕ) (s : MemStore) → Step s (set_time t s)

pub data Steps (a : MemStore) : MemStore → Type 0 where
  done : Steps a a
  more : {b c : MemStore} → Steps a b → Step b c → Steps a c

link_guard_taken :
    (d : Handle) (name : Bytes) (c : Handle) (s : MemStore) (x : ℕ)
    → link_live_at s (d.id, name) latest ≡ some x
    → link_guard d name c s ≢ ok
unfolding link_guard
link_guard_taken d name c s x e h = ground (arith, e, h)

abbrev pub LinkOutcome : ℕ → Bytes → ℕ → MemStore → Error × MemStore → Type 0
LinkOutcome d name c s r =
    ((r ≡ (ok, add_link d name c s)) × (live_at s (d, name) ≡ none)) ⊎ ((r.0 ≢ ok) × (r.1 ≡ s))

pub link-Outcome :
    (d : Handle) (name : Bytes) (c : Handle) (s : MemStore)
    → LinkOutcome d.id name c.id s (link d name c s)
unfolding link link_live_at
link-Outcome d name c s = through (link_guard d name c s) (λ h.
    elim (Option-cases (link_live_at s (d.id, name) latest)) [
      | inl free ↦ free
      | inr (x, taken) ↦ absurd (link_guard_taken d name c s x taken h)
    ])
  where
    through :
        (e : Error)
        → (e ≡ ok → live_at s (d.id, name) ≡ none)
        → LinkOutcome d.id name c.id s
            (elim e [ ok ↦ (ok, add_link d.id name c.id s) | e' ↦ (e', s) ])
    through ok free = inl (refl, free refl)
    through noent free = inr (λ e. cc, refl)
    through exist free = inr (λ e. cc, refl)
    through notdir free = inr (λ e. cc, refl)
    through isdir free = inr (λ e. cc, refl)
    through inval free = inr (λ e. cc, refl)
    through notempty free = inr (λ e. cc, refl)
    through perm free = inr (λ e. cc, refl)

-- `unlink` fails exactly where the name has no child.
pub unlink-Outcome :
    (d : Handle) (name : Bytes) (s : MemStore)
    → ((live_at s (d.id, name) ≡ none) × (unlink d name s ≡ (noent, s)))
      ⊎ (c : ℕ) × (live_at s (d.id, name) ≡ some c)
        × (unlink d name s ≡ (ok, remove_link d.id name c s))
unfolding unlink link_live_at
unlink-Outcome d name s = elim (Option-cases (link_live_at s (d.id, name) latest)) [
  | inl missing ↦ inl (missing, rw (missing, unlink) refl)
  | inr (c, e) ↦ inr (c, e, rw (e, unlink) refl)
]

link-Steps : (d : Handle) (name : Bytes) (c : Handle) (s : MemStore) → Steps s (link d name c s).1
link-Steps d name c s = elim (link-Outcome d name c s) [
  | inl (e, free) ↦ rw e (more done (linked d.id name c.id s free))
  | inr (bad, e) ↦ rw e done
]

unlink-Steps :
    {a : MemStore} (d : Handle) (name : Bytes) (s : MemStore)
    → Steps a s
    → Steps a (unlink d name s).1
unlink-Steps d name s w = elim (unlink-Outcome d name s) [
  | inl (missing, e) ↦ rw e w
  | inr (c, there, e) ↦ rw e (more w (unlinked d.id name c s))
]

after-Steps :
    (a : MemStore) (sd : Handle) (sn : Bytes) (p : Error × MemStore)
    → Steps a p.1
    → Steps a (unlink_after sd sn p).1
unfolding unlink_after
after-Steps a sd sn (ok, s) w = unlink-Steps sd sn s w
after-Steps a sd sn (noent, s) w = w
after-Steps a sd sn (exist, s) w = w
after-Steps a sd sn (notdir, s) w = w
after-Steps a sd sn (isdir, s) w = w
after-Steps a sd sn (inval, s) w = w
after-Steps a sd sn (notempty, s) w = w
after-Steps a sd sn (perm, s) w = w

move-Steps :
    (sd : Handle) (sn : Bytes) (dd : Handle) (dn : Bytes) (s : MemStore)
    → Steps s (move sd sn dd dn s).1
unfolding move
move-Steps sd sn dd dn s = elim (Option-cases (link_live_at s (sd.id, sn) latest)) [
  | inl missing ↦ rw (missing, move) done
  | inr (c, e) ↦
      let child : Handle = record { id = c; snap = latest } in
      rw (e, move) (after-Steps s sd sn (link dd dn child s) (link-Steps dd dn child s))
]

written :
    (id : ℕ) (f : prfs.Mem.Attr → prfs.Mem.Attr) (s : MemStore)
    → Steps s (mutate id (with_attr f) s)
written id f s = more done (mutated id (with_attr f) (λ v. refl) s)

set_attr-Steps : (a : Attr) (h : Handle) (x : ℕ) (s : MemStore) → Steps s (set_attr a h x s)
unfolding set_mode set_uid set_gid set_size set_atime set_mtime set_ctime set_atime_nsec
    set_mtime_nsec
set_attr-Steps mode h x s = written h.id (λ a. record a { mode = x }) s
set_attr-Steps uid h x s = written h.id (λ a. record a { uid = x }) s
set_attr-Steps gid h x s = written h.id (λ a. record a { gid = x }) s
set_attr-Steps size h x s = written h.id (λ a. record a { size = x }) s
set_attr-Steps atime h x s = written h.id (λ a. record a { atime = x; atime_ns = 0 }) s
set_attr-Steps mtime h x s = written h.id (λ a. record a { mtime = x; mtime_ns = 0 }) s
set_attr-Steps ctime h x s = written h.id (λ a. record a { ctime = x }) s
set_attr-Steps atime_nsec h x s = written h.id (λ a. record a { atime_ns = x }) s
set_attr-Steps mtime_nsec h x s = written h.id (λ a. record a { mtime_ns = x }) s

set_guarded-Steps :
    (wanted : Bool) (id : ℕ) (f : NodeVer → NodeVer) (s : MemStore)
    → IsInPlace f
    → Steps s (set_guarded wanted id f s).1
unfolding set_guarded
set_guarded-Steps true id f s p = more done (mutated id f p s)
set_guarded-Steps false id f s p = done

-- Every call but `snapshot` stays in the current snapshot.
pub apply-Steps :
    (op : Op) (s : MemStore)
    → Steps s (apply op s) ⊎ ((label : Bytes) × (apply op s ≡ (snapshot label s).1))
unfolding set_blob set_rdev set_content_seed
apply-Steps (creates t blob spec) s = inl (more done (allocated t blob spec s))
apply-Steps (links d name c) s = inl (link-Steps d name c s)
apply-Steps (unlinks d name) s = inl (unlink-Steps d name s done)
apply-Steps (moves sd sn dd dn) s = inl (move-Steps sd sn dd dn s)
apply-Steps (sets a h x) s = inl (set_attr-Steps a h x s)
apply-Steps (sets_blob h t blob) s =
    inl (set_guarded-Steps _ h.id (λ v. record v { blob = blob }) s (λ v. refl))
apply-Steps (sets_rdev h maj min) s = inl (
    set_guarded-Steps _ h.id (with_attr (λ a. record a { spec = rdev_spec maj min })) s (λ v. refl))
apply-Steps (sets_seed h seed) s =
    inl (set_guarded-Steps _ h.id (with_attr (λ a. record a { spec = seed })) s (λ v. refl))
apply-Steps (sets_config blob) s = inl (more done (configured blob s))
apply-Steps (sets_time t) s = inl (more done (timed t s))
apply-Steps (snapshots label) s = inr (label, refl)
