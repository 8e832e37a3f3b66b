-- ===== src/Mem/Refinement.antt =====
-- `MemStore` changes the names of the live view as the contract says.
use prfs.Prelude.{
  ℕ, ◌+◌, ◌%◌, ◌<◌, ◌≡◌, ◌≢◌, refl, sym, ap, ◌∙◌, List, Bool, true, false, ◌||◌, inl, inr, none,
  some, Option-cases, if◌then◌else◌, arith, length, same,
}
use prfs.Bytes.{Bytes, u64}
use prfs.Core.Record.{reg, blk, chr, Error, ok, noent, exist, notdir, isdir, inval, notempty, perm}
use prfs.Core.Store.{Handle, latest, rdev_spec}
use prfs.Core.Ops.{
  Op, creates, links, unlinks, moves, sets, sets_blob, sets_rdev, sets_seed, sets_config, sets_time,
  snapshots, Attr, mode, uid, gid, size, atime, mtime, ctime, atime_nsec, mtime_nsec,
}
use prfs.Names.{live, live_handle, same_name, View, after, IsPlain, TakesPlain, Refined}
use prfs.Mem.{NodeVer, MemStore, LinkKey, link_key_order, link_live_at, live_at_r, live_ver, touch}
use prfs.Mem.Ops.{link, unlink, move, new_store, add_link, alloc, unlink_after, is_type}
use prfs.Mem.Attrs.{
  with_attr, set_attr, set_mode, set_uid, set_gid, set_size, set_atime, set_mtime, set_ctime,
  set_atime_nsec, set_mtime_nsec, mutate, set_guarded, set_blob, set_rdev, set_content_seed,
}
use prfs.Mem.History.{snapshot}
use prfs.Mem.Runs.{apply, run, answer}
use prfs.Mem.Intervals.{sealed-IsTidy}
use prfs.Mem.Kept.{ivs_of}
use prfs.Mem.Invariant.{MemOk, live_at, add_link-Sets, remove_link-Sets, new_store-MemOk}
use prfs.Mem.Steps.{link-Outcome, unlink-Outcome}
use prfs.Mem.Lookups.{view, view-Sets, lookup-live_at, link-Refined, unlink-Refined, run-MemOk}

unlink_after_failed :
    (sd : Handle) (sn : Bytes) (p : Error × MemStore) → p.0 ≢ ok → unlink_after sd sn p ≡ p
unfolding unlink_after
unlink_after_failed sd sn (ok, s) h = absurd (h refl)
unlink_after_failed sd sn (noent, s) h = refl
unlink_after_failed sd sn (exist, s) h = refl
unlink_after_failed sd sn (notdir, s) h = refl
unlink_after_failed sd sn (isdir, s) h = refl
unlink_after_failed sd sn (inval, s) h = refl
unlink_after_failed sd sn (notempty, s) h = refl
unlink_after_failed sd sn (perm, s) h = refl

module _ (s : MemStore) (k : MemOk s) (e : ℕ) (n : Bytes) (plain : IsPlain e n) (sd : Handle)
    (sn : Bytes) (dd : Handle) (dn : Bytes) (taken : IsPlain sd.id sn) where
  abbrev Done : Error × MemStore → Type 0
  Done p = Refined (moves sd sn dd dn) p.0 (view s) (view p.1) e n

  -- The link is made: the old name still has its child, and loses it.
  linked-Done :
      (c : ℕ)
      → live_at s (sd.id, sn) ≡ some c
      → live_at s (dd.id, dn) ≡ none
      → Done (unlink sd sn (add_link dd.id dn c s))
  unfolding after
  linked-Done c there free =
      let t = add_link dd.id dn c s in
      let u = add_link-Sets s k dd.id dn c free in
      let still : live_at t (sd.id, sn) ≡ some c =
        u.live (sd.id, sn) ∙ rw there (either (same {K = LinkKey} (dd.id, dn) (sd.id, sn))) in
      let found : view s sd.id sn ≡ some (live c) =
        lookup-live_at sd.id sn s taken ∙ ap live_handle there in
      elim (unlink-Outcome sd sn t) [
        | inl (gone, r) ↦ absurd (cc (still, gone))
        | inr (c', there', r) ↦ rw r (
            inl (
              refl,
              view-Sets t u.mem_ok e n plain sd.id sn none _
                    (remove_link-Sets t u.mem_ok sd.id sn c')
                  ∙ ap (λ o. if same_name sd.id sn e n then none else o)
                      (view-Sets s k e n plain dd.id dn (some c) t u)
                  ∙ ap
                      (λ o.
                        if same_name sd.id sn e n
                        then none
                        else if same_name dd.id dn e n
                        then o
                        else view s e n)
                      (sym found),
            ))
      ]
    where
      either : (b : Bool) → (if b then some c else some c) ≡ some c
      either true = refl
      either false = refl

  pub move-Refined : Done (move sd sn dd dn s)
  unfolding move unlink_after link_live_at
  move-Refined = elim (Option-cases (link_live_at s (sd.id, sn) latest)) [
    | inl missing ↦ rw (missing, move) (inr (λ h. cc, refl))
    | inr (c, there) ↦
        rw (there, move)
          (elim (link-Outcome dd dn (record { id = c; snap = latest }) s) [
            | inl (r, free) ↦ rw r (linked-Done c there free)
            | inr (bad, r) ↦
                rw (unlink_after_failed sd sn (link dd dn (record { id = c; snap = latest }) s) bad)
                  (inr (bad, ap (λ t. view t e n) r))
          ])
  ]

module _ (s : MemStore) (k : MemOk s) (e : ℕ) (n : Bytes) (plain : IsPlain e n) where
  -- A call that keeps the links and the counter.
  kept_view :
      (t : MemStore) → ivs_of t (e, n) ≡ ivs_of s (e, n) → t.cur ≡ s.cur → view t e n ≡ view s e n
  kept_view t same_ivs same_cur =
      lookup-live_at e n t plain
      ∙ ap live_handle (
          ap (λ c. live_at_r (ivs_of t (e, n)) c) same_cur
          ∙ ap (λ ivs. live_at_r ivs s.cur) same_ivs)
      ∙ sym (lookup-live_at e n s plain)

  guarded-Refined :
      (op : Op) (wanted : Bool) (id : ℕ) (f : NodeVer → NodeVer)
      → ((m : View) → after op m e n ≡ m e n)
      → Refined op (set_guarded wanted id f s).0 (view s) (view (set_guarded wanted id f s).1) e n
  unfolding set_guarded mutate live_ver touch
  guarded-Refined op true id f same_names =
      inl (refl, kept_view (mutate id f s) refl refl ∙ sym (same_names (view s)))
  guarded-Refined op false id f same_names = inr (λ h. cc, refl)

  set_attr-view : (a : Attr) (h : Handle) (x : ℕ) → view (set_attr a h x s) e n ≡ view s e n
  unfolding set_mode set_uid set_gid set_size set_atime set_mtime set_ctime set_atime_nsec
      set_mtime_nsec mutate live_ver touch
  set_attr-view mode h x = kept_view _ refl refl
  set_attr-view uid h x = kept_view _ refl refl
  set_attr-view gid h x = kept_view _ refl refl
  set_attr-view size h x = kept_view _ refl refl
  set_attr-view atime h x = kept_view _ refl refl
  set_attr-view mtime h x = kept_view _ refl refl
  set_attr-view ctime h x = kept_view _ refl refl
  set_attr-view atime_nsec h x = kept_view _ refl refl
  set_attr-view mtime_nsec h x = kept_view _ refl refl

  snapshot-view : (label : Bytes) → s.cur + 1 < u64 → view (snapshot label s).1 e n ≡ view s e n
  unfolding snapshot
  snapshot-view label room =
      let next : (s.cur + 1) % u64 ≡ s.cur + 1 = omega arith in
      lookup-live_at e n _ plain
      ∙ ap live_handle (
          ap (live_at_r (ivs_of s (e, n))) next
          ∙ (sealed-IsTidy s.cur (ivs_of s (e, n)) (k.tidy (e, n))).1)
      ∙ sym (lookup-live_at e n s plain)

  pub step-Refined :
      (op : Op)
      → TakesPlain op
      → s.cur + 1 < u64
      → Refined op (answer op s) (view s) (view (apply op s)) e n
  unfolding after alloc touch set_blob set_rdev set_content_seed
  step-Refined (creates t blob spec) taken room = inl (refl, kept_view _ refl refl)
  step-Refined (links d name c) taken room = link-Refined s k e n plain d name c
  step-Refined (unlinks d name) taken room = unlink-Refined s k e n plain d name
  step-Refined (moves sd sn dd dn) taken room = move-Refined s k e n plain sd sn dd dn taken
  step-Refined (sets a h x) taken room = inl (refl, set_attr-view a h x)
  step-Refined (sets_blob h t blob) taken room =
      guarded-Refined (sets_blob h t blob) (is_type t h s) h.id (λ v. record v { blob = blob })
        (λ m. refl)
  step-Refined (sets_rdev h maj min) taken room =
      guarded-Refined (sets_rdev h maj min) (is_type blk h s || is_type chr h s) h.id
        (with_attr (λ a. record a { spec = rdev_spec maj min })) (λ m. refl)
  step-Refined (sets_seed h seed) taken room =
      guarded-Refined (sets_seed h seed) (is_type reg h s) h.id
        (with_attr (λ a. record a { spec = seed })) (λ m. refl)
  step-Refined (sets_config blob) taken room = inl (refl, kept_view _ refl refl)
  step-Refined (sets_time t) taken room = inl (refl, kept_view _ refl refl)
  step-Refined (snapshots label) taken room = inl (refl, snapshot-view label room)

-- In a reference store that any sequence of calls has made, short enough to leave room in the
-- snapshot counter, every call either succeeds and changes what `lookup` finds in the live view as
-- the contract says, or fails and changes nothing of it: for each name of each directory but
-- `.snapshot` and what is in it, where the name that an unlink or a move takes away is no such name.
pub mem_apply-Refined :
    (made : List Op) (op : Op) (e : ℕ) (n : Bytes)
    → 2 + length made < latest
    → IsPlain e n
    → TakesPlain op
    → Refined op
        (answer op (run made new_store))
        (view (run made new_store))
        (view (apply op (run made new_store)))
        e
        n
unfolding new_store
mem_apply-Refined made op e n room plain taken =
    let (k, small) = run-MemOk made new_store new_store-MemOk (omega arith) in
    step-Refined (run made new_store) k e n plain op taken (omega arith)
