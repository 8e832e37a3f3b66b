-- ===== src/Mem/Isolation.antt =====
-- Snapshot isolation of `MemStore`: a view of a sealed snapshot reads the same after any calls.
use prfs.Prelude.{
  ℕ, ◌+◌, ◌<◌, ◌≤◌, ◌≡◌, refl, sym, ap, ◌∙◌, subst, List, [], ◌∷◌, ◌++◌, ◌==◌, length, false, inl,
  inr, arith, change_in, each-change_in, nat_order,
}
use prfs.Bytes.{Bytes, u64}
use prfs.Core.Store.{latest, is_snap_dir, snap_base}
use prfs.Core.Ops.{Op}
use prfs.Mem.{
  LinkIv, link_key_order, MemStore, eff, eff_attr, live_at_r, put_name, names_of, live_ver, touch,
}
use prfs.Mem.Ops.{alloc, add_link, remove_link, end_iv, inc_nlink, dec_nlink, lookup}
use prfs.Mem.Attrs.{attrs, mutate, content, target}
use prfs.Mem.Views.{readdir, parents, name_entries}
use prfs.Mem.History.{snapshot, snap_info}
use prfs.Mem.Runs.{apply, run}
use prfs.Mem.Intervals.{live_at_r-append, live_at_r-end_iv, has_child-append, has_child-end_iv}
use prfs.Mem.Listings.{name_entries-put_name}
use prfs.Mem.Kept.{
  Kept, Kept-refl, Kept-trans, links-Kept, mutate-Kept, alloc-Kept, snapshot-Kept,
  link_live_at-sealed, resolve-sealed, live_ver-Kept, same_tables-Kept,
}
use prfs.Mem.Invariant.{
  MemOk, mutate-MemOk, alloc-MemOk, snapshot-MemOk, add_link-Sets, remove_link-Sets,
}
use prfs.Mem.Steps.{
  Step, mutated, allocated, linked, unlinked, configured, timed, Steps, done, more, apply-Steps,
}

pub Step-same_cur : {a b : MemStore} → Step a b → b.cur ≡ a.cur
unfolding mutate live_ver touch alloc add_link remove_link
Step-same_cur (mutated id f p s) = refl
Step-same_cur (allocated t blob spec s) = refl
Step-same_cur (linked d name c s free) = refl
Step-same_cur (unlinked d name c s) = refl
Step-same_cur (configured blob s) = refl
Step-same_cur (timed t s) = refl

pub Step-MemOk : {a b : MemStore} → Step a b → MemOk a → MemOk b
Step-MemOk (mutated id f p s) k = mutate-MemOk s k id f
Step-MemOk (allocated t blob spec s) k = alloc-MemOk s k t blob spec
Step-MemOk (linked d name c s free) k = (add_link-Sets s k d name c free).mem_ok
Step-MemOk (unlinked d name c s) k = (remove_link-Sets s k d name c).mem_ok
Step-MemOk (configured blob s) k = record { started = k.started; tidy = k.tidy; listed = k.listed }
Step-MemOk (timed t s) k = record { started = k.started; tidy = k.tidy; listed = k.listed }

module _ (n : ℕ) (open' : n < latest) where
  add_link-Kept :
      (d : ℕ) (name : Bytes) (c : ℕ) (s : MemStore)
      → n < s.cur
      → MemOk s
      → Kept n s (add_link d name c s)
  unfolding add_link live_ver touch live_at_r
  add_link-Kept d name c s older k =
      Kept-trans
        (links-Kept n s older open' (d, name) (λ ivs. ivs ++ iv ∷ []) names
          (λ ivs. live_at_r-append n s.cur older iv ivs refl)
          (λ id ivs. has_child-append n s.cur older id iv ivs refl)
          (λ e.
            each-change_in
              (λ j ns.
                name_entries (record { id = j; snap = n }) ns s
                ≡ name_entries (record { id = j; snap = n }) (names_of s j) s)
              [] e d (put_name name) s.names
              (name_entries-put_name (record { id = d; snap = n }) name (names_of s d) s
                (λ h.
                  link_live_at-sealed s (d, name) n open'
                  ∙ ap (λ ivs. live_at_r ivs n) (k.listed d name h)))
              refl))
        (live_ver-Kept n linked' older open' c inc_nlink (λ v. refl) _)
    where
      iv : LinkIv
      iv = record { born = s.cur; dead = 0; child = c }

      names : List (ℕ × List Bytes)
      names = change_in d [] (put_name name) s.names

      linked' : MemStore
      linked' = record s {
        links = change_in (d, name) [] (λ ivs. ivs ++ iv ∷ []) s.links;
        names = names;
      }

  remove_link-Kept :
      (d : ℕ) (name : Bytes) (c : ℕ) (s : MemStore) → n < s.cur → Kept n s (remove_link d name c s)
  unfolding remove_link live_ver touch end_iv
  remove_link-Kept d name c s older =
      Kept-trans
        (links-Kept n s older open' (d, name) (end_iv s.cur) s.names
          (live_at_r-end_iv n s.cur older) (has_child-end_iv n s.cur older) (λ e. refl))
        (live_ver-Kept n (record s { links = change_in (d, name) [] (end_iv s.cur) s.links }) older
          open' c dec_nlink (λ v. refl) _)

  Step-Kept : {a b : MemStore} → Step a b → n < a.cur → MemOk a → Kept n a b
  Step-Kept (mutated id f p s) older k = mutate-Kept n s older open' id f p
  Step-Kept (allocated t blob spec s) older k = alloc-Kept n s older open' t blob spec
  Step-Kept (linked d name c s free) older k = add_link-Kept d name c s older k
  Step-Kept (unlinked d name c s) older k = remove_link-Kept d name c s older
  Step-Kept (configured blob s) older k = same_tables-Kept n s older open' blob s.clock
  Step-Kept (timed t s) older k = same_tables-Kept n s older open' s.content_config t

  -- The calls go on from a store whose counter has passed the snapshot.
  abbrev Holds : MemStore → MemStore → Type 0
  Holds a b = (b.cur ≡ a.cur) × MemOk b × Kept n a b

  Steps-Holds : {a b : MemStore} → Steps a b → n < a.cur → MemOk a → Holds a b
  Steps-Holds done older k = (refl, k, Kept-refl)
  Steps-Holds (more w t) older k =
      let (same_cur, k', kept) = Steps-Holds w older k in
      let older' = subst (λ c. n < c) (sym same_cur) older in
      (Step-same_cur t ∙ same_cur, Step-MemOk t k', Kept-trans kept (Step-Kept t older' k'))

  apply-Kept :
      (op : Op) (s : MemStore)
      → n < s.cur
      → s.cur + 1 < u64
      → MemOk s
      → (s.cur ≤ (apply op s).cur)
        × ((apply op s).cur ≤ s.cur + 1)
        × MemOk (apply op s)
        × Kept n s (apply op s)
  unfolding snapshot
  apply-Kept op s older room k = elim (apply-Steps op s) [
    | inl w ↦
        let (same_cur, k', kept) = Steps-Holds w older k in
        (omega (arith, same_cur), omega (arith, same_cur), k', kept)
    | inr (label, e) ↦ rw e (
      omega arith,
      omega arith,
      snapshot-MemOk s k label room,
      snapshot-Kept n s older open' label,
    )
  ]

  run-Kept :
      (ops : List Op) (s : MemStore)
      → n < s.cur
      → s.cur + length ops < u64
      → MemOk s
      → Kept n s (run ops s)
  unfolding run
  run-Kept [] s older room k = Kept-refl
  run-Kept (op ∷ ops) s older room k =
      let (up, small, k', kept) = apply-Kept op s older (omega arith) k in
      Kept-trans kept (run-Kept ops (apply op s) (omega arith) (omega arith) k')

-- The node `id` viewed at the snapshot `n` reads the same in both stores.
pub record SameView (n id : ℕ) (a b : MemStore) : Type 0 where
  pub same_attrs : attrs (record { id = id; snap = n }) b ≡ attrs (record { id = id; snap = n }) a
  pub same_content :
      content (record { id = id; snap = n }) b ≡ content (record { id = id; snap = n }) a
  pub same_target :
      target (record { id = id; snap = n }) b ≡ target (record { id = id; snap = n }) a
  pub same_lookup :
      (name : Bytes)
      → lookup (record { id = id; snap = n }) name b ≡ lookup (record { id = id; snap = n }) name a
  pub same_readdir :
      readdir (record { id = id; snap = n }) b ≡ readdir (record { id = id; snap = n }) a
  pub same_parents :
      parents (record { id = id; snap = n }) b ≡ parents (record { id = id; snap = n }) a
  pub same_info : snap_info n b ≡ snap_info n a

Kept-SameView :
    (n id : ℕ) (a b : MemStore)
    → n < latest
    → is_snap_dir id ≡ false
    → Kept n a b
    → SameView n id a b
unfolding attrs eff_attr eff content target lookup readdir parents snap_info
Kept-SameView n id a b open' real k =
    let ra = resolve-sealed a n open' in
    let rb = resolve-sealed b n open' in
    record {
      same_attrs = rw (ra, rb, k.vers id, k.vers (snap_base id)) refl;
      same_content = rw (ra, rb, k.vers id, k.vers (snap_base id)) refl;
      same_target = rw (ra, rb, k.vers id, k.vers (snap_base id)) refl;
      same_lookup = λ name.
          let sealed : (n == latest) ≡ false = ground arith in
          rw (real, sealed, k.vers id, k.lives (id, name)) refl;
      same_readdir = rw real (k.entries id);
      same_parents = rw (ra, rb) (k.containers _);
      same_info = rw (snap_info, k.info) refl;
    }

-- Snapshot isolation of the reference store. In a store whose links are well-formed, the attributes,
-- the content and the target, every lookup, the listing and the parents of a node viewed at a sealed
-- snapshot, and the snapshot's own record, are the same after any sequence of calls, for a node that
-- is not a `.snapshot` directory, as long as the snapshot counter stays below the number of the live
-- view.
pub run-MemSameView :
    (ops : List Op) (s : MemStore) (n id : ℕ)
    → MemOk s
    → s.cur + length ops < latest
    → n < s.cur
    → is_snap_dir id ≡ false
    → SameView n id s (run ops s)
run-MemSameView ops s n id k room older real =
    Kept-SameView n id s (run ops s) (omega arith) real
      (run-Kept n (omega arith) ops s older (omega arith) k)
