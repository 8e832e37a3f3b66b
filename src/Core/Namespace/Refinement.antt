-- ===== src/Core/Namespace/Refinement.antt =====
-- `PrfsStore` changes the names of the live view as the contract says.
use prfs.Prelude.{
  ℕ, ◌+◌, ◌%◌, ◌<◌, ◌≤◌, ◌≡◌, ◌≢◌, ◌⊎◌, refl, sym, ap, ◌∙◌, List, [], ◌∷◌, ◌==◌, true, false, inl,
  inr, arith, length, All,
}
use prfs.Bytes.{Bytes, u64}
use prfs.Core.Record.{FileType, Error, ok, noent, exist, notdir, isdir, inval, notempty, perm}
use prfs.Core.Tables.{empty_db, load_node, put_meta, get_meta, store_node}
use prfs.Kv.{find}
use prfs.Core.Store.{Store, Handle, latest, alloc, lookup, open_store, unlink}
use prfs.Core.History.{snapshot}
use prfs.Core.Ops.{
  Op, creates, links, unlinks, moves, sets, sets_blob, sets_rdev, sets_seed, sets_config, sets_time,
  snapshots, apply, run, InRange, StoreOk,
}
use prfs.Core.Errors.{answer}
use prfs.Core.Latest.{load_node_later}
use prfs.Core.Sealed.{apply-cur, apply-StoreOk, open_store-StoreOk}
use prfs.Names.{live, live_handle, View, after, IsPlain, TakesPlain, MakesOther, Refined}
use prfs.Core.Namespace.Live.{link_ver}
use prfs.Core.Namespace.Copies.{link_at}
use prfs.Core.Namespace.Invariant.{NamesOk, snapshot-NamesOk}
use prfs.Core.Namespace.Reached.{load_node-alloc, alloc-NamesOk}
use prfs.Core.Namespace.Lookups.{
  lookup-live_at, link-lookup, unlink-lookup, move-lookup, set-lookup, is_setter, made-NamesOk,
  made-StoreOk,
}

abbrev pub view : Store → View
view s e n = lookup (live e) n s

Error-cases : (e : Error) → (e ≡ ok) ⊎ (e ≢ ok)
Error-cases ok = inl refl
Error-cases noent = inr (λ h. cc)
Error-cases exist = inr (λ h. cc)
Error-cases notdir = inr (λ h. cc)
Error-cases isdir = inr (λ h. cc)
Error-cases inval = inr (λ h. cc)
Error-cases notempty = inr (λ h. cc)
Error-cases perm = inr (λ h. cc)

module _ (s : Store) (k : StoreOk s) (names : NamesOk s) (e : ℕ) (n : Bytes) (he : e < u64)
    (plain : IsPlain e n) where
  -- A store with the same links, and the same record of the directory.
  view_kept :
      (t : Store)
      → NamesOk t
      → t.db.down_links ≡ s.db.down_links
      → load_node t.db e t.cur ≡ load_node s.db e s.cur
      → view t e n ≡ view s e n
  view_kept t names_t same_links same_rec =
      lookup-live_at e n t names_t he plain.0 plain.1
      ∙ ap live_handle (
          ap (λ m. link_at m e (link_ver (load_node t.db e t.cur)) n) same_links
          ∙ ap (λ o. link_at s.db.down_links e (link_ver o) n) same_rec)
      ∙ sym (lookup-live_at e n s names he plain.0 plain.1)

  alloc-view :
      (t : FileType) (blob : Bytes) (spec : ℕ)
      → spec < u64
      → e ≢ s.next
      → view (alloc t blob spec s).1 e n ≡ view s e n
  unfolding alloc put_meta store_node
  alloc-view t blob spec h other =
      let away : (s.next == e) ≡ false = ground arith in
      view_kept (alloc t blob spec s).1 (alloc-NamesOk t blob spec s k h names) refl
        (load_node-alloc t blob spec s k h e he ∙ rw away refl)

  snapshot-view : (label : Bytes) → s.cur + 1 < latest → view (snapshot label s).1 e n ≡ view s e n
  unfolding snapshot put_meta load_node
  snapshot-view label room =
      view_kept (snapshot label s).1 (snapshot-NamesOk label s k room names) refl (
        load_node_later e s.cur ((s.cur + 1) % u64) he (omega arith) (omega arith) s.db
          k.db_ok.nodes_ok)

run-cur :
    (ops : List Op) (s : Store)
    → StoreOk s
    → All InRange ops
    → s.cur + length ops < latest
    → (run ops s).cur ≤ s.cur + length ops
unfolding run
run-cur [] s k h room = omega arith
run-cur (op ∷ ops) s k h room =
    let c = apply-cur op s k h.0 (omega arith) in
    omega (
      arith,
      c,
      run-cur ops (apply op s) (apply-StoreOk op s k h.0 (omega arith)) h.1 (omega (arith, c)),
    )

module _ (made : List Op) (ranges : All InRange made) (room : 2 + length made < latest) (e : ℕ)
    (n : Bytes) (he : e < u64) (plain : IsPlain e n) where
  abbrev made_store : Store
  made_store = run made (open_store empty_db)

  made_room : made_store.cur + 1 < latest
  unfolding open_store get_meta find
  made_room =
      omega (arith, run-cur made (open_store empty_db) open_store-StoreOk ranges (omega arith))

  set-Refined :
      (op : Op)
      → InRange op
      → is_setter op ≡ true
      → ((m : View) → after op m e n ≡ m e n)
      → Refined op (answer op made_store) (view made_store) (view (apply op made_store)) e n
  set-Refined op h setter same_names =
      let same_view = set-lookup made ranges room e n he plain.0 plain.1 op h setter in
      elim (Error-cases (answer op made_store)) [
        | inl fine ↦ inl (fine, same_view ∙ sym (same_names (view made_store)))
        | inr bad ↦ inr (bad, same_view)
      ]

  unlink-Refined :
      (d : Handle) (name : Bytes)
      → d.id < u64
      → IsPlain d.id name
      → Refined
          (unlinks d name)
          (unlink d name made_store).0
          (view made_store)
          (view (unlink d name made_store).1)
          e
          n
  unfolding after
  unlink-Refined d name hd taken =
      elim (unlink-lookup made ranges room e n he plain.0 plain.1 d name hd taken.0 taken.1) [
        | inl (missing, r) ↦ rw r (inr (λ h. cc, refl))
        | inr (found, fine, v) ↦ inl (fine, v)
      ]

  -- In a store that any sequence of calls with arguments in range has made of an empty engine, short
  -- enough to leave room in the snapshot counter, every call with arguments in range either succeeds
  -- and changes what `lookup` finds in the live view as the contract says, or fails and changes
  -- nothing of it: for each name of each directory with an id of 64 bits but `.snapshot`, what is in
  -- it, and the node that the call creates, where the name that an unlink or a move takes away is no
  -- such name.
  pub apply-Refined :
      (op : Op)
      → InRange op
      → TakesPlain op
      → MakesOther op made_store.next e
      → Refined op (answer op made_store) (view made_store) (view (apply op made_store)) e n
  unfolding after is_setter
  apply-Refined (creates t blob spec) h taken other = inl (
    refl,
    alloc-view made_store (made-StoreOk made ranges room e n he plain.0 plain.1)
        (made-NamesOk made ranges room e n he plain.0 plain.1) e n he plain t blob spec h other,
  )
  apply-Refined (links d name c) h taken other =
      elim (link-lookup made ranges room e n he plain.0 plain.1 d name c h.0 h.1) [
        | inl o ↦ inl o
        | inr (bad, r) ↦ inr (bad, ap (λ t. view t e n) r)
      ]
  apply-Refined (unlinks d name) h taken other = unlink-Refined d name h taken
  apply-Refined (moves sd sn dd dn) h taken other =
      elim (move-lookup made ranges room e n he plain.0 plain.1 sd sn dd dn h.0 h.1 taken.0
        taken.1) [ inl o ↦ inl o | inr (bad, r) ↦ inr (bad, ap (λ t. view t e n) r) ]
  apply-Refined (sets a h x) r taken other = set-Refined (sets a h x) r refl (λ m. refl)
  apply-Refined (sets_blob h t blob) r taken other =
      set-Refined (sets_blob h t blob) r refl (λ m. refl)
  apply-Refined (sets_rdev h maj min) r taken other =
      set-Refined (sets_rdev h maj min) r refl (λ m. refl)
  apply-Refined (sets_seed h seed) r taken other = set-Refined (sets_seed h seed) r refl (λ m. refl)
  apply-Refined (sets_config blob) r taken other = set-Refined (sets_config blob) r refl (λ m. refl)
  apply-Refined (sets_time t) r taken other = set-Refined (sets_time t) r refl (λ m. refl)
  apply-Refined (snapshots label) r taken other = inl (
    refl,
    snapshot-view made_store (made-StoreOk made ranges room e n he plain.0 plain.1)
        (made-NamesOk made ranges room e n he plain.0 plain.1) e n he plain label made_room,
  )
