-- ===== src/Core/Namespace/Lookups.antt =====
-- What `lookup` finds after `link`, `unlink`, `move` and the other calls.
use prfs.Prelude.{
  ℕ, ◌+◌, ◌<◌, ◌≡◌, ◌≢◌, ◌⊎◌, refl, sym, ap, ◌∙◌, List, Bool, true, false, inl, inr, Option, none,
  some, if◌then◌else◌, arith, length, All,
}
use prfs.Bytes.{Bytes, u64, cmp, is_eq}
use prfs.Kv.{find}
use prfs.Core.Record.{NodeRec, Error, ok, noent}
use prfs.Core.Tables.{Db, load_node}
use prfs.Core.Links.{down_key, snapshot_name, child_of, child_in, to_child}
use prfs.Core.Store.{
  Store, Handle, latest, link, unlink, move, lookup, lookup_dir, lookup_at, is_snap_dir, rr,
  to_handle, move_t,
}
use prfs.Core.Ops.{
  StoreOk, Op, run, InRange, creates, links, unlinks, moves, sets, sets_blob, sets_rdev, sets_seed,
  sets_config, sets_time, snapshots, apply,
}
use prfs.Core.Store.{set_content_config, set_time}
use prfs.Core.Attrs.{set_blob, set_rdev, set_content_seed}
use prfs.Core.Tables.{put_meta}
use prfs.Core.Links.{remove_link}
use prfs.Core.Namespace.Changes.{up_links-IsHidden}
use prfs.Core.Namespace.Invariant.{Unseen, Unseen-NamesOk, set_attr-Unseen, set_guarded-Unseen}
use prfs.Core.Store.{open_store}
use prfs.Core.Tables.{empty_db, get_meta}
use prfs.Core.Sealed.{open_store-StoreOk}
use prfs.Core.Sealing.{reached-StoreOk}
use prfs.Core.Namespace.Transactions.{Sets}
use prfs.Core.Namespace.Reached.{run-NamesOk, open_store-NamesOk}
use prfs.Core.Invariant.{fits}
use prfs.Core.Namespace.Live.{live_at, child_of-live_at}
use prfs.Names.{live, live_handle, same_name}
use prfs.Core.Namespace.Refines.{link_t-Outcome, unlink_t-Outcome}
use prfs.Core.Namespace.Moves.{move_t-Outcome}
use prfs.Core.Namespace.Invariant.{NamesOk}

handle_of_child : (o : Option Bytes) → to_handle latest o ≡ live_handle (to_child o)
handle_of_child none = refl
handle_of_child (some v) = refl

lookup_at-child_in :
    (e : ℕ) (n : Bytes) (db : Db) (o : Option NodeRec)
    → is_eq (cmp n snapshot_name) ≡ false
    → lookup_at (live e) n db o ≡ live_handle (child_in e n db o)
unfolding lookup_at child_in
lookup_at-child_in e n db none plain = refl
lookup_at-child_in e n db (some r) plain =
    rw plain (handle_of_child (find (down_key e r.dn_link_ver n) db.down_links))

rr-live : (s : Store) → rr s latest ≡ s.cur
unfolding rr
rr-live s = refl

-- Besides `.snapshot`, `lookup` in the live view reads the live map.
pub lookup-live_at :
    (e : ℕ) (n : Bytes) (s : Store)
    → NamesOk s
    → e < u64
    → is_snap_dir e ≡ false
    → is_eq (cmp n snapshot_name) ≡ false
    → lookup (live e) n s ≡ live_handle (live_at s.cur s.db e n)
unfolding lookup lookup_dir rr child_of
lookup-live_at e n s k he real plain = rw real (
    lookup_at-child_in e n s.db (load_node s.db e s.cur) plain
    ∙ ap live_handle (child_of-live_at s.cur s.db e n he k.placed))

handle_if :
    (b : Bool) (x y : Option ℕ)
    → live_handle (if b then x else y) ≡ (if b then live_handle x else live_handle y)
handle_if true x y = refl
handle_if false x y = refl

unfoldable pub is_setter : Op → Bool
is_setter (sets a h x) = true
is_setter (sets_blob h t blob) = true
is_setter (sets_rdev h maj min) = true
is_setter (sets_seed h seed) = true
is_setter (sets_config blob) = true
is_setter (sets_time t) = true
is_setter _ = false

setter-Unseen :
    (op : Op) (s : Store) → StoreOk s → InRange op → is_setter op ≡ true → Unseen s (apply op s)
unfolding set_content_config set_time put_meta set_blob set_rdev set_content_seed is_setter
setter-Unseen (sets a d x) s k h e = set_attr-Unseen a d x s k h.0 h.1
setter-Unseen (sets_blob d t blob) s k h e =
    set_guarded-Unseen s d.id _ k h (λ r b. (omega arith, refl)) _
setter-Unseen (sets_rdev d maj min) s k h e =
    set_guarded-Unseen s d.id _ k h.0 (λ r b. (omega (arith, h.1, h.2), refl)) _
setter-Unseen (sets_seed d seed) s k h e =
    set_guarded-Unseen s d.id _ k h.0 (λ r b. (omega (arith, h.1), refl)) _
setter-Unseen (sets_config blob) s k h e = (refl, up_links-IsHidden s.cur s.db _ refl refl)
setter-Unseen (sets_time t) s k h e = (refl, up_links-IsHidden s.cur s.db _ refl refl)
setter-Unseen (creates t blob spec) s k h e = cc
setter-Unseen (links d name c) s k h e = cc
setter-Unseen (unlinks d name) s k h e = cc
setter-Unseen (moves sd sn dd dn) s k h e = cc
setter-Unseen (snapshots label) s k h e = cc

-- A store that calls have made of an empty engine, and a name of a directory in its live view.
module _ (made : List Op) (ranges : All InRange made) (room : 2 + length made < latest) (e : ℕ)
    (n : Bytes) (he : e < u64) (real : is_snap_dir e ≡ false)
    (plain : is_eq (cmp n snapshot_name) ≡ false) where
  abbrev s : Store
  s = run made (open_store empty_db)

  pub made-StoreOk : StoreOk s
  made-StoreOk = reached-StoreOk made ranges (omega arith)

  pub made-NamesOk : NamesOk s
  unfolding open_store get_meta find
  made-NamesOk =
      run-NamesOk made (open_store empty_db) open_store-StoreOk open_store-NamesOk ranges
        (omega arith)

  before : lookup (live e) n s ≡ live_handle (live_at s.cur s.db e n)
  before = lookup-live_at e n s made-NamesOk he real plain

  after : (t : Store) → NamesOk t → lookup (live e) n t ≡ live_handle (live_at t.cur t.db e n)
  after t k = lookup-live_at e n t k he real plain

  -- One name is set.
  lookup-Sets :
      (d : ℕ) (name : Bytes) (x : Option ℕ) (t : Store)
      → t.cur ≡ s.cur
      → NamesOk t
      → Sets s.cur d name x s.db t.db
      → lookup (live e) n t ≡ (if same_name d name e n then live_handle x else lookup (live e) n s)
  lookup-Sets d name x t same_cur k changes =
      after t k
      ∙ ap live_handle (ap (λ c. live_at c t.db e n) same_cur ∙ changes.live e n he)
      ∙ handle_if (same_name d name e n) x (live_at s.cur s.db e n)
      ∙ ap (λ o. if same_name d name e n then live_handle x else o) (sym before)

  -- In a store that any sequence of calls with arguments in range has made of an empty engine,
  -- short enough to leave room in the snapshot counter, a link between ids of 64 bits succeeds,
  -- and `lookup` in the live view finds the child behind the name and what it found behind every
  -- other name; or it fails and the store is as it was. The names looked up are those of
  -- directories with ids of 64 bits, but `.snapshot` and what is in it.
  pub link-lookup :
      (d : Handle) (name : Bytes) (c : Handle)
      → d.id < u64
      → c.id < u64
      → (((link d name c s).0 ≡ ok)
          × (lookup (live e) n (link d name c s).1
              ≡ (if same_name d.id name e n then some (live c.id) else lookup (live e) n s)))
        ⊎ (((link d name c s).0 ≢ ok) × ((link d name c s).1 ≡ s))
  unfolding link
  link-lookup d name c hd hc =
      elim (link_t-Outcome s.cur d.id name s.db (fits s made-StoreOk) made-NamesOk.started hd
        made-StoreOk.db_ok made-NamesOk.placed c.id hc) [
          | inl o ↦ inl (
            o.0,
            lookup-Sets d.id name (some c.id) _ refl
                (record { started = made-NamesOk.started; placed = o.1.placed }) o.1,
          )
          | inr o ↦ inr (o.0, ap (λ x. record s { db = x }) o.1)
        ]

  -- In a store that any sequence of calls with arguments in range has made of an empty engine,
  -- short enough to leave room in the snapshot counter, an unlink from a directory with an id of
  -- 64 bits, of a name but `.snapshot` and what is in it, fails where `lookup` finds nothing in
  -- the live view, and changes nothing then; else it succeeds, and `lookup` finds nothing behind
  -- the name any more, and what it found behind every other name. The names looked up are those
  -- of directories with ids of 64 bits, but `.snapshot` and what is in it.
  pub unlink-lookup :
      (d : Handle) (name : Bytes)
      → d.id < u64
      → is_snap_dir d.id ≡ false
      → is_eq (cmp name snapshot_name) ≡ false
      → ((lookup (live d.id) name s ≡ none) × (unlink d name s ≡ (noent, s)))
        ⊎ ((lookup (live d.id) name s ≢ none)
            × ((unlink d name s).0 ≡ ok)
            × (lookup (live e) n (unlink d name s).1
                ≡ (if same_name d.id name e n then none else lookup (live e) n s)))
  unfolding unlink
  unlink-lookup d name hd dreal dplain =
      let found = lookup-live_at d.id name s made-NamesOk hd dreal dplain in
      elim (unlink_t-Outcome s.cur d.id name s.db (fits s made-StoreOk) made-NamesOk.started hd
        made-StoreOk.db_ok made-NamesOk.placed) [
          | inl o ↦ inl (found ∙ ap live_handle o.0, ap with_tables o.1)
          | inr (c, x, r, u) ↦ inr (
            λ h. cc (h, found, x),
            ap (λ p. p.0) r,
            ap (λ p. lookup (live e) n (record s { db = p.1 })) r
                ∙ lookup-Sets d.id name none (record s { db = remove_link s.cur d.id name c s.db })
                    refl (record { started = made-NamesOk.started; placed = u.placed }) u,
          )
        ]
    where
      with_tables : Error × Db → Error × Store
      with_tables p = (p.0, record s { db = p.1 })

  -- In a store that any sequence of calls with arguments in range has made of an empty engine,
  -- short enough to leave room in the snapshot counter, a move between directories with ids of 64
  -- bits, of a name but `.snapshot` and what is in it, succeeds: what `lookup` found in the live
  -- view behind the old name it finds behind the new one, nothing behind the old name, and what
  -- it found behind every other name; or it fails and the store is as it was. The names looked up
  -- are those of directories with ids of 64 bits, but `.snapshot` and what is in it.
  pub move-lookup :
      (sd : Handle) (sn : Bytes) (dd : Handle) (dn : Bytes)
      → sd.id < u64
      → dd.id < u64
      → is_snap_dir sd.id ≡ false
      → is_eq (cmp sn snapshot_name) ≡ false
      → (((move sd sn dd dn s).0 ≡ ok)
          × (lookup (live e) n (move sd sn dd dn s).1 ≡ (
              if same_name sd.id sn e n
              then none
              else if same_name dd.id dn e n
              then lookup (live sd.id) sn s
              else lookup (live e) n s)))
        ⊎ (((move sd sn dd dn s).0 ≢ ok) × ((move sd sn dd dn s).1 ≡ s))
  unfolding move
  move-lookup sd sn dd dn hs hd sreal splain =
      elim (move_t-Outcome s.cur sd.id sn dd.id dn s.db (fits s made-StoreOk) made-NamesOk.started
        hs hd made-StoreOk.db_ok made-NamesOk.placed) [
          | inl (fine, m) ↦
              let t = record s { db = (move_t s.cur sd.id sn dd.id dn s.db).1 } in
              let found =
                lookup-live_at sd.id sn s made-NamesOk hs sreal splain ∙ ap live_handle m.from in
              inl (
                fine,
                after t (record { started = made-NamesOk.started; placed = m.placed })
                    ∙ ap live_handle (m.live e n he)
                    ∙ handle_if (same_name sd.id sn e n) none _
                    ∙ ap (λ o. if same_name sd.id sn e n then none else o)
                        (handle_if (same_name dd.id dn e n) (some m.child) (live_at s.cur s.db e n))
                    ∙ ap
                        (λ o.
                          if same_name sd.id sn e n
                          then none
                          else if same_name dd.id dn e n
                          then o
                          else live_handle (live_at s.cur s.db e n))
                        (sym found)
                    ∙ ap
                        (λ o.
                          if same_name sd.id sn e n
                          then none
                          else if same_name dd.id dn e n
                          then lookup (live sd.id) sn s
                          else o)
                        (sym before),
              )
          | inr o ↦ inr (o.0, ap (λ x. record s { db = x }) o.1)
        ]

  -- The calls that set attributes, contents, the policy or the time change no name.
  pub set-lookup :
      (op : Op)
      → InRange op
      → is_setter op ≡ true
      → lookup (live e) n (apply op s) ≡ lookup (live e) n s
  set-lookup op h setter =
      let u = setter-Unseen op s made-StoreOk h setter in
      after (apply op s) (Unseen-NamesOk s (apply op s) u made-NamesOk)
      ∙ ap live_handle (ap (λ c. live_at c (apply op s).db e n) u.0 ∙ u.1.live e n he)
      ∙ sym before
