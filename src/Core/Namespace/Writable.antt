-- ===== src/Core/Namespace/Writable.antt =====
-- Making a directory's links writable changes no name.
use prfs.Prelude.{
  ℕ, ◌<◌, ◌≤◌, ◌≡◌, refl, ap, ◌∙◌, subst, List, [], ◌∷◌, ◌++◌, ◌==◌, Bool, true, false, ◌&&◌,
  Bool-cases, inl, inr, Option, none, some, if◌then◌else◌, arith, map,
}
use prfs.Bytes.{Bytes, u64, be, has_prefix}
use prfs.Bytes.Order.{has_prefix-append}
use prfs.Bytes.Encoding.{be-append}
use prfs.Kv.{Map, find}
use prfs.Kv.Laws.{Sorted}
use prfs.Kv.Prefix.{scan_lem, with_prefix, find-with_prefix, with_prefix-Below}
use prfs.Core.Record.{NodeRec}
use prfs.Core.Tables.{Db, Link, load_node, store_node, or_empty, scan_down_links, to_link}
use prfs.Core.Links.{down_key, copy_down, ensure_writable_dn_links, to_child}
use prfs.Core.Loads.{Bounded, load_node-Bounded}
use prfs.Core.Writes.{DbOk, Writes-DbOk, done}
use prfs.Core.Transactions.{copy_down-Writes}
use prfs.Core.Namespace.Copies.{
  link_at, link_at-copy_down, copy_down_nodes, copy_down_other, or_link, AllUnder,
}
use prfs.Core.Namespace.Live.{
  IsPlaced, live_at, reached, link_ver, load_node-store_node, SameLive, versions_of,
}

with_prefix-AllUnder : (p : Bytes) (m : Map) → AllUnder p (with_prefix p m)
unfolding with_prefix
with_prefix-AllUnder p [] = tt
with_prefix-AllUnder p (e ∷ m) = elim (Bool-cases (has_prefix p e.0)) [
  | inl under ↦ rw under (under, with_prefix-AllUnder p m)
  | inr away ↦ rw away (with_prefix-AllUnder p m)
]

with_prefix-Sorted : (p : Bytes) (m : Map) → Sorted m → Sorted (with_prefix p m)
unfolding with_prefix
with_prefix-Sorted p [] s = tt
with_prefix-Sorted p ((k, v) ∷ m) s =
    ground (arith, with_prefix-Sorted p m s.1, with_prefix-Below p k m s.0 s.1)

same_id : (d : ℕ) → (d == d) ≡ true
same_id d = ground arith

with_cur :
    {cur : ℕ} (r : NodeRec)
    → Bounded cur r
    → cur < u64
    → Bounded cur (record r { dn_link_ver = cur })
with_cur r b h = omega arith

reached_old : {cur : ℕ} (o : Option NodeRec) → link_ver o < cur → versions_of o ≤ cur
reached_old none h = omega arith
reached_old (some r) h = omega arith

or_link-none : (o : Option Bytes) → or_link o none ≡ to_child o
or_link-none none = refl
or_link-none (some w) = refl

-- The directory `d` with links at an older version than the current one.
module _ (cur d : ℕ) (db : Db) (hc : cur < u64) (hd : d < u64) (good : DbOk cur db)
    (placed : IsPlaced cur db) (old : (link_ver (load_node db d cur) == cur) ≡ false) where
  abbrev rec : NodeRec
  rec = or_empty (load_node db d cur)

  abbrev links : List Link
  links = scan_down_links db d rec.dn_link_ver

  abbrev copied : Db
  copied = copy_down d cur links db

  rec-Bounded : Bounded cur rec
  rec-Bounded = load_node-Bounded cur d cur db hc hd hc good.nodes_ok

  older : rec.dn_link_ver < cur
  older = ground (arith, rec-Bounded.dn, old)

  copied-DbOk : DbOk cur copied
  copied-DbOk = Writes-DbOk (copy_down-Writes hc d links db done) good

  abbrev after : Db
  after = store_node d cur (record rec { dn_link_ver = cur }) copied

  load_copied : (i rg : ℕ) → load_node copied i rg ≡ load_node db i rg
  unfolding load_node
  load_copied i rg = rw (copy_down_nodes d cur links db) refl

  load_after :
      (i : ℕ)
      → i < u64
      → load_node after i cur
        ≡ (if d == i then some (record rec { dn_link_ver = cur }) else load_node db i cur)
  load_after i hi =
      load_node-store_node cur d (record rec { dn_link_ver = cur }) copied i hc hd hi
        (with_cur rec rec-Bounded hc) copied-DbOk
      ∙ ap (λ o. if d == i then some (record rec { dn_link_ver = cur }) else o) (load_copied i cur)

  prefix_of :
      (name : Bytes)
      → has_prefix (be d ++ be rec.dn_link_ver) (down_key d rec.dn_link_ver name) ≡ true
  prefix_of name =
      subst (λ k. has_prefix (be d ++ be rec.dn_link_ver) k ≡ true)
        (be-append d rec.dn_link_ver name) (has_prefix-append (be d ++ be rec.dn_link_ver) name)

  fresh : (name : Bytes) → find (down_key d cur name) db.down_links ≡ none
  fresh name = placed.none_newer d cur name hd hc (reached_old (load_node db d cur) older)

  -- The copies read as the links they are copies of.
  live_copied : (name : Bytes) → link_at copied.down_links d cur name ≡ live_at cur db d name
  unfolding scan_down_links
  live_copied name =
      let p = be d ++ be rec.dn_link_ver in
      let under = with_prefix p db.down_links in
      ap (λ m. link_at (copy_down d cur (map to_link m) db).down_links d cur name)
        (scan_lem p db.down_links good.down_sorted)
      ∙ link_at-copy_down d rec.dn_link_ver cur name under db hd hc
          (with_prefix-Sorted p db.down_links good.down_sorted)
          (with_prefix-AllUnder p db.down_links)
      ∙ ap (λ o. or_link o (link_at db.down_links d cur name))
          (find-with_prefix p (down_key d rec.dn_link_ver name) db.down_links good.down_sorted
            (prefix_of name))
      ∙ ap (or_link (find (down_key d rec.dn_link_ver name) db.down_links))
          (ap to_child (fresh name))
      ∙ or_link-none (find (down_key d rec.dn_link_ver name) db.down_links)

  kept_other :
      (e v : ℕ) (name : Bytes)
      → e < u64
      → v < u64
      → ((d == e) && (cur == v)) ≡ false
      → find (down_key e v name) copied.down_links ≡ find (down_key e v name) db.down_links
  kept_other e v name he hv apart = copy_down_other d cur links db e v name hd hc he hv apart

  after-IsPlaced : IsPlaced cur after
  unfolding store_node
  after-IsPlaced = record {
    none_newer = λ e v name he hv h.
        let far = far_apart e v (subst (λ o. versions_of o ≤ v) (load_after e he) h) in
        kept_other e v name he hv far.0 ∙ placed.none_newer e v name he hv far.1;
  }
    where
      far_apart :
          (e v : ℕ)
          → versions_of
              (if d == e then some (record rec { dn_link_ver = cur }) else load_node db e cur)
            ≤ v
          → (((d == e) && (cur == v)) ≡ false) × (reached cur db e ≤ v)
      far_apart e v h = elim (Bool-cases (d == e)) [
        | inl here ↦
            let past =
              subst
                (λ (b : Bool).
                  versions_of
                    (if b then some (record rec { dn_link_ver = cur }) else load_node db e cur)
                  ≤ v)
                here h in
            let e' : d ≡ e = ground (arith, here) in
            let low =
              subst (λ i. reached cur db i ≤ cur) e' (reached_old (load_node db d cur) older) in
            (ground (arith, past), omega (arith, low, past))
        | inr away ↦ (
          rw away refl,
          subst
              (λ (b : Bool).
                versions_of
                  (if b then some (record rec { dn_link_ver = cur }) else load_node db e cur)
                ≤ v)
              away h,
        )
      ]

  live_here : (name : Bytes) → live_at cur after d name ≡ live_at cur db d name
  unfolding store_node
  live_here name =
      ap (λ o. link_at copied.down_links d (link_ver o) name)
        (load_after d hd ∙ ap choose (same_id d))
      ∙ live_copied name
    where
      choose : Bool → Option NodeRec
      choose b = if b then some (record rec { dn_link_ver = cur }) else load_node db d cur

  live_away :
      (e : ℕ) (name : Bytes)
      → e < u64
      → (d == e) ≡ false
      → live_at cur after e name ≡ live_at cur db e name
  unfolding store_node
  live_away e name he away =
      let v = link_ver (load_node db e cur) in
      let b = load_node-Bounded cur e cur db hc he hc good.nodes_ok in
      ap (λ o. link_at copied.down_links e (link_ver o) name) (load_after e he ∙ ap choose away)
      ∙ ap to_child (kept_other e v name he (omega (arith, b.dn)) (rw away refl))
    where
      choose : Bool → Option NodeRec
      choose b = if b then some (record rec { dn_link_ver = cur }) else load_node db e cur

  after-SameLive : SameLive cur db after
  after-SameLive = record {
    same_live = λ e name he. elim (Bool-cases (d == e)) [
      | inl here ↦
          let e' : d ≡ e = ground (arith, here) in
          subst (λ i. live_at cur after i name ≡ live_at cur db i name) e' (live_here name)
      | inr away ↦ live_away e name he away
    ];
  }

-- A directory whose links are writable: the names are what they were, and its links stand at the
-- current snapshot.
pub record Writable (cur d : ℕ) (a b : Db) : Type 0 where
  pub placed : IsPlaced cur b
  pub same : SameLive cur a b
  pub at_cur : link_ver (load_node b d cur) ≡ cur

pub ensure_writable_dn_links-Writable :
    (cur d : ℕ) (db : Db)
    → cur < u64
    → d < u64
    → DbOk cur db
    → IsPlaced cur db
    → Writable cur d db (ensure_writable_dn_links cur d db)
unfolding ensure_writable_dn_links
ensure_writable_dn_links-Writable cur d db hc hd good placed =
    elim (Bool-cases (link_ver (load_node db d cur) == cur)) [
      | inl current ↦ rw current (record {
        placed = placed;
        same = record { same_live = λ e name he. refl };
        at_cur = ground (arith, current);
      })
      | inr old ↦ rw old (record {
        placed = after-IsPlaced cur d db hc hd good placed old;
        same = after-SameLive cur d db hc hd good placed old;
        at_cur = rw (load_after cur d db hc hd good placed old d hd, same_id d) refl;
      })
    ]
