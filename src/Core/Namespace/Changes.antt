-- ===== src/Core/Namespace/Changes.antt =====
-- What `linkT` and `unlinkT` write, on the live map.
use prfs.Prelude.{
  ℕ, suc, ◌<◌, ◌≤◌, ◌≡◌, refl, sym, ap, ◌∙◌, subst, List, [], ◌∷◌, ◌++◌, ◌==◌, Bool, true, false,
  Bool-cases, inl, inr, Option, none, some, if◌then◌else◌, arith, map,
}
use prfs.Bytes.{Bytes, u64, be}
use prfs.Kv.{Map, find}
use prfs.Kv.Prefix.{scan}
use prfs.Core.Record.{NodeRec}
use prfs.Names.{same_name}
use prfs.Core.Tables.{Db, load_node, store_node, or_empty}
use prfs.Core.Links.{down_key, ensure_writable_up_links, to_child, copy_up, suffix}
use prfs.Core.Loads.{Bounded, load_node-Bounded}
use prfs.Core.Writes.{DbOk, Writes-DbOk, done}
use prfs.Core.Transactions.{loaded, with_up, copy_up-Writes}
use prfs.Core.Namespace.Keys.{same_key}
use prfs.Core.Namespace.Live.{
  IsPlaced, live_at, reached, link_ver, store_node-SameLive, store_node-IsPlaced, versions_of,
  link_ver_kept,
}

-- A change that no name and no link version shows.
pub record IsHidden (cur : ℕ) (a b : Db) : Type 0 where
  pub vers : (i : ℕ) → i < u64 → link_ver (load_node b i cur) ≡ link_ver (load_node a i cur)
  pub live : (d : ℕ) (name : Bytes) → d < u64 → live_at cur b d name ≡ live_at cur a d name
  pub placed : IsPlaced cur a → IsPlaced cur b

pub IsHidden-trans : {cur : ℕ} {a b c : Db} → IsHidden cur a b → IsHidden cur b c → IsHidden cur a c
IsHidden-trans f g = record {
  vers = λ i h. g.vers i h ∙ f.vers i h;
  live = λ d name h. g.live d name h ∙ f.live d name h;
  placed = λ p. g.placed (f.placed p);
}

pub up_links-IsHidden :
    (cur : ℕ) (a b : Db) → b.nodes ≡ a.nodes → b.down_links ≡ a.down_links → IsHidden cur a b
unfolding load_node
up_links-IsHidden cur a b same_nodes same_links = record {
  vers = λ i h. rw same_nodes refl;
  live = λ d name h. rw (same_nodes, same_links) refl;
  placed = λ p. record {
    none_newer =
        λ d v name hd hv h. rw same_links (p.none_newer d v name hd hv (rw (sym same_nodes) h));
  };
}

copy_up_same :
    (c cur : ℕ) (ls : List Bytes) (db : Db)
    → ((copy_up c cur ls db).nodes ≡ db.nodes) × ((copy_up c cur ls db).down_links ≡ db.down_links)
unfolding copy_up
copy_up_same c cur [] db = (refl, refl)
copy_up_same c cur (l ∷ ls) db = copy_up_same c cur ls _

-- A record stored with the link version that the node has.
pub store_node-IsHidden :
    (cur id : ℕ) (r : NodeRec) (db : Db)
    → cur < u64
    → id < u64
    → Bounded cur r
    → DbOk cur db
    → r.dn_link_ver ≡ link_ver (load_node db id cur)
    → IsHidden cur db (store_node id cur r db)
store_node-IsHidden cur id r db hc hid b good same = record {
  vers = link_ver_kept cur id r db hc hid b good same;
  live = (store_node-SameLive cur id r db hc hid b good same).same_live;
  placed = store_node-IsPlaced cur id r db hc hid b good same;
}

pub ensure_writable_up_links-IsHidden :
    (cur c : ℕ) (db : Db)
    → cur < u64
    → c < u64
    → DbOk cur db
    → IsHidden cur db (ensure_writable_up_links cur c db)
unfolding ensure_writable_up_links
ensure_writable_up_links-IsHidden cur c db hc h good =
    let r = or_empty (load_node db c cur) in
    let links = map suffix (scan (be c ++ be r.up_link_ver) db.up_links) in
    let copied = copy_up c cur links db in
    let same = copy_up_same c cur links db in
    let hidden = up_links-IsHidden cur db copied same.0 same.1 in
    elim (Bool-cases (r.up_link_ver == cur)) [
      | inl current ↦ rw current (up_links-IsHidden cur db db refl refl)
      | inr old ↦ rw old (
          IsHidden-trans hidden (
            store_node-IsHidden cur c (record r { up_link_ver = cur }) copied hc h
              (with_up hc r (loaded hc c db h good))
              (Writes-DbOk (copy_up-Writes hc c links db done) good) (sym (hidden.vers c h))))
    ]

exists_at_cur :
    (o : Option NodeRec) (cur : ℕ) → link_ver o ≡ cur → 1 ≤ cur → versions_of o ≡ suc cur
exists_at_cur none cur e h = absurd (omega (arith, e))
exists_at_cur (some r) cur e h = omega (arith, e)

-- One entry written or erased in the links of a directory that are at the current snapshot.
module _ (cur d : ℕ) (name : Bytes) (db : Db) (hc : cur < u64) (hd : d < u64) (open' : 1 ≤ cur)
    (good : DbOk cur db) (placed : IsPlaced cur db) (at_cur : link_ver (load_node db d cur) ≡ cur)
    (m : Map) (x : Option Bytes)
    (reads : (e v : ℕ) (n : Bytes)
      → e < u64
      → v < u64
      → find (down_key e v n) m
        ≡ (if same_key d cur name e v n then x else find (down_key e v n) db.down_links)) where
  abbrev changed : Db
  changed = record db { down_links = m }

  key_test :
      (e : ℕ) (n : Bytes)
      → same_key d cur name e (link_ver (load_node db e cur)) n ≡ same_name d name e n
  key_test e n = elim (Bool-cases (d == e)) [
    | inl here ↦
        let e' : d ≡ e = ground (arith, here) in
        let v = subst (λ i. link_ver (load_node db i cur) ≡ cur) e' at_cur in
        rw (here, v) (ground arith)
    | inr away ↦ rw away refl
  ]

  pub changed-live :
      (e : ℕ) (n : Bytes)
      → e < u64
      → live_at cur changed e n ≡ (if same_name d name e n then to_child x else live_at cur db e n)
  unfolding load_node
  changed-live e n he =
      let b = load_node-Bounded cur e cur db hc he hc good.nodes_ok in
      let v = link_ver (load_node db e cur) in
      ap to_child (reads e v n he (omega (arith, b.dn)))
      ∙ ap (λ (t : Bool). to_child (if t then x else find (down_key e v n) db.down_links))
          (key_test e n)
      ∙ through (same_name d name e n) (find (down_key e v n) db.down_links)
    where
      through :
          (t : Bool) (o : Option Bytes)
          → to_child (if t then x else o) ≡ (if t then to_child x else to_child o)
      through true o = refl
      through false o = refl

  pub changed-IsPlaced : IsPlaced cur changed
  unfolding load_node
  changed-IsPlaced = record {
    none_newer = λ e v n he hv h.
        reads e v n he hv
        ∙ ap (λ (t : Bool). if t then x else find (down_key e v n) db.down_links) (missed e v n h)
        ∙ placed.none_newer e v n he hv h;
  }
    where
      missed : (e v : ℕ) (n : Bytes) → reached cur db e ≤ v → same_key d cur name e v n ≡ false
      missed e v n h = elim (Bool-cases (d == e)) [
        | inl here ↦
            let e' : d ≡ e = ground (arith, here) in
            let past =
              subst (λ i. versions_of (load_node db i cur) ≡ suc cur) e'
                (exists_at_cur (load_node db d cur) cur at_cur open') in
            let differs : (cur == v) ≡ false = ground (arith, past, h) in rw (here, differs) refl
        | inr away ↦ rw away refl
      ]
