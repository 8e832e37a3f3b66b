-- ===== src/Core/Namespace/Live.antt =====
-- The live map and what keeps it: no link stands at a version that its directory has not reached.
use prfs.Prelude.{
  ℕ, suc, ◌<◌, ◌≤◌, ◌≡◌, ◌≢◌, refl, sym, ap, ◌∙◌, ◌==◌, Bool, Bool-cases, inl, inr, Option, none,
  some, Option-cases, if◌then◌else◌, arith,
}
use prfs.Bytes.{Bytes, u64}
use prfs.Kv.{find}
use prfs.Core.Record.{NodeRec}
use prfs.Core.Tables.{Db, load_node, store_node, or_empty}
use prfs.Core.Links.{down_key, child_of, child_in}
use prfs.Core.Loads.{Bounded, load_node-store_node_self, load_node-store_node_other}
use prfs.Core.Writes.{DbOk}
use prfs.Core.Namespace.Copies.{link_at}

-- How many versions of its links a directory may have; none for a node that is not there.
abbrev pub versions_of : Option NodeRec → ℕ
versions_of none = 0
versions_of (some r) = suc r.dn_link_ver

abbrev pub reached : ℕ → Db → ℕ → ℕ
reached cur db d = versions_of (load_node db d cur)

pub record IsPlaced (cur : ℕ) (db : Db) : Type 0 where
  pub none_newer :
      (d v : ℕ) (name : Bytes)
      → d < u64
      → v < u64
      → reached cur db d ≤ v
      → find (down_key d v name) db.down_links ≡ none

abbrev pub link_ver : Option NodeRec → ℕ
link_ver o = (or_empty o).dn_link_ver

-- The child behind a name, at the version of the directory's record.
abbrev pub live_at : ℕ → Db → ℕ → Bytes → Option ℕ
live_at cur db d name = link_at db.down_links d (link_ver (load_node db d cur)) name

-- `child_of` is the live map, also where the directory is missing.
pub child_of-live_at :
    (cur : ℕ) (db : Db) (d : ℕ) (name : Bytes)
    → d < u64
    → IsPlaced cur db
    → child_of cur d name db ≡ live_at cur db d name
unfolding child_of child_in
child_of-live_at cur db d name hd p = elim (Option-cases (load_node db d cur)) [
  | inl missing ↦
      let gone = p.none_newer d 0 name hd (omega arith) (rw missing (omega arith)) in
      rw (missing, gone) refl
  | inr (r, e) ↦ rw e refl
]

-- A record stored at the current snapshot, as every load there sees it.
pub load_node-store_node :
    (cur id : ℕ) (r : NodeRec) (db : Db) (i : ℕ)
    → cur < u64
    → id < u64
    → i < u64
    → Bounded cur r
    → DbOk cur db
    → load_node (store_node id cur r db) i cur ≡ (if id == i then some r else load_node db i cur)
load_node-store_node cur id r db i hc hid hi b good = elim (Bool-cases (id == i)) [
  | inl same ↦
      let e : id ≡ i = ground (arith, same) in
      rw same (
        ap (λ j. load_node (store_node id cur r db) j cur) (sym e)
        ∙ load_node-store_node_self cur id r db hc hid b.fits b.dn b.up good.nodes_ok cur hc
            (omega arith))
  | inr apart ↦
      let ne : id ≢ i = λ e. ground (arith, e, apart) in
      rw apart (
        load_node-store_node_other cur id r db hc hid b.fits b.dn b.up good.nodes_ok i cur hi hc
          (inl ne))
]

-- Two stores that have the same directories behind the same names.
pub record SameLive (cur : ℕ) (a b : Db) : Type 0 where
  pub same_live : (d : ℕ) (name : Bytes) → d < u64 → live_at cur b d name ≡ live_at cur a d name

versions_of_le : (o : Option NodeRec) → versions_of o ≤ suc (link_ver o)
versions_of_le none = omega arith
versions_of_le (some r) = omega arith

-- A record that is stored with the link version that the node had changes no name.
module _ (cur id : ℕ) (r : NodeRec) (db : Db) (hc : cur < u64) (hid : id < u64) (b : Bounded cur r)
    (good : DbOk cur db) (same : r.dn_link_ver ≡ link_ver (load_node db id cur)) where
  pub link_ver_kept :
      (d : ℕ)
      → d < u64
      → link_ver (load_node (store_node id cur r db) d cur) ≡ link_ver (load_node db d cur)
  link_ver_kept d hd =
      let choose = λ (x : Bool). link_ver (if x then some r else load_node db d cur) in
      let stored = ap link_ver (load_node-store_node cur id r db d hc hid hd b good) in
      elim (Bool-cases (id == d)) [
        | inl here ↦
            let e : id ≡ d = ground (arith, here) in
            stored ∙ ap choose here ∙ same ∙ ap (λ i. link_ver (load_node db i cur)) e
        | inr away ↦ stored ∙ ap choose away
      ]

  reached_kept : (d : ℕ) → d < u64 → reached cur db d ≤ reached cur (store_node id cur r db) d
  reached_kept d hd =
      rw (load_node-store_node cur id r db d hc hid hd b good) (elim (Bool-cases (id == d)) [
        | inl here ↦
            let e : id ≡ d = ground (arith, here) in
            rw (here, sym e) (omega (arith, versions_of_le (load_node db id cur), same))
        | inr away ↦ rw away (omega arith)
      ])

  pub store_node-SameLive : SameLive cur db (store_node id cur r db)
  unfolding store_node
  store_node-SameLive = record {
    same_live = λ d name hd. ap (λ v. link_at db.down_links d v name) (link_ver_kept d hd);
  }

  pub store_node-IsPlaced : IsPlaced cur db → IsPlaced cur (store_node id cur r db)
  unfolding store_node
  store_node-IsPlaced p = record {
    none_newer =
        λ d v name hd hv h. p.none_newer d v name hd hv (omega (arith, h, reached_kept d hd));
  }
