-- ===== src/Core/Transactions.antt =====
-- The transactions of Core.Links make writes at the current snapshot only.
use prfs.Prelude.{
  ℕ, ◌<◌, ◌≡◌, List, [], ◌∷◌, ◌++◌, arith, Bool-cases, inl, inr, Option, none, some, Option-cases,
  ◌==◌, map,
}
use prfs.Bytes.{Bytes, u32, u64, be}
use prfs.Bytes.Encoding.{rdbe-lt}
use prfs.Kv.Prefix.{scan}
use prfs.Core.Record.{NodeRec, Error, ok}
use prfs.Core.Tables.{Db, Link, load_node, or_empty, scan_down_links}
use prfs.Core.Links.{
  copy_down, copy_up, ensure_writable_dn_links, ensure_writable_up_links, suffix, add_link,
  remove_link, link_t, unlink_t, to_child, child_in, link_guard, child_of,
}
use prfs.Core.Store.{move_t, unlink_after}
use prfs.Core.Loads.{Bounded, load_node-Bounded}
use prfs.Core.Writes.{
  node, put_down, del_down, put_up, del_up, Writes, done, more, Writes-trans, Writes-DbOk, DbOk,
}

with_dn :
    {cur : ℕ}
    → cur < u64
    → (r : NodeRec) → Bounded cur r
    → Bounded cur (record r { dn_link_ver = cur })
with_dn hc r b = omega arith

pub with_up :
    {cur : ℕ}
    → cur < u64
    → (r : NodeRec) → Bounded cur r
    → Bounded cur (record r { up_link_ver = cur })
with_up hc r b = omega arith

pub with_nlink :
    {cur : ℕ} (n : ℕ) (r : NodeRec) → n < u32 → Bounded cur r → Bounded cur (record r { nlink = n })
with_nlink n r h b = omega arith

to_child-lt : (o : Option Bytes) (c : ℕ) → to_child o ≡ some c → c < u64
to_child-lt none c e = cc
to_child-lt (some v) c e = ground (arith, rdbe-lt v)

child_in-lt :
    (d : ℕ) (name : Bytes) (db : Db) (o : Option NodeRec) (c : ℕ)
    → child_in d name db o ≡ some c
    → c < u64
unfolding child_in
child_in-lt d name db none c e = cc
child_in-lt d name db (some dr) c e = to_child-lt _ c e

pub child_of-lt :
    (cur d : ℕ) (name : Bytes) (db : Db) (c : ℕ) → child_of cur d name db ≡ some c → c < u64
unfolding child_of
child_of-lt cur d name db c e = child_in-lt d name db (load_node db d cur) c e

module _ {cur : ℕ} (hc : cur < u64) where
  pub copy_down-Writes :
      (d : ℕ) (copies : List Link) {a : Db} (db : Db)
      → Writes cur a db
      → Writes cur a (copy_down d cur copies db)
  unfolding copy_down
  copy_down-Writes d [] db w = w
  copy_down-Writes d ((name, child) ∷ copies) db w =
      copy_down-Writes d copies _ (more w (put_down d name (be child) db))

  pub copy_up-Writes :
      (c : ℕ) (copies : List Bytes) {a : Db} (db : Db)
      → Writes cur a db
      → Writes cur a (copy_up c cur copies db)
  unfolding copy_up
  copy_up-Writes c [] db w = w
  copy_up-Writes c (s ∷ copies) db w = copy_up-Writes c copies _ (more w (put_up c s db))

  pub loaded :
      (id : ℕ) (db : Db) → id < u64 → DbOk cur db → Bounded cur (or_empty (load_node db id cur))
  loaded id db hid good = load_node-Bounded cur id cur db hc hid hc good.nodes_ok

  pub ensure_writable_dn_links-Writes :
      (d : ℕ) (db : Db) → d < u64 → DbOk cur db → Writes cur db (ensure_writable_dn_links cur d db)
  unfolding ensure_writable_dn_links
  ensure_writable_dn_links-Writes d db hd good =
      let r = or_empty (load_node db d cur) in
      elim (Bool-cases (r.dn_link_ver == cur)) [
        | inl same ↦ rw same done
        | inr old ↦ rw old (
            more (copy_down-Writes d (scan_down_links db d r.dn_link_ver) db done)
              (node d (record r { dn_link_ver = cur }) _ hd (with_dn hc r (loaded d db hd good))))
      ]

  pub ensure_writable_up_links-Writes :
      (c : ℕ) (db : Db) → c < u64 → DbOk cur db → Writes cur db (ensure_writable_up_links cur c db)
  unfolding ensure_writable_up_links
  ensure_writable_up_links-Writes c db h good =
      let r = or_empty (load_node db c cur) in
      let links = map suffix (scan (be c ++ be r.up_link_ver) db.up_links) in
      elim (Bool-cases (r.up_link_ver == cur)) [
        | inl same ↦ rw same done
        | inr old ↦ rw old (
            more (copy_up-Writes c links db done)
              (node c (record r { up_link_ver = cur }) _ h (with_up hc r (loaded c db h good))))
      ]

  -- Both link sets of a link are made writable, one after the other.
  pub both_writable :
      (d c : ℕ) (db : Db)
      → d < u64
      → c < u64
      → DbOk cur db
      → Writes cur db (ensure_writable_up_links cur c (ensure_writable_dn_links cur d db))
  both_writable d c db hd h good =
      let w = ensure_writable_dn_links-Writes d db hd good in
      Writes-trans w (ensure_writable_up_links-Writes c _ h (Writes-DbOk w good))

  pub nlink_fits :
      (c : ℕ) (db : Db) → c < u64 → DbOk cur db → (or_empty (load_node db c cur)).nlink < u32
  nlink_fits c db h good = omega (arith, (loaded c db h good).fits)

  pub add_link-Writes :
      (d : ℕ) (name : Bytes) (c : ℕ) (db : Db)
      → d < u64
      → c < u64
      → DbOk cur db
      → Writes cur db (add_link cur d name c db)
  unfolding add_link
  add_link-Writes d name c db hd h good =
      let w = both_writable d c db hd h good in
      let w2 = more w (put_down d name (be c) _) in
      let w3 = more w2 (put_up c (be d ++ name) _) in
      more w3 (node c _ _ h (with_nlink _ _ (omega arith) (loaded c _ h (Writes-DbOk w3 good))))

  pub remove_link-Writes :
      (d : ℕ) (name : Bytes) (c : ℕ) (db : Db)
      → d < u64
      → c < u64
      → DbOk cur db
      → Writes cur db (remove_link cur d name c db)
  unfolding remove_link
  remove_link-Writes d name c db hd h good =
      let w = both_writable d c db hd h good in
      let w2 = more w (del_down d name _) in
      let w3 = more w2 (del_up c (be d ++ name) _) in
      let good3 = Writes-DbOk w3 good in
      more w3
        (node c _ _ h (with_nlink _ _ (omega (arith, nlink_fits c _ h good3)) (loaded c _ h good3)))

  pub link_t-Writes :
      (d : ℕ) (name : Bytes) (c : ℕ) (db : Db)
      → d < u64
      → c < u64
      → DbOk cur db
      → Writes cur db (link_t cur d name c db).1
  unfolding link_t
  link_t-Writes d name c db hd h good =
      elim (link_guard cur d name c db)
        as (λ e. Writes cur db (
          let r : Error × Db = elim e [ ok ↦ (ok, add_link cur d name c db) | e' ↦ (e', db) ] in
          r.1)) [ ok ↦ add_link-Writes d name c db hd h good | _ ↦ done ]

  pub unlink_t-Writes :
      (d : ℕ) (name : Bytes) (db : Db)
      → d < u64
      → DbOk cur db
      → Writes cur db (unlink_t cur d name db).1
  unfolding unlink_t
  unlink_t-Writes d name db hd good = elim (Option-cases (child_of cur d name db)) [
    | inl missing ↦ rw (missing, unlink_t) done
    | inr (c, e) ↦
        rw (e, unlink_t) (remove_link-Writes d name c db hd (child_of-lt cur d name db c e) good)
  ]

  then_unlink :
      (sd : ℕ) (sn : Bytes) (db : Db) (linked : Error × Db)
      → sd < u64
      → DbOk cur db
      → Writes cur db linked.1
      → Writes cur db (unlink_after cur sd sn linked).1
  unfolding unlink_after
  then_unlink sd sn db (ok, linked) hs good w =
      Writes-trans w (unlink_t-Writes sd sn linked hs (Writes-DbOk w good))
  then_unlink sd sn db (_, linked) hs good w = w

  pub move_t-Writes :
      (sd : ℕ) (sn : Bytes) (dd : ℕ) (dn : Bytes) (db : Db)
      → sd < u64
      → dd < u64
      → DbOk cur db
      → Writes cur db (move_t cur sd sn dd dn db).1
  unfolding move_t
  move_t-Writes sd sn dd dn db hs hd good = elim (Option-cases (child_of cur sd sn db)) [
    | inl missing ↦ rw (missing, move_t) done
    | inr (c, e) ↦
        rw (e, move_t)
          (then_unlink sd sn db (link_t cur dd dn c db) hs good
            (link_t-Writes dd dn c db hd (child_of-lt cur sd sn db c e) good))
  ]
