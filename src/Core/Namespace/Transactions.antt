-- ===== src/Core/Namespace/Transactions.antt =====
-- `linkT` and `unlinkT` as changes of the live map at one name.
use prfs.Prelude.{
  ℕ, ◌<◌, ◌≤◌, ◌≡◌, refl, ap, ◌∙◌, [], ◌++◌, Option, none, some, if◌then◌else◌, arith,
}
use prfs.Bytes.{Bytes, u64, be}
use prfs.Kv.{Map, find, put, del}
use prfs.Names.{same_name}
use prfs.Core.Tables.{Db, load_node}
use prfs.Core.Links.{
  down_key, up_key, add_link, remove_link, ensure_writable_dn_links, ensure_writable_up_links,
}
use prfs.Core.Writes.{DbOk, Writes, Writes-DbOk, more, put_down, del_down, put_up, del_up}
use prfs.Core.Transactions.{
  both_writable, loaded, nlink_fits, with_nlink, ensure_writable_dn_links-Writes,
}
use prfs.Core.Namespace.Keys.{same_key, find-put_down, find-del_down}
use prfs.Core.Namespace.Copies.{rdbe-be_last}
use prfs.Core.Namespace.Live.{IsPlaced, live_at, link_ver}
use prfs.Core.Namespace.Writable.{Writable, ensure_writable_dn_links-Writable}
use prfs.Core.Namespace.Changes.{
  IsHidden, changed-live, changed-IsPlaced, IsHidden-trans, up_links-IsHidden, store_node-IsHidden,
  ensure_writable_up_links-IsHidden,
}

-- A transaction that changes the live map at one name.
pub record Sets (cur d : ℕ) (name : Bytes) (x : Option ℕ) (a b : Db) : Type 0 where
  pub placed : IsPlaced cur b
  pub live :
      (e : ℕ) (n : Bytes)
      → e < u64
      → live_at cur b e n ≡ (if same_name d name e n then x else live_at cur a e n)

-- A change at one name, between changes that no name shows.
Sets-between :
    {cur d : ℕ} {name : Bytes} {x : Option ℕ} {a b c e : Db}
    → Writable cur d a b
    → IsHidden cur b c
    → Sets cur d name x c e
    → Sets cur d name x a e
Sets-between {d = d} {name = name} {x = x} w h s = record {
  placed = s.placed;
  live = λ i n hi.
      s.live i n hi
      ∙ ap (λ o. if same_name d name i n then x else o) (h.live i n hi ∙ w.same.same_live i n hi);
}

Sets-hidden :
    {cur d : ℕ} {name : Bytes} {x : Option ℕ} {a b c : Db}
    → Sets cur d name x a b
    → IsHidden cur b c
    → Sets cur d name x a c
Sets-hidden s h = record {
  placed = h.placed s.placed;
  live = λ i n hi. h.live i n hi ∙ s.live i n hi;
}

module _ (cur d : ℕ) (name : Bytes) (c : ℕ) (db : Db) (hc : cur < u64) (open' : 1 ≤ cur)
    (hd : d < u64) (h : c < u64) (good : DbOk cur db) (placed : IsPlaced cur db) where
  abbrev db1 : Db
  db1 = ensure_writable_dn_links cur d db

  abbrev db2 : Db
  db2 = ensure_writable_up_links cur c db1

  writes2 : Writes cur db db2
  writes2 = both_writable hc d c db hd h good

  good1 : DbOk cur db1
  good1 = Writes-DbOk (ensure_writable_dn_links-Writes hc d db hd good) good

  good2 : DbOk cur db2
  good2 = Writes-DbOk writes2 good

  writable : Writable cur d db db1
  writable = ensure_writable_dn_links-Writable cur d db hc hd good placed

  hidden : IsHidden cur db1 db2
  hidden = ensure_writable_up_links-IsHidden cur c db1 hc h good1

  at_cur : link_ver (load_node db2 d cur) ≡ cur
  at_cur = hidden.vers d hd ∙ writable.at_cur

  placed2 : IsPlaced cur db2
  placed2 = hidden.placed writable.placed

  abbrev linked : Map
  linked = put (down_key d cur name) (be c) db2.down_links

  abbrev unlinked : Map
  unlinked = del (down_key d cur name) db2.down_links

  put-Sets : Sets cur d name (some c) db (record db2 { down_links = linked })
  put-Sets = Sets-between writable hidden (record {
    placed = changed-IsPlaced cur d name db2 hc hd open' good2 placed2 at_cur linked _ reads;
    live = λ e n he.
        changed-live cur d name db2 hc hd open' good2 placed2 at_cur linked _ reads e n he
        ∙ ap (λ x. if same_name d name e n then some x else live_at cur db2 e n) (rdbe-be_last c h);
  })
    where
      reads :
          (e v : ℕ) (n : Bytes)
          → e < u64
          → v < u64
          → find (down_key e v n) linked ≡ (
              if same_key d cur name e v n
              then some (be c)
              else find (down_key e v n) db2.down_links)
      reads e v n he hv = find-put_down d cur name e v n db2.down_links hd hc he hv (be c)

  del-Sets : Sets cur d name none db (record db2 { down_links = unlinked })
  del-Sets = Sets-between writable hidden (record {
    placed = changed-IsPlaced cur d name db2 hc hd open' good2 placed2 at_cur unlinked _ reads;
    live = changed-live cur d name db2 hc hd open' good2 placed2 at_cur unlinked _ reads;
  })
    where
      reads :
          (e v : ℕ) (n : Bytes)
          → e < u64
          → v < u64
          → find (down_key e v n) unlinked
            ≡ (if same_key d cur name e v n then none else find (down_key e v n) db2.down_links)
      reads e v n he hv =
          find-del_down d cur name e v n db2.down_links hd hc he hv good2.down_sorted

  pub add_link-Sets : Sets cur d name (some c) db (add_link cur d name c db)
  unfolding add_link
  add_link-Sets =
      let db3 = record db2 {
        down_links = linked;
        up_links = put (up_key c cur d name) [] db2.up_links;
      } in
      let good3 =
        Writes-DbOk (more (more writes2 (put_down d name (be c) _)) (put_up c (be d ++ name) _))
          good in
      Sets-hidden put-Sets (
        IsHidden-trans (up_links-IsHidden cur (record db2 { down_links = linked }) db3 refl refl) (
          store_node-IsHidden cur c _ db3 hc h
            (with_nlink _ _ (omega arith) (loaded hc c db3 h good3)) good3 refl))

  pub remove_link-Sets : Sets cur d name none db (remove_link cur d name c db)
  unfolding remove_link
  remove_link-Sets =
      let db3 = record db2 {
        down_links = unlinked;
        up_links = del (up_key c cur d name) db2.up_links;
      } in
      let good3 =
        Writes-DbOk (more (more writes2 (del_down d name _)) (del_up c (be d ++ name) _)) good in
      Sets-hidden del-Sets (
        IsHidden-trans (up_links-IsHidden cur (record db2 { down_links = unlinked }) db3 refl refl)
          (store_node-IsHidden cur c _ db3 hc h
            (with_nlink _ _ (omega (arith, nlink_fits hc c db3 h good3)) (loaded hc c db3 h good3))
            good3 refl))
