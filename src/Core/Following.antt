-- ===== src/Core/Following.antt =====
-- Following the cursors of a directory's pages, against its whole listing.
use prfs.Prelude.{
  ◌≢◌, ℕ, zero, suc, ◌+◌, ◌<◌, ◌≡◌, refl, sym, ap, ◌∙◌, subst, List, [], ◌∷◌, ◌++◌, length, map,
  true, false, Bool-cases, inl, inr, ◌⊎◌, Option, none, some, if◌then◌else◌, arith,
}
use prfs.Bytes.{Bytes, be, cmp, is_lt}
use prfs.Kv.{Map, seek}
use prfs.Kv.Laws.{Sorted}
use prfs.Kv.Prefix.{scan_loop, scan_lem}
use prfs.Core.Record.{NodeRec}
use prfs.Core.Ops.{StoreOk}
use prfs.Core.Tables.{Db, Link, load_node, to_link, scan_down_links}
use prfs.Core.Store.{Store, Handle, latest, rr, is_snap_dir}
use prfs.Core.Views.{
  Named, DirPage, name_page, page_at, dir_page, readdir_page, to_named, readdir, list_at,
}
use prfs.Core.Cursors.{behind, InOrder, name_page-Paged, name_page-behind}
use prfs.Core.Cuts.{links-InOrder, behind_seek}
use prfs.Core.Pages.{left_after, left_after-le, readdir_page-Moves, drop-be_two}

-- The seek does not matter to a page: it is cut from the listing.
page_at-name_page :
    (d : Handle) (from : Bytes) (room : ℕ) (db : Db) (dr : NodeRec)
    → Sorted db.down_links
    → page_at d from room db (some dr)
      ≡ name_page d.snap from room (scan_down_links db d.id dr.dn_link_ver) []
unfolding page_at seek scan_down_links
page_at-name_page d from room db dr o =
    let pfx = be d.id ++ be dr.dn_link_ver in
    let lead = drop-be_two d.id dr.dn_link_ver in
    let m = db.down_links in
    sym (
      name_page-behind d.snap from [] room
        (map to_link (scan_loop pfx (seek (pfx ++ from) m).here)))
    ∙ ap (λ (ls : List Link). name_page d.snap from room ls [])
        (behind_seek pfx lead from [] m o
          ∙ ap (λ (ls : Map). behind from (map to_link ls)) (sym (scan_lem pfx m o)))
    ∙ name_page-behind d.snap from [] room (scan_down_links db d.id dr.dn_link_ver)

scan_down_links-InOrder :
    (db : Db) (id v : ℕ) → Sorted db.down_links → InOrder (scan_down_links db id v)
unfolding scan_down_links
scan_down_links-InOrder db id v o =
    let pfx = be id ++ be v in
    subst (λ (ls : Map). InOrder (map to_link ls)) (sym (scan_lem pfx db.down_links o))
      (links-InOrder pfx (drop-be_two id v) db.down_links o)

-- What a listing has behind a name.
listed_at : Handle → Bytes → Db → Option NodeRec → List Named
listed_at d from db none = []
listed_at d from db (some dr) =
    map (to_named d.snap) (behind from (scan_down_links db d.id dr.dn_link_ver))

abbrev Cut : Handle → Bytes → Store → Option NodeRec → DirPage → Type 0
Cut d from s o pg =
    ((pg.eof ≡ true) × (pg.entries ≡ listed_at d from s.db o))
    ⊎ ((pg.eof ≡ false)
        × (pg.entries ≢ [])
        × (pg.entries ++ listed_at d pg.cookie s.db o ≡ listed_at d from s.db o))

page_at-Cut :
    (d : Handle) (from : Bytes) (room : ℕ) (s : Store) (o : Option NodeRec)
    → Sorted s.db.down_links
    → Cut d from s o (page_at d from (suc room) s.db o)
unfolding page_at listed_at
page_at-Cut d from room s none order = inl (refl, refl)
page_at-Cut d from room s (some dr) order =
    let ls = scan_down_links s.db d.id dr.dn_link_ver in
    subst (Cut d from s (some dr)) (sym (page_at-name_page d from (suc room) s.db dr order))
      (elim (name_page-Paged d.snap from [] room ls
        (scan_down_links-InOrder s.db d.id dr.dn_link_ver order)) [
          | inl last ↦ inl last
          | inr more ↦ inr (more.0, more.2, more.3)
        ])

-- The entries of the pages of a size from a cursor on, each page from the cursor of the one before.
unfoldable pub follow : ℕ → Handle → Bytes → ℕ → Store → List Named
unfolding readdir_page
follow zero d from max s = []
follow (suc fuel) d from max s =
    let pg = readdir_page d from max s in
    let rest = follow fuel d pg.cookie max s in if pg.eof then pg.entries else pg.entries ++ rest

-- The entries of a listing with a name behind another.
unfoldable pub past : Bytes → List Named → List Named
past from [] = []
past from (e ∷ es) = if is_lt (cmp from e.0) then e ∷ past from es else past from es

past-named :
    (from : Bytes) (snap : ℕ) (ls : List Link)
    → map (to_named snap) (behind from ls) ≡ past from (map (to_named snap) ls)
unfolding behind past
past-named from snap [] = refl
past-named from snap (l ∷ ls) = elim (Bool-cases (is_lt (cmp from l.0))) [
  | inl over ↦ rw over (ap (λ es. to_named snap l ∷ es) (past-named from snap ls))
  | inr early ↦ rw early (past-named from snap ls)
]

list_at-past :
    (d : Handle) (from : Bytes) (db : Db) (o : Option NodeRec)
    → listed_at d from db o ≡ past from (list_at d db o)
unfolding listed_at list_at past
list_at-past d from db none = refl
list_at-past d from db (some dr) = past-named from d.snap (scan_down_links db d.id dr.dn_link_ver)

module _ (d : Handle) (room : ℕ) (s : Store) (order : Sorted s.db.down_links)
    (small : s.cur < latest) (real : is_snap_dir d.id ≡ false) where
  loaded : Option NodeRec
  loaded = load_node s.db d.id (rr s d.snap)

  readdir_page-Cut : (from : Bytes) → Cut d from s loaded (readdir_page d from (suc room) s)
  unfolding readdir_page dir_page loaded
  readdir_page-Cut from = rw real (page_at-Cut d from room s loaded order)

  follow-listed :
      (fuel : ℕ) (from : Bytes)
      → left_after d from s < fuel
      → follow fuel d from (suc room) s ≡ listed_at d from s.db loaded
  unfolding follow
  follow-listed zero from enough = absurd (omega (arith, enough))
  follow-listed (suc fuel) from enough =
      let pg = readdir_page d from (suc room) s in
      elim (readdir_page-Cut from) [
        | inl last ↦ rw last.0 last.1
        | inr more ↦ rw more.0 (elim (readdir_page-Moves d from room s small) [
          | inl none_more ↦ absurd (more.1 none_more)
          | inr nearer ↦
              ap (λ es. pg.entries ++ es)
                (follow-listed fuel pg.cookie (omega (arith, enough, nearer)))
              ∙ more.2
        ])
      ]

  listed_at-readdir : (from : Bytes) → listed_at d from s.db loaded ≡ past from (readdir d s)
  unfolding readdir loaded
  listed_at-readdir from = rw real (list_at-past d from s.db (load_node s.db d.id (rr s d.snap)))

-- In a well-formed store, the entries of a directory's pages of any size above 0, each page begun at
-- the cursor of the one before and the first at the empty name, are those of `readdir` in order, save
-- for an entry with the empty name. At most as many pages are read as the store has entries and
-- snapshots, and one more. The directory is not a `.snapshot` directory.
pub follow-readdir :
    (d : Handle) (room : ℕ) (s : Store)
    → StoreOk s
    → is_snap_dir d.id ≡ false
    → follow (suc (s.cur + length s.db.down_links)) d [] (suc room) s ≡ past [] (readdir d s)
follow-readdir d room s k real =
    follow-listed d room s k.db_ok.down_sorted k.cur_open real
      (suc (s.cur + length s.db.down_links)) [] (omega (arith, left_after-le d [] s))
    ∙ listed_at-readdir d room s k.db_ok.down_sorted k.cur_open real []
