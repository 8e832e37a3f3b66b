-- ===== src/Mem/Views.antt =====
-- The listings of `MemStore`: `readdir`, `readdirPage` and `parents`.
use prfs.Prelude.{
  ℕ, zero, suc, ◌-◌, List, [], ◌∷◌, ◌==◌, Bool, false, ◌&&◌, ◌||◌, Option, none, some,
  if◌then◌else◌,
}
use prfs.Bytes.{Bytes, cmp, is_lt}
use prfs.Core.Links.{seen_before}
use prfs.Core.Store.{Handle, is_snap_dir, snap_base, parse_snap, rising}
use prfs.Core.Views.{Named, DirPage, to_string, add_entry, full_page, last_page, or_start}
use prfs.Mem.{LinkIv, LinkKey, MemStore, resolve, eff_r, is_live_at, link_live_at, names_of}
use prfs.Mem.Ops.{is_found}

unfoldable pub snap_entries : ℕ → List ℕ → MemStore → List Named
unfolding to_string eff_r
snap_entries base [] s = []
snap_entries base (n ∷ ns) s =
    if is_found (eff_r s base n)
    then (to_string n, record { id = base; snap = n }) ∷ snap_entries base ns s
    else snap_entries base ns s

abbrev pub with_entry : Bytes → ℕ → Option ℕ → List Named → List Named
with_entry name snap none out = out
with_entry name snap (some child) out = (name, record { id = child; snap = snap }) ∷ out

unfoldable pub name_entries : Handle → List Bytes → MemStore → List Named
unfolding link_live_at
name_entries d [] s = []
name_entries d (name ∷ names) s =
    with_entry name d.snap (link_live_at s (d.id, name) d.snap) (name_entries d names s)

unfoldable pub readdir : Handle → MemStore → List Named
unfolding snap_entries name_entries
readdir d s =
    if is_snap_dir d.id
    then snap_entries (snap_base d.id) (rising (s.cur - 1) 1) s
    else name_entries d (names_of s d.id) s

-- The loop over snapshots, with `room` entries left on the page and the last cookie.
unfoldable pub snap_page : ℕ → ℕ → List ℕ → Bytes → MemStore → DirPage
unfolding to_string eff_r
snap_page base room [] cookie s = last_page cookie
snap_page base zero (n ∷ ns) cookie s =
    let rest = snap_page base zero ns cookie s in
    if is_found (eff_r s base n) then full_page cookie else rest
snap_page base (suc room) (n ∷ ns) cookie s =
    let skip = snap_page base (suc room) ns cookie s in
    let added = snap_page base room ns (to_string n) s in
    if is_found (eff_r s base n)
    then add_entry (to_string n, record { id = base; snap = n }) added
    else skip

abbrev pub page_entry : Bytes → ℕ → Option ℕ → DirPage → DirPage → DirPage
page_entry name snap none skip added = skip
page_entry name snap (some child) skip added =
    add_entry (name, record { id = child; snap = snap }) added

abbrev pub page_end : Bytes → Option ℕ → DirPage → DirPage
page_end cookie none skip = skip
page_end cookie (some child) skip = full_page cookie

-- The loop over names: those up to `after`, and those not live in the view, are skipped.
unfoldable pub name_page : Handle → Bytes → ℕ → List Bytes → Bytes → MemStore → DirPage
unfolding link_live_at
name_page d after room [] cookie s = last_page cookie
name_page d after zero (name ∷ names) cookie s =
    let rest = name_page d after zero names cookie s in
    if is_lt (cmp after name)
    then page_end cookie (link_live_at s (d.id, name) d.snap) rest
    else rest
name_page d after (suc room) (name ∷ names) cookie s =
    let skip = name_page d after (suc room) names cookie s in
    let added = name_page d after room names name s in
    if is_lt (cmp after name)
    then page_entry name d.snap (link_live_at s (d.id, name) d.snap) skip added
    else skip

unfoldable pub snap_dir_page : ℕ → ℕ → ℕ → MemStore → DirPage
unfolding snap_page
snap_dir_page base start max s = snap_page base max (rising (s.cur - start) start) [] s

unfoldable pub readdir_page : Handle → Bytes → ℕ → MemStore → DirPage
unfolding snap_dir_page name_page
readdir_page d after max s =
    if is_snap_dir d.id
    then snap_dir_page (snap_base d.id) (or_start (parse_snap after)) max s
    else name_page d after max (names_of s d.id) [] s

-- `iv.child == node->id() && liveAt(iv, rg)` for one of the intervals: a second one finds the
-- container seen.
unfoldable pub has_child : ℕ → ℕ → List LinkIv → Bool
unfolding is_live_at
has_child id rg [] = false
has_child id rg (iv ∷ ivs) = (iv.child == id && is_live_at iv rg) || has_child id rg ivs

unfoldable pub parents_loop : Handle → ℕ → List ℕ → List (LinkKey × List LinkIv) → List Handle
unfolding has_child seen_before
parents_loop n rg done [] = []
parents_loop n rg done ((k, ivs) ∷ links) =
    let rest = parents_loop n rg (k.0 ∷ done) links in
    let skip = parents_loop n rg done links in
    if has_child n.id rg ivs
    then if seen_before k.0 done then skip else record { id = k.0; snap = n.snap } ∷ rest
    else skip

unfoldable pub parents : Handle → MemStore → List Handle
unfolding parents_loop resolve
parents n s = parents_loop n (resolve s n.snap) [] s.links
