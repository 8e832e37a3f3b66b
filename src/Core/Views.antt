-- ===== src/Core/Views.antt =====
-- The listings of `PrfsStore`: `readdir`, `readdirPage` and `parents`.
use prfs.Prelude.{
  ℕ, zero, suc, ◌+◌, ◌-◌, ◌/◌, ◌%◌, List, [], ◌∷◌, ◌++◌, drop, ltb, Bool, true, false, Option, none,
  some, if◌then◌else◌, map,
}
use prfs.Bytes.{Bytes, u64, be, rdbe, cmp, is_lt}
use prfs.Kv.{Map, seek}
use prfs.Kv.Prefix.{scan, scan_loop}
use prfs.Core.Tables.{Db, load_node, Link, scan_down_links, to_link}
use prfs.Core.Record.{NodeRec}
use prfs.Core.Links.{seen_before}
use prfs.Core.Store.{Store, Handle, is_snap_dir, snap_base, rr, existed_at, parse_snap, rising}

-- `std::to_string` of a `uint64_t`: twenty digits are enough.
unfoldable pub digits_loop : ℕ → ℕ → Bytes → Bytes
digits_loop zero n out = out
digits_loop (suc fuel) n out =
    let rest = digits_loop fuel (n / 10) ((b'0' + n % 10) ∷ out) in
    if ltb n 10 then (b'0' + n) ∷ out else rest

unfoldable pub to_string : ℕ → Bytes
unfolding digits_loop
to_string n = digits_loop 20 n []

abbrev pub Named : Type 0
Named = Bytes × Handle

unfoldable pub snap_entries : ℕ → List ℕ → Store → List Named
unfolding to_string existed_at
snap_entries base [] s = []
snap_entries base (n ∷ ns) s =
    if existed_at s.db base n
    then (to_string n, record { id = base; snap = n }) ∷ snap_entries base ns s
    else snap_entries base ns s

abbrev pub to_named : ℕ → Link → Named
to_named snap (name, child) = (name, record { id = child; snap = snap })

unfoldable pub list_at : Handle → Db → Option NodeRec → List Named
list_at d db none = []
list_at d db (some dr) = map (to_named d.snap) (scan_down_links db d.id dr.dn_link_ver)

unfoldable pub readdir : Handle → Store → List Named
unfolding snap_entries list_at
readdir d s =
    if is_snap_dir d.id
    then snap_entries (snap_base d.id) (rising (s.cur - 1) 1) s
    else list_at d s.db (load_node s.db d.id (rr s d.snap))

pub record DirPage : Type 0 where
  pub entries : List Named
  pub cookie : Bytes
  pub eof : Bool

-- One more entry of a page: the loops test the page's size before they add to it.
abbrev pub add_entry : Named → DirPage → DirPage
add_entry e page = record page { entries = e ∷ page.entries }

abbrev pub full_page : Bytes → DirPage
full_page cookie = record { entries = []; cookie = cookie; eof = false }

abbrev pub last_page : Bytes → DirPage
last_page cookie = record { entries = []; cookie = cookie; eof = true }

-- The loop over snapshots, with `room` entries left on the page and the last cookie.
unfoldable pub snap_page : ℕ → ℕ → List ℕ → Bytes → Store → DirPage
unfolding to_string existed_at
snap_page base room [] cookie s = last_page cookie
snap_page base zero (n ∷ ns) cookie s =
    let rest = snap_page base zero ns cookie s in
    if existed_at s.db base n then full_page cookie else rest
snap_page base (suc room) (n ∷ ns) cookie s =
    let skip = snap_page base (suc room) ns cookie s in
    let added = snap_page base room ns (to_string n) s in
    if existed_at s.db base n
    then add_entry (to_string n, record { id = base; snap = n }) added
    else skip

-- The loop over names: entries up to `after` are skipped.
unfoldable pub name_page : ℕ → Bytes → ℕ → List Link → Bytes → DirPage
name_page snap after room [] cookie = last_page cookie
name_page snap after zero ((name, child) ∷ ls) cookie =
    let rest = name_page snap after zero ls cookie in
    if is_lt (cmp after name) then full_page cookie else rest
name_page snap after (suc room) ((name, child) ∷ ls) cookie =
    let skip = name_page snap after (suc room) ls cookie in
    let added = name_page snap after room ls name in
    if is_lt (cmp after name)
    then add_entry (name, record { id = child; snap = snap }) added
    else skip

abbrev pub or_start : Option ℕ → ℕ
or_start none = 1
or_start (some c) = (c + 1) % u64

unfoldable pub snap_dir_page : ℕ → ℕ → ℕ → Store → DirPage
unfolding snap_page
snap_dir_page base start max s = snap_page base max (rising (s.cur - start) start) [] s

unfoldable pub page_at : Handle → Bytes → ℕ → Db → Option NodeRec → DirPage
unfolding name_page
page_at d after max db none = last_page []
page_at d after max db (some dr) =
    let pfx = be d.id ++ be dr.dn_link_ver in
    let from = (seek (pfx ++ after) db.down_links).here in
    name_page d.snap after max (map to_link (scan_loop pfx from)) []

unfoldable pub dir_page : Handle → Bytes → ℕ → Store → DirPage
unfolding page_at
dir_page d after max s = page_at d after max s.db (load_node s.db d.id (rr s d.snap))

-- `parseSnap` refuses the empty cursor by itself.
unfoldable pub readdir_page : Handle → Bytes → ℕ → Store → DirPage
unfolding snap_dir_page dir_page
readdir_page d after max s =
    if is_snap_dir d.id
    then snap_dir_page (snap_base d.id) (or_start (parse_snap after)) max s
    else dir_page d after max s

-- Each container once, in the order of the keys.
unfoldable pub parents_loop : ℕ → List ℕ → Map → List Handle
unfolding seen_before
parents_loop snap done [] = []
parents_loop snap done ((k, v) ∷ m) =
    let container = rdbe (drop 16 k) in
    let rest = parents_loop snap (container ∷ done) m in
    let skip = parents_loop snap done m in
    if seen_before container done then skip else record { id = container; snap = snap } ∷ rest

unfoldable pub parents_at : Handle → Db → Option NodeRec → List Handle
unfolding parents_loop
parents_at n db none = []
parents_at n db (some nr) = parents_loop n.snap [] (scan (be n.id ++ be nr.up_link_ver) db.up_links)

unfoldable pub parents : Handle → Store → List Handle
unfolding parents_at
parents n s = parents_at n s.db (load_node s.db n.id (rr s n.snap))
