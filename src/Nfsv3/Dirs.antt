-- ===== src/Nfsv3/Dirs.antt =====
-- Directory listings of the NFSv3 front-end: the cookies it remembers, and replies in pages.
use prfs.Prelude.{
  ℕ, zero, suc, ◌+◌, ◌-◌, ◌%◌, List, [], ◌∷◌, ◌++◌, ◌==◌, ◌&&◌, ltb, leb, Bool, true, false, not,
  Option, none, some, if◌then◌else◌, length, codes,
}
use prfs.Bytes.{Bytes}
use prfs.Core.Record.{dir}
use prfs.Core.Store.{Store, Handle, node_by_id, snap_bit}
use prfs.Core.Views.{Named, DirPage, readdir_page, parents}
use prfs.Content.{ContentConfig}
use prfs.Nfsv3.{Reader, read_u32, read_u64, read_fh, skip, put_u32, put_u64, put_fh, put_str}
use prfs.Nfsv3.Attrs.{encode_post_op, name_cookie, view_fileid}
use prfs.Nfsv3.Procs.{Reply, undefined, success, garbage, is_type, is_none}

-- `m_ckName`, with one name for a cookie
abbrev pub Cookies : Type 0
Cookies = List (ℕ × Bytes)

unfoldable pub forget : ℕ → Cookies → Cookies
forget ck [] = []
forget ck ((k, name) ∷ m) = let rest = forget ck m in if k == ck then rest else (k, name) ∷ rest

unfoldable pub remembered : ℕ → Cookies → Option Bytes
remembered ck [] = none
remembered ck ((k, name) ∷ m) = let rest = remembered ck m in if k == ck then some name else rest

abbrev pub cache_max : ℕ
cache_max = 65536

unfoldable pub remember_cookie : ℕ → Bytes → Cookies → Cookies
unfolding forget
remember_cookie ck name m = (ck, name) ∷ forget ck (if leb cache_max (length m) then [] else m)

unfoldable pub named_by : ℕ → List Named → Option Bytes
unfolding name_cookie
named_by ck [] = none
named_by ck ((name, node) ∷ es) =
    let rest = named_by ck es in if name_cookie name == ck then some name else rest

-- What a search of a directory ends with: `unfinished` stands for a loop that is out of fuel.
pub data Resume : Type 0 where
  unfinished gone : Resume
  resumes : Bytes → Resume

abbrev pub or_next : Option Bytes → Resume → Resume
or_next none next = next
or_next (some name) next = resumes name

abbrev pub is_last : DirPage → Bool
is_last pg = if is_none pg.entries then true else pg.eof

unfoldable pub resume_loop : ℕ → Handle → ℕ → Bytes → Store → Resume
unfolding readdir_page named_by
resume_loop zero d ck name s = unfinished
resume_loop (suc fuel) d ck name s =
    let pg = readdir_page d name 256 s in
    let next = resume_loop fuel d ck pg.cookie s in
    or_next (named_by ck pg.entries) (if is_last pg then gone else next)

-- More rounds than there are entries in a listing.
unfoldable pub rounds : Store → ℕ
rounds s = suc (s.cur + length s.db.down_links)

abbrev pub or_scan : Option Bytes → Resume → Resume
or_scan none scanned = scanned
or_scan (some name) scanned = resumes name

unfoldable pub resume_name : Handle → ℕ → Store → Cookies → Resume
unfolding remembered resume_loop rounds
resume_name d ck s m = or_scan (remembered ck m) (resume_loop (rounds s) d ck [] s)

pub record DirEnt : Type 0 where
  pub name : Bytes
  pub cookie : ℕ
  pub node : Handle

unfoldable pub pad4 : ℕ → ℕ
pad4 n = n + 3 - (n + 3) % 4

abbrev pub entry_size : ℕ → Bytes → ℕ
entry_size per_entry name = 4 + 8 + 4 + pad4 (length name) + 8 + per_entry

-- The entries of a reply so far: those of one page, whether the next did not fit, the bytes used
-- and the cookies remembered.
pub record Filled : Type 0 where
  pub entries : List DirEnt
  pub full : Bool
  pub budget : ℕ
  pub cookies : Cookies

abbrev pub add_filled : DirEnt → Filled → Filled
add_filled e f = record f { entries = e ∷ f.entries }

unfoldable pub fill : ℕ → ℕ → List Named → ℕ → Cookies → Filled
unfolding pad4 name_cookie remember_cookie
fill max per_entry [] budget m = record { entries = []; full = false; budget = budget; cookies = m }
fill max per_entry ((name, node) ∷ es) budget m =
    let used = budget + entry_size per_entry name in
    let ck = name_cookie name in
    let rest = fill max per_entry es used (remember_cookie ck name m) in
    if ltb max used
    then record { entries = []; full = true; budget = budget; cookies = m }
    else add_filled (record { name = name; cookie = ck; node = node }) rest

-- A reply's status, entries and `eof`, and the cookies after.
pub record Paged : Type 0 where
  pub status : ℕ
  pub entries : List DirEnt
  pub eof : Bool
  pub cookies : Cookies

abbrev pub prepend : List DirEnt → Option Paged → Option Paged
prepend es none = none
prepend es (some p) = some (record p { entries = es ++ p.entries })

-- The loop over pages: `none` is out of fuel.
unfoldable pub page_loop : ℕ → Handle → Bytes → ℕ → ℕ → ℕ → Cookies → Store → Option Paged
unfolding readdir_page fill
page_loop zero d name max per_entry budget m s = none
page_loop (suc fuel) d name max per_entry budget m s =
    let pg = readdir_page d name 512 s in
    let f = fill max per_entry pg.entries budget m in
    let rest = page_loop fuel d pg.cookie max per_entry f.budget f.cookies s in
    if f.full
    then some (record { status = 0; entries = f.entries; eof = false; cookies = f.cookies })
    else if is_last pg
    then some (record { status = 0; entries = f.entries; eof = true; cookies = f.cookies })
    else prepend f.entries rest

-- `NFS3ERR_BAD_COOKIE`
abbrev pub page_from : Resume → Handle → ℕ → ℕ → ℕ → Cookies → Store → Option Paged
page_from unfinished d max per_entry budget m s = none
page_from gone d max per_entry budget m s =
    some (record { status = 10003; entries = []; eof = false; cookies = m })
page_from (resumes name) d max per_entry budget m s =
    page_loop (suc max) d name max per_entry budget m s

abbrev pub first_parent : Handle → List Handle → Handle
first_parent d [] = d
first_parent d (p ∷ ps) = p

abbrev pub cut_short : Cookies → Option Paged
cut_short m = some (record { status = 0; entries = []; eof = false; cookies = m })

-- The cookies are 1 for ".", 2 for ".." and above 2 ^ 63 for the entries.
unfoldable pub page_dir : Handle → ℕ → ℕ → ℕ → Cookies → Store → Option Paged
unfolding parents resume_name page_loop
page_dir d cookie max per_entry m s =
    let dot : List DirEnt =
      if ltb cookie 1 then record { name = codes "."; cookie = 1; node = d } ∷ [] else [] in
    let up = first_parent d (parents d s) in
    let dots : List DirEnt =
      if ltb cookie 2 then record { name = codes ".."; cookie = 2; node = up } ∷ [] else [] in
    let b1 = if ltb cookie 1 then 128 + entry_size per_entry (codes ".") else 128 in
    let b2 = if ltb cookie 2 then b1 + entry_size per_entry (codes "..") else b1 in
    let from = if leb snap_bit cookie then resume_name d cookie s m else resumes [] in
    let rest = prepend (dot ++ dots) (page_from from d max per_entry b2 m s) in
    if ltb cookie 1 && ltb max b1
    then cut_short m
    else if ltb cookie 2 && ltb max b2
    then prepend dot (cut_short m)
    else rest

abbrev pub put_entry : DirEnt → Bytes → Bytes
put_entry e w =
    put_u64 e.cookie (put_str e.name (put_u64 (view_fileid e.node.id e.node.snap) (put_u32 1 w)))

unfoldable pub put_entries : List DirEnt → Bytes → Bytes
unfolding put_u32 put_u64 put_str view_fileid
put_entries [] w = w
put_entries (e ∷ es) w = put_entries es (put_entry e w)

abbrev pub eof_word : Bool → ℕ
eof_word eof = if eof then 1 else 0

module _ (policy : Option ContentConfig) where
  -- With each entry's attributes and handle, for READDIRPLUS
  unfoldable pub put_entries_plus : List DirEnt → Store → Bytes → Bytes
  unfolding put_u32 put_u64 put_str put_fh view_fileid encode_post_op
  put_entries_plus [] s w = w
  put_entries_plus (e ∷ es) s w = put_entries_plus es s (
      put_fh e.node.id e.node.snap
        (put_u32 1 (encode_post_op policy (some e.node) s (put_entry e w))))

  -- The reply to a listing; `none` is what `page_dir` does not return.
  abbrev pub listed : Bool → Handle → Option Paged → Cookies → Store → Bytes → Reply × Cookies
  listed plus d none m s w = (undefined, m)
  listed plus d (some p) m s w =
      let head = put_u32 0 (put_u32 0 (encode_post_op policy (some d) s (put_u32 p.status w))) in
      let body = if plus then put_entries_plus p.entries s head else put_entries p.entries head in
      if p.status == 0
      then (success (put_u32 (eof_word p.eof) (put_u32 0 body)) s, p.cookies)
      else (success (encode_post_op policy (some d) s (put_u32 p.status w)) s, p.cookies)

  unfoldable pub list_node :
      Bool → Option Handle → ℕ → ℕ → Cookies → Store → Bytes → Reply × Cookies
  unfolding put_u32 encode_post_op page_dir put_entries put_entries_plus
  list_node plus none cookie max m s w = (success (put_u32 70 w) s, m)
  list_node plus (some d) cookie max m s w =
      let per_entry = if plus then 88 + 24 else 0 in
      let found = listed plus d (page_dir d cookie max per_entry m s) m s w in
      if not (is_type dir d s)
      then (success (encode_post_op policy (some d) s (put_u32 20 w)) s, m)
      else found

  abbrev pub readdir_args :
      Bool → Option (ℕ × ℕ) × Reader → Cookies → Store → Bytes → Reply × Cookies
  readdir_args plus (none, r) m s w = (garbage s w, m)
  readdir_args plus (some (id, snap), r) m s w =
      let (cookie, r1) = read_u64 r in
      let r2 = skip 8 r1 in
      let r3 = if plus then (read_u32 r2).1 else r2 in
      let (max, r4) = read_u32 r3 in
      let reply = list_node plus (node_by_id id snap s) cookie max m s w in
      if not r4.ok then (garbage s w, m) else reply

  unfoldable pub nfs_readdir : Reader → Cookies → Store → Bytes → Reply × Cookies
  unfolding read_fh read_u64 read_u32 skip node_by_id list_node
  nfs_readdir r m s w = readdir_args false (read_fh r) m s w

  unfoldable pub nfs_readdir_plus : Reader → Cookies → Store → Bytes → Reply × Cookies
  unfolding read_fh read_u64 read_u32 skip node_by_id list_node
  nfs_readdir_plus r m s w = readdir_args true (read_fh r) m s w
