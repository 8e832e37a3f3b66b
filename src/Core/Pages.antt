-- ===== src/Core/Pages.antt =====
-- A directory's pages lead to the last one: each page's cursor stands behind the one before it.
use prfs.Prelude.{
  ℕ, zero, suc, ◌+◌, ◌-◌, ◌<◌, ◌≤◌, ◌≡◌, refl, sym, ◌∙◌, subst, List, [], ◌∷◌, ◌++◌, length, map,
  Bool, true, Bool-cases, inl, inr, ◌⊎◌, Option, none, some, if◌then◌else◌, All, arith, drop,
  Ordering,
}
use prfs.Bytes.{Bytes, be, cmp, has_prefix, is_lt}
use prfs.Bytes.Order.{Ordering-cases, cmp_refl, cmp_trans, cmp-append, has_prefix_split}
use prfs.Kv.{Map, Entry, seek}
use prfs.Kv.Prefix.{scan_loop}
use prfs.Core.Record.{NodeRec}
use prfs.Core.Tables.{Db, Link, load_node, to_link}
use prfs.Core.Store.{
  Store, Handle, latest, rr, rising, is_snap_dir, snap_base, parse_snap, existed_at,
}
use prfs.Core.Views.{
  DirPage, to_string, snap_page, name_page, or_start, snap_dir_page, page_at, dir_page,
  readdir_page,
}
use prfs.Core.Names.{parse_snap-to_string}
use prfs.Core.Versions.{All-seek_from}

abbrev one_if : Bool → ℕ
one_if b = if b then 1 else 0

-- The entries of a table behind a key.
unfoldable pub above : Bytes → Map → ℕ
above q [] = 0
above q ((k, v) ∷ m) = one_if (is_lt (cmp q k)) + above q m

above-le_length : (q : Bytes) (m : Map) → above q m ≤ length m
unfolding above
above-le_length q [] = omega arith
above-le_length q ((k, v) ∷ m) = ground (arith, above-le_length q m)

is_lt_trans :
    (a b c : Bytes) → cmp a b ≡ Ordering.lt → one_if (is_lt (cmp b c)) ≤ one_if (is_lt (cmp a c))
is_lt_trans a b c h = elim (Ordering-cases (cmp b c)) [
  | inl lt ↦ rw (lt, cmp_trans a b c h lt) (omega arith)
  | inr (inl e) ↦ rw e (omega arith)
  | inr (inr gt) ↦ rw gt (omega arith)
]

above_mono : (q k : Bytes) (m : Map) → cmp q k ≡ Ordering.lt → above k m ≤ above q m
unfolding above
above_mono q k [] h = omega arith
above_mono q k ((j, v) ∷ m) h = omega (arith, is_lt_trans q k j h, above_mono q k m h)

-- Fewer entries are behind an entry than behind a key before it.
abbrev Descends : Map → Entry → Type 0
Descends m e = (q : Bytes) → cmp q e.0 ≡ Ordering.lt → above e.0 m < above q m

Descends-cons : (x : Entry) (m ls : Map) → All (Descends m) ls → All (Descends (x ∷ m)) ls
unfolding above
Descends-cons x m [] a = tt
Descends-cons x m (e ∷ ls) a =
    (λ q h. omega (arith, a.0 q h, is_lt_trans q e.0 x.0 h), Descends-cons x m ls a.1)

All-Descends : (m : Map) → All (Descends m) m
unfolding above
All-Descends [] = tt
All-Descends ((k, v) ∷ m) = (
  λ q h. rw (cmp_refl k, h) (omega (arith, above_mono q k m h)),
  Descends-cons (k, v) m m (All-Descends m),
)

module _ (P : Bytes → Type 0) where
  abbrev Moves : DirPage → Type 0
  Moves page = (page.entries ≡ []) ⊎ P page.cookie

  module _ (snap : ℕ) (from : Bytes) where
    abbrev Behind : Link → Type 0
    Behind l = is_lt (cmp from l.0) ≡ true → P l.0

    name_page-cookie :
        (room : ℕ) (ls : List Link) (cookie : Bytes)
        → All Behind ls
        → P cookie
        → P (name_page snap from room ls cookie).cookie
    unfolding name_page
    name_page-cookie room [] cookie a p = p
    name_page-cookie zero ((name, child) ∷ ls) cookie a p =
        elim (Bool-cases (is_lt (cmp from name))) [
          | inl later ↦ rw later p
          | inr early ↦ rw early (name_page-cookie zero ls cookie a.1 p)
        ]
    name_page-cookie (suc room) ((name, child) ∷ ls) cookie a p =
        elim (Bool-cases (is_lt (cmp from name))) [
          | inl later ↦ rw later (name_page-cookie room ls name a.1 (a.0 later))
          | inr early ↦ rw early (name_page-cookie (suc room) ls cookie a.1 p)
        ]

    name_page-Moves :
        (room : ℕ) (ls : List Link) (cookie : Bytes)
        → All Behind ls
        → Moves (name_page snap from (suc room) ls cookie)
    unfolding name_page
    name_page-Moves room [] cookie a = inl refl
    name_page-Moves room ((name, child) ∷ ls) cookie a = elim (Bool-cases (is_lt (cmp from name))) [
      | inl later ↦ rw later (inr (name_page-cookie room ls name a.1 (a.0 later)))
      | inr early ↦ rw early (name_page-Moves room ls cookie a.1)
    ]

  module _ (base : ℕ) (s : Store) where
    snap_page-cookie :
        (room : ℕ) (ns : List ℕ) (cookie : Bytes)
        → All (λ n. P (to_string n)) ns
        → P cookie
        → P (snap_page base room ns cookie s).cookie
    unfolding snap_page
    snap_page-cookie room [] cookie a p = p
    snap_page-cookie zero (n ∷ ns) cookie a p = elim (Bool-cases (existed_at s.db base n)) [
      | inl held ↦ rw held p
      | inr gone ↦ rw gone (snap_page-cookie zero ns cookie a.1 p)
    ]
    snap_page-cookie (suc room) (n ∷ ns) cookie a p = elim (Bool-cases (existed_at s.db base n)) [
      | inl held ↦ rw held (snap_page-cookie room ns (to_string n) a.1 a.0)
      | inr gone ↦ rw gone (snap_page-cookie (suc room) ns cookie a.1 p)
    ]

    snap_page-Moves :
        (room : ℕ) (ns : List ℕ) (cookie : Bytes)
        → All (λ n. P (to_string n)) ns
        → Moves (snap_page base (suc room) ns cookie s)
    unfolding snap_page
    snap_page-Moves room [] cookie a = inl refl
    snap_page-Moves room (n ∷ ns) cookie a = elim (Bool-cases (existed_at s.db base n)) [
      | inl held ↦ rw held (inr (snap_page-cookie room ns (to_string n) a.1 a.0))
      | inr gone ↦ rw gone (snap_page-Moves room ns cookie a.1)
    ]

All-rising :
    (Q : ℕ → Type 0) (left n : ℕ) → ((k : ℕ) → n ≤ k → k < n + left → Q k) → All Q (rising left n)
unfolding rising
All-rising Q zero n h = tt
All-rising Q (suc left) n h = (
  h n (omega arith) (omega arith),
  All-rising Q left (n + 1) (λ k lo hi. h k (omega (arith, lo)) (omega (arith, hi))),
)

-- What is left of a listing behind a cursor.
unfoldable pub left_at : Handle → Bytes → Db → Option NodeRec → ℕ
unfolding above
left_at d name db none = 0
left_at d name db (some dr) = above ((be d.id ++ be dr.dn_link_ver) ++ name) db.down_links

unfoldable pub left_after : Handle → Bytes → Store → ℕ
unfolding left_at
left_after d name s =
    if is_snap_dir d.id
    then s.cur - or_start (parse_snap name)
    else left_at d name s.db (load_node s.db d.id (rr s d.snap))

pub lt_of_is : (c : Ordering) → is_lt c ≡ true → c ≡ Ordering.lt
lt_of_is Ordering.lt h = refl
lt_of_is Ordering.eq h = absurd (cc)
lt_of_is Ordering.gt h = absurd (cc)

module _ (pfx from : Bytes) (m : Map) (lead : (s : Bytes) → drop 16 (pfx ++ s) ≡ s) where
  abbrev Nearer : Bytes → Type 0
  Nearer name = above (pfx ++ name) m < above (pfx ++ from) m

  split-Behind :
      (k v s : Bytes) → k ≡ pfx ++ s → Descends m (k, v) → Behind Nearer 0 from (to_link (k, v))
  split-Behind k v s e =
      subst (λ j. Descends m (j, v) → Behind Nearer 0 from (to_link (j, v))) (sym e)
        (rw (lead s)
          (λ d later. d (pfx ++ from) (cmp-append pfx from s ∙ lt_of_is (cmp from s) later)))

  scan_loop-Behind :
      (ls : Map) → All (Descends m) ls → All (Behind Nearer 0 from) (map to_link (scan_loop pfx ls))
  unfolding scan_loop
  scan_loop-Behind [] a = tt
  scan_loop-Behind ((k, v) ∷ ls) a = elim (Bool-cases (has_prefix pfx k)) [
    | inl under ↦
        let (s, e) = has_prefix_split pfx k under in
        rw under (split-Behind k v s e a.0, scan_loop-Behind ls a.1)
    | inr away ↦ rw away tt
  ]

pub drop-be_two : (x y : ℕ) (s : Bytes) → drop 16 ((be x ++ be y) ++ s) ≡ s
unfolding be
drop-be_two x y s = refl

page_at-Moves :
    (d : Handle) (from : Bytes) (room : ℕ) (db : Db) (o : Option NodeRec)
    → Moves (λ name. left_at d name db o < left_at d from db o) (page_at d from (suc room) db o)
unfolding page_at left_at seek
page_at-Moves d from room db none = inl refl
page_at-Moves d from room db (some dr) =
    let pfx = be d.id ++ be dr.dn_link_ver in
    let m = db.down_links in
    name_page-Moves (λ name. above (pfx ++ name) m < above (pfx ++ from) m) d.snap from room
      (map to_link (scan_loop pfx (seek (pfx ++ from) m).here)) []
      (scan_loop-Behind pfx from m (drop-be_two d.id dr.dn_link_ver) (seek (pfx ++ from) m).here
        (All-seek_from (Descends m) (pfx ++ from) [] m (All-Descends m)))

closer-to_string :
    (cur start k : ℕ)
    → start ≤ k
    → k < cur
    → cur < latest
    → cur - or_start (parse_snap (to_string k)) < cur - start
closer-to_string cur start k lo hi small =
    subst (λ o. cur - or_start o < cur - start) (sym (parse_snap-to_string k (omega arith)))
      (omega (arith, lo, hi, small))

-- Where the counter is below the live view's number, a page with an entry ends at a cursor behind
-- which less is left.
pub readdir_page-Moves :
    (d : Handle) (from : Bytes) (room : ℕ) (s : Store)
    → s.cur < latest
    → Moves (λ name. left_after d name s < left_after d from s) (readdir_page d from (suc room) s)
unfolding readdir_page left_after snap_dir_page dir_page
readdir_page-Moves d from room s open' = elim (Bool-cases (is_snap_dir d.id)) [
  | inl virtual ↦
      let start = or_start (parse_snap from) in
      rw virtual (
        snap_page-Moves (λ name. s.cur - or_start (parse_snap name) < s.cur - start)
          (snap_base d.id) s room (rising (s.cur - start) start) []
          (All-rising _ (s.cur - start) start
            (λ k lo hi. closer-to_string s.cur start k lo (omega (arith, hi)) open')))
  | inr real ↦ rw real (page_at-Moves d from room s.db (load_node s.db d.id (rr s d.snap)))
]

left_at-le :
    (d : Handle) (name : Bytes) (db : Db) (o : Option NodeRec)
    → left_at d name db o ≤ length db.down_links
unfolding left_at
left_at-le d name db none = omega arith
left_at-le d name db (some dr) =
    above-le_length ((be d.id ++ be dr.dn_link_ver) ++ name) db.down_links

pub left_after-le :
    (d : Handle) (name : Bytes) (s : Store) → left_after d name s ≤ s.cur + length s.db.down_links
unfolding left_after
left_after-le d name s = elim (Bool-cases (is_snap_dir d.id)) [
  | inl virtual ↦ rw virtual (omega arith)
  | inr real ↦ rw real (omega (arith, left_at-le d name s.db (load_node s.db d.id (rr s d.snap))))
]
