-- ===== src/Core/Namespace/Copies.antt =====
-- What `ensureWritableDnLinks` copies.
use prfs.Prelude.{
  ℕ, ◌<◌, ◌≡◌, refl, sym, ap, ◌∙◌, subst, List, [], ◌∷◌, ◌++◌, drop, ◌==◌, Bool, true, false, ◌&&◌,
  inl, inr, Option, none, some, if◌then◌else◌, arith, map,
}
use prfs.Bytes.{Bytes, u64, be, rdbe, cmp, is_eq, has_prefix}
use prfs.Bytes.Encoding.{rdbe-lt, be-append}
use prfs.Bytes.Order.{eq_of_cmp, cmp-append, Ordering-cases, has_prefix_split, cmp_flip_gt}
use prfs.Kv.{Map, find, put}
use prfs.Kv.Laws.{Sorted, Below, find-Below, Below-trans}
use prfs.Core.Tables.{Db, Link, to_link}
use prfs.Core.Links.{down_key, copy_down, to_child}
use prfs.Core.Namespace.Keys.{same_key, find-put_down}

-- The child under a key, and none without an entry.
abbrev pub link_at : Map → ℕ → ℕ → Bytes → Option ℕ
link_at m d v name = to_child (find (down_key d v name) m)

abbrev pub or_link : Option Bytes → Option ℕ → Option ℕ
or_link none o = o
or_link (some w) o = some (rdbe w)

-- Entries of one directory and version.
abbrev pub AllUnder : Bytes → Map → Type 0
AllUnder p [] = Unit
AllUnder p (e ∷ m) = (has_prefix p e.0 ≡ true) × AllUnder p m

drop-down_key : (d v : ℕ) (name : Bytes) → drop 16 (down_key d v name) ≡ name
unfolding be
drop-down_key d v name = refl

split_key :
    (d v : ℕ) (k : Bytes) → has_prefix (be d ++ be v) k ≡ true → k ≡ down_key d v (drop 16 k)
split_key d v k h =
    let (s, e) = has_prefix_split (be d ++ be v) k h in
    let whole = e ∙ be-append d v s in
    whole ∙ ap (down_key d v) (sym (drop-down_key d v s) ∙ sym (ap (drop 16) whole))

pub copy_down_nodes :
    (d cur : ℕ) (ls : List Link) (db : Db) → (copy_down d cur ls db).nodes ≡ db.nodes
unfolding copy_down
copy_down_nodes d cur [] db = refl
copy_down_nodes d cur (l ∷ ls) db = copy_down_nodes d cur ls _

pub copy_down_other :
    (d cur : ℕ) (ls : List Link) (db : Db) (d' v' : ℕ) (name : Bytes)
    → d < u64
    → cur < u64
    → d' < u64
    → v' < u64
    → ((d == d') && (cur == v')) ≡ false
    → find (down_key d' v' name) (copy_down d cur ls db).down_links
      ≡ find (down_key d' v' name) db.down_links
unfolding copy_down
copy_down_other d cur [] db d' v' name hd hc hd' hv' apart = refl
copy_down_other d cur ((n, c) ∷ ls) db d' v' name hd hc hd' hv' apart =
    let miss : same_key d cur n d' v' name ≡ false = ground (arith, apart) in
    copy_down_other d cur ls _ d' v' name hd hc hd' hv' apart
    ∙ find-put_down d cur n d' v' name db.down_links hd hc hd' hv' (be c)
    ∙ ap (λ (b : Bool). if b then some (be c) else find (down_key d' v' name) db.down_links) miss

cmp-down_key : (d v : ℕ) (n name : Bytes) → cmp (down_key d v n) (down_key d v name) ≡ cmp n name
cmp-down_key d v n name = cmp-append (be d) (be v ++ n) (be v ++ name) ∙ cmp-append (be v) n name

-- The entry at the head of a map in key order and the entries after it.
head_or_rest :
    (q k w : Bytes) (m : Map) (o : Option ℕ)
    → Below k m
    → Sorted m
    → or_link (find q m) (if is_eq (cmp k q) then some (rdbe w) else o)
      ≡ or_link (find q ((k, w) ∷ m)) o
unfolding find
head_or_rest q k w m o b s = elim (Ordering-cases (cmp k q)) [
  | inl lt ↦ rw (lt, find) refl
  | inr (inl eq) ↦
      let gone : find q m ≡ none = find-Below q m (subst (λ x. Below x m) (eq_of_cmp k q eq) b) in
      rw (eq, gone, find) refl
  | inr (inr gt) ↦
      let gone : find q m ≡ none = find-Below q m (Below-trans q k m (cmp_flip_gt k q gt) b) in
      rw (gt, gone, find) refl
]

self_key : (d v : ℕ) (n name : Bytes) → same_key d v n d v name ≡ is_eq (cmp n name)
self_key d v n name = ground arith

pub rdbe-be_last : (x : ℕ) → x < u64 → rdbe (be x) ≡ x
unfolding rdbe be
rdbe-be_last x h = omega arith

read_back :
    (b : Bool) (x : ℕ) (o : Option Bytes)
    → x < u64
    → to_child (if b then some (be x) else o) ≡ (if b then some x else to_child o)
read_back true x o h = ap some (rdbe-be_last x h)
read_back false x o h = refl

-- A copied name reads as its entry, and another as it did.
pub link_at-copy_down :
    (d v cur : ℕ) (name : Bytes) (m : Map) (db : Db)
    → d < u64
    → cur < u64
    → Sorted m
    → AllUnder (be d ++ be v) m
    → link_at (copy_down d cur (map to_link m) db).down_links d cur name
      ≡ or_link (find (down_key d v name) m) (link_at db.down_links d cur name)
unfolding copy_down find
link_at-copy_down d v cur name [] db hd hc s u = refl
link_at-copy_down d v cur name ((k, w) ∷ m) db hd hc s u =
    let n = drop 16 k in
    let db' = record db { down_links = put (down_key d cur n) (be (rdbe w)) db.down_links } in
    let before = link_at db.down_links d cur name in
    let pick = λ (b : Bool).
      to_child (if b then some (be (rdbe w)) else find (down_key d cur name) db.down_links) in
    let written : link_at db'.down_links d cur name ≡ pick (is_eq (cmp n name)) =
      ap to_child (find-put_down d cur n d cur name db.down_links hd hc hd hc (be (rdbe w)))
      ∙ ap pick (self_key d cur n name) in
    let value : pick (is_eq (cmp n name)) ≡ (if is_eq (cmp n name) then some (rdbe w) else before) =
      read_back (is_eq (cmp n name)) (rdbe w) (find (down_key d cur name) db.down_links)
        (rdbe-lt w) in
    let order : is_eq (cmp n name) ≡ is_eq (cmp k (down_key d v name)) =
      ap is_eq (sym (cmp-down_key d v n name))
      ∙ ap (λ x. is_eq (cmp x (down_key d v name))) (sym (split_key d v k u.0)) in
    link_at-copy_down d v cur name m db' hd hc s.1 u.1
    ∙ ap (or_link (find (down_key d v name) m))
        (written ∙ value ∙ ap (λ (b : Bool). if b then some (rdbe w) else before) order)
    ∙ head_or_rest (down_key d v name) k w m before s.0 s.1
