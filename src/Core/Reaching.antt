-- ===== src/Core/Reaching.antt =====
-- The search of `reachable` ends: each node is expanded once, and an entry of the link table is
-- pushed by its directory alone.
use prfs.Prelude.{
  ℕ, zero, suc, ◌+◌, ◌<◌, ◌≤◌, ◌≡◌, refl, sym, ap, ◌∙◌, List, [], ◌∷◌, ◌++◌, length, map, Bool,
  true, false, Bool-cases, inl, inr, ◌==◌, Option, none, some, if◌then◌else◌, All, arith,
}
use prfs.Bytes.{Bytes, u64, be, rdbe, has_prefix}
use prfs.Bytes.Encoding.{rdbe-be, rdbe-lt, be-append}
use prfs.Bytes.Order.{has_prefix_split}
use prfs.Kv.{Map}
use prfs.Kv.Laws.{Sorted}
use prfs.Kv.Prefix.{scan, with_prefix, scan_lem}
use prfs.Core.Record.{NodeRec}
use prfs.Core.Tables.{Db, Link, load_node, scan_down_links, to_link, is_dir}
use prfs.Core.Links.{seen_before, push_dirs, is_dir_at, visit, reach_loop, reachable, or_false}

-- The entries of the directories that are not seen.
unfoldable left_over : List ℕ → Map → ℕ
left_over seen [] = 0
left_over seen ((k, v) ∷ m) =
    let rest = left_over seen m in if seen_before (rdbe k) seen then rest else suc rest

rdbe-prefixed : (n v : ℕ) (k : Bytes) → n < u64 → has_prefix (be n ++ be v) k ≡ true → rdbe k ≡ n
rdbe-prefixed n v k h p =
    let (s, e) = has_prefix_split (be n ++ be v) k p in
    ap rdbe (e ∙ be-append n v s) ∙ rdbe-be n (be v ++ s) h

left_over-visit :
    (n v : ℕ) (seen : List ℕ) (m : Map)
    → n < u64
    → seen_before n seen ≡ false
    → length (with_prefix (be n ++ be v) m) + left_over (n ∷ seen) m ≤ left_over seen m
unfolding left_over with_prefix seen_before
left_over-visit n v seen [] h new = omega arith
left_over-visit n v seen ((k, w) ∷ m) h new =
    let rest = left_over-visit n v seen m h new in
    elim (Bool-cases (has_prefix (be n ++ be v) k)) [
      | inl under ↦
          let e = rdbe-prefixed n v k h under in
          let fresh : seen_before (rdbe k) seen ≡ false = ap (λ x. seen_before x seen) e ∙ new in
          let gone : (rdbe k == n) ≡ true = ground (arith, e) in
          rw (under, fresh, gone) (omega (arith, rest))
      | inr away ↦ rw away (elim (Bool-cases (seen_before (rdbe k) seen)) [
        | inl old ↦ rw old (ground (arith, rest))
        | inr fresh ↦ rw fresh (ground (arith, rest))
      ])
    ]

length-push_dirs :
    (db : Db) (cur : ℕ) (ls : List Link) (st : List ℕ)
    → length (push_dirs db cur ls st) ≤ length ls + length st
unfolding push_dirs
length-push_dirs db cur [] st = omega arith
length-push_dirs db cur ((name, child) ∷ ls) st = elim (Bool-cases (is_dir_at db cur child)) [
  | inl push ↦ rw push (omega (arith, length-push_dirs db cur ls (child ∷ st)))
  | inr skip ↦ rw skip (omega (arith, length-push_dirs db cur ls st))
]

abbrev IsId : ℕ → Type 0
IsId n = n < u64

picked-IsId :
    (b : Bool) (x : ℕ) (st : List ℕ) → x < u64 → All IsId st → All IsId (if b then x ∷ st else st)
picked-IsId true x st h a = (h, a)
picked-IsId false x st h a = a

push_dirs-IsId :
    (db : Db) (cur : ℕ) (m : Map) (st : List ℕ)
    → All IsId st
    → All IsId (push_dirs db cur (map to_link m) st)
unfolding push_dirs
push_dirs-IsId db cur [] st a = a
push_dirs-IsId db cur ((k, v) ∷ m) st a =
    push_dirs-IsId db cur m _ (picked-IsId (is_dir_at db cur (rdbe v)) (rdbe v) st (rdbe-lt v) a)

length-map {ℓ ℓ'} :
    {A : Type ℓ} {B : Type ℓ'} (f : A → B) (xs : List A) → length (map f xs) ≡ length xs
length-map f [] = refl
length-map f (x ∷ xs) = ap suc (length-map f xs)

module _ (db : Db) (cur : ℕ) (sorted : Sorted db.down_links) where
  visit_found :
      (o : Option NodeRec) (n : ℕ) (st seen : List ℕ)
      → n < u64
      → seen_before n seen ≡ false
      → All IsId st
      → let after : List ℕ = elim o [
        | none ↦ st
        | some r ↦ if is_dir r then push_dirs db cur (scan_down_links db n r.dn_link_ver) st else st
      ] in
        All IsId after
        × (length after + left_over (n ∷ seen) db.down_links
            ≤ length st + left_over seen db.down_links)
  unfolding scan_down_links
  visit_found none n st seen h new a =
      (a, omega (arith, left_over-visit n 0 seen db.down_links h new))
  visit_found (some r) n st seen h new a = elim (Bool-cases (is_dir r)) [
    | inl dir ↦
        let links = scan (be n ++ be r.dn_link_ver) db.down_links in
        let size =
          length-map to_link links
          ∙ ap length (scan_lem (be n ++ be r.dn_link_ver) db.down_links sorted) in
        rw dir (
          push_dirs-IsId db cur links st a,
          omega (
            arith,
            length-push_dirs db cur (map to_link links) st,
            left_over-visit n r.dn_link_ver seen db.down_links h new,
            size,
          ),
        )
    | inr other ↦ rw other (a, omega (arith, left_over-visit n 0 seen db.down_links h new))
  ]

  -- What a node pushes, and what it leaves to push.
  visit_lem :
      (n : ℕ) (st seen : List ℕ)
      → n < u64
      → seen_before n seen ≡ false
      → All IsId st
      → All IsId (visit db cur n st)
        × (length (visit db cur n st) + left_over (n ∷ seen) db.down_links
            ≤ length st + left_over seen db.down_links)
  unfolding visit
  visit_lem n st seen h new a = visit_found (load_node db n cur) n st seen h new a

  reach_loop-some :
      (to fuel : ℕ) (st seen : List ℕ)
      → All IsId st
      → length st + left_over seen db.down_links < fuel
      → (b : Bool) × (reach_loop db cur to fuel st seen ≡ some b)
  unfolding reach_loop
  reach_loop-some to zero st seen a room = absurd (omega arith)
  reach_loop-some to (suc fuel) [] seen a room = (false, refl)
  reach_loop-some to (suc fuel) (n ∷ st) seen a room = elim (Bool-cases (n == to)) [
    | inl there ↦ (true, rw (there, reach_loop) refl)
    | inr other ↦ elim (Bool-cases (seen_before n seen)) [
      | inl old ↦
          let (b, e) = reach_loop-some to fuel st seen a.1 (omega arith) in
          (b, rw (other, reach_loop, old) e)
      | inr new ↦
          let v = visit_lem n st seen a.0 new a.1 in
          let (b, e) =
            reach_loop-some to fuel (visit db cur n st) (n ∷ seen) v.0 (omega (arith, v.1)) in
          (b, rw (other, reach_loop, new) e)
    ]
  ]

left_over-length : (m : Map) → left_over [] m ≤ length m
unfolding left_over seen_before
left_over-length [] = omega arith
left_over-length ((k, v) ∷ m) = omega (arith, left_over-length m)

-- Over a link table in key order, the search from an id of 64 bits ends within the fuel that
-- `reachable` has, and `reachable` is its result.
pub reachable_lem :
    (db : Db) (cur from to : ℕ)
    → Sorted db.down_links
    → from < u64
    → reach_loop db cur to (length db.down_links + 2) (from ∷ []) []
      ≡ some (reachable db cur from to)
unfolding reachable
reachable_lem db cur from to sorted h =
    let (b, e) =
      reach_loop-some db cur sorted to (length db.down_links + 2) (from ∷ []) [] (h, tt)
        (omega (arith, left_over-length db.down_links)) in
    e ∙ ap some (sym (ap or_false e))
