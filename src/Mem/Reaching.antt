-- ===== src/Mem/Reaching.antt =====
-- The search of `reachable` in `MemStore` ends: each node is expanded once, by its own names.
use prfs.Prelude.{
  ℕ, zero, suc, ◌+◌, ◌<◌, ◌≤◌, ◌≡◌, refl, sym, ap, ◌∙◌, List, [], ◌∷◌, length, Bool, true, false,
  Bool-cases, inl, inr, ◌==◌, Option, none, some, if◌then◌else◌, arith, entry_of, nat_order,
  find_in,
}
use prfs.Bytes.{Bytes}
use prfs.Core.Links.{seen_before, or_false}
use prfs.Mem.{MemStore, names_of, link_live_at, eff}
use prfs.Mem.Ops.{push_child, push_children, reach_loop, reachable, count_names, is_dir_ver}
use prfs.Core.Store.{latest}

-- The names of the nodes that are not seen.
unfoldable left_over : List ℕ → List (ℕ × List Bytes) → ℕ
left_over seen [] = 0
left_over seen ((d, ns) ∷ m) =
    let rest = left_over seen m in if seen_before d seen then rest else length ns + rest

left_over-visit :
    (n : ℕ) (seen : List ℕ) (m : List (ℕ × List Bytes))
    → seen_before n seen ≡ false
    → length (entry_of [] n m) + left_over (n ∷ seen) m ≤ left_over seen m
unfolding left_over seen_before find_in
left_over-visit n seen [] new = omega arith
left_over-visit n seen ((d, ns) ∷ m) new = elim (Bool-cases (d == n)) [
  | inl here ↦
      let e : d ≡ n = ground (arith, here) in
      let unseen : seen_before d seen ≡ false = ap (λ i. seen_before i seen) e ∙ new in
      ground (arith, left_over-visit n seen m new, here, unseen)
  | inr away ↦ elim (Bool-cases (seen_before d seen)) [
    | inl old ↦ ground (arith, left_over-visit n seen m new, away, old)
    | inr fresh ↦ ground (arith, left_over-visit n seen m new, away, fresh)
  ]
]

length-push_child :
    (s : MemStore) (o : Option ℕ) (st : List ℕ) → length (push_child s o st) ≤ suc (length st)
length-push_child s none st = omega arith
length-push_child s (some c) st = elim (Bool-cases (is_dir_ver (eff s c latest))) [
  | inl push ↦ rw push (omega arith)
  | inr skip ↦ rw skip (omega arith)
]

length-push_children :
    (s : MemStore) (n : ℕ) (names : List Bytes) (st : List ℕ)
    → length (push_children s n names st) ≤ length names + length st
unfolding push_children
length-push_children s n [] st = omega arith
length-push_children s n (name ∷ names) st =
    let o = link_live_at s (n, name) latest in
    omega (arith, length-push_child s o st, length-push_children s n names (push_child s o st))

module _ (s : MemStore) where
  reach_loop-some :
      (to fuel : ℕ) (st seen : List ℕ)
      → length st + left_over seen s.names < fuel
      → (b : Bool) × (reach_loop s to fuel st seen ≡ some b)
  unfolding reach_loop
  reach_loop-some to zero st seen room = absurd (omega arith)
  reach_loop-some to (suc fuel) [] seen room = (false, refl)
  reach_loop-some to (suc fuel) (n ∷ st) seen room = elim (Bool-cases (n == to)) [
    | inl there ↦ (true, rw (there, reach_loop) refl)
    | inr other ↦ elim (Bool-cases (seen_before n seen)) [
      | inl old ↦
          let (b, e) = reach_loop-some to fuel st seen (omega arith) in
          (b, rw (other, reach_loop, old) e)
      | inr new ↦
          let pushed = length-push_children s n (names_of s n) st in
          let less = left_over-visit n seen s.names new in
          let (b, e) =
            reach_loop-some to fuel (push_children s n (names_of s n) st) (n ∷ seen)
              (omega (arith, pushed, less)) in
          (b, rw (other, reach_loop, new) e)
    ]
  ]

left_over-count_names : (m : List (ℕ × List Bytes)) → left_over [] m ≤ count_names m
unfolding left_over seen_before count_names
left_over-count_names [] = omega arith
left_over-count_names ((d, ns) ∷ m) = omega (arith, left_over-count_names m)

-- In any reference store, the search ends within the fuel that `reachable` has, and `reachable` is
-- its result.
pub mem_reachable_lem :
    (s : MemStore) (from to : ℕ)
    → reach_loop s to (count_names s.names + 2) (from ∷ []) [] ≡ some (reachable s from to)
unfolding reachable
mem_reachable_lem s from to =
    let (b, e) =
      reach_loop-some s to (count_names s.names + 2) (from ∷ []) []
        (omega (arith, left_over-count_names s.names)) in
    e ∙ ap some (sym (ap or_false e))
