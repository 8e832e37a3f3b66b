-- ===== src/Mem/Listings.antt =====
-- What a new name and a changed link do to the loops of `readdir` and `parents`.
use prfs.Prelude.{
  ℕ, ◌≡◌, refl, sym, ap, ◌∙◌, List, [], ◌∷◌, Bool, true, false, ◌||◌, inl, inr, none, Ordering,
  arith, change_in,
}
use prfs.Bytes.{Bytes, cmp, is_eq}
use prfs.Bytes.Order.{Ordering-cases, cmp_refl, eq_of_cmp, cmp_flip, cmp_flip_gt, cmp_trans}
use prfs.Core.Store.{Handle}
use prfs.Mem.{LinkIv, LinkKey, link_key_order, link_order, MemStore, link_live_at, put_name}
use prfs.Mem.Views.{with_entry, name_entries, has_child, parents_loop}

-- `m_names[d].count(n)`, as the search of an ordered set
unfoldable pub is_listed : Bytes → List Bytes → Bool
is_listed n [] = false
is_listed n (x ∷ xs) = elim (cmp x n) [
  | Ordering.lt ↦ is_listed n xs
  | Ordering.eq ↦ true
  | Ordering.gt ↦ false
]

pub is_listed-put_name :
    (q n : Bytes) (ns : List Bytes)
    → is_listed q (put_name n ns) ≡ (is_eq (cmp n q) || is_listed q ns)
unfolding is_listed put_name
is_listed-put_name q n [] = ground arith
is_listed-put_name q n (x ∷ xs) = ground (
  arith,
  is_listed-put_name q n xs,
  cmp_flip x n,
  cmp_flip n q,
  cmp_flip_gt x n,
  cmp_flip_gt x q,
  cmp_flip_gt n q,
  cmp_trans q x n,
  cmp_trans q n x,
  cmp_flip q n,
  cmp_flip q x,
  cmp_flip_gt q n,
  eq_of_cmp x n,
  eq_of_cmp x q,
  eq_of_cmp n q,
  cmp_refl q,
)

-- A name that has no link in the view adds no entry to it.
pub name_entries-put_name :
    (d : Handle) (n : Bytes) (ns : List Bytes) (s : MemStore)
    → (is_listed n ns ≡ false → link_live_at s (d.id, n) d.snap ≡ none)
    → name_entries d (put_name n ns) s ≡ name_entries d ns s
unfolding name_entries put_name is_listed
name_entries-put_name d n [] s h = rw (h refl) refl
name_entries-put_name d n (x ∷ xs) s h = elim (Ordering-cases (cmp x n)) [
  | inl before ↦
      let skipped : is_listed n xs ≡ is_listed n (x ∷ xs) = rw (before, is_listed) refl in
      rw (before, put_name, name_entries)
        (ap (with_entry x d.snap (link_live_at s (d.id, x) d.snap))
          (name_entries-put_name d n xs s (λ missing. h (sym skipped ∙ missing))))
  | inr (inl there) ↦ rw (there, put_name) refl
  | inr (inr after) ↦ rw (after, put_name, name_entries, h (rw (after, is_listed) refl)) refl
]

-- A changed link that has the node for a child in the view where it had before, and a new one that
-- has not, add no parent.
pub parents_loop-change_in :
    (n : Handle) (rg : ℕ) (done : List ℕ) (k : LinkKey) (f : List LinkIv → List LinkIv)
    (links : List (LinkKey × List LinkIv))
    → ((ivs : List LinkIv) → has_child n.id rg (f ivs) ≡ has_child n.id rg ivs)
    → parents_loop n rg done (change_in k [] f links) ≡ parents_loop n rg done links
unfolding parents_loop change_in has_child
parents_loop-change_in n rg done k f [] same_child = rw (same_child []) refl
parents_loop-change_in n rg done k f ((j, ivs) ∷ links) same_child =
    through (link_order j k) (λ done. parents_loop-change_in n rg done k f links same_child)
  where
    through :
        (c : Ordering)
        → ((done : List ℕ)
            → parents_loop n rg done (change_in k [] f links) ≡ parents_loop n rg done links)
        → parents_loop n rg done (elim c [
          | Ordering.lt ↦ (j, ivs) ∷ change_in k [] f links
          | Ordering.eq ↦ (j, f ivs) ∷ links
          | Ordering.gt ↦ (k, f []) ∷ (j, ivs) ∷ links
        ])
          ≡ parents_loop n rg done ((j, ivs) ∷ links)
    through Ordering.lt later = rw (later done, later (j.0 ∷ done)) refl
    through Ordering.eq later = rw (same_child ivs) refl
    through Ordering.gt later = rw (same_child []) refl
