-- ===== src/Kv/Scan.antt =====
-- What the cursor loops of the store read: the newest entry at or below a key, and the entries
-- with a prefix.
use prfs.Prelude.{
  ◌⊎◌, inl, inr, ◌≡◌, refl, sym, ap, ◌∙◌, Ordering, [], ◌∷◌, Option, none, some, arith, subst,
}
use prfs.Bytes.{Bytes, cmp}
use prfs.Bytes.Order.{Ordering-cases, eq_of_cmp, cmp_flip, cmp_flip_gt, cmp_trans}
use prfs.Kv.{Map, Entry, put}
use prfs.Kv.Laws.{Sorted, Below, Below-trans}

abbrev pub or_entry : Option Entry → Entry → Option Entry
or_entry none e = some e
or_entry (some f) e = some f

abbrev pub cut : Ordering → Option Entry → Entry → Option Entry
cut Ordering.gt o e = none
cut Ordering.lt o e = or_entry o e
cut Ordering.eq o e = or_entry o e

-- The last entry whose key is not above `q`.
unfoldable pub floor : Bytes → Map → Option Entry
floor q [] = none
floor q ((j, w) ∷ m) = cut (cmp j q) (floor q m) (j, w)

abbrev pub newer : Bytes → Bytes → Option Entry → Option Entry
newer k v none = some (k, v)
newer k v (some (j, w)) = elim (cmp j k) [ Ordering.gt ↦ some (j, w) | _ ↦ some (k, v) ]

abbrev pub moved : Ordering → Bytes → Bytes → Option Entry → Option Entry
moved Ordering.gt k v o = o
moved Ordering.lt k v o = newer k v o
moved Ordering.eq k v o = newer k v o

abbrev Past : Bytes → Option Entry → Type 0
Past k none = Unit
Past k (some e) = cmp e.0 k ≡ Ordering.gt

Past-cut :
    (k : Bytes) (c : Ordering) (o : Option Entry) (e : Entry)
    → Past k o
    → cmp e.0 k ≡ Ordering.gt
    → Past k (cut c o e)
Past-cut k Ordering.gt o e p h = tt
Past-cut k Ordering.lt none e p h = h
Past-cut k Ordering.lt (some f) e p h = p
Past-cut k Ordering.eq none e p h = h
Past-cut k Ordering.eq (some f) e p h = p

floor-Past : (k q : Bytes) (m : Map) → Below k m → Sorted m → Past k (floor q m)
unfolding floor
floor-Past k q [] b s = tt
floor-Past k q ((i, w) ∷ m) b s =
    Past-cut k (cmp i q) (floor q m) (i, w) (floor-Past k q m (Below-trans k i m b s.0) s.1)
      (cmp_flip k i b)

module _ (j w k v : Bytes) where
  put_lt : (m : Map) → cmp j k ≡ Ordering.lt → put k v ((j, w) ∷ m) ≡ (j, w) ∷ put k v m
  unfolding put
  put_lt m h = ground arith

  put_eq : (m : Map) → cmp j k ≡ Ordering.eq → put k v ((j, w) ∷ m) ≡ (k, v) ∷ m
  unfolding put
  put_eq m h = ground arith

  put_gt : (m : Map) → cmp j k ≡ Ordering.gt → put k v ((j, w) ∷ m) ≡ (k, v) ∷ (j, w) ∷ m
  unfolding put
  put_gt m h = ground arith

  -- The three places of a written key against the head of the map.
  moved_lt :
      (c d : Ordering) (o : Option Entry)
      → cmp j k ≡ Ordering.lt
      → (d ≡ Ordering.gt) ⊎ (c ≡ Ordering.lt)
      → cut c (moved d k v o) (j, w) ≡ moved d k v (cut c o (j, w))
  moved_lt c Ordering.gt o h g = refl
  moved_lt c Ordering.lt none h g = ground arith
  moved_lt c Ordering.lt (some f) h g = ground arith
  moved_lt c Ordering.eq none h g = ground arith
  moved_lt c Ordering.eq (some f) h g = ground arith

  moved_eq :
      (c : Ordering) (o : Option Entry)
      → cmp j k ≡ Ordering.eq
      → Past k o
      → cut c o (k, v) ≡ moved c k v (cut c o (j, w))
  moved_eq Ordering.gt o h p = refl
  moved_eq Ordering.lt none h p = ground arith
  moved_eq Ordering.lt (some f) h p = ground arith
  moved_eq Ordering.eq none h p = ground arith
  moved_eq Ordering.eq (some f) h p = ground arith

  moved_gt :
      (c d : Ordering) (o : Option Entry)
      → cmp j k ≡ Ordering.gt
      → Past k o
      → (d ≡ Ordering.lt) ⊎ (c ≡ Ordering.gt)
      → cut d (cut c o (j, w)) (k, v) ≡ moved d k v (cut c o (j, w))
  moved_gt Ordering.gt Ordering.gt o h p g = ground arith
  moved_gt Ordering.gt d o h p g = ground arith
  moved_gt c Ordering.lt none h p g = ground arith
  moved_gt c Ordering.lt (some f) h p g = ground arith
  moved_gt c d o h p g = ground arith

lt_through :
    (j k q : Bytes) → cmp j k ≡ Ordering.lt → (cmp k q ≡ Ordering.gt) ⊎ (cmp j q ≡ Ordering.lt)
lt_through j k q h = elim (Ordering-cases (cmp k q)) [
  | inl lt ↦ inr (cmp_trans j k q h lt)
  | inr (inl e) ↦ inr (subst (λ x. cmp j x ≡ Ordering.lt) (eq_of_cmp k q e) h)
  | inr (inr gt) ↦ inl gt
]

gt_through :
    (j k q : Bytes) → cmp k j ≡ Ordering.lt → (cmp k q ≡ Ordering.lt) ⊎ (cmp j q ≡ Ordering.gt)
gt_through j k q h = elim (Ordering-cases (cmp j q)) [
  | inl lt ↦ inl (cmp_trans k j q h lt)
  | inr (inl e) ↦ inl (subst (λ x. cmp k x ≡ Ordering.lt) (eq_of_cmp j q e) h)
  | inr (inr gt) ↦ inr gt
]

-- A write moves the floor of a key only to the entry written.
pub floor-put :
    (q k v : Bytes) (m : Map) → Sorted m → floor q (put k v m) ≡ moved (cmp k q) k v (floor q m)
unfolding floor put
floor-put q k v [] s = ground arith
floor-put q k v ((j, w) ∷ m) s = elim (Ordering-cases (cmp j k)) [
  | inl before ↦
      ap (floor q) (put_lt j w k v m before)
      ∙ ap (λ o. cut (cmp j q) o (j, w)) (floor-put q k v m s.1)
      ∙ moved_lt j w k v (cmp j q) (cmp k q) (floor q m) before (lt_through j k q before)
  | inr (inl same) ↦
      ap (floor q) (put_eq j w k v m same)
      ∙ moved_eq j w k v (cmp k q) (floor q m) same
          (subst (λ x. Past x (floor q m)) (eq_of_cmp j k same) (floor-Past j q m s.0 s.1))
      ∙ ap (λ x. moved (cmp k q) k v (cut (cmp x q) (floor q m) (j, w))) (sym (eq_of_cmp j k same))
  | inr (inr after) ↦
      let kj = cmp_flip_gt j k after in
      ap (floor q) (put_gt j w k v m after)
      ∙ moved_gt j w k v (cmp j q) (cmp k q) (floor q m) after
          (floor-Past k q m (Below-trans k j m kj s.0) s.1) (gt_through j k q kj)
]
