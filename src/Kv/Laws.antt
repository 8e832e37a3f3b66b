-- ===== src/Kv/Laws.antt =====
-- The finite-map laws of the engine, and the order of its entries.
use prfs.Prelude.{◌≡◌, refl, Ordering, [], ◌∷◌, none, some, arith, All}
use prfs.Bytes.{Bytes, cmp}
use prfs.Bytes.Order.{cmp_refl, eq_of_cmp, cmp_flip, cmp_flip_gt, cmp_trans}
use prfs.Kv.{Map, Entry, find, put, del}

abbrev pub elim_eq {ℓ} : {A : Type ℓ} → Ordering → A → A → A
elim_eq Ordering.eq x y = x
elim_eq _ x y = y

-- What a key reads after a write: the value written under that key, and under any other key what
-- it read before.
pub find-put :
    (q k v : Bytes) (m : Map) → find q (put k v m) ≡ elim_eq (cmp k q) (some v) (find q m)
unfolding find put
find-put q k v [] = ground arith
find-put q k v ((j, w) ∷ m) = ground (
  arith,
  find-put q k v m,
  cmp_flip j k,
  cmp_flip k q,
  cmp_flip_gt j k,
  cmp_flip_gt j q,
  cmp_flip_gt k q,
  cmp_trans q j k,
  cmp_trans q k j,
  cmp_flip q k,
  cmp_flip q j,
  cmp_flip_gt q k,
  eq_of_cmp j k,
  eq_of_cmp j q,
  eq_of_cmp k q,
)

abbrev pub Below : Bytes → Map → Type 0
Below k [] = Unit
Below k ((j, w) ∷ m) = cmp k j ≡ Ordering.lt

abbrev pub Sorted : Map → Type 0
Sorted [] = Unit
Sorted ((k, v) ∷ m) = Below k m × Sorted m

pub Below-trans : (k j : Bytes) (m : Map) → cmp k j ≡ Ordering.lt → Below j m → Below k m
Below-trans k j [] h b = tt
Below-trans k j ((i, w) ∷ m) h b = cmp_trans k j i h b

pub find-Below : (k : Bytes) (m : Map) → Below k m → find k m ≡ none
unfolding find
find-Below k [] b = refl
find-Below k ((j, w) ∷ m) b = ground (arith, cmp_flip k j)

-- What a key reads after an erasure in a map in key order: nothing under the key erased, and under
-- any other key what it read before.
pub find-del :
    (q k : Bytes) (m : Map) → Sorted m → find q (del k m) ≡ elim_eq (cmp k q) none (find q m)
unfolding find del
find-del q k [] s = ground arith
find-del q k ((j, w) ∷ m) s = ground (
  arith,
  find-del q k m s.1,
  find-Below k m,
  find-Below q m,
  Below-trans q k m,
  cmp_flip j k,
  cmp_flip k q,
  cmp_flip_gt j k,
  cmp_flip_gt j q,
  cmp_flip_gt k q,
  cmp_trans q j k,
  cmp_trans q k j,
  cmp_flip q k,
  cmp_flip q j,
  cmp_flip_gt q k,
  eq_of_cmp j k,
  eq_of_cmp j q,
  eq_of_cmp k q,
  cmp_refl q,
)

Below-put : (j k v : Bytes) (m : Map) → cmp j k ≡ Ordering.lt → Below j m → Below j (put k v m)
unfolding put
Below-put j k v [] h b = h
Below-put j k v ((i, w) ∷ m) h b = ground arith

Below-del : (j k : Bytes) (m : Map) → Below j m → Sorted m → Below j (del k m)
unfolding del
Below-del j k [] b s = tt
Below-del j k ((i, w) ∷ m) b s = ground (arith, Below-trans j i m)

pub put-Sorted : (k v : Bytes) (m : Map) → Sorted m → Sorted (put k v m)
unfolding put
put-Sorted k v [] s = (tt, tt)
put-Sorted k v ((j, w) ∷ m) s =
    ground (arith, put-Sorted k v m s.1, Below-put j k v m, eq_of_cmp j k, cmp_flip_gt j k)

pub del-Sorted : (k : Bytes) (m : Map) → Sorted m → Sorted (del k m)
unfolding del
del-Sorted k [] s = tt
del-Sorted k ((j, w) ∷ m) s = ground (arith, del-Sorted k m s.1, Below-del j k m s.0 s.1)

module _ {ℓ} (P : Entry → Type ℓ) where
  pub All-put : (k v : Bytes) (m : Map) → P (k, v) → All P m → All P (put k v m)
  unfolding put
  All-put k v [] p a = (p, tt)
  All-put k v ((j, w) ∷ m) p a = ground (arith, All-put k v m p a.1)

  pub All-del : (k : Bytes) (m : Map) → All P m → All P (del k m)
  unfolding del
  All-del k [] a = tt
  All-del k ((j, w) ∷ m) a = ground (arith, All-del k m a.1)
