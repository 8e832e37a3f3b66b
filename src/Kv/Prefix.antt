-- ===== src/Kv/Prefix.antt =====
-- The loops of the store over the keys with a prefix: `scanDownlinks` and its like.
use prfs.Prelude.{◌≡◌, refl, Ordering, [], ◌∷◌, true, false, arith, if◌then◌else◌, ◌⊎◌, inl, inr}
use prfs.Bytes.{Bytes, cmp, has_prefix}
use prfs.Bytes.Order.{
  Ordering-cases, cmp_refl, eq_of_cmp, cmp_flip_gt, cmp_trans, cmp-prefix, has_prefix_past,
}
use prfs.Kv.{find, put, del, Map, seek, seek_from}
use prfs.Kv.Laws.{find-Below, Sorted, Below, Below-trans}

-- `for (ok = seek(pfx); ok; ok = next())`, up to the first key without the prefix. The argument is
-- what lies from the cursor on; `next` steps to its tail.
unfoldable pub scan_loop : Bytes → Map → Map
scan_loop p [] = []
scan_loop p (e ∷ h) = let rest = scan_loop p h in if has_prefix p e.0 then e ∷ rest else []

unfoldable pub scan : Bytes → Map → Map
unfolding scan_loop
scan p m = scan_loop p (seek p m).here

-- All entries with a prefix.
unfoldable pub with_prefix : Bytes → Map → Map
with_prefix p [] = []
with_prefix p (e ∷ m) = if has_prefix p e.0 then e ∷ with_prefix p m else with_prefix p m

with_prefix_none :
    (p k : Bytes) (m : Map)
    → cmp p k ≡ Ordering.lt
    → has_prefix p k ≡ false
    → Below k m
    → Sorted m
    → with_prefix p m ≡ []
unfolding with_prefix
with_prefix_none p k [] l n b s = refl
with_prefix_none p k ((j, w) ∷ m) l n b s =
    ground (arith, with_prefix_none p k m l n (Below-trans k j m b s.0) s.1, has_prefix_past p k j)

cmp_equal-prefix : (p k : Bytes) → cmp p k ≡ Ordering.eq → has_prefix p k ≡ true
unfolding cmp has_prefix
cmp_equal-prefix [] k h = refl
cmp_equal-prefix (x ∷ p) [] h = ground arith
cmp_equal-prefix (x ∷ p) (y ∷ k) h = ground (arith, cmp_equal-prefix p k)

abbrev pub FromHead : Bytes → Map → Type 0
FromHead p [] = Unit
FromHead p (e ∷ m) = (cmp p e.0 ≡ Ordering.lt) ⊎ (cmp p e.0 ≡ Ordering.eq)

FromHead-tail :
    (p k : Bytes) (m : Map)
    → (cmp p k ≡ Ordering.lt) ⊎ (cmp p k ≡ Ordering.eq)
    → Below k m
    → FromHead p m
FromHead-tail p k [] h b = tt
FromHead-tail p k ((j, w) ∷ m) h b = ground (arith, cmp_trans p k j, eq_of_cmp p k)

pub scan_loop-with_prefix :
    (p : Bytes) (m : Map) → Sorted m → FromHead p m → scan_loop p m ≡ with_prefix p m
unfolding scan_loop with_prefix
scan_loop-with_prefix p [] s h = refl
scan_loop-with_prefix p ((k, v) ∷ m) s h = ground (
  arith,
  scan_loop-with_prefix p m s.1 (FromHead-tail p k m h s.0),
  with_prefix_none p k m,
  cmp_equal-prefix p k,
)

seek_from-scan :
    (p : Bytes) (b m : Map) → Sorted m → scan_loop p (seek_from p b m).here ≡ with_prefix p m
unfolding seek_from with_prefix scan_loop
seek_from-scan p b [] s = refl
seek_from-scan p b ((k, v) ∷ m) s = elim (Ordering-cases (cmp k p)) [
  | inl lt ↦ ground (arith, seek_from-scan p ((k, v) ∷ b) m s.1, cmp-prefix p k)
  | inr (inl e) ↦
      ground
        (arith, scan_loop-with_prefix p ((k, v) ∷ m) s (inr (rw (eq_of_cmp k p e) (cmp_refl p))))
  | inr (inr gt) ↦ ground (arith, scan_loop-with_prefix p ((k, v) ∷ m) s (inl (cmp_flip_gt k p gt)))
]

-- In a map in key order, the cursor from the prefix on, up to the first key without it, finds all
-- the entries whose keys have the prefix, and no others.
pub scan_lem : (p : Bytes) (m : Map) → Sorted m → scan p m ≡ with_prefix p m
unfolding scan seek
scan_lem p m s = seek_from-scan p [] m s

-- Writes and erasures at keys without the prefix change nothing under it.
pub with_prefix-put :
    (p k v : Bytes) (m : Map) → has_prefix p k ≡ false → with_prefix p (put k v m) ≡ with_prefix p m
unfolding with_prefix put
with_prefix-put p k v [] h = ground arith
with_prefix-put p k v ((j, w) ∷ m) h = ground (arith, with_prefix-put p k v m h, eq_of_cmp j k)

pub with_prefix-del :
    (p k : Bytes) (m : Map) → has_prefix p k ≡ false → with_prefix p (del k m) ≡ with_prefix p m
unfolding with_prefix del
with_prefix-del p k [] h = refl
with_prefix-del p k ((j, w) ∷ m) h = ground (arith, with_prefix-del p k m h, eq_of_cmp j k)

pub with_prefix-Below : (p k : Bytes) (m : Map) → Below k m → Sorted m → Below k (with_prefix p m)
unfolding with_prefix
with_prefix-Below p k [] b s = tt
with_prefix-Below p k ((j, w) ∷ m) b s =
    ground (arith, with_prefix-Below p k m (Below-trans k j m b s.0) s.1)

-- A key with the prefix is found among the entries with it.
pub find-with_prefix :
    (p k : Bytes) (m : Map) → Sorted m → has_prefix p k ≡ true → find k (with_prefix p m) ≡ find k m
unfolding with_prefix find
find-with_prefix p k [] s h = refl
find-with_prefix p k ((j, w) ∷ m) s h = ground (
  arith,
  find-with_prefix p k m s.1 h,
  find-Below k (with_prefix p m),
  with_prefix-Below p k m,
  Below-trans k j m,
  cmp_flip_gt j k,
  eq_of_cmp j k,
)
