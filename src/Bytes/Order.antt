-- ===== src/Bytes/Order.antt =====
-- `cmp` is a strict total order on byte strings.
use prfs.Prelude.{◌⊎◌, inl, inr, ◌≡◌, refl, [], ◌∷◌, ◌++◌, Ordering, true, false, arith}
use prfs.Bytes.{Bytes, cmp, has_prefix}

-- To split on a comparison and keep the equation.
abbrev pub OneOf : Ordering → Type 0
OneOf c = (c ≡ Ordering.lt) ⊎ (c ≡ Ordering.eq) ⊎ (c ≡ Ordering.gt)

pub Ordering-cases : (c : Ordering) → OneOf c
Ordering-cases Ordering.lt = inl refl
Ordering-cases Ordering.eq = inr (inl refl)
Ordering-cases Ordering.gt = inr (inr refl)

pub cmp_refl : (a : Bytes) → cmp a a ≡ Ordering.eq
unfolding cmp
cmp_refl [] = refl
cmp_refl (x ∷ a) = ground (arith, cmp_refl a)

pub eq_of_cmp : (a b : Bytes) → cmp a b ≡ Ordering.eq → a ≡ b
unfolding cmp
eq_of_cmp [] [] h = refl
eq_of_cmp [] (y ∷ b) h = ground arith
eq_of_cmp (x ∷ a) [] h = ground arith
eq_of_cmp (x ∷ a) (y ∷ b) h = ground (arith, eq_of_cmp a b)

pub cmp_flip : (a b : Bytes) → cmp a b ≡ Ordering.lt → cmp b a ≡ Ordering.gt
unfolding cmp
cmp_flip [] [] h = ground arith
cmp_flip [] (y ∷ b) h = refl
cmp_flip (x ∷ a) [] h = ground arith
cmp_flip (x ∷ a) (y ∷ b) h = ground (arith, cmp_flip a b)

pub cmp_flip_gt : (a b : Bytes) → cmp a b ≡ Ordering.gt → cmp b a ≡ Ordering.lt
unfolding cmp
cmp_flip_gt [] [] h = ground arith
cmp_flip_gt [] (y ∷ b) h = ground arith
cmp_flip_gt (x ∷ a) [] h = refl
cmp_flip_gt (x ∷ a) (y ∷ b) h = ground (arith, cmp_flip_gt a b)

pub cmp_trans :
    (a b c : Bytes) → cmp a b ≡ Ordering.lt → cmp b c ≡ Ordering.lt → cmp a c ≡ Ordering.lt
unfolding cmp
cmp_trans [] [] c h k = ground arith
cmp_trans [] (y ∷ b) [] h k = ground arith
cmp_trans [] (y ∷ b) (z ∷ c) h k = refl
cmp_trans (x ∷ a) [] c h k = ground arith
cmp_trans (x ∷ a) (y ∷ b) [] h k = ground arith
cmp_trans (x ∷ a) (y ∷ b) (z ∷ c) h k = ground (arith, cmp_trans a b c)

-- A string with a prefix is not below the prefix.
pub cmp-prefix : (p k : Bytes) → has_prefix p k ≡ true → cmp k p ≡ Ordering.lt → false ≡ true
unfolding cmp has_prefix
cmp-prefix [] [] h l = ground arith
cmp-prefix [] (y ∷ k) h l = ground arith
cmp-prefix (x ∷ p) [] h l = ground arith
cmp-prefix (x ∷ p) (y ∷ k) h l = ground (arith, cmp-prefix p k)

-- Past the strings with a prefix there are no more of them.
pub has_prefix_past :
    (p k j : Bytes)
    → cmp p k ≡ Ordering.lt
    → has_prefix p k ≡ false
    → cmp k j ≡ Ordering.lt
    → has_prefix p j ≡ false
unfolding cmp has_prefix
has_prefix_past [] k j pk no_pfx kj = ground arith
has_prefix_past (x ∷ p) [] j pk no_pfx kj = ground arith
has_prefix_past (x ∷ p) (y ∷ k) [] pk no_pfx kj = ground arith
has_prefix_past (x ∷ p) (y ∷ k) (z ∷ j) pk no_pfx kj = ground (arith, has_prefix_past p k j)

pub has_prefix-append : (p s : Bytes) → has_prefix p (p ++ s) ≡ true
unfolding has_prefix
has_prefix-append [] s = refl
has_prefix-append (x ∷ p) s = ground (arith, has_prefix-append p s)

pub cmp-append : (p s t : Bytes) → cmp (p ++ s) (p ++ t) ≡ cmp s t
unfolding cmp
cmp-append [] s t = refl
cmp-append (x ∷ p) s t = ground (arith, cmp-append p s t)

-- A string with a prefix is the prefix and what follows it.
pub has_prefix_split : (p k : Bytes) → has_prefix p k ≡ true → (s : Bytes) × (k ≡ p ++ s)
unfolding has_prefix
has_prefix_split [] k h = (k, refl)
has_prefix_split (x ∷ p) [] h = ground arith
has_prefix_split (x ∷ p) (y ∷ k) h =
    let (s, e) = has_prefix_split p k (ground arith) in (s, ground arith)
