-- ===== src/Core/Namespace/Keys.antt =====
-- Reads of the link table after a write, by directory, version and name.
use prfs.Prelude.{
  ℕ, ◌<◌, ◌≡◌, refl, ap, ◌∙◌, ◌++◌, ◌==◌, Bool, true, ◌&&◌, Bool-cases, inl, inr, none, some,
  if◌then◌else◌, arith, Ordering,
}
use prfs.Bytes.{Bytes, u64, be, cmp, is_eq}
use prfs.Bytes.Encoding.{be-injective}
use prfs.Bytes.Order.{cmp_refl, eq_of_cmp, cmp-append, Ordering-cases}
use prfs.Kv.{Map, find, put, del}
use prfs.Kv.Laws.{find-put, find-del, Sorted, elim_eq}
use prfs.Core.Links.{down_key}

pub is_eq-cmp_refl : (s : Bytes) → is_eq (cmp s s) ≡ true
is_eq-cmp_refl s = ap is_eq (cmp_refl s)

pub eq_of_is_eq : (a b : Bytes) → is_eq (cmp a b) ≡ true → a ≡ b
eq_of_is_eq a b h = elim (Ordering-cases (cmp a b)) [
  | inl lt ↦ absurd (cc (h, lt))
  | inr (inl e) ↦ eq_of_cmp a b e
  | inr (inr gt) ↦ absurd (cc (h, gt))
]

is_eq-be :
    (x y : ℕ) (s t : Bytes)
    → x < u64
    → y < u64
    → is_eq (cmp (be x ++ s) (be y ++ t)) ≡ (x == y) && is_eq (cmp s t)
is_eq-be x y s t hx hy = elim (Bool-cases (x == y)) [
  | inl same ↦
      let e : x ≡ y = ground (arith, same) in rw (same, e) (ap is_eq (cmp-append (be y) s t))
  | inr apart ↦ rw apart (elim (Bool-cases (is_eq (cmp (be x ++ s) (be y ++ t)))) [
    | inl eq ↦
        let e = be-injective x y s t hx hy (eq_of_is_eq _ _ eq) in absurd (ground (arith, e, apart))
    | inr ne ↦ ne
  ])
]

-- The test of two keys of the link table.
abbrev pub same_key : ℕ → ℕ → Bytes → ℕ → ℕ → Bytes → Bool
same_key d v n d' v' n' = (d == d') && ((v == v') && is_eq (cmp n n'))

pub is_eq-down_key :
    (d v : ℕ) (n : Bytes) (d' v' : ℕ) (n' : Bytes)
    → d < u64
    → v < u64
    → d' < u64
    → v' < u64
    → is_eq (cmp (down_key d v n) (down_key d' v' n')) ≡ same_key d v n d' v' n'
is_eq-down_key d v n d' v' n' hd hv hd' hv' =
    is_eq-be d d' (be v ++ n) (be v' ++ n') hd hd'
    ∙ ap (λ (b : Bool). (d == d') && b) (is_eq-be v v' n n' hv hv')

if_elim_eq {ℓ} : {A : Type ℓ} (o : Ordering) (x y : A) → elim_eq o x y ≡ (if is_eq o then x else y)
if_elim_eq Ordering.lt x y = refl
if_elim_eq Ordering.eq x y = refl
if_elim_eq Ordering.gt x y = refl

module _ (d v : ℕ) (n : Bytes) (d' v' : ℕ) (n' : Bytes) (m : Map) (hd : d < u64) (hv : v < u64)
    (hd' : d' < u64) (hv' : v' < u64) where
  pub find-put_down :
      (w : Bytes)
      → find (down_key d' v' n') (put (down_key d v n) w m)
        ≡ (if same_key d v n d' v' n' then some w else find (down_key d' v' n') m)
  find-put_down w =
      find-put (down_key d' v' n') (down_key d v n) w m
      ∙ if_elim_eq (cmp (down_key d v n) (down_key d' v' n')) (some w) _
      ∙ ap (λ (b : Bool). if b then some w else find (down_key d' v' n') m)
          (is_eq-down_key d v n d' v' n' hd hv hd' hv')

  pub find-del_down :
      Sorted m
      → find (down_key d' v' n') (del (down_key d v n) m)
        ≡ (if same_key d v n d' v' n' then none else find (down_key d' v' n') m)
  find-del_down sorted =
      find-del (down_key d' v' n') (down_key d v n) m sorted
      ∙ if_elim_eq (cmp (down_key d v n) (down_key d' v' n')) none _
      ∙ ap (λ (b : Bool). if b then none else find (down_key d' v' n') m)
          (is_eq-down_key d v n d' v' n' hd hv hd' hv')
