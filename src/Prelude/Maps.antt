-- ===== src/Prelude/Maps.antt =====
-- `std::map` over any ordered keys, as the list of its entries in key order.
use Prim.Native.Nat.{ℕ, compare, Ordering}
use mathlib.Core.Path.{◌≡◌, refl, sym, ap, ◌∙◌, subst}
use mathlib.Core.Logic.{inl, inr}
use mathlib.Core.Bool.{Bool, true, false}
use mathlib.Core.List.{List, [], ◌∷◌}
use mathlib.Core.Option.{Option, none, some}
use native.Mathlib.Omega.{arith}
use prfs.Prelude.Tests.{if◌then◌else◌, Bool-cases}

-- `operator<` of the keys, as a three-way comparison.
pub record Order {ℓ} (K : Type ℓ) : Type ℓ where
  pub order : K → K → Ordering
  pub order_refl : (a : K) → order a a ≡ Ordering.eq
  pub eq_of_order : (a b : K) → order a b ≡ Ordering.eq → a ≡ b
  pub order_flip : (a b : K) → order a b ≡ Ordering.lt → order b a ≡ Ordering.gt
  pub order_flip_gt : (a b : K) → order a b ≡ Ordering.gt → order b a ≡ Ordering.lt
  pub order_trans :
      (a b c : K) → order a b ≡ Ordering.lt → order b c ≡ Ordering.lt → order a c ≡ Ordering.lt

abbrev pub same {ℓ} : {K : Type ℓ} ⦃o : Order K⦄ → K → K → Bool
same ⦃o⦄ a b = elim (o.order a b) [ Ordering.eq ↦ true | _ ↦ false ]

pub eq_of_same {ℓ} : {K : Type ℓ} ⦃o : Order K⦄ (k q : K) → same k q ≡ true → k ≡ q
eq_of_same ⦃o⦄ k q h = ground (arith, o.eq_of_order k q)

abbrev pub or_default {ℓ} : {V : Type ℓ} → V → Option V → V
or_default d none = d
or_default d (some v) = v

module _ {ℓ κ} {K : Type ℓ} {V : Type κ} ⦃o : Order K⦄ where
  -- `m.find(k)`, with `none` for the end
  unfoldable pub find_in : K → List (K × V) → Option V
  find_in k [] = none
  find_in k ((j, w) ∷ m) = elim (o.order j k) [
    | Ordering.lt ↦ find_in k m
    | Ordering.eq ↦ some w
    | Ordering.gt ↦ none
  ]

  -- `m[k]` set to what `f` makes of it, `d` being what a new entry holds
  unfoldable pub change_in : K → V → (V → V) → List (K × V) → List (K × V)
  change_in k d f [] = (k, f d) ∷ []
  change_in k d f ((j, w) ∷ m) = elim (o.order j k) [
    | Ordering.lt ↦ (j, w) ∷ change_in k d f m
    | Ordering.eq ↦ (j, f w) ∷ m
    | Ordering.gt ↦ (k, f d) ∷ (j, w) ∷ m
  ]

  -- What a key reads after a change of an entry: the changed value there, and elsewhere what it
  -- read before.
  pub find_in-change_in :
      (q k : K) (d : V) (f : V → V) (m : List (K × V))
      → find_in q (change_in k d f m)
        ≡ (if same k q then some (f (or_default d (find_in k m))) else find_in q m)
  unfolding find_in change_in
  find_in-change_in q k d f [] = ground arith
  find_in-change_in q k d f ((j, w) ∷ m) = ground (
    arith,
    find_in-change_in q k d f m,
    o.order_flip j k,
    o.order_flip k q,
    o.order_flip_gt j k,
    o.order_flip_gt j q,
    o.order_flip_gt k q,
    o.order_trans q j k,
    o.order_trans q k j,
    o.order_flip q k,
    o.order_flip q j,
    o.order_flip_gt q k,
    o.eq_of_order j k,
    o.eq_of_order j q,
    o.eq_of_order k q,
    o.order_refl q,
  )

  -- `m[k]` where a missing entry reads as `d`
  abbrev pub entry_of : V → K → List (K × V) → V
  entry_of d k m = or_default d (find_in k m)

  pub entry_of-change_in :
      (d : V) (q k : K) (f : V → V) (m : List (K × V))
      → entry_of d q (change_in k d f m) ≡ (if same k q then f (entry_of d k m) else entry_of d q m)
  entry_of-change_in d q k f m =
      ap (or_default d) (find_in-change_in q k d f m)
      ∙ through (same k q) (f (entry_of d k m)) (find_in q m)
    where
      through :
          (b : Bool) (v : V) (o : Option V)
          → or_default d (if b then some v else o) ≡ (if b then v else or_default d o)
      through true v o = refl
      through false v o = refl

  -- What holds of the changed entry and of the others before holds of each entry after.
  pub each-change_in {μ} :
      (P : K → V → Type μ) (d : V) (q k : K) (f : V → V) (m : List (K × V))
      → P k (f (entry_of d k m))
      → P q (entry_of d q m)
      → P q (entry_of d q (change_in k d f m))
  each-change_in P d q k f m changed kept =
      subst (P q) (sym (entry_of-change_in d q k f m)) (elim (Bool-cases (same k q)) [
        | inl here ↦ rw here (subst (λ x. P x (f (entry_of d k m))) (eq_of_same k q here) changed)
        | inr away ↦ rw away kept
      ])

-- Keys that are numbers.
pub compare_refl : (a : ℕ) → compare a a ≡ Ordering.eq
compare_refl a = ground arith

pub eq_of_compare : (a b : ℕ) → compare a b ≡ Ordering.eq → a ≡ b
eq_of_compare a b h = ground arith

pub compare_flip : (a b : ℕ) → compare a b ≡ Ordering.lt → compare b a ≡ Ordering.gt
compare_flip a b h = ground arith

pub compare_flip_gt : (a b : ℕ) → compare a b ≡ Ordering.gt → compare b a ≡ Ordering.lt
compare_flip_gt a b h = ground arith

pub compare_trans :
    (a b c : ℕ) → compare a b ≡ Ordering.lt → compare b c ≡ Ordering.lt → compare a c ≡ Ordering.lt
compare_trans a b c h k = ground arith

instance abbrev pub nat_order : Order ℕ
nat_order = record {
  order = compare;
  order_refl = compare_refl;
  eq_of_order = eq_of_compare;
  order_flip = compare_flip;
  order_flip_gt = compare_flip_gt;
  order_trans = compare_trans;
}
