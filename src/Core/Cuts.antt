-- ===== src/Core/Cuts.antt =====
-- A part of the link table under a prefix, and what a seek into it leaves of it.
use prfs.Prelude.{
  drop, ◌≡◌, refl, sym, ap, ◌∙◌, subst, List, [], ◌∷◌, ◌++◌, map, true, false, Bool-cases, inl, inr,
  ◌⊎◌, All, arith, Ordering,
}
use prfs.Bytes.{Bytes, cmp, has_prefix, is_lt}
use prfs.Bytes.Order.{
  Ordering-cases, cmp_trans, cmp_flip_gt, cmp-append, eq_of_cmp, has_prefix_split,
}
use prfs.Kv.{Map, Cursor, seek_from}
use prfs.Kv.Laws.{Sorted, Below, Below-trans}
use prfs.Kv.Prefix.{scan_loop, with_prefix, scan_loop-with_prefix, FromHead}
use prfs.Core.Tables.{Link, to_link}
use prfs.Core.Cursors.{behind, Over, InOrder, Over-flip, behind_tail}

seek_past :
    (q k v : Bytes) (b m : Map)
    → cmp k q ≡ Ordering.lt
    → seek_from q b ((k, v) ∷ m) ≡ seek_from q ((k, v) ∷ b) m
unfolding seek_from
seek_past q k v b m h = rw (seek_from, h) refl

seek_here :
    (q k v : Bytes) (b m : Map)
    → (cmp k q ≡ Ordering.eq) ⊎ (cmp k q ≡ Ordering.gt)
    → seek_from q b ((k, v) ∷ m) ≡ record { before = b; here = (k, v) ∷ m }
unfolding seek_from
seek_here q k v b m (inl e) = rw (seek_from, e) refl
seek_here q k v b m (inr gt) = rw (seek_from, gt) refl

prefix_first :
    (p from : Bytes) → (cmp p (p ++ from) ≡ Ordering.lt) ⊎ (cmp p (p ++ from) ≡ Ordering.eq)
unfolding cmp
prefix_first [] [] = inr refl
prefix_first [] (x ∷ from) = inl refl
prefix_first (y ∷ p) from = ground (arith, prefix_first p from)

-- The links of a table's part under a prefix of 16 bytes.
module _ (pfx : Bytes) (lead : (s : Bytes) → drop 16 (pfx ++ s) ≡ s) where
  abbrev links : Map → List Link
  links m = map to_link (with_prefix pfx m)

  link_name : (k s : Bytes) → k ≡ pfx ++ s → drop 16 k ≡ s
  link_name k s e = ap (λ j. drop 16 j) e ∙ lead s

  Over-link :
      (s k : Bytes)
      → has_prefix pfx k ≡ true
      → cmp (pfx ++ s) k ≡ Ordering.lt
      → is_lt (cmp s (drop 16 k)) ≡ true
  Over-link s k under h =
      let (t, e) = has_prefix_split pfx k under in
      ap (λ x. is_lt (cmp s x)) (link_name k t e)
      ∙ ap is_lt (sym (cmp-append pfx s t) ∙ ap (cmp (pfx ++ s)) (sym e) ∙ h)

  links-Over : (s : Bytes) (m : Map) → Below (pfx ++ s) m → Sorted m → All (Over s) (links m)
  unfolding with_prefix
  links-Over s [] b o = tt
  links-Over s ((k, v) ∷ m) b o =
      let rest = links-Over s m (Below-trans (pfx ++ s) k m b o.0) o.1 in
      elim (Bool-cases (has_prefix pfx k)) [
        | inl under ↦ rw under (Over-link s k under b, rest)
        | inr away ↦ rw away rest
      ]

  pub links-InOrder : (m : Map) → Sorted m → InOrder (links m)
  unfolding with_prefix
  links-InOrder [] o = tt
  links-InOrder ((k, v) ∷ m) o = elim (Bool-cases (has_prefix pfx k)) [
    | inl under ↦
        let (t, e) = has_prefix_split pfx k under in
        let name = link_name k t e in
        rw under (
          subst (λ x. All (Over x) (links m)) (sym name)
              (links-Over t m (subst (λ j. Below j m) e o.0) o.1),
          links-InOrder m o.1,
        )
    | inr away ↦ rw away (links-InOrder m o.1)
  ]

  link-early :
      (from k : Bytes)
      → has_prefix pfx k ≡ true
      → cmp k (pfx ++ from) ≡ Ordering.lt
      → is_lt (cmp from (drop 16 k)) ≡ false
  link-early from k under h =
      let (t, e) = has_prefix_split pfx k under in
      ap (λ x. is_lt (cmp from x)) (link_name k t e)
      ∙ Over-flip t from
          (ap is_lt (sym (cmp-append pfx t from) ∙ ap (λ j. cmp j (pfx ++ from)) (sym e) ∙ h))

  from_head :
      (from k v : Bytes) (m : Map)
      → (cmp k (pfx ++ from) ≡ Ordering.eq) ⊎ (cmp k (pfx ++ from) ≡ Ordering.gt)
      → FromHead pfx ((k, v) ∷ m)
  from_head from k v m (inl e) =
      subst (λ j. FromHead pfx ((j, v) ∷ m)) (sym (eq_of_cmp k (pfx ++ from) e))
        (prefix_first pfx from)
  from_head from k v m (inr gt) =
      let past = cmp_flip_gt k (pfx ++ from) gt in
      elim (prefix_first pfx from) [
        | inl lt ↦ inl (cmp_trans pfx (pfx ++ from) k lt past)
        | inr e ↦ inl (ap (λ j. cmp j k) (eq_of_cmp pfx (pfx ++ from) e) ∙ past)
      ]

  links_in :
      (k v : Bytes) (m : Map)
      → has_prefix pfx k ≡ true
      → links ((k, v) ∷ m) ≡ to_link (k, v) ∷ links m
  unfolding with_prefix
  links_in k v m under = rw under refl

  links_out : (k v : Bytes) (m : Map) → has_prefix pfx k ≡ false → links ((k, v) ∷ m) ≡ links m
  unfolding with_prefix
  links_out k v m away = rw away refl

  behind_early :
      (from k v : Bytes) (m : Map)
      → cmp k (pfx ++ from) ≡ Ordering.lt
      → behind from (links ((k, v) ∷ m)) ≡ behind from (links m)
  behind_early from k v m lt = elim (Bool-cases (has_prefix pfx k)) [
    | inl under ↦
        ap (behind from) (links_in k v m under)
        ∙ behind_tail from (to_link (k, v)) (links m) (link-early from k under lt)
    | inr away ↦ ap (behind from) (links_out k v m away)
  ]

  abbrev seen_from : Bytes → Cursor → List Link
  seen_from from c = behind from (map to_link (scan_loop pfx c.here))

  pub behind_seek :
      (from : Bytes) (b m : Map)
      → Sorted m
      → seen_from from (seek_from (pfx ++ from) b m) ≡ behind from (links m)
  unfolding with_prefix seek_from scan_loop
  behind_seek from b [] o = refl
  behind_seek from b ((k, v) ∷ m) o =
      let whole = λ (h : (cmp k (pfx ++ from) ≡ Ordering.eq) ⊎ (cmp k (pfx ++ from) ≡ Ordering.gt)).
        ap (seen_from from) (seek_here (pfx ++ from) k v b m h)
        ∙ ap (λ (ls : Map). behind from (map to_link ls))
            (scan_loop-with_prefix pfx ((k, v) ∷ m) o (from_head from k v m h)) in
      elim (Ordering-cases (cmp k (pfx ++ from))) [
        | inl lt ↦
            ap (seen_from from) (seek_past (pfx ++ from) k v b m lt)
            ∙ behind_seek from ((k, v) ∷ b) m o.1
            ∙ sym (behind_early from k v m lt)
        | inr at' ↦ whole at'
      ]
