-- ===== src/Mem/Intervals.antt =====
-- The versions of a node and the intervals of a link: what a write in the current snapshot leaves
-- as it was for the older ones, and what it does to the current one.
use prfs.Prelude.{
  ℕ, ◌+◌, ◌<◌, ◌≤◌, ◌≡◌, refl, ◌∙◌, List, [], ◌∷◌, ◌++◌, ◌==◌, Bool-cases, inl, inr, Option, none,
  some, arith,
}
use prfs.Mem.{NodeVer, LinkIv, best_loop, live_vers, is_live_at, live_at_r}
use prfs.Mem.Ops.{end_iv}
use prfs.Mem.Views.{has_child}

pub best_loop-append :
    (rg : ℕ) (v : NodeVer) (best : Option NodeVer) (vs : List NodeVer)
    → rg < v.snap
    → best_loop rg best (vs ++ v ∷ []) ≡ best_loop rg best vs
unfolding best_loop
best_loop-append rg v best [] h = ground arith
best_loop-append rg v best (w ∷ vs) h = ground (arith, best_loop-append rg v (some w) vs h)

-- A change of a version that leaves it in its snapshot.
abbrev pub IsInPlace : (NodeVer → NodeVer) → Type 0
IsInPlace f = (v : NodeVer) → (f v).snap ≡ v.snap

pub best_loop-live_vers :
    (rg cur : ℕ) (f : NodeVer → NodeVer) (best : Option NodeVer) (vs : List NodeVer)
    → rg < cur
    → IsInPlace f
    → best_loop rg best (live_vers cur f vs) ≡ best_loop rg best vs
unfolding best_loop live_vers
best_loop-live_vers rg cur f best [] h p = first (f _) (p _)
  where
    first : (v : NodeVer) → v.snap ≡ cur → best_loop rg best (v ∷ []) ≡ best
    first v e = ground arith
best_loop-live_vers rg cur f best (v ∷ []) h p = ground (arith, p v, p (record v { snap = cur }))
best_loop-live_vers rg cur f best (v ∷ w ∷ vs) h p =
    ground (arith, best_loop-live_vers rg cur f (some v) (w ∷ vs) h p)

module _ (rg cur : ℕ) (older : rg < cur) where
  pub live_at_r-append :
      (iv : LinkIv) (ivs : List LinkIv)
      → iv.born ≡ cur
      → live_at_r (ivs ++ iv ∷ []) rg ≡ live_at_r ivs rg
  unfolding live_at_r is_live_at
  live_at_r-append iv [] h = ground arith
  live_at_r-append iv (x ∷ ivs) h = ground (arith, live_at_r-append iv ivs h)

  pub has_child-append :
      (id : ℕ) (iv : LinkIv) (ivs : List LinkIv)
      → iv.born ≡ cur
      → has_child id rg (ivs ++ iv ∷ []) ≡ has_child id rg ivs
  unfolding has_child is_live_at
  has_child-append id iv [] h = ground arith
  has_child-append id iv (x ∷ ivs) h = ground (arith, has_child-append id iv ivs h)

  pub live_at_r-end_iv : (ivs : List LinkIv) → live_at_r (end_iv cur ivs) rg ≡ live_at_r ivs rg
  unfolding live_at_r is_live_at end_iv
  live_at_r-end_iv [] = refl
  live_at_r-end_iv (x ∷ ivs) = ground (arith, live_at_r-end_iv ivs)

  pub has_child-end_iv :
      (id : ℕ) (ivs : List LinkIv) → has_child id rg (end_iv cur ivs) ≡ has_child id rg ivs
  unfolding has_child is_live_at end_iv
  has_child-end_iv id [] = refl
  has_child-end_iv id (x ∷ ivs) = ground (arith, has_child-end_iv id ivs)

-- The intervals of a link in a store at the snapshot `cur`: none begins or ends later, and one at
-- most is open.
abbrev pub IsTidy : ℕ → List LinkIv → Type 0
IsTidy cur [] = Unit
IsTidy cur (iv ∷ ivs) =
    (iv.born ≤ cur) × (iv.dead ≤ cur) × (iv.dead ≡ 0 → live_at_r ivs cur ≡ none) × IsTidy cur ivs

module _ (cur : ℕ) where
  -- The live intervals are the open ones.
  is_live_at-open :
      (iv : LinkIv) → iv.born ≤ cur → iv.dead ≤ cur → is_live_at iv cur ≡ (iv.dead == 0)
  unfolding is_live_at
  is_live_at-open iv b d = ground arith

  pub append-IsTidy :
      (child : ℕ) (ivs : List LinkIv)
      → IsTidy cur ivs
      → live_at_r ivs cur ≡ none
      → IsTidy cur (ivs ++ record { born = cur; dead = 0; child = child } ∷ [])
        × (live_at_r (ivs ++ record { born = cur; dead = 0; child = child } ∷ []) cur ≡ some child)
  unfolding live_at_r is_live_at
  append-IsTidy child [] t free = ((omega arith, omega arith, λ h. refl, tt), ground arith)
  append-IsTidy child (x ∷ ivs) (b, d, one, t) free = elim (Bool-cases (x.dead == 0)) [
    | inl open' ↦ absurd (ground (arith, is_live_at-open x b d))
    | inr ended ↦
        let later = is_live_at-open x b d ∙ ended in
        let (t', e) = append-IsTidy child ivs t (ground (arith, later)) in
        ((b, d, λ h. absurd (ground arith), t'), ground (arith, later, e))
  ]

  pub end_iv-IsTidy :
      (ivs : List LinkIv)
      → 1 ≤ cur
      → IsTidy cur ivs
      → IsTidy cur (end_iv cur ivs) × (live_at_r (end_iv cur ivs) cur ≡ none)
  unfolding live_at_r is_live_at end_iv
  end_iv-IsTidy [] started t = (tt, refl)
  end_iv-IsTidy (x ∷ ivs) started (b, d, one, t) = elim (Bool-cases (x.dead == 0)) [
    | inl open' ↦ rw (is_live_at-open x b d ∙ open') (elim (Bool-cases (x.born == cur)) [
      | inl new ↦ rw new (t, one (ground arith))
      | inr old ↦
          rw old
            ((b, omega arith, λ h. absurd (omega arith), t), ground (arith, one (ground arith)))
    ])
    | inr ended ↦
        let later = is_live_at-open x b d ∙ ended in
        let (t', e) = end_iv-IsTidy ivs started t in
        rw later ((b, d, λ h. absurd (ground arith), t'), rw later e)
  ]

  -- The next snapshot sees the links of the current one.
  pub sealed-IsTidy :
      (ivs : List LinkIv)
      → IsTidy cur ivs
      → IsTidy (cur + 1) ivs × (live_at_r ivs (cur + 1) ≡ live_at_r ivs cur)
  unfolding live_at_r is_live_at
  sealed-IsTidy [] t = (tt, refl)
  sealed-IsTidy (x ∷ ivs) (b, d, one, t) =
      let (t', e) = sealed-IsTidy ivs t in
      ((omega arith, omega arith, λ h. e ∙ one h, t'), ground (arith, e))
