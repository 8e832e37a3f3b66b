-- ===== src/Core/Cursors.antt =====
-- A page of names against the entries behind its cursor.
use prfs.Prelude.{
  ◌≢◌, ℕ, zero, suc, ◌≡◌, refl, sym, ap, ◌∙◌, List, [], ◌∷◌, ◌++◌, map, Bool, true, false,
  Bool-cases, inl, inr, ◌⊎◌, if◌then◌else◌, All,
}
use prfs.Bytes.{Bytes, cmp, is_lt}
use prfs.Bytes.Order.{cmp_refl, cmp_trans, cmp_flip}
use prfs.Core.Tables.{Link}
use prfs.Core.Views.{Named, DirPage, add_entry, full_page, name_page, to_named}
use prfs.Core.Pages.{lt_of_is}

-- The entries behind a name.
unfoldable pub behind : Bytes → List Link → List Link
behind c [] = []
behind c (l ∷ ls) = if is_lt (cmp c l.0) then l ∷ behind c ls else behind c ls

abbrev pub Over : Bytes → Link → Type 0
Over c l = is_lt (cmp c l.0) ≡ true

abbrev pub InOrder : List Link → Type 0
InOrder [] = Unit
InOrder (l ∷ ls) = All (Over l.0) ls × InOrder ls

Over-trans :
    (a b c : Bytes) → is_lt (cmp a b) ≡ true → is_lt (cmp b c) ≡ true → is_lt (cmp a c) ≡ true
Over-trans a b c h g = ap is_lt (cmp_trans a b c (lt_of_is (cmp a b) h) (lt_of_is (cmp b c) g))

Over-refl : (a : Bytes) → is_lt (cmp a a) ≡ false
Over-refl a = ap is_lt (cmp_refl a)

pub Over-flip : (a b : Bytes) → is_lt (cmp a b) ≡ true → is_lt (cmp b a) ≡ false
Over-flip a b h = ap is_lt (cmp_flip a b (lt_of_is (cmp a b) h))

All-Over :
    (a b : Bytes) (ls : List Link) → is_lt (cmp a b) ≡ true → All (Over b) ls → All (Over a) ls
All-Over a b [] h g = tt
All-Over a b (l ∷ ls) h g = (Over-trans a b l.0 h g.0, All-Over a b ls h g.1)

behind-All : (c : Bytes) (ls : List Link) → All (Over c) ls → behind c ls ≡ ls
unfolding behind
behind-All c [] a = refl
behind-All c (l ∷ ls) a = rw (a.0, behind-All c ls a.1) refl

if_true {ℓ κ} :
    {A : Type ℓ} (P : A → Type κ) (b : Bool) (x y : A) → b ≡ true → P x → P (if b then x else y)
if_true P true x y e p = p
if_true P false x y e p = absurd (cc)

if_false {ℓ κ} :
    {A : Type ℓ} (P : A → Type κ) (b : Bool) (x y : A) → b ≡ false → P y → P (if b then x else y)
if_false P true x y e p = absurd (cc)
if_false P false x y e p = p

behind_head :
    (c : Bytes) (l : Link) (ls : List Link)
    → is_lt (cmp c l.0) ≡ true
    → behind c (l ∷ ls) ≡ l ∷ behind c ls
unfolding behind
behind_head c l ls h = if_true (λ x. x ≡ l ∷ behind c ls) (is_lt (cmp c l.0)) _ _ h refl

pub behind_tail :
    (c : Bytes) (l : Link) (ls : List Link)
    → is_lt (cmp c l.0) ≡ false
    → behind c (l ∷ ls) ≡ behind c ls
unfolding behind
behind_tail c l ls h =
    if_false (λ x. x ≡ behind c ls) (is_lt (cmp c l.0)) (l ∷ behind c ls) (behind c ls) h refl

module _ (snap : ℕ) where
  abbrev named : List Link → List Named
  named = map (to_named snap)

  -- A page that begins behind `c`, from entries that are all behind it.
  abbrev Taken : Bytes → List Link → DirPage → Type 0
  Taken c ls pg =
      ((pg.eof ≡ true) × (pg.entries ≡ named ls))
      ⊎ ((pg.eof ≡ false)
          × ((pg.cookie ≡ c) ⊎ (is_lt (cmp c pg.cookie) ≡ true))
          × (pg.entries ++ named (behind pg.cookie ls) ≡ named ls))

  past_head :
      (x : Bytes) (cookie : Bytes)
      → (cookie ≡ x) ⊎ (is_lt (cmp x cookie) ≡ true)
      → is_lt (cmp cookie x) ≡ false
  past_head x cookie (inl e) = ap (λ y. is_lt (cmp y x)) e ∙ Over-refl x
  past_head x cookie (inr h) = Over-flip x cookie h

  later :
      (c x cookie : Bytes)
      → is_lt (cmp c x) ≡ true
      → (cookie ≡ x) ⊎ (is_lt (cmp x cookie) ≡ true)
      → is_lt (cmp c cookie) ≡ true
  later c x cookie h (inl e) = ap (λ y. is_lt (cmp c y)) e ∙ h
  later c x cookie h (inr g) = Over-trans c x cookie h g

  name_page-Taken :
      (from c : Bytes) (room : ℕ) (ls : List Link)
      → InOrder ls
      → All (Over from) ls
      → All (Over c) ls
      → Taken c ls (name_page snap from room ls c)
  unfolding name_page behind
  name_page-Taken from c room [] o f g = inl (refl, refl)
  name_page-Taken from c zero (l ∷ ls) o f g =
      if_true (Taken c (l ∷ ls)) (is_lt (cmp from l.0)) (full_page c)
        (name_page snap from zero ls c) f.0
        (inr (refl, inl refl, ap named (behind-All c (l ∷ ls) g)))
  name_page-Taken from c (suc room) (l ∷ ls) o f g =
      let rest = name_page snap from room ls l.0 in
      if_true (Taken c (l ∷ ls)) (is_lt (cmp from l.0)) (add_entry (to_named snap l) rest)
        (name_page snap from (suc room) ls c) f.0
        (elim (name_page-Taken from l.0 room ls o.1 f.1 o.0) [
          | inl last ↦ inl (last.0, ap (λ es. to_named snap l ∷ es) last.1)
          | inr more ↦ inr (
            more.0,
            inr (later c l.0 rest.cookie g.0 more.1),
            ap (λ (es : List Link). to_named snap l ∷ rest.entries ++ named es)
                  (behind_tail rest.cookie l ls (past_head l.0 rest.cookie more.1))
                ∙ ap (λ es. to_named snap l ∷ es) more.2,
          )
        ])

  -- A page that begins behind `from`.
  abbrev pub Paged : Bytes → List Link → DirPage → Type 0
  Paged from ls pg =
      ((pg.eof ≡ true) × (pg.entries ≡ named (behind from ls)))
      ⊎ ((pg.eof ≡ false)
          × (is_lt (cmp from pg.cookie) ≡ true)
          × (pg.entries ≢ [])
          × (pg.entries ++ named (behind pg.cookie ls) ≡ named (behind from ls)))

  not_over :
      (from x cookie : Bytes)
      → is_lt (cmp from x) ≡ false
      → is_lt (cmp from cookie) ≡ true
      → is_lt (cmp cookie x) ≡ false
  not_over from x cookie h g = elim (Bool-cases (is_lt (cmp cookie x))) [
    | inl lt ↦ absurd (let both = Over-trans from cookie x g lt in cc)
    | inr e ↦ e
  ]

  pub name_page-Paged :
      (from c : Bytes) (room : ℕ) (ls : List Link)
      → InOrder ls
      → Paged from ls (name_page snap from (suc room) ls c)
  unfolding name_page behind
  name_page-Paged from c room [] o = inl (refl, refl)
  name_page-Paged from c room (l ∷ ls) o = elim (Bool-cases (is_lt (cmp from l.0))) [
    | inl over ↦
        let f = All-Over from l.0 ls over o.0 in
        let rest = name_page snap from room ls l.0 in
        let whole =
          ap (λ (es : List Link). to_named snap l ∷ named es) (sym (behind-All from ls f))
          ∙ ap named (sym (behind_head from l ls over)) in
        if_true (Paged from (l ∷ ls)) (is_lt (cmp from l.0)) (add_entry (to_named snap l) rest)
          (name_page snap from (suc room) ls c) over
          (elim (name_page-Taken from l.0 room ls o.1 f o.0) [
            | inl last ↦ inl (last.0, ap (λ es. to_named snap l ∷ es) last.1 ∙ whole)
            | inr more ↦ inr (
              more.0,
              later from l.0 rest.cookie over more.1,
              (λ e. cc),
              ap (λ (es : List Link). to_named snap l ∷ rest.entries ++ named es)
                    (behind_tail rest.cookie l ls (past_head l.0 rest.cookie more.1))
                  ∙ ap (λ es. to_named snap l ∷ es) more.2
                  ∙ whole,
            )
          ])
    | inr early ↦
        let rest = name_page snap from (suc room) ls c in
        let same = ap named (sym (behind_tail from l ls early)) in
        if_false (Paged from (l ∷ ls)) (is_lt (cmp from l.0))
          (add_entry (to_named snap l) (name_page snap from room ls l.0)) rest early
          (elim (name_page-Paged from c room ls o.1) [
            | inl last ↦ inl (last.0, last.1 ∙ same)
            | inr more ↦ inr (
              more.0,
              more.1,
              more.2,
              ap (λ (es : List Link). rest.entries ++ named es)
                    (behind_tail rest.cookie l ls (not_over from l.0 rest.cookie early more.1))
                  ∙ more.3
                  ∙ same,
            )
          ])
  ]

  kept :
      (from c : Bytes) (room : ℕ) (l : Link) (xs ys : List Link)
      → is_lt (cmp from l.0) ≡ true
      → ((d : Bytes) (k : ℕ) → name_page snap from k xs d ≡ name_page snap from k ys d)
      → name_page snap from room (l ∷ xs) c ≡ name_page snap from room (l ∷ ys) c
  unfolding name_page
  kept from c zero l xs ys over h = rw over refl
  kept from c (suc room) l xs ys over h =
      rw over (ap (λ pg. add_entry (to_named snap l) pg) (h l.0 room))

  dropped :
      (from c : Bytes) (room : ℕ) (l : Link) (ls : List Link)
      → is_lt (cmp from l.0) ≡ false
      → name_page snap from room (l ∷ ls) c ≡ name_page snap from room ls c
  unfolding name_page
  dropped from c zero l ls early = rw early refl
  dropped from c (suc room) l ls early = rw early refl

  -- Entries up to the cursor do not matter to a page.
  pub name_page-behind :
      (from c : Bytes) (room : ℕ) (ls : List Link)
      → name_page snap from room (behind from ls) c ≡ name_page snap from room ls c
  unfolding name_page behind
  name_page-behind from c room [] = refl
  name_page-behind from c room (l ∷ ls) = elim (Bool-cases (is_lt (cmp from l.0))) [
    | inl over ↦
        ap (λ (es : List Link). name_page snap from room es c) (behind_head from l ls over)
        ∙ kept from c room l (behind from ls) ls over (λ d k. name_page-behind from d k ls)
    | inr early ↦
        ap (λ (es : List Link). name_page snap from room es c) (behind_tail from l ls early)
        ∙ name_page-behind from c room ls
        ∙ sym (dropped from c room l ls early)
  ]
