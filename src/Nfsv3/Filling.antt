-- ===== src/Nfsv3/Filling.antt =====
-- The cookies that the NFSv3 front-end remembers and the entries that it fits into a reply.
use prfs.Prelude.{
  ℕ, suc, ◌+◌, ◌<◌, ◌≤◌, ◌≡◌, refl, subst, List, [], ◌∷◌, ◌++◌, length, false, Bool-cases, inl, inr,
  ◌⊎◌, ◌==◌, ltb, leb, All, arith,
}
use prfs.Bytes.{Bytes}
use prfs.Core.Views.{Named}
use prfs.Nfsv3.Attrs.{name_cookie}
use prfs.Nfsv3.Procs.{is_none}
use prfs.Nfsv3.Bounds.{if-Holds}
use prfs.Nfsv3.Dirs.{Cookies, forget, cache_max, remember_cookie, DirEnt, entry_size, Filled, fill}

-- What is remembered for a cookie has that cookie, and there is no more of it than the cache holds.
abbrev pub OfName : ℕ × Bytes → Type 0
OfName (ck, name) = name_cookie name ≡ ck

abbrev pub CookiesOk : Cookies → Type 0
CookiesOk m = All OfName m × (length m ≤ cache_max)

forget-OfName : (ck : ℕ) (m : Cookies) → All OfName m → All OfName (forget ck m)
unfolding forget
forget-OfName ck [] a = tt
forget-OfName ck ((k, name) ∷ m) a =
    if-Holds (All OfName) (k == ck) (forget-OfName ck m a.1) (a.0, forget-OfName ck m a.1)

forget-length : (ck : ℕ) (m : Cookies) → length (forget ck m) ≤ length m
unfolding forget
forget-length ck [] = omega arith
forget-length ck ((k, name) ∷ m) =
    if-Holds (λ (x : Cookies). length x ≤ suc (length m)) (k == ck)
      (omega (arith, forget-length ck m)) (omega (arith, forget-length ck m))

remember_cookie-CookiesOk :
    (name : Bytes) (m : Cookies)
    → CookiesOk m
    → CookiesOk (remember_cookie (name_cookie name) name m)
unfolding remember_cookie
remember_cookie-CookiesOk name m ok' =
    let ck = name_cookie name in
    elim (Bool-cases (leb cache_max (length m))) [
      | inl full ↦ rw (full, forget) ((refl, tt), omega arith)
      | inr room ↦
          let below : length m < cache_max = ground (arith, room) in
          rw room ((refl, forget-OfName ck m ok'.0), omega (arith, forget-length ck m, below))
    ]

-- The bytes of entries in a reply.
unfoldable pub sizes : ℕ → List DirEnt → ℕ
sizes per_entry [] = 0
sizes per_entry (e ∷ es) = entry_size per_entry e.name + sizes per_entry es

pub sizes-append :
    (per_entry : ℕ) (xs ys : List DirEnt)
    → sizes per_entry (xs ++ ys) ≡ sizes per_entry xs + sizes per_entry ys
unfolding sizes
sizes-append per_entry [] ys = omega arith
sizes-append per_entry (x ∷ xs) ys = omega (arith, sizes-append per_entry xs ys)

abbrev pub Within : ℕ → ℕ → ℕ → List DirEnt → Type 0
Within max per_entry budget es = (es ≡ []) ⊎ (budget + sizes per_entry es ≤ max)

pub Within-most :
    (max per_entry used : ℕ) (es : List DirEnt)
    → used ≤ max
    → Within max per_entry used es
    → used + sizes per_entry es ≤ max
unfolding sizes
Within-most max per_entry used es h (inl none_more) = rw none_more (omega (arith, h))
Within-most max per_entry used es h (inr small) = small

pub Within-append :
    (max per_entry budget : ℕ) (xs ys : List DirEnt)
    → Within max per_entry budget xs
    → Within max per_entry (budget + sizes per_entry xs) ys
    → Within max per_entry budget (xs ++ ys)
unfolding sizes
Within-append max per_entry budget xs ys (inl none_yet) f =
    let shift : budget + 0 ≡ budget = omega arith in
    rw none_yet (
      subst (λ (b : ℕ). Within max per_entry b ys) shift
        (subst (λ zs. Within max per_entry (budget + sizes per_entry zs) ys) none_yet f))
Within-append max per_entry budget xs ys (inr small) f = inr (
    omega (
      arith,
      sizes-append per_entry xs ys,
      Within-most max per_entry (budget + sizes per_entry xs) ys small f,
    ))

-- What `fill` gives: the entries fit, the budget counts them, and it moves unless there is none.
pub record FilledOk (max per_entry budget : ℕ) (f : Filled) : Type 0 where
  pub fits : Within max per_entry budget f.entries
  pub counted : f.budget ≡ budget + sizes per_entry f.entries
  pub cookies_ok : CookiesOk f.cookies

pub fill-FilledOk :
    (max per_entry : ℕ) (es : List Named) (budget : ℕ) (m : Cookies)
    → CookiesOk m
    → FilledOk max per_entry budget (fill max per_entry es budget m)
unfolding fill sizes
fill-FilledOk max per_entry [] budget m k = record {
  fits = inl refl;
  counted = omega arith;
  cookies_ok = k;
}
fill-FilledOk max per_entry ((name, node) ∷ es) budget m k =
    let used = budget + entry_size per_entry name in
    let rest =
      fill-FilledOk max per_entry es used (remember_cookie (name_cookie name) name m)
        (remember_cookie-CookiesOk name m k) in
    elim (Bool-cases (ltb max used)) [
      | inl over ↦ rw over (record { fits = inl refl; counted = omega arith; cookies_ok = k })
      | inr room ↦
          let low : used ≤ max = ground (arith, room) in
          let f = fill max per_entry es used (remember_cookie (name_cookie name) name m) in
          rw room (record {
            fits = inr (omega (arith, Within-most max per_entry used f.entries low rest.fits));
            counted = omega (arith, rest.counted);
            cookies_ok = rest.cookies_ok;
          })
    ]

pub fill-grows :
    (max per_entry : ℕ) (es : List Named) (budget : ℕ) (m : Cookies)
    → CookiesOk m
    → is_none es ≡ false
    → (fill max per_entry es budget m).full ≡ false
    → budget < (fill max per_entry es budget m).budget
unfolding fill
fill-grows max per_entry [] budget m k some' = absurd (cc)
fill-grows max per_entry ((name, node) ∷ es) budget m k some' =
    let used = budget + entry_size per_entry name in
    let next = remember_cookie (name_cookie name) name m in
    let rest = fill-FilledOk max per_entry es used next (remember_cookie-CookiesOk name m k) in
    elim (Bool-cases (ltb max used)) [
      | inl over ↦ rw over (λ room. absurd (cc))
      | inr low ↦ rw low (λ room. omega (arith, rest.counted))
    ]
