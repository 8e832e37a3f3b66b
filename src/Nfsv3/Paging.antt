-- ===== src/Nfsv3/Paging.antt =====
-- The listings of the NFSv3 front-end, `pageDir` and `resumeName`: their loops and their replies.
use prfs.Prelude.{
  ℕ, zero, suc, ◌+◌, ◌<◌, ◌≤◌, ◌≡◌, refl, ap, ◌∙◌, subst, List, [], ◌∷◌, Bool, true, false,
  Bool-cases, inl, inr, ◌==◌, ltb, leb, Option, none, some, if◌then◌else◌, All, arith, codes,
}
use prfs.Bytes.{Bytes}
use prfs.Core.Store.{Store, Handle, latest, snap_bit}
use prfs.Core.Views.{Named, readdir_page, parents}
use prfs.Core.Pages.{left_after, left_after-le, readdir_page-Moves}
use prfs.Nfsv3.Attrs.{name_cookie}
use prfs.Nfsv3.Procs.{is_none}
use prfs.Nfsv3.Bounds.{if-Holds}
use prfs.Nfsv3.Filling.{
  OfName, CookiesOk, sizes, Within, Within-append, FilledOk, fill-FilledOk, fill-grows,
}
use prfs.Nfsv3.Dirs.{
  Cookies, remembered, named_by, Resume, unfinished, gone, resumes, or_next, or_scan, is_last,
  resume_loop, rounds, resume_name, DirEnt, entry_size, Filled, fill, Paged, prepend, page_loop,
  page_from, first_parent, page_dir,
}

-- A reply that a listing returns.
pub record PagedOk (max per_entry budget : ℕ) (p : Paged) : Type 0 where
  pub fits : Within max per_entry budget p.entries
  pub cookies_ok : CookiesOk p.cookies

abbrev pub Returned : ℕ → ℕ → ℕ → Option Paged → Type 0
Returned max per_entry budget none = ⊥
Returned max per_entry budget (some p) = PagedOk max per_entry budget p

prepend-Returned :
    (max per_entry budget : ℕ) (es : List DirEnt) (o : Option Paged)
    → Within max per_entry budget es
    → Returned max per_entry (budget + sizes per_entry es) o
    → Returned max per_entry budget (prepend es o)
prepend-Returned max per_entry budget es none h r = r
prepend-Returned max per_entry budget es (some p) h r = record {
  fits = Within-append max per_entry budget es p.entries h r.fits;
  cookies_ok = r.cookies_ok;
}

fill-most :
    (max per_entry budget : ℕ) (f : Filled)
    → FilledOk max per_entry budget f
    → budget < f.budget
    → f.budget ≤ max
unfolding sizes
fill-most max per_entry budget f k grows = elim k.fits [
  | inl none_yet ↦
      absurd (omega (arith, grows, k.counted ∙ ap (λ es. budget + sizes per_entry es) none_yet))
  | inr small ↦ omega (arith, small, k.counted)
]

not_first : (a b : Bool) → (if a then true else b) ≡ false → a ≡ false
not_first true b e = absurd (cc)
not_first false b e = refl

-- Each round but the last takes an entry, which takes some of the budget.
page_loop-Returned :
    (fuel : ℕ) (d : Handle) (name : Bytes) (max per_entry budget : ℕ) (m : Cookies) (s : Store)
    → max < budget + fuel
    → 0 < fuel
    → CookiesOk m
    → Returned max per_entry budget (page_loop fuel d name max per_entry budget m s)
unfolding page_loop
page_loop-Returned zero d name max per_entry budget m s enough pos k = absurd (omega (arith, pos))
page_loop-Returned (suc fuel) d name max per_entry budget m s enough pos k =
    let pg = readdir_page d name 512 s in
    let f = fill max per_entry pg.entries budget m in
    let done = fill-FilledOk max per_entry pg.entries budget m k in
    elim (Bool-cases f.full) [
      | inl full ↦ rw full (record { fits = done.fits; cookies_ok = done.cookies_ok })
      | inr room ↦ rw room (elim (Bool-cases (is_last pg)) [
        | inl last ↦ rw last (record { fits = done.fits; cookies_ok = done.cookies_ok })
        | inr more ↦
            let grows =
              fill-grows max per_entry pg.entries budget m k
                (not_first (is_none pg.entries) pg.eof more) room in
            let most = fill-most max per_entry budget f done grows in
            rw more (
              prepend-Returned max per_entry budget f.entries
                (page_loop fuel d pg.cookie max per_entry f.budget f.cookies s) done.fits
                (subst
                  (λ b.
                    Returned max per_entry b
                      (page_loop fuel d pg.cookie max per_entry f.budget f.cookies s))
                  done.counted
                  (page_loop-Returned fuel d pg.cookie max per_entry f.budget f.cookies s
                    (omega (arith, enough, grows)) (omega (arith, enough, grows, most))
                    done.cookies_ok)))
      ])
    ]

-- The search for a name whose cookie is `ck` ends, and a name that it finds has that cookie.
abbrev Found : ℕ → Resume → Type 0
Found ck unfinished = ⊥
Found ck gone = Unit
Found ck (resumes name) = name_cookie name ≡ ck

named_by-Found :
    (ck : ℕ) (es : List Named) (next : Resume)
    → Found ck next
    → Found ck (or_next (named_by ck es) next)
unfolding named_by
named_by-Found ck [] next h = h
named_by-Found ck ((name, node) ∷ es) next h = elim (Bool-cases (name_cookie name == ck)) [
  | inl same ↦ rw same (ground (arith, same))
  | inr other ↦ rw other (named_by-Found ck es next h)
]

resume_loop-Found :
    (fuel : ℕ) (d : Handle) (ck : ℕ) (name : Bytes) (s : Store)
    → s.cur < latest
    → left_after d name s < fuel
    → Found ck (resume_loop fuel d ck name s)
unfolding resume_loop
resume_loop-Found zero d ck name s room enough = absurd (omega (arith, enough))
resume_loop-Found (suc fuel) d ck name s room enough =
    let pg = readdir_page d name 256 s in
    named_by-Found ck pg.entries _ (elim (Bool-cases (is_last pg)) [
      | inl last ↦ rw last tt
      | inr more ↦ rw more (elim (readdir_page-Moves d name 255 s room) [
        | inl none_more ↦
            let some' = not_first (is_none pg.entries) pg.eof more in
            let none' = ap is_none none_more in absurd (cc)
        | inr nearer ↦ resume_loop-Found fuel d ck pg.cookie s room (omega (arith, enough, nearer))
      ])
    ])

remembered-Found :
    (ck : ℕ) (m : Cookies) (scanned : Resume)
    → All OfName m
    → Found ck scanned
    → Found ck (or_scan (remembered ck m) scanned)
unfolding remembered
remembered-Found ck [] scanned a h = h
remembered-Found ck ((k, name) ∷ m) scanned a h = elim (Bool-cases (k == ck)) [
  | inl same ↦ let here : name_cookie name ≡ ck = ground (arith, same, a.0) in rw same here
  | inr other ↦ rw other (remembered-Found ck m scanned a.1 h)
]

module _ (d : Handle) (cookie max per_entry : ℕ) (m : Cookies) (s : Store) (room : s.cur < latest)
    (k : CookiesOk m) where
  resume_name-Found : Found cookie (resume_name d cookie s m)
  unfolding resume_name rounds
  resume_name-Found =
      remembered-Found cookie m (resume_loop (rounds s) d cookie [] s) k.0
        (resume_loop-Found (rounds s) d cookie [] s room (omega (arith, left_after-le d [] s)))

  page_from-Returned :
      (ck budget : ℕ) (from : Resume)
      → 0 < budget
      → Found ck from
      → Returned max per_entry budget (page_from from d max per_entry budget m s)
  page_from-Returned ck budget unfinished pos f = f
  page_from-Returned ck budget gone pos f = record { fits = inl refl; cookies_ok = k }
  page_from-Returned ck budget (resumes name) pos f =
      page_loop-Returned (suc max) d name max per_entry budget m s (omega (arith, pos))
        (omega arith) k

  start : Resume
  start = if leb snap_bit cookie then resume_name d cookie s m else resumes []

  start-Found : (ck : ℕ) × Found ck start
  unfolding start
  start-Found =
      if-Holds (λ x. (ck : ℕ) × Found ck x) (leb snap_bit cookie) (cookie, resume_name-Found)
        (name_cookie [], refl)

  after_dots :
      (es : List DirEnt) (b : ℕ)
      → Within max per_entry 128 es
      → b ≡ 128 + sizes per_entry es
      → Returned max per_entry 128 (prepend es (page_from start d max per_entry b m s))
  after_dots es b fits e =
      let (ck, found) = start-Found in
      prepend-Returned max per_entry 128 es (page_from start d max per_entry b m s) fits (
        subst (λ c. Returned max per_entry c (page_from start d max per_entry b m s)) e
          (page_from-Returned ck b start (omega (arith, e)) found))

  dot : DirEnt
  dot = record { name = codes "."; cookie = 1; node = d }

  dots : DirEnt
  dots = record { name = codes ".."; cookie = 2; node = first_parent d (parents d s) }

  -- A listing returns, whatever the directory, the cookie and the sizes that a client sends, as long as
  -- the snapshot counter is below the number of the live view: the entries of its reply fit in the
  -- size that the client asks for, with 128 bytes for the reply's head, or there are none, and what is
  -- remembered afterwards has the cookie it is remembered for, in a cache within its bound, if that
  -- holds before.
  pub page_dir-Returned : Returned max per_entry 128 (page_dir d cookie max per_entry m s)
  unfolding page_dir start sizes dot dots
  page_dir-Returned =
      let b1 = 128 + entry_size per_entry (codes ".") in
      let b2 = b1 + entry_size per_entry (codes "..") in
      let b3 = 128 + entry_size per_entry (codes "..") in
      elim (Bool-cases (ltb cookie 1)) [
        | inl first ↦
            let second : ltb cookie 2 ≡ true = ground (arith, first) in
            rw (first, second)
              (elim (Bool-cases (ltb max b1)) [
                | inl over ↦ rw over (record { fits = inl refl; cookies_ok = k })
                | inr low ↦
                    let fit1 : b1 ≤ max = ground (arith, low) in
                    rw low (elim (Bool-cases (ltb max b2)) [
                      | inl over ↦
                          rw over (record { fits = inr (omega (arith, fit1)); cookies_ok = k })
                      | inr low2 ↦
                          let fit2 : b2 ≤ max = ground (arith, low2) in
                          rw low2 (
                            after_dots (dot ∷ dots ∷ []) b2 (inr (omega (arith, fit2)))
                              (omega arith))
                    ])
              ])
        | inr later ↦ rw later (elim (Bool-cases (ltb cookie 2)) [
          | inl second ↦ rw second (elim (Bool-cases (ltb max b3)) [
            | inl over ↦ rw over (record { fits = inl refl; cookies_ok = k })
            | inr low ↦
                let fit : b3 ≤ max = ground (arith, low) in
                rw low (after_dots (dots ∷ []) b3 (inr (omega (arith, fit))) (omega arith))
          ])
          | inr third ↦ rw third (after_dots [] 128 (inl refl) (omega arith))
        ])
      ]
