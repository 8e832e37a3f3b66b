-- ===== src/Core/Names.antt =====
-- The names under `.snapshot`: what `readdir` lists is what `lookup` finds.
use prfs.Prelude.{
  ℕ, zero, suc, ◌+◌, ◌-◌, ◌*◌, ◌/◌, ◌%◌, ◌<◌, ◌≤◌, ◌≡◌, refl, ap, ◌∙◌, [], ◌∷◌, true, false,
  Bool-cases, inl, inr, ltb, leb, some, All, arith,
}
use prfs.Bytes.{Bytes, u64}
use prfs.Core.Store.{
  Store, Handle, is_snap_dir, snap_base, rising, existed_at, parse_snap, parse_loop, lookup,
  lookup_snap_dir, latest,
}
use prfs.Core.Views.{readdir, snap_entries, to_string, digits_loop, Named}

abbrev pow10 : ℕ → ℕ
pow10 zero = 1
pow10 (suc k) = 10 * pow10 k

parse_digit :
    (d v : ℕ) (s : Bytes)
    → d < 10
    → parse_loop ((b'0' + d) ∷ s) v ≡ parse_loop s ((v * 10 + d) % u64)
unfolding parse_loop
parse_digit d v s h = ground arith

parse_loop-digits_loop :
    (fuel n : ℕ) (out : Bytes)
    → n < u64
    → n < pow10 (suc fuel)
    → parse_loop (digits_loop (suc fuel) n out) 0 ≡ parse_loop out n
unfolding digits_loop
parse_loop-digits_loop zero n out h small =
    let one : ltb n 10 ≡ true = ground arith in
    let same : (0 * 10 + n) % u64 ≡ n = omega arith in
    rw one (parse_digit n 0 out (omega arith) ∙ ap (parse_loop out) same)
parse_loop-digits_loop (suc fuel) n out h small = elim (Bool-cases (ltb n 10)) [
  | inl one ↦
      let same : (0 * 10 + n) % u64 ≡ n = omega arith in
      rw one (parse_digit n 0 out (ground arith) ∙ ap (parse_loop out) same)
  | inr more ↦
      let same : (n / 10 * 10 + n % 10) % u64 ≡ n = omega arith in
      rw more (
        parse_loop-digits_loop fuel (n / 10) ((b'0' + n % 10) ∷ out) (omega arith) (omega arith)
        ∙ parse_digit (n % 10) (n / 10) out (omega arith)
        ∙ ap (parse_loop out) same)
]

digits_loop-nonempty :
    (fuel n : ℕ) (c : ℕ) (out : Bytes)
    → parse_snap (digits_loop fuel n (c ∷ out)) ≡ parse_loop (digits_loop fuel n (c ∷ out)) 0
unfolding digits_loop parse_snap
digits_loop-nonempty zero n c out = refl
digits_loop-nonempty (suc fuel) n c out =
    ground (arith, digits_loop-nonempty fuel (n / 10) (b'0' + n % 10) (c ∷ out))

digits_loop-start :
    (fuel n : ℕ)
    → parse_snap (digits_loop (suc fuel) n []) ≡ parse_loop (digits_loop (suc fuel) n []) 0
unfolding digits_loop parse_snap
digits_loop-start fuel n = ground (arith, digits_loop-nonempty fuel (n / 10) (b'0' + n % 10) [])

parse_snap-digits_loop :
    (fuel n : ℕ)
    → n < u64
    → n < pow10 (suc fuel)
    → parse_snap (digits_loop (suc fuel) n []) ≡ some n
unfolding parse_loop
parse_snap-digits_loop fuel n h small =
    digits_loop-start fuel n ∙ parse_loop-digits_loop fuel n [] h small

-- A number below 2 ^ 64 that is printed as a name is parsed back.
pub parse_snap-to_string : (n : ℕ) → n < u64 → parse_snap (to_string n) ≡ some n
unfolding to_string digits_loop
parse_snap-to_string n h = parse_snap-digits_loop 19 n h (omega arith)

-- An entry finds its own handle by its name.
abbrev pub Resolves : Handle → Store → Named → Type 0
Resolves d s (name, h) = lookup d name s ≡ some h

lookup_snap_dir-to_string :
    (base n : ℕ) (s : Store)
    → s.cur < latest
    → 1 ≤ n
    → n < s.cur
    → existed_at s.db base n ≡ true
    → lookup_snap_dir base (to_string n) s ≡ some (record { id = base; snap = n })
unfolding lookup_snap_dir
lookup_snap_dir-to_string base n s room lo hi held =
    let low : ltb n 1 ≡ false = ground arith in
    let high : leb s.cur n ≡ false = ground arith in
    rw (parse_snap-to_string n (omega arith), lookup_snap_dir, low, high, held)

entry-Resolves :
    (d : Handle) (s : Store) (n : ℕ)
    → is_snap_dir d.id ≡ true
    → s.cur < latest
    → 1 ≤ n
    → n < s.cur
    → existed_at s.db (snap_base d.id) n ≡ true
    → Resolves d s (to_string n, record { id = snap_base d.id; snap = n })
unfolding lookup
entry-Resolves d s n virtual room lo hi held =
    rw virtual (lookup_snap_dir-to_string (snap_base d.id) n s room lo hi held)

entries-Resolve :
    (d : Handle) (s : Store) (left n : ℕ)
    → is_snap_dir d.id ≡ true
    → s.cur < latest
    → 1 ≤ n
    → n + left ≤ s.cur
    → All (Resolves d s) (snap_entries (snap_base d.id) (rising left n) s)
unfolding rising snap_entries
entries-Resolve d s zero n virtual room lo hi = tt
entries-Resolve d s (suc left) n virtual room lo hi =
    let rest = entries-Resolve d s left (n + 1) virtual room (omega arith) (omega arith) in
    elim (Bool-cases (existed_at s.db (snap_base d.id) n)) [
      | inl held ↦ rw held (entry-Resolves d s n virtual room lo (omega arith) held, rest)
      | inr missing ↦ rw missing rest
    ]

-- With a snapshot counter of at least 1 and below the number of the live view, each entry that `readdir` lists in a `.snapshot`
-- directory is found by `lookup` under its name, with the handle listed.
pub readdir-Resolves :
    (d : Handle) (s : Store)
    → is_snap_dir d.id ≡ true
    → 1 ≤ s.cur
    → s.cur < latest
    → All (Resolves d s) (readdir d s)
unfolding readdir
readdir-Resolves d s virtual open' room =
    rw virtual (entries-Resolve d s (s.cur - 1) 1 virtual room (omega arith) (omega arith))
