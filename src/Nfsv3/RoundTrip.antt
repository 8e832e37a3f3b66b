-- ===== src/Nfsv3/RoundTrip.antt =====
-- What the writer writes, the reader reads back.
use prfs.Prelude.{
  ℕ, zero, suc, ◌+◌, ◌-◌, ◌/◌, ◌%◌, ◌<◌, ◌≤◌, ◌≡◌, ◌≢◌, ◌↔◌, refl, sym, ap, ◌∙◌, subst, List, [],
  ◌∷◌, ◌++◌, ◌==◌, ltb, true, false, Bool-cases, inl, inr, some, length, length-append, drop, take,
  replicate, arith, ltb→lt,
}
use prfs.Bytes.{Bytes, u32, u64}
use prfs.Nfsv3.{
  Reader, rd32, rd64, size, advance, read_u32, read_fh, read_str, take_str, padded, outside, taken,
  word, put_u32, put_u64, put_fh, put_str, pad_loop,
}

pub drop-append {ℓ} : {A : Type ℓ} (xs ys : List A) → drop (length xs) (xs ++ ys) ≡ ys
drop-append [] ys = refl
drop-append (x ∷ xs) ys = drop-append xs ys

pub take-append {ℓ} : {A : Type ℓ} (xs ys : List A) → take (length xs) (xs ++ ys) ≡ xs
take-append [] ys = refl
take-append (x ∷ xs) ys = ap (λ zs. x ∷ zs) (take-append xs ys)

append_assoc {ℓ} : {A : Type ℓ} (xs ys zs : List A) → (xs ++ ys) ++ zs ≡ xs ++ (ys ++ zs)
append_assoc [] ys zs = refl
append_assoc (x ∷ xs) ys zs = ap (λ l. x ∷ l) (append_assoc xs ys zs)

-- A reader that has read `v` of a message.
abbrev pub at : Bytes → Bytes → Reader
at v rest = record { p = v ++ rest; pos = length v; ok = true }

read_u32-word :
    (x : ℕ) (v rest : Bytes)
    → x < u32
    → read_u32 (at v (word x ++ rest)) ≡ (x, advance 4 (at v (word x ++ rest)))
unfolding read_u32
read_u32-word x v rest h =
    let w = word x ++ rest in
    let fits : ltb (length (v ++ w)) (length v + 4) ≡ false = ground (arith, length-append v w) in
    let value : rd32 (drop (length v) (v ++ w)) ≡ x = ap rd32 (drop-append v w) ∙ omega arith in
    rw (read_u32, fits, value) refl

append_nil {ℓ} : {A : Type ℓ} (xs : List A) → xs ++ [] ≡ xs
append_nil [] = refl
append_nil (x ∷ xs) = ap (λ zs. x ∷ zs) (append_nil xs)

-- The padding is what is missing to whole words.
pad_loop-replicate :
    (fuel k : ℕ) (w : Bytes)
    → (length w + k) % 4 ≡ 0
    → k < 4
    → k ≤ fuel
    → pad_loop fuel w ≡ w ++ replicate k 0
unfolding pad_loop
pad_loop-replicate zero zero w e h room = sym (append_nil w)
pad_loop-replicate (suc fuel) zero w e h room =
    let whole : (length w % 4 == 0) ≡ true = ground (arith, e) in rw whole (sym (append_nil w))
pad_loop-replicate zero (suc k) w e h room = absurd (omega arith)
pad_loop-replicate (suc fuel) (suc k) w e h room =
    let less : length w % 4 ≢ 0 = omega (arith, e) in
    let short : (length w % 4 == 0) ≡ false = ground (arith, less) in
    rw short (
      pad_loop-replicate fuel k (w ++ 0 ∷ []) (omega (arith, e, length-append w (0 ∷ [])))
        (omega arith) (omega arith)
      ∙ append_assoc w (0 ∷ []) (replicate k 0))

length-zeros : (k : ℕ) → length (replicate {A = ℕ} k 0) ≡ k
length-zeros zero = refl
length-zeros (suc k) = ap suc (length-zeros k)

take_str-at :
    (s t u : Bytes)
    → padded (length s) ≤ length s + length t
    → length s ≤ padded (length s)
    → take_str (length s) (at u (s ++ t)) ≡ taken s (advance (padded (length s)) (at u (s ++ t)))
unfolding take_str
take_str-at s t u room more =
    let l = length-append u (s ++ t) in
    let l2 = length-append s t in
    let fits : ltb (length (u ++ (s ++ t))) (length u + padded (length s)) ≡ false =
      ground (arith, l, l2, room) in
    let inside : ltb (length (u ++ (s ++ t))) (length u + length s) ≡ false =
      ground (arith, l, l2) in
    let value : take (length s) (drop (length u) (u ++ (s ++ t))) ≡ s =
      ap (take (length s)) (drop-append u (s ++ t)) ∙ take-append s t in
    rw (take_str, fits, inside, value) refl

abbrev pad : Bytes → ℕ
pad s = (4 - length s % 4) % 4

module _ (s v : Bytes) (h : length s < u32 - 3) (whole : length v % 4 ≡ 0) where
  abbrev zeros : Bytes
  zeros = replicate (pad s) 0

  put_str_lem : put_str s v ≡ (v ++ word (length s)) ++ (s ++ zeros)
  unfolding put_str put_u32
  put_str_lem =
      let small : length s % u32 ≡ length s = omega arith in
      let u = v ++ word (length s) in
      let size_u = length-append v (word (length s)) in
      rw small (
        pad_loop-replicate 3 (pad s) (u ++ s) (omega (arith, whole, size_u, length-append u s))
          (omega arith) (omega arith)
        ∙ append_assoc u s zeros)

  -- The message, cut where the reader reads.
  message_lem :
      (rest : Bytes) → put_str s v ++ rest ≡ v ++ (word (length s) ++ (s ++ (zeros ++ rest)))
  message_lem rest =
      ap (λ m. m ++ rest) put_str_lem
      ∙ append_assoc (v ++ word (length s)) (s ++ zeros) rest
      ∙ ap (λ m. (v ++ word (length s)) ++ m) (append_assoc s zeros rest)
      ∙ append_assoc v (word (length s)) (s ++ (zeros ++ rest))

  length-put_str : length (put_str s v) ≡ length v + 4 + padded (length s)
  unfolding padded
  length-put_str =
      ap length put_str_lem
      ∙ omega (
        arith,
        length-append (v ++ word (length s)) (s ++ zeros),
        length-append v (word (length s)),
        length-append s zeros,
        length-zeros (pad s),
      )

  read_at :
      (rest : Bytes)
      → read_str (at v (word (length s) ++ (s ++ (zeros ++ rest))))
        ≡ taken s (record {
          p = v ++ (word (length s) ++ (s ++ (zeros ++ rest)));
          pos = length v + 4 + padded (length s);
          ok = true;
        })
  unfolding read_str padded
  read_at rest =
      let t = zeros ++ rest in
      let u = v ++ word (length s) in
      let head = read_u32-word (length s) v (s ++ t) (omega arith) in
      let cut : v ++ (word (length s) ++ (s ++ t)) ≡ u ++ (s ++ t) =
        sym (append_assoc v (word (length s)) (s ++ t)) in
      let size_u : length u ≡ length v + 4 = length-append v (word (length s)) in
      let size_t = length-append zeros rest in
      rw head (
        subst
          (λ (m : Bytes).
            take_str (length s) (record { p = m; pos = length v + 4; ok = true })
            ≡ taken s (record { p = m; pos = length v + 4 + padded (length s); ok = true }))
          (sym cut)
          (subst
            (λ (i : ℕ).
              take_str (length s) (record { p = u ++ (s ++ t); pos = i; ok = true })
              ≡ taken s (record { p = u ++ (s ++ t); pos = i + padded (length s); ok = true }))
            size_u (take_str-at s t u (omega (arith, size_t, length-zeros (pad s))) (omega arith))))

-- A string below 2 ^ 32 - 3 bytes that is written at a whole word is read back from there, and the
-- reader goes on behind its padding.
pub read_str-put_str :
    (s v rest : Bytes)
    → length s < u32 - 3
    → length v % 4 ≡ 0
    → read_str (record { p = put_str s v ++ rest; pos = length v; ok = true })
      ≡ taken s (record { p = put_str s v ++ rest; pos = length (put_str s v); ok = true })
read_str-put_str s v rest h whole =
    subst
      (λ (m : Bytes).
        read_str (record { p = m; pos = length v; ok = true })
        ≡ taken s (record { p = m; pos = length (put_str s v); ok = true }))
      (sym (message_lem s v h whole rest))
      (rw (length-put_str s v h whole) (read_at s v h whole rest))

-- `str` reads past the end of the message exactly where no word is missing, the length announced is
-- at least 2 ^ 32 - 3, so that its padded length wraps, and the message is shorter than that.
pub take_str-outside :
    (len : ℕ) (r : Reader)
    → len < u32
    → r.ok ≡ true
    → r.pos ≤ size r
    → (take_str len r ≡ outside) ↔ ((u32 - 3 ≤ len) × (size r < r.pos + len))
unfolding take_str padded
take_str-outside len r h fine inside = elim (Bool-cases (ltb (size r) (r.pos + padded len))) [
  | inl short ↦
      let wide = ltb→lt (size r) (r.pos + padded len) short in
      (rw (fine, short) (λ e. cc), λ k. absurd (omega (arith, wide, k.0, k.1)))
  | inr fits ↦ elim (Bool-cases (ltb (size r) (r.pos + len))) [
    | inl over ↦
        let past = ltb→lt (size r) (r.pos + len) over in
        let enough : r.pos + padded len ≤ size r = ground (arith, fits) in
        (λ e. (omega (arith, past, enough), past), λ k. rw (take_str, fine, fits, over) refl)
    | inr within ↦ (rw (fine, fits, within) (λ e. cc), λ k. absurd (ground (arith, within, k.1)))
  ]
]

drop-word : (x : ℕ) (v t : Bytes) → drop (length v + 4) (v ++ (word x ++ t)) ≡ t
drop-word x [] t = refl
drop-word x (b ∷ v) t =
    let e : suc (length v) + 4 ≡ suc (length v + 4) = omega arith in rw e (drop-word x v t)

abbrev double : ℕ → Bytes → Bytes
double x t = word (x / u32 % u32) ++ (word (x % u32) ++ t)

rd64-double : (x : ℕ) (t : Bytes) → x < u64 → rd64 (double x t) ≡ x
rd64-double x t h = omega arith

fh_at :
    (id snap : ℕ) (v rest : Bytes)
    → id < u64
    → snap < u64
    → read_fh (at v (word 16 ++ double id (double snap rest))) ≡ (
      some (id, snap),
      record { p = v ++ (word 16 ++ double id (double snap rest)); pos = length v + 20; ok = true },
    )
unfolding read_fh
fh_at id snap v rest hi hs =
    let body = double id (double snap rest) in
    let head = read_u32-word 16 v body (omega arith) in
    let fits : ltb (length (v ++ (word 16 ++ body))) (length v + 4 + 16) ≡ false =
      ground (arith, length-append v (word 16 ++ body)) in
    let cut = drop-word 16 v body in
    let first : rd64 (drop (length v + 4) (v ++ (word 16 ++ body))) ≡ id =
      ap rd64 cut ∙ rd64-double id (double snap rest) hi in
    let second : rd64 (drop 8 (drop (length v + 4) (v ++ (word 16 ++ body)))) ≡ snap =
      ap (λ m. rd64 (drop 8 m)) cut ∙ rd64-double snap rest hs in
    let behind : length v + 4 + 16 ≡ length v + 20 = omega arith in
    rw (head, fits, first, second)
      (ap (λ (i : ℕ). (some (id, snap), record { p = v ++ (word 16 ++ body); pos = i; ok = true }))
        behind)

put_fh_lem :
    (id snap : ℕ) (v rest : Bytes)
    → put_fh id snap v ++ rest ≡ v ++ (word 16 ++ double id (double snap rest))
unfolding put_fh put_u64 put_u32
put_fh_lem id snap [] rest = refl
put_fh_lem id snap (b ∷ v) rest = ap (λ m. b ∷ m) (put_fh_lem id snap v rest)

-- A handle of two numbers below 2 ^ 64 is read back from where it is written, and the reader goes
-- on behind it.
pub read_fh-put_fh :
    (id snap : ℕ) (v rest : Bytes)
    → id < u64
    → snap < u64
    → read_fh (record { p = put_fh id snap v ++ rest; pos = length v; ok = true })
      ≡ (some (id, snap), record { p = put_fh id snap v ++ rest; pos = length v + 20; ok = true })
read_fh-put_fh id snap v rest hi hs =
    subst
      (λ (m : Bytes).
        read_fh (record { p = m; pos = length v; ok = true })
        ≡ (some (id, snap), record { p = m; pos = length v + 20; ok = true }))
      (sym (put_fh_lem id snap v rest)) (fh_at id snap v rest hi hs)
