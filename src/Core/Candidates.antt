-- ===== src/Core/Candidates.antt =====
-- The nodes that `candidates` finds in the table of changes, for the differences of two views.
use prfs.Prelude.{
  ℕ, ◌+◌, ◌%◌, ◌<◌, ◌≤◌, ◌≡◌, ◌↔◌, sym, ap, subst, ◌∙◌, List, [], ◌∷◌, ◌⊎◌, inl, inr, All, arith,
  ltb, ◌==◌, drop, false, Bool-cases,
}
use mathlib.Core.List.{Memᴰ}
use mathlib.Core.List.Memᴰ
use prfs.Bytes.{Bytes, u64, be, rdbe}
use prfs.Kv.{Map, Entry, seek, seek_from}
use prfs.Core.Tables.{Db, put_id, candidates_loop, candidates}
use prfs.Core.Changes.{
  change_key, IsChange, ChangesOk, rdbe-change_key, id-change_key, later_keys, seek_from-ChangesOk,
  seek_from-Mem, seek_from-kept,
}

put_id-listed : (i x : ℕ) (ys : List ℕ) → Memᴰ i (put_id x ys) → (i ≡ x) ⊎ Memᴰ i ys
unfolding put_id
put_id-listed i x [] = λ m. Memᴰ.cases_cons m
put_id-listed i x (y ∷ ys) = elim (Bool-cases (ltb y x)) [
  | inl after ↦ rw after (λ m. elim (Memᴰ.cases_cons m) [
    | inl e ↦ inr (Memᴰ.head e)
    | inr rest ↦ elim (put_id-listed i x ys rest) [
      | inl e ↦ inl e
      | inr there ↦ inr (Memᴰ.tail there)
    ]
  ])
  | inr before ↦ elim (Bool-cases (x == y)) [
    | inl same ↦ rw (before, same) (λ m. inr m)
    | inr new ↦ rw (before, new) (λ m. Memᴰ.cases_cons m)
  ]
]

put_id-kept : (i x : ℕ) (ys : List ℕ) → (i ≡ x) ⊎ Memᴰ i ys → Memᴰ i (put_id x ys)
unfolding put_id
put_id-kept i x [] (inl e) = Memᴰ.head e
put_id-kept i x [] (inr m) = absurd (Memᴰ.not-nil m)
put_id-kept i x (y ∷ ys) m = elim (Bool-cases (ltb y x)) [
  | inl after ↦ rw after (elim m [
    | inl e ↦ Memᴰ.tail (put_id-kept i x ys (inl e))
    | inr rest ↦ elim (Memᴰ.cases_cons rest) [
      | inl e ↦ Memᴰ.head e
      | inr there ↦ Memᴰ.tail (put_id-kept i x ys (inr there))
    ]
  ])
  | inr before ↦ elim (Bool-cases (x == y)) [
    | inl same ↦
        rw (before, same)
          (elim m [ inl e ↦ Memᴰ.head (e ∙ ground (arith, same)) | inr rest ↦ rest ])
    | inr new ↦ rw (before, new) (elim m [ inl e ↦ Memᴰ.head e | inr rest ↦ Memᴰ.tail rest ])
  ]
]

-- That a node changed after the snapshot `ra` and by `rb`, as a table of changes says.
abbrev pub ChangedIn : ℕ → ℕ → ℕ → Map → Type 0
ChangedIn ra rb id m =
    (n : ℕ) × (ra < n) × (n ≤ rb) × (n < u64) × (v : Bytes) × Memᴰ (change_key n id, v) m

All-Mem : (P : Entry → Type 0) (m : Map) (e : Entry) → All P m → Memᴰ e m → P e
All-Mem P [] e a p = absurd (Memᴰ.not-nil p)
All-Mem P (f ∷ m) e a p = elim (Memᴰ.cases_cons p) [
  | inl same ↦ subst P (sym same) a.0
  | inr later ↦ All-Mem P m e a.1 later
]

-- What the loop adds: the nodes of the changes up to `rb`, in a table that begins at or after `ra`.
module _ (ra rb i : ℕ) where
  found :
      (k v : Bytes) (m : Map)
      → IsChange (k, v)
      → ra < rdbe k
      → rdbe k ≤ rb
      → i ≡ rdbe (drop 8 k)
      → ChangedIn ra rb i ((k, v) ∷ m)
  found k v m (n, id, hn, hi, key) lo up e =
      let value : rdbe k ≡ n = ap rdbe key ∙ rdbe-change_key n id hn in
      let same : i ≡ id = e ∙ ap (λ (b : Bytes). rdbe (drop 8 b)) key ∙ id-change_key n id hi in
      let there : change_key n i ≡ k = ap (change_key n) same ∙ sym key in
      (
        n,
        omega (arith, value, lo),
        omega (arith, value, up),
        hn,
        v,
        Memᴰ.head (ap (λ (b : Bytes). (b, v)) there),
      )

  loop-sound :
      (m : Map) (out : List ℕ)
      → All IsChange m
      → All (λ (e : Entry). ra + 1 ≤ rdbe e.0) m
      → Memᴰ i (candidates_loop rb m out)
      → ChangedIn ra rb i m ⊎ Memᴰ i out
  unfolding candidates_loop
  loop-sound [] out a late = λ p. inr p
  loop-sound ((k, v) ∷ m) out a late = elim (Bool-cases (ltb rb (rdbe k))) [
    | inl past ↦ rw past (λ p. inr p)
    | inr here ↦ rw here (λ p. elim (loop-sound m (put_id (rdbe (drop 8 k)) out) a.1 late.1 p) [
      | inl (n, lo, hi, hn, w, there) ↦ inl (n, lo, hi, hn, w, Memᴰ.tail there)
      | inr q ↦ elim (put_id-listed i (rdbe (drop 8 k)) out q) [
        | inl e ↦ inl (found k v m a.0 (omega (arith, late.0)) (ground (arith, here)) e)
        | inr old ↦ inr old
      ]
    ])
  ]

  loop-kept : (m : Map) (out : List ℕ) → Memᴰ i out → Memᴰ i (candidates_loop rb m out)
  unfolding candidates_loop
  loop-kept [] out p = p
  loop-kept ((k, v) ∷ m) out p = elim (Bool-cases (ltb rb (rdbe k))) [
    | inl past ↦ rw past p
    | inr here ↦
        rw here
          (loop-kept m (put_id (rdbe (drop 8 k)) out) (put_id-kept i (rdbe (drop 8 k)) out (inr p)))
  ]

  loop-complete :
      (m : Map) (out : List ℕ)
      → i < u64
      → ChangesOk m
      → ChangedIn ra rb i m
      → Memᴰ i (candidates_loop rb m out)
  unfolding candidates_loop
  loop-complete [] out hi ok (n, lo, up, hn, w, p) = absurd (Memᴰ.not-nil p)
  loop-complete ((k, v) ∷ m) out hi ok (n, lo, up, hn, w, p) = elim (Memᴰ.cases_cons p) [
    | inl e ↦
        let key : change_key n i ≡ k = ap (λ (x : Entry). x.0) e in
        let value : rdbe k ≡ n = ap rdbe (sym key) ∙ rdbe-change_key n i hn in
        let here : ltb rb (rdbe k) ≡ false = ground (arith, value, up) in
        let id : i ≡ rdbe (drop 8 k) =
          sym (id-change_key n i hi) ∙ ap (λ (b : Bytes). rdbe (drop 8 b)) key in
        rw here (
          loop-kept m (put_id (rdbe (drop 8 k)) out) (put_id-kept i (rdbe (drop 8 k)) out (inl id)))
    | inr later ↦
        let below : rdbe k ≤ rdbe (change_key n i) =
          All-Mem (λ (e : Entry). rdbe k ≤ rdbe e.0) m (change_key n i, w) (later_keys k v m ok)
            later in
        let value : rdbe (change_key n i) ≡ n = rdbe-change_key n i hn in
        let here : ltb rb (rdbe k) ≡ false = ground (arith, value, up, below) in
        rw here (
          loop-complete m (put_id (rdbe (drop 8 k)) out) hi (ok.0.1, ok.1.1)
            (n, lo, up, hn, w, later))
  ]

-- In a table of changes in key order, with keys of a snapshot and a node, a node with an id of 64
-- bits is a candidate for the differences of the views at `ra` and `rb` exactly where it has a change
-- at a snapshot after `ra` and not after `rb`, for `ra` below 2 ^ 64 - 1.
pub candidates_lem :
    (db : Db) (ra rb id : ℕ)
    → ChangesOk db.changes
    → ra + 1 < u64
    → id < u64
    → Memᴰ id (candidates db ra rb) ↔ ChangedIn ra rb id db.changes
unfolding candidates seek
candidates_lem db ra rb id ok room hid =
    let wrap : (ra + 1) % u64 ≡ ra + 1 = omega arith in
    let m = db.changes in
    let (inside, late) = seek_from-ChangesOk (ra + 1) room [] m ok in
    rw wrap (
      λ p. elim (loop-sound ra rb id (seek_from (be (ra + 1)) [] m).here [] inside.1 late p) [
        | inl (n, lo, up, hn, w, there) ↦
            (n, lo, up, hn, w, seek_from-Mem (ra + 1) room (change_key n id, w) [] m ok.1 there)
        | inr never ↦ absurd (Memᴰ.not-nil never)
      ],
      λ (n, lo, up, hn, w, there).
          loop-complete ra rb id (seek_from (be (ra + 1)) [] m).here [] hid inside (
            n,
            lo,
            up,
            hn,
            w,
            seek_from-kept (ra + 1) room (change_key n id, w) [] m ok.1
                (omega (arith, rdbe-change_key n id hn, lo)) there,
          ),
    )
