-- ===== src/Core/Changes.antt =====
-- The table of changes of src/core/prfs.cpp: its keys, their order, and a cursor on it.
use prfs.Prelude.{
  ℕ, ◌+◌, ◌<◌, ◌≤◌, ◌≡◌, refl, sym, ap, subst, ◌*◌, ◌∙◌, Ordering, compare, [], ◌∷◌, ◌++◌, ◌⊎◌, inl,
  inr, All, length, arith, drop,
}
use mathlib.Core.List.{Memᴰ}
use mathlib.Core.List.Memᴰ
use native.Mathlib.Decide.{dec_lt}
use prfs.Bytes.{Bytes, u64, be, rdbe, cmp}
use prfs.Bytes.Encoding.{rdbe-be, drop-be, cmp-be, cmp-be_one, length-be_one}
use prfs.Kv.{Map, Entry, seek_from}
use prfs.Kv.Laws.{Sorted, Below-trans, put-Sorted, All-put}
use prfs.Core.Tables.{Db, store_node}
use prfs.Core.Writes.{Write, Writes, node, put_down, del_down, put_up, del_up, put_meta, done, more}

-- The key of a node that changed at a snapshot.
abbrev pub change_key : ℕ → ℕ → Bytes
change_key n id = be n ++ be id

abbrev pub IsChange : Entry → Type 0
IsChange e = (n : ℕ) × (id : ℕ) × (n < u64) × (id < u64) × (e.0 ≡ change_key n id)

-- A table of changes: in key order, with keys of a snapshot and a node.
abbrev pub ChangesOk : Map → Type 0
ChangesOk m = Sorted m × All IsChange m

cmp-append_equal :
    (p q s t : Bytes)
    → length p ≡ length q
    → cmp (p ++ s) (q ++ t) ≡ elim (cmp p q) [
      | Ordering.lt ↦ Ordering.lt
      | Ordering.eq ↦ cmp s t
      | Ordering.gt ↦ Ordering.gt
    ]
unfolding cmp
cmp-append_equal [] [] s t l = refl
cmp-append_equal [] (y ∷ q) s t l = absurd (omega arith)
cmp-append_equal (x ∷ p) [] s t l = absurd (omega arith)
cmp-append_equal (x ∷ p) (y ∷ q) s t l = ground (arith, cmp-append_equal p q s t (omega (arith, l)))

cmp-be_nil : (i : ℕ) → cmp (be i) [] ≡ Ordering.gt
unfolding be cmp
cmp-be_nil i = refl

append-be : (i : ℕ) → be i ++ [] ≡ be i
unfolding be
append-be i = refl

-- A change of the snapshot `n` comes before the snapshot `m` in key order where `n` is lower.
change_key-be :
    (n id m : ℕ)
    → n < u64
    → id < u64
    → m < u64
    → (n < m → cmp (change_key n id) (be m) ≡ Ordering.lt)
      × (m ≤ n → cmp (change_key n id) (be m) ≡ Ordering.gt)
change_key-be n id m hn hi hm =
    let split = cmp-append_equal (be n) (be m) (be id) [] (length-be_one n m) in
    let order = cmp-be_one n m hn hm in
    let past = cmp-be_nil id in
    let whole = append-be m in
    (
      λ lt. ap (cmp (change_key n id)) (sym whole) ∙ split ∙ rw order (ground arith),
      λ ge. ap (cmp (change_key n id)) (sym whole) ∙ split ∙ rw order (ground (arith, past)),
    )

pub rdbe-change_key : (n id : ℕ) → n < u64 → rdbe (change_key n id) ≡ n
rdbe-change_key n id hn = rdbe-be n (be id) hn

pub id-change_key : (n id : ℕ) → id < u64 → rdbe (drop 8 (change_key n id)) ≡ id
unfolding be
id-change_key n id hi = ap rdbe (drop-be n (be id)) ∙ rdbe-be id [] hi

IsChange-le :
    (k j v w : Bytes) → IsChange (k, v) → IsChange (j, w) → cmp k j ≡ Ordering.lt → rdbe k ≤ rdbe j
IsChange-le k j v w (n, id, hn, hi, key) (o, jd, ho, hj, key') lt =
    let left : rdbe k ≡ n = ap rdbe key ∙ rdbe-change_key n id hn in
    let right : rdbe j ≡ o = ap rdbe key' ∙ rdbe-change_key o jd ho in
    let order : compare (n * u64 + id) (o * u64 + jd) ≡ Ordering.lt =
      sym (cmp-be n id o jd hn hi ho hj)
      ∙ sym (ap (λ (b : Bytes). cmp b (change_key o jd)) key)
      ∙ sym (ap (cmp k) key')
      ∙ lt in
    ground (arith, left, right, order)

pub later_keys :
    (k v : Bytes) (m : Map) → ChangesOk ((k, v) ∷ m) → All (λ (e : Entry). rdbe k ≤ rdbe e.0) m
later_keys k v [] ok = tt
later_keys k v ((j, w) ∷ m) ((below, sorted), (first, (next, rest))) = (
  IsChange-le k j v w first next below,
  later_keys k v m ((Below-trans k j m below sorted.0, sorted.1), (first, rest)),
)

module _ (lo : ℕ) (fits : lo < u64) where
  abbrev here : Map → Map → Map
  here b m = (seek_from (be lo) b m).here

  side :
      (k v : Bytes)
      → IsChange (k, v)
      → ((cmp k (be lo) ≡ Ordering.lt) × (rdbe k < lo))
        ⊎ ((cmp k (be lo) ≡ Ordering.gt) × (lo ≤ rdbe k))
  side k v (n, id, hn, hi, key) =
      let value : rdbe k ≡ n = ap rdbe key ∙ rdbe-change_key n id hn in
      let order = change_key-be n id lo hn hi fits in
      let moved = ap (λ (b : Bytes). cmp b (be lo)) key in
      elim (dec_lt n lo) [
        | yes lower ↦ inl (moved ∙ order.0 lower, omega (arith, value, lower))
        | no from ↦ inr (moved ∙ order.1 (omega arith), omega (arith, value, from))
      ]

  here_lower :
      (k v : Bytes) (b m : Map)
      → cmp k (be lo) ≡ Ordering.lt
      → here b ((k, v) ∷ m) ≡ here ((k, v) ∷ b) m
  unfolding seek_from
  here_lower k v b m lower = ground (arith, lower)

  here_from :
      (k v : Bytes) (b m : Map) → cmp k (be lo) ≡ Ordering.gt → here b ((k, v) ∷ m) ≡ (k, v) ∷ m
  unfolding seek_from
  here_from k v b m from = ground (arith, from)

  abbrev FromLo : Map → Type 0
  FromLo h = ChangesOk h × All (λ (e : Entry). lo ≤ rdbe e.0) h

  pub seek_from-ChangesOk : (b m : Map) → ChangesOk m → FromLo (here b m)
  unfolding seek_from
  seek_from-ChangesOk b [] ok = (ok, tt)
  seek_from-ChangesOk b ((k, v) ∷ m) ok = elim (side k v ok.1.0) [
    | inl (lower, before) ↦
        subst FromLo (sym (here_lower k v b m lower))
          (seek_from-ChangesOk ((k, v) ∷ b) m (ok.0.1, ok.1.1))
    | inr (from, after) ↦
        subst FromLo (sym (here_from k v b m from))
          (ok, (after, All-from k after m (later_keys k v m ok)))
  ]
    where
      All-from :
          (k : Bytes)
          → lo ≤ rdbe k
          → (m : Map) → All (λ (e : Entry). rdbe k ≤ rdbe e.0) m
          → All (λ (e : Entry). lo ≤ rdbe e.0) m
      All-from k le [] a = tt
      All-from k le (e ∷ m) a = (omega (arith, le, a.0), All-from k le m a.1)

  pub seek_from-Mem : (e : Entry) (b m : Map) → All IsChange m → Memᴰ e (here b m) → Memᴰ e m
  unfolding seek_from
  seek_from-Mem e b [] a = λ p. p
  seek_from-Mem e b ((k, v) ∷ m) a = elim (side k v a.0) [
    | inl (lower, before) ↦ λ p.
        Memᴰ.tail (seek_from-Mem e ((k, v) ∷ b) m a.1 (subst (Memᴰ e) (here_lower k v b m lower) p))
    | inr (from, after) ↦ λ p. subst (Memᴰ e) (here_from k v b m from) p
  ]

  pub seek_from-kept :
      (e : Entry) (b m : Map) → All IsChange m → lo ≤ rdbe e.0 → Memᴰ e m → Memᴰ e (here b m)
  unfolding seek_from
  seek_from-kept e b [] a late p = p
  seek_from-kept e b ((k, v) ∷ m) a late p = elim (side k v a.0) [
    | inl (lower, before) ↦ elim (Memᴰ.cases_cons p) [
      | inl same ↦ absurd (omega (arith, before, late, ap (λ (x : Entry). rdbe x.0) same))
      | inr later ↦
          subst (Memᴰ e) (sym (here_lower k v b m lower))
            (seek_from-kept e ((k, v) ∷ b) m a.1 late later)
    ]
    | inr (from, after) ↦ subst (Memᴰ e) (sym (here_from k v b m from)) p
  ]

Write-ChangesOk :
    {cur : ℕ} {a b : Db} → cur < u64 → Write cur a b → ChangesOk a.changes → ChangesOk b.changes
unfolding store_node
Write-ChangesOk {cur} hc (node id r db hid bound) ok = (
  put-Sorted (change_key cur id) [] db.changes ok.0,
  All-put IsChange (change_key cur id) [] db.changes (cur, id, hc, hid, refl) ok.1,
)
Write-ChangesOk hc (put_down d name v db) ok = ok
Write-ChangesOk hc (del_down d name db) ok = ok
Write-ChangesOk hc (put_up c suffix db) ok = ok
Write-ChangesOk hc (del_up c suffix db) ok = ok
Write-ChangesOk hc (put_meta k v db) ok = ok

-- What a transaction writes leaves a table of changes in order.
Writes-ChangesOk :
    {cur : ℕ} {a b : Db} → cur < u64 → Writes cur a b → ChangesOk a.changes → ChangesOk b.changes
Writes-ChangesOk hc done ok = ok
Writes-ChangesOk hc (more w s) ok = Write-ChangesOk hc s (Writes-ChangesOk hc w ok)
