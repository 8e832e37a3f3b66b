-- ===== src/Core/Versions.antt =====
-- What `loadNode` returns: the newest record of a node at or below a snapshot, and how a write at
-- the current snapshot changes it.
use prfs.Prelude.{
  ℕ, ◌+◌, ◌*◌, ◌<◌, ◌≤◌, ◌≡◌, refl, sym, ap, ◌∙◌, subst, [], ◌∷◌, ◌++◌, drop, arith, ◌==◌, leb,
  ◌&&◌, Option, none, some, length, Ordering, All, ◌⊎◌, inl, inr, ◌≢◌,
}
use prfs.Bytes.{Bytes, u64, be, rdbe, cmp, is_eq}
use prfs.Bytes.Encoding.{rdbe-be, cmp-be}
use prfs.Bytes.Order.{Ordering-cases}
use prfs.Kv.{Map, Entry, seek_from}
use prfs.Kv.Scan.{floor, cut, moved, newer}
use prfs.Core.Record.{deserialize}
use prfs.Core.Tables.{version_at, is_node_key, is_version_of}

-- An entry of the node table: its key is an id and a snapshot not past `cur`, and its record's link
-- sets are of that snapshot or an older one.
pub record IsVersion (cur : ℕ) (e : Entry) : Type 0 where
  pub id : ℕ
  pub snap : ℕ
  pub key_eq : e.0 ≡ be id ++ be snap
  pub id_fits : id < u64
  pub snap_le : snap ≤ cur
  pub dn_le : (deserialize e.1).dn_link_ver ≤ snap
  pub up_le : (deserialize e.1).up_link_ver ≤ snap

abbrev pub OnSome {ℓ} : (Entry → Type ℓ) → Option Entry → Type ℓ
OnSome P none = Unit
OnSome P (some e) = P e

module _ {ℓ} (P : Entry → Type ℓ) where
  OnSome-cut :
      (c : Ordering) (o : Option Entry) (e : Entry) → OnSome P o → P e → OnSome P (cut c o e)
  OnSome-cut Ordering.gt o e a p = tt
  OnSome-cut Ordering.lt none e a p = p
  OnSome-cut Ordering.lt (some f) e a p = a
  OnSome-cut Ordering.eq none e a p = p
  OnSome-cut Ordering.eq (some f) e a p = a

  pub OnSome-floor : (q : Bytes) (m : Map) → All P m → OnSome P (floor q m)
  unfolding floor
  OnSome-floor q [] a = tt
  OnSome-floor q ((j, w) ∷ m) a = OnSome-cut (cmp j q) (floor q m) (j, w) (OnSome-floor q m a.1) a.0

  pub All-seek_from : (k : Bytes) (b m : Map) → All P m → All P (seek_from k b m).here
  unfolding seek_from
  All-seek_from k b [] a = tt
  All-seek_from k b ((j, w) ∷ m) a = ground (arith, All-seek_from k ((j, w) ∷ b) m a.1)

abbrev pub NotAbove : Bytes → Entry → Type 0
NotAbove q e = (cmp e.0 q ≡ Ordering.lt) ⊎ (cmp e.0 q ≡ Ordering.eq)

pub floor-NotAbove : (q : Bytes) (m : Map) → OnSome (NotAbove q) (floor q m)
unfolding floor
floor-NotAbove q [] = tt
floor-NotAbove q ((j, w) ∷ m) = elim (Ordering-cases (cmp j q)) [
  | inl lt ↦ OnSome-cut (NotAbove q) (cmp j q) (floor q m) (j, w) (floor-NotAbove q m) (inl lt)
  | inr (inl e) ↦ OnSome-cut (NotAbove q) (cmp j q) (floor q m) (j, w) (floor-NotAbove q m) (inr e)
  | inr (inr gt) ↦ subst (λ c. OnSome (NotAbove q) (cut c (floor q m) (j, w))) (sym gt) tt
]

-- The tests of `loadNode` on a key of the table.
module _ (i s : ℕ) (hi : i < u64) (hs : s < u64) where
  pub rdbe-key : rdbe (be i ++ be s) ≡ i
  rdbe-key = rdbe-be i (be s) hi

  pub rdbe-drop-key : rdbe (drop 8 (be i ++ be s)) ≡ s
  unfolding be
  rdbe-drop-key = rdbe-be s [] hs

  length-key : length (be i ++ be s) ≡ 16
  unfolding be
  length-key = refl

  is_node_key_lem : (id rg : ℕ) → is_node_key id rg (be i ++ be s) ≡ (i == id && s == rg)
  unfolding is_node_key
  is_node_key_lem id rg = rw (length-key, rdbe-key, rdbe-drop-key)

  pub is_version_of_lem : (id rg : ℕ) → is_version_of id rg (be i ++ be s) ≡ (i == id && leb s rg)
  unfolding is_version_of
  is_version_of_lem id rg = rw (length-key, rdbe-key, rdbe-drop-key)

  pub is_node_key-cmp :
      (id rg : ℕ)
      → id < u64
      → rg < u64
      → is_node_key id rg (be i ++ be s) ≡ is_eq (cmp (be i ++ be s) (be id ++ be rg))
  is_node_key-cmp id rg hid hrg =
      rw (is_node_key_lem id rg, cmp-be i s id rg hi hs hid hrg) (ground arith)

-- Where two keys stand in the order of the table.
key_le :
    (i s j t : ℕ)
    → i < u64
    → s < u64
    → j < u64
    → t < u64
    → (cmp (be i ++ be s) (be j ++ be t) ≡ Ordering.gt) ⊎ (i * u64 + s ≤ j * u64 + t)
key_le i s j t hi hs hj ht = rw (cmp-be i s j t hi hs hj ht) (ground arith)

key_not_version :
    (id rg i c : ℕ) (v : Bytes)
    → i < u64
    → c < u64
    → (i ≢ id) ⊎ (rg < c)
    → version_at id rg (some (be i ++ be c, v)) ≡ none
unfolding version_at
key_not_version id rg i c v hi hc other = rw (is_version_of_lem i c hi hc id rg) (ground arith)

not_version :
    (id rg cur : ℕ) (e : Entry)
    → cur < u64
    → (v : IsVersion cur e) → (v.id ≢ id) ⊎ (rg < v.snap)
    → version_at id rg (some e) ≡ none
not_version id rg cur e hc v other =
    subst (λ k. version_at id rg (some (k, e.1)) ≡ none) (sym v.key_eq)
      (key_not_version id rg v.id v.snap e.1 v.id_fits (omega (arith, v.snap_le)) other)

newer_or :
    (k v : Bytes) (e : Entry) → (newer k v (some e) ≡ some e) ⊎ (newer k v (some e) ≡ some (k, v))
newer_or k v e = elim (Ordering-cases (cmp e.0 k)) [
  | inl lt ↦ inr (ground arith)
  | inr (inl same) ↦ inr (ground arith)
  | inr (inr gt) ↦ inl (ground arith)
]

newer_after : (k v : Bytes) (e : Entry) → cmp e.0 k ≡ Ordering.gt → newer k v (some e) ≡ some e
newer_after k v e h = ground arith

newer_not_after :
    (k v : Bytes) (e : Entry) → ¬ (cmp e.0 k ≡ Ordering.gt) → newer k v (some e) ≡ some (k, v)
newer_not_after k v e h = elim (Ordering-cases (cmp e.0 k)) [
  | inl lt ↦ ground arith
  | inr (inl same) ↦ ground arith
  | inr (inr gt) ↦ absurd (h gt)
]

none_at : (id rg : ℕ) → version_at id rg none ≡ none
unfolding version_at
none_at id rg = refl

-- A written record of the node `i`, at the snapshot `c`, in the table of a store at `cur`.
module _ (id rg cur i c : ℕ) (v : Bytes) (hid : id < u64) (hrg : rg < u64) (hcur : cur < u64)
    (hi : i < u64) (hc : c ≤ cur) where
  newer_other :
      (o : Option Entry)
      → OnSome (IsVersion cur) o
      → i < id
      → version_at id rg (newer (be i ++ be c) v o) ≡ version_at id rg o
  newer_other none a lt =
      key_not_version id rg i c v hi (omega arith) (inl (omega arith)) ∙ sym (none_at id rg)
  newer_other (some e) a lt = elim (newer_or (be i ++ be c) v e) [
    | inl old ↦ ap (version_at id rg) old
    | inr new ↦
        elim (key_le a.id a.snap i c a.id_fits (omega (arith, a.snap_le)) hi (omega arith)) [
          | inl gt ↦ ap (version_at id rg) (
              newer_after (be i ++ be c) v e
                (subst (λ k. cmp k (be i ++ be c) ≡ Ordering.gt) (sym a.key_eq) gt))
          | inr le ↦
              ap (version_at id rg) new
              ∙ key_not_version id rg i c v hi (omega arith) (inl (omega arith))
              ∙ sym (not_version id rg cur e hcur a (inl (omega (arith, a.snap_le))))
        ]
  ]

  -- It is no version that another node, or an older snapshot, sees.
  pub moved_other :
      (o : Option Entry)
      → OnSome (IsVersion cur) o
      → (i ≢ id) ⊎ (rg < c)
      → version_at id rg (moved (cmp (be i ++ be c) (be id ++ be rg)) (be i ++ be c) v o)
        ≡ version_at id rg o
  moved_other o a other = elim (key_le i c id rg hi (omega arith) hid hrg) [
    | inl gt ↦ ap (λ x. version_at id rg (moved x (be i ++ be c) v o)) gt
    | inr le ↦ elim (Ordering-cases (cmp (be i ++ be c) (be id ++ be rg))) [
      | inl lt ↦
          ap (λ x. version_at id rg (moved x (be i ++ be c) v o)) lt ∙ newer_other o a (omega arith)
      | inr (inl e) ↦
          ap (λ x. version_at id rg (moved x (be i ++ be c) v o)) e ∙ newer_other o a (omega arith)
      | inr (inr gt) ↦ ap (λ x. version_at id rg (moved x (be i ++ be c) v o)) gt
    ]
  ]

written_version :
    (id rg c : ℕ) (v : Bytes)
    → id < u64
    → c < u64
    → c ≤ rg
    → version_at id rg (some (be id ++ be c, v)) ≡ some (deserialize v)
unfolding version_at
written_version id rg c v hid hc h = rw (is_version_of_lem id c hid hc id rg) (ground arith)

key_gt :
    (i s j t : ℕ)
    → i < u64
    → s < u64
    → j < u64
    → t < u64
    → cmp (be i ++ be s) (be j ++ be t) ≡ Ordering.gt
    → j * u64 + t < i * u64 + s
key_gt i s j t hi hs hj ht h = ground (arith, cmp-be i s j t hi hs hj ht)

module _ (id rg cur : ℕ) (v : Bytes) (hid : id < u64) (hrg : rg < u64) (hcur : cur ≤ rg) where
  -- No entry lies between the written key and the place of the search.
  no_newer :
      (e : Entry)
      → IsVersion cur e
      → NotAbove (be id ++ be rg) e
      → ¬ (cmp e.0 (be id ++ be cur) ≡ Ordering.gt)
  no_newer e a n gt = elim (key_le a.id a.snap id rg a.id_fits (omega (arith, a.snap_le)) hid hrg) [
    | inl above ↦ ground (arith, ap (λ k. cmp k (be id ++ be rg)) a.key_eq)
    | inr le ↦ absurd (
        omega (
          arith,
          a.snap_le,
          key_gt a.id a.snap id cur a.id_fits (omega (arith, a.snap_le)) hid (omega arith)
              (subst (λ k. cmp k (be id ++ be cur) ≡ Ordering.gt) a.key_eq gt),
        ))
  ]

  newer_self :
      (o : Option Entry)
      → OnSome (IsVersion cur) o
      → OnSome (NotAbove (be id ++ be rg)) o
      → version_at id rg (newer (be id ++ be cur) v o) ≡ some (deserialize v)
  newer_self none a n = written_version id rg cur v hid (omega arith) hcur
  newer_self (some e) a n =
      ap (version_at id rg) (newer_not_after (be id ++ be cur) v e (no_newer e a n))
      ∙ written_version id rg cur v hid (omega arith) hcur

  pub moved_self :
      (o : Option Entry)
      → OnSome (IsVersion cur) o
      → OnSome (NotAbove (be id ++ be rg)) o
      → version_at id rg (moved (cmp (be id ++ be cur) (be id ++ be rg)) (be id ++ be cur) v o)
        ≡ some (deserialize v)
  moved_self o a n = elim (Ordering-cases (cmp (be id ++ be cur) (be id ++ be rg))) [
    | inl lt ↦ ap (λ x. version_at id rg (moved x (be id ++ be cur) v o)) lt ∙ newer_self o a n
    | inr (inl e) ↦ ap (λ x. version_at id rg (moved x (be id ++ be cur) v o)) e ∙ newer_self o a n
    | inr (inr gt) ↦ absurd (omega (arith, key_gt id cur id rg hid (omega arith) hid hrg gt))
  ]
