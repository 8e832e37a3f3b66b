-- ===== src/Core/Diffs.antt =====
-- The differences between two views: which nodes and which names they report.
use prfs.Prelude.{
  ℕ, ◌≡◌, ◌≢◌, ◌↔◌, ◌==◌, refl, sym, ◌∙◌, ap, subst, List, [], ◌∷◌, ◌⊎◌, inl, inr, true, false,
  Bool, Bool-cases, ◌||◌, not, Option, none, some, arith, if◌then◌else◌,
}
use prfs.Bytes.{Bytes}
use prfs.Bytes.Order.{cmp_refl, eq_of_cmp}
use prfs.Core.Record.{NodeRec}
use mathlib.Core.List.{Memᴰ}
use mathlib.Core.List.Memᴰ
use prfs.Core.Tables.{Db, load_node, or_empty, candidates}
use prfs.Core.Store.{Store, rr}
use prfs.Core.History.{
  NodeChange, created, removed, modified_content, modified_attrs, compare_nodes, node_change,
  bytes_eq, with_id, diff_loop, diff_nodes,
}

-- A node that has a record with a link in a view.
abbrev pub Live : Option NodeRec → Type 0
Live none = ⊥
Live (some r) = r.nlink ≢ 0

abbrev pub SameContent : NodeRec → NodeRec → Type 0
SameContent a b = (a.blob ≡ b.blob) × (a.spec ≡ b.spec) × (a.size ≡ b.size)

abbrev pub SameAttrs : NodeRec → NodeRec → Type 0
SameAttrs a b = (a.mode ≡ b.mode) × (a.uid ≡ b.uid) × (a.gid ≡ b.gid) × (a.mtime ≡ b.mtime)

-- What a change says of a node's records in the older and in the newer view.
abbrev pub Turned : NodeChange → Option NodeRec → Option NodeRec → Type 0
Turned created a b = ¬ Live a × Live b
Turned removed a b = Live a × ¬ Live b
Turned modified_content a b = Live a × Live b × ¬ SameContent (or_empty a) (or_empty b)
Turned modified_attrs a b =
    Live a × Live b × SameContent (or_empty a) (or_empty b) × ¬ SameAttrs (or_empty a) (or_empty b)

-- What is so of the records where a result is reported, `none` for no change.
abbrev Explained : Option NodeChange → Option NodeRec → Option NodeRec → Type 0
Explained none a b =
    (¬ Live a × ¬ Live b)
    ⊎ (Live a
        × Live b
        × SameContent (or_empty a) (or_empty b)
        × SameAttrs (or_empty a) (or_empty b))
Explained (some c) a b = Turned c a b

apart : true ≡ false → ⊥
apart e = cc

bytes_eq-≡ : (a b : Bytes) → bytes_eq a b ≡ true → a ≡ b
unfolding bytes_eq
bytes_eq-≡ a b h = ground (arith, h, eq_of_cmp a b)

bytes_eq_refl : (a b : Bytes) → a ≡ b → bytes_eq a b ≡ true
unfolding bytes_eq
bytes_eq_refl a b e = rw (e, cmp_refl b) refl

-- The tests of `compare_nodes`, `true` where they find a difference.
abbrev other_content : NodeRec → NodeRec → Bool
other_content a b = not (bytes_eq a.blob b.blob) || not (a.spec == b.spec) || not (a.size == b.size)

abbrev other_attrs : NodeRec → NodeRec → Bool
other_attrs a b =
    not (a.mode == b.mode)
    || not (a.uid == b.uid)
    || not (a.gid == b.gid)
    || not (a.mtime == b.mtime)

other_content-SameContent : (a b : NodeRec) → other_content a b ≡ false → SameContent a b
other_content-SameContent a b h = ground (arith, bytes_eq-≡ a.blob b.blob)

SameContent-other_content : (a b : NodeRec) → SameContent a b → other_content a b ≡ false
SameContent-other_content a b s = ground (arith, bytes_eq_refl a.blob b.blob s.0, s.1, s.2)

other_attrs-SameAttrs : (a b : NodeRec) → other_attrs a b ≡ false → SameAttrs a b
other_attrs-SameAttrs a b h = ground arith

SameAttrs-other_attrs : (a b : NodeRec) → SameAttrs a b → other_attrs a b ≡ false
SameAttrs-other_attrs a b s = ground (arith, s.0, s.1, s.2, s.3)

compare_nodes-Explained :
    (a b : NodeRec) → a.nlink ≢ 0 → b.nlink ≢ 0 → Explained (compare_nodes a b) (some a) (some b)
unfolding compare_nodes
compare_nodes-Explained a b p q =
    pick (other_content a b) (other_attrs a b) (other_content-SameContent a b)
      (SameContent-other_content a b) (other_attrs-SameAttrs a b) (SameAttrs-other_attrs a b)
  where
    pick :
        (x y : Bool)
        → (x ≡ false → SameContent a b)
        → (SameContent a b → x ≡ false)
        → (y ≡ false → SameAttrs a b)
        → (SameAttrs a b → y ≡ false)
        → Explained
            (if x then some modified_content else if y then some modified_attrs else none)
            (some a)
            (some b)
    pick true y c d e f = (p, q, λ s. absurd (apart (d s)))
    pick false true c d e f = (p, q, c refl, λ s. absurd (apart (f s)))
    pick false false c d e f = inr (p, q, c refl, e refl)

node_change-Explained : (a b : Option NodeRec) → Explained (node_change a b) a b
unfolding node_change
node_change-Explained none none = inl (λ h. h, λ h. h)
node_change-Explained none (some b) = elim (Bool-cases (b.nlink == 0)) [
  | inl dead ↦ rw dead (inl (λ h. h, λ h. h (ground (arith, dead))))
  | inr linked ↦ rw linked (λ h. h, λ e. absurd (ground (arith, linked, e)))
]
node_change-Explained (some a) none = elim (Bool-cases (a.nlink == 0)) [
  | inl dead ↦ rw dead (inl (λ h. h (ground (arith, dead)), λ h. h))
  | inr linked ↦ rw linked (λ e. absurd (ground (arith, linked, e)), λ h. h)
]
node_change-Explained (some a) (some b) = elim (Bool-cases (a.nlink == 0)) [
  | inl dead ↦ elim (Bool-cases (b.nlink == 0)) [
    | inl gone ↦
        rw (dead, gone) (inl (λ h. h (ground (arith, dead)), λ h. h (ground (arith, gone))))
    | inr linked ↦
        rw (dead, linked) (λ h. h (ground (arith, dead)), λ e. absurd (ground (arith, linked, e)))
  ]
  | inr alive_a ↦ elim (Bool-cases (b.nlink == 0)) [
    | inl gone ↦
        rw (alive_a, gone) (λ e. absurd (ground (arith, alive_a, e)), λ h. h (ground (arith, gone)))
    | inr linked ↦
        let p : a.nlink ≢ 0 = λ e. absurd (ground (arith, alive_a, e)) in
        let q : b.nlink ≢ 0 = λ e. absurd (ground (arith, linked, e)) in
        rw (alive_a, linked) (compare_nodes-Explained a b p q)
  ]
]

same_change :
    (o : Option NodeChange) (c : NodeChange) (a b : Option NodeRec)
    → Explained o a b
    → Turned c a b
    → o ≡ some c
same_change none created a b (inl e) t = absurd (e.1 t.1)
same_change none created a b (inr e) t = absurd (t.0 e.0)
same_change none removed a b (inl e) t = absurd (e.0 t.0)
same_change none removed a b (inr e) t = absurd (t.1 e.1)
same_change none modified_content a b (inl e) t = absurd (e.0 t.0)
same_change none modified_content a b (inr e) t = absurd (t.2 e.2)
same_change none modified_attrs a b (inl e) t = absurd (e.0 t.0)
same_change none modified_attrs a b (inr e) t = absurd (t.3 e.3)
same_change (some created) created a b e t = refl
same_change (some created) removed a b e t = absurd (e.0 t.0)
same_change (some created) modified_content a b e t = absurd (e.0 t.0)
same_change (some created) modified_attrs a b e t = absurd (e.0 t.0)
same_change (some removed) created a b e t = absurd (t.0 e.0)
same_change (some removed) removed a b e t = refl
same_change (some removed) modified_content a b e t = absurd (e.1 t.1)
same_change (some removed) modified_attrs a b e t = absurd (e.1 t.1)
same_change (some modified_content) created a b e t = absurd (t.0 e.0)
same_change (some modified_content) removed a b e t = absurd (t.1 e.1)
same_change (some modified_content) modified_content a b e t = refl
same_change (some modified_content) modified_attrs a b e t = absurd (e.2 t.2)
same_change (some modified_attrs) created a b e t = absurd (t.0 e.0)
same_change (some modified_attrs) removed a b e t = absurd (t.1 e.1)
same_change (some modified_attrs) modified_content a b e t = absurd (t.2 e.2)
same_change (some modified_attrs) modified_attrs a b e t = refl

pub node_change-Turned :
    (c : NodeChange) (a b : Option NodeRec)
    → (node_change a b ≡ some c → Turned c a b) × (Turned c a b → node_change a b ≡ some c)
node_change-Turned c a b = (
  λ e. subst (λ o. Explained o a b) e (node_change-Explained a b),
  λ t. same_change (node_change a b) c a b (node_change-Explained a b) t,
)

with_id-listed :
    (i id : ℕ) (c : NodeChange) (o : Option NodeChange) (out : List (ℕ × NodeChange))
    → Memᴰ (i, c) (with_id id o out)
    → ((i ≡ id) × (o ≡ some c)) ⊎ Memᴰ (i, c) out
with_id-listed i id c none out m = inr m
with_id-listed i id c (some d) out m = elim (Memᴰ.cases_cons m) [
  | inl e ↦ inl (ap (λ (x : ℕ × NodeChange). x.0) e, cc)
  | inr rest ↦ inr rest
]

with_id-kept :
    (id : ℕ) (o : Option NodeChange) (x : ℕ × NodeChange) (out : List (ℕ × NodeChange))
    → Memᴰ x out
    → Memᴰ x (with_id id o out)
with_id-kept id none x out m = m
with_id-kept id (some d) x out m = Memᴰ.tail m

module _ (db : Db) (ra rb id : ℕ) (c : NodeChange) where
  abbrev change_of : ℕ → Option NodeChange
  change_of i = node_change (load_node db i ra) (load_node db i rb)

  diff_loop_sound :
      (ids : List ℕ) → Memᴰ (id, c) (diff_loop db ra rb ids) → Memᴰ id ids × (change_of id ≡ some c)
  unfolding diff_loop
  diff_loop_sound [] m = absurd (Memᴰ.not-nil m)
  diff_loop_sound (i ∷ ids) m =
      elim (with_id-listed id i c (change_of i) (diff_loop db ra rb ids) m) [
        | inl (e, f) ↦ (Memᴰ.head e, ap change_of e ∙ f)
        | inr rest ↦ let (n, f) = diff_loop_sound ids rest in (Memᴰ.tail n, f)
      ]

  diff_loop_complete :
      (ids : List ℕ) → Memᴰ id ids → change_of id ≡ some c → Memᴰ (id, c) (diff_loop db ra rb ids)
  unfolding diff_loop
  diff_loop_complete [] m e = absurd (Memᴰ.not-nil m)
  diff_loop_complete (i ∷ ids) m e = elim (Memᴰ.cases_cons m) [
    | inl same ↦
        let here : change_of i ≡ some c = ap change_of (sym same) ∙ e in
        rw here (Memᴰ.head (ap (λ (n : ℕ). (n, c)) same))
    | inr later ↦
        with_id-kept i (change_of i) (id, c) (diff_loop db ra rb ids)
          (diff_loop_complete ids later e)
  ]

-- `diff_nodes` lists a node with a change exactly where the node is a candidate and its records in
-- the two views say so: created where only the newer one is linked, removed where only the older one
-- is; with a link in both, modified in content where blob, spec or size differ, and in attributes
-- where these agree and mode, owner, group or modification time differ.
pub diff_nodes-Turned :
    (a b : ℕ) (s : Store) (id : ℕ) (c : NodeChange)
    → Memᴰ (id, c) (diff_nodes a b s)
      ↔ Memᴰ id (candidates s.db (rr s a) (rr s b))
        × Turned c (load_node s.db id (rr s a)) (load_node s.db id (rr s b))
unfolding diff_nodes
diff_nodes-Turned a b s id c =
    let ids = candidates s.db (rr s a) (rr s b) in
    let turned = node_change-Turned c (load_node s.db id (rr s a)) (load_node s.db id (rr s b)) in
    (
      λ m. let (n, e) = diff_loop_sound s.db (rr s a) (rr s b) id c ids m in (n, turned.0 e),
      λ p. diff_loop_complete s.db (rr s a) (rr s b) id c ids p.0 (turned.1 p.1),
    )
