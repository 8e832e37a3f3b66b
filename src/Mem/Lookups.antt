-- ===== src/Mem/Lookups.antt =====
-- What `lookup` of `MemStore` finds after each call.
use prfs.Prelude.{
  ℕ, ◌+◌, ◌<◌, ◌≤◌, ◌≡◌, refl, sym, ap, ◌∙◌, List, [], ◌∷◌, Bool, true, false, inl, inr, Option,
  none, some, if◌then◌else◌, arith, length, same, nat_order,
}
use prfs.Bytes.{Bytes, u64}
use prfs.Core.Store.{Handle, latest}
use prfs.Core.Ops.{Op, links, unlinks}
use prfs.Names.{live, live_handle, same_name, View, after, IsPlain, Refined}
use prfs.Mem.{MemStore, LinkKey, link_key_order, link_live_at}
use prfs.Mem.Ops.{link, unlink, lookup, to_handle}
use prfs.Mem.History.{snapshot}
use prfs.Mem.Runs.{apply, run}
use prfs.Mem.Invariant.{MemOk, Sets, live_at, add_link-Sets, remove_link-Sets, snapshot-MemOk}
use prfs.Mem.Steps.{Steps, done, more, apply-Steps, link-Outcome, unlink-Outcome}
use prfs.Mem.Isolation.{Step-same_cur, Step-MemOk}

abbrev StepsOk : MemStore → MemStore → Type 0
StepsOk a b = (b.cur ≡ a.cur) × MemOk b

Steps-MemOk : {a b : MemStore} → Steps a b → MemOk a → StepsOk a b
Steps-MemOk done k = (refl, k)
Steps-MemOk (more w t) k =
    let (same_cur, k') = Steps-MemOk w k in (Step-same_cur t ∙ same_cur, Step-MemOk t k')

pub apply-MemOk :
    (op : Op) (s : MemStore)
    → MemOk s
    → s.cur + 1 < u64
    → ((apply op s).cur ≤ s.cur + 1) × MemOk (apply op s)
unfolding snapshot
apply-MemOk op s k room = elim (apply-Steps op s) [
  | inl w ↦ let (same_cur, k') = Steps-MemOk w k in (omega (arith, same_cur), k')
  | inr (label, e) ↦ rw e (omega arith, snapshot-MemOk s k label room)
]

-- Any sequence of calls on the reference store that leaves the snapshot counter below 2 ^ 64 keeps
-- its links well-formed: their intervals begin and end by the current snapshot and one of a name at
-- most is open, and each name with intervals is listed; and the counter grows by a call by one at
-- most.
pub run-MemOk :
    (ops : List Op) (s : MemStore)
    → MemOk s
    → s.cur + length ops < u64
    → MemOk (run ops s) × ((run ops s).cur ≤ s.cur + length ops)
unfolding run
run-MemOk [] s k room = (k, omega arith)
run-MemOk (op ∷ ops) s k room =
    let (small, k') = apply-MemOk op s k (omega arith) in
    let (k2, small2) = run-MemOk ops (apply op s) k' (omega arith) in (k2, omega arith)

-- The order of the keys tells the names apart.
same-same_name :
    (d e : ℕ) (name n : Bytes) → same {K = LinkKey} (d, name) (e, n) ≡ same_name d name e n
same-same_name d e name n = ground arith

pub lookup-live_at :
    (e : ℕ) (n : Bytes) (s : MemStore)
    → IsPlain e n
    → lookup (live e) n s ≡ live_handle (live_at s (e, n))
unfolding lookup link_live_at
lookup-live_at e n s (real, plain) = rw (real, plain) (through (live_at s (e, n)))
  where
    through : (o : Option ℕ) → to_handle latest o ≡ live_handle o
    through none = refl
    through (some c) = refl

abbrev pub view : MemStore → View
view s e n = lookup (live e) n s

module _ (s : MemStore) (k : MemOk s) (e : ℕ) (n : Bytes) (plain : IsPlain e n) where
  pub view-Sets :
      (d : ℕ) (name : Bytes) (x : Option ℕ) (t : MemStore)
      → Sets (d, name) x s t
      → view t e n ≡ (if same_name d name e n then live_handle x else view s e n)
  view-Sets d name x t u =
      lookup-live_at e n t plain
      ∙ ap live_handle (u.live (e, n))
      ∙ ap (λ (b : Bool). live_handle (if b then x else live_at s (e, n)))
          (same-same_name d e name n)
      ∙ through (same_name d name e n)
    where
      through :
          (b : Bool)
          → live_handle (if b then x else live_at s (e, n))
            ≡ (if b then live_handle x else view s e n)
      through true = refl
      through false = sym (lookup-live_at e n s plain)

  pub link-Refined :
      (d : Handle) (name : Bytes) (c : Handle)
      → Refined (links d name c) (link d name c s).0 (view s) (view (link d name c s).1) e n
  unfolding after
  link-Refined d name c = elim (link-Outcome d name c s) [
    | inl (r, free) ↦
        rw r (inl (refl, view-Sets d.id name (some c.id) _ (add_link-Sets s k d.id name c.id free)))
    | inr (bad, r) ↦ inr (bad, ap (λ t. view t e n) r)
  ]

  pub unlink-Refined :
      (d : Handle) (name : Bytes)
      → Refined (unlinks d name) (unlink d name s).0 (view s) (view (unlink d name s).1) e n
  unfolding after
  unlink-Refined d name = elim (unlink-Outcome d name s) [
    | inl (missing, r) ↦ rw r (inr (λ h. cc, refl))
    | inr (c, there, r) ↦
        rw r (inl (refl, view-Sets d.id name none _ (remove_link-Sets s k d.id name c)))
  ]
