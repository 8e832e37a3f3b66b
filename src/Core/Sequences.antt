-- ===== src/Core/Sequences.antt =====
-- Programs over the store: what leads from one store to another by calls that seal nothing.
use prfs.Prelude.{ℕ, ◌+◌, ◌<◌, ◌≡◌, refl, ap, ◌∙◌, subst, List, [], ◌∷◌, ◌++◌, arith, false, All}
use prfs.Bytes.{u64}
use prfs.Core.Store.{Store, latest, is_snap_dir}
use prfs.Core.Ops.{Op, apply, run, InRange, StoreOk}
use prfs.Core.Invariant.{is_snapshot, apply-Made, Made-StoreOk}
use prfs.Core.Isolation.{SameView}
use prfs.Core.Sealed.{apply-SameView, SameView-trans, SameView-refl}

abbrev pub Unsealing : Op → Type 0
Unsealing op = is_snapshot op ≡ false

-- `t` is what calls with arguments in range, and without a `snapshot`, make of `s`.
pub record Runs (s t : Store) : Type 0 where
  pub ops : List Op
  pub ranges : All InRange ops
  pub unsealing : All Unsealing ops
  pub end : run ops s ≡ t
  pub same_cur : t.cur ≡ s.cur
  pub after : StoreOk t

All-append {ℓ} :
    {A : Type ℓ} (P : A → Type 0) (xs ys : List A) → All P xs → All P ys → All P (xs ++ ys)
All-append P [] ys a b = b
All-append P (x ∷ xs) ys a b = (a.0, All-append P xs ys a.1 b)

run-append : (xs ys : List Op) (s : Store) → run (xs ++ ys) s ≡ run ys (run xs s)
unfolding run
run-append [] ys s = refl
run-append (x ∷ xs) ys s = run-append xs ys (apply x s)

pub Runs-none : (s : Store) → StoreOk s → Runs s s
unfolding run
Runs-none s k = record {
  ops = [];
  ranges = tt;
  unsealing = tt;
  end = refl;
  same_cur = refl;
  after = k;
}

pub Runs-one :
    (op : Op) (s : Store) → StoreOk s → InRange op → is_snapshot op ≡ false → Runs s (apply op s)
unfolding run
Runs-one op s k h other =
    let made = apply-Made op s k h other in
    record {
      ops = op ∷ [];
      ranges = (h, tt);
      unsealing = (other, tt);
      end = refl;
      same_cur = made.same_cur;
      after = Made-StoreOk s (apply op s) k made;
    }

pub Runs-trans : {s t u : Store} → Runs s t → Runs t u → Runs s u
Runs-trans {s} f g = record {
  ops = f.ops ++ g.ops;
  ranges = All-append InRange f.ops g.ops f.ranges g.ranges;
  unsealing = All-append Unsealing f.ops g.ops f.unsealing g.unsealing;
  end = run-append f.ops g.ops s ∙ ap (run g.ops) f.end ∙ g.end;
  same_cur = g.same_cur ∙ f.same_cur;
  after = g.after;
}

-- Where no call seals, the counter does not limit the length of a program.
run-Unsealing-SameView :
    (ops : List Op) (s : Store) (n id : ℕ)
    → StoreOk s
    → All InRange ops
    → All Unsealing ops
    → s.cur + 1 < latest
    → n < s.cur
    → id < u64
    → is_snap_dir id ≡ false
    → SameView n id s (run ops s)
unfolding run
run-Unsealing-SameView [] s n id k h u room before hid real = SameView-refl n id s
run-Unsealing-SameView (op ∷ ops) s n id k h u room before hid real =
    let one = Runs-one op s k h.0 u.0 in
    SameView-trans (apply-SameView op s n id k h.0 room before hid real) (
      run-Unsealing-SameView ops (apply op s) n id one.after h.1 u.1 (omega (arith, one.same_cur))
        (omega (arith, one.same_cur)) hid real)

pub Runs-SameView :
    {s t : Store} (n id : ℕ)
    → StoreOk s
    → Runs s t
    → s.cur + 1 < latest
    → n < s.cur
    → id < u64
    → is_snap_dir id ≡ false
    → SameView n id s t
Runs-SameView {s} n id k f room before hid real =
    subst (λ t. SameView n id s t) f.end
      (run-Unsealing-SameView f.ops s n id k f.ranges f.unsealing room before hid real)
