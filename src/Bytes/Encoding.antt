-- ===== src/Bytes/Encoding.antt =====
-- The big-endian encoding keeps numbers and their order.
use prfs.Prelude.{
  drop, zero, suc, ℕ, ◌+◌, ◌*◌, ◌<◌, ◌≡◌, refl, sym, ap, ◌∙◌, [], ◌∷◌, ◌++◌, compare, length, All,
  arith,
}
use prfs.Bytes.{rdbe_loop, Bytes, u64, be, rdbe, cmp}

-- The number that a byte string stands for after the digits of `x`.
pub val : Bytes → ℕ → ℕ
val [] x = x
val (b ∷ s) x = val s (x * 256 + b)

abbrev pub IsByte : ℕ → Type 0
IsByte b = b < 256

pub val-be : (c x : ℕ) (s : Bytes) → x < u64 → val (be x ++ s) c ≡ val s (c * u64 + x)
unfolding val be
val-be c x s h = ap (val s) (omega arith)

pub rdbe-be : (x : ℕ) (s : Bytes) → x < u64 → rdbe (be x ++ s) ≡ x
unfolding rdbe be
rdbe-be x s h = omega arith

val_lt :
    (a b : Bytes) (x y : ℕ)
    → length a ≡ length b
    → All IsByte a
    → All IsByte b
    → x < y
    → val a x < val b y
unfolding val
val_lt [] [] x y l p q h = h
val_lt [] (d ∷ b) x y l p q h = absurd (omega arith)
val_lt (c ∷ a) [] x y l p q h = absurd (omega arith)
val_lt (c ∷ a) (d ∷ b) x y l p q h =
    val_lt a b (x * 256 + c) (y * 256 + d) (omega arith) p.1 q.1 (omega arith)

-- Strings of one length are ordered as the numbers that they stand for.
cmp-val :
    (a b : Bytes) (x : ℕ)
    → length a ≡ length b
    → All IsByte a
    → All IsByte b
    → cmp a b ≡ compare (val a x) (val b x)
unfolding val cmp
cmp-val [] [] x l p q = ground arith
cmp-val [] (d ∷ b) x l p q = absurd (omega arith)
cmp-val (c ∷ a) [] x l p q = absurd (omega arith)
cmp-val (c ∷ a) (d ∷ b) x l p q = ground (
  arith,
  cmp-val a b (x * 256 + c) (omega arith) p.1 q.1,
  val_lt a b (x * 256 + c) (x * 256 + d) (omega arith) p.1 q.1,
  val_lt b a (x * 256 + d) (x * 256 + c) (omega arith) q.1 p.1,
)

val-be_last : (c x : ℕ) → x < u64 → val (be x) c ≡ c * u64 + x
unfolding val be
val-be_last c x h = omega arith

-- The number that the key `be(id) + be(snap)` stands for.
val-key : (i s : ℕ) → i < u64 → s < u64 → val (be i ++ be s) 0 ≡ i * u64 + s
val-key i s hi hs = val-be 0 i (be s) hi ∙ val-be_last (0 * u64 + i) s hs ∙ omega arith

length-be : (i s : ℕ) → length (be i ++ be s) ≡ 16
unfolding be
length-be i s = refl

be-IsByte : (i s : ℕ) → All IsByte (be i ++ be s)
unfolding be
be-IsByte i s = omega arith

-- The keys of two numbers below 2 ^ 64 each are ordered as bytes as the numbers that they stand for,
-- by the first number and then by the second.
pub cmp-be :
    (i s j t : ℕ)
    → i < u64
    → s < u64
    → j < u64
    → t < u64
    → cmp (be i ++ be s) (be j ++ be t) ≡ compare (i * u64 + s) (j * u64 + t)
cmp-be i s j t hi hs hj ht = rw (
  cmp-val (be i ++ be s) (be j ++ be t) 0 (length-be i s ∙ sym (length-be j t)) (be-IsByte i s)
      (be-IsByte j t),
  val-key i s hi hs,
  val-key j t hj ht,
)

pub length-be_one : (x y : ℕ) → length (be x) ≡ length (be y)
unfolding be
length-be_one x y = refl

be_one-IsByte : (x : ℕ) → All IsByte (be x)
unfolding be
be_one-IsByte x = omega arith

-- The bytes of two numbers are ordered as the numbers.
pub cmp-be_one : (x y : ℕ) → x < u64 → y < u64 → cmp (be x) (be y) ≡ compare x y
cmp-be_one x y hx hy =
    let left : val (be x) 0 ≡ x = val-be_last 0 x hx ∙ omega arith in
    let right : val (be y) 0 ≡ y = val-be_last 0 y hy ∙ omega arith in
    cmp-val (be x) (be y) 0 (length-be_one x y) (be_one-IsByte x) (be_one-IsByte y)
    ∙ ap (λ (n : ℕ). compare n (val (be y) 0)) left
    ∙ ap (compare x) right

pub be-injective : (x y : ℕ) (s t : Bytes) → x < u64 → y < u64 → be x ++ s ≡ be y ++ t → x ≡ y
be-injective x y s t hx hy e = sym (rdbe-be x s hx) ∙ ap rdbe e ∙ rdbe-be y t hy

rdbe_loop-lt : (n : ℕ) (p : Bytes) (x : ℕ) → x < u64 → rdbe_loop n p x < u64
unfolding rdbe_loop
rdbe_loop-lt zero p x h = h
rdbe_loop-lt (suc n) [] x h = h
rdbe_loop-lt (suc n) (b ∷ p) x h = rdbe_loop-lt n p _ (omega arith)

pub rdbe-lt : (p : Bytes) → rdbe p < u64
unfolding rdbe
rdbe-lt p = rdbe_loop-lt 8 p 0 (omega arith)

pub drop-be : (x : ℕ) (s : Bytes) → drop 8 (be x ++ s) ≡ s
unfolding be
drop-be x s = refl

pub be-append : (x y : ℕ) (s : Bytes) → (be x ++ be y) ++ s ≡ be x ++ (be y ++ s)
unfolding be
be-append x y s = refl
