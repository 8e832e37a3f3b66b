-- ===== src/Bytes.antt =====
-- Byte strings: src/core/prfs.cpp's key encoding (`be`, `rdbe`) and the order of `std::string`.
-- A byte is a number below 256, and a `uint64_t` is a number below 2 ^ 64.
pub mod Order
pub mod Encoding
use prfs.Prelude.{
  ℕ, zero, suc, ◌+◌, ◌*◌, ◌/◌, ◌%◌, ◌^◌, Ordering, compare, List, [], ◌∷◌, Bool, true, false,
}

abbrev pub Bytes : Type 0
Bytes = List ℕ

abbrev pub u8 : ℕ
u8 = 2 ^ 8

abbrev pub u32 : ℕ
u32 = 2 ^ 32

abbrev pub u64 : ℕ
u64 = 2 ^ 64

-- `for (int i = 7; i >= 0; --i) { s[i] = char(x & 0xff); x >>= 8; }`, with the bytes already set.
unfoldable pub be_loop : ℕ → ℕ → Bytes → Bytes
be_loop zero x s = s
be_loop (suc i) x s = be_loop i (x / 256) ((x % 256) ∷ s)

unfoldable pub be : ℕ → Bytes
unfolding be_loop
be x = be_loop 8 x []

-- `x = (x << 8) | b[i]` on a `uint64_t`, of an `unsigned char`: the low byte of the shifted word is clear. A pointer past
-- the end, which the callers exclude, stops the loop.
unfoldable pub rdbe_loop : ℕ → Bytes → ℕ → ℕ
rdbe_loop zero p x = x
rdbe_loop (suc n) [] x = x
rdbe_loop (suc n) (b ∷ p) x = rdbe_loop n p (x * 256 % u64 + b % 256)

unfoldable pub rdbe : Bytes → ℕ
unfolding rdbe_loop
rdbe p = rdbe_loop 8 p 0

-- The order of `std::string`: bytes as `unsigned char`, a proper prefix first.
unfoldable pub cmp : Bytes → Bytes → Ordering
cmp [] [] = Ordering.eq
cmp [] (b ∷ bs) = Ordering.lt
cmp (a ∷ as') [] = Ordering.gt
cmp (a ∷ as') (b ∷ bs) = elim (compare a b) [
  | Ordering.lt ↦ Ordering.lt
  | Ordering.eq ↦ cmp as' bs
  | Ordering.gt ↦ Ordering.gt
]

abbrev pub is_eq : Ordering → Bool
is_eq Ordering.eq = true
is_eq _ = false

abbrev pub is_lt : Ordering → Bool
is_lt Ordering.lt = true
is_lt _ = false

-- `memcmp(k.data(), pfx.data(), pfx.size()) == 0` and `k.size() >= pfx.size()`.
unfoldable pub has_prefix : Bytes → Bytes → Bool
has_prefix [] k = true
has_prefix (p ∷ ps) [] = false
has_prefix (p ∷ ps) (b ∷ k) = elim (compare p b) [ Ordering.eq ↦ has_prefix ps k | _ ↦ false ]
