-- ===== src/Di.antt =====
-- The registry of providers, include/prfs/di.hpp. An implementation is its address, and 0 is null.
pub mod Selection
use prfs.Prelude.{
  ℕ, Ordering, List, [], ◌∷◌, ◌++◌, ◌==◌, Bool, true, false, not, ◌||◌, Option, none, some,
  if◌then◌else◌, codes,
}
use prfs.Bytes.{Bytes, cmp, is_eq}

abbrev pub Key : Type 0
Key = Bytes × Bytes

-- The order of `std::pair`.
unfoldable pub cmp_key : Key → Key → Ordering
cmp_key (a, b) (c, d) = elim (cmp a c) [
  | Ordering.lt ↦ Ordering.lt
  | Ordering.eq ↦ cmp b d
  | Ordering.gt ↦ Ordering.gt
]

abbrev pub Impls : Type 0
Impls = List (Key × ℕ)

pub record Registry : Type 0 where
  pub map : Impls
  pub required : List Key

abbrev pub empty_registry : Registry
empty_registry = record { map = []; required = [] }

-- `m_map[k] = impl`
unfoldable pub insert : Key → ℕ → Impls → Impls
insert k p [] = (k, p) ∷ []
insert k p ((j, q) ∷ m) = elim (cmp_key j k) [
  | Ordering.lt ↦ (j, q) ∷ insert k p m
  | Ordering.eq ↦ (k, p) ∷ m
  | Ordering.gt ↦ (k, p) ∷ (j, q) ∷ m
]

unfoldable pub erase : Key → Impls → Impls
erase k [] = []
erase k ((j, q) ∷ m) = elim (cmp_key j k) [
  | Ordering.lt ↦ (j, q) ∷ erase k m
  | Ordering.eq ↦ m
  | Ordering.gt ↦ (j, q) ∷ m
]

-- `m_map.find(k)`, and null at the end
unfoldable pub find_impl : Key → Impls → ℕ
find_impl k [] = 0
find_impl k ((j, q) ∷ m) = elim (cmp_key j k) [
  | Ordering.lt ↦ find_impl k m
  | Ordering.eq ↦ q
  | Ordering.gt ↦ 0
]

-- `m_map.find(k) != m_map.end()`
unfoldable pub contains : Key → Impls → Bool
contains k [] = false
contains k ((j, q) ∷ m) = elim (cmp_key j k) [
  | Ordering.lt ↦ contains k m
  | Ordering.eq ↦ true
  | Ordering.gt ↦ false
]

unfoldable pub provide : Bytes → ℕ → Bytes → Registry → Registry
unfolding insert
provide id impl name r = record r { map = insert (id, name) impl r.map }

unfoldable pub withdraw : Bytes → Bytes → Registry → Registry
unfolding erase
withdraw id name r = record r { map = erase (id, name) r.map }

unfoldable pub try_resolve : Bytes → Bytes → Registry → ℕ
unfolding find_impl
try_resolve id name r = find_impl (id, name) r.map

-- `none` is the exception `Unresolved`.
unfoldable pub resolve : Bytes → Bytes → Registry → Option ℕ
unfolding try_resolve
resolve id name r = let p = try_resolve id name r in if p == 0 then none else some p

unfoldable pub has : Bytes → Bytes → Registry → Bool
unfolding find_impl
has id name r = not (find_impl (id, name) r.map == 0)

unfoldable pub require : Bytes → Bytes → Registry → Registry
require id name r = record r { required = r.required ++ ((id, name) ∷ []) }

unfoldable pub find_all : Bytes → Impls → List ℕ
find_all id [] = []
find_all id (((i, name), p) ∷ m) =
    let rest = find_all id m in if is_eq (cmp i id) then p ∷ rest else rest

unfoldable pub resolve_all : Bytes → Registry → List ℕ
unfolding find_all
resolve_all id r = find_all id r.map

unfoldable pub names : Bytes → Impls → List Bytes
names id [] = []
names id (((i, name), p) ∷ m) =
    let rest = names id m in if is_eq (cmp i id) then name ∷ rest else rest

-- `out.empty() || out.back() != id`, with the last id put out
abbrev pub is_new : Option Bytes → Bytes → Bool
is_new none id = true
is_new (some last) id = not (is_eq (cmp last id))

unfoldable pub ids : Option Bytes → Impls → List Bytes
ids last [] = []
ids last (((i, name), p) ∷ m) =
    let rest = ids (some i) m in if is_new last i then i ∷ rest else rest

abbrev pub separator : Bytes → Bytes
separator [] = []
separator (c ∷ missing) = codes ", "

abbrev pub describe : Key → Bytes
describe (id, []) = id
describe (id, c ∷ name) = id ++ (codes "[" ++ ((c ∷ name) ++ codes "]"))

unfoldable pub missing_loop : List Key → Impls → Bytes → Bytes
unfolding contains
missing_loop [] m missing = missing
missing_loop (k ∷ ks) m missing =
    missing_loop ks m
      (if contains k m then missing else missing ++ (separator missing ++ describe k))

abbrev pub report : Bytes → Option Bytes
report [] = none
report (c ∷ missing) = some (c ∷ missing)

-- `some` is the exception, with the names that it lists.
unfoldable pub require_all_resolved : Registry → Option Bytes
unfolding missing_loop
require_all_resolved r = report (missing_loop r.required r.map [])
