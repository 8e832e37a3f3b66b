-- ===== src/Kv.antt =====
-- The ordered key/value engine: include/prfs/kvstore.hpp and src/storage/memory/kv.cpp.
-- A `std::map` is the list of its entries in key order, and a `MemCursor` is that list cut in two
-- at the iterator. Writes of a transaction apply directly, as in the memory engine.
pub mod Laws
pub mod Scan
pub mod Seek
pub mod Prefix
use prfs.Prelude.{ℕ, Ordering, List, [], ◌∷◌, ◌++◌, Bool, true, false, Option, none, some}
use prfs.Bytes.{Bytes, cmp}

abbrev pub Entry : Type 0
Entry = Bytes × Bytes

abbrev pub Map : Type 0
Map = List Entry

-- `m.find(key)`, down the order: past the place of `key` there is no need to look.
unfoldable pub find : Bytes → Map → Option Bytes
find k [] = none
find k ((j, w) ∷ m) = elim (cmp j k) [
  | Ordering.lt ↦ find k m
  | Ordering.eq ↦ some w
  | Ordering.gt ↦ none
]

-- `m[key] = v`
unfoldable pub put : Bytes → Bytes → Map → Map
put k v [] = (k, v) ∷ []
put k v ((j, w) ∷ m) = elim (cmp j k) [
  | Ordering.lt ↦ (j, w) ∷ put k v m
  | Ordering.eq ↦ (k, v) ∷ m
  | Ordering.gt ↦ (k, v) ∷ (j, w) ∷ m
]

-- `it = m.find(key); if (it != m.end()) m.erase(it);`
unfoldable pub del : Bytes → Map → Map
del k [] = []
del k ((j, w) ∷ m) = elim (cmp j k) [
  | Ordering.lt ↦ (j, w) ∷ del k m
  | Ordering.eq ↦ m
  | Ordering.gt ↦ (j, w) ∷ m
]

-- The entries before the iterator, nearest first, and those from it on; at `end()` there are none.
pub record Cursor : Type 0 where
  pub before : Map
  pub here : Map

abbrev pub nonempty : Map → Bool
nonempty [] = false
nonempty (e ∷ m) = true

abbrev pub is_valid : Cursor → Bool
is_valid c = nonempty c.here

-- `lower_bound(k)`: the first key that is not below `k`
unfoldable pub seek_from : Bytes → Map → Map → Cursor
seek_from k b [] = record { before = b; here = [] }
seek_from k b ((j, w) ∷ m) = elim (cmp j k) [
  | Ordering.lt ↦ seek_from k ((j, w) ∷ b) m
  | _ ↦ record { before = b; here = (j, w) ∷ m }
]

unfoldable pub seek : Bytes → Map → Cursor
unfolding seek_from
seek k m = seek_from k [] m

unfoldable pub first : Map → Cursor
first m = record { before = []; here = m }

-- `std::prev(m.end())`, or `end()` of an empty map
unfoldable pub last_from : Map → Map → Cursor
last_from b [] = record { before = b; here = [] }
last_from b (e ∷ []) = record { before = b; here = e ∷ [] }
last_from b (e ∷ f ∷ m) = last_from (e ∷ b) (f ∷ m)

unfoldable pub last : Map → Cursor
unfolding last_from
last m = last_from [] m

-- `if (m_it != end()) ++m_it;`
unfoldable pub step_next : Map → Map → Cursor
step_next b [] = record { before = b; here = [] }
step_next b (e ∷ m) = record { before = e ∷ b; here = m }

unfoldable pub next : Cursor → Cursor
unfolding step_next
next c = step_next c.before c.here

-- `end()`
unfoldable pub end_from : Map → Map → Cursor
end_from b [] = record { before = b; here = [] }
end_from b (e ∷ m) = end_from (e ∷ b) m

-- `if (m_it == begin()) m_it = end(); else --m_it;`
unfoldable pub step_prev : Map → Map → Cursor
unfolding end_from
step_prev [] h = end_from [] h
step_prev (e ∷ b) h = record { before = b; here = e ∷ h }

unfoldable pub prev : Cursor → Cursor
unfolding step_prev
prev c = step_prev c.before c.here

-- `m_it->first` and `m_it->second`, which the callers read only where the cursor is valid
abbrev pub head : Map → Option Entry
head [] = none
head (e ∷ m) = some e

abbrev pub entry : Cursor → Option Entry
entry c = head c.here
