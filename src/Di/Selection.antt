-- ===== src/Di/Selection.antt =====
-- The run-wide choices of a provider by name: the storage engine of src/core/open.cpp, the
-- generator of src/rng/rng.cpp and the content provider of src/content/content.cpp. A build's
-- default names are parameters.
use prfs.Prelude.{
  ℕ, [], ◌∷◌, ◌≡◌, Bool-cases, inl, inr, ◌⊎◌, Option, none, some, if◌then◌else◌, codes, List, ◌==◌,
}
use prfs.Bytes.{Bytes}
use prfs.Di.{Registry, has, resolve, names, find_impl, try_resolve}

abbrev pub engine_id : Bytes
engine_id = codes "prfs.engine/1"

abbrev pub rng_id : Bytes
rng_id = codes "prfs.rng/1"

abbrev pub content_id : Bytes
content_id = codes "prfs.content/1"

-- `s.empty() ? default : s`
unfoldable pub selected : Bytes → Bytes → Bytes
selected dflt [] = dflt
selected dflt (c ∷ s) = c ∷ s

-- `none` is the exception `std::out_of_range`; else the name that is kept.
unfoldable pub select : Bytes → Bytes → Registry → Option Bytes
unfolding has
select id name r = if has id name r then some name else none

abbrev pub storage_engine : Bytes → Bytes → Bytes
storage_engine dflt s = selected dflt s

abbrev pub set_storage_engine : Bytes → Registry → Option Bytes
set_storage_engine name r = select engine_id name r

-- The engine that `openPrfs` opens the store over.
abbrev pub open_prfs_engine : Bytes → Bytes → Registry → Option ℕ
open_prfs_engine dflt s r = resolve engine_id (storage_engine dflt s) r

abbrev pub active : Bytes → Bytes → Bytes
active dflt s = selected dflt s

abbrev pub set_active : Bytes → Registry → Option Bytes
set_active name r = select rng_id name r

abbrev pub active_rng : Bytes → Bytes → Registry → Option ℕ
active_rng dflt s r = resolve rng_id (active dflt s) r

abbrev pub rng_names : Registry → List Bytes
rng_names r = names rng_id r.map

abbrev pub provider : Bytes → Bytes
provider s = selected (codes "config") s

abbrev pub set_provider : Bytes → Registry → Option Bytes
set_provider name r = select content_id name r

abbrev pub active_provider : Bytes → Registry → Option ℕ
active_provider s r = resolve content_id (provider s) r

-- Choosing a provider by a name that is not empty fails where the name does not resolve, and else
-- succeeds, and the choice then resolves to the provider of that name, whatever the build's default.
pub selected-select :
    (id dflt name : Bytes) (c : ℕ) (r : Registry)
    → (select id (c ∷ name) r ≡ none) × (resolve id (c ∷ name) r ≡ none)
      ⊎ (s : Bytes) × (select id (c ∷ name) r ≡ some s)
        × (resolve id (selected dflt s) r ≡ some (try_resolve id (c ∷ name) r))
unfolding select selected resolve has try_resolve
selected-select id dflt name c r = elim (Bool-cases (find_impl (id, c ∷ name) r.map == 0)) [
  | inl absent ↦ inl (rw absent, rw absent)
  | inr present ↦ inr (c ∷ name, rw present, rw present)
]
