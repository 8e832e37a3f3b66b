-- ===== src/Names.antt =====
-- What a call does to the names of the live view, over both stores: the contract of `link`,
-- `unlink` and `move` in include/prfs/prfs.hpp.
use prfs.Prelude.{ℕ, ◌≡◌, ◌≢◌, ◌⊎◌, Bool, false, ◌&&◌, ◌==◌, Option, none, some, if◌then◌else◌}
use prfs.Bytes.{Bytes, cmp, is_eq}
use prfs.Core.Links.{snapshot_name}
use prfs.Core.Record.{Error, ok}
use prfs.Core.Store.{Handle, latest, is_snap_dir}
use prfs.Core.Ops.{Op, creates, links, unlinks, moves}

-- A handle of the live view.
abbrev pub live : ℕ → Handle
live id = record { id = id; snap = latest }

abbrev pub live_handle : Option ℕ → Option Handle
live_handle none = none
live_handle (some c) = some (live c)

abbrev pub same_name : ℕ → Bytes → ℕ → Bytes → Bool
same_name d name e n = (d == e) && is_eq (cmp name n)

-- What is found behind each name of each directory.
abbrev pub View : Type 0
View = ℕ → Bytes → Option Handle

-- The view after a call that succeeds: a link sets its name, an unlink clears it, a move does both
-- at once, and the other calls leave the names alone.
unfoldable pub after : Op → View → View
after (links d name c) m e n = if same_name d.id name e n then some (live c.id) else m e n
after (unlinks d name) m e n = if same_name d.id name e n then none else m e n
after (moves sd sn dd dn) m e n =
    if same_name sd.id sn e n then none else if same_name dd.id dn e n then m sd.id sn else m e n
after _ m e n = m e n

-- A name that is not synthesized.
abbrev pub IsPlain : ℕ → Bytes → Type 0
IsPlain d name = (is_snap_dir d ≡ false) × (is_eq (cmp name snapshot_name) ≡ false)

-- The name that a call takes away is not synthesized.
abbrev pub TakesPlain : Op → Type 0
TakesPlain (unlinks d name) = IsPlain d.id name
TakesPlain (moves sd sn dd dn) = IsPlain sd.id sn
TakesPlain _ = Unit

-- The call does not create the node `e`, where the next one has the id `next`.
abbrev pub MakesOther : Op → ℕ → ℕ → Type 0
MakesOther (creates t blob spec) next e = e ≢ next
MakesOther _ next e = Unit

-- The call succeeds and changes the live view as it should, or fails and leaves it as it was.
abbrev pub Refined : Op → Error → View → View → ℕ → Bytes → Type 0
Refined op e m m' d n = ((e ≡ ok) × (m' d n ≡ after op m d n)) ⊎ ((e ≢ ok) × (m' d n ≡ m d n))
