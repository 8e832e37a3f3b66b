-- ===== src/Nfsv3/ReadOnly.antt =====
-- Requests that name a view of a snapshot change nothing.
use prfs.Prelude.{◌≡◌}
use prfs.Bytes.{Bytes}
use prfs.Core.Store.{Store}
use prfs.Nfsv3.Procs.{Reply, undefined, ended, replied}

-- A reply leaves the store as it was, where the code says what it leaves.
abbrev pub Keeps : Store → Reply → Type 0
Keeps s undefined = Unit
Keeps s ended = Unit
Keeps s (replied st w t) = t ≡ s
