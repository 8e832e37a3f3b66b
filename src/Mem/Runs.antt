-- ===== src/Mem/Runs.antt =====
-- Any sequence of calls on the reference store.
use prfs.Prelude.{List, [], ◌∷◌}
use prfs.Core.Record.{Error, ok}
use prfs.Core.Ops.{
  Op, creates, links, unlinks, moves, sets, sets_blob, sets_rdev, sets_seed, sets_config, sets_time,
  snapshots,
}
use prfs.Mem.{MemStore}
use prfs.Mem.Ops.{alloc, link, unlink, move, set_content_config, set_time}
use prfs.Mem.Attrs.{set_attr, set_blob, set_rdev, set_content_seed}
use prfs.Mem.History.{snapshot}

-- The store after a call, whatever it returns.
abbrev pub apply : Op → MemStore → MemStore
apply (creates t blob spec) s = (alloc t blob spec s).1
apply (links d name c) s = (link d name c s).1
apply (unlinks d name) s = (unlink d name s).1
apply (moves sd sn dd dn) s = (move sd sn dd dn s).1
apply (sets a h x) s = set_attr a h x s
apply (sets_blob h t blob) s = (set_blob h t blob s).1
apply (sets_rdev h maj min) s = (set_rdev h maj min s).1
apply (sets_seed h seed) s = (set_content_seed h seed s).1
apply (sets_config blob) s = set_content_config blob s
apply (sets_time t) s = set_time t s
apply (snapshots label) s = (snapshot label s).1

-- What a call returns; the creations and the setters without a result always succeed.
abbrev pub answer : Op → MemStore → Error
answer (links d name c) s = (link d name c s).0
answer (unlinks d name) s = (unlink d name s).0
answer (moves sd sn dd dn) s = (move sd sn dd dn s).0
answer (sets_blob h t blob) s = (set_blob h t blob s).0
answer (sets_rdev h maj min) s = (set_rdev h maj min s).0
answer (sets_seed h seed) s = (set_content_seed h seed s).0
answer _ s = ok

unfoldable pub run : List Op → MemStore → MemStore
run [] s = s
run (op ∷ ops) s = run ops (apply op s)
