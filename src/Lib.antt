-- ===== src/Lib.antt =====
-- A model of prfs, a versioned synthetic filesystem, and theorems about it.
--
-- The program is a store of nodes and links under snapshots (src/core/prfs.cpp) over an ordered
-- key/value engine (include/prfs/kvstore.hpp), a provider that generates the bytes of files from a
-- seed (src/content/content.cpp), a registry through which engines, generators and providers are
-- found (include/prfs/di.hpp), and a host that serves front-ends with them (src/host/host.cpp).
-- The store writes versions of records under the key node and snapshot, and sets of links under
-- the node and the snapshot in which the set was last copied; a view at a snapshot reads the last
-- version that is not newer.
--
-- Which file models which part:
--   Bytes: byte strings in their order and the big-endian keys, `be` and `rdbe` of
--     src/core/prfs.cpp. Bytes/Order and Bytes/Encoding hold the lemmas.
--   Kv: the memory engine of src/storage/memory/kv.cpp, its maps and its cursors. Kv/Laws is about
--     reads after writes, Kv/Scan and Kv/Seek about cursors, Kv/Prefix about scans of a prefix.
--   Core/Record: `NodeRec` and its bytes. Core/Tables: `getMeta`, `putMeta`, `loadNode`, `storeNode`
--     and the scans. Core/Links: `ensureWritableDnLinks`, `ensureWritableUpLinks`, `reachable`,
--     `linkT`, `unlinkT`. Core/Store: the constructor, creation, `lookup`, `link`, `unlink`, `move`.
--     Core/Attrs: `readNode`, `mutateNode` and the accessors. Core/Views: `readdir`, `readdirPage`,
--     `parents`. Core/History: `snapshot`, `snapInfo`, `diffNodes`, `diffPaths`, `stats`.
--     Core/Ops: the mutations of `IPrfs` and `INode` as one type, and `run`, any sequence of them.
--   Core/Versions, Core/Loads: the versions of a node. Core/Writes, Core/Transactions: the table
--     writes that the operations are made of. Core/Isolation, Core/Invariant, Core/Sealed,
--     Core/Sealing: what a snapshot seals. Core/Names: the names under `.snapshot`. Core/Errors:
--     calls that are refused. Core/Reaching: the search for cycles. Core/Changes, Core/Candidates, Core/Diffs:
--     differences.
--     Core/Sequences: programs over the store that seal nothing. Core/Pages, Core/Cursors, Core/Cuts and
--     Core/Following: the pages of a listing.
--   Names: the contract of `link`, `unlink` and `move` of include/prfs/prfs.hpp, as a change of what
--     is found behind each name. Core/Namespace: `PrfsStore` against it. Its Keys and Copies are
--     about the tables of links and their copies, Live and Changes about the live map that these
--     stand for, Writable, Transactions, Refines and Moves about the operations, Invariant and
--     Reached about sequences of calls, Lookups and Refinement about what `lookup` finds.
--     Core/Latest: snapshots past the newest versions.
--   Mem: the reference store of src/reference/memstore.cpp, its state and private helpers. Mem/Ops:
--     creation, `lookup`, `link`, `unlink`, `move`, `reachable`. Mem/Attrs: the accessors and
--     setters. Mem/Views: `readdir`, `readdirPage`, `parents`. Mem/History: `snapshot`, `snapInfo`,
--     `diffNodes`, `diffPaths`, `stats`. Mem/Runs: sequences of calls. Mem/Intervals, Mem/Listings,
--     Mem/Kept, Mem/Invariant and Mem/Steps: what a call does to versions, intervals and names.
--     Mem/Isolation: sealed snapshots. Mem/Lookups and Mem/Refinement: the contract of the names.
--     Mem/Reaching: the search for cycles.
--   Agreement: the two stores side by side.
--   Content: src/content/content.cpp, with its policy in Content/Config, the bytes of a block in
--     Content/Blocks, ranged reads in Content/Rounds and Content/RandomAccess, and its provider in
--     Content/Provider.
--   Nfsv3: plugins/nfsv3/nfsv3.cpp, the reader of XDR and its writer. Nfsv3/Attrs: attributes,
--     statuses, seeds and cookies. Nfsv3/Procs: GETATTR, READLINK, LOOKUP, ACCESS, WRITE, REMOVE,
--     RMDIR, RENAME and LINK. Nfsv3/Creates: `applySattr`, SETATTR, the creations and COMMIT.
--     Nfsv3/Dirs: the cookies remembered, `pageDir`, READDIR and READDIRPLUS. Nfsv3/Calls: READ,
--     FSSTAT, FSINFO, PATHCONF, the MOUNT program, and `nfsCall`. Nfsv3/Server: `dispatch`, `reply`
--     and `session`, and `serve`, messages in the order in which their calls run.
--     Nfsv3/RoundTrip: what is written is read back. Nfsv3/Seeds: the seed of a write, in the store.
--     Nfsv3/ReadOnly: handles of snapshots. Nfsv3/Bounds: ranges of what is read.
--     Nfsv3/Programs, Nfsv3/Making, Nfsv3/Queries and Nfsv3/Effects: what the calls do to the
--     store. Nfsv3/Filling and Nfsv3/Paging: listings. Nfsv3/Streams: frames, and the messages of a session.
--   FsStat: src/nfs/fsstat.cpp and include/prfs/fsstat.hpp.
--   Di: include/prfs/di.hpp; Di/Selection: the choices of src/core/open.cpp, src/rng/rng.cpp and
--     src/content/content.cpp.
--   Host: src/host/host.cpp, without the loading of shared objects.
--   Tests: the theorems at concrete inputs.
--
-- How it is modelled. The store is a record of the members of `PrfsStore` and of the six tables, a
-- node is the handle of an id and a snapshot, and an operation is a function of the store to its
-- result and the store after it. Integers of the source are natural numbers, with the remainder by
-- 2 ^ 64 or 2 ^ 32 written where the source may wrap. Bytes are numbers. A `std::map` is the list
-- of its entries in order (Prelude/Maps for those of the reference store). Addresses of the
-- registry are numbers, 0 being null.
--
-- Fuel. `reachable` has one unit for each entry of the link table and two more, since an entry is
-- pushed once at most, by its own directory; that of the reference store has one for each listed
-- name and two more. The loop of a block has as many rounds as the block has groups of 16 bytes
-- and two more; a read has as many rounds as its range has blocks.
--
-- The search for a cookie's name has a round for each snapshot and each entry of the link table and
-- one more, since a page's last name stands behind the name that it begins after; the loop of a
-- listing has one for each byte that the client asks for and one more, since an entry takes some of
-- them; a session has one for each message and one more.
--
-- The NFSv3 server runs one call at a time: the host's lock is held exclusively by the calls that
-- change the store and shared by the others. Reads past the end of a message, whose behaviour is not
-- defined, end what is modelled.
--
-- Outside the model: Random123 (`generate`) and `lround(pow(..))` are parameters; the LMDB engine
-- and the loader are calls of other libraries; sockets and threads of the NFSv3 front-end, the NFSv4
-- front-end, the Lua bindings and the other plugins are not modelled.
-- Errors of the operating system, and concurrency but for the order of calls, are left aside.
pub mod Agreement
pub mod Bytes
pub mod Content
pub mod Core
pub mod Di
pub mod FsStat
pub mod Host
pub mod Kv
pub mod Mem
pub mod Names
pub mod Nfsv3
pub mod Prelude
pub mod Tests
