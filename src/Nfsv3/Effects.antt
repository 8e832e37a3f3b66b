-- ===== src/Nfsv3/Effects.antt =====
-- What the NFSv3 front-end's calls do to the store: programs over it where they take the host's lock
-- for themselves, and nothing where they share it.
use prfs.Prelude.{
  ℕ, ◌+◌, ◌%◌, ◌<◌, ◌≡◌, refl, [], ◌∷◌, List, ◌==◌, ◌&&◌, Bool, true, false, Option, none, some,
  arith, not, if◌then◌else◌, Bool-cases, inl, inr,
}
use prfs.Bytes.{Bytes, u64}
use prfs.Core.Store.{Store, latest, is_snap_dir}
use prfs.Core.Isolation.{SameView}
use prfs.Core.Ops.{StoreOk, sets_time}
use prfs.Core.Invariant.{is_snapshot}
use prfs.Core.Sequences.{Runs, Runs-none, Runs-one, Runs-trans, Runs-SameView}
use prfs.Content.{ContentConfig}
use prfs.Host.{Host, ProviderRead}
use prfs.Nfsv3.{Reader, Cred, read_u32, read_cred, skip_auth}
use prfs.Nfsv3.Bounds.{CredFits, if-Holds, read_cred-Fits}
use prfs.Nfsv3.Procs.{Reply, undefined, ended, replied, stored}
use prfs.Nfsv3.Dirs.{Cookies}
use prfs.Nfsv3.Calls.{
  Proc, null, getattr, setattr, lookup, access, readlink, read, write, create, mkdir, symlink,
  mknod, remove, rmdir, rename, link, readdir, readdirplus, fsstat, fsinfo, pathconf, commit,
  is_mutating, fsstat_body, fsinfo_body, pathconf_body, nfs_fsstat, nfs_fsinfo, nfs_pathconf,
  nfs_call, nth_proc, numbered,
}
use prfs.Nfsv3.Server.{
  Server, advanced, Outcome, lost, thrown, answered, settled, exclusive, run_call, dispatch, reply,
  Step, unknown, closes, sends, after_step, if_known, serve_message, serve,
}
use prfs.Nfsv3.Programs.{
  nfs_remove-Runs, nfs_rmdir-Runs, nfs_rename-Runs, nfs_link-Runs, nfs_write-Runs,
}
use prfs.Nfsv3.Making.{
  nfs_setattr-Runs, nfs_create-Runs, nfs_mkdir-Runs, nfs_symlink-Runs, nfs_mknod-Runs,
}
use prfs.Nfsv3.Queries.{
  nfs_getattr-kept, nfs_lookup-kept, nfs_access-kept, nfs_readlink-kept, nfs_read-kept,
  nfs_readdir-kept, nfs_readdir_plus-kept, node_reply-kept, nfs_commit-kept, mount_call-kept,
}

module _ (policy : Option ContentConfig) (generate : ProviderRead) (chosen : Bytes) where
  query-kept :
      (P : Store → Type 0) (proc : Option Proc) (cred : Cred) (r : Reader) (h : Host) (m : Cookies)
      (w : Bytes)
      → P h.fs
      → is_mutating proc ≡ false
      → P (stored (nfs_call policy generate chosen proc cred r h m w).0 h.fs)
  unfolding nfs_call nfs_fsstat nfs_fsinfo nfs_pathconf
  query-kept P none cred r h m w p q = p
  query-kept P (some null) cred r h m w p q = p
  query-kept P (some getattr) cred r h m w p q = nfs_getattr-kept policy P h.fs p w r
  query-kept P (some lookup) cred r h m w p q = nfs_lookup-kept policy P h.fs p w r
  query-kept P (some access) cred r h m w p q = nfs_access-kept policy P h.fs p w r
  query-kept P (some readlink) cred r h m w p q = nfs_readlink-kept policy P h.fs p w r
  query-kept P (some read) cred r h m w p q = nfs_read-kept policy generate chosen P h p w r
  query-kept P (some readdir) cred r h m w p q = nfs_readdir-kept policy P h.fs p w r m
  query-kept P (some readdirplus) cred r h m w p q = nfs_readdir_plus-kept policy P h.fs p w r m
  query-kept P (some fsstat) cred r h m w p q =
      node_reply-kept policy P h.fs p w (fsstat_body h.fs) r
  query-kept P (some fsinfo) cred r h m w p q = node_reply-kept policy P h.fs p w fsinfo_body r
  query-kept P (some pathconf) cred r h m w p q = node_reply-kept policy P h.fs p w pathconf_body r
  query-kept P (some commit) cred r h m w p q = nfs_commit-kept policy P h.fs p w r
  query-kept P (some other) cred r h m w p q = absurd (cc)

  nfs_call-Runs :
      (proc : Option Proc) (cred : Cred) (r : Reader) (h : Host) (m : Cookies) (w : Bytes)
      → StoreOk h.fs
      → CredFits cred
      → Runs h.fs (stored (nfs_call policy generate chosen proc cred r h m w).0 h.fs)
  unfolding nfs_call
  nfs_call-Runs (some setattr) cred r h m w k c = nfs_setattr-Runs h.fs policy k w r
  nfs_call-Runs (some write) cred r h m w k c = nfs_write-Runs policy h.fs k w r
  nfs_call-Runs (some create) cred r h m w k c = nfs_create-Runs h.fs policy k w cred c r
  nfs_call-Runs (some mkdir) cred r h m w k c = nfs_mkdir-Runs h.fs policy k w cred c r
  nfs_call-Runs (some symlink) cred r h m w k c = nfs_symlink-Runs h.fs policy k w cred c r
  nfs_call-Runs (some mknod) cred r h m w k c = nfs_mknod-Runs h.fs policy k w cred c r
  nfs_call-Runs (some remove) cred r h m w k c = nfs_remove-Runs policy h.fs k w r
  nfs_call-Runs (some rmdir) cred r h m w k c = nfs_rmdir-Runs policy h.fs k w r
  nfs_call-Runs (some rename) cred r h m w k c = nfs_rename-Runs policy h.fs k w r
  nfs_call-Runs (some link) cred r h m w k c = nfs_link-Runs policy h.fs k w r
  nfs_call-Runs proc cred r h m w k c =
      query-kept (Runs h.fs) proc cred r h m w (Runs-none h.fs k) refl

-- The server after an outcome: what a read past the end of a message leaves is not known.
abbrev pub resulting : Server → Outcome → Server
resulting server lost = server
resulting server (thrown after) = after
resulting server (answered st w after) = after

-- An outcome leaves the store as it was, where the code says what it leaves.
abbrev pub Leaves : Store → Outcome → Type 0
Leaves s lost = Unit
Leaves s (thrown after) = after.host.fs ≡ s
Leaves s (answered st w after) = after.host.fs ≡ s

resulting-Leaves :
    (server : Server) (x : Outcome) (s : Store) → (resulting server x).host.fs ≡ s → Leaves s x
resulting-Leaves server lost s e = tt
resulting-Leaves server (thrown after) s e = e
resulting-Leaves server (answered st w after) s e = e

settled-Holds :
    (P : Store → Type 0) (server : Server) (x : Reply) (m : Cookies)
    → P server.host.fs
    → P (stored x server.host.fs)
    → P (resulting server (settled server (x, m))).host.fs
settled-Holds P server undefined m p q = p
settled-Holds P server ended m p q = p
settled-Holds P server (replied st w s) m p q = q

advanced-Runs : (s : Store) (x : Reply) → Runs s (stored x s) → Runs s (stored (advanced x) s)
unfolding is_snapshot
advanced-Runs s undefined f = f
advanced-Runs s ended f = f
advanced-Runs s (replied st w t) f =
    Runs-trans f (Runs-one (sets_time ((t.clock + 1) % u64)) t f.after (omega arith) refl)

if_off-Holds {ℓ κ} :
    {A : Type ℓ} (P : A → Type κ) (a b : Bool) (x y : A)
    → a ≡ false
    → P y
    → P (if a && b then x else y)
if_off-Holds P true b x y e p = absurd (cc)
if_off-Holds P false b x y e p = p

and_off : (a b : Bool) → (a && b) ≡ false → a ≡ true → b ≡ false
and_off true b e f = e
and_off false b e f = absurd (cc)

reply-Holds :
    (P : Store → Type 0) (xid : ℕ) (server : Server) (x : Outcome)
    → P (resulting server x).host.fs
    → P (after_step server (reply xid x)).host.fs
reply-Holds P xid server lost p = p
reply-Holds P xid server (thrown after) p = p
reply-Holds P xid server (answered st w after) p = p

if_known-Holds :
    (P : Store → Type 0) (x : Step) (server after : Server)
    → P server.host.fs
    → P after.host.fs
    → P (if_known x server after).host.fs
if_known-Holds P unknown server after p q = p
if_known-Holds P (closes last) server after p q = q
if_known-Holds P (sends frame last) server after p q = q

module _ (policy : Option ContentConfig) (generate : ProviderRead) (chosen : Bytes)
    (advance : Bool) where
  run_call-Holds :
      (P : Store → Type 0) (prog vers proc : ℕ) (cred : Cred) (r : Reader) (server : Server)
      → P server.host.fs
      → ((prog == 100003) ≡ true
          → P (
              stored
                (nfs_call policy generate chosen
                  (nth_proc proc numbered)
                  cred
                  r
                  server.host
                  server.cookies
                  []).0
                server.host.fs))
      → P (
          stored
            (run_call policy generate chosen advance prog vers proc cred r server).0
            server.host.fs)
  unfolding run_call
  run_call-Holds P prog vers proc cred r server p h =
      let Q = λ (x : Reply × Cookies). P (stored x.0 server.host.fs) in
      elim (Bool-cases (prog == 100003)) [
        | inl nfs ↦ rw nfs (if-Holds Q (vers == 3) (h nfs) p)
        | inr other ↦ rw other (
            if-Holds Q (prog == 100005)
              (if-Holds Q (vers == 3) (mount_call-kept policy P server.host.fs p [] proc r) p) p)
      ]

  -- A call for which the server shares the host's lock leaves the store as it was, whether it is
  -- answered or throws, whatever its program, version, procedure, caller and arguments, unless a
  -- string of the message is read past its end: what such a read leaves is not known.
  pub shared-kept :
      (prog vers proc : ℕ) (cred : Cred) (r : Reader) (server : Server)
      → exclusive prog proc ≡ false
      → Leaves server.host.fs (dispatch policy generate chosen advance prog vers proc cred r server)
  unfolding dispatch
  shared-kept prog vers proc cred r server q =
      let s = server.host.fs in
      let (x, m) = run_call policy generate chosen advance prog vers proc cred r server in
      let f =
        run_call-Holds (λ t. t ≡ s) prog vers proc cred r server refl
          (λ nfs.
            query-kept policy generate chosen (λ t. t ≡ s) (nth_proc proc numbered) cred r
              server.host server.cookies [] refl
              (and_off (prog == 100003) (is_mutating (nth_proc proc numbered)) q nfs)) in
      if_off-Holds (Leaves s) (exclusive prog proc) advance (settled server (advanced x, m))
        (settled server (x, m)) q
        (resulting-Leaves server (settled server (x, m)) s
          (settled-Holds (λ t. t ≡ s) server x m refl f))

  dispatch-Runs :
      (prog vers proc : ℕ) (cred : Cred) (r : Reader) (server : Server)
      → StoreOk server.host.fs
      → CredFits cred
      → Runs server.host.fs
          (resulting server
            (dispatch policy generate chosen advance prog vers proc cred r server)).host.fs
  unfolding dispatch
  dispatch-Runs prog vers proc cred r server k c =
      let s = server.host.fs in
      let (x, m) = run_call policy generate chosen advance prog vers proc cred r server in
      let f = run_call-Holds (Runs s) prog vers proc cred r server (Runs-none s k) (λ nfs.
        nfs_call-Runs policy generate chosen (nth_proc proc numbered) cred r server.host
          server.cookies [] k c) in
      if-Holds (λ y. Runs s (resulting server y).host.fs) (exclusive prog proc && advance)
        (settled-Holds (Runs s) server (advanced x) m (Runs-none s k) (advanced-Runs s x f))
        (settled-Holds (Runs s) server x m (Runs-none s k) f)

  message-Runs :
      (msg : Bytes) (server : Server)
      → StoreOk server.host.fs
      → Runs server.host.fs
          (after_step server (serve_message policy generate chosen advance msg server)).host.fs
  unfolding serve_message
  message-Runs msg server k =
      let s = server.host.fs in
      let (xid, r1) = read_u32 (record { p = msg; pos = 0; ok = true }) in
      let (kind, r2) = read_u32 r1 in
      let (rpcvers, r3) = read_u32 r2 in
      let (prog, r4) = read_u32 r3 in
      let (vers, r5) = read_u32 r4 in
      let (proc, r6) = read_u32 r5 in
      let (cred, r7) = read_cred r6 in
      let outcome =
        dispatch policy generate chosen advance prog vers proc cred (skip_auth r7) server in
      if-Holds (λ y. Runs s (after_step server y).host.fs) (not (kind == 0)) (Runs-none s k)
        (reply-Holds (Runs s) xid server outcome
          (dispatch-Runs prog vers proc cred (skip_auth r7) server k (read_cred-Fits r6)))

  -- Whatever messages clients send, in whatever order their calls run, they do to a well-formed store
  -- what some sequence of the store's own operations with arguments in range does, without a snapshot,
  -- and leave it well-formed. The messages count up to the first that is read past its end.
  pub serve-Runs :
      (msgs : List Bytes) (server : Server)
      → StoreOk server.host.fs
      → Runs server.host.fs (serve policy generate chosen advance msgs server).host.fs
  unfolding serve
  serve-Runs [] server k = Runs-none server.host.fs k
  serve-Runs (msg ∷ msgs) server k =
      let s = server.host.fs in
      let one = message-Runs msg server k in
      let step = serve_message policy generate chosen advance msg server in
      let after = after_step server step in
      if_known-Holds (Runs s) step server (serve policy generate chosen advance msgs after)
        (Runs-none s k) (Runs-trans one (serve-Runs msgs after one.after))

  -- Whatever messages clients send, in whatever order their calls run, a node viewed at a sealed
  -- snapshot keeps its attributes, lookups, listing and parents, and the snapshot its record, up to
  -- the first message that is read past its end: in a
  -- well-formed store with a number left for another snapshot, for a node with an id of 64 bits that
  -- is not a `.snapshot` directory.
  pub serve-SameView :
      (msgs : List Bytes) (server : Server) (n id : ℕ)
      → StoreOk server.host.fs
      → server.host.fs.cur + 1 < latest
      → n < server.host.fs.cur
      → id < u64
      → is_snap_dir id ≡ false
      → SameView n id server.host.fs (serve policy generate chosen advance msgs server).host.fs
  serve-SameView msgs server n id k room before hid real =
      Runs-SameView n id k (serve-Runs msgs server k) room before hid real
