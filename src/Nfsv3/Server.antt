-- ===== src/Nfsv3/Server.antt =====
-- The front-end as a server: the dispatch of a call under the host's lock, the reply's frame, and
-- what a session does with a message.
use prfs.Prelude.{
  ℕ, zero, suc, ◌+◌, ◌%◌, ◌^◌, List, [], ◌∷◌, ◌++◌, ◌==◌, ltb, Bool, true, ◌||◌, ◌&&◌, not, Option,
  if◌then◌else◌, length, take, drop,
}
use prfs.Bytes.{Bytes, u64}
use prfs.Core.Store.{Store, set_time}
use prfs.Content.{ContentConfig}
use prfs.Host.{Host, ProviderRead}
use prfs.Nfsv3.{Reader, Cred, rd32, read_u32, read_cred, skip_auth, put_u32}
use prfs.Nfsv3.Procs.{Reply, undefined, ended, replied}
use prfs.Nfsv3.Dirs.{Cookies}
use prfs.Nfsv3.Calls.{is_mutating, nth_proc, numbered, nfs_call, mount_call}

pub record Server : Type 0 where
  pub host : Host
  pub cookies : Cookies

abbrev pub with_store : Store → Server → Server
with_store s server = record server { host = record server.host { fs = s } }

-- `fs.setTime(fs.now() + 1)`, which is skipped where the procedure throws
abbrev pub advanced : Reply → Reply
advanced (replied st w s) = replied st w (set_time ((s.clock + 1) % u64) s)
advanced other = other

-- A body that is read past its end, an exception, or a result with the server after.
pub data Outcome : Type 0 where
  lost : Outcome
  thrown : Server → Outcome
  answered : ℕ → Bytes → Server → Outcome

abbrev pub settled : Server → Reply × Cookies → Outcome
settled server (undefined, m) = lost
settled server (ended, m) = thrown (record server { cookies = m })
settled server (replied st w s, m) = answered st w (record (with_store s server) { cookies = m })

-- A call that takes the host's lock for itself; the others share it.
abbrev pub exclusive : ℕ → ℕ → Bool
exclusive prog proc = prog == 100003 && is_mutating (nth_proc proc numbered)

module _ (policy : Option ContentConfig) (generate : ProviderRead) (chosen : Bytes)
    (advance : Bool) where
  -- 100003 is the NFS program and 100005 MOUNT, both of version 3.
  unfoldable pub run_call : ℕ → ℕ → ℕ → Cred → Reader → Server → Reply × Cookies
  unfolding nth_proc nfs_call mount_call
  run_call prog vers proc cred r server =
      let s = server.host.fs in
      let m = server.cookies in
      let nfs = nfs_call policy generate chosen (nth_proc proc numbered) cred r server.host m [] in
      let mount = mount_call proc r s [] in
      if prog == 100003
      then if vers == 3 then nfs else (replied 2 [] s, m)
      else if prog == 100005
      then if vers == 3 then (mount, m) else (replied 2 [] s, m)
      else (replied 1 [] s, m)

  unfoldable pub dispatch : ℕ → ℕ → ℕ → Cred → Reader → Server → Outcome
  unfolding nth_proc run_call set_time
  dispatch prog vers proc cred r server =
      let (reply, m) = run_call prog vers proc cred r server in
      if exclusive prog proc && advance
      then settled server (advanced reply, m)
      else settled server (reply, m)

-- An accepted reply: the accept status, the versions on `PROG_MISMATCH` (2), and the result.
unfoldable pub encode_reply : ℕ → ℕ → Bytes → Bytes
unfolding put_u32
encode_reply xid st result =
    let w = put_u32 st (put_u32 0 (put_u32 0 (put_u32 0 (put_u32 1 (put_u32 xid []))))) in
    let versions = if st == 2 then put_u32 3 (put_u32 3 w) else w in versions ++ result

-- `0x80000000u | uint32_t(rep.size())`
unfoldable pub framed : Bytes → Bytes
unfolding put_u32
framed rep = put_u32 (length rep % 2 ^ 31 + 2 ^ 31) [] ++ rep

-- What a session does after a message: nothing that is known, the end, or a frame.
pub data Step : Type 0 where
  unknown : Step
  closes : Server → Step
  sends : Bytes → Server → Step

abbrev pub reply : ℕ → Outcome → Step
reply xid lost = unknown
reply xid (thrown server) = closes server
reply xid (answered st result server) = sends (framed (encode_reply xid st result)) server

-- The frames that a session writes, and the server when it ends.
pub record Session : Type 0 where
  pub frames : List Bytes
  pub server : Server

abbrev pub closed : Server → Session
closed server = record { frames = []; server = server }

abbrev pub and_then : Server → Step → (Server → Session) → Session
and_then server unknown next = closed server
and_then server (closes after) next = closed after
and_then server (sends frame after) next =
    let rest = next after in record rest { frames = frame ∷ rest.frames }

module _ (policy : Option ContentConfig) (generate : ProviderRead) (chosen : Bytes)
    (advance : Bool) where
  unfoldable pub serve_message : Bytes → Server → Step
  unfolding read_u32 read_cred skip_auth dispatch encode_reply framed
  serve_message msg server =
      let (xid, r1) = read_u32 (record { p = msg; pos = 0; ok = true }) in
      let (kind, r2) = read_u32 r1 in
      let (rpcvers, r3) = read_u32 r2 in
      let (prog, r4) = read_u32 r3 in
      let (vers, r5) = read_u32 r4 in
      let (proc, r6) = read_u32 r5 in
      let (cred, r7) = read_cred r6 in
      let outcome =
        dispatch policy generate chosen advance prog vers proc cred (skip_auth r7) server in
      if not (kind == 0) then closes server else reply xid outcome

  -- The bytes that a client sends before it closes, with a round of fuel for each message.
  unfoldable pub session : ℕ → Bytes → Server → Session
  unfolding serve_message
  session zero stream server = closed server
  session (suc fuel) stream server =
      let len = rd32 stream % 2 ^ 31 in
      let body = drop 4 stream in
      let served =
        and_then server (serve_message (take len body) server)
          (λ after. session fuel (drop len body) after) in
      if ltb (length stream) 4 || (ltb len 24 || (ltb (2 ^ 20) len || ltb (length body) len))
      then closed server
      else served

abbrev pub after_step : Server → Step → Server
after_step server unknown = server
after_step server (closes after) = after
after_step server (sends frame after) = after

-- Nothing follows a read past the end of a message.
abbrev pub if_known : Step → Server → Server → Server
if_known unknown server after = server
if_known (closes last) server after = after
if_known (sends frame last) server after = after

-- Messages in the order in which the calls run, whatever the sessions that they come from: the server
-- after them, or before the first that is read past its end.
unfoldable pub serve :
    Option ContentConfig → ProviderRead → Bytes → Bool → List Bytes → Server → Server
unfolding serve_message
serve policy generate chosen advance [] server = server
serve policy generate chosen advance (msg ∷ msgs) server =
    let step = serve_message policy generate chosen advance msg server in
    if_known step server (serve policy generate chosen advance msgs (after_step server step))
