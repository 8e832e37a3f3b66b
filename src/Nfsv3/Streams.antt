-- ===== src/Nfsv3/Streams.antt =====
-- The byte streams of a session of the NFSv3 front-end: record marks, and rounds of its loop.
use prfs.Prelude.{
  ℕ, zero, suc, true, false, All, List, ◌++◌, ◌∙◌, ◌⊎◌, ◌%◌, ◌^◌, ◌<◌, ◌≤◌, ◌≡◌, refl, ap, [], ◌∷◌,
  ltb, Bool, ◌||◌, inl, inr, Option, if◌then◌else◌, length, take, drop, arith,
}
use prfs.Bytes.{Bytes}
use prfs.Content.{ContentConfig}
use prfs.Host.{ProviderRead}
use prfs.Nfsv3.{rd32, put_u32}
use prfs.Nfsv3.RoundTrip.{drop-append, take-append}
use prfs.Nfsv3.Server.{
  Server, Step, unknown, closes, sends, Session, closed, and_then, serve_message, session, framed,
}

-- A frame of a reply below 2 ^ 31 bytes begins with a mark of four bytes that says that this is the
-- last fragment and how long it is, as a session reads it in the other direction, and the reply
-- follows.
pub framed_lem :
    (rep : Bytes)
    → length rep < 2 ^ 31
    → (rd32 (framed rep) % 2 ^ 31 ≡ length rep)
      × (2 ^ 31 ≤ rd32 (framed rep))
      × (drop 4 (framed rep) ≡ rep)
unfolding framed put_u32
framed_lem rep small = (omega arith, omega arith, refl)

-- A message of a length that a session takes.
abbrev pub InRange : Bytes → Type 0
InRange msg = (24 ≤ length msg) × (length msg ≤ 2 ^ 20)

-- The bytes that a client sends: a frame for each message, then `rest`.
unfoldable pub sent : List Bytes → Bytes → Bytes
sent [] rest = rest
sent (msg ∷ msgs) rest = framed msg ++ sent msgs rest

-- Bytes at which a session ends: too few for a mark, a mark of a length that it does not take, or a
-- message that is cut short.
abbrev pub Refused : Bytes → Type 0
Refused rest =
    (length rest < 4)
    ⊎ (rd32 rest % 2 ^ 31 < 24)
    ⊎ (2 ^ 20 < rd32 rest % 2 ^ 31)
    ⊎ (length (drop 4 rest) < rd32 rest % 2 ^ 31)

length-append : (xs ys : Bytes) → length xs ≤ length (xs ++ ys)
length-append [] ys = omega arith
length-append (x ∷ xs) ys = omega (arith, length-append xs ys)

when_below : (a b : ℕ) → a < b → ltb a b ≡ true
when_below a b h = ground (arith, h)

when_above : (a b : ℕ) → b ≤ a → ltb a b ≡ false
when_above a b h = ground (arith, h)

if_any {ℓ} :
    {A : Type ℓ} (a b c d : Bool) (x y : A)
    → (a ≡ true) ⊎ (b ≡ true) ⊎ (c ≡ true) ⊎ (d ≡ true)
    → (if a || (b || (c || d)) then x else y) ≡ x
if_any true b c d x y h = refl
if_any false true c d x y h = refl
if_any false false true d x y h = refl
if_any false false false true x y h = refl
if_any false false false false x y (inl h) = absurd (cc)
if_any false false false false x y (inr (inl h)) = absurd (cc)
if_any false false false false x y (inr (inr (inl h))) = absurd (cc)
if_any false false false false x y (inr (inr (inr h))) = absurd (cc)

if_none {ℓ} :
    {A : Type ℓ} (a b c d : Bool) (x y : A)
    → a ≡ false
    → b ≡ false
    → c ≡ false
    → d ≡ false
    → (if a || (b || (c || d)) then x else y) ≡ y
if_none a b c d x y e f g h = rw (e, f, g, h) refl

frame_length :
    (msg tail : Bytes) → length msg < 2 ^ 31 → rd32 (framed msg ++ tail) % 2 ^ 31 ≡ length msg
unfolding framed put_u32
frame_length msg tail small = omega arith

frame_body : (msg tail : Bytes) → drop 4 (framed msg ++ tail) ≡ msg ++ tail
unfolding framed put_u32
frame_body msg tail = refl

frame_whole : (msg tail : Bytes) → 4 ≤ length (framed msg ++ tail)
unfolding framed put_u32
frame_whole msg tail = omega arith

module _ (policy : Option ContentConfig) (generate : ProviderRead) (chosen : Bytes)
    (advance : Bool) where
  -- The messages served one after another, each on the server that the one before it left.
  unfoldable pub answers : List Bytes → Server → Session
  answers [] server = closed server
  answers (msg ∷ msgs) server =
      and_then server (serve_message policy generate chosen advance msg server)
        (λ after. answers msgs after)

  and_then-same :
      (server : Server) (step : Step) (f g : Server → Session)
      → ((after : Server) → f after ≡ g after)
      → and_then server step f ≡ and_then server step g
  and_then-same server unknown f g h = refl
  and_then-same server (closes after) f g h = refl
  and_then-same server (sends frame after) f g h =
      ap {A = Session} (λ rest. record rest { frames = frame ∷ rest.frames }) (h after)

  closed_at :
      (fuel : ℕ) (rest : Bytes) (server : Server)
      → Refused rest
      → session policy generate chosen advance (suc fuel) rest server ≡ closed server
  unfolding session
  closed_at fuel rest server r =
      let len = rd32 rest % 2 ^ 31 in
      if_any (ltb (length rest) 4) (ltb len 24) (ltb (2 ^ 20) len) (ltb (length (drop 4 rest)) len)
        (closed server) _ (tests r)
    where
      tests :
          Refused rest
          → (ltb (length rest) 4 ≡ true)
            ⊎ (ltb (rd32 rest % 2 ^ 31) 24 ≡ true)
            ⊎ (ltb (2 ^ 20) (rd32 rest % 2 ^ 31) ≡ true)
            ⊎ (ltb (length (drop 4 rest)) (rd32 rest % 2 ^ 31) ≡ true)
      tests (inl short) = inl (when_below _ _ short)
      tests (inr (inl small)) = inr (inl (when_below _ _ small))
      tests (inr (inr (inl large))) = inr (inr (inl (when_below _ _ large)))
      tests (inr (inr (inr cut))) = inr (inr (inr (when_below _ _ cut)))

  -- One round on a whole frame of a length in range.
  unfoldable round : ℕ → ℕ → Bytes → Server → Session
  round fuel len body server =
      and_then server (serve_message policy generate chosen advance (take len body) server)
        (λ after. session policy generate chosen advance fuel (drop len body) after)

  taken-served :
      (fuel : ℕ) (stream : Bytes) (server : Server)
      → 4 ≤ length stream
      → 24 ≤ rd32 stream % 2 ^ 31
      → rd32 stream % 2 ^ 31 ≤ 2 ^ 20
      → rd32 stream % 2 ^ 31 ≤ length (drop 4 stream)
      → session policy generate chosen advance (suc fuel) stream server
        ≡ round fuel (rd32 stream % 2 ^ 31) (drop 4 stream) server
  unfolding session round
  taken-served fuel stream server whole low high fits =
      let len = rd32 stream % 2 ^ 31 in
      if_none (ltb (length stream) 4) (ltb len 24) (ltb (2 ^ 20) len)
        (ltb (length (drop 4 stream)) len) (closed server) (round fuel len (drop 4 stream) server)
        (when_above _ _ whole) (when_above _ _ low) (when_above _ _ high) (when_above _ _ fits)

  frame-served :
      (fuel : ℕ) (msg tail : Bytes) (server : Server)
      → InRange msg
      → session policy generate chosen advance (suc fuel) (framed msg ++ tail) server
        ≡ and_then server
            (serve_message policy generate chosen advance msg server)
            (λ after. session policy generate chosen advance fuel tail after)
  unfolding round
  frame-served fuel msg tail server a =
      let stream = framed msg ++ tail in
      let len : rd32 stream % 2 ^ 31 ≡ length msg = frame_length msg tail (omega (arith, a.1)) in
      let body : drop 4 stream ≡ msg ++ tail = frame_body msg tail in
      let fits : rd32 stream % 2 ^ 31 ≤ length (drop 4 stream) =
        rw (len, body) (length-append msg tail) in
      taken-served fuel stream server (frame_whole msg tail) (omega (arith, a.0, len))
        (omega (arith, a.1, len)) fits
      ∙ ap (λ (n : ℕ). round fuel n (drop 4 stream) server) len
      ∙ ap (λ (b : Bytes). round fuel (length msg) b server) body
      ∙ rw (round, take-append msg tail, drop-append msg tail) refl

  -- A session answers the messages of a stream of frames in their order, each on the server that the
  -- one before it left, up to the first that ends the session or is read past its end, where the
  -- messages have 24 to 2 ^ 20 bytes and there is more fuel than messages. It ends at what follows
  -- them, if that is too short for a mark, has a mark of a smaller or larger length, or is cut short.
  pub session-answers :
      (msgs : List Bytes) (rest : Bytes) (fuel : ℕ) (server : Server)
      → All InRange msgs
      → Refused rest
      → length msgs < fuel
      → session policy generate chosen advance fuel (sent msgs rest) server ≡ answers msgs server
  unfolding answers sent
  session-answers msgs rest zero server a r f = absurd (omega arith)
  session-answers [] rest (suc fuel) server a r f = closed_at fuel rest server r
  session-answers (msg ∷ msgs) rest (suc fuel) server a r f =
      let step = serve_message policy generate chosen advance msg server in
      frame-served fuel msg (sent msgs rest) server a.0
      ∙ and_then-same server step
          (λ after. session policy generate chosen advance fuel (sent msgs rest) after)
          (λ after. answers msgs after)
          (λ after. session-answers msgs rest fuel after a.1 r (omega (arith, f)))
