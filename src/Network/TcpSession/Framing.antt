-- ===== src/Network/TcpSession/Framing.antt =====
-- The messages that are written on one side are those that are delivered on the other.
use mathlib.Core.List.{append_assoc}
use native.Mathlib.Nat.{mod-eq_of_lt}
use with_boost.Common.{
  ℕ, zero, suc, ◌*◌, ◌%◌, ◌^◌, ◌≤◌, ◌<◌, ◌≡◌, refl, sym, ap, ◌∙◌, true, false, none, List, [], ◌∷◌,
  ◌++◌, map, arith, ltb, lt→ltb, length, take-append, drop-append, length-append, All,
}
use with_boost.Network.Protocol.{Message, le32, read_le32, read_le32-le32}
use with_boost.Network.TcpSession.Defs.{
  Tls, header, body, Effect, writes, delivers, frame, Session, send_message, on_header, on_body,
  pump,
}

-- The length field says how long the payload is, and fits in 32 bits.
pub record IsSound (m : Message) : Type 0 where
  pub exact : m.length ≡ length m.payload
  pub fits : m.length < 2 ^ 32

-- The bytes that the messages make on the wire.
unfoldable pub stream : List Message → List ℕ
stream [] = []
stream (m ∷ ms) = frame m.type m.payload ++ stream ms

module _ (t : Tls) where
  -- A session without TLS and with a message handler that waits for a header.
  abbrev pub plain : Session t → Session t
  plain s = record s { tls = none; phase = header; has_message_handler = true }

  abbrev Result : Type 0
  Result = Session t × List Effect × List ℕ

  abbrev then_delivers : Message → Result → Result
  then_delivers m (s, out, bytes) = (s, delivers m ∷ out, bytes)

  pump-empty :
      (fuel : ℕ) (s : Session t) (type : ℕ) (rest : List ℕ)
      → pump t (suc fuel) (plain s) (frame type [] ++ rest)
        ≡ then_delivers
            (record { type = type; length = 0; payload = [] })
            (pump t fuel (plain s) rest)
  unfolding pump frame read_le32
  pump-empty fuel s type rest =
      let enough : ltb (suc (suc (suc (suc (suc (length rest)))))) 5 ≡ false = ground arith in
      rw enough

  pump-header :
      (fuel : ℕ) (s : Session t) (type n : ℕ) (rest : List ℕ)
      → 0 < n
      → n < 2 ^ 32
      → pump t (suc fuel) (plain s) (type ∷ le32 n ++ rest)
        ≡ pump t fuel
            (record s { tls = none; phase = body type n; has_message_handler = true })
            rest
  unfolding pump le32 on_header
  pump-header fuel s type n rest pos h =
      let enough : ltb (suc (suc (suc (suc (suc (length rest)))))) 5 ≡ false = ground arith in
      rw (enough, read_le32-le32 n h, lt→ltb 0 n pos)

  pump-body :
      (fuel : ℕ) (s : Session t) (type b : ℕ) (payload rest : List ℕ)
      → pump t
          (suc fuel)
          (record s {
            tls = none;
            phase = body type (suc (length payload));
            has_message_handler = true;
          })
          (b ∷ payload ++ rest)
        ≡ then_delivers
            (record { type = type; length = suc (length payload); payload = b ∷ payload })
            (pump t fuel (plain s) rest)
  unfolding pump on_body
  pump-body fuel s type b payload rest =
      let enough : ltb (suc (length (payload ++ rest))) (suc (length payload)) ≡ false =
        ground (arith, length-append payload rest) in
      let some_bytes : ltb 0 (suc (length payload)) ≡ true = ground arith in
      rw (enough, take-append payload rest, drop-append payload rest, some_bytes)

  -- The fuel left of two rounds: a message with no payload takes one read.
  abbrev fuel_left : List ℕ → ℕ → ℕ
  fuel_left [] fuel = suc fuel
  fuel_left (b ∷ payload) fuel = fuel

  fuel_left-le : (payload : List ℕ) (fuel : ℕ) → fuel ≤ fuel_left payload fuel
  fuel_left-le [] fuel = omega arith
  fuel_left-le (b ∷ payload) fuel = omega arith

  pump-message :
      (fuel : ℕ) (s : Session t) (type : ℕ) (payload rest : List ℕ)
      → length payload < 2 ^ 32
      → pump t (suc (suc fuel)) (plain s) (frame type payload ++ rest)
        ≡ then_delivers
            (record { type = type; length = length payload; payload = payload })
            (pump t (fuel_left payload fuel) (plain s) rest)
  unfolding frame
  pump-message fuel s type [] rest h = pump-empty (suc fuel) s type rest
  pump-message fuel s type (b ∷ payload) rest h =
      let n = suc (length payload) in
      let fits : n % 2 ^ 32 ≡ n = mod-eq_of_lt h in
      rw fits (
        pump-header (suc fuel) s type n (b ∷ payload ++ rest) (omega arith) h
        ∙ pump-body fuel s type b payload rest)

  stream-cons :
      (m : Message) (ms : List Message) (tail : List ℕ)
      → stream (m ∷ ms) ++ tail ≡ frame m.type m.payload ++ (stream ms ++ tail)
  unfolding stream
  stream-cons m ms tail = append_assoc (frame m.type m.payload) (stream ms) tail

  pump-tail :
      (fuel : ℕ) (s : Session t) (tail : List ℕ)
      → length tail < 5
      → pump t (suc fuel) (plain s) (stream [] ++ tail) ≡ (plain s, [], tail)
  unfolding pump stream
  pump-tail fuel s tail l = rw (lt→ltb (length tail) 5 l)

  exact_message :
      (m : Message)
      → IsSound m
      → ◌≡◌ {A = Message}
          (record { type = m.type; length = length m.payload; payload = m.payload })
          m
  exact_message m w = λ i. record { type = m.type; length = (sym w.exact) i; payload = m.payload }

  -- A session without TLS that waits for a header reads the frames of a sequence of sound messages,
  -- and behind them less than a header: it delivers exactly those messages, in order, waits for the
  -- next header, and leaves the bytes behind them unread. Fuel for two reads a message is enough.
  pub pump-stream :
      (ms : List Message) (fuel : ℕ) (s : Session t) (tail : List ℕ)
      → All IsSound ms
      → 2 * length ms < fuel
      → length tail < 5
      → pump t fuel (plain s) (stream ms ++ tail) ≡ (plain s, map delivers ms, tail)
  pump-stream [] zero s tail w f l = absurd (omega arith)
  pump-stream [] (suc fuel) s tail w f l = pump-tail fuel s tail l
  pump-stream (m ∷ ms) zero s tail w f l = absurd (omega arith)
  pump-stream (m ∷ ms) (suc zero) s tail w f l = absurd (omega arith)
  pump-stream (m ∷ ms) (suc (suc fuel)) s tail w f l =
      let fits : length m.payload < 2 ^ 32 = rw (← w.0.exact) w.0.fits in
      let rest =
        pump-stream ms (fuel_left m.payload fuel) s tail w.1
          (omega (arith, fuel_left-le m.payload fuel)) l in
      rw (stream-cons m ms tail) (
        pump-message fuel s m.type m.payload (stream ms ++ tail) fits
        ∙ ap
            (then_delivers
              (record { type = m.type; length = length m.payload; payload = m.payload }))
            rest
        ∙ ap (λ (x : Message). (plain s, delivers x ∷ map delivers ms, tail)) (exact_message m w.0))

  -- The bytes that the writes among the effects put on the wire.
  pub sent_bytes : List Effect → List ℕ
  sent_bytes [] = []
  sent_bytes (writes bytes ∷ out) = bytes ++ sent_bytes out
  sent_bytes (other ∷ out) = sent_bytes out

  pub send_all : Session t → List Message → List Effect
  send_all s [] = []
  send_all s (m ∷ ms) = (send_message t s m).1 ++ send_all (send_message t s m).0 ms

  send-plain :
      (s : Session t) (m : Message)
      → send_message t (plain s) m ≡ (plain s, writes (frame m.type m.payload) ∷ [])
  unfolding send_message
  send-plain s m = refl

  sent-stream : (s : Session t) (ms : List Message) → sent_bytes (send_all (plain s) ms) ≡ stream ms
  unfolding sent_bytes send_all stream
  sent-stream s [] = refl
  sent-stream s (m ∷ ms) =
      rw (send-plain s m) (ap (◌++◌ (frame m.type m.payload)) (sent-stream s ms))

  -- One session without TLS sends a sequence of sound messages, and another one that waits for a header reads
  -- the bytes, and behind them less than a header: it delivers exactly those messages, in order,
  -- waits for the next header, and leaves the bytes behind them unread. Fuel for two reads a message
  -- is enough.
  pub pump-send :
      (sender receiver : Session t) (ms : List Message) (fuel : ℕ) (tail : List ℕ)
      → All IsSound ms
      → 2 * length ms < fuel
      → length tail < 5
      → pump t fuel (plain receiver) (sent_bytes (send_all (plain sender) ms) ++ tail)
        ≡ (plain receiver, map delivers ms, tail)
  pump-send sender receiver ms fuel tail w f l =
      rw (sent-stream sender ms) (pump-stream ms fuel receiver tail w f l)
