-- ===== src/LogServer/RoundTrip/Stream.antt =====
-- The stream of log messages from rzauth, as the reader of rzlog cuts it.
use rzu.Prelude.{
  Returns, Returns-mono, ℕ, zero, suc, ◌+◌, ◌-◌, ◌^◌, ◌≤◌, ◌<◌, ◌≡◌, refl, ◌∙◌, sym, ap, true,
  false, Option, none, some, List, [], ◌∷◌, ◌++◌, Bytes, length, length-append, append_assoc, take,
  take_all, take-append, drop, ltb, if◌then◌else◌, ◌>>=◌, arith, map,
}
use rzu.Auth.Log.Client.{Message, little_endian, frame_size, write_frame}
use rzu.Auth.Log.Pending.{write_frames}
use rzu.LogServer.Reader.{
  LogPacket, Progress, InputBuffer, start_message, end_message, body, again, after, loop,
  on_data_received,
}
use rzu.LogServer.Session.{LogData}
use rzu.LogServer.RoundTrip.Fields.{body_of, IsMessage, write_frame-body_of}
use rzu.LogServer.RoundTrip.Texts.{drop_exact, HasTexts, data_of, head_of}
use rzu.LogServer.RoundTrip.Messages.{
  logged, packet_of, IsWithin, frame_size_lem, body_lem, length-head_of, logged-packet_of,
}

-- A message as the source makes it, whose texts fit.
pub record IsSendable (m : Message) : Type 0 where
  pub message : IsMessage m
  pub has_texts : HasTexts m
  pub within : IsWithin m

abbrev pub AllSendable : List Message → Type 0
AllSendable [] = Unit
AllSendable (m ∷ rest) = IsSendable m × AllSendable rest

abbrev idle : ℕ → InputBuffer
idle id = record { id = id; size = 0; discard_packet = false }

-- A size that covers itself, and what follows it.
module _ (id n : ℕ) (content rest : Bytes) (long : 5 ≤ n) (short : n < 2 ^ 16) where
  start_lem :
      id < 2 ^ 16
      → start_message (little_endian 2 id ++ (little_endian 2 n ++ (content ++ rest)))
        ≡ record { id = id; size = n - 4; discard_packet = false }
  unfolding start_message little_endian
  start_lem h = ground arith

  end_lem :
      length content ≡ n - 4
      → end_message (record { id = id; size = n - 4; discard_packet = false }) (content ++ rest)
        ≡ record {
          buffer = idle id;
          available = rest;
          dispatched = record { id = id; size = n; body = content } ∷ [];
        }
  unfolding end_message
  end_lem e =
      let cut : take (n - 4) (content ++ rest) ≡ content =
        take-append (n - 4) content rest (omega arith)
        ∙ (ap (λ k. take k content) (sym e) ∙ take_all content) in
      ground (arith, cut, drop_exact (n - 4) content rest e, length-append content rest)

  after_header :
      drop 4 (little_endian 2 id ++ (little_endian 2 n ++ (content ++ rest))) ≡ content ++ rest
  unfolding little_endian
  after_header = refl

  body_lem_of :
      (b : ℕ)
      → id < 2 ^ 16
      → length content ≡ n - 4
      → body (idle b) (little_endian 2 id ++ (little_endian 2 n ++ (content ++ rest))) ≡ record {
        buffer = idle id;
        available = rest;
        dispatched = record { id = id; size = n; body = content } ∷ [];
      }
  unfolding body
  body_lem_of b h e = rw (start_lem h) (
      ap (end_message (record { id = id; size = n - 4; discard_packet = false })) after_header
      ∙ end_lem e)

module _ (m : Message) (h : IsSendable m) where
  length-body_of : length (body_of m) ≡ frame_size m - 4
  length-body_of =
      ap length (body_lem m h.message h.has_texts)
      ∙ omega (
        arith,
        frame_size_lem m h.message h.has_texts h.within,
        length-head_of m h.message,
        length-append (head_of m) (m.str1 ++ (m.str2 ++ (m.str3 ++ m.str4))),
        length-append m.str1 (m.str2 ++ (m.str3 ++ m.str4)),
        length-append m.str2 (m.str3 ++ m.str4),
        length-append m.str3 m.str4,
      )

  frame_bounds : (105 ≤ frame_size m) × (frame_size m < 2 ^ 16)
  frame_bounds = omega (arith, frame_size_lem m h.message h.has_texts h.within)

  frame_lem :
      (rest : Bytes)
      → write_frame m ++ rest
        ≡ little_endian 2 m.id ++ (little_endian 2 (frame_size m) ++ (body_of m ++ rest))
  frame_lem rest =
      ap (λ l. l ++ rest) (write_frame-body_of m)
      ∙ (append_assoc (little_endian 2 m.id) (little_endian 2 (frame_size m) ++ body_of m) rest
          ∙ ap (λ l. little_endian 2 m.id ++ l)
              (append_assoc (little_endian 2 (frame_size m)) (body_of m) rest))

  body-write_frame :
      (id : ℕ) (rest : Bytes)
      → body (idle id) (write_frame m ++ rest)
        ≡ record { buffer = idle m.id; available = rest; dispatched = packet_of m ∷ [] }
  body-write_frame id rest =
      ap (body (idle id)) (frame_lem rest)
      ∙ body_lem_of m.id (frame_size m) (body_of m) rest (omega (arith, frame_bounds))
          (omega (arith, frame_bounds)) id h.message.id_fits length-body_of

  length-write_frame_rest :
      (rest : Bytes) → length (write_frame m ++ rest) ≡ frame_size m + length rest
  length-write_frame_rest rest =
      ap length (frame_lem rest)
      ∙ (unfold little_endian in
          omega (arith, length-append (body_of m) rest, length-body_of, frame_bounds))

-- All packets are there, in order, and nothing is left.
abbrev pub Delivers : List Message → Progress → Type 0
Delivers ms p = (p.dispatched ≡ map packet_of ms) × (p.available ≡ []) × (p.buffer.size ≡ 0)

abbrev one_packet : Message → Bytes → Progress
one_packet m rest = record { buffer = idle m.id; available = rest; dispatched = packet_of m ∷ [] }

pub loop_step :
    (fuel : ℕ) (buffer : InputBuffer) (bytes : Bytes)
    → ltb (length bytes) 4 ≡ false
    → loop (suc fuel) buffer bytes ≡ (
        if again (body buffer bytes)
        then (loop fuel (body buffer bytes).buffer (body buffer bytes).available >>= λ q.
            some (after (body buffer bytes).dispatched q))
        else some (body buffer bytes))
unfolding loop
loop_step fuel buffer bytes e = ground arith

loop_frame :
    (fuel id : ℕ) (m : Message) (rest : Bytes)
    → IsSendable m
    → loop (suc fuel) (idle id) (write_frame m ++ rest) ≡ (
        if again (one_packet m rest)
        then (loop fuel (idle m.id) rest >>= λ q. some (after (packet_of m ∷ []) q))
        else some (one_packet m rest))
loop_frame fuel id m rest h =
    loop_step fuel (idle id) (write_frame m ++ rest)
      (ground (arith, length-write_frame_rest m h rest, frame_bounds m h))
    ∙ rw (body-write_frame m h id rest) refl

after-Delivers :
    (m : Message) (rest : List Message) (o : Option Progress)
    → Returns (Delivers rest) o
    → Returns (Delivers (m ∷ rest)) (o >>= λ q. some (after (packet_of m ∷ []) q))
after-Delivers m rest none d = d
after-Delivers m rest (some q) d = (ap (λ l. packet_of m ∷ l) d.0, d.1, d.2)

loop-write_frames :
    (fuel id : ℕ) (ms : List Message)
    → AllSendable ms
    → length (write_frames ms) < fuel
    → Returns (Delivers ms) (loop fuel (idle id) (write_frames ms))
unfolding loop
loop-write_frames zero id ms h enough = absurd (omega arith)
loop-write_frames (suc fuel) id [] h enough = (refl, refl, refl)
loop-write_frames (suc fuel) id (m ∷ []) h enough =
    rw (loop_frame fuel id m [] h.0) (refl, refl, refl)
loop-write_frames (suc fuel) id (m ∷ k ∷ rest) h enough =
    let whole = length-write_frame_rest m h.0 (write_frames (k ∷ rest)) in
    let next = length-write_frame_rest k h.1.0 (write_frames rest) in
    let bounds = frame_bounds k h.1.0 in
    let own = frame_bounds m h.0 in
    let go : again (one_packet m (write_frames (k ∷ rest))) ≡ true = ground arith in
    rw (loop_frame fuel id m (write_frames (k ∷ rest)) h.0, go)
      (after-Delivers m (k ∷ rest) (loop fuel (idle m.id) (write_frames (k ∷ rest)))
        (loop-write_frames fuel m.id (k ∷ rest) h.1 (omega arith)))

-- All that was read in the packets, if it could be read.
abbrev pub log_all : List LogPacket → Option (List LogData)
log_all [] = some []
log_all (p ∷ rest) = logged p >>= λ d. log_all rest >>= λ l. some (d ∷ l)

log_all-packet_of :
    (ms : List Message) → AllSendable ms → log_all (map packet_of ms) ≡ some (map data_of ms)
log_all-packet_of [] h = refl
log_all-packet_of (m ∷ ms) h =
    rw (logged-packet_of m h.0.message h.0.has_texts h.0.within, log_all-packet_of ms h.1) refl

-- What the peer meant, and nothing left.
abbrev pub IsRead : List Message → Progress → Type 0
IsRead ms p =
    (log_all p.dispatched ≡ some (map data_of ms)) × (p.available ≡ []) × (p.buffer.size ≡ 0)

-- What rzauth writes for messages whose texts hold no zero and fit is read by rzlog, from a
-- reader that waits for a message, as the same messages with the same numbers and texts, in their
-- order, and nothing is left.
pub on_data_received-write_frames :
    (id : ℕ) (ms : List Message)
    → AllSendable ms
    → Returns
        (IsRead ms)
        (on_data_received (record { id = id; size = 0; discard_packet = false }) (write_frames ms))
unfolding on_data_received
on_data_received-write_frames id ms h =
    Returns-mono (Delivers ms) (IsRead ms) _
      (λ p d. (ap log_all d.0 ∙ log_all-packet_of ms h, d.1, d.2))
      (loop-write_frames _ id ms h (omega arith))
