-- ===== src/Net/Framing/Frames.antt =====
-- What `PacketSession::onDataReceived` makes of the packets that a peer writes.
use rzu.Prelude.{
  ℕ, ◌+◌, ◌/◌, ◌%◌, ◌^◌, ◌<◌, ◌≡◌, refl, Bool, Option, none, some, List, [], ◌∷◌, ◌++◌, Bytes,
  length, take_all, drop_past, ltb, leb, if◌then◌else◌, ◌>>=◌, arith,
}
use rzu.Net.Framing.Reader.{
  Progress, max_packet_size, read_size, start_message, end_message, body, after, on_data_received,
  on_data_received-eq,
}
use rzu.Net.Framing.Stream.{on_data_received-append}

-- A uint32_t, its lowest byte first.
abbrev pub write_size : ℕ → Bytes
write_size n = n % 256 ∷ n / 256 % 256 ∷ n / 65536 % 256 ∷ n / 16777216 % 256 ∷ []

-- A packet whose size covers itself.
abbrev pub frame : Bytes → Bytes
frame content = write_size (length content + 4) ++ content

abbrev pub stream : List Bytes → Bytes
stream [] = []
stream (content ∷ rest) = frame content ++ stream rest

-- The packets that are not too large.
abbrev pub deliveries : List Bytes → List (ℕ × Bytes)
deliveries [] = []
deliveries (content ∷ rest) =
    if leb (length content + 4) max_packet_size
    then (length content + 4, content) ∷ deliveries rest
    else deliveries rest

-- Not empty, and with a size of 32 bits.
abbrev pub AreSendable : List Bytes → Type 0
AreSendable [] = Unit
AreSendable (content ∷ rest) =
    (0 < length content) × (length content + 4 < 2 ^ 32) × AreSendable rest

read_size-write_size : (n : ℕ) (rest : Bytes) → n < 2 ^ 32 → read_size (write_size n ++ rest) ≡ n
unfolding read_size
read_size-write_size n rest h = omega arith

abbrev one_delivery : Bytes → Progress
one_delivery content = record {
  buffer = record {
    current_message_size = 0;
    discard_packet = ltb max_packet_size (length content + 4);
  };
  available = [];
  dispatched = deliveries (content ∷ []);
}

body-frame :
    (discard : Bool) (content : Bytes)
    → 0 < length content
    → length content + 4 < 2 ^ 32
    → body (record { current_message_size = 0; discard_packet = discard }) (frame content)
      ≡ one_delivery content
unfolding body start_message end_message
body-frame discard content some_content fits =
    rw (read_size-write_size (length content + 4) content fits)
      (ground (arith, take_all content, drop_past (length content) content))

one_frame :
    (discard : Bool) (content : Bytes)
    → 0 < length content
    → length content + 4 < 2 ^ 32
    → on_data_received
        (record { current_message_size = 0; discard_packet = discard })
        (frame content)
      ≡ some (one_delivery content)
one_frame discard content some_content fits =
    rw
      (
        on_data_received-eq (record { current_message_size = 0; discard_packet = discard })
            (frame content),
        body-frame discard content some_content fits,
      )
      (ground arith)

-- What is left of a stream after its packets: nothing, and the next message is new.
abbrev pub IsDelivered : List Bytes → Option Progress → Type 0
IsDelivered contents none = ⊥
IsDelivered contents (some p) =
    (p.dispatched ≡ deliveries contents) × (p.available ≡ []) × (p.buffer.current_message_size ≡ 0)

-- The packets that a peer writes, none empty and each with a size of 32 bits, are delivered in
-- their order and unchanged, but for those larger than the limit, which are skipped; nothing is
-- left of the bytes.
pub on_data_received-stream :
    (discard : Bool) (contents : List Bytes)
    → AreSendable contents
    → IsDelivered contents (
        on_data_received
          (record { current_message_size = 0; discard_packet = discard })
          (stream contents))
on_data_received-stream discard [] h =
    rw (on_data_received-eq (record { current_message_size = 0; discard_packet = discard }) [])
      (refl, refl, refl)
on_data_received-stream discard (content ∷ rest) h =
    rw
      (
        on_data_received-append (record { current_message_size = 0; discard_packet = discard })
            (frame content) (stream rest),
        one_frame discard content h.0 h.1,
      )
      (joined _ (on_data_received-stream (ltb max_packet_size (length content + 4)) rest h.2))
  where
    joined :
        (m : Option Progress)
        → IsDelivered rest m
        → IsDelivered (content ∷ rest) (m >>= λ q. some (after (deliveries (content ∷ [])) q))
    joined none r = r
    joined (some q) r = (ground (arith, r.0), r.1, r.2)
