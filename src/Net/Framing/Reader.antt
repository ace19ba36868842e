-- ===== src/Net/Framing/Reader.antt =====
-- `PacketSession::onDataReceived` (librzu/src/lib/NetSession/PacketSession.cpp) on the bytes that are
-- available; what the stream has not received yet comes with the next call.
use Prim.Native.Nat.{min}
use rzu.Prelude.{
  ℕ, zero, suc, ◌+◌, ◌-◌, ◌*◌, ◌<◌, ◌≡◌, refl, Bool, true, false, not, ◌&&◌, ◌||◌, Option, none,
  some, List, [], ◌∷◌, ◌++◌, Bytes, length, take, drop, length-drop, ltb, leb, ◌==◌, if◌then◌else◌,
  ◌>>=◌, arith, Bool-cases, inl, inr,
}

abbrev pub max_packet_size : ℕ
max_packet_size = 65536

-- `currentMessageSize` and `discardPacket` of the input buffer: how much of the message is missing, 0
-- for a new message.
pub record InputBuffer : Type 0 where
  pub current_message_size : ℕ
  pub discard_packet : Bool

-- The state after some reads, and the packets dispatched so far, each with its size and its bytes
-- after the size.
pub record Progress : Type 0 where
  pub buffer : InputBuffer
  pub available : Bytes
  pub dispatched : List (ℕ × Bytes)

-- A uint32_t, its lowest byte first.
unfoldable pub read_size : Bytes → ℕ
read_size (a ∷ b ∷ c ∷ d ∷ rest) = a + 256 * b + 65536 * c + 16777216 * d
read_size _ = 0

-- The size is read; one that does not cover itself is dropped.
unfoldable pub start_message : InputBuffer → Bytes → InputBuffer
unfolding read_size
start_message buffer bytes =
    let size = read_size bytes in
    if leb size 4
    then record buffer { current_message_size = 0 }
    else record { current_message_size = size - 4; discard_packet = ltb max_packet_size size }

-- The rest of the loop's body: the message is discarded, or dispatched once it is complete.
unfoldable pub end_message : InputBuffer → Bytes → Progress
end_message buffer bytes =
    let size = buffer.current_message_size in
    if not (size == 0) && buffer.discard_packet
    then record {
      buffer = record buffer { current_message_size = size - min size (length bytes) };
      available = drop size bytes;
      dispatched = [];
    }
    else if not (size == 0) && leb size (length bytes)
    then record {
      buffer = record buffer { current_message_size = 0 };
      available = drop size bytes;
      dispatched = (size + 4, take size bytes) ∷ [];
    }
    else record { buffer = buffer; available = bytes; dispatched = [] }

unfoldable pub body : InputBuffer → Bytes → Progress
unfolding start_message end_message
body buffer bytes =
    if buffer.current_message_size == 0
    then end_message (start_message buffer bytes) (drop 4 bytes)
    else end_message buffer bytes

-- The condition of the loop.
abbrev pub again : Progress → Bool
again p =
    p.buffer.current_message_size == 0 && leb 4 (length p.available)
    || not (p.buffer.current_message_size == 0)
      && leb p.buffer.current_message_size (length p.available)

abbrev pub after : List (ℕ × Bytes) → Progress → Progress
after packets p = record p { dispatched = packets ++ p.dispatched }

-- `none`: the fuel is not enough.
unfoldable pub loop : ℕ → InputBuffer → Bytes → Option Progress
unfolding body
loop zero buffer bytes = none
loop (suc fuel) buffer bytes =
    let p = body buffer bytes in
    let rest = loop fuel p.buffer p.available in
    if buffer.current_message_size == 0 && ltb (length bytes) 4
    then some (record { buffer = buffer; available = bytes; dispatched = [] })
    else if again p
    then (rest >>= λ q. some (after p.dispatched q))
    else some p

-- Every round but the last takes a byte.
unfoldable pub on_data_received : InputBuffer → Bytes → Option Progress
unfolding loop
on_data_received buffer bytes = loop (suc (length bytes)) buffer bytes

pub body-shorter :
    (buffer : InputBuffer) (bytes : Bytes)
    → (buffer.current_message_size == 0 && ltb (length bytes) 4) ≡ false
    → again (body buffer bytes) ≡ true
    → length (body buffer bytes).available < length bytes
unfolding body start_message end_message
body-shorter buffer bytes whole more = ground (
  arith,
  length-drop 4 bytes,
  length-drop buffer.current_message_size bytes,
  length-drop (read_size bytes - 4) (drop 4 bytes),
)

abbrev pub waits : InputBuffer → Bytes → Bool
waits buffer bytes = buffer.current_message_size == 0 && ltb (length bytes) 4

-- Two amounts of fuel that are enough agree.
loop-fuel :
    (m n : ℕ) (buffer : InputBuffer) (bytes : Bytes)
    → length bytes < m
    → length bytes < n
    → loop m buffer bytes ≡ loop n buffer bytes
unfolding loop
loop-fuel zero n buffer bytes a b = absurd (omega arith)
loop-fuel (suc m) zero buffer bytes a b = absurd (omega arith)
loop-fuel (suc m) (suc n) buffer bytes a b = elim (Bool-cases (waits buffer bytes)) [
  | inl short ↦ rw (short, loop) refl
  | inr whole ↦ elim (Bool-cases (again (body buffer bytes))) [
    | inr last ↦ rw (whole, loop) (rw (last, loop) refl)
    | inl more ↦
        let shorter = body-shorter buffer bytes whole more in
        rw
          (loop-fuel m n (body buffer bytes).buffer (body buffer bytes).available (omega arith)
            (omega arith))
          refl
  ]
]

-- The loop without its fuel.
pub on_data_received-eq :
    (buffer : InputBuffer) (bytes : Bytes)
    → on_data_received buffer bytes ≡ (
        if waits buffer bytes
        then some (record { buffer = buffer; available = bytes; dispatched = [] })
        else if again (body buffer bytes)
        then (on_data_received (body buffer bytes).buffer (body buffer bytes).available >>= λ q.
            some (after (body buffer bytes).dispatched q))
        else some (body buffer bytes))
unfolding on_data_received
on_data_received-eq buffer bytes = elim (Bool-cases (waits buffer bytes)) [
  | inl short ↦ rw (short, loop) refl
  | inr whole ↦ elim (Bool-cases (again (body buffer bytes))) [
    | inr last ↦ rw (whole, loop) (rw (last, loop) refl)
    | inl more ↦
        let shorter = body-shorter buffer bytes whole more in
        rw (whole, loop)
          (rw (more, loop)
            (rw
              (loop-fuel (length bytes) (suc (length (body buffer bytes).available))
                (body buffer bytes).buffer (body buffer bytes).available (omega arith)
                (omega arith))
              refl))
  ]
]
