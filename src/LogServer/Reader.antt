-- ===== src/LogServer/Reader.antt =====
-- `LogPacketSession::onDataReceived` (rzlog/src/LogServer/LogPacketSession.cpp) on the bytes that are
-- available.
use Prim.Native.Nat.{min}
use rzu.Prelude.{
  ℕ, zero, suc, ◌+◌, ◌-◌, ◌*◌, ◌%◌, ◌^◌, Bool, not, ◌&&◌, ◌||◌, Option, none, some, List, [], ◌∷◌,
  ◌++◌, Bytes, length, take, drop, ltb, leb, ◌==◌, if◌then◌else◌, ◌>>=◌,
}

-- MAX_PACKET_SIZE, which no uint16_t exceeds.
abbrev pub max_packet_size : ℕ
max_packet_size = 65536

-- `currentMessage` and `discardPacket`; a size of 0 waits for a new message.
pub record InputBuffer : Type 0 where
  pub id : ℕ
  pub size : ℕ
  pub discard_packet : Bool

pub record LogPacket : Type 0 where
  pub id : ℕ
  pub size : ℕ
  pub body : Bytes

pub record Progress : Type 0 where
  pub buffer : InputBuffer
  pub available : Bytes
  pub dispatched : List LogPacket

-- The two numbers of a MiniHeader.
abbrev pub header_id : Bytes → ℕ
header_id (a ∷ b ∷ rest) = a + 256 * b
header_id _ = 0

abbrev pub header_size : Bytes → ℕ
header_size (a ∷ b ∷ c ∷ d ∷ rest) = c + 256 * d
header_size _ = 0

-- `size -= 4` on a uint16_t.
abbrev pub less_four : ℕ → ℕ
less_four size = (size + 2 ^ 16 - 4) % 2 ^ 16

unfoldable pub start_message : Bytes → InputBuffer
start_message bytes =
    let size = if leb (header_size bytes) 4 then 0 else header_size bytes in
    record {
      id = header_id bytes;
      size = less_four size;
      discard_packet = ltb max_packet_size size;
    }

unfoldable pub end_message : InputBuffer → Bytes → Progress
end_message buffer bytes =
    if not (buffer.size == 0) && buffer.discard_packet
    then record {
      buffer = record buffer { size = buffer.size - min buffer.size (length bytes) };
      available = drop buffer.size bytes;
      dispatched = [];
    }
    else if not (buffer.size == 0) && leb buffer.size (length bytes)
    then record {
      buffer = record buffer { size = 0 };
      available = drop buffer.size bytes;
      dispatched =
          record {
            id = buffer.id;
            size = (buffer.size + 4) % 2 ^ 16;
            body = take buffer.size bytes;
          }
          ∷ [];
    }
    else record { buffer = buffer; available = bytes; dispatched = [] }

unfoldable pub body : InputBuffer → Bytes → Progress
body buffer bytes =
    if buffer.size == 0
    then end_message (start_message bytes) (drop 4 bytes)
    else end_message buffer bytes

-- The condition of the loop.
abbrev pub again : Progress → Bool
again p =
    p.buffer.size == 0 && leb 4 (length p.available)
    || not (p.buffer.size == 0) && leb p.buffer.size (length p.available)

abbrev pub after : List LogPacket → Progress → Progress
after packets p = record p { dispatched = packets ++ p.dispatched }

-- `none`: the fuel is not enough.
unfoldable pub loop : ℕ → InputBuffer → Bytes → Option Progress
loop zero buffer bytes = none
loop (suc fuel) buffer bytes =
    let p = body buffer bytes in
    let rest = loop fuel p.buffer p.available in
    if buffer.size == 0 && ltb (length bytes) 4
    then some (record { buffer = buffer; available = bytes; dispatched = [] })
    else if again p
    then (rest >>= λ q. some (after p.dispatched q))
    else some p

-- Every round but the last takes a byte.
unfoldable pub on_data_received : InputBuffer → Bytes → Option Progress
on_data_received buffer bytes = loop (suc (length bytes)) buffer bytes
