-- ===== src/LogServer/Session.antt =====
-- rzlog/src/LogServer/ClientSession.cpp: a log message becomes a line of the file of its server and hour.
-- A read outside the message, and a text that is longer than its buffer, is `none`. Years have four digits.
use rzu.Prelude.{
  ℕ, zero, suc, ◌+◌, ◌-◌, ◌*◌, ◌/◌, ◌%◌, ◌^◌, Bool, Option, none, some, List, [], ◌∷◌, Bytes, drop,
  ltb, ◌==◌, if◌then◌else◌, ◌>>=◌,
}
use rzu.LogServer.Reader.{LogPacket}

-- LS_11N4S; a length is the pattern of an int16_t.
pub record Header : Type 0 where
  pub thread_id : ℕ
  pub numbers : List ℕ
  pub len1 : ℕ
  pub len2 : ℕ
  pub len3 : ℕ
  pub len4 : ℕ

-- A number of so many bytes, the lowest first, and what follows it.
unfoldable pub number : ℕ → Bytes → Option (ℕ × Bytes)
number zero bytes = some (0, bytes)
number (suc width) [] = none
number (suc width) (c ∷ bytes) = elim (number width bytes) [
  | none ↦ none
  | some (n, rest) ↦ some (c + 256 * n, rest)
]

-- So many numbers of 64 bits.
unfoldable pub numbers : ℕ → Bytes → Option (List ℕ × Bytes)
numbers zero bytes = some ([], bytes)
numbers (suc count) bytes = number 8 bytes >>= λ first. elim (numbers count first.1) [
  | none ↦ none
  | some (rest, left) ↦ some (first.0 ∷ rest, left)
]

-- What follows the id and the size.
unfoldable pub header : Bytes → Option Header
header bytes = do
  type ← number 1 bytes
  thread ← number 4 type.1
  values ← numbers 11 thread.1
  len1 ← number 2 values.1
  len2 ← number 2 len1.1
  len3 ← number 2 len2.1
  len4 ← number 2 len3.1
  some (record {
    thread_id = thread.0;
    numbers = values.0;
    len1 = len1.0;
    len2 = len2.0;
    len3 = len3.0;
    len4 = len4.0;
  })

-- An int16_t is its part above zero less its part below.
abbrev pub above : ℕ → ℕ
above v = if ltb v (2 ^ 15) then v else 0

abbrev pub below : ℕ → ℕ
below v = if ltb v (2 ^ 15) then 0 else 2 ^ 16 - v

-- sizeof(LS_11N4S)
abbrev pub struct_size : ℕ
struct_size = 105

-- `expectedSize > packet->size`
abbrev pub too_short : Header → ℕ → Bool
too_short h size =
    ltb (size + (below h.len1 + (below h.len2 + (below h.len3 + below h.len4))))
      (struct_size + (above h.len1 + (above h.len2 + (above h.len3 + above h.len4))))

-- `convertToString`: up to a zero, or so many bytes.
unfoldable pub read_text : ℕ → Bytes → Option Bytes
read_text zero bytes = some []
read_text (suc count) [] = none
read_text (suc count) (c ∷ bytes) =
    let rest = read_text count bytes in
    if c == 0 then some [] else elim rest [ none ↦ none | some text ↦ some (c ∷ text) ]

-- A message from its first byte: its id, its size and what follows.
abbrev pub message_bytes : LogPacket → Bytes
message_bytes packet =
    packet.id % 256 ∷ packet.id / 256 ∷ packet.size % 256 ∷ packet.size / 256 ∷ packet.body

-- A text that starts `forth` bytes after the struct and `back` bytes before that, in a message.
unfoldable pub text_at : ℕ → ℕ → ℕ → Bytes → Option Bytes
text_at forth back len message =
    if above len == 0
    then some []
    else if ltb (struct_size + forth) back
    then none
    else read_text (above len) (drop (struct_size + forth - back) message)

pub record LogData : Type 0 where
  pub id : ℕ
  pub thread_id : ℕ
  pub numbers : List ℕ
  pub s1 : Bytes
  pub s2 : Bytes
  pub s3 : Bytes
  pub s4 : Bytes

unfoldable pub read_texts : LogPacket → Header → Option LogData
read_texts packet h = do
  s1 ← text_at 0 0 h.len1 (message_bytes packet)
  s2 ← text_at (above h.len1) (below h.len1) h.len2 (message_bytes packet)
  s3 ←
      text_at (above h.len1 + above h.len2) (below h.len1 + below h.len2) h.len3
        (message_bytes packet)
  s4 ←
      text_at (above h.len1 + (above h.len2 + above h.len3))
        (below h.len1 + (below h.len2 + below h.len3)) h.len4 (message_bytes packet)
  some (record {
    id = packet.id;
    thread_id = h.thread_id;
    numbers = h.numbers;
    s1 = s1;
    s2 = s2;
    s3 = s3;
    s4 = s4;
  })
