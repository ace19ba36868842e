-- ===== src/LogServer/Files.antt =====
-- The files of rzlog/src/LogServer/ClientSession.cpp: their names and their lines. What is written past a
-- buffer is `none`; that a file opens is an argument.
use rzu.Prelude.{
  ℕ, zero, suc, ◌+◌, ◌-◌, ◌*◌, ◌/◌, ◌%◌, ◌^◌, Bool, true, false, not, ◌&&◌, ◌||◌, Option, none,
  some, List, [], ◌∷◌, ◌++◌, Bytes, length, ltb, leb, ◌==◌, if◌then◌else◌, ◌>>=◌,
}
use rzu.LogServer.Reader.{LogPacket}
use rzu.LogServer.Session.{LogData, header, too_short, read_texts}

-- `struct tm` of `getGmTime`, and the milliseconds.
pub record Date : Type 0 where
  pub year : ℕ
  pub month : ℕ
  pub day : ℕ
  pub hour : ℕ
  pub minute : ℕ
  pub second : ℕ
  pub fraction : ℕ

-- The year, month, day and hour of the file that is open.
pub record FileDate : Type 0 where
  pub year : ℕ
  pub month : ℕ
  pub day : ℕ
  pub hour : ℕ

-- `written` is what went to files, each line with the name of its file.
pub record ClientSession : Type 0 where
  pub server_name : Bytes
  pub file : Option Bytes
  pub file_date : FileDate
  pub written : List (Bytes × Bytes)

-- `logDir`, and which files open.
pub record Config : Type 0 where
  pub log_dir : Bytes
  pub opens : Bytes → Bool

abbrev pub is_between : ℕ → ℕ → ℕ → Bool
is_between low high c = leb low c && leb c high

abbrev pub is_name_char : ℕ → Bool
is_name_char c =
    is_between b'0' b'9' c
    || (is_between b'A' b'Z' c || (is_between b'a' b'z' c || (c == b'_' || c == b'.')))

unfoldable pub check_name : Bytes → Bool
check_name [] = true
check_name (c ∷ rest) = is_name_char c && check_name rest

abbrev pub is_empty : Bytes → Bool
is_empty [] = true
is_empty (c ∷ rest) = false

-- The login message of a server names it, once.
unfoldable pub login : LogData → ClientSession → ClientSession
login d s =
    if not (d.id == 101)
    then s
    else if not (is_empty s.server_name)
    then s
    else if check_name d.s4
    then record s { server_name = d.s4 }
    else s

-- Decimal digits: of a number below so many powers of ten, and of any number.
unfoldable pub digits : ℕ → ℕ → Bytes
digits zero n = []
digits (suc width) n = digits width (n / 10) ++ (b'0' + n % 10) ∷ []

unfoldable pub decimal_from : ℕ → ℕ → Bytes
decimal_from zero n = []
decimal_from (suc fuel) n =
    let front = decimal_from fuel (n / 10) in
    if ltb n 10 then (b'0' + n) ∷ [] else front ++ (b'0' + n % 10) ∷ []

-- A pattern of so many bits as a signed number has at most twenty digits.
abbrev pub signed : ℕ → ℕ → Bytes
signed bits n =
    if ltb n (2 ^ (bits - 1)) then decimal_from 20 n else b'-' ∷ decimal_from 20 (2 ^ bits - n)

abbrev pub is_date_need_new_file : Date → FileDate → Bool
is_date_need_new_file d f =
    not (d.year == f.year && (d.month == f.month && (d.day == f.day && d.hour == f.hour)))

abbrev pub concat : List Bytes → Bytes
concat [] = []
concat (text ∷ rest) = text ++ concat rest

-- "%s_%04d-%02d-%02d %02d.txt"
unfoldable pub filename : Bytes → FileDate → Bytes
unfolding digits
filename name f = concat (
    name
    ∷ (b'_' ∷ digits 4 f.year)
    ∷ (b'-' ∷ digits 2 f.month)
    ∷ (b'-' ∷ digits 2 f.day)
    ∷ (b' ' ∷ digits 2 f.hour)
    ∷ (b'.' ∷ b't' ∷ b'x' ∷ b't' ∷ [])
    ∷ [])

-- A text with its final zero in a buffer of so many bytes.
abbrev pub in_buffer : ℕ → Bytes → Option Bytes
in_buffer size text = if ltb (length text) size then some text else none

abbrev pub date_of : Date → FileDate
date_of d = record { year = d.year; month = d.month; day = d.day; hour = d.hour }

abbrev pub open_file : Config → Bytes → Option Bytes
open_file config path = if config.opens path then some path else none

abbrev pub is_closed : Option Bytes → Bool
is_closed none = true
is_closed (some path) = false

unfoldable pub update_opened_file : Config → Date → ClientSession → Option ClientSession
update_opened_file config d s =
    if not (is_empty s.server_name) && (is_closed s.file || is_date_need_new_file d s.file_date)
    then (in_buffer 512 (filename s.server_name (date_of d)) >>= λ name. some (record s {
      file_date = date_of d;
      file = open_file config (config.log_dir ++ b'/' ∷ name);
    }))
    else some s

unfoldable pub number_columns : List ℕ → Bytes
unfolding decimal_from
number_columns [] = []
number_columns (n ∷ rest) = b'\t' ∷ signed 64 n ++ number_columns rest

-- The line of a message, with its end.
unfoldable pub line : Date → LogData → Bytes
unfolding digits number_columns
line d message = concat (
    digits 4 d.year
    ∷ (b'-' ∷ digits 2 d.month)
    ∷ (b'-' ∷ digits 2 d.day)
    ∷ (b' ' ∷ digits 2 d.hour)
    ∷ (b':' ∷ digits 2 d.minute)
    ∷ (b':' ∷ digits 2 d.second)
    ∷ (b'.' ∷ digits 3 d.fraction)
    ∷ (b'\t' ∷ signed 32 message.thread_id)
    ∷ (b'\t' ∷ decimal_from 20 message.id)
    ∷ number_columns message.numbers
    ∷ (b'\t' ∷ message.s1)
    ∷ (b'\t' ∷ message.s2)
    ∷ (b'\t' ∷ message.s3)
    ∷ (b'\t' ∷ message.s4)
    ∷ (b'\n' ∷ [])
    ∷ [])

-- lineBuffer
abbrev pub line_buffer_size : ℕ
line_buffer_size = 20 + 20 * 13 + 255 * 4 + 18

unfoldable pub write_line : Date → LogData → ClientSession → Option ClientSession
write_line d message s = elim s.file [
  | none ↦ some s
  | some path ↦
      (in_buffer line_buffer_size (line d message) >>= λ text.
      some (record s { written = s.written ++ (path, text) ∷ [] }))
]

-- The message as it is stored: named, filed, written.
unfoldable pub store : Config → Date → LogData → ClientSession → Option ClientSession
store config d message s = update_opened_file config d (login message s) >>= write_line d message

unfoldable pub on_packet_received : Config → Date → LogPacket → ClientSession → Option ClientSession
on_packet_received config d packet s = header packet.body >>= λ h.
    if too_short h packet.size
    then some s
    else (read_texts packet h >>= λ message. store config d message s)
