-- ===== src/LogServer/Faults.antt =====
-- What goes wrong in rzlog/src/LogServer on messages that no server of the repository sends.
use rzu.Prelude.{
  ℕ, zero, suc, ◌+◌, ◌*◌, ◌/◌, ◌%◌, ◌≤◌, ◌<◌, ◌≡◌, refl, ◌∙◌, ap, true, false, Option, none, some,
  List, [], ◌∷◌, ◌++◌, Bytes, length, length-append, leb, ◌>>=◌, arith,
}
use rzu.LogServer.Reader.{
  InputBuffer, LogPacket, Progress, start_message, end_message, body, again, on_data_received,
}
use rzu.LogServer.RoundTrip.Stream.{loop_step}
use rzu.LogServer.Session.{
  Header, LogData, header, above, below, too_short, text_at, read_texts, message_bytes,
}
use rzu.LogServer.Files.{
  ClientSession, Config, Date, FileDate, check_name, is_empty, login, filename, concat, date_of,
  in_buffer, update_opened_file, line, write_line, store, on_packet_received, line_buffer_size,
  digits, signed, decimal_from, number_columns,
}

leb-of_le : {m n : ℕ} → m ≤ n → leb m n ≡ true
leb-of_le h = ground arith

leb-of_lt : {m n : ℕ} → m < n → leb n m ≡ false
leb-of_lt h = ground arith

-- The message after a size that does not cover itself.
abbrev waiting : ℕ → InputBuffer
waiting id = record { id = id; size = 65532; discard_packet = false }

start_small :
    (id size : ℕ) (a b c d : ℕ) (rest : Bytes)
    → c + 256 * d ≤ 4
    → start_message (a ∷ b ∷ c ∷ d ∷ rest) ≡ waiting (a + 256 * b)
unfolding start_message
start_small id size a b c d rest small = rw (leb-of_le small) refl

end_waiting :
    (id : ℕ) (rest : Bytes)
    → length rest < 65532
    → end_message (waiting id) rest
      ≡ record { buffer = waiting id; available = rest; dispatched = [] }
unfolding end_message
end_waiting id rest few = rw (leb-of_lt few) refl

abbrev unread : ℕ → Bytes → Progress
unread id rest = record { buffer = waiting id; available = rest; dispatched = [] }

body_small :
    (id a b c d : ℕ) (rest : Bytes)
    → c + 256 * d ≤ 4
    → length rest < 65532
    → body (record { id = id; size = 0; discard_packet = false }) (a ∷ b ∷ c ∷ d ∷ rest)
      ≡ unread (a + 256 * b) rest
unfolding body
body_small id a b c d rest small few =
    ap (λ w. end_message w rest) (start_small id 0 a b c d rest small)
    ∙ end_waiting (a + 256 * b) rest few

-- A message whose size field is four or less makes the reader of rzlog, if it waits for a message
-- and fewer than 65532 bytes follow, wait for 65532 bytes under the id of this message.
pub on_data_received_small :
    (id a b c d : ℕ) (rest : Bytes)
    → c + 256 * d ≤ 4
    → length rest < 65532
    → on_data_received (record { id = id; size = 0; discard_packet = false }) (a ∷ b ∷ c ∷ d ∷ rest)
      ≡ some (record {
        buffer = record { id = a + 256 * b; size = 65532; discard_packet = false };
        available = rest;
        dispatched = [];
      })
unfolding on_data_received
on_data_received_small id a b c d rest small few =
    let stops : again (unread (a + 256 * b) rest) ≡ false = ground (arith, leb-of_lt few) in
    loop_step _ (record { id = id; size = 0; discard_packet = false }) (a ∷ b ∷ c ∷ d ∷ rest)
      (ground arith)
    ∙ rw (body_small id a b c d rest small few, stops) refl

bind_none :
    {A B : Type 0}
    → (o : Option A) (f : B → Option ClientSession) → ((o >>= λ a. none) >>= f) ≡ none
bind_none none f = refl
bind_none (some a) f = refl

text_at_before :
    (back len : ℕ) (content : Bytes)
    → 105 < back
    → 0 < above len
    → text_at 0 back len content ≡ none
unfolding text_at
text_at_before back len content before positive = ground arith

above_of_negative : (v : ℕ) → 0 < below v → above v ≡ 0
above_of_negative v h = ground arith

-- A log message whose first length is below -105 and whose second is positive makes rzlog read
-- before the message, if its size passes the test.
pub read_texts_negative :
    (config : Config) (date : Date) (packet : LogPacket) (h : Header) (s : ClientSession)
    → header packet.body ≡ some h
    → 105 < below h.len1
    → 0 < above h.len2
    → too_short h packet.size ≡ false
    → on_packet_received config date packet s ≡ none
unfolding on_packet_received read_texts
read_texts_negative config date packet h s read negative positive long =
    let first : above h.len1 ≡ 0 = above_of_negative h.len1 (omega arith) in
    let second : text_at 0 (below h.len1) h.len2 (message_bytes packet) ≡ none =
      text_at_before (below h.len1) h.len2 (message_bytes packet) negative positive in
    rw (read, long, first, second) (bind_none (text_at 0 0 h.len1 (message_bytes packet)) _)

too_long_lem : (size : ℕ) (text : Bytes) → size ≤ length text → in_buffer size text ≡ none
too_long_lem size text long = ground arith

concat_long :
    {n : ℕ} (front rest : List Bytes)
    → n ≤ length (concat rest)
    → n ≤ length (concat (front ++ rest))
concat_long [] rest h = h
concat_long (text ∷ front) rest h =
    omega (arith, length-append text (concat (front ++ rest)), concat_long front rest h)

abbrev texts : LogData → List Bytes
texts message =
    (9 ∷ message.s1) ∷ (9 ∷ message.s2) ∷ (9 ∷ message.s3) ∷ (9 ∷ message.s4) ∷ (10 ∷ []) ∷ []

texts_long :
    (message : LogData)
    → 1318 ≤ length message.s1 + (length message.s2 + (length message.s3 + length message.s4))
    → 1318 ≤ length (concat (texts message))
texts_long message long = omega (
  arith,
  length-append message.s1 (9 ∷ message.s2 ++ (9 ∷ message.s3 ++ (9 ∷ message.s4 ++ 10 ∷ []))),
  length-append message.s2 (9 ∷ message.s3 ++ (9 ∷ message.s4 ++ 10 ∷ [])),
  length-append message.s3 (9 ∷ message.s4 ++ 10 ∷ []),
  length-append message.s4 (10 ∷ []),
)

line_long :
    (date : Date) (message : LogData)
    → 1318 ≤ length message.s1 + (length message.s2 + (length message.s3 + length message.s4))
    → 1318 ≤ length (line date message)
unfolding line
line_long date message long =
    concat_long
      (digits 4 date.year
        ∷ (45 ∷ digits 2 date.month)
        ∷ (45 ∷ digits 2 date.day)
        ∷ (32 ∷ digits 2 date.hour)
        ∷ (58 ∷ digits 2 date.minute)
        ∷ (58 ∷ digits 2 date.second)
        ∷ (46 ∷ digits 3 date.fraction)
        ∷ (9 ∷ signed 32 message.thread_id)
        ∷ (9 ∷ decimal_from 20 message.id)
        ∷ number_columns message.numbers
        ∷ [])
      (texts message) (texts_long message long)

-- With a file open, a message whose texts have 1318 bytes in all is written past the end of the
-- buffer for its line.
pub write_line_long :
    (date : Date) (message : LogData) (s : ClientSession) (path : Bytes)
    → s.file ≡ some path
    → 1318 ≤ length message.s1 + (length message.s2 + (length message.s3 + length message.s4))
    → write_line date message s ≡ none
unfolding write_line
write_line_long date message s path open_path long =
    rw (open_path, too_long_lem line_buffer_size (line date message) (line_long date message long))
      refl

not_empty : (name : Bytes) → 0 < length name → is_empty name ≡ false
not_empty [] h = absurd (omega arith)
not_empty (c ∷ rest) h = refl

length-digits : (width n : ℕ) → length (digits width n) ≡ width
unfolding digits
length-digits zero n = refl
length-digits (suc width) n = omega (
  arith,
  length-append (digits width (n / 10)) ((48 + n % 10) ∷ []),
  length-digits width (n / 10),
)

length-filename : (name : Bytes) (f : FileDate) → length (filename name f) ≡ length name + 18
unfolding filename
length-filename name f =
    let day = digits 2 f.day ++ (32 ∷ digits 2 f.hour ++ 46 ∷ 116 ∷ 120 ∷ 116 ∷ []) in
    let month = digits 2 f.month ++ (45 ∷ day) in
    omega (
      arith,
      length-append name (95 ∷ digits 4 f.year ++ (45 ∷ month)),
      length-append (digits 4 f.year) (45 ∷ month),
      length-append (digits 2 f.month) (45 ∷ day),
      length-append (digits 2 f.day) (32 ∷ digits 2 f.hour ++ 46 ∷ 116 ∷ 120 ∷ 116 ∷ []),
      length-append (digits 2 f.hour) (46 ∷ 116 ∷ 120 ∷ 116 ∷ []),
      length-digits 4 f.year,
      length-digits 2 f.month,
      length-digits 2 f.day,
      length-digits 2 f.hour,
    )

login_lem :
    (message : LogData) (s : ClientSession)
    → s.server_name ≡ []
    → message.id ≡ 101
    → check_name message.s4 ≡ true
    → login message s ≡ record s { server_name = message.s4 }
unfolding login
login_lem message s unnamed login_id named = rw (unnamed, login_id, named) refl

update_opened_file_long :
    (config : Config) (date : Date) (s : ClientSession)
    → s.file ≡ none
    → 494 ≤ length s.server_name
    → update_opened_file config date s ≡ none
unfolding update_opened_file
update_opened_file_long config date s closed long =
    let some_name : is_empty s.server_name ≡ false = not_empty s.server_name (omega arith) in
    rw
      (
        closed,
        some_name,
        too_long_lem 512 (filename s.server_name (date_of date))
            (omega (arith, length-filename s.server_name (date_of date))),
      )
      refl

-- A login with a valid name of 494 characters or more is written past the end of the buffer for
-- the name of the file, if the session has neither name nor file.
pub store_long_name :
    (config : Config) (date : Date) (message : LogData) (s : ClientSession)
    → s.server_name ≡ []
    → message.id ≡ 101
    → check_name message.s4 ≡ true
    → s.file ≡ none
    → 494 ≤ length message.s4
    → store config date message s ≡ none
unfolding store
store_long_name config date message s unnamed login_id named closed long =
    rw
      (
        login_lem message s unnamed login_id named,
        update_opened_file_long config date (record s { server_name = message.s4 }) closed long,
      )
      refl
