-- ===== src/LogServer/Tests.antt =====
-- Uses of the theorems on rzlog/src/LogServer.
use rzu.Prelude.{
  Returns, ℕ, zero, suc, ◌≡◌, refl, true, false, none, some, [], ◌∷◌, ◌++◌, Bytes, arith,
}
use rzu.Auth.Log.Client.{Message}
use rzu.Auth.Log.Pending.{write_frames}
use rzu.LogServer.Reader.{LogPacket, on_data_received}
use rzu.LogServer.Session.{Header, LogData, header, number, numbers}
use rzu.LogServer.Files.{
  ClientSession, Config, Date, check_name, write_line, store, on_packet_received,
}
use rzu.LogServer.RoundTrip.Fields.{IsMessage}
use rzu.LogServer.RoundTrip.Texts.{IsText, HasTexts}
use rzu.LogServer.RoundTrip.Stream.{IsSendable, IsRead, on_data_received-write_frames}
use rzu.LogServer.Faults.{
  on_data_received_small, read_texts_negative, write_line_long, store_long_name,
}

abbrev many : ℕ → ℕ → Bytes
many zero c = []
many (suc count) c = c ∷ many count c

abbrev line_of : Bytes → Message
line_of text = record {
  id = 104;
  type = 1;
  thread_id = 3072;
  numbers = 0 ∷ 1 ∷ 0 ∷ 3072 ∷ 0 ∷ 0 ∷ 0 ∷ 0 ∷ 0 ∷ 0 ∷ 18446744073709551615 ∷ [];
  str1 = text;
  str2 = [];
  str3 = b'A' ∷ b'u' ∷ b't' ∷ b'h' ∷ [];
  str4 = [];
}

abbrev first : Message
first = line_of (b'M' ∷ b'a' ∷ b'i' ∷ b'n' ∷ [])

abbrev second : Message
second = line_of []

line-IsMessage : (text : Bytes) → IsMessage (line_of text)
line-IsMessage text = record {
  id_fits = omega arith;
  type_fits = omega arith;
  thread_fits = omega arith;
  eleven = refl;
  numbers_fit =
      (refl, (refl, (refl, (refl, (refl, (refl, (refl, (refl, (refl, (refl, (refl, tt)))))))))));
}

line-HasTexts : (text : Bytes) → IsText text → HasTexts (line_of text)
line-HasTexts text h = record {
  text1 = h;
  text2 = (omega arith, tt);
  text3 = (omega arith, (omega arith, (omega arith, (omega arith, (omega arith, tt)))));
  text4 = (omega arith, tt);
}

first-IsSendable : IsSendable first
first-IsSendable = record {
  message = line-IsMessage first.str1;
  has_texts =
      line-HasTexts first.str1
        (omega arith, (omega arith, (omega arith, (omega arith, (omega arith, tt)))));
  within = omega arith;
}

second-IsSendable : IsSendable second
second-IsSendable = record {
  message = line-IsMessage [];
  has_texts = line-HasTexts [] (omega arith, tt);
  within = omega arith;
}

on_data_received-write_frames_example : Returns (IsRead (first ∷ second ∷ [])) (
    on_data_received
      (record { id = 7; size = 0; discard_packet = false })
      (write_frames (first ∷ second ∷ [])))
on_data_received-write_frames_example =
    on_data_received-write_frames 7 (first ∷ second ∷ [])
      (first-IsSendable, (second-IsSendable, tt))

on_data_received_small_example :
    on_data_received
      (record { id = 0; size = 0; discard_packet = false })
      (104 ∷ 0 ∷ 4 ∷ 0 ∷ 1 ∷ 2 ∷ [])
    ≡ some (record {
      buffer = record { id = 104; size = 65532; discard_packet = false };
      available = 1 ∷ 2 ∷ [];
      dispatched = [];
    })
on_data_received_small_example =
    on_data_received_small 0 104 0 4 0 (1 ∷ 2 ∷ []) (omega arith) (omega arith)

abbrev config : Config
config = record { log_dir = b'.' ∷ []; opens = λ path. true }

abbrev date : Date
date = record { year = 2024; month = 2; day = 29; hour = 12; minute = 5; second = 9; fraction = 70 }

abbrev session : ClientSession
session = record {
  server_name = [];
  file = none;
  file_date = record { year = 0; month = 0; day = 0; hour = 0 };
  written = [];
}

-- The first length is -106, the second 1.
abbrev negative : LogPacket
negative = record {
  id = 104;
  size = 105;
  body = many 93 0 ++ (150 ∷ 255 ∷ 1 ∷ 0 ∷ 0 ∷ 0 ∷ 0 ∷ 0 ∷ []);
}

abbrev negative_header : Header
negative_header = record {
  thread_id = 0;
  numbers = many 11 0;
  len1 = 65430;
  len2 = 1;
  len3 = 0;
  len4 = 0;
}

negative_lem : header negative.body ≡ some negative_header
unfolding header number numbers
negative_lem = refl

read_texts_negative_example : on_packet_received config date negative session ≡ none
read_texts_negative_example =
    read_texts_negative config date negative negative_header session negative_lem (omega arith)
      (omega arith) refl

abbrev data_with : ℕ → Bytes → Bytes → LogData
data_with id s1 s4 = record {
  id = id;
  thread_id = 3072;
  numbers = many 11 0;
  s1 = s1;
  s2 = [];
  s3 = [];
  s4 = s4;
}

abbrev open_session : ClientSession
open_session = record session { server_name = b'A' ∷ []; file = some (b'a' ∷ []) }

write_line_long_example :
    write_line date (data_with 104 (many 1000 b'x') (many 318 b'y')) open_session ≡ none
write_line_long_example =
    write_line_long date (data_with 104 (many 1000 b'x') (many 318 b'y')) open_session (b'a' ∷ [])
      refl (omega arith)

long_name : check_name (many 494 b'A') ≡ true
unfolding check_name
long_name = refl

store_long_name_example : store config date (data_with 101 [] (many 494 b'A')) session ≡ none
store_long_name_example =
    store_long_name config date (data_with 101 [] (many 494 b'A')) session refl refl long_name refl
      (omega arith)
