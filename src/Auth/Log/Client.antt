-- ===== src/Auth/Log/Client.antt =====
-- rzauth/src/AuthServer/LogServerClient.cpp: messages that are sent, kept until the log server is
-- reached, or dropped. A text comes with its length known.
use rzu.Prelude.{
  ℕ, zero, suc, ◌+◌, ◌*◌, ◌/◌, ◌%◌, ◌^◌, List, [], ◌∷◌, ◌++◌, Bytes, length, take, ltb,
  if◌then◌else◌,
}
use rzu.Net.Streams.{Stream, is_out, is_connected, connected}

-- Eleven numbers of 64 bits, and four texts.
pub record Message : Type 0 where
  pub id : ℕ
  pub type : ℕ
  pub thread_id : ℕ
  pub numbers : List ℕ
  pub str1 : Bytes
  pub str2 : Bytes
  pub str3 : Bytes
  pub str4 : Bytes

pub record LogServerClient : Type 0 where
  pub stream : Stream
  pub pending_messages : List Message
  pub output : Bytes

-- The lowest bytes of a number, the lowest first.
unfoldable pub little_endian : ℕ → ℕ → Bytes
little_endian zero n = []
little_endian (suc width) n = n % 256 ∷ little_endian width (n / 256)

unfoldable pub write_numbers : List ℕ → Bytes
write_numbers [] = []
write_numbers (n ∷ rest) = little_endian 8 n ++ write_numbers rest

-- A length as a uint16_t.
abbrev pub len : Bytes → ℕ
len text = length text % 2 ^ 16

-- sizeof(LS_11N4S), packed.
abbrev pub header_size : ℕ
header_size = 2 + 2 + 1 + 4 + 11 * 8 + 4 * 2

abbrev pub frame_size : Message → ℕ
frame_size m = (header_size + (len m.str1 + (len m.str2 + (len m.str3 + len m.str4)))) % 2 ^ 16

unfoldable pub write_header : Message → Bytes
write_header m =
    little_endian 2 m.id
    ++ (little_endian 2 (frame_size m)
        ++ (little_endian 1 m.type
            ++ (little_endian 4 m.thread_id
                ++ (write_numbers m.numbers
                    ++ (little_endian 2 (len m.str1)
                        ++ (little_endian 2 (len m.str2)
                            ++ (little_endian 2 (len m.str3) ++ little_endian 2 (len m.str4))))))))

-- The texts, each as far as its length says.
unfoldable pub write_frame : Message → Bytes
write_frame m =
    write_header m
    ++ (take (len m.str1) m.str1
        ++ (take (len m.str2) m.str2 ++ (take (len m.str3) m.str3 ++ take (len m.str4) m.str4)))

abbrev pub write_message : Message → LogServerClient → LogServerClient
write_message m client = record client { output = client.output ++ write_frame m }

-- A message is written, or kept until the client is connected.
unfoldable pub send_or_keep : Message → LogServerClient → LogServerClient
unfolding write_frame
send_or_keep m client =
    if is_connected client.stream
    then write_message m client
    else if ltb (length client.pending_messages) 100
    then record client { pending_messages = client.pending_messages ++ m ∷ [] }
    else client

unfoldable pub send_log : Message → LogServerClient → LogServerClient
unfolding send_or_keep
send_log m client = if is_out client.stream then client else send_or_keep m client

unfoldable pub write_all : List Message → LogServerClient → LogServerClient
unfolding write_frame
write_all [] client = client
write_all (m ∷ rest) client = write_all rest (write_message m client)

abbrev pub lm_server_login : ℕ → Bytes → Message
lm_server_login pid app_name = record {
  id = 101;
  type = 1;
  thread_id = pid;
  numbers = 0 ∷ 0 ∷ 0 ∷ pid ∷ 0 ∷ 0 ∷ 0 ∷ 0 ∷ 0 ∷ 0 ∷ 0 ∷ [];
  str1 = [];
  str2 = [];
  str3 = b'M' ∷ b'a' ∷ b'i' ∷ b'n' ∷ [];
  str4 = app_name;
}

abbrev pub lm_server_info : ℕ → Bytes → Message
lm_server_info pid text = record {
  id = 102;
  type = 1;
  thread_id = pid;
  numbers = 0 ∷ 0 ∷ 0 ∷ 0 ∷ 0 ∷ 0 ∷ 0 ∷ 0 ∷ 0 ∷ 0 ∷ 0 ∷ [];
  str1 = [];
  str2 = [];
  str3 = [];
  str4 = text;
}

abbrev pub started : Bytes
started = b'S' ∷ b'T' ∷ b'A' ∷ b'R' ∷ b'T' ∷ []

-- The client says that it is there, then what was pending.
unfoldable pub on_connected : ℕ → Bytes → LogServerClient → LogServerClient
unfolding send_log write_all
on_connected pid app_name client =
    let greeted =
      send_log (lm_server_info pid started)
        (send_log (lm_server_login pid app_name) (record client { stream = connected })) in
    record (write_all greeted.pending_messages greeted) { pending_messages = [] }
