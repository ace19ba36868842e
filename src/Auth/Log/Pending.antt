-- ===== src/Auth/Log/Pending.antt =====
-- What reaches the log server (rzauth/src/AuthServer/LogServerClient.cpp).
use rzu.Prelude.{
  ℕ, zero, suc, ◌+◌, ◌*◌, ◌/◌, ◌%◌, ◌^◌, ◌≤◌, ◌<◌, ◌≡◌, refl, ap, ◌∙◌, List, [], ◌∷◌, ◌++◌, Bytes,
  length, length-append, append_assoc, append-nil, take, arith,
}
use rzu.Net.Streams.{Stream, connecting, connected}
use rzu.Auth.Log.Client.{
  Message, LogServerClient, lm_server_login, lm_server_info, started, send_or_keep, little_endian,
  write_numbers, len, header_size, frame_size, write_header, write_frame, send_log, write_all,
  on_connected,
}

pub length-little_endian : (width n : ℕ) → length (little_endian width n) ≡ width
unfolding little_endian
length-little_endian zero n = refl
length-little_endian (suc width) n = omega (arith, length-little_endian width (n / 256))

pub length-write_numbers : (numbers : List ℕ) → length (write_numbers numbers) ≡ 8 * length numbers
unfolding write_numbers
length-write_numbers [] = refl
length-write_numbers (n ∷ rest) = omega (
  arith,
  length-append (little_endian 8 n) (write_numbers rest),
  length-little_endian 8 n,
  length-write_numbers rest,
)

length-take_within : {A : Type 0} → (n : ℕ) (xs : List A) → n ≤ length xs → length (take n xs) ≡ n
length-take_within zero xs h = refl
length-take_within (suc n) [] h = absurd (omega arith)
length-take_within (suc n) (x ∷ xs) h = omega (arith, length-take_within n xs (omega arith))

length-text : (text : Bytes) → length (take (len text) text) ≡ len text
length-text text = length-take_within (len text) text (omega arith)

length-write_header : (m : Message) → length m.numbers ≡ 11 → length (write_header m) ≡ header_size
unfolding write_header little_endian
length-write_header m eleven = omega (
  arith,
  length-append (write_numbers m.numbers) (
      little_endian 2 (len m.str1)
      ++ (little_endian 2 (len m.str2)
          ++ (little_endian 2 (len m.str3) ++ little_endian 2 (len m.str4)))),
  length-write_numbers m.numbers,
)

length-texts :
    (a b c d : Bytes)
    → length (take (len a) a ++ (take (len b) b ++ (take (len c) c ++ take (len d) d)))
      ≡ len a + (len b + (len c + len d))
length-texts a b c d =
    rw
      (
        length-append (take (len a) a) (take (len b) b ++ (take (len c) c ++ take (len d) d)),
        length-append (take (len b) b) (take (len c) c ++ take (len d) d),
        length-append (take (len c) c) (take (len d) d),
        length-text a,
        length-text b,
        length-text c,
        length-text d,
      )
      refl

-- The size field of a message with eleven numbers is the length of all that is written for it,
-- modulo 2^16.
pub length-write_frame :
    (m : Message) → length m.numbers ≡ 11 → length (write_frame m) % 2 ^ 16 ≡ frame_size m
unfolding write_frame
length-write_frame m eleven =
    rw
      (
        length-append (write_header m) (
            take (len m.str1) m.str1
            ++ (take (len m.str2) m.str2
                ++ (take (len m.str3) m.str3 ++ take (len m.str4) m.str4))),
        length-texts m.str1 m.str2 m.str3 m.str4,
        length-write_header m eleven,
      )
      refl

-- The bytes of the messages, in their order.
abbrev pub write_frames : List Message → Bytes
write_frames [] = []
write_frames (m ∷ rest) = write_frame m ++ write_frames rest

abbrev pub send_all : List Message → LogServerClient → LogServerClient
send_all [] client = client
send_all (m ∷ rest) client = send_all rest (send_log m client)

write_all_lem :
    (messages : List Message) (client : LogServerClient)
    → write_all messages client ≡ record client { output = client.output ++ write_frames messages }
unfolding write_all
write_all_lem [] client = rw (append-nil client.output) refl
write_all_lem (m ∷ rest) client =
    rw
      (
        write_all_lem rest (record client { output = client.output ++ write_frame m }),
        append_assoc client.output (write_frame m) (write_frames rest),
      )
      refl

abbrev pub client_with : Stream → List Message → Bytes → LogServerClient
client_with stream pending output = record {
  stream = stream;
  pending_messages = pending;
  output = output;
}

dropped :
    (m : Message) (pending : List Message) (output : Bytes)
    → 100 ≤ length pending
    → send_log m (client_with connecting pending output) ≡ client_with connecting pending output
unfolding send_log send_or_keep
dropped m pending output full = ground arith

kept :
    (m : Message) (pending : List Message) (output : Bytes)
    → length pending < 100
    → send_log m (client_with connecting pending output)
      ≡ client_with connecting (pending ++ m ∷ []) output
unfolding send_log send_or_keep
kept m pending output room = ground arith

send_all_lem :
    (sent pending : List Message) (output : Bytes) (room : ℕ)
    → length pending + room ≡ 100
    → send_all sent (client_with connecting pending output)
      ≡ client_with connecting (pending ++ take room sent) output
send_all_lem [] pending output zero e = rw (append-nil pending) refl
send_all_lem [] pending output (suc room) e = rw (append-nil pending) refl
send_all_lem (m ∷ sent) pending output zero e =
    rw (dropped m pending output (omega arith)) (send_all_lem sent pending output zero e ∙ refl)
send_all_lem (m ∷ sent) pending output (suc room) e =
    rw
      (
        kept m pending output (omega arith),
        send_all_lem sent (pending ++ m ∷ []) output room
            (omega (arith, length-append pending (m ∷ []))),
        append_assoc pending (m ∷ []) (take room sent),
      )
      refl

append_thrice : (a b c d : Bytes) → ((a ++ b) ++ c) ++ d ≡ a ++ (b ++ (c ++ d))
append_thrice a b c d = append_assoc (a ++ b) c d ∙ append_assoc a b (c ++ d)

-- While the client connects the first hundred messages are kept; once it is connected it writes
-- its login, the start, and then those messages in their order, and keeps none.
pub on_connected-send_log :
    (pid : ℕ) (app_name : Bytes) (sent : List Message) (output : Bytes)
    → on_connected pid app_name (send_all sent (client_with connecting [] output))
      ≡ client_with connected [] (
          output
          ++ (write_frame (lm_server_login pid app_name)
              ++ (write_frame (lm_server_info pid started) ++ write_frames (take 100 sent))))
unfolding on_connected send_log send_or_keep write_all
on_connected-send_log pid app_name sent output =
    ap (on_connected pid app_name) (send_all_lem sent [] output 100 refl)
    ∙ (ap {A = LogServerClient} {B = LogServerClient} (λ c. record c { pending_messages = [] })
          (write_all_lem (take 100 sent) (
            client_with connected (take 100 sent) (
              (output ++ write_frame (lm_server_login pid app_name))
              ++ write_frame (lm_server_info pid started))))
        ∙ ap (client_with connected []) (
            append_thrice output (write_frame (lm_server_login pid app_name))
              (write_frame (lm_server_info pid started)) (write_frames (take 100 sent))))
