-- ===== src/LogServer/RoundTrip/Messages.antt =====
-- Log messages from LogServerClient.cpp of rzauth to the reader of rzlog, and what it reads in them.
use rzu.Prelude.{
  ◌+◌, ◌/◌, ◌%◌, ◌^◌, ◌∷◌, Bytes, ◌<◌, ◌≡◌, refl, ◌∙◌, sym, ap, false, Option, none, some, [], ◌++◌,
  length, length-append, append_assoc, append-nil, if◌then◌else◌, ◌>>=◌, arith,
}
use rzu.Auth.Log.Client.{Message, little_endian, write_numbers, len, frame_size, header_size}
use rzu.Auth.Log.Pending.{length-write_numbers}
use rzu.LogServer.Reader.{LogPacket}
use rzu.LogServer.Session.{
  LogData, header, above, below, too_short, text_at, read_texts, message_bytes,
}
use rzu.LogServer.RoundTrip.Fields.{body_of, IsMessage, header_of, header-body_of}
use rzu.LogServer.RoundTrip.Texts.{
  len_lem, text_at_lem, above-len, below-len, head_of, body_of-head_of, HasTexts, texts_lem,
  data_of,
}

pub length-head_of : (m : Message) → IsMessage m → length (head_of m) ≡ 101
unfolding little_endian
length-head_of m h = omega (
  arith,
  h.eleven,
  length-append (write_numbers m.numbers) (
      little_endian 2 (len m.str1)
      ++ (little_endian 2 (len m.str2)
          ++ (little_endian 2 (len m.str3) ++ little_endian 2 (len m.str4)))),
  length-write_numbers m.numbers,
)

-- What `onPacketReceived` reads in a message that is long enough.
abbrev pub logged : LogPacket → Option LogData
logged packet =
    header packet.body >>= λ h. if too_short h packet.size then none else read_texts packet h

abbrev pub packet_of : Message → LogPacket
packet_of m = record { id = m.id; size = frame_size m; body = body_of m }

-- The four lengths do not wrap the size.
abbrev pub IsWithin : Message → Type 0
IsWithin m =
    header_size + (length m.str1 + (length m.str2 + (length m.str3 + length m.str4))) < 2 ^ 16

-- What a message starts with, before its texts.
abbrev start_of : Message → Bytes
start_of m = m.id % 256 ∷ m.id / 256 ∷ frame_size m % 256 ∷ frame_size m / 256 ∷ head_of m

length-start_of : (m : Message) → IsMessage m → length (start_of m) ≡ 105
length-start_of m h = omega (arith, length-head_of m h)

module _ (m : Message) (h : IsMessage m) (t : HasTexts m) where
  pub body_lem : body_of m ≡ head_of m ++ (m.str1 ++ (m.str2 ++ (m.str3 ++ m.str4)))
  body_lem = body_of-head_of m ∙ ap (λ l. head_of m ++ l) (texts_lem m t)

  message_lem :
      message_bytes (packet_of m) ≡ start_of m ++ (m.str1 ++ (m.str2 ++ (m.str3 ++ m.str4)))
  message_lem =
      ap (λ l. m.id % 256 ∷ m.id / 256 ∷ frame_size m % 256 ∷ frame_size m / 256 ∷ l) body_lem

  at_1 : text_at 0 0 (len m.str1) (message_bytes (packet_of m)) ≡ some m.str1
  at_1 =
      ap (text_at 0 0 (len m.str1)) message_lem
      ∙ text_at_lem (start_of m) [] m.str1 _ 0 0 (length-start_of m h) refl refl t.text1

  at_2 :
      text_at (above (len m.str1)) (below (len m.str1)) (len m.str2) (message_bytes (packet_of m))
      ≡ some m.str2
  at_2 =
      ap (text_at (above (len m.str1)) (below (len m.str1)) (len m.str2)) message_lem
      ∙ text_at_lem (start_of m) m.str1 m.str2 _ _ _ (length-start_of m h)
          (sym (above-len m.str1 t.text1)) (below-len m.str1 t.text1) t.text2

  at_3 :
      text_at
        (above (len m.str1) + above (len m.str2))
        (below (len m.str1) + below (len m.str2))
        (len m.str3)
        (message_bytes (packet_of m))
      ≡ some m.str3
  at_3 =
      ap
        (text_at (above (len m.str1) + above (len m.str2)) (below (len m.str1) + below (len m.str2))
          (len m.str3))
        (message_lem
          ∙ ap (λ l. start_of m ++ l) (sym (append_assoc m.str1 m.str2 (m.str3 ++ m.str4))))
      ∙ text_at_lem (start_of m) (m.str1 ++ m.str2) m.str3 m.str4 _ _ (length-start_of m h)
          (omega (
            arith,
            length-append m.str1 m.str2,
            above-len m.str1 t.text1,
            above-len m.str2 t.text2,
          ))
          (omega (arith, below-len m.str1 t.text1, below-len m.str2 t.text2)) t.text3

  last_alone :
      m.str1 ++ (m.str2 ++ (m.str3 ++ m.str4)) ≡ (m.str1 ++ (m.str2 ++ m.str3)) ++ (m.str4 ++ [])
  last_alone = simp (append_assoc, append-nil)

  at_4 :
      text_at
        (above (len m.str1) + (above (len m.str2) + above (len m.str3)))
        (below (len m.str1) + (below (len m.str2) + below (len m.str3)))
        (len m.str4)
        (message_bytes (packet_of m))
      ≡ some m.str4
  at_4 =
      ap
        (text_at (above (len m.str1) + (above (len m.str2) + above (len m.str3)))
          (below (len m.str1) + (below (len m.str2) + below (len m.str3))) (len m.str4))
        (message_lem ∙ ap (λ l. start_of m ++ l) last_alone)
      ∙ text_at_lem (start_of m) (m.str1 ++ (m.str2 ++ m.str3)) m.str4 [] _ _ (length-start_of m h)
          (omega (
            arith,
            length-append m.str1 (m.str2 ++ m.str3),
            length-append m.str2 m.str3,
            above-len m.str1 t.text1,
            above-len m.str2 t.text2,
            above-len m.str3 t.text3,
          ))
          (omega
            (arith, below-len m.str1 t.text1, below-len m.str2 t.text2, below-len m.str3 t.text3))
          t.text4

  pub frame_size_lem :
      IsWithin m
      → frame_size m ≡ 105 + (length m.str1 + (length m.str2 + (length m.str3 + length m.str4)))
  frame_size_lem w = omega (
    arith,
    len_lem m.str1 t.text1,
    len_lem m.str2 t.text2,
    len_lem m.str3 t.text3,
    len_lem m.str4 t.text4,
  )

  read_texts_lem : read_texts (packet_of m) (header_of m) ≡ some (data_of m)
  unfolding read_texts
  read_texts_lem = rw (at_1, at_2, at_3, at_4) refl

  too_short_lem : IsWithin m → too_short (header_of m) (frame_size m) ≡ false
  too_short_lem w = ground (
    arith,
    frame_size_lem w,
    above-len m.str1 t.text1,
    above-len m.str2 t.text2,
    above-len m.str3 t.text3,
    above-len m.str4 t.text4,
  )

  pub logged-packet_of : IsWithin m → logged (packet_of m) ≡ some (data_of m)
  logged-packet_of w = rw (header-body_of m h, too_short_lem w) read_texts_lem
