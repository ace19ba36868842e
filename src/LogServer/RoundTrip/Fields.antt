-- ===== src/LogServer/RoundTrip/Fields.antt =====
-- The numbers of a log message: what LogServerClient.cpp of rzauth writes, ClientSession.cpp of rzlog reads.
use rzu.Prelude.{
  ℕ, zero, suc, ◌/◌, ◌^◌, ◌<◌, ◌≡◌, refl, ◌∙◌, sym, ap, some, List, [], ◌∷◌, ◌++◌, Bytes, length,
  append_assoc, take, arith,
}
use rzu.Auth.Log.Client.{
  Message, little_endian, write_numbers, len, frame_size, write_header, write_frame,
}
use rzu.LogServer.Session.{Header, number, numbers, header}

-- A number of so many bytes.
abbrev pub Fits : ℕ → ℕ → Type 0
Fits zero n = n ≡ 0
Fits (suc width) n = Fits width (n / 256)

abbrev pub AllFit : List ℕ → Type 0
AllFit [] = Unit
AllFit (n ∷ rest) = Fits 8 n × AllFit rest

number-little_endian :
    (width n : ℕ) (rest : Bytes)
    → Fits width n
    → number width (little_endian width n ++ rest) ≡ some (n, rest)
unfolding number little_endian
number-little_endian zero n rest h = ground arith
number-little_endian (suc width) n rest h =
    rw (number-little_endian width (n / 256) rest h) (ground arith)

numbers-write_numbers :
    (values : List ℕ) (rest : Bytes)
    → AllFit values
    → numbers (length values) (write_numbers values ++ rest) ≡ some (values, rest)
unfolding numbers write_numbers
numbers-write_numbers [] rest h = refl
numbers-write_numbers (n ∷ values) rest h =
    rw
      (
        append_assoc (little_endian 8 n) (write_numbers values) rest,
        number-little_endian 8 n (write_numbers values ++ rest) h.0,
        numbers-write_numbers values rest h.1,
      )
      refl

-- The four texts.
abbrev pub texts : Message → Bytes
texts m =
    take (len m.str1) m.str1
    ++ (take (len m.str2) m.str2 ++ (take (len m.str3) m.str3 ++ take (len m.str4) m.str4))

-- What follows the id and the size.
abbrev pub body_of : Message → Bytes
body_of m =
    little_endian 1 m.type
    ++ (little_endian 4 m.thread_id
        ++ (write_numbers m.numbers
            ++ (little_endian 2 (len m.str1)
                ++ (little_endian 2 (len m.str2)
                    ++ (little_endian 2 (len m.str3)
                        ++ (little_endian 2 (len m.str4) ++ texts m))))))

pub write_frame-body_of :
    (m : Message)
    → write_frame m ≡ little_endian 2 m.id ++ (little_endian 2 (frame_size m) ++ body_of m)
unfolding write_frame write_header
write_frame-body_of m = simp append_assoc

-- A message that the source makes: eleven numbers of 64 bits, a thread id of 32, a type of 8.
pub record IsMessage (m : Message) : Type 0 where
  pub id_fits : m.id < 2 ^ 16
  pub type_fits : m.type < 256
  pub thread_fits : m.thread_id < 2 ^ 32
  pub eleven : length m.numbers ≡ 11
  pub numbers_fit : AllFit m.numbers

abbrev pub header_of : Message → Header
header_of m = record {
  thread_id = m.thread_id;
  numbers = m.numbers;
  len1 = len m.str1;
  len2 = len m.str2;
  len3 = len m.str3;
  len4 = len m.str4;
}

numbers_eleven :
    (m : Message) (rest : Bytes)
    → IsMessage m
    → numbers 11 (write_numbers m.numbers ++ rest) ≡ some (m.numbers, rest)
numbers_eleven m rest h =
    ap (λ n. numbers n (write_numbers m.numbers ++ rest)) (sym h.eleven)
    ∙ numbers-write_numbers m.numbers rest h.numbers_fit

one_byte-Fits : (m : Message) → IsMessage m → Fits 1 m.type
one_byte-Fits m h = omega arith

four_bytes-Fits : (m : Message) → IsMessage m → Fits 4 m.thread_id
four_bytes-Fits m h = omega arith

number-len :
    (text rest : Bytes) → number 2 (little_endian 2 (len text) ++ rest) ≡ some (len text, rest)
number-len text rest = number-little_endian 2 (len text) rest (omega arith)

pub header-body_of : (m : Message) → IsMessage m → header (body_of m) ≡ some (header_of m)
unfolding header
header-body_of m h =
    rw
      (
        number-little_endian 1 m.type _ (one_byte-Fits m h),
        number-little_endian 4 m.thread_id _ (four_bytes-Fits m h),
        numbers_eleven m _ h,
        number-len m.str1 _,
        number-len m.str2 _,
        number-len m.str3 _,
        number-len m.str4 _,
      )
      refl
