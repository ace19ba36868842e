-- ===== src/LogServer/RoundTrip/Texts.antt =====
-- The texts of a log message, from LogServerClient.cpp of rzauth to ClientSession.cpp of rzlog.
use rzu.Prelude.{
  ℕ, ◌+◌, ◌-◌, ◌^◌, ◌<◌, ◌≡◌, refl, ◌∙◌, sym, ap, false, some, List, [], ◌∷◌, ◌++◌, Bytes, length,
  length-append, append_assoc, take, take_all, drop, drop-append_past, ltb, ◌==◌, arith, Bool-cases,
  inl, inr,
}
use rzu.Auth.Log.Client.{Message, little_endian, write_numbers, len}
use rzu.LogServer.Session.{LogData, above, below, read_text, text_at}
use rzu.LogServer.RoundTrip.Fields.{texts, body_of}

abbrev pub NoZeros : Bytes → Type 0
NoZeros [] = Unit
NoZeros (c ∷ rest) = (0 < c) × NoZeros rest

-- A text whose length is an int16_t.
abbrev pub IsText : Bytes → Type 0
IsText text = (length text < 2 ^ 15) × NoZeros text

pub len_lem : (text : Bytes) → IsText text → len text ≡ length text
len_lem text h = omega arith

take-len : (text : Bytes) → IsText text → take (len text) text ≡ text
take-len text h = rw (len_lem text h) (take_all text)

pub above-len : (text : Bytes) → IsText text → above (len text) ≡ length text
above-len text h = ground arith

pub below-len : (text : Bytes) → IsText text → below (len text) ≡ 0
below-len text h = ground arith

read_text_lem :
    (text rest : Bytes) → NoZeros text → read_text (length text) (text ++ rest) ≡ some text
unfolding read_text
read_text_lem [] rest h = refl
read_text_lem (c ∷ text) rest h = ground (arith, read_text_lem text rest h.1)

pub drop_exact {ℓ} : {A : Type ℓ} (n : ℕ) (xs ys : List A) → length xs ≡ n → drop n (xs ++ ys) ≡ ys
drop_exact n xs ys e =
    drop-append_past n xs ys (omega arith)
    ∙ ap (λ k. drop k ys) {x = n - length xs} {y = 0} (omega arith)

text_start :
    (head before xs : Bytes) (forth back : ℕ)
    → length head ≡ 105
    → length before ≡ forth
    → back ≡ 0
    → drop (105 + forth - back) (head ++ (before ++ xs)) ≡ xs
text_start head before xs forth back e f b =
    ap (drop (105 + forth - back)) (sym (append_assoc head before xs))
    ∙ drop_exact _ (head ++ before) xs (omega (arith, length-append head before))

empty_lem : (text : Bytes) → length text ≡ 0 → text ≡ []
empty_lem [] e = refl
empty_lem (c ∷ text) e = absurd (omega arith)

b_not : (forth back : ℕ) → back ≡ 0 → ltb (105 + forth) back ≡ false
b_not forth back b = ground arith

pub text_at_lem :
    (head before text rest : Bytes) (forth back : ℕ)
    → length head ≡ 105
    → length before ≡ forth
    → back ≡ 0
    → IsText text
    → text_at forth back (len text) (head ++ (before ++ (text ++ rest))) ≡ some text
unfolding text_at
text_at_lem head before text rest forth back e f b h =
    let start = text_start head before (text ++ rest) forth back e f b in
    let long = above-len text h in
    let read = read_text_lem text rest h.1 in
    elim (Bool-cases (length text == 0)) [
      | inl z ↦ rw (long, z) (ap some (sym (empty_lem text (ground arith))))
      | inr n ↦ rw (long, n, b_not forth back b, start) read
    ]

-- Where the four texts of a message start.
abbrev pub head_of : Message → Bytes
head_of m =
    little_endian 1 m.type
    ++ (little_endian 4 m.thread_id
        ++ (write_numbers m.numbers
            ++ (little_endian 2 (len m.str1)
                ++ (little_endian 2 (len m.str2)
                    ++ (little_endian 2 (len m.str3) ++ little_endian 2 (len m.str4))))))

pub body_of-head_of : (m : Message) → body_of m ≡ head_of m ++ texts m
body_of-head_of m = simp append_assoc

pub record HasTexts (m : Message) : Type 0 where
  pub text1 : IsText m.str1
  pub text2 : IsText m.str2
  pub text3 : IsText m.str3
  pub text4 : IsText m.str4

pub texts_lem : (m : Message) → HasTexts m → texts m ≡ m.str1 ++ (m.str2 ++ (m.str3 ++ m.str4))
texts_lem m t =
    rw
      (
        take-len m.str1 t.text1,
        take-len m.str2 t.text2,
        take-len m.str3 t.text3,
        take-len m.str4 t.text4,
      )
      refl

abbrev pub data_of : Message → LogData
data_of m = record {
  id = m.id;
  thread_id = m.thread_id;
  numbers = m.numbers;
  s1 = m.str1;
  s2 = m.str2;
  s3 = m.str3;
  s4 = m.str4;
}
