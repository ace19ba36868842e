-- ===== src/Upload/Icons/Requests.antt =====
-- What IconServerSession.cpp makes of a request without header fields, and which files it serves.
use rzu.Prelude.{
  ℕ, ◌+◌, ◌-◌, ◌≤◌, ◌<◌, ◌≡◌, ◌≢◌, refl, ◌∙◌, ap, true, Option, none, some, List, [], ◌∷◌, ◌++◌,
  Bytes, length, length-append, append_assoc, append-nil, take, drop, take_all, take-append,
  drop-append, drop_past, ◌>>=◌, decide_holds, arith, Option-cases, Bool-cases, inl, inr,
}
use rzu.Prelude.Keyed.{bytes_discrete}
use rzu.Upload.Icons.Parser.{
  retrieving_status_line, wait_end_of_headers, IconServerSession, new_icon_session, http_version,
  end_request, parse_byte, parse_data, file_name, check_name, send_icon, answer_name, parse_url,
}

-- Not empty, with no separator of a path, no space and no control character.
abbrev AreNameBytes : Bytes → Type 0
AreNameBytes [] = Unit
AreNameBytes (c ∷ rest) =
    (c ≢ b'/') × (c ≢ 92) × (c ≢ b':') × (32 < c) × (c < 127) × AreNameBytes rest

abbrev pub IsPlainName : Bytes → Type 0
IsPlainName name = (0 < length name) × AreNameBytes name

check_name-AreNameBytes : (name : Bytes) → check_name name ≡ true → AreNameBytes name
unfolding check_name
check_name-AreNameBytes [] h = tt
check_name-AreNameBytes (c ∷ rest) h = (
  ground arith,
  ground arith,
  ground arith,
  ground arith,
  ground arith,
  check_name-AreNameBytes rest (ground arith),
)

-- Whatever URL is asked for, a file that is sent has a name that is not empty and holds no
-- separator of a path, no space and no control character.
pub parse_url-IsPlainName : (url name : Bytes) → parse_url url ≡ send_icon name → IsPlainName name
unfolding parse_url
parse_url-IsPlainName url name h = answered (file_name url) h
  where
    answered : (found : Bytes) → answer_name found ≡ send_icon name → IsPlainName name
    answered [] e = absurd (ground arith)
    answered (c ∷ rest) e = elim (Bool-cases (check_name (c ∷ rest))) [
      | inr bad ↦ absurd (ground arith)
      | inl good ↦
          let same : name ≡ c ∷ rest = ground arith in
          rw same (omega arith, check_name-AreNameBytes (c ∷ rest) good)
    ]

abbrev Parsed : Type 0
Parsed = Option (IconServerSession × List Bytes)

same_pair : (m : Parsed) → (m >>= λ p. some (p.0, p.1)) ≡ m
same_pair none = refl
same_pair (some p) = refl

-- A byte that ends no request.
parse_data-quiet :
    (c : ℕ) (rest : Bytes) (s s' : IconServerSession)
    → parse_byte c s ≡ some (s', [])
    → parse_data (c ∷ rest) s ≡ parse_data rest s'
unfolding parse_data
parse_data-quiet c rest s s' e = rw (e, parse_data) (same_pair (parse_data rest s'))

abbrev pub IsPrintable : Bytes → Type 0
IsPrintable [] = Unit
IsPrintable (c ∷ rest) = (32 ≤ c) × (c ≤ 126) × IsPrintable rest

-- In the status line, with this text so far.
abbrev reading : Bytes → ℕ → IconServerSession
reading text n = record {
  status = retrieving_status_line;
  next_byte_to_match = 0;
  url = text;
  url_length = n;
}

parse_byte-printable :
    (c : ℕ) (text : Bytes) (n : ℕ)
    → 32 ≤ c
    → c ≤ 126
    → n < 255
    → parse_byte c (reading text n) ≡ some (reading (text ++ c ∷ []) (n + 1), [])
unfolding parse_byte
parse_byte-printable c text n low high short = ground arith

parse_data-text :
    (more text rest : Bytes) (n : ℕ)
    → IsPrintable more
    → n + length more ≤ 255
    → parse_data (more ++ rest) (reading text n)
      ≡ parse_data rest (reading (text ++ more) (n + length more))
parse_data-text [] text rest n h short =
    rw (append-nil text) (ap (λ k. parse_data rest (reading text k)) {x = n} (omega arith))
parse_data-text (c ∷ more) text rest n h short =
    parse_data-quiet c (more ++ rest) (reading text n) (reading (text ++ c ∷ []) (n + 1))
      (parse_byte-printable c text n h.0 h.1 (omega arith))
    ∙ (parse_data-text more (text ++ c ∷ []) rest (n + 1) h.2 (omega arith)
        ∙ rw (append_assoc text (c ∷ []) more) (
            ap (λ k. parse_data rest (reading (text ++ c ∷ more) k)) {x = n + 1 + length more}
              (omega arith)))

abbrev waiting : Bytes → ℕ → ℕ → IconServerSession
waiting text n matched = record {
  status = wait_end_of_headers;
  next_byte_to_match = matched;
  url = text;
  url_length = n;
}

abbrev pub header_end : Bytes
header_end = 13 ∷ 10 ∷ 13 ∷ 10 ∷ []

last_byte :
    (text : Bytes) (n : ℕ)
    → parse_data (10 ∷ []) (waiting text n 3)
      ≡ (end_request text >>= λ urls. some (new_icon_session, urls))
unfolding parse_data
last_byte text n = elim (Option-cases (end_request text)) [
  | inl e ↦ rw (e, parse_data) refl
  | inr (urls, e) ↦ rw (e, parse_data) (ap (λ l. some (new_icon_session, l)) (append-nil urls))
]

parse_data-header_end :
    (text : Bytes) (n : ℕ)
    → parse_data header_end (reading text n)
      ≡ (end_request text >>= λ urls. some (new_icon_session, urls))
unfolding parse_byte
parse_data-header_end text n =
    parse_data-quiet 13 (10 ∷ 13 ∷ 10 ∷ []) (reading text n) (waiting text n 1) refl
    ∙ (parse_data-quiet 10 (13 ∷ 10 ∷ []) (waiting text n 1) (waiting text n 2) refl
        ∙ (parse_data-quiet 13 (10 ∷ []) (waiting text n 2) (waiting text n 3) refl
            ∙ last_byte text n))

abbrev pub get : Bytes → Bytes
get text = b'G' ∷ b'E' ∷ b'T' ∷ b' ' ∷ text

abbrev matching : ℕ → IconServerSession
matching n = record new_icon_session { next_byte_to_match = n }

parse_data-get :
    (rest : Bytes) → parse_data (get rest) new_icon_session ≡ parse_data rest (reading [] 0)
unfolding parse_byte
parse_data-get rest =
    parse_data-quiet b'G' (b'E' ∷ b'T' ∷ b' ' ∷ rest) (matching 0) (matching 1) refl
    ∙ (parse_data-quiet b'E' (b'T' ∷ b' ' ∷ rest) (matching 1) (matching 2) refl
        ∙ (parse_data-quiet b'T' (b' ' ∷ rest) (matching 2) (matching 3) refl
            ∙ parse_data-quiet b' ' rest (matching 3) (reading [] 0) refl))

parse_data-line :
    (text : Bytes)
    → IsPrintable text
    → length text ≤ 255
    → parse_data (get (text ++ header_end)) new_icon_session
      ≡ (end_request text >>= λ urls. some (new_icon_session, urls))
parse_data-line text h short =
    parse_data-get (text ++ header_end)
    ∙ (parse_data-text text [] header_end 0 h (omega arith)
        ∙ parse_data-header_end text (0 + length text))

url_end : (url : Bytes) → length (url ++ http_version) - 9 ≡ length url
url_end url = omega (arith, length-append url http_version)

dropped :
    (url : Bytes) → drop (length (url ++ http_version) - 9) (url ++ http_version) ≡ http_version
dropped url =
    rw
      (
        url_end url,
        drop-append (length url) url http_version (omega arith),
        drop_past (length url) url (omega arith),
      )
      refl

taken : (url : Bytes) → take (length (url ++ http_version) - 9) (url ++ http_version) ≡ url
taken url =
    rw (url_end url, take-append (length url) url http_version (omega arith), take_all url) refl

end_request-http_version : (url : Bytes) → end_request (url ++ http_version) ≡ some (url ∷ [])
unfolding end_request
end_request-http_version url = ground (
  arith,
  length-append url http_version,
  taken url,
  decide_holds
      (bytes_discrete (drop (length (url ++ http_version) - 9) (url ++ http_version)) http_version)
      (dropped url),
)

append-IsPrintable : (x y : Bytes) → IsPrintable x → IsPrintable y → IsPrintable (x ++ y)
append-IsPrintable [] y h k = k
append-IsPrintable (c ∷ x) y h k = (h.0, h.1, append-IsPrintable x y h.2 k)

http_version-IsPrintable : IsPrintable http_version
http_version-IsPrintable = ground arith

-- A request without header fields whose URL is printable and has at most 246 bytes is read as
-- exactly this URL, and the parser is then as new.
pub parse_data-request :
    (url : Bytes)
    → IsPrintable url
    → length url ≤ 246
    → parse_data (get ((url ++ http_version) ++ header_end)) new_icon_session
      ≡ some (new_icon_session, url ∷ [])
parse_data-request url h short =
    parse_data-line (url ++ http_version)
      (append-IsPrintable url http_version h http_version-IsPrintable)
      (omega (arith, length-append url http_version))
    ∙ rw (end_request-http_version url) refl

-- A request whose status line has, after its method, fewer than nine bytes, all printable, makes
-- the parser compare past the end of the text, which throws.
pub parse_data-short_request :
    (text : Bytes)
    → IsPrintable text
    → length text < 9
    → parse_data (get (text ++ header_end)) new_icon_session ≡ none
unfolding end_request
parse_data-short_request text h short = parse_data-line text h (omega arith) ∙ ground arith
