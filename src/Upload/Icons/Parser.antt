-- ===== src/Upload/Icons/Parser.antt =====
-- `parseData`, `parseUrl` and `checkName` of rzauth/src/UploadServer/IconServerSession.cpp.
use rzu.Prelude.{
  ℕ, ◌+◌, ◌-◌, Bool, true, false, ◌&&◌, ◌||◌, Option, none, some, List, [], ◌∷◌, ◌++◌, Bytes,
  length, take, drop, leb, ltb, ◌==◌, if◌then◌else◌, ◌>>=◌,
}
use rzu.Prelude.Keyed.{bytes_discrete}
use mathlib.Core.Bool.{decide}

pub data Status : Type 0 where
  wait_status_line retrieving_status_line wait_end_of_headers : Status

pub record IconServerSession : Type 0 where
  pub status : Status
  pub next_byte_to_match : ℕ
  pub url : Bytes
  pub url_length : ℕ

abbrev pub new_icon_session : IconServerSession
new_icon_session = record {
  status = wait_status_line;
  next_byte_to_match = 0;
  url = [];
  url_length = 0;
}

-- The bytes of "GET ", and of the end of a header.
abbrev pub begin_url : ℕ → ℕ
begin_url n = if n == 0 then b'G' else if n == 1 then b'E' else if n == 2 then b'T' else b' '

abbrev pub end_header : ℕ → ℕ
end_header n = if n == 0 || n == 2 then 13 else 10

abbrev pub http_version : Bytes
http_version = b' ' ∷ b'H' ∷ b'T' ∷ b'T' ∷ b'P' ∷ b'/' ∷ b'1' ∷ b'.' ∷ b'1' ∷ []

-- The states of the status line.
unfoldable pub read_status_line : ℕ → IconServerSession → IconServerSession
read_status_line c s = elim s.status [
  | wait_status_line ↦
      if c == begin_url s.next_byte_to_match
      then (if leb 4 (s.next_byte_to_match + 1)
          then record s { status = retrieving_status_line; next_byte_to_match = 0 }
          else record s { next_byte_to_match = s.next_byte_to_match + 1 })
      else record s { next_byte_to_match = 0 }
  | retrieving_status_line ↦
      if c == 13 || c == 10
      then record s { status = wait_end_of_headers }
      else if leb 32 c && leb c 126 && ltb s.url_length 255
      then record s { url = s.url ++ c ∷ []; url_length = s.url_length + 1 }
      else new_icon_session
  | wait_end_of_headers ↦ s
]

abbrev same_text : Bytes → Bytes → Bool
same_text a b = decide (bytes_discrete a b)

-- The request's URL, if it ends like one; `none`: `compare` starts past the end and throws.
unfoldable pub end_request : Bytes → Option (List Bytes)
end_request url =
    if ltb (length url) 9
    then none
    else if same_text (drop (length url - 9) url) http_version
    then some (take (length url - 9) url ∷ [])
    else some []

abbrev in_header : Status → Bool
in_header wait_status_line = false
in_header retrieving_status_line = true
in_header wait_end_of_headers = true

-- The match of the blank line after the header.
unfoldable pub read_header_end : ℕ → IconServerSession → Option (IconServerSession × List Bytes)
unfolding end_request
read_header_end c s =
    if in_header s.status
    then (if c == end_header s.next_byte_to_match
        then (if leb 4 (s.next_byte_to_match + 1)
            then (end_request s.url >>= λ urls. some (new_icon_session, urls))
            else some (record s { next_byte_to_match = s.next_byte_to_match + 1 }, []))
        else some (record s { next_byte_to_match = 0 }, []))
    else some (s, [])

unfoldable pub parse_byte : ℕ → IconServerSession → Option (IconServerSession × List Bytes)
unfolding read_status_line read_header_end
parse_byte c s = read_header_end c (read_status_line c s)

-- The URLs that `parseUrl` is called with.
unfoldable pub parse_data : Bytes → IconServerSession → Option (IconServerSession × List Bytes)
unfolding parse_byte
parse_data [] s = some (s, [])
parse_data (c ∷ rest) s = parse_byte c s >>= λ first.
    parse_data rest first.0 >>= λ then_. some (then_.0, first.1 ++ then_.1)

abbrev is_separator : ℕ → Bool
is_separator c = c == b'/' || (c == 92 || c == b':')

-- What follows the last separator.
unfoldable pub file_name : Bytes → Bytes
file_name [] = []
file_name (c ∷ rest) =
    let name = file_name rest in
    if has_separator rest then name else if is_separator c then rest else c ∷ rest
  where
    has_separator : Bytes → Bool
    has_separator [] = false
    has_separator (c ∷ rest) = is_separator c || has_separator rest

abbrev is_allowed : ℕ → Bool
is_allowed c =
    leb b'0' c && leb c b'9'
    || (leb b'A' c && leb c b'Z' || (leb b'a' c && leb c b'z' || (c == b'_' || c == b'.')))

unfoldable pub check_name : Bytes → Bool
check_name [] = true
check_name (c ∷ rest) = is_allowed c && check_name rest

pub data Answer : Type 0 where
  not_found : Answer
  send_icon : Bytes → Answer

abbrev pub answer_name : Bytes → Answer
answer_name [] = not_found
answer_name (c ∷ rest) = if check_name (c ∷ rest) then send_icon (c ∷ rest) else not_found

unfoldable pub parse_url : Bytes → Answer
unfolding file_name check_name
parse_url url = answer_name (file_name url)
