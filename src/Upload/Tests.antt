-- ===== src/Upload/Tests.antt =====
-- Uses of the theorems on rzauth/src/UploadServer.
use rzu.Prelude.{Returns, ◌≡◌, refl, none, some, [], ◌∷◌, Bytes, ℕ_discrete, arith, ◌>>=◌}
use rzu.Prelude.Keyed.{lookup, erase, number_key, bytes_discrete}
use mathlib.Core.Bool.{decide}
use rzu.Upload.Icons.Parser.{new_icon_session, parse_data, parse_url}
use rzu.Upload.Icons.Requests.{
  IsPlainName, get, header_end, parse_url-IsPlainName, parse_data-short_request,
}
use rzu.Upload.Transfers.Server.{
  UploadRequest, UploadPacket, Server, written, pop_request, on_request_upload, on_session_deleted,
  on_upload,
}
use rzu.Upload.Transfers.Tickets.{
  ticket, pop_request-pop_request, on_upload-on_session_deleted, pop_request-on_session_deleted,
}
use rzu.Upload.Transfers.Safety.{IsValid, on_session_deleted-IsValid}

abbrev icon_url : Bytes
icon_url = b'/' ∷ b'a' ∷ b'.' ∷ b'j' ∷ []

parse_url-IsPlainName_example : IsPlainName (b'a' ∷ b'.' ∷ b'j' ∷ [])
unfolding parse_url
parse_url-IsPlainName_example = parse_url-IsPlainName icon_url (b'a' ∷ b'.' ∷ b'j' ∷ []) refl

parse_data-short_request_example : parse_data (get (b'/' ∷ header_end)) new_icon_session ≡ none
parse_data-short_request_example =
    parse_data-short_request (b'/' ∷ []) (omega arith, omega arith, tt) (omega arith)

abbrev request : UploadRequest
request = record {
  game_server = 1;
  client_id = 5;
  account_id = 77;
  guild_sid = 9;
  one_time_password = 4242;
  timestamp = 0;
}

-- A server named "L1", whose client 5 has a request.
abbrev named : Server
named = record {
  sessions = (1, b'L' ∷ b'1' ∷ []) ∷ [];
  servers = (b'L' ∷ b'1' ∷ [], 1) ∷ [];
  pending_requests = [];
  current_request = λ t. none;
  sent = [];
}

abbrev announced : Server
announced = record named { pending_requests = (5, request) ∷ [] }

abbrev taken : Server
taken = record named { current_request = λ t. some request }

pop_request-pop_request_example :
    pop_request (ticket request) (b'x' ∷ []) (record announced { pending_requests = [] })
    ≡ some (none, record announced { pending_requests = [] })
unfolding pop_request lookup erase bytes_discrete ℕ_discrete decide
pop_request-pop_request_example =
    pop_request-pop_request (ticket request) (b'L' ∷ b'1' ∷ []) (b'x' ∷ []) (ticket request) request
      announced (record announced { pending_requests = [] }) refl refl

abbrev picture : UploadPacket
picture = record { file_length = 3; file_contents = 0xFF ∷ 0xD8 ∷ 0 ∷ [] }

on_upload-on_session_deleted_example :
    (on_session_deleted 1 taken >>= on_upload (λ name guild. name) written 20 picture) ≡ none
unfolding lookup ℕ_discrete
on_upload-on_session_deleted_example =
    on_upload-on_session_deleted (λ name guild. name) written 1 20 (b'L' ∷ b'1' ∷ []) picture
      request taken refl refl refl refl refl refl

abbrev connected : Server
connected = record named { sessions = (2, []) ∷ named.sessions }

pop_request-on_session_deleted_example :
    (on_session_deleted 2 (on_request_upload 2 6 77 9 4242 0 connected)
      >>= pop_request
          (record {
            client_id = 6;
            account_id = 77;
            guild_id = 9;
            one_time_password = 4242;
            server_name = [];
          })
          (b'L' ∷ []))
    ≡ none
unfolding lookup ℕ_discrete
pop_request-on_session_deleted_example =
    pop_request-on_session_deleted 2 6 77 9 4242 0 (b'L' ∷ []) connected refl refl

announced-IsValid : IsValid announced
unfolding lookup ℕ_discrete
announced-IsValid = record { pending = (tt, tt); current = λ t. tt }

taken-IsValid : IsValid taken
unfolding lookup ℕ_discrete
taken-IsValid = record { pending = tt; current = λ t. tt }

on_session_deleted-IsValid_example : Returns IsValid (on_session_deleted 1 announced)
unfolding lookup ℕ_discrete
on_session_deleted-IsValid_example =
    on_session_deleted-IsValid 1 announced announced-IsValid (λ e. absurd (ground arith)) (λ t. tt)
