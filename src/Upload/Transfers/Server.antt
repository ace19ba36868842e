-- ===== src/Upload/Transfers/Server.antt =====
-- rzauth/src/UploadServer: UploadRequest.cpp, and the sessions of GameServerSession.cpp and
-- ClientSession.cpp that use it. `none` is a read through the pointer to a session that is gone.
use rzu.Prelude.{
  ℕ, Bool, false, not, ◌&&◌, Option, none, some, List, [], ◌∷◌, ◌++◌, Bytes, length, ltb, ◌==◌,
  if◌then◌else◌, ◌>>=◌,
}
use mathlib.Core.Bool.{decide}
use rzu.Prelude.Keyed.{Map, lookup, erase, put, number_key, bytes_key, bytes_discrete}
use rzu.Auth.GameServer.Packets.{convert_to_string}
use rzu.Upload.Icons.Parser.{check_name}

pub record UploadRequest : Type 0 where
  pub game_server : ℕ
  pub client_id : ℕ
  pub account_id : ℕ
  pub guild_sid : ℕ
  pub one_time_password : ℕ
  pub timestamp : ℕ

pub data Result : Type 0 where
  success not_exist already_exist invalid_text invalid_argument limit_max access_denied : Result

pub data Output : Type 0 where
  to_game : ℕ → Result → Output
  to_client : ℕ → Result → Output
  -- TS_US_UPLOAD: the guild, the size and the name of the file.
  upload_result : ℕ → ℕ → ℕ → Bytes → Output

-- `sessions` are the live sessions of game servers with their names, empty before a login; a client's
-- session owns the request that it took.
pub record Server : Type 0 where
  pub sessions : Map ℕ Bytes
  pub servers : Map Bytes ℕ
  pub pending_requests : Map ℕ UploadRequest
  pub current_request : ℕ → Option UploadRequest
  pub sent : List Output

unfoldable pub send : Output → Server → Server
send o w = record w { sent = w.sent ++ o ∷ [] }

abbrev pub renewed : UploadRequest → UploadRequest → UploadRequest
renewed old new = record old {
  one_time_password = new.one_time_password;
  timestamp = new.timestamp;
}

abbrev pub stored : UploadRequest → Option UploadRequest → UploadRequest
stored r none = r
stored r (some old) = renewed old r

-- A request of a client that has one only renews its password and its time.
unfoldable pub push_request : UploadRequest → Server → Server
push_request r w = record w {
  pending_requests =
      put r.client_id (stored r (lookup r.client_id w.pending_requests)) w.pending_requests;
}

-- What a client says of its request: TS_CU_LOGIN.
pub record LoginPacket : Type 0 where
  pub client_id : ℕ
  pub account_id : ℕ
  pub guild_id : ℕ
  pub one_time_password : ℕ
  pub server_name : Bytes

abbrev pub same_text : Bytes → Bytes → Bool
same_text a b = decide (bytes_discrete a b)

abbrev pub same_numbers : UploadRequest → LoginPacket → Bool
same_numbers r p =
    r.account_id == p.account_id
    && (r.guild_sid == p.guild_id && r.one_time_password == p.one_time_password)

-- The request that matches, which is then no longer pending; the name is read last.
unfoldable pub pop_request : LoginPacket → Bytes → Server → Option (Option UploadRequest × Server)
pop_request p name w = elim (lookup p.client_id w.pending_requests) [
  | none ↦ some (none, w)
  | some r ↦
      if same_numbers r p
      then (lookup r.game_server w.sessions >>= λ server_name.
          if same_text server_name name
          then some (some r, record w { pending_requests = erase p.client_id w.pending_requests })
          else some (none, w))
      else some (none, w)
]

-- The loop of `UploadRequest::removeServer`.
unfoldable pub drop_requests : ℕ → Map ℕ UploadRequest → Map ℕ UploadRequest
drop_requests s [] = []
drop_requests s ((k, r) ∷ rest) =
    let others = drop_requests s rest in if r.game_server == s then others else (k, r) ∷ others

unfoldable pub remove_server : ℕ → Server → Server
unfolding drop_requests
remove_server s w = record w { pending_requests = drop_requests s w.pending_requests }

-- A new session of a game server.
unfoldable pub on_connected : ℕ → Server → Server
on_connected s w = record w { sessions = put s [] w.sessions }

-- `GameServerSession::onLogin`; the packet's name has 21 bytes.
unfoldable pub on_server_login : ℕ → Bytes → Server → Server
unfolding send
on_server_login s field w =
    let name = convert_to_string field 20 in
    if not (check_name name)
    then send (to_game s invalid_text) w
    else elim (lookup name w.servers) [
      | some t ↦ send (to_game s already_exist) w
      | none ↦
          send (to_game s success)
            (record w { servers = put name s w.servers; sessions = put s name w.sessions })
    ]

unfoldable pub on_request_upload : ℕ → ℕ → ℕ → ℕ → ℕ → ℕ → Server → Server
unfolding push_request send
on_request_upload s client_id account_id guild_sid one_time_password now w =
    send (to_game s success) (
      push_request
        (record {
          game_server = s;
          client_id = client_id;
          account_id = account_id;
          guild_sid = guild_sid;
          one_time_password = one_time_password;
          timestamp = now;
        })
        w)

unfoldable pub forget_name : ℕ → Bytes → Server → Server
unfolding remove_server
forget_name s [] w = w
forget_name s (c ∷ rest) w = remove_server s (record w { servers = erase (c ∷ rest) w.servers })

-- The destructor: only a session with a name takes its requests with it.
unfoldable pub on_session_deleted : ℕ → Server → Option Server
unfolding forget_name
on_session_deleted s w = do
  name ← lookup s w.sessions
  some (forget_name s name (record w { sessions = erase s w.sessions }))

abbrev pub set_current : ℕ → Option UploadRequest → Server → Server
set_current t r w = record w { current_request = λ u. if u == t then r else w.current_request u }

abbrev pub login_result : Option UploadRequest → Result
login_result none = not_exist
login_result (some r) = success

-- `ClientSession::onLogin`; the packet's name has 32 bytes.
unfoldable pub on_login : ℕ → LoginPacket → Server → Option Server
unfolding pop_request send
on_login t p w = do
  popped ← pop_request p (convert_to_string p.server_name 31) w
  some (send (to_client t (login_result popped.0)) (set_current t popped.0 popped.1))

-- TS_CU_UPLOAD: the length that it states, the bytes that it has, and its first two bytes.
pub record UploadPacket : Type 0 where
  pub file_length : ℕ
  pub file_contents : Bytes

abbrev pub check_jpeg_image : Bytes → Bool
check_jpeg_image (a ∷ b ∷ rest) = a == 0xFF && b == 0xD8
check_jpeg_image _ = false

-- What the file system answers: the file cannot be opened, not be written, or is written.
pub data Storage : Type 0 where
  unopened unwritten written : Storage

-- `ClientSession::onUpload`; the file's name is made of the server's name, the guild and the time.
unfoldable pub on_upload : (Bytes → ℕ → Bytes) → Storage → ℕ → UploadPacket → Server → Option Server
unfolding send
on_upload file_name storage t p w = elim (w.current_request t) [
  | none ↦ some (send (to_client t not_exist) w)
  | some r ↦
      if not (p.file_length == length p.file_contents)
      then some (send (to_client t invalid_argument) w)
      else if ltb 64000 p.file_length
      then some (send (to_client t limit_max) w)
      else if not (check_jpeg_image p.file_contents)
      then some (send (to_client t invalid_argument) w)
      else (lookup r.game_server w.sessions >>= λ name.
          if ltb 64 (length name)
          then some (send (to_client t invalid_text) w)
          else (let done = set_current t none w in
              elim storage [
                | unopened ↦ some (send (to_client t access_denied) done)
                | unwritten ↦ some (send (to_client t access_denied) done)
                | written ↦ some (
                    send (to_client t success) (
                      send
                        (upload_result r.game_server r.guild_sid p.file_length
                          (file_name name r.guild_sid))
                        done))
              ]))
]
