-- ===== src/Auth/State.antt =====
-- The state of rzauth/src/AuthServer: the objects of ClientData.h, GameData.h, ClientSession.h and
-- GameServerSession.h, on heaps whose addresses are numbers, and what the handlers send.
use rzu.Prelude.{ℕ, Bool, Option, List, [], ◌∷◌, ◌++◌, Bytes, ◌==◌, if◌then◌else◌}
use rzu.Prelude.Keyed.{Map}

-- A player that passed authentication. `client` is the session that holds it until a game server is
-- selected; what the constructor leaves unwritten is `none`.
pub record ClientData : Type 0 where
  pub account : Bytes
  pub account_id : ℕ
  pub age : ℕ
  pub event_code : ℕ
  pub one_time_password : Option ℕ
  pub pc_bang : ℕ
  pub ip : Bytes
  pub login_time : Option ℕ
  pub kick_requested : Bool
  pub client : Option ℕ
  pub server : Option ℕ
  pub in_game : Bool

-- What a game server says of itself at login; `port` is the pattern of an int32_t.
pub record ServerInfo : Type 0 where
  pub server_idx : ℕ
  pub server_name : Bytes
  pub server_ip : Bytes
  pub server_port : ℕ
  pub screenshot_url : Bytes
  pub is_adult_server : Bool

pub record GameData : Type 0 where
  pub info : ServerInfo
  pub open info use *
  pub guid : Bytes
  pub player_count : ℕ
  pub creation_time : ℕ
  pub ready : Bool

pub record AccountInfo : Type 0 where
  pub account : Bytes
  pub account_id : ℕ
  pub pc_bang_user : ℕ
  pub event_code : ℕ
  pub age : ℕ
  pub ip : Bytes
  pub login_time : ℕ

pub record GameServerSession : Type 0 where
  pub auto_reconnect : Bool
  pub security_no_send_mode : Bool
  pub already_connected : List AccountInfo

-- A session that is not live is deleted.
pub record ClientSession : Type 0 where
  pub last_login_server_id : ℕ
  pub server_idx_offset : ℕ
  pub client_data : Option ℕ
  pub packet_version : ℕ
  pub query_in_progress : Bool
  pub live : Bool

-- The two ends of the link between a GameServerSession (its `gameData`) and a GameData (its
-- `gameServerSession`), each at the address of its owner.
pub record Links : Type 0 where
  pub game_of : ℕ → Option ℕ
  pub session_of : ℕ → Option ℕ

pub data ResultCode : Type 0 where
  success not_exist access_denied unknown_result already_exist invalid_argument : ResultCode
  client_side_error : ResultCode

-- A row of TS_AC_SERVER_LIST.
pub record ServerRow : Type 0 where
  pub info : ServerInfo
  pub user_ratio : ℕ

pub record LoginFields : Type 0 where
  pub account_id : ℕ
  pub pc_bang_user : ℕ
  pub event_code : ℕ
  pub age : ℕ

pub data Packet : Type 0 where
  -- TS_AG_LOGIN_RESULT, TS_AG_KICK_CLIENT, TS_AG_CLIENT_LOGIN and its extended form
  login_result : ResultCode → Packet
  kick_client : Bytes → Packet
  client_login : Bytes → ResultCode → LoginFields → Packet
  client_login_extended : Bytes → ResultCode → LoginFields → Bytes → ℕ → Packet
  item_purchased : Bytes → ℕ → Packet
  item_supplied : Bytes → Packet
  security_no_check : Bytes → ℕ → Bool → Packet
  security_no_check_epic5 : Bytes → Bool → Packet
  -- TS_AC_RESULT with its login flag, TS_AC_SERVER_LIST, TS_AC_SELECT_SERVER, TS_SC_RESULT
  auth_result : ResultCode → ℕ → Packet
  server_list : ℕ → List ServerRow → Packet
  select_server_plain : ℕ → Packet
  select_server_encrypted : Bytes → Packet
  info_result : ℕ → Packet

pub data LogEvent : Type 0 where
  game_server_login game_server_logout account_login account_logout : LogEvent
  account_duplicate_auth_login account_duplicate_game_login : LogEvent

-- DB_AccountData::EncryptMode.
pub data CryptMode : Type 0 where
  crypt_none crypt_des crypt_aes : CryptMode

-- What leaves the server: packets to a session, the end of a session (its `onDisconnected` runs
-- later), entries of the log server, and database queries.
pub data Output : Type 0 where
  to_game : ℕ → Packet → Output
  to_client : ℕ → Packet → Output
  abort_client : ℕ → Output
  close_game : ℕ → Output
  send_log : LogEvent → List ℕ → List Bytes → Output
  query_account : ℕ → Bytes → CryptMode → Bytes → Output
  query_security_no : ℕ → Bytes → Bytes → ℕ → Output
  update_last_server_idx : ℕ → ℕ → Output

pub record Config : Type 0 where
  pub strict_kick : Bool
  pub max_players : ℕ
  pub max_public_server_idx : ℕ
  pub enable_imbc : Bool

-- `clients` and `games` are the live objects; the other maps hold addresses into them.
pub record World : Type 0 where
  pub clients : Map ℕ ClientData
  pub connected_clients : Map ℕ ℕ
  pub connected_clients_by_name : Map Bytes ℕ
  pub games : Map ℕ GameData
  pub servers : Map ℕ ℕ
  pub links : Links
  pub game_sessions : ℕ → GameServerSession
  pub client_sessions : ℕ → ClientSession
  pub next_address : ℕ
  pub sent : List Output

-- `f` but `v` at `k`.
abbrev pub update {ℓ} : {A : Type ℓ} → (ℕ → A) → ℕ → A → ℕ → A
update f k v j = if k == j then v else f j

unfoldable pub send : Output → World → World
send o w = record w { sent = w.sent ++ o ∷ [] }

abbrev pub set_client_session : ℕ → ClientSession → World → World
set_client_session s c w = record w { client_sessions = update w.client_sessions s c }

abbrev pub set_game_session : ℕ → GameServerSession → World → World
set_game_session s g w = record w { game_sessions = update w.game_sessions s g }
