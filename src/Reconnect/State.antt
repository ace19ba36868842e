-- ===== src/Reconnect/State.antt =====
-- The objects of rzgamereconnect/src/AuthServer: AuthSession.h and GameServerSession.h, on heaps whose
-- addresses are numbers, and the packets of both sides.
use rzu.Prelude.{ℕ, Bool, Option, List, Bytes}
use rzu.Prelude.Keyed.{Map}
use rzu.Auth.State.{ServerInfo, AccountInfo, ResultCode}
use rzu.Net.Streams.{Stream}

-- To the authentication server: TS_GA_LOGIN_WITH_LOGOUT_EXT, TS_GA_ACCOUNT_LIST, TS_GA_CLIENT_LOGIN,
-- TS_GA_CLIENT_LOGOUT, TS_GA_LOGOUT, and any other by its id.
pub data Message : Type 0 where
  login : ServerInfo → Bytes → Message
  account_list : Bool → List AccountInfo → Message
  client_login : Bytes → ℕ → Message
  client_logout : Bytes → ℕ → Message
  logout : Message
  other : ℕ → Bytes → Message

-- TS_AG_CLIENT_LOGIN_EXTENDED.
pub record ClientResult : Type 0 where
  pub account : Bytes
  pub result : ResultCode
  pub account_id : ℕ
  pub pc_bang_user : ℕ
  pub event_code : ℕ
  pub age : ℕ
  pub play_time : ℕ
  pub logout_time : ℕ
  pub ip : Bytes
  pub login_time : ℕ

-- From the authentication server.
pub data AuthPacket : Type 0 where
  login_result : ResultCode → AuthPacket
  client_result : ClientResult → AuthPacket
  other_packet : ℕ → Bytes → AuthPacket

-- To the game server; TS_AG_CLIENT_LOGIN has all but the two last fields of its extended form.
pub data GameReply : Type 0 where
  reply_login : ResultCode → GameReply
  reply_client : Bytes → ResultCode → ℕ → ℕ → ℕ → ℕ → ℕ → ℕ → GameReply
  reply_other : ℕ → Bytes → GameReply

-- From the game server; `relayed` is a packet that has no handler.
pub data GamePacket : Type 0 where
  server_login : ServerInfo → GamePacket
  ask_login : Bytes → ℕ → GamePacket
  tell_logout : Bytes → ℕ → GamePacket
  relayed : Message → GamePacket

-- `sent` is what was written to a connected stream; `delete_later` is what `deleteLater` sets.
pub record AuthSession : Type 0 where
  pub game_server_session : Option ℕ
  pub info : ServerInfo
  pub guid : Bytes
  pub sent_login_packet : Bool
  pub pending_login : Bool
  pub synchronized : Bool
  pub timer : Bool
  pub stream : Stream
  pub pending_messages : List Message
  pub accounts : List AccountInfo
  pub sent : List Message
  pub delete_later : Bool

pub record GameServerSession : Type 0 where
  pub auth_session : Option ℕ
  pub server_idx : ℕ
  pub replies : List GameReply

-- All sessions, the table of servers by index, and the next address.
pub record World : Type 0 where
  pub auths : Map ℕ AuthSession
  pub games : Map ℕ GameServerSession
  pub servers : Map ℕ ℕ
  pub next : ℕ
