-- ===== src/Reconnect/GameServer.antt =====
-- rzgamereconnect/src/AuthServer/GameServerSession.cpp, and the functions of AuthSession.cpp that reach
-- the game server's session. `none` is the read of a dangling pointer.
use rzu.Prelude.{
  ℕ, suc, ◌-◌, ◌^◌, Bool, true, false, not, Option, none, some, [], ◌∷◌, ◌++◌, Bytes, if◌then◌else◌,
  ◌>>=◌, take,
}
use rzu.Prelude.Keyed.{lookup, put, erase, adjust, number_key}
use rzu.Auth.State.{ServerInfo, AccountInfo, ResultCode, success, invalid_argument, access_denied}
use rzu.Auth.GameServer.Packets.{convert_to_string}
use rzu.Net.Streams.{no_stream, connect}
use rzu.Reconnect.State.{
  AuthSession, GameServerSession, World, GameReply, GamePacket, AuthPacket, ClientResult,
  client_login, login_result, client_result, other_packet, reply_login, reply_client, reply_other,
  server_login, ask_login, tell_logout, relayed,
}
use rzu.Reconnect.AuthSession.{
  send_packet, send_account_list, logout_client, disconnect, force_close, on_connected,
  on_disconnected, on_timer_reconnect,
}

-- `sendPacket` of the game server's session at `g`.
unfoldable pub reply : ℕ → GameReply → World → Option World
reply g m w = elim (lookup g w.games) [
  | none ↦ none
  | some t ↦ some (record w { games = put g (record t { replies = t.replies ++ m ∷ [] }) w.games })
]

abbrev pub reply_to : Option ℕ → GameReply → World → Option World
reply_to none m w = some w
reply_to (some g) m w = reply g m w

abbrev pub set_auth : ℕ → AuthSession → World → World
set_auth a s w = record w { auths = put a s w.auths }

-- A call of a function of the session at `a`.
unfoldable pub with_auth : ℕ → (AuthSession → AuthSession) → World → Option World
with_auth a f w = elim (lookup a w.auths) [ none ↦ none | some s ↦ some (set_auth a (f s) w) ]

abbrev pub with_auth_if : Option ℕ → (AuthSession → AuthSession) → World → Option World
with_auth_if none f w = some w
with_auth_if (some a) f w = with_auth a f w

abbrev pub set_auth_session : ℕ → Option ℕ → World → World
set_auth_session g a w = record w { games = adjust g (λ t. record t { auth_session = a }) w.games }

unfoldable pub disconnect_auth : ℕ → World → Option World
unfolding with_auth
disconnect_auth g w = elim (lookup g w.games) [
  | none ↦ none
  | some t ↦
      with_auth_if t.auth_session disconnect w >>= λ left. some (set_auth_session g none left)
]

-- What follows a login that the authentication server refused.
unfoldable pub login_failed : ℕ → AuthSession → World → Option World
unfolding disconnect_auth
login_failed a s w =
    let reset = record s { sent_login_packet = false } in
    elim reset.game_server_session [
      | none ↦ some (set_auth a (disconnect reset) w)
      | some g ↦
          let stored = set_auth a reset w in
          if reset.synchronized then some stored else disconnect_auth g stored
    ]

abbrev pub is_success : ResultCode → Bool
is_success success = true
is_success ResultCode.not_exist = false
is_success access_denied = false
is_success ResultCode.unknown_result = false
is_success ResultCode.already_exist = false
is_success invalid_argument = false
is_success ResultCode.client_side_error = false

unfoldable pub on_login_result : ℕ → AuthSession → ResultCode → World → Option World
unfolding reply login_failed
on_login_result a s result w =
    let answered = record s { pending_login = false } in
    if not s.pending_login
    then some w
    else (reply_to answered.game_server_session (reply_login result) (set_auth a answered w)
        >>= λ told.
            if is_success result
            then some (set_auth a (send_account_list answered) told)
            else login_failed a answered told)

abbrev pub account_of : ClientResult → AccountInfo
account_of p = record {
  account = p.account;
  account_id = p.account_id;
  pc_bang_user = p.pc_bang_user;
  event_code = p.event_code;
  age = p.age;
  ip = p.ip;
  login_time = p.login_time;
}

abbrev pub shortened : ClientResult → GameReply
shortened p =
    reply_client p.account p.result p.account_id p.pc_bang_user p.event_code p.age p.play_time
      p.logout_time

unfoldable pub on_client_login_result : ℕ → AuthSession → ClientResult → World → Option World
unfolding reply
on_client_login_result a s p w = elim s.game_server_session [
  | none ↦ some w
  | some g ↦ reply g (shortened p) (
      if is_success p.result
      then set_auth a (record s { accounts = s.accounts ++ account_of p ∷ [] }) w
      else w)
]

-- `AuthSession::onPacketReceived`.
unfoldable pub on_auth_packet : ℕ → AuthPacket → World → Option World
unfolding on_login_result on_client_login_result reply
on_auth_packet a packet w = elim (lookup a w.auths) [
  | none ↦ none
  | some s ↦ elim packet [
    | login_result result ↦ on_login_result a s result w
    | client_result p ↦ on_client_login_result a s p w
    | other_packet id body ↦ reply_to s.game_server_session (reply_other id body) w
  ]
]

-- A table that keeps the first value of a key.
abbrev pub insert_new : ℕ → ℕ → World → World
insert_new server_idx a w = elim (lookup server_idx w.servers) [
  | none ↦ record w { servers = put server_idx a w.servers }
  | some b ↦ w
]

-- `new AuthSession`, which takes the next address.
abbrev pub new_auth : ℕ → ServerInfo → Bytes → AuthSession
new_auth g info guid = record {
  game_server_session = some g;
  info = info;
  guid = guid;
  sent_login_packet = false;
  pending_login = false;
  synchronized = false;
  timer = false;
  stream = connect no_stream;
  pending_messages = [];
  accounts = [];
  sent = [];
  delete_later = false;
}

-- The texts of a login are cut where the source cuts them.
abbrev pub local_info : ServerInfo → ServerInfo
local_info info = record info {
  server_name = convert_to_string info.server_name 20;
  server_ip = convert_to_string info.server_ip 15;
  screenshot_url = convert_to_string info.screenshot_url 255;
}

unfoldable pub on_server_login : ℕ → Bytes → ServerInfo → GameServerSession → World → Option World
unfolding reply
on_server_login g guid info t w = elim t.auth_session [
  | some a ↦ reply g (reply_login invalid_argument) w
  | none ↦
      let made =
        insert_new info.server_idx w.next (set_auth w.next (new_auth g (local_info info) guid) w) in
      some (record made {
        games =
            put g (record t { auth_session = some w.next; server_idx = info.server_idx })
              made.games;
        next = suc w.next;
      })
]

-- A client that asks while the session is not synchronised is refused.
unfoldable pub on_client_login : ℕ → Bytes → ℕ → GameServerSession → World → Option World
unfolding reply
on_client_login g name key t w = elim t.auth_session [
  | none ↦ some w
  | some a ↦ elim (lookup a w.auths) [
    | none ↦ none
    | some s ↦
        if not s.synchronized
        then reply g (reply_client (take 60 name) access_denied 0 0 0 0 0 0) w
        else some (set_auth a (send_packet (client_login name key) s) w)
  ]
]

-- `GameServerSession::onPacketReceived`.
unfoldable pub on_game_packet : ℕ → Bytes → GamePacket → World → Option World
unfolding on_server_login on_client_login with_auth
on_game_packet g guid packet w = elim (lookup g w.games) [
  | none ↦ none
  | some t ↦ elim packet [
    | server_login info ↦ on_server_login g guid info t w
    | ask_login name key ↦ on_client_login g name key t w
    | tell_logout name play_time ↦ with_auth_if t.auth_session (logout_client name play_time) w
    | relayed m ↦ with_auth_if t.auth_session (send_packet m) w
  ]
]

-- `onDisconnected` of a game server's session, which is then destroyed.
unfoldable pub on_game_disconnected : ℕ → Bool → World → Option World
unfolding with_auth
on_game_disconnected g caused_by_remote w = elim (lookup g w.games) [
  | none ↦ none
  | some t ↦
      (with_auth_if t.auth_session (if caused_by_remote then disconnect else force_close) w
        >>= λ left. some (record left { games = erase g left.games }))
]

abbrev pub new_game : GameServerSession
new_game = record { auth_session = none; server_idx = 2 ^ 16 - 1; replies = [] }

-- `~AuthSession`, of a session that asked for it.
unfoldable pub destroy_auth : ℕ → World → Option World
destroy_auth a w = elim (lookup a w.auths) [
  | none ↦ none
  | some s ↦
      if s.delete_later
      then some (record w { auths = erase a w.auths; servers = erase s.info.server_idx w.servers })
      else some w
]

-- What reaches the program, one event at a time.
pub data Event : Type 0 where
  game_arrives : Event
  game_packet : ℕ → Bytes → GamePacket → Event
  game_leaves : ℕ → Bool → Event
  auth_connects : ℕ → Event
  auth_packet : ℕ → AuthPacket → Event
  auth_leaves : ℕ → Bool → Event
  auth_timer : ℕ → Event
  auth_deleted : ℕ → Event

unfoldable pub handle : Event → World → Option World
unfolding on_game_packet on_game_disconnected on_auth_packet destroy_auth with_auth
handle game_arrives w = some (record w { games = put w.next new_game w.games; next = suc w.next })
handle (game_packet g guid p) w = on_game_packet g guid p w
handle (game_leaves g caused) w = on_game_disconnected g caused w
handle (auth_connects a) w = with_auth a on_connected w
handle (auth_packet a p) w = on_auth_packet a p w
handle (auth_leaves a caused) w = with_auth a (on_disconnected caused) w
handle (auth_timer a) w = with_auth a on_timer_reconnect w
handle (auth_deleted a) w = destroy_auth a w
