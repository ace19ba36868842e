-- ===== src/Auth/GameServer/Handlers/Login.antt =====
-- A game server that logs in or leaves: `onServerLogin`, `onServerLogout` and the destructor of
-- rzauth/src/AuthServer/GameServerSession.cpp.
use mathlib.Core.Bool.{decide}
use rzu.Prelude.{ℕ, Bool, false, not, ◌&&◌, Option, none, some, Bytes, ◌==◌, if◌then◌else◌, ◌>>=◌}
use rzu.Prelude.Keyed.{lookup, number_key, bytes_key, bytes_discrete}
use rzu.Auth.State.{
  ServerInfo, GameData, World, update, success, already_exist, invalid_argument, send,
  set_game_session, to_game, close_game, login_result,
}
use rzu.Auth.Game.Servers.{created, taken, try_add, remove_game, set_ready, link_session}
use rzu.Auth.GameServer.Packets.{LoginPacket, login_info}

abbrev pub set_auto_reconnect : ℕ → Bool → World → World
set_auto_reconnect s b w = set_game_session s (record (w.game_sessions s) { auto_reconnect = b }) w

abbrev pub same_bytes : Bytes → Bytes → Bool
same_bytes a b = decide (bytes_discrete a b)

abbrev pub same_bool : Bool → Bool → Bool
same_bool a b = if a then b else not b

-- The test of `onServerLogin` that the same server is back.
unfoldable pub same_game : GameData → ServerInfo → Option Bytes → Bool
same_game old i none = false
same_game old i (some guid) =
    old.server_idx == i.server_idx
    && same_bytes old.server_name i.server_name
    && same_bytes old.server_ip i.server_ip
    && old.server_port == i.server_port
    && same_bytes old.screenshot_url i.screenshot_url
    && same_bool old.is_adult_server i.is_adult_server
    && same_bytes old.guid guid

abbrev pub close_if_linked : Option ℕ → World → World
close_if_linked none w = w
close_if_linked (some t) w = send (close_game t) w

-- The server index is taken: the same server takes its data back, any other is refused.
unfoldable pub login_taken : ℕ → ServerInfo → Option Bytes → ℕ → World → Option World
unfolding same_game send
login_taken s info guid old w = do
  game ← lookup old w.games
  if (w.game_sessions s).auto_reconnect && same_game game info guid
      then (do
        linked ← link_session s (some old) w
        some (
            send (to_game s (login_result success))
              (close_if_linked (w.links.session_of old) (set_ready old false linked))))
      else some (send (to_game s (login_result already_exist)) w)

unfoldable pub login_created : ℕ → ℕ → World → Option World
unfolding send
login_created s g w = do
  linked ← link_session s (some g) w
  some (
      send (to_game s (login_result success))
        (set_ready g (not (w.game_sessions s).auto_reconnect) linked))

unfoldable pub on_server_login : ℕ → LoginPacket → Option Bytes → ℕ → World → Option World
unfolding login_taken login_created send
on_server_login s packet guid now w = elim (w.links.game_of s) [
  | some g ↦ some (send (to_game s (login_result invalid_argument)) w)
  | none ↦ elim (try_add s (login_info packet) guid now w) [
    | created g w' ↦ login_created s g w'
    | taken old ↦ login_taken s (login_info packet) guid old w
  ]
]

-- `gameData = nullptr`, or the end of the session.
abbrev pub clear_game_data : ℕ → World → World
clear_game_data s w = record w {
  links = record w.links { game_of = update w.links.game_of s none };
}

unfoldable pub on_server_logout : ℕ → World → Option World
on_server_logout s w = elim (w.links.game_of s) [
  | none ↦ some w
  | some g ↦ remove_game g w >>= λ w'. some (clear_game_data s w')
]

-- The destructor: a server that did not log out stays known if it can reconnect.
unfoldable pub on_session_deleted : ℕ → World → Option World
on_session_deleted s w = elim (w.links.game_of s) [
  | none ↦ some w
  | some g ↦ elim (w.links.session_of g) [
    | none ↦ some w
    | some t ↦
        if t == s
        then (if (w.game_sessions s).auto_reconnect
            then link_session s none w
            else remove_game g w >>= λ w'. some (clear_game_data s w'))
        else some w
  ]
]
