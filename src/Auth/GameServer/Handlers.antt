-- ===== src/Auth/GameServer/Handlers.antt =====
-- `onPacketReceived` of rzauth/src/AuthServer/GameServerSession.cpp, and the handlers.
mod Login
mod Accounts
mod Clients
unfoldable pub use Login.*
unfoldable pub use Accounts.*
unfoldable pub use Clients.*
use mathlib.Core.Bool.{decide}
use rzu.Prelude.{
  ℕ, ◌+◌, ◌-◌, ◌*◌, ◌%◌, ◌^◌, Bool, true, false, not, ◌&&◌, Option, none, some, List, [], ◌∷◌, ◌++◌,
  Bytes, length, take, leb, ◌==◌, if◌then◌else◌, ◌>>=◌,
}
use rzu.Prelude.Keyed.{lookup, adjust, number_key, bytes_key, bytes_discrete}
use rzu.Auth.State.{
  ClientData, ServerInfo, GameData, AccountInfo, World, update, ResultCode, success, access_denied,
  already_exist, invalid_argument, LoginFields, Packet, send, set_game_session, to_game, close_game,
  send_log, query_security_no, login_result, kick_client, client_login, client_login_extended,
  security_no_check, security_no_check_epic5, account_login, account_logout,
}
use rzu.Auth.Client.Registry.{added, refused, try_add_client, remove_client, u32_mod}
use rzu.Auth.Client.Moves.{get_client, switch_client_to_server, connected_to_game, remove_server}
use rzu.Auth.Game.Servers.{created, taken, try_add, remove_game, set_ready, is_ready, link_session}
use rzu.Auth.GameServer.Packets.{
  LoginPacket, login_info, AccountListPacket, account_list_size, account_info_size, sign_extend,
  SecurityPacket, security_packet_size, GamePacket, convert_to_string,
}

unfoldable pub on_packet_received : ℕ → GamePacket → ℕ → World → Option World
unfolding on_server_login on_account_list on_server_logout on_client_login on_client_logout
    on_client_kick_failed on_security_no_check
on_packet_received s (GamePacket.login_with_logout p) now w =
    on_server_login s p none now (set_auto_reconnect s true w)
on_packet_received s (GamePacket.login_with_logout_ext p guid) now w =
    on_server_login s p (some guid) now (set_auto_reconnect s true w)
on_packet_received s (GamePacket.login p) now w =
    on_server_login s p none now (set_auto_reconnect s false w)
on_packet_received s (GamePacket.account_list p) now w = on_account_list s p now w
on_packet_received s GamePacket.logout now w = on_server_logout s w
on_packet_received s (GamePacket.client_login account key) now w =
    on_client_login s account key now w
on_packet_received s (GamePacket.client_logout account) now w = on_client_logout s account now w
on_packet_received s (GamePacket.client_kick_failed account) now w =
    on_client_kick_failed s account now w
on_packet_received s (GamePacket.security_check p) now w = some (on_security_no_check s p w)
on_packet_received s (GamePacket.unknown id) now w = some w
