-- ===== src/Auth/Session/Handlers.antt =====
-- `onPacketReceived` of rzauth/src/AuthServer/ClientSession.cpp, and the handlers.
mod Version
mod Account
mod Result
mod Servers
unfoldable pub use Version.*
unfoldable pub use Account.*
unfoldable pub use Result.*
unfoldable pub use Servers.*
use Prim.Native.Nat.{bit_xor, min}
use rzu.Prelude.{
  ℕ, ◌+◌, ◌*◌, ◌/◌, ◌%◌, ◌^◌, Bool, true, false, not, ◌&&◌, ◌||◌, Option, none, some, List, [], ◌∷◌,
  Bytes, length, take, leb, ltb, ◌==◌, if◌then◌else◌, ◌>>=◌,
}
use rzu.Prelude.Keyed.{Map, lookup, number_key}
use rzu.Auth.State.{
  GameData, World, Config, success, not_exist, access_denied, already_exist, client_side_error,
  ServerRow, CryptMode, crypt_none, crypt_des, crypt_aes, send, set_client_session, to_client,
  abort_client, query_account, send_log, update_last_server_idx, auth_result, server_list,
  select_server_plain, select_server_encrypted, info_result, account_duplicate_auth_login,
  account_duplicate_game_login,
}
use rzu.Auth.Client.Registry.{added, refused, try_add_client, remove_client, u32_mod}
use rzu.Auth.Client.Moves.{get_client_count, switch_client_to_server}
use rzu.Auth.Game.Servers.{is_ready, kick_from_game}
use rzu.Auth.Session.Version.{
  VersionRequest, user_count, build_date, client_version, read_version, minimum_version, epic_2,
  epic_8_1_1_rsa, epic_9_6_7, pre_process,
}

-- The packets of a client, decoded; `invalid` is one whose decoding fails.
pub data ClientPacket : Type 0 where
  version_text : Bytes → ClientPacket
  account imbc_account : AccountPacket → ClientPacket
  request_servers : ClientPacket
  select_server : ℕ → ℕ → ClientPacket
  ping unknown invalid : ClientPacket

unfoldable pub on_packet_received :
    Config → ℕ → (ℕ → Option Bytes) → ℕ → ClientPacket → World → Option World
unfolding on_version on_account on_imbc_account on_server_list on_select_server send
on_packet_received config build_date_number encrypt s (ClientPacket.version_text text) w =
    some (on_version s build_date_number text w)
on_packet_received config build_date_number encrypt s (ClientPacket.account p) w =
    some (on_account s p w)
on_packet_received config build_date_number encrypt s (ClientPacket.imbc_account p) w =
    some (on_imbc_account s config.enable_imbc p w)
on_packet_received config build_date_number encrypt s ClientPacket.request_servers w =
    on_server_list config s w
on_packet_received config build_date_number encrypt s (ClientPacket.select_server idx key) w =
    on_select_server encrypt s idx key w
on_packet_received config build_date_number encrypt s ClientPacket.ping w = some w
on_packet_received config build_date_number encrypt s ClientPacket.unknown w = some w
on_packet_received config build_date_number encrypt s ClientPacket.invalid w =
    some (send (abort_client s) w)
