-- ===== src/Auth/Session/Handlers/Version.antt =====
-- The end of a session, and its version: `onDisconnected`, `onVersion` and
-- `preProcessPacketReceived` of rzauth/src/AuthServer/ClientSession.cpp.
use Prim.Native.Nat.{bit_xor}
use rzu.Prelude.{ℕ, ◌%◌, Option, none, some, Bytes, ◌>>=◌, false}
use rzu.Prelude.Keyed.{number_key}
use rzu.Auth.State.{World, send, set_client_session, to_client, info_result}
use rzu.Auth.Client.Registry.{remove_client, u32_mod}
use rzu.Auth.Client.Moves.{get_client_count}
use rzu.Auth.Session.Version.{
  VersionRequest, user_count, build_date, client_version, read_version, minimum_version, epic_2,
  pre_process,
}

abbrev pub set_client_data : ℕ → Option ℕ → World → World
set_client_data s p w = set_client_session s (record (w.client_sessions s) { client_data = p }) w

-- `SocketSession::socketStateChanged`, once `onDisconnected` has returned: the session is deleted.
unfoldable pub delete_session : ℕ → World → World
delete_session s w = set_client_session s (record (w.client_sessions s) { live = false }) w

abbrev pub set_version : ℕ → ℕ → World → World
set_version s v w = set_client_session s (record (w.client_sessions s) { packet_version = v }) w

-- `onDisconnected`: the session's player is forgotten.
unfoldable pub on_disconnected : ℕ → World → Option World
on_disconnected s w = elim (w.client_sessions s).client_data [
  | none ↦ some w
  | some p ↦ remove_client p w >>= λ w'. some (set_client_data s none w')
]

abbrev pub obfuscated : ℕ → ℕ
obfuscated n = bit_xor n 0xADADADAD

unfoldable pub answer_version : ℕ → ℕ → VersionRequest → World → World
unfolding send minimum_version
answer_version s build_date_number user_count w =
    send (to_client s (info_result (obfuscated (get_client_count w)))) w
answer_version s build_date_number build_date w =
    send (to_client s (info_result (obfuscated (build_date_number % u32_mod)))) w
answer_version s build_date_number (client_version v) w =
    set_version s (minimum_version v (w.client_sessions s).packet_version) w

unfoldable pub on_version : ℕ → ℕ → Bytes → World → World
unfolding answer_version read_version
on_version s build_date_number text w =
    answer_version s build_date_number (read_version text) (set_version s epic_2 w)

-- `preProcessPacketReceived`, which runs before it.
unfoldable pub before_packet : ℕ → ℕ → ℕ → World → World
unfolding pre_process
before_packet s id size w =
    set_version s (pre_process id size (w.client_sessions s).packet_version) w
