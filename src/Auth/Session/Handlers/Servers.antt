-- ===== src/Auth/Session/Handlers/Servers.antt =====
-- The choice of a game server: `onServerList` and `onSelectServer` of
-- rzauth/src/AuthServer/ClientSession.cpp. OpenSSL is a parameter.
use rzu.Prelude.{
  ℕ, ◌+◌, ◌*◌, ◌/◌, ◌%◌, ◌^◌, Bool, not, ◌&&◌, Option, none, some, List, [], ◌∷◌, Bytes, leb, ltb,
  ◌==◌, if◌then◌else◌, ◌>>=◌,
}
use rzu.Prelude.Keyed.{Map, lookup, number_key}
use rzu.Auth.State.{
  GameData, World, Config, ServerRow, send, to_client, abort_client, update_last_server_idx,
  server_list, select_server_plain, select_server_encrypted,
}
use rzu.Auth.Client.Registry.{u32_mod}
use rzu.Auth.Client.Moves.{switch_client_to_server}
use rzu.Auth.Game.Servers.{is_ready}
use rzu.Auth.Session.Version.{epic_8_1_1_rsa}
use rzu.Auth.Session.Handlers.Version.{set_client_data}

unfoldable pub user_ratio : ℕ → ℕ → ℕ
user_ratio players max_players =
    let ratio = players * 100 % u32_mod / max_players in if ltb 100 ratio then 100 else ratio

unfoldable pub is_listed : ℕ → ℕ → GameData → World → Bool
is_listed limit g game w = not (ltb limit game.server_idx) && is_ready g game w

unfoldable pub server_row : ℕ → GameData → ServerRow
unfolding user_ratio
server_row max_players game = record {
  info = game.info;
  user_ratio = user_ratio game.player_count max_players;
}

-- The loop of `onServerList` over the servers: a division by zero if the configuration allows no
-- player.
unfoldable pub list_servers : ℕ → ℕ → Map ℕ ℕ → World → Option (List ServerRow)
unfolding is_listed server_row
list_servers limit max_players [] w = some []
list_servers limit max_players ((idx, g) ∷ rest) w = do
  game ← lookup g w.games
  rows ← list_servers limit max_players rest w
  if is_listed limit g game w
      then (if max_players == 0 then none else some (server_row max_players game ∷ rows))
      else some rows

unfoldable pub on_server_list : Config → ℕ → World → Option World
unfolding send list_servers
on_server_list config s w = elim (w.client_sessions s).client_data [
  | none ↦ some (send (abort_client s) w)
  | some p ↦
      list_servers
        ((config.max_public_server_idx + (w.client_sessions s).server_idx_offset) % u32_mod)
        config.max_players w.servers w
      >>= λ rows.
          some (send (to_client s (server_list (w.client_sessions s).last_login_server_id rows)) w)
]

-- What the client gets: the key in clear, or encrypted for versions with RSA.
unfoldable pub answer_selection : (ℕ → Option Bytes) → ℕ → ℕ → World → World
unfolding send
answer_selection encrypt s one_time_password w =
    if leb epic_8_1_1_rsa (w.client_sessions s).packet_version
    then elim (encrypt one_time_password) [
      | none ↦ send (abort_client s) w
      | some secret ↦ send (to_client s (select_server_encrypted secret)) w
    ]
    else send (to_client s (select_server_plain one_time_password)) w

-- The index is looked up as a uint16_t, and stored as it came.
unfoldable pub on_select_server : (ℕ → Option Bytes) → ℕ → ℕ → ℕ → World → Option World
unfolding send answer_selection
on_select_server encrypt s server_idx one_time_password w = elim (w.client_sessions s).client_data [
  | none ↦ some (send (abort_client s) w)
  | some p ↦ elim (lookup (server_idx % 2 ^ 16) w.servers) [
    | none ↦ some (send (abort_client s) w)
    | some g ↦ lookup p w.clients >>= λ c. some (
        answer_selection encrypt s one_time_password (
          set_client_data s none (
            switch_client_to_server p g one_time_password
              (send (update_last_server_idx c.account_id server_idx) w))))
  ]
]
