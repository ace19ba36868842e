-- ===== src/Auth/GameServer/Handlers/Accounts.antt =====
-- The players that a game server has: `onAccountList` of
-- rzauth/src/AuthServer/GameServerSession.cpp.
use rzu.Prelude.{
  ℕ, ◌+◌, ◌*◌, true, not, Option, none, some, List, [], ◌∷◌, ◌++◌, take, ◌==◌, if◌then◌else◌, ◌>>=◌,
}
use rzu.Prelude.Keyed.{adjust, number_key, bytes_key}
use rzu.Auth.State.{AccountInfo, World, send, set_game_session, to_game, kick_client}
use rzu.Auth.Client.Registry.{added, refused, try_add_client}
use rzu.Auth.Client.Moves.{switch_client_to_server, connected_to_game, remove_server}
use rzu.Auth.Game.Servers.{set_ready}
use rzu.Auth.GameServer.Packets.{
  AccountListPacket, account_list_size, account_info_size, sign_extend, convert_to_string,
}

-- One account of a synchronised list: in game on this server, or kicked if it is elsewhere.
unfoldable pub sync_added : ℕ → AccountInfo → ℕ → ℕ → World → Option World
sync_added g a now p w = do
  entered ← connected_to_game p now (switch_client_to_server p g 0 w)
  some (record entered {
    clients = adjust p (λ c. record c { login_time = some a.login_time }) entered.clients;
  })

unfoldable pub sync_account : ℕ → ℕ → ℕ → AccountInfo → World → Option World
unfolding sync_added send
sync_account s g now a w =
    let account = convert_to_string a.account 60 in
    elim (try_add_client
      (record {
        session = none;
        account = account;
        account_id = a.account_id;
        age = a.age;
        event_code = a.event_code;
        pc_bang = sign_extend a.pc_bang_user;
        ip = a.ip;
      })
      w) [
        | added p w' ↦ sync_added g a now p w'
        | refused old ↦ some (send (to_game s (kick_client account)) w)
      ]

unfoldable pub sync_accounts : ℕ → ℕ → ℕ → List AccountInfo → World → Option World
unfolding sync_account
sync_accounts s g now [] w = some w
sync_accounts s g now (a ∷ rest) w = sync_account s g now a w >>= sync_accounts s g now rest

abbrev pub set_accounts : ℕ → List AccountInfo → World → World
set_accounts s l w = set_game_session s (record (w.game_sessions s) { already_connected = l }) w

unfoldable pub synchronize : ℕ → ℕ → ℕ → World → Option World
unfolding sync_accounts
synchronize s g now w = do
  emptied ← remove_server g w
  synced ← sync_accounts s g now (emptied.game_sessions s).already_connected emptied
  some (set_accounts s [] (set_ready g true synced))

unfoldable pub on_account_list : ℕ → AccountListPacket → ℕ → World → Option World
unfolding synchronize
on_account_list s packet now w = elim (w.links.game_of s) [
  | none ↦ some w
  | some g ↦
      if not (packet.count * account_info_size + account_list_size == packet.size)
      then some w
      else (let stored =
            set_accounts s
              ((w.game_sessions s).already_connected ++ take packet.count packet.account_info) w in
          if packet.final_packet then synchronize s g now stored else some stored)
]
