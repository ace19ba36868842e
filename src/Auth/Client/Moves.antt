-- ===== src/Auth/Client/Moves.antt =====
-- The other operations of rzauth/src/AuthServer/ClientData.cpp: lookups, the hand-over to a game
-- server, the start of a game, and the removal of all players of a server.
use rzu.Prelude.{
  ℕ, ◌≡◌, arith, Bool, true, false, Option, none, some, [], ◌∷◌, Bytes, length, ◌==◌, if◌then◌else◌,
  ◌>>=◌,
}
use rzu.Prelude.Keyed.{Map, lookup, erase, adjust, number_key, bytes_key}
use rzu.Auth.State.{ClientData, World}
use rzu.Auth.Client.Registry.{to_lower, at_server, inc_player_count, delete_client}

unfoldable pub get_client : Bytes → World → Option ℕ
unfolding to_lower
get_client account w = lookup (to_lower account) w.connected_clients_by_name

unfoldable pub get_client_by_id : ℕ → World → Option ℕ
get_client_by_id account_id w = lookup account_id w.connected_clients

unfoldable pub get_client_count : World → ℕ
get_client_count w = length w.connected_clients

abbrev pub to_server : ℕ → ℕ → ClientData → ClientData
to_server g one_time_password c = record c {
  one_time_password = some one_time_password;
  client = none;
  server = some g;
}

unfoldable pub switch_client_to_server : ℕ → ℕ → ℕ → World → World
switch_client_to_server p g one_time_password w = record w {
  clients = adjust p (to_server g one_time_password) w.clients;
}

abbrev pub enter_game : ℕ → ClientData → ClientData
enter_game now c = record c { in_game = true; login_time = some now }

unfoldable pub connected_to_game : ℕ → ℕ → World → Option World
connected_to_game p now w = do
  c ← lookup p w.clients
  some (record w {
    games = at_server c.server inc_player_count w.games;
    clients = adjust p (enter_game now) w.clients;
  })

-- The state after a player with server `g` entered the game.
unfoldable pub entered : ℕ → ℕ → ℕ → World → World
entered p now g w = record w {
  games = adjust g inc_player_count w.games;
  clients = adjust p (enter_game now) w.clients;
}

pub connected_to_game_lem :
    (p now g : ℕ) (c : ClientData) (w : World)
    → lookup p w.clients ≡ some c
    → c.server ≡ some g
    → connected_to_game p now w ≡ some (entered p now g w)
unfolding connected_to_game entered
connected_to_game_lem p now g c w e on = ground arith

abbrev pub is_server : ℕ → Option ℕ → Bool
is_server g none = false
is_server g (some h) = h == g

unfoldable pub drop_entry : ℕ → ℕ → ℕ → ClientData → World → World
unfolding to_lower delete_client
drop_entry g k p c w =
    if is_server g c.server
    then delete_client p c (record w {
      connected_clients = erase k w.connected_clients;
      connected_clients_by_name = erase (to_lower c.account) w.connected_clients_by_name;
    })
    else w

-- The loop of `removeServer` over the entries of `connectedClients`.
unfoldable pub sweep : ℕ → Map ℕ ℕ → World → Option World
unfolding drop_entry
sweep g [] w = some w
sweep g ((k, p) ∷ rest) w = lookup p w.clients >>= λ c. sweep g rest (drop_entry g k p c w)

unfoldable pub remove_server : ℕ → World → Option World
unfolding sweep
remove_server g w = sweep g w.connected_clients w
