-- ===== src/Auth/Client/Registry.antt =====
-- rzauth/src/AuthServer/ClientData.cpp: adding a player to the registry, and removing one.
use rzu.Prelude.{
  ℕ, ◌+◌, ◌-◌, ◌%◌, ◌^◌, Bool, true, false, ◌&&◌, Option, none, some, map, Bytes, leb,
  if◌then◌else◌, ◌>>=◌,
}
use rzu.Prelude.Keyed.{Map, lookup, erase, put, adjust, number_key, bytes_key}
use rzu.Auth.State.{ClientData, GameData, World}

abbrev to_lower_char : ℕ → ℕ
to_lower_char c = if leb b'A' c && leb c b'Z' then c + (b'a' - b'A') else c

unfoldable pub to_lower : Bytes → Bytes
to_lower = map to_lower_char

-- Arguments of `tryAddClient`.
pub record NewClient : Type 0 where
  pub session : Option ℕ
  pub account : Bytes
  pub account_id : ℕ
  pub age : ℕ
  pub event_code : ℕ
  pub pc_bang : ℕ
  pub ip : Bytes

-- The constructor, and the fields that `tryAddClient` writes.
abbrev pub new_client : NewClient → ClientData
new_client n = record {
  account = n.account;
  account_id = n.account_id;
  age = n.age;
  event_code = n.event_code;
  one_time_password = none;
  pc_bang = n.pc_bang;
  ip = n.ip;
  login_time = none;
  kick_requested = false;
  client = n.session;
  server = none;
  in_game = false;
}

-- Both maps get the address of a new object.
unfoldable pub register : NewClient → World → World
unfolding to_lower
register n w = record w {
  clients = put w.next_address (new_client n) w.clients;
  connected_clients = put n.account_id w.next_address w.connected_clients;
  connected_clients_by_name = put (to_lower n.account) w.next_address w.connected_clients_by_name;
  next_address = w.next_address + 1;
}

-- The new client, or the one that is in the way.
pub data AddResult : Type 0 where
  added : ℕ → World → AddResult
  refused : ℕ → AddResult

add_by_name : NewClient → World → Option ℕ → AddResult
add_by_name n w none = added w.next_address (register n w)
add_by_name n w (some old) = refused old

add_by_id : NewClient → World → Option ℕ → AddResult
add_by_id n w none = add_by_name n w (lookup (to_lower n.account) w.connected_clients_by_name)
add_by_id n w (some old) = refused old

unfoldable pub try_add_client : NewClient → World → AddResult
unfolding add_by_id add_by_name
try_add_client n w = add_by_id n w (lookup n.account_id w.connected_clients)

abbrev pub u32_mod : ℕ
u32_mod = 2 ^ 32

abbrev pub inc_player_count : GameData → GameData
inc_player_count g = record g { player_count = (g.player_count + 1) % u32_mod }

abbrev pub dec_player_count : GameData → GameData
dec_player_count g = record g { player_count = (g.player_count + u32_mod - 1) % u32_mod }

-- A call through `getGameServer()`, which may be null.
abbrev pub at_server : Option ℕ → (GameData → GameData) → Map ℕ GameData → Map ℕ GameData
at_server none f games = games
at_server (some g) f games = adjust g f games

-- `delete clientData`: the destructor takes a player in game off its server's count.
unfoldable pub delete_client : ℕ → ClientData → World → World
delete_client p c w = record w {
  clients = erase p w.clients;
  games = if c.in_game then at_server c.server dec_player_count w.games else w.games;
}

-- Both maps lose the object, then it is deleted.
unfoldable pub forget : ℕ → ClientData → World → World
unfolding to_lower delete_client
forget p c w = delete_client p c (record w {
  connected_clients = erase c.account_id w.connected_clients;
  connected_clients_by_name = erase (to_lower c.account) w.connected_clients_by_name;
})

-- `none`: the map held a dangling pointer.
unfoldable pub unregister : ℕ → World → Option World
unfolding forget
unregister p w = do c ← lookup p w.clients; some (forget p c w)

found_then : Option ℕ → World → Option (World × Bool)
found_then none w = some (w, false)
found_then (some p) w = do w' ← unregister p w; some (w', true)

unfoldable pub remove_client_by_name : Bytes → World → Option (World × Bool)
unfolding found_then
remove_client_by_name account w =
    found_then (lookup (to_lower account) w.connected_clients_by_name) w

unfoldable pub remove_client_by_id : ℕ → World → Option (World × Bool)
unfolding found_then
remove_client_by_id account_id w = found_then (lookup account_id w.connected_clients) w

unfoldable pub remove_client : ℕ → World → Option World
remove_client p w = do c ← lookup p w.clients; r ← remove_client_by_id c.account_id w; some r.0
