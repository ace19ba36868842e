-- ===== src/Auth/Game/Servers.antt =====
-- rzauth/src/AuthServer/GameData.cpp: the table of game servers.
use rzu.Prelude.{
  ℕ, ◌+◌, Bool, true, false, Option, none, some, List, [], ◌∷◌, Bytes, take, replicate,
  if◌then◌else◌, ◌>>=◌,
}
use rzu.Prelude.Keyed.{lookup, erase, put, adjust, number_key}
use rzu.Auth.State.{
  ServerInfo, GameData, World, update, send, send_log, game_server_login, game_server_logout,
  to_game, Packet, kick_client, item_purchased, item_supplied,
}
use rzu.Auth.Client.Registry.{remove_client}
use rzu.Auth.Client.Moves.{remove_server}
use rzu.Auth.Game.Link.{set_game_data, nesting, constructed}

-- The arguments of LogServerClient::sendLog: eleven numbers, and the texts.
abbrev pub server_numbers : ServerInfo → List ℕ
server_numbers i = 0 ∷ 0 ∷ 0 ∷ i.server_idx ∷ i.server_port ∷ 0 ∷ 0 ∷ 0 ∷ 0 ∷ 0 ∷ 0 ∷ []

abbrev pub server_texts : ServerInfo → List Bytes
server_texts i = i.server_ip ∷ i.server_name ∷ []

abbrev guid_or_zeros : Option Bytes → Bytes
guid_or_zeros none = replicate 16 0
guid_or_zeros (some guid) = guid

abbrev pub new_game : ServerInfo → Option Bytes → ℕ → GameData
new_game info guid now = record {
  info = info;
  guid = guid_or_zeros guid;
  player_count = 0;
  creation_time = now;
  ready = false;
}

unfoldable pub create_game : ℕ → ServerInfo → Option Bytes → ℕ → World → World
unfolding send constructed
create_game s info guid now w =
    send (send_log game_server_login (server_numbers info) (server_texts info)) (record w {
      games = put w.next_address (new_game info guid now) w.games;
      servers = put info.server_idx w.next_address w.servers;
      links = constructed s w.next_address w.links;
      next_address = w.next_address + 1;
    })

-- The new server, or the one that has the index.
pub data AddGame : Type 0 where
  created : ℕ → World → AddGame
  taken : ℕ → AddGame

unfoldable pub try_add : ℕ → ServerInfo → Option Bytes → ℕ → World → AddGame
unfolding create_game
try_add s info guid now w = elim (lookup info.server_idx w.servers) [
  | none ↦ created w.next_address (create_game s info guid now w)
  | some old ↦ taken old
]

-- The end of the destructor: the players go, then the object; its end of the link is gone.
unfoldable pub delete_game : ℕ → World → World
delete_game g w = record w {
  games = erase g w.games;
  links = record w.links { session_of = update w.links.session_of g none };
}

-- `GameData::remove`.
unfoldable pub remove_game : ℕ → World → Option World
unfolding send delete_game
remove_game g w = do
  game ← lookup g w.games
  swept ← remove_server g (
      send (send_log game_server_logout (server_numbers game.info) (server_texts game.info))
        (record w { servers = erase game.server_idx w.servers }))
  some (delete_game g swept)

abbrev pub ready : Bool → GameData → GameData
ready b game = record game { ready = b }

unfoldable pub set_ready : ℕ → Bool → World → World
set_ready g b w = record w { games = adjust g (ready b) w.games }

abbrev pub is_ready : ℕ → GameData → World → Bool
is_ready g game w = elim (w.links.session_of g) [ none ↦ false | some s ↦ game.ready ]

-- `setGameData` on a session.
unfoldable pub link_session : ℕ → Option ℕ → World → Option World
link_session s g w = do l ← set_game_data nesting s g w.links; some (record w { links = l })

-- `GameServerSession::kickClient` sends the request, and forgets the player unless kicks are strict.
unfoldable pub kick_from_session : Bool → ℕ → ℕ → World → Option World
unfolding send
kick_from_session strict s p w = do
  c ← lookup p w.clients
  let asked = send (to_game s (kick_client c.account)) w
  if strict
      then some (record asked {
        clients = adjust p (λ c. record c { kick_requested = true }) asked.clients;
      })
      else remove_client p asked

-- `GameData::kickClient`: a server that is not reachable kicks nobody.
unfoldable pub kick_from_game : Bool → ℕ → ℕ → World → Option World
unfolding kick_from_session
kick_from_game strict g p w = elim (w.links.session_of g) [
  | none ↦ some w
  | some s ↦ kick_from_session strict s p w
]

notify : (ℕ → Bytes → Packet) → ℕ → ℕ → World → Option World
notify packet g p w = elim (w.links.session_of g) [
  | none ↦ some w
  | some s ↦ lookup p w.clients >>= λ c.
      some (send (to_game s (packet c.account_id (take 60 c.account))) w)
]

-- The account field holds 60 bytes.
unfoldable pub notify_item_purchased : ℕ → ℕ → World → Option World
unfolding notify send
notify_item_purchased = notify (λ account_id account. item_purchased account account_id)

unfoldable pub notify_item_supplied : ℕ → ℕ → World → Option World
unfolding notify send
notify_item_supplied = notify (λ account_id account. item_supplied account)
