-- ===== src/Auth/Tests/Runs.antt =====
-- A game server that logs in, and a player that follows, as runs of the events of
-- rzauth/src/AuthServer.
use mathlib.Core.Option
use rzu.Prelude.{◌≡◌, refl, true, false, Option, none, some, [], ◌∷◌, Bytes, ℕ_discrete}
use rzu.Prelude.Keyed.{lookup, erase, put, adjust, number_key, bytes_key, bytes_discrete}
use rzu.Auth.State.{World}
use rzu.Auth.Client.Registry.{try_add_client, register}
use rzu.Auth.Client.Moves.{get_client, remove_server, switch_client_to_server, connected_to_game}
use rzu.Auth.Game.Link.{set_game_data}
use rzu.Auth.Game.Servers.{try_add, link_session, set_ready}
use rzu.Auth.GameServer.Packets.{convert_to_string, LoginPacket, GamePacket}
use rzu.Auth.Session.Handlers.{ClientPacket, AccountRow}
use rzu.Auth.System.{Setting, Event, client_packet, query_done, game_packet, handle, initial}

abbrev pub setting : Setting
setting = record {
  config = record {
    strict_kick = false;
    max_players = 400;
    max_public_server_idx = 30;
    enable_imbc = true;
  };
  build_date = 20240101;
  encrypt = λ s key. none;
}

abbrev pub alice : Bytes
alice = b'A' ∷ b'l' ∷ b'i' ∷ b'c' ∷ b'e' ∷ []

abbrev pub server_login : LoginPacket
server_login = record {
  server_idx = 3;
  server_name = b'L' ∷ b'1' ∷ 0 ∷ [];
  server_screenshot_url = 0 ∷ [];
  is_adult_server = false;
  server_ip = b'1' ∷ 0 ∷ [];
  server_port = 4514;
}

abbrev pub row : AccountRow
row = record {
  ok = true;
  account_id = 77;
  auth_ok = true;
  age = 19;
  last_login_server_idx = 3;
  event_code = 0;
  pc_bang = 0;
  server_idx_offset = 0;
  block = false;
}

-- The state that a run of events leads to.
abbrev result : Option World → World
result none = initial
result (some w) = w

unfoldable pub run : Event → World → World
unfolding handle lookup put adjust erase bytes_discrete ℕ_discrete try_add link_session
    set_game_data set_ready remove_server try_add_client register switch_client_to_server
    convert_to_string get_client connected_to_game
run event w = result (handle setting event w)

abbrev pub server_in : Event
server_in = game_packet 1 (GamePacket.login_with_logout server_login) 100

abbrev pub account_in : Event
account_in = query_done 8 alice [] (row ∷ [])

abbrev pub selection : Event
selection = client_packet 8 0 0 (ClientPacket.select_server 3 12345)

abbrev pub entry : Event
entry =
    game_packet 1 (GamePacket.client_login (b'A' ∷ b'L' ∷ b'I' ∷ b'C' ∷ b'E' ∷ 0 ∷ []) 12345) 200

abbrev pub list_end : Event
list_end =
    game_packet 1
      (GamePacket.account_list
        (record { size = 9; final_packet = true; count = 0; account_info = [] }))
      100

abbrev pub server_there : World
unfolding run
server_there = run server_in initial

abbrev pub server_ready : World
unfolding run
server_ready = run list_end server_there

abbrev pub logged_in : World
unfolding run
logged_in = run account_in server_ready

abbrev pub handed_over : World
unfolding run
handed_over = run selection logged_in

abbrev pub in_game : World
unfolding run
in_game = run entry handed_over

-- One player on server 3, whose count is one; the player's object is at address 1.
players_counted : Option.map (λ game. game.player_count) (lookup 0 in_game.games) ≡ some 1
unfolding run
players_counted = refl

player_inside : Option.map (λ c. c.in_game) (lookup 1 in_game.clients) ≡ some true
unfolding run
player_inside = refl
