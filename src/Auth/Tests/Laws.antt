-- ===== src/Auth/Tests/Laws.antt =====
-- Uses of the theorems on rzauth/src/AuthServer at the states of the runs.
use rzu.Prelude.{
  ◌↔◌, Returns, ◌≡◌, ◌≢◌, refl, false, Option, none, some, [], ◌∷◌, arith, ◌==◌, ◌>>=◌,
}
use rzu.Prelude.Keyed.{lookup, number_key}
use rzu.Auth.State.{ServerRow, ClientData, GameData}
use rzu.Auth.Client.Registry.{NewClient, new_client, to_lower}
use rzu.Auth.Client.Moves.{get_client_by_id, to_server}
use rzu.Auth.Game.Link.{set_game_data, nesting, attached, set_game_data_attach}
use rzu.Auth.Game.Servers.{remove_game, new_game}
use rzu.Auth.GameServer.Packets.{GamePacket, login_info}
use rzu.Auth.GameServer.Handlers.{on_client_login, clear_game_data, on_client_logout, may_login}
use rzu.Auth.GameServer.Safety.Packets.{Handles, on_game_packet-Returns}
use rzu.Auth.Session.Handlers.{
  ClientPacket, client_auth_result, on_disconnected, log_in, AccountPacket, user_ratio,
  on_select_server, list_servers, on_account,
}
use rzu.Auth.Invariant.Defs.{IsSafe}
use rzu.Auth.Invariant.Servers.{Removed, remove_game_lem}
use rzu.Auth.System.{Reachable, start, step, handle, handle-IsSafe, initial, Reachable-IsSafe}
use rzu.Auth.Session.Safety.Packets.{on_packet_received-IsSafe}
use rzu.Auth.Flow.HandOver.{after_login, on_client_login-on_select_server}
use rzu.Auth.Flow.Duplicates.{IsLoggedIn, log_in-log_in}
use rzu.Auth.Flow.Registration.{to_lower_idem}
use rzu.Auth.Flow.ServerList.{list_servers_complete, IsIn, IsRowOf}
use rzu.Auth.Flow.Dangling.{logout-dangles}
use rzu.Auth.Session.Handlers as ClientHandlers
use rzu.Auth.GameServer.Handlers as GameHandlers
use rzu.Auth.Tests.Runs.{
  setting, alice, server_login, row, run, server_in, account_in, selection, entry, list_end,
  server_there, server_ready, logged_in, handed_over, in_game,
}

-- The player before the hand-over, after it, and in game; the server, empty and with the player.
abbrev at_address : Option ClientData → ClientData
at_address none = new_client (record {
  session = none;
  account = [];
  account_id = 0;
  age = 0;
  event_code = 0;
  pc_bang = 0;
  ip = [];
})
at_address (some c) = c

abbrev the_game : Option GameData → GameData
the_game none = new_game (login_info server_login) none 0
the_game (some game) = game

abbrev player : ClientData
player = at_address (lookup 1 logged_in.clients)

abbrev handed : ClientData
handed = at_address (lookup 1 handed_over.clients)

abbrev playing : ClientData
playing = at_address (lookup 1 in_game.clients)

abbrev game : GameData
game = the_game (lookup 0 logged_in.games)

abbrev busy : GameData
busy = the_game (lookup 0 in_game.games)

some_players : setting.config.max_players ≢ 0
some_players = λ e. absurd (ground arith)

server_ready-Reachable : Reachable setting server_ready
unfolding run
server_ready-Reachable =
    step list_end server_there server_ready (step server_in initial server_there start tt refl) tt
      refl

logged_in-Reachable : Reachable setting logged_in
unfolding run
logged_in-Reachable = step account_in server_ready logged_in server_ready-Reachable refl refl

handed_over-Reachable : Reachable setting handed_over
unfolding run
handed_over-Reachable = step selection logged_in handed_over logged_in-Reachable refl refl

in_game-Reachable : Reachable setting in_game
unfolding run
in_game-Reachable = step entry handed_over in_game handed_over-Reachable tt refl

Reachable-IsSafe_example : IsSafe in_game
Reachable-IsSafe_example = Reachable-IsSafe setting in_game some_players in_game-Reachable

logged_in-IsSafe : IsSafe logged_in
logged_in-IsSafe = Reachable-IsSafe setting logged_in some_players logged_in-Reachable

handed_over-IsSafe : IsSafe handed_over
handed_over-IsSafe = Reachable-IsSafe setting handed_over some_players handed_over-Reachable

in_game-IsSafe : IsSafe in_game
in_game-IsSafe = Reachable-IsSafe setting in_game some_players in_game-Reachable

handle-IsSafe_example : Returns IsSafe (handle setting selection logged_in)
unfolding run
handle-IsSafe_example = handle-IsSafe setting selection logged_in some_players logged_in-IsSafe refl

on_client_login-on_select_server_example :
    Returns
      (λ w'.
        lookup 1 w'.clients ≡ some (after_login (12345 == 12345) 200 (to_server 0 12345 player)))
      (on_select_server (λ key. none) 8 3 12345 logged_in >>= on_client_login 1 alice 12345 200)
unfolding run
on_client_login-on_select_server_example =
    on_client_login-on_select_server (λ key. none) 8 1 3 12345 12345 200 1 0 alice player game
      logged_in logged_in-IsSafe (omega arith) refl refl refl refl refl refl refl

on_game_packet-Returns_example :
    Returns
      (Handles GamePacket.logout in_game)
      (GameHandlers.on_packet_received 1 GamePacket.logout 300 in_game)
on_game_packet-Returns_example =
    on_game_packet-Returns 1 GamePacket.logout 300 in_game in_game-IsSafe.sound

on_packet_received-IsSafe_example : Returns IsSafe (
    ClientHandlers.on_packet_received setting.config 20240101
      (λ key. none)
      8
      ClientPacket.request_servers
      logged_in)
on_packet_received-IsSafe_example =
    on_packet_received-IsSafe setting.config 20240101 (λ key. none) 8 ClientPacket.request_servers
      logged_in some_players logged_in-IsSafe

log_in-log_in_example :
    Returns
      (λ w'. IsLoggedIn 11 77 w' (get_client_by_id 77 w'))
      (log_in false 10 alice [] row in_game >>= log_in false 11 alice [] row)
unfolding run
log_in-log_in_example =
    log_in-log_in false 10 11 1 0 alice [] row playing in_game in_game-IsSafe.sound refl refl refl
      refl refl (λ e. tt)

remove_game_lem_example :
    Returns (Removed 0 in_game) (remove_game 0 in_game >>= λ w'. some (clear_game_data 1 w'))
unfolding run
remove_game_lem_example = remove_game_lem 1 0 busy in_game in_game-IsSafe.sound refl refl

set_game_data_attach_example :
    set_game_data nesting 2 (some 0) in_game.links ≡ some (attached 2 0 in_game.links)
unfolding run
set_game_data_attach_example =
    set_game_data_attach 2 0 in_game.links in_game-IsSafe.sound.linked refl

abbrev shown : ServerRow
shown = record { info = game.info; user_ratio = 0 }

list_servers_complete_example :
    Returns
      (λ rows. IsIn shown rows ↔ IsRowOf 30 400 logged_in.servers logged_in shown)
      (list_servers 30 400 logged_in.servers logged_in)
list_servers_complete_example =
    list_servers_complete 30 400 logged_in shown some_players logged_in-IsSafe.sound

logout-dangles_example : (on_client_logout 1 alice 250 logged_in >>= on_disconnected 8) ≡ none
unfolding run
logout-dangles_example = logout-dangles 1 0 8 1 alice 250 logged_in logged_in-IsSafe refl refl refl

abbrev bob : NewClient
bob = record {
  session = some 12;
  account = b'B' ∷ b'O' ∷ b'B' ∷ [];
  account_id = 78;
  age = 20;
  event_code = 0;
  pc_bang = 0;
  ip = [];
}

abbrev bob_again : NewClient
bob_again = record bob { account = b'b' ∷ b'o' ∷ b'b' ∷ []; account_id = 79; session = some 13 }

to_lower_idem_example : to_lower (to_lower alice) ≡ to_lower alice
to_lower_idem_example = to_lower_idem alice

abbrev account_packet : AccountPacket
account_packet = record { account = alice; password_size = 2; password = 1 ∷ 2 ∷ [] }
