-- ===== src/Reconnect/Tests.antt =====
-- Runs of rzgamereconnect, and uses of the theorems on it.
use rzu.Prelude.{Returns, ◌≡◌, refl, true, false, some, List, [], ◌∷◌, Bytes, ℕ_discrete}
use rzu.Prelude.Keyed.{lookup, put, erase, number_key}
use rzu.Auth.State.{ServerInfo, AccountInfo}
use rzu.Auth.GameServer.Packets.{convert_to_string}
use rzu.Net.Streams.{connected}
use rzu.Reconnect.State.{AuthSession, World, login, logout, other, server_login, relayed}
use rzu.Reconnect.AuthSession.{send_packet, packets_of, max_count_per_packet, on_disconnected}
use rzu.Reconnect.GameServer.{new_auth, new_game, game_arrives, game_packet, handle}
use rzu.Reconnect.Links.{IsLinked}
use rzu.Reconnect.Safety.Events.{Reachable, started, happened, Reachable-IsLinked, handle-IsLinked}
use rzu.Reconnect.Queue.Calls.{Call, pass, established, accepted, lost, timer}
use rzu.Reconnect.Accounts.{accounts_of, IsListing, packets_of_complete}
use rzu.Reconnect.Stranded.{IsStranded, relays, leaves, run_game_calls, relayed_logout-IsStranded}

abbrev info : ServerInfo
info = record {
  server_idx = 7;
  server_name = b'a' ∷ [];
  server_ip = b'i' ∷ [];
  server_port = 4514;
  screenshot_url = [];
  is_adult_server = false;
}

abbrev guid : Bytes
guid = 5 ∷ 6 ∷ []

abbrev with_game : World
with_game = record { auths = []; games = (0, new_game) ∷ []; servers = []; next = 1 }

abbrev with_auth_session : World
with_auth_session = record {
  auths = (1, new_auth 0 info guid) ∷ [];
  games = (0, record { auth_session = some 1; server_idx = 7; replies = [] }) ∷ [];
  servers = (7, 1) ∷ [];
  next = 2;
}

game_arrived : Reachable with_game
unfolding handle put erase
game_arrived = happened game_arrives started tt refl

logged_in : Reachable with_auth_session
unfolding handle lookup put erase convert_to_string ℕ_discrete
logged_in = happened (game_packet 0 guid (server_login info)) game_arrived (λ e. cc) refl

Reachable-IsLinked_example : IsLinked with_auth_session
Reachable-IsLinked_example = Reachable-IsLinked logged_in

handle-IsLinked_example :
    Returns IsLinked (handle (game_packet 0 guid (relayed (other 4 []))) with_auth_session)
unfolding lookup ℕ_discrete
handle-IsLinked_example =
    handle-IsLinked (game_packet 0 guid (relayed (other 4 []))) with_auth_session
      (Reachable-IsLinked logged_in) (λ e. cc)

abbrev calls : List Call
calls =
    pass (other 4 [])
    ∷ established
    ∷ pass (other 5 [])
    ∷ accepted
    ∷ lost true
    ∷ pass (other 6 [])
    ∷ timer
    ∷ established
    ∷ accepted
    ∷ []

abbrev account : AccountInfo
account = record {
  account = b'p' ∷ [];
  account_id = 9;
  pc_bang_user = 0;
  event_code = 0;
  age = 20;
  ip = [];
  login_time = 77;
}

packets_of_complete_example :
    (accounts_of (packets_of (account ∷ account ∷ [])) ≡ account ∷ account ∷ [])
    × IsListing max_count_per_packet (packets_of (account ∷ account ∷ []))
packets_of_complete_example = packets_of_complete (account ∷ account ∷ [])

abbrev playing : AuthSession
playing = record (new_auth 0 info guid) {
  stream = connected;
  synchronized = true;
  sent_login_packet = true;
  sent = login info guid ∷ [];
}

relayed_logout-IsStranded_example :
    let r =
      run_game_calls
        (relays (other 4 []) ∷ leaves ∷ [])
        (on_disconnected false (send_packet logout playing)) in
    IsStranded r × (r.sent ≡ login info guid ∷ logout ∷ [])
relayed_logout-IsStranded_example =
    relayed_logout-IsStranded playing (relays (other 4 []) ∷ leaves ∷ []) refl refl refl refl refl
      refl
