-- ===== src/Auth/System.antt =====
-- The whole server of rzauth/src/AuthServer: what can happen to its sessions, one event after another.
use rzu.Prelude.{
  Returns, Returns-bind, Returns-mono, ◌>>=◌, ℕ, ◌≡◌, ◌≢◌, refl, Bool, false, true, if◌then◌else◌,
  Option, none, some, List, [], Bytes, arith,
}
use rzu.Prelude.Keyed.{lookup, number_key, bytes_key}
use rzu.Auth.State.{World, Config, ClientSession, GameServerSession}
use rzu.Auth.GameServer.Packets.{GamePacket}
use rzu.Auth.GameServer.Handlers.{on_session_deleted, on_client_logout, end_of_client}
use rzu.Auth.GameServer.Safety.Packets.{on_game_packet-Returns, ReportsServed, Handles}
use rzu.Auth.GameServer.Safety.Login.{Keeps, on_session_deleted-Returns}
use rzu.Auth.Session.Handlers.{
  ClientPacket, AccountRow, on_disconnected, delete_session, client_auth_result, before_packet,
}
use rzu.Auth.Session.Safety.Players.{IsLeft, on_disconnected-IsSafe, delete_session-IsSafe}
use rzu.Auth.Session.Safety.Login.{client_auth_result-IsSafe, session-IsSafe}
use rzu.Auth.Session.Safety.Packets.{on_packet_received-IsSafe}
use rzu.Auth.Invariant.Defs.{IsSafe}
use rzu.Auth.Session.Version.{epic_2}
use rzu.Auth.GameServer.Handlers as GameHandlers
use rzu.Auth.Session.Handlers as ClientHandlers

-- The configuration, the build date as a number, and the encryption of one session's answers.
pub record Setting : Type 0 where
  pub config : Config
  pub build_date : ℕ
  pub encrypt : ℕ → ℕ → Option Bytes

-- What the event loop calls the sessions with. A packet comes with its id and its size. A call of a client's
-- session that is deleted is the use of a dangling pointer.
pub data Event : Type 0 where
  client_packet : ℕ → ℕ → ℕ → ClientPacket → Event
  client_closed : ℕ → Event
  query_done : ℕ → Bytes → Bytes → List AccountRow → Event
  game_packet : ℕ → GamePacket → ℕ → Event
  game_closed : ℕ → Event

unfoldable pub handle : Setting → Event → World → Option World
unfolding ClientHandlers.on_packet_received before_packet on_disconnected delete_session
    client_auth_result GameHandlers.on_packet_received on_session_deleted
handle setting (client_packet s id size packet) w =
    if (w.client_sessions s).live
    then ClientHandlers.on_packet_received setting.config setting.build_date (setting.encrypt s) s
        packet (before_packet s id size w)
    else none
handle setting (client_closed s) w =
    if (w.client_sessions s).live
    then (on_disconnected s w >>= λ w'. some (delete_session s w'))
    else none
handle setting (query_done s account ip rows) w =
    if (w.client_sessions s).live
    then client_auth_result setting.config.strict_kick s account ip rows w
    else none
handle setting (game_packet s packet now) w = GameHandlers.on_packet_received s packet now w
handle setting (game_closed s) w = on_session_deleted s w

abbrev new_session : ClientSession
new_session = record {
  last_login_server_id = 1;
  server_idx_offset = 0;
  client_data = none;
  packet_version = epic_2;
  query_in_progress = false;
  live = true;
}

abbrev new_game_session : GameServerSession
new_game_session = record {
  auto_reconnect = false;
  security_no_send_mode = true;
  already_connected = [];
}

-- No player, no server, and sessions that have just been accepted.
abbrev pub initial : World
initial = record {
  clients = [];
  connected_clients = [];
  connected_clients_by_name = [];
  games = [];
  servers = [];
  links = record { game_of = λ s. none; session_of = λ g. none };
  game_sessions = λ s. new_game_session;
  client_sessions = λ s. new_session;
  next_address = 0;
  sent = [];
}

-- A client's session gets events until its end, and a game server reports the end of players that it was
-- given, and of no other.
abbrev pub IsExpected : Event → World → Type 0
IsExpected (game_packet s packet now) w = ReportsServed packet w
IsExpected (game_closed s) w = Unit
IsExpected (client_packet s id size packet) w = (w.client_sessions s).live ≡ true
IsExpected (client_closed s) w = (w.client_sessions s).live ≡ true
IsExpected (query_done s account ip rows) w = (w.client_sessions s).live ≡ true

-- The states that expected events lead to.
pub data Reachable (setting : Setting) : World → Type 0 where
  start : Reachable setting initial
  step :
      (event : Event) (w w' : World)
      → Reachable setting w
      → IsExpected event w
      → handle setting event w ≡ some w'
      → Reachable setting w'

pub initial-IsSafe : IsSafe initial
unfolding lookup
initial-IsSafe = record {
  sound = record {
    consistent = record {
      unique = tt;
      unique_ids = tt;
      fresh = λ p c e. absurd (ground arith);
      by_id = λ k p e. absurd (ground arith);
      by_name = λ k p e. absurd (ground arith);
      listed = λ p c e. absurd (ground arith);
    };
    counted = λ g. tt;
    placed = λ p. tt;
    unique_servers = tt;
    tabled = λ i g e. absurd (ground arith);
    game_fresh = λ g h. absurd h;
    linked = record {
      game_end = λ s g e. absurd (ground arith);
      session_end = λ s g e. absurd (ground arith);
    };
    session_live = λ g s e. absurd (ground arith);
  };
  owned = record {
    points = λ s p e. absurd (ground arith);
    holds = λ p s c e m. absurd (ground arith);
  };
}

before_packet-IsSafe : (s id size : ℕ) (w : World) → IsSafe w → IsSafe (before_packet s id size w)
unfolding before_packet
before_packet-IsSafe s id size w h = session-IsSafe s _ w refl refl h

Keeps-IsSafe : (w w' : World) → IsSafe w → Keeps w w' → IsSafe w'
Keeps-IsSafe w w' h k = record { sound = k.sound; owned = k.owned h.owned }

Handles-IsSafe :
    (packet : GamePacket) (w w' : World)
    → IsSafe w
    → ReportsServed packet w
    → Handles packet w w'
    → IsSafe w'
Handles-IsSafe packet w w' h r k = record { sound = k.sound; owned = k.owned r h.owned }

live_only :
    (b : Bool) (o : Option World)
    → b ≡ true
    → Returns IsSafe o
    → Returns IsSafe (if b then o else none)
live_only b o e h = rw e h

-- From a safe state every event (a packet, the end of a connection, the answer of a query) is
-- handled to its end without the read of a null or dangling pointer, that of a player to its
-- session included, and the state is safe again, if the configuration allows a player, an event
-- of a client comes to a session that is not deleted, and the event is no report of the end of a
-- player that is with its session.
pub handle-IsSafe :
    (setting : Setting) (event : Event) (w : World)
    → setting.config.max_players ≢ 0
    → IsSafe w
    → IsExpected event w
    → Returns IsSafe (handle setting event w)
unfolding handle
handle-IsSafe setting (client_packet s id size packet) w n h x = live_only _ _ x (
    on_packet_received-IsSafe setting.config setting.build_date (setting.encrypt s) s packet _ n
      (before_packet-IsSafe s id size w h))
handle-IsSafe setting (client_closed s) w n h x = live_only _ _ x (
    Returns-bind (IsLeft s) IsSafe (on_disconnected s w) _ (on_disconnected-IsSafe s w h)
      (λ w' left. delete_session-IsSafe s w' left.1 left.0))
handle-IsSafe setting (query_done s account ip rows) w n h x =
    live_only _ _ x (client_auth_result-IsSafe setting.config.strict_kick s account ip rows w h x)
handle-IsSafe setting (game_packet s packet now) w n h x =
    Returns-mono _ _ _ (λ w' k. Handles-IsSafe packet w w' h x k)
      (on_game_packet-Returns s packet now w h.sound)
handle-IsSafe setting (game_closed s) w n h x =
    Returns-mono _ _ _ (λ w' k. Keeps-IsSafe w w' h k) (on_session_deleted-Returns s w h.sound)

-- Every state that events lead to from the empty server is safe, if an event of a client comes to
-- a session that is not deleted, and a game server reports the end only of players that were
-- given to one: no session holds a dangling pointer, each player is with a session that is not
-- deleted and holds it, or with a live game server, both maps of the registry agree with the live
-- players, and each player count is right modulo its width. The configuration must allow a
-- player.
pub Reachable-IsSafe :
    (setting : Setting) (w : World)
    → setting.config.max_players ≢ 0
    → Reachable setting w
    → IsSafe w
Reachable-IsSafe setting _ n start = initial-IsSafe
Reachable-IsSafe setting _ n (step event w w' r x e) =
    rw e at (handle-IsSafe setting event w n (Reachable-IsSafe setting w n r) x)
