-- ===== src/Auth/Invariant/Defs.antt =====
-- The invariant of the server's state, and results that are not undefined behaviour.
use rzu.Prelude.{ℕ, ◌<◌, ◌≡◌, Bool, true, false, Option, none, some, List}
use rzu.Prelude.Keyed.{Map, lookup, IsUnique, number_key}
use rzu.Auth.State.{
  ClientData, GameData, ClientSession, GameServerSession, Output, World, send, set_client_session,
  set_game_session,
}
use rzu.Auth.Client.Consistency.{IsConsistent}
use rzu.Auth.Client.Counting.{IsCounted}
use rzu.Auth.Game.Link.{IsLinked}

abbrev pub IsLive {ℓ} : {A : Type ℓ} → Option A → Type 0
IsLive none = ⊥
IsLive (some a) = Unit

-- A player is with its session and not in game, or with a live game server: never both, never none.
abbrev pub HeldBy : Map ℕ GameData → Option ℕ → Option ℕ → Bool → Type 0
HeldBy games none none in_game = ⊥
HeldBy games (some s) none in_game = in_game ≡ false
HeldBy games none (some g) in_game = IsLive (lookup g games)
HeldBy games (some s) (some g) in_game = ⊥

abbrev pub IsPlaced : Map ℕ GameData → Option ClientData → Type 0
IsPlaced games none = Unit
IsPlaced games (some c) = HeldBy games c.client c.server c.in_game

abbrev pub HasIndex : ℕ → Option GameData → Type 0
HasIndex i none = ⊥
HasIndex i (some game) = game.server_idx ≡ i

pub record IsSound (w : World) : Type 0 where
  pub consistent : IsConsistent w
  pub counted : IsCounted w
  pub placed : (p : ℕ) → IsPlaced w.games (lookup p w.clients)
  pub unique_servers : IsUnique w.servers
  pub tabled : (i g : ℕ) → lookup i w.servers ≡ some g → HasIndex i (lookup g w.games)
  pub game_fresh : (g : ℕ) → IsLive (lookup g w.games) → g < w.next_address
  pub linked : IsLinked w.links
  pub session_live : (g s : ℕ) → w.links.session_of g ≡ some s → IsLive (lookup g w.games)

-- A session's pointer leads to a player that knows this session.
abbrev pub KnowsSession : ℕ → Option ClientData → Type 0
KnowsSession s none = ⊥
KnowsSession s (some c) = c.client ≡ some s

-- The sessions and the players point to one another: a session to a player that knows it, and a player to a
-- session that is there and holds it.
pub record Pointers (clients : Map ℕ ClientData) (sessions : ℕ → ClientSession) : Type 0 where
  pub points : (s p : ℕ) → (sessions s).client_data ≡ some p → KnowsSession s (lookup p clients)
  pub holds :
      (p s : ℕ) (c : ClientData)
      → lookup p clients ≡ some c
      → c.client ≡ some s
      → ((sessions s).client_data ≡ some p) × ((sessions s).live ≡ true)

abbrev pub IsOwned : World → Type 0
IsOwned w = Pointers w.clients w.client_sessions

pub record IsSafe (w : World) : Type 0 where
  pub sound : IsSound w
  pub owned : IsOwned w

-- The invariant is about neither the sessions' own fields nor what was sent.
pub frame-IsSound :
    (w : World) (cs : ℕ → ClientSession) (gs : ℕ → GameServerSession) (sent : List Output)
    → IsSound w
    → IsSound (record w { client_sessions = cs; game_sessions = gs; sent = sent })
frame-IsSound w cs gs sent v = record {
  consistent = record {
    unique = v.consistent.unique;
    unique_ids = v.consistent.unique_ids;
    fresh = v.consistent.fresh;
    by_id = v.consistent.by_id;
    by_name = v.consistent.by_name;
    listed = v.consistent.listed;
  };
  counted = v.counted;
  placed = v.placed;
  unique_servers = v.unique_servers;
  tabled = v.tabled;
  game_fresh = v.game_fresh;
  linked = v.linked;
  session_live = v.session_live;
}

pub send-IsSound : (o : Output) (w : World) → IsSound w → IsSound (send o w)
unfolding send
send-IsSound o w v = frame-IsSound w _ _ _ v

pub client_session-IsSound :
    (s : ℕ) (c : ClientSession) (w : World) → IsSound w → IsSound (set_client_session s c w)
client_session-IsSound s c w v = frame-IsSound w _ _ _ v

pub game_session-IsSound :
    (s : ℕ) (g : GameServerSession) (w : World) → IsSound w → IsSound (set_game_session s g w)
game_session-IsSound s g w v = frame-IsSound w _ _ _ v

pub send-IsSafe : (o : Output) (w : World) → IsSafe w → IsSafe (send o w)
unfolding send
send-IsSafe o w h = record { sound = frame-IsSound w _ _ _ h.sound; owned = h.owned }
