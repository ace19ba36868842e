-- ===== src/Auth/Client/Counting.antt =====
-- Players and servers of rzauth/src/AuthServer: each player is with its session or with a live game
-- server, and each server's `playerCount` is the number of players in game on it.
use mathlib.Core.Option
use rzu.Prelude.{ℕ, ◌%◌, ◌≡◌, refl, Bool, false, ◌&&◌, Option, none, some, arith, if◌then◌else◌}
use rzu.Prelude.Keyed.{
  Map, lookup, count, IsUnique, lookup-adjust, count-erase, count-put, count-adjust, number_key,
  bytes_key,
}
use rzu.Auth.State.{ClientData, GameData, World}
use rzu.Auth.Client.Registry.{
  NewClient, new_client, register, forget, at_server, u32_mod, inc_player_count, dec_player_count,
}
use rzu.Auth.Client.Moves.{is_server, to_server, enter_game, switch_client_to_server, entered}
use rzu.Auth.Client.Consistency.{IsConsistent, next_address_free}

abbrev pub plays_on : ℕ → ClientData → Bool
plays_on g c = c.in_game && is_server g c.server

abbrev pub HasCount : ℕ → Option GameData → Type 0
HasCount n none = Unit
HasCount n (some game) = game.player_count ≡ n % u32_mod

-- The count of every live server is right, modulo the width of its counter.
abbrev pub IsCounted : World → Type 0
IsCounted w = (g : ℕ) → HasCount (count (plays_on g) w.clients) (lookup g w.games)

pub register-IsCounted :
    (n : NewClient) (w : World) → IsConsistent w → IsCounted w → IsCounted (register n w)
unfolding register
register-IsCounted n w v h g = ground (
  arith,
  h g,
  count-put (plays_on g) w.next_address (new_client n) w.clients (next_address_free w v),
)

pub lookup-at_server :
    (server : Option ℕ) (f : GameData → GameData) (games : Map ℕ GameData) (g : ℕ)
    → lookup g (at_server server f games)
      ≡ (if is_server g server then Option.map f (lookup g games) else lookup g games)
lookup-at_server none f games g = refl
lookup-at_server (some s) f games g = ground (arith, lookup-adjust s g f games)

pub forget-IsCounted :
    (p : ℕ) (c : ClientData) (w : World)
    → IsUnique w.clients
    → lookup p w.clients ≡ some c
    → IsCounted w
    → IsCounted (forget p c w)
unfolding forget
forget-IsCounted p c w u e h g = ground (
  arith,
  h g,
  lookup-at_server c.server dec_player_count w.games g,
  count-erase (plays_on g) p c w.clients u e,
)

pub switch-IsCounted :
    (p g key : ℕ) (c : ClientData) (w : World)
    → IsUnique w.clients
    → lookup p w.clients ≡ some c
    → c.in_game ≡ false
    → IsCounted w
    → IsCounted (switch_client_to_server p g key w)
unfolding switch_client_to_server
switch-IsCounted p g key c w u e out h i =
    ground (arith, h i, count-adjust (plays_on i) p (to_server g key) c w.clients u e)

pub entered-IsCounted :
    (p now g : ℕ) (c : ClientData) (w : World)
    → IsUnique w.clients
    → lookup p w.clients ≡ some c
    → c.server ≡ some g
    → c.in_game ≡ false
    → IsCounted w
    → IsCounted (entered p now g w)
unfolding entered
entered-IsCounted p now g c w u e on out h i = ground (
  arith,
  h i,
  lookup-adjust g i inc_player_count w.games,
  count-adjust (plays_on i) p (enter_game now) c w.clients u e,
)
