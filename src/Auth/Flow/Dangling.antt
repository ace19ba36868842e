-- ===== src/Auth/Flow/Dangling.antt =====
-- A game server that reports the end of a player still in authentication (`onClientLogout` of
-- GameServerSession.cpp, and then `onDisconnected` of ClientSession.cpp).
use rzu.Prelude.{ℕ, ◌≡◌, none, some, Bytes, arith, Option-cases, inl, inr, ◌>>=◌, [], ◌∷◌, ◌++◌}
use rzu.Prelude.Keyed.{lookup, lookup-erase, number_key, bytes_key}
use rzu.Auth.State.{World, ClientData, GameData, send, send_log, account_logout}
use rzu.Auth.Client.Registry.{forget, remove_client}
use rzu.Auth.Client.Moves.{get_client}
use rzu.Auth.GameServer.Packets.{convert_to_string}
use rzu.Auth.GameServer.Handlers.{end_of_client, on_client_logout, logout_numbers, logout_reason}
use rzu.Auth.GameServer.Safety.Clients.{own_game-IsLive}
use rzu.Auth.Session.Handlers.{on_disconnected}
use rzu.Auth.Invariant.Defs.{IsSafe, IsSound, frame-IsSound}
use rzu.Auth.Invariant.Players.{remove_client_lem}

forgotten_dangles :
    (t p : ℕ) (c : ClientData) (w : World)
    → (w.client_sessions t).client_data ≡ some p
    → on_disconnected t (forget p c w) ≡ none
unfolding on_disconnected forget remove_client
forgotten_dangles t p c w mine = ground (arith, lookup-erase p p w.clients)

module _ (s g p : ℕ) (field : Bytes) (now : ℕ) (c : ClientData) (w : World) (v : IsSound w)
    (e : w.links.game_of s ≡ some g) (m : get_client (convert_to_string field 60) w ≡ some p)
    (n : lookup p w.clients ≡ some c) where
  abbrev end_logged : GameData → World
  end_logged game = record w {
    sent =
        w.sent
        ++ send_log account_logout (logout_numbers c game.info now)
            (c.account ∷ c.ip ∷ [] ∷ logout_reason c ∷ [])
          ∷ [];
  }

  logout-forgets :
      (game : GameData)
      → lookup g w.games ≡ some game
      → on_client_logout s field now w ≡ some (forget p c (end_logged game))
  unfolding on_client_logout end_of_client send
  logout-forgets game k =
      rw (e, end_of_client)
        (rw (m, end_of_client)
          (rw (n, end_of_client)
            (rw (k, end_of_client)
              (remove_client_lem p c (end_logged game) (frame-IsSound w _ _ _ v) n))))

-- In a safe state, if a game server reports the logout of a player that a client session still
-- holds, the end of that session then reads the pointer to the player that is gone.
pub logout-dangles :
    (s g t p : ℕ) (field : Bytes) (now : ℕ) (w : World)
    → IsSafe w
    → w.links.game_of s ≡ some g
    → (w.client_sessions t).client_data ≡ some p
    → get_client (convert_to_string field 60) w ≡ some p
    → (on_client_logout s field now w >>= on_disconnected t) ≡ none
logout-dangles s g t p field now w h e mine m = elim (Option-cases (lookup p w.clients)) [
  | inl n ↦ absurd (ground (arith, h.owned.points t p mine))
  | inr (c, n) ↦ elim (Option-cases (lookup g w.games)) [
    | inl k ↦ absurd (ground (arith, own_game-IsLive s g w h.sound e))
    | inr (game, k) ↦
        rw (logout-forgets s g p field now c w h.sound e m n game k)
          (forgotten_dangles t p c (end_logged s g p field now c w h.sound e m n game) mine)
  ]
]
