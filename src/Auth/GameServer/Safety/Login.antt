-- ===== src/Auth/GameServer/Safety/Login.antt =====
-- A game server that logs in, takes its data back, or leaves (`onServerLogin`, `onServerLogout` and
-- the destructor of GameServerSession.cpp), keeps the invariant.
use rzu.Prelude.{
  Returns, Returns-mono, ℕ, ◌≡◌, true, false, ◌&&◌, Option, none, some, [], ◌∷◌, ◌++◌, Bytes, arith,
  Option-cases, Bool-cases, inl, inr, ◌==◌,
}
use rzu.Prelude.Keyed.{lookup, number_key}
use rzu.Auth.State.{GameData, ServerInfo, World, Output}
use rzu.Auth.Game.Link.{
  attached, set_game_data_attach, set_game_data_detach, set_game_data-constructed,
}
use rzu.Auth.Game.Servers.{try_add, create_game, set_ready, link_session}
use rzu.Auth.GameServer.Packets.{LoginPacket, login_info}
use rzu.Auth.GameServer.Handlers.{
  login_taken, login_created, on_server_login, on_server_logout, on_session_deleted, same_game,
}
use rzu.Auth.Invariant.Defs.{IsSound, IsOwned, frame-IsSound}
use rzu.Auth.Invariant.Games.{set_ready-IsSound, link-IsSound, unlink-IsSound}
use rzu.Auth.Invariant.Servers.{new_game-IsSound, with_new_game, Removed, remove_game_lem}

-- A step that keeps both parts of the invariant.
pub record Keeps (w w' : World) : Type 0 where
  pub sound : IsSound w'
  pub owned : IsOwned w → IsOwned w'

pub logged-Keeps :
    (o : Output) (w : World) → IsSound w → Keeps w (record w { sent = w.sent ++ o ∷ [] })
logged-Keeps o w v = record { sound = frame-IsSound w _ _ _ v; owned = λ h. h }

-- Whichever session had the data, the new one has it now.
taken_over-Returns :
    (s : ℕ) (info : ServerInfo) (guid : Option Bytes) (old : ℕ) (game : GameData) (w : World)
    → IsSound w
    → w.links.game_of s ≡ none
    → lookup old w.games ≡ some game
    → Returns (Keeps w) (login_taken s info guid old w)
unfolding login_taken link_session set_ready
taken_over-Returns s info guid old game w v free e =
    elim (Bool-cases ((w.game_sessions s).auto_reconnect && same_game game info guid)) [
      | inr other ↦ rw (e, login_taken) (rw (other, login_taken) (logged-Keeps _ w v))
      | inl same ↦
          rw (e, login_taken)
            (rw (same, login_taken)
              (rw (set_game_data_attach s old w.links v.linked free, login_taken)
                (elim (Option-cases (w.links.session_of old)) [
                  | inl n ↦
                      rw (n, login_taken)
                        (record { sound = frame-IsSound _ _ _ _ ready_again; owned = λ h. h })
                  | inr (t, n) ↦
                      rw (n, login_taken)
                        (record { sound = frame-IsSound _ _ _ _ ready_again; owned = λ h. h })
                ])))
    ]
  where
    ready_again : IsSound (set_ready old false (record w { links = attached s old w.links }))
    ready_again = set_ready-IsSound old false _ (link-IsSound s old w v free (rw e tt))

created-Returns :
    (s : ℕ) (info : ServerInfo) (guid : Option Bytes) (now : ℕ) (w : World)
    → IsSound w
    → w.links.game_of s ≡ none
    → Returns (Keeps w) (login_created s w.next_address (create_game s info guid now w))
unfolding login_created link_session create_game set_ready
created-Returns s info guid now w v free =
    rw (set_game_data-constructed s w.next_address w.links free, login_created)
      (record {
        sound = frame-IsSound _ _ _ _ (
            set_ready-IsSound w.next_address _ (with_new_game s info guid now w)
              (new_game-IsSound s info guid now w v free));
        owned = λ h. h;
      })

pub on_server_login-Returns :
    (s : ℕ) (packet : LoginPacket) (guid : Option Bytes) (now : ℕ) (w : World)
    → IsSound w
    → Returns (Keeps w) (on_server_login s packet guid now w)
unfolding on_server_login try_add
on_server_login-Returns s packet guid now w v = elim (Option-cases (w.links.game_of s)) [
  | inr (g, e) ↦ rw (e, on_server_login) (logged-Keeps _ w v)
  | inl free ↦ elim (Option-cases (lookup packet.server_idx w.servers)) [
    | inl n ↦
        rw (free, on_server_login)
          (rw (n, on_server_login) (created-Returns s (login_info packet) guid now w v free))
    | inr (old, n) ↦ elim (Option-cases (lookup old w.games)) [
      | inl m ↦ absurd (ground (arith, v.tabled packet.server_idx old n))
      | inr (game, m) ↦
          rw (free, on_server_login)
            (rw (n, on_server_login)
              (taken_over-Returns s (login_info packet) guid old game w v free m))
    ]
  ]
]

pub Removed-Keeps : (g : ℕ) (w w' : World) → Removed g w w' → Keeps w w'
Removed-Keeps g w w' r = record { sound = r.sound; owned = r.owned }

pub on_server_logout-Returns :
    (s : ℕ) (w : World) → IsSound w → Returns (Keeps w) (on_server_logout s w)
unfolding on_server_logout
on_server_logout-Returns s w v = elim (Option-cases (w.links.game_of s)) [
  | inl e ↦ rw (e, on_server_logout) (record { sound = v; owned = λ h. h })
  | inr (g, e) ↦ elim (Option-cases (lookup g w.games)) [
    | inl n ↦ absurd (ground (arith, v.session_live g s, v.linked.game_end s g e))
    | inr (game, n) ↦
        rw (e, on_server_logout)
          (Returns-mono (Removed g w) (Keeps w) _ (Removed-Keeps g w)
            (remove_game_lem s g game w v n e))
  ]
]

-- The end of a server's session, logged out before or not, keeps the invariant: its data stays
-- when the server can reconnect.
pub on_session_deleted-Returns :
    (s : ℕ) (w : World) → IsSound w → Returns (Keeps w) (on_session_deleted s w)
unfolding on_session_deleted link_session
on_session_deleted-Returns s w v = elim (Option-cases (w.links.game_of s)) [
  | inl e ↦ rw (e, on_session_deleted) (record { sound = v; owned = λ h. h })
  | inr (g, e) ↦
      rw (e, on_session_deleted, v.linked.game_end s g e)
        (elim (Bool-cases (w.game_sessions s).auto_reconnect) [
          | inl back ↦
              rw (back, on_session_deleted, self s, set_game_data_detach s g w.links v.linked e)
                (record { sound = unlink-IsSound s g w v e; owned = λ h. h })
          | inr gone ↦ elim (Option-cases (lookup g w.games)) [
            | inl n ↦ absurd (ground (arith, v.session_live g s, v.linked.game_end s g e))
            | inr (game, n) ↦
                rw (gone, on_session_deleted, self s)
                  (Returns-mono (Removed g w) (Keeps w) _ (Removed-Keeps g w)
                    (remove_game_lem s g game w v n e))
          ]
        ])
]
  where
    self : (n : ℕ) → (n == n) ≡ true
    self n = ground arith
