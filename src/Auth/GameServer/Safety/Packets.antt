-- ===== src/Auth/GameServer/Safety/Packets.antt =====
-- Every packet of a game server (`onPacketReceived` of GameServerSession.cpp) keeps the invariant.
use rzu.Prelude.{
  Returns, Returns-mono, ℕ, Bool, true, false, none, some, Bytes, Bool-cases, inl, inr, leb,
}
use rzu.Auth.State.{World}
use rzu.Auth.GameServer.Packets.{GamePacket, SecurityPacket, security_packet_size}
use rzu.Auth.GameServer.Handlers.{
  on_packet_received, on_client_logout, on_client_kick_failed, on_security_no_check,
  set_auto_reconnect,
}
use rzu.Auth.Invariant.Defs.{IsSound, IsOwned, frame-IsSound, game_session-IsSound}
use rzu.Auth.GameServer.Safety.Login.{Keeps, on_server_login-Returns, on_server_logout-Returns}
use rzu.Auth.GameServer.Safety.Accounts.{on_account_list-Returns}
use rzu.Auth.GameServer.Safety.Clients.{
  Ends, NamesServed, on_client_login-Returns, end_of_client-Returns,
}

-- A packet that reports the end of a player names one that has a game server.
abbrev pub ReportsServed : GamePacket → World → Type 0
ReportsServed (GamePacket.client_logout field) w = NamesServed field w
ReportsServed (GamePacket.client_kick_failed field) w = NamesServed field w
ReportsServed packet w = Unit

pub record Handles (packet : GamePacket) (w w' : World) : Type 0 where
  pub sound : IsSound w'
  pub owned : ReportsServed packet w → IsOwned w → IsOwned w'

Handles-login :
    (packet : GamePacket) (s : ℕ) (reconnects : Bool) (w w' : World)
    → Keeps (set_auto_reconnect s reconnects w) w'
    → Handles packet w w'
Handles-login packet s reconnects w w' k = record { sound = k.sound; owned = λ r o. k.owned o }

Handles-Keeps : (packet : GamePacket) (w w' : World) → Keeps w w' → Handles packet w w'
Handles-Keeps packet w w' k = record { sound = k.sound; owned = λ r o. k.owned o }

Handles-logout :
    (field : Bytes) (w w' : World) → Ends field w w' → Handles (GamePacket.client_logout field) w w'
Handles-logout field w w' k = record { sound = k.sound; owned = k.owned }

Handles-kick_failed :
    (field : Bytes) (w w' : World)
    → Ends field w w'
    → Handles (GamePacket.client_kick_failed field) w w'
Handles-kick_failed field w w' k = record { sound = k.sound; owned = k.owned }

security-Keeps :
    (s : ℕ) (p : SecurityPacket) (w : World) → IsSound w → Keeps w (on_security_no_check s p w)
unfolding on_security_no_check
security-Keeps s p w v = elim (Bool-cases (leb security_packet_size p.size)) [
  | inl b ↦
      rw (b, on_security_no_check) (record { sound = frame-IsSound w _ _ _ v; owned = λ o. o })
  | inr b ↦
      rw (b, on_security_no_check) (record { sound = frame-IsSound w _ _ _ v; owned = λ o. o })
]

-- Every packet of a game server is handled without the read of a null or dangling pointer in a
-- sound state, whatever its session has done before, and leaves a sound state: tables, player
-- counts and links. The pointers of the client sessions stay valid unless the packet reports the
-- end of a player without a game server.
pub on_game_packet-Returns :
    (s : ℕ) (packet : GamePacket) (now : ℕ) (w : World)
    → IsSound w
    → Returns (Handles packet w) (on_packet_received s packet now w)
unfolding on_packet_received on_client_logout on_client_kick_failed
on_game_packet-Returns s (GamePacket.login_with_logout p) now w v =
    Returns-mono _ _ _ (λ w' k. Handles-login _ s true w w' k)
      (on_server_login-Returns s p none now _ (game_session-IsSound s _ w v))
on_game_packet-Returns s (GamePacket.login_with_logout_ext p guid) now w v =
    Returns-mono _ _ _ (λ w' k. Handles-login _ s true w w' k)
      (on_server_login-Returns s p (some guid) now _ (game_session-IsSound s _ w v))
on_game_packet-Returns s (GamePacket.login p) now w v =
    Returns-mono _ _ _ (λ w' k. Handles-login _ s false w w' k)
      (on_server_login-Returns s p none now _ (game_session-IsSound s _ w v))
on_game_packet-Returns s (GamePacket.account_list p) now w v =
    Returns-mono _ _ _ (λ w' k. Handles-Keeps _ w w' k) (on_account_list-Returns s p now w v)
on_game_packet-Returns s GamePacket.logout now w v =
    Returns-mono _ _ _ (λ w' k. Handles-Keeps _ w w' k) (on_server_logout-Returns s w v)
on_game_packet-Returns s (GamePacket.client_login account key) now w v =
    Returns-mono _ _ _ (λ w' k. Handles-Keeps _ w w' k)
      (on_client_login-Returns s account key now w v)
on_game_packet-Returns s (GamePacket.client_logout account) now w v =
    Returns-mono _ _ _ (λ w' k. Handles-logout account w w' k)
      (end_of_client-Returns _ s account now w v)
on_game_packet-Returns s (GamePacket.client_kick_failed account) now w v =
    Returns-mono _ _ _ (λ w' k. Handles-kick_failed account w w' k)
      (end_of_client-Returns _ s account now w v)
on_game_packet-Returns s (GamePacket.security_check p) now w v =
    Handles-Keeps _ w _ (security-Keeps s p w v)
on_game_packet-Returns s (GamePacket.unknown id) now w v = record { sound = v; owned = λ r o. o }
