-- ===== src/Reconnect/Cycle.antt =====
-- The events of rzgamereconnect when the authentication server goes away and comes back.
use rzu.Prelude.{ℕ, true, Option, ◌>>=◌}
use rzu.Prelude.Keyed.{number_key}
use rzu.Auth.State.{success}
use rzu.Reconnect.State.{AuthSession, World, login_result}
use rzu.Reconnect.GameServer.{auth_leaves, auth_timer, auth_connects, auth_packet, handle}

-- The other end closes, the timer runs out, the connection is made and the login accepted.
abbrev pub reconnection : ℕ → World → Option World
reconnection a w = handle (auth_leaves a true) w >>= λ lost. handle (auth_timer a) lost >>= λ again.
    handle (auth_connects a) again >>= λ asked. handle (auth_packet a (login_result success)) asked
