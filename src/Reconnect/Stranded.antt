-- ===== src/Reconnect/Stranded.antt =====
-- A game server of rzgamereconnect that sends a logout itself, which AuthSession.cpp passes on.
use rzu.Prelude.{ℕ, ◌≡◌, refl, ◌∙◌, true, false, List, [], ◌∷◌, ◌++◌, Bytes, arith}
use rzu.Net.Streams.{unconnected, connected}
use rzu.Reconnect.State.{AuthSession, Message, logout}
use rzu.Reconnect.AuthSession.{
  send_packet, send_packet_to_network, logout_client, disconnect, on_disconnected, has_game,
  on_timer_reconnect,
}

-- What a game server makes the session do, the end of its connection by the other end included, and the
-- timer.
pub data GameCall : Type 0 where
  relays : Message → GameCall
  tells_logout : Bytes → ℕ → GameCall
  leaves : GameCall
  rings : GameCall

unfoldable pub run_game_call : GameCall → AuthSession → AuthSession
run_game_call (relays m) s = send_packet m s
run_game_call (tells_logout name time) s = logout_client name time s
run_game_call leaves s = disconnect s
run_game_call rings s = on_timer_reconnect s

abbrev pub run_game_calls : List GameCall → AuthSession → AuthSession
run_game_calls [] s = s
run_game_calls (c ∷ rest) s = run_game_calls rest (run_game_call c s)

-- No connection, none to come, and no end: the session stays.
pub record IsStranded (s : AuthSession) : Type 0 where
  pub no_connection : s.stream ≡ unconnected
  pub no_timer : s.timer ≡ false
  pub no_end : s.delete_later ≡ false
  pub had_login : s.sent_login_packet ≡ true

run_game_call-IsStranded :
    (c : GameCall) (s : AuthSession) → IsStranded s → IsStranded (run_game_call c s)
unfolding run_game_call send_packet logout_client disconnect on_timer_reconnect
run_game_call-IsStranded (relays m) s h = ground arith
run_game_call-IsStranded (tells_logout name time) s h = ground arith
run_game_call-IsStranded leaves s h = ground arith
run_game_call-IsStranded rings s h = ground arith

run_game_call-unsent :
    (c : GameCall) (s : AuthSession) → IsStranded s → (run_game_call c s).sent ≡ s.sent
unfolding run_game_call send_packet logout_client disconnect on_timer_reconnect
run_game_call-unsent (relays m) s h = ground arith
run_game_call-unsent (tells_logout name time) s h = ground arith
run_game_call-unsent leaves s h = ground arith
run_game_call-unsent rings s h = ground arith

stays :
    (calls : List GameCall) (s : AuthSession)
    → IsStranded s
    → IsStranded (run_game_calls calls s) × ((run_game_calls calls s).sent ≡ s.sent)
stays [] s h = (h, refl)
stays (c ∷ rest) s h =
    let k = stays rest (run_game_call c s) (run_game_call-IsStranded c s h) in
    (k.0, k.1 ∙ run_game_call-unsent c s h)

closed_lem :
    (s : AuthSession)
    → s.stream ≡ connected
    → s.synchronized ≡ true
    → has_game s.game_server_session ≡ true
    → s.timer ≡ false
    → s.delete_later ≡ false
    → s.sent_login_packet ≡ true
    → IsStranded (on_disconnected false (send_packet logout s))
      × ((on_disconnected false (send_packet logout s)).sent ≡ s.sent ++ logout ∷ [])
unfolding on_disconnected send_packet send_packet_to_network
closed_lem s c y g t l p = ground arith

-- If a game server itself sends the logout that rzgamereconnect relays, over a session that is
-- connected, synchronised and logged in, the session closes the connection and then, whatever
-- packets the game server sends and also if the game server closes its own connection, never
-- connects again and is not deleted; nothing but that logout is sent.
pub relayed_logout-IsStranded :
    (s : AuthSession) (calls : List GameCall)
    → s.stream ≡ connected
    → s.synchronized ≡ true
    → has_game s.game_server_session ≡ true
    → s.timer ≡ false
    → s.delete_later ≡ false
    → s.sent_login_packet ≡ true
    → let r = run_game_calls calls (on_disconnected false (send_packet logout s)) in
      IsStranded r × (r.sent ≡ s.sent ++ logout ∷ [])
relayed_logout-IsStranded s calls c y g t l p =
    let (h, e) = closed_lem s c y g t l p in
    let (k, d) = stays calls (on_disconnected false (send_packet logout s)) h in (k, d ∙ e)
