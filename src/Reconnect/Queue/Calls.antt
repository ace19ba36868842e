-- ===== src/Reconnect/Queue/Calls.antt =====
-- What AuthSession.cpp of rzgamereconnect passes on, and the calls that it gets meanwhile.
use rzu.Prelude.{
  ℕ, ◌≡◌, refl, Bool, true, false, not, ◌&&◌, ◌||◌, List, [], ◌∷◌, ◌++◌, Bytes, if◌then◌else◌,
  arith,
}
use rzu.Net.Streams.{Stream, is_connected, connecting, connected, closing}
use rzu.Reconnect.State.{
  AuthSession, Message, login, account_list, client_login, client_logout, logout, other,
}
use rzu.Reconnect.AuthSession.{
  is_logout, send_packet, send_account_list, logout_client, on_connected, on_disconnected,
  on_timer_reconnect,
}

-- What the session says of itself is not passed on.
abbrev pub is_own : Message → Bool
is_own (login i g) = true
is_own (account_list f l) = true
is_own (client_login n k) = false
is_own (client_logout n t) = false
is_own logout = false
is_own (other i b) = false

abbrev pub passed : List Message → List Message
passed [] = []
passed (m ∷ rest) = if is_own m then passed rest else m ∷ passed rest

-- What was passed on, and what waits.
abbrev pub carried : AuthSession → List Message
carried s = passed s.sent ++ passed s.pending_messages

pub passed-append : (xs ys : List Message) → passed (xs ++ ys) ≡ passed xs ++ passed ys
passed-append [] ys = refl
passed-append (m ∷ xs) ys = ground (arith, passed-append xs ys)

-- A call of the session while its game server is there: a packet to pass on, the logout of a client, and
-- what the connection does. A login that is refused parts it from its game server.
pub data Call : Type 0 where
  pass : Message → Call
  tell_logout : Bytes → ℕ → Call
  established : Call
  accepted : Call
  lost : Bool → Call
  timer : Call

abbrev pub is_connecting : Stream → Bool
is_connecting connecting = true
is_connecting Stream.no_stream = false
is_connecting Stream.unconnected = false
is_connecting Stream.binding = false
is_connecting Stream.listening = false
is_connecting connected = false
is_connecting closing = false

-- A packet that a game server passes on, but for a logout, which ends the connection.
abbrev pub is_kept : Call → Bool
is_kept (pass m) = not (is_logout m)
is_kept (tell_logout name time) = true
is_kept established = true
is_kept accepted = true
is_kept (lost caused) = true
is_kept timer = true

abbrev pub all_kept : List Call → Bool
all_kept [] = true
all_kept (c ∷ rest) = is_kept c && all_kept rest

abbrev pub has_logout : List Message → Bool
has_logout [] = false
has_logout (m ∷ rest) = is_logout m || has_logout rest

-- The messages up to the first logout, and that.
abbrev pub up_to_logout : List Message → List Message
up_to_logout [] = []
up_to_logout (m ∷ rest) = m ∷ (if is_logout m then [] else up_to_logout rest)

unfoldable pub run_call : Call → AuthSession → AuthSession
run_call (pass m) s = send_packet m s
run_call (tell_logout name time) s = logout_client name time s
run_call established s = if is_connecting s.stream then on_connected s else s
run_call accepted s =
    if s.pending_login then send_account_list (record s { pending_login = false }) else s
run_call (lost caused) s = on_disconnected caused s
run_call timer s = on_timer_reconnect s

abbrev pub is_ready : AuthSession → Bool
is_ready s = is_connected s.stream && s.synchronized

-- What a call puts into the queue.
abbrev pub put_in : Call → AuthSession → List Message
put_in (pass m) s = passed (m ∷ [])
put_in (tell_logout name time) s =
    if is_connected s.stream && s.synchronized then client_logout name time ∷ [] else []
put_in established s = []
put_in accepted s = []
put_in (lost caused) s = []
put_in timer s = []

abbrev pub is_up : Stream → Bool
is_up Stream.no_stream = false
is_up Stream.unconnected = false
is_up connecting = false
is_up Stream.binding = false
is_up Stream.listening = false
is_up connected = true
is_up closing = true

-- Nothing waits while packets go straight to the network, a login or a list belongs to a connection, and
-- no logout waits.
pub record IsOrdered (s : AuthSession) : Type 0 where
  pub nothing_waits : is_connected s.stream ≡ true → s.synchronized ≡ true → s.pending_messages ≡ []
  pub asked_up : s.pending_login ≡ true → is_connected s.stream ≡ true
  pub synchronized_up : s.synchronized ≡ true → is_up s.stream ≡ true
  pub no_logout : has_logout s.pending_messages ≡ false
