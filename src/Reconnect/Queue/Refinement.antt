-- ===== src/Reconnect/Queue/Refinement.antt =====
-- AuthSession.cpp of rzgamereconnect is a queue, whatever its connection does.
use rzu.Prelude.{
  ℕ, ◌≡◌, refl, sym, ◌∙◌, ap, Bool, true, false, List, [], ◌∷◌, ◌++◌, Bytes, if◌then◌else◌,
  append-nil, arith, Bool-cases, inl, inr,
}
use mathlib.Core.Path.{subst}
use rzu.Net.Streams.{is_connected, connected}
use rzu.Reconnect.State.{AuthSession, Message, login, client_logout}
use rzu.Reconnect.AuthSession.{
  send_packet_to_network, send_packet, send_login, send_packets, send_all_to_network,
  send_pending_messages, packets_of, erase_last, send_account_list, logout_client, on_connected,
  on_disconnected, on_timer_reconnect,
}
use rzu.Reconnect.Queue.Calls.{
  passed, carried, is_ready, IsOrdered, is_up, is_connecting, Call, pass, tell_logout, established,
  accepted, lost, timer, run_call, put_in, is_kept,
}
use rzu.Reconnect.Queue.Sends.{
  carried_own, carried-send_packet, carried-send_account_list, send_packet-IsOrdered,
}

-- What the sends leave as it was.
record KeepsUp (s r : AuthSession) : Type 0 where
  up_kept : is_up s.stream ≡ true → is_up r.stream ≡ true
  synchronized_kept : r.synchronized ≡ s.synchronized
  asked_kept : r.pending_login ≡ s.pending_login

KeepsUp-trans : {r s t : AuthSession} → KeepsUp r s → KeepsUp s t → KeepsUp r t
KeepsUp-trans h k = ground arith

send_packet_to_network-KeepsUp :
    (m : Message) (s : AuthSession) → KeepsUp s (send_packet_to_network m s)
unfolding send_packet_to_network
send_packet_to_network-KeepsUp m s = ground arith

send_packet-KeepsUp : (m : Message) (s : AuthSession) → KeepsUp s (send_packet m s)
unfolding send_packet
send_packet-KeepsUp m s = ground arith

send_packets-KeepsUp : (l : List Message) (s : AuthSession) → KeepsUp s (send_packets l s)
unfolding send_packets
send_packets-KeepsUp [] s = record { up_kept = λ u. u; synchronized_kept = refl; asked_kept = refl }
send_packets-KeepsUp (m ∷ l) s =
    KeepsUp-trans (send_packet-KeepsUp m s) (send_packets-KeepsUp l (send_packet m s))

send_all_to_network-KeepsUp :
    (l : List Message) (s : AuthSession) → KeepsUp s (send_all_to_network l s)
unfolding send_all_to_network
send_all_to_network-KeepsUp [] s = record {
  up_kept = λ u. u;
  synchronized_kept = refl;
  asked_kept = refl;
}
send_all_to_network-KeepsUp (m ∷ l) s =
    KeepsUp-trans (send_packet_to_network-KeepsUp m s)
      (send_all_to_network-KeepsUp l (send_packet_to_network m s))

send_pending-IsOrdered :
    (s : AuthSession)
    → is_up s.stream ≡ true
    → s.pending_login ≡ false
    → IsOrdered (send_pending_messages s)
unfolding send_pending_messages
send_pending-IsOrdered s u a =
    let keeps = send_all_to_network-KeepsUp s.pending_messages s in
    record {
      nothing_waits = λ c y. refl;
      asked_up = λ b. absurd (ground (arith, keeps.asked_kept, a, b));
      synchronized_up = λ y. keeps.up_kept u;
      no_logout = refl;
    }

send_account_list-IsOrdered :
    (s : AuthSession)
    → is_up s.stream ≡ true
    → s.pending_login ≡ false
    → IsOrdered (send_account_list s)
unfolding send_account_list
send_account_list-IsOrdered s u a =
    let keeps = send_packets-KeepsUp (packets_of s.accounts) (record s { synchronized = true }) in
    send_pending-IsOrdered _ (keeps.up_kept u) (keeps.asked_kept ∙ a)

abbrev without_last : Bytes → AuthSession → AuthSession
without_last name s = record s { accounts = erase_last name s.accounts }

module _ (name : Bytes) (time : ℕ) (s : AuthSession) where
  logout_client_ready :
      is_ready s ≡ true
      → logout_client name time s ≡ send_packet (client_logout name time) (without_last name s)
  unfolding logout_client
  logout_client_ready r = ground arith

  logout_client_waits : is_ready s ≡ false → logout_client name time s ≡ without_last name s
  unfolding logout_client
  logout_client_waits r = ground arith

without_last-IsOrdered :
    (name : Bytes) (s : AuthSession) → IsOrdered s → IsOrdered (without_last name s)
without_last-IsOrdered name s h = record {
  nothing_waits = λ c y. h.nothing_waits c y;
  asked_up = λ a. h.asked_up a;
  synchronized_up = λ y. h.synchronized_up y;
  no_logout = h.no_logout;
}

on_connected-IsOrdered :
    (s : AuthSession) → IsOrdered s → is_connecting s.stream ≡ true → IsOrdered (on_connected s)
unfolding on_connected send_login send_packet_to_network
on_connected-IsOrdered s h e = ground arith

connected_asks :
    (s : AuthSession)
    → s.pending_login ≡ false
    → carried (on_connected s)
      ≡ passed (s.sent ++ login s.info s.guid ∷ []) ++ passed s.pending_messages
unfolding on_connected send_login send_packet_to_network
connected_asks s b = ground arith

on_disconnected-IsOrdered :
    (caused : Bool) (s : AuthSession) → IsOrdered s → IsOrdered (on_disconnected caused s)
unfolding on_disconnected
on_disconnected-IsOrdered caused s h = ground arith

on_timer-IsOrdered : (s : AuthSession) → IsOrdered s → IsOrdered (on_timer_reconnect s)
unfolding on_timer_reconnect
on_timer-IsOrdered s h = ground arith

carried-on_disconnected :
    (caused : Bool) (s : AuthSession) → carried (on_disconnected caused s) ≡ carried s
unfolding on_disconnected
carried-on_disconnected caused s = ground arith

carried-on_timer : (s : AuthSession) → carried (on_timer_reconnect s) ≡ carried s
unfolding on_timer_reconnect
carried-on_timer s = ground arith

if_true : {b : Bool} (x y : AuthSession) → b ≡ true → (if b then x else y) ≡ x
if_true x y e = rw e refl

if_false : {b : Bool} (x y : AuthSession) → b ≡ false → (if b then x else y) ≡ y
if_false x y e = rw e refl

logout_carried :
    (name : Bytes) (time : ℕ) (s : AuthSession)
    → is_ready s ≡ true
    → carried (send_packet (client_logout name time) (without_last name s))
      ≡ carried s ++ client_logout name time ∷ []
    → carried (logout_client name time s) ≡ carried s ++ put_in (tell_logout name time) s
logout_carried name time s r e = ground (arith, logout_client_ready name time s r)

carried-on_connected : (s : AuthSession) → carried (on_connected s) ≡ carried s
unfolding on_connected send_login send_packet_to_network
carried-on_connected s = elim (Bool-cases s.pending_login) [
  | inl b ↦ ground arith
  | inr b ↦
      connected_asks s b ∙ carried_own s.sent s.pending_messages (login s.info s.guid ∷ []) refl
]

up_of_connected : (s : AuthSession) → is_connected s.stream ≡ true → is_up s.stream ≡ true
up_of_connected s c = ground arith

connected_of : (s : AuthSession) → is_connected s.stream ≡ true → s.stream ≡ connected
connected_of s c = ground arith

module _ (s : AuthSession) (h : IsOrdered s) where
  pub run_call-IsOrdered : (c : Call) → is_kept c ≡ true → IsOrdered (run_call c s)
  unfolding run_call
  run_call-IsOrdered (pass m) k = send_packet-IsOrdered m s (ground arith) h
  run_call-IsOrdered (tell_logout name time) k = elim (Bool-cases (is_ready s)) [
    | inl r ↦
        rw (logout_client_ready name time s r)
          (send_packet-IsOrdered (client_logout name time) _ refl (without_last-IsOrdered name s h))
    | inr r ↦ rw (logout_client_waits name time s r) (without_last-IsOrdered name s h)
  ]
  run_call-IsOrdered established k = elim (Bool-cases (is_connecting s.stream)) [
    | inl e ↦ subst IsOrdered (sym (if_true _ _ e)) (on_connected-IsOrdered s h e)
    | inr e ↦ subst IsOrdered (sym (if_false _ _ e)) h
  ]
  run_call-IsOrdered accepted k = elim (Bool-cases s.pending_login) [
    | inl e ↦
        subst IsOrdered (sym (if_true _ _ e))
          (send_account_list-IsOrdered _ (up_of_connected s (h.asked_up e)) refl)
    | inr e ↦ subst IsOrdered (sym (if_false _ _ e)) h
  ]
  run_call-IsOrdered (lost caused) k = on_disconnected-IsOrdered caused s h
  run_call-IsOrdered timer k = on_timer-IsOrdered s h

  pub carried-run_call :
      (c : Call) → is_kept c ≡ true → carried (run_call c s) ≡ carried s ++ put_in c s
  unfolding run_call
  carried-run_call (pass m) k = carried-send_packet m s h
  carried-run_call (tell_logout name time) k = elim (Bool-cases (is_ready s)) [
    | inl r ↦
        logout_carried name time s r
          (carried-send_packet (client_logout name time) _ (without_last-IsOrdered name s h))
    | inr r ↦ ground (arith, logout_client_waits name time s r, append-nil (carried s))
  ]
  carried-run_call established k = elim (Bool-cases (is_connecting s.stream)) [
    | inl e ↦ ap carried (if_true _ _ e) ∙ (carried-on_connected s ∙ sym (append-nil (carried s)))
    | inr e ↦ ap carried (if_false _ _ e) ∙ sym (append-nil (carried s))
  ]
  carried-run_call accepted k = elim (Bool-cases s.pending_login) [
    | inl e ↦
        ap carried (if_true _ _ e)
        ∙ (carried-send_account_list _ (connected_of s (h.asked_up e)) h.no_logout
            ∙ sym (append-nil (carried s)))
    | inr e ↦ ap carried (if_false _ _ e) ∙ sym (append-nil (carried s))
  ]
  carried-run_call (lost caused) k = carried-on_disconnected caused s ∙ sym (append-nil (carried s))
  carried-run_call timer k = carried-on_timer s ∙ sym (append-nil (carried s))

abbrev pub run_calls : List Call → AuthSession → AuthSession
run_calls [] s = s
run_calls (c ∷ rest) s = run_calls rest (run_call c s)

-- All that the calls put into the queue.
abbrev pub put_all : List Call → AuthSession → List Message
put_all [] s = []
put_all (c ∷ rest) s = put_in c s ++ put_all rest (run_call c s)
