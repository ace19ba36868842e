-- ===== src/Reconnect/Queue/Sends.antt =====
-- What the sends of AuthSession.cpp (rzgamereconnect) add to what is passed on.
use rzu.Prelude.{
  ℕ, zero, suc, ◌≡◌, refl, sym, ◌∙◌, true, false, List, [], ◌∷◌, ◌++◌, drop, take, length, Bool, ap,
  append-nil, append_assoc, arith, Bool-cases, inl, inr,
}
use rzu.Auth.State.{AccountInfo}
use rzu.Net.Streams.{is_connected, connected}
use rzu.Reconnect.State.{AuthSession, Message, account_list}
use rzu.Reconnect.AuthSession.{
  send_packet_to_network, send_packet, send_packets, send_all_to_network, send_pending_messages,
  account_packets, packets_of, packet_count, send_account_list, is_nil, is_logout,
}
use rzu.Reconnect.Queue.Calls.{
  passed, carried, passed-append, is_ready, IsOrdered, has_logout, up_to_logout,
}

has_logout-append :
    (l : List Message) (m : Message)
    → has_logout l ≡ false
    → is_logout m ≡ false
    → has_logout (l ++ m ∷ []) ≡ false
has_logout-append [] m h j = ground arith
has_logout-append (k ∷ l) m h j = ground (arith, has_logout-append l m)

module _ (m : Message) (s : AuthSession) where
  sent-send_packet_to_network :
      is_connected s.stream ≡ true → (send_packet_to_network m s).sent ≡ s.sent ++ m ∷ []
  unfolding send_packet_to_network
  sent-send_packet_to_network c = ground arith

  sent-send_packet_dropped :
      is_connected s.stream ≡ false → (send_packet_to_network m s).sent ≡ s.sent
  unfolding send_packet_to_network
  sent-send_packet_dropped c = ground arith

  pending-send_packet_to_network :
      (send_packet_to_network m s).pending_messages ≡ s.pending_messages
  unfolding send_packet_to_network
  pending-send_packet_to_network = ground arith

  send_packet_ready : is_ready s ≡ true → send_packet m s ≡ send_packet_to_network m s
  unfolding send_packet
  send_packet_ready r = ground arith

  send_packet_waits :
      is_ready s ≡ false
      → send_packet m s ≡ record s { pending_messages = s.pending_messages ++ m ∷ [] }
  unfolding send_packet
  send_packet_waits r = ground arith

  send_packet-IsOrdered_waits :
      is_logout m ≡ false → is_ready s ≡ false → IsOrdered s → IsOrdered (send_packet m s)
  send_packet-IsOrdered_waits l r h = rw (send_packet_waits r) (record {
    nothing_waits = λ c y. absurd (ground (arith, r, c, y));
    asked_up = h.asked_up;
    synchronized_up = h.synchronized_up;
    no_logout = has_logout-append s.pending_messages m h.no_logout l;
  })

  send_packet-IsOrdered_ready :
      is_logout m ≡ false → is_ready s ≡ true → IsOrdered s → IsOrdered (send_packet m s)
  unfolding send_packet send_packet_to_network
  send_packet-IsOrdered_ready l r h = ground arith

  pub send_packet-IsOrdered : is_logout m ≡ false → IsOrdered s → IsOrdered (send_packet m s)
  send_packet-IsOrdered l h = elim (Bool-cases (is_ready s)) [
    | inl r ↦ send_packet-IsOrdered_ready l r h
    | inr r ↦ send_packet-IsOrdered_waits l r h
  ]

carried_at_end :
    (xs ys l : List Message)
    → ys ≡ []
    → passed (xs ++ l) ++ passed ys ≡ (passed xs ++ passed ys) ++ passed l
carried_at_end xs ys l e =
    rw (e, passed-append xs l, append-nil (passed xs), append-nil (passed xs ++ passed l)) refl

carried_waiting :
    (xs ys l : List Message) → passed xs ++ passed (ys ++ l) ≡ (passed xs ++ passed ys) ++ passed l
carried_waiting xs ys l =
    rw (passed-append ys l, append_assoc (passed xs) (passed ys) (passed l)) refl

-- A message of the session's own goes unseen.
pub carried_own :
    (xs ys l : List Message)
    → passed l ≡ []
    → passed (xs ++ l) ++ passed ys ≡ passed xs ++ passed ys
carried_own xs ys l e = rw (passed-append xs l, e, append-nil (passed xs)) refl

carried-send_packet_to_network :
    (m : Message) (s : AuthSession)
    → is_connected s.stream ≡ true
    → carried (send_packet_to_network m s) ≡ passed (s.sent ++ m ∷ []) ++ passed s.pending_messages
carried-send_packet_to_network m s c =
    rw (sent-send_packet_to_network m s c, pending-send_packet_to_network m s) refl

pub carried-send_packet :
    (m : Message) (s : AuthSession)
    → IsOrdered s
    → carried (send_packet m s) ≡ carried s ++ passed (m ∷ [])
carried-send_packet m s h = elim (Bool-cases (is_ready s)) [
  | inl r ↦ rw (send_packet_ready m s r) (
      carried-send_packet_to_network m s (ground arith)
      ∙ carried_at_end s.sent s.pending_messages (m ∷ [])
          (h.nothing_waits (ground arith) (ground arith)))
  | inr r ↦ rw (send_packet_waits m s r) (carried_waiting s.sent s.pending_messages (m ∷ []))
]

-- A stream that is not connected takes nothing.
dropped-send_all :
    (l : List Message) (s : AuthSession)
    → is_connected s.stream ≡ false
    → (send_all_to_network l s).sent ≡ s.sent
unfolding send_all_to_network
dropped-send_all [] s c = refl
dropped-send_all (m ∷ l) s c =
    dropped-send_all l (send_packet_to_network m s) (unfold send_packet_to_network in ground arith)
    ∙ sent-send_packet_dropped m s c

-- What waits is sent up to a logout, after which the stream takes nothing.
pub sent-send_all :
    (l : List Message) (s : AuthSession)
    → s.stream ≡ connected
    → (send_all_to_network l s).sent ≡ s.sent ++ up_to_logout l
unfolding send_all_to_network
sent-send_all [] s c = sym (append-nil s.sent)
sent-send_all (m ∷ l) s c =
    let first = sent-send_packet_to_network m s (rw c refl) in
    elim (Bool-cases (is_logout m)) [
      | inl b ↦ rw (b) (
          dropped-send_all l (send_packet_to_network m s)
            (unfold send_packet_to_network in ground arith)
          ∙ first)
      | inr b ↦ rw (b) (
          sent-send_all l (send_packet_to_network m s)
            (unfold send_packet_to_network in ground arith)
          ∙ (ap (λ k. k ++ up_to_logout l) first ∙ append_assoc s.sent (m ∷ []) (up_to_logout l)))
    ]

up_to_logout_all : (l : List Message) → has_logout l ≡ false → up_to_logout l ≡ l
up_to_logout_all [] h = refl
up_to_logout_all (m ∷ l) h = ground (arith, up_to_logout_all l)

-- A list of accounts goes straight to the network.
send_packet-account_list :
    (final : Bool) (l : List AccountInfo) (s : AuthSession)
    → s.stream ≡ connected
    → s.synchronized ≡ true
    → send_packet (account_list final l) s ≡ record s { sent = s.sent ++ account_list final l ∷ [] }
unfolding send_packet send_packet_to_network
send_packet-account_list final l s c y = ground arith

pub send_packets-account_packets :
    (fuel n : ℕ) (accounts : List AccountInfo) (s : AuthSession)
    → s.stream ≡ connected
    → s.synchronized ≡ true
    → send_packets (account_packets fuel n accounts) s
      ≡ record s { sent = s.sent ++ account_packets fuel n accounts }
unfolding send_packets account_packets
send_packets-account_packets zero n accounts s c y = rw (append-nil s.sent) refl
send_packets-account_packets (suc fuel) n accounts s c y =
    elim (Bool-cases (is_nil (drop n accounts))) [
      | inl last ↦ rw last (send_packet-account_list true (take n accounts) s c y)
      | inr more ↦
          let m = account_list false (take n accounts) in
          let rest = account_packets fuel n (drop n accounts) in
          rw more (
            ap (send_packets rest) (send_packet-account_list false (take n accounts) s c y)
            ∙ (send_packets-account_packets fuel n (drop n accounts)
                  (record s { sent = s.sent ++ m ∷ [] }) c y
                ∙ ap {A = List Message} {B = AuthSession} (λ l. record s { sent = l })
                    (append_assoc s.sent (m ∷ []) rest)))
    ]

passed-account_packets :
    (fuel n : ℕ) (accounts : List AccountInfo) → passed (account_packets fuel n accounts) ≡ []
unfolding account_packets
passed-account_packets zero n accounts = refl
passed-account_packets (suc fuel) n accounts =
    ground (arith, passed-account_packets fuel n (drop n accounts))

carried-send_pending_messages :
    (s : AuthSession)
    → s.stream ≡ connected
    → has_logout s.pending_messages ≡ false
    → carried (send_pending_messages s) ≡ carried s
unfolding send_pending_messages
carried-send_pending_messages s c h =
    rw
      (
        sent-send_all s.pending_messages s c,
        up_to_logout_all s.pending_messages h,
        append-nil (passed (s.sent ++ s.pending_messages)),
      )
      (passed-append s.sent s.pending_messages)

pub carried-send_account_list :
    (s : AuthSession)
    → s.stream ≡ connected
    → has_logout s.pending_messages ≡ false
    → carried (send_account_list s) ≡ carried s
unfolding send_account_list packets_of
carried-send_account_list s c h =
    let n = packet_count s.accounts in
    let fuel = suc (length s.accounts) in
    rw (send_packets-account_packets fuel n s.accounts (record s { synchronized = true }) c refl) (
      carried-send_pending_messages
        (record s { synchronized = true; sent = s.sent ++ account_packets fuel n s.accounts }) c h
      ∙ carried_own s.sent s.pending_messages (account_packets fuel n s.accounts)
          (passed-account_packets fuel n s.accounts))
