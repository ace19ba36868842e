-- ===== src/Reconnect/Return.antt =====
-- What a session of rzgamereconnect does after its connection was lost: it connects again and tells all.
use rzu.Prelude.{
  ◌≡◌, refl, ◌∙◌, true, false, ◌||◌, List, [], ◌∷◌, ◌++◌, if◌then◌else◌, length, ltb, append_assoc,
  arith, Bool-cases, inl, inr,
}
use rzu.Prelude.Keyed.{number_key}
use rzu.Net.Streams.{connected, unconnected, closing}
use rzu.Reconnect.State.{AuthSession, Message, login}
use rzu.Reconnect.AuthSession.{
  is_logout, send_packet_to_network, send_login, send_packets, send_all_to_network,
  send_pending_messages, packets_of, send_account_list, on_connected, on_disconnected,
  on_timer_reconnect, has_game,
}
use rzu.Reconnect.Queue.Calls.{has_logout, up_to_logout}
use rzu.Reconnect.Queue.Sends.{sent-send_all, send_packets-account_packets}

-- In a connection that was made for `login`, and accepted.
abbrev accepted_session : AuthSession → AuthSession
accepted_session s = record s {
  stream = connected;
  synchronized = true;
  pending_login = false;
  timer = false;
  sent_login_packet = true;
  sent = s.sent ++ login s.info s.guid ∷ [];
}

stream-send_all_closing :
    (l : List Message) (s : AuthSession)
    → s.stream ≡ closing
    → (send_all_to_network l s).stream ≡ closing
unfolding send_all_to_network
stream-send_all_closing [] s c = c
stream-send_all_closing (m ∷ l) s c =
    stream-send_all_closing l (send_packet_to_network m s)
      (unfold send_packet_to_network in ground arith)

stream-send_packet_to_network :
    (m : Message) (s : AuthSession)
    → s.stream ≡ connected
    → (send_packet_to_network m s).stream ≡ (if is_logout m then closing else connected)
unfolding send_packet_to_network
stream-send_packet_to_network m s c = ground arith

stream-send_all :
    (l : List Message) (s : AuthSession)
    → s.stream ≡ connected
    → (send_all_to_network l s).stream ≡ (if has_logout l then closing else connected)
unfolding send_all_to_network
stream-send_all [] s c = c
stream-send_all (m ∷ l) s c = elim (Bool-cases (is_logout m)) [
  | inl b ↦
      rw
        (
          b,
          stream-send_all_closing l (send_packet_to_network m s)
              (stream-send_packet_to_network m s c ∙ rw b refl),
        )
        refl
  | inr b ↦
      rw
        (
          b,
          stream-send_all l (send_packet_to_network m s)
              (stream-send_packet_to_network m s c ∙ rw b refl),
        )
        refl
]

-- The session that comes back.
abbrev pub returned : AuthSession → AuthSession
returned s =
    send_account_list (record (on_connected (on_timer_reconnect (on_disconnected true s))) {
      pending_login = false;
    })

abbrev pub waiting : AuthSession → AuthSession
waiting s = record s {
  stream = unconnected;
  synchronized = false;
  pending_login = false;
  timer = true;
}

pub on_disconnected_lem :
    (s : AuthSession)
    → has_game s.game_server_session || ltb 0 (length s.pending_messages) ≡ true
    → on_disconnected true s ≡ waiting s
unfolding on_disconnected
on_disconnected_lem s e = ground arith

-- Both the login and the answer have come.
asked_lem :
    (s : AuthSession)
    → record (on_connected (on_timer_reconnect (waiting s))) {
      pending_login = false;
      synchronized = true;
    }
      ≡ accepted_session s
unfolding on_connected on_timer_reconnect send_login send_packet_to_network
asked_lem s = refl

accounts_kept :
    (s : AuthSession) → (on_connected (on_timer_reconnect (waiting s))).accounts ≡ s.accounts
unfolding on_connected on_timer_reconnect send_login send_packet_to_network
accounts_kept s = refl

returned_eq :
    (s : AuthSession)
    → has_game s.game_server_session || ltb 0 (length s.pending_messages) ≡ true
    → returned s ≡ send_pending_messages (send_packets (packets_of s.accounts) (accepted_session s))
unfolding send_account_list
returned_eq s e = rw (on_disconnected_lem s e, asked_lem s, accounts_kept s) refl

-- What a session has done once it is back.
pub record IsBack (s r : AuthSession) : Type 0 where
  pub all_sent :
      r.sent
      ≡ s.sent ++ (login s.info s.guid ∷ (packets_of s.accounts ++ up_to_logout s.pending_messages))
  pub none_waits : r.pending_messages ≡ []
  pub synchronized_again : r.synchronized ≡ true
  pub closes : r.stream ≡ (if has_logout s.pending_messages then closing else connected)

synchronized-send_all :
    (l : List Message) (s : AuthSession) → (send_all_to_network l s).synchronized ≡ s.synchronized
unfolding send_all_to_network
synchronized-send_all [] s = refl
synchronized-send_all (m ∷ l) s =
    synchronized-send_all l (send_packet_to_network m s)
    ∙ (unfold send_packet_to_network in ground arith)

-- What was to be passed on is sent after the list of accounts.
abbrev listed : AuthSession → AuthSession
listed s = record (accepted_session s) {
  sent = (s.sent ++ login s.info s.guid ∷ []) ++ packets_of s.accounts;
}

listed_eq : (s : AuthSession) → send_packets (packets_of s.accounts) (accepted_session s) ≡ listed s
unfolding packets_of
listed_eq s = send_packets-account_packets _ _ s.accounts (accepted_session s) refl refl

pending-IsBack : (s : AuthSession) → IsBack s (send_pending_messages (listed s))
unfolding send_pending_messages
pending-IsBack s = record {
  all_sent =
      sent-send_all s.pending_messages (listed s) refl
      ∙ (append_assoc (s.sent ++ login s.info s.guid ∷ []) (packets_of s.accounts)
            (up_to_logout s.pending_messages)
          ∙ append_assoc s.sent (login s.info s.guid ∷ [])
              (packets_of s.accounts ++ up_to_logout s.pending_messages));
  none_waits = refl;
  synchronized_again = synchronized-send_all s.pending_messages (listed s);
  closes = stream-send_all s.pending_messages (listed s) refl;
}

pub returned-IsBack :
    (s : AuthSession)
    → has_game s.game_server_session || ltb 0 (length s.pending_messages) ≡ true
    → IsBack s (returned s)
returned-IsBack s e = rw (returned_eq s e, listed_eq s) (pending-IsBack s)
