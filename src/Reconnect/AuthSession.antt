-- ===== src/Reconnect/AuthSession.antt =====
-- rzgamereconnect/src/AuthServer/AuthSession.cpp: the functions that touch this session alone.
use rzu.Prelude.{
  ℕ, zero, suc, ◌-◌, ◌/◌, Bool, true, false, not, ◌&&◌, ◌||◌, Option, none, some, List, [], ◌∷◌,
  ◌++◌, Bytes, length, take, drop, leb, ltb, if◌then◌else◌,
}
use mathlib.Core.Bool.{decide}
use rzu.Prelude.Keyed.{bytes_discrete}
use rzu.Auth.State.{AccountInfo}
use rzu.Net.Streams.{is_connected, connect, close, connected, unconnected}
use rzu.Reconnect.State.{
  AuthSession, Message, login, account_list, client_login, client_logout, logout, other,
}

abbrev pub is_login : Message → Bool
is_login (login i g) = true
is_login (account_list f l) = false
is_login (client_login n k) = false
is_login (client_logout n t) = false
is_login logout = false
is_login (other i b) = false

abbrev pub is_logout : Message → Bool
is_logout (login i g) = false
is_logout (account_list f l) = false
is_logout (client_login n k) = false
is_logout (client_logout n t) = false
is_logout logout = true
is_logout (other i b) = false

-- `closeSession`.
abbrev pub close_session : AuthSession → AuthSession
close_session s = record s { stream = close s.stream }

-- `PacketSession::sendPacket`: a stream that is not connected drops what is written to it.
abbrev pub write : Message → AuthSession → AuthSession
write m s = if is_connected s.stream then record s { sent = s.sent ++ m ∷ [] } else s

unfoldable pub send_packet_to_network : Message → AuthSession → AuthSession
send_packet_to_network m s =
    let written = write m s in
    if is_login m
    then record written { sent_login_packet = true }
    else if is_logout m
    then close_session written
    else written

unfoldable pub send_packet : Message → AuthSession → AuthSession
unfolding send_packet_to_network
send_packet m s =
    if is_connected s.stream && s.synchronized
    then send_packet_to_network m s
    else record s { pending_messages = s.pending_messages ++ m ∷ [] }

unfoldable pub send_login : AuthSession → AuthSession
unfolding send_packet_to_network
send_login s =
    if s.pending_login
    then s
    else send_packet_to_network (login s.info s.guid) (record s { pending_login = true })

-- sizeof(TS_GA_ACCOUNT_LIST) is 9, and that of an AccountInfo 124.
abbrev pub max_count_per_packet : ℕ
max_count_per_packet = (16000 - 9) / 124

abbrev pub packet_count : List AccountInfo → ℕ
packet_count accounts =
    if leb (length accounts) max_count_per_packet then length accounts else max_count_per_packet

abbrev pub is_nil : List AccountInfo → Bool
is_nil [] = true
is_nil (a ∷ rest) = false

-- The packets of `sendAccountList`, from the accounts that are left; one round of the loop for each.
unfoldable pub account_packets : ℕ → ℕ → List AccountInfo → List Message
account_packets zero max_count accounts = []
account_packets (suc fuel) max_count accounts =
    let rest = account_packets fuel max_count (drop max_count accounts) in
    account_list (is_nil (drop max_count accounts)) (take max_count accounts)
    ∷ (if is_nil (drop max_count accounts) then [] else rest)

unfoldable pub send_packets : List Message → AuthSession → AuthSession
unfolding send_packet
send_packets [] s = s
send_packets (m ∷ rest) s = send_packets rest (send_packet m s)

unfoldable pub send_all_to_network : List Message → AuthSession → AuthSession
unfolding send_packet_to_network
send_all_to_network [] s = s
send_all_to_network (m ∷ rest) s = send_all_to_network rest (send_packet_to_network m s)

unfoldable pub send_pending_messages : AuthSession → AuthSession
unfolding send_all_to_network
send_pending_messages s = record (send_all_to_network s.pending_messages s) {
  pending_messages = [];
}

-- One round more than there are accounts is enough.
unfoldable pub packets_of : List AccountInfo → List Message
packets_of accounts = account_packets (suc (length accounts)) (packet_count accounts) accounts

unfoldable pub send_account_list : AuthSession → AuthSession
send_account_list s =
    send_pending_messages (send_packets (packets_of s.accounts) (record s { synchronized = true }))

abbrev pub same_account : Bytes → AccountInfo → Bool
same_account name a = decide (bytes_discrete a.account name)

abbrev pub has_account : Bytes → List AccountInfo → Bool
has_account name [] = false
has_account name (a ∷ rest) = same_account name a || has_account name rest

-- Without the last account of this name.
unfoldable pub erase_last : Bytes → List AccountInfo → List AccountInfo
erase_last name [] = []
erase_last name (a ∷ rest) =
    let kept = a ∷ erase_last name rest in
    if same_account name a && not (has_account name rest) then rest else kept

unfoldable pub logout_client : Bytes → ℕ → AuthSession → AuthSession
unfolding erase_last send_packet
logout_client name play_time s =
    let without = record s { accounts = erase_last name s.accounts } in
    if is_connected without.stream && without.synchronized
    then send_packet (client_logout name play_time) without
    else without

-- The game server is gone; without a login there is nothing to tell, and the session goes.
unfoldable pub disconnect : AuthSession → AuthSession
unfolding send_packet
disconnect s =
    let alone = record s { game_server_session = none; pending_messages = [] } in
    if not alone.sent_login_packet
    then (let ended = close_session (record alone { timer = false }) in
        if not (is_connected ended.stream) then record ended { delete_later = true } else ended)
    else send_packet logout alone

unfoldable pub force_close : AuthSession → AuthSession
unfolding send_packet
force_close s =
    let alone = record s { game_server_session = none; pending_messages = []; timer = false } in
    if is_connected alone.stream
    then send_packet logout alone
    else record (close_session alone) { delete_later = true }

unfoldable pub on_connected : AuthSession → AuthSession
unfolding send_login
on_connected s = send_login (record s { stream = connected })

abbrev pub has_game : Option ℕ → Bool
has_game none = false
has_game (some g) = true

-- The connection has ended; the flag says whether the other end did it.
unfoldable pub on_disconnected : Bool → AuthSession → AuthSession
on_disconnected caused_by_remote s =
    let ended = record s { stream = unconnected; synchronized = false; pending_login = false } in
    if caused_by_remote
      && (has_game ended.game_server_session || ltb 0 (length ended.pending_messages))
    then record ended { timer = true }
    else if not (has_game ended.game_server_session)
    then record ended { delete_later = true }
    else ended

-- The timer runs once.
unfoldable pub on_timer_reconnect : AuthSession → AuthSession
on_timer_reconnect s = if s.timer then record s { timer = false; stream = connect s.stream } else s
