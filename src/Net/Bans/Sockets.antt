-- ===== src/Net/Bans/Sockets.antt =====
-- librzu/src/lib/NetSession/SessionServer.cpp: the sessions of a server, which its ban manager admits.
use rzu.Prelude.{
  ℕ, zero, suc, ◌+◌, ◌≤◌, ◌<◌, ◌≡◌, refl, true, false, none, some, List, [], ◌∷◌, get_elem?, arith,
  ◌∙◌, Bool, ◌⊎◌, inl, inr, Bool-cases, Option-cases, ite, if◌then◌else◌,
}
use rzu.Prelude.Keyed.{Map, bit, lookup, lookup-put}
use rzu.Net.Bans.Manager.{
  StreamAddress, address_key, without_port, BanManager, ip_data, count_connection, count_client,
  check_host, check_accept_new_client, close_host, closed_client, ban_ip, on_timer_expire,
}
use rzu.Net.Bans.Limits.{
  new_ban_manager, IsLimited, check_host-IsLimited, close_host-IsLimited, on_timer_expire-IsLimited,
  less_client, reset_data, lookup-reset,
}

-- The remote addresses of the open sessions, and of all that were admitted since the day began.
pub record SessionServer : Type 0 where
  pub ban_manager : BanManager
  pub sockets : List StreamAddress
  pub admitted_today : List StreamAddress

unfoldable pub on_new_connection : StreamAddress → SessionServer → SessionServer
unfolding check_accept_new_client
on_new_connection ip s =
    let checked = check_accept_new_client ip s.ban_manager in
    if checked.1
    then record {
      ban_manager = checked.0;
      sockets = ip ∷ s.sockets;
      admitted_today = ip ∷ s.admitted_today;
    }
    else record s { ban_manager = checked.0 }

abbrev pub remove_at : ℕ → List StreamAddress → List StreamAddress
remove_at i [] = []
remove_at zero (a ∷ rest) = rest
remove_at (suc i) (a ∷ rest) = a ∷ remove_at i rest

-- The session that is at this place among the open ones.
unfoldable pub socket_closed : ℕ → SessionServer → SessionServer
unfolding closed_client
socket_closed i s = elim (get_elem? s.sockets i) [
  | none ↦ s
  | some ip ↦ record s {
    ban_manager = closed_client ip s.ban_manager;
    sockets = remove_at i s.sockets;
  }
]

-- A connection, the end of the session at a place, a ban, and the end of a day.
pub data Event : Type 0 where
  connects : StreamAddress → Event
  closes : ℕ → Event
  bans : StreamAddress → Event
  day_ends : Event

unfoldable pub serve : Event → SessionServer → SessionServer
unfolding on_new_connection socket_closed ban_ip on_timer_expire
serve (connects ip) s = on_new_connection ip s
serve (closes i) s = socket_closed i s
serve (bans ip) s = record s { ban_manager = ban_ip ip s.ban_manager }
serve day_ends s = record s { ban_manager = on_timer_expire s.ban_manager; admitted_today = [] }

abbrev pub serve_all : List Event → SessionServer → SessionServer
serve_all [] s = s
serve_all (e ∷ rest) s = serve_all rest (serve e s)

-- A server that has just started, with these limits and the bans of its file.
abbrev pub new_server : ℕ → ℕ → Map StreamAddress Unit → SessionServer
new_server per_day at_once banned = record {
  ban_manager = record (new_ban_manager per_day at_once) { banned_ips = banned };
  sockets = [];
  admitted_today = [];
}

-- How many of these come from an address, which has no port.
abbrev pub from_host : StreamAddress → List StreamAddress → ℕ
from_host ip [] = 0
from_host ip (a ∷ rest) = ite (address_key.same (without_port a) ip) 1 0 + from_host ip rest

record IsTracked (per_day at_once : ℕ) (s : SessionServer) : Type 0 where
  limited : IsLimited s.ban_manager
  day_limit : s.ban_manager.max_connection_per_day_per_ip ≡ per_day
  client_limit : s.ban_manager.max_client_per_ip ≡ at_once
  clients :
      (ip : StreamAddress)
      → 0 < at_once
      → from_host ip s.sockets ≤ (ip_data ip s.ban_manager).connected_clients
  connections :
      (ip : StreamAddress)
      → 0 < per_day
      → from_host ip s.admitted_today ≤ (ip_data ip s.ban_manager).connection_this_day

module _ (ip j : StreamAddress) (m : BanManager) where
  -- A client that is admitted is counted.
  check_host_clients :
      0 < m.max_client_per_ip
      → ite (address_key.same ip j) (bit (check_host ip m).1) 0 + (ip_data j m).connected_clients
        ≤ (ip_data j (check_host ip m).0).connected_clients
  unfolding check_host
  check_host_clients l = ground (
    arith,
    lookup-put ip j (ip_data ip m) m.ip_datas,
    lookup-put ip j (count_connection (ip_data ip m)) m.ip_datas,
    lookup-put ip j (count_client (count_connection (ip_data ip m))) m.ip_datas,
  )

  check_host_connections :
      0 < m.max_connection_per_day_per_ip
      → ite (address_key.same ip j) (bit (check_host ip m).1) 0 + (ip_data j m).connection_this_day
        ≤ (ip_data j (check_host ip m).0).connection_this_day
  unfolding check_host
  check_host_connections l = ground (
    arith,
    lookup-put ip j (ip_data ip m) m.ip_datas,
    lookup-put ip j (count_connection (ip_data ip m)) m.ip_datas,
    lookup-put ip j (count_client (count_connection (ip_data ip m))) m.ip_datas,
  )

  close_host_clients :
      (ip_data j m).connected_clients
      ≤ ite (address_key.same ip j) 1 0 + (ip_data j (close_host ip m)).connected_clients
  unfolding close_host
  close_host_clients = ground (arith, lookup-put ip j (less_client (ip_data ip m)) m.ip_datas)

  close_host_connections :
      (ip_data j (close_host ip m)).connection_this_day ≡ (ip_data j m).connection_this_day
  unfolding close_host
  close_host_connections = ground (arith, lookup-put ip j (less_client (ip_data ip m)) m.ip_datas)

record SameLimits (m k : BanManager) : Type 0 where
  day : k.max_connection_per_day_per_ip ≡ m.max_connection_per_day_per_ip
  client : k.max_client_per_ip ≡ m.max_client_per_ip

check_host-SameLimits : (ip : StreamAddress) (m : BanManager) → SameLimits m (check_host ip m).0
unfolding check_host
check_host-SameLimits ip m = ground arith

close_host-SameLimits : (ip : StreamAddress) (m : BanManager) → SameLimits m (close_host ip m)
unfolding close_host
close_host-SameLimits ip m = ground arith

from_host-remove_at :
    (ip a : StreamAddress) (i : ℕ) (l : List StreamAddress)
    → get_elem? l i ≡ some a
    → from_host ip l ≡ ite (address_key.same (without_port a) ip) 1 0 + from_host ip (remove_at i l)
from_host-remove_at ip a i [] e = ground arith
from_host-remove_at ip a zero (b ∷ l) e = ground arith
from_host-remove_at ip a (suc i) (b ∷ l) e = ground (arith, from_host-remove_at ip a i l)

module _ (per_day at_once : ℕ) (s : SessionServer) (h : IsTracked per_day at_once s) where
  module _ (a : StreamAddress) where
    abbrev checked : BanManager × Bool
    checked = check_host (without_port a) s.ban_manager

    limits : SameLimits s.ban_manager checked.0
    limits = check_host-SameLimits (without_port a) s.ban_manager

    admitted-IsTracked :
        checked.1 ≡ true
        → IsTracked per_day at_once (record {
          ban_manager = checked.0;
          sockets = a ∷ s.sockets;
          admitted_today = a ∷ s.admitted_today;
        })
    admitted-IsTracked go_in = record {
      limited = check_host-IsLimited (without_port a) s.ban_manager h.limited;
      day_limit = limits.day ∙ h.day_limit;
      client_limit = limits.client ∙ h.client_limit;
      clients = λ ip l. ground (
        arith,
        go_in,
        h.client_limit,
        h.clients ip l,
        check_host_clients (without_port a) ip s.ban_manager,
      );
      connections = λ ip l. ground (
        arith,
        go_in,
        h.day_limit,
        h.connections ip l,
        check_host_connections (without_port a) ip s.ban_manager,
      );
    }

    refused-IsTracked :
        checked.1 ≡ false → IsTracked per_day at_once (record s { ban_manager = checked.0 })
    refused-IsTracked not_in = record {
      limited = check_host-IsLimited (without_port a) s.ban_manager h.limited;
      day_limit = limits.day ∙ h.day_limit;
      client_limit = limits.client ∙ h.client_limit;
      clients = λ ip l. ground (
        arith,
        not_in,
        h.client_limit,
        h.clients ip l,
        check_host_clients (without_port a) ip s.ban_manager,
      );
      connections = λ ip l. ground (
        arith,
        not_in,
        h.day_limit,
        h.connections ip l,
        check_host_connections (without_port a) ip s.ban_manager,
      );
    }

    connects-IsTracked : IsTracked per_day at_once (on_new_connection a s)
    unfolding on_new_connection
    connects-IsTracked = elim (Bool-cases checked.1) [
      | inl go_in ↦ rw (go_in, on_new_connection) (admitted-IsTracked go_in)
      | inr not_in ↦ rw (not_in, on_new_connection) (refused-IsTracked not_in)
    ]

  closes-IsTracked : (i : ℕ) → IsTracked per_day at_once (socket_closed i s)
  unfolding socket_closed
  closes-IsTracked i = elim (Option-cases (get_elem? s.sockets i)) [
    | inl e ↦ rw (e, socket_closed) h
    | inr (a, e) ↦
        let m = s.ban_manager in
        let kept = close_host-SameLimits (without_port a) m in
        rw (e, socket_closed)
          (record {
            limited = close_host-IsLimited (without_port a) m h.limited;
            day_limit = kept.day ∙ h.day_limit;
            client_limit = kept.client ∙ h.client_limit;
            clients = λ ip l. omega (
              arith,
              h.clients ip l,
              close_host_clients (without_port a) ip m,
              from_host-remove_at ip a i s.sockets e,
            );
            connections =
                λ ip l. rw (close_host_connections (without_port a) ip m) (h.connections ip l);
          })
  ]

  day_ends-IsTracked :
      IsTracked per_day at_once
        (record s { ban_manager = on_timer_expire s.ban_manager; admitted_today = [] })
  unfolding on_timer_expire reset_data
  day_ends-IsTracked = record {
    limited = on_timer_expire-IsLimited s.ban_manager h.limited;
    day_limit = h.day_limit;
    client_limit = h.client_limit;
    clients = λ ip l. rw (lookup-reset ip s.ban_manager.ip_datas) (h.clients ip l);
    connections = λ ip l. omega arith;
  }

  serve-IsTracked : (e : Event) → IsTracked per_day at_once (serve e s)
  unfolding serve ban_ip
  serve-IsTracked (connects ip) = connects-IsTracked ip
  serve-IsTracked (closes i) = closes-IsTracked i
  serve-IsTracked (bans ip) = record {
    limited = record { clients = h.limited.clients; connections = h.limited.connections };
    day_limit = h.day_limit;
    client_limit = h.client_limit;
    clients = h.clients;
    connections = h.connections;
  }
  serve-IsTracked day_ends = day_ends-IsTracked

serve_all-IsTracked :
    (per_day at_once : ℕ) (events : List Event) (s : SessionServer)
    → IsTracked per_day at_once s
    → IsTracked per_day at_once (serve_all events s)
serve_all-IsTracked per_day at_once [] s h = h
serve_all-IsTracked per_day at_once (e ∷ rest) s h =
    serve_all-IsTracked per_day at_once rest (serve e s) (serve-IsTracked per_day at_once s h e)

new_server-IsTracked :
    (per_day at_once : ℕ) (banned : Map StreamAddress Unit)
    → IsTracked per_day at_once (new_server per_day at_once banned)
unfolding lookup
new_server-IsTracked per_day at_once banned = record {
  limited = record { clients = λ ip l. omega arith; connections = λ ip l. omega arith };
  day_limit = refl;
  client_limit = refl;
  clients = λ ip l. omega arith;
  connections = λ ip l. omega arith;
}

-- Whatever connections, ends of sessions, bans and ends of days a server gets after its start,
-- with the limits that it started with and whatever bans its file has: for each address and each
-- limit that is not zero, no more of its sessions are open at once than the limit of clients, and
-- no more of them were admitted since the day began than the limit of connections.
pub serve_all_limited :
    (per_day at_once : ℕ) (banned : Map StreamAddress Unit) (events : List Event)
    (ip : StreamAddress)
    → let s = serve_all events (new_server per_day at_once banned) in
      ((at_once ≡ 0) ⊎ (from_host ip s.sockets ≤ at_once))
      × ((per_day ≡ 0) ⊎ (from_host ip s.admitted_today ≤ per_day))
serve_all_limited per_day at_once banned events ip =
    let h =
      serve_all-IsTracked per_day at_once events (new_server per_day at_once banned)
        (new_server-IsTracked per_day at_once banned) in
    (
      limited at_once _ _ _ h.client_limit (h.clients ip) (h.limited.clients ip),
      limited per_day _ _ _ h.day_limit (h.connections ip) (h.limited.connections ip),
    )
  where
    limited :
        (limit real count kept : ℕ)
        → real ≡ limit
        → (0 < limit → count ≤ kept)
        → (0 < real → kept ≤ real)
        → (limit ≡ 0) ⊎ (count ≤ limit)
    limited zero real count kept e f g = inl refl
    limited (suc n) real count kept e f g =
        inr (omega (arith, e, f (omega arith), g (omega (arith, e))))
