-- ===== src/Net/Bans/Limits.antt =====
-- What the calls of a ban manager (BanManager.cpp) can lead to.
use rzu.Prelude.{ℕ, ◌-◌, ◌≤◌, ◌<◌, ◌≡◌, refl, true, false, Option, List, [], ◌∷◌, map, arith}
use rzu.Prelude.Keyed.{Map, lookup, lookup-put}
use rzu.Net.Bans.Manager.{
  StreamAddress, address_key, without_port, IpData, BanManager, is_banned, data_or_new, ip_data,
  set_ip_data, ban_ip, count_connection, count_client, check_host, check_accept_new_client,
  close_host, closed_client, reset_day, on_timer_expire, Call, run_call, run_calls, accept, close,
  ban, expire,
}

-- No address has more clients, or more connections of a day, than a limit that applies.
pub record IsLimited (m : BanManager) : Type 0 where
  pub clients :
      (ip : StreamAddress)
      → 0 < m.max_client_per_ip
      → (ip_data ip m).connected_clients ≤ m.max_client_per_ip
  pub connections :
      (ip : StreamAddress)
      → 0 < m.max_connection_per_day_per_ip
      → (ip_data ip m).connection_this_day ≤ m.max_connection_per_day_per_ip

pub check_host-IsLimited :
    (ip : StreamAddress) (m : BanManager) → IsLimited m → IsLimited (check_host ip m).0
unfolding check_host
check_host-IsLimited ip m v = record {
  clients = λ i l. ground (
    arith,
    v.clients i,
    lookup-put ip i (ip_data ip m) m.ip_datas,
    lookup-put ip i (count_connection (ip_data ip m)) m.ip_datas,
    lookup-put ip i (count_client (count_connection (ip_data ip m))) m.ip_datas,
  );
  connections = λ i l. ground (
    arith,
    v.connections i,
    lookup-put ip i (ip_data ip m) m.ip_datas,
    lookup-put ip i (count_connection (ip_data ip m)) m.ip_datas,
    lookup-put ip i (count_client (count_connection (ip_data ip m))) m.ip_datas,
  );
}

abbrev pub less_client : IpData → IpData
less_client d = record d { connected_clients = d.connected_clients - 1 }

pub close_host-IsLimited :
    (ip : StreamAddress) (m : BanManager) → IsLimited m → IsLimited (close_host ip m)
unfolding close_host
close_host-IsLimited ip m v = record {
  clients = λ i l.
      ground
        (arith, v.clients i, v.clients ip, lookup-put ip i (less_client (ip_data ip m)) m.ip_datas);
  connections = λ i l. ground (
    arith,
    v.connections i,
    v.connections ip,
    lookup-put ip i (less_client (ip_data ip m)) m.ip_datas,
  );
}

unfoldable pub reset_data : Option IpData → IpData
reset_data o = record (data_or_new o) { connection_this_day = 0 }

pub lookup-reset :
    (ip : StreamAddress) (datas : Map StreamAddress IpData)
    → data_or_new (lookup ip (map reset_day datas)) ≡ reset_data (lookup ip datas)
unfolding lookup reset_data
lookup-reset ip [] = refl
lookup-reset ip ((j, d) ∷ rest) = ground (arith, lookup-reset ip rest)

pub on_timer_expire-IsLimited : (m : BanManager) → IsLimited m → IsLimited (on_timer_expire m)
unfolding on_timer_expire reset_data
on_timer_expire-IsLimited m v = record {
  clients = λ i l. rw (lookup-reset i m.ip_datas) (v.clients i l);
  connections = λ i l. rw (lookup-reset i m.ip_datas) (omega arith);
}

run_call-IsLimited : (c : Call) (m : BanManager) → IsLimited m → IsLimited (run_call c m)
unfolding run_call
run_call-IsLimited (accept ip) m v = check_host-IsLimited (without_port ip) m v
run_call-IsLimited (close ip) m v = close_host-IsLimited (without_port ip) m v
run_call-IsLimited (ban ip) m v = record { clients = v.clients; connections = v.connections }
run_call-IsLimited expire m v = on_timer_expire-IsLimited m v

run_calls-IsLimited_from :
    (calls : List Call) (m : BanManager) → IsLimited m → IsLimited (run_calls calls m)
unfolding run_calls
run_calls-IsLimited_from [] m v = v
run_calls-IsLimited_from (c ∷ rest) m v =
    run_calls-IsLimited_from rest (run_call c m) (run_call-IsLimited c m v)

-- The manager when the server starts.
abbrev pub new_ban_manager : ℕ → ℕ → BanManager
new_ban_manager per_day at_once = record {
  max_connection_per_day_per_ip = per_day;
  max_client_per_ip = at_once;
  banned_ips = [];
  ip_datas = [];
}

-- Whatever calls a new manager gets, it counts no more clients at once, or connections of a day,
-- for an address than a limit that applies.
pub run_calls-IsLimited :
    (per_day at_once : ℕ) (calls : List Call)
    → IsLimited (run_calls calls (new_ban_manager per_day at_once))
unfolding lookup
run_calls-IsLimited per_day at_once calls =
    run_calls-IsLimited_from calls (new_ban_manager per_day at_once)
      (record { clients = λ ip l. omega arith; connections = λ ip l. omega arith })

run_call-banned :
    (c : Call) (ip : StreamAddress) (m : BanManager)
    → is_banned ip m ≡ true
    → is_banned ip (run_call c m) ≡ true
unfolding run_call
run_call-banned (accept j) ip m h = ground (arith, lookup-put (without_port j) ip tt m.banned_ips)
run_call-banned (close j) ip m h = ground arith
run_call-banned (ban j) ip m h = ground (arith, lookup-put j ip tt m.banned_ips)
run_call-banned expire ip m h = h

run_calls-banned :
    (calls : List Call) (ip : StreamAddress) (m : BanManager)
    → is_banned ip m ≡ true
    → is_banned ip (run_calls calls m) ≡ true
unfolding run_calls
run_calls-banned [] ip m h = h
run_calls-banned (c ∷ rest) ip m h =
    run_calls-banned rest ip (run_call c m) (run_call-banned c ip m h)

banned-refused :
    (ip : StreamAddress) (m : BanManager) → is_banned ip m ≡ true → (check_host ip m).1 ≡ false
unfolding check_host
banned-refused ip m h = ground arith

-- A host that was banned by its address without port is refused on every port, whatever calls
-- came in between.
pub check_accept_new_client-run_calls-ban_ip :
    (host port : ℕ) (calls : List Call) (m : BanManager)
    → (check_accept_new_client (host, port) (run_calls calls (ban_ip (host, 0) m))).1 ≡ false
unfolding check_accept_new_client ban_ip
check_accept_new_client-run_calls-ban_ip host port calls m =
    banned-refused (host, 0) (run_calls calls (ban_ip (host, 0) m))
      (run_calls-banned calls (host, 0) (ban_ip (host, 0) m)
        (ground (arith, lookup-put (host, 0) (host, 0) tt m.banned_ips)))

-- With a limit on clients, the end of a connection that was admitted gives its place back.
pub closed_client-check_accept_new_client :
    (ip : StreamAddress) (m : BanManager)
    → (check_accept_new_client ip m).1 ≡ true
    → 0 < m.max_client_per_ip
    → (ip_data
        (without_port ip)
        (closed_client ip (check_accept_new_client ip m).0)).connected_clients
      ≡ (ip_data (without_port ip) m).connected_clients
unfolding check_accept_new_client closed_client
closed_client-check_accept_new_client (host, port) m admitted limited = ground (
  arith,
  lookup-put (host, 0) (host, 0) (count_client (count_connection (ip_data (host, 0) m))) m.ip_datas,
  lookup-put (host, 0) (host, 0)
      (less_client (count_client (count_connection (ip_data (host, 0) m))))
      (set_ip_data (host, 0) (count_client (count_connection (ip_data (host, 0) m))) m).ip_datas,
)
