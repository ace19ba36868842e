-- ===== src/Net/Bans/Manager.antt =====
-- librzu/src/lib/NetSession/BanManager.cpp: which addresses are admitted. The ban file is not modelled.
use rzu.Prelude.{
  ℕ, ◌+◌, ◌-◌, Bool, true, false, ◌&&◌, Option, none, some, List, [], ◌∷◌, map, leb, ltb, ◌==◌,
  if◌then◌else◌, ℕ_discrete,
}
use rzu.Prelude.Keyed.{Key, Map, lookup, put}

-- A host, whatever its kind, and a port; `operator==` compares both.
abbrev pub StreamAddress : Type 0
StreamAddress = ℕ × ℕ

instance abbrev pub address_key : Key StreamAddress
address_key = record { same = hlevel ℕ_discrete }

abbrev pub without_port : StreamAddress → StreamAddress
without_port (host, port) = (host, 0)

-- Both counts are an int32_t; they only count up from 0, and down while positive.
pub record IpData : Type 0 where
  pub connected_clients : ℕ
  pub connection_this_day : ℕ

-- Limits of 0 do not apply.
pub record BanManager : Type 0 where
  pub max_connection_per_day_per_ip : ℕ
  pub max_client_per_ip : ℕ
  pub banned_ips : Map StreamAddress Unit
  pub ip_datas : Map StreamAddress IpData

abbrev pub is_banned : StreamAddress → BanManager → Bool
is_banned ip m = elim (lookup ip m.banned_ips) [ none ↦ false | some _ ↦ true ]

abbrev pub data_or_new : Option IpData → IpData
data_or_new none = record { connected_clients = 0; connection_this_day = 0 }
data_or_new (some d) = d

-- `ipDatas[ip]`, which is made if it is not there.
abbrev pub ip_data : StreamAddress → BanManager → IpData
ip_data ip m = data_or_new (lookup ip m.ip_datas)

abbrev pub set_ip_data : StreamAddress → IpData → BanManager → BanManager
set_ip_data ip d m = record m { ip_datas = put ip d m.ip_datas }

unfoldable pub ban_ip : StreamAddress → BanManager → BanManager
ban_ip ip m = record m { banned_ips = put ip tt m.banned_ips }

-- A limit that applies and is reached.
abbrev pub reached : ℕ → ℕ → Bool
reached limit n = ltb 0 limit && leb limit n

abbrev pub count_connection : IpData → IpData
count_connection d = record d { connection_this_day = d.connection_this_day + 1 }

abbrev pub count_client : IpData → IpData
count_client d = record d { connected_clients = d.connected_clients + 1 }

-- `checkAcceptNewClient` once the port is cleared.
unfoldable pub check_host : StreamAddress → BanManager → BanManager × Bool
unfolding ban_ip
check_host ip m =
    let d = ip_data ip m in
    if is_banned ip m
    then (m, false)
    else if m.max_connection_per_day_per_ip == 0 && m.max_client_per_ip == 0
    then (m, true)
    else if reached m.max_connection_per_day_per_ip d.connection_this_day
    then (ban_ip ip (set_ip_data ip d m), false)
    else if reached m.max_client_per_ip d.connected_clients
    then (set_ip_data ip (count_connection d) m, false)
    else (set_ip_data ip (count_client (count_connection d)) m, true)

unfoldable pub check_accept_new_client : StreamAddress → BanManager → BanManager × Bool
unfolding check_host
check_accept_new_client ip m = check_host (without_port ip) m

-- `closedClient` once the port is cleared.
unfoldable pub close_host : StreamAddress → BanManager → BanManager
close_host ip m = elim (lookup ip m.ip_datas) [
  | none ↦ m
  | some d ↦
      if ltb 0 d.connected_clients
      then set_ip_data ip (record d { connected_clients = d.connected_clients - 1 }) m
      else m
]

unfoldable pub closed_client : StreamAddress → BanManager → BanManager
unfolding close_host
closed_client ip m = close_host (without_port ip) m

abbrev pub reset_day : StreamAddress × IpData → StreamAddress × IpData
reset_day (ip, d) = (ip, record d { connection_this_day = 0 })

unfoldable pub on_timer_expire : BanManager → BanManager
on_timer_expire m = record m { ip_datas = map reset_day m.ip_datas }

-- Calls of the manager.
pub data Call : Type 0 where
  accept close ban : StreamAddress → Call
  expire : Call

unfoldable pub run_call : Call → BanManager → BanManager
unfolding check_accept_new_client closed_client ban_ip on_timer_expire
run_call (accept ip) m = (check_accept_new_client ip m).0
run_call (close ip) m = closed_client ip m
run_call (ban ip) m = ban_ip ip m
run_call expire m = on_timer_expire m

unfoldable pub run_calls : List Call → BanManager → BanManager
unfolding run_call
run_calls [] m = m
run_calls (c ∷ rest) m = run_calls rest (run_call c m)
