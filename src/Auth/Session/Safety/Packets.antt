-- ===== src/Auth/Session/Safety/Packets.antt =====
-- Every packet of a client (`onPacketReceived` of ClientSession.cpp) is handled safely.
use rzu.Prelude.{
  Returns, Returns-bind, ℕ, ◌%◌, ◌^◌, ◌≡◌, ◌≢◌, refl, Bool, true, false, Option, none, some, [],
  ◌∷◌, Bytes, arith, ◌==◌, Option-cases, Bool-cases, inl, inr, leb,
}
use rzu.Prelude.Keyed.{
  Map, AllEntries, AllEntries-of_lookup, lookup, lookup-adjust, number_key, bytes_key,
}
use rzu.Auth.State.{update_last_server_idx, ClientData, World, Config, send, set_client_session}
use rzu.Auth.Client.Moves.{to_server, switch_client_to_server}
use rzu.Auth.Session.Handlers.{
  list_servers, on_server_list, on_select_server, answer_selection, on_packet_received,
  ClientPacket,
}
use rzu.Auth.Invariant.Defs.{IsSafe, IsLive, HasIndex, send-IsSafe, frame-IsSound}
use rzu.Auth.Invariant.Players.{switch-IsSound}
use rzu.Auth.Session.Version.{
  epic_8_1_1_rsa, VersionRequest, user_count, client_version, read_version,
}
use rzu.Auth.Session.Handlers.{
  on_version, answer_version, AccountPacket, on_account, on_imbc_account,
}
use rzu.Auth.Session.Safety.Players.{logged-IsSafe}
use rzu.Auth.Session.Safety.Login.{session-IsSafe}

zero_test : (n : ℕ) → n ≢ 0 → (n == 0) ≡ false
zero_test n h = ground arith

-- Every server of the table is live, so the list can be made.
pub list_servers-Returns :
    (limit max_players : ℕ) (entries : Map ℕ ℕ) (w : World)
    → max_players ≢ 0
    → AllEntries (λ i g. HasIndex i (lookup g w.games)) entries
    → Returns (λ _. Unit) (list_servers limit max_players entries w)
unfolding list_servers
list_servers-Returns limit max_players [] w n h = tt
list_servers-Returns limit max_players ((i, g) ∷ rest) w n h =
    ground
      (arith, h.0, list_servers-Returns limit max_players rest w n h.1, zero_test max_players n)

pub on_server_list-IsSafe :
    (config : Config) (s : ℕ) (w : World)
    → config.max_players ≢ 0
    → IsSafe w
    → Returns IsSafe (on_server_list config s w)
unfolding on_server_list
on_server_list-IsSafe config s w some_players h =
    elim (Option-cases (w.client_sessions s).client_data) [
      | inl e ↦ rw (e, on_server_list) (logged-IsSafe _ w h)
      | inr (p, e) ↦
          rw (e, on_server_list)
            (Returns-bind (λ _. Unit) IsSafe _ _
              (list_servers-Returns _ config.max_players w.servers w some_players
                (AllEntries-of_lookup _ w.servers h.sound.unique_servers h.sound.tabled))
              (λ rows _. logged-IsSafe _ w h))
    ]

answer_selection-IsSafe :
    (encrypt : ℕ → Option Bytes) (s key : ℕ) (w : World)
    → IsSafe w
    → IsSafe (answer_selection encrypt s key w)
unfolding answer_selection
answer_selection-IsSafe encrypt s key w h =
    elim (Bool-cases (leb epic_8_1_1_rsa (w.client_sessions s).packet_version)) [
      | inr old ↦ rw (old, answer_selection) (logged-IsSafe _ w h)
      | inl rsa ↦ elim (Option-cases (encrypt key)) [
        | inl e ↦ rw (rsa, answer_selection) (rw (e, answer_selection) (logged-IsSafe _ w h))
        | inr (secret, e) ↦
            rw (rsa, answer_selection) (rw (e, answer_selection) (logged-IsSafe _ w h))
      ]
    ]

-- A player that its session hands over is held by no session.
handed_over-IsSafe :
    (s p g key : ℕ) (c : ClientData) (w : World)
    → IsSafe w
    → (w.client_sessions s).client_data ≡ some p
    → lookup p w.clients ≡ some c
    → IsLive (lookup g w.games)
    → IsSafe (
        set_client_session s
          (record (w.client_sessions s) { client_data = none })
          (switch_client_to_server p g key w))
unfolding switch_client_to_server
handed_over-IsSafe s p g key c w h mine e live = record {
  sound = frame-IsSound _ _ _ _ (
      switch-IsSound p g key c w h.sound e
        (ground (arith, h.owned.points s p mine, h.sound.placed p)) live);
  owned = record {
    points = λ t q k. ground (
      arith,
      h.owned.points s p mine,
      h.owned.points t q,
      lookup-adjust p q (to_server g key) w.clients,
    );
    holds = λ q t d k m. elim (Option-cases (lookup q w.clients)) [
      | inl n ↦ absurd (ground (arith, n, k, lookup-adjust p q (to_server g key) w.clients))
      | inr (b, n) ↦ ground (
        arith,
        n,
        k,
        m,
        lookup-adjust p q (to_server g key) w.clients,
        h.owned.holds q t b n,
        mine,
      )
    ];
  };
}

on_select_server-IsSafe :
    (encrypt : ℕ → Option Bytes) (s server_idx key : ℕ) (w : World)
    → IsSafe w
    → Returns IsSafe (on_select_server encrypt s server_idx key w)
unfolding on_select_server send switch_client_to_server
on_select_server-IsSafe encrypt s server_idx key w h =
    elim (Option-cases (w.client_sessions s).client_data) [
      | inl e ↦ rw (e, on_select_server) (logged-IsSafe _ w h)
      | inr (p, e) ↦ elim (Option-cases (lookup (server_idx % 2 ^ 16) w.servers)) [
        | inl n ↦ rw (e, on_select_server) (rw (n, on_select_server) (logged-IsSafe _ w h))
        | inr (g, n) ↦ elim (Option-cases (lookup p w.clients)) [
          | inl m ↦ absurd (ground (arith, h.owned.points s p e))
          | inr (c, m) ↦
              rw (e, on_select_server)
                (rw (n, on_select_server)
                  (rw (m, on_select_server)
                    (answer_selection-IsSafe encrypt s key _ (
                      handed_over-IsSafe s p g key c _
                        (send-IsSafe (update_last_server_idx c.account_id server_idx) w h) e m
                        (ground (arith, h.sound.tabled _ g n))))))
        ]
      ]
    ]

answer_version-IsSafe :
    (s build_date : ℕ) (r : VersionRequest) (w : World)
    → IsSafe w
    → IsSafe (answer_version s build_date r w)
unfolding answer_version
answer_version-IsSafe s build_date user_count w h = logged-IsSafe _ w h
answer_version-IsSafe s build_date VersionRequest.build_date w h = logged-IsSafe _ w h
answer_version-IsSafe s build_date (client_version v) w h = session-IsSafe s _ w refl refl h

on_account-IsSafe : (s : ℕ) (p : AccountPacket) (w : World) → IsSafe w → IsSafe (on_account s p w)
unfolding on_account
on_account-IsSafe s p w h = elim (Bool-cases (w.client_sessions s).query_in_progress) [
  | inl busy ↦ rw (busy, on_account) (logged-IsSafe _ w h)
  | inr idle ↦ rw (idle, on_account) (logged-IsSafe _ _ (session-IsSafe s _ w refl refl h))
]

on_imbc_account-IsSafe :
    (s : ℕ) (enabled : Bool) (p : AccountPacket) (w : World)
    → IsSafe w
    → IsSafe (on_imbc_account s enabled p w)
unfolding on_imbc_account
on_imbc_account-IsSafe s true p w h = elim (Bool-cases (w.client_sessions s).query_in_progress) [
  | inl busy ↦ rw (busy, on_imbc_account) (logged-IsSafe _ w h)
  | inr idle ↦ rw (idle, on_imbc_account) (logged-IsSafe _ _ (session-IsSafe s _ w refl refl h))
]
on_imbc_account-IsSafe s false p w h = elim (Bool-cases (w.client_sessions s).query_in_progress) [
  | inl busy ↦ rw (busy, on_imbc_account) (logged-IsSafe _ w h)
  | inr idle ↦ rw (idle, on_imbc_account) (logged-IsSafe _ w h)
]

-- Every packet of a client is handled in a safe state, whatever the session has done before,
-- without the read of a null or dangling pointer or a division by zero, and the state stays safe,
-- if the configuration allows a player.
pub on_packet_received-IsSafe :
    (config : Config) (build_date : ℕ) (encrypt : ℕ → Option Bytes) (s : ℕ) (packet : ClientPacket)
    (w : World)
    → config.max_players ≢ 0
    → IsSafe w
    → Returns IsSafe (on_packet_received config build_date encrypt s packet w)
unfolding on_packet_received on_version
on_packet_received-IsSafe config build_date encrypt s (ClientPacket.version_text text) w n h =
    answer_version-IsSafe s build_date (read_version text) _ (session-IsSafe s _ w refl refl h)
on_packet_received-IsSafe config build_date encrypt s (ClientPacket.account p) w n h =
    on_account-IsSafe s p w h
on_packet_received-IsSafe config build_date encrypt s (ClientPacket.imbc_account p) w n h =
    on_imbc_account-IsSafe s config.enable_imbc p w h
on_packet_received-IsSafe config build_date encrypt s ClientPacket.request_servers w n h =
    on_server_list-IsSafe config s w n h
on_packet_received-IsSafe config build_date encrypt s (ClientPacket.select_server idx key) w n h =
    on_select_server-IsSafe encrypt s idx key w h
on_packet_received-IsSafe config build_date encrypt s ClientPacket.ping w n h = h
on_packet_received-IsSafe config build_date encrypt s ClientPacket.unknown w n h = h
on_packet_received-IsSafe config build_date encrypt s ClientPacket.invalid w n h = send-IsSafe _ w h
