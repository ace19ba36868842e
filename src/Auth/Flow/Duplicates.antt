-- ===== src/Auth/Flow/Duplicates.antt =====
-- An account that logs in twice (`clientAuthResult` of rzauth/src/AuthServer/ClientSession.cpp).
use rzu.Prelude.{
  Returns, ℕ, ◌≡◌, refl, Bool, true, false, ◌&&◌, Option, none, some, Bytes, arith, if◌then◌else◌,
  ◌>>=◌, Option-cases, Bool-cases, inl, inr,
}
use rzu.Prelude.Keyed.{lookup, erase, lookup-erase, lookup-put_self, number_key, bytes_key}
use rzu.Auth.State.{
  ClientData, World, send, to_client, auth_result, already_exist, client_side_error,
}
use rzu.Auth.Client.Registry.{
  NewClient, new_client, to_lower, forget, remove_client, try_add_client, register,
}
use rzu.Auth.Client.Moves.{get_client_by_id}
use rzu.Auth.Game.Servers.{kick_from_game, kick_from_session}
use rzu.Auth.Session.Handlers.{
  AccountRow, duplicate_login, log_in, login_accepted, on_account, AccountPacket,
}
use rzu.Auth.Invariant.Defs.{IsSound, IsLive, KnowsSession, frame-IsSound}
use rzu.Auth.Invariant.Players.{remove_client_lem}
use rzu.Auth.Session.Safety.Players.{served}

-- The maps without the player.
abbrev Forgotten : ℕ → ClientData → World → World → Type 0
Forgotten p c w w' =
    (w'.clients ≡ erase p w.clients)
    × (w'.connected_clients ≡ erase c.account_id w.connected_clients)
    × (w'.connected_clients_by_name ≡ erase (to_lower c.account) w.connected_clients_by_name)

remove_client-Forgotten :
    (p : ℕ) (c : ClientData) (w : World)
    → IsSound w
    → lookup p w.clients ≡ some c
    → Returns (Forgotten p c w) (remove_client p w)
unfolding forget
remove_client-Forgotten p c w v e = rw (remove_client_lem p c w v e) (refl, refl, refl)

kick_from_game-Forgotten :
    (g p : ℕ) (c : ClientData) (w : World)
    → IsSound w
    → lookup p w.clients ≡ some c
    → IsLive (w.links.session_of g)
    → Returns (Forgotten p c w) (kick_from_game false g p w)
unfolding kick_from_game kick_from_session send
kick_from_game-Forgotten g p c w v e linked = elim (Option-cases (w.links.session_of g)) [
  | inl n ↦ absurd (ground arith)
  | inr (s, n) ↦
      rw (n, kick_from_game)
        (rw (e, kick_from_session) (remove_client-Forgotten p c _ (frame-IsSound w _ _ _ v) e))
]

-- A player of a game server that is not in game, or that its server kicks at once, is forgotten.
evicted :
    (strict in_game : Bool) (g p : ℕ) (c : ClientData) (w : World)
    → IsSound w
    → lookup p w.clients ≡ some c
    → (strict && in_game) ≡ false
    → (in_game ≡ true → IsLive (w.links.session_of g))
    → Returns (Forgotten p c w) (if in_game then kick_from_game strict g p w else remove_client p w)
evicted true true g p c w v e lax linked = absurd (ground arith)
evicted false true g p c w v e lax linked = kick_from_game-Forgotten g p c w v e (linked refl)
evicted strict false g p c w v e lax linked = remove_client-Forgotten p c w v e

duplicate_login-Forgotten :
    (strict : Bool) (account ip : Bytes) (id old g : ℕ) (c : ClientData) (w : World)
    → IsSound w
    → lookup old w.clients ≡ some c
    → c.server ≡ some g
    → (strict && c.in_game) ≡ false
    → (c.in_game ≡ true → IsLive (w.links.session_of g))
    → Returns (Forgotten old c w) (duplicate_login strict id account ip old w)
unfolding duplicate_login send
duplicate_login-Forgotten strict account ip id old g c w v e on lax linked =
    let placed = served w.games c.client c.server c.in_game g (rw e at (v.placed old)) on in
    elim (Option-cases (lookup g w.games)) [
      | inl m ↦ absurd (ground (arith, placed.1))
      | inr (game, m) ↦
          rw (e, duplicate_login)
            (rw (on, duplicate_login)
              (rw (m, duplicate_login)
                (evicted strict c.in_game g old c _ (frame-IsSound w _ _ _ v) e lax linked)))
    ]

-- The session holds the player that the account's id leads to.
abbrev pub IsLoggedIn : ℕ → ℕ → World → Option ℕ → Type 0
IsLoggedIn s id w none = ⊥
IsLoggedIn s id w (some p) =
    KnowsSession s (lookup p w.clients) × ((w.client_sessions s).client_data ≡ some p)

abbrev joining : ℕ → Bytes → Bytes → AccountRow → NewClient
joining s account ip row = record {
  session = some s;
  account = account;
  account_id = row.account_id;
  age = row.age;
  event_code = row.event_code;
  pc_bang = row.pc_bang;
  ip = ip;
}

log_in-free :
    (strict : Bool) (s : ℕ) (account ip : Bytes) (row : AccountRow) (w : World)
    → lookup row.account_id w.connected_clients ≡ none
    → lookup (to_lower account) w.connected_clients_by_name ≡ none
    → Returns
        (λ w'. IsLoggedIn s row.account_id w' (get_client_by_id row.account_id w'))
        (log_in strict s account ip row w)
unfolding log_in try_add_client register login_accepted get_client_by_id send
log_in-free strict s account ip row w i n =
    rw (i, log_in)
      (rw (n, log_in)
        (rw (lookup-put_self row.account_id w.next_address w.connected_clients) (
          rw (lookup-put_self w.next_address (new_client (joining s account ip row)) w.clients)
              refl,
          ground arith,
        )))

log_in-taken :
    (strict : Bool) (s old : ℕ) (account ip : Bytes) (row : AccountRow) (w : World)
    → lookup row.account_id w.connected_clients ≡ some old
    → log_in strict s account ip row w ≡ (
        duplicate_login strict row.account_id account ip old w >>= λ w'.
        some (send (to_client s (auth_result already_exist 0)) w'))
unfolding log_in try_add_client
log_in-taken strict s old account ip row w i = rw (i, log_in) refl

-- In a sound state, after a login for an account whose player a game server has, the next login
-- for it gets in and its session holds the new player, if kicks are not strict or the player is
-- not in game, and the server is reachable if the player is in game.
pub log_in-log_in :
    (strict : Bool) (s t old g : ℕ) (account ip : Bytes) (row : AccountRow) (c : ClientData)
    (w : World)
    → IsSound w
    → lookup row.account_id w.connected_clients ≡ some old
    → lookup old w.clients ≡ some c
    → to_lower c.account ≡ to_lower account
    → c.server ≡ some g
    → (strict && c.in_game) ≡ false
    → (c.in_game ≡ true → IsLive (w.links.session_of g))
    → Returns
        (λ w'. IsLoggedIn t row.account_id w' (get_client_by_id row.account_id w'))
        (log_in strict s account ip row w >>= log_in strict t account ip row)
unfolding send
log_in-log_in strict s t old g account ip row c w v i e name on lax linked =
    rw (log_in-taken strict s old account ip row w i) (
      again (duplicate_login strict row.account_id account ip old w)
        (duplicate_login-Forgotten strict account ip row.account_id old g c w v e on lax linked))
  where
    owner : c.account_id ≡ row.account_id
    owner = ground (arith, v.consistent.by_id row.account_id old i)

    again :
        (m : Option World)
        → Returns (Forgotten old c w) m
        → Returns
            (λ w'. IsLoggedIn t row.account_id w' (get_client_by_id row.account_id w'))
            ((m >>= λ w'. some (send (to_client s (auth_result already_exist 0)) w'))
              >>= log_in strict t account ip row)
    again none r = r
    again (some w') r =
        log_in-free strict t account ip row _
          (rw (r.1, owner)
            (ground (arith, lookup-erase row.account_id row.account_id w.connected_clients)))
          (rw (r.2, name)
            (ground (
              arith,
              lookup-erase (to_lower account) (to_lower account) w.connected_clients_by_name,
            )))

-- An account packet that follows another before the query is answered starts no query: it is only
-- answered with an error.
pub on_account-on_account :
    (s : ℕ) (p q : AccountPacket) (w : World)
    → on_account s q (on_account s p w)
      ≡ send (to_client s (auth_result client_side_error 0)) (on_account s p w)
unfolding on_account send
on_account-on_account s p q w = elim (Bool-cases (w.client_sessions s).query_in_progress) [
  | inl busy ↦ ground arith
  | inr idle ↦ ground arith
]
