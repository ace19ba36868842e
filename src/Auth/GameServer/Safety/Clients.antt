-- ===== src/Auth/GameServer/Safety/Clients.antt =====
-- A player that a game server lets in (`onClientLogin` of GameServerSession.cpp), and one whose end
-- it reports (`onClientLogout`, `onClientKickFailed`).
use rzu.Prelude.{
  Returns, ℕ, ◌≡◌, ◌≢◌, true, false, Option, none, some, List, [], ◌∷◌, ◌++◌, Bytes, arith,
  Option-cases, Bool-cases, inl, inr, ◌>>=◌, if◌then◌else◌, length, leb,
}
use rzu.Prelude.Keyed.{lookup, lookup-adjust, number_key, bytes_key}
use rzu.Auth.State.{ClientData, GameData, World, send, send_log, account_logout}
use rzu.Auth.Client.Registry.{to_lower}
use rzu.Auth.Client.Moves.{get_client, entered, enter_game, connected_to_game_lem}
use rzu.Auth.GameServer.Packets.{convert_to_string}
use rzu.Auth.GameServer.Handlers.{
  key_matches, may_login, refuse_login, accept_login, on_client_login, end_of_client,
  logout_numbers,
}
use rzu.Auth.Invariant.Defs.{IsSound, IsOwned, IsLive, frame-IsSound}
use rzu.Auth.Invariant.Players.{entered-IsSound, forget-IsSound, remove_client_lem}
use rzu.Auth.Session.Safety.Players.{forget-IsOwned}
use rzu.Auth.GameServer.Safety.Login.{Keeps, logged-Keeps}

-- The player is with this server, which is reachable and ready, has the key, and is not in game.
pub may_login-server :
    (g : ℕ) (game : GameData) (c : ClientData) (key : ℕ) (w : World)
    → may_login g game c key w ≡ true
    → (c.server ≡ some g) × (c.in_game ≡ false) × (c.one_time_password ≡ some key)
unfolding may_login key_matches
may_login-server g game c key w h = ground arith

entered-IsOwned :
    (p now g : ℕ) (c : ClientData) (w : World)
    → lookup p w.clients ≡ some c
    → IsOwned w
    → IsOwned (entered p now g w)
unfolding entered
entered-IsOwned p now g c w e o = record {
  points = λ s q h. ground (arith, o.points s q h, lookup-adjust p q (enter_game now) w.clients);
  holds = λ q s d h m. elim (Option-cases (lookup q w.clients)) [
    | inl n ↦ absurd (ground (arith, lookup-adjust p q (enter_game now) w.clients, n, h))
    | inr (b, n) ↦
        o.holds q s b n (ground (arith, lookup-adjust p q (enter_game now) w.clients, n, h, m))
  ];
}

pub lookup-entered :
    (p now g : ℕ) (c : ClientData) (w : World)
    → lookup p w.clients ≡ some c
    → lookup p (entered p now g w).clients ≡ some (enter_game now c)
unfolding entered
lookup-entered p now g c w e = ground (arith, lookup-adjust p p (enter_game now) w.clients)

accept_login-Returns :
    (s : ℕ) (account : Bytes) (now g : ℕ) (game : GameData) (p : ℕ) (c : ClientData) (w : World)
    → IsSound w
    → lookup p w.clients ≡ some c
    → c.server ≡ some g
    → c.in_game ≡ false
    → Returns (Keeps w) (accept_login s account now game p w)
unfolding accept_login
accept_login-Returns s account now g game p c w v e on out =
    rw (connected_to_game_lem p now g c w e on, accept_login)
      (rw (lookup-entered p now g c w e, accept_login)
        (record {
          sound = frame-IsSound _ _ _ _ (entered-IsSound p now g c w v e on out);
          owned = entered-IsOwned p now g c w e;
        }))

refuse_login-Keeps :
    (s : ℕ) (account : Bytes) (c : Option ClientData) (w : World)
    → IsSound w
    → Keeps w (refuse_login s account c w)
unfolding refuse_login
refuse_login-Keeps s account c w v = logged-Keeps _ w v

-- The name map leads to a live player.
get_client-IsLive :
    (name : Bytes) (p : ℕ) (w : World)
    → IsSound w
    → get_client name w ≡ some p
    → IsLive (lookup p w.clients)
unfolding get_client
get_client-IsLive name p w v e = ground (arith, v.consistent.by_name (to_lower name) p e)

-- A session's game server is live.
pub own_game-IsLive :
    (s g : ℕ) (w : World) → IsSound w → w.links.game_of s ≡ some g → IsLive (lookup g w.games)
own_game-IsLive s g w v e = v.session_live g s (v.linked.game_end s g e)

pub on_client_login-Returns :
    (s : ℕ) (field : Bytes) (key now : ℕ) (w : World)
    → IsSound w
    → Returns (Keeps w) (on_client_login s field key now w)
unfolding on_client_login
on_client_login-Returns s field key now w v = elim (Option-cases (w.links.game_of s)) [
  | inl e ↦ rw (e, on_client_login) (refuse_login-Keeps s _ none w v)
  | inr (g, e) ↦ elim (Bool-cases (leb 61 (length (convert_to_string field 60)))) [
    | inl long ↦
        rw (e, on_client_login) (rw (long, on_client_login) (refuse_login-Keeps s _ none w v))
    | inr short ↦ elim (Option-cases (get_client (convert_to_string field 60) w)) [
      | inl m ↦
          rw (e, on_client_login)
            (rw (short, on_client_login)
              (rw (m, on_client_login) (refuse_login-Keeps s _ none w v)))
      | inr (p, m) ↦
          rw (e, on_client_login)
            (rw (short, on_client_login) (rw (m, on_client_login) (known g p e m)))
    ]
  ]
]
  where
    known :
        (g p : ℕ)
        → w.links.game_of s ≡ some g
        → get_client (convert_to_string field 60) w ≡ some p
        → Returns (Keeps w) (
            lookup p w.clients >>= λ c. lookup g w.games >>= λ game.
            if may_login g game c key w
            then accept_login s (convert_to_string field 60) now game p w
            else some (refuse_login s (convert_to_string field 60) (some c) w))
    known g p e m = elim (Option-cases (lookup p w.clients)) [
      | inl n ↦ absurd (ground (arith, get_client-IsLive (convert_to_string field 60) p w v m))
      | inr (c, n) ↦ elim (Option-cases (lookup g w.games)) [
        | inl k ↦ absurd (ground (arith, own_game-IsLive s g w v e))
        | inr (game, k) ↦ elim (Bool-cases (may_login g game c key w)) [
          | inl may ↦
              let facts = may_login-server g game c key w may in
              rw (n, k, may)
                (accept_login-Returns s (convert_to_string field 60) now g game p c w v n facts.0
                  facts.1)
          | inr refused ↦ rw (n, k, refused) (refuse_login-Keeps s _ (some c) w v)
        ]
      ]
    ]

-- The player of a name has been handed over to a game server.
abbrev pub IsServed : Option ClientData → Type 0
IsServed none = Unit
IsServed (some c) = c.server ≢ none

abbrev pub NamesServed : Bytes → World → Type 0
NamesServed field w =
    (p : ℕ) → get_client (convert_to_string field 60) w ≡ some p → IsServed (lookup p w.clients)

-- What the report of a player's end keeps: the pointers of the sessions only if none of them holds
-- the player.
pub record Ends (field : Bytes) (w w' : World) : Type 0 where
  pub sound : IsSound w'
  pub owned : NamesServed field w → IsOwned w → IsOwned w'

pub end_of_client-Returns :
    (texts : ClientData → List Bytes) (s : ℕ) (field : Bytes) (now : ℕ) (w : World)
    → IsSound w
    → Returns (Ends field w) (end_of_client texts s field now w)
unfolding end_of_client send
end_of_client-Returns texts s field now w v = elim (Option-cases (w.links.game_of s)) [
  | inl e ↦ rw (e, end_of_client) (record { sound = v; owned = λ n o. o })
  | inr (g, e) ↦ elim (Option-cases (get_client (convert_to_string field 60) w)) [
    | inl m ↦ rw (e, end_of_client) (rw (m, end_of_client) (record { sound = v; owned = λ n o. o }))
    | inr (p, m) ↦ elim (Option-cases (lookup p w.clients)) [
      | inl n ↦ absurd (ground (arith, get_client-IsLive (convert_to_string field 60) p w v m))
      | inr (c, n) ↦ elim (Option-cases (lookup g w.games)) [
        | inl k ↦ absurd (ground (arith, own_game-IsLive s g w v e))
        | inr (game, k) ↦
            let logged : World = record w {
              sent =
                  w.sent ++ send_log account_logout (logout_numbers c game.info now) (texts c) ∷ [];
            } in
            let sound : IsSound logged = frame-IsSound w _ _ _ v in
            rw (e, end_of_client)
              (rw (m, end_of_client)
                (rw (n, end_of_client)
                  (rw (k, end_of_client)
                    (rw (remove_client_lem p c logged sound n) (record {
                      sound = forget-IsSound p c logged sound n;
                      owned = λ free o.
                          forget-IsOwned p c logged n (ground (arith, v.placed p, free p m)) o;
                    })))))
      ]
    ]
  ]
]
