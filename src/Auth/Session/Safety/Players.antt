-- ===== src/Auth/Session/Safety/Players.antt =====
-- Players that a session of rzauth/src/AuthServer/ClientSession.cpp forgets, kicks or meets twice.
use rzu.Prelude.{
  Returns, ℕ, ◌≡◌, refl, Bool, true, false, Option, none, some, [], ◌∷◌, ◌++◌, Bytes, arith,
  Option-cases, inl, inr, if◌then◌else◌,
}
use rzu.Prelude.Keyed.{Map, lookup, lookup-erase, number_key, bytes_key}
use rzu.Auth.State.{ClientData, GameData, World, Output, send, set_client_session}
use rzu.Auth.Client.Registry.{forget, remove_client}
use rzu.Auth.Game.Servers.{kick_from_session, kick_from_game}
use rzu.Auth.Session.Handlers.{on_disconnected, delete_session, duplicate_login}
use rzu.Auth.Invariant.Defs.{IsSafe, IsOwned, IsLive, HeldBy, frame-IsSound}
use rzu.Auth.Invariant.Players.{forget-IsSound, remove_client_lem}
use rzu.Auth.Invariant.Games.{touch-IsSound, touch-IsOwned}

-- A player that no session holds can be forgotten.
pub forget-IsOwned :
    (p : ℕ) (c : ClientData) (w : World)
    → lookup p w.clients ≡ some c
    → c.client ≡ none
    → IsOwned w
    → IsOwned (forget p c w)
unfolding forget
forget-IsOwned p c w e alone o = record {
  points = λ s q h. ground (arith, o.points s q, lookup-erase p q w.clients);
  holds = λ q s d h m. o.holds q s d (ground (arith, h, lookup-erase p q w.clients)) m;
}

-- The session that holds a player forgets it and its pointer to it.
pub release-IsOwned :
    (s p : ℕ) (c : ClientData) (w : World)
    → lookup p w.clients ≡ some c
    → c.client ≡ some s
    → IsOwned w
    → IsOwned (
        set_client_session s
          (record ((forget p c w).client_sessions s) { client_data = none })
          (forget p c w))
unfolding forget
release-IsOwned s p c w e mine o = record {
  points = λ t q h. ground (arith, o.points t q, lookup-erase p q w.clients);
  holds = λ q t d h m.
      ground
        (arith, h, m, e, mine, lookup-erase p q w.clients, o.holds q t d, o.holds p s c e mine);
}

-- A session that holds no player can be deleted.
pub delete_session-IsSafe :
    (s : ℕ) (w : World)
    → (w.client_sessions s).client_data ≡ none
    → IsSafe w
    → IsSafe (delete_session s w)
unfolding delete_session
delete_session-IsSafe s w e h = record {
  sound = frame-IsSound w _ _ _ h.sound;
  owned = record {
    points = λ t q f. ground (arith, h.owned.points t q, h.owned.points s q);
    holds = λ q t d f m. ground (arith, h.owned.holds q t d f m, e);
  };
}

-- A safe state in which this session holds no player.
abbrev pub IsLeft : ℕ → World → Type 0
IsLeft s w = IsSafe w × ((w.client_sessions s).client_data ≡ none)

-- The end of a client's connection in a safe state reads no dangling pointer and leaves a safe
-- state, in which the session holds no player.
pub on_disconnected-IsSafe :
    (s : ℕ) (w : World) → IsSafe w → Returns (IsLeft s) (on_disconnected s w)
unfolding on_disconnected
on_disconnected-IsSafe s w h = elim (Option-cases (w.client_sessions s).client_data) [
  | inl e ↦ rw (e, on_disconnected) (h, e)
  | inr (p, e) ↦ elim (Option-cases (lookup p w.clients)) [
    | inl n ↦ absurd (ground (arith, h.owned.points s p e))
    | inr (c, n) ↦
        rw (e, on_disconnected, remove_client_lem p c w h.sound n)
          (
            record {
              sound = frame-IsSound (forget p c w) _ _ _ (forget-IsSound p c w h.sound n);
              owned = release-IsOwned s p c w n (ground (arith, h.owned.points s p e)) h.owned;
            },
            ground arith,
          )
  ]
]

pub forget-IsSafe :
    (p : ℕ) (c : ClientData) (w : World)
    → IsSafe w
    → lookup p w.clients ≡ some c
    → c.client ≡ none
    → Returns IsSafe (remove_client p w)
forget-IsSafe p c w h e alone = rw (remove_client_lem p c w h.sound e) (record {
  sound = forget-IsSound p c w h.sound e;
  owned = forget-IsOwned p c w e alone h.owned;
})

pub kick_from_session-IsSafe :
    (strict : Bool) (s p : ℕ) (c : ClientData) (w : World)
    → IsSafe w
    → lookup p w.clients ≡ some c
    → c.client ≡ none
    → Returns IsSafe (kick_from_session strict s p w)
unfolding kick_from_session send
kick_from_session-IsSafe true s p c w h e alone =
    rw (e, kick_from_session)
      (record {
        sound = frame-IsSound _ _ _ _ (
            touch-IsSound p _ c w h.sound e (λ _. refl) (λ _. refl) (λ _. refl) (λ _. refl)
              (λ _. refl));
        owned =
            touch-IsOwned p _ c w h.sound e (λ _. refl) (λ _. refl) (λ _. refl) (λ _. refl)
              (λ _. refl) h.owned;
      })
kick_from_session-IsSafe false s p c w h e alone =
    rw (e, kick_from_session)
      (forget-IsSafe p c _ (record { sound = frame-IsSound w _ _ _ h.sound; owned = h.owned }) e
        alone)

pub kick_from_game-IsSafe :
    (strict : Bool) (g p : ℕ) (c : ClientData) (w : World)
    → IsSafe w
    → lookup p w.clients ≡ some c
    → c.client ≡ none
    → Returns IsSafe (kick_from_game strict g p w)
unfolding kick_from_game
kick_from_game-IsSafe strict g p c w h e alone = elim (Option-cases (w.links.session_of g)) [
  | inl n ↦ rw (n, kick_from_game) h
  | inr (s, n) ↦ rw (n, kick_from_game) (kick_from_session-IsSafe strict s p c w h e alone)
]

-- A player with a game server has no session, and its server is live.
pub served :
    (games : Map ℕ GameData) (client server : Option ℕ) (b : Bool) (g : ℕ)
    → HeldBy games client server b
    → server ≡ some g
    → (client ≡ none) × IsLive (lookup g games)
served games client server b g h e = ground arith

pub evict-IsSafe :
    (strict in_game : Bool) (g p : ℕ) (c : ClientData) (w : World)
    → IsSafe w
    → lookup p w.clients ≡ some c
    → c.client ≡ none
    → Returns IsSafe (if in_game then kick_from_game strict g p w else remove_client p w)
evict-IsSafe strict true g p c w h e alone = kick_from_game-IsSafe strict g p c w h e alone
evict-IsSafe strict false g p c w h e alone = forget-IsSafe p c w h e alone

pub logged-IsSafe :
    (o : Output) (w : World) → IsSafe w → IsSafe (record w { sent = w.sent ++ o ∷ [] })
logged-IsSafe o w h = record { sound = frame-IsSound w _ _ _ h.sound; owned = h.owned }

pub duplicate_login-IsSafe :
    (strict : Bool) (account_id : ℕ) (account ip : Bytes) (old : ℕ) (c : ClientData) (w : World)
    → IsSafe w
    → lookup old w.clients ≡ some c
    → Returns IsSafe (duplicate_login strict account_id account ip old w)
unfolding duplicate_login
duplicate_login-IsSafe strict account_id account ip old c w h e = elim (Option-cases c.server) [
  | inl n ↦ elim (Option-cases c.client) [
    | inl m ↦ absurd (ground (arith, h.sound.placed old))
    | inr (t, m) ↦
        rw (e, duplicate_login)
          (rw (n, duplicate_login)
            (rw (m, duplicate_login)
              (rw ((h.owned.holds old t c e m).1) (logged-IsSafe _ _ (logged-IsSafe _ w h)))))
  ]
  | inr (g, n) ↦
      let placed = served w.games c.client c.server c.in_game g (rw e at (h.sound.placed old)) n in
      elim (Option-cases (lookup g w.games)) [
        | inl m ↦ absurd (ground (arith, placed.1))
        | inr (game, m) ↦
            rw (e, duplicate_login)
              (rw (n, duplicate_login)
                (rw (m, duplicate_login)
                  (evict-IsSafe strict c.in_game g old c _ (logged-IsSafe _ w h) e placed.0)))
      ]
]
