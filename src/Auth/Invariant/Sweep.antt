-- ===== src/Auth/Invariant/Sweep.antt =====
-- `ClientData::removeServer`: the loop returns, forgets the players of one server, and no other.
use rzu.Prelude.{
  Returns, Returns-mono, ℕ, ◌≡◌, refl, true, false, Option, none, some, [], ◌∷◌, arith,
  if◌then◌else◌, Bool-cases, Option-cases, inl, inr,
}
use rzu.Prelude.Keyed.{
  Map, lookup, erase, IsUnique, AllEntries, AllEntries-of_lookup, lookup-erase, number_key,
  bytes_key,
}
use rzu.Auth.State.{ClientData, World}
use rzu.Auth.Client.Registry.{forget}
use rzu.Auth.Client.Moves.{is_server, drop_entry, sweep, remove_server}
use rzu.Auth.Client.Consistency.{HasId}
use rzu.Auth.Invariant.Defs.{IsSound, IsLive}
use rzu.Auth.Invariant.Players.{forget-IsSound, forget_games}

-- No player is with server `g`.
abbrev pub IsAway : ℕ → Option ClientData → Type 0
IsAway g none = Unit
IsAway g (some c) = is_server g c.server ≡ false

-- A player that stays where it was.
abbrev pub Stays : ℕ → Option ClientData → Option ClientData → Type 0
Stays g none after = Unit
Stays g (some c) after = is_server g c.server ≡ false → after ≡ some c

-- The entries that the loop still has to visit.
abbrev Visits : ℕ → World → Map ℕ ℕ → Type 0
Visits g w entries =
    AllEntries (λ k p. HasId k (lookup p w.clients)) entries
    × ((p : ℕ) (c : ClientData)
        → lookup p w.clients ≡ some c
        → is_server g c.server ≡ true
        → lookup c.account_id entries ≡ some p)

pub record Swept (g : ℕ) (w w' : World) : Type 0 where
  pub sound : IsSound w'
  pub stays : (p : ℕ) → Stays g (lookup p w.clients) (lookup p w'.clients)
  pub fewer : (p : ℕ) (c : ClientData) → lookup p w'.clients ≡ some c → lookup p w.clients ≡ some c
  pub away : (p : ℕ) → IsAway g (lookup p w'.clients)
  pub live : (h : ℕ) → IsLive (lookup h w.games) → IsLive (lookup h w'.games)
  pub links : w'.links ≡ w.links
  pub servers : w'.servers ≡ w.servers
  pub client_sessions : w'.client_sessions ≡ w.client_sessions
  pub game_sessions : w'.game_sessions ≡ w.game_sessions
  pub sent : w'.sent ≡ w.sent

-- For a player under its id, one round of the loop forgets it.
drop_entry-eq-forget :
    (g k p : ℕ) (c : ClientData) (w : World)
    → c.account_id ≡ k
    → drop_entry g k p c w ≡ (if is_server g c.server then forget p c w else w)
unfolding drop_entry forget
drop_entry-eq-forget g k p c w e = rw (← e) refl

Visits-forget :
    (k p : ℕ) (c : ClientData) (w : World) (entries : Map ℕ ℕ)
    → c.account_id ≡ k
    → lookup p w.clients ≡ some c
    → lookup k entries ≡ none
    → AllEntries (λ j q. HasId j (lookup q w.clients)) entries
    → AllEntries (λ j q. HasId j (lookup q (erase p w.clients))) entries
unfolding lookup
Visits-forget k p c w [] i e n h = tt
Visits-forget k p c w ((j, q) ∷ rest) i e n h = (
  ground (arith, h.0, lookup-erase p q w.clients),
  Visits-forget k p c w rest i e (ground arith) h.1,
)

module _ (g p : ℕ) (c : ClientData) (w w' : World) where
  -- The rest of the loop after a player was forgotten.
  Swept-forget :
      lookup p w.clients ≡ some c
      → is_server g c.server ≡ true
      → Swept g (forget p c w) w'
      → Swept g w w'
  unfolding forget
  Swept-forget e on r = record {
    sound = r.sound;
    stays = λ q. ground (arith, r.stays q, lookup-erase p q w.clients);
    fewer = λ q d f. ground (arith, r.fewer q d f, lookup-erase p q w.clients);
    away = r.away;
    live = λ h l. r.live h (forget_games p c w h l);
    links = r.links;
    servers = r.servers;
    client_sessions = r.client_sessions;
    game_sessions = r.game_sessions;
    sent = r.sent;
  }

Swept-refl :
    (g : ℕ) (w : World) → IsSound w → ((p : ℕ) → IsAway g (lookup p w.clients)) → Swept g w w
Swept-refl g w v a = record {
  sound = v;
  stays = λ p. ground arith;
  fewer = λ p c e. e;
  away = a;
  live = λ h l. l;
  links = refl;
  servers = refl;
  client_sessions = refl;
  game_sessions = refl;
  sent = refl;
}

Visits-nil : (g : ℕ) (w : World) → Visits g w [] → (p : ℕ) → IsAway g (lookup p w.clients)
unfolding lookup
Visits-nil g w h p = elim (Option-cases (lookup p w.clients)) [
  | inl e ↦ rw e tt
  | inr (c, e) ↦ ground (arith, h.1 p c e)
]

Visits-skip :
    (g k p : ℕ) (c : ClientData) (w : World) (rest : Map ℕ ℕ)
    → lookup p w.clients ≡ some c
    → is_server g c.server ≡ false
    → Visits g w ((k, p) ∷ rest)
    → Visits g w rest
unfolding lookup
Visits-skip g k p c w rest e off h = (h.0.1, λ q d l on. ground (arith, h.1 q d l on))

Visits-drop :
    (g k p : ℕ) (c : ClientData) (w : World) (rest : Map ℕ ℕ)
    → lookup p w.clients ≡ some c
    → IsUnique ((k, p) ∷ rest)
    → Visits g w ((k, p) ∷ rest)
    → Visits g (forget p c w) rest
unfolding forget lookup
Visits-drop g k p c w rest e u h = (
  Visits-forget k p c w rest (ground (arith, h.0.0)) e u.0 h.0.1,
  λ q d l on. ground (arith, lookup-erase p q w.clients, h.1 q d),
)

sweep_lem :
    (g : ℕ) (entries : Map ℕ ℕ) (w : World)
    → IsSound w
    → IsUnique entries
    → Visits g w entries
    → Returns (Swept g w) (sweep g entries w)
unfolding sweep
sweep_lem g [] w v u h = Swept-refl g w v (Visits-nil g w h)
sweep_lem g ((k, p) ∷ rest) w v u h = elim (Option-cases (lookup p w.clients)) [
  | inl e ↦ absurd (ground (arith, h.0.0))
  | inr (c, e) ↦
      let owner : c.account_id ≡ k = ground (arith, h.0.0) in
      elim (Bool-cases (is_server g c.server)) [
        | inl on ↦
            rw (e, sweep, drop_entry-eq-forget g k p c w owner, on)
              (Returns-mono (Swept g (forget p c w)) (Swept g w) _
                (λ w' r. Swept-forget g p c w w' e on r)
                (sweep_lem g rest (forget p c w) (forget-IsSound p c w v e) u.1
                  (Visits-drop g k p c w rest e u h)))
        | inr off ↦
            rw (e, sweep, drop_entry-eq-forget g k p c w owner, off)
              (sweep_lem g rest w v u.1 (Visits-skip g k p c w rest e off h))
      ]
]

-- In a sound state, whatever the order of the registry, the loop of `removeServer` ends, forgets
-- all players of the server, leaves every other player and everything else but the player counts
-- as it was, and the state is sound.
pub remove_server_lem : (g : ℕ) (w : World) → IsSound w → Returns (Swept g w) (remove_server g w)
unfolding remove_server
remove_server_lem g w v = sweep_lem g w.connected_clients w v v.consistent.unique_ids (
  AllEntries-of_lookup _ w.connected_clients v.consistent.unique_ids v.consistent.by_id,
  λ p c e on. (v.consistent.listed p c e).0,
)
