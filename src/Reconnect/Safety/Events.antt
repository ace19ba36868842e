-- ===== src/Reconnect/Safety/Events.antt =====
-- The events of rzgamereconnect/src/AuthServer on live sessions read no pointer that dangles.
use rzu.Prelude.{
  Returns, ℕ, suc, ◌≡◌, ◌≢◌, refl, Bool, true, false, Option, none, some, [], ◌>>=◌, arith,
  Bool-cases, Option-cases, inl, inr,
}
use rzu.Prelude.Keyed.{lookup, put, erase, number_key, lookup-put, lookup-erase}
use rzu.Reconnect.State.{AuthSession, GameServerSession, World}
use rzu.Reconnect.AuthSession.{
  disconnect, force_close, on_connected, on_disconnected, on_timer_reconnect,
}
use rzu.Reconnect.GameServer.{
  with_auth, with_auth_if, on_game_disconnected, new_game, destroy_auth, Event, game_arrives,
  game_packet, game_leaves, auth_connects, auth_packet, auth_leaves, auth_timer, auth_deleted,
  handle,
}
use rzu.Reconnect.Links.{
  auth_of_game, auth_at, IsLinked, put_auth-IsLinked, games-IsLinked, parted-IsLinked,
  on_connected-KeepsLink, on_timer_reconnect-KeepsLink, disconnect-alone, force_close-alone,
  on_disconnected_links,
}
use rzu.Reconnect.Safety.Replies.{held_lem, with_auth-IsLinked}
use rzu.Reconnect.Links.{erase_auth-IsLinked}
use rzu.Reconnect.Safety.Packets.{auth_packet-IsLinked, game_packet-IsLinked}

-- A session that is there.
abbrev pub IsLive : Event → World → Type 0
IsLive game_arrives w = Unit
IsLive (game_packet g guid p) w = lookup g w.games ≢ none
IsLive (game_leaves g caused) w = lookup g w.games ≢ none
IsLive (auth_connects a) w = lookup a w.auths ≢ none
IsLive (auth_packet a p) w = lookup a w.auths ≢ none
IsLive (auth_leaves a caused) w = lookup a w.auths ≢ none
IsLive (auth_timer a) w = lookup a w.auths ≢ none
IsLive (auth_deleted a) w = lookup a w.auths ≢ none

found_lem {ℓ} : {A : Type ℓ} (o : Option A) → o ≢ none → (a : A) × (o ≡ some a)
found_lem none live = absurd (live refl)
found_lem (some a) live = (a, refl)

module _ (w : World) (g : ℕ) (t : GameServerSession) (f : AuthSession → AuthSession)
    (e : lookup g w.games ≡ some t) where
  ended_none :
      t.auth_session ≡ none
      → (with_auth_if t.auth_session f w >>= λ left.
          some (record left { games = erase g left.games }))
        ≡ some (record w { games = erase g w.games })
  ended_none k = ground arith

  ended_some :
      {a : ℕ} (s : AuthSession)
      → t.auth_session ≡ some a
      → lookup a w.auths ≡ some s
      → (with_auth_if t.auth_session f w >>= λ left.
          some (record left { games = erase g left.games }))
        ≡ some (record w { auths = put a (f s) w.auths; games = erase g w.games })
  unfolding with_auth
  ended_some s k found = ground arith

  ended-IsLinked :
      IsLinked w
      → ((s : AuthSession) → (f s).game_server_session ≡ none)
      → Returns IsLinked (
          with_auth_if t.auth_session f w >>= λ left.
          some (record left { games = erase g left.games }))
  ended-IsLinked h alone = elim (Option-cases t.auth_session) [
    | inl k ↦ rw (ended_none k) (
        games-IsLinked w (erase g w.games) (λ j. ground (arith, lookup-erase g j w.games))
          (λ j le. ground (arith, lookup-erase g j w.games, h.fresh_games j)) h)
    | inr (a, k) ↦
        let (s, found, back) = held_lem w h a g t e k in
        rw (ended_some s k found) (
          parted-IsLinked w a g s (f s) (erase g w.games) found (rw e k) (alone s)
            (λ j. ground (arith, lookup-erase g j w.games))
            (λ j le. ground (arith, lookup-erase g j w.games, h.fresh_games j)) h)
  ]

destroyed :
    (a : ℕ) (s : AuthSession) (w : World)
    → lookup a w.auths ≡ some s
    → s.delete_later ≡ true
    → destroy_auth a w
      ≡ some (record w { auths = erase a w.auths; servers = erase s.info.server_idx w.servers })
unfolding destroy_auth
destroyed a s w e b = ground arith

not_destroyed :
    (a : ℕ) (s : AuthSession) (w : World)
    → lookup a w.auths ≡ some s
    → s.delete_later ≡ false
    → destroy_auth a w ≡ some w
unfolding destroy_auth
not_destroyed a s w e b = ground arith

module _ (w : World) (h : IsLinked w) where
  game_leaves-IsLinked :
      (g : ℕ) (caused : Bool) (t : GameServerSession)
      → lookup g w.games ≡ some t
      → Returns IsLinked (on_game_disconnected g caused w)
  unfolding on_game_disconnected
  game_leaves-IsLinked g true t e =
      rw (e, on_game_disconnected) (ended-IsLinked w g t disconnect e h disconnect-alone)
  game_leaves-IsLinked g false t e =
      rw (e, on_game_disconnected) (ended-IsLinked w g t force_close e h force_close-alone)

  auth_leaves-IsLinked :
      (a : ℕ) (caused : Bool) (s : AuthSession)
      → lookup a w.auths ≡ some s
      → Returns IsLinked (with_auth a (on_disconnected caused) w)
  unfolding with_auth
  auth_leaves-IsLinked a caused s e =
      let links = on_disconnected_links caused s in
      rw (e, with_auth)
        (put_auth-IsLinked w a s (on_disconnected caused s) e links.0
          (λ l. ground (arith, links.1 l, h.ends_alone a s e)) h)

  auth_deleted-IsLinked :
      (a : ℕ) (s : AuthSession) → lookup a w.auths ≡ some s → Returns IsLinked (destroy_auth a w)
  unfolding destroy_auth
  auth_deleted-IsLinked a s e = elim (Bool-cases s.delete_later) [
    | inl b ↦ rw (destroyed a s w e b) (erase_auth-IsLinked w a s _ e (h.ends_alone a s e b) h)
    | inr b ↦ rw (not_destroyed a s w e b) h
  ]

  game_arrives-IsLinked :
      IsLinked (record w { games = put w.next new_game w.games; next = suc w.next })
  game_arrives-IsLinked = record {
    mutual_links = λ b j.
        let same : auth_of_game (lookup j (put w.next new_game w.games)) ≡ auth_at w j =
          ground (arith, lookup-put w.next j new_game w.games, h.fresh_games w.next) in
        rw same (h.mutual_links b j);
    fresh_auths = λ b le. h.fresh_auths b (omega arith);
    fresh_games = λ b le. ground (arith, lookup-put w.next b new_game w.games, h.fresh_games b);
    ends_alone = λ b s found. h.ends_alone b s found;
  }

-- In a linked state, whatever event reaches a live session of rzgamereconnect (a packet, a
-- connection, its end, the timer, the destructor), it is handled to its end without the read of a
-- dangling pointer, and the state is linked again.
pub handle-IsLinked :
    (e : Event) (w : World) → IsLinked w → IsLive e w → Returns IsLinked (handle e w)
unfolding handle
handle-IsLinked game_arrives w h live = game_arrives-IsLinked w h
handle-IsLinked (game_packet g guid p) w h live =
    let (t, e) = found_lem (lookup g w.games) live in game_packet-IsLinked w h g guid t p e
handle-IsLinked (game_leaves g caused) w h live =
    let (t, e) = found_lem (lookup g w.games) live in game_leaves-IsLinked w h g caused t e
handle-IsLinked (auth_connects a) w h live =
    with_auth-IsLinked w h a on_connected on_connected-KeepsLink live
handle-IsLinked (auth_packet a p) w h live =
    let (s, e) = found_lem (lookup a w.auths) live in auth_packet-IsLinked w h a s p e
handle-IsLinked (auth_leaves a caused) w h live =
    let (s, e) = found_lem (lookup a w.auths) live in auth_leaves-IsLinked w h a caused s e
handle-IsLinked (auth_timer a) w h live =
    with_auth-IsLinked w h a on_timer_reconnect on_timer_reconnect-KeepsLink live
handle-IsLinked (auth_deleted a) w h live =
    let (s, e) = found_lem (lookup a w.auths) live in auth_deleted-IsLinked w h a s e

-- What the program gets to from its start, by events on sessions that are there.
pub data Reachable : World → Type 0 where
  started : Reachable (record { auths = []; games = []; servers = []; next = 0 })
  happened :
      {w w' : World} (e : Event) → Reachable w → IsLive e w → handle e w ≡ some w' → Reachable w'

started-IsLinked : IsLinked (record { auths = []; games = []; servers = []; next = 0 })
unfolding lookup
started-IsLinked = record {
  mutual_links = λ a g. (λ p. cc, λ p. cc);
  fresh_auths = λ a le. refl;
  fresh_games = λ g le. refl;
  ends_alone = λ a s found. cc;
}

pub of-Returns : {w : World} (o : Option World) → o ≡ some w → Returns IsLinked o → IsLinked w
of-Returns o e r = let r' = rw e at r in r'

-- Every state of rzgamereconnect that events at live sessions lead to from the empty one is
-- linked: a session with the authentication server that has a game server is the one which that
-- game server points to, and the other way round.
pub Reachable-IsLinked : {w : World} → Reachable w → IsLinked w
Reachable-IsLinked started = started-IsLinked
Reachable-IsLinked (happened {w} e r live done) =
    of-Returns (handle e w) done (handle-IsLinked e w (Reachable-IsLinked r) live)
