-- ===== src/Reconnect/Safety/Replies.antt =====
-- The links of rzgamereconnect/src/AuthServer when a session is stored, answered or parted.
use rzu.Prelude.{
  Returns, ℕ, ◌≡◌, ◌≢◌, refl, Option, none, some, [], ◌∷◌, ◌++◌, arith, Option-cases, inl, inr,
}
use rzu.Prelude.Keyed.{lookup, put, adjust, number_key, lookup-adjust}
use rzu.Reconnect.State.{AuthSession, GameServerSession, World, GameReply}
use rzu.Reconnect.AuthSession.{disconnect}
use rzu.Reconnect.GameServer.{
  reply, reply_to, set_auth, with_auth, set_auth_session, disconnect_auth,
}
use rzu.Reconnect.Links.{
  auth_at, IsLinked, KeepsLink, put_auth-IsLinked, put_game-IsLinked, games-IsLinked,
  parted-IsLinked, disconnect-alone,
}

pub disconnect_none :
    (g : ℕ) (t : GameServerSession) (w : World)
    → lookup g w.games ≡ some t
    → t.auth_session ≡ none
    → disconnect_auth g w ≡ some (set_auth_session g none w)
unfolding disconnect_auth
disconnect_none g t w e k = ground arith

pub disconnect_auth_linked :
    (g a : ℕ) (t : GameServerSession) (s : AuthSession) (w : World)
    → lookup g w.games ≡ some t
    → t.auth_session ≡ some a
    → lookup a w.auths ≡ some s
    → disconnect_auth g w ≡ some (set_auth_session g none (set_auth a (disconnect s) w))
unfolding disconnect_auth
disconnect_auth_linked g a t s w e k found = ground arith

pub reply_lem :
    (g : ℕ) (t : GameServerSession) (m : GameReply) (w : World)
    → lookup g w.games ≡ some t
    → reply g m w
      ≡ some (record w { games = put g (record t { replies = t.replies ++ m ∷ [] }) w.games })
unfolding reply
reply_lem g t m w e = ground arith

module _ (w : World) (h : IsLinked w) where
  -- A stored session whose links are kept.
  pub stored-IsLinked :
      (a : ℕ) (s r : AuthSession)
      → lookup a w.auths ≡ some s
      → KeepsLink s r
      → IsLinked (set_auth a r w)
  stored-IsLinked a s r e k =
      put_auth-IsLinked w a s r e k.game_kept (λ l. ground (arith, h.ends_alone a s)) h

  pub with_auth-IsLinked :
      (a : ℕ) (f : AuthSession → AuthSession)
      → ((s : AuthSession) → KeepsLink s (f s))
      → lookup a w.auths ≢ none
      → Returns IsLinked (with_auth a f w)
  unfolding with_auth
  with_auth-IsLinked a f keeps live = elim (Option-cases (lookup a w.auths)) [
    | inl e ↦ absurd (live e)
    | inr (s, e) ↦ rw (e, with_auth) (stored-IsLinked a s (f s) e (keeps s))
  ]

  -- Whom a game server's session holds is there, and holds it.
  pub held_lem :
      (a g : ℕ) (t : GameServerSession)
      → lookup g w.games ≡ some t
      → t.auth_session ≡ some a
      → (s : AuthSession) × (lookup a w.auths ≡ some s) × (s.game_server_session ≡ some g)
  held_lem a g t e k = elim (Option-cases (lookup a w.auths)) [
    | inl gone ↦ absurd (ground (arith, (h.mutual_links a g).1))
    | inr (s, found) ↦ (s, found, ground (arith, (h.mutual_links a g).1))
  ]

  -- Whom a session holds is there, and holds it.
  pub holder_lem :
      (a g : ℕ) (s : AuthSession)
      → lookup a w.auths ≡ some s
      → s.game_server_session ≡ some g
      → (t : GameServerSession) × (lookup g w.games ≡ some t) × (t.auth_session ≡ some a)
  holder_lem a g s e k = elim (Option-cases (lookup g w.games)) [
    | inl gone ↦ absurd (ground (arith, (h.mutual_links a g).0))
    | inr (t, found) ↦ (t, found, ground (arith, (h.mutual_links a g).0))
  ]

  pub reply-IsLinked :
      (g : ℕ) (m : GameReply) → lookup g w.games ≢ none → Returns IsLinked (reply g m w)
  unfolding reply
  reply-IsLinked g m live = elim (Option-cases (lookup g w.games)) [
    | inl e ↦ absurd (live e)
    | inr (t, e) ↦ rw (e, reply) (put_game-IsLinked w g t _ e refl h)
  ]

  -- The end of a game server's link with the session that it holds.
  pub left_alone-IsLinked :
      (a g : ℕ) (s : AuthSession) (f : AuthSession → AuthSession) (t : GameServerSession)
      → lookup a w.auths ≡ some s
      → lookup g w.games ≡ some t
      → t.auth_session ≡ some a
      → (f s).game_server_session ≡ none
      → IsLinked (record w {
        auths = put a (f s) w.auths;
        games = adjust g (λ t. record t { auth_session = none }) w.games;
      })
  left_alone-IsLinked a g s f t e k held alone =
      parted-IsLinked w a g s (f s) _ e (ground arith) alone
        (λ j. ground (arith, lookup-adjust g j (λ t. record t { auth_session = none }) w.games))
        (λ j le. ground (
          arith,
          lookup-adjust g j (λ t. record t { auth_session = none }) w.games,
          h.fresh_games j,
        ))
        h

  -- A game server that holds nobody.
  pub cleared-IsLinked : (g : ℕ) → auth_at w g ≡ none → IsLinked (set_auth_session g none w)
  cleared-IsLinked g e =
      games-IsLinked w _
        (λ j. ground (arith, lookup-adjust g j (λ t. record t { auth_session = none }) w.games))
        (λ j le. ground (
          arith,
          lookup-adjust g j (λ t. record t { auth_session = none }) w.games,
          h.fresh_games j,
        ))
        h

  pub disconnect_auth-IsLinked :
      (g : ℕ) → lookup g w.games ≢ none → Returns IsLinked (disconnect_auth g w)
  disconnect_auth-IsLinked g live = elim (Option-cases (lookup g w.games)) [
    | inl e ↦ absurd (live e)
    | inr (t, e) ↦ elim (Option-cases t.auth_session) [
      | inl k ↦ rw (disconnect_none g t w e k) (cleared-IsLinked g (ground arith))
      | inr (a, k) ↦
          let (s, found, back) = held_lem a g t e k in
          rw (disconnect_auth_linked g a t s w e k found)
            (left_alone-IsLinked a g s disconnect t found e k (disconnect-alone s))
    ]
  ]

  -- The session at `g` is there, if someone holds it.
  pub live_game :
      (a g : ℕ) (s : AuthSession)
      → lookup a w.auths ≡ some s
      → s.game_server_session ≡ some g
      → lookup g w.games ≢ none
  live_game a g s e k = let (t, found, back) = holder_lem a g s e k in λ gone. ground arith

  pub reply_to-Returns :
      (a : ℕ) (s : AuthSession) (o : Option ℕ) (m : GameReply)
      → lookup a w.auths ≡ some s
      → s.game_server_session ≡ o
      → Returns (λ told. IsLinked told × (lookup a told.auths ≡ some s)) (reply_to o m w)
  reply_to-Returns a s none m e k = (h, e)
  reply_to-Returns a s (some g) m e k =
      let (t, found, back) = holder_lem a g s e k in
      rw (reply_lem g t m w found) (put_game-IsLinked w g t _ found refl h, e)
