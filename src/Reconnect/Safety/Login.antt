-- ===== src/Reconnect/Safety/Login.antt =====
-- The answers of the authentication server (AuthSession.cpp of rzgamereconnect).
use rzu.Prelude.{
  Returns, Returns-bind, ℕ, ◌≡◌, refl, sym, ◌∙◌, Bool, true, false, not, Option, none, some, [],
  ◌∷◌, ◌++◌, if◌then◌else◌, ◌>>=◌, arith, Bool-cases, Option-cases, inl, inr,
}
use rzu.Prelude.Keyed.{lookup, number_key, lookup-put}
use rzu.Auth.State.{ResultCode}
use rzu.Reconnect.State.{AuthSession, World, ClientResult, reply_login}
use rzu.Reconnect.AuthSession.{send_account_list, disconnect}
use rzu.Reconnect.GameServer.{
  reply, reply_to, set_auth, disconnect_auth, login_failed, is_success, on_login_result, account_of,
  shortened, on_client_login_result,
}
use rzu.Reconnect.Links.{IsLinked, put_auth-IsLinked, send_account_list-KeepsLink, disconnect-alone}
use rzu.Reconnect.Safety.Replies.{
  disconnect_auth-IsLinked, live_game, reply-IsLinked, reply_to-Returns, stored-IsLinked,
}

if_true_lem : {b : Bool} (x y : Option World) → b ≡ true → (if not b then x else y) ≡ y
if_true_lem x y e = rw e refl

abbrev refused : AuthSession → AuthSession
refused s = record s { sent_login_packet = false }

module _ (a : ℕ) (s : AuthSession) (w : World) where
  login_failed_alone :
      s.game_server_session ≡ none
      → login_failed a s w ≡ some (set_auth a (disconnect (refused s)) w)
  unfolding login_failed
  login_failed_alone k = ground arith

  login_failed_kept :
      {g : ℕ}
      → s.game_server_session ≡ some g
      → s.synchronized ≡ true
      → login_failed a s w ≡ some (set_auth a (refused s) w)
  unfolding login_failed
  login_failed_kept k b = ground arith

  login_failed_parted :
      {g : ℕ}
      → s.game_server_session ≡ some g
      → s.synchronized ≡ false
      → login_failed a s w ≡ disconnect_auth g (set_auth a (refused s) w)
  unfolding login_failed
  login_failed_parted k b = ground arith

  module _ (h : IsLinked w) (e : lookup a w.auths ≡ some s) where
    refused-IsLinked : IsLinked (set_auth a (refused s) w)
    refused-IsLinked =
        stored-IsLinked w h a s (refused s) e (record { game_kept = refl; later_kept = refl })

    login_failed-IsLinked : Returns IsLinked (login_failed a s w)
    login_failed-IsLinked = elim (Option-cases s.game_server_session) [
      | inl k ↦ rw (login_failed_alone k) (
          put_auth-IsLinked w a s (disconnect (refused s)) e (disconnect-alone (refused s) ∙ sym k)
            (λ l. disconnect-alone (refused s)) h)
      | inr (g, k) ↦ elim (Bool-cases s.synchronized) [
        | inl b ↦ rw (login_failed_kept k b) refused-IsLinked
        | inr b ↦ rw (login_failed_parted k b) (
            disconnect_auth-IsLinked (set_auth a (refused s) w) refused-IsLinked g (
              live_game (set_auth a (refused s) w) refused-IsLinked a g (refused s)
                (ground (arith, lookup-put a a (refused s) w.auths)) k))
      ]
    ]

after_login-IsLinked :
    (a : ℕ) (s : AuthSession) (result : ResultCode) (w : World)
    → IsLinked w
    → lookup a w.auths ≡ some s
    → Returns IsLinked (
        if is_success result then some (set_auth a (send_account_list s) w) else login_failed a s w)
after_login-IsLinked a s result w h e = elim (Bool-cases (is_success result)) [
  | inl b ↦ rw b (stored-IsLinked w h a s (send_account_list s) e (send_account_list-KeepsLink s))
  | inr b ↦ rw b (login_failed-IsLinked a s w h e)
]

on_login_result_unasked :
    (a : ℕ) (s : AuthSession) (result : ResultCode) (w : World)
    → s.pending_login ≡ false
    → on_login_result a s result w ≡ some w
unfolding on_login_result
on_login_result_unasked a s result w b = ground arith

abbrev pub answered : AuthSession → AuthSession
answered s = record s { pending_login = false }

pub on_login_result_asked :
    (a : ℕ) (s : AuthSession) (result : ResultCode) (w : World)
    → s.pending_login ≡ true
    → on_login_result a s result w ≡ (
        reply_to s.game_server_session (reply_login result) (set_auth a (answered s) w) >>= λ told.
        if is_success result
        then some (set_auth a (send_account_list (answered s)) told)
        else login_failed a (answered s) told)
unfolding on_login_result
on_login_result_asked a s result w b = if_true_lem _ _ b

-- The state in which the game server is told of a client's login.
abbrev listed : ℕ → AuthSession → ClientResult → World → World
listed a s p w =
    if is_success p.result
    then set_auth a (record s { accounts = s.accounts ++ account_of p ∷ [] }) w
    else w

module _ (a : ℕ) (s : AuthSession) (p : ClientResult) (w : World) where
  on_client_login_result_alone :
      s.game_server_session ≡ none → on_client_login_result a s p w ≡ some w
  unfolding on_client_login_result
  on_client_login_result_alone k = ground arith

  on_client_login_result_held :
      {g : ℕ}
      → s.game_server_session ≡ some g
      → on_client_login_result a s p w ≡ reply g (shortened p) (listed a s p w)
  unfolding on_client_login_result
  on_client_login_result_held k = ground arith

module _ (w : World) (h : IsLinked w) (a : ℕ) (s : AuthSession)
    (e : lookup a w.auths ≡ some s) where
  pub answered-IsLinked : IsLinked (set_auth a (answered s) w)
  answered-IsLinked =
      stored-IsLinked w h a s (answered s) e (record { game_kept = refl; later_kept = refl })

  pub on_login_result-IsLinked :
      (result : ResultCode) → Returns IsLinked (on_login_result a s result w)
  unfolding on_login_result
  on_login_result-IsLinked result = elim (Bool-cases s.pending_login) [
    | inr b ↦ rw (on_login_result_unasked a s result w b) h
    | inl b ↦ rw (on_login_result_asked a s result w b) (
        Returns-bind (λ told. IsLinked told × (lookup a told.auths ≡ some (answered s))) IsLinked _
          _
          (reply_to-Returns (set_auth a (answered s) w) answered-IsLinked a (answered s)
            s.game_server_session (reply_login result)
            (ground (arith, lookup-put a a (answered s) w.auths)) refl)
          (λ told p. after_login-IsLinked a (answered s) result told p.0 p.1))
  ]

  listed-IsLinked : (p : ClientResult) → IsLinked (listed a s p w)
  listed-IsLinked p = elim (Bool-cases (is_success p.result)) [
    | inl b ↦ rw b (stored-IsLinked w h a s _ e (record { game_kept = refl; later_kept = refl }))
    | inr b ↦ rw b h
  ]

  listed_games : (p : ClientResult) → (listed a s p w).games ≡ w.games
  listed_games p = elim (Bool-cases (is_success p.result)) [ inl b ↦ rw b refl | inr b ↦ rw b refl ]

  pub on_client_login_result-IsLinked :
      (p : ClientResult) → Returns IsLinked (on_client_login_result a s p w)
  on_client_login_result-IsLinked p = elim (Option-cases s.game_server_session) [
    | inl k ↦ rw (on_client_login_result_alone a s p w k) h
    | inr (g, k) ↦ rw (on_client_login_result_held a s p w k) (
        reply-IsLinked (listed a s p w) (listed-IsLinked p) g (shortened p)
          (rw (listed_games p) (live_game w h a g s e k)))
  ]
