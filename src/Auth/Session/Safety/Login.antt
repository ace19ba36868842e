-- ===== src/Auth/Session/Safety/Login.antt =====
-- The answer of an authentication query (`clientAuthResult` of ClientSession.cpp) is safe.
use rzu.Prelude.{
  Returns, Returns-bind, ℕ, ◌≡◌, refl, Bool, true, none, some, List, [], ◌∷◌, Bytes, arith, ◌>>=◌,
  Option-cases, inl, inr,
}
use rzu.Prelude.Keyed.{lookup, lookup-put, number_key, bytes_key}
use rzu.Auth.State.{
  World, ClientSession, send, set_client_session, to_client, auth_result, already_exist, not_exist,
  access_denied, client_side_error,
}
use rzu.Auth.Client.Registry.{NewClient, new_client, try_add_client, register, to_lower}
use rzu.Auth.Client.Consistency.{next_address_free}
use rzu.Auth.Session.Handlers.{
  duplicate_login, log_in, login_accepted, check_row, client_auth_result, AccountRow,
}
use rzu.Auth.Invariant.Defs.{IsSafe, send-IsSafe, frame-IsSound}
use rzu.Auth.Invariant.Players.{register-IsSound}
use rzu.Auth.Session.Safety.Players.{logged-IsSafe, duplicate_login-IsSafe}

-- A new player is held by the session that logged it in.
pub accepted-IsSafe :
    (s : ℕ) (row : AccountRow) (n : NewClient) (w : World)
    → IsSafe w
    → n.session ≡ some s
    → (w.client_sessions s).live ≡ true
    → (w.client_sessions s).client_data ≡ none
    → lookup n.account_id w.connected_clients ≡ none
    → lookup (to_lower n.account) w.connected_clients_by_name ≡ none
    → IsSafe (login_accepted s row w.next_address (register n w))
unfolding login_accepted register
accepted-IsSafe s row n w h held live idle free_id free_name = record {
  sound =
      frame-IsSound (register n w) _ _ _ (register-IsSound n s w h.sound held free_id free_name);
  owned = record {
    points = λ t q e. ground (
      arith,
      h.owned.points t q,
      lookup-put w.next_address q (new_client n) w.clients,
      next_address_free w h.sound.consistent,
    );
    holds = λ q t c e m. ground (
      arith,
      e,
      m,
      held,
      live,
      idle,
      h.owned.holds q t c,
      lookup-put w.next_address q (new_client n) w.clients,
    );
  };
}

pub log_in-IsSafe :
    (strict : Bool) (s : ℕ) (account ip : Bytes) (row : AccountRow) (w : World)
    → IsSafe w
    → (w.client_sessions s).live ≡ true
    → (w.client_sessions s).client_data ≡ none
    → Returns IsSafe (log_in strict s account ip row w)
unfolding log_in try_add_client
log_in-IsSafe strict s account ip row w h live idle =
    elim (Option-cases (lookup row.account_id w.connected_clients)) [
      | inr (old, e) ↦
          rw (e, log_in)
            (taken old (λ n. ground (arith, h.sound.consistent.by_id row.account_id old e)))
      | inl e ↦ elim (Option-cases (lookup (to_lower account) w.connected_clients_by_name)) [
        | inr (old, f) ↦
            rw (e, log_in)
              (rw (f, log_in)
                (taken old
                  (λ n. ground (arith, h.sound.consistent.by_name (to_lower account) old f))))
        | inl f ↦
            rw (e, log_in)
              (rw (f, log_in) (logged-IsSafe _ _ (accepted-IsSafe s row _ w h refl live idle e f)))
      ]
    ]
  where
    taken :
        (old : ℕ)
        → (lookup old w.clients ≡ none → ⊥)
        → Returns IsSafe (
            duplicate_login strict row.account_id account ip old w >>= λ w'.
            some (send (to_client s (auth_result already_exist 0)) w'))
    taken old live = elim (Option-cases (lookup old w.clients)) [
      | inl n ↦ absurd (live n)
      | inr (c, n) ↦
          Returns-bind IsSafe IsSafe _ _
            (duplicate_login-IsSafe strict row.account_id account ip old c w h n)
            (λ w' k. send-IsSafe _ w' k)
    ]

pub check_row-IsSafe :
    (strict : Bool) (s : ℕ) (account ip : Bytes) (row : AccountRow) (w : World)
    → IsSafe w
    → (w.client_sessions s).live ≡ true
    → Returns IsSafe (check_row strict s account ip row w)
unfolding check_row send
check_row-IsSafe strict s account ip row w h live = ground (
  arith,
  log_in-IsSafe strict s account ip row w h live,
  send-IsSafe (to_client s (auth_result not_exist 0)) w h,
  send-IsSafe (to_client s (auth_result access_denied 0)) w h,
  send-IsSafe (to_client s (auth_result client_side_error 0)) w h,
)

-- A write to a session's fields that leaves its player alone.
pub session-IsSafe :
    (s : ℕ) (c : ClientSession) (w : World)
    → c.client_data ≡ (w.client_sessions s).client_data
    → c.live ≡ (w.client_sessions s).live
    → IsSafe w
    → IsSafe (set_client_session s c w)
session-IsSafe s c w same there h = record {
  sound = frame-IsSound w _ _ _ h.sound;
  owned = record {
    points = λ t q e. ground (arith, h.owned.points t q, h.owned.points s q);
    holds = λ q t d e m. ground (arith, same, there, h.owned.holds q t d e m);
  };
}

-- Whatever rows the authentication query found, its answer is handled in a safe state without the
-- read of a null or dangling pointer, and the state stays safe.
pub client_auth_result-IsSafe :
    (strict : Bool) (s : ℕ) (account ip : Bytes) (rows : List AccountRow) (w : World)
    → IsSafe w
    → (w.client_sessions s).live ≡ true
    → Returns IsSafe (client_auth_result strict s account ip rows w)
unfolding client_auth_result send
client_auth_result-IsSafe strict s account ip [] w h live =
    logged-IsSafe _ _ (session-IsSafe s _ w refl refl h)
client_auth_result-IsSafe strict s account ip (row ∷ []) w h live =
    check_row-IsSafe strict s account ip row _ (session-IsSafe s _ w refl refl h)
      (ground (arith, live))
client_auth_result-IsSafe strict s account ip (row ∷ next ∷ rest) w h live =
    logged-IsSafe _ _ (session-IsSafe s _ w refl refl h)
