-- ===== src/Reconnect/Safety/Packets.antt =====
-- The packets of game servers and of the authentication server (rzgamereconnect/src/AuthServer).
use rzu.Prelude.{
  Returns, Returns-mono, ℕ, suc, ◌≡◌, ◌↔◌, refl, ◌==◌, true, false, Option, none, some, Bytes,
  if◌then◌else◌, take, arith, Bool-cases, Option-cases, inl, inr,
}
use rzu.Prelude.Keyed.{Map, lookup, put, number_key, lookup-put}
use rzu.Auth.State.{ServerInfo, invalid_argument, access_denied}
use rzu.Reconnect.State.{
  AuthSession, GameServerSession, World, GamePacket, AuthPacket, login_result, client_result,
  other_packet, reply_login, reply_client, reply_other, server_login, ask_login, tell_logout,
  relayed, client_login,
}
use rzu.Reconnect.AuthSession.{send_packet, logout_client}
use rzu.Reconnect.GameServer.{
  reply, set_auth, with_auth_if, on_auth_packet, new_auth, local_info, on_server_login,
  on_client_login, on_game_packet,
}
use rzu.Reconnect.Links.{
  game_of_auth, auth_of_game, game_at, auth_at, IsLinked, KeepsLink, send_packet-KeepsLink,
  logout_client-KeepsLink,
}
use rzu.Reconnect.Safety.Replies.{
  held_lem, reply-IsLinked, reply_to-Returns, stored-IsLinked, with_auth-IsLinked,
}
use rzu.Reconnect.Safety.Login.{on_login_result-IsLinked, on_client_login_result-IsLinked}

-- Two partial maps, each the other's inverse, stay so when a new pair joins.
joined_pair :
    (f k : ℕ → Option ℕ)
    → ((a g : ℕ) → (f a ≡ some g) ↔ (k g ≡ some a))
    → (n g : ℕ) → f n ≡ none
    → k g ≡ none
    → (b j : ℕ)
    → ((if n == b then some g else f b) ≡ some j) ↔ ((if g == j then some n else k j) ≡ some b)
joined_pair f k h n g free idle b j =
    (λ p. ground (arith, (h b j).0), λ p. ground (arith, (h b j).1, (h n j).1))

module _ (w : World) (g : ℕ) (name : Bytes) (key : ℕ) (t : GameServerSession) where
  on_client_login_alone : t.auth_session ≡ none → on_client_login g name key t w ≡ some w
  unfolding on_client_login
  on_client_login_alone k = ground arith

  module _ {a : ℕ} (s : AuthSession) (k : t.auth_session ≡ some a)
      (found : lookup a w.auths ≡ some s) where
    on_client_login_refused :
        s.synchronized ≡ false
        → on_client_login g name key t w
          ≡ reply g (reply_client (take 60 name) access_denied 0 0 0 0 0 0) w
    unfolding on_client_login
    on_client_login_refused b = ground arith

    on_client_login_sent :
        s.synchronized ≡ true
        → on_client_login g name key t w
          ≡ some (set_auth a (send_packet (client_login name key) s) w)
    unfolding on_client_login
    on_client_login_sent b = ground arith

module _ (w : World) (g : ℕ) (guid : Bytes) (info : ServerInfo) (t : GameServerSession) where
  on_server_login_again :
      {a : ℕ}
      → t.auth_session ≡ some a
      → on_server_login g guid info t w ≡ reply g (reply_login invalid_argument) w
  unfolding on_server_login
  on_server_login_again k = ground arith

  on_server_login_new :
      t.auth_session ≡ none
      → (servers : Map ℕ ℕ) × (on_server_login g guid info t w
          ≡ some (record w {
            auths = put w.next (new_auth g (local_info info) guid) w.auths;
            games =
                put g
                  (record t { auth_session = some w.next; server_idx = info.server_idx })
                  w.games;
            servers = servers;
            next = suc w.next;
          }))
  unfolding on_server_login
  on_server_login_new k = elim (Option-cases (lookup info.server_idx w.servers)) [
    | inl new ↦ (put info.server_idx w.next w.servers, ground arith)
    | inr (b, old) ↦ (w.servers, ground arith)
  ]

module _ (w : World) (h : IsLinked w) where
  pub auth_packet-IsLinked :
      (a : ℕ) (s : AuthSession) (packet : AuthPacket)
      → lookup a w.auths ≡ some s
      → Returns IsLinked (on_auth_packet a packet w)
  unfolding on_auth_packet
  auth_packet-IsLinked a s (login_result result) e =
      rw (e, on_auth_packet) (on_login_result-IsLinked w h a s e result)
  auth_packet-IsLinked a s (client_result p) e =
      rw (e, on_auth_packet) (on_client_login_result-IsLinked w h a s e p)
  auth_packet-IsLinked a s (other_packet id body) e =
      rw (e, on_auth_packet)
        (Returns-mono (λ told. IsLinked told × (lookup a told.auths ≡ some s)) IsLinked _
          (λ told p. p.0)
          (reply_to-Returns w h a s s.game_server_session (reply_other id body) e refl))

  -- A call on the session that a game server holds, if it holds one.
  with_held-IsLinked :
      (g : ℕ) (t : GameServerSession) (o : Option ℕ) (f : AuthSession → AuthSession)
      → ((s : AuthSession) → KeepsLink s (f s))
      → lookup g w.games ≡ some t
      → t.auth_session ≡ o
      → Returns IsLinked (with_auth_if o f w)
  with_held-IsLinked g t none f keeps e k = h
  with_held-IsLinked g t (some a) f keeps e k =
      let (s, found, back) = held_lem w h a g t e k in
      with_auth-IsLinked w h a f keeps (rw found (λ no. cc))

  -- The new session takes an address that nothing has, and holds the game server that had none.
  joined-IsLinked :
      (g : ℕ) (t u : GameServerSession) (r : AuthSession) (servers : Map ℕ ℕ)
      → lookup g w.games ≡ some t
      → t.auth_session ≡ none
      → r.game_server_session ≡ some g
      → r.delete_later ≡ false
      → u.auth_session ≡ some w.next
      → IsLinked (record w {
        auths = put w.next r w.auths;
        games = put g u w.games;
        servers = servers;
        next = suc w.next;
      })
  joined-IsLinked g t u r servers e k held stays holds = record {
    mutual_links = λ b j.
        let auths_same : game_of_auth (lookup b (put w.next r w.auths))
            ≡ (if w.next == b then some g else game_at w b) =
          ground (arith, lookup-put w.next b r w.auths) in
        let games_same : auth_of_game (lookup j (put g u w.games))
            ≡ (if g == j then some w.next else auth_at w j) =
          ground (arith, lookup-put g j u w.games) in
        rw (auths_same, games_same)
          (joined_pair (game_at w) (auth_at w) h.mutual_links w.next g
            (rw (h.fresh_auths w.next (omega arith)) refl) (rw e k) b j);
    fresh_auths = λ b le. ground (arith, lookup-put w.next b r w.auths, h.fresh_auths b);
    fresh_games =
        λ b le. ground (arith, lookup-put g b u w.games, h.fresh_games b, h.fresh_games g);
    ends_alone = λ b s' found. ground (arith, lookup-put w.next b r w.auths, h.ends_alone b s');
  }

  client_login-IsLinked :
      (g : ℕ) (name : Bytes) (key : ℕ) (t : GameServerSession)
      → lookup g w.games ≡ some t
      → Returns IsLinked (on_client_login g name key t w)
  client_login-IsLinked g name key t e = elim (Option-cases t.auth_session) [
    | inl k ↦ rw (on_client_login_alone w g name key t k) h
    | inr (a, k) ↦
        let (s, found, back) = held_lem w h a g t e k in
        elim (Bool-cases s.synchronized) [
          | inl b ↦
              rw (on_client_login_sent w g name key t s k found b)
                (stored-IsLinked w h a s _ found (send_packet-KeepsLink (client_login name key) s))
          | inr b ↦
              rw (on_client_login_refused w g name key t s k found b)
                (reply-IsLinked w h g _ (rw e (λ no. cc)))
        ]
  ]

  server_login-IsLinked :
      (g : ℕ) (guid : Bytes) (info : ServerInfo) (t : GameServerSession)
      → lookup g w.games ≡ some t
      → Returns IsLinked (on_server_login g guid info t w)
  server_login-IsLinked g guid info t e = elim (Option-cases t.auth_session) [
    | inr (a, k) ↦
        rw (on_server_login_again w g guid info t k) (reply-IsLinked w h g _ (rw e (λ no. cc)))
    | inl k ↦
        let (servers, new) = on_server_login_new w g guid info t k in
        rw new
          (joined-IsLinked g t _ (new_auth g (local_info info) guid) servers e k refl refl refl)
  ]

  pub game_packet-IsLinked :
      (g : ℕ) (guid : Bytes) (t : GameServerSession) (packet : GamePacket)
      → lookup g w.games ≡ some t
      → Returns IsLinked (on_game_packet g guid packet w)
  unfolding on_game_packet
  game_packet-IsLinked g guid t (server_login info) e =
      rw (e, on_game_packet) (server_login-IsLinked g guid info t e)
  game_packet-IsLinked g guid t (ask_login name key) e =
      rw (e, on_game_packet) (client_login-IsLinked g name key t e)
  game_packet-IsLinked g guid t (tell_logout name time) e =
      rw (e, on_game_packet)
        (with_held-IsLinked g t t.auth_session (logout_client name time)
          (logout_client-KeepsLink name time) e refl)
  game_packet-IsLinked g guid t (relayed m) e =
      rw (e, on_game_packet)
        (with_held-IsLinked g t t.auth_session (send_packet m) (send_packet-KeepsLink m) e refl)
