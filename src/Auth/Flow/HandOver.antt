-- ===== src/Auth/Flow/HandOver.antt =====
-- From a client's session to a game server: `onSelectServer` (ClientSession.cpp), then `onClientLogin`
-- (GameServerSession.cpp).
use rzu.Prelude.{
  Returns, ℕ, ◌<◌, ◌%◌, ◌^◌, ◌≡◌, refl, Bool, true, false, Option, none, some, Bytes, arith, length,
  leb, ◌==◌, ◌++◌, [], ◌∷◌, if◌then◌else◌, ◌>>=◌, Bool-cases, Option-cases, inl, inr,
}
use rzu.Prelude.Keyed.{lookup, adjust, lookup-adjust, number_key, bytes_key}
use rzu.Auth.State.{ClientData, GameData, World, send, set_client_session, update_last_server_idx}
use rzu.Auth.Client.Registry.{to_lower}
use rzu.Auth.Client.Moves.{
  get_client, to_server, enter_game, connected_to_game_lem, switch_client_to_server,
}
use rzu.Auth.GameServer.Packets.{convert_to_string, length-convert_to_string}
use rzu.Auth.GameServer.Handlers.{
  may_login, key_matches, refuse_login, accept_login, on_client_login,
}
use rzu.Auth.GameServer.Safety.Clients.{may_login-server, lookup-entered}
use rzu.Auth.Session.Version.{epic_8_1_1_rsa}
use rzu.Auth.Session.Handlers.{answer_selection, on_select_server}
use rzu.Auth.Invariant.Defs.{IsSafe}

-- The player after a login that was accepted, or not.
abbrev pub after_login : Bool → ℕ → ClientData → ClientData
after_login accepted now c = if accepted then enter_game now c else c

module _ (s g p key now : ℕ) (field : Bytes) (c : ClientData) (game : GameData) (w : World)
    (e : w.links.game_of s ≡ some g) (m : get_client (convert_to_string field 60) w ≡ some p)
    (n : lookup p w.clients ≡ some c) (k : lookup g w.games ≡ some game) where
  short_name : leb 61 (length (convert_to_string field 60)) ≡ false
  short_name = let bound = length-convert_to_string field 60 in ground arith

  accepted-lookup :
      c.server ≡ some g
      → Returns
          (λ w'. lookup p w'.clients ≡ some (enter_game now c))
          (accept_login s (convert_to_string field 60) now game p w)
  unfolding accept_login send
  accepted-lookup on =
      rw (connected_to_game_lem p now g c w n on, accept_login)
        (rw (lookup-entered p now g c w n, accept_login) (lookup-entered p now g c w n))

  decided :
      Returns
        (λ w'. lookup p w'.clients ≡ some (after_login (may_login g game c key w) now c))
        (if may_login g game c key w
          then accept_login s (convert_to_string field 60) now game p w
          else some (refuse_login s (convert_to_string field 60) (some c) w))
  unfolding refuse_login send
  decided = elim (Bool-cases (may_login g game c key w)) [
    | inl may ↦ rw may (accepted-lookup (may_login-server g game c key w may).0)
    | inr out ↦ rw out n
  ]

  -- When a session with a game server sends the name of a known player, the player is let in
  -- exactly if `may_login` holds: handed over to this server, which is reachable and ready, with
  -- this key, and not in game; else the player is left as it was.
  pub on_client_login-decides :
      Returns
        (λ w'. lookup p w'.clients ≡ some (after_login (may_login g game c key w) now c))
        (on_client_login s field key now w)
  unfolding on_client_login
  on_client_login-decides =
      rw (e, on_client_login)
        (rw (short_name, on_client_login) (rw (m, on_client_login) (rw (n, k) decided)))

-- The answer to a selection only sends.
answer_selection-sends :
    (encrypt : ℕ → Option Bytes) (s key : ℕ) (w : World)
    → ((answer_selection encrypt s key w).clients ≡ w.clients)
      × ((answer_selection encrypt s key w).games ≡ w.games)
      × ((answer_selection encrypt s key w).links ≡ w.links)
      × ((answer_selection encrypt s key w).connected_clients_by_name ≡ w.connected_clients_by_name)
unfolding answer_selection send
answer_selection-sends encrypt s key w =
    elim (Bool-cases (leb epic_8_1_1_rsa (w.client_sessions s).packet_version)) [
      | inr old ↦ rw (old, answer_selection) (refl, refl, refl, refl)
      | inl rsa ↦ elim (Option-cases (encrypt key)) [
        | inl none_left ↦
            rw (rsa, answer_selection) (rw (none_left, answer_selection) (refl, refl, refl, refl))
        | inr (secret, some_left) ↦
            rw (rsa, answer_selection) (rw (some_left, answer_selection) (refl, refl, refl, refl))
      ]
    ]

may_login-handed_over :
    (g s : ℕ) (game : GameData) (c : ClientData) (key given : ℕ) (w : World)
    → w.links.session_of g ≡ some s
    → game.ready ≡ true
    → c.in_game ≡ false
    → may_login g game (to_server g key c) given w ≡ (key == given)
unfolding may_login key_matches
may_login-handed_over g s game c key given w e ready out = ground arith

-- The state that a selection leaves, but for its answer.
abbrev handed : ℕ → ℕ → ℕ → ℕ → ℕ → ClientData → World → World
handed t server_idx key p g c w =
    set_client_session t (record (w.client_sessions t) { client_data = none })
      (record w {
        clients = adjust p (to_server g key) w.clients;
        sent = w.sent ++ update_last_server_idx c.account_id server_idx ∷ [];
      })

on_select_server-hands :
    (encrypt : ℕ → Option Bytes) (t server_idx key p g : ℕ) (c : ClientData) (w : World)
    → server_idx < 2 ^ 16
    → (w.client_sessions t).client_data ≡ some p
    → lookup p w.clients ≡ some c
    → lookup server_idx w.servers ≡ some g
    → on_select_server encrypt t server_idx key w
      ≡ some (answer_selection encrypt t key (handed t server_idx key p g c w))
unfolding on_select_server send switch_client_to_server
on_select_server-hands encrypt t server_idx key p g c w small mine n listed =
    let fits : server_idx % 2 ^ 16 ≡ server_idx = omega arith in ground arith

handed-decides :
    (encrypt : ℕ → Option Bytes) (t s server_idx key given now p g : ℕ) (field : Bytes)
    (c : ClientData) (game : GameData) (w : World)
    → IsSafe w
    → (w.client_sessions t).client_data ≡ some p
    → lookup p w.clients ≡ some c
    → lookup g w.games ≡ some game
    → game.ready ≡ true
    → w.links.game_of s ≡ some g
    → to_lower (convert_to_string field 60) ≡ to_lower c.account
    → Returns
        (λ w'. lookup p w'.clients ≡ some (after_login (key == given) now (to_server g key c)))
        (on_client_login s field given now
          (answer_selection encrypt t key (handed t server_idx key p g c w)))
unfolding get_client
handed-decides encrypt t s server_idx key given now p g field c game w h mine n k ready e name =
    let same = answer_selection-sends encrypt t key (handed t server_idx key p g c w) in
    let out : c.in_game ≡ false = ground (arith, h.owned.points t p mine, h.sound.placed p) in
    let linked : w.links.session_of g ≡ some s = h.sound.linked.game_end s g e in
    rw
      (may_login-handed_over g s game c key given
        (answer_selection encrypt t key (handed t server_idx key p g c w)) (rw same.2 linked) ready
        out)
      at
      (on_client_login-decides s g p given now field (to_server g key c) game
        (answer_selection encrypt t key (handed t server_idx key p g c w)) (rw same.2 e)
        (rw (same.3, name) ((h.sound.consistent.listed p c n).1))
        (rw same.0 (ground (arith, lookup-adjust p p (to_server g key) w.clients))) (rw same.1 k))

-- From a safe state, a client that selects a ready server with a key, and whose name that server
-- then sends, gets into the game exactly if the server sends the same key.
pub on_client_login-on_select_server :
    (encrypt : ℕ → Option Bytes) (t s server_idx key given now p g : ℕ) (field : Bytes)
    (c : ClientData) (game : GameData) (w : World)
    → IsSafe w
    → server_idx < 2 ^ 16
    → (w.client_sessions t).client_data ≡ some p
    → lookup p w.clients ≡ some c
    → lookup server_idx w.servers ≡ some g
    → lookup g w.games ≡ some game
    → game.ready ≡ true
    → w.links.game_of s ≡ some g
    → to_lower (convert_to_string field 60) ≡ to_lower c.account
    → Returns
        (λ w'. lookup p w'.clients ≡ some (after_login (key == given) now (to_server g key c)))
        (on_select_server encrypt t server_idx key w >>= on_client_login s field given now)
on_client_login-on_select_server encrypt t s server_idx key given now p g field c game w h small
      mine n listed k ready e name =
    rw (on_select_server-hands encrypt t server_idx key p g c w small mine n listed) (
      handed-decides encrypt t s server_idx key given now p g field c game w h mine n k ready e
        name)
