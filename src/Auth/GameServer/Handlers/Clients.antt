-- ===== src/Auth/GameServer/Handlers/Clients.antt =====
-- The players of a game server: `onClientLogin`, `onClientLogout`, `onClientKickFailed` and
-- `onSecurityNoCheck` of rzauth/src/AuthServer/GameServerSession.cpp.
use rzu.Prelude.{
  ℕ, ◌+◌, ◌-◌, ◌%◌, ◌^◌, Bool, true, false, not, ◌&&◌, Option, none, some, List, [], ◌∷◌, Bytes,
  length, leb, ◌==◌, if◌then◌else◌, ◌>>=◌,
}
use rzu.Prelude.Keyed.{lookup, number_key, bytes_key}
use rzu.Auth.State.{
  ClientData, ServerInfo, GameData, World, ResultCode, success, access_denied, LoginFields, Packet,
  send, set_game_session, to_game, send_log, query_security_no, client_login, client_login_extended,
  security_no_check, security_no_check_epic5, account_login, account_logout,
}
use rzu.Auth.Client.Registry.{remove_client, u32_mod}
use rzu.Auth.Client.Moves.{get_client, connected_to_game}
use rzu.Auth.Game.Servers.{is_ready}
use rzu.Auth.GameServer.Packets.{SecurityPacket, security_packet_size, convert_to_string}

abbrev pub no_fields : LoginFields
no_fields = record { account_id = 0; pc_bang_user = 0; event_code = 0; age = 0 }

abbrev pub client_fields : ClientData → LoginFields
client_fields c = record {
  account_id = c.account_id;
  pc_bang_user = if c.pc_bang == 0 then 0 else 1;
  event_code = c.event_code;
  age = c.age;
}

abbrev pub or_zero : Option ℕ → ℕ
or_zero none = 0
or_zero (some n) = n

-- `fillClientLoginResult` and its extended form.
unfoldable pub login_packet : Bool → Bytes → ResultCode → Option ClientData → Packet
login_packet false account success (some c) = client_login account success (client_fields c)
login_packet true account success (some c) =
    client_login_extended account success (client_fields c) c.ip (or_zero c.login_time % u32_mod)
login_packet false account result c = client_login account result no_fields
login_packet true account result c = client_login_extended account result no_fields [] 0

unfoldable pub key_matches : Option ℕ → ℕ → Bool
key_matches none key = false
key_matches (some k) key = k == key

-- The tests of `onClientLogin` on a known client, in their order.
unfoldable pub may_login : ℕ → GameData → ClientData → ℕ → World → Bool
unfolding key_matches
may_login g game c key w = elim c.server [
  | none ↦ false
  | some h ↦ h == g && (is_ready g game w && (key_matches c.one_time_password key && not c.in_game))
]

abbrev pub login_numbers : ClientData → ServerInfo → List ℕ
login_numbers c i =
    c.account_id ∷ c.pc_bang ∷ c.event_code ∷ i.server_idx ∷ c.age ∷ 0 ∷ 0 ∷ 0 ∷ 0 ∷ 0 ∷ 0 ∷ []

unfoldable pub refuse_login : ℕ → Bytes → Option ClientData → World → World
unfolding login_packet send
refuse_login s account c w =
    send (to_game s (login_packet (w.game_sessions s).auto_reconnect account access_denied c)) w

unfoldable pub accept_login : ℕ → Bytes → ℕ → GameData → ℕ → World → Option World
unfolding login_packet send
accept_login s account now game p w = do
  w' ← connected_to_game p now w
  c ← lookup p w'.clients
  let logged = send (send_log account_login (login_numbers c game.info) (c.account ∷ c.ip ∷ [])) w'
  some (
      send (to_game s (login_packet (w.game_sessions s).auto_reconnect account success (some c)))
        logged)

unfoldable pub on_client_login : ℕ → Bytes → ℕ → ℕ → World → Option World
unfolding refuse_login accept_login may_login
on_client_login s field key now w =
    let account = convert_to_string field 60 in
    elim (w.links.game_of s) [
      | none ↦ some (refuse_login s account none w)
      | some g ↦
          if leb 61 (length account)
          then some (refuse_login s account none w)
          else elim (get_client account w) [
            | none ↦ some (refuse_login s account none w)
            | some p ↦ lookup p w.clients >>= λ c. lookup g w.games >>= λ game.
                if may_login g game c key w
                then accept_login s account now game p w
                else some (refuse_login s account (some c) w)
          ]
    ]

-- `time(nullptr) - loginTime` as an unsigned 64-bit number.
abbrev pub played : ℕ → ClientData → ℕ
played now c = (now + 2 ^ 64 - or_zero c.login_time) % 2 ^ 64

abbrev pub logout_numbers : ClientData → ServerInfo → ℕ → List ℕ
logout_numbers c i now =
    c.account_id ∷ 0 ∷ 0 ∷ i.server_idx ∷ c.pc_bang ∷ 0 ∷ 0 ∷ 0 ∷ 0 ∷ 0 ∷ played now c ∷ []

abbrev pub logout_reason : ClientData → Bytes
logout_reason c =
    if c.kick_requested
    then b'D' ∷ b'K' ∷ b'I' ∷ b'C' ∷ b'K' ∷ []
    else b'N' ∷ b'O' ∷ b'R' ∷ b'M' ∷ b'A' ∷ b'L' ∷ []

-- Both handlers log the end of the player's session, with their own texts, and forget the player.
unfoldable pub end_of_client : (ClientData → List Bytes) → ℕ → Bytes → ℕ → World → Option World
unfolding send
end_of_client texts s field now w = elim (w.links.game_of s) [
  | none ↦ some w
  | some g ↦ elim (get_client (convert_to_string field 60) w) [
    | none ↦ some w
    | some p ↦ lookup p w.clients >>= λ c. lookup g w.games >>= λ game.
        remove_client p
          (send (send_log account_logout (logout_numbers c game.info now) (texts c)) w)
  ]
]

unfoldable pub on_client_logout : ℕ → Bytes → ℕ → World → Option World
unfolding end_of_client
on_client_logout = end_of_client (λ c. c.account ∷ c.ip ∷ [] ∷ logout_reason c ∷ [])

unfoldable pub on_client_kick_failed : ℕ → Bytes → ℕ → World → Option World
unfolding end_of_client
on_client_kick_failed =
    end_of_client (λ c. c.account ∷ [] ∷ [] ∷ (b'F' ∷ b'K' ∷ b'I' ∷ b'C' ∷ b'K' ∷ []) ∷ [])

unfoldable pub on_security_no_check : ℕ → SecurityPacket → World → World
unfolding send
on_security_no_check s packet w =
    let has_mode = leb security_packet_size packet.size in
    let session = w.game_sessions s in
    send
      (query_security_no s (convert_to_string packet.account 60)
        (convert_to_string packet.security 18) (if has_mode then packet.mode else 0))
      (if has_mode
        then w
        else set_game_session s (record session { security_no_send_mode = false }) w)

-- The answer to a query that found so many rows.
unfoldable pub on_security_no_check_result : ℕ → Bytes → ℕ → ℕ → World → World
unfolding send
on_security_no_check_result s account mode rows w =
    send
      (to_game s (
        if (w.game_sessions s).security_no_send_mode
        then security_no_check account mode (rows == 1)
        else security_no_check_epic5 account (rows == 1)))
      w
