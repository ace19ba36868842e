-- ===== src/Auth/Session/Handlers/Result.antt =====
-- The answer of the authentication query: `clientAuthResult` of
-- rzauth/src/AuthServer/ClientSession.cpp.
use rzu.Prelude.{
  ℕ, Bool, true, false, not, ◌||◌, Option, none, some, List, [], ◌∷◌, Bytes, if◌then◌else◌, ◌>>=◌,
}
use rzu.Prelude.Keyed.{lookup, number_key}
use rzu.Auth.State.{
  World, success, not_exist, access_denied, already_exist, client_side_error, send,
  set_client_session, to_client, abort_client, send_log, auth_result, account_duplicate_auth_login,
  account_duplicate_game_login,
}
use rzu.Auth.Client.Registry.{added, refused, try_add_client, remove_client}
use rzu.Auth.Game.Servers.{kick_from_game}

-- A row that the query found: DB_AccountData::Output.
pub record AccountRow : Type 0 where
  pub ok : Bool
  pub account_id : ℕ
  pub auth_ok : Bool
  pub age : ℕ
  pub last_login_server_idx : ℕ
  pub event_code : ℕ
  pub pc_bang : ℕ
  pub server_idx_offset : ℕ
  pub block : Bool

abbrev pub one_number : ℕ → List ℕ
one_number n = n ∷ 0 ∷ 0 ∷ 0 ∷ 0 ∷ 0 ∷ 0 ∷ 0 ∷ 0 ∷ 0 ∷ 0 ∷ []

abbrev pub two_numbers : ℕ → ℕ → List ℕ
two_numbers n m = n ∷ 0 ∷ 0 ∷ m ∷ 0 ∷ 0 ∷ 0 ∷ 0 ∷ 0 ∷ 0 ∷ 0 ∷ []

-- LSF_EULA_ACCEPTED
abbrev pub eula_accepted : ℕ
eula_accepted = 1

-- The account is already there: its session is aborted, or its game server kicks it, or it is
-- forgotten because it had not yet entered the game. A session that is deleted is dangling.
unfoldable pub duplicate_login : Bool → ℕ → Bytes → Bytes → ℕ → World → Option World
unfolding send
duplicate_login strict account_id account ip old w = do
  c ← lookup old w.clients
  elim c.server [
    | none ↦ elim c.client [
      | none ↦ none
      | some t ↦
          if (w.client_sessions t).live
          then some (
              send (abort_client t) (
                send
                  (send_log account_duplicate_auth_login (one_number account_id)
                    (account ∷ ip ∷ c.ip ∷ []))
                  w))
          else none
    ]
    | some g ↦ lookup g w.games >>= λ game.
        (let logged =
            send
              (send_log account_duplicate_game_login (two_numbers account_id game.server_idx)
                (account ∷ ip ∷ c.ip ∷ []))
              w in
          if c.in_game then kick_from_game strict g old logged else remove_client old logged)
  ]

unfoldable pub login_accepted : ℕ → AccountRow → ℕ → World → World
login_accepted s row p w =
    set_client_session s
      (record (w.client_sessions s) {
        client_data = some p;
        last_login_server_id = row.last_login_server_idx;
        server_idx_offset = row.server_idx_offset;
      })
      w

-- A row that passes the tests on the account itself.
unfoldable pub log_in : Bool → ℕ → Bytes → Bytes → AccountRow → World → Option World
unfolding send duplicate_login login_accepted
log_in strict s account ip row w =
    elim (try_add_client
      (record {
        session = some s;
        account = account;
        account_id = row.account_id;
        age = row.age;
        event_code = row.event_code;
        pc_bang = row.pc_bang;
        ip = ip;
      })
      w) [
        | added p w' ↦
            some
              (send (to_client s (auth_result success eula_accepted)) (login_accepted s row p w'))
        | refused old ↦ duplicate_login strict row.account_id account ip old w >>= λ w'.
            some (send (to_client s (auth_result already_exist 0)) w')
      ]

unfoldable pub is_some : Option ℕ → Bool
is_some none = false
is_some (some p) = true

unfoldable pub check_row : Bool → ℕ → Bytes → Bytes → AccountRow → World → Option World
unfolding send log_in is_some
check_row strict s account ip row w =
    if not row.ok || not row.auth_ok
    then some (send (to_client s (auth_result not_exist 0)) w)
    else if row.block
    then some (send (to_client s (auth_result access_denied 0)) w)
    else if is_some (w.client_sessions s).client_data
    then some (send (to_client s (auth_result client_side_error 0)) w)
    else log_in strict s account ip row w

-- The answer of the authentication query, which is then no longer in progress.
unfoldable pub client_auth_result :
    Bool → ℕ → Bytes → Bytes → List AccountRow → World → Option World
unfolding check_row send
client_auth_result strict s account ip rows w =
    let done =
      set_client_session s (record (w.client_sessions s) { query_in_progress = false }) w in
    elim rows [
      | [] ↦ some (send (to_client s (auth_result not_exist 0)) done)
      | row ∷ more ↦ elim more [
        | [] ↦ check_row strict s account ip row done
        | _ ∷ _ ↦ some (send (to_client s (auth_result not_exist 0)) done)
      ]
    ]
