-- ===== src/Auth/Session/Handlers/Account.antt =====
-- The start of an authentication: `onAccount` and `onImbcAccount` of
-- rzauth/src/AuthServer/ClientSession.cpp.
use Prim.Native.Nat.{min}
use rzu.Prelude.{
  ℕ, ◌^◌, Bool, true, not, ◌&&◌, [], Bytes, length, take, leb, ltb, ◌==◌, if◌then◌else◌,
}
use rzu.Prelude.Keyed.{number_key}
use rzu.Auth.State.{
  World, access_denied, client_side_error, CryptMode, crypt_none, crypt_des, crypt_aes, send,
  set_client_session, to_client, query_account, auth_result,
}
use rzu.Auth.Session.Version.{epic_8_1_1_rsa, epic_9_6_7}

-- TS_CA_ACCOUNT and TS_CA_IMBC_ACCOUNT as decoded: the password's field of the client's version.
pub record AccountPacket : Type 0 where
  pub account : Bytes
  pub password_size : ℕ
  pub password : Bytes

abbrev pub shortened : ℕ → Bytes → Bytes
shortened size password =
    if not (size == 0) && ltb size (length password) then take size password else password

-- `Utils::convertToDataArray` with a used size, which it takes for an int.
unfoldable pub convert_to_data_array : Bytes → ℕ → Bytes
convert_to_data_array field used =
    if ltb used (2 ^ 31) then take (min (length field) used) field else []

unfoldable pub account_password : ℕ → AccountPacket → Bytes
unfolding convert_to_data_array
account_password version p =
    if leb epic_9_6_7 version
    then shortened p.password_size p.password
    else if leb epic_8_1_1_rsa version
    then convert_to_data_array p.password p.password_size
    else p.password

unfoldable pub imbc_password : ℕ → AccountPacket → Bytes
imbc_password version p =
    if leb epic_8_1_1_rsa version then shortened p.password_size p.password else p.password

abbrev pub start_query : ℕ → Bytes → CryptMode → Bytes → World → World
start_query s account mode password w =
    send (query_account s account mode password)
      (set_client_session s (record (w.client_sessions s) { query_in_progress = true }) w)

unfoldable pub on_account : ℕ → AccountPacket → World → World
unfolding send account_password
on_account s p w =
    let session = w.client_sessions s in
    if session.query_in_progress
    then send (to_client s (auth_result client_side_error 0)) w
    else start_query s p.account
        (if leb epic_8_1_1_rsa session.packet_version then crypt_aes else crypt_des)
        (account_password session.packet_version p) w

unfoldable pub on_imbc_account : ℕ → Bool → AccountPacket → World → World
unfolding send imbc_password
on_imbc_account s enable_imbc p w =
    let session = w.client_sessions s in
    if session.query_in_progress
    then send (to_client s (auth_result client_side_error 0)) w
    else if not enable_imbc
    then send (to_client s (auth_result access_denied 0)) w
    else start_query s p.account
        (if leb epic_8_1_1_rsa session.packet_version then crypt_aes else crypt_none)
        (imbc_password session.packet_version p) w
