-- ===== src/Auth/Database/Account.antt =====
-- rzauth/src/AuthServer/DB_Account.cpp: the check of an account's name and password. OpenSSL's AES and
-- MD5 and the DES cipher are parameters; the salt is one of the configuration.
use rzu.Prelude.{
  ℕ, ◌+◌, ◌-◌, ◌*◌, ◌/◌, ◌%◌, Bool, true, not, ◌&&◌, ◌||◌, Option, none, some, [], ◌∷◌, ◌++◌, Bytes,
  length, take, leb, ltb, ◌==◌, if◌then◌else◌, ◌>>=◌,
}
use mathlib.Core.Bool.{decide}
use rzu.Prelude.Keyed.{bytes_discrete}
use rzu.Auth.State.{CryptMode, crypt_none, crypt_des, crypt_aes}

abbrev is_between : ℕ → ℕ → ℕ → Bool
is_between low high c = leb low c && leb c high

abbrev pub is_alphanumeric : ℕ → Bool
is_alphanumeric c = is_between b'a' b'z' c || (is_between b'A' b'Z' c || is_between b'0' b'9' c)

abbrev pub are_alphanumeric : Bytes → Bool
are_alphanumeric [] = true
are_alphanumeric (c ∷ rest) = is_alphanumeric c && are_alphanumeric rest

unfoldable pub is_account_name_valid : Bytes → Bool
is_account_name_valid account = not (length account == 0) && are_alphanumeric account

abbrev pub hex_digit : ℕ → ℕ
hex_digit n = if ltb n 10 then n + b'0' else n - 10 + b'a'

-- `setPasswordMD5`: both digits of each byte.
unfoldable pub set_password_md5 : Bytes → Bytes
set_password_md5 [] = []
set_password_md5 (c ∷ rest) = hex_digit (c / 16) ∷ hex_digit (c % 16) ∷ set_password_md5 rest

-- A text in memory ends at its first zero.
abbrev pub c_string : Bytes → Bytes
c_string [] = []
c_string (c ∷ rest) = if c == 0 then [] else c ∷ c_string rest

-- The ciphers: AES on whole blocks, which may fail, and DES in place.
pub record Ciphers : Type 0 where
  pub decrypt_aes : Bytes → Option Bytes
  pub decrypt_des : Bytes → Bytes
  pub md5 : Bytes → Bytes

-- sizeof(password)
abbrev password_size : ℕ
password_size = 80

-- The blocks of 16 bytes that are whole.
abbrev whole_blocks : Bytes → Bytes
whole_blocks crypted = take (length crypted / 16 * 16) crypted

-- The password's buffer, or a refusal.
unfoldable pub clear_password : Ciphers → CryptMode → Bytes → Option Bytes
clear_password ciphers crypt_aes crypted =
    if ltb (password_size - 16) (length crypted)
    then none
    else (ciphers.decrypt_aes (whole_blocks crypted) >>= λ clear.
        if leb password_size (length clear) then none else some clear)
clear_password ciphers crypt_none crypted =
    if leb password_size (length crypted) then none else some crypted
clear_password ciphers crypt_des crypted =
    if leb password_size (length crypted) then none else some (ciphers.decrypt_des crypted)

-- The digest that the query compares.
unfoldable pub decrypt_password : Ciphers → Bytes → CryptMode → Bytes → Option Bytes
unfolding clear_password set_password_md5
decrypt_password ciphers salt mode crypted = clear_password ciphers mode crypted >>= λ clear.
    some (set_password_md5 (ciphers.md5 (salt ++ c_string clear)))

-- `none`: no query is made.
unfoldable pub on_pre_process : Ciphers → Bool → Bytes → Bytes → CryptMode → Bytes → Option Bytes
unfolding is_account_name_valid decrypt_password
on_pre_process ciphers restrict_characters salt account mode crypted =
    if restrict_characters && not (is_account_name_valid account)
    then none
    else decrypt_password ciphers salt mode crypted

-- A row of the table, as far as the test reads it; `ok` is false at first.
pub record Row : Type 0 where
  pub account_id : ℕ
  pub password : Bytes
  pub null_password : Bool

abbrev pub same_text : Bytes → Bytes → Bool
same_text a b = decide (bytes_discrete a b)

-- Whether `onRowDone` makes the row `ok`, for the digest of the client's password.
unfoldable pub on_row_done : Bytes → Row → Bool
on_row_done given row =
    not (row.account_id == 0xFFFFFFFF)
    && (row.null_password && length row.password == 0 || same_text given row.password)
