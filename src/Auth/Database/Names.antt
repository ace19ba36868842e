-- ===== src/Auth/Database/Names.antt =====
-- What rzauth/src/AuthServer/DB_Account.cpp lets through to the query of an account.
use rzu.Prelude.{ℕ, ◌+◌, ◌≤◌, ◌≡◌, ◌⊎◌, true, some, [], ◌∷◌, Bytes, length, arith}
use rzu.Auth.State.{CryptMode, crypt_none, crypt_des, crypt_aes}
use rzu.Auth.Database.Account.{
  Ciphers, clear_password, on_pre_process, is_account_name_valid, is_alphanumeric, are_alphanumeric,
}

-- A letter or a digit of ASCII.
abbrev pub IsAlphanumeric : ℕ → Type 0
IsAlphanumeric c = ((97 ≤ c) × (c ≤ 122)) ⊎ (((65 ≤ c) × (c ≤ 90)) ⊎ ((48 ≤ c) × (c ≤ 57)))

abbrev pub AreAlphanumeric : Bytes → Type 0
AreAlphanumeric [] = Unit
AreAlphanumeric (c ∷ rest) = IsAlphanumeric c × AreAlphanumeric rest

is_alphanumeric_lem : (c : ℕ) → is_alphanumeric c ≡ true → IsAlphanumeric c
is_alphanumeric_lem c e = ground arith

are_alphanumeric_lem : (text : Bytes) → are_alphanumeric text ≡ true → AreAlphanumeric text
are_alphanumeric_lem [] e = tt
are_alphanumeric_lem (c ∷ rest) e =
    (is_alphanumeric_lem c (ground arith), are_alphanumeric_lem rest (ground arith))

is_account_name_valid_lem :
    (text : Bytes) → is_account_name_valid text ≡ true → (1 ≤ length text) × AreAlphanumeric text
unfolding is_account_name_valid
is_account_name_valid_lem text e = (ground arith, are_alphanumeric_lem text (ground arith))

-- With restricted names, a query of an account is made only for a name that is not empty and
-- holds letters and digits of ASCII alone.
pub on_pre_process-AreAlphanumeric :
    (ciphers : Ciphers) (salt account crypted given : Bytes) (mode : CryptMode)
    → on_pre_process ciphers true salt account mode crypted ≡ some given
    → (1 ≤ length account) × AreAlphanumeric account
unfolding on_pre_process
on_pre_process-AreAlphanumeric ciphers salt account crypted given mode e =
    is_account_name_valid_lem account (ground arith)

-- A password that is decrypted, in whichever mode, fits with its final zero in the buffer of 80
-- bytes, if DES keeps the length.
pub length-clear_password :
    (ciphers : Ciphers) (mode : CryptMode) (crypted clear : Bytes)
    → ((text : Bytes) → length (ciphers.decrypt_des text) ≡ length text)
    → clear_password ciphers mode crypted ≡ some clear
    → length clear + 1 ≤ 80
unfolding clear_password
length-clear_password ciphers crypt_aes crypted clear des e = ground arith
length-clear_password ciphers crypt_none crypted clear des e = ground arith
length-clear_password ciphers crypt_des crypted clear des e = ground (arith, des crypted)
