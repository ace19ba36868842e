-- ===== src/Auth/Database/Tests.antt =====
-- Uses of the theorems on rzauth/src/AuthServer/DB_Account.cpp.
use rzu.Prelude.{◌≤◌, length, ◌≡◌, ◌↔◌, refl, true, some, [], ◌∷◌, ◌%◌, Bytes, arith}
use rzu.Auth.State.{crypt_none}
use rzu.Auth.Database.Account.{
  Ciphers, clear_password, decrypt_password, on_pre_process, on_row_done,
}
use rzu.Auth.Database.Names.{AreAlphanumeric, on_pre_process-AreAlphanumeric}
use rzu.Auth.Database.Passwords.{AreBytes, stored_row, on_row_done-decrypt_password}

-- A digest that keeps the first byte of the text, if it is one.
abbrev first_byte : Bytes → Bytes
first_byte [] = []
first_byte (c ∷ rest) = c % 256 ∷ []

first_byte-AreBytes : (text : Bytes) → AreBytes (first_byte text)
first_byte-AreBytes [] = tt
first_byte-AreBytes (c ∷ rest) = (omega arith, tt)

abbrev ciphers : Ciphers
ciphers = record { decrypt_aes = λ text. some text; decrypt_des = λ text. text; md5 = first_byte }

on_row_done-decrypt_password_example :
    (on_row_done (b'6' ∷ b'1' ∷ []) (stored_row ciphers [] 77 (b'a' ∷ b'b' ∷ [])) ≡ true)
    ↔ (first_byte (b'a' ∷ []) ≡ first_byte (b'a' ∷ b'b' ∷ []))
unfolding clear_password decrypt_password
on_row_done-decrypt_password_example =
    on_row_done-decrypt_password ciphers [] crypt_none (b'a' ∷ []) (b'a' ∷ []) (b'6' ∷ b'1' ∷ [])
      (b'a' ∷ b'b' ∷ []) 77 first_byte-AreBytes refl refl (λ e. absurd (omega arith))

abbrev name : Bytes
name = b'x' ∷ b'7' ∷ b'Q' ∷ []

on_pre_process-AreAlphanumeric_example : (1 ≤ length name) × AreAlphanumeric name
unfolding on_pre_process
on_pre_process-AreAlphanumeric_example =
    on_pre_process-AreAlphanumeric ciphers [] name (b'a' ∷ []) (b'6' ∷ b'1' ∷ []) crypt_none refl
