-- ===== src/Auth/Database/Passwords.antt =====
-- What the checks of rzauth/src/AuthServer/DB_Account.cpp admit.
use rzu.Prelude.{
  ℕ, ◌/◌, ◌%◌, ◌<◌, ◌≡◌, ◌≢◌, ◌↔◌, refl, ap, true, false, some, [], ◌∷◌, ◌++◌, Bytes, decide_holds,
  arith,
}
use mathlib.Core.Bool.{decide}
use rzu.Prelude.Keyed.{bytes_discrete}
use rzu.Auth.State.{CryptMode}
use rzu.Auth.Database.Account.{
  Ciphers, hex_digit, set_password_md5, c_string, clear_password, decrypt_password, on_row_done,
  Row,
}

abbrev pub AreBytes : Bytes → Type 0
AreBytes [] = Unit
AreBytes (c ∷ rest) = (c < 256) × AreBytes rest

hex_digit-injective : (m n : ℕ) → m < 16 → n < 16 → hex_digit m ≡ hex_digit n → m ≡ n
hex_digit-injective m n a b e = ground arith

byte-injective : (m n : ℕ) → m / 16 ≡ n / 16 → m % 16 ≡ n % 16 → m ≡ n
byte-injective m n a b = omega arith

head_same : (c d : ℕ) (x y : Bytes) → (c ∷ x) ≡ (d ∷ y) → c ≡ d
head_same c d x y e = ground arith

tail_same : (c d : ℕ) (x y : Bytes) → (c ∷ x) ≡ (d ∷ y) → x ≡ y
tail_same c d x y e = ground arith

-- The digits of bytes determine them.
set_password_md5-injective :
    (x y : Bytes) → AreBytes x → AreBytes y → set_password_md5 x ≡ set_password_md5 y → x ≡ y
unfolding set_password_md5
set_password_md5-injective [] [] h k e = refl
set_password_md5-injective [] (d ∷ y) h k e = absurd (ground arith)
set_password_md5-injective (c ∷ x) [] h k e = absurd (ground arith)
set_password_md5-injective (c ∷ x) (d ∷ y) h k e =
    let high =
      hex_digit-injective (c / 16) (d / 16) (omega arith) (omega arith) (head_same _ _ _ _ e) in
    let low =
      hex_digit-injective (c % 16) (d % 16) (omega arith) (omega arith)
        (head_same _ _ _ _ (tail_same _ _ _ _ e)) in
    let rest = set_password_md5-injective x y h.1 k.1 (tail_same _ _ _ _ (tail_same _ _ _ _ e)) in
    rw (byte-injective c d high low, rest) refl

-- The row of an account, whose password is stored by its digest.
abbrev pub stored_row : Ciphers → Bytes → ℕ → Bytes → Row
stored_row ciphers salt account_id password = record {
  account_id = account_id;
  password = set_password_md5 (ciphers.md5 (salt ++ c_string password));
  null_password = false;
}

of_decide : {P : Type 0} → (d : Dec P) → decide d ≡ true → P
unfolding decide
of_decide (yes p) e = p
of_decide (no n) e = absurd (ground arith)

given_lem :
    (ciphers : Ciphers) (salt : Bytes) (mode : CryptMode) (crypted clear given : Bytes)
    → clear_password ciphers mode crypted ≡ some clear
    → decrypt_password ciphers salt mode crypted ≡ some given
    → set_password_md5 (ciphers.md5 (salt ++ c_string clear)) ≡ given
unfolding decrypt_password
given_lem ciphers salt mode crypted clear given e d =
    let d' = rw (e, decrypt_password) at d in ground arith

row_test :
    (given stored : Bytes) (account_id : ℕ)
    → account_id ≢ 0xFFFFFFFF
    → on_row_done given
        (record { account_id = account_id; password = stored; null_password = false })
      ≡ decide (bytes_discrete given stored)
unfolding on_row_done
row_test given stored account_id known = ground arith

-- If the clear password of a client is known and its digest is made, the row of an account that
-- exists, whose password is stored as a digest with the same salt, is accepted exactly if the two
-- digests that MD5 makes of the salted passwords are equal, provided that MD5 makes bytes.
pub on_row_done-decrypt_password :
    (ciphers : Ciphers) (salt : Bytes) (mode : CryptMode) (crypted clear given password : Bytes)
    (account_id : ℕ)
    → ((text : Bytes) → AreBytes (ciphers.md5 text))
    → clear_password ciphers mode crypted ≡ some clear
    → decrypt_password ciphers salt mode crypted ≡ some given
    → account_id ≢ 0xFFFFFFFF
    → (on_row_done given (stored_row ciphers salt account_id password) ≡ true)
      ↔ (ciphers.md5 (salt ++ c_string clear) ≡ ciphers.md5 (salt ++ c_string password))
on_row_done-decrypt_password ciphers salt mode crypted clear given password account_id bytes e d
      known =
    rw
      (
        row_test given (set_password_md5 (ciphers.md5 (salt ++ c_string password))) account_id
            known,
        ← given_lem ciphers salt mode crypted clear given e d,
      )
      (
        λ same.
            set_password_md5-injective _ _ (bytes (salt ++ c_string clear))
              (bytes (salt ++ c_string password)) (of_decide (bytes_discrete _ _) same),
        λ same. decide_holds (bytes_discrete _ _) (ap set_password_md5 same),
      )
