-- ===== src/Auth/Session/Version.antt =====
-- The detection of a client's version: `onVersion`, `preProcessPacketReceived` and
-- `setMinimumPacketVersion` of rzauth/src/AuthServer/ClientSession.cpp, and packet_version_t
-- (librzu/src/lib/Packet/PacketEpics.h).
use rzu.Prelude.{
  ℕ, ◌+◌, ◌-◌, ◌*◌, ◌%◌, ◌^◌, ◌≤◌, ◌≡◌, Bool, true, false, ◌&&◌, ◌||◌, [], ◌∷◌, Bytes, leb, ltb,
  ◌==◌, if◌then◌else◌, arith,
}

abbrev pub epic_2 : ℕ
epic_2 = 0x020100

abbrev pub epic_4_1 : ℕ
epic_4_1 = 0x040100

abbrev pub epic_5_2 : ℕ
epic_5_2 = 0x050200

abbrev pub epic_7_4 : ℕ
epic_7_4 = 0x070400

abbrev pub epic_8_1_1_rsa : ℕ
epic_8_1_1_rsa = 0x080101

abbrev pub epic_9_2 : ℕ
epic_9_2 = 0x090200

abbrev pub epic_9_6_3 : ℕ
epic_9_6_3 = 0x090603

abbrev pub epic_9_6_7 : ℕ
epic_9_6_7 = 0x090607

-- `setMinimumPacketVersion`: a detected version never goes down.
unfoldable pub minimum_version : ℕ → ℕ → ℕ
minimum_version version current = if ltb current version then version else current

-- The ids of the packets that tell versions apart.
unfoldable pub rsa_key_id : ℕ → ℕ
rsa_key_id version = if ltb version epic_9_6_3 then 71 else 1071

abbrev pub account_id : ℕ
account_id = 10010

abbrev pub imbc_account_id : ℕ
imbc_account_id = 10012

-- One test of `preProcessPacketReceived`.
abbrev raise_if : Bool → ℕ → ℕ → ℕ
raise_if b version current = if b then minimum_version version current else current

-- The version after a packet of this id and size.
unfoldable pub pre_process : ℕ → ℕ → ℕ → ℕ
unfolding minimum_version rsa_key_id
pre_process id size v₀ =
    let v₁ = raise_if (id == rsa_key_id epic_9_6_3) epic_9_6_3 v₀ in
    let v₂ = raise_if (id == rsa_key_id v₁) epic_8_1_1_rsa v₁ in
    let v₃ = raise_if (id == account_id && ltb 58 size) epic_5_2 v₂ in
    raise_if (id == imbc_account_id && ltb 79 size) epic_7_4 v₃

abbrev is_space : ℕ → Bool
is_space c = c == b' ' || leb 9 c && leb c 13

-- The digits of a text: C's `strtol` in base 10, which stops at the largest long.
read_digits : ℕ → Bytes → ℕ
read_digits acc [] = acc
read_digits acc (c ∷ rest) =
    let more = read_digits (acc * 10 + (c - b'0')) rest in
    if leb b'0' c && leb c b'9' then more else acc

abbrev largest_long : ℕ
largest_long = 2 ^ 63 - 1

abbrev at_most : ℕ → ℕ → ℕ
at_most limit n = if ltb limit n then limit else n

-- The sign, then the digits; the result is cut to a uint32_t.
read_signed : Bytes → ℕ
unfolding read_digits
read_signed [] = 0
read_signed (c ∷ rest) =
    if c == b'-'
    then (2 ^ 64 - at_most (2 ^ 63) (read_digits 0 rest)) % 2 ^ 32
    else if c == b'+'
    then at_most largest_long (read_digits 0 rest) % 2 ^ 32
    else at_most largest_long (read_digits 0 (c ∷ rest)) % 2 ^ 32

unfoldable pub strtol_u32 : Bytes → ℕ
unfolding read_signed
strtol_u32 [] = 0
strtol_u32 (c ∷ rest) = if is_space c then strtol_u32 rest else read_signed (c ∷ rest)

-- The version that a version number stands for.
unfoldable pub version_of_number : ℕ → ℕ
version_of_number n =
    if leb 20210128 n && ltb n 100000000
    then epic_9_6_7
    else if leb 201507080 n
    then epic_9_2
    else if leb 200701120 n
    then epic_4_1
    else epic_2

unfoldable pub starts_with : Bytes → Bytes → Bool
starts_with [] text = true
starts_with (c ∷ rest) [] = false
starts_with (c ∷ rest) (d ∷ text) = c == d && starts_with rest text

-- What `onVersion` answers, by the text that the client sends.
pub data VersionRequest : Type 0 where
  user_count build_date : VersionRequest
  client_version : ℕ → VersionRequest

abbrev test_text : Bytes
test_text = b'T' ∷ b'E' ∷ b'S' ∷ b'T' ∷ []

abbrev info_text : Bytes
info_text = b'I' ∷ b'N' ∷ b'F' ∷ b'O' ∷ []

abbrev epic_2_date : Bytes
epic_2_date = b'2' ∷ b'0' ∷ b'0' ∷ b'6' ∷ b'0' ∷ b'9' ∷ b'2' ∷ b'8' ∷ b'0' ∷ []

abbrev creer_text : Bytes
creer_text = b'C' ∷ b'r' ∷ b'e' ∷ b'e' ∷ b'r' ∷ []

unfoldable pub read_version : Bytes → VersionRequest
unfolding starts_with version_of_number strtol_u32
read_version text =
    if starts_with test_text text
    then user_count
    else if starts_with info_text text
    then build_date
    else if starts_with epic_2_date text || starts_with creer_text text
    then client_version epic_2
    else client_version (version_of_number (strtol_u32 text))

-- No packet lowers the version of a client's session, and the packet of an RSA key raises it to
-- the first version with RSA at least.
pub pre_process-increases :
    (id size version : ℕ)
    → (version ≤ pre_process id size version)
      × (id ≡ rsa_key_id version → epic_8_1_1_rsa ≤ pre_process id size version)
unfolding pre_process
pre_process-increases id size version = (ground arith, λ h. ground arith)

-- A higher version number, from nine digits on, is never taken for a lower version.
pub version_of_number_mono :
    (m n : ℕ) → 100000000 ≤ m → m ≤ n → version_of_number m ≤ version_of_number n
unfolding version_of_number
version_of_number_mono m n low h = ground arith
