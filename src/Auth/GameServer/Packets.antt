-- ===== src/Auth/GameServer/Packets.antt =====
-- The packets of a game server (librzu/src/packets/AuthGame), and Utils::convertToString.
use rzu.Prelude.{
  ℕ, zero, suc, ◌+◌, ◌-◌, ◌^◌, ◌≤◌, Bool, List, [], ◌∷◌, Bytes, length, ltb, ◌==◌, if◌then◌else◌,
  arith,
}
use rzu.Auth.State.{ServerInfo, AccountInfo}

-- The bytes of a field up to the first NUL, at most `max_size` of them.
unfoldable pub convert_to_string : Bytes → ℕ → Bytes
convert_to_string [] max_size = []
convert_to_string (c ∷ rest) zero = []
convert_to_string (c ∷ rest) (suc n) = if c == 0 then [] else c ∷ convert_to_string rest n

pub length-convert_to_string : (str : Bytes) (n : ℕ) → length (convert_to_string str n) ≤ n
unfolding convert_to_string
length-convert_to_string [] n = omega arith
length-convert_to_string (c ∷ rest) zero = omega arith
length-convert_to_string (c ∷ rest) (suc n) = ground (arith, length-convert_to_string rest n)

-- TS_GA_LOGIN, with its fields as they come: char[21], char[256], char[16].
pub record LoginPacket : Type 0 where
  pub server_idx : ℕ
  pub server_name : Bytes
  pub server_screenshot_url : Bytes
  pub is_adult_server : Bool
  pub server_ip : Bytes
  pub server_port : ℕ

abbrev pub login_info : LoginPacket → ServerInfo
login_info p = record {
  server_idx = p.server_idx;
  server_name = convert_to_string p.server_name 20;
  server_ip = convert_to_string p.server_ip 15;
  server_port = p.server_port;
  screenshot_url = convert_to_string p.server_screenshot_url 255;
  is_adult_server = p.is_adult_server;
}

-- TS_GA_ACCOUNT_LIST; `size` is that of the message.
pub record AccountListPacket : Type 0 where
  pub size : ℕ
  pub final_packet : Bool
  pub count : ℕ
  pub account_info : List AccountInfo

-- sizeof(TS_GA_ACCOUNT_LIST) and sizeof(AccountInfo), packed.
abbrev pub account_list_size : ℕ
account_list_size = 9

abbrev pub account_info_size : ℕ
account_info_size = 61 + 4 + 1 + 4 + 4 + 46 + 4

-- A `char` read as a uint32_t.
abbrev pub sign_extend : ℕ → ℕ
sign_extend c = if ltb c 128 then c else c + 2 ^ 32 - 256

-- TS_GA_SECURITY_NO_CHECK; an older server sends it without the mode.
pub record SecurityPacket : Type 0 where
  pub size : ℕ
  pub account : Bytes
  pub security : Bytes
  pub mode : ℕ

-- sizeof(TS_GA_SECURITY_NO_CHECK)
abbrev pub security_packet_size : ℕ
security_packet_size = 7 + 61 + 19 + 4

pub data GamePacket : Type 0 where
  login_with_logout : LoginPacket → GamePacket
  login_with_logout_ext : LoginPacket → Bytes → GamePacket
  login : LoginPacket → GamePacket
  account_list : AccountListPacket → GamePacket
  logout : GamePacket
  client_login : Bytes → ℕ → GamePacket
  client_logout : Bytes → GamePacket
  client_kick_failed : Bytes → GamePacket
  security_check : SecurityPacket → GamePacket
  unknown : ℕ → GamePacket
