-- ===== src/Auth/Log/Tests.antt =====
-- Uses of the theorems on rzauth/src/AuthServer/LogServerClient.cpp.
use rzu.Prelude.{◌≡◌, [], ◌∷◌, ◌++◌, Bytes, take}
use rzu.Net.Streams.{connecting, connected}
use rzu.Auth.Log.Client.{
  Message, lm_server_login, lm_server_info, started, write_frame, on_connected,
}
use rzu.Auth.Log.Pending.{write_frames, send_all, client_with, on_connected-send_log}

abbrev message : Bytes → Message
message text = record {
  id = 104;
  type = 1;
  thread_id = 3072;
  numbers = 0 ∷ 0 ∷ 0 ∷ 3072 ∷ 0 ∷ 0 ∷ 0 ∷ 0 ∷ 0 ∷ 0 ∷ 0 ∷ [];
  str1 = text;
  str2 = [];
  str3 = b'A' ∷ b'u' ∷ b't' ∷ b'h' ∷ [];
  str4 = [];
}

abbrev main : Message
main = message (b'M' ∷ b'a' ∷ b'i' ∷ b'n' ∷ [])

abbrev start : Message
start = message (b'S' ∷ b'T' ∷ b'A' ∷ b'R' ∷ b'T' ∷ [])

on_connected-send_log_example :
    on_connected 3072 [] (send_all (start ∷ main ∷ []) (client_with connecting [] (7 ∷ [])))
    ≡ client_with connected [] (
        7 ∷ []
        ++ (write_frame (lm_server_login 3072 [])
            ++ (write_frame (lm_server_info 3072 started)
                ++ write_frames (take 100 (start ∷ main ∷ [])))))
on_connected-send_log_example = on_connected-send_log 3072 [] (start ∷ main ∷ []) (7 ∷ [])
