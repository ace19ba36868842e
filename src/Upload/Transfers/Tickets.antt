-- ===== src/Upload/Transfers/Tickets.antt =====
-- One-time passwords of uploads (rzauth/src/UploadServer), and what a server that is gone leaves.
use rzu.Prelude.{
  ℕ, ◌≡◌, ◌≢◌, refl, true, false, Option, none, some, [], ◌∷◌, Bytes, length, ltb, ◌>>=◌,
  decide_holds, arith,
}
use rzu.Prelude.Keyed.{
  Map, lookup, erase, put, lookup-erase, lookup-put, number_key, bytes_key, bytes_discrete,
}
use rzu.Upload.Transfers.Server.{
  UploadRequest, LoginPacket, Server, push_request, pop_request, drop_requests, remove_server,
  on_session_deleted, on_request_upload, on_upload, UploadPacket, Storage, check_jpeg_image,
  same_text,
}

-- The packet that fits a request.
abbrev pub ticket : UploadRequest → LoginPacket
ticket r = record {
  client_id = r.client_id;
  account_id = r.account_id;
  guild_id = r.guild_sid;
  one_time_password = r.one_time_password;
  server_name = [];
}

-- A request for an upload that a client took is not given out again for the same client id,
-- whatever else is said.
pub pop_request-pop_request :
    (p : LoginPacket) (name other : Bytes) (q : LoginPacket) (r : UploadRequest) (w w' : Server)
    → pop_request p name w ≡ some (some r, w')
    → q.client_id ≡ p.client_id
    → pop_request q other w' ≡ some (none, w')
unfolding pop_request
pop_request-pop_request p name other q r w w' taken same =
    ground (arith, lookup-erase p.client_id p.client_id w.pending_requests)

decide_same : (a : Bytes) → same_text a a ≡ true
decide_same a = decide_holds (bytes_discrete a a) refl

-- A request for a client id that has none yet, by a server that is live, is given out to the
-- client that names its numbers and the server.
pub pop_request-push_request :
    (r : UploadRequest) (name : Bytes) (w : Server)
    → lookup r.client_id w.pending_requests ≡ none
    → lookup r.game_server w.sessions ≡ some name
    → pop_request (ticket r) name (push_request r w)
      ≡ some (
        some r,
        record w { pending_requests = erase r.client_id (put r.client_id r w.pending_requests) },
      )
unfolding pop_request push_request
pop_request-push_request r name w free live =
    ground (arith, lookup-put r.client_id r.client_id r w.pending_requests, decide_same name)

-- No request of the server.
abbrev pub IsOther : ℕ → Option UploadRequest → Type 0
IsOther s none = Unit
IsOther s (some r) = r.game_server ≢ s

drop_requests-IsOther :
    (s k : ℕ) (requests : Map ℕ UploadRequest) → IsOther s (lookup k (drop_requests s requests))
unfolding lookup drop_requests
drop_requests-IsOther s k [] = tt
drop_requests-IsOther s k ((j, r) ∷ rest) = ground (arith, drop_requests-IsOther s k rest)

-- Once a server's requests are removed, no pending request is found that is the server's.
pub remove_server-IsOther :
    (s k : ℕ) (w : Server) → IsOther s (lookup k (remove_server s w).pending_requests)
unfolding remove_server
remove_server-IsOther s k w = drop_requests-IsOther s k w.pending_requests

-- If a live server goes whose request a client has taken, a well-formed upload of that client
-- then reads the session that is gone.
pub on_upload-on_session_deleted :
    (file_name : Bytes → ℕ → Bytes) (storage : Storage) (s t : ℕ) (name : Bytes) (p : UploadPacket)
    (r : UploadRequest) (w : Server)
    → lookup s w.sessions ≡ some name
    → w.current_request t ≡ some r
    → r.game_server ≡ s
    → p.file_length ≡ length p.file_contents
    → ltb 64000 p.file_length ≡ false
    → check_jpeg_image p.file_contents ≡ true
    → (on_session_deleted s w >>= on_upload file_name storage t p) ≡ none
unfolding on_session_deleted on_upload
on_upload-on_session_deleted file_name storage s t [] p r w n mine server whole small jpeg =
    rw (n, on_session_deleted) (ground (arith, lookup-erase s s w.sessions))
on_upload-on_session_deleted file_name storage s t (c ∷ rest) p r w n mine server whole small jpeg =
    rw (n, on_session_deleted) (ground (arith, lookup-erase s s w.sessions))

-- If a session that never logged in announces an upload for a client id that has none, and goes,
-- the search for this request then reads the session that is gone.
pub pop_request-on_session_deleted :
    (s client_id account_id guild_sid key now : ℕ) (name : Bytes) (w : Server)
    → lookup s w.sessions ≡ some []
    → lookup client_id w.pending_requests ≡ none
    → (on_session_deleted s (on_request_upload s client_id account_id guild_sid key now w)
        >>= pop_request
            (record {
              client_id = client_id;
              account_id = account_id;
              guild_id = guild_sid;
              one_time_password = key;
              server_name = [];
            })
            name)
      ≡ none
unfolding on_session_deleted on_request_upload push_request pop_request
pop_request-on_session_deleted s client_id account_id guild_sid key now name w unnamed free =
    rw (unnamed, on_session_deleted)
      (ground (
        arith,
        lookup-erase s s w.sessions,
        lookup-put client_id client_id
            (record {
              game_server = s;
              client_id = client_id;
              account_id = account_id;
              guild_sid = guild_sid;
              one_time_password = key;
              timestamp = now;
            })
            w.pending_requests,
      ))
