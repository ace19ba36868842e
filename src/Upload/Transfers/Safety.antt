-- ===== src/Upload/Transfers/Safety.antt =====
-- When no request outlives its game server (rzauth/src/UploadServer).
use rzu.Prelude.{
  Returns, Returns-bind, ℕ, ◌≡◌, ◌≢◌, refl, Option, none, some, [], ◌∷◌, Bytes, arith, Option-cases,
  Bool-cases, inl, inr,
}
use rzu.Prelude.Keyed.{Map, lookup, erase, put, lookup-erase, number_key, bytes_key}
use rzu.Auth.GameServer.Packets.{convert_to_string}
use rzu.Upload.Transfers.Server.{
  UploadRequest, LoginPacket, Server, stored, push_request, pop_request, drop_requests, forget_name,
  on_session_deleted, on_request_upload, on_login, on_upload, UploadPacket, Storage, send, Output,
  to_client, upload_result, invalid_argument, limit_max, invalid_text, access_denied, success,
  login_result, set_current, same_numbers, same_text,
}
use rzu.Upload.Transfers.Tickets.{IsOther}

-- A live session that has logged in.
abbrev pub IsNamed : Option Bytes → Type 0
IsNamed none = ⊥
IsNamed (some []) = ⊥
IsNamed (some (c ∷ rest)) = Unit

abbrev pub IsServed : Map ℕ Bytes → Option UploadRequest → Type 0
IsServed sessions none = Unit
IsServed sessions (some r) = IsNamed (lookup r.game_server sessions)

abbrev pub AreServed : Map ℕ Bytes → Map ℕ UploadRequest → Type 0
AreServed sessions [] = Unit
AreServed sessions ((k, r) ∷ rest) = IsServed sessions (some r) × AreServed sessions rest

pub record IsValid (w : Server) : Type 0 where
  pub pending : AreServed w.sessions w.pending_requests
  pub current : (t : ℕ) → IsServed w.sessions (w.current_request t)

AreServed-lookup :
    (sessions : Map ℕ Bytes) (k : ℕ) (requests : Map ℕ UploadRequest)
    → AreServed sessions requests
    → IsServed sessions (lookup k requests)
unfolding lookup
AreServed-lookup sessions k [] h = tt
AreServed-lookup sessions k ((j, r) ∷ rest) h =
    ground (arith, h.0, AreServed-lookup sessions k rest h.1)

AreServed-erase :
    (sessions : Map ℕ Bytes) (k : ℕ) (requests : Map ℕ UploadRequest)
    → AreServed sessions requests
    → AreServed sessions (erase k requests)
unfolding erase
AreServed-erase sessions k [] h = tt
AreServed-erase sessions k ((j, r) ∷ rest) h =
    ground (arith, h.0, AreServed-erase sessions k rest h.1)

still-IsNamed :
    (s g : ℕ) (sessions : Map ℕ Bytes)
    → g ≢ s
    → IsNamed (lookup g sessions)
    → IsNamed (lookup g (erase s sessions))
still-IsNamed s g sessions other named = ground (arith, lookup-erase s g sessions)

AreServed-drop_requests :
    (s : ℕ) (sessions : Map ℕ Bytes) (requests : Map ℕ UploadRequest)
    → AreServed sessions requests
    → AreServed (erase s sessions) (drop_requests s requests)
unfolding drop_requests
AreServed-drop_requests s sessions [] h = tt
AreServed-drop_requests s sessions ((j, r) ∷ rest) h = ground (
  arith,
  h.0,
  AreServed-drop_requests s sessions rest h.1,
  still-IsNamed s r.game_server sessions,
)

-- No request is of a session without a name.
AreServed-unnamed :
    (s : ℕ) (sessions : Map ℕ Bytes) (requests : Map ℕ UploadRequest)
    → lookup s sessions ≡ some []
    → AreServed sessions requests
    → AreServed (erase s sessions) requests
AreServed-unnamed s sessions [] e h = tt
AreServed-unnamed s sessions ((j, r) ∷ rest) e h = (
  still-IsNamed s r.game_server sessions (λ same. absurd (ground (arith, h.0))) h.0,
  AreServed-unnamed s sessions rest e h.1,
)

stored-IsServed :
    (sessions : Map ℕ Bytes) (r : UploadRequest) (old : Option UploadRequest)
    → IsNamed (lookup r.game_server sessions)
    → IsServed sessions old
    → IsServed sessions (some (stored r old))
stored-IsServed sessions r none named h = named
stored-IsServed sessions r (some o) named h = h

-- A server that is named may announce an upload: the requests stay valid.
pub on_request_upload-IsValid :
    (s client_id account_id guild_sid key now : ℕ) (w : Server)
    → IsValid w
    → IsNamed (lookup s w.sessions)
    → IsValid (on_request_upload s client_id account_id guild_sid key now w)
unfolding on_request_upload push_request send put
on_request_upload-IsValid s client_id account_id guild_sid key now w v named = record {
  pending = (
    stored-IsServed w.sessions _ (lookup client_id w.pending_requests) named
        (AreServed-lookup w.sessions client_id w.pending_requests v.pending),
    AreServed-erase w.sessions client_id w.pending_requests v.pending,
  );
  current = v.current;
}

-- What the search for a request leaves: its server is live.
abbrev Pops : Server → Option UploadRequest × Server → Type 0
Pops w (r, w') = IsServed w.sessions r × IsValid w' × (w'.sessions ≡ w.sessions)

pop_request-Pops :
    (p : LoginPacket) (name : Bytes) (w : Server)
    → IsValid w
    → Returns (Pops w) (pop_request p name w)
unfolding pop_request
pop_request-Pops p name w v = elim (Option-cases (lookup p.client_id w.pending_requests)) [
  | inl e ↦ rw (e, pop_request) (tt, v, refl)
  | inr (r, e) ↦
      let served : IsNamed (lookup r.game_server w.sessions) =
        rw e at (AreServed-lookup w.sessions p.client_id w.pending_requests v.pending) in
      let erased : IsValid (record w { pending_requests = erase p.client_id w.pending_requests }) =
        record {
          pending = AreServed-erase w.sessions p.client_id w.pending_requests v.pending;
          current = v.current;
        } in
      elim (Bool-cases (same_numbers r p)) [
        | inr other ↦ rw (e, pop_request) (rw (other, pop_request) (tt, v, refl))
        | inl same ↦ elim (Option-cases (lookup r.game_server w.sessions)) [
          | inl n ↦ absurd (ground arith)
          | inr (server_name, n) ↦ elim (Bool-cases (same_text server_name name)) [
            | inl here ↦
                rw (e, pop_request)
                  (rw (same, pop_request)
                    (rw (n, pop_request) (rw (here, pop_request) (served, erased, refl))))
            | inr away ↦
                rw (e, pop_request)
                  (rw (same, pop_request)
                    (rw (n, pop_request) (rw (away, pop_request) (tt, v, refl))))
          ]
        ]
      ]
]

-- If no request outlives its server, a client's login reads no session that is gone, and this
-- still holds after it.
pub on_login-IsValid :
    (t : ℕ) (p : LoginPacket) (w : Server) → IsValid w → Returns IsValid (on_login t p w)
unfolding on_login send
on_login-IsValid t p w v =
    Returns-bind (Pops w) IsValid (pop_request p (convert_to_string p.server_name 31) w) _
      (pop_request-Pops p (convert_to_string p.server_name 31) w v)
      (λ popped h. taken t w popped.0 popped.1 h)
  where
    taken :
        (t : ℕ) (w : Server) (r : Option UploadRequest) (w' : Server)
        → Pops w (r, w')
        → IsValid (send (to_client t (login_result r)) (set_current t r w'))
    taken t w r w' h = record {
      pending = h.1.pending;
      current = λ u. ground (arith, h.0, h.1.current u, h.2);
    }

said : (o : Output) (w : Server) → IsValid w → IsValid (send o w)
unfolding send
said o w v = record { pending = v.pending; current = v.current }

let_go : (t : ℕ) (w : Server) → IsValid w → IsValid (set_current t none w)
let_go t w v = record { pending = v.pending; current = λ u. ground (arith, v.current u) }

-- If no request outlives its server, a client's upload reads no session that is gone, whatever
-- the packet and the file system say, and this still holds after it.
pub on_upload-IsValid :
    (file_name : Bytes → ℕ → Bytes) (storage : Storage) (t : ℕ) (p : UploadPacket) (w : Server)
    → IsValid w
    → Returns IsValid (on_upload file_name storage t p w)
unfolding on_upload send
on_upload-IsValid file_name storage t p w v = elim (Option-cases (w.current_request t)) [
  | inl e ↦ rw (e, on_upload) (record { pending = v.pending; current = v.current })
  | inr (r, e) ↦ elim (Option-cases (lookup r.game_server w.sessions)) [
    | inl n ↦ absurd (ground (arith, v.current t))
    | inr (name, n) ↦
        let result : Output =
          upload_result r.game_server r.guild_sid p.file_length (file_name name r.guild_sid) in
        rw (e, on_upload)
          (rw (n, on_upload)
            (ground (
              arith,
              said (to_client t invalid_argument) w v,
              said (to_client t limit_max) w v,
              said (to_client t invalid_text) w v,
              said (to_client t access_denied) (set_current t none w) (let_go t w v),
              said (to_client t success) (send result (set_current t none w))
                  (said result (set_current t none w) (let_go t w v)),
            )))
  ]
]

-- If the server of each request, waiting or taken, is live and logged in, this still holds after
-- the end of a live server of which no client has taken a request.
pub on_session_deleted-IsValid :
    (s : ℕ) (w : Server)
    → IsValid w
    → lookup s w.sessions ≢ none
    → ((t : ℕ) → IsOther s (w.current_request t))
    → Returns IsValid (on_session_deleted s w)
unfolding on_session_deleted
on_session_deleted-IsValid s w v live others = elim (Option-cases (lookup s w.sessions)) [
  | inl n ↦ absurd (live n)
  | inr (name, n) ↦ rw (n, on_session_deleted) (leaves name n)
]
  where
    kept : (t : ℕ) → IsServed (erase s w.sessions) (w.current_request t)
    kept t = elim (Option-cases (w.current_request t)) [
      | inl e ↦ rw e tt
      | inr (r, e) ↦
          rw e
            (still-IsNamed s r.game_server w.sessions (rw e at (others t)) (rw e at (v.current t)))
    ]

    leaves :
        (name : Bytes)
        → lookup s w.sessions ≡ some name
        → IsValid (forget_name s name (record w { sessions = erase s w.sessions }))
    leaves [] n = record {
      pending = AreServed-unnamed s w.sessions w.pending_requests n v.pending;
      current = kept;
    }
    leaves (c ∷ rest) n = record {
      pending = AreServed-drop_requests s w.sessions w.pending_requests v.pending;
      current = kept;
    }
