-- ===== src/Net/Framing/Stream.antt =====
-- `PacketSession::onDataReceived` always ends, and does not depend on how the bytes arrive.
use rzu.Prelude.{
  ℕ, zero, suc, ◌<◌, ◌≡◌, ◌≢◌, refl, ap, sym, true, false, Option, none, some, List, [], ◌++◌,
  Bytes, length, length-append, append-nil, append_assoc, ◌==◌, ◌>>=◌, arith, Bool-cases, inl, inr,
}
use rzu.Net.Framing.Reader.{
  InputBuffer, Progress, body, again, after, waits, on_data_received, on_data_received-eq,
  body-shorter,
}
use rzu.Net.Framing.Chunks.{
  more_available, body-append, body-resume, again_complete, open-dispatched, waits-append, nonzero,
}

-- Some more bytes arrive after a call.
abbrev next_call : Bytes → Progress → Option Progress
next_call y p = on_data_received p.buffer (p.available ++ y) >>= λ q. some (after p.dispatched q)

after_nothing : (m : Option Progress) → (m >>= λ q. some (after [] q)) ≡ m
after_nothing none = refl
after_nothing (some q) = refl

after_both :
    (first second : List (ℕ × Bytes)) (m : Option Progress)
    → ((m >>= λ q. some (after second q)) >>= λ q. some (after first q))
      ≡ (m >>= λ q. some (after (first ++ second) q))
after_both first second none = refl
after_both first second (some q) =
    ap (λ l. some (record q { dispatched = l })) (sym (append_assoc first second q.dispatched))

next_call-after :
    (packets : List (ℕ × Bytes)) (y : Bytes) (m : Option Progress)
    → ((m >>= next_call y) >>= λ q. some (after packets q))
      ≡ ((m >>= λ q. some (after packets q)) >>= next_call y)
next_call-after packets y none = refl
next_call-after packets y (some p) =
    after_both packets p.dispatched (on_data_received p.buffer (p.available ++ y))

module _ (buffer : InputBuffer) (x y : Bytes) (whole : waits buffer x ≡ false) where
  more : again (body buffer x) ≡ true → again (more_available y (body buffer x)) ≡ true
  more h = ground (arith, again_complete buffer x h, length-append (body buffer x).available y)

  -- A round that is not the last.
  go_on :
      again (body buffer x) ≡ true
      → (on_data_received (body buffer x).buffer ((body buffer x).available ++ y)
          ≡ (on_data_received (body buffer x).buffer (body buffer x).available >>= next_call y))
      → on_data_received buffer (x ++ y) ≡ (on_data_received buffer x >>= next_call y)
  go_on h rest =
      rw
        (
          on_data_received-eq buffer (x ++ y),
          waits-append buffer x y whole,
          body-append buffer x y whole (again_complete buffer x h),
          more h,
          rest,
        )
        (rw (on_data_received-eq buffer x, whole, h)
          (next_call-after (body buffer x).dispatched y
            (on_data_received (body buffer x).buffer (body buffer x).available)))

  complete :
      again (body buffer x) ≡ false
      → (body buffer x).buffer.current_message_size ≡ 0
      → on_data_received buffer (x ++ y) ≡ next_call y (body buffer x)
  complete h done =
      rw
        (
          on_data_received-eq buffer (x ++ y),
          waits-append buffer x y whole,
          body-append buffer x y whole done,
        )
        (elim (Bool-cases (again (more_available y (body buffer x)))) [
          | inl b ↦ rw b refl
          | inr b ↦
              let short : waits (body buffer x).buffer ((body buffer x).available ++ y) ≡ true =
                ground arith in
              rw
                (
                  b,
                  on_data_received-eq (body buffer x).buffer ((body buffer x).available ++ y),
                  short,
                )
                (ap (λ l. some (record (more_available y (body buffer x)) { dispatched = l }))
                  (sym (append-nil (body buffer x).dispatched)))
        ])

  incomplete :
      (body buffer x).buffer.current_message_size ≢ 0
      → on_data_received buffer (x ++ y) ≡ next_call y (body buffer x)
  incomplete open_message =
      rw
        (
          open-dispatched buffer x open_message,
          after_nothing (on_data_received (body buffer x).buffer ((body buffer x).available ++ y)),
          on_data_received-eq buffer (x ++ y),
          waits-append buffer x y whole,
          body-resume buffer x y whole open_message,
          on_data_received-eq (body buffer x).buffer ((body buffer x).available ++ y),
          nonzero _ open_message,
        )
        refl

chunks :
    (n : ℕ) (buffer : InputBuffer) (x y : Bytes)
    → length x < n
    → on_data_received buffer (x ++ y) ≡ (on_data_received buffer x >>= next_call y)
chunks zero buffer x y h = absurd (omega arith)
chunks (suc n) buffer x y h = elim (Bool-cases (waits buffer x)) [
  | inl short ↦
      rw (on_data_received-eq buffer x, short)
        (sym (after_nothing (on_data_received buffer (x ++ y))))
  | inr whole ↦ elim (Bool-cases (again (body buffer x))) [
    | inl b ↦
        let shorter = body-shorter buffer x whole b in
        go_on buffer x y whole b
          (chunks n (body buffer x).buffer (body buffer x).available y (omega arith))
    | inr b ↦
        rw (on_data_received-eq buffer x, whole, b)
          (elim (Bool-cases ((body buffer x).buffer.current_message_size == 0)) [
            | inl done ↦ complete buffer x y whole b (ground arith)
            | inr open_message ↦ incomplete buffer x y whole (λ e. absurd (ground arith))
          ])
  ]
]

-- Bytes that arrive in two parts are handled as if they had arrived at once: the same packets in
-- the same order, the same bytes left, and the same state of the reader, wherever the parts are
-- cut and whatever the bytes are.
pub on_data_received-append :
    (buffer : InputBuffer) (x y : Bytes)
    → on_data_received buffer (x ++ y) ≡ (
        on_data_received buffer x >>= λ p.
        on_data_received p.buffer (p.available ++ y) >>= λ q. some (after p.dispatched q))
on_data_received-append buffer x y = chunks (suc (length x)) buffer x y (omega arith)

returns :
    (n : ℕ) (buffer : InputBuffer) (x : Bytes) → length x < n → on_data_received buffer x ≢ none
returns zero buffer x h = absurd (omega arith)
returns (suc n) buffer x h = elim (Bool-cases (waits buffer x)) [
  | inl short ↦ rw (on_data_received-eq buffer x, short) (λ e. absurd (ground arith))
  | inr whole ↦ elim (Bool-cases (again (body buffer x))) [
    | inl b ↦
        let shorter = body-shorter buffer x whole b in
        let rest = returns n (body buffer x).buffer (body buffer x).available (omega arith) in
        rw (on_data_received-eq buffer x, whole, b) (λ e. ground arith)
    | inr b ↦ rw (on_data_received-eq buffer x, whole, b) (λ e. absurd (ground arith))
  ]
]

-- The loop that cuts packets ends on any bytes and in any state of the reader.
pub on_data_received_returns : (buffer : InputBuffer) (x : Bytes) → on_data_received buffer x ≢ none
on_data_received_returns buffer x = returns (suc (length x)) buffer x (omega arith)
