-- ===== src/Net/Framing/Chunks.antt =====
-- `PacketSession::onDataReceived` does not depend on how the bytes arrive.
use rzu.Prelude.{
  ℕ, ◌≤◌, ◌≡◌, ◌≢◌, refl, Bool, true, false, [], ◌∷◌, ◌++◌, Bytes, length, length-append,
  length-drop, drop, take-append, drop-append, drop_past, drop-append_past, ltb, ◌==◌, arith,
  Bool-cases, inl, inr,
}
use rzu.Net.Framing.Reader.{
  InputBuffer, Progress, read_size, start_message, end_message, body, again, waits,
}

-- The same progress, with more bytes to come.
abbrev pub more_available : Bytes → Progress → Progress
more_available more p = record p { available = p.available ++ more }

abbrev short : ℕ → Bool
short n = ltb n 4

read_size-append : (x y : Bytes) → 4 ≤ length x → read_size (x ++ y) ≡ read_size x
unfolding read_size
read_size-append [] y h = absurd (omega arith)
read_size-append (a ∷ []) y h = absurd (omega arith)
read_size-append (a ∷ b ∷ []) y h = absurd (omega arith)
read_size-append (a ∷ b ∷ c ∷ []) y h = absurd (omega arith)
read_size-append (a ∷ b ∷ c ∷ d ∷ x) y h = refl

end_message-append :
    (buffer : InputBuffer) (x y : Bytes)
    → (end_message buffer x).buffer.current_message_size ≡ 0
    → end_message buffer (x ++ y) ≡ more_available y (end_message buffer x)
unfolding end_message
end_message-append buffer x y done = ground (
  arith,
  length-append x y,
  take-append buffer.current_message_size x y,
  drop-append buffer.current_message_size x y,
)

-- A message that is not complete goes on with the next bytes.
end_message-resume :
    (buffer : InputBuffer) (x y : Bytes)
    → (end_message buffer x).buffer.current_message_size ≢ 0
    → end_message buffer (x ++ y)
      ≡ end_message (end_message buffer x).buffer ((end_message buffer x).available ++ y)
unfolding end_message
end_message-resume buffer x y open_message = ground (
  arith,
  length-append x y,
  drop_past buffer.current_message_size x,
  drop-append_past buffer.current_message_size x y,
)

body_inside :
    (buffer : InputBuffer) (x : Bytes)
    → (buffer.current_message_size == 0) ≡ false
    → body buffer x ≡ end_message buffer x
unfolding body
body_inside buffer x inside = ground arith

body_new :
    (buffer : InputBuffer) (x : Bytes)
    → (buffer.current_message_size == 0) ≡ true
    → body buffer x ≡ end_message (start_message buffer x) (drop 4 x)
unfolding body
body_new buffer x new = ground arith

start_message-append :
    (buffer : InputBuffer) (x y : Bytes)
    → 4 ≤ length x
    → start_message buffer (x ++ y) ≡ start_message buffer x
unfolding start_message
start_message-append buffer x y long = rw (read_size-append x y long) refl

new_long :
    (buffer : InputBuffer) (x : Bytes)
    → waits buffer x ≡ false
    → (buffer.current_message_size == 0) ≡ true
    → 4 ≤ length x
new_long buffer x whole new = ground arith

pub body-append :
    (buffer : InputBuffer) (x y : Bytes)
    → waits buffer x ≡ false
    → (body buffer x).buffer.current_message_size ≡ 0
    → body buffer (x ++ y) ≡ more_available y (body buffer x)
body-append buffer x y whole done = elim (Bool-cases (buffer.current_message_size == 0)) [
  | inr inside ↦
      rw (body_inside buffer (x ++ y) inside, body_inside buffer x inside)
        (end_message-append buffer x y (rw (body_inside buffer x inside) at done))
  | inl new ↦
      let long = new_long buffer x whole new in
      rw
        (
          body_new buffer (x ++ y) new,
          body_new buffer x new,
          start_message-append buffer x y long,
          drop-append 4 x y long,
        )
        (end_message-append (start_message buffer x) (drop 4 x) y
          (rw (body_new buffer x new) at done))
]

pub nonzero : (n : ℕ) → n ≢ 0 → (n == 0) ≡ false
nonzero n h = ground arith

-- A message that is not complete: the next bytes go on with it.
pub body-resume :
    (buffer : InputBuffer) (x y : Bytes)
    → waits buffer x ≡ false
    → (body buffer x).buffer.current_message_size ≢ 0
    → body buffer (x ++ y) ≡ body (body buffer x).buffer ((body buffer x).available ++ y)
body-resume buffer x y whole open_message =
    rw
      (body_inside (body buffer x).buffer ((body buffer x).available ++ y) (nonzero _ open_message))
      (elim (Bool-cases (buffer.current_message_size == 0)) [
        | inr inside ↦
            rw (body_inside buffer (x ++ y) inside, body_inside buffer x inside)
              (end_message-resume buffer x y (rw (body_inside buffer x inside) at open_message))
        | inl new ↦
            let long = new_long buffer x whole new in
            rw
              (
                body_new buffer (x ++ y) new,
                body_new buffer x new,
                start_message-append buffer x y long,
                drop-append 4 x y long,
              )
              (end_message-resume (start_message buffer x) (drop 4 x) y
                (rw (body_new buffer x new) at open_message))
      ])

pub again_complete :
    (buffer : InputBuffer) (x : Bytes)
    → again (body buffer x) ≡ true
    → (body buffer x).buffer.current_message_size ≡ 0
unfolding body end_message
again_complete buffer x more = ground (
  arith,
  length-drop buffer.current_message_size x,
  length-drop (start_message buffer x).current_message_size (drop 4 x),
)

pub open-dispatched :
    (buffer : InputBuffer) (x : Bytes)
    → (body buffer x).buffer.current_message_size ≢ 0
    → (body buffer x).dispatched ≡ []
unfolding body end_message
open-dispatched buffer x open_message = ground arith

pub waits-append :
    (buffer : InputBuffer) (x y : Bytes) → waits buffer x ≡ false → waits buffer (x ++ y) ≡ false
waits-append buffer x y whole = ground (arith, length-append x y)
