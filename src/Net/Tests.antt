-- ===== src/Net/Tests.antt =====
-- Uses of the theorems on librzu/src/lib/NetSession.
use rzu.Prelude.{
  ℕ, ◌≤◌, ◌⊎◌, ◌≡◌, ◌≢◌, refl, false, none, some, List, [], ◌∷◌, ◌++◌, Bytes, arith, ◌>>=◌,
}
use rzu.Net.Encodings.{encode, serialize_scrambled, deserialize_scrambled}
use rzu.Net.Encodings.RoundTrip.{randomized, deserialize_scrambled-serialize_scrambled}
use rzu.Net.Framing.Reader.{InputBuffer, after, on_data_received}
use rzu.Net.Framing.Stream.{on_data_received-append, on_data_received_returns}
use rzu.Net.Framing.Frames.{IsDelivered, stream, on_data_received-stream}
use rzu.Net.Bans.Manager.{address_key}
use rzu.Net.Bans.Sockets.{
  Event, connects, closes, bans, day_ends, new_server, serve_all, from_host, serve_all_limited,
}

abbrev new_message : InputBuffer
new_message = record { current_message_size = 0; discard_packet = false }

on_data_received-append_example :
    on_data_received new_message ((9 ∷ 0 ∷ 0 ∷ []) ++ (0 ∷ 1 ∷ 2 ∷ 3 ∷ 4 ∷ 5 ∷ [])) ≡ (
      on_data_received new_message (9 ∷ 0 ∷ 0 ∷ []) >>= λ p.
      on_data_received p.buffer (p.available ++ 0 ∷ 1 ∷ 2 ∷ 3 ∷ 4 ∷ 5 ∷ []) >>= λ q.
      some (after p.dispatched q))
on_data_received-append_example =
    on_data_received-append new_message (9 ∷ 0 ∷ 0 ∷ []) (0 ∷ 1 ∷ 2 ∷ 3 ∷ 4 ∷ 5 ∷ [])

on_data_received_returns_example : on_data_received new_message (9 ∷ 0 ∷ 0 ∷ 0 ∷ 1 ∷ []) ≢ none
on_data_received_returns_example = on_data_received_returns new_message (9 ∷ 0 ∷ 0 ∷ 0 ∷ 1 ∷ [])

-- A packet of five bytes after its size, delivered once it is whole.
one_packet :
    on_data_received new_message (9 ∷ 0 ∷ 0 ∷ 0 ∷ 1 ∷ 2 ∷ 3 ∷ 4 ∷ 5 ∷ 7 ∷ [])
    ≡ some (record {
      buffer = new_message;
      available = 7 ∷ [];
      dispatched = (9, 1 ∷ 2 ∷ 3 ∷ 4 ∷ 5 ∷ []) ∷ [];
    })
unfolding on_data_received
one_packet = refl

abbrev two_packets : List Bytes
two_packets = (1 ∷ 2 ∷ 3 ∷ []) ∷ (4 ∷ []) ∷ []

on_data_received-stream_example :
    IsDelivered two_packets (on_data_received new_message (stream two_packets))
on_data_received-stream_example =
    on_data_received-stream false two_packets
      (omega arith, omega arith, (omega arith, omega arith, tt))

abbrev events : List Event
events =
    connects (7, 1) ∷ connects (7, 2) ∷ closes 0 ∷ connects (7, 3) ∷ bans (9, 0) ∷ day_ends ∷ []

abbrev per_day : ℕ
per_day = 3

abbrev at_once : ℕ
at_once = 1

serve_all_limited_example :
    let s = serve_all events (new_server per_day at_once (((8, 0), tt) ∷ [])) in
    ((at_once ≡ 0) ⊎ (from_host (7, 0) s.sockets ≤ at_once))
    × ((per_day ≡ 0) ⊎ (from_host (7, 0) s.admitted_today ≤ per_day))
serve_all_limited_example = serve_all_limited per_day at_once (((8, 0), tt) ∷ []) events (7, 0)

deserialize_scrambled-serialize_scrambled_example :
    (deserialize_scrambled (serialize_scrambled 305419896) ≡ 305419896)
    × (deserialize_scrambled (randomized 60000 1234 (encode 305419896)) ≡ 305419896)
deserialize_scrambled-serialize_scrambled_example =
    deserialize_scrambled-serialize_scrambled 60000 1234 305419896 (omega arith) (omega arith)
      (omega arith)
