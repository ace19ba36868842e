-- ===== src/Net/Streams.antt =====
-- librzu/src/lib/Stream/Stream.cpp: the states of a connection. What the network does arrives as
-- `established` and `closed`.
use rzu.Prelude.{Bool, true, false}

-- Stream::State of a stream, and whether there is one.
pub data Stream : Type 0 where
  no_stream unconnected connecting binding listening connected closing : Stream

abbrev pub is_out : Stream → Bool
is_out no_stream = true
is_out unconnected = true
is_out connecting = false
is_out binding = false
is_out listening = false
is_out connected = false
is_out closing = false

abbrev pub is_connected : Stream → Bool
is_connected no_stream = false
is_connected unconnected = false
is_connected connecting = false
is_connected binding = false
is_connected listening = false
is_connected connected = true
is_connected closing = false

-- `SocketSession::connect` makes the stream; a stream that is not unconnected refuses.
abbrev pub connect : Stream → Stream
connect no_stream = connecting
connect unconnected = connecting
connect connecting = connecting
connect binding = binding
connect listening = listening
connect connected = connected
connect closing = closing

-- `closeSession`; the end of the connection is told later.
abbrev pub close : Stream → Stream
close no_stream = no_stream
close unconnected = unconnected
close connecting = closing
close binding = closing
close listening = closing
close connected = closing
close closing = closing
