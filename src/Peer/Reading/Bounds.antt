-- ===== src/Peer/Reading/Bounds.antt =====
-- The reads that src/Peer/Peer.cpp starts, and its read buffer.
use bytev.Prelude.{
  ℕ, ◌+◌, ◌-◌, ◌≤◌, ◌≡◌, Bool, [], All, length, take, replicate, length-append, length-replicate,
  length-take, arith,
}
use bytev.Serializer.Buffer.{Bytes}
use bytev.Packet.{header_size, get_length}
use bytev.Peer.State.{
  Peer, Effect, async_read, detach, notify_disconnected, notify_closed, start_read_header,
  start_read_body, resize,
}
use bytev.Peer.Reading.{Protocol, max_message, handle_read_header}

-- A read lies in the buffer, and it is of a header or of at most the largest message.
abbrev pub Fits : Bytes → Effect → Type 0
Fits b (async_read o n) = (o + n ≤ length b) × (n ≤ max_message)
Fits b other = Unit {0}

length-resize : (n : ℕ) (b : Bytes) → length (resize n b) ≡ n
unfolding resize
length-resize n b = omega (
  arith,
  length-append (take n b) (replicate (n - length b) 0),
  length-take n b,
  length-replicate {A = ℕ} (n - length b) 0,
)

-- A read of the header, or of the body that a header announces, lies inside the buffer as it is
-- then, also on an error and for a peer that is detaching; no body of more than 32 * 1024 * 1024
-- bytes is read, whatever length the header gives.
pub reads-Fits :
    (proto : Protocol) (error : Bool) (p : Peer)
    → (let (p', es) = start_read_header p in All (Fits p'.readbuf) es)
      × (let (p', es) = handle_read_header proto error p in All (Fits p'.readbuf) es)
unfolding start_read_header handle_read_header start_read_body detach notify_disconnected
    notify_closed
reads-Fits proto error p = (
  ground (arith, length-resize header_size []),
  ground (arith, length-resize (header_size + get_length p.readbuf) p.readbuf),
)
