-- ===== src/Checks/Peers.antt =====
-- src/Peer/Peer.cpp: a connection that sends, reads and ends.

use bytev.Prelude.{
  ◌+◌, ◌≤◌, ◌≡◌, refl, true, false, none, some, List, [], ◌∷◌, ◌++◌, take, drop, All, arith, ok,
}
use bytev.Prelude.Int.{pos}
use bytev.Serializer.Buffer.{Bytes}
use bytev.Packet.{header_size, pack, encode_header, write_at}
use bytev.Peer.State.{Peer, async_read, Run, ◌>>>◌, expired, start_read_header}
use bytev.Peer.Sending
use bytev.Peer.Reading.{
  Protocol, ping, message_type, receive, handle_read_header, handle_read_body, fill,
}
use bytev.Peer.Reading.Frames.{frame-received}
use bytev.Peer.Reading.Bounds.{Fits, reads-Fits}
use bytev.Peer.Lifecycle.{closed, gone, bit, idle-IsModest}
use bytev.Peer.Runs

abbrev idle : Peer
idle = record {
  client_connect = true;
  helloed = true;
  detaching = false;
  node_public = some (9 ∷ []);
  ip_port = ("10.0.0.1", pos 51235);
  ip_port_connect = ("10.0.0.1", pos 51235);
  readbuf = [];
  send_q = [];
  sending_packet = none;
}

-- Every message parses, and the handlers do nothing.
abbrev proto : Protocol
proto = record { parses = λ t m. true; endpoints = λ m. []; handle = λ t m p. (p, []) }

abbrev silent : Peer → Run
silent p = (p, [])

abbrev packet : Bytes
packet = 1 ∷ 2 ∷ []

abbrev traffic : List Sending.Event
traffic = Sending.send (some packet) ∷ Sending.send (some (3 ∷ [])) ∷ Sending.wrote false ∷ []

run-order_example :
    let (p, fs) = Sending.run traffic idle in
    (Sending.writes fs ++ Sending.packets p.send_q ≡ packet ∷ (3 ∷ []) ∷ []) × Sending.IsBusy p
run-order_example =
    Sending.run-order traffic idle (tt, (tt, (tt, tt)))
      (record { attached = refl; filled = tt; drained = λ e. refl })

abbrev frame : Bytes
frame = 0 ∷ 0 ∷ 0 ∷ 2 ∷ 0 ∷ 3 ∷ 1 ∷ 2 ∷ []

pack-packet : pack packet 3 ≡ ok frame
unfolding pack encode_header write_at
pack-packet = refl

type_of_ping : message_type 3 ≡ some ping
unfolding message_type
type_of_ping = refl

frame-received_example :
    let (p', es) =
      handle_read_header proto false (fill 0 (take header_size frame) (start_read_header idle).0) in
    let q = fill header_size (drop header_size frame) p' in
    (es ≡ async_read header_size 2 ∷ [])
    × (q ≡ record idle { readbuf = frame })
    × (handle_read_body proto false q ≡ (receive proto ping packet q >>> start_read_header))
frame-received_example =
    frame-received proto idle ping packet 3 refl (omega arith) (omega arith) (omega arith)
      type_of_ping refl refl pack-packet

reads-Fits_example :
    (let (p', es) = start_read_header idle in All (Fits p'.readbuf) es)
    × (let (p', es) = handle_read_header proto false idle in All (Fits p'.readbuf) es)
reads-Fits_example = reads-Fits proto false idle

abbrev events : List Runs.Event
events = Runs.write_done true ∷ Runs.timer expired ∷ Runs.detached ∷ []

run_tells_once_example :
    let (p', fs) = Runs.run proto silent events idle in
    (closed fs + 0 ≤ bit p'.detaching)
    × (gone fs + 0 ≤ bit p'.detaching)
    × (closed fs ≤ 1)
    × (gone fs ≤ 1)
run_tells_once_example =
    Runs.run_tells_once proto silent (λ t m p. idle-IsModest p) idle-IsModest events idle

abbrev leaving : Peer
leaving = record idle { detaching = true }
