-- ===== src/Peer/Lifecycle.antt =====
-- How often the methods of src/Peer/Peer.cpp tell the pool of a peer's end.
use Prim.Native.String.{String}
use text.Mathlib.Text.{◌==◌ as str_eq}
use bytev.Prelude.{
  ℕ, suc, ◌+◌, ◌≤◌, ◌≡◌, Bool, true, false, Option, none, some, List, [], ◌∷◌, ◌++◌, arith,
  if◌then◌else◌, ◌||◌, ◌==◌, drop,
}
use bytev.Prelude.Int.{ℤ}
use bytev.Serializer.Buffer.{Bytes}
use bytev.Packet.{get_length, get_type, header_size}
use bytev.Peer.State.{
  Peer, Effect, peer_closed, peer_disconnected, Run, ◌>>>◌, detach, notify_disconnected,
  notify_closed, Wait, aborted, failed, expired, handle_verify_timer, connect, handle_connect,
  connected, send_packet, send_packet_force, send_front, handle_write, start_read_header,
  start_read_body,
}
use bytev.Peer.Reading.{
  Protocol, MessageType, message_type, error_msg, ping, get_contacts, contact, peers,
  search_transaction, get_account, account, get_object, object, receive, recv_peers,
  process_read_buffer, handle_read_header, handle_read_body,
}

-- How often the pool is told that the connection is closed, and that the node is gone.
abbrev pub closed : List Effect → ℕ
closed [] = 0
closed (peer_closed ip port ∷ es) = suc (closed es)
closed (e ∷ es) = closed es

abbrev pub gone : List Effect → ℕ
gone [] = 0
gone (peer_disconnected key ∷ es) = suc (gone es)
gone (e ∷ es) = gone es

pub closed-append : (es fs : List Effect) → closed (es ++ fs) ≡ closed es + closed fs
closed-append [] fs = omega arith
closed-append (peer_closed ip port ∷ es) fs = omega (arith, closed-append es fs)
closed-append (e ∷ es) fs = closed-append es fs

pub gone-append : (es fs : List Effect) → gone (es ++ fs) ≡ gone es + gone fs
gone-append [] fs = omega arith
gone-append (peer_disconnected key ∷ es) fs = omega (arith, gone-append es fs)
gone-append (e ∷ es) fs = gone-append es fs

abbrev pub bit : Bool → ℕ
bit true = 1
bit false = 0

-- A step that tells the pool does so only as it takes the peer into detaching, and no step takes
-- it out again.
pub record IsModest (p : Peer) (r : Run) : Type 0 where
  pub closes : closed r.1 + bit p.detaching ≤ bit r.0.detaching
  pub leaves : gone r.1 + bit p.detaching ≤ bit r.0.detaching

pub after-IsModest :
    {p : Peer} {r : Run} {f : Peer → Run}
    → IsModest p r
    → ((q : Peer) → IsModest q (f q))
    → IsModest p (r >>> f)
after-IsModest {p} {r} {f} h k = record {
  closes = omega (arith, closed-append r.1 (f r.0).1, h.closes, (k r.0).closes);
  leaves = omega (arith, gone-append r.1 (f r.0).1, h.leaves, (k r.0).leaves);
}

pub idle-IsModest : (p : Peer) → IsModest p (p, [])
idle-IsModest p = record { closes = omega arith; leaves = omega arith }

pub if-IsModest :
    {p : Peer} {r s : Run} (b : Bool)
    → IsModest p r
    → IsModest p s
    → IsModest p (if b then r else s)
if-IsModest true h k = h
if-IsModest false h k = k

pub detach-IsModest : (p : Peer) → IsModest p (detach p)
unfolding detach notify_disconnected notify_closed
detach-IsModest p = ground arith

pub start_read_header-IsModest : (p : Peer) → IsModest p (start_read_header p)
unfolding start_read_header
start_read_header-IsModest p = ground arith

recv_peers-IsModest : (nodes : List (String × ℤ)) (p : Peer) → IsModest p (recv_peers nodes p)
unfolding recv_peers
recv_peers-IsModest [] p = idle-IsModest p
recv_peers-IsModest ((ip, port) ∷ nodes) p =
    after-IsModest
      (if-IsModest (str_eq ip "0.0.0.0" || str_eq ip "127.0.0.1") (idle-IsModest p)
        (record { closes = omega arith; leaves = omega arith }))
      (recv_peers-IsModest nodes)

send_packet_force-IsModest : (packet : Bytes) (p : Peer) → IsModest p (send_packet_force packet p)
unfolding send_packet_force
send_packet_force-IsModest packet p = ground arith

pub send_packet-IsModest : (packet : Option Bytes) (p : Peer) → IsModest p (send_packet packet p)
unfolding send_packet send_packet_force
send_packet-IsModest none p = idle-IsModest p
send_packet-IsModest (some packet) p = ground arith

send_front-IsModest : (q : List (Option Bytes)) (p : Peer) → IsModest p (send_front q p)
unfolding send_front send_packet_force
send_front-IsModest [] p = idle-IsModest p
send_front-IsModest (none ∷ q) p = idle-IsModest p
send_front-IsModest (some packet ∷ q) p = ground arith

pub handle_write-IsModest : (error : Bool) (p : Peer) → IsModest p (handle_write error p)
unfolding handle_write
handle_write-IsModest error p = ground (
  arith,
  detach-IsModest (record p { sending_packet = none }),
  send_front-IsModest p.send_q (record p { sending_packet = none }),
)

pub handle_verify_timer-IsModest : (w : Wait) (p : Peer) → IsModest p (handle_verify_timer w p)
unfolding handle_verify_timer
handle_verify_timer-IsModest aborted p = idle-IsModest p
handle_verify_timer-IsModest failed p = ground arith
handle_verify_timer-IsModest expired p = detach-IsModest p

pub connect-IsModest :
    (ip : String) (port : ℤ) (resolved timed : Bool) (p : Peer)
    → IsModest p (connect ip port resolved timed p)
unfolding connect
connect-IsModest ip port resolved timed p = ground (
  arith,
  detach-IsModest
      (record p { client_connect = true; ip_port = (ip, port); ip_port_connect = (ip, port) }),
)

pub handle_connect-IsModest : (error : Bool) (p : Peer) → IsModest p (handle_connect error p)
unfolding handle_connect
handle_connect-IsModest error p = ground (arith, detach-IsModest p)

pub connected-IsModest :
    (error : Bool) (ip : String) (port : ℤ) (p : Peer) → IsModest p (connected error ip port p)
unfolding connected
connected-IsModest error ip port p =
    ground
      (arith, detach-IsModest (record p { client_connect = false; ip_port_connect = (ip, port) }))

start_read_body-IsModest : (n : ℕ) (p : Peer) → IsModest p (start_read_body n p)
unfolding start_read_body
start_read_body-IsModest n p = ground arith

-- The parts that the repository does not implement are taken to detach in the same way.
module _ (proto : Protocol)
    (modest : (t : MessageType) (m : Bytes) (p : Peer) → IsModest p (proto.handle t m p)) where
  receive-IsModest : (t : MessageType) (m : Bytes) (p : Peer) → IsModest p (receive proto t m p)
  unfolding receive
  receive-IsModest error_msg m p = idle-IsModest p
  receive-IsModest ping m p = idle-IsModest p
  receive-IsModest get_contacts m p = idle-IsModest p
  receive-IsModest contact m p = idle-IsModest p
  receive-IsModest peers m p = recv_peers-IsModest (proto.endpoints m) p
  receive-IsModest search_transaction m p = idle-IsModest p
  receive-IsModest get_account m p = idle-IsModest p
  receive-IsModest account m p = idle-IsModest p
  receive-IsModest get_object m p = idle-IsModest p
  receive-IsModest object m p = idle-IsModest p
  receive-IsModest other m p = modest other m p

  process_read_buffer-IsModest : (p : Peer) → IsModest p (process_read_buffer proto p)
  unfolding process_read_buffer
  process_read_buffer-IsModest p =
      if-IsModest
        (if get_type p.readbuf == 1 then p.helloed else (if p.helloed then false else true))
        (detach-IsModest p) (dispatched (message_type (get_type p.readbuf)))
    where
      dispatched :
          (o : Option MessageType)
          → IsModest p (elim o [
            | none ↦ (p, [])
            | some t ↦
                if proto.parses t (drop header_size p.readbuf)
                then receive proto t (drop header_size p.readbuf) p
                else (p, [])
          ])
      dispatched none = idle-IsModest p
      dispatched (some t) =
          if-IsModest (proto.parses t (drop header_size p.readbuf))
            (receive-IsModest t (drop header_size p.readbuf) p) (idle-IsModest p)

  pub handle_read_header-IsModest :
      (error : Bool) (p : Peer) → IsModest p (handle_read_header proto error p)
  unfolding handle_read_header
  handle_read_header-IsModest error p =
      ground (arith, detach-IsModest p, start_read_body-IsModest (get_length p.readbuf) p)

  pub handle_read_body-IsModest :
      (error : Bool) (p : Peer) → IsModest p (handle_read_body proto error p)
  unfolding handle_read_body
  handle_read_body-IsModest error p = if-IsModest p.detaching (idle-IsModest p) (
      if-IsModest error (detach-IsModest p)
        (after-IsModest (process_read_buffer-IsModest p) start_read_header-IsModest))
