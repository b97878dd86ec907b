-- ===== src/Peer/Runs.antt =====
-- Runs of a peer of src/Peer/Peer.cpp: its handlers and methods as events, in any order.
use Prim.Native.String.{String}
use bytev.Prelude.{ℕ, ◌+◌, ◌≤◌, Bool, true, false, Option, List, [], ◌∷◌, arith}
use bytev.Prelude.Int.{ℤ}
use bytev.Serializer.Buffer.{Bytes}
use bytev.Packet.{header_size}
use bytev.Peer.State.{
  Peer, Run, ◌>>>◌, set_ip_port, detach, Wait, handle_verify_timer, connect, handle_connect,
  connected, send_packet, handle_write,
}
use bytev.Peer.Reading.{
  Protocol, MessageType, handle_read_header, handle_read_body, handle_start, fill,
}
use bytev.Peer.Lifecycle.{
  closed, gone, bit, IsModest, after-IsModest, idle-IsModest, if-IsModest, detach-IsModest,
  start_read_header-IsModest, send_packet-IsModest, handle_write-IsModest,
  handle_verify_timer-IsModest, connect-IsModest, handle_connect-IsModest, connected-IsModest,
  handle_read_header-IsModest, handle_read_body-IsModest,
}

-- A Boolean is the error of the completed operation; a read also brings the bytes that it put
-- into the buffer.
pub data Event : Type 0 where
  told_address : String → ℤ → Event
  detached : Event
  timer : Wait → Event
  connects : String → ℤ → Bool → Bool → Event
  connect_done : Bool → Event
  accepted : Bool → String → ℤ → Event
  handshake_done : Bool → Event
  sends : Option Bytes → Event
  write_done : Bool → Event
  header_done : Bool → Bytes → Event
  body_done : Bool → Bytes → Event

module _ (proto : Protocol) (say_hello : Peer → Run) where
  unfoldable pub step : Event → Peer → Run
  step (told_address ip port) p = set_ip_port ip port p
  step detached p = detach p
  step (timer w) p = handle_verify_timer w p
  step (connects ip port resolved timed) p = connect ip port resolved timed p
  step (connect_done error) p = handle_connect error p
  step (accepted error ip port) p = connected error ip port p
  step (handshake_done error) p = handle_start say_hello error p
  step (sends packet) p = send_packet packet p
  step (write_done error) p = handle_write error p
  step (header_done error v) p = handle_read_header proto error (fill 0 v p)
  step (body_done error v) p = handle_read_body proto error (fill header_size v p)

  unfoldable pub run : List Event → Peer → Run
  run [] p = (p, [])
  run (e ∷ es) p = step e p >>> run es

module _ (proto : Protocol) (say_hello : Peer → Run)
    (modest : (t : MessageType) (m : Bytes) (p : Peer) → IsModest p (proto.handle t m p))
    (modest_hello : (p : Peer) → IsModest p (say_hello p)) where
  filled : {r : Run} (o : ℕ) (v : Bytes) (p : Peer) → IsModest (fill o v p) r → IsModest p r
  unfolding fill
  filled o v p h = record { closes = h.closes; leaves = h.leaves }

  step-IsModest : (e : Event) (p : Peer) → IsModest p (step proto say_hello e p)
  unfolding step
  step-IsModest (told_address ip port) p =
      unfold set_ip_port in record { closes = omega arith; leaves = omega arith }
  step-IsModest detached p = detach-IsModest p
  step-IsModest (timer w) p = handle_verify_timer-IsModest w p
  step-IsModest (connects ip port resolved timed) p = connect-IsModest ip port resolved timed p
  step-IsModest (connect_done error) p = handle_connect-IsModest error p
  step-IsModest (accepted error ip port) p = connected-IsModest error ip port p
  step-IsModest (handshake_done error) p =
      unfold handle_start in
      if-IsModest error (detach-IsModest p)
        (after-IsModest (modest_hello p) start_read_header-IsModest)
  step-IsModest (sends packet) p = send_packet-IsModest packet p
  step-IsModest (write_done error) p = handle_write-IsModest error p
  step-IsModest (header_done error v) p =
      filled 0 v p (handle_read_header-IsModest proto modest error (fill 0 v p))
  step-IsModest (body_done error v) p =
      filled header_size v p (handle_read_body-IsModest proto modest error (fill header_size v p))

  run-IsModest : (es : List Event) (p : Peer) → IsModest p (run proto say_hello es p)
  unfolding run
  run-IsModest [] p = idle-IsModest p
  run-IsModest (e ∷ es) p = after-IsModest (step-IsModest e p) (run-IsModest es)

  -- In any run of a peer, whatever its events and their order, the pool is told at most once that
  -- the connection is closed and at most once that the node is gone, and never again once the peer
  -- is detaching; where it is told, the peer is detaching at the end. The handlers and the hello
  -- that the repository does not implement are taken to tell the pool only by a detach.
  pub run_tells_once :
      (es : List Event) (p : Peer)
      → let (p', fs) = run proto say_hello es p in
        (closed fs + bit p.detaching ≤ bit p'.detaching)
        × (gone fs + bit p.detaching ≤ bit p'.detaching)
        × (closed fs ≤ 1)
        × (gone fs ≤ 1)
  run_tells_once es p =
      let h = run-IsModest es p in
      let one = bit_le (run proto say_hello es p).0.detaching in
      (h.closes, h.leaves, omega (arith, h.closes, one), omega (arith, h.leaves, one))
    where
      bit_le : (b : Bool) → bit b ≤ 1
      bit_le true = omega arith
      bit_le false = omega arith
