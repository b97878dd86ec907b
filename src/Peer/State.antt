-- ===== src/Peer/State.antt =====
-- The state of a peer (src/Peer/Peer.h), the calls that it makes, and the operations that do not
-- look at received messages.
use Prim.Native.String.{String}
use text.Mathlib.Text.{◌==◌ as str_eq}
use bytev.Prelude.{
  ℕ, ◌+◌, ◌-◌, Bool, true, false, Option, none, some, List, [], ◌∷◌, ◌++◌, length, take, replicate,
  if◌then◌else◌,
}
use bytev.Prelude.Int.{ℤ, pos, not_positive}
use bytev.Serializer.Buffer.{Bytes}
use bytev.Packet.{header_size}

abbrev pub IpPort : Type 0
IpPort = String × ℤ

-- A PackedMessage::pointer is null or a buffer. `node_public` is the key of a valid mNodePublic.
pub record Peer : Type 0 where
  pub client_connect : Bool
  pub helloed : Bool
  pub detaching : Bool
  pub node_public : Option Bytes
  pub ip_port : IpPort
  pub ip_port_connect : IpPort
  pub readbuf : Bytes
  pub send_q : List (Option Bytes)
  pub sending_packet : Option Bytes

-- The asynchronous operations that a method starts and the calls that it makes, in order.
-- `async_read o n` fills `n` bytes of the read buffer from `o` on.
pub data Effect : Type 0 where
  async_write : Bytes → Effect
  async_read : ℕ → ℕ → Effect
  async_connect : String → ℤ → Effect
  async_handshake : Bool → Effect
  async_shutdown : Effect
  timer_start timer_cancel : Effect
  peer_disconnected : Bytes → Effect
  peer_closed : String → ℤ → Effect
  save_peer : String → ℤ → Effect
  abort : Effect

abbrev pub Run : Type 0
Run = Peer × List Effect

-- One part of a method after another.
infixl 5 ◌>>>◌
abbrev pub ◌>>>◌ : Run → (Peer → Run) → Run
r >>> f = let (p, es) = r in let (p', es') = f p in (p', es ++ es')

-- bool isConnected() const
unfoldable pub is_connected : Peer → Bool
is_connected p = if p.helloed then (if p.detaching then false else true) else false

unfoldable pub set_ip_port : String → ℤ → Peer → Run
set_ip_port ip port p = (record p { ip_port = (ip, port) }, [])

-- The two notifications of detach, each with the field that it clears.
unfoldable pub notify_disconnected : Peer → Run
notify_disconnected p = elim p.node_public [
  | none ↦ (p, [])
  | some key ↦ (record p { node_public = none }, peer_disconnected key ∷ [])
]

unfoldable pub notify_closed : Peer → Run
notify_closed p =
    if str_eq p.ip_port.0 ""
    then (p, [])
    else (record p { ip_port = ("", p.ip_port.1) }, peer_closed p.ip_port.0 p.ip_port.1 ∷ [])

unfoldable pub detach : Peer → Run
detach p =
    if p.detaching
    then (p, [])
    else (record p { detaching = true; send_q = [] }, timer_cancel ∷ async_shutdown ∷ [])
      >>> notify_disconnected
      >>> notify_closed

-- How a deadline timer's wait ends.
pub data Wait : Type 0 where
  aborted failed expired : Wait

unfoldable pub handle_verify_timer : Wait → Peer → Run
handle_verify_timer aborted p = (p, [])
handle_verify_timer failed p = (p, abort ∷ [])
handle_verify_timer expired p = detach p

abbrev pub system_peer_port : ℤ
system_peer_port = pos 6561

-- `resolved` and `timed` say whether the resolver found an endpoint and the timer was set.
unfoldable pub connect : String → ℤ → Bool → Bool → Peer → Run
connect ip port resolved timed p =
    let p' = record p {
      client_connect = true;
      ip_port = (ip, port);
      ip_port_connect = (ip, port);
    } in
    if str_eq ip ""
    then (p', abort ∷ [])
    else if resolved
    then ((p', timer_start ∷ []) >>> (λ q.
        if timed
        then (q, async_connect ip (if not_positive port then system_peer_port else port) ∷ [])
        else detach q))
    else detach p'

unfoldable pub handle_connect : Bool → Peer → Run
handle_connect error p = if error then detach p else (p, async_handshake true ∷ [])

-- `ip` and `port` are those of the remote endpoint.
unfoldable pub connected : Bool → String → ℤ → Peer → Run
connected error ip port p =
    let p' = record p { client_connect = false; ip_port_connect = (ip, port) } in
    if error
    then (if p.detaching then (p', []) else detach p')
    else (p', async_handshake false ∷ [])

unfoldable pub send_packet_force : Bytes → Peer → Run
send_packet_force packet p =
    if p.detaching
    then (p, [])
    else (record p { sending_packet = some packet }, async_write packet ∷ [])

unfoldable pub send_packet : Option Bytes → Peer → Run
send_packet none p = (p, [])
send_packet (some packet) p = elim p.sending_packet [
  | some other ↦ (record p { send_q = p.send_q ++ (some packet ∷ []) }, [])
  | none ↦ send_packet_force packet p
]

abbrev pub pop_front : List (Option Bytes) → List (Option Bytes)
pop_front [] = []
pop_front (x ∷ q) = q

-- The last branch of handle_write, at the queue `q`.
unfoldable pub send_front : List (Option Bytes) → Peer → Run
send_front [] p = (p, [])
send_front (none ∷ q) p = (p, [])
send_front (some packet ∷ q) p =
    let (p', es) = send_packet_force packet p in (record p' { send_q = pop_front p'.send_q }, es)

unfoldable pub handle_write : Bool → Peer → Run
handle_write error p =
    let p' = record p { sending_packet = none } in
    if p.detaching then (p', []) else if error then detach p' else send_front p'.send_q p'

-- std::vector::resize
unfoldable pub resize : ℕ → Bytes → Bytes
resize n v = take n v ++ replicate (n - length v) 0

unfoldable pub start_read_header : Peer → Run
start_read_header p =
    if p.detaching
    then (p, [])
    else (record p { readbuf = resize header_size [] }, async_read 0 header_size ∷ [])

unfoldable pub start_read_body : ℕ → Peer → Run
start_read_body n p =
    if p.detaching
    then (p, [])
    else (record p { readbuf = resize (header_size + n) p.readbuf }, async_read header_size n ∷ [])
