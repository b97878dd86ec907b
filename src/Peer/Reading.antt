-- ===== src/Peer/Reading.antt =====
-- Received messages in src/Peer/Peer.cpp: the read handlers, the dispatch by message type
-- (proto/newcoin.proto), and the handlers whose bodies the file has.
pub mod Frames
pub mod Bounds
use Prim.Native.String.{String}
use text.Mathlib.Text.{◌==◌ as str_eq}
use bytev.Prelude.{
  ℕ, ◌+◌, ◌*◌, Bool, true, false, Option, none, some, List, [], ◌∷◌, ◌++◌, length, drop, ltb, ◌==◌,
  ◌||◌, if◌then◌else◌,
}
use bytev.Prelude.Int.{ℤ}
use bytev.Serializer.Buffer.{Bytes}
use bytev.Packet.{header_size, get_length, get_type, write_at}
use bytev.Peer.State.{
  Peer, Effect, save_peer, Run, ◌>>>◌, detach, start_read_header, start_read_body,
}

-- `newcoin::MessageType`
pub data MessageType : Type 0 where
  hello error_msg ping get_contacts contact get_peers peers : MessageType
  search_transaction get_account account : MessageType
  transaction status_change propose_ledger get_ledger ledger_data have_set : MessageType
  validation get_object object : MessageType

-- The cases of the switch, in its order.
unfoldable pub message_type : ℕ → Option MessageType
message_type n =
    if n == 1
    then some hello
    else if n == 2
    then some error_msg
    else if n == 3
    then some ping
    else if n == 10
    then some get_contacts
    else if n == 11
    then some contact
    else if n == 12
    then some get_peers
    else if n == 13
    then some peers
    else if n == 20
    then some search_transaction
    else if n == 21
    then some get_account
    else if n == 22
    then some account
    else if n == 30
    then some transaction
    else if n == 34
    then some status_change
    else if n == 33
    then some propose_ledger
    else if n == 31
    then some get_ledger
    else if n == 32
    then some ledger_data
    else if n == 35
    then some have_set
    else if n == 41
    then some validation
    else if n == 42
    then some get_object
    else if n == 43
    then some object
    else none

-- What the repository does not implement: `parses` is protobuf's ParseFromArray for the type's
-- message, `endpoints` the nodes of a parsed TMPeers with the text that inet_ntoa makes of the
-- address, and `handle` the handlers whose bodies are commented out (hello and the ledger and
-- transaction messages).
pub record Protocol : Type 0 where
  pub parses : MessageType → Bytes → Bool
  pub endpoints : Bytes → List (String × ℤ)
  pub handle : MessageType → Bytes → Peer → Run

-- The loop of recvPeers.
unfoldable pub recv_peers : List (String × ℤ) → Peer → Run
recv_peers [] p = (p, [])
recv_peers ((ip, port) ∷ nodes) p =
    (if str_eq ip "0.0.0.0" || str_eq ip "127.0.0.1" then (p, []) else (p, save_peer ip port ∷ []))
    >>> recv_peers nodes

abbrev pub max_message : ℕ
max_message = 32 * 1024 * 1024

module _ (proto : Protocol) where
  open proto use {parses, endpoints, handle}

  -- The call of a case of the switch. The handlers with an empty body do nothing.
  unfoldable pub receive : MessageType → Bytes → Peer → Run
  receive error_msg m p = (p, [])
  receive ping m p = (p, [])
  receive get_contacts m p = (p, [])
  receive contact m p = (p, [])
  receive peers m p = recv_peers (endpoints m) p
  receive search_transaction m p = (p, [])
  receive get_account m p = (p, [])
  receive account m p = (p, [])
  receive get_object m p = (p, [])
  receive object m p = (p, [])
  receive other m p = handle other m p

  unfoldable pub process_read_buffer : Peer → Run
  process_read_buffer p =
      let type = get_type p.readbuf in
      let message = drop header_size p.readbuf in
      if (if type == 1 then p.helloed else (if p.helloed then false else true))
      then detach p
      else elim (message_type type) [
        | none ↦ (p, [])
        | some t ↦ if parses t message then receive t message p else (p, [])
      ]

  unfoldable pub handle_read_header : Bool → Peer → Run
  handle_read_header error p =
      if p.detaching
      then (p, [])
      else if error
      then detach p
      else if ltb max_message (get_length p.readbuf)
      then detach p
      else start_read_body (get_length p.readbuf) p

  unfoldable pub handle_read_body : Bool → Peer → Run
  handle_read_body error p =
      if p.detaching
      then (p, [])
      else if error
      then detach p
      else process_read_buffer p >>> start_read_header

-- `say_hello` stands for sendHello, whose body is commented out.
unfoldable pub handle_start : (Peer → Run) → Bool → Peer → Run
handle_start say_hello error p = if error then detach p else say_hello p >>> start_read_header

-- A completed asynchronous read has put the bytes into the buffer.
unfoldable pub fill : ℕ → Bytes → Peer → Peer
fill o v p = record p { readbuf = write_at p.readbuf o v }
