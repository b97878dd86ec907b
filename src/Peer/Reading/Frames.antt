-- ===== src/Peer/Reading/Frames.antt =====
-- How src/Peer/Peer.cpp takes messages from the stream: a header, then the body it announces.
use bytev.Prelude.{
  ℕ, ◌+◌, ◌^◌, ◌≤◌, ◌<◌, ◌≡◌, refl, Bool, true, false, some, [], ◌∷◌, ◌++◌, length, drop, take,
  replicate, ◌==◌, arith, ok, if_of_false, if_of_true, subst, sym, ok_injective, if◌then◌else◌, not,
  take-nil, le→ltb, suc, ap, ap₂, ◌∙◌,
}
use bytev.Serializer.Buffer.{Bytes}
use bytev.Packet.{header_size, get_length, get_type, write_at, pack}
use bytev.Packet.Header.{header, pack_lem, write_at-header, get_length-header, get_type-header}
use bytev.Peer.State.{Peer, async_read, ◌>>>◌, start_read_header, start_read_body, resize}
use bytev.Peer.Reading.{
  Protocol, MessageType, message_type, receive, process_read_buffer, max_message,
  handle_read_header, handle_read_body, fill,
}

-- The buffer between the two reads of a frame.
abbrev with_buffer : Peer → Bytes → Peer
with_buffer p b = record p { readbuf = b }

start_read_header-attached :
    (p : Peer)
    → p.detaching ≡ false
    → start_read_header p ≡ (with_buffer p (replicate 6 0), async_read 0 header_size ∷ [])
unfolding start_read_header resize
start_read_header-attached p a = if_of_false _ _ a

header_read :
    (p : Peer) (size type : ℕ)
    → p.detaching ≡ false
    → fill 0 (header size type) (start_read_header p).0 ≡ with_buffer p (header size type)
unfolding fill header write_at
header_read p size type a = rw (start_read_header-attached p a)

resize-header :
    (size type : ℕ)
    → resize (header_size + size) (header size type) ≡ header size type ++ replicate size 0
unfolding resize header
resize-header size type =
    let e : header_size + size ≡ suc (suc (suc (suc (suc (suc size))))) = omega arith in
    rw e (ap₂ (λ x n. header size type ++ (x ++ replicate n 0)) (take-nil size) (omega arith))

body_started :
    (p : Peer) (size type : ℕ)
    → p.detaching ≡ false
    → start_read_body size (with_buffer p (header size type))
      ≡ (with_buffer p (header size type ++ replicate size 0), async_read header_size size ∷ [])
unfolding start_read_body
body_started p size type a =
    if_of_false _ _ a
    ∙ ap (λ b. (with_buffer p b, async_read header_size size ∷ [])) (resize-header size type)

header_accepted :
    (proto : Protocol) (p : Peer) (size type : ℕ)
    → p.detaching ≡ false
    → size ≤ max_message
    → handle_read_header proto false (with_buffer p (header size type))
      ≡ start_read_body size (with_buffer p (header size type))
unfolding handle_read_header
header_accepted proto p size type a h =
    let e : get_length (header size type) ≡ size =
      unfold header in get_length-header size type [] (omega arith) in
    if_of_false _ _ a ∙ rw e (if_of_false _ _ (le→ltb max_message size h))

body_read :
    (p : Peer) (m : Bytes) (type : ℕ)
    → fill header_size m (with_buffer p (header (length m) type ++ replicate (length m) 0))
      ≡ with_buffer p (header (length m) type ++ m)
unfolding fill
body_read p m type = ap (with_buffer p) (write_at-header (length m) type m)

phase_right :
    (first helloed : Bool)
    → first ≡ not helloed
    → (if first then helloed else (if helloed then false else true)) ≡ false
phase_right first helloed e = ground arith

buffer_processed :
    (proto : Protocol) (q : Peer) (t : MessageType) (m : Bytes) (type : ℕ)
    → get_type q.readbuf ≡ type
    → drop header_size q.readbuf ≡ m
    → message_type type ≡ some t
    → (type == 1) ≡ not q.helloed
    → proto.parses t m ≡ true
    → process_read_buffer proto q ≡ receive proto t m q
unfolding process_read_buffer
buffer_processed proto q t m type e d known phase parsed =
    rw (e, process_read_buffer)
      (if_of_false _ _ (phase_right (type == 1) q.helloed phase)
        ∙ rw known (rw d (if_of_true _ _ parsed)))

header_step :
    (proto : Protocol) (p : Peer) (size type : ℕ)
    → p.detaching ≡ false
    → size ≤ max_message
    → handle_read_header proto false (fill 0 (header size type) (start_read_header p).0)
      ≡ (with_buffer p (header size type ++ replicate size 0), async_read header_size size ∷ [])
header_step proto p size type a h =
    ap (handle_read_header proto false) (header_read p size type a)
    ∙ header_accepted proto p size type a h
    ∙ body_started p size type a

message_step :
    (proto : Protocol) (p : Peer) (t : MessageType) (m : Bytes) (type : ℕ)
    → p.detaching ≡ false
    → type < 2 ^ 16
    → message_type type ≡ some t
    → (type == 1) ≡ not p.helloed
    → proto.parses t m ≡ true
    → let q = with_buffer p (header (length m) type ++ m) in
      handle_read_body proto false q ≡ (receive proto t m q >>> start_read_header)
unfolding handle_read_body
message_step proto p t m type a ht known phase parsed =
    if_of_false _ _ a
    ∙ ap (λ r. r >>> start_read_header)
        (buffer_processed proto (with_buffer p (header (length m) type ++ m)) t m type
          (get_type-header (length m) type m ht) (unfold header in refl) known phase parsed)

-- The frame's parts, at the buffer that pack makes.
abbrev Received : Protocol → Peer → MessageType → Bytes → Bytes → Type 0
Received proto p t m buf =
    let (p', es) =
      handle_read_header proto false (fill 0 (take header_size buf) (start_read_header p).0) in
    let q = fill header_size (drop header_size buf) p' in
    (es ≡ async_read header_size (length m) ∷ [])
    × (q ≡ record p { readbuf = buf })
    × (handle_read_body proto false q ≡ (receive proto t m q >>> start_read_header))

frame_read :
    (proto : Protocol) (p : Peer) (t : MessageType) (m : Bytes) (type : ℕ)
    → p.detaching ≡ false
    → length m ≤ max_message
    → type < 2 ^ 16
    → message_type type ≡ some t
    → (type == 1) ≡ not p.helloed
    → proto.parses t m ≡ true
    → Received proto p t m (header (length m) type ++ m)
unfolding header
frame_read proto p t m type a h ht known phase parsed =
    rw (header_step proto p (length m) type a h) (
      refl,
      body_read p m type,
      rw (body_read p m type) (message_step proto p t m type a ht known phase parsed),
    )

-- A peer that is not detaching reads the next frame of the stream, a packed message of 1 to
-- 32 * 1024 * 1024 bytes with a type that the switch knows, in the right phase (a hello before the
-- peer has said hello, any other type after), and which parses: handle_read_header starts a read
-- of exactly the message's bytes, and handle_read_body then hands exactly the message to the
-- handler of its type and goes on to the next header.
pub frame-received :
    (proto : Protocol) (p : Peer) (t : MessageType) (m : Bytes) (type : ℕ) {buf : Bytes}
    → p.detaching ≡ false
    → 0 < length m
    → length m ≤ max_message
    → type < 2 ^ 16
    → message_type type ≡ some t
    → (type == 1) ≡ not p.helloed
    → proto.parses t m ≡ true
    → pack m type ≡ ok buf
    → let (p', es) =
        handle_read_header proto false (fill 0 (take header_size buf) (start_read_header p).0) in
      let q = fill header_size (drop header_size buf) p' in
      (es ≡ async_read header_size (length m) ∷ [])
      × (q ≡ record p { readbuf = buf })
      × (handle_read_body proto false q ≡ (receive proto t m q >>> start_read_header))
frame-received proto p t m type a h h' ht known phase parsed packed =
    subst (Received proto p t m) (ok_injective (sym (pack_lem m type h (omega arith)) ∙ packed))
      (frame_read proto p t m type a h' ht known phase parsed)
