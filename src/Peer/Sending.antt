-- ===== src/Peer/Sending.antt =====
-- The write queue of src/Peer/Peer.cpp: sendPacket, sendPacketForce and handle_write.
use bytev.Prelude.{
  ℕ, ◌+◌, ◌≡◌, refl, ap, ◌∙◌, Bool, true, false, Option, none, some, List, [], ◌∷◌, ◌++◌,
  append_assoc, append-nil, length, All, All-append, subst, sym, if_of_false, arith,
}
use bytev.Serializer.Buffer.{Bytes}
use bytev.Peer.State.{
  Peer, Effect, async_write, Run, ◌>>>◌, send_packet, send_packet_force, handle_write, send_front,
  pop_front, detach, notify_disconnected, notify_closed,
}

-- What reaches the sending side of a peer: a request, the end of a write, or a detach.
pub data Event : Type 0 where
  send : Option Bytes → Event
  wrote : Bool → Event
  close : Event

pub step : Event → Peer → Run
step (send packet) p = send_packet packet p
step (wrote error) p = handle_write error p
step close p = detach p

pub run : List Event → Peer → Run
run [] p = (p, [])
run (e ∷ es) p = step e p >>> run es

-- The packets whose writes are started.
abbrev pub writes : List Effect → List Bytes
writes [] = []
writes (async_write packet ∷ es) = packet ∷ writes es
writes (e ∷ es) = writes es

writes-append : (es fs : List Effect) → writes (es ++ fs) ≡ writes es ++ writes fs
writes-append [] fs = refl
writes-append (async_write packet ∷ es) fs = ap (◌∷◌ packet) (writes-append es fs)
writes-append (e ∷ es) fs = writes-append es fs

-- The packets that a queue of pointers holds, and those that the requests ask for.
abbrev pub packets : List (Option Bytes) → List Bytes
packets [] = []
packets (some packet ∷ q) = packet ∷ packets q
packets (none ∷ q) = packets q

abbrev pub asked : List Event → List Bytes
asked [] = []
asked (send (some packet) ∷ es) = packet ∷ asked es
asked (e ∷ es) = asked es

packets-append : (q r : List (Option Bytes)) → packets (q ++ r) ≡ packets q ++ packets r
packets-append [] r = refl
packets-append (some packet ∷ q) r = ap (◌∷◌ packet) (packets-append q r)
packets-append (none ∷ q) r = packets-append q r

abbrev pub IsSome : Option Bytes → Type 0
IsSome none = ⊥
IsSome (some packet) = Unit {0}

-- Of a peer that is not detaching: the queue holds no null pointer, and it is empty unless a write
-- is under way.
pub record IsBusy (p : Peer) : Type 0 where
  pub attached : p.detaching ≡ false
  pub filled : All IsSome p.send_q
  pub drained : p.sending_packet ≡ none → p.send_q ≡ []

-- A run of requests and successful writes.
abbrev pub IsSmooth : Event → Type 0
IsSmooth (send packet) = Unit {0}
IsSmooth (wrote true) = ⊥
IsSmooth (wrote false) = Unit {0}
IsSmooth close = ⊥

none-some : {packet : Bytes} → some packet ≡ none → ⊥
none-some e = cc

All-append_one :
    (q : List (Option Bytes)) (x : Option Bytes)
    → All IsSome q
    → IsSome x
    → All IsSome (q ++ (x ∷ []))
All-append_one q x h h' = All-append IsSome q (x ∷ []) h (h', tt)

send_packet_force-attached :
    (packet : Bytes) (p : Peer)
    → p.detaching ≡ false
    → send_packet_force packet p
      ≡ (record p { sending_packet = some packet }, async_write packet ∷ [])
unfolding send_packet_force
send_packet_force-attached packet p a = if_of_false _ _ a

handle_write-attached :
    (p : Peer)
    → p.detaching ≡ false
    → handle_write false p ≡ send_front p.send_q (record p { sending_packet = none })
unfolding handle_write
handle_write-attached p a = if_of_false _ _ a

front-order :
    (q : List (Option Bytes)) (p : Peer)
    → p.detaching ≡ false
    → p.send_q ≡ q
    → All IsSome q
    → p.sending_packet ≡ none
    → let (p', es) = send_front q p in (writes es ++ packets p'.send_q ≡ packets q) × IsBusy p'
unfolding send_front
front-order [] p a e h n = (
  ap packets e,
  record { attached = a; filled = subst (All IsSome) (sym e) tt; drained = λ _. e },
)
front-order (none ∷ q) p a e h n = absurd h.0
front-order (some packet ∷ q) p a e h n = rw (send_packet_force-attached packet p a) (
  ap (λ x. packet ∷ packets (pop_front x)) e,
  record {
    attached = a;
    filled = subst (All IsSome) (sym (ap pop_front e)) h.1;
    drained = λ n'. absurd (none-some n');
  },
)

send-order :
    (packet : Bytes) (s : Option Bytes) (p : Peer)
    → IsBusy p
    → p.sending_packet ≡ s
    → let (p', es) = send_packet (some packet) p in
      (writes es ++ packets p'.send_q ≡ packets p.send_q ++ (packet ∷ [])) × IsBusy p'
unfolding send_packet
send-order packet none p b e =
    rw (e, send_packet)
      (rw (send_packet_force-attached packet p b.attached) (
        sym (
            ap (λ q. packets q ++ (packet ∷ [])) (b.drained e)
            ∙ ap (λ q. packet ∷ packets q) (sym (b.drained e))),
        record { attached = b.attached; filled = b.filled; drained = λ n. absurd (none-some n) },
      ))
send-order packet (some other) p b e =
    rw (e, send_packet)
      (
        packets-append p.send_q (some packet ∷ []),
        record {
          attached = b.attached;
          filled = All-append_one p.send_q (some packet) b.filled tt;
          drained = λ n. absurd (none-some (sym e ∙ n));
        },
      )

step-order :
    (e : Event) (p : Peer)
    → IsSmooth e
    → IsBusy p
    → let (p', es) = step e p in
      (writes es ++ packets p'.send_q ≡ packets p.send_q ++ asked (e ∷ [])) × IsBusy p'
unfolding step send_packet
step-order (send none) p h b = (rw append-nil, b)
step-order (send (some packet)) p h b = send-order packet p.sending_packet p b refl
step-order (wrote true) p h b = absurd h
step-order (wrote false) p h b = rw (handle_write-attached p b.attached) (
    rw append-nil
      (front-order p.send_q (record p { sending_packet = none }) b.attached refl b.filled refl))
step-order close p h b = absurd h

asked-cons : (e : Event) (es : List Event) → asked (e ∷ es) ≡ asked (e ∷ []) ++ asked es
asked-cons (send none) es = refl
asked-cons (send (some packet)) es = refl
asked-cons (wrote error) es = refl
asked-cons close es = refl

-- While no write fails and the peer is not detached, every packet that is asked for is written
-- exactly once and in the order of the requests: after any sequence of requests and completed
-- writes, the writes started and then the packets queued are the packets queued before and then
-- those asked for. The queue stays free of null pointers, and empty unless a write is under way.
pub run-order :
    (es : List Event) (p : Peer)
    → All IsSmooth es
    → IsBusy p
    → let (p', fs) = run es p in
      (writes fs ++ packets p'.send_q ≡ packets p.send_q ++ asked es) × IsBusy p'
unfolding run
run-order [] p h b = (rw append-nil, b)
run-order (e ∷ es) p h b =
    let (p', fs) = step e p in
    let (one, b') = step-order e p h.0 b in
    let (more, b'') = run-order es p' h.1 b' in
    (
      rw (writes-append, append_assoc, more, ← append_assoc, one, append_assoc)
          (ap (λ x. packets p.send_q ++ x) (sym (asked-cons e es))),
      b'',
    )

-- The number of writes under way, and of those that an event ends.
abbrev pub under_way : Option Bytes → ℕ
under_way none = 0
under_way (some packet) = 1

abbrev pub ended : Event → Peer → ℕ
ended (send packet) p = 0
ended (wrote error) p = under_way p.sending_packet
ended close p = 0

writes-detach :
    (p : Peer) → (writes (detach p).1 ≡ []) × ((detach p).0.sending_packet ≡ p.sending_packet)
unfolding detach notify_disconnected notify_closed
writes-detach p = ground arith

front-writes :
    (q : List (Option Bytes)) (p : Peer)
    → p.sending_packet ≡ none
    → length (writes (send_front q p).1) ≡ under_way (send_front q p).0.sending_packet
unfolding send_front send_packet_force
front-writes [] p n = rw n
front-writes (none ∷ q) p n = rw n
front-writes (some packet ∷ q) p n = ground arith

-- Whatever happens to a peer in whatever state, a failed write and a detach included: the writes
-- under way and those that the event starts are those under way afterwards and those that it
-- ends. So there is never a second write under way.
pub step-writes :
    (e : Event) (p : Peer)
    → let (p', fs) = step e p in
      under_way p.sending_packet + length (writes fs) ≡ under_way p'.sending_packet + ended e p
unfolding step send_packet send_packet_force handle_write
step-writes (send none) p = omega arith
step-writes (send (some packet)) p = ground arith
step-writes (wrote error) p = ground (
  arith,
  writes-detach (record p { sending_packet = none }),
  front-writes p.send_q (record p { sending_packet = none }),
)
step-writes close p = ground (arith, writes-detach p)
