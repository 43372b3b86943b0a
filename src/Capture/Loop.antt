-- ===== src/Capture/Loop.antt =====
-- The goroutine of `ensureRunning` in capturer/actor.go that reads the packets of a handle. A packet
-- comes with the internal status that the goroutine sees when it looks.
pub mod Running
use data_collector.Base.{ℕ, ◌≡◌, refl, List, [], ◌∷◌, Option, none, some, Result, ok, err, ◌>>=◌}
use data_collector.Assembly.Connection.{Key}
use data_collector.Assembly.Segment.{Tcp}
use data_collector.Assembly.Assembler.{Assembler, assemble_with_timestamp}
use data_collector.Capture.Actor.{InternalStatus, ready, working, paused}

-- The transport layer of a packet: TCP with its flow, or another one.
pub data Transport : Type 0 where
  tcp_layer : ℕ → Tcp → Transport
  other_layer : Transport

pub record Packet : Type 0 where
  pub network : Option ℕ
  pub transport : Option Transport
  pub timestamp : ℕ

abbrev pub Segment : Type 0
Segment = Key × (Tcp × ℕ)

-- The three tests on the layers, and what is handed to the assembler.
unfoldable pub segment_of : Option ℕ → Option Transport → ℕ → Option Segment
segment_of none t ts = none
segment_of (some net) none ts = none
segment_of (some net) (some other_layer) ts = none
segment_of (some net) (some (tcp_layer flow t)) ts =
    some (record { net_flow = net; tcp_flow = flow }, (t, ts))

unfoldable pub assemble : ℕ → Option Segment → Assembler → Result Assembler
unfolding assemble_with_timestamp
assemble fuel none a = ok a
assemble fuel (some (k, (t, ts))) a = assemble_with_timestamp fuel k t ts a

-- One turn of the loop: a packet that comes while the capture is paused is passed over.
unfoldable pub handle_packet : ℕ → InternalStatus → Packet → Assembler → Result Assembler
unfolding segment_of assemble
handle_packet fuel paused p a = ok a
handle_packet fuel ready p a = assemble fuel (segment_of (p.network) (p.transport) (p.timestamp)) a
handle_packet fuel working p a =
    assemble fuel (segment_of (p.network) (p.transport) (p.timestamp)) a

unfoldable pub capture_packets : ℕ → List (InternalStatus × Packet) → Assembler → Result Assembler
unfolding handle_packet
capture_packets fuel [] a = ok a
capture_packets fuel ((status, p) ∷ rest) a = do
  a1 ← handle_packet fuel status p a
  capture_packets fuel rest a1

-- The segments among the packets that do not come in a pause.
abbrev pub cons_option : Option Segment → List Segment → List Segment
cons_option none ss = ss
cons_option (some s) ss = s ∷ ss

abbrev pub segments : List (InternalStatus × Packet) → List Segment
segments [] = []
segments ((paused, p) ∷ rest) = segments rest
segments ((ready, p) ∷ rest) =
    cons_option (segment_of (p.network) (p.transport) (p.timestamp)) (segments rest)
segments ((working, p) ∷ rest) =
    cons_option (segment_of (p.network) (p.transport) (p.timestamp)) (segments rest)

abbrev pub assemble_all : ℕ → List Segment → Assembler → Result Assembler
assemble_all fuel [] a = ok a
assemble_all fuel ((k, (t, ts)) ∷ ss) a =
    assemble_with_timestamp fuel k t ts a >>= assemble_all fuel ss

then-assemble_all :
    (fuel : ℕ) (ps : List (InternalStatus × Packet)) (x : Result Assembler)
    → ((a : Assembler) → capture_packets fuel ps a ≡ assemble_all fuel (segments ps) a)
    → x >>= capture_packets fuel ps ≡ x >>= assemble_all fuel (segments ps)
then-assemble_all fuel ps (ok a) h = h a
then-assemble_all fuel ps (err e) h = refl

assemble-cons :
    (fuel : ℕ) (o : Option Segment) (ps : List (InternalStatus × Packet)) (a : Assembler)
    → ((b : Assembler) → capture_packets fuel ps b ≡ assemble_all fuel (segments ps) b)
    → assemble fuel o a >>= capture_packets fuel ps
      ≡ assemble_all fuel (cons_option o (segments ps)) a
unfolding assemble
assemble-cons fuel none ps a h = h a
assemble-cons fuel (some (k, (t, ts))) ps a h =
    then-assemble_all fuel ps (assemble_with_timestamp fuel k t ts a) h

-- The loop does to the assembler what the segments do, one after the other, that are among the packets
-- and do not come in a pause: those of packets with a network layer and TCP. A fault of one ends it.
pub capture_packets_lem :
    (fuel : ℕ) (ps : List (InternalStatus × Packet)) (a : Assembler)
    → capture_packets fuel ps a ≡ assemble_all fuel (segments ps) a
unfolding capture_packets
capture_packets_lem fuel [] a = refl
capture_packets_lem fuel ((paused, p) ∷ ps) a =
    unfold handle_packet in capture_packets_lem fuel ps a
capture_packets_lem fuel ((ready, p) ∷ ps) a =
    unfold handle_packet in
    assemble-cons fuel (segment_of (p.network) (p.transport) (p.timestamp)) ps a
      (λ b. capture_packets_lem fuel ps b)
capture_packets_lem fuel ((working, p) ∷ ps) a =
    unfold handle_packet in
    assemble-cons fuel (segment_of (p.network) (p.transport) (p.timestamp)) ps a
      (λ b. capture_packets_lem fuel ps b)
