-- ===== src/Capture/Loop/Running.antt =====
-- The packet loop of capturer/actor.go on the assembler that its goroutine makes for itself.
use data_collector.Base.{
  ℕ, suc, ◌≡◌, ◌≢◌, refl, ap, ◌∙◌, List, [], ◌∷◌, length, Option, none, some, ok,
}
use data_collector.Assembly.Segment.{Tcp}
use data_collector.Assembly.Pool.{new_stream_pool}
use data_collector.Assembly.Assembler.{Assembler, new_assembler, assemble_with_timestamp}
use data_collector.Assembly.Steady.Slots.{Slot, streams_of}
use data_collector.Assembly.Steady.Protocol.{Lawful}
use data_collector.Assembly.Steady.Invariant.{Steady}
use data_collector.Assembly.Steady.Packets.{assemble_with_timestamp-Assembled}
use data_collector.Assembly.Steady.Calls.{new_assembler-Steady, length-entries}
use data_collector.Capture.Actor.{InternalStatus, ready, working, paused}
use data_collector.Capture.Loop.{
  Packet, Transport, tcp_layer, other_layer, Segment, segment_of, cons_option, segments,
  assemble_all, capture_packets, capture_packets_lem,
}

assemble_all_step :
    (fuel : ℕ) (s : Segment) (ss : List Segment) (a a1 : Assembler)
    → assemble_with_timestamp fuel s.0 s.1.0 s.1.1 a ≡ ok a1
    → assemble_all fuel (s ∷ ss) a ≡ assemble_all fuel ss a1
assemble_all_step fuel s ss a a1 e = rw e

assemble_all-Steady :
    (fuel : ℕ) (ss : List Segment) (a : Assembler) (slots : List Slot)
    → Steady a slots
    → (a' : Assembler) × (slots' : List Slot) × (assemble_all (suc fuel) ss a ≡ ok a')
      × Steady a' slots'
assemble_all-Steady fuel [] a slots v = (a, slots, refl, v)
assemble_all-Steady fuel ((k, (t, ts)) ∷ ss) a slots v =
    let (a1, run, g) = assemble_with_timestamp-Assembled fuel k t ts a slots v in
    let (a2, slots2, more, u) = assemble_all-Steady fuel ss a1 g.slots g.steady in
    (a2, slots2, assemble_all_step (suc fuel) (k, (t, ts)) ss a a1 run ∙ more, u)

-- What the loop hands to the assembler, in their order: the segment, with its flows and its time, of each
-- packet that has a network layer and TCP, and does not come in a pause.
pub data Chosen : List (InternalStatus × Packet) → List Segment → Type 0 where
  none_left : Chosen [] []
  in_pause :
      (p : Packet) (ps : List (InternalStatus × Packet)) (ss : List Segment)
      → Chosen ps ss
      → Chosen ((paused, p) ∷ ps) ss
  no_network :
      (status : InternalStatus) (p : Packet) (ps : List (InternalStatus × Packet))
      (ss : List Segment)
      → p.network ≡ none
      → Chosen ps ss
      → Chosen ((status, p) ∷ ps) ss
  no_transport :
      (status : InternalStatus) (p : Packet) (ps : List (InternalStatus × Packet))
      (ss : List Segment)
      → p.transport ≡ none
      → Chosen ps ss
      → Chosen ((status, p) ∷ ps) ss
  not_tcp :
      (status : InternalStatus) (p : Packet) (ps : List (InternalStatus × Packet))
      (ss : List Segment)
      → p.transport ≡ some other_layer
      → Chosen ps ss
      → Chosen ((status, p) ∷ ps) ss
  tcp :
      (status : InternalStatus) (p : Packet) (ps : List (InternalStatus × Packet))
      (ss : List Segment) (net flow : ℕ) (t : Tcp)
      → status ≢ paused
      → p.network ≡ some net
      → p.transport ≡ some (tcp_layer flow t)
      → Chosen ps ss
      → Chosen
          ((status, p) ∷ ps)
          ((record { net_flow = net; tcp_flow = flow }, (t, p.timestamp)) ∷ ss)

packet-Chosen :
    (status : InternalStatus) (p : Packet) (ps : List (InternalStatus × Packet)) (ss : List Segment)
    (n : Option ℕ) (x : Option Transport)
    → status ≢ paused
    → p.network ≡ n
    → p.transport ≡ x
    → Chosen ps ss
    → Chosen ((status, p) ∷ ps) (cons_option (segment_of n x p.timestamp) ss)
unfolding segment_of
packet-Chosen status p ps ss none x running e f h = no_network status p ps ss e h
packet-Chosen status p ps ss (some net) none running e f h = no_transport status p ps ss f h
packet-Chosen status p ps ss (some net) (some other_layer) running e f h =
    not_tcp status p ps ss f h
packet-Chosen status p ps ss (some net) (some (tcp_layer flow t)) running e f h =
    tcp status p ps ss net flow t running e f h

segments-Chosen : (ps : List (InternalStatus × Packet)) → Chosen ps (segments ps)
segments-Chosen [] = none_left
segments-Chosen ((paused, p) ∷ ps) = in_pause p ps (segments ps) (segments-Chosen ps)
segments-Chosen ((ready, p) ∷ ps) =
    packet-Chosen ready p ps (segments ps) (p.network) (p.transport) (λ e. cc) refl refl
      (segments-Chosen ps)
segments-Chosen ((working, p) ∷ ps) =
    packet-Chosen working p ps (segments ps) (p.network) (p.transport) (λ e. cc) refl refl
      (segments-Chosen ps)

-- The packet loop, on a new assembler of a new pool, takes all its packets without a fault, whatever the
-- status of the capture is at each. It hands to the assembler, one after the other, exactly the segments
-- of the packets that have a network layer and TCP and do not come in a pause, with their flows and
-- times; and the calls of streams that the assembler makes are lawful, with as many streams open as the
-- map of the pool has connections.
pub capture_packets-Chosen :
    (fuel : ℕ) (ps : List (InternalStatus × Packet))
    → (ss : List Segment) × (a : Assembler) × (opened : List ℕ) × Chosen ps ss
      × (capture_packets (suc fuel) ps (new_assembler new_stream_pool) ≡ ok a)
      × (assemble_all (suc fuel) ss (new_assembler new_stream_pool) ≡ ok a)
      × Lawful a.events opened a.pool.streams
      × (length a.pool.conns ≡ length opened)
capture_packets-Chosen fuel ps =
    let (a, slots, run, v) =
      assemble_all-Steady fuel (segments ps) (new_assembler new_stream_pool) []
        new_assembler-Steady in
    (
      segments ps,
      a,
      streams_of slots,
      segments-Chosen ps,
      capture_packets_lem (suc fuel) ps (new_assembler new_stream_pool) ∙ run,
      run,
      v.calls,
      ap length v.conns_are ∙ length-entries slots,
    )
