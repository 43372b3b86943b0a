-- ===== src/Assembly/Steady/Packets.antt =====
-- `AssembleWithTimestamp` of capturer/extendedassembly.go between two states of the whole assembler.
use data_collector.Base.{
  ℕ, suc, ◌≡◌, sym, ap, ◌∙◌, inl, inr, not, ◌&&◌, ◌==◌, true, false, Bool-cases, List, [], ◌∷◌,
  ◌++◌, append_assoc, append-nil, none, some, length, arith, ok,
}
use data_collector.Assembly.Connection.{Key}
use data_collector.Assembly.Segment.{Tcp}
use data_collector.Assembly.Work.{Work, Event, reassembly_complete}
use data_collector.Assembly.Work.Ready.{Ending, waiting, finished, Delivery}
use data_collector.Assembly.Assembler.{
  Assembler, lock, unlock, open_connection, is_empty_packet, assemble_locked,
  assemble_with_timestamp,
}
use data_collector.Assembly.Assembler.Packet.{assemble_locked-Outcome}
use data_collector.Assembly.Steady.Slots.{Slot}
use data_collector.Assembly.Steady.Invariant.{Steady, lock-Ready, rest_of}
use data_collector.Assembly.Steady.Change.{Outcome-Steps}
use data_collector.Assembly.Steady.Moved.{Changed}
use data_collector.Assembly.Steady.Unlock.{Steps-Changed}
use data_collector.Assembly.Steady.Opening.{Opens, nothing, opened, Makes, open_connection-Opens}

Steady-ret :
    (a : Assembler) (slots : List Slot) → Steady a slots → Steady (record a { ret = [] }) slots
Steady-ret a slots v = record {
  conns_are = v.conns_are;
  keys = v.keys;
  accounts = v.accounts;
  each = v.each;
  apart = v.apart;
  below = v.below;
  room = v.room;
  calls = v.calls;
}

-- The calls of one packet, in order: the stream is made or was there before; it is given something once,
-- or nothing; it is complete, or not.
pub data Ends (s : ℕ) : List Event → Type 0 where
  goes_on : Ends s []
  at_end : Ends s (reassembly_complete s ∷ [])

pub data PacketCalls : List Event → Type 0 where
  no_calls : PacketCalls []
  calls_of :
      (s : ℕ) (made sent ended : List Event)
      → Makes s made
      → Delivery s sent
      → Ends s ended
      → PacketCalls (made ++ (sent ++ ended))

-- Steady again, and the calls were those of one packet.
pub record Assembled (a a' : Assembler) : Type 0 where
  pub slots : List Slot
  pub steady : Steady a' slots
  pub made : List Event
  pub of_packet : PacketCalls made
  pub events_are : a'.events ≡ a.events ++ made

assemble_empty :
    (fuel : ℕ) (k : Key) (t : Tcp) (ts : ℕ) (a : Assembler)
    → is_empty_packet t ≡ true
    → assemble_with_timestamp fuel k t ts a ≡ ok a
unfolding assemble_with_timestamp
assemble_empty fuel k t ts a e = ground (arith, e)

assemble_nothing :
    (fuel : ℕ) (k : Key) (t : Tcp) (ts : ℕ) (a a' : Assembler)
    → is_empty_packet t ≡ false
    → open_connection fuel k (not t.syn && length t.payload == 0) ts (record a { ret = [] })
      ≡ ok (none, a')
    → assemble_with_timestamp fuel k t ts a ≡ ok a'
unfolding assemble_with_timestamp
assemble_nothing fuel k t ts a a' e f = rw (e, f)

assemble_opened :
    (fuel : ℕ) (k : Key) (t : Tcp) (ts : ℕ) (a a' : Assembler) (w w' : Work)
    → is_empty_packet t ≡ false
    → open_connection fuel k (not t.syn && length t.payload == 0) ts (record a { ret = [] })
      ≡ ok (some w, a')
    → assemble_locked t ts w ≡ ok w'
    → assemble_with_timestamp fuel k t ts a ≡ ok (unlock w')
unfolding assemble_with_timestamp
assemble_opened fuel k t ts a a' w w' e f g = rw (e, f, g)

calls_of_packet :
    (s : ℕ) (w w' : Work) (rest : List ℕ) (before made : List Event)
    → w.events ≡ before ++ made
    → Makes s made
    → Ending w s rest w'
    → (calls : List Event) × PacketCalls calls × (w'.events ≡ before ++ calls)
calls_of_packet s w w' rest before made e m (waiting ids calls r p d f) = (
  made ++ (calls ++ []),
  calls_of s made calls [] m d goes_on,
  f
      ∙ ap (λ (z : List Event). z ++ calls) e
      ∙ append_assoc before made calls
      ∙ ap (λ (z : List Event). before ++ (made ++ z)) (sym (append-nil calls)),
)
calls_of_packet s w w' rest before made e m (finished calls a c p d f) = (
  made ++ (calls ++ reassembly_complete s ∷ []),
  calls_of s made calls (reassembly_complete s ∷ []) m d at_end,
  f
      ∙ ap (λ (z : List Event). z ++ (calls ++ reassembly_complete s ∷ [])) e
      ∙ append_assoc before made (calls ++ reassembly_complete s ∷ []),
)

after-Steady :
    (xs : List Slot) (s : Slot) (ys : List Slot) (w : Work)
    → Changed xs s ys w
    → (slots : List Slot) × Steady (unlock w) slots
after-Steady xs s ys w (inl (ids, v, op, rest)) = (xs ++ record s { ids = ids } ∷ ys, v)
after-Steady xs s ys w (inr (v, c)) = (xs ++ ys, v)

-- With the assembler steady, any packet, with fuel for one round of the search, is assembled without a
-- fault; the assembler is steady again, and its calls were, in order: at most one to make a stream, at
-- most one that gives this stream something, at most one that completes it.
pub assemble_with_timestamp-Assembled :
    (fuel : ℕ) (k : Key) (t : Tcp) (ts : ℕ) (a : Assembler) (slots : List Slot)
    → Steady a slots
    → (a' : Assembler) × (assemble_with_timestamp (suc fuel) k t ts a ≡ ok a') × Assembled a a'
unfolding lock unlock
assemble_with_timestamp-Assembled fuel k t ts a slots v = elim (Bool-cases (is_empty_packet t)) [
  | inl e ↦ (
    a,
    assemble_empty (suc fuel) k t ts a e,
    record {
      slots = slots;
      steady = v;
      made = [];
      of_packet = no_calls;
      events_are = sym (append-nil a.events);
    },
  )
  | inr e ↦ by_search e (
      open_connection-Opens fuel k (not t.syn && length t.payload == 0) ts (record a { ret = [] })
        slots (Steady-ret a slots v))
]
  where
    by_search :
        is_empty_packet t ≡ false
        → Opens k
            (not t.syn && length t.payload == 0)
            (record a { ret = [] })
            slots
            (open_connection
              (suc fuel)
              k
              (not t.syn && length t.payload == 0)
              ts
              (record a { ret = [] }))
        → (a' : Assembler) × (assemble_with_timestamp (suc fuel) k t ts a ≡ ok a') × Assembled a a'
    by_search e (nothing ended others run) = (
      record a { ret = [] },
      assemble_nothing (suc fuel) k t ts a (record a { ret = [] }) e run,
      record {
        slots = slots;
        steady = Steady-ret a slots v;
        made = [];
        of_packet = no_calls;
        events_are = sym (append-nil a.events);
      },
    )
    by_search e (opened a1 xs s ys run u same_key same_ret made m events) =
        let r = lock-Ready xs s ys a1 u in
        let (w', go, o) =
          assemble_locked-Outcome t ts (lock s.id a1) s.stream s.ids (rest_of xs ys) r same_ret in
        let c =
          Steps-Changed xs s ys a1 w' u
            (Outcome-Steps (lock s.id a1) s.stream (rest_of xs ys) w' o) in
        let (slots', steady) = after-Steady xs s ys w' c in
        let (calls, packet, f) =
          calls_of_packet s.stream (lock s.id a1) w' (rest_of xs ys) a.events made events m
            o.ending in
        (
          unlock w',
          assemble_opened (suc fuel) k t ts a a1 (lock s.id a1) w' e run go,
          record {
            slots = slots';
            steady = steady;
            made = calls;
            of_packet = packet;
            events_are = f;
          },
        )
