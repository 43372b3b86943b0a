-- ===== src/Assembly/Steady/Tests.antt =====
-- A steady assembler of capturer/extendedassembly.go with one connection, which holds two pages.
use data_collector.Base.{
  ℕ, ◌==◌, ◌≡◌, refl, inr, List, [], ◌∷◌, length, ltb, if◌then◌else◌, arith, ok,
}
use data_collector.Assembly.Sequence.{difference}
use data_collector.Assembly.Pool.{StreamPool, new_stream_pool}
use data_collector.Assembly.Connection.{zero_connection}
use data_collector.Assembly.Work.{Event.created}
use data_collector.Assembly.Assembler.{
  Assembler, default_assembler_options, new_assembler, assemble_with_timestamp, flush_all,
}
use data_collector.Assembly.Tests.{
  flow, packet, held, sample_cache, sample_conn, sample_ids, sample-Accounts, sample-Holds,
}
use data_collector.Assembly.Steady.Slots.{Slot}
use data_collector.Assembly.Steady.Protocol.{Lawful, start, creates, times_made, times_completed}
use data_collector.Assembly.Steady.Invariant.{Waits, Steady}
use data_collector.Assembly.Steady.Packets.{Assembled, assemble_with_timestamp-Assembled}
use data_collector.Assembly.Steady.Emptying.{flush_all-times_completed}
use data_collector.Assembly.Steady.Aging.{FlushedOlder, flush_older_than-FlushedOlder}
use data_collector.Assembly.Steady.Calls.{
  incoming, older_than, everything, run_calls, run_calls-Lawful,
}

abbrev sample_pool : StreamPool
sample_pool = record {
  conns = (flow, 0) ∷ [];
  users = 1;
  free = [];
  all = λ c. if c == 0 then sample_conn else zero_connection;
  made = 1;
  next_alloc = 1024;
  streams = 1;
}

abbrev sample_assembler : Assembler
sample_assembler = record {
  options = default_assembler_options;
  ret = [];
  pc = sample_cache;
  pool = sample_pool;
  events = created 0 ∷ [];
}

abbrev sample_slot : Slot
sample_slot = record { key = flow; id = 0; stream = 0; ids = sample_ids }

sample-Waits : Waits sample_slot sample_conn held
unfolding difference
sample-Waits = record {
  key_is = refl;
  list = sample-Holds;
  counted = refl;
  waits = refl;
  is_open = refl;
  has_stream = refl;
  range = inr (90, refl, omega arith);
}

sample-Steady : Steady sample_assembler (sample_slot ∷ [])
sample-Steady = record {
  conns_are = refl;
  keys = (tt, tt);
  accounts = sample-Accounts;
  each = (sample-Waits, tt);
  apart = (tt, tt);
  below = (omega arith, tt);
  room = omega arith;
  calls = creates [] [] 0 start;
}

assemble_with_timestamp-Assembled_example :
    (a : Assembler) × (assemble_with_timestamp 1 flow (packet 90 (7 ∷ 8 ∷ [])) 9 sample_assembler
      ≡ ok a)
    × Assembled sample_assembler a
assemble_with_timestamp-Assembled_example =
    assemble_with_timestamp-Assembled 0 flow (packet 90 (7 ∷ 8 ∷ [])) 9 sample_assembler
      (sample_slot ∷ []) sample-Steady

flush_all-times_completed_example :
    (a : Assembler) × (flush_all sample_assembler ≡ ok (1, a))
    × (a.pool.conns ≡ [])
    × (times_completed 0 a.events ≡ times_made 0 a.events)
    × (times_made 0 a.events ≡ (if ltb 0 a.pool.streams then 1 else 0))
flush_all-times_completed_example =
    flush_all-times_completed sample_assembler (sample_slot ∷ []) 0 sample-Steady

flush_older_than-FlushedOlder_example : FlushedOlder 6 sample_assembler 1
flush_older_than-FlushedOlder_example =
    flush_older_than-FlushedOlder 6 sample_assembler (sample_slot ∷ []) sample-Steady

run_calls-Lawful_example :
    (a : Assembler) × (opened : List ℕ) × (run_calls 1
        (incoming flow (packet 100 (1 ∷ [])) 5 ∷ older_than 6 ∷ everything ∷ [])
        (new_assembler new_stream_pool)
      ≡ ok a)
    × Lawful a.events opened a.pool.streams
    × (length a.pool.conns ≡ length opened)
run_calls-Lawful_example =
    run_calls-Lawful 0 (incoming flow (packet 100 (1 ∷ [])) 5 ∷ older_than 6 ∷ everything ∷ [])
