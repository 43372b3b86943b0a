-- ===== src/Assembly/Steady/Calls.antt =====
-- The entry points of capturer/extendedassembly.go one after the other, in any order, on an assembler
-- that `NewAssembler` made on a pool that `NewStreamPool` made.
use data_collector.Base.{
  ℕ, suc, ◌≡◌, refl, ap, ◌∙◌, List, [], ◌∷◌, length, arith, Result, ok, ◌>>=◌,
}
use data_collector.Assembly.Connection.{Key}
use data_collector.Assembly.Segment.{Tcp}
use data_collector.Assembly.PageCache.Accounts.{new_page_cache-Accounts}
use data_collector.Assembly.Pool.{new_stream_pool}
use data_collector.Assembly.Assembler.{
  Assembler, new_assembler, assemble_with_timestamp, flush_older_than, flush_all,
}
use data_collector.Assembly.Steady.Slots.{Slot, entries, streams_of}
use data_collector.Assembly.Steady.Protocol.{Lawful, start}
use data_collector.Assembly.Steady.Invariant.{Steady}
use data_collector.Assembly.Steady.Packets.{assemble_with_timestamp-Assembled}
use data_collector.Assembly.Steady.Emptying.{flush_all-Steady}
use data_collector.Assembly.Steady.Aging.{flush_older_than-FlushedOlder}

pub data EntryCall : Type 0 where
  incoming : Key → Tcp → ℕ → EntryCall
  older_than : ℕ → EntryCall
  everything : EntryCall

-- What a call returns is left aside.
unfoldable pub run_call : ℕ → EntryCall → Assembler → Result Assembler
unfolding assemble_with_timestamp flush_older_than flush_all
run_call fuel (incoming k t ts) a = assemble_with_timestamp fuel k t ts a
run_call fuel (older_than t) a = flush_older_than t a >>= (λ (n, m, a'). ok a')
run_call fuel everything a = flush_all a >>= (λ (n, a'). ok a')

unfoldable pub run_calls : ℕ → List EntryCall → Assembler → Result Assembler
unfolding run_call
run_calls fuel [] a = ok a
run_calls fuel (c ∷ cs) a = run_call fuel c a >>= run_calls fuel cs

pub new_assembler-Steady : Steady (new_assembler new_stream_pool) []
unfolding new_assembler new_stream_pool
new_assembler-Steady = record {
  conns_are = refl;
  keys = tt;
  accounts = new_page_cache-Accounts;
  each = tt;
  apart = tt;
  below = tt;
  room = omega arith;
  calls = start;
}

run_call-Steady :
    (fuel : ℕ) (c : EntryCall) (a : Assembler) (slots : List Slot)
    → Steady a slots
    → (a' : Assembler) × (slots' : List Slot) × (run_call (suc fuel) c a ≡ ok a') × Steady a' slots'
unfolding run_call
run_call-Steady fuel (incoming k t ts) a slots v =
    let (a', run, g) = assemble_with_timestamp-Assembled fuel k t ts a slots v in
    (a', g.slots, run, g.steady)
run_call-Steady fuel (older_than t) a slots v =
    let g = flush_older_than-FlushedOlder t a slots v in (g.after, g.slots, rw (g.run), g.steady)
run_call-Steady fuel everything a slots v =
    let (a', run, u) = flush_all-Steady a slots v in (a', [], rw run, u)

calls_step :
    (fuel : ℕ) (c : EntryCall) (cs : List EntryCall) (a a1 : Assembler)
    → run_call fuel c a ≡ ok a1
    → run_calls fuel (c ∷ cs) a ≡ run_calls fuel cs a1
unfolding run_calls
calls_step fuel c cs a a1 e = rw e

pub run_calls-Steady :
    (fuel : ℕ) (cs : List EntryCall) (a : Assembler) (slots : List Slot)
    → Steady a slots
    → (a' : Assembler) × (slots' : List Slot) × (run_calls (suc fuel) cs a ≡ ok a')
      × Steady a' slots'
unfolding run_calls
run_calls-Steady fuel [] a slots v = (a, slots, refl, v)
run_calls-Steady fuel (c ∷ cs) a slots v =
    let (a1, slots1, run, u) = run_call-Steady fuel c a slots v in
    let (a2, slots2, more, u2) = run_calls-Steady fuel cs a1 slots1 u in
    (a2, slots2, calls_step (suc fuel) c cs a a1 run ∙ more, u2)

pub length-entries : (ss : List Slot) → length (entries ss) ≡ length (streams_of ss)
length-entries [] = refl
length-entries (s ∷ ss) = omega (arith, length-entries ss)

-- From a new assembler on a new pool, packets and flushes in any order and number never fault, with
-- fuel for one round of each search; and the calls that they make are lawful, with as many streams open
-- as the map of the pool has connections.
pub run_calls-Lawful :
    (fuel : ℕ) (cs : List EntryCall)
    → (a : Assembler) × (opened : List ℕ) × (run_calls (suc fuel) cs (new_assembler new_stream_pool)
        ≡ ok a)
      × Lawful a.events opened a.pool.streams
      × (length a.pool.conns ≡ length opened)
run_calls-Lawful fuel cs =
    let (a, slots, run, v) =
      run_calls-Steady fuel cs (new_assembler new_stream_pool) [] new_assembler-Steady in
    (a, streams_of slots, run, v.calls, ap length v.conns_are ∙ length-entries slots)
