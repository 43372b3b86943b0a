-- ===== src/Assembly/Assembler.antt =====
-- The assembler of capturer/extendedassembly.go: a packet's way from the wire to its stream, and the
-- flushes.
pub mod Locked
pub mod Packet
use data_collector.Base.{
  ℕ, zero, suc, ◌+◌, ◌*◌, ◌==◌, ◌&&◌, ◌||◌, Bool, true, false, not, List, [], ◌∷◌, ◌++◌, Option,
  none, some, ℤ, pos, negsuc, ltb_ℤ, leb_ℤ, eqb_ℤ, ltb, if◌then◌else◌, length, update, Result, ok,
  err, out_of_fuel, ◌>>=◌,
}
use data_collector.Assembly.Sequence.{invalid_sequence, difference, add, byte_span}
use data_collector.Assembly.Page.{Reassembly, Page}
use data_collector.Assembly.PageCache.{PageCache, new_page_cache}
use data_collector.Assembly.Connection.{Key, Connection, is_nil}
use data_collector.Assembly.Pool.{StreamPool, find, new_stream, add_connection, connections}
use data_collector.Assembly.Segment.{Tcp}
use data_collector.Assembly.Work.{
  AssemblerOptions, Event, Event.created, Work, insert_into_conn, send_to_connection, skip_flush,
  close_connection,
}

-- `pool` is shared by pointer; here one assembler uses it, as in capturer/actor.go.
pub record Assembler : Type 0 where
  pub options : AssemblerOptions
  pub ret : List Reassembly
  pub pc : PageCache
  pub pool : StreamPool
  pub events : List Event

abbrev pub default_assembler_options : AssemblerOptions
default_assembler_options = record {
  max_buffered_pages_total = pos 0;
  max_buffered_pages_per_connection = pos 0;
}

-- The 16 places that `ret` has at first are cut off before they are read.
unfoldable pub new_assembler : StreamPool → Assembler
new_assembler p = record {
  options = default_assembler_options;
  ret = [];
  pc = new_page_cache;
  pool = record p { users = p.users + 1 };
  events = [];
}

-- `conn.mu.Lock()` and `conn.mu.Unlock()`: the object's content is taken up, and put back.
unfoldable pub lock : ℕ → Assembler → Work
lock c a = record {
  options = a.options;
  ret = a.ret;
  pc = a.pc;
  pool = a.pool;
  events = a.events;
  id = c;
  conn = a.pool.all c;
}

unfoldable pub unlock : Work → Assembler
unlock w = record {
  options = w.options;
  ret = w.ret;
  pc = w.pc;
  pool = record w.pool { all = update w.pool.all w.id w.conn };
  events = w.events;
}

unfoldable pub get_connection : Key → Bool → ℕ → Assembler → Result (Option ℕ × Assembler)
unfolding new_stream add_connection
get_connection k end ts a = elim (find k a.pool.conns) [
  | some c ↦ ok (some c, a)
  | none ↦
      if end
      then ok (none, a)
      else (add_connection k (new_stream a.pool).0 ts (new_stream a.pool).1 >>= (λ (c, pool'). ok (
        some c,
        record a { pool = pool'; events = a.events ++ created (new_stream a.pool).0 ∷ [] },
      )))
]

-- The `for` that waits for a connection which is open; with one assembler it goes round once.
unfoldable pub open_connection : ℕ → Key → Bool → ℕ → Assembler → Result (Option Work × Assembler)
unfolding lock get_connection
open_connection zero k end ts a = err out_of_fuel
open_connection (suc fuel) k end ts a = do
  (found, a') ← get_connection k end ts a
  elim found [
    | none ↦ ok (none, a')
    | some c ↦ elim ((lock c a').conn.closed) [
      | false ↦ ok (some (lock c a'), a')
      | true ↦ open_connection fuel k end ts a'
    ]
  ]

-- `SYN`, `FIN`, `RST` and payload all missing.
unfoldable pub is_empty_packet : Tcp → Bool
is_empty_packet t = not t.syn && not t.fin && not t.rst && length t.payload == 0

unfoldable pub touch : ℕ → Work → Work
touch ts w =
    if ltb w.conn.last_seen ts then record w { conn = record w.conn { last_seen = ts } } else w

-- The first packet seen on the stream.
unfoldable pub first_packet : Tcp → ℕ → Work → Result Work
unfolding insert_into_conn
first_packet t ts w =
    let len = length t.payload in
    let next_seq = add (pos t.seq) (pos (if t.syn then len + 1 else len)) in
    let r : Reassembly = record {
      bytes = t.payload;
      skip = if t.syn then pos 0 else negsuc 0;
      start = t.syn;
      end = false;
      seen = ts;
    } in
    insert_into_conn t ts
      (record w { conn = record w.conn { next_seq = next_seq }; ret = w.ret ++ r ∷ [] })

-- A packet that continues the stream, or repeats a part of it.
unfoldable pub next_packet : Tcp → ℕ → Work → Work
next_packet t ts w =
    let (bytes, next_seq) = byte_span w.conn.next_seq (pos t.seq) t.payload in
    record w {
      conn = record w.conn { next_seq = next_seq };
      ret =
          w.ret
          ++ record { bytes = bytes; skip = pos 0; start = false; end = t.rst || t.fin; seen = ts }
            ∷ [];
    }

unfoldable pub take_packet : Tcp → ℕ → Work → Result Work
unfolding first_packet next_packet insert_into_conn
take_packet t ts w =
    if eqb_ℤ w.conn.next_seq invalid_sequence
    then first_packet t ts w
    else if ltb_ℤ (pos 0) (difference w.conn.next_seq (pos t.seq))
    then insert_into_conn t ts w
    else ok (next_packet t ts w)

abbrev is_empty : List Reassembly → Bool
is_empty [] = true
is_empty (r ∷ rs) = false

-- What `AssembleWithTimestamp` does under the lock.
unfoldable pub assemble_locked : Tcp → ℕ → Work → Result Work
unfolding touch take_packet send_to_connection
assemble_locked t ts w = do
  w' ← take_packet t ts (touch ts w)
  if is_empty w'.ret then ok w' else send_to_connection w'

unfoldable pub assemble_with_timestamp : ℕ → Key → Tcp → ℕ → Assembler → Result Assembler
unfolding is_empty_packet open_connection assemble_locked unlock
assemble_with_timestamp fuel k t ts a = if is_empty_packet t then ok a else do
  (found, a') ←
      open_connection fuel k (not t.syn && length t.payload == 0) ts (record a { ret = [] })
  elim found [ none ↦ ok a' | some w ↦ do w' ← assemble_locked t ts w; ok (unlock w') ]

-- Whether the first page of the connection was seen before `t`.
unfoldable pub is_overdue : ℕ → Work → Bool
is_overdue t w = elim w.conn.first [ none ↦ false | some p ↦ ltb (w.pc.pages p).seen t ]

-- The inner `for` of `FlushOlderThan`; it says whether it flushed.
unfoldable pub flush_loop : ℕ → ℕ → Bool → Work → Result (Bool × Work)
unfolding is_overdue skip_flush
flush_loop zero t flushed w = if is_overdue t w then err out_of_fuel else ok (flushed, w)
flush_loop (suc fuel) t flushed w = elim (is_overdue t w) [
  | false ↦ ok (flushed, w)
  | true ↦ do
    w' ← skip_flush w
    elim w'.conn.closed [ true ↦ ok (true, w') | false ↦ flush_loop fuel t true w' ]
]

-- After that loop: a connection with no pages that saw nothing since `t` is closed.
unfoldable pub close_if_idle : ℕ → Bool → Work → Result (Bool × Bool × Work)
unfolding close_connection
close_if_idle t flushed w =
    if w.conn.closed
    then ok (flushed, true, w)
    else if is_nil w.conn.first && ltb w.conn.last_seen t
    then close_connection w >>= (λ w'. ok (true, true, w'))
    else ok (flushed, false, w)

-- One connection of `FlushOlderThan`: whether it was flushed, and whether it was closed.
unfoldable pub flush_connection : ℕ → Work → Result (Bool × Bool × Work)
unfolding flush_loop close_if_idle
flush_connection t w = do
  (flushed, w') ← flush_loop w.conn.pages t false w
  close_if_idle t flushed w'

abbrev pub count : Bool → ℕ → ℕ
count true n = n + 1
count false n = n

unfoldable pub flush_each : ℕ → List ℕ → ℕ → ℕ → Assembler → Result (ℕ × ℕ × Assembler)
unfolding flush_connection lock unlock
flush_each t [] flushes closes a = ok (flushes, closes, a)
flush_each t (c ∷ cs) flushes closes a = elim ((lock c a).conn.closed) [
  | true ↦ flush_each t cs flushes closes a
  | false ↦ do
    (flushed, closed, w) ← flush_connection t (lock c a)
    flush_each t cs (count flushed flushes) (count closed closes) (unlock w)
]

unfoldable pub flush_older_than : ℕ → Assembler → Result (ℕ × ℕ × Assembler)
unfolding flush_each connections
flush_older_than t a = flush_each t (connections a.pool) 0 0 a

-- `for !conn.closed { a.skipFlush(conn) }`
unfoldable pub drain : ℕ → Work → Result Work
unfolding skip_flush
drain zero w = if w.conn.closed then ok w else err out_of_fuel
drain (suc fuel) w = elim w.conn.closed [ true ↦ ok w | false ↦ skip_flush w >>= drain fuel ]

unfoldable pub drain_each : List ℕ → Assembler → Result Assembler
unfolding drain lock unlock
drain_each [] a = ok a
drain_each (c ∷ cs) a = do
  w ← drain ((lock c a).conn.pages + 1) (lock c a)
  drain_each cs (unlock w)

unfoldable pub flush_all : Assembler → Result (ℕ × Assembler)
unfolding drain_each connections
flush_all a = do a' ← drain_each (connections a.pool) a; ok (length (connections a.pool), a')
