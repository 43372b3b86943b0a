-- ===== src/Endpoint/Validation/Accepting.antt =====
-- One decoder of the client's streams alone in `newServerEndpoint` of capturer/capture.go, as the program
-- has it: it comes to its end.
use data_collector.Base.{
  ℕ, ◌≤◌, ◌≡◌, refl, ap, ◌∙◌, false, List, [], ◌∷◌, Option, some, Text, length, drop, map, Bool, ok,
  arith,
}
use data_collector.Streams.Reader.{StreamReader, interrupt_blocking_reading}
use data_collector.Streams.Concurrent.{
  ConcurrentReader, fails, stream_not_validated, exclusive_read, is_validate, allow_concurrent_read,
  seek_to, validated, forbidden, interrupted, interrupt_reading, interrupt_ending,
}
use data_collector.Endpoint.{TcpConn}
use data_collector.Endpoint.Validation.{
  c2s, Decoder, Call, set_valid, seek, forbid, interrupt, Task, search, accepting, success,
  calls_for, first_task, found_one, after_seek, after_interrupt, do_call, do_task, Validating,
  step_in, step, run_schedule, default_decoder_name, start_goroutines, new_validating,
}
use data_collector.Endpoint.Validation.Status.{
  Taken, validated_valid, forbidden_exclusive, forbidden_valid,
}

-- The endpoint of one goroutine.
abbrev alone : ℕ → Decoder → TcpConn → Text → Task → Validating
alone id d c name t = record {
  conn = c;
  decoder_name = name;
  goroutines = record { id = id; decoder = d; task = t } ∷ [];
}

abbrev with_c2s : ConcurrentReader → TcpConn → TcpConn
with_c2s m c = record c { client2server_stream = m }

alone_step :
    (id : ℕ) (d : Decoder) (c c1 : TcpConn) (name name1 : Text) (t t1 : Task) (ns : List ℕ)
    → do_task id d t c name ≡ ok (c1, name1, t1)
    → run_schedule (0 ∷ ns) (alone id d c name t) ≡ run_schedule ns (alone id d c1 name1 t1)
unfolding run_schedule step step_in
alone_step id d c c1 name name1 t t1 ns e = rw e

search_step :
    (id : ℕ) (d : Decoder) (c : TcpConn) (name : Text) (m : ConcurrentReader) (o : Option ℕ)
    → d.locate_start c2s id c.client2server_stream ≡ (m, o)
    → do_task id d (search c2s) c name ≡ ok (with_c2s m c, name, found_one c2s o)
unfolding do_task
search_step id d c name m o e = rw e

seek_step :
    (n : ℕ) (m : ConcurrentReader)
    → n ≤ length m.cache
    → seek_to n m ≡ some (record m { cache = drop n (m.cache) })
unfolding seek_to
seek_step n m le = ground (arith, le)

interrupt_step :
    (m : ConcurrentReader) (r : StreamReader)
    → r.interrupt ≡ 0
    → interrupt_reading m (some r)
      ≡ interrupted (record m { reader = some (record r { interrupt = 1 }) })
unfolding interrupt_reading interrupt_ending interrupt_blocking_reading
interrupt_step m r e = ground (arith, e)

abbrev cut : ℕ → ConcurrentReader → ConcurrentReader
cut n m = record (validated m) { cache = drop n (m.cache) }

-- The stream in the end: without its first n bytes, validated, forbidden to shared reads, and with the
-- token of the interrupt.
abbrev pub taken_over : ℕ → ConcurrentReader → StreamReader → ConcurrentReader
taken_over n m r = record (forbidden (cut n m)) { reader = some (record r { interrupt = 1 }) }

taken_over-Taken : (n : ℕ) (m : ConcurrentReader) (r : StreamReader) → Taken (taken_over n m r)
unfolding is_validate allow_concurrent_read validated forbidden
taken_over-Taken n m r = record {
  valid = forbidden_valid (cut n m) (validated_valid m);
  exclusive = forbidden_exclusive (cut n m);
}

abbrev last_calls : List Call
last_calls = forbid c2s ∷ interrupt c2s ∷ []

calls_run :
    (id n : ℕ) (d : Decoder) (c : TcpConn) (name : Text) (m : ConcurrentReader) (r : StreamReader)
    → n ≤ length m.cache
    → m.reader ≡ some r
    → r.interrupt ≡ 0
    → run_schedule
        (0 ∷ 0 ∷ 0 ∷ 0 ∷ 0 ∷ [])
        (alone id d (with_c2s m c) name (accepting (calls_for c2s n)))
      ≡ ok (alone id d (with_c2s (taken_over n m r) c) d.name success)
unfolding do_task do_call after_seek after_interrupt validated forbidden run_schedule calls_for
calls_run id n d c name m r le e f =
    let calls = seek c2s n ∷ last_calls in
    let at_end = with_c2s (forbidden (cut n m)) c in
    alone_step id d (with_c2s m c) (with_c2s (validated m) c) name name
      (accepting (set_valid c2s ∷ calls)) (accepting calls) (0 ∷ 0 ∷ 0 ∷ 0 ∷ []) refl
    ∙ alone_step id d (with_c2s (validated m) c) (with_c2s (cut n m) c) name name (accepting calls)
        (accepting last_calls) (0 ∷ 0 ∷ 0 ∷ [])
        (ap (after_seek c2s (with_c2s (validated m) c) name last_calls)
          (seek_step n (validated m) le))
    ∙ alone_step id d (with_c2s (cut n m) c) at_end name name (accepting last_calls)
        (accepting (interrupt c2s ∷ [])) (0 ∷ 0 ∷ []) refl
    ∙ alone_step id d at_end (with_c2s (taken_over n m r) c) name name
        (accepting (interrupt c2s ∷ [])) (accepting []) (0 ∷ [])
        (ap (λ o. after_interrupt c2s at_end name [] (interrupt_reading (forbidden (cut n m)) o)) e
          ∙ ap (after_interrupt c2s at_end name []) (interrupt_step (forbidden (cut n m)) r f))
    ∙ alone_step id d (with_c2s (taken_over n m r) c) (with_c2s (taken_over n m r) c) name (d.name)
        (accepting []) success [] refl

first_task_c2s : (d : Decoder) → d.validate_type ≡ 1 → first_task d.validate_type ≡ search c2s
unfolding first_task
first_task_c2s d e = ground (arith, e)

new_alone :
    (c : TcpConn) (id : ℕ) (d : Decoder)
    → d.validate_type ≡ 1
    → new_validating c id (d ∷ []) ≡ alone id d c default_decoder_name (search c2s)
unfolding new_validating start_goroutines
new_alone c id d e = ap (alone id d c default_decoder_name) (first_task_c2s d e)

refused_read :
    (pick : StreamReader → Bool) (k : ℕ) (m : ConcurrentReader)
    → is_validate m ≡ false
    → exclusive_read pick k m ≡ fails stream_not_validated m
unfolding exclusive_read
refused_read pick k m e = rw e

-- With one decoder, of the client's streams alone, whose search finds a start behind n bytes that are in
-- the cache of the stream, which is there and was not interrupted: six steps bring its goroutine to its
-- end without a crash. The endpoint has this decoder, and the stream begins at the start, is validated,
-- and is forbidden to shared reads. The server's stream, if it was not validated before, still is not, and
-- every read of it is refused.
pub run_schedule-c2s :
    (c : TcpConn) (id n : ℕ) (d : Decoder) (m : ConcurrentReader) (r : StreamReader)
    (pick : StreamReader → Bool) (k : ℕ)
    → d.validate_type ≡ 1
    → d.locate_start c2s id c.client2server_stream ≡ (m, some n)
    → n ≤ length m.cache
    → m.reader ≡ some r
    → r.interrupt ≡ 0
    → is_validate c.server2client_stream ≡ false
    → (v : Validating) × (run_schedule (0 ∷ 0 ∷ 0 ∷ 0 ∷ 0 ∷ 0 ∷ []) (new_validating c id (d ∷ []))
        ≡ ok v)
      × (v.decoder_name ≡ d.name)
      × (v.conn.client2server_stream.cache ≡ drop n m.cache)
      × Taken v.conn.client2server_stream
      × (map (λ g. g.task) v.goroutines ≡ success ∷ [])
      × (exclusive_read pick k v.conn.server2client_stream
          ≡ fails stream_not_validated v.conn.server2client_stream)
unfolding found_one validated forbidden
run_schedule-c2s c id n d m r pick k vt found le e f refused = (
  alone id d (with_c2s (taken_over n m r) c) d.name success,
  ap (run_schedule (0 ∷ 0 ∷ 0 ∷ 0 ∷ 0 ∷ 0 ∷ [])) (new_alone c id d vt)
      ∙ alone_step id d c (with_c2s m c) default_decoder_name default_decoder_name (search c2s)
          (accepting (calls_for c2s n)) (0 ∷ 0 ∷ 0 ∷ 0 ∷ 0 ∷ [])
          (search_step id d c default_decoder_name m (some n) found)
      ∙ calls_run id n d c default_decoder_name m r le e f,
  refl,
  refl,
  taken_over-Taken n m r,
  refl,
  refused_read pick k c.server2client_stream refused,
)
