-- ===== src/Endpoint/Validation.antt =====
-- The choice of a decoder in `newServerEndpoint` of capturer/capture.go: one goroutine for each decoder,
-- whose calls come in any order. A decoder is what its interface says, with its two searches in one
-- function of the stream's side; a search is one step here; in the program its single
-- reads are steps, each under the mutex of the reader.
pub mod Status
pub mod Calls
pub mod Tasks
pub mod Chosen
pub mod Accepting
use data_collector.Base.{
  ℕ, zero, suc, ◌==◌, Bool, true, false, List, [], ◌∷◌, ◌++◌, Option, none, some, if◌then◌else◌,
  Text, codes, Result, ok, err, nil_dereference, index_out_of_range, ◌>>=◌,
}
use data_collector.Streams.Concurrent.{
  ConcurrentReader, seek_to, validated, forbidden, Interrupt, interrupted, interrupt_waits,
  interrupt_crashes, interrupt_reading,
}
use data_collector.Endpoint.{TcpConn}

pub data Side : Type 0 where
  c2s s2c : Side

-- `LocateToValidStartInC2SStream` and `LocateToValidStartInS2CStream`: the reader after the reads of the
-- goroutine of that number, and the count of the bytes before the start, if there was no error.
pub record Decoder : Type 0 where
  pub name : Text
  pub validate_type : ℕ
  pub locate_start : Side → ℕ → ConcurrentReader → ConcurrentReader × Option ℕ

-- The calls after a search that found a start; the decoder's name is taken after the last.
pub data Call : Type 0 where
  set_valid forbid interrupt : Side → Call
  seek : Side → ℕ → Call

pub data Task : Type 0 where
  search : Side → Task
  search_both : Task
  search_second : ℕ → Task
  accepting : List Call → Task
  success failure : Task

pub record Goroutine : Type 0 where
  pub id : ℕ
  pub decoder : Decoder
  pub task : Task

abbrev pub stream : Side → TcpConn → ConcurrentReader
stream c2s c = c.client2server_stream
stream s2c c = c.server2client_stream

abbrev pub with_stream : Side → ConcurrentReader → TcpConn → TcpConn
with_stream c2s m c = record c { client2server_stream = m }
with_stream s2c m c = record c { server2client_stream = m }

unfoldable pub calls_for : Side → ℕ → List Call
calls_for side n = set_valid side ∷ seek side n ∷ forbid side ∷ interrupt side ∷ []

unfoldable pub first_task : ℕ → Task
first_task vt =
    if vt == 1
    then search c2s
    else if vt == 2
    then search s2c
    else if vt == 3
    then search_both
    else failure

-- After a search of one stream, and after the two of both.
unfoldable pub found_one : Side → Option ℕ → Task
unfolding calls_for
found_one side none = failure
found_one side (some n) = accepting (calls_for side n)

unfoldable pub found_first : Option ℕ → Task
found_first none = failure
found_first (some n) = search_second n

unfoldable pub found_second : ℕ → Option ℕ → Task
unfolding calls_for
found_second n none = failure
found_second n (some k) = accepting (calls_for c2s n ++ calls_for s2c k)

-- The endpoint's connection, the name of its decoder, and what the goroutine does next.
abbrev pub State : Type 0
State = TcpConn × Text × Task

unfoldable pub after_seek :
    Side → TcpConn → Text → List Call → Option ConcurrentReader → Result State
after_seek side c name rest none = err index_out_of_range
after_seek side c name rest (some m) = ok (with_stream side m c, name, accepting rest)

-- A call that waits is made again.
unfoldable pub after_interrupt : Side → TcpConn → Text → List Call → Interrupt → Result State
after_interrupt side c name rest (interrupted m) = ok (with_stream side m c, name, accepting rest)
after_interrupt side c name rest interrupt_waits = ok (c, name, accepting (interrupt side ∷ rest))
after_interrupt side c name rest interrupt_crashes = err nil_dereference

unfoldable pub do_call : Call → List Call → TcpConn → Text → Result State
unfolding validated forbidden after_seek seek_to after_interrupt interrupt_reading
do_call (set_valid side) rest c name =
    ok (with_stream side (validated (stream side c)) c, name, accepting rest)
do_call (seek side n) rest c name = after_seek side c name rest (seek_to n (stream side c))
do_call (forbid side) rest c name =
    ok (with_stream side (forbidden (stream side c)) c, name, accepting rest)
do_call (interrupt side) rest c name =
    after_interrupt side c name rest (interrupt_reading (stream side c) ((stream side c).reader))

-- One step of the goroutine `id` of the decoder `d`.
unfoldable pub do_task : ℕ → Decoder → Task → TcpConn → Text → Result State
unfolding found_one found_first found_second do_call
do_task id d (search side) c name =
    let (m, found) = d.locate_start side id (stream side c) in
    ok (with_stream side m c, name, found_one side found)
do_task id d search_both c name =
    let (m, found) = d.locate_start c2s id (stream c2s c) in
    ok (with_stream c2s m c, name, found_first found)
do_task id d (search_second n) c name =
    let (m, found) = d.locate_start s2c id (stream s2c c) in
    ok (with_stream s2c m c, name, found_second n found)
do_task id d (accepting []) c name = ok (c, d.name, success)
do_task id d (accepting (call ∷ rest)) c name = do_call call rest c name
do_task id d success c name = ok (c, name, success)
do_task id d failure c name = ok (c, name, failure)

pub record Validating : Type 0 where
  pub conn : TcpConn
  pub decoder_name : Text
  pub goroutines : List Goroutine

unfoldable pub step_in :
    ℕ → List Goroutine → TcpConn → Text → Result (TcpConn × Text × List Goroutine)
unfolding do_task
step_in n [] c name = ok (c, name, [])
step_in zero (g ∷ gs) c name = do
  (c1, name1, t) ← do_task (g.id) (g.decoder) (g.task) c name
  ok (c1, name1, record g { task = t } ∷ gs)
step_in (suc n) (g ∷ gs) c name = do (c1, name1, gs1) ← step_in n gs c name; ok (c1, name1, g ∷ gs1)

unfoldable pub step : ℕ → Validating → Result Validating
unfolding step_in
step n v = do
  (c, name, gs) ← step_in n (v.goroutines) (v.conn) (v.decoder_name)
  ok (record { conn = c; decoder_name = name; goroutines = gs })

-- The steps of a schedule, which names the goroutine of each.
unfoldable pub run_schedule : List ℕ → Validating → Result Validating
unfolding step
run_schedule [] v = ok v
run_schedule (n ∷ ns) v = step n v >>= run_schedule ns

abbrev pub default_decoder_name : Text
default_decoder_name = codes "defaultDecoder"

-- The goroutines as they start, numbered from `id` on.
unfoldable pub start_goroutines : ℕ → List Decoder → List Goroutine
unfolding first_task
start_goroutines id [] = []
start_goroutines id (d ∷ ds) =
    record { id = id; decoder = d; task = first_task (d.validate_type) }
    ∷ start_goroutines (suc id) ds

unfoldable pub new_validating : TcpConn → ℕ → List Decoder → Validating
unfolding start_goroutines
new_validating c id ds = record {
  conn = c;
  decoder_name = default_decoder_name;
  goroutines = start_goroutines id ds;
}
