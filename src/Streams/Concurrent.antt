-- ===== src/Streams/Concurrent.antt =====
-- `ConcurrentReader` of capturer/MutiCoroutineAccessReader.go. The mutex is held through a read, so a
-- read is one step; `broadcast` says that `ReaderBroadcast` is closed; a goroutine is its number.
pub mod Status
pub mod Consuming
pub mod Sharing
use data_collector.Base.{
  ℕ, zero, suc, ◌+◌, ◌==◌, Bool, true, false, List, [], ◌∷◌, ◌++◌, Option, none, some,
  if◌then◌else◌, length, take, drop, ltb, leb, update,
}
use data_collector.Streams.Reader.{
  StreamReader, read, Read, got, data_lost, eof, waits, stuck, panic, Ending, returns, blocked,
  panics, interrupt_blocking_reading,
}
use data_collector.Streams.Concurrent.Status.{
  has_bit, validate_checker, concurrent_read_allowed_checker, set_valid_status,
  forbidden_concurrent_read,
}

pub record ConcurrentReader : Type 0 where
  pub reader : Option StreamReader
  pub broadcast : Bool
  pub cache : List ℕ
  pub coroutine_read_index : ℕ → Option ℕ
  pub status : ℕ

-- `NewMutiCoroutineAccessReader`
unfoldable pub new_concurrent_reader : Option StreamReader → ConcurrentReader
new_concurrent_reader reader = record {
  reader = reader;
  broadcast = false;
  cache = [];
  coroutine_read_index = λ id. none;
  status = 0;
}

pub data ReadError : Type 0 where
  stream_not_validated concurrent_read_not_allowed lost_data end_of_file : ReadError

-- A read that copied some bytes, one that returned an error, one that waits, and what cannot go on.
pub data Outcome : Type 0 where
  copied : List ℕ → ConcurrentReader → Outcome
  fails : ReadError → ConcurrentReader → Outcome
  held crashes : ConcurrentReader → Outcome
  unfinished : Outcome

unfoldable pub is_validate : ConcurrentReader → Bool
is_validate m = has_bit validate_checker (m.status)

unfoldable pub allow_concurrent_read : ConcurrentReader → Bool
allow_concurrent_read m = if has_bit concurrent_read_allowed_checker (m.status) then false else true

-- `m.Reader.Read(p)` as `Read` returns it.
unfoldable pub pass_on : ConcurrentReader → Read → Outcome
pass_on m (got bs r) = copied bs (record m { reader = some r })
pass_on m (data_lost r) = fails lost_data (record m { reader = some r })
pass_on m (eof r) = fails end_of_file (record m { reader = some r })
pass_on m (waits r) = held (record m { reader = some r })
pass_on m (stuck r) = unfinished
pass_on m (panic r) = crashes (record m { reader = some r })

-- A read of the cache, of which the copied part is cut off.
unfoldable pub read_cache : ℕ → ConcurrentReader → Outcome
read_cache n m =
    if ltb (length (take n (m.cache))) (length (m.cache))
    then copied (take n (m.cache)) (record m { cache = drop (length (take n (m.cache))) (m.cache) })
    else copied (take n (m.cache)) (record m { cache = [] })

unfoldable pub index_of : ℕ → ConcurrentReader → ℕ
index_of id m = elim (m.coroutine_read_index id) [ some i ↦ i | none ↦ 0 ]

unfoldable pub set_index : ℕ → ℕ → ConcurrentReader → ConcurrentReader
set_index id i m = record m { coroutine_read_index = update (m.coroutine_read_index) id (some i) }

-- What was read is put into the cache, for the other goroutines.
unfoldable pub share : ℕ → ℕ → Outcome → Outcome
unfolding set_index
share id i (copied bs m) =
    copied bs (set_index id (i + length bs) (record m { cache = m.cache ++ bs }))
share id i (fails e m) = fails e m
share id i (held m) = held m
share id i (crashes m) = crashes m
share id i unfinished = unfinished

module _ (pick : StreamReader → Bool) where
  -- `waitReaderReady`, and the stream reader's own read.
  unfoldable pub read_reader : ℕ → ConcurrentReader → Option StreamReader → Outcome
  unfolding pass_on
  read_reader n m none = crashes m
  read_reader n m (some r) = pass_on m (read pick n r)

  -- `Read`
  unfoldable pub exclusive_read : ℕ → ConcurrentReader → Outcome
  unfolding is_validate read_cache read_reader
  exclusive_read n m =
      if is_validate m
      then (if ltb 0 (length (m.cache))
          then read_cache n m
          else if m.broadcast
          then read_reader n m (m.reader)
          else held m)
      else fails stream_not_validated m

  unfoldable pub read_shared : ℕ → ℕ → ℕ → ConcurrentReader → Outcome
  unfolding share set_index read_reader
  read_shared id i n m =
      let bs = take n (drop i (m.cache)) in
      if m.broadcast
      then (if ltb i (length (m.cache))
          then copied bs (set_index id (i + length bs) m)
          else share id i (read_reader n m (m.reader)))
      else held m

  -- `ConcurrentRead`, by the goroutine `id`. A goroutine that reads for the first time begins at 0.
  unfoldable pub concurrent_read : ℕ → ℕ → ConcurrentReader → Outcome
  unfolding allow_concurrent_read read_shared index_of set_index
  concurrent_read id n m =
      if allow_concurrent_read m
      then read_shared id (index_of id m) n (set_index id (index_of id m) m)
      else fails concurrent_read_not_allowed m

-- `SeekTo`; the indices stay as they are. A place past the cache's end is out of range: no result.
unfoldable pub seek_to : ℕ → ConcurrentReader → Option ConcurrentReader
seek_to i m =
    if leb i (length (m.cache)) then some (record m { cache = drop i (m.cache) }) else none

-- `SetReaderReady`; no result for a second close of the channel.
unfoldable pub set_reader_ready : ConcurrentReader → Option ConcurrentReader
set_reader_ready m = if m.broadcast then none else some (record m { broadcast = true })

-- `SetValidStatus` and `ForbiddenConcurrentRead`, where nothing else changes the word meanwhile.
unfoldable pub validated : ConcurrentReader → ConcurrentReader
unfolding set_valid_status
validated m = record m { status = (set_valid_status [] (m.status)).0 }

unfoldable pub forbidden : ConcurrentReader → ConcurrentReader
unfolding forbidden_concurrent_read
forbidden m = record m { status = (forbidden_concurrent_read [] (m.status)).0 }

-- `InterruptReading`, of the stream: the call returns, or waits for the token in the channel to be taken;
-- of a stream that is not there it is a nil dereference.
pub data Interrupt : Type 0 where
  interrupted : ConcurrentReader → Interrupt
  interrupt_waits interrupt_crashes : Interrupt

unfoldable pub interrupt_ending : ConcurrentReader → Ending → Interrupt
interrupt_ending m (returns r) = interrupted (record m { reader = some r })
interrupt_ending m (blocked r) = interrupt_waits
interrupt_ending m (panics r) = interrupt_crashes

unfoldable pub interrupt_reading : ConcurrentReader → Option StreamReader → Interrupt
unfolding interrupt_ending interrupt_blocking_reading
interrupt_reading m none = interrupt_crashes
interrupt_reading m (some r) = interrupt_ending m (interrupt_blocking_reading r)
