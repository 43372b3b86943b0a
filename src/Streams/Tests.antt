-- ===== src/Streams/Tests.antt =====
-- Runs of readers of streams.
use data_collector.Base.{ℕ, ◌≡◌, refl, ◌↔◌, Bool, true, false, List, [], ◌∷◌, ◌++◌, pos, some}
use data_collector.Assembly.Page.{Reassembly}
use data_collector.Streams.Reader.{
  StreamReader, returns, new_reader_stream, reassembled, reassembly_complete,
  interrupt_blocking_reading, read, close, waits,
}
use data_collector.Streams.Reader.Content.{content, IsSound}
use data_collector.Streams.Reader.Steps.{Steps, stop, write, complete, reads, closes}
use data_collector.Streams.Reader.Run.{
  Steps-content, Steps-eof, read-interrupt_blocking_reading, close_iff,
}
use data_collector.Streams.Concurrent.{ConcurrentReader}
use data_collector.Streams.Concurrent.Status.{
  with_bit, validate_checker, concurrent_read_allowed_checker, set_valid_status,
  forbidden_concurrent_read, SetsBit, loops-SetsBit,
}

abbrev piece : List ℕ → Reassembly
piece bs = record { bytes = bs; skip = pos 0; start = false; end = false; seen = 0 }

abbrev never : StreamReader → Bool
never r = false

abbrev filled : StreamReader
filled = record {
  loss_errors = false;
  reassembled = (piece [] ∷ piece (1 ∷ 2 ∷ 3 ∷ []) ∷ []) ∷ [];
  reassembled_closed = true;
  done_closed = true;
  current = [];
  closed = false;
  loss_reported = false;
  first = true;
  initiated = true;
  interrupt = 1;
}

abbrev empty_reader : StreamReader
empty_reader = record filled {
  reassembled = [];
  reassembled_closed = false;
  done_closed = false;
  interrupt = 0;
}

abbrev sent : StreamReader
sent = record new_reader_stream { reassembled = (piece (1 ∷ 2 ∷ []) ∷ []) ∷ [] }

empty-IsSound : IsSound empty_reader
empty-IsSound c = absurd cc

read-interrupt_blocking_reading_example :
    (r : StreamReader) × (read never 8 (record empty_reader { interrupt = 1 }) ≡ waits r)
unfolding interrupt_blocking_reading
read-interrupt_blocking_reading_example =
    read-interrupt_blocking_reading never 8 empty_reader (record empty_reader { interrupt = 1 })
      refl empty-IsSound refl refl refl

close_iff_example :
    ((r : StreamReader) × (close filled ≡ returns r)) ↔ ((filled.reassembled ≡ []) × (true ≡ true))
close_iff_example = close_iff filled

abbrev done : StreamReader
done = record sent { reassembled_closed = true; done_closed = true }

abbrev left : StreamReader
left = record done { reassembled = []; current = piece [] ∷ []; first = false }

-- A write, the end of the stream, and a read of all that was written.
-- One of two bytes is read, and `Close` drops the other.
abbrev half_read : StreamReader
half_read = record done { reassembled = []; current = piece (2 ∷ []) ∷ []; first = false }

abbrev all_closed : StreamReader
all_closed = record half_read { current = []; closed = true }

abbrev a_run : Steps never new_reader_stream (1 ∷ 2 ∷ []) (1 ∷ []) (2 ∷ []) all_closed
unfolding new_reader_stream reassembled reassembly_complete read close
a_run =
    write new_reader_stream (piece (1 ∷ 2 ∷ []) ∷ []) sent all_closed [] (1 ∷ []) (2 ∷ []) refl (
      complete sent done all_closed [] (1 ∷ []) (2 ∷ []) refl (
        reads done 1 (1 ∷ []) half_read all_closed [] [] (2 ∷ []) refl
          (closes half_read all_closed all_closed [] [] [] refl (stop all_closed))))

Steps-content_example : 1 ∷ 2 ∷ [] ≡ (1 ∷ []) ++ ((2 ∷ []) ++ content all_closed)
Steps-content_example = Steps-content never a_run

Steps-eof_example :
    (◌≡◌ {A = List ℕ} (1 ∷ 2 ∷ []) ((1 ∷ []) ++ 2 ∷ [])) × (all_closed.reassembled_closed ≡ true)
unfolding new_reader_stream read
Steps-eof_example = Steps-eof never 4 all_closed a_run refl

abbrev shared : ConcurrentReader
shared = record {
  reader = some filled;
  broadcast = true;
  cache = 8 ∷ 9 ∷ [];
  coroutine_read_index = λ id. some 2;
  status = 0;
}

-- Another goroutine forbids shared reads between the load and the swap.
abbrev changes : List (ℕ → ℕ)
unfolding with_bit
changes = with_bit concurrent_read_allowed_checker ∷ []

loops-SetsBit_example :
    SetsBit validate_checker changes 0 (set_valid_status changes 0)
    × SetsBit concurrent_read_allowed_checker changes 0 (forbidden_concurrent_read changes 0)
loops-SetsBit_example = loops-SetsBit changes 0
