-- ===== src/Streams/Reader.antt =====
-- `StreamReader` of capturer/MutiCoroutineAccessReader.go. The channels are queues with a flag for
-- closed; an operation that has to wait ends in `blocked`, with the state that it waits in. A slice of
-- reassemblies is the list of them: the model is of a writer that leaves a slice alone once it is sent.
pub mod Content
pub mod Loop
pub mod Steps
pub mod Run
use data_collector.Base.{
  ℕ, zero, suc, ◌+◌, ◌==◌, ◌&&◌, ◌||◌, not, Bool, true, false, List, [], ◌∷◌, ◌++◌, if◌then◌else◌,
  length, take, drop, ℤ, pos, eqb_ℤ, ltb,
}
use data_collector.Assembly.Page.{Reassembly}

-- `reassembled` and `reassembled_closed` are the channel of that name, `done_closed` is the channel
-- `done`, which nothing receives from, and `interrupt` counts the tokens in the channel `interrupt`.
pub record StreamReader : Type 0 where
  pub loss_errors : Bool
  pub reassembled : List (List Reassembly)
  pub reassembled_closed : Bool
  pub done_closed : Bool
  pub current : List Reassembly
  pub closed : Bool
  pub loss_reported : Bool
  pub first : Bool
  pub initiated : Bool
  pub interrupt : ℕ

unfoldable pub new_reader_stream : StreamReader
new_reader_stream = record {
  loss_errors = false;
  reassembled = [];
  reassembled_closed = false;
  done_closed = false;
  current = [];
  closed = false;
  loss_reported = false;
  first = true;
  initiated = true;
  interrupt = 0;
}

-- How a call of a method without a value ends.
pub data Ending : Type 0 where
  returns blocked panics : StreamReader → Ending

abbrev pub capacity : ℕ
capacity = 1024

-- `Reassembled`: a send on the channel.
unfoldable pub reassembled : StreamReader → List Reassembly → Ending
reassembled r rs =
    if not (r.initiated)
    then panics r
    else if r.reassembled_closed
    then panics r
    else if ltb (length (r.reassembled)) capacity
    then returns (record r { reassembled = r.reassembled ++ rs ∷ [] })
    else blocked r

-- `ReassemblyComplete`: closes of both channels, each a panic for a closed one.
unfoldable pub reassembly_complete : StreamReader → Ending
reassembly_complete r =
    if r.reassembled_closed
    then panics r
    else if r.done_closed
    then panics (record r { reassembled_closed = true })
    else returns (record r { reassembled_closed = true; done_closed = true })

-- The loop of `stripEmpty`, over the slice and `lossReported`.
unfoldable pub strip : List Reassembly → Bool → List Reassembly × Bool
strip [] reported = ([], reported)
strip (x ∷ xs) reported = if length (x.bytes) == 0 then strip xs false else (x ∷ xs, reported)

unfoldable pub strip_empty : StreamReader → StreamReader
unfolding strip
strip_empty r =
    let (current, reported) = strip (r.current) (r.loss_reported) in
    record r { current = current; loss_reported = reported }

-- What `Read` returns: the bytes that it copied, `DataLost`, or `io.EOF`.
pub data Read : Type 0 where
  got : List ℕ → StreamReader → Read
  data_lost eof waits stuck panic : StreamReader → Read

-- The two cases of the `select`.
unfoldable pub receive : StreamReader → List (List Reassembly) → StreamReader
unfolding strip_empty
receive r [] = record r { closed = true; current = [] }
receive r (rs ∷ queue) = strip_empty (record r { reassembled = queue; current = rs })

unfoldable pub take_token : ℕ → StreamReader → StreamReader
take_token zero r = r
take_token (suc n) r = record r { interrupt = n }

-- Whether a receive from the channel can go on.
unfoldable pub is_ready : StreamReader → Bool
is_ready r = r.reassembled_closed || ltb 0 (length (r.reassembled))

unfoldable pub is_interrupted : StreamReader → Bool
is_interrupted r = ltb 0 (r.interrupt)

unfoldable pub copy_head : ℕ → List Reassembly → StreamReader → Read
copy_head n [] r = eof r
copy_head n (x ∷ xs) r =
    if r.loss_errors && (not (r.loss_reported) && not (eqb_ℤ (x.skip) (pos 0)))
    then data_lost (record r { loss_reported = true })
    else got (take n (x.bytes)) (record r { current = record x { bytes = drop n (x.bytes) } ∷ xs })

-- `pick` settles a `select` whose cases are both ready: whether it takes the token.
module _ (pick : StreamReader → Bool) where
  unfoldable pub read_loop : ℕ → ℕ → StreamReader → Read
  unfolding receive take_token is_ready is_interrupted copy_head
  read_loop zero n r = stuck r
  read_loop (suc fuel) n r =
      let r0 = record r { first = false } in
      let received = read_loop fuel n (receive r0 (r.reassembled)) in
      let interrupted = read_loop fuel n (take_token (r.interrupt) r0) in
      if r.closed || ltb 0 (length (r.current))
      then copy_head n (r.current) r
      else if is_ready r
      then (if is_interrupted r && pick r0 then interrupted else received)
      else if is_interrupted r
      then interrupted
      else waits r0

  -- `Read`, into a slice of length n.
  unfoldable pub read : ℕ → StreamReader → Read
  unfolding read_loop strip_empty
  read n r =
      if r.initiated
      then read_loop (2 + length (r.reassembled) + r.interrupt) n (strip_empty r)
      else panic r

-- `InterruptBlockingReading`: a send on a channel of capacity one.
unfoldable pub interrupt_blocking_reading : StreamReader → Ending
interrupt_blocking_reading r =
    if r.interrupt == 0 then returns (record r { interrupt = 1 }) else blocked r

-- The loop of `Close`: nothing receives from `done`, so the send waits for ever or panics.
unfoldable pub discard : StreamReader → List (List Reassembly) → Ending
discard r [] = if r.reassembled_closed then returns r else blocked r
discard r (rs ∷ queue) =
    let r0 = record r { reassembled = queue } in if r.done_closed then panics r0 else blocked r0

unfoldable pub close : StreamReader → Ending
unfolding discard
close r = discard (record r { current = []; closed = true }) (r.reassembled)
