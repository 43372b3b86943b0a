-- ===== src/Decoder/Wrapper.antt =====
-- `StreamWrapper` of decoder/util.go. The reader inside, of any type R, is a parameter: what it gives
-- for a slice of some length, and what the search for valid start bytes gives, each with no result for
-- an error.
use data_collector.Base.{
  ℕ, zero, suc, ◌≤◌, ◌<◌, ◌≡◌, refl, ap, ◌∙◌, Bool, true, false, List, [], ◌∷◌, Option, none, some,
  if◌then◌else◌, length, take, drop, Text, ltb, arith,
}

pub record StreamWrapper (R : Type 0) : Type 0 where
  pub internal_reader : Option R
  pub valid_start_bytes : Text
  pub is_ready : Bool
  pub has_juger : Bool

pub data Outcome : Type 0 where
  copied : Text → Outcome
  internal_reader_nil juger_nil reader_error : Outcome

module _ {R : Type 0} (reader_read : ℕ → R → Option Text × R) (juger : R → Option Text × R) where
  -- `newStreamWarpper`
  unfoldable pub new_stream_wrapper : Option R → Bool → StreamWrapper R
  new_stream_wrapper reader has_juger = record {
    internal_reader = reader;
    valid_start_bytes = [];
    is_ready = false;
    has_juger = has_juger;
  }

  unfoldable pub outcome : Option Text → Outcome
  outcome none = reader_error
  outcome (some bs) = copied bs

  -- A read once the start is known.
  unfoldable pub read_ready : ℕ → R → StreamWrapper R → Outcome × StreamWrapper R
  unfolding outcome
  read_ready n r w =
      let bs = take n (w.valid_start_bytes) in
      let x = reader_read n r in
      if ltb 0 (length (w.valid_start_bytes))
      then (
        copied bs,
        (if ltb (length bs) (length (w.valid_start_bytes))
            then record w { valid_start_bytes = drop (length bs) (w.valid_start_bytes) }
            else w),
      )
      else (outcome (x.0), record w { internal_reader = some (x.1) })

  unfoldable pub find_start : ℕ → StreamWrapper R → Option Text × R → Outcome × StreamWrapper R
  unfolding read_ready
  find_start n w (none, r) = (reader_error, record w { internal_reader = some r })
  find_start n w (some bs, r) =
      read_ready n r
        (record w { internal_reader = some r; valid_start_bytes = bs; is_ready = true })

  unfoldable pub read_with : ℕ → Option R → StreamWrapper R → Outcome × StreamWrapper R
  unfolding find_start read_ready
  read_with n none w = (internal_reader_nil, w)
  read_with n (some r) w =
      if w.is_ready
      then read_ready n r w
      else if w.has_juger
      then find_start n w (juger r)
      else (juger_nil, w)

  -- `Read`, and reads one after the other.
  unfoldable pub wrapper_read : ℕ → StreamWrapper R → Outcome × StreamWrapper R
  unfolding read_with
  wrapper_read n w = read_with n (w.internal_reader) w

  abbrev pub reads : ℕ → ℕ → StreamWrapper R → List Outcome × StreamWrapper R
  reads zero n w = ([], w)
  reads (suc k) n w = let (x, w1) = wrapper_read n w in let (xs, w2) = reads k n w1 in (x ∷ xs, w2)

  abbrev pub times : ℕ → Outcome → List Outcome
  times zero x = []
  times (suc k) x = x ∷ times k x

  take_all : (n : ℕ) (bs : Text) → length bs ≤ n → take n bs ≡ bs
  take_all zero [] h = refl
  take_all zero (b ∷ bs) h = absurd (omega (arith, h))
  take_all (suc n) [] h = refl
  take_all (suc n) (b ∷ bs) h = ap (◌∷◌ b) (take_all n bs (omega (arith, h)))

  read_again :
      (n : ℕ) (r : R) (w : StreamWrapper R)
      → w.internal_reader ≡ some r
      → w.is_ready ≡ true
      → 0 < length (w.valid_start_bytes)
      → length (w.valid_start_bytes) ≤ n
      → wrapper_read n w ≡ (copied (w.valid_start_bytes), w)
  unfolding wrapper_read read_with read_ready
  read_again n r w e y v h = ground (arith, e, y, take_all n (w.valid_start_bytes) h)

  -- Where a ready wrapper has valid start bytes, and the caller has room for them, each of any number of
  -- reads gives these bytes again, and none comes to the reader inside.
  pub reads-times :
      (k n : ℕ) (r : R) (w : StreamWrapper R)
      → w.internal_reader ≡ some r
      → w.is_ready ≡ true
      → 0 < length (w.valid_start_bytes)
      → length (w.valid_start_bytes) ≤ n
      → reads k n w ≡ (times k (copied (w.valid_start_bytes)), w)
  reads-times zero n r w e y v h = refl
  reads-times (suc k) n r w e y v h =
      ap (λ z. (z.0 ∷ (reads k n z.1).0, (reads k n z.1).1)) (read_again n r w e y v h)
      ∙ ap (λ z. (copied (w.valid_start_bytes) ∷ z.0, z.1)) (reads-times k n r w e y v h)
