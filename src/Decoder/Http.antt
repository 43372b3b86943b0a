-- ===== src/Decoder/Http.antt =====
-- The search for a valid start of decoder/http.go. A reader is the list of the bytes that it gives until
-- it fails. The regular expressions of the first lines are a parameter, the test `check` of a line.
pub mod Start
pub mod Parsing
use data_collector.Base.{
  ℕ, zero, suc, ◌+◌, ◌==◌, Bool, true, false, List, [], ◌∷◌, ◌++◌, Option, none, some,
  if◌then◌else◌, length, Text, ltb, get_last?, take, drop, ◌-◌, index_byte,
}

-- The buffer of `bufio.NewReader`.
abbrev pub buffer_size : ℕ
buffer_size = 4096

-- `ReadSlice`: the bytes up to the first `delim`, that one included, and the rest; no result if the
-- reader fails or the buffer is full before.
unfoldable pub read_slice : ℕ → Text → Option (Text × Text)
unfolding index_byte
read_slice delim bs = elim (index_byte delim bs) [
  | none ↦ none
  | some i ↦ if ltb i buffer_size then some (take (suc i) bs, drop (suc i) bs) else none
]

pub data Located : Type 0 where
  found : ℕ → Located
  failed : Located
  unfinished : Located

unfoldable pub ends_in_return : Text → Bool
ends_in_return line = elim (get_last? line) [ none ↦ false | some c ↦ c == b'\r' ]

module _ (check : Text → Bool) where
  -- The loop of both searches, with the bytes to come and the count of those before them.
  unfoldable pub locate : ℕ → ℕ → Text → ℕ → Located
  unfolding read_slice ends_in_return
  locate delim zero bs total = unfinished
  locate delim (suc fuel) bs total = elim (read_slice delim bs) [
    | none ↦ failed
    | some (line, rest) ↦
        let longer = locate delim fuel rest (total + length line + 1) in
        let invalid = locate delim fuel rest (total + length line + 2) in
        if ends_in_return line
        then (if check (take (length line - 1) line) then found total else invalid)
        else longer
  ]

  -- `LocateToValidStartInC2SStream`
  unfoldable pub locate_to_valid_start_in_c2s_stream : Text → Located
  unfolding locate
  locate_to_valid_start_in_c2s_stream bs = locate b'\r' (suc (length bs)) bs 0

  -- `LocateToValidStartInS2CStream`
  unfoldable pub locate_to_valid_start_in_s2c_stream : Text → Located
  unfolding locate
  locate_to_valid_start_in_s2c_stream bs = locate b'\n' (suc (length bs)) bs 0
