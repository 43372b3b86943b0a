-- ===== src/Common/Filter.antt =====
-- The packet filters of common/util.go. An address is the text that its `String` gives.
pub mod Laws
use data_collector.Base.{
  ℕ, suc, ◌+◌, ◌==◌, Bool, List, [], ◌∷◌, ◌++◌, Option, none, some, if◌then◌else◌, length, take,
  drop, Text, codes, last_index, join, Result, ok, err, index_out_of_range, ◌>>=◌, or_fault,
}

-- `p[0:i]` and `p[i+1:]` at the last colon; without a colon the first slice is out of range.
unfoldable pub split_host_port : Text → Result (Text × Text)
unfolding last_index
split_host_port p = do
  i ← or_fault (last_index b':' p) index_out_of_range
  ok (take i p, drop (suc i) p)

-- The two formats of the clauses.
unfoldable pub in_clause : Text × Text → Text
in_clause (h, p) = codes "(dst host " ++ (h ++ (codes " and dst port " ++ (p ++ codes ")")))

unfoldable pub out_clause : Text × Text → Text
out_clause (h, p) = codes "(src host " ++ (h ++ (codes " and src port " ++ (p ++ codes ")")))

-- The loop over the addresses.
unfoldable pub clauses : List Text → List Text → List Text → Result (List Text × List Text)
unfolding split_host_port in_clause out_clause
clauses [] ins outs = ok (ins, outs)
clauses (a ∷ rest) ins outs = do
  hp ← split_host_port a
  clauses rest (ins ++ in_clause hp ∷ []) (outs ++ out_clause hp ∷ [])

abbrev pub separator : Text
separator = codes " or "

-- The two results put together.
unfoldable pub combine : Text → Text → Text
combine ins outs =
    if length ins == 0 then outs else if length outs == 0 then ins else ins ++ (separator ++ outs)

unfoldable pub generate_bpf_v2 : List Text → Result Text
unfolding clauses join combine
generate_bpf_v2 addrs = do
  (ins, outs) ← clauses addrs [] []
  ok (combine (join separator ins) (join separator outs))

-- The older version, over the keys of a map in the order of the iteration.
unfoldable pub generate_bpf : List Text → Result Text
unfolding clauses join combine
generate_bpf keys = do
  (ins, outs) ← clauses keys [] []
  ok (combine (join separator ins) (join separator outs))

-- The second argument is not read.
unfoldable pub generate_bpf_str : List Text → Bool → Result Text
unfolding generate_bpf_v2
generate_bpf_str addrs is_listen_addr = generate_bpf_v2 addrs
