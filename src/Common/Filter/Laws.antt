-- ===== src/Common/Filter/Laws.antt =====
-- What the filter texts of common/util.go are.
use data_collector.Base.{
  ℕ, suc, ◌≡◌, refl, ◌≢◌, ◌==◌, sym, ◌∙◌, ap, List, [], ◌∷◌, ◌++◌, map, append_assoc, append-nil,
  arith, All, none, some, length, take, drop, Text, last_index, join, ok, err, index_out_of_range,
  false,
}
use data_collector.Common.Filter.{
  split_host_port, in_clause, out_clause, clauses, separator, combine, generate_bpf_v2,
}

-- An address is a host, a colon and a port.
abbrev pub address_text : Text × Text → Text
address_text (h, p) = h ++ b':' ∷ p

-- No colon in the port; the host may have some.
abbrev pub IsEndpoint : Text × Text → Type 0
IsEndpoint (h, p) = All (λ c. c ≢ b':') p

last_index-none : (c : ℕ) (s : Text) → All (λ x. x ≢ c) s → last_index c s ≡ none
unfolding last_index
last_index-none c [] h = refl
last_index-none c (x ∷ xs) h = ground (arith, last_index-none c xs h.1, h.0)

last_index-append :
    (c : ℕ) (h p : Text) → All (λ x. x ≢ c) p → last_index c (h ++ c ∷ p) ≡ some (length h)
unfolding last_index
last_index-append c [] p e = ground (arith, last_index-none c p e)
last_index-append c (x ∷ xs) p e = ground (arith, last_index-append c xs p e)

take-append : (h : Text) (c : ℕ) (p : Text) → take (length h) (h ++ c ∷ p) ≡ h
take-append [] c p = refl
take-append (x ∷ xs) c p = ap (◌∷◌ x) (take-append xs c p)

drop-append : (h : Text) (c : ℕ) (p : Text) → drop (suc (length h)) (h ++ c ∷ p) ≡ p
drop-append [] c p = refl
drop-append (x ∷ xs) c p = drop-append xs c p

split-address : (e : Text × Text) → IsEndpoint e → split_host_port (address_text e) ≡ ok e
unfolding split_host_port
split-address (h, p) v =
    rw (last_index-append b':' h p v, take-append h b':' p, drop-append h b':' p)

clauses-step :
    (a : Text) (hp : Text × Text) (rest ins outs : List Text)
    → split_host_port a ≡ ok hp
    → clauses (a ∷ rest) ins outs
      ≡ clauses rest (ins ++ in_clause hp ∷ []) (outs ++ out_clause hp ∷ [])
unfolding clauses
clauses-step a hp rest ins outs e = ground (arith, e)

clauses-map :
    (es : List (Text × Text)) (rest ins outs : List Text)
    → All IsEndpoint es
    → clauses (map address_text es ++ rest) ins outs
      ≡ clauses rest (ins ++ map in_clause es) (outs ++ map out_clause es)
clauses-map [] rest ins outs v = rw (append-nil ins, append-nil outs)
clauses-map (e ∷ es) rest ins outs v =
    clauses-step (address_text e) e (map address_text es ++ rest) ins outs (split-address e v.0)
    ∙ clauses-map es rest (ins ++ in_clause e ∷ []) (outs ++ out_clause e ∷ []) v.1
    ∙ ap (λ xs. clauses rest xs ((outs ++ out_clause e ∷ []) ++ map out_clause es))
        (append_assoc ins (in_clause e ∷ []) (map in_clause es))
    ∙ ap (λ xs. clauses rest (ins ++ in_clause e ∷ map in_clause es) xs)
        (append_assoc outs (out_clause e ∷ []) (map out_clause es))

-- The filter that lets through what goes to one of the endpoints, or comes from one.
abbrev pub filter_text : List (Text × Text) → Text
filter_text [] = []
filter_text (e ∷ es) =
    join separator (map in_clause (e ∷ es))
    ++ (separator ++ join separator (map out_clause (e ∷ es)))

join_in :
    (e : Text × Text) (es : List (Text × Text))
    → (length (join separator (map in_clause (e ∷ es))) == 0) ≡ false
unfolding join in_clause
join_in e [] = ground arith
join_in e (x ∷ xs) = ground arith

join_out :
    (e : Text × Text) (es : List (Text × Text))
    → (length (join separator (map out_clause (e ∷ es))) == 0) ≡ false
unfolding join out_clause
join_out e [] = ground arith
join_out e (x ∷ xs) = ground arith

combine-filter_text :
    (es : List (Text × Text))
    → combine (join separator (map in_clause es)) (join separator (map out_clause es))
      ≡ filter_text es
unfolding combine
combine-filter_text [] = unfold join in refl
combine-filter_text (e ∷ es) = rw (join_in e es, join_out e es)

bpf_run :
    (addrs ins outs : List Text)
    → clauses addrs [] [] ≡ ok (ins, outs)
    → generate_bpf_v2 addrs ≡ ok (combine (join separator ins) (join separator outs))
unfolding generate_bpf_v2
bpf_run addrs ins outs e = ground (arith, e)

bpf_fault :
    (addrs : List Text)
    → clauses addrs [] [] ≡ err index_out_of_range
    → generate_bpf_v2 addrs ≡ err index_out_of_range
unfolding generate_bpf_v2
bpf_fault addrs e = ground (arith, e)

-- Of host and port addresses, with no colon in the ports, the filter has for each, in order, a clause
-- for packets to it, then for each a clause for packets from it, all joined by "or"; of none it is empty.
pub generate_bpf_v2-map :
    (es : List (Text × Text))
    → All IsEndpoint es
    → generate_bpf_v2 (map address_text es) ≡ ok (filter_text es)
generate_bpf_v2-map es v =
    let run : clauses (map address_text es) [] [] ≡ ok (map in_clause es, map out_clause es) =
      ap (λ xs. clauses xs [] []) (sym (append-nil (map address_text es)))
      ∙ clauses-map es [] [] [] v
      ∙ unfold clauses in refl in
    bpf_run (map address_text es) (map in_clause es) (map out_clause es) run
    ∙ ap ok (combine-filter_text es)

no_colon :
    (a : Text) (rest ins outs : List Text)
    → All (λ c. c ≢ b':') a
    → clauses (a ∷ rest) ins outs ≡ err index_out_of_range
unfolding clauses
no_colon a rest ins outs h = ground (arith, last_index-none b':' a h)

-- An address without a colon, after any that have one, takes the slice out of range: a panic.
pub generate_bpf_v2_no_colon :
    (es : List (Text × Text)) (a : Text) (rest : List Text)
    → All IsEndpoint es
    → All (λ c. c ≢ b':') a
    → generate_bpf_v2 (map address_text es ++ a ∷ rest) ≡ err index_out_of_range
generate_bpf_v2_no_colon es a rest v h =
    bpf_fault (map address_text es ++ a ∷ rest)
      (clauses-map es (a ∷ rest) [] [] v ∙ no_colon a rest (map in_clause es) (map out_clause es) h)
