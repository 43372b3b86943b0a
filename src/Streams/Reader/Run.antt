-- ===== src/Streams/Reader/Run.antt =====
-- Sequences of calls on a `StreamReader` of capturer/MutiCoroutineAccessReader.go, by the assembler
-- and by a reader, in any order.
use data_collector.Base.{
  ℕ, ◌≡◌, refl, sym, ◌∙◌, ap, subst, Bool, true, false, List, [], ◌∷◌, ◌++◌, append_assoc,
  append-nil, ◌↔◌, arith,
}
use data_collector.Assembly.Page.{Reassembly}
use data_collector.Streams.Reader.{
  StreamReader, new_reader_stream, returns, interrupt_blocking_reading, read, discard, close, Read,
  got, data_lost, eof, waits, stuck, panic,
}
use data_collector.Streams.Reader.Content.{bytes_of, queue_bytes, content, flags, IsSound, Delivers}
use data_collector.Streams.Reader.Loop.{read-Delivers}
use data_collector.Streams.Reader.Steps.{
  Steps, stop, write, complete, interrupted, reads, loses, ends, waiting, closes,
  reassembled_returns, complete_returns, interrupt_returns, discard_returns, close_returns,
  append_empty, Has, Has-written, Has-completed, Has-interrupted,
}

module _ (pick : StreamReader → Bool) where
  outcome :
      (r : StreamReader) (n : ℕ) (bs : List ℕ) (x : Read)
      → Has bs r
      → read pick n r ≡ x
      → Delivers n bs (flags r) x
  outcome r n bs x h e =
      subst (λ z. Delivers n z (flags r) x) h.0
        (subst (λ z. Delivers n (content r) (flags r) z) e (read-Delivers pick n r h.1 h.2))

  -- What a run from a reader with the bytes `bs` keeps; nothing is written once the stream is complete.
  abbrev Kept : List ℕ → StreamReader → List ℕ → List ℕ → List ℕ → StreamReader → Type 0
  Kept bs r ws rs ds r' =
      (bs ++ ws ≡ rs ++ (ds ++ content r'))
      × (r'.initiated ≡ true)
      × IsSound r'
      × (r.reassembled_closed ≡ true → ws ≡ [])

  after_close :
      (bs : List ℕ) (r r1 r2 : StreamReader) (ws rs ds : List ℕ)
      → Has bs r
      → (r.reassembled ≡ []) × (r.reassembled_closed ≡ true)
      → Kept [] r1 ws rs ds r2
      → r1.reassembled_closed ≡ true
      → Kept bs r ws rs (bytes_of (r.current) ++ ds) r2
  after_close bs r r1 r2 ws rs ds h c k o =
      let cur = bytes_of (r.current) in
      let no_writes = k.3 o in
      let (no_reads, left) = append_empty rs (ds ++ content r2) (sym k.0 ∙ no_writes) in
      let all : bs ≡ cur = sym h.0 ∙ ap (λ z. cur ++ queue_bytes z) c.0 ∙ append-nil cur in
      (
        ap (λ z. bs ++ z) no_writes
            ∙ append-nil bs
            ∙ all
            ∙ sym (append-nil cur)
            ∙ ap (λ z. cur ++ z) (sym left)
            ∙ sym (append_assoc cur ds (content r2))
            ∙ ap (λ z. z ++ ((cur ++ ds) ++ content r2)) (sym no_reads),
        k.1,
        k.2,
        λ e. no_writes,
      )

  run-Has :
      (bs : List ℕ) {r r' : StreamReader} {ws rs ds : List ℕ}
      → Has bs r
      → Steps pick r ws rs ds r'
      → Kept bs r ws rs ds r'
  run-Has bs h (stop r) = (append-nil bs ∙ sym h.0, h.1, h.2, λ e. refl)
  run-Has bs h (write r xs r1 r2 ws rs ds e m) =
      let k = run-Has (bs ++ bytes_of xs) (Has-written r xs r1 bs h e) m in
      (
        sym (append_assoc bs (bytes_of xs) ws) ∙ k.0,
        k.1,
        k.2,
        λ c. absurd (ground (arith, c, (reassembled_returns r xs r1 e).0)),
      )
  run-Has bs h (complete r r1 r2 ws rs ds e m) =
      let k = run-Has bs (Has-completed r r1 bs h e) m in
      (k.0, k.1, k.2, λ c. k.3 (sym (ap (λ z. z.reassembled_closed) (complete_returns r r1 e))))
  run-Has bs h (interrupted r r1 r2 ws rs ds e m) =
      let k = run-Has bs (Has-interrupted r r1 bs h e) m in
      (
        k.0,
        k.1,
        k.2,
        λ c. k.3 (sym (ap (λ z. z.reassembled_closed) (interrupt_returns r r1 e)) ∙ c),
      )
  run-Has bs h (reads r n cs r1 r2 ws rs ds e m) =
      let d = outcome r n bs (got cs r1) h e in
      let k = run-Has (content r1) (refl, d.4.1, d.4.2) m in
      (
        ap (λ z. z ++ ws) d.0
            ∙ append_assoc cs (content r1) ws
            ∙ ap (λ z. cs ++ z) k.0
            ∙ sym (append_assoc cs rs (ds ++ content r2)),
        k.1,
        k.2,
        λ c. k.3 (ap (λ z. z.0) d.4.0 ∙ c),
      )
  run-Has bs h (loses r n r1 r2 ws rs ds e m) =
      let d = outcome r n bs (data_lost r1) h e in
      let k = run-Has bs (sym d.0, d.3.1, d.3.2) m in
      (k.0, k.1, k.2, λ c. k.3 (ap (λ z. z.0) d.3.0 ∙ c))
  run-Has bs h (ends r n r1 r2 ws rs ds e m) =
      let d = outcome r n bs (eof r1) h e in
      let k = run-Has bs (d.2 ∙ sym d.0, d.3.1, d.3.2) m in
      (k.0, k.1, k.2, λ c. k.3 (ap (λ z. z.0) d.3.0 ∙ c))
  run-Has bs h (waiting r n r1 r2 ws rs ds e m) =
      let d = outcome r n bs (waits r1) h e in
      let k = run-Has bs (d.2 ∙ sym d.0, d.3.1, d.3.2) m in
      (k.0, k.1, k.2, λ c. k.3 (ap (λ z. z.0) d.3.0 ∙ c))
  run-Has bs h (closes r r1 r2 ws rs ds e m) =
      let (drained, at_end, same) = close_returns r r1 e in
      let empty = subst (Has []) same (ap queue_bytes drained, h.1, λ c. (at_end, drained)) in
      after_close bs r r1 r2 ws rs ds h (drained, at_end) (run-Has [] empty m)
        (sym (ap (λ z. z.reassembled_closed) same) ∙ at_end)

  -- Of a new reader, after calls of its methods in any order that return, and reads that wait for bytes,
  -- where a slice is left alone once it is written: the bytes read, then those that `Close` dropped, then
  -- those that the reader still has, are the bytes written, in the order of the writes.
  pub Steps-content :
      {r : StreamReader} {ws rs ds : List ℕ}
      → Steps pick new_reader_stream ws rs ds r
      → ws ≡ rs ++ (ds ++ content r)
  unfolding new_reader_stream
  Steps-content m = (run-Has [] (refl, refl, λ c. absurd cc) m).0

  -- When a reader that began as a new one, whose slices are left alone once written, reports the end of
  -- the stream after such calls: the bytes read, and then those that `Close` dropped, are all that was
  -- written, and the stream was completed.
  pub Steps-eof :
      {r : StreamReader} {ws rs ds : List ℕ} (n : ℕ) (r' : StreamReader)
      → Steps pick new_reader_stream ws rs ds r
      → read pick n r ≡ eof r'
      → (ws ≡ rs ++ ds) × (r.reassembled_closed ≡ true)
  unfolding new_reader_stream
  Steps-eof {r} {ws} {rs} {ds} n r' m e =
      let k = run-Has [] (refl, refl, λ c. absurd cc) m in
      let d = outcome r n (content r) (eof r') (refl, k.1, k.2) e in
      (k.0 ∙ ap (λ z. rs ++ (ds ++ z)) d.0 ∙ ap (λ z. rs ++ z) (append-nil ds), d.1)

  read_waits :
      (n : ℕ) (r : StreamReader) (bs : List ℕ) (x : Read)
      → bs ≡ []
      → r.reassembled_closed ≡ false
      → Delivers n bs (flags r) x
      → (r' : StreamReader) × (x ≡ waits r')
  read_waits n r bs (got cs r') e o d = absurd (ground (arith, e, d.3))
  read_waits n r bs (data_lost r') e o d = absurd (ground (arith, e, d.2))
  read_waits n r bs (eof r') e o d = absurd (ground (arith, o, d.1))
  read_waits n r bs (waits r') e o d = (r', refl)
  read_waits n r bs (stuck r') e o d = absurd d
  read_waits n r bs (panic r') e o d = absurd d

  -- An interrupt does not end a read: of a sound reader of an open stream with nothing left to
  -- read, a read after an interrupt that was accepted waits.
  pub read-interrupt_blocking_reading :
      (n : ℕ) (r r1 : StreamReader)
      → r.initiated ≡ true
      → IsSound r
      → content r ≡ []
      → r.reassembled_closed ≡ false
      → interrupt_blocking_reading r ≡ returns r1
      → (r' : StreamReader) × (read pick n r1 ≡ waits r')
  read-interrupt_blocking_reading n r r1 i s e o t =
      let same = interrupt_returns r r1 t in
      let h = Has-interrupted r r1 [] (e, i, s) t in
      read_waits n r1 [] (read pick n r1) refl (sym (ap (λ z. z.reassembled_closed) same) ∙ o)
        (outcome r1 n [] (read pick n r1) h refl)

discard_drained :
    (q : List (List Reassembly)) (r : StreamReader)
    → q ≡ []
    → r.reassembled_closed ≡ true
    → discard r q ≡ returns r
unfolding discard
discard_drained [] r e o = ground arith
discard_drained (rs ∷ queue) r e o = absurd cc

-- `Close` returns exactly if the stream is complete and all its slices were received before: it never
-- gets past a slice that it would have to discard.
pub close_iff :
    (r : StreamReader)
    → ((r1 : StreamReader) × (close r ≡ returns r1))
      ↔ ((r.reassembled ≡ []) × (r.reassembled_closed ≡ true))
unfolding close
close_iff r = (
  λ k. discard_returns (r.reassembled) (record r { current = []; closed = true }) k.0 k.1,
  λ h. (
    record r { current = []; closed = true },
    discard_drained (r.reassembled) (record r { current = []; closed = true }) h.0 h.1,
  ),
)
