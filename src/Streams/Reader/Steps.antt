-- ===== src/Streams/Reader/Steps.antt =====
-- Sequences of calls on a `StreamReader` of capturer/MutiCoroutineAccessReader.go, by the assembler
-- and by a reader, in any order.
use data_collector.Base.{
  ℕ, ◌≡◌, refl, sym, ◌∙◌, ap, subst, Bool, true, false, List, [], ◌∷◌, ◌++◌, append_assoc,
  append-nil, arith,
}
use data_collector.Assembly.Page.{Reassembly}
use data_collector.Streams.Reader.{
  StreamReader, returns, reassembled, reassembly_complete, interrupt_blocking_reading, read,
  discard, close, got, data_lost, eof, waits,
}
use data_collector.Streams.Reader.Content.{bytes_of, queue_bytes, content, IsSound}

-- `Steps r ws rs ds r'`: from r, calls that wrote the bytes `ws`, read the bytes `rs`, and dropped the
-- bytes `ds` by `Close` lead to r'. A read that waits is made again later; the state that it waits in is
-- the next one.
pub data Steps (pick : StreamReader → Bool)
    : StreamReader → List ℕ → List ℕ → List ℕ → StreamReader → Type 0 where
  stop : (r : StreamReader) → Steps pick r [] [] [] r
  write :
      (r : StreamReader) (xs : List Reassembly) (r1 r2 : StreamReader) (ws rs ds : List ℕ)
      → reassembled r xs ≡ returns r1
      → Steps pick r1 ws rs ds r2
      → Steps pick r (bytes_of xs ++ ws) rs ds r2
  complete :
      (r r1 r2 : StreamReader) (ws rs ds : List ℕ)
      → reassembly_complete r ≡ returns r1
      → Steps pick r1 ws rs ds r2
      → Steps pick r ws rs ds r2
  interrupted :
      (r r1 r2 : StreamReader) (ws rs ds : List ℕ)
      → interrupt_blocking_reading r ≡ returns r1
      → Steps pick r1 ws rs ds r2
      → Steps pick r ws rs ds r2
  reads :
      (r : StreamReader) (n : ℕ) (cs : List ℕ) (r1 r2 : StreamReader) (ws rs ds : List ℕ)
      → read pick n r ≡ got cs r1
      → Steps pick r1 ws rs ds r2
      → Steps pick r ws (cs ++ rs) ds r2
  loses :
      (r : StreamReader) (n : ℕ) (r1 r2 : StreamReader) (ws rs ds : List ℕ)
      → read pick n r ≡ data_lost r1
      → Steps pick r1 ws rs ds r2
      → Steps pick r ws rs ds r2
  ends :
      (r : StreamReader) (n : ℕ) (r1 r2 : StreamReader) (ws rs ds : List ℕ)
      → read pick n r ≡ eof r1
      → Steps pick r1 ws rs ds r2
      → Steps pick r ws rs ds r2
  waiting :
      (r : StreamReader) (n : ℕ) (r1 r2 : StreamReader) (ws rs ds : List ℕ)
      → read pick n r ≡ waits r1
      → Steps pick r1 ws rs ds r2
      → Steps pick r ws rs ds r2
  closes :
      (r r1 r2 : StreamReader) (ws rs ds : List ℕ)
      → close r ≡ returns r1
      → Steps pick r1 ws rs ds r2
      → Steps pick r ws rs (bytes_of (r.current) ++ ds) r2

queue_bytes-append :
    (q : List (List Reassembly)) (xs : List Reassembly)
    → queue_bytes (q ++ xs ∷ []) ≡ queue_bytes q ++ bytes_of xs
queue_bytes-append [] xs = append-nil (bytes_of xs)
queue_bytes-append (ys ∷ q) xs =
    ap (λ z. bytes_of ys ++ z) (queue_bytes-append q xs)
    ∙ sym (append_assoc (bytes_of ys) (queue_bytes q) (bytes_of xs))

pub reassembled_returns :
    (r : StreamReader) (xs : List Reassembly) (r1 : StreamReader)
    → reassembled r xs ≡ returns r1
    → (r.reassembled_closed ≡ false) × (record r { reassembled = r.reassembled ++ xs ∷ [] } ≡ r1)
unfolding reassembled
reassembled_returns r xs r1 e = ground arith

pub complete_returns :
    (r r1 : StreamReader)
    → reassembly_complete r ≡ returns r1
    → record r { reassembled_closed = true; done_closed = true } ≡ r1
unfolding reassembly_complete
complete_returns r r1 e = ground arith

pub interrupt_returns :
    (r r1 : StreamReader)
    → interrupt_blocking_reading r ≡ returns r1
    → record r { interrupt = 1 } ≡ r1
unfolding interrupt_blocking_reading
interrupt_returns r r1 e = ground arith

pub discard_returns :
    (q : List (List Reassembly)) (r r1 : StreamReader)
    → discard r q ≡ returns r1
    → (q ≡ []) × (r.reassembled_closed ≡ true)
unfolding discard
discard_returns [] r r1 e = ground arith
discard_returns (rs ∷ queue) r r1 e = absurd (ground arith)

pub close_returns :
    (r r1 : StreamReader)
    → close r ≡ returns r1
    → (r.reassembled ≡ [])
      × (r.reassembled_closed ≡ true)
      × (record r { current = []; closed = true } ≡ r1)
unfolding close discard
close_returns r r1 e =
    let d = discard_returns (r.reassembled) (record r { current = []; closed = true }) r1 e in
    (
      d.0,
      d.1,
      (let run : discard (record r { current = []; closed = true }) [] ≡ returns r1 =
            ap (discard (record r { current = []; closed = true })) (sym d.0) ∙ e in
          ground (arith, d.1, run)),
    )

pub append_empty {ℓ} : {A : Type ℓ} (xs ys : List A) → xs ++ ys ≡ [] → (xs ≡ []) × (ys ≡ [])
append_empty [] ys e = (refl, e)
append_empty (x ∷ xs) ys e = absurd cc

-- A reader that can be read from, with the bytes `bs` to read.
abbrev pub Has : List ℕ → StreamReader → Type 0
Has bs r = (content r ≡ bs) × (r.initiated ≡ true) × IsSound r

pub Has-written :
    (r : StreamReader) (xs : List Reassembly) (r1 : StreamReader) (bs : List ℕ)
    → Has bs r
    → reassembled r xs ≡ returns r1
    → Has (bs ++ bytes_of xs) r1
Has-written r xs r1 bs h e =
    let (opened, same) = reassembled_returns r xs r1 e in
    subst (Has (bs ++ bytes_of xs)) same (
      ap (λ z. bytes_of (r.current) ++ z) (queue_bytes-append (r.reassembled) xs)
          ∙ sym (append_assoc (bytes_of (r.current)) (queue_bytes (r.reassembled)) (bytes_of xs))
          ∙ ap (λ z. z ++ bytes_of xs) h.0,
      h.1,
      λ c. absurd (ground (arith, h.2 c, opened)),
    )

pub Has-completed :
    (r r1 : StreamReader) (bs : List ℕ) → Has bs r → reassembly_complete r ≡ returns r1 → Has bs r1
Has-completed r r1 bs h e =
    subst (Has bs) (complete_returns r r1 e) (h.0, h.1, λ c. (refl, (h.2 c).1))

pub Has-interrupted :
    (r r1 : StreamReader) (bs : List ℕ)
    → Has bs r
    → interrupt_blocking_reading r ≡ returns r1
    → Has bs r1
Has-interrupted r r1 bs h e = subst (Has bs) (interrupt_returns r r1 e) h
