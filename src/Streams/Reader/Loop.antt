-- ===== src/Streams/Reader/Loop.antt =====
-- What `Read` of capturer/MutiCoroutineAccessReader.go returns, by what the reader has.
use data_collector.Base.{
  ℕ, zero, suc, ◌+◌, ◌≤◌, ◌≡◌, refl, sym, ◌∙◌, ap, subst, inl, inr, ◌&&◌, ◌||◌, not, Bool, true,
  false, List, [], ◌∷◌, ◌++◌, length, arith, Bool-cases, ltb, if◌then◌else◌,
}
use data_collector.Assembly.Page.{Reassembly}
use data_collector.Streams.Reader.{
  StreamReader, strip_empty, receive, take_token, is_ready, is_interrupted, copy_head, read_loop,
  read, Read, waits,
}
use data_collector.Streams.Reader.Content.{
  bytes_of, queue_bytes, content, flags, IsSound, Delivers, HeadFull, copy_head-Delivers,
  receive-content, strip_empty-content,
}

module _ (pick : StreamReader → Bool) where
  loop_done :
      (fuel n : ℕ) (r : StreamReader)
      → (r.closed || ltb 0 (length (r.current))) ≡ true
      → read_loop pick (suc fuel) n r ≡ copy_head n (r.current) r
  unfolding read_loop
  loop_done fuel n r f = ground (arith, f)

  loop_received :
      (fuel n : ℕ) (r : StreamReader)
      → r.closed ≡ false
      → r.current ≡ []
      → is_ready r ≡ true
      → (is_interrupted r && pick (record r { first = false })) ≡ false
      → read_loop pick (suc fuel) n r
        ≡ read_loop pick fuel n (receive (record r { first = false }) (r.reassembled))
  unfolding read_loop
  loop_received fuel n r f c y p = ground (arith, f, c, y, p)

  loop_interrupted :
      (fuel n : ℕ) (r : StreamReader)
      → r.closed ≡ false
      → r.current ≡ []
      → is_interrupted r ≡ true
      → (not (is_ready r) || pick (record r { first = false })) ≡ true
      → read_loop pick (suc fuel) n r
        ≡ read_loop pick fuel n (take_token (r.interrupt) (record r { first = false }))
  unfolding read_loop
  loop_interrupted fuel n r f c y p = ground (arith, f, c, y, p)

  loop_waits :
      (fuel n : ℕ) (r : StreamReader)
      → r.closed ≡ false
      → r.current ≡ []
      → is_interrupted r ≡ false
      → is_ready r ≡ false
      → read_loop pick (suc fuel) n r ≡ waits (record r { first = false })
  unfolding read_loop
  loop_waits fuel n r f c y p = ground (arith, f, c, y, p)

  -- The rounds of the loop that are left, at most.
  abbrev need : StreamReader → ℕ
  need r =
      if r.closed || ltb 0 (length (r.current)) then 1 else 2 + length (r.reassembled) + r.interrupt

  receive-need :
      (q : List (List Reassembly)) (r : StreamReader)
      → r.reassembled ≡ q
      → r.closed ≡ false
      → r.current ≡ []
      → suc (need (receive r q)) ≤ need r
  unfolding receive strip_empty
  receive-need [] r e f c = ground (arith, e, f, c)
  receive-need (rs ∷ queue) r e f c = ground (arith, e, f, c)

  take_token-need :
      (k : ℕ) (r : StreamReader)
      → r.interrupt ≡ suc k
      → r.closed ≡ false
      → r.current ≡ []
      → suc (need (take_token (suc k) r)) ≤ need r
  unfolding take_token
  take_token-need k r e f c = ground (arith, e, f, c)

  nothing_left :
      (xs : List Reassembly) (q : List (List Reassembly)) (b : Bool)
      → xs ≡ []
      → (b || ltb 0 (length q)) ≡ false
      → (bytes_of xs ++ queue_bytes q ≡ []) × (b ≡ false)
  nothing_left xs [] b e f = (rw (e), ground arith)
  nothing_left xs (rs ∷ q) b e f = absurd (ground arith)

  no_current :
      (xs : List Reassembly) (b : Bool) → (b || ltb 0 (length xs)) ≡ false → (xs ≡ []) × (b ≡ false)
  no_current [] b f = (refl, ground arith)
  no_current (x ∷ xs) b f = absurd (ground arith)

  -- A round that goes on, to a reader with the same bytes.
  goes_on :
      (n : ℕ) (r r1 : StreamReader) (x y : Read)
      → x ≡ y
      → content r1 ≡ content r
      → flags r1 ≡ flags r
      → Delivers n (content r1) (flags r1) y
      → Delivers n (content r) (flags r) x
  goes_on n r r1 x y e c k d =
      subst (λ z. Delivers n (content r) (flags r) z) (sym e)
        (subst (λ z. Delivers n z (flags r) y) c (subst (λ z. Delivers n (content r1) z y) k d))

  interrupt_cases : (k : ℕ) → ltb 0 k ≡ true → (j : ℕ) × (k ≡ suc j)
  interrupt_cases zero e = absurd cc
  interrupt_cases (suc k) e = (k, refl)

  abbrev LoopDelivers : ℕ → Type 0
  LoopDelivers fuel =
      (n : ℕ) (r : StreamReader)
      → HeadFull (r.current)
      → r.initiated ≡ true
      → IsSound r
      → need r ≤ fuel
      → Delivers n (content r) (flags r) (read_loop pick fuel n r)

  after_token :
      (fuel k n : ℕ) (r : StreamReader)
      → LoopDelivers fuel
      → r.interrupt ≡ suc k
      → r.closed ≡ false
      → r.current ≡ []
      → HeadFull (r.current)
      → r.initiated ≡ true
      → IsSound r
      → need r ≤ suc fuel
      → (not (is_ready r) || pick (record r { first = false })) ≡ true
      → Delivers n (content r) (flags r) (read_loop pick (suc fuel) n r)
  unfolding take_token is_interrupted
  after_token fuel k n r ih e f c v i s g p =
      let r0 = record r { first = false } in
      let r1 = record r0 { interrupt = k } in
      goes_on n r r1 (read_loop pick (suc fuel) n r) (read_loop pick fuel n r1)
        (loop_interrupted fuel n r f c (ground (arith, e)) p
          ∙ ap (λ z. read_loop pick fuel n (take_token z r0)) e)
        refl refl (ih n r1 v i s (omega (arith, take_token-need k r0 e f c, g)))

  after_receive :
      (fuel n : ℕ) (r : StreamReader)
      → LoopDelivers fuel
      → r.closed ≡ false
      → r.current ≡ []
      → r.initiated ≡ true
      → need r ≤ suc fuel
      → is_ready r ≡ true
      → (is_interrupted r && pick (record r { first = false })) ≡ false
      → Delivers n (content r) (flags r) (read_loop pick (suc fuel) n r)
  unfolding is_ready
  after_receive fuel n r ih f c i g y p =
      let r0 = record r { first = false } in
      let q = r.reassembled in
      let (same, full, keeps) = receive-content q r0 refl c f i y in
      goes_on n r (receive r0 q) (read_loop pick (suc fuel) n r)
        (read_loop pick fuel n (receive r0 q)) (loop_received fuel n r f c y p) same keeps.0
        (ih n (receive r0 q) full keeps.1 keeps.2 (omega (arith, receive-need q r0 refl f c, g)))

  no_round :
      (fuel n : ℕ) (r : StreamReader)
      → r.closed ≡ false
      → r.current ≡ []
      → r.initiated ≡ true
      → IsSound r
      → is_interrupted r ≡ false
      → is_ready r ≡ false
      → Delivers n (content r) (flags r) (read_loop pick (suc fuel) n r)
  unfolding is_ready
  no_round fuel n r f c i s t y =
      let (none, opened) = nothing_left (r.current) (r.reassembled) (r.reassembled_closed) c y in
      subst (λ z. Delivers n (content r) (flags r) z) (sym (loop_waits fuel n r f c t y))
        (none, opened, none, (refl, i, s))

  round-Delivers :
      (fuel n : ℕ) (r : StreamReader)
      → LoopDelivers fuel
      → r.closed ≡ false
      → r.current ≡ []
      → HeadFull (r.current)
      → r.initiated ≡ true
      → IsSound r
      → need r ≤ suc fuel
      → Delivers n (content r) (flags r) (read_loop pick (suc fuel) n r)
  unfolding is_interrupted
  round-Delivers fuel n r ih f c v i s g = elim (Bool-cases (is_interrupted r)) [
    | inl t ↦ elim (Bool-cases (not (is_ready r) || pick (record r { first = false }))) [
      | inl p ↦
          let (k, e) = interrupt_cases (r.interrupt) t in after_token fuel k n r ih e f c v i s g p
      | inr p ↦ after_receive fuel n r ih f c i g (ground (arith, p)) (ground (arith, p))
    ]
    | inr t ↦ elim (Bool-cases (is_ready r)) [
      | inl p ↦ after_receive fuel n r ih f c i g p (ground (arith, t))
      | inr p ↦ no_round fuel n r f c i s t p
    ]
  ]

  loop-Delivers : (fuel : ℕ) → LoopDelivers fuel
  loop-Delivers zero n r v i s g = absurd (ground arith)
  loop-Delivers (suc fuel) n r v i s g =
      elim (Bool-cases (r.closed || ltb 0 (length (r.current)))) [
        | inl f ↦
            subst (λ z. Delivers n (content r) (flags r) z) (sym (loop_done fuel n r f))
              (copy_head-Delivers n (r.current) r refl v i s f)
        | inr f ↦
            let (c, d) = no_current (r.current) (r.closed) f in
            round-Delivers fuel n r (loop-Delivers fuel) d c v i s g
      ]

  read_run :
      (n : ℕ) (r : StreamReader)
      → r.initiated ≡ true
      → read pick n r ≡ read_loop pick (2 + length (r.reassembled) + r.interrupt) n (strip_empty r)
  unfolding read
  read_run n r i = ground (arith, i)

  need_start : (r : StreamReader) → need (strip_empty r) ≤ 2 + length (r.reassembled) + r.interrupt
  unfolding strip_empty
  need_start r = ground arith

  pub read-Delivers :
      (n : ℕ) (r : StreamReader)
      → r.initiated ≡ true
      → IsSound r
      → Delivers n (content r) (flags r) (read pick n r)
  read-Delivers n r i s =
      let (same, full, keeps) = strip_empty-content r s i in
      goes_on n r (strip_empty r) (read pick n r)
        (read_loop pick (2 + length (r.reassembled) + r.interrupt) n (strip_empty r))
        (read_run n r i) same keeps.0
        (loop-Delivers (2 + length (r.reassembled) + r.interrupt) n (strip_empty r) full keeps.1
          keeps.2 (need_start r))
