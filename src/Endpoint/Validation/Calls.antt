-- ===== src/Endpoint/Validation/Calls.antt =====
-- What the calls of one goroutine of `newServerEndpoint` in capturer/capture.go do to the streams of its
-- connection.
use data_collector.Base.{
  ℕ, ◌≡◌, refl, ◌⊎◌, inl, inr, List, ◌∷◌, Option, none, some, Text, Result, ok, err, All, arith,
}
use data_collector.Streams.Reader.{
  StreamReader, interrupt_blocking_reading, Ending, returns, blocked, panics,
}
use data_collector.Streams.Concurrent.{
  ConcurrentReader, seek_to, validated, forbidden, interrupt_ending, interrupt_reading,
}
use data_collector.Endpoint.{TcpConn}
use data_collector.Endpoint.Validation.{
  Side, c2s, s2c, Decoder, Call, set_valid, forbid, interrupt, seek, Task, accepting, success,
  stream, with_stream, after_seek, after_interrupt, do_call,
}
use data_collector.Endpoint.Validation.Status.{
  sides, Coming, Fine, Later, All-later, or_later, Later-Fine, with-Later, status-Later,
  validated_valid, validated_exclusive, forbidden_exclusive, forbidden_valid,
}

-- The calls of `do_call`.
Coming-set_valid :
    (x side : Side) (cs : List Call) (c : TcpConn)
    → Coming c (set_valid x ∷ cs) side
    → Coming (with_stream x (validated (stream x c)) c) cs side
Coming-set_valid c2s c2s cs c h =
    (inr (validated_valid (stream c2s c)), or_later (validated_exclusive (stream c2s c)) h.1)
Coming-set_valid c2s s2c cs c h = h
Coming-set_valid s2c c2s cs c h = h
Coming-set_valid s2c s2c cs c h =
    (inr (validated_valid (stream s2c c)), or_later (validated_exclusive (stream s2c c)) h.1)

Coming-forbid :
    (x side : Side) (cs : List Call) (c : TcpConn)
    → Coming c (forbid x ∷ cs) side
    → Coming (with_stream x (forbidden (stream x c)) c) cs side
Coming-forbid c2s c2s cs c h =
    (or_later (forbidden_valid (stream c2s c)) h.0, inr (forbidden_exclusive (stream c2s c)))
Coming-forbid c2s s2c cs c h = h
Coming-forbid s2c c2s cs c h = h
Coming-forbid s2c s2c cs c h =
    (or_later (forbidden_valid (stream s2c c)) h.0, inr (forbidden_exclusive (stream s2c c)))

-- What a step does, if it does not crash: no stream loses anything, what its goroutine has done is there,
-- the name is as it was or the decoder's, whose goroutine then has succeeded, and success lasts.
abbrev pub Goes : ℕ → Decoder → Task → TcpConn → Text → Result (TcpConn × Text × Task) → Type 0
Goes vt d t c name (err e) = Unit {0}
Goes vt d t c name (ok (c1, name1, t1)) =
    Later c c1
    × Fine c1 vt t1
    × ((name1 ≡ name) ⊎ ((t1 ≡ success) × (name1 ≡ d.name)))
    × (t ≡ success → t1 ≡ success)

not_success : (cs : List Call) {A : Type 0} → accepting cs ≡ success → A
not_success cs e = absurd cc

seek-status : (n : ℕ) (m m1 : ConcurrentReader) → seek_to n m ≡ some m1 → m1.status ≡ m.status
unfolding seek_to
seek-status n m m1 e = ground (arith, e)

module _ (d : Decoder) (vt : ℕ) (c : TcpConn) (name : Text) where
  same_status-Goes :
      (side : Side) (call : Call) (cs rest : List Call) (m : ConcurrentReader)
      → m.status ≡ (stream side c).status
      → ((x : Side) → Coming c (call ∷ cs) x → Coming c rest x)
      → All (Coming c (call ∷ cs)) (sides vt)
      → Goes vt d (accepting (call ∷ cs)) c name (ok (with_stream side m c, name, accepting rest))
  same_status-Goes side call cs rest m e f h =
      let l = status-Later side m c e in
      (
        l,
        Later-Fine c (with_stream side m c) vt (accepting rest) l (All-later (sides vt) f h),
        inl refl,
        not_success (call ∷ cs),
      )

  seek-Goes :
      (side : Side) (n : ℕ) (cs : List Call) (o : Option ConcurrentReader)
      → seek_to n (stream side c) ≡ o
      → All (Coming c (seek side n ∷ cs)) (sides vt)
      → Goes vt d (accepting (seek side n ∷ cs)) c name (after_seek side c name cs o)
  unfolding after_seek
  seek-Goes side n cs none e h = tt
  seek-Goes side n cs (some m) e h =
      same_status-Goes side (seek side n) cs cs m (seek-status n (stream side c) m e) (λ x y. y) h

  waits-Goes :
      (side : Side) (cs : List Call)
      → All (Coming c (interrupt side ∷ cs)) (sides vt)
      → Goes vt d
          (accepting (interrupt side ∷ cs))
          c
          name
          (ok (c, name, accepting (interrupt side ∷ cs)))
  waits-Goes side cs h = ((λ x. ((λ e. e), (λ e. e))), h, inl refl, λ e. e)

  ending-Goes :
      (side : Side) (cs : List Call) (e : Ending)
      → All (Coming c (interrupt side ∷ cs)) (sides vt)
      → Goes vt d
          (accepting (interrupt side ∷ cs))
          c
          name
          (after_interrupt side c name cs (interrupt_ending (stream side c) e))
  unfolding after_interrupt interrupt_ending
  ending-Goes side cs (returns r) h =
      same_status-Goes side (interrupt side) cs cs (record (stream side c) { reader = some r }) refl
        (λ x y. y) h
  ending-Goes side cs (blocked r) h = waits-Goes side cs h
  ending-Goes side cs (panics r) h = tt

  interrupt-Goes :
      (side : Side) (cs : List Call) (o : Option StreamReader)
      → All (Coming c (interrupt side ∷ cs)) (sides vt)
      → Goes vt d
          (accepting (interrupt side ∷ cs))
          c
          name
          (after_interrupt side c name cs (interrupt_reading (stream side c) o))
  unfolding after_interrupt interrupt_reading
  interrupt-Goes side cs none h = tt
  interrupt-Goes side cs (some r) h = ending-Goes side cs (interrupt_blocking_reading r) h

  pub do_call-Goes :
      (call : Call) (cs : List Call)
      → All (Coming c (call ∷ cs)) (sides vt)
      → Goes vt d (accepting (call ∷ cs)) c name (do_call call cs c name)
  unfolding do_call
  do_call-Goes (set_valid side) cs h = (
    with-Later side (validated (stream side c)) c (λ e. validated_valid (stream side c))
        (validated_exclusive (stream side c)),
    All-later (sides vt) (λ x y. Coming-set_valid side x cs c y) h,
    inl refl,
    not_success (set_valid side ∷ cs),
  )
  do_call-Goes (seek side n) cs h = seek-Goes side n cs (seek_to n (stream side c)) refl h
  do_call-Goes (forbid side) cs h = (
    with-Later side (forbidden (stream side c)) c (forbidden_valid (stream side c))
        (λ e. forbidden_exclusive (stream side c)),
    All-later (sides vt) (λ x y. Coming-forbid side x cs c y) h,
    inl refl,
    not_success (forbid side ∷ cs),
  )
  do_call-Goes (interrupt side) cs h = interrupt-Goes side cs ((stream side c).reader) h
