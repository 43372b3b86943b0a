-- ===== src/Endpoint/Validation/Chosen.antt =====
-- Which decoder an endpoint of capturer/capture.go has while its goroutines run.
use data_collector.Base.{
  ℕ, zero, suc, ◌==◌, ◌≡◌, refl, sym, ap, ◌∙◌, subst, ◌⊎◌, inl, inr, List, [], ◌∷◌, Text, Result,
  ok, err, ◌>>=◌, All, arith, if_cases,
}
use data_collector.Endpoint.{TcpConn}
use data_collector.Endpoint.Validation.{
  Decoder, Task, success, Goroutine, stream, first_task, do_task, Validating, step_in, step,
  run_schedule, default_decoder_name, start_goroutines, new_validating,
}
use data_collector.Endpoint.Validation.Status.{sides, Taken, Fine, Later, Later-Fine}
use data_collector.Endpoint.Validation.Calls.{Goes}
use data_collector.Endpoint.Validation.Tasks.{KeepsStatus, do_task-Goes}

-- Over all goroutines.
abbrev AllFine : TcpConn → List Goroutine → Type 0
AllFine c gs = All (λ g. Fine c g.decoder.validate_type g.task) gs

abbrev IsNamed : Text → List Goroutine → Type 0
IsNamed name [] = ⊥
IsNamed name (g ∷ gs) = ((g.task ≡ success) × (name ≡ g.decoder.name)) ⊎ IsNamed name gs

abbrev Named : Text → List Goroutine → Type 0
Named name gs = (name ≡ default_decoder_name) ⊎ IsNamed name gs

abbrev decoders_of : List Goroutine → List Decoder
decoders_of [] = []
decoders_of (g ∷ gs) = g.decoder ∷ decoders_of gs

abbrev StepsTo : List Goroutine → TcpConn → Text → Result (TcpConn × Text × List Goroutine) → Type 0
StepsTo gs c name (err e) = Unit {0}
StepsTo gs c name (ok (c1, name1, gs1)) =
    Later c c1
    × AllFine c1 gs1
    × ((name1 ≡ name) ⊎ IsNamed name1 gs1)
    × ((n : Text) → IsNamed n gs → IsNamed n gs1)
    × (decoders_of gs1 ≡ decoders_of gs)

Later-AllFine : (c c1 : TcpConn) (gs : List Goroutine) → Later c c1 → AllFine c gs → AllFine c1 gs
Later-AllFine c c1 [] l h = tt
Later-AllFine c c1 (g ∷ gs) l h =
    (Later-Fine c c1 (g.decoder.validate_type) (g.task) l h.0, Later-AllFine c c1 gs l h.1)

here-StepsTo :
    (g : Goroutine) (gs : List Goroutine) (c : TcpConn) (name : Text)
    (x : Result (TcpConn × Text × Task))
    → AllFine c gs
    → Goes g.decoder.validate_type g.decoder g.task c name x
    → StepsTo (g ∷ gs) c name (x >>= (λ (c1, name1, t). ok (c1, name1, record g { task = t } ∷ gs)))
here-StepsTo g gs c name (err e) h k = tt
here-StepsTo g gs c name (ok (c1, name1, t)) h (l, fine, named, lasts) =
    (l, (fine, Later-AllFine c c1 gs l h), or_named named, keeps, refl)
  where
    or_named :
        (name1 ≡ name) ⊎ ((t ≡ success) × (name1 ≡ g.decoder.name))
        → (name1 ≡ name) ⊎ IsNamed name1 (record g { task = t } ∷ gs)
    or_named (inl e) = inl e
    or_named (inr b) = inr (inl b)

    keeps : (n : Text) → IsNamed n (g ∷ gs) → IsNamed n (record g { task = t } ∷ gs)
    keeps n (inl (s, e)) = inl (lasts s, e)
    keeps n (inr m) = inr m

behind-StepsTo :
    (g : Goroutine) (gs : List Goroutine) (c : TcpConn) (name : Text)
    (x : Result (TcpConn × Text × List Goroutine))
    → Fine c g.decoder.validate_type g.task
    → StepsTo gs c name x
    → StepsTo (g ∷ gs) c name (x >>= (λ (c1, name1, gs1). ok (c1, name1, g ∷ gs1)))
behind-StepsTo g gs c name (err e) h k = tt
behind-StepsTo g gs c name (ok (c1, name1, gs1)) h (l, fine, named, lasts, same) = (
  l,
  (Later-Fine c c1 (g.decoder.validate_type) (g.task) l h, fine),
  or_named named,
  keeps,
  ap (◌∷◌ g.decoder) same,
)
  where
    or_named : (name1 ≡ name) ⊎ IsNamed name1 gs1 → (name1 ≡ name) ⊎ IsNamed name1 (g ∷ gs1)
    or_named (inl e) = inl e
    or_named (inr b) = inr (inr b)

    keeps : (n : Text) → IsNamed n (g ∷ gs) → IsNamed n (g ∷ gs1)
    keeps n (inl m) = inl m
    keeps n (inr m) = inr (lasts n m)

step_in-StepsTo :
    (n : ℕ) (gs : List Goroutine) (c : TcpConn) (name : Text)
    → All KeepsStatus (decoders_of gs)
    → AllFine c gs
    → StepsTo gs c name (step_in n gs c name)
unfolding step_in
step_in-StepsTo n [] c name k h = ((λ x. ((λ e. e), (λ e. e))), tt, inl refl, (λ m x. x), refl)
step_in-StepsTo zero (g ∷ gs) c name k h =
    here-StepsTo g gs c name (do_task (g.id) (g.decoder) (g.task) c name) h.1
      (do_task-Goes (g.id) (g.decoder) (g.task) c name k.0 h.0)
step_in-StepsTo (suc n) (g ∷ gs) c name k h =
    behind-StepsTo g gs c name (step_in n gs c name) h.0 (step_in-StepsTo n gs c name k.1 h.1)

-- What holds of an endpoint with these decoders.
record Valid (ds : List Decoder) (v : Validating) : Type 0 where
  decoders_are : decoders_of v.goroutines ≡ ds
  fine : AllFine v.conn v.goroutines
  named : Named v.decoder_name v.goroutines

abbrev ValidAfter : List Decoder → Result Validating → Type 0
ValidAfter ds (err e) = Unit {0}
ValidAfter ds (ok v) = Valid ds v

stepped-Valid :
    (ds : List Decoder) (v : Validating) (x : Result (TcpConn × Text × List Goroutine))
    → Valid ds v
    → StepsTo v.goroutines v.conn v.decoder_name x
    → ValidAfter ds
        (x >>= (λ (c, name, gs). ok (record { conn = c; decoder_name = name; goroutines = gs })))
stepped-Valid ds v (err e) h k = tt
stepped-Valid ds v (ok (c, name, gs)) h (l, fine, named, lasts, same) = record {
  decoders_are = same ∙ h.decoders_are;
  fine = fine;
  named = still named h.named;
}
  where
    still :
        (name ≡ v.decoder_name) ⊎ IsNamed name gs
        → Named v.decoder_name v.goroutines
        → Named name gs
    still (inr m) n = inr m
    still (inl e) (inl d) = inl (e ∙ d)
    still (inl e) (inr m) = inr (subst (λ z. IsNamed z gs) (sym e) (lasts (v.decoder_name) m))

step-Valid :
    (ds : List Decoder) (n : ℕ) (v : Validating)
    → All KeepsStatus ds
    → Valid ds v
    → ValidAfter ds (step n v)
unfolding step
step-Valid ds n v k h = stepped-Valid ds v (step_in n (v.goroutines) (v.conn) (v.decoder_name)) h (
    step_in-StepsTo n (v.goroutines) (v.conn) (v.decoder_name)
      (subst (All KeepsStatus) (sym h.decoders_are) k) h.fine)

then_schedule :
    (ds : List Decoder) (ns : List ℕ) (x : Result Validating)
    → ((w : Validating) → Valid ds w → ValidAfter ds (run_schedule ns w))
    → ValidAfter ds x
    → ValidAfter ds (x >>= run_schedule ns)
then_schedule ds ns (err e) f u = tt
then_schedule ds ns (ok w) f u = f w u

schedule-Valid :
    (ds : List Decoder) (ns : List ℕ) (v : Validating)
    → All KeepsStatus ds
    → Valid ds v
    → ValidAfter ds (run_schedule ns v)
unfolding run_schedule
schedule-Valid ds [] v k h = h
schedule-Valid ds (n ∷ ns) v k h =
    then_schedule ds ns (step n v) (λ w u. schedule-Valid ds ns w k u) (step-Valid ds n v k h)

first_task-Fine : (c : TcpConn) (vt : ℕ) → Fine c vt (first_task vt)
unfolding first_task
first_task-Fine c vt =
    if_cases (Fine c vt) (vt == 1) (λ e. ground (arith, e))
      (λ e.
        if_cases (Fine c vt) (vt == 2) (λ f. ground (arith, e, f))
          (λ f. if_cases (Fine c vt) (vt == 3) (λ g. ground (arith, e, f, g)) (λ g. tt)))

start-Fine : (c : TcpConn) (id : ℕ) (ds : List Decoder) → AllFine c (start_goroutines id ds)
unfolding start_goroutines
start-Fine c id [] = tt
start-Fine c id (d ∷ ds) = (first_task-Fine c (d.validate_type), start-Fine c (suc id) ds)

decoders_of-start : (id : ℕ) (ds : List Decoder) → decoders_of (start_goroutines id ds) ≡ ds
unfolding start_goroutines
decoders_of-start id [] = refl
decoders_of-start id (d ∷ ds) = ap (◌∷◌ d) (decoders_of-start (suc id) ds)

start-Valid : (c : TcpConn) (id : ℕ) (ds : List Decoder) → Valid ds (new_validating c id ds)
unfolding new_validating
start-Valid c id ds = record {
  decoders_are = decoders_of-start id ds;
  fine = start-Fine c id ds;
  named = inl refl;
}

-- The name is that of one of the decoders, and the streams that it searched are taken.
abbrev pub HasTaken : TcpConn → Text → List Decoder → Type 0
HasTaken c name [] = ⊥
HasTaken c name (d ∷ ds) =
    ((name ≡ d.name) × All (λ side. Taken (stream side c)) (sides d.validate_type))
    ⊎ HasTaken c name ds

abbrev pub IsChosen : List Decoder → Result Validating → Type 0
IsChosen ds (err e) = Unit {0}
IsChosen ds (ok v) = (v.decoder_name ≡ default_decoder_name) ⊎ HasTaken v.conn v.decoder_name ds

named-HasTaken :
    (c : TcpConn) (name : Text) (gs : List Goroutine)
    → AllFine c gs
    → IsNamed name gs
    → HasTaken c name (decoders_of gs)
named-HasTaken c name [] h m = absurd m
named-HasTaken c name (g ∷ gs) h (inl (s, n)) =
    inl (n, subst (Fine c (g.decoder.validate_type)) s h.0)
named-HasTaken c name (g ∷ gs) h (inr m) = inr (named-HasTaken c name gs h.1 m)

valid-IsChosen : (ds : List Decoder) (x : Result Validating) → ValidAfter ds x → IsChosen ds x
valid-IsChosen ds (err e) h = tt
valid-IsChosen ds (ok v) h = from h.named
  where
    from : Named v.decoder_name v.goroutines → IsChosen ds (ok v)
    from (inl d) = inl d
    from (inr m) = inr (
        subst (HasTaken v.conn v.decoder_name) h.decoders_are
          (named-HasTaken v.conn v.decoder_name v.goroutines h.fine m))

-- Whatever decoders there are, whose searches leave the status of the stream alone, and in whatever order
-- their goroutines take their steps: as long as none of them crashes, the endpoint's decoder is the
-- default one, or one of these; and then the streams that this one searches are marked as validated, and
-- shared reads of them are refused.
pub run_schedule-IsChosen :
    (c : TcpConn) (id : ℕ) (ds : List Decoder) (ns : List ℕ)
    → All KeepsStatus ds
    → IsChosen ds (run_schedule ns (new_validating c id ds))
run_schedule-IsChosen c id ds ns k =
    valid-IsChosen ds (run_schedule ns (new_validating c id ds))
      (schedule-Valid ds ns (new_validating c id ds) k (start-Valid c id ds))
