-- ===== src/Endpoint/Validation/Tasks.antt =====
-- What one step of a goroutine of `newServerEndpoint` in capturer/capture.go does.
use data_collector.Base.{
  ℕ, ◌≡◌, refl, sym, subst, inl, inr, List, [], ◌∷◌, ◌++◌, Option, none, some, Text, All,
}
use data_collector.Streams.Concurrent.{ConcurrentReader}
use data_collector.Endpoint.{TcpConn}
use data_collector.Endpoint.Validation.{
  Side, c2s, s2c, Decoder, Task, search, search_both, search_second, accepting, success, failure,
  stream, calls_for, found_one, found_first, found_second, do_task,
}
use data_collector.Endpoint.Validation.Status.{sides, Taken, Coming, Fine, status-Later}
use data_collector.Endpoint.Validation.Calls.{Goes, do_call-Goes}

-- A search reads the stream, and leaves its status word alone.
abbrev pub KeepsStatus : Decoder → Type 0
KeepsStatus d =
    (side : Side) (id : ℕ) (m : ConcurrentReader) → (d.locate_start side id m).0.status ≡ m.status

calls-Coming : (side : Side) (n : ℕ) (c : TcpConn) → Coming c (calls_for side n) side
unfolding calls_for
calls-Coming c2s n c = (inl refl, inl refl)
calls-Coming s2c n c = (inl refl, inl refl)

found_one-Fine :
    (side : Side) (o : Option ℕ) (c : TcpConn) (vt : ℕ)
    → sides vt ≡ side ∷ []
    → Fine c vt (found_one side o)
unfolding found_one
found_one-Fine side none c vt e = tt
found_one-Fine side (some n) c vt e =
    subst (All (Coming c (calls_for side n))) (sym e) (calls-Coming side n c, tt)

found_first-Fine :
    (o : Option ℕ) (c : TcpConn) (vt : ℕ) → sides vt ≡ c2s ∷ s2c ∷ [] → Fine c vt (found_first o)
unfolding found_first
found_first-Fine none c vt e = tt
found_first-Fine (some n) c vt e = e

found_second-Fine :
    (n : ℕ) (o : Option ℕ) (c : TcpConn) (vt : ℕ)
    → sides vt ≡ c2s ∷ s2c ∷ []
    → Fine c vt (found_second n o)
unfolding found_second calls_for
found_second-Fine n none c vt e = tt
found_second-Fine n (some k) c vt e =
    subst (All (Coming c (calls_for c2s n ++ calls_for s2c k))) (sym e)
      ((inl refl, inl refl), ((inl refl, inl refl), tt))

All-Taken :
    (c : TcpConn) (xs : List Side) → All (Coming c []) xs → All (λ side. Taken (stream side c)) xs
All-Taken c [] h = tt
All-Taken c (x ∷ xs) h = (both x h.0, All-Taken c xs h.1)
  where
    both : (side : Side) → Coming c [] side → Taken (stream side c)
    both side (inr v, inr f) = record { valid = v; exclusive = f }
    both side (inl v, f) = absurd cc
    both side (inr v, inl f) = absurd cc

pub do_task-Goes :
    (id : ℕ) (d : Decoder) (t : Task) (c : TcpConn) (name : Text)
    → KeepsStatus d
    → Fine c d.validate_type t
    → Goes d.validate_type d t c name (do_task id d t c name)
unfolding do_task
do_task-Goes id d (search side) c name k h = (
  status-Later side (d.locate_start side id (stream side c)).0 c (k side id (stream side c)),
  found_one-Fine side (d.locate_start side id (stream side c)).1 _ (d.validate_type) h,
  inl refl,
  λ e. absurd cc,
)
do_task-Goes id d search_both c name k h = (
  status-Later c2s (d.locate_start c2s id (stream c2s c)).0 c (k c2s id (stream c2s c)),
  found_first-Fine (d.locate_start c2s id (stream c2s c)).1 _ (d.validate_type) h,
  inl refl,
  λ e. absurd cc,
)
do_task-Goes id d (search_second n) c name k h = (
  status-Later s2c (d.locate_start s2c id (stream s2c c)).0 c (k s2c id (stream s2c c)),
  found_second-Fine n (d.locate_start s2c id (stream s2c c)).1 _ (d.validate_type) h,
  inl refl,
  λ e. absurd cc,
)
do_task-Goes id d (accepting []) c name k h = (
  (λ x. ((λ e. e), (λ e. e))),
  All-Taken c (sides (d.validate_type)) h,
  inr (refl, refl),
  λ e. refl,
)
do_task-Goes id d (accepting (call ∷ rest)) c name k h =
    do_call-Goes d (d.validate_type) c name call rest h
do_task-Goes id d success c name k h = ((λ x. ((λ e. e), (λ e. e))), h, inl refl, λ e. refl)
do_task-Goes id d failure c name k h = ((λ x. ((λ e. e), (λ e. e))), tt, inl refl, λ e. e)
