-- ===== src/Assembly/Steady/Emptying.antt =====
-- `FlushAll` of capturer/extendedassembly.go.
use data_collector.Base.{
  ℕ, ◌+◌, ◌≡◌, refl, ap, ◌∙◌, inl, inr, true, List, [], ◌∷◌, map, length, ltb, arith, ok,
  if◌then◌else◌,
}
use data_collector.Assembly.Pool.{connections}
use data_collector.Assembly.Work.{Work}
use data_collector.Assembly.Assembler.{Assembler, lock, unlock, drain, drain_each, flush_all}
use data_collector.Assembly.Steady.Slots.{Slot, entries, numbers, pages_of}
use data_collector.Assembly.Steady.Protocol.{times_made, times_completed, Lawful-times}
use data_collector.Assembly.Steady.Invariant.{Steady, lock-Ready}
use data_collector.Assembly.Steady.Moved.{Changed}
use data_collector.Assembly.Steady.Unlock.{Steps-Changed}
use data_collector.Assembly.Steady.Flushing.{drain-closed}

numbers_lem : (ss : List Slot) → map (λ e. e.1) (entries ss) ≡ numbers ss
numbers_lem [] = refl
numbers_lem (s ∷ ss) = ap (◌∷◌ s.id) (numbers_lem ss)

pub connections-numbers :
    (a : Assembler) (slots : List Slot) → Steady a slots → connections a.pool ≡ numbers slots
unfolding connections
connections-numbers a slots v = ap (map (λ e. e.1)) v.conns_are ∙ numbers_lem slots

pub length-numbers : (ss : List Slot) → length (numbers ss) ≡ length ss
length-numbers [] = refl
length-numbers (s ∷ ss) = omega (arith, length-numbers ss)

-- One connection of `FlushAll`.
drained :
    (s : Slot) (ys : List Slot) (a : Assembler)
    → Steady a (s ∷ ys)
    → (w : Work) × (drain ((lock s.id a).conn.pages + 1) (lock s.id a) ≡ ok w)
      × Steady (unlock w) ys
drained s ys a v =
    let r = lock-Ready [] s ys a v in
    let (w, run, t, c) =
      drain-closed ((lock s.id a).conn.pages + 1) (lock s.id a) s.stream s.ids (pages_of ys) r
        (omega (arith, r.inv.counted)) in
    (w, run, without w c (Steps-Changed [] s ys a w v t))
  where
    without : (w : Work) → w.conn.closed ≡ true → Changed [] s ys w → Steady (unlock w) ys
    without w c (inl (ids, u, op, r)) = absurd (ground (arith, c, op))
    without w c (inr (u, d)) = u

each_run :
    (c : ℕ) (cs : List ℕ) (a : Assembler) (w : Work)
    → drain ((lock c a).conn.pages + 1) (lock c a) ≡ ok w
    → drain_each (c ∷ cs) a ≡ drain_each cs (unlock w)
unfolding drain_each
each_run c cs a w e = rw e

drain_each-Steady :
    (slots : List Slot) (a : Assembler)
    → Steady a slots
    → (a' : Assembler) × (drain_each (numbers slots) a ≡ ok a') × Steady a' []
unfolding drain_each
drain_each-Steady [] a v = (a, refl, v)
drain_each-Steady (s ∷ ss) a v =
    let (w, run, u) = drained s ss a v in
    let (a', more, u') = drain_each-Steady ss (unlock w) u in
    (a', each_run s.id (numbers ss) a w run ∙ more, u')

flush_all-run :
    (a a' : Assembler) (cs : List ℕ)
    → connections a.pool ≡ cs
    → drain_each cs a ≡ ok a'
    → flush_all a ≡ ok (length cs, a')
unfolding flush_all
flush_all-run a a' cs e run = rw (e, run)

pub flush_all-Steady :
    (a : Assembler) (slots : List Slot)
    → Steady a slots
    → (a' : Assembler) × (flush_all a ≡ ok (length slots, a')) × Steady a' []
flush_all-Steady a slots v =
    let (a', run, u) = drain_each-Steady slots a v in
    (
      a',
      flush_all-run a a' (numbers slots) (connections-numbers a slots v) run
          ∙ ap (λ n. ok (n, a')) (length-numbers slots),
      u,
    )

-- With the assembler steady, `FlushAll` returns, without a fault, the number of its connections. Then
-- the map of the pool is empty, and every stream that was ever made was completed, exactly once.
pub flush_all-times_completed :
    (a : Assembler) (slots : List Slot) (s : ℕ)
    → Steady a slots
    → (a' : Assembler) × (flush_all a ≡ ok (length slots, a'))
      × (a'.pool.conns ≡ [])
      × (times_completed s a'.events ≡ times_made s a'.events)
      × (times_made s a'.events ≡ (if ltb s a'.pool.streams then 1 else 0))
flush_all-times_completed a slots s v =
    let (a', run, u) = flush_all-Steady a slots v in
    let (m, c) = Lawful-times s u.calls in (a', run, u.conns_are, omega (arith, c), m)
