-- ===== src/Assembly/Steady/Flushing.antt =====
-- What both flushes of capturer/extendedassembly.go do to one connection: their loops end.
use data_collector.Base.{
  ℕ, zero, suc, ◌≤◌, ◌<◌, ◌≡◌, refl, sym, ◌∙◌, inl, inr, true, false, List, [], ◌∷◌, ◌++◌,
  append-nil, All-intro, length, arith, ok,
}
use data_collector.Assembly.Work.{Work, Event, skip_flush}
use data_collector.Assembly.Work.Ready.{Ready}
use data_collector.Assembly.Work.Send.{skip_flush-Outcome}
use data_collector.Assembly.Work.Shrink.{Shrunk, skip_flush-Shrunk, skip_flush-empty}
use data_collector.Assembly.Assembler.{drain}
use data_collector.Assembly.Steady.Protocol.{Deliveries, none_left}
use data_collector.Assembly.Steady.Change.{
  ResultOf, still_waiting, now_closed, Steps, Steps-then, Outcome-Steps,
}

-- Nothing done.
pub Steps-none : (w : Work) (s : ℕ) (ids rest : List ℕ) → Ready w s ids rest → Steps w s rest w
Steps-none w s ids rest r = record {
  result = still_waiting ids [] r refl none_left (sym (append-nil w.events));
  kept = All-intro rest (λ q. refl);
  same_key = refl;
  same_id = refl;
}

-- A flush, then more steps at the connection that still waits.
pub Steps-more :
    (w w1 w2 : Work) (s : ℕ) (rest ids : List ℕ) (calls : List Event)
    → Steps w s rest w1
    → w1.pool ≡ w.pool
    → Deliveries s calls
    → w1.events ≡ w.events ++ calls
    → Steps w1 s rest w2
    → Steps w s rest w2
Steps-more w w1 w2 s rest ids calls t p d e u =
    Steps-then w w1 w2 s rest calls p d e t.kept t.same_key t.same_id u

-- One flush, with what is left: closed, or waiting with fewer pages.
pub data Flushed (w : Work) (s n : ℕ) (rest : List ℕ) (w1 : Work) : Type 0 where
  closes : w1.conn.closed ≡ true → Flushed w s n rest w1
  leaves :
      (ids : List ℕ) (calls : List Event)
      → Ready w1 s ids rest
      → length ids ≤ n
      → w1.pool ≡ w.pool
      → Deliveries s calls
      → w1.events ≡ w.events ++ calls
      → Flushed w s n rest w1

result-Flushed :
    (w w1 : Work) (s n : ℕ) (rest : List ℕ)
    → Shrunk n w1
    → ResultOf w s rest w1
    → Flushed w s n rest w1
result-Flushed w w1 s n rest (inl c) r = closes c
result-Flushed w w1 s n rest (inr le) (still_waiting ids calls r p d e) =
    leaves ids calls r (omega (arith, le, r.inv.counted)) p d e
result-Flushed w w1 s n rest (inr le) (now_closed calls a c p d e) = closes c

pub flush_pages-Flushed :
    (w : Work) (s p : ℕ) (ps rest : List ℕ)
    → Ready w s (p ∷ ps) rest
    → (w1 : Work) × (skip_flush w ≡ ok w1) × Steps w s rest w1 × Flushed w s (length ps) rest w1
flush_pages-Flushed w s p ps rest r =
    let (w1, run, o) = skip_flush-Outcome w s (p ∷ ps) rest r in
    let t = Outcome-Steps w s rest w1 o in
    (
      w1,
      run,
      t,
      result-Flushed w w1 s (length ps) rest
          (skip_flush-Shrunk w w1 s p ps rest r.inv r.has_stream run) t.result,
    )

pub flush_empty-closed :
    (w : Work) (s : ℕ) (rest : List ℕ)
    → Ready w s [] rest
    → (w1 : Work) × (skip_flush w ≡ ok w1) × Steps w s rest w1 × (w1.conn.closed ≡ true)
flush_empty-closed w s rest r =
    let (w1, run, o) = skip_flush-Outcome w s [] rest r in
    (
      w1,
      run,
      Outcome-Steps w s rest w1 o,
      skip_flush-empty w w1 s [] rest r.inv r.has_stream r.inv.list.first_is run,
    )

-- `FlushAll`.
drain_step :
    (fuel : ℕ) (w w1 : Work)
    → w.conn.closed ≡ false
    → skip_flush w ≡ ok w1
    → drain (suc fuel) w ≡ drain fuel w1
unfolding drain
drain_step fuel w w1 e f = ground (arith, e, f)

drain_stop : (fuel : ℕ) (w : Work) → w.conn.closed ≡ true → drain fuel w ≡ ok w
unfolding drain
drain_stop zero w e = ground (arith, e)
drain_stop (suc fuel) w e = ground (arith, e)

Drained : (fuel : ℕ) (w : Work) (s : ℕ) (rest : List ℕ) → Type 0
Drained fuel w s rest =
    (w' : Work) × (drain fuel w ≡ ok w') × Steps w s rest w' × (w'.conn.closed ≡ true)

drain_rest :
    (fuel n : ℕ) (w w1 : Work) (s : ℕ) (rest : List ℕ)
    → ((ids : List ℕ) → Ready w1 s ids rest → length ids < fuel → Drained fuel w1 s rest)
    → n < fuel
    → Steps w s rest w1
    → Flushed w s n rest w1
    → (w2 : Work) × (drain fuel w1 ≡ ok w2) × Steps w s rest w2 × (w2.conn.closed ≡ true)
unfolding Drained
drain_rest fuel n w w1 s rest more lt t (closes c) = (w1, drain_stop fuel w1 c, t, c)
drain_rest fuel n w w1 s rest more lt t (leaves ids calls r1 fewer q d e) =
    let (w2, run, u, c) = more ids r1 (omega (arith, fewer, lt)) in
    (w2, run, Steps-more w w1 w2 s rest ids calls t q d e u, c)

-- The loop of `FlushAll` closes any waiting connection, in one round more than it has pages at most.
pub drain-closed :
    (fuel : ℕ) (w : Work) (s : ℕ) (ids rest : List ℕ)
    → Ready w s ids rest
    → length ids < fuel
    → (w' : Work) × (drain fuel w ≡ ok w') × Steps w s rest w' × (w'.conn.closed ≡ true)
unfolding Drained
drain-closed zero w s ids rest r le = absurd (omega (arith, le))
drain-closed (suc fuel) w s [] rest r le =
    let (w1, run, t, c) = flush_empty-closed w s rest r in
    (w1, drain_step fuel w w1 r.is_open run ∙ drain_stop fuel w1 c, t, c)
drain-closed (suc fuel) w s (p ∷ ps) rest r le =
    let (w1, run, t, f) = flush_pages-Flushed w s p ps rest r in
    let (w2, more, u, c) =
      drain_rest fuel (length ps) w w1 s rest (λ ids r1 lt. drain-closed fuel w1 s ids rest r1 lt)
        (omega (arith, le)) t f in
    (w2, drain_step fuel w w1 r.is_open run ∙ more, u, c)
