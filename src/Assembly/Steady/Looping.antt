-- ===== src/Assembly/Steady/Looping.antt =====
-- The inner loop of `FlushOlderThan` of capturer/extendedassembly.go over the old pages of a connection.
use data_collector.Base.{
  ℕ, zero, suc, ◌≤◌, ◌≡◌, refl, sym, ap, ◌∙◌, inl, inr, ◌&&◌, Bool, true, false, Bool-cases, List,
  [], ◌∷◌, ◌++◌, append_assoc, append-nil, Option, none, some, length, ltb, arith, ok,
}
use data_collector.Assembly.Page.{Page}
use data_collector.Assembly.Connection.{Connection, is_nil}
use data_collector.Assembly.Work.{Work, Event, skip_flush}
use data_collector.Assembly.Work.Ready.{Ready}
use data_collector.Assembly.Assembler.{is_overdue, flush_loop}
use data_collector.Assembly.Steady.Protocol.{Deliveries, Deliveries-append, none_left}
use data_collector.Assembly.Steady.Change.{Steps}
use data_collector.Assembly.Steady.Flushing.{
  Steps-none, Steps-more, Flushed, closes, leaves, flush_pages-Flushed,
}

-- Whether a page was seen before `t`.
abbrev pub page_is_old : ℕ → (ℕ → Page) → Option ℕ → Bool
page_is_old t h none = false
page_is_old t h (some p) = ltb (h p).seen t

-- Neither is its first page that old, nor is it idle since then.
abbrev pub NotOld : ℕ → Connection → (ℕ → Page) → Type 0
NotOld t c h = (page_is_old t h c.first ≡ false) × ((is_nil c.first && ltb c.last_seen t) ≡ false)

pub overdue_lem :
    (t : ℕ) (w : Work) (o : Option ℕ)
    → w.conn.first ≡ o
    → is_overdue t w ≡ page_is_old t w.pc.pages o
unfolding is_overdue
overdue_lem t w none e = ground (arith, e)
overdue_lem t w (some p) e = ground (arith, e)

empty_not_overdue :
    (t : ℕ) (w : Work) (s : ℕ) (rest : List ℕ) → Ready w s [] rest → is_overdue t w ≡ false
empty_not_overdue t w s rest r = overdue_lem t w none r.inv.list.first_is

-- The inner loop.
loop_stop :
    (fuel t : ℕ) (b : Bool) (w : Work) → is_overdue t w ≡ false → flush_loop fuel t b w ≡ ok (b, w)
unfolding flush_loop
loop_stop zero t b w e = ground (arith, e)
loop_stop (suc fuel) t b w e = ground (arith, e)

loop_closed :
    (fuel t : ℕ) (b : Bool) (w w1 : Work)
    → is_overdue t w ≡ true
    → skip_flush w ≡ ok w1
    → w1.conn.closed ≡ true
    → flush_loop (suc fuel) t b w ≡ ok (true, w1)
unfolding flush_loop
loop_closed fuel t b w w1 e f c = ground (arith, e, f, c)

loop_on :
    (fuel t : ℕ) (b : Bool) (w w1 : Work)
    → is_overdue t w ≡ true
    → skip_flush w ≡ ok w1
    → w1.conn.closed ≡ false
    → flush_loop (suc fuel) t b w ≡ flush_loop fuel t true w1
unfolding flush_loop
loop_on fuel t b w w1 e f c = ground (arith, e, f, c)

-- How that loop leaves the connection: closed, or with nothing overdue.
pub data Looped (t : ℕ) (w : Work) (s : ℕ) (rest : List ℕ) (b : Bool) (w1 : Work) : Type 0 where
  gone : w1.conn.closed ≡ true → b ≡ true → Looped t w s rest b w1
  stays :
      (ids : List ℕ) (calls : List Event)
      → Ready w1 s ids rest
      → w1.pool ≡ w.pool
      → Deliveries s calls
      → w1.events ≡ w.events ++ calls
      → is_overdue t w1 ≡ false
      → Looped t w s rest b w1

unfoldable pub Loops : (fuel t : ℕ) (w : Work) (s : ℕ) (rest : List ℕ) (b : Bool) → Type 0
Loops fuel t w s rest b =
    (b' : Bool) × (w' : Work) × (flush_loop fuel t b w ≡ ok (b', w'))
    × Steps w s rest w'
    × Looped t w s rest b' w'

after-Looped :
    (t : ℕ) (w w1 w2 : Work) (s : ℕ) (rest : List ℕ) (calls : List Event) (b : Bool)
    → w1.pool ≡ w.pool
    → Deliveries s calls
    → w1.events ≡ w.events ++ calls
    → Looped t w1 s rest b w2
    → Looped t w s rest b w2
after-Looped t w w1 w2 s rest calls b q d e (gone c f) = gone c f
after-Looped t w w1 w2 s rest calls b q d e (stays ids more r p m f old) =
    stays ids (calls ++ more) r (p ∙ q) (Deliveries-append s d m)
      (f ∙ ap (λ (z : List Event). z ++ more) e ∙ append_assoc w.events calls more) old

loop_rest :
    (fuel t n : ℕ) (w w1 : Work) (s : ℕ) (rest : List ℕ) (b : Bool)
    → ((ids : List ℕ) → Ready w1 s ids rest → length ids ≤ fuel → Loops fuel t w1 s rest true)
    → n ≤ fuel
    → is_overdue t w ≡ true
    → skip_flush w ≡ ok w1
    → Steps w s rest w1
    → Flushed w s n rest w1
    → Loops (suc fuel) t w s rest b
unfolding Loops
loop_rest fuel t n w w1 s rest b more le old run u (closes c) =
    (true, w1, loop_closed fuel t b w w1 old run c, u, gone c refl)
loop_rest fuel t n w w1 s rest b more le old run u (leaves ids calls r fewer q d e) =
    let (b2, w2, go, v, l) = more ids r (omega (arith, fewer, le)) in
    (
      b2,
      w2,
      loop_on fuel t b w w1 old run r.is_open ∙ go,
      Steps-more w w1 w2 s rest ids calls u q d e v,
      after-Looped t w w1 w2 s rest calls b2 q d e l,
    )

loop_done :
    (fuel t : ℕ) (w : Work) (s : ℕ) (ids rest : List ℕ) (b : Bool)
    → Ready w s ids rest
    → is_overdue t w ≡ false
    → Loops fuel t w s rest b
unfolding Loops
loop_done fuel t w s ids rest b r e = (
  b,
  w,
  loop_stop fuel t b w e,
  Steps-none w s ids rest r,
  stays ids [] r refl none_left (sym (append-nil w.events)) e,
)

pub flush_loop-Loops :
    (fuel t : ℕ) (w : Work) (s : ℕ) (ids rest : List ℕ) (b : Bool)
    → Ready w s ids rest
    → length ids ≤ fuel
    → Loops fuel t w s rest b
flush_loop-Loops fuel t w s [] rest b r le =
    loop_done fuel t w s [] rest b r (empty_not_overdue t w s rest r)
flush_loop-Loops zero t w s (p ∷ ps) rest b r le = absurd (omega (arith, le))
flush_loop-Loops (suc fuel) t w s (p ∷ ps) rest b r le =
    let (w1, run, u, f) = flush_pages-Flushed w s p ps rest r in
    elim (Bool-cases (is_overdue t w)) [
      | inl e ↦
          loop_rest fuel t (length ps) w w1 s rest b
            (λ ids r1 lt. flush_loop-Loops fuel t w1 s ids rest true r1 lt) (omega (arith, le)) e
            run u f
      | inr e ↦ loop_done (suc fuel) t w s (p ∷ ps) rest b r e
    ]
