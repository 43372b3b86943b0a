-- ===== src/Assembly/Steady/Sweeping.antt =====
-- One connection of `FlushOlderThan` of capturer/extendedassembly.go.
use data_collector.Base.{
  ℕ, ◌≡◌, refl, sym, ◌∙◌, inl, inr, ◌&&◌, Bool, true, false, Bool-cases, List, [], ◌∷◌, ◌++◌, ltb,
  arith, ok,
}
use data_collector.Assembly.Connection.{is_nil}
use data_collector.Assembly.Work.{Work, Event, close_connection}
use data_collector.Assembly.Work.Ready.{Ready}
use data_collector.Assembly.Work.Send.{flush_none}
use data_collector.Assembly.Assembler.{is_overdue, flush_loop, close_if_idle, flush_connection}
use data_collector.Assembly.Steady.Protocol.{Deliveries}
use data_collector.Assembly.Steady.Change.{Steps}
use data_collector.Assembly.Steady.Flushing.{Steps-more, flush_empty-closed}
use data_collector.Assembly.Steady.Looping.{
  NotOld, overdue_lem, Looped, gone, stays, Loops, flush_loop-Loops,
}

-- Then it is closed if it is idle.
idle_closed :
    (t : ℕ) (b : Bool) (w : Work) → w.conn.closed ≡ true → close_if_idle t b w ≡ ok (b, true, w)
unfolding close_if_idle
idle_closed t b w c = ground (arith, c)

idle_closes :
    (t : ℕ) (b : Bool) (w w1 : Work)
    → w.conn.closed ≡ false
    → (is_nil w.conn.first && ltb w.conn.last_seen t) ≡ true
    → close_connection w ≡ ok w1
    → close_if_idle t b w ≡ ok (true, true, w1)
unfolding close_if_idle
idle_closes t b w w1 c e run = rw (c, e, run)

idle_leaves :
    (t : ℕ) (b : Bool) (w : Work)
    → w.conn.closed ≡ false
    → (is_nil w.conn.first && ltb w.conn.last_seen t) ≡ false
    → close_if_idle t b w ≡ ok (b, false, w)
unfolding close_if_idle
idle_leaves t b w c e = rw (c, e)

-- What `FlushOlderThan` does to one connection: it reports whether the connection was closed, which
-- counts as flushed, and a connection that it leaves open is not old.
pub record Swept (t : ℕ) (w : Work) (s : ℕ) (rest : List ℕ) : Type 0 where
  pub flushed : Bool
  pub closed : Bool
  pub after : Work
  pub run : flush_connection t w ≡ ok (flushed, closed, after)
  pub steps : Steps w s rest after
  pub closed_is : closed ≡ after.conn.closed
  pub counts : closed ≡ true → flushed ≡ true
  pub not_old : after.conn.closed ≡ false → NotOld t after.conn after.pc.pages

connection_run :
    (t : ℕ) (w w1 w2 : Work) (b f c : Bool)
    → flush_loop w.conn.pages t false w ≡ ok (b, w1)
    → close_if_idle t b w1 ≡ ok (f, c, w2)
    → flush_connection t w ≡ ok (f, c, w2)
unfolding flush_connection
connection_run t w w1 w2 b f c e g = rw (e, g)

idle_is_empty :
    (t : ℕ) (w : Work) (s : ℕ) (ids rest : List ℕ)
    → Ready w s ids rest
    → (is_nil w.conn.first && ltb w.conn.last_seen t) ≡ true
    → Ready w s [] rest
idle_is_empty t w s [] rest r e = r
idle_is_empty t w s (p ∷ ps) rest r e = absurd (ground (arith, r.inv.list.first_is, e))

gone-Swept :
    (t : ℕ) (w : Work) (s : ℕ) (rest : List ℕ) (b : Bool) (w1 : Work)
    → flush_loop w.conn.pages t false w ≡ ok (b, w1)
    → Steps w s rest w1
    → w1.conn.closed ≡ true
    → b ≡ true
    → Swept t w s rest
gone-Swept t w s rest b w1 run u c e = record {
  flushed = b;
  closed = true;
  after = w1;
  run = connection_run t w w1 w1 b b true run (idle_closed t b w1 c);
  steps = u;
  closed_is = sym c;
  counts = λ _. e;
  not_old = λ f. absurd (ground (arith, c, f));
}

stays-Swept :
    (t : ℕ) (w : Work) (s : ℕ) (rest : List ℕ) (b : Bool) (w1 : Work)
    → flush_loop w.conn.pages t false w ≡ ok (b, w1)
    → Steps w s rest w1
    → (ids : List ℕ) (calls : List Event) → Ready w1 s ids rest
    → w1.pool ≡ w.pool
    → Deliveries s calls
    → w1.events ≡ w.events ++ calls
    → is_overdue t w1 ≡ false
    → Swept t w s rest
stays-Swept t w s rest b w1 run u ids calls r q d e old =
    elim (Bool-cases (is_nil w1.conn.first && ltb w1.conn.last_seen t)) [
      | inl i ↦
          let r0 = idle_is_empty t w1 s ids rest r i in
          let (w2, go, v, c) = flush_empty-closed w1 s rest r0 in
          record {
            flushed = true;
            closed = true;
            after = w2;
            run =
                connection_run t w w1 w2 b true true run (
                  idle_closes t b w1 w2 r.is_open i
                    (sym (flush_none w1 r0.inv.list.first_is) ∙ go));
            steps = Steps-more w w1 w2 s rest ids calls u q d e v;
            closed_is = sym c;
            counts = λ _. refl;
            not_old = λ f. absurd (ground (arith, c, f));
          }
      | inr i ↦ record {
        flushed = b;
        closed = false;
        after = w1;
        run = connection_run t w w1 w1 b b false run (idle_leaves t b w1 r.is_open i);
        steps = u;
        closed_is = sym r.is_open;
        counts = λ f. absurd (ground (arith, f));
        not_old = λ _. (sym (overdue_lem t w1 _ refl) ∙ old, i);
      }
    ]

-- The number of pages is fuel enough, and nothing faults.
pub flush_connection-Swept :
    (t : ℕ) (w : Work) (s : ℕ) (ids rest : List ℕ) → Ready w s ids rest → Swept t w s rest
unfolding Loops
flush_connection-Swept t w s ids rest r =
    let (b, w1, run, u, l) =
      flush_loop-Loops w.conn.pages t w s ids rest false r (omega (arith, r.inv.counted)) in
    from b w1 run u l
  where
    from :
        (b : Bool) (w1 : Work)
        → flush_loop w.conn.pages t false w ≡ ok (b, w1)
        → Steps w s rest w1
        → Looped t w s rest b w1
        → Swept t w s rest
    from b w1 run u (gone c e) = gone-Swept t w s rest b w1 run u c e
    from b w1 run u (stays ids calls r q d e old) =
        stays-Swept t w s rest b w1 run u ids calls r q d e old
