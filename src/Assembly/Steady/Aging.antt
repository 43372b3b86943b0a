-- ===== src/Assembly/Steady/Aging.antt =====
-- `FlushOlderThan` of capturer/extendedassembly.go.
use data_collector.Base.{
  ℕ, ◌+◌, ◌≤◌, ◌≡◌, ◌≢◌, refl, sym, ap, ◌∙◌, subst, inl, inr, true, false, Bool, List, [], ◌∷◌,
  ◌++◌, append_assoc, append-nil, none, length, length-append, ltb, arith, ok, update, update_self,
  update_ne, All, All-append, All-left, All-right, NotIn,
}
use data_collector.Assembly.Page.{Page}
use data_collector.Assembly.Connection.{Connection}
use data_collector.Assembly.Connection.Links.{first_of}
use data_collector.Assembly.Pool.{StreamPool, connections, remove}
use data_collector.Assembly.Work.{Work}
use data_collector.Assembly.Assembler.{
  Assembler, lock, unlock, flush_connection, count, flush_each, flush_older_than,
}
use data_collector.Assembly.Steady.Slots.{Slot, numbers, pages_of}
use data_collector.Assembly.Steady.Invariant.{Waits, Steady, rest_of, lock-Ready}
use data_collector.Assembly.Steady.Change.{ResultOf, still_waiting, now_closed, Steps}
use data_collector.Assembly.Steady.Moved.{number_apart}
use data_collector.Assembly.Steady.Unlock.{Steps-Changed}
use data_collector.Assembly.Steady.Looping.{page_is_old, NotOld}
use data_collector.Assembly.Steady.Sweeping.{flush_connection-Swept}
use data_collector.Assembly.Steady.Emptying.{connections-numbers}

page_is_old-frame :
    (t : ℕ) (h h' : ℕ → Page) (ids : List ℕ)
    → All (λ q. h' q ≡ h q) ids
    → page_is_old t h' (first_of ids none) ≡ page_is_old t h (first_of ids none)
page_is_old-frame t h h' [] same = refl
page_is_old-frame t h h' (p ∷ ps) same = ap (λ (x : Page). ltb x.seen t) same.0

NotOld-frame :
    (t : ℕ) (s : Slot) (c : Connection) (h h' : ℕ → Page)
    → Waits s c h
    → All (λ q. h' q ≡ h q) s.ids
    → NotOld t c h
    → NotOld t c h'
NotOld-frame t s c h h' v same (o, i) = (
  ap (page_is_old t h') v.list.first_is
      ∙ page_is_old-frame t h h' s.ids same
      ∙ ap (page_is_old t h) (sym v.list.first_is)
      ∙ o,
  i,
)

-- Every connection of these slots is not old.
abbrev pub AllNotOld : ℕ → Assembler → List Slot → Type 0
AllNotOld t a ss = All (λ s. NotOld t (a.pool.all s.id) a.pc.pages) ss

NotOld-others :
    (t : ℕ) (ss : List Slot) (i : ℕ) (f f' : ℕ → Connection) (h h' : ℕ → Page)
    → ((c : ℕ) → i ≢ c → f' c ≡ f c)
    → NotIn i (numbers ss)
    → All (λ q. h' q ≡ h q) (pages_of ss)
    → All (λ s. Waits s (f s.id) h) ss
    → All (λ s. NotOld t (f s.id) h) ss
    → All (λ s. NotOld t (f' s.id) h') ss
NotOld-others t [] i f f' h h' same far pages waits v = tt
NotOld-others t (s ∷ ss) i f f' h h' same far pages waits v = (
  subst (λ c. NotOld t c h') (sym (same s.id far.0))
      (NotOld-frame t s (f s.id) h h' waits.0 (All-left _ s.ids (pages_of ss) pages) v.0),
  NotOld-others t ss i f f' h h' same far.1 (All-right _ s.ids (pages_of ss) pages) waits.1 v.1,
)

same_store : (w w' : Work) (s : ℕ) (rest : List ℕ) → ResultOf w s rest w' → w'.pool.all ≡ w.pool.all
unfolding remove
same_store w w' s rest (still_waiting ids calls r p d e) = ap (λ (q : StreamPool). q.all) p
same_store w w' s rest (now_closed calls b c p d e) = ap (λ (q : StreamPool). q.all) p

-- The slots in front of the locked one are as they were.
before-NotOld :
    (t : ℕ) (xs : List Slot) (s : Slot) (ys : List Slot) (a : Assembler) (w : Work)
    → Steady a (xs ++ s ∷ ys)
    → Steps (lock s.id a) s.stream (rest_of xs ys) w
    → AllNotOld t a xs
    → AllNotOld t (unlock w) xs
unfolding lock unlock
before-NotOld t xs s ys a w v u old =
    NotOld-others t xs s.id a.pool.all (update w.pool.all w.id w.conn) a.pc.pages w.pc.pages
      (λ c ne.
        ap (λ i. update w.pool.all i w.conn c) u.same_id
        ∙ update_ne w.pool.all s.id c w.conn ne
        ∙ ap (λ f. f c) (same_store (lock s.id a) w s.stream (rest_of xs ys) u.result))
      (number_apart xs s ys a.pool.free v.apart).0 (All-left _ (pages_of xs) (pages_of ys) u.kept)
      (All-left _ xs (s ∷ ys) v.each) old

here-NotOld :
    (t : ℕ) (xs : List Slot) (s : Slot) (ys : List Slot) (a : Assembler) (w : Work)
    → Steps (lock s.id a) s.stream (rest_of xs ys) w
    → NotOld t w.conn w.pc.pages
    → NotOld t ((unlock w).pool.all s.id) (unlock w).pc.pages
unfolding lock unlock
here-NotOld t xs s ys a w u =
    subst (λ c. NotOld t c w.pc.pages)
      (sym
        (ap (λ i. update w.pool.all i w.conn s.id) u.same_id ∙ update_self w.pool.all s.id w.conn))

-- What the loop over the connections returns, from `slots` on: nobody is lost from the count of those
-- closed, which were all flushed, and those that are left are not old.
pub record Aged (t flushes closes n : ℕ) (cs : List ℕ) (a : Assembler) : Type 0 where
  pub flushed : ℕ
  pub closed : ℕ
  pub after : Assembler
  pub slots : List Slot
  pub run : flush_each t cs flushes closes a ≡ ok (flushed, closed, after)
  pub steady : Steady after slots
  pub not_old : AllNotOld t after slots
  pub balance : closed + length slots ≡ closes + n
  pub all_flushed : closes ≤ flushes → closed ≤ flushed

each_run :
    (t c : ℕ) (cs : List ℕ) (n m : ℕ) (a : Assembler) (b d : Bool) (w : Work)
    → (lock c a).conn.closed ≡ false
    → flush_connection t (lock c a) ≡ ok (b, d, w)
    → flush_each t (c ∷ cs) n m a ≡ flush_each t cs (count b n) (count d m) (unlock w)
unfolding flush_each
each_run t c cs n m a b d w e f = rw (e, f)

count_flushed : (b d : Bool) (n m : ℕ) → (d ≡ true → b ≡ true) → m ≤ n → count d m ≤ count b n
count_flushed true true n m h le = omega (arith, le)
count_flushed true false n m h le = omega (arith, le)
count_flushed false false n m h le = le
count_flushed false true n m h le = absurd (ground (arith, h refl))

-- The rest of the loop, after one connection.
then-Aged :
    (t flushes closes n k c : ℕ) (cs : List ℕ) (a : Assembler) (b d : Bool) (w : Work)
    → flush_each t (c ∷ cs) flushes closes a
      ≡ flush_each t cs (count b flushes) (count d closes) (unlock w)
    → (d ≡ true → b ≡ true)
    → count d closes + k ≡ closes + n
    → Aged t (count b flushes) (count d closes) k cs (unlock w)
    → Aged t flushes closes n (c ∷ cs) a
then-Aged t flushes closes n k c cs a b d w run counts balance g = record {
  flushed = g.flushed;
  closed = g.closed;
  after = g.after;
  slots = g.slots;
  run = run ∙ g.run;
  steady = g.steady;
  not_old = g.not_old;
  balance = g.balance ∙ balance;
  all_flushed = λ le. g.all_flushed (count_flushed b d flushes closes counts le);
}

flush_each-Aged :
    (t : ℕ) (xs ys : List Slot) (flushes closes : ℕ) (a : Assembler)
    → Steady a (xs ++ ys)
    → AllNotOld t a xs
    → Aged t flushes closes (length xs + length ys) (numbers ys) a
unfolding flush_each
flush_each-Aged t xs [] flushes closes a v old = record {
  flushed = flushes;
  closed = closes;
  after = a;
  slots = xs;
  run = refl;
  steady = subst (Steady a) (append-nil xs) v;
  not_old = old;
  balance = omega arith;
  all_flushed = λ le. le;
}
flush_each-Aged t xs (s ∷ ys) flushes closes a v old =
    let r = lock-Ready xs s ys a v in
    let g = flush_connection-Swept t (lock s.id a) s.stream s.ids (rest_of xs ys) r in
    let w = g.after in
    let run = each_run t s.id (numbers ys) flushes closes a g.flushed g.closed w r.is_open g.run in
    elim (Steps-Changed xs s ys a w v g.steps) [
      | inl (ids, u, op, r2) ↦
          let x = record s { ids = ids } in
          then-Aged t flushes closes _ (length (xs ++ x ∷ []) + length ys) s.id (numbers ys) a
            g.flushed g.closed w run g.counts
            (omega (arith, ap (λ d. count d closes) (g.closed_is ∙ op), length-append xs (x ∷ [])))
            (flush_each-Aged t (xs ++ x ∷ []) ys (count g.flushed flushes) (count g.closed closes)
              (unlock w) (subst (Steady (unlock w)) (sym (append_assoc xs (x ∷ []) ys)) u)
              (All-append _ xs (x ∷ []) (before-NotOld t xs s ys a w v g.steps old)
                (here-NotOld t xs s ys a w g.steps (g.not_old op), tt)))
      | inr (u, cl) ↦
          then-Aged t flushes closes _ (length xs + length ys) s.id (numbers ys) a g.flushed
            g.closed w run g.counts (omega (arith, ap (λ d. count d closes) (g.closed_is ∙ cl)))
            (flush_each-Aged t xs ys (count g.flushed flushes) (count g.closed closes) (unlock w) u
              (before-NotOld t xs s ys a w v g.steps old))
    ]

-- What `FlushOlderThan` returns and leaves, of n connections.
pub record FlushedOlder (t : ℕ) (a : Assembler) (n : ℕ) : Type 0 where
  pub flushed : ℕ
  pub closed : ℕ
  pub after : Assembler
  pub slots : List Slot
  pub run : flush_older_than t a ≡ ok (flushed, closed, after)
  pub steady : Steady after slots
  pub not_old : AllNotOld t after slots
  pub balance : closed + length slots ≡ n
  pub all_flushed : closed ≤ flushed

older_run :
    (t : ℕ) (a : Assembler) (cs : List ℕ)
    → connections a.pool ≡ cs
    → flush_older_than t a ≡ flush_each t cs 0 0 a
unfolding flush_older_than
older_run t a cs e = rw e

-- With the assembler steady, `FlushOlderThan` ends without a fault and leaves it steady. No connection
-- that is left begins with a page seen before t, nor holds none and saw nothing since; those closed and
-- those left are all that there were; and no more were closed than flushed.
pub flush_older_than-FlushedOlder :
    (t : ℕ) (a : Assembler) (slots : List Slot) → Steady a slots → FlushedOlder t a (length slots)
flush_older_than-FlushedOlder t a slots v =
    let g = flush_each-Aged t [] slots 0 0 a v tt in
    record {
      flushed = g.flushed;
      closed = g.closed;
      after = g.after;
      slots = g.slots;
      run = older_run t a (numbers slots) (connections-numbers a slots v) ∙ g.run;
      steady = g.steady;
      not_old = g.not_old;
      balance = omega (arith, g.balance);
      all_flushed = g.all_flushed (omega arith);
    }
