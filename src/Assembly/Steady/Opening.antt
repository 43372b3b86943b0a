-- ===== src/Assembly/Steady/Opening.antt =====
-- How an assembler of capturer/extendedassembly.go comes to the connection of a packet: `getConnection`,
-- and the loop around it.
use data_collector.Base.{
  ℕ, suc, ◌+◌, ◌≡◌, refl, sym, ap, ◌∙◌, subst, inl, inr, Bool, true, false, List, [], ◌∷◌, ◌++◌,
  append-nil, Option, none, some, All, All-left, All-right, All-map₂, Distinct-block, All-block,
  arith, update, update_self, update_ne, Result, ok,
}
use data_collector.Assembly.Connection.{Key, reset}
use data_collector.Assembly.Pool.{StreamPool, find, new_stream, add_connection}
use data_collector.Assembly.Work.{Work, Event, Event.created}
use data_collector.Assembly.Assembler.{Assembler, lock, get_connection, open_connection}
use data_collector.Assembly.Steady.Slots.{
  Slot, entries, numbers, streams_of, Other, find_cases, same_key_eq,
}
use data_collector.Assembly.Steady.Protocol.{Lawful, creates}
use data_collector.Assembly.Steady.Invariant.{Waits, Steady}
use data_collector.Assembly.Steady.Supply.{
  new_connection-Supplied, Waits-same, fresh-Waits, add_run,
}

-- The assembler with one connection more.
record Added (k : Key) (a : Assembler) (slots : List Slot) (a' : Assembler) (t : Slot)
    : Type 0 where
  steady : Steady a' (t ∷ slots)
  same_ret : a'.ret ≡ a.ret
  same_key : t.key ≡ k
  events_are : a'.events ≡ a.events ++ created t.stream ∷ []

get_new :
    (k : Key) (ts c : ℕ) (a : Assembler) (q : StreamPool)
    → find k a.pool.conns ≡ none
    → add_connection k a.pool.streams ts (record a.pool { streams = a.pool.streams + 1 })
      ≡ ok (c, q)
    → get_connection k false ts a
      ≡ ok (some c, record a { pool = q; events = a.events ++ created a.pool.streams ∷ [] })
unfolding get_connection new_stream
get_new k ts c a q e f = ground (arith, e, f)

get_old :
    (k : Key) (end : Bool) (ts c : ℕ) (a : Assembler)
    → find k a.pool.conns ≡ some c
    → get_connection k end ts a ≡ ok (some c, a)
unfolding get_connection
get_old k end ts c a e = ground (arith, e)

get_nothing :
    (k : Key) (ts : ℕ) (a : Assembler)
    → find k a.pool.conns ≡ none
    → get_connection k true ts a ≡ ok (none, a)
unfolding get_connection
get_nothing k ts a e = ground (arith, e)

get_new-Added :
    (k : Key) (ts : ℕ) (a : Assembler) (slots : List Slot)
    → Steady a slots
    → All (Other k) slots
    → find k (entries slots) ≡ none
    → (a' : Assembler) × (t : Slot) × (get_connection k false ts a ≡ ok (some t.id, a'))
      × Added k a slots a' t
get_new-Added k ts a slots v others f =
    let s = a.pool.streams in
    let p = record a.pool { streams = s + 1 } in
    let (q, c, rest, u, run) =
      new_connection-Supplied k s ts p (numbers slots) v.apart v.below v.room in
    let q' = record q { free = rest; all = update q.all c (reset k s ts (q.all c)) } in
    let t : Slot = record { key = k; id = c; stream = s; ids = [] } in
    let missing : find k q.conns ≡ none = ap (find k) (u.same_conns ∙ v.conns_are) ∙ f in
    let a' = record a {
      pool = record q' { conns = (k, c) ∷ q.conns };
      events = a.events ++ created s ∷ [];
    } in
    let block = Distinct-block (numbers slots) (c ∷ []) rest u.distinct in
    (
      a',
      t,
      get_new k ts c a (record q' { conns = (k, c) ∷ q.conns }) (ap (find k) v.conns_are ∙ f)
          (add_run k s ts c p q' run missing),
      record {
        steady = record {
          conns_are = ap (λ z. (k, c) ∷ z) (u.same_conns ∙ v.conns_are);
          keys = (others, v.keys);
          accounts = v.accounts;
          each = (
            subst (λ z. Waits t z a.pc.pages) (sym (update_self q.all c (reset k s ts (q.all c))))
                (fresh-Waits k c s ts (q.all c) a.pc.pages),
            Waits-same slots a.pool.all (update q.all c (reset k s ts (q.all c))) a.pc.pages
                (All-map₂ _ _ _ (numbers slots) (λ i same far. update_ne q.all c i _ far ∙ same)
                  u.same_all (All-left _ (numbers slots) rest block.0))
                v.each,
          );
          apart = block;
          below = All-block _ (numbers slots) (c ∷ []) rest u.below;
          room = u.room;
          calls =
              subst (λ z. Lawful (a.events ++ created s ∷ []) (s ∷ streams_of slots) z)
                (sym u.same_streams) (creates a.events _ s v.calls);
        };
        same_ret = refl;
        same_key = refl;
        events_are = refl;
      },
    )

-- A stream was there, or the call that makes it has just been made.
pub data Makes (s : ℕ) : List Event → Type 0 where
  before : Makes s []
  just_now : Makes s (created s ∷ [])

-- What the search for a packet's connection ends with: none is needed and there is none, or an open
-- one, locked, that is a slot with the packet's key.
pub data Opens (k : Key) (end : Bool) (a : Assembler) (slots : List Slot)
    (x : Result (Option Work × Assembler)) : Type 0 where
  nothing : end ≡ true → All (Other k) slots → x ≡ ok (none, a) → Opens k end a slots x
  opened :
      (a' : Assembler) (xs : List Slot) (s : Slot) (ys : List Slot)
      → x ≡ ok (some (lock s.id a'), a')
      → Steady a' (xs ++ s ∷ ys)
      → s.key ≡ k
      → a'.ret ≡ a.ret
      → (made : List Event) → Makes s.stream made
      → a'.events ≡ a.events ++ made
      → Opens k end a slots x

open_run :
    (fuel : ℕ) (k : Key) (end : Bool) (ts c : ℕ) (a a' : Assembler)
    → get_connection k end ts a ≡ ok (some c, a')
    → (a'.pool.all c).closed ≡ false
    → open_connection (suc fuel) k end ts a ≡ ok (some (lock c a'), a')
unfolding open_connection lock
open_run fuel k end ts c a a' e f = ground (arith, e, f)

open_none :
    (fuel : ℕ) (k : Key) (end : Bool) (ts : ℕ) (a : Assembler)
    → get_connection k end ts a ≡ ok (none, a)
    → open_connection (suc fuel) k end ts a ≡ ok (none, a)
unfolding open_connection
open_none fuel k end ts a e = ground (arith, e)

open_new :
    (fuel : ℕ) (k : Key) (end : Bool) (ts : ℕ) (a : Assembler) (slots : List Slot)
    → Steady a slots
    → All (Other k) slots
    → find k (entries slots) ≡ none
    → Opens k end a slots (open_connection (suc fuel) k end ts a)
open_new fuel k true ts a slots v others f =
    nothing refl others
      (open_none fuel k true ts a (get_nothing k ts a (ap (find k) v.conns_are ∙ f)))
open_new fuel k false ts a slots v others f =
    let (a', t, run, u) = get_new-Added k ts a slots v others f in
    opened a' [] t slots (open_run fuel k false ts t.id a a' run u.steady.each.0.is_open) u.steady
      u.same_key u.same_ret (created t.stream ∷ []) just_now u.events_are

-- With one assembler the loop goes round once: its first connection is open.
pub open_connection-Opens :
    (fuel : ℕ) (k : Key) (end : Bool) (ts : ℕ) (a : Assembler) (slots : List Slot)
    → Steady a slots
    → Opens k end a slots (open_connection (suc fuel) k end ts a)
open_connection-Opens fuel k end ts a slots v = elim (find_cases k slots) [
  | inl (f, others) ↦ open_new fuel k end ts a slots v others f
  | inr (xs, s, ys, parts, f, same) ↦
      let u = subst (Steady a) parts v in
      opened a xs s ys
        (open_run fuel k end ts s.id a a (get_old k end ts s.id a (ap (find k) v.conns_are ∙ f))
          (All-right _ xs (s ∷ ys) u.each).0.is_open)
        u (same_key_eq s.key k same) refl [] before (sym (append-nil a.events))
]
