-- ===== src/Assembly/Work/Send.antt =====
-- `sendToConnection` and `skipFlush` of capturer/extendedassembly.go: no fault, and a connection that
-- waits again or is closed.
use data_collector.Base.{
  ℕ, ◌≡◌, refl, ◌≢◌, List, [], ◌∷◌, ◌++◌, none, some, arith, append_assoc, inl, inr, sym, ◌∙◌, ap,
  true, false, Bool-cases, ok, ◌>>=◌, All-intro, All-map₂, get_last?,
}
use data_collector.Assembly.Sequence.Range.{IsSequence}
use data_collector.Assembly.Sequence.Span.{byte_span-IsSequence}
use data_collector.Assembly.Page.{Reassembly, Page}
use data_collector.Assembly.Pool.{StreamPool, remove}
use data_collector.Assembly.Work.{
  skip_flush, add_next_from_conn, Work, Event, reassembled, reassembly_complete, has_contiguous,
  add_contiguous, deliver, send_to_connection, close_connection,
}
use data_collector.Assembly.Work.Inv.{WorkInv, Leaves}
use data_collector.Assembly.Work.Contiguous.{add_contiguous-Drained}
use data_collector.Assembly.Work.Inv.{Leaves-trans}
use data_collector.Assembly.Work.Pop.{add_next_from_conn-Popped}
use data_collector.Assembly.Work.Close.{close_connection-Closed}
use data_collector.Assembly.Work.Ready.{Ready, silent, once, Ending, waiting, finished, Outcome}

pub last_of_nonempty {ℓ} : {A : Type ℓ} (xs : List A) → xs ≢ [] → (x : A) × (get_last? xs ≡ some x)
last_of_nonempty [] ne = absurd (ne refl)
last_of_nonempty (x ∷ []) ne = (x, refl)
last_of_nonempty (x ∷ y ∷ ys) ne = last_of_nonempty (y ∷ ys) (λ e. cc)

abbrev pub sent : Work → ℕ → Work
sent w s = record w { events = w.events ++ reassembled s w.ret ∷ [] }

pub deliver_open :
    (w : Work) (s : ℕ) (r : Reassembly)
    → w.conn.stream ≡ some s
    → get_last? w.ret ≡ some r
    → r.end ≡ false
    → deliver w ≡ ok (sent w s)
unfolding deliver
deliver_open w s r e f g = ground (arith, e, f, g)

pub deliver_end :
    (w : Work) (s : ℕ) (r : Reassembly)
    → w.conn.stream ≡ some s
    → get_last? w.ret ≡ some r
    → r.end ≡ true
    → deliver w ≡ close_connection (sent w s)
unfolding deliver
deliver_end w s r e f g = ground (arith, e, f, g)

-- `has_contiguous` reads neither the events nor the return array.
waits_sent : (w : Work) (s : ℕ) → has_contiguous w ≡ false → has_contiguous (sent w s) ≡ false
unfolding has_contiguous
waits_sent w s h = h

pub sent-WorkInv :
    (w : Work) (s : ℕ) (ids rest : List ℕ) → WorkInv w ids rest → WorkInv (sent w s) ids rest
sent-WorkInv w s ids rest v = record { accounts = v.accounts; list = v.list; counted = v.counted }

-- With something to deliver, and nothing left that could be: one call of the stream; then the
-- connection waits, or the stream has been told of the end.
pub deliver-Outcome :
    (w : Work) (s : ℕ) (ids rest : List ℕ)
    → WorkInv w ids rest
    → has_contiguous w ≡ false
    → w.conn.closed ≡ false
    → w.conn.stream ≡ some s
    → IsSequence w.conn.next_seq
    → w.ret ≢ []
    → (w' : Work) × (deliver w ≡ ok w') × Outcome w s rest w'
deliver-Outcome w s ids rest v waits op e range ne =
    let (r, is_last) = last_of_nonempty w.ret ne in
    elim (Bool-cases r.end) [
      | inr goes_on ↦ (
        sent w s,
        deliver_open w s r e is_last goes_on,
        record {
          ending =
              waiting ids (reassembled s w.ret ∷ [])
                (record {
                  inv = sent-WorkInv w s ids rest v;
                  waits = waits_sent w s waits;
                  is_open = op;
                  has_stream = e;
                  range = inr range;
                })
                refl (once w.ret ne) refl;
          kept = All-intro rest (λ q. refl);
          same_key = refl;
          same_id = refl;
        },
      )
      | inl ends ↦
          (let (w', run, c) =
              close_connection-Closed (sent w s) s ids rest (sent-WorkInv w s ids rest v) e in
            (
              w',
              deliver_end w s r e is_last ends ∙ run,
              record {
                ending =
                    finished (reassembled s w.ret ∷ []) c.accounts c.closed c.removed
                      (once w.ret ne) (c.told ∙ append_assoc w.events (reassembled s w.ret ∷ []) _);
                kept = All-intro rest (λ q. ap (λ (h : ℕ → Page). h q) c.same_pages);
                same_key = c.same_key;
                same_id = c.same_id;
              },
            ))
    ]

-- An outcome seen from an earlier state of the same connection.
pub Outcome-from :
    (u w w' : Work) (s : ℕ) (rest : List ℕ)
    → Leaves u w rest
    → Outcome w s rest w'
    → Outcome u s rest w'
Outcome-from u w w' s rest l o = record {
  ending = ending_from o.ending;
  kept = All-map₂ _ _ _ rest (λ q new old. new ∙ old) o.kept l.kept;
  same_key = o.same_key ∙ l.same.key;
  same_id = o.same_id ∙ l.id;
}
  where
    ending_from : Ending w s rest w' → Ending u s rest w'
    ending_from (waiting ids calls r p d e) =
        waiting ids calls r (p ∙ l.pool) d (e ∙ ap (λ (xs : List Event). xs ++ calls) l.events)
    ending_from (finished calls a c p d e) =
        finished calls a c
          (p
            ∙ ap (λ (i : ℕ). remove i w'.conn w.pool) l.id
            ∙ ap (λ (q : StreamPool). remove u.id w'.conn q) l.pool)
          d (e ∙ ap (λ (xs : List Event). xs ++ (calls ++ reassembly_complete s ∷ [])) l.events)

pub append-ne {ℓ} : {A : Type ℓ} (xs ys : List A) → xs ≢ [] → xs ++ ys ≢ []
append-ne [] ys ne e = ne refl
append-ne (x ∷ xs) ys ne e = cc

pub send_run : (w w' : Work) → add_contiguous w ≡ ok w' → send_to_connection w ≡ deliver w'
unfolding send_to_connection
send_run w w' e = ap (λ r. r >>= deliver) e

-- Something to deliver goes out together with all that has become contiguous.
pub send_to_connection-Outcome :
    (w : Work) (s : ℕ) (ids rest : List ℕ)
    → WorkInv w ids rest
    → w.conn.closed ≡ false
    → w.conn.stream ≡ some s
    → IsSequence w.conn.next_seq
    → w.ret ≢ []
    → (w' : Work) × (send_to_connection w ≡ ok w') × Outcome w s rest w'
send_to_connection-Outcome w s ids rest v op e range ne =
    let (w1, run, d, waits) = add_contiguous-Drained w ids rest v in
    let (w2, more, o) =
      deliver-Outcome w1 s d.left rest d.inv waits (d.leaves.same.closed ∙ op)
        (d.leaves.same.stream ∙ e) (d.range range)
        (λ f. append-ne w.ret d.added ne (sym d.ret_is ∙ f)) in
    (w2, send_run w w1 run ∙ more, Outcome-from w w1 w2 s rest d.leaves o)

pub flush_none : (w : Work) → w.conn.first ≡ none → skip_flush w ≡ close_connection w
unfolding skip_flush
flush_none w e = ground (arith, e)

pub flush_some :
    (w w1 w2 : Work) (p : ℕ)
    → w.conn.first ≡ some p
    → add_next_from_conn (record w { ret = [] }) ≡ ok w1
    → add_contiguous w1 ≡ ok w2
    → skip_flush w ≡ send_to_connection w2
unfolding skip_flush
flush_some w w1 w2 p e f g = ground (arith, e, f, g)

pub not_nil : (xs ys : List Reassembly) {x : Reassembly} → xs ≡ x ∷ [] → xs ++ ys ≢ []
not_nil xs ys e = append-ne xs ys (λ f. cc)

flush_pages :
    (w : Work) (s p : ℕ) (ps rest : List ℕ)
    → Ready w s (p ∷ ps) rest
    → IsSequence w.conn.next_seq
    → (w' : Work) × (skip_flush w ≡ ok w') × Outcome w s rest w'
flush_pages w s p ps rest r range =
    let v = r.inv in
    let (w1, pop, a) =
      add_next_from_conn-Popped (record w { ret = [] }) p ps rest
        (record { accounts = v.accounts; list = v.list; counted = v.counted }) in
    let (w2, run, d, waits) = add_contiguous-Drained w1 ps rest a.inv in
    let l : Leaves w w2 rest =
      Leaves-trans w w1 w2 rest
        (record {
          options = a.leaves.options;
          pool = a.leaves.pool;
          events = a.leaves.events;
          id = a.leaves.id;
          same = a.leaves.same;
          kept = a.leaves.kept;
        })
        d.leaves in
    let (w3, more, o) =
      send_to_connection-Outcome w2 s d.left rest d.inv (l.same.closed ∙ r.is_open)
        (l.same.stream ∙ r.has_stream)
        (d.range (rw a.seq_is (byte_span-IsSequence w.conn.next_seq _ _ range)))
        (λ e. not_nil w1.ret d.added (a.ret_is) (sym d.ret_is ∙ e)) in
    (w3, flush_some w w1 w2 p v.list.first_is pop run ∙ more, Outcome-from w w2 w3 s rest l o)

-- A flush of a waiting connection never faults: with no pages it closes the connection and calls only
-- `ReassemblyComplete`, with pages it delivers some.
pub skip_flush-Outcome :
    (w : Work) (s : ℕ) (ids rest : List ℕ)
    → Ready w s ids rest
    → (w' : Work) × (skip_flush w ≡ ok w') × Outcome w s rest w'
skip_flush-Outcome w s [] rest r =
    let (w', run, c) = close_connection-Closed w s [] rest r.inv r.has_stream in
    (
      w',
      flush_none w r.inv.list.first_is ∙ run,
      record {
        ending = finished [] c.accounts c.closed c.removed silent c.told;
        kept = All-intro rest (λ q. ap (λ (h : ℕ → Page). h q) c.same_pages);
        same_key = c.same_key;
        same_id = c.same_id;
      },
    )
skip_flush-Outcome w s (p ∷ ps) rest r = elim r.range [
  | inl (fresh, empty) ↦ cc
  | inr range ↦ flush_pages w s p ps rest r range
]
