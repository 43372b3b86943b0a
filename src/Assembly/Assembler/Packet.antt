-- ===== src/Assembly/Assembler/Packet.antt =====
-- What `AssembleWithTimestamp` of capturer/extendedassembly.go does under the lock: no panic, no
-- endless loop, and a connection that waits again or is closed.
use data_collector.Base.{
  ℕ, ◌+◌, ◌≡◌, refl, ◌⊎◌, List, [], ◌∷◌, ◌++◌, some, arith, length, append-nil, inl, inr, sym, ◌∙◌,
  subst, true, false, Bool-cases, ok, All-intro, list_cases, ℤ, pos, negsuc, eqb_ℤ, ltb, ltb_ℤ,
  if◌then◌else◌,
}
use data_collector.Assembly.Sequence.Range.{IsSequence, add-IsSequence}
use data_collector.Assembly.Sequence.{invalid_sequence, difference, add}
use data_collector.Assembly.Sequence.Span.{byte_span-IsSequence}
use data_collector.Assembly.Page.{Reassembly}
use data_collector.Assembly.Segment.{Tcp}
use data_collector.Assembly.Work.{Work, has_contiguous, insert_into_conn, send_to_connection}
use data_collector.Assembly.Work.Inv.{WorkInv, Leaves, Leaves-refl, Leaves-trans}
use data_collector.Assembly.Work.Ready.{Ready, silent, waiting, Outcome}
use data_collector.Assembly.Work.Send.{send_to_connection-Outcome, Outcome-from}
use data_collector.Assembly.Assembler.Locked.{
  Taken, insert-Taken, snoc-ne, not_next, first_is_next-none,
}
use data_collector.Assembly.Assembler.{
  touch, first_packet, next_packet, take_packet, assemble_locked,
}

-- The state that `first_packet` inserts into.
abbrev started : Tcp → ℕ → Work → Work
started t ts w = record w {
  conn = record w.conn {
    next_seq = add (pos t.seq) (pos (if t.syn then length t.payload + 1 else length t.payload));
  };
  ret =
      w.ret
      ++ record {
        bytes = t.payload;
        skip = if t.syn then pos 0 else negsuc 0;
        start = t.syn;
        end = false;
        seen = ts;
      }
        ∷ [];
}

first_packet_run :
    (t : Tcp) (ts : ℕ) (w : Work) → first_packet t ts w ≡ insert_into_conn t ts (started t ts w)
unfolding first_packet
first_packet_run t ts w = refl

take_first :
    (t : Tcp) (ts : ℕ) (w : Work)
    → w.conn.next_seq ≡ invalid_sequence
    → take_packet t ts w ≡ first_packet t ts w
unfolding take_packet
take_first t ts w e = ground (arith, e)

pub take_ahead :
    (t : Tcp) (ts : ℕ) (w : Work)
    → eqb_ℤ w.conn.next_seq invalid_sequence ≡ false
    → ltb_ℤ (pos 0) (difference w.conn.next_seq (pos t.seq)) ≡ true
    → take_packet t ts w ≡ insert_into_conn t ts w
unfolding take_packet
take_ahead t ts w e f = rw (e, f)

pub take_next :
    (t : Tcp) (ts : ℕ) (w : Work)
    → eqb_ℤ w.conn.next_seq invalid_sequence ≡ false
    → ltb_ℤ (pos 0) (difference w.conn.next_seq (pos t.seq)) ≡ false
    → take_packet t ts w ≡ ok (next_packet t ts w)
unfolding take_packet
take_next t ts w e f = rw (e, f)

pub valid_seq : (z : ℤ) → IsSequence z → eqb_ℤ z invalid_sequence ≡ false
valid_seq z (n, e, lt) = rw e (ground arith)

started-Leaves : (t : Tcp) (ts : ℕ) (w : Work) (rest : List ℕ) → Leaves w (started t ts w) rest
started-Leaves t ts w rest = record {
  options = refl;
  pool = refl;
  events = refl;
  id = refl;
  same = record { key = refl; created = refl; stream = refl; closed = refl };
  kept = All-intro rest (λ q. refl);
}

take_fresh :
    (t : Tcp) (ts : ℕ) (w : Work) (rest : List ℕ)
    → WorkInv w [] rest
    → w.conn.next_seq ≡ invalid_sequence
    → (w' : Work) × (take_packet t ts w ≡ ok w') × Taken w rest w'
take_fresh t ts w rest v e =
    let w1 = started t ts w in
    let (w2, run, k) =
      insert-Taken t ts w1 [] rest
        (record {
          accounts = v.accounts;
          list = record { first_is = v.list.first_is; last_is = v.list.last_is; linked = tt };
          counted = v.counted;
        })
        (first_is_next-none w1 v.list.first_is) (add-IsSequence (pos t.seq) _)
        (inr (snoc-ne w.ret _)) in
    (
      w2,
      take_first t ts w e ∙ first_packet_run t ts w ∙ run,
      record {
        left = k.left;
        inv = k.inv;
        leaves = Leaves-trans w w1 w2 rest (started-Leaves t ts w rest) k.leaves;
        range = k.range;
        sends = k.sends;
      },
    )

take_direct :
    (t : Tcp) (ts : ℕ) (w : Work) (ids rest : List ℕ)
    → WorkInv w ids rest
    → IsSequence w.conn.next_seq
    → Taken w rest (next_packet t ts w)
unfolding next_packet
take_direct t ts w ids rest v range = record {
  left = ids;
  inv = record {
    accounts = v.accounts;
    list = record { first_is = v.list.first_is; last_is = v.list.last_is; linked = v.list.linked };
    counted = v.counted;
  };
  leaves = record {
    options = refl;
    pool = refl;
    events = refl;
    id = refl;
    same = record { key = refl; created = refl; stream = refl; closed = refl };
    kept = All-intro rest (λ q. refl);
  };
  range = byte_span-IsSequence w.conn.next_seq (pos t.seq) t.payload range;
  sends = inr (snoc-ne w.ret _);
}

take_packet-Taken :
    (t : Tcp) (ts : ℕ) (w : Work) (s : ℕ) (ids rest : List ℕ)
    → Ready w s ids rest
    → w.ret ≡ []
    → (w' : Work) × (take_packet t ts w ≡ ok w') × Taken w rest w'
take_packet-Taken t ts w s ids rest r empty = elim r.range [
  | inl (fresh, none_held) ↦
      take_fresh t ts w rest (subst (λ xs. WorkInv w xs rest) none_held r.inv) fresh
  | inr range ↦
      (let valid = valid_seq w.conn.next_seq range in
        elim (Bool-cases (ltb_ℤ (pos 0) (difference w.conn.next_seq (pos t.seq)))) [
          | inl ahead ↦
              (let (w', run, k) =
                  insert-Taken t ts w ids rest r.inv (not_next w ids rest r.inv r.waits) range
                    (inl (empty, r.waits, ahead)) in
                (w', take_ahead t ts w valid ahead ∙ run, k))
          | inr near ↦ (
            next_packet t ts w,
            take_next t ts w valid near,
            take_direct t ts w ids rest r.inv range,
          )
        ])
]

-- The first thing that happens to the connection.
abbrev pub touched : ℕ → Work → Work
touched ts w = record w { conn = record w.conn { last_seen = ts } }

pub touch_cases : (ts : ℕ) (w : Work) → (touch ts w ≡ w) ⊎ (touch ts w ≡ touched ts w)
unfolding touch
touch_cases ts w = elim (Bool-cases (ltb w.conn.last_seen ts)) [
  | inl e ↦ inr (rw e)
  | inr e ↦ inl (rw e)
]

pub touched-Ready :
    (ts : ℕ) (w : Work) (s : ℕ) (ids rest : List ℕ)
    → Ready w s ids rest
    → Ready (touched ts w) s ids rest
unfolding has_contiguous
touched-Ready ts w s ids rest r = record {
  inv = record {
    accounts = r.inv.accounts;
    list = record {
      first_is = r.inv.list.first_is;
      last_is = r.inv.list.last_is;
      linked = r.inv.list.linked;
    };
    counted = r.inv.counted;
  };
  waits = r.waits;
  is_open = r.is_open;
  has_stream = r.has_stream;
  range = r.range;
}

touched-Leaves : (ts : ℕ) (w : Work) (rest : List ℕ) → Leaves w (touched ts w) rest
touched-Leaves ts w rest = record {
  options = refl;
  pool = refl;
  events = refl;
  id = refl;
  same = record { key = refl; created = refl; stream = refl; closed = refl };
  kept = All-intro rest (λ q. refl);
}

pub run_empty :
    (t : Tcp) (ts : ℕ) (w w' : Work)
    → take_packet t ts (touch ts w) ≡ ok w'
    → w'.ret ≡ []
    → assemble_locked t ts w ≡ ok w'
unfolding assemble_locked
run_empty t ts w w' e f = ground (arith, e, f)

pub run_sends :
    (t : Tcp) (ts : ℕ) (w w' : Work) (r : Reassembly) (rs : List Reassembly)
    → take_packet t ts (touch ts w) ≡ ok w'
    → w'.ret ≡ r ∷ rs
    → assemble_locked t ts w ≡ send_to_connection w'
unfolding assemble_locked
run_sends t ts w w' r rs e f = ground (arith, e, f)

touch_state :
    (ts : ℕ) (w : Work) (s : ℕ) (ids rest : List ℕ)
    → Ready w s ids rest
    → w.ret ≡ []
    → Ready (touch ts w) s ids rest × Leaves w (touch ts w) rest × ((touch ts w).ret ≡ [])
touch_state ts w s ids rest r e = elim (touch_cases ts w) [
  | inl same ↦ rw same (r, Leaves-refl w rest, e)
  | inr set ↦ rw set (touched-Ready ts w s ids rest r, touched-Leaves ts w rest, e)
]

-- A packet with nothing to send leaves the connection waiting.
quiet-Outcome :
    (w w' : Work) (s : ℕ) (rest : List ℕ)
    → Taken w rest w'
    → w.conn.closed ≡ false
    → w.conn.stream ≡ some s
    → has_contiguous w' ≡ false
    → Outcome w s rest w'
quiet-Outcome w w' s rest k op e waits = record {
  ending =
      waiting k.left []
        (record {
          inv = k.inv;
          waits = waits;
          is_open = k.leaves.same.closed ∙ op;
          has_stream = k.leaves.same.stream ∙ e;
          range = inr k.range;
        })
        k.leaves.pool silent (k.leaves.events ∙ sym (append-nil w.events));
  kept = k.leaves.kept;
  same_key = k.leaves.same.key;
  same_id = k.leaves.id;
}

finish_packet :
    (t : Tcp) (ts : ℕ) (w w1 : Work) (s : ℕ) (rest : List ℕ)
    → take_packet t ts (touch ts w) ≡ ok w1
    → Taken (touch ts w) rest w1
    → (touch ts w).conn.closed ≡ false
    → (touch ts w).conn.stream ≡ some s
    → (w' : Work) × (assemble_locked t ts w ≡ ok w') × Outcome (touch ts w) s rest w'
finish_packet t ts w w1 s rest run k op e = elim k.sends [
  | inl (empty, waits) ↦
      (w1, run_empty t ts w w1 run empty, quiet-Outcome (touch ts w) w1 s rest k op e waits)
  | inr ne ↦ (elim (list_cases w1.ret) [
    | inl empty ↦ absurd (ne empty)
    | inr (r, rs, full) ↦
        (let (w2, sent, o) =
            send_to_connection-Outcome w1 s k.left rest k.inv (k.leaves.same.closed ∙ op)
              (k.leaves.same.stream ∙ e) k.range ne in
          (
            w2,
            run_sends t ts w w1 r rs run full ∙ sent,
            Outcome-from (touch ts w) w1 w2 s rest k.leaves o,
          ))
  ])
]

-- Any packet, with any options, at a connection that waits: the code runs to its end with none of its
-- panics. It calls the stream's `Reassembled` at most once, never with nothing. Then the connection
-- waits again, its list in order and the books of the cache kept; or it is closed, its pages are
-- given back, it is out of the pool, and `ReassemblyComplete` was the last call. The pages of other
-- connections are as they were.
pub assemble_locked-Outcome :
    (t : Tcp) (ts : ℕ) (w : Work) (s : ℕ) (ids rest : List ℕ)
    → Ready w s ids rest
    → w.ret ≡ []
    → (w' : Work) × (assemble_locked t ts w ≡ ok w') × Outcome w s rest w'
assemble_locked-Outcome t ts w s ids rest r empty =
    let (r', l, empty') = touch_state ts w s ids rest r empty in
    let (w1, run, k) = take_packet-Taken t ts (touch ts w) s ids rest r' empty' in
    let (w2, more, o) = finish_packet t ts w w1 s rest run k r'.is_open r'.has_stream in
    (w2, more, Outcome-from w (touch ts w) w2 s rest l o)
