-- ===== src/Assembly/Content/Handed.antt =====
-- The bytes that a stream is handed by several calls of `AssembleWithTimestamp` of
-- capturer/extendedassembly.go, one after the other.
use data_collector.Base.{
  ℕ, ◌+◌, ◌≡◌, ◌⊎◌, refl, sym, ap, ◌∙◌, subst, List, [], ◌∷◌, ◌++◌, append_assoc, append-nil,
  length, arith, true, false, inl, inr, Result, ok, ◌>>=◌,
}
use data_collector.Assembly.Segment.{Tcp}
use data_collector.Assembly.Work.{
  Work, Event, reassembled, reassembly_complete, created, has_contiguous,
}
use data_collector.Assembly.Assembler.{assemble_locked}
use data_collector.Assembly.Assembler.Packet.{touched, touched-Ready}
use data_collector.Assembly.Content.Stretch.{IsStretch, Window}
use data_collector.Assembly.Content.Contiguous.{bytes_of}
use data_collector.Assembly.Content.Delivered.{Reading, Delivered}

-- The bytes that the stream is handed by these calls.
abbrev pub bytes_handed : List Event → List ℕ
bytes_handed [] = []
bytes_handed (reassembled s rs ∷ es) = bytes_of rs ++ bytes_handed es
bytes_handed (created s ∷ es) = bytes_handed es
bytes_handed (reassembly_complete s ∷ es) = bytes_handed es

pub bytes_handed-append :
    (xs ys : List Event) → bytes_handed (xs ++ ys) ≡ bytes_handed xs ++ bytes_handed ys
bytes_handed-append [] ys = refl
bytes_handed-append (reassembled s rs ∷ es) ys =
    ap (λ z. bytes_of rs ++ z) (bytes_handed-append es ys)
    ∙ sym (append_assoc (bytes_of rs) (bytes_handed es) (bytes_handed ys))
bytes_handed-append (created s ∷ es) ys = bytes_handed-append es ys
bytes_handed-append (reassembly_complete s ∷ es) ys = bytes_handed-append es ys

-- Packets of one connection, each with its time, as long as it is open. Each call begins with an empty
-- return array.
unfoldable pub assemble_each : List (Tcp × ℕ) → Work → Result Work
unfolding assemble_locked
assemble_each [] w = ok w
assemble_each ((t, ts) ∷ ps) w = elim w.conn.closed [
  | true ↦ ok w
  | false ↦ assemble_locked t ts (record w { ret = [] }) >>= assemble_each ps
]

-- The bytes handed over go on at e, without a gap and with nothing twice; the connection waits for the
-- byte that follows them, or is closed.
pub record Read (b : ℕ → ℕ) (lo hi e s : ℕ) (rest : List ℕ) (w w' : Work) : Type 0 where
  pub calls : List Event
  pub events_are : w'.events ≡ w.events ++ calls
  pub same_options : w'.options ≡ w.options
  pub goes_on : IsStretch b e (bytes_handed calls)
  pub ending : (w'.conn.closed ≡ true) ⊎ Reading b lo hi (e + length (bytes_handed calls)) s rest w'

pub each_done : (ps : List (Tcp × ℕ)) (w : Work) → w.conn.closed ≡ true → assemble_each ps w ≡ ok w
unfolding assemble_each
each_done [] w e = refl
each_done ((t, ts) ∷ ps) w e = rw e refl

pub each_open :
    (t : Tcp) (ts : ℕ) (ps : List (Tcp × ℕ)) (w w1 : Work)
    → w.conn.closed ≡ false
    → assemble_locked t ts (record w { ret = [] }) ≡ ok w1
    → assemble_each ((t, ts) ∷ ps) w ≡ assemble_each ps w1
unfolding assemble_each
each_open t ts ps w w1 e f =
    ap
      (λ z. elim z [
        | true ↦ ok w
        | false ↦ assemble_locked t ts (record w { ret = [] }) >>= assemble_each ps
      ])
      e
    ∙ ap (λ r. r >>= assemble_each ps) f

pub each_none : (w : Work) → assemble_each [] w ≡ ok w
unfolding assemble_each
each_none w = refl

module _ (b : ℕ → ℕ) (lo hi : ℕ) (win : Window lo hi) (s : ℕ) (rest : List ℕ) where
  -- Neither the return array nor the time of the last packet counts.
  pub emptied-Reading :
      (e : ℕ) (w : Work)
      → Reading b lo hi e s rest w
      → Reading b lo hi e s rest (record w { ret = [] })
  unfolding has_contiguous
  emptied-Reading e w r = record {
    ids = r.ids;
    ready = record {
      inv = record {
        accounts = r.ready.inv.accounts;
        list = r.ready.inv.list;
        counted = r.ready.inv.counted;
      };
      waits = r.ready.waits;
      is_open = r.ready.is_open;
      has_stream = r.ready.has_stream;
      range = r.ready.range;
    };
    expects = r.expects;
    from_lo = r.from_lo;
    to_hi = r.to_hi;
    within = r.within;
  }

  pub touched-Reading :
      (ts e : ℕ) (w : Work) → Reading b lo hi e s rest w → Reading b lo hi e s rest (touched ts w)
  touched-Reading ts e w r = record {
    ids = r.ids;
    ready = touched-Ready ts w s r.ids rest r.ready;
    expects = r.expects;
    from_lo = r.from_lo;
    to_hi = r.to_hi;
    within = r.within;
  }

  pub silent-Read :
      (e : ℕ) (w w' : Work)
      → w'.events ≡ w.events
      → w'.options ≡ w.options
      → Reading b lo hi e s rest w'
      → Read b lo hi e s rest w w'
  silent-Read e w w' same options r =
      let here : e ≡ e + 0 = omega arith in
      record {
        calls = [];
        events_are = same ∙ sym (append-nil w.events);
        same_options = options;
        goes_on = tt;
        ending = inr (subst (λ z. Reading b lo hi z s rest w') here r);
      }

  pub once-Read :
      (e : ℕ) (t : Tcp) (w w' : Work)
      → Delivered b lo hi e t w s rest w'
      → Read b lo hi e s rest w w'
  once-Read e t w w' d = elim d.ending [
    | inl (closed, last) ↦ record {
      calls = reassembled s d.parts ∷ reassembly_complete s ∷ [];
      events_are = d.events_are ∙ ap (λ z. w.events ++ reassembled s d.parts ∷ z) last;
      same_options = d.same_options;
      goes_on = subst (IsStretch b e) (sym (append-nil (bytes_of d.parts))) d.goes_on;
      ending = inl closed;
    }
    | inr (last, r) ↦
        let all = append-nil (bytes_of d.parts) in
        record {
          calls = reassembled s d.parts ∷ [];
          events_are = d.events_are ∙ ap (λ z. w.events ++ reassembled s d.parts ∷ z) last;
          same_options = d.same_options;
          goes_on = subst (IsStretch b e) (sym all) d.goes_on;
          ending = inr (subst (λ z. Reading b lo hi (e + length z) s rest w') (sym all) r);
        }
  ]
