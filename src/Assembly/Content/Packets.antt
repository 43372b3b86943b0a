-- ===== src/Assembly/Content/Packets.antt =====
-- What bytes `AssembleWithTimestamp` of capturer/extendedassembly.go delivers for packets in any order.
use data_collector.Base.{
  ℕ, ◌+◌, ◌≡◌, refl, sym, ap, ◌∙◌, subst, List, [], ◌∷◌, ◌++◌, append_assoc, append-nil, length,
  length-append, arith, pos, ltb_ℤ, true, inl, inr, Bool-cases, ok, All,
}
use data_collector.Assembly.Sequence.{difference}
use data_collector.Assembly.Segment.{Tcp}
use data_collector.Assembly.Work.{Work}
use data_collector.Assembly.Assembler.{assemble_locked}
use data_collector.Assembly.Assembler.Packet.{touch_cases, touched}
use data_collector.Assembly.Content.Stretch.{IsStretch, IsStretch-append, Window, Within}
use data_collector.Assembly.Content.Delivered.{Reading}
use data_collector.Assembly.Content.Continues.{assemble_locked-Delivered}
use data_collector.Assembly.Content.Ahead.{Unlimited, holds_back}
use data_collector.Assembly.Content.Handed.{
  bytes_handed, bytes_handed-append, assemble_each, Read, each_done, each_open, each_none,
  emptied-Reading, touched-Reading, silent-Read, once-Read,
}

module _ (b : ℕ → ℕ) (lo hi : ℕ) (win : Window lo hi) (s : ℕ) (rest : List ℕ) where
  -- One packet, wherever it begins.
  assemble_locked-Read :
      (t : Tcp) (ts e : ℕ) (w : Work)
      → Unlimited w
      → w.ret ≡ []
      → Reading b lo hi e s rest w
      → Within b lo hi (pos t.seq) t.payload
      → (w' : Work) × (assemble_locked t ts w ≡ ok w') × Read b lo hi e s rest w w'
  assemble_locked-Read t ts e w free empty r p =
      elim (Bool-cases (ltb_ℤ (pos 0) (difference (pos e) (pos t.seq)))) [
        | inr near ↦
            let (w', run, d) =
              assemble_locked-Delivered b lo hi win t ts w s r.ids rest e r.ready empty r.expects
                r.from_lo r.to_hi r.within p near in
            (w', run, once-Read b lo hi win s rest e t w w' d)
        | inl far ↦ elim (touch_cases ts w) [
          | inl same ↦
              let (w', run, events, options, r') =
                holds_back b lo hi win t ts p w w e s rest same free empty r far in
              (w', run, silent-Read b lo hi win s rest e w w' events options r')
          | inr set ↦
              let (w', run, events, options, r') =
                holds_back b lo hi win t ts p w (touched ts w) e s rest set
                  (record { per_connection = free.per_connection; total = free.total }) empty
                  (touched-Reading b lo hi win s rest ts e w r) far in
              (w', run, silent-Read b lo hi win s rest e w w' events options r')
        ]
      ]

  -- What two runs, one after the other, hand over.
  then-Read :
      (e : ℕ) (w w1 w2 : Work) (r : Read b lo hi e s rest w w1)
      → Read b lo hi (e + length (bytes_handed r.calls)) s rest w1 w2
      → Read b lo hi e s rest w w2
  then-Read e w w1 w2 r q =
      let both = bytes_handed-append r.calls q.calls in
      let total : e + length (bytes_handed r.calls) + length (bytes_handed q.calls)
          ≡ e + length (bytes_handed (r.calls ++ q.calls)) =
        omega
          (arith, ap length both, length-append (bytes_handed r.calls) (bytes_handed q.calls)) in
      record {
        calls = r.calls ++ q.calls;
        events_are =
            q.events_are
            ∙ ap (λ z. z ++ q.calls) r.events_are
            ∙ append_assoc w.events r.calls q.calls;
        same_options = q.same_options ∙ r.same_options;
        goes_on = subst (IsStretch b e) (sym both) (
            IsStretch-append b e (bytes_handed r.calls) (bytes_handed q.calls) r.goes_on q.goes_on);
        ending = elim q.ending [
          | inl closed ↦ inl closed
          | inr g ↦ inr (subst (λ z. Reading b lo hi z s rest w2) total g)
        ];
      }

  closed-Read : (e : ℕ) (w : Work) → w.conn.closed ≡ true → Read b lo hi e s rest w w
  closed-Read e w c = record {
    calls = [];
    events_are = sym (append-nil w.events);
    same_options = refl;
    goes_on = tt;
    ending = inl c;
  }

  emptied-Read :
      (e : ℕ) (w w' : Work)
      → Read b lo hi e s rest (record w { ret = [] }) w'
      → Read b lo hi e s rest w w'
  emptied-Read e w w' r = record {
    calls = r.calls;
    events_are = r.events_are;
    same_options = r.same_options;
    goes_on = r.goes_on;
    ending = r.ending;
  }

  Unlimited-same : (w w' : Work) → w'.options ≡ w.options → Unlimited w → Unlimited w'
  Unlimited-same w w' e u = record {
    per_connection =
        ap (λ o. ltb_ℤ (pos 0) o.max_buffered_pages_per_connection) e ∙ u.per_connection;
    total = ap (λ o. ltb_ℤ (pos 0) o.max_buffered_pages_total) e ∙ u.total;
  }

  -- With no limit on pages, a connection that waits for e, its pages within a window that does not wrap
  -- and with their parts of one stream, and packets that hold parts of it in the window, in any order,
  -- some of them more than once or overlapping: until it is closed, all of them are assembled without a
  -- fault. The bytes that the stream is handed altogether are those sent from e on, without a gap and
  -- with nothing twice; in the end the connection waits for the byte that follows them, or is closed.
  pub assemble_each-Read :
      (ps : List (Tcp × ℕ)) (e : ℕ) (w : Work)
      → Unlimited w
      → Reading b lo hi e s rest w
      → All (λ (p : Tcp × ℕ). Within b lo hi (pos (p.0).seq) (p.0).payload) ps
      → (w' : Work) × (assemble_each ps w ≡ ok w') × Read b lo hi e s rest w w'
  assemble_each-Read [] e w free r all =
      (w, each_none w, silent-Read b lo hi win s rest e w w refl refl r)
  assemble_each-Read ((t, ts) ∷ ps) e w free r all =
      let (w1, run, q) =
        assemble_locked-Read t ts e (record w { ret = [] })
          (record { per_connection = free.per_connection; total = free.total }) refl
          (emptied-Reading b lo hi win s rest e w r) all.0 in
      let free1 = Unlimited-same w w1 q.same_options free in
      let start = each_open t ts ps w w1 r.ready.is_open run in
      let start_w = record w { ret = [] } in
      elim q.ending [
        | inl closed ↦ (
          w1,
          start ∙ each_done ps w1 closed,
          emptied-Read e w w1 (
              then-Read e start_w w1 w1 q
                (closed-Read (e + length (bytes_handed q.calls)) w1 closed)),
        )
        | inr g ↦
            let (w2, more, q2) =
              assemble_each-Read ps (e + length (bytes_handed q.calls)) w1 free1 g all.1 in
            (w2, start ∙ more, emptied-Read e w w2 (then-Read e start_w w1 w2 q q2))
      ]
