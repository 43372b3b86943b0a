-- ===== src/Assembly/Content/Continues.antt =====
-- What bytes `AssembleWithTimestamp` of capturer/extendedassembly.go delivers for a packet that does not
-- come too early.
use data_collector.Base.{
  ℕ, ◌+◌, ◌≤◌, ◌≡◌, refl, sym, ap, ◌∙◌, subst, List, [], ◌∷◌, ◌++◌, length, length-append, arith,
  pos, ltb_ℤ, eqb_ℤ, ◌||◌, false, inl, inr, ok,
}
use data_collector.Assembly.Sequence.{difference, byte_span, invalid_sequence}
use data_collector.Assembly.Page.{Reassembly}
use data_collector.Assembly.Segment.{Tcp}
use data_collector.Assembly.Work.{Work, Event, reassembled, send_to_connection}
use data_collector.Assembly.Work.Inv.{WorkInv}
use data_collector.Assembly.Work.Ready.{Ready}
use data_collector.Assembly.Work.Send.{send_run}
use data_collector.Assembly.Assembler.{touch, next_packet, take_packet, assemble_locked}
use data_collector.Assembly.Assembler.Packet.{
  take_next, valid_seq, touch_cases, touched, touched-Ready, run_sends,
}
use data_collector.Assembly.Content.Stretch.{
  IsStretch, IsStretch-append, Window, Within, byte_span-Cut, not_ahead,
}
use data_collector.Assembly.Content.Contiguous.{bytes_of, AllWithin, add_contiguous-Grown}
use data_collector.Assembly.Content.Delivered.{Delivered, delivers}

module _ (b : ℕ → ℕ) (lo hi : ℕ) (win : Window lo hi) (t : Tcp) (ts : ℕ) where
  next-WorkInv :
      (u : Work) (ids rest : List ℕ) → WorkInv u ids rest → WorkInv (next_packet t ts u) ids rest
  unfolding next_packet
  next-WorkInv u ids rest v = record {
    accounts = v.accounts;
    list = record { first_is = v.list.first_is; last_is = v.list.last_is; linked = v.list.linked };
    counted = v.counted;
  }

  abbrev cut_of : ℕ → List ℕ
  cut_of e = (byte_span (pos e) (pos t.seq) t.payload).0

  next_ret :
      (u : Work) (e : ℕ)
      → u.ret ≡ []
      → u.conn.next_seq ≡ pos e
      → (r : Reassembly) × ((next_packet t ts u).ret ≡ r ∷ []) × (r.bytes ≡ cut_of e)
  unfolding next_packet
  next_ret u e empty next =
      let r : Reassembly = record {
        bytes = (byte_span u.conn.next_seq (pos t.seq) t.payload).0;
        skip = pos 0;
        start = false;
        end = t.rst || t.fin;
        seen = ts;
      } in
      (r, ap (λ z. z ++ r ∷ []) empty, ap (λ z. (byte_span z (pos t.seq) t.payload).0) next)

  next_fields :
      (u : Work)
      → ((next_packet t ts u).conn.next_seq ≡ (byte_span u.conn.next_seq (pos t.seq) t.payload).1)
        × ((next_packet t ts u).conn.stream ≡ u.conn.stream)
        × ((next_packet t ts u).conn.closed ≡ u.conn.closed)
        × ((next_packet t ts u).events ≡ u.events)
        × ((next_packet t ts u).options ≡ u.options)
        × ((next_packet t ts u).pc.pages ≡ u.pc.pages)
  unfolding next_packet
  next_fields u = (refl, refl, refl, refl, refl, refl)

  sends :
      (u : Work) (s : ℕ) (ids rest : List ℕ) (e : ℕ)
      → Ready u s ids rest
      → u.ret ≡ []
      → u.conn.next_seq ≡ pos e
      → lo ≤ e
      → e ≤ hi
      → AllWithin b lo hi u.pc.pages ids
      → (p : Within b lo hi (pos t.seq) t.payload) → p.at ≤ e
      → (w' : Work) × (send_to_connection (next_packet t ts u) ≡ ok w')
        × Delivered b lo hi e t u s rest w'
  sends u s ids rest e r empty next l h all p le =
      let w1 = next_packet t ts u in
      let (c, longer) = byte_span-Cut b lo hi e (pos t.seq) t.payload win l h p le in
      let (f_next, f_stream, f_closed, f_events, f_options, f_pages) = next_fields u in
      let (x, ret1, x_bytes) = next_ret u e empty next in
      let next1 = f_next ∙ ap (λ z. (byte_span z (pos t.seq) t.payload).1) next ∙ c.next_is in
      let (w2, run, g) =
        add_contiguous-Grown b lo hi win w1 ids rest (e + length (cut_of e))
          (next-WorkInv u ids rest r.inv) next1 (omega (arith, l)) c.bounded
          (subst (λ z. AllWithin b lo hi z ids) (sym f_pages) all) in
      let ret2 : w2.ret ≡ x ∷ g.added = g.ret_is ∙ ap (λ z. z ++ g.added) ret1 in
      let whole : bytes_of w2.ret ≡ cut_of e ++ bytes_of g.added =
        ap bytes_of ret2 ∙ ap (λ z. z ++ bytes_of g.added) x_bytes in
      let both = length-append (cut_of e) (bytes_of g.added) in
      let seq_at : t.seq ≡ p.at = pos_inj t.seq p.at p.seq_is in
      let total : e + length (cut_of e) + length (bytes_of g.added) ≡ e + length (bytes_of w2.ret) =
        omega (arith, both, ap length whole) in
      let (w3, last, go, events, options, ending) =
        delivers b lo hi (e + length (bytes_of w2.ret)) w2 s g.left rest g.inv g.waits
          (g.leaves.same.closed ∙ f_closed ∙ r.is_open)
          (g.leaves.same.stream ∙ f_stream ∙ r.has_stream) (g.next_is ∙ ap pos total)
          (omega (arith, total, g.bounded, win.within)) (omega (arith, l))
          (omega (arith, total, g.bounded)) g.within (λ z. absurd (ground (arith, ret2, z))) in
      (
        w3,
        send_run w1 w2 run ∙ go,
        record {
          parts = w2.ret;
          last_calls = last;
          events_are =
              events
              ∙ ap (λ (z : List Event). z ++ reassembled s w2.ret ∷ last)
                  (g.leaves.events ∙ f_events);
          same_options = options ∙ g.leaves.options ∙ f_options;
          goes_on =
              subst (IsStretch b e) (sym whole)
                (IsStretch-append b e (cut_of e) (bytes_of g.added) c.goes_on g.goes_on);
          reaches = omega (arith, longer, total, seq_at);
          ending = ending;
        },
      )
    where
      pos_inj : (m n : ℕ) → pos m ≡ pos n → m ≡ n
      pos_inj m n e = cc

  touched_sends :
      (w u : Work) (s : ℕ) (ids rest : List ℕ) (e : ℕ)
      → touch ts w ≡ u
      → u.events ≡ w.events
      → u.options ≡ w.options
      → Ready u s ids rest
      → u.ret ≡ []
      → u.conn.next_seq ≡ pos e
      → lo ≤ e
      → e ≤ hi
      → AllWithin b lo hi u.pc.pages ids
      → Within b lo hi (pos t.seq) t.payload
      → ltb_ℤ (pos 0) (difference (pos e) (pos t.seq)) ≡ false
      → (w' : Work) × (assemble_locked t ts w ≡ ok w') × Delivered b lo hi e t w s rest w'
  touched_sends w u s ids rest e is_u same kept r empty next l h all p near =
      let due =
        not_ahead lo hi e p.at win l h p.not_before (omega (arith, p.not_after))
          (ap (λ z. ltb_ℤ (pos 0) (difference (pos e) z)) (sym p.seq_is) ∙ near) in
      let valid : eqb_ℤ u.conn.next_seq invalid_sequence ≡ false =
        valid_seq u.conn.next_seq (e, next, omega (arith, h, win.within)) in
      let near_u : ltb_ℤ (pos 0) (difference u.conn.next_seq (pos t.seq)) ≡ false =
        ap (λ z. ltb_ℤ (pos 0) (difference z (pos t.seq))) next ∙ near in
      let (x, ret1, x_bytes) = next_ret u e empty next in
      let (w', run, d) = sends u s ids rest e r empty next l h all p due in
      (
        w',
        run_sends t ts w (next_packet t ts u) x []
              (ap (take_packet t ts) is_u ∙ take_next t ts u valid near_u) ret1
            ∙ run,
        record {
          parts = d.parts;
          last_calls = d.last_calls;
          events_are =
              d.events_are
              ∙ ap (λ (z : List Event). z ++ reassembled s d.parts ∷ d.last_calls) same;
          goes_on = d.goes_on;
          reaches = d.reaches;
          same_options = d.same_options ∙ kept;
          ending = d.ending;
        },
      )

  -- A connection that waits for e, its list within a window that does not wrap; its pages and the packet
  -- hold their parts of one stream, and the packet does not begin later than e. Then the packet is
  -- assembled without a fault, and the stream is called once. The bytes that it is handed are those sent
  -- from e on, without a gap and with nothing twice, at least to the packet's end; and the connection
  -- waits for the byte that follows them, its pages as before, or is closed.
  pub assemble_locked-Delivered :
      (w : Work) (s : ℕ) (ids rest : List ℕ) (e : ℕ)
      → Ready w s ids rest
      → w.ret ≡ []
      → w.conn.next_seq ≡ pos e
      → lo ≤ e
      → e ≤ hi
      → AllWithin b lo hi w.pc.pages ids
      → Within b lo hi (pos t.seq) t.payload
      → ltb_ℤ (pos 0) (difference (pos e) (pos t.seq)) ≡ false
      → (w' : Work) × (assemble_locked t ts w ≡ ok w') × Delivered b lo hi e t w s rest w'
  assemble_locked-Delivered w s ids rest e r empty next l h all p near = elim (touch_cases ts w) [
    | inl same ↦ touched_sends w w s ids rest e same refl refl r empty next l h all p near
    | inr set ↦
        touched_sends w (touched ts w) s ids rest e set refl refl (touched-Ready ts w s ids rest r)
          empty next l h all p near
  ]
