-- ===== src/Assembly/Content/Ahead.antt =====
-- A packet that comes too early for `AssembleWithTimestamp` of capturer/extendedassembly.go: its pages
-- wait, with their parts of the stream.
use data_collector.Base.{
  ℕ, suc, ◌+◌, ◌≤◌, ◌<◌, ◌^◌, ◌≡◌, refl, sym, ap, ◌∙◌, subst, List, [], ◌∷◌, ◌++◌, length,
  length-append, arith, pos, ltb_ℤ, true, false, inr, ok, All-append, All-left, All-right,
}
use data_collector.Assembly.Sequence.{difference, add}
use data_collector.Assembly.Page.{Page}
use data_collector.Assembly.Segment.{Tcp}
use data_collector.Assembly.Segment.Filled.{flat, Laid}
use data_collector.Assembly.Work.{Work, over_limit}
use data_collector.Assembly.Work.Insertion.{Inserted, insert_pages-Inserted}
use data_collector.Assembly.Assembler.{touch, assemble_locked, take_packet}
use data_collector.Assembly.Assembler.Locked.{insert_simple, waits_insert, not_next}
use data_collector.Assembly.Assembler.Packet.{take_ahead, valid_seq, run_empty}
use data_collector.Assembly.Content.Stretch.{IsStretch, Window, Within}
use data_collector.Assembly.Content.Contiguous.{AllWithin, AllWithin-same}
use data_collector.Assembly.Content.Delivered.{Reading}

-- Neither limit of the options is in force.
pub record Unlimited (w : Work) : Type 0 where
  pub per_connection : ltb_ℤ (pos 0) w.options.max_buffered_pages_per_connection ≡ false
  pub total : ltb_ℤ (pos 0) w.options.max_buffered_pages_total ≡ false

under_limit : (w w' : Work) → w'.options ≡ w.options → Unlimited w → over_limit w' ≡ false
unfolding over_limit
under_limit w w' e u = rw e (rw (u.per_connection, u.total) refl)

IsStretch-left : (b : ℕ → ℕ) (n : ℕ) (xs ys : List ℕ) → IsStretch b n (xs ++ ys) → IsStretch b n xs
IsStretch-left b n [] ys h = tt
IsStretch-left b n (x ∷ xs) ys h = (h.0, IsStretch-left b (suc n) xs ys h.1)

IsStretch-right :
    (b : ℕ → ℕ) (n : ℕ) (xs ys : List ℕ) → IsStretch b n (xs ++ ys) → IsStretch b (n + length xs) ys
IsStretch-right b n [] ys h = let e : n ≡ n + 0 = omega arith in subst (λ z. IsStretch b z ys) e h
IsStretch-right b n (x ∷ xs) ys h =
    let e : suc n + length xs ≡ n + suc (length xs) = omega arith in
    subst (λ z. IsStretch b z ys) e (IsStretch-right b (suc n) xs ys h.1)

add_near : (n k : ℕ) → n + k < 2 ^ 32 → add (pos n) (pos k) ≡ pos (n + k)
unfolding add
add_near n k h = ground arith

module _ (b : ℕ → ℕ) (lo hi : ℕ) (win : Window lo hi) where
  -- The pages of a packet hold their parts of what it holds.
  Laid-AllWithin :
      (h : ℕ → Page) (ids : List ℕ) (a : ℕ)
      → lo ≤ a
      → a + length (flat h ids) ≤ hi
      → Laid h (pos a) ids
      → IsStretch b a (flat h ids)
      → AllWithin b lo hi h ids
  Laid-AllWithin h [] a l le laid s = tt
  Laid-AllWithin h (p ∷ ps) a l le laid s =
      let bs = (h p).bytes in
      let both = length-append bs (flat h ps) in
      (
        record {
          at = a;
          seq_is = laid.0;
          not_before = l;
          not_after = omega (arith, both, le);
          stretch = IsStretch-left b a bs (flat h ps) s;
        },
        Laid-AllWithin h ps (a + length bs) (omega (arith, l)) (omega (arith, both, le))
            (subst (λ z. Laid h z ps) (add_near a (length bs) (omega (arith, both, le, win.within)))
              laid.1)
            (IsStretch-right b a bs (flat h ps) s),
      )

  module _ (t : Tcp) (ts : ℕ) (p : Within b lo hi (pos t.seq) t.payload) where
    Inserted-AllWithin :
        (w w' : Work) (ids rest : List ℕ)
        → (i : Inserted t w ids rest w') → AllWithin b lo hi w.pc.pages ids
        → AllWithin b lo hi w'.pc.pages (i.before ++ ((i.first ∷ i.more) ++ i.passed))
    Inserted-AllWithin w w' ids rest i all =
        let new = i.first ∷ i.more in
        let old =
          AllWithin-same b lo hi win w.pc.pages w'.pc.pages ids i.old_contents i.old_seqs all in
        let parts = subst (AllWithin b lo hi w'.pc.pages) i.parts old in
        let fresh =
          Laid-AllWithin w'.pc.pages new p.at p.not_before
            (omega (arith, ap length i.new_holds, p.not_after))
            (subst (λ z. Laid w'.pc.pages z new) p.seq_is i.new_laid)
            (subst (IsStretch b p.at) (sym i.new_holds) p.stretch) in
        All-append _ i.before (new ++ i.passed) (All-left _ i.before i.passed parts)
          (All-append _ new i.passed fresh (All-right _ i.before i.passed parts))

    pub holds_back :
        (w u : Work) (e s : ℕ) (rest : List ℕ)
        → touch ts w ≡ u
        → Unlimited u
        → u.ret ≡ []
        → (r : Reading b lo hi e s rest u) → ltb_ℤ (pos 0) (difference (pos e) (pos t.seq)) ≡ true
        → (w' : Work) × (assemble_locked t ts w ≡ ok w')
          × (w'.events ≡ u.events)
          × (w'.options ≡ u.options)
          × Reading b lo hi e s rest w'
    holds_back w u e s rest is_u free empty r far =
        let v = r.ready.inv in
        let ahead = ap (λ z. ltb_ℤ (pos 0) (difference z (pos t.seq))) r.expects ∙ far in
        let (w1, run, i) = insert_pages-Inserted t ts u r.ids rest v in
        let goes =
          insert_simple t ts u w1 (not_next u r.ids rest v r.ready.waits) run
            (under_limit u w1 i.leaves.options free) in
        let valid = valid_seq u.conn.next_seq (e, r.expects, omega (arith, r.to_hi, win.within)) in
        (
          w1,
          run_empty t ts w w1 (ap (take_packet t ts) is_u ∙ take_ahead t ts u valid ahead ∙ goes)
              (i.same_ret ∙ empty),
          i.leaves.events,
          i.leaves.options,
          record {
            ids = i.before ++ ((i.first ∷ i.more) ++ i.passed);
            ready = record {
              inv = i.inv;
              waits = waits_insert t u w1 r.ids rest v r.ready.waits ahead i;
              is_open = i.leaves.same.closed ∙ r.ready.is_open;
              has_stream = i.leaves.same.stream ∙ r.ready.has_stream;
              range = inr (e, i.same_next ∙ r.expects, omega (arith, r.to_hi, win.within));
            };
            expects = i.same_next ∙ r.expects;
            from_lo = r.from_lo;
            to_hi = r.to_hi;
            within = Inserted-AllWithin u w1 r.ids rest i r.within;
          },
        )
