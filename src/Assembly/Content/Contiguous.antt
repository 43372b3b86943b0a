-- ===== src/Assembly/Content/Contiguous.antt =====
-- What bytes `addContiguous` of capturer/extendedassembly.go takes off the list.
use data_collector.Base.{
  ℕ, false, zero, suc, ◌+◌, ◌≤◌, ◌≡◌, refl, sym, ap, ◌∙◌, subst, List, [], ◌∷◌, ◌++◌, append_assoc,
  append-nil, some, length, length-append, arith, pos, leb_ℤ, true, inl, inr, Bool-cases, ok, All,
}
use data_collector.Assembly.Sequence.{difference, byte_span}
use data_collector.Assembly.Page.{Page, Reassembly}
use data_collector.Assembly.Work.{Work, has_contiguous, contiguous_loop, add_contiguous}
use data_collector.Assembly.Work.Inv.{WorkInv, Leaves, Leaves-refl, Leaves-trans}
use data_collector.Assembly.Work.Pop.{Popped, add_next_from_conn-Popped}
use data_collector.Assembly.Work.Contiguous.{has_contiguous-none, loop_stop, loop_go}
use data_collector.Assembly.Content.Stretch.{
  IsStretch, IsStretch-append, Window, Within, Cut, byte_span-Cut, not_later,
}

abbrev pub bytes_of : List Reassembly → List ℕ
bytes_of [] = []
bytes_of (r ∷ rs) = r.bytes ++ bytes_of rs

pub bytes_of-append : (xs ys : List Reassembly) → bytes_of (xs ++ ys) ≡ bytes_of xs ++ bytes_of ys
bytes_of-append [] ys = refl
bytes_of-append (x ∷ xs) ys =
    ap (λ z. x.bytes ++ z) (bytes_of-append xs ys)
    ∙ sym (append_assoc x.bytes (bytes_of xs) (bytes_of ys))

-- Every page of the list holds its part of the stream.
abbrev pub AllWithin : (ℕ → ℕ) → ℕ → ℕ → (ℕ → Page) → List ℕ → Type 0
AllWithin b lo hi h ids = All (λ q. Within b lo hi (h q).seq (h q).bytes) ids

-- What was added to the return array goes on at e, without a gap and with nothing twice, and up to what
-- is expected next; what is left holds its part of the stream.
pub record Grown (b : ℕ → ℕ) (lo hi e : ℕ) (w : Work) (rest : List ℕ) (w' : Work) : Type 0 where
  pub added : List Reassembly
  pub left : List ℕ
  pub ret_is : w'.ret ≡ w.ret ++ added
  pub goes_on : IsStretch b e (bytes_of added)
  pub next_is : w'.conn.next_seq ≡ pos (e + length (bytes_of added))
  pub bounded : e + length (bytes_of added) ≤ hi
  pub inv : WorkInv w' left rest
  pub leaves : Leaves w w' rest
  pub within : AllWithin b lo hi w'.pc.pages left
  pub waits : has_contiguous w' ≡ false

module _ (b : ℕ → ℕ) (lo hi : ℕ) (win : Window lo hi) where
  none_added :
      (e : ℕ) (w : Work) (ids rest : List ℕ)
      → WorkInv w ids rest
      → w.conn.next_seq ≡ pos e
      → e ≤ hi
      → AllWithin b lo hi w.pc.pages ids
      → has_contiguous w ≡ false
      → Grown b lo hi e w rest w
  none_added e w ids rest v next h all waits = record {
    added = [];
    left = ids;
    ret_is = sym (append-nil w.ret);
    goes_on = tt;
    next_is = let same : e ≡ e + 0 = omega arith in next ∙ ap pos same;
    bounded = omega (arith, h);
    inv = v;
    leaves = Leaves-refl w rest;
    within = all;
    waits = waits;
  }

  Within-same :
      (p q : Page)
      → q.reassembly ≡ p.reassembly
      → q.seq ≡ p.seq
      → Within b lo hi p.seq p.bytes
      → Within b lo hi q.seq q.bytes
  Within-same p q e f v =
      subst (λ z. Within b lo hi z q.bytes) (sym f)
        (subst (λ (z : Reassembly). Within b lo hi p.seq z.bytes) (sym e) v)

  pub AllWithin-same :
      (h h' : ℕ → Page) (ids : List ℕ)
      → All (λ q. (h' q).reassembly ≡ (h q).reassembly) ids
      → All (λ q. (h' q).seq ≡ (h q).seq) ids
      → AllWithin b lo hi h ids
      → AllWithin b lo hi h' ids
  AllWithin-same h h' [] r s v = tt
  AllWithin-same h h' (q ∷ qs) r s v =
      (Within-same (h q) (h' q) r.0 s.0 v.0, AllWithin-same h h' qs r.1 s.1 v.1)

  first_due :
      (w : Work) (p e : ℕ)
      → w.conn.first ≡ some p
      → w.conn.next_seq ≡ pos e
      → has_contiguous w ≡ true
      → (s : Within b lo hi (w.pc.pages p).seq (w.pc.pages p).bytes)
      → leb_ℤ (difference (pos e) (pos s.at)) (pos 0) ≡ true
  unfolding has_contiguous
  first_due w p e f n go s = ground (
    arith,
    f,
    ap (λ z. leb_ℤ (difference z (w.pc.pages p).seq) (pos 0)) n,
    ap (λ z. leb_ℤ (difference (pos e) z) (pos 0)) s.seq_is,
    go,
  )

  -- One page, and then the others.
  one_page_more :
      (e : ℕ) (w w1 w2 : Work) (p : ℕ) (ps rest : List ℕ)
      → Popped w p ps rest w1
      → w.conn.next_seq ≡ pos e
      → Cut b hi e
          (byte_span (pos e) (w.pc.pages p).seq (w.pc.pages p).bytes).0
          (byte_span (pos e) (w.pc.pages p).seq (w.pc.pages p).bytes).1
      → Grown b lo hi
          (e + length (byte_span (pos e) (w.pc.pages p).seq (w.pc.pages p).bytes).0)
          w1
          rest
          w2
      → Grown b lo hi e w rest w2
  one_page_more e w w1 w2 p ps rest a next c g =
      let cut = (byte_span (pos e) (w.pc.pages p).seq (w.pc.pages p).bytes).0 in
      let same : (byte_span w.conn.next_seq (w.pc.pages p).seq (w.pc.pages p).bytes).0 ≡ cut =
        ap (λ z. (byte_span z (w.pc.pages p).seq (w.pc.pages p).bytes).0) next in
      let both : e + length cut + length (bytes_of g.added) ≡ e + length (cut ++ bytes_of g.added) =
        omega (arith, length-append cut (bytes_of g.added)) in
      let whole = ap (λ z. z ++ bytes_of g.added) same in
      record {
        added = _ ∷ g.added;
        left = g.left;
        ret_is = g.ret_is ∙ ap (λ xs. xs ++ g.added) a.ret_is ∙ append_assoc w.ret _ g.added;
        goes_on =
            subst (IsStretch b e) (sym whole)
              (IsStretch-append b e cut (bytes_of g.added) c.goes_on g.goes_on);
        next_is = g.next_is ∙ ap pos both ∙ ap (λ z. pos (e + length z)) (sym whole);
        bounded = omega (arith, g.bounded, both, ap length whole);
        inv = g.inv;
        leaves = Leaves-trans w w1 w2 rest a.leaves g.leaves;
        within = g.within;
        waits = g.waits;
      }

  contiguous_loop-Grown :
      (fuel : ℕ) (w : Work) (ids rest : List ℕ) (e : ℕ)
      → length ids ≤ fuel
      → WorkInv w ids rest
      → w.conn.next_seq ≡ pos e
      → lo ≤ e
      → e ≤ hi
      → AllWithin b lo hi w.pc.pages ids
      → (w' : Work) × (contiguous_loop fuel w ≡ ok w') × Grown b lo hi e w rest w'
  contiguous_loop-Grown fuel w [] rest e le v next l h all = (
    w,
    loop_stop fuel w (has_contiguous-none w v.list.first_is),
    none_added e w [] rest v next h all (has_contiguous-none w v.list.first_is),
  )
  contiguous_loop-Grown zero w (p ∷ ps) rest e le v next l h all = absurd (omega (arith, le))
  contiguous_loop-Grown (suc fuel) w (p ∷ ps) rest e le v next l h all =
      elim (Bool-cases (has_contiguous w)) [
        | inr stuck ↦
            (w, loop_stop (suc fuel) w stuck, none_added e w (p ∷ ps) rest v next h all stuck)
        | inl go ↦
            let s = all.0 in
            let due =
              not_later lo hi e s.at win l h s.not_before (omega (arith, s.not_after))
                (first_due w p e v.list.first_is next go s) in
            let (c, longer) =
              byte_span-Cut b lo hi e (w.pc.pages p).seq (w.pc.pages p).bytes win l h s due in
            let (w1, run, a) = add_next_from_conn-Popped w p ps rest v in
            let next1 =
              a.seq_is
              ∙ ap (λ z. (byte_span z (w.pc.pages p).seq (w.pc.pages p).bytes).1) next
              ∙ c.next_is in
            let (w2, more, g) =
              contiguous_loop-Grown fuel w1 ps rest
                (e + length (byte_span (pos e) (w.pc.pages p).seq (w.pc.pages p).bytes).0)
                (omega (arith, le)) a.inv next1 (omega (arith, l)) c.bounded
                (AllWithin-same w.pc.pages w1.pc.pages ps a.contents a.seqs all.1) in
            (w2, loop_go fuel w w1 go run ∙ more, one_page_more e w w1 w2 p ps rest a next c g)
      ]

  -- Where what is expected and every page of the list lie in a window that does not wrap, and the pages
  -- hold their parts of one stream: `addContiguous` ends, and the bytes that it adds to the return array
  -- are those of the stream from the number expected before on, up to the one expected then.
  pub add_contiguous-Grown :
      (w : Work) (ids rest : List ℕ) (e : ℕ)
      → WorkInv w ids rest
      → w.conn.next_seq ≡ pos e
      → lo ≤ e
      → e ≤ hi
      → AllWithin b lo hi w.pc.pages ids
      → (w' : Work) × (add_contiguous w ≡ ok w') × Grown b lo hi e w rest w'
  unfolding add_contiguous
  add_contiguous-Grown w ids rest e v next l h all =
      contiguous_loop-Grown w.conn.pages w ids rest e (omega (arith, v.counted)) v next l h all
