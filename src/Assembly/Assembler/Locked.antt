-- ===== src/Assembly/Assembler/Locked.antt =====
-- `insertIntoConn` of capturer/extendedassembly.go under the lock: it never panics, and whether there is
-- something to send afterwards is known.
use data_collector.Base.{
  ℕ, ◌≡◌, refl, ◌≢◌, ◌⊎◌, List, [], ◌∷◌, ◌++◌, none, some, arith, inl, inr, sym, ◌∙◌, ap, subst,
  true, false, Bool-cases, ok, All, ℤ, pos, eqb_ℤ, ltb_ℤ, leb_ℤ,
}
use data_collector.Assembly.Sequence.Range.{IsSequence}
use data_collector.Assembly.Sequence.{difference}
use data_collector.Assembly.Sequence.Span.{byte_span-IsSequence}
use data_collector.Assembly.Sequence.Order.{difference_self, eqb_ℤ-eq}
use data_collector.Assembly.Segment.{Tcp}
use data_collector.Assembly.Connection.Links.{first_of}
use data_collector.Assembly.Work.{
  Work, has_contiguous, first_is_next, over_limit, insert_pages, insert_into_conn,
  add_next_from_conn,
}
use data_collector.Assembly.Work.Inv.{WorkInv, Leaves, Leaves-trans}
use data_collector.Assembly.Work.Pop.{add_next_from_conn-Popped}
use data_collector.Assembly.Work.Insertion.{Inserted, insert_pages-Inserted}

pub insert_simple :
    (t : Tcp) (ts : ℕ) (w w1 : Work)
    → first_is_next w ≡ false
    → insert_pages t ts w ≡ ok w1
    → over_limit w1 ≡ false
    → insert_into_conn t ts w ≡ ok w1
unfolding insert_into_conn
insert_simple t ts w w1 e f g = rw (e, f, g)

insert_over :
    (t : Tcp) (ts : ℕ) (w w1 : Work)
    → first_is_next w ≡ false
    → insert_pages t ts w ≡ ok w1
    → over_limit w1 ≡ true
    → insert_into_conn t ts w ≡ add_next_from_conn w1
unfolding insert_into_conn
insert_over t ts w w1 e f g = rw (e, f, g)

has_contiguous-some :
    (w : Work) (p : ℕ) (n s : ℤ)
    → w.conn.first ≡ some p
    → w.conn.next_seq ≡ n
    → (w.pc.pages p).seq ≡ s
    → has_contiguous w ≡ leb_ℤ (difference n s) (pos 0)
unfolding has_contiguous
has_contiguous-some w p n s e f g = rw (← f, ← g) (ground (arith, e))

first_is_next-some :
    (w : Work) (p : ℕ)
    → w.conn.first ≡ some p
    → first_is_next w ≡ eqb_ℤ (w.pc.pages p).seq w.conn.next_seq
unfolding first_is_next
first_is_next-some w p e = ground (arith, e)

pub first_is_next-none : (w : Work) → w.conn.first ≡ none → first_is_next w ≡ false
unfolding first_is_next
first_is_next-none w e = ground (arith, e)

-- A page that the connection waits for would have been delivered: so `panic("wtf")` is out of reach.
pub not_next :
    (w : Work) (ids rest : List ℕ)
    → WorkInv w ids rest
    → has_contiguous w ≡ false
    → first_is_next w ≡ false
not_next w [] rest v waits = first_is_next-none w v.list.first_is
not_next w (p ∷ ps) rest v waits = elim (Bool-cases (eqb_ℤ (w.pc.pages p).seq w.conn.next_seq)) [
  | inr ne ↦ first_is_next-some w p v.list.first_is ∙ ne
  | inl eq ↦
      (let zero_apart : difference w.conn.next_seq (w.pc.pages p).seq ≡ pos 0 =
          rw (eqb_ℤ-eq (w.pc.pages p).seq w.conn.next_seq eq) (difference_self w.conn.next_seq) in
        let contiguous : has_contiguous w ≡ true =
          has_contiguous-some w p _ _ v.list.first_is refl refl
          ∙ ap (λ (d : ℤ). leb_ℤ d (pos 0)) zero_apart in
        cc)
]

not_behind : (d : ℤ) → ltb_ℤ (pos 0) d ≡ true → leb_ℤ d (pos 0) ≡ false
not_behind d h = ground arith

pub waits_insert :
    (t : Tcp) (w w1 : Work) (ids rest : List ℕ)
    → WorkInv w ids rest
    → has_contiguous w ≡ false
    → ltb_ℤ (pos 0) (difference w.conn.next_seq (pos t.seq)) ≡ true
    → Inserted t w ids rest w1
    → has_contiguous w1 ≡ false
waits_insert t w w1 ids rest v waits ahead i = by_place i.before i.parts i.inv.list.first_is
  where
    at_front : w1.conn.first ≡ some i.first → has_contiguous w1 ≡ false
    at_front e =
        has_contiguous-some w1 i.first w.conn.next_seq (pos t.seq) e i.same_next i.first_seq
        ∙ not_behind (difference w.conn.next_seq (pos t.seq)) ahead

    behind :
        (b : ℕ)
        → w.conn.first ≡ some b
        → (w1.pc.pages b).seq ≡ (w.pc.pages b).seq
        → w1.conn.first ≡ some b
        → has_contiguous w1 ≡ false
    behind b e same f =
        has_contiguous-some w1 b w.conn.next_seq (w.pc.pages b).seq f i.same_next same
        ∙ sym (has_contiguous-some w b w.conn.next_seq (w.pc.pages b).seq e refl refl)
        ∙ waits

    by_place :
        (before : List ℕ)
        → ids ≡ before ++ i.passed
        → w1.conn.first ≡ first_of (before ++ ((i.first ∷ i.more) ++ i.passed)) none
        → has_contiguous w1 ≡ false
    by_place [] e f = at_front f
    by_place (b ∷ bs) e f =
        behind b (v.list.first_is ∙ ap (λ xs. first_of xs none) e)
          (subst (All (λ q. (w1.pc.pages q).seq ≡ (w.pc.pages q).seq)) e i.old_seqs).0 f

-- The list after a packet has been looked at, and whether there is something to send.
pub record Taken (w : Work) (rest : List ℕ) (w' : Work) : Type 0 where
  pub left : List ℕ
  pub inv : WorkInv w' left rest
  pub leaves : Leaves w w' rest
  pub range : IsSequence w'.conn.next_seq
  pub sends : ((w'.ret ≡ []) × (has_contiguous w' ≡ false)) ⊎ (w'.ret ≢ [])

pub snoc-ne {ℓ} : {A : Type ℓ} (xs : List A) (x : A) → xs ++ x ∷ [] ≢ []
snoc-ne [] x e = cc
snoc-ne (y ∷ ys) x e = cc

middle-ne : (xs : List ℕ) (y : ℕ) (ys : List ℕ) → xs ++ y ∷ ys ≢ []
middle-ne [] y ys e = cc
middle-ne (x ∷ xs) y ys e = cc

-- One page over the limit goes out at once.
insert_popped :
    (t : Tcp) (ts : ℕ) (w w1 : Work) (ids rest new : List ℕ)
    → first_is_next w ≡ false
    → insert_pages t ts w ≡ ok w1
    → over_limit w1 ≡ true
    → Inserted t w ids rest w1
    → IsSequence w.conn.next_seq
    → WorkInv w1 new rest
    → new ≢ []
    → (w' : Work) × (insert_into_conn t ts w ≡ ok w') × Taken w rest w'
insert_popped t ts w w1 ids rest [] e run over i range v ne = absurd (ne refl)
insert_popped t ts w w1 ids rest (p ∷ ps) e run over i range v ne =
    let (w2, pop, a) = add_next_from_conn-Popped w1 p ps rest v in
    (
      w2,
      insert_over t ts w w1 e run over ∙ pop,
      record {
        left = ps;
        inv = a.inv;
        leaves = Leaves-trans w w1 w2 rest i.leaves a.leaves;
        range = rw a.seq_is (byte_span-IsSequence w1.conn.next_seq _ _ (rw i.same_next range));
        sends = inr (λ f. snoc-ne w1.ret _ (sym a.ret_is ∙ f));
      },
    )

pub insert-Taken :
    (t : Tcp) (ts : ℕ) (w : Work) (ids rest : List ℕ)
    → WorkInv w ids rest
    → first_is_next w ≡ false
    → IsSequence w.conn.next_seq
    → ((w.ret ≡ [])
        × (has_contiguous w ≡ false)
        × (ltb_ℤ (pos 0) (difference w.conn.next_seq (pos t.seq)) ≡ true))
      ⊎ (w.ret ≢ [])
    → (w' : Work) × (insert_into_conn t ts w ≡ ok w') × Taken w rest w'
insert-Taken t ts w ids rest v e range sends =
    let (w1, run, i) = insert_pages-Inserted t ts w ids rest v in
    elim (Bool-cases (over_limit w1)) [
      | inl over ↦
          insert_popped t ts w w1 ids rest (i.before ++ ((i.first ∷ i.more) ++ i.passed)) e run over
            i range i.inv (middle-ne i.before i.first (i.more ++ i.passed))
      | inr under ↦ (
        w1,
        insert_simple t ts w w1 e run under,
        record {
          left = i.before ++ ((i.first ∷ i.more) ++ i.passed);
          inv = i.inv;
          leaves = i.leaves;
          range = rw i.same_next range;
          sends = still w1 i sends;
        },
      )
    ]
  where
    still :
        (w1 : Work)
        → Inserted t w ids rest w1
        → ((w.ret ≡ [])
            × (has_contiguous w ≡ false)
            × (ltb_ℤ (pos 0) (difference w.conn.next_seq (pos t.seq)) ≡ true))
          ⊎ (w.ret ≢ [])
        → ((w1.ret ≡ []) × (has_contiguous w1 ≡ false)) ⊎ (w1.ret ≢ [])
    still w1 i (inl (empty, waits, ahead)) =
        inl (i.same_ret ∙ empty, waits_insert t w w1 ids rest v waits ahead i)
    still w1 i (inr ne) = inr (λ f. ne (sym i.same_ret ∙ f))
