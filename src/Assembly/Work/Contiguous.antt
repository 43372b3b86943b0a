-- ===== src/Assembly/Work/Contiguous.antt =====
-- `addContiguous` of capturer/extendedassembly.go: the loop ends, and leaves nothing that could be
-- delivered.
use data_collector.Base.{
  ℕ, zero, suc, ◌≤◌, ◌≡◌, refl, List, [], ◌∷◌, ◌++◌, none, arith, length, append_assoc, append-nil,
  inl, inr, sym, ◌∙◌, ap, true, false, Bool-cases, ok,
}
use data_collector.Assembly.Sequence.Range.{IsSequence}
use data_collector.Assembly.Sequence.Span.{byte_span-IsSequence}
use data_collector.Assembly.Page.{Reassembly}
use data_collector.Assembly.Work.{
  Work, has_contiguous, contiguous_loop, add_contiguous, add_next_from_conn,
}
use data_collector.Assembly.Work.Inv.{WorkInv, Leaves, Leaves-refl, Leaves-trans}
use data_collector.Assembly.Work.Pop.{Popped, add_next_from_conn-Popped}

-- The pages `taken` went from the front of the list to the return array.
pub record Drained (w : Work) (ids rest : List ℕ) (w' : Work) : Type 0 where
  pub taken : List ℕ
  pub left : List ℕ
  pub added : List Reassembly
  pub parts : ids ≡ taken ++ left
  pub inv : WorkInv w' left rest
  pub leaves : Leaves w w' rest
  pub ret_is : w'.ret ≡ w.ret ++ added
  pub as_many : length added ≡ length taken
  pub range : IsSequence w.conn.next_seq → IsSequence w'.conn.next_seq

pub has_contiguous-none : (w : Work) → w.conn.first ≡ none → has_contiguous w ≡ false
unfolding has_contiguous
has_contiguous-none w e = ground (arith, e)

pub loop_stop : (fuel : ℕ) (w : Work) → has_contiguous w ≡ false → contiguous_loop fuel w ≡ ok w
unfolding contiguous_loop
loop_stop zero w e = ground (arith, e)
loop_stop (suc fuel) w e = ground (arith, e)

pub loop_go :
    (fuel : ℕ) (w w' : Work)
    → has_contiguous w ≡ true
    → add_next_from_conn w ≡ ok w'
    → contiguous_loop (suc fuel) w ≡ contiguous_loop fuel w'
unfolding contiguous_loop
loop_go fuel w w' e run = ground (arith, e, run)

stay : (w : Work) (ids rest : List ℕ) → WorkInv w ids rest → Drained w ids rest w
stay w ids rest v = record {
  taken = [];
  left = ids;
  added = [];
  parts = refl;
  inv = v;
  leaves = Leaves-refl w rest;
  ret_is = sym (append-nil w.ret);
  as_many = refl;
  range = λ s. s;
}

pub pop_first :
    (w w1 w2 : Work) (p : ℕ) (ps rest : List ℕ)
    → Popped w p ps rest w1
    → Drained w1 ps rest w2
    → Drained w (p ∷ ps) rest w2
pop_first w w1 w2 p ps rest a b = record {
  taken = p ∷ b.taken;
  left = b.left;
  added = _ ∷ b.added;
  parts = ap (◌∷◌ p) b.parts;
  inv = b.inv;
  leaves = Leaves-trans w w1 w2 rest a.leaves b.leaves;
  ret_is = b.ret_is ∙ ap (λ xs. xs ++ b.added) a.ret_is ∙ append_assoc w.ret _ b.added;
  as_many = ap suc b.as_many;
  range = λ s. b.range (rw a.seq_is (byte_span-IsSequence w.conn.next_seq _ _ s));
}

pub contiguous_loop-Drained :
    (fuel : ℕ) (w : Work) (ids rest : List ℕ)
    → length ids ≤ fuel
    → WorkInv w ids rest
    → (w' : Work) × (contiguous_loop fuel w ≡ ok w')
      × Drained w ids rest w'
      × (has_contiguous w' ≡ false)
contiguous_loop-Drained fuel w [] rest le v =
    let stuck = has_contiguous-none w v.list.first_is in
    (w, loop_stop fuel w stuck, stay w [] rest v, stuck)
contiguous_loop-Drained zero w (p ∷ ps) rest le v = absurd (omega arith)
contiguous_loop-Drained (suc fuel) w (p ∷ ps) rest le v = elim (Bool-cases (has_contiguous w)) [
  | inr stuck ↦ (w, loop_stop (suc fuel) w stuck, stay w (p ∷ ps) rest v, stuck)
  | inl go ↦
      (let (w1, run, a) = add_next_from_conn-Popped w p ps rest v in
        let (w2, more, b, done) = contiguous_loop-Drained fuel w1 ps rest (omega arith) a.inv in
        (w2, loop_go fuel w w1 go run ∙ more, pop_first w w1 w2 p ps rest a b, done))
]

-- With the list in order and the books kept, the loop ends without a fault, has moved a front part of
-- the list to the return array, one reassembly a page, and stops only where the connection has to wait.
pub add_contiguous-Drained :
    (w : Work) (ids rest : List ℕ)
    → WorkInv w ids rest
    → (w' : Work) × (add_contiguous w ≡ ok w') × Drained w ids rest w' × (has_contiguous w' ≡ false)
unfolding add_contiguous
add_contiguous-Drained w ids rest v =
    contiguous_loop-Drained w.conn.pages w ids rest (omega (arith, v.counted)) v
