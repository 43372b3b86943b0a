-- ===== src/Assembly/Work/Shrink.antt =====
-- Every `skipFlush` of capturer/extendedassembly.go closes the connection or takes pages off its list.
use data_collector.Base.{
  ℕ, ◌≤◌, ◌≡◌, ◌≢◌, sym, ap, ◌∙◌, subst, ◌⊎◌, inl, inr, true, Bool-cases, List, [], ◌∷◌, ◌++◌, none,
  some, length, length-append, arith, ok, ok_inj,
}
use data_collector.Assembly.Work.{
  Work, reassembled, deliver, send_to_connection, skip_flush, close_connection,
}
use data_collector.Assembly.Work.Inv.{WorkInv}
use data_collector.Assembly.Work.Pop.{add_next_from_conn-Popped}
use data_collector.Assembly.Work.Contiguous.{add_contiguous-Drained}
use data_collector.Assembly.Work.Send.{
  send_run, flush_none, flush_some, last_of_nonempty, deliver_open, deliver_end, append-ne, not_nil,
}
use data_collector.Assembly.Work.Close.{close_connection-Closed}

-- It is closed, or has at most n pages.
abbrev pub Shrunk : ℕ → Work → Type 0
Shrunk n w = (w.conn.closed ≡ true) ⊎ (w.conn.pages ≤ n)

closed_after :
    (w w' : Work) (s : ℕ) (ids rest : List ℕ)
    → WorkInv w ids rest
    → w.conn.stream ≡ some s
    → close_connection w ≡ ok w'
    → w'.conn.closed ≡ true
closed_after w w' s ids rest v e run =
    let (w1, go, c) = close_connection-Closed w s ids rest v e in
    subst (λ (z : Work). z.conn.closed ≡ true) (ok_inj w1 w' (sym go ∙ run)) c.closed

deliver-Shrunk :
    (w w' : Work) (s : ℕ) (ids rest : List ℕ)
    → WorkInv w ids rest
    → w.conn.stream ≡ some s
    → w.ret ≢ []
    → deliver w ≡ ok w'
    → Shrunk w.conn.pages w'
deliver-Shrunk w w' s ids rest v e ne run =
    let (r, is_last) = last_of_nonempty w.ret ne in
    let sent = record w { events = w.events ++ reassembled s w.ret ∷ [] } in
    elim (Bool-cases r.end) [
      | inl b ↦ inl (
          closed_after sent w' s ids rest
            (record { accounts = v.accounts; list = v.list; counted = v.counted }) e
            (sym (deliver_end w s r e is_last b) ∙ run))
      | inr b ↦
          let same : sent ≡ w' = ok_inj sent w' (sym (deliver_open w s r e is_last b) ∙ run) in
          inr (subst (λ (z : Work). z.conn.pages ≤ w.conn.pages) same (omega arith))
    ]

send-Shrunk :
    (w w' : Work) (s : ℕ) (ids rest : List ℕ)
    → WorkInv w ids rest
    → w.conn.stream ≡ some s
    → w.ret ≢ []
    → send_to_connection w ≡ ok w'
    → Shrunk (length ids) w'
send-Shrunk w w' s ids rest v stream ne e =
    let (w1, run, d, waits) = add_contiguous-Drained w ids rest v in
    let fewer : w1.conn.pages ≤ length ids =
      omega (arith, d.inv.counted, ap length d.parts, length-append d.taken d.left) in
    elim (deliver-Shrunk w1 w' s d.left rest d.inv (d.leaves.same.stream ∙ stream)
      (λ f. append-ne w.ret d.added ne (sym d.ret_is ∙ f)) (sym (send_run w w1 run) ∙ e)) [
        | inl c ↦ inl c
        | inr le ↦ inr (omega (arith, le, fewer))
      ]

-- A flush closes the connection, or it leaves fewer pages than it found.
pub skip_flush-Shrunk :
    (w w' : Work) (s p : ℕ) (ps rest : List ℕ)
    → WorkInv w (p ∷ ps) rest
    → w.conn.stream ≡ some s
    → skip_flush w ≡ ok w'
    → Shrunk (length ps) w'
skip_flush-Shrunk w w' s p ps rest v stream e =
    let (w1, pop, a) =
      add_next_from_conn-Popped (record w { ret = [] }) p ps rest
        (record { accounts = v.accounts; list = v.list; counted = v.counted }) in
    let (w2, run, d, waits) = add_contiguous-Drained w1 ps rest a.inv in
    let fewer : length d.left ≤ length ps =
      omega (arith, ap length d.parts, length-append d.taken d.left) in
    elim (send-Shrunk w2 w' s d.left rest d.inv
      (d.leaves.same.stream ∙ a.leaves.same.stream ∙ stream)
      (λ f. not_nil w1.ret d.added a.ret_is (sym d.ret_is ∙ f))
      (sym (flush_some w w1 w2 p v.list.first_is pop run) ∙ e)) [
        | inl c ↦ inl c
        | inr le ↦ inr (omega (arith, le, fewer))
      ]

pub skip_flush-empty :
    (w w' : Work) (s : ℕ) (ids rest : List ℕ)
    → WorkInv w ids rest
    → w.conn.stream ≡ some s
    → w.conn.first ≡ none
    → skip_flush w ≡ ok w'
    → w'.conn.closed ≡ true
skip_flush-empty w w' s ids rest v stream f e =
    closed_after w w' s ids rest v stream (sym (flush_none w f) ∙ e)
