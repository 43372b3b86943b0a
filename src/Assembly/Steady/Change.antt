-- ===== src/Assembly/Steady/Change.antt =====
-- The assembler of capturer/extendedassembly.go after what it does to one connection.
use data_collector.Base.{
  ℕ, ◌≡◌, sym, ap, ◌∙◌, true, List, [], ◌∷◌, ◌++◌, All, All-map₂, append_assoc,
}
use data_collector.Assembly.PageCache.Accounts.{Accounts}
use data_collector.Assembly.Pool.{StreamPool, remove}
use data_collector.Assembly.Work.{Work, Event, reassembly_complete}
use data_collector.Assembly.Work.Ready.{
  Ready, Ending, waiting, finished, Outcome, Delivery, silent, once,
}
use data_collector.Assembly.Steady.Protocol.{Deliveries, none_left, one_more, Deliveries-append}

-- What one or more steps do to a locked connection, with any number of deliveries.
pub data ResultOf (w : Work) (s : ℕ) (rest : List ℕ) (w' : Work) : Type 0 where
  still_waiting :
      (ids : List ℕ) (calls : List Event)
      → Ready w' s ids rest
      → w'.pool ≡ w.pool
      → Deliveries s calls
      → w'.events ≡ w.events ++ calls
      → ResultOf w s rest w'
  now_closed :
      (calls : List Event)
      → Accounts w'.pc rest
      → w'.conn.closed ≡ true
      → w'.pool ≡ remove w.id w'.conn w.pool
      → Deliveries s calls
      → w'.events ≡ w.events ++ (calls ++ reassembly_complete s ∷ [])
      → ResultOf w s rest w'

pub record Steps (w : Work) (s : ℕ) (rest : List ℕ) (w' : Work) : Type 0 where
  pub result : ResultOf w s rest w'
  pub kept : All (λ q. w'.pc.pages q ≡ w.pc.pages q) rest
  pub same_key : w'.conn.key ≡ w.conn.key
  pub same_id : w'.id ≡ w.id

Delivery-Deliveries : (s : ℕ) {calls : List Event} → Delivery s calls → Deliveries s calls
Delivery-Deliveries s silent = none_left
Delivery-Deliveries s (once rs ne) = one_more rs [] ne none_left

pub Outcome-Steps :
    (w : Work) (s : ℕ) (rest : List ℕ) (w' : Work) → Outcome w s rest w' → Steps w s rest w'
Outcome-Steps w s rest w' o = record {
  result = from o.ending;
  kept = o.kept;
  same_key = o.same_key;
  same_id = o.same_id;
}
  where
    from : Ending w s rest w' → ResultOf w s rest w'
    from (waiting ids calls r p d e) = still_waiting ids calls r p (Delivery-Deliveries s d) e
    from (finished calls a c p d e) = now_closed calls a c p (Delivery-Deliveries s d) e

-- One after the other.
pub Steps-then :
    (w w1 w2 : Work) (s : ℕ) (rest : List ℕ) (calls : List Event)
    → w1.pool ≡ w.pool
    → Deliveries s calls
    → w1.events ≡ w.events ++ calls
    → All (λ q. w1.pc.pages q ≡ w.pc.pages q) rest
    → w1.conn.key ≡ w.conn.key
    → w1.id ≡ w.id
    → Steps w1 s rest w2
    → Steps w s rest w2
Steps-then w w1 w2 s rest calls p d e kept k i t = record {
  result = from t.result;
  kept = All-map₂ _ _ _ rest (λ q new old. new ∙ old) t.kept kept;
  same_key = t.same_key ∙ k;
  same_id = t.same_id ∙ i;
}
  where
    longer :
        (more : List Event) {x : List Event}
        → x ≡ w1.events ++ more
        → x ≡ w.events ++ (calls ++ more)
    longer more f = f ∙ ap (λ (z : List Event). z ++ more) e ∙ append_assoc w.events calls more

    from : ResultOf w1 s rest w2 → ResultOf w s rest w2
    from (still_waiting ids more r q m f) =
        still_waiting ids (calls ++ more) r (q ∙ p) (Deliveries-append s d m) (longer more f)
    from (now_closed more a c q m f) =
        now_closed (calls ++ more) a c
          (q
            ∙ ap (λ (z : ℕ). remove z w2.conn w1.pool) i
            ∙ ap (λ (z : StreamPool). remove w.id w2.conn z) p)
          (Deliveries-append s d m)
          (longer (more ++ reassembly_complete s ∷ []) f
            ∙ ap (λ z. w.events ++ z) (sym (append_assoc calls more (reassembly_complete s ∷ []))))
