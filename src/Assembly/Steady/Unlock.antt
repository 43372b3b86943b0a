-- ===== src/Assembly/Steady/Unlock.antt =====
-- The assembler of capturer/extendedassembly.go when it unlocks a connection.
use data_collector.Base.{
  ℕ, ◌<◌, ◌≡◌, ◌≢◌, refl, sym, ap, ◌∙◌, subst, inl, inr, List, [], ◌∷◌, ◌++◌, All, All-append,
  All-left, All-right, All-block, Distinct, Distinct-block, update, update_self, update_ne,
}
use data_collector.Assembly.PageCache.Accounts.{Accounts}
use data_collector.Assembly.Connection.{Connection}
use data_collector.Assembly.Pool.{StreamPool, remove, delete}
use data_collector.Assembly.Work.{Work, Event, reassembly_complete}
use data_collector.Assembly.Work.Ready.{Ready}
use data_collector.Assembly.Assembler.{Assembler, lock, unlock}
use data_collector.Assembly.Steady.Slots.{
  Slot, entries, numbers, numbers-append, streams_of, streams_of-append, pages_of, pages_of-append,
  KeysApart-before, KeysApart-without, KeysApart-replaced, entries_same_key, delete-entries,
}
use data_collector.Assembly.Steady.Protocol.{Lawful, Deliveries, Lawful-Deliveries, Lawful-complete}
use data_collector.Assembly.Steady.Invariant.{Waits, Steady, rest_of, Accounts-back, Ready-Waits}
use data_collector.Assembly.Steady.Change.{ResultOf, still_waiting, now_closed, Steps}
use data_collector.Assembly.Steady.Moved.{Waits-others, to_free, number_apart, Lawful-as, Changed}

module _ (xs : List Slot) (s : Slot) (ys : List Slot) (a : Assembler) (v : Steady a (xs ++ s ∷ ys))
    (w : Work) (kept : All (λ q. w.pc.pages q ≡ a.pc.pages q) (rest_of xs ys))
    (same_id : w.id ≡ s.id) (same_key : w.conn.key ≡ (a.pool.all s.id).key) where
  here : Waits s (a.pool.all s.id) a.pc.pages
  here = (All-right _ xs (s ∷ ys) v.each).0

  key_is : w.conn.key ≡ s.key
  key_is = same_key ∙ here.key_is

  open_now : Lawful a.events (streams_of xs ++ s.stream ∷ streams_of ys) a.pool.streams
  open_now = subst (λ z. Lawful a.events z a.pool.streams) (streams_of-append xs (s ∷ ys)) v.calls

  -- The store after the unlock, away from this connection.
  elsewhere :
      (all : ℕ → Connection)
      → all ≡ a.pool.all
      → (c : ℕ) → s.id ≢ c
      → update all w.id w.conn c ≡ a.pool.all c
  elsewhere all e c ne =
      ap (λ i. update all i w.conn c) same_id ∙ update_ne all s.id c w.conn ne ∙ ap (λ f. f c) e

  others_before :
      (all : ℕ → Connection)
      → all ≡ a.pool.all
      → All (λ x. Waits x (update all w.id w.conn x.id) w.pc.pages) xs
  others_before all e =
      Waits-others xs s.id a.pool.all (update all w.id w.conn) a.pc.pages w.pc.pages
        (elsewhere all e) (number_apart xs s ys a.pool.free v.apart).0
        (All-left _ (pages_of xs) (pages_of ys) kept) (All-left _ xs (s ∷ ys) v.each)

  others_behind :
      (all : ℕ → Connection)
      → all ≡ a.pool.all
      → All (λ x. Waits x (update all w.id w.conn x.id) w.pc.pages) ys
  others_behind all e =
      Waits-others ys s.id a.pool.all (update all w.id w.conn) a.pc.pages w.pc.pages
        (elsewhere all e) (number_apart xs s ys a.pool.free v.apart).1
        (All-right _ (pages_of xs) (pages_of ys) kept) (All-right _ xs (s ∷ ys) v.each).1

  unlock-waiting :
      (ids : List ℕ) (calls : List Event)
      → Ready w s.stream ids (rest_of xs ys)
      → w.pool ≡ a.pool
      → Deliveries s.stream calls
      → w.events ≡ a.events ++ calls
      → Steady (unlock w) (xs ++ record s { ids = ids } ∷ ys)
  unfolding unlock
  unlock-waiting ids calls r p d e =
      let t = record s { ids = ids } in
      let same_numbers : numbers (xs ++ s ∷ ys) ≡ numbers (xs ++ t ∷ ys) =
        numbers-append xs (s ∷ ys) ∙ sym (numbers-append xs (t ∷ ys)) in
      record {
        conns_are =
            ap (λ (q : StreamPool). q.conns) p ∙ v.conns_are ∙ entries_same_key xs s t ys refl refl;
        keys = KeysApart-replaced xs s t ys refl v.keys;
        accounts = Accounts-back xs t ys r.inv.accounts;
        each =
            All-append _ xs (t ∷ ys) (others_before w.pool.all (ap (λ (q : StreamPool). q.all) p)) (
              subst (λ c. Waits t c w.pc.pages)
                  (sym (
                    ap (λ i. update w.pool.all i w.conn s.id) same_id
                    ∙ update_self w.pool.all s.id w.conn))
                  (Ready-Waits t (rest_of xs ys) w key_is r),
              others_behind w.pool.all (ap (λ (q : StreamPool). q.all) p),
            );
        apart =
            subst (λ (q : StreamPool). Distinct (numbers (xs ++ t ∷ ys) ++ q.free)) (sym p)
              (subst (λ z. Distinct (z ++ a.pool.free)) same_numbers v.apart);
        below =
            subst (λ (q : StreamPool). All (λ c. c < q.made) (numbers (xs ++ t ∷ ys) ++ q.free))
              (sym p)
              (subst (λ z. All (λ c. c < a.pool.made) (z ++ a.pool.free)) same_numbers v.below);
        room = subst (λ (q : StreamPool). 0 < q.next_alloc) (sym p) v.room;
        calls =
            Lawful-as
              (Lawful-Deliveries (streams_of xs) s.stream (streams_of ys) a.pool.streams a.events d
                open_now)
              (sym e) (sym (streams_of-append xs (t ∷ ys)))
              (ap (λ (q : StreamPool). q.streams) (sym p));
      }

  -- The pool without the connection.
  removed-conns : w.pool ≡ remove w.id w.conn a.pool → w.pool.conns ≡ entries (xs ++ ys)
  unfolding remove
  removed-conns p =
      ap (λ (q : StreamPool). q.conns) p
      ∙ ap (λ k. delete k a.pool.conns) key_is
      ∙ ap (delete s.key) v.conns_are
      ∙ delete-entries xs s ys (KeysApart-before xs s ys v.keys)

  removed-all : w.pool ≡ remove w.id w.conn a.pool → w.pool.all ≡ a.pool.all
  unfolding remove
  removed-all p = ap (λ (q : StreamPool). q.all) p

  removed-free : w.pool ≡ remove w.id w.conn a.pool → w.pool.free ≡ s.id ∷ a.pool.free
  unfolding remove
  removed-free p = ap (λ (q : StreamPool). q.free) p ∙ ap (λ i. i ∷ a.pool.free) same_id

  removed-counts :
      w.pool ≡ remove w.id w.conn a.pool
      → (w.pool.made ≡ a.pool.made)
        × (w.pool.next_alloc ≡ a.pool.next_alloc)
        × (w.pool.streams ≡ a.pool.streams)
  unfolding remove
  removed-counts p = (
    ap (λ (q : StreamPool). q.made) p,
    ap (λ (q : StreamPool). q.next_alloc) p,
    ap (λ (q : StreamPool). q.streams) p,
  )

  moved_free :
      (P : List ℕ → Type 0)
      → ((us vs zs : List ℕ) → P (us ++ (vs ++ zs)) → P (vs ++ (us ++ zs)))
      → P (numbers (xs ++ s ∷ ys) ++ a.pool.free)
      → P (numbers (xs ++ ys) ++ s.id ∷ a.pool.free)
  moved_free P block h =
      subst (λ z. P (z ++ s.id ∷ a.pool.free)) (sym (numbers-append xs ys))
        (to_free P block (numbers xs) s.id (numbers ys) a.pool.free
          (subst (λ z. P (z ++ a.pool.free)) (numbers-append xs (s ∷ ys)) h))

  unlock-closed :
      (calls : List Event)
      → Accounts w.pc (rest_of xs ys)
      → w.pool ≡ remove w.id w.conn a.pool
      → Deliveries s.stream calls
      → w.events ≡ a.events ++ (calls ++ reassembly_complete s.stream ∷ [])
      → Steady (unlock w) (xs ++ ys)
  unfolding unlock
  unlock-closed calls b p d e =
      let (made, alloc, made_streams) = removed-counts p in
      record {
        conns_are = removed-conns p;
        keys = KeysApart-without xs s ys v.keys;
        accounts = subst (Accounts w.pc) (sym (pages_of-append xs ys)) b;
        each =
            All-append _ xs ys (others_before w.pool.all (removed-all p))
              (others_behind w.pool.all (removed-all p));
        apart =
            subst (λ z. Distinct (numbers (xs ++ ys) ++ z)) (sym (removed-free p))
              (moved_free Distinct Distinct-block v.apart);
        below =
            subst (λ z. All (λ c. c < w.pool.made) (numbers (xs ++ ys) ++ z)) (sym (removed-free p))
              (subst (λ m. All (λ c. c < m) (numbers (xs ++ ys) ++ s.id ∷ a.pool.free)) (sym made)
                (moved_free (All (λ c. c < a.pool.made)) (All-block _) v.below));
        room = subst (λ m. 0 < m) (sym alloc) v.room;
        calls =
            Lawful-as
              (Lawful-complete (streams_of xs) s.stream (streams_of ys) a.pool.streams a.events d
                open_now)
              (sym e) (sym (streams_of-append xs ys)) (sym made_streams);
      }

-- Whatever the steps at a locked connection were, the assembler is steady once it is unlocked.
pub Steps-Changed :
    (xs : List Slot) (s : Slot) (ys : List Slot) (a : Assembler) (w : Work)
    → Steady a (xs ++ s ∷ ys)
    → Steps (lock s.id a) s.stream (rest_of xs ys) w
    → Changed xs s ys w
unfolding lock
Steps-Changed xs s ys a w v t = from t.result
  where
    from : ResultOf (lock s.id a) s.stream (rest_of xs ys) w → Changed xs s ys w
    from (still_waiting ids calls r p d e) = inl (
      ids,
      unlock-waiting xs s ys a v w t.kept t.same_id t.same_key ids calls r p d e,
      r.is_open,
      r,
    )
    from (now_closed calls b c p d e) = inr (
      unlock-closed xs s ys a v w t.kept t.same_id t.same_key calls b
          (p ∙ ap (λ i. remove i w.conn a.pool) (sym t.same_id)) d e,
      c,
    )
