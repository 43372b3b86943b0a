-- ===== src/Assembly/Work/Insertion.antt =====
-- `insertIntoConn` of capturer/extendedassembly.go: a packet's pages join the list at their place.
use data_collector.Base.{
  ℕ, some, true, false, ltb_ℤ, ◌+◌, ◌≡◌, refl, List, [], ◌∷◌, ◌++◌, Option, none, arith, length,
  length-append, append_assoc, append-nil, sym, ◌∙◌, ap, subst, ok, All, All-map, All-map₂,
  All-left, All-right, Distinct, Distinct-left, Distinct-Apart, Distinct-right, Apart, Apart-sym,
  Apart-left, Apart-right, NotIn, pos,
}
use data_collector.Assembly.Sequence.{difference}
use data_collector.Assembly.Page.{Page, Reassembly}
use data_collector.Assembly.PageCache.{PageCache}
use data_collector.Assembly.PageCache.Accounts.{Accounts, Accounts-block, Accounts-pages}
use data_collector.Assembly.Segment.{Tcp, pages_from_tcp}
use data_collector.Assembly.Segment.Pages.{PagesOf, flat-same, Laid-same, pages_from_tcp-PagesOf}
use data_collector.Assembly.Segment.Filled.{flat, Laid}
use data_collector.Assembly.Connection.{Connection, traverse_conn, push_between}
use data_collector.Assembly.Connection.Links.{
  first_of, last_of, Chain-frame, ne_last, first_of-ne, last_of-ne,
}
use data_collector.Assembly.Connection.Insert.{Holds, push_between-Holds}
use data_collector.Assembly.Connection.Untouched.{
  push_between-others, push_between-seqs, push_between-contents, push_between-EndsOnly,
}
use data_collector.Assembly.Connection.Traverse.{Found, lies_behind, traverse_conn-Found}
use data_collector.Assembly.Work.{Work, insert_pages}
use data_collector.Assembly.Work.Inv.{WorkInv, Leaves}

-- The packet's pages `first ∷ more` stand between the two parts of the list.
pub record Inserted (t : Tcp) (w : Work) (ids rest : List ℕ) (w' : Work) : Type 0 where
  pub before : List ℕ
  pub first : ℕ
  pub more : List ℕ
  pub passed : List ℕ
  pub parts : ids ≡ before ++ passed
  pub inv : WorkInv w' (before ++ ((first ∷ more) ++ passed)) rest
  pub leaves : Leaves w w' rest
  pub same_ret : w'.ret ≡ w.ret
  pub same_next : w'.conn.next_seq ≡ w.conn.next_seq
  pub first_seq : (w'.pc.pages first).seq ≡ pos t.seq
  pub old_seqs : All (λ q. (w'.pc.pages q).seq ≡ (w.pc.pages q).seq) ids
  pub old_contents : All (λ q. (w'.pc.pages q).reassembly ≡ (w.pc.pages q).reassembly) ids
  pub new_laid : Laid w'.pc.pages (pos t.seq) (first ∷ more)
  pub new_holds : flat w'.pc.pages (first ∷ more) ≡ t.payload
  pub all_behind :
      All (λ q. ltb_ℤ (difference (w'.pc.pages q).seq (pos t.seq)) (pos 0) ≡ true) passed
  pub stops :
      (q : ℕ)
      → last_of none before ≡ some q
      → ltb_ℤ (difference (w'.pc.pages q).seq (pos t.seq)) (pos 0) ≡ false

insert_run :
    (t : Tcp) (ts : ℕ) (w : Work) (p p2 num : ℕ) (c : PageCache) (prev current : Option ℕ)
    → pages_from_tcp t ts w.pc ≡ ok (p, p2, num, c)
    → traverse_conn w.conn c.pages (pos t.seq) ≡ ok (prev, current)
    → let r = push_between w.conn c.pages prev current p p2 in
      insert_pages t ts w
      ≡ ok (record w {
        pc = record c { pages = r.1 };
        conn = record r.0 { pages = r.0.pages + num };
      })
unfolding insert_pages
insert_run t ts w p p2 num c prev current e f = ground (arith, e, f)

regroup :
    (new before passed rest : List ℕ) {c : PageCache}
    → Accounts c (new ++ ((before ++ passed) ++ rest))
    → Accounts c ((before ++ (new ++ passed)) ++ rest)
regroup new before passed rest {c} v =
    subst (Accounts c)
      (sym (
        append_assoc before (new ++ passed) rest
        ∙ ap (λ xs. before ++ xs) (append_assoc new passed rest)))
      (Accounts-block new before (passed ++ rest)
        (subst (λ xs. Accounts c (new ++ xs)) (append_assoc before passed rest) v))

module _ (t : Tcp) (w : Work) (before passed rest : List ℕ) (v : WorkInv w (before ++ passed) rest)
    (c : PageCache) (first : ℕ) (more : List ℕ) (last : ℕ)
    (p : PagesOf t w.pc ((before ++ passed) ++ rest) first more last c)
    (behind : All (λ q. lies_behind c.pages (pos t.seq) q ≡ true) passed)
    (not_behind : (q : ℕ)
      → last_of none before ≡ some q
      → lies_behind c.pages (pos t.seq) q ≡ false) where
  abbrev new : List ℕ
  new = first ∷ more

  abbrev olds : List ℕ
  olds = before ++ passed

  abbrev pushed : Connection × (ℕ → Page)
  pushed = push_between w.conn c.pages (last_of none before) (first_of passed none) first last

  abbrev after : Work
  after = record w {
    pc = record c { pages = pushed.1 };
    conn = record pushed.0 { pages = pushed.0.pages + length new };
  }

  old-Distinct : Distinct (olds ++ rest)
  old-Distinct = Distinct-right new (olds ++ rest) p.accounts.distinct_own

  new_far : Apart new (olds ++ rest)
  new_far = Distinct-Apart new (olds ++ rest) p.accounts.distinct_own

  old_list : Holds w.conn c.pages olds
  old_list = record {
    first_is = v.list.first_is;
    last_is = v.list.last_is;
    linked =
        Chain-frame w.pc.pages c.pages none olds none (All-left _ olds rest p.kept) v.list.linked;
  }

  new_list : Holds pushed.0 pushed.1 (before ++ (new ++ passed))
  new_list =
      push_between-Holds w.conn c.pages before passed first last more old_list p.linked p.is_last
        (Distinct-left new (olds ++ rest) p.accounts.distinct_own)
        (Distinct-left olds rest old-Distinct) (Apart-left new olds rest new_far)

  rest_kept : All (λ q. pushed.1 q ≡ w.pc.pages q) rest
  rest_kept =
      All-map₂ _ (λ q. NotIn q new × NotIn q olds) _ rest
        (λ q old far.
          push_between-others w.conn c.pages (last_of none before) (first_of passed none) first last
            q (λ e. far.0.0 (sym e)) (λ e. ne_last q last first more p.is_last far.0 (sym e))
            (first_of-ne q passed (All-right _ before passed far.1))
            (last_of-ne q before (All-left _ before passed far.1))
          ∙ old)
        (All-right _ olds rest p.kept)
        (All-map₂ _ _ (λ q. NotIn q new × NotIn q olds) rest (λ q a b. (a, b))
          (Apart-sym new rest (Apart-right new olds rest new_far))
          (Apart-sym olds rest (Distinct-Apart olds rest old-Distinct)))

  seqs_kept : All (λ q. (pushed.1 q).seq ≡ (w.pc.pages q).seq) olds
  seqs_kept =
      All-map _ _ olds
        (λ q old.
          push_between-seqs w.conn c.pages (last_of none before) (first_of passed none) first last q
          ∙ ap (λ (x : Page). x.seq) old)
        (All-left _ olds rest p.kept)

  same_contents : (q : ℕ) → (pushed.1 q).reassembly ≡ (c.pages q).reassembly
  same_contents q =
      push_between-contents w.conn c.pages (last_of none before) (first_of passed none) first last q

  same_bytes : (q : ℕ) → (pushed.1 q).bytes ≡ (c.pages q).bytes
  same_bytes q = ap (λ (r : Reassembly). r.bytes) (same_contents q)

  contents_kept : All (λ q. (pushed.1 q).reassembly ≡ (w.pc.pages q).reassembly) olds
  contents_kept =
      All-map _ _ olds (λ q old. same_contents q ∙ ap (λ (x : Page). x.reassembly) old)
        (All-left _ olds rest p.kept)

  still_behind :
      (q : ℕ)
      → ltb_ℤ (difference (pushed.1 q).seq (pos t.seq)) (pos 0) ≡ lies_behind c.pages (pos t.seq) q
  still_behind q =
      ap (λ z. ltb_ℤ (difference z (pos t.seq)) (pos 0))
        (push_between-seqs w.conn c.pages (last_of none before) (first_of passed none) first last q)

  after-Inserted : Inserted t w olds rest after
  after-Inserted =
      let ends =
        push_between-EndsOnly w.conn c.pages (last_of none before) (first_of passed none) first
          last in
      record {
        before = before;
        first = first;
        more = more;
        passed = passed;
        parts = refl;
        inv = record {
          accounts = Accounts-pages pushed.1 (regroup new before passed rest p.accounts);
          list = record {
            first_is = new_list.first_is;
            last_is = new_list.last_is;
            linked = new_list.linked;
          };
          counted = omega (
            arith,
            ends.pages,
            v.counted,
            length-append before passed,
            length-append before (new ++ passed),
            length-append more passed,
          );
        };
        leaves = record {
          options = refl;
          pool = refl;
          events = refl;
          id = refl;
          same = record {
            key = ends.key;
            created = ends.created;
            stream = ends.stream;
            closed = ends.closed;
          };
          kept = rest_kept;
        };
        same_ret = refl;
        same_next = ends.next_seq;
        first_seq =
            push_between-seqs w.conn c.pages (last_of none before) (first_of passed none) first last
              first
            ∙ p.laid.0;
        old_seqs = seqs_kept;
        old_contents = contents_kept;
        new_laid =
            Laid-same c.pages pushed.1 (pos t.seq) new same_bytes
              (push_between-seqs w.conn c.pages (last_of none before) (first_of passed none) first
                last)
              p.laid;
        new_holds = flat-same c.pages pushed.1 new same_bytes ∙ p.holds;
        all_behind = All-map _ _ passed (λ q h. still_behind q ∙ h) behind;
        stops = λ q e. still_behind q ∙ not_behind q e;
      }

place :
    (t : Tcp) (ts : ℕ) (w : Work) (ids rest : List ℕ)
    → WorkInv w ids rest
    → (first : ℕ) (more : List ℕ) (last : ℕ) (c : PageCache)
    → pages_from_tcp t ts w.pc ≡ ok (first, last, length (first ∷ more), c)
    → PagesOf t w.pc (ids ++ rest) first more last c
    → (before passed : List ℕ) → ids ≡ before ++ passed
    → traverse_conn w.conn c.pages (pos t.seq) ≡ ok (last_of none before, first_of passed none)
    → All (λ q. lies_behind c.pages (pos t.seq) q ≡ true) passed
    → ((q : ℕ) → last_of none before ≡ some q → lies_behind c.pages (pos t.seq) q ≡ false)
    → (w' : Work) × (insert_pages t ts w ≡ ok w') × Inserted t w ids rest w'
place t ts w ids rest v first more last c run p before passed e found behind not_behind =
    let v' = subst (λ xs. WorkInv w xs rest) e v in
    let p' = subst (λ xs. PagesOf t w.pc (xs ++ rest) first more last c) e p in
    (
      after t w before passed rest v' c first more last p' behind not_behind,
      insert_run t ts w first last (length (first ∷ more)) c (last_of none before)
          (first_of passed none) run found,
      subst
          (λ xs.
            Inserted t w xs rest
              (after t w before passed rest v' c first more last p' behind not_behind))
          (sym e) (after-Inserted t w before passed rest v' c first more last p' behind not_behind),
    )

-- With the list in order and the books kept, a packet's pages are put into the list without a fault: the
-- old list is kept around them. By `Difference`, each page behind them has a later sequence number than
-- the packet, and the page before them, if there is one, has not. The count and the books are right,
-- nothing is delivered, and the pages of other connections are as they were.
pub insert_pages-Inserted :
    (t : Tcp) (ts : ℕ) (w : Work) (ids rest : List ℕ)
    → WorkInv w ids rest
    → (w' : Work) × (insert_pages t ts w ≡ ok w') × Inserted t w ids rest w'
insert_pages-Inserted t ts w ids rest v =
    let (first, more, last, c, run, p) =
      pages_from_tcp-PagesOf t ts (ids ++ rest) w.pc v.accounts in
    let found : Found c.pages (pos t.seq) ids [] (traverse_conn w.conn c.pages (pos t.seq)) =
      traverse_conn-Found w.conn c.pages (pos t.seq) ids
        (record {
          first_is = v.list.first_is;
          last_is = v.list.last_is;
          linked =
              Chain-frame w.pc.pages c.pages none ids none (All-left _ ids rest p.kept)
                v.list.linked;
        })
        v.counted in
    place t ts w ids rest v first more last c run p found.before found.passed found.parts
      (found.result
        ∙ ap (λ xs. ok (last_of none found.before, first_of xs none)) (append-nil found.passed))
      found.all_behind found.stops
