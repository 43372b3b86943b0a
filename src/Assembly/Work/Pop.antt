-- ===== src/Assembly/Work/Pop.antt =====
-- `addNextFromConn` of capturer/extendedassembly.go: the first page leaves the list and goes into the
-- return array.
use data_collector.Base.{
  ℕ, ◌-◌, ◌≡◌, refl, ◌≢◌, List, [], ◌∷◌, ◌++◌, none, some, arith, All, All-map, All-map₂, All-right,
  All-left, Apart-sym, Distinct-left, Distinct-Apart, Distinct, NotIn, ◌∙◌, ap, ℤ, ok, update,
}
use data_collector.Assembly.Page.{Page, Reassembly, set_reassembly, set_prev}
use data_collector.Assembly.Sequence.{byte_span}
use data_collector.Assembly.PageCache.{replace}
use data_collector.Assembly.PageCache.Accounts.{Accounts-pages, replace-Accounts}
use data_collector.Assembly.Connection.{Connection}
use data_collector.Assembly.Connection.Links.{
  Chain-set_reassembly, update_others, ne_last, last_exists, relink_prev,
}
use data_collector.Assembly.Connection.Insert.{Holds}
use data_collector.Assembly.Work.{Work, advance, skip_of, add_next_from_conn}
use data_collector.Assembly.Work.Inv.{WorkInv, SameConnection, Leaves}

-- The connection `c'` and the store `h'`, once the first page is gone.
pub record Advanced (c : Connection) (h : ℕ → Page) (ps : List ℕ) (c' : Connection) (h' : ℕ → Page)
    : Type 0 where
  pub list : Holds c' h' ps
  pub same : SameConnection c c'
  pub same_pages : c'.pages ≡ c.pages
  pub same_seq : c'.next_seq ≡ c.next_seq
  pub contents : (q : ℕ) → (h' q).reassembly ≡ (h q).reassembly
  pub seqs : (q : ℕ) → (h' q).seq ≡ (h q).seq
  pub others : (q : ℕ) → NotIn q ps → h' q ≡ h q

advance_last :
    (p : ℕ) (c : Connection) (h : ℕ → Page)
    → c.last ≡ some p
    → advance p c h ≡ ok (record c { first = none; last = none }, h)
unfolding advance
advance_last p c h e = ground (arith, e)

advance_more :
    (p q l : ℕ) (c : Connection) (h : ℕ → Page)
    → c.last ≡ some l
    → p ≢ l
    → (h p).next ≡ some q
    → advance p c h ≡ ok (record c { first = some q }, set_prev h q none)
unfolding advance
advance_more p q l c h e ne n = ground (arith, e, n)

set_prev-others : (h : ℕ → Page) (q x : ℕ) → x ≢ q → set_prev h q none x ≡ h x
unfolding set_prev update
set_prev-others h q x ne = ground arith

set_prev-contents : (h : ℕ → Page) (q x : ℕ) → (set_prev h q none x).reassembly ≡ (h x).reassembly
unfolding set_prev update
set_prev-contents h q x = ground arith

set_prev-seqs : (h : ℕ → Page) (q x : ℕ) → (set_prev h q none x).seq ≡ (h x).seq
unfolding set_prev update
set_prev-seqs h q x = ground arith

pub advance-Advanced :
    (p : ℕ) (ps : List ℕ) (c : Connection) (h : ℕ → Page)
    → Holds c h (p ∷ ps)
    → Distinct (p ∷ ps)
    → (c' : Connection) × (h' : ℕ → Page) × (advance p c h ≡ ok (c', h')) × Advanced c h ps c' h'
advance-Advanced p [] c h v d = (
  record c { first = none; last = none },
  h,
  advance_last p c h v.last_is,
  record {
    list = record { first_is = refl; last_is = refl; linked = tt };
    same = record { key = refl; created = refl; stream = refl; closed = refl };
    same_pages = refl;
    same_seq = refl;
    contents = λ q. refl;
    seqs = λ q. refl;
    others = λ q far. refl;
  },
)
advance-Advanced p (q ∷ qs) c h v d =
    let (l, is_last) = last_exists q qs in
    (
      record c { first = some q },
      set_prev h q none,
      advance_more p q l c h (v.last_is ∙ is_last) (ne_last p l q qs is_last d.0) v.linked.1,
      record {
        list = record {
          first_is = refl;
          last_is = v.last_is;
          linked = relink_prev h none (some p) q qs none d.1.0 v.linked.2;
        };
        same = record { key = refl; created = refl; stream = refl; closed = refl };
        same_pages = refl;
        same_seq = refl;
        contents = set_prev-contents h q;
        seqs = set_prev-seqs h q;
        others = λ x far. set_prev-others h q x far.0;
      },
    )

-- The reassembly that the page becomes, and the sequence number that is then expected.
abbrev pub popped : ℤ → Page → Reassembly
popped next_seq page = record page.reassembly {
  skip = skip_of next_seq page;
  bytes = (byte_span next_seq page.seq page.bytes).0;
}

pub record Popped (w : Work) (p : ℕ) (ps rest : List ℕ) (w' : Work) : Type 0 where
  pub inv : WorkInv w' ps rest
  pub leaves : Leaves w w' rest
  pub ret_is : w'.ret ≡ w.ret ++ popped w.conn.next_seq (w.pc.pages p) ∷ []
  pub seq_is :
      w'.conn.next_seq ≡ (byte_span w.conn.next_seq (w.pc.pages p).seq (w.pc.pages p).bytes).1
  pub contents : All (λ q. (w'.pc.pages q).reassembly ≡ (w.pc.pages q).reassembly) ps
  pub seqs : All (λ q. (w'.pc.pages q).seq ≡ (w.pc.pages q).seq) ps

-- The store and the connection just before the list moves on, and the assembler just after.
abbrev marked : Work → ℕ → ℕ → Page
marked w p = set_reassembly w.pc.pages p (popped w.conn.next_seq (w.pc.pages p))

abbrev expecting : Work → ℕ → Connection
expecting w p = record w.conn {
  next_seq = (byte_span w.conn.next_seq (w.pc.pages p).seq (w.pc.pages p).bytes).1;
}

abbrev moved_on : Work → ℕ → Connection → (ℕ → Page) → Work
moved_on w p c' h' = record w {
  ret = w.ret ++ popped w.conn.next_seq (w.pc.pages p) ∷ [];
  pc = record (replace p (record w.pc { pages = marked w p })) { pages = h' };
  conn = record c' { pages = c'.pages - 1 };
}

add_next_run :
    (w : Work) (p : ℕ) (c' : Connection) (h' : ℕ → Page)
    → w.conn.first ≡ some p
    → advance p (expecting w p) (marked w p) ≡ ok (c', h')
    → add_next_from_conn w ≡ ok (moved_on w p c' h')
unfolding add_next_from_conn
add_next_run w p c' h' e run = ground (arith, e, run)

module _ (w : Work) (p : ℕ) (ps rest : List ℕ) (v : WorkInv w (p ∷ ps) rest) (c' : Connection)
    (h' : ℕ → Page) (a : Advanced (expecting w p) (marked w p) ps c' h') where
  marked_others : (xs : List ℕ) → NotIn p xs → All (λ q. marked w p q ≡ w.pc.pages q) xs
  unfolding set_reassembly
  marked_others xs = update_others w.pc.pages p _ xs

  kept_rest : All (λ q. h' q ≡ w.pc.pages q) rest
  kept_rest =
      All-map₂ _ _ _ rest (λ q far same. a.others q far ∙ same)
        (Apart-sym ps rest (Distinct-Apart ps rest v.accounts.distinct_own.1))
        (marked_others rest (All-right _ ps rest v.accounts.distinct_own.0))

  moved_on-Popped : Popped w p ps rest (moved_on w p c' h')
  unfolding replace
  moved_on-Popped = record {
    inv = record {
      accounts =
          Accounts-pages h'
            (replace-Accounts p (ps ++ rest) (Accounts-pages (marked w p) v.accounts));
      list = record {
        first_is = a.list.first_is;
        last_is = a.list.last_is;
        linked = a.list.linked;
      };
      counted = omega (arith, a.same_pages, v.counted);
    };
    leaves = record {
      options = refl;
      pool = refl;
      events = refl;
      id = refl;
      same = record {
        key = a.same.key;
        created = a.same.created;
        stream = a.same.stream;
        closed = a.same.closed;
      };
      kept = kept_rest;
    };
    ret_is = refl;
    seq_is = a.same_seq;
    contents =
        All-map _ _ ps (λ q same. a.contents q ∙ ap (λ (x : Page). x.reassembly) same)
          (marked_others ps (All-left _ ps rest v.accounts.distinct_own.0));
    seqs =
        All-map _ _ ps (λ q same. a.seqs q ∙ ap (λ (x : Page). x.seq) same)
          (marked_others ps (All-left _ ps rest v.accounts.distinct_own.0));
  }

-- With the list in order and the books kept, the first page comes off the list and is given back to the
-- cache; its bytes, cut by `byteSpan`, are the one reassembly appended to the return array; the other
-- pages keep their contents, and those of other connections do not change at all.
pub add_next_from_conn-Popped :
    (w : Work) (p : ℕ) (ps rest : List ℕ)
    → WorkInv w (p ∷ ps) rest
    → (w' : Work) × (add_next_from_conn w ≡ ok w') × Popped w p ps rest w'
add_next_from_conn-Popped w p ps rest v =
    let (c', h', run, a) =
      advance-Advanced p ps (expecting w p) (marked w p)
        (record {
          first_is = v.list.first_is;
          last_is = v.list.last_is;
          linked =
              Chain-set_reassembly w.pc.pages p (popped w.conn.next_seq (w.pc.pages p)) none
                (p ∷ ps) none v.list.linked;
        })
        (Distinct-left (p ∷ ps) rest v.accounts.distinct_own) in
    (
      moved_on w p c' h',
      add_next_run w p c' h' v.list.first_is run,
      moved_on-Popped w p ps rest v c' h' a,
    )
