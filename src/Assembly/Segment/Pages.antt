-- ===== src/Assembly/Segment/Pages.antt =====
-- `pagesFromTCP` of capturer/extendedassembly.go as a whole.
use data_collector.Base.{
  ℕ, ◌+◌, ◌≤◌, ◌≡◌, refl, List, [], ◌∷◌, ◌++◌, Option, none, some, arith, All, All-map, All-map₂,
  Distinct-Apart, NotIn, length, ◌∙◌, ap, Bool, ◌||◌, ℤ, pos, ok, update, update_self,
}
use data_collector.Assembly.Page.{Page, page_bytes}
use data_collector.Assembly.Sequence.{add}
use data_collector.Assembly.PageCache.{PageCache, next}
use data_collector.Assembly.PageCache.Accounts.{Accounts, Accounts-pages, next-Handed}
use data_collector.Assembly.Connection.Links.{last_of, Chain, Chain-set_reassembly, update_others}
use data_collector.Assembly.Connection.Insert.{last-Apart}
use data_collector.Assembly.Segment.{Tcp, fill_pages, set_end, pages_from_tcp}
use data_collector.Assembly.Segment.Filled.{flat, Laid, Filled, fill_pages-Filled}

pub flat-same :
    (h h' : ℕ → Page) (ids : List ℕ)
    → ((q : ℕ) → (h' q).bytes ≡ (h q).bytes)
    → flat h' ids ≡ flat h ids
flat-same h h' [] same = refl
flat-same h h' (p ∷ ps) same = rw (same p, flat-same h h' ps same)

pub Laid-same :
    (h h' : ℕ → Page) (s : ℤ) (ids : List ℕ)
    → ((q : ℕ) → (h' q).bytes ≡ (h q).bytes)
    → ((q : ℕ) → (h' q).seq ≡ (h q).seq)
    → Laid h s ids
    → Laid h' s ids
Laid-same h h' s [] same seqs l = tt
Laid-same h h' s (p ∷ ps) same seqs l =
    (seqs p ∙ l.0, rw (same p) (Laid-same h h' (add s (pos (length (h p).bytes))) ps same seqs l.1))

-- The pages of a packet. The pages `own`, which were out before, are as they were.
pub record PagesOf (t : Tcp) (c : PageCache) (own : List ℕ) (first : ℕ) (more : List ℕ) (last : ℕ)
    (c' : PageCache) : Type 0 where
  pub accounts : Accounts c' ((first ∷ more) ++ own)
  pub linked : Chain c'.pages none (first ∷ more) none
  pub is_last : last_of none (first ∷ more) ≡ some last
  pub laid : Laid c'.pages (pos t.seq) (first ∷ more)
  pub holds : flat c'.pages (first ∷ more) ≡ t.payload
  pub small : All (λ q. length (c'.pages q).bytes ≤ page_bytes) (first ∷ more)
  pub ends : (c'.pages last).end ≡ (t.rst || t.fin)
  pub kept : All (λ q. c'.pages q ≡ c.pages q) own
  pub grows : c.size ≤ c'.size

module _ (h : ℕ → Page) (p : ℕ) (e : Bool) where
  set_end-bytes : (q : ℕ) → (set_end h p e q).bytes ≡ (h q).bytes
  unfolding set_end update
  set_end-bytes q = ground arith

  set_end-seq : (q : ℕ) → (set_end h p e q).seq ≡ (h q).seq
  unfolding set_end update
  set_end-seq q = ground arith

  set_end-end : (set_end h p e p).end ≡ e
  unfolding set_end
  set_end-end =
      rw (update_self h p (record (h p) { reassembly = record (h p).reassembly { end = e } }))

  set_end-Chain :
      (b : Option ℕ) (ids : List ℕ) (a : Option ℕ) → Chain h b ids a → Chain (set_end h p e) b ids a
  unfolding set_end
  set_end-Chain b ids a = Chain-set_reassembly h p (record (h p).reassembly { end = e }) b ids a

  set_end-others : (ids : List ℕ) → NotIn p ids → All (λ q. set_end h p e q ≡ h q) ids
  unfolding set_end
  set_end-others ids = update_others h p _ ids

finish :
    (t : Tcp) (c c1 : PageCache) (own : List ℕ) (first : ℕ) (more : List ℕ) (last : ℕ)
    (c' : PageCache)
    → All (λ q. c1.pages q ≡ c.pages q) own
    → c.size ≤ c1.size
    → Filled c1 own none first (pos t.seq) t.payload more last c'
    → PagesOf t c own first more last (record c' { pages = set_end c'.pages last (t.rst || t.fin) })
finish t c c1 own first more last c' same size f =
    let h = c'.pages in
    let e = t.rst || t.fin in
    let h' = set_end h last e in
    let far =
      last-Apart first more own last f.is_last
        (Distinct-Apart (first ∷ more) own f.accounts.distinct_own) in
    record {
      accounts = Accounts-pages h' f.accounts;
      linked = set_end-Chain h last e none (first ∷ more) none f.linked;
      is_last = f.is_last;
      laid =
          Laid-same h h' (pos t.seq) (first ∷ more) (set_end-bytes h last e) (set_end-seq h last e)
            f.laid;
      holds = flat-same h h' (first ∷ more) (set_end-bytes h last e) ∙ f.holds;
      small = All-map _ _ (first ∷ more) (λ q le. rw (set_end-bytes h last e q) le) f.small;
      ends = set_end-end h last e;
      kept =
          All-map₂ _ _ _ own (λ q end filled. end ∙ filled) (set_end-others h last e own far)
            (All-map₂ _ _ _ own (λ q new old. new ∙ old) f.kept same);
      grows = omega (arith, size, f.grows);
    }

pages_from_tcp_run :
    (t : Tcp) (ts : ℕ) (c c1 c' : PageCache) (first last num : ℕ)
    → next ts c ≡ ok (first, c1)
    → fill_pages (length t.payload + 1) ts (pos t.seq) t.payload first 1 c1 ≡ ok (last, num, c')
    → pages_from_tcp t ts c
      ≡ ok (first, last, num, record c' { pages = set_end c'.pages last (t.rst || t.fin) })
unfolding pages_from_tcp
pages_from_tcp_run t ts c c1 c' first last num e f = ground (arith, e, f)

-- A packet's pages are new ones, linked in order; they hold its payload, at its sequence numbers, at
-- most 1900 bytes each; the last is marked by FIN or RST.
pub pages_from_tcp-PagesOf :
    (t : Tcp) (ts : ℕ) (own : List ℕ) (c : PageCache)
    → Accounts c own
    → (first : ℕ) × (more : List ℕ) × (last : ℕ) × (c' : PageCache) × (pages_from_tcp t ts c
        ≡ ok (first, last, length (first ∷ more), c'))
      × PagesOf t c own first more last c'
pages_from_tcp-PagesOf t ts own c v =
    let (first, c1, run, given) = next-Handed ts v in
    let (more, last, c', filled, f) =
      fill_pages-Filled (length t.payload + 1) ts own none first (pos t.seq) t.payload 1 c1
        (omega arith) given.accounts (given.no_prev, given.no_next, tt) in
    (
      first,
      more,
      last,
      record c' { pages = set_end c'.pages last (t.rst || t.fin) },
      pages_from_tcp_run t ts c c1 c' first last (1 + length more) run filled
          ∙ ap
              (λ (n : ℕ).
                ok (first, last, n, record c' { pages = set_end c'.pages last (t.rst || t.fin) }))
              (omega arith),
      finish t c c1 own first more last c'
          (All-map₂ _ _ _ own (λ q low ne. given.kept q low ne) v.below_own
            given.accounts.distinct_own.0)
          given.grows f,
    )
