-- ===== src/Assembly/Segment/Filled.antt =====
-- `pagesFromTCP` of capturer/extendedassembly.go: the pages hold the packet's payload.
use data_collector.Base.{
  ℕ, zero, suc, ◌+◌, ◌≤◌, ◌<◌, ◌≡◌, refl, ◌≢◌, List, [], ◌∷◌, ◌++◌, Option, none, some, arith, All,
  All-map, All-map₂, length, take, drop, min, length-take, length-drop, take-append-drop,
  list_cases, inl, inr, sym, ◌∙◌, ap, ℤ, pos, ok, update_self, update_ne,
}
use data_collector.Assembly.Page.{Page, page_bytes, set_next, set_prev}
use data_collector.Assembly.Sequence.{add}
use data_collector.Assembly.PageCache.{PageCache, next}
use data_collector.Assembly.PageCache.Accounts.{
  Accounts, Accounts-block, Accounts-pages, Handed, next-Handed,
}
use data_collector.Assembly.Connection.Links.{last_of, Chain}
use data_collector.Assembly.Segment.{fill_page, fill_pages}

-- The bytes of the pages, one after the other.
abbrev pub flat : (ℕ → Page) → List ℕ → List ℕ
flat h [] = []
flat h (p ∷ ps) = (h p).bytes ++ flat h ps

-- The first page begins at `s`, and each goes on where the one before ends.
abbrev pub Laid : (ℕ → Page) → ℤ → List ℕ → Type 0
Laid h s [] = Unit {0}
Laid h s (p ∷ ps) = ((h p).seq ≡ s) × Laid h (add s (pos (length (h p).bytes))) ps

-- What the loop makes from the page `current` on: the pages `more` behind it. The pages `own`, which
-- were out before, are as they were.
pub record Filled (c : PageCache) (own : List ℕ) (b : Option ℕ) (current : ℕ) (s : ℤ)
    (bytes more : List ℕ) (last : ℕ) (c' : PageCache) : Type 0 where
  pub accounts : Accounts c' (current ∷ (more ++ own))
  pub linked : Chain c'.pages b (current ∷ more) none
  pub is_last : last_of (some current) more ≡ some last
  pub laid : Laid c'.pages s (current ∷ more)
  pub holds : flat c'.pages (current ∷ more) ≡ bytes
  pub small : All (λ q. length (c'.pages q).bytes ≤ page_bytes) (current ∷ more)
  pub same_end : (c'.pages current).end ≡ (c.pages current).end
  pub same_skip : (c'.pages current).skip ≡ (c.pages current).skip
  pub kept : All (λ q. c'.pages q ≡ c.pages q) own
  pub grows : c.size ≤ c'.size

fill_pages_end :
    (fuel ts : ℕ) (s : ℤ) (bytes : List ℕ) (current num : ℕ) (c : PageCache)
    → drop (min (length bytes) page_bytes) bytes ≡ []
    → fill_pages (suc fuel) ts s bytes current num c
      ≡ ok (
        current,
        num,
        record c {
          pages = fill_page c.pages current (take (min (length bytes) page_bytes) bytes) s;
        },
      )
unfolding fill_pages
fill_pages_end fuel ts s bytes current num c e = ground (arith, e)

fill_pages_more :
    (fuel ts : ℕ) (s : ℤ) (bytes : List ℕ) (current num : ℕ) (c : PageCache) (b : ℕ) (bs : List ℕ)
    (q : ℕ) (c'' : PageCache)
    → drop (min (length bytes) page_bytes) bytes ≡ b ∷ bs
    → next ts (record c {
      pages = fill_page c.pages current (take (min (length bytes) page_bytes) bytes) s;
    })
      ≡ ok (q, c'')
    → fill_pages (suc fuel) ts s bytes current num c
      ≡ fill_pages fuel ts
          (add s (pos (min (length bytes) page_bytes)))
          (b ∷ bs)
          q
          (num + 1)
          (record c'' { pages = set_prev (set_next c''.pages current (some q)) q (some current) })
unfolding fill_pages
fill_pages_more fuel ts s bytes current num c b bs q c'' e run = ground (arith, e, run)

module _ (c : PageCache) (own : List ℕ) (b : Option ℕ) (current : ℕ) (s : ℤ) (bytes : List ℕ)
    (v : Accounts c (current ∷ own)) (linked : Chain c.pages b (current ∷ []) none) where
  abbrev len : ℕ
  len = min (length bytes) page_bytes

  length_chunk : length (take len bytes) ≡ len
  length_chunk = omega (arith, length-take len bytes)

  -- The page `current`, filled.
  abbrev filled : Page
  filled = record (c.pages current) {
    reassembly = record (c.pages current).reassembly { bytes = take len bytes };
    seq = s;
  }

  abbrev c1 : PageCache
  c1 = record c { pages = fill_page c.pages current (take len bytes) s }

  c1-current : c1.pages current ≡ filled
  unfolding fill_page
  c1-current = update_self c.pages current filled

  c1-other : (x : ℕ) → current ≢ x → c1.pages x ≡ c.pages x
  unfolding fill_page
  c1-other x ne = update_ne c.pages current x filled ne

  Filled-end : drop len bytes ≡ [] → Filled c own b current s bytes [] current c1
  Filled-end e = record {
    accounts = Accounts-pages _ v;
    linked = (rw c1-current linked.0, rw c1-current linked.1, tt);
    is_last = refl;
    laid = (rw c1-current, tt);
    holds = rw c1-current (ap (λ r. take len bytes ++ r) (sym e) ∙ take-append-drop len bytes);
    small = (rw c1-current (omega (arith, length_chunk)), tt);
    same_end = rw c1-current;
    same_skip = rw c1-current;
    kept = All-map _ _ own (λ x ne. c1-other x ne) v.distinct_own.0;
    grows = omega arith;
  }

  module _ (ts q : ℕ) (c2 : PageCache) (given : Handed ts c1 (current ∷ own) q c2) where
    abbrev c3 : PageCache
    c3 = record c2 { pages = set_prev (set_next c2.pages current (some q)) q (some current) }

    q-ne-current : q ≢ current
    q-ne-current = given.accounts.distinct_own.0.0

    c3-current : c3.pages current ≡ record filled { next = some q }
    unfolding set_prev set_next
    c3-current =
        update_ne _ q current _ q-ne-current
        ∙ update_self c2.pages current (record (c2.pages current) { next = some q })
        ∙ ap (λ (p : Page). record p { next = some q })
            (given.kept current v.below_own.0 q-ne-current ∙ c1-current)

    c3-other : (x : ℕ) → x < c.size → q ≢ x → current ≢ x → c3.pages x ≡ c.pages x
    unfolding set_prev set_next
    c3-other x low qx cx =
        update_ne _ q x _ qx
        ∙ update_ne c2.pages current x _ cx
        ∙ given.kept x low qx
        ∙ c1-other x cx

    c3-linked : Chain c3.pages (some current) (q ∷ []) none
    unfolding set_prev set_next
    c3-linked =
        let ne : current ≢ q = λ e. q-ne-current (sym e) in
        (
          rw (
              update_self _ q
                (record (set_next c2.pages current (some q) q) { prev = some current })),
          rw
              (
                update_self _ q
                    (record (set_next c2.pages current (some q) q) { prev = some current }),
                update_ne c2.pages current q (record (c2.pages current) { next = some q }) ne,
              )
              given.no_next,
          tt,
        )

    Filled-more :
        (rest ys : List ℕ) (last : ℕ) (c' : PageCache)
        → drop len bytes ≡ rest
        → Filled c3 (current ∷ own) (some current) q (add s (pos len)) rest ys last c'
        → Filled c own b current s bytes (q ∷ ys) last c'
    Filled-more rest ys last c' e f =
        let at = f.kept.0 ∙ c3-current in
        record {
          accounts = Accounts-block (q ∷ ys) (current ∷ []) own f.accounts;
          linked = (rw at linked.0, rw at, f.linked);
          is_last = f.is_last;
          laid = (rw at, rw (at, length_chunk) f.laid);
          holds =
              rw (at, f.holds) (ap (λ r. take len bytes ++ r) (sym e) ∙ take-append-drop len bytes);
          small = (rw at (omega (arith, length_chunk)), f.small);
          same_end = rw at;
          same_skip = rw at;
          kept =
              All-map₂ _ _ _ own (λ x same older. same ∙ older) f.kept.1
                (All-map₂ _ (λ x. (q ≢ x) × (current ≢ x)) _ own
                  (λ x low ne. c3-other x low ne.0 ne.1) v.below_own.1
                  (All-map₂ _ _ (λ x. (q ≢ x) × (current ≢ x)) own (λ x qx cx. (qx, cx))
                    given.accounts.distinct_own.0.1 v.distinct_own.0));
          grows = omega (arith, given.grows, f.grows);
        }

-- Enough fuel is one more than there are bytes.
pub fill_pages-Filled :
    (fuel ts : ℕ) (own : List ℕ) (b : Option ℕ) (current : ℕ) (s : ℤ) (bytes : List ℕ) (num : ℕ)
    (c : PageCache)
    → length bytes < fuel
    → Accounts c (current ∷ own)
    → Chain c.pages b (current ∷ []) none
    → (more : List ℕ) × (last : ℕ) × (c' : PageCache) × (fill_pages fuel ts s bytes current num c
        ≡ ok (last, num + length more, c'))
      × Filled c own b current s bytes more last c'
fill_pages-Filled zero ts own b current s bytes num c lt v linked = absurd (omega arith)
fill_pages-Filled (suc fuel) ts own b current s bytes num c lt v linked =
    elim (list_cases (drop (min (length bytes) page_bytes) bytes)) [
      | inl e ↦ (
        [],
        current,
        c1 c own b current s bytes v linked,
        fill_pages_end fuel ts s bytes current num c e
            ∙ ap (λ n. ok (current, n, c1 c own b current s bytes v linked)) (omega arith),
        Filled-end c own b current s bytes v linked e,
      )
      | inr (x, xs, e) ↦
          (let (q, c2, run, given) =
              next-Handed ts {c = c1 c own b current s bytes v linked} (Accounts-pages _ v) in
            let (ys, last, c', more_run, f) =
              fill_pages-Filled fuel ts (current ∷ own) (some current) q
                (add s (pos (min (length bytes) page_bytes))) (x ∷ xs) (num + 1)
                (c3 c own b current s bytes v linked ts q c2 given)
                (omega (arith, ap length e, length-drop (min (length bytes) page_bytes) bytes))
                (Accounts-pages _ given.accounts)
                (c3-linked c own b current s bytes v linked ts q c2 given) in
            (
              q ∷ ys,
              last,
              c',
              fill_pages_more fuel ts s bytes current num c x xs q c2 e run
                  ∙ more_run
                  ∙ ap (λ n. ok (last, n, c')) (omega arith),
              Filled-more c own b current s bytes v linked ts q c2 given (x ∷ xs) ys last c' e f,
            ))
    ]
