-- ===== src/Assembly/PageCache/Accounts.antt =====
-- The page cache of capturer/extendedassembly.go keeps its books: which pages are free, which are
-- out, and that no page is both.
use data_collector.Base.{
  All-block, Distinct-block, length_block, ◌++◌, ℕ, zero, suc, ◌+◌, ◌≤◌, ◌<◌, ◌≡◌, ◌≢◌, inl, inr,
  List, [], ◌∷◌, arith, length, All, All-map, All-map₂, Distinct, Apart, list_cases, ok,
  if◌then◌else◌, none, update, update_self, update_ne, subst, sym, ap, ◌∙◌,
}
use data_collector.Assembly.Page.{Page, zero_page}
use data_collector.Assembly.PageCache.{
  PageCache, append_free, grow, new_page_cache, clean, take_free, next, replace, is_empty,
}

-- `own` lists the pages that are out.
pub record Accounts (c : PageCache) (own : List ℕ) : Type 0 where
  pub distinct_free : Distinct c.free
  pub distinct_own : Distinct own
  pub below_free : All (λ p. p < c.size) c.free
  pub below_own : All (λ p. p < c.size) own
  pub apart : Apart own c.free
  pub room : 0 < c.pc_size
  pub counted : c.used ≡ length own
  pub total : length own + length c.free ≡ c.size

-- The books do not depend on the order in which the pages are listed, nor on their contents.
pub Accounts-block :
    (xs ys zs : List ℕ) {c : PageCache}
    → Accounts c (xs ++ (ys ++ zs))
    → Accounts c (ys ++ (xs ++ zs))
Accounts-block xs ys zs {c} v = record {
  distinct_free = v.distinct_free;
  distinct_own = Distinct-block xs ys zs v.distinct_own;
  below_free = v.below_free;
  below_own = All-block _ xs ys zs v.below_own;
  apart = All-block _ xs ys zs v.apart;
  room = v.room;
  counted = v.counted ∙ sym (length_block xs ys zs);
  total = omega (arith, v.total, length_block xs ys zs);
}

pub Accounts-pages :
    (h : ℕ → Page) {c : PageCache} {own : List ℕ}
    → Accounts c own
    → Accounts (record c { pages = h }) own
Accounts-pages h {c} {own} v = record {
  distinct_free = v.distinct_free;
  distinct_own = v.distinct_own;
  below_free = v.below_free;
  below_own = v.below_own;
  apart = v.apart;
  room = v.room;
  counted = v.counted;
  total = v.total;
}

pub append_free-All {κ} :
    (P : ℕ → Type κ) (n i : ℕ) (free : List ℕ)
    → ((q : ℕ) → i ≤ q → q < i + n → P q)
    → All P free
    → All P (append_free n i free)
unfolding append_free
append_free-All P zero i free new old = old
append_free-All P (suc n) i free new old =
    append_free-All P n (i + 1) (i ∷ free) (λ q lo hi. new q (omega arith) (omega arith))
      (new i (omega arith) (omega arith), old)

pub append_free-Distinct :
    (n i : ℕ) (free : List ℕ)
    → All (λ p. p < i) free
    → Distinct free
    → Distinct (append_free n i free)
unfolding append_free
append_free-Distinct zero i free low d = d
append_free-Distinct (suc n) i free low d =
    append_free-Distinct n (i + 1) (i ∷ free)
      (omega arith, All-map _ _ free (λ p h. omega arith) low)
      (All-map _ _ free (λ p h. omega arith) low, d)

pub length-append_free : (n i : ℕ) (free : List ℕ) → length (append_free n i free) ≡ n + length free
unfolding append_free
length-append_free zero i free = omega arith
length-append_free (suc n) i free = omega (arith, length-append_free n (i + 1) (i ∷ free))

-- Growing hands out nothing, and keeps the books.
pub grow-Accounts : {c : PageCache} {own : List ℕ} → Accounts c own → Accounts (grow c) own
unfolding grow
grow-Accounts {c} {own} v = record {
  distinct_free = append_free-Distinct c.pc_size c.size c.free v.below_free v.distinct_free;
  distinct_own = v.distinct_own;
  below_free =
      append_free-All (λ p. p < c.size + c.pc_size) c.pc_size c.size c.free (λ q lo hi. hi)
        (All-map _ _ c.free (λ p h. omega arith) v.below_free);
  below_own = All-map _ _ own (λ p h. omega arith) v.below_own;
  apart =
      All-map₂ _ _ _ own
        (λ x low far.
          append_free-All (λ q. x ≢ q) c.pc_size c.size c.free (λ q lo hi. omega arith) far)
        v.below_own v.apart;
  room = omega (arith, v.room);
  counted = v.counted;
  total = omega (arith, length-append_free c.pc_size c.size c.free, v.total);
}

-- What a page is like when it is handed out, and what else has changed: nothing that was out.
pub record Handed (ts : ℕ) (c : PageCache) (own : List ℕ) (p : ℕ) (c' : PageCache) : Type 0 where
  pub accounts : Accounts c' (p ∷ own)
  pub no_bytes : (c'.pages p).bytes ≡ []
  pub seen_now : (c'.pages p).seen ≡ ts
  pub no_prev : (c'.pages p).prev ≡ none
  pub no_next : (c'.pages p).next ≡ none
  pub kept : (q : ℕ) → q < c.size → p ≢ q → c'.pages q ≡ c.pages q
  pub grows : c.size ≤ c'.size

take_free-Accounts :
    (ts p : ℕ) (rest : List ℕ) {c : PageCache} {own : List ℕ}
    → c.free ≡ p ∷ rest
    → Accounts c own
    → Accounts
        (record c {
          free = rest;
          used = c.used + 1;
          pages = update c.pages p (clean ts (c.pages p));
        })
        (p ∷ own)
take_free-Accounts ts p rest {c} {own} e v = record {
  distinct_free = d.1;
  distinct_own = (All-map _ _ own (λ x far x_is. far.0 (sym x_is)) a, v.distinct_own);
  below_free = b.1;
  below_own = (b.0, v.below_own);
  apart = (d.0, All-map _ _ own (λ x far. far.1) a);
  room = v.room;
  counted = omega (arith, v.counted);
  total = omega (arith, v.total, ap length e);
}
  where
    d : Distinct (p ∷ rest)
    d = subst Distinct e v.distinct_free

    b : All (λ q. q < c.size) (p ∷ rest)
    b = subst (All (λ q. q < c.size)) e v.below_free

    a : Apart own (p ∷ rest)
    a = subst (Apart own) e v.apart

take_free-Handed :
    (ts p : ℕ) (rest : List ℕ) {c : PageCache} {own : List ℕ}
    → c.free ≡ p ∷ rest
    → Accounts c own
    → (q : ℕ) × (c' : PageCache) × (take_free ts c ≡ ok (q, c')) × Handed ts c own q c'
unfolding take_free clean
take_free-Handed ts p rest {c} {own} e v = (
  p,
  record c { free = rest; used = c.used + 1; pages = update c.pages p (clean ts (c.pages p)) },
  ground (arith, e),
  record {
    accounts = take_free-Accounts ts p rest e v;
    no_bytes = rw (update_self c.pages p (clean ts (c.pages p)));
    seen_now = rw (update_self c.pages p (clean ts (c.pages p)));
    no_prev = rw (update_self c.pages p (clean ts (c.pages p)));
    no_next = rw (update_self c.pages p (clean ts (c.pages p)));
    kept = λ q low ne. update_ne c.pages p q (clean ts (c.pages p)) ne;
    grows = omega arith;
  },
)

grow-pages : (c : PageCache) (q : ℕ) → q < c.size → (grow c).pages q ≡ c.pages q
unfolding grow
grow-pages c q h = ground arith

grow-size : (c : PageCache) → c.size ≤ (grow c).size
unfolding grow
grow-size c = omega arith

grow-free : (c : PageCache) → 0 < c.pc_size → 0 < length (grow c).free
unfolding grow
grow-free c h = omega (arith, length-append_free c.pc_size c.size c.free)

grow_first :
    (ts : ℕ) {c : PageCache} {own : List ℕ}
    → Accounts c own
    → (q : ℕ) × (c' : PageCache) × (take_free ts (grow c) ≡ ok (q, c')) × Handed ts c own q c'
grow_first ts {c} {own} v = elim (list_cases (grow c).free) [
  | inl e ↦ absurd (omega (arith, grow-free c v.room, ap length e))
  | inr (p, rest, e) ↦
      (let (q, c', run, h) = take_free-Handed ts p rest e (grow-Accounts v) in
        (
          q,
          c',
          run,
          record {
            accounts = h.accounts;
            no_bytes = h.no_bytes;
            seen_now = h.seen_now;
            no_prev = h.no_prev;
            no_next = h.no_next;
            kept = λ r low ne. h.kept r (omega (arith, grow-size c)) ne ∙ grow-pages c r low;
            grows = omega (arith, grow-size c, h.grows);
          },
        ))
]

-- While the books are kept `next` does not fail: it hands out one page that was not out, cleared of
-- bytes and links and stamped with the time, leaves those that were out as they are, and keeps the books.
pub next-Handed :
    (ts : ℕ) {c : PageCache} {own : List ℕ}
    → Accounts c own
    → (p : ℕ) × (c' : PageCache) × (next ts c ≡ ok (p, c')) × Handed ts c own p c'
unfolding next
next-Handed ts {c} {own} v = elim (list_cases c.free) [
  | inl e ↦
      (let (q, c', run, h) = grow_first ts v in
        (q, c', ap (λ xs. take_free ts (if is_empty xs then grow c else c)) e ∙ run, h))
  | inr (p, rest, e) ↦
      (let (q, c', run, h) = take_free-Handed ts p rest e v in
        (q, c', ap (λ xs. take_free ts (if is_empty xs then grow c else c)) e ∙ run, h))
]

-- A page that was out can be given back: the books of the others are kept.
pub replace-Accounts :
    (p : ℕ) (own : List ℕ) {c : PageCache} → Accounts c (p ∷ own) → Accounts (replace p c) own
unfolding replace
replace-Accounts p own {c} v = record {
  distinct_free = (v.apart.0, v.distinct_free);
  distinct_own = v.distinct_own.1;
  below_free = (v.below_own.0, v.below_free);
  below_own = v.below_own.1;
  apart = All-map₂ _ _ _ own (λ x ne far. (λ e. ne (sym e), far)) v.distinct_own.0 v.apart.1;
  room = v.room;
  counted = omega (arith, v.counted);
  total = omega (arith, v.total);
}

abbrev no_cache : PageCache
no_cache = record { free = []; pc_size = 1024; size = 0; used = 0; pages = λ _. zero_page }

-- The books of a new cache are kept, with nothing out.
pub new_page_cache-Accounts : Accounts new_page_cache []
unfolding new_page_cache
new_page_cache-Accounts = grow-Accounts {c = no_cache} (omega arith)
