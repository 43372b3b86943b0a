-- ===== src/Assembly/PageCache.antt =====
-- The page cache of capturer/extendedassembly.go. The head of `free` is the back of the slice.
-- `memLog` is false, so the counter of page requests never moves and is left out.
pub mod Accounts
pub mod Stale
use data_collector.Base.{
  ℕ, zero, suc, ◌+◌, ◌-◌, ◌*◌, Bool, List, [], ◌∷◌, Option, none, ltb, if◌then◌else◌, update,
  Result, ok, err, index_out_of_range,
}
use data_collector.Assembly.Page.{Reassembly, Page, zero_page}

-- `pages` is the store of all pages that were ever made; the page numbers are those below `size`.
pub record PageCache : Type 0 where
  pub free : List ℕ
  pub pc_size : ℕ
  pub size : ℕ
  pub used : ℕ
  pub pages : ℕ → Page

abbrev pub initial_alloc_size : ℕ
initial_alloc_size = 1024

-- `for i := range pages { c.free = append(c.free, &pages[i]) }`
unfoldable pub append_free : ℕ → ℕ → List ℕ → List ℕ
append_free zero i free = free
append_free (suc n) i free = append_free n (i + 1) (i ∷ free)

unfoldable pub grow : PageCache → PageCache
grow c = record {
  free = append_free c.pc_size c.size c.free;
  pc_size = c.pc_size * 2;
  size = c.size + c.pc_size;
  used = c.used;
  pages = λ q. if ltb q c.size then c.pages q else zero_page;
}

unfoldable pub new_page_cache : PageCache
unfolding grow
new_page_cache =
    grow (record {
      free = [];
      pc_size = initial_alloc_size;
      size = 0;
      used = 0;
      pages = λ _. zero_page;
    })

-- What `next` writes into the page that it hands out.
unfoldable pub clean : ℕ → Page → Page
clean ts p = record p {
  reassembly = record p.reassembly { bytes = []; seen = ts };
  prev = none;
  next = none;
}

unfoldable pub take_free : ℕ → PageCache → Result (ℕ × PageCache)
unfolding clean
take_free ts c = elim c.free [
  | [] ↦ err index_out_of_range
  | p ∷ rest ↦ ok (
    p,
    record c { free = rest; used = c.used + 1; pages = update c.pages p (clean ts (c.pages p)) },
  )
]

abbrev is_empty : List ℕ → Bool
is_empty [] = Bool.true
is_empty (x ∷ xs) = Bool.false

unfoldable pub next : ℕ → PageCache → Result (ℕ × PageCache)
unfolding take_free grow
next ts c = take_free ts (if is_empty c.free then grow c else c)

unfoldable pub replace : ℕ → PageCache → PageCache
replace p c = record c { used = c.used - 1; free = p ∷ c.free }
