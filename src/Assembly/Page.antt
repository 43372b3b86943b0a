-- ===== src/Assembly/Page.antt =====
-- Pages, and the reassemblies that they carry, of capturer/extendedassembly.go. A pointer to a page
-- is the page's number in the store. A time is a count of ticks. A slice of bytes is the list of its
-- bytes, nil and empty alike; the buffer of a page is its `bytes`, which the code only ever fills
-- from the front.
use data_collector.Base.{ℕ, Bool, false, List, [], Option, none, ℤ, pos, update}

pub record Reassembly : Type 0 where
  pub bytes : List ℕ
  pub skip : ℤ
  pub start : Bool
  pub end : Bool
  pub seen : ℕ

pub record Page : Type 0 where
  pub reassembly : Reassembly
  pub open reassembly use *
  pub seq : ℤ
  pub index : ℕ
  pub prev : Option ℕ
  pub next : Option ℕ

abbrev pub page_bytes : ℕ
page_bytes = 1900

-- What Go's `make` puts into every place.
abbrev pub zero_page : Page
zero_page = record {
  reassembly = record { bytes = []; skip = pos 0; start = false; end = false; seen = 0 };
  seq = pos 0;
  index = 0;
  prev = none;
  next = none;
}

-- Assignments to one field of the page at `p`.
unfoldable pub set_next : (ℕ → Page) → ℕ → Option ℕ → ℕ → Page
set_next h p v = update h p (record (h p) { next = v })

unfoldable pub set_prev : (ℕ → Page) → ℕ → Option ℕ → ℕ → Page
set_prev h p v = update h p (record (h p) { prev = v })

unfoldable pub set_reassembly : (ℕ → Page) → ℕ → Reassembly → ℕ → Page
set_reassembly h p v = update h p (record (h p) { reassembly = v })
