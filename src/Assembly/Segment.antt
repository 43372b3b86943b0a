-- ===== src/Assembly/Segment.antt =====
-- A packet's segment and the pages that hold it: `pagesFromTCP` of capturer/extendedassembly.go.
pub mod Filled
pub mod Pages
use data_collector.Base.{
  ℕ, zero, suc, ◌+◌, ◌==◌, ◌||◌, Bool, List, [], ◌∷◌, some, ℤ, pos, if◌then◌else◌, length, take,
  drop, min, Result, update, ok, err, out_of_fuel, ◌>>=◌,
}
use data_collector.Assembly.Sequence.{add}
use data_collector.Assembly.Page.{Page, page_bytes, set_next, set_prev, set_reassembly}
use data_collector.Assembly.PageCache.{PageCache, next}

-- The part of a packet that the assembler reads: `LayerPayload()` is `Payload`, and the transport
-- flow is part of the key. The sequence number is a uint32.
pub record Tcp : Type 0 where
  pub syn : Bool
  pub fin : Bool
  pub rst : Bool
  pub seq : ℕ
  pub payload : List ℕ

-- `current.Bytes` and `current.seq` are set.
unfoldable pub fill_page : (ℕ → Page) → ℕ → List ℕ → ℤ → ℕ → Page
fill_page h p bs s =
    update h p (record (h p) { reassembly = record (h p).reassembly { bytes = bs }; seq = s })

-- The loop of `pagesFromTCP`, at the page `current`; it yields the last page and their number.
unfoldable pub fill_pages : ℕ → ℕ → ℤ → List ℕ → ℕ → ℕ → PageCache → Result (ℕ × ℕ × PageCache)
unfolding next set_next set_prev fill_page
fill_pages zero ts seq bytes current num c = err out_of_fuel
fill_pages (suc fuel) ts seq bytes current num c =
    let len = min (length bytes) page_bytes in
    let c' = record c { pages = fill_page c.pages current (take len bytes) seq } in
    elim (drop len bytes) [
      | [] ↦ ok (current, num, c')
      | b ∷ bs ↦ do
        (q, c'') ← next ts c'
        fill_pages fuel ts (add seq (pos len)) (b ∷ bs) q (num + 1)
            (record c'' { pages = set_prev (set_next c''.pages current (some q)) q (some current) })
    ]

set_end : (ℕ → Page) → ℕ → Bool → ℕ → Page
unfolding set_reassembly
set_end h p e = set_reassembly h p (record (h p).reassembly { end = e })

-- The first page, the last one, their number.
unfoldable pub pages_from_tcp : Tcp → ℕ → PageCache → Result (ℕ × ℕ × ℕ × PageCache)
unfolding fill_pages set_end
pages_from_tcp t ts c = do
  (first, c') ← next ts c
  (last, num, c'') ← fill_pages (length t.payload + 1) ts (pos t.seq) t.payload first 1 c'
  ok (first, last, num, record c'' { pages = set_end c''.pages last (t.rst || t.fin) })
