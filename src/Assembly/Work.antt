-- ===== src/Assembly/Work.antt =====
-- What an assembler of capturer/extendedassembly.go does to the connection whose lock it holds:
-- insertion of a packet's pages, delivery to the stream, closing.
pub mod Inv
pub mod Pop
pub mod Contiguous
pub mod Close
pub mod Insertion
pub mod Ready
pub mod Send
pub mod Shrink
use data_collector.Base.{
  ℕ, zero, suc, ◌+◌, ◌-◌, ◌*◌, ◌==◌, ◌&&◌, ◌||◌, Bool, true, false, List, [], ◌∷◌, ◌++◌, Option,
  none, some, ℤ, pos, negsuc, ltb_ℤ, leb_ℤ, eqb_ℤ, if◌then◌else◌, length, take, drop, get_last?,
  min, Result, ok, err, wtf, why, nil_dereference, index_out_of_range, out_of_fuel, ◌>>=◌, or_fault,
}
use data_collector.Assembly.Sequence.{invalid_sequence, difference, add, byte_span}
use data_collector.Assembly.Page.{Reassembly, Page, page_bytes, set_next, set_prev, set_reassembly}
use data_collector.Assembly.PageCache.{PageCache, next, replace}
use data_collector.Assembly.Segment.{Tcp, pages_from_tcp}
use data_collector.Assembly.Connection.{Connection, is_nil, traverse_conn, push_between}
use data_collector.Assembly.Pool.{StreamPool, remove}

pub record AssemblerOptions : Type 0 where
  pub max_buffered_pages_total : ℤ
  pub max_buffered_pages_per_connection : ℤ

-- The calls that the assembler makes of streams, and of the factory.
pub data Event : Type 0 where
  created : ℕ → Event
  reassembled : ℕ → List Reassembly → Event
  reassembly_complete : ℕ → Event

-- An assembler with its pool and the events so far, and the connection number `id` that it has
-- locked: `conn` is that object's present content.
pub record Work : Type 0 where
  pub options : AssemblerOptions
  pub ret : List Reassembly
  pub pc : PageCache
  pub pool : StreamPool
  pub events : List Event
  pub id : ℕ
  pub conn : Connection

-- The `Skip` that `addNextFromConn` gives the first page.
unfoldable pub skip_of : ℤ → Page → ℤ
skip_of next_seq p =
    if eqb_ℤ next_seq invalid_sequence
    then negsuc 0
    else if ltb_ℤ (pos 0) (difference next_seq p.seq)
    then difference next_seq p.seq
    else p.skip

-- `conn.first` and `conn.last` after the first page is gone; the new first page is told so.
unfoldable pub advance : ℕ → Connection → (ℕ → Page) → Result (Connection × (ℕ → Page))
unfolding set_prev
advance p c h = elim (c.last) [
  | some l ↦ if p == l then ok (record c { first = none; last = none }, h) else (elim ((h p).next) [
    | none ↦ err nil_dereference
    | some q ↦ ok (record c { first = some q }, set_prev h q none)
  ])
  | none ↦ (elim ((h p).next) [
    | none ↦ err nil_dereference
    | some q ↦ ok (record c { first = some q }, set_prev h q none)
  ])
]

unfoldable pub add_next_page : ℕ → Work → Result Work
unfolding skip_of advance set_reassembly replace
add_next_page p w =
    let page = w.pc.pages p in
    let (bytes, next_seq) = byte_span w.conn.next_seq page.seq page.bytes in
    let r = record page.reassembly { skip = skip_of w.conn.next_seq page; bytes = bytes } in
    let c = replace p (record w.pc { pages = set_reassembly w.pc.pages p r }) in
    do
      (conn', h) ← advance p (record w.conn { next_seq = next_seq }) c.pages
      ok (record w {
        ret = w.ret ++ r ∷ [];
        pc = record c { pages = h };
        conn = record conn' { pages = conn'.pages - 1 };
      })

unfoldable pub add_next_from_conn : Work → Result Work
unfolding add_next_page
add_next_from_conn w = do p ← or_fault w.conn.first nil_dereference; add_next_page p w

-- The test of the loop in `addContiguous`.
unfoldable pub has_contiguous : Work → Bool
has_contiguous w = elim w.conn.first [
  | none ↦ false
  | some p ↦ leb_ℤ (difference w.conn.next_seq (w.pc.pages p).seq) (pos 0)
]

unfoldable pub contiguous_loop : ℕ → Work → Result Work
contiguous_loop zero w = if has_contiguous w then err out_of_fuel else ok w
contiguous_loop (suc fuel) w = elim (has_contiguous w) [
  | false ↦ ok w
  | true ↦ add_next_from_conn w >>= contiguous_loop fuel
]

-- Each round takes one page off the list.
unfoldable pub add_contiguous : Work → Result Work
add_contiguous w = contiguous_loop w.conn.pages w

-- The loop of `closeConnection` over the pages that are left.
unfoldable pub replace_all : ℕ → Option ℕ → PageCache → Result PageCache
unfolding replace
replace_all fuel none c = ok c
replace_all zero (some p) c = err out_of_fuel
replace_all (suc fuel) (some p) c = replace_all fuel (c.pages p).next (replace p c)

unfoldable pub close_connection : Work → Result Work
unfolding replace_all remove
close_connection w = do
  s ← or_fault w.conn.stream nil_dereference
  let conn = record w.conn { closed = true }
  c ← replace_all w.conn.pages w.conn.first w.pc
  ok (record w {
    pc = c;
    conn = conn;
    pool = remove w.id conn w.pool;
    events = w.events ++ reassembly_complete s ∷ [];
  })

unfoldable pub deliver : Work → Result Work
deliver w = do
  s ← or_fault w.conn.stream why
  let sent = record w { events = w.events ++ reassembled s w.ret ∷ [] }
  r ← or_fault (get_last? w.ret) index_out_of_range
  if r.end then close_connection sent else ok sent

unfoldable pub send_to_connection : Work → Result Work
unfolding add_contiguous deliver
send_to_connection w = add_contiguous w >>= deliver

unfoldable pub skip_flush : Work → Result Work
skip_flush w = elim w.conn.first [
  | none ↦ close_connection w
  | some p ↦ do
    w1 ← add_next_from_conn (record w { ret = [] })
    w2 ← add_contiguous w1
    send_to_connection w2
]

-- The limits of the options; none is in force at zero or below.
unfoldable pub over_limit : Work → Bool
over_limit w =
    (ltb_ℤ (pos 0) w.options.max_buffered_pages_per_connection
      && leb_ℤ w.options.max_buffered_pages_per_connection (pos w.conn.pages))
    || (ltb_ℤ (pos 0) w.options.max_buffered_pages_total
        && leb_ℤ w.options.max_buffered_pages_total (pos w.pc.used))

-- Whether the first page is the one that the connection waits for, which panics.
unfoldable pub first_is_next : Work → Bool
first_is_next w = elim w.conn.first [
  | none ↦ false
  | some p ↦ eqb_ℤ (w.pc.pages p).seq w.conn.next_seq
]

unfoldable pub insert_pages : Tcp → ℕ → Work → Result Work
unfolding pages_from_tcp traverse_conn push_between
insert_pages t ts w = do
  (p, p2, num, c) ← pages_from_tcp t ts w.pc
  (prev, current) ← traverse_conn w.conn c.pages (pos t.seq)
  let (conn, h) = push_between w.conn c.pages prev current p p2
  ok (record w { pc = record c { pages = h }; conn = record conn { pages = conn.pages + num } })

unfoldable pub insert_into_conn : Tcp → ℕ → Work → Result Work
unfolding first_is_next insert_pages over_limit add_next_from_conn
insert_into_conn t ts w =
    if first_is_next w
    then err wtf
    else do w' ← insert_pages t ts w; if over_limit w' then add_next_from_conn w' else ok w'
