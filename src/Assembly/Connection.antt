-- ===== src/Assembly/Connection.antt =====
-- Connections of capturer/extendedassembly.go, and their doubly linked lists of pages. A flow of
-- gopacket is opaque here, a number that stands for its value; a stream is the number of the
-- object that the factory made. The mutex is not a field: an operation of an assembler runs while
-- it holds the lock.
pub mod Links
pub mod Insert
pub mod Untouched
pub mod Traverse
use data_collector.Base.{
  ℕ, zero, suc, Bool, true, false, ◌||◌, Option, none, some, ℤ, pos, ltb_ℤ, if◌then◌else◌, Result,
  ok, err, out_of_fuel,
}
use data_collector.Assembly.Page.{Page, set_next, set_prev}
use data_collector.Assembly.Sequence.{invalid_sequence, difference}

pub record Key : Type 0 where
  pub net_flow : ℕ
  pub tcp_flow : ℕ

pub record Connection : Type 0 where
  pub key : Key
  pub pages : ℕ
  pub first : Option ℕ
  pub last : Option ℕ
  pub next_seq : ℤ
  pub created : ℕ
  pub last_seen : ℕ
  pub stream : Option ℕ
  pub closed : Bool

abbrev pub zero_connection : Connection
zero_connection = record {
  key = record { net_flow = 0; tcp_flow = 0 };
  pages = 0;
  first = none;
  last = none;
  next_seq = pos 0;
  created = 0;
  last_seen = 0;
  stream = none;
  closed = false;
}

-- `last_seen` stays as the last user of the connection object left it.
unfoldable pub reset : Key → ℕ → ℕ → Connection → Connection
reset k s ts c = record c {
  key = k;
  pages = 0;
  first = none;
  last = none;
  next_seq = invalid_sequence;
  created = ts;
  stream = some s;
  closed = false;
}

abbrev pub is_nil : Option ℕ → Bool
is_nil none = true
is_nil (some p) = false

-- The loop of `traverseConn`, from `prev` on, over the pages of the store `h`.
unfoldable pub traverse : ℕ → (ℕ → Page) → ℤ → Option ℕ → Option ℕ → Result (Option ℕ × Option ℕ)
traverse fuel h seq none current = ok (none, current)
traverse zero h seq (some p) current = err out_of_fuel
traverse (suc fuel) h seq (some p) current = elim (ltb_ℤ (difference (h p).seq seq) (pos 0)) [
  | true ↦ traverse fuel h seq (h p).prev (some p)
  | false ↦ ok (some p, current)
]

-- The list has `pages` pages, and the loop passes each once at most.
unfoldable pub traverse_conn : Connection → (ℕ → Page) → ℤ → Result (Option ℕ × Option ℕ)
unfolding traverse
traverse_conn c h seq = traverse c.pages h seq c.last none

-- The first `if` of `pushBetween`.
unfoldable pub link_last : Connection → (ℕ → Page) → Option ℕ → ℕ → Connection × (ℕ → Page)
unfolding set_next set_prev
link_last c h none last = (record c { last = some last }, h)
link_last c h (some n) last =
    if is_nil c.last
    then (record c { last = some last }, h)
    else (c, set_prev (set_next h last (some n)) n (some last))

-- The second one.
unfoldable pub link_first : Connection → (ℕ → Page) → Option ℕ → ℕ → Connection × (ℕ → Page)
unfolding set_next set_prev
link_first c h none first = (record c { first = some first }, h)
link_first c h (some p) first =
    if is_nil c.first
    then (record c { first = some first }, h)
    else (c, set_next (set_prev h first (some p)) p (some first))

unfoldable pub push_between :
    Connection → (ℕ → Page) → Option ℕ → Option ℕ → ℕ → ℕ → Connection × (ℕ → Page)
unfolding link_last link_first
push_between c h prev next first last =
    let (c', h') = link_last c h next last in link_first c' h' prev first
