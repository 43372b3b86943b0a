-- ===== src/Assembly/Pool.antt =====
-- The stream pool of capturer/extendedassembly.go. A pointer to a connection is its number in the
-- store. The map is a list of entries, a key at most once. The factory is left to the streams that
-- it makes: the number of the next one.
use data_collector.Base.{
  ℕ, ◌+◌, ◌*◌, ◌&&◌, ◌==◌, Bool, true, false, List, [], ◌∷◌, map, Option, none, some, ltb,
  if◌then◌else◌, update, Result, ok, err, index_out_of_range, ◌>>=◌,
}
use data_collector.Assembly.PageCache.{initial_alloc_size, append_free}
use data_collector.Assembly.Connection.{Key, Connection, zero_connection, reset}

-- `all` is the store of the connections, those below `made`.
pub record StreamPool : Type 0 where
  pub conns : List (Key × ℕ)
  pub users : ℕ
  pub free : List ℕ
  pub all : ℕ → Connection
  pub made : ℕ
  pub next_alloc : ℕ
  pub streams : ℕ

abbrev pub same_key : Key → Key → Bool
same_key j k = j.net_flow == k.net_flow && j.tcp_flow == k.tcp_flow

unfoldable pub find : Key → List (Key × ℕ) → Option ℕ
find k [] = none
find k ((j, c) ∷ m) = if same_key j k then some c else find k m

-- `delete(p.conns, k)`
unfoldable pub delete : Key → List (Key × ℕ) → List (Key × ℕ)
delete k [] = []
delete k ((j, c) ∷ m) = if same_key j k then m else (j, c) ∷ delete k m

unfoldable pub grow : StreamPool → StreamPool
grow p = record {
  conns = p.conns;
  users = p.users;
  free = append_free p.next_alloc p.made p.free;
  all = λ q. if ltb q p.made then p.all q else zero_connection;
  made = p.made + p.next_alloc;
  next_alloc = p.next_alloc * 2;
  streams = p.streams;
}

unfoldable pub new_stream_pool : StreamPool
new_stream_pool = record {
  conns = [];
  users = 0;
  free = [];
  all = λ _. zero_connection;
  made = 0;
  next_alloc = initial_alloc_size;
  streams = 0;
}

abbrev is_empty : List ℕ → Bool
is_empty [] = true
is_empty (c ∷ cs) = false

unfoldable pub take_free : Key → ℕ → ℕ → StreamPool → Result (ℕ × StreamPool)
unfolding reset
take_free k s ts p = elim p.free [
  | [] ↦ err index_out_of_range
  | c ∷ rest ↦ ok (c, record p { free = rest; all = update p.all c (reset k s ts (p.all c)) })
]

unfoldable pub new_connection : Key → ℕ → ℕ → StreamPool → Result (ℕ × StreamPool)
unfolding take_free grow
new_connection k s ts p = take_free k s ts (if is_empty p.free then grow p else p)

-- `p.factory.New(k[0], k[1])`
unfoldable pub new_stream : StreamPool → ℕ × StreamPool
new_stream p = (p.streams, record p { streams = p.streams + 1 })

-- What `getConnection` does under the write lock. Another assembler may have been first.
unfoldable pub add_connection : Key → ℕ → ℕ → StreamPool → Result (ℕ × StreamPool)
unfolding new_connection find
add_connection k s ts p = do
  (c, p') ← new_connection k s ts p
  elim (find k p'.conns) [
    | some c2 ↦ ok (c2, p')
    | none ↦ ok (c, record p' { conns = (k, c) ∷ p'.conns })
  ]

unfoldable pub remove : ℕ → Connection → StreamPool → StreamPool
unfolding delete
remove c conn p = record p { conns = delete conn.key p.conns; free = c ∷ p.free }

-- The connections of the map, in the order of its entries.
unfoldable pub connections : StreamPool → List ℕ
connections p = map (λ e. e.1) p.conns
