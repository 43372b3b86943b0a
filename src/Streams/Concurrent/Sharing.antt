-- ===== src/Streams/Concurrent/Sharing.antt =====
-- What goroutines that share a `ConcurrentReader` of capturer/MutiCoroutineAccessReader.go get of its
-- stream.
use data_collector.Base.{ℕ, ◌+◌, ◌≤◌, ◌≡◌, ◌≢◌, List, ◌++◌, length, drop}
use data_collector.Streams.Concurrent.{
  ConcurrentReader, Outcome, copied, fails, held, crashes, unfinished, index_of,
}
use data_collector.Streams.Concurrent.Consuming.{unread, Sound}

-- The bytes of the stream from place i on.
abbrev pub Next : ℕ → List ℕ → List ℕ → ℕ → Type 0
Next i total bs j = (drop i total ≡ bs ++ drop j total) × (j ≡ i + length bs)

-- What a shared read by the goroutine `id`, whose place is i, does to the reader `m`, by its outcome.
abbrev pub Shares : ℕ → ℕ → ℕ → ConcurrentReader → Outcome → Type 0
Shares id i n m (copied bs m') =
    Next i (unread m) bs (index_of id m')
    × (length bs ≤ n)
    × (unread m' ≡ unread m)
    × (index_of id m' ≤ length (m'.cache))
    × ((other : ℕ) → other ≢ id → m'.coroutine_read_index other ≡ m.coroutine_read_index other)
    × Sound m'
Shares id i n m (fails e m') = (unread m' ≡ unread m) × Sound m'
Shares id i n m (held m') = (unread m' ≡ unread m) × Sound m'
Shares id i n m (crashes m') = ⊥
Shares id i n m unfinished = ⊥
