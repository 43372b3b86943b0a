-- ===== src/Assembly/Work/Ready.antt =====
-- A connection of capturer/extendedassembly.go between two packets, and what one packet or one flush
-- may do to it.
use data_collector.Base.{ℕ, ◌≡◌, ◌≢◌, ◌⊎◌, List, [], ◌∷◌, ◌++◌, some, true, false, All}
use data_collector.Assembly.Sequence.{invalid_sequence}
use data_collector.Assembly.Sequence.Range.{IsSequence}
use data_collector.Assembly.Page.{Reassembly}
use data_collector.Assembly.PageCache.Accounts.{Accounts}
use data_collector.Assembly.Pool.{remove}
use data_collector.Assembly.Work.{Work, Event, reassembled, reassembly_complete, has_contiguous}
use data_collector.Assembly.Work.Inv.{WorkInv}

-- An open connection that waits for its next packet: nothing that it holds could be delivered, and a
-- connection that has seen no packet holds nothing.
pub record Ready (w : Work) (s : ℕ) (ids rest : List ℕ) : Type 0 where
  pub inv : WorkInv w ids rest
  pub waits : has_contiguous w ≡ false
  pub is_open : w.conn.closed ≡ false
  pub has_stream : w.conn.stream ≡ some s
  pub range : ((w.conn.next_seq ≡ invalid_sequence) × (ids ≡ [])) ⊎ IsSequence w.conn.next_seq

-- At most one call of `Reassembled`, never with nothing.
pub data Delivery (s : ℕ) : List Event → Type 0 where
  silent : Delivery s []
  once : (rs : List Reassembly) → rs ≢ [] → Delivery s (reassembled s rs ∷ [])

pub data Ending (w : Work) (s : ℕ) (rest : List ℕ) (w' : Work) : Type 0 where
  waiting :
      (ids : List ℕ) (calls : List Event)
      → Ready w' s ids rest
      → w'.pool ≡ w.pool
      → Delivery s calls
      → w'.events ≡ w.events ++ calls
      → Ending w s rest w'
  finished :
      (calls : List Event)
      → Accounts w'.pc rest
      → w'.conn.closed ≡ true
      → w'.pool ≡ remove w.id w'.conn w.pool
      → Delivery s calls
      → w'.events ≡ w.events ++ (calls ++ reassembly_complete s ∷ [])
      → Ending w s rest w'

-- The pages of other connections are as they were.
pub record Outcome (w : Work) (s : ℕ) (rest : List ℕ) (w' : Work) : Type 0 where
  pub ending : Ending w s rest w'
  pub kept : All (λ q. w'.pc.pages q ≡ w.pc.pages q) rest
  pub same_key : w'.conn.key ≡ w.conn.key
  pub same_id : w'.id ≡ w.id
