-- ===== src/Assembly/Work/Inv.antt =====
-- What holds of a connection of capturer/extendedassembly.go and of the page cache, while an
-- assembler holds the lock.
use data_collector.Base.{ℕ, ◌≡◌, List, ◌++◌, length, All, All-intro, All-map₂, refl, ◌∙◌}
use data_collector.Assembly.PageCache.Accounts.{Accounts}
use data_collector.Assembly.Connection.{Connection}
use data_collector.Assembly.Connection.Insert.{Holds}
use data_collector.Assembly.Work.{Work}

-- The connection's list is `ids`; the pages `rest` belong to other connections.
pub record WorkInv (w : Work) (ids rest : List ℕ) : Type 0 where
  pub accounts : Accounts w.pc (ids ++ rest)
  pub list : Holds w.conn w.pc.pages ids
  pub counted : w.conn.pages ≡ length ids

-- Who the connection is, whatever happens to its list.
pub record SameConnection (c c' : Connection) : Type 0 where
  pub key : c'.key ≡ c.key
  pub created : c'.created ≡ c.created
  pub stream : c'.stream ≡ c.stream
  pub closed : c'.closed ≡ c.closed

-- What an operation on the list leaves alone; the pages `rest` are as they were.
pub record Leaves (w w' : Work) (rest : List ℕ) : Type 0 where
  pub options : w'.options ≡ w.options
  pub pool : w'.pool ≡ w.pool
  pub events : w'.events ≡ w.events
  pub id : w'.id ≡ w.id
  pub same : SameConnection w.conn w'.conn
  pub kept : All (λ q. w'.pc.pages q ≡ w.pc.pages q) rest

pub SameConnection-refl : (c : Connection) → SameConnection c c
SameConnection-refl c = record { key = refl; created = refl; stream = refl; closed = refl }

pub Leaves-refl : (w : Work) (rest : List ℕ) → Leaves w w rest
Leaves-refl w rest = record {
  options = refl;
  pool = refl;
  events = refl;
  id = refl;
  same = SameConnection-refl w.conn;
  kept = All-intro rest (λ q. refl);
}

pub Leaves-trans :
    (u v w : Work) (rest : List ℕ) → Leaves u v rest → Leaves v w rest → Leaves u w rest
Leaves-trans u v w rest a b = record {
  options = b.options ∙ a.options;
  pool = b.pool ∙ a.pool;
  events = b.events ∙ a.events;
  id = b.id ∙ a.id;
  same = record {
    key = b.same.key ∙ a.same.key;
    created = b.same.created ∙ a.same.created;
    stream = b.same.stream ∙ a.same.stream;
    closed = b.same.closed ∙ a.same.closed;
  };
  kept = All-map₂ _ _ _ rest (λ q new old. new ∙ old) b.kept a.kept;
}
