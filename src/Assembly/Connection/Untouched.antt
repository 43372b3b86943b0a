-- ===== src/Assembly/Connection/Untouched.antt =====
-- What `pushBetween` of capturer/extendedassembly.go leaves alone.
use data_collector.Base.{ℕ, ◌≡◌, refl, ◌≢◌, Option, none, some, arith, update}
use data_collector.Assembly.Page.{Page}
use data_collector.Assembly.Connection.{Connection, push_between}

-- The pages other than those at the two seams are as they were.
pub push_between-others :
    (c : Connection) (h : ℕ → Page) (prev next : Option ℕ) (f l q : ℕ)
    → f ≢ q
    → l ≢ q
    → next ≢ some q
    → prev ≢ some q
    → (push_between c h prev next f l).1 q ≡ h q
unfolding push_between update
push_between-others c h none none f l q ef el en ep = refl
push_between-others c h none (some n) f l q ef el en ep = ground arith
push_between-others c h (some p) none f l q ef el en ep = ground arith
push_between-others c h (some p) (some n) f l q ef el en ep = ground arith

-- No page's content changes.
pub push_between-contents :
    (c : Connection) (h : ℕ → Page) (prev next : Option ℕ) (f l q : ℕ)
    → ((push_between c h prev next f l).1 q).reassembly ≡ (h q).reassembly
unfolding push_between update
push_between-contents c h none none f l q = refl
push_between-contents c h none (some n) f l q = ground arith
push_between-contents c h (some p) none f l q = ground arith
push_between-contents c h (some p) (some n) f l q = ground arith

pub push_between-seqs :
    (c : Connection) (h : ℕ → Page) (prev next : Option ℕ) (f l q : ℕ)
    → ((push_between c h prev next f l).1 q).seq ≡ (h q).seq
unfolding push_between update
push_between-seqs c h none none f l q = refl
push_between-seqs c h none (some n) f l q = ground arith
push_between-seqs c h (some p) none f l q = ground arith
push_between-seqs c h (some p) (some n) f l q = ground arith

-- Of the connection only the two ends of the list change.
pub record EndsOnly (c c' : Connection) : Type 0 where
  pub key : c'.key ≡ c.key
  pub created : c'.created ≡ c.created
  pub last_seen : c'.last_seen ≡ c.last_seen
  pub stream : c'.stream ≡ c.stream
  pub closed : c'.closed ≡ c.closed
  pub pages : c'.pages ≡ c.pages
  pub next_seq : c'.next_seq ≡ c.next_seq

pub push_between-EndsOnly :
    (c : Connection) (h : ℕ → Page) (prev next : Option ℕ) (f l : ℕ)
    → EndsOnly c (push_between c h prev next f l).0
unfolding push_between
push_between-EndsOnly c h none none f l = ground arith
push_between-EndsOnly c h none (some n) f l = ground arith
push_between-EndsOnly c h (some p) none f l = ground arith
push_between-EndsOnly c h (some p) (some n) f l = ground arith
