-- ===== src/Assembly/Work/Close.antt =====
-- `closeConnection` of capturer/extendedassembly.go: the stream hears of it, and every page goes back.
use data_collector.Base.{
  ℕ, zero, suc, ◌≤◌, ◌≡◌, refl, List, [], ◌∷◌, ◌++◌, Option, none, some, arith, length, ◌∙◌, ap,
  true, ok,
}
use data_collector.Assembly.PageCache.{PageCache, replace}
use data_collector.Assembly.PageCache.Accounts.{Accounts, replace-Accounts}
use data_collector.Assembly.Connection.Links.{first_of, Chain}
use data_collector.Assembly.Pool.{remove}
use data_collector.Assembly.Work.{Work, reassembly_complete, replace_all, close_connection}
use data_collector.Assembly.Work.Inv.{WorkInv}

replace-pages : (p : ℕ) (c : PageCache) → (replace p c).pages ≡ c.pages
unfolding replace
replace-pages p c = refl

replace_all_step :
    (fuel p : ℕ) (n : Option ℕ) (c : PageCache)
    → (c.pages p).next ≡ n
    → replace_all (suc fuel) (some p) c ≡ replace_all fuel n (replace p c)
unfolding replace_all
replace_all_step fuel p n c e = ap (λ m. replace_all fuel m (replace p c)) e

pub replace_all-Accounts :
    (fuel : ℕ) (b : Option ℕ) (ids rest : List ℕ) (c : PageCache)
    → length ids ≤ fuel
    → Chain c.pages b ids none
    → Accounts c (ids ++ rest)
    → (c' : PageCache) × (replace_all fuel (first_of ids none) c ≡ ok c')
      × Accounts c' rest
      × (c'.pages ≡ c.pages)
unfolding replace_all
replace_all-Accounts zero b [] rest c le linked v = (c, refl, v, refl)
replace_all-Accounts (suc fuel) b [] rest c le linked v = (c, refl, v, refl)
replace_all-Accounts zero b (p ∷ ps) rest c le linked v = absurd (omega arith)
replace_all-Accounts (suc fuel) b (p ∷ ps) rest c le linked v =
    let (c', run, a, same) =
      replace_all-Accounts fuel (some p) ps rest (replace p c) (omega arith) linked.2
        (replace-Accounts p (ps ++ rest) v) in
    (c', replace_all_step fuel p (first_of ps none) c linked.1 ∙ run, a, same)

-- The connection is closed and gone from the pool; its pages are free, those of others are as they
-- were; the stream has been told, last of all.
pub record Closed (w : Work) (s : ℕ) (rest : List ℕ) (w' : Work) : Type 0 where
  pub accounts : Accounts w'.pc rest
  pub same_pages : w'.pc.pages ≡ w.pc.pages
  pub closed : w'.conn.closed ≡ true
  pub removed : w'.pool ≡ remove w.id w'.conn w.pool
  pub same_key : w'.conn.key ≡ w.conn.key
  pub same_id : w'.id ≡ w.id
  pub same_options : w'.options ≡ w.options
  pub told : w'.events ≡ w.events ++ reassembly_complete s ∷ []

close_run :
    (w : Work) (s : ℕ) (c : PageCache)
    → w.conn.stream ≡ some s
    → replace_all w.conn.pages w.conn.first w.pc ≡ ok c
    → close_connection w
      ≡ ok (record w {
        pc = c;
        conn = record w.conn { closed = true };
        pool = remove w.id (record w.conn { closed = true }) w.pool;
        events = w.events ++ reassembly_complete s ∷ [];
      })
unfolding close_connection
close_run w s c e run = ground (arith, e, run)

-- With the list in order, the books kept and a stream, closing does not fault: all pages of the
-- connection go back, it is out of the pool, and `ReassemblyComplete` is the only call.
pub close_connection-Closed :
    (w : Work) (s : ℕ) (ids rest : List ℕ)
    → WorkInv w ids rest
    → w.conn.stream ≡ some s
    → (w' : Work) × (close_connection w ≡ ok w') × Closed w s rest w'
close_connection-Closed w s ids rest v e =
    let (c, run, a, same) =
      replace_all-Accounts w.conn.pages none ids rest w.pc (omega (arith, v.counted)) v.list.linked
        v.accounts in
    (
      record w {
        pc = c;
        conn = record w.conn { closed = true };
        pool = remove w.id (record w.conn { closed = true }) w.pool;
        events = w.events ++ reassembly_complete s ∷ [];
      },
      close_run w s c e (ap (λ f. replace_all w.conn.pages f w.pc) v.list.first_is ∙ run),
      record {
        accounts = a;
        same_pages = same;
        closed = refl;
        removed = refl;
        same_key = refl;
        same_id = refl;
        same_options = refl;
        told = refl;
      },
    )
