-- ===== src/Assembly/Steady/Invariant.antt =====
-- What holds of an assembler of capturer/extendedassembly.go and its pool between two calls.
use data_collector.Base.{
  ℕ, ◌<◌, ◌≡◌, refl, sym, ap, ◌∙◌, subst, ◌⊎◌, Bool, false, List, [], ◌∷◌, ◌++◌, Option, none, some,
  All, All-right, Distinct, length, arith, leb_ℤ, ℤ, pos,
}
use data_collector.Assembly.Sequence.{invalid_sequence, difference}
use data_collector.Assembly.Sequence.Range.{IsSequence}
use data_collector.Assembly.Page.{Page}
use data_collector.Assembly.PageCache.{PageCache}
use data_collector.Assembly.PageCache.Accounts.{Accounts, Accounts-block}
use data_collector.Assembly.Connection.{Connection}
use data_collector.Assembly.Connection.Links.{first_of, Chain-frame}
use data_collector.Assembly.Connection.Insert.{Holds}
use data_collector.Assembly.Work.{Work, has_contiguous}
use data_collector.Assembly.Work.Ready.{Ready}
use data_collector.Assembly.Assembler.{Assembler, lock}
use data_collector.Assembly.Steady.Slots.{
  Slot, entries, numbers, streams_of, pages_of, pages_of-append, KeysApart,
}
use data_collector.Assembly.Steady.Protocol.{Lawful}

-- Whether the first page, if any, could be delivered.
abbrev pub could_go : (ℕ → Page) → ℤ → Option ℕ → Bool
could_go h n none = false
could_go h n (some p) = leb_ℤ (difference n (h p).seq) (pos 0)

-- The connection `c` is the slot's, open, and waits for its next packet.
pub record Waits (s : Slot) (c : Connection) (h : ℕ → Page) : Type 0 where
  pub key_is : c.key ≡ s.key
  pub list : Holds c h s.ids
  pub counted : c.pages ≡ length s.ids
  pub waits : could_go h c.next_seq c.first ≡ false
  pub is_open : c.closed ≡ false
  pub has_stream : c.stream ≡ some s.stream
  pub range : ((c.next_seq ≡ invalid_sequence) × (s.ids ≡ [])) ⊎ IsSequence c.next_seq

Holds-frame :
    (c : Connection) (h h' : ℕ → Page) (ids : List ℕ)
    → All (λ q. h' q ≡ h q) ids
    → Holds c h ids
    → Holds c h' ids
Holds-frame c h h' ids same v = record {
  first_is = v.first_is;
  last_is = v.last_is;
  linked = Chain-frame h h' none ids none same v.linked;
}

could_go-frame :
    (h h' : ℕ → Page) (n : ℤ) (ids : List ℕ)
    → All (λ q. h' q ≡ h q) ids
    → could_go h' n (first_of ids none) ≡ could_go h n (first_of ids none)
could_go-frame h h' n [] same = refl
could_go-frame h h' n (p ∷ ps) same = ap (λ (x : Page). leb_ℤ (difference n x.seq) (pos 0)) same.0

-- It waits as before if its own pages are as before.
pub Waits-frame :
    (s : Slot) (c : Connection) (h h' : ℕ → Page)
    → All (λ q. h' q ≡ h q) s.ids
    → Waits s c h
    → Waits s c h'
Waits-frame s c h h' same v = record {
  key_is = v.key_is;
  list = Holds-frame c h h' s.ids same v.list;
  counted = v.counted;
  waits =
      ap (could_go h' c.next_seq) v.list.first_is
      ∙ could_go-frame h h' c.next_seq s.ids same
      ∙ ap (could_go h c.next_seq) (sym v.list.first_is)
      ∙ v.waits;
  is_open = v.is_open;
  has_stream = v.has_stream;
  range = v.range;
}

-- The map is that of the slots, whose keys and numbers are apart; each connection waits; the books of
-- the cache are those of all their pages; the free connections are none of theirs; and the calls so far
-- are lawful, with these streams open.
pub record Steady (a : Assembler) (slots : List Slot) : Type 0 where
  pub conns_are : a.pool.conns ≡ entries slots
  pub keys : KeysApart slots
  pub accounts : Accounts a.pc (pages_of slots)
  pub each : All (λ s. Waits s (a.pool.all s.id) a.pc.pages) slots
  pub apart : Distinct (numbers slots ++ a.pool.free)
  pub below : All (λ c. c < a.pool.made) (numbers slots ++ a.pool.free)
  pub room : 0 < a.pool.next_alloc
  pub calls : Lawful a.events (streams_of slots) a.pool.streams

-- The pages of the other slots.
abbrev pub rest_of : List Slot → List Slot → List ℕ
rest_of xs ys = pages_of xs ++ pages_of ys

pub Accounts-of :
    (xs : List Slot) (s : Slot) (ys : List Slot) {pc : PageCache}
    → Accounts pc (pages_of (xs ++ s ∷ ys))
    → Accounts pc (s.ids ++ rest_of xs ys)
Accounts-of xs s ys {pc} v =
    Accounts-block (pages_of xs) s.ids (pages_of ys)
      (subst (Accounts pc) (pages_of-append xs (s ∷ ys)) v)

contiguous_lem :
    (w : Work) (o : Option ℕ)
    → w.conn.first ≡ o
    → has_contiguous w ≡ could_go w.pc.pages w.conn.next_seq o
unfolding has_contiguous
contiguous_lem w none e = ground (arith, e)
contiguous_lem w (some p) e = ground (arith, e)

-- What an assembler knows of a connection that it has locked.
pub lock-Ready :
    (xs : List Slot) (s : Slot) (ys : List Slot) (a : Assembler)
    → Steady a (xs ++ s ∷ ys)
    → Ready (lock s.id a) s.stream s.ids (rest_of xs ys)
unfolding lock
lock-Ready xs s ys a v =
    let w = (All-right _ xs (s ∷ ys) v.each).0 in
    record {
      inv = record {
        accounts = Accounts-of xs s ys v.accounts;
        list = w.list;
        counted = w.counted;
      };
      waits = contiguous_lem (lock s.id a) _ refl ∙ w.waits;
      is_open = w.is_open;
      has_stream = w.has_stream;
      range = w.range;
    }

pub Ready-Waits :
    (s : Slot) (rest : List ℕ) (w : Work)
    → w.conn.key ≡ s.key
    → Ready w s.stream s.ids rest
    → Waits s w.conn w.pc.pages
Ready-Waits s rest w k r = record {
  key_is = k;
  list = r.inv.list;
  counted = r.inv.counted;
  waits = sym (contiguous_lem w _ refl) ∙ r.waits;
  is_open = r.is_open;
  has_stream = r.has_stream;
  range = r.range;
}

-- The pages of a slot between others, from its own and theirs.
pub Accounts-back :
    (xs : List Slot) (s : Slot) (ys : List Slot) {pc : PageCache}
    → Accounts pc (s.ids ++ rest_of xs ys)
    → Accounts pc (pages_of (xs ++ s ∷ ys))
Accounts-back xs s ys {pc} v =
    subst (Accounts pc) (sym (pages_of-append xs (s ∷ ys)))
      (Accounts-block s.ids (pages_of xs) (pages_of ys) v)
