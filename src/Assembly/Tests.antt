-- ===== src/Assembly/Tests.antt =====
-- Runs of the assembler of capturer/extendedassembly.go at concrete packets.
use data_collector.Base.{
  ℕ, All, ◌-◌, ◌==◌, ◌≡◌, refl, true, false, inr, List, [], ◌∷◌, Option, none, some, length, arith,
  pos, if◌then◌else◌, Result, ok, ◌>>=◌,
}
use data_collector.Assembly.Sequence.{difference, add, byte_span}
use data_collector.Assembly.Sequence.Order.{difference-add}
use data_collector.Assembly.Sequence.Span.{byte_span_lem, byte_span_wrap}
use data_collector.Assembly.Page.{Page, zero_page}
use data_collector.Assembly.PageCache.{PageCache, next, replace}
use data_collector.Assembly.PageCache.Accounts.{Accounts}
use data_collector.Assembly.PageCache.Stale.{next-replace}
use data_collector.Assembly.Pool.{new_stream_pool}
use data_collector.Assembly.Connection.{Key, Connection, push_between}
use data_collector.Assembly.Connection.Insert.{Holds, push_between-Holds}
use data_collector.Assembly.Segment.{Tcp, pages_from_tcp}
use data_collector.Assembly.Segment.Pages.{PagesOf, pages_from_tcp-PagesOf}
use data_collector.Assembly.Work.{Work, Event, has_contiguous, insert_pages}
use data_collector.Assembly.Work.Inv.{WorkInv}
use data_collector.Assembly.Content.Stretch.{Window, Within}
use data_collector.Assembly.Content.Contiguous.{AllWithin}
use data_collector.Assembly.Content.Handed.{Read, assemble_each}
use data_collector.Assembly.Content.Packets.{assemble_each-Read}
use data_collector.Assembly.Content.Delivered.{Reading, Delivered}
use data_collector.Assembly.Content.Continues.{assemble_locked-Delivered}
use data_collector.Assembly.Work.Insertion.{Inserted, insert_pages-Inserted}
use data_collector.Assembly.Work.Ready.{Ready, Outcome}
use data_collector.Assembly.Assembler.{
  Assembler, default_assembler_options, new_assembler, assemble_locked, assemble_with_timestamp,
}
use data_collector.Assembly.Assembler.Packet.{assemble_locked-Outcome}

abbrev pub flow : Key
flow = record { net_flow = 1; tcp_flow = 2 }

abbrev pub packet : ℕ → List ℕ → Tcp
packet n bs = record { syn = false; fin = false; rst = false; seq = n; payload = bs }

abbrev syn_packet : ℕ → Tcp
syn_packet n = record { syn = true; fin = false; rst = false; seq = n; payload = [] }

abbrev fin_packet : ℕ → Tcp
fin_packet n = record { syn = false; fin = true; rst = false; seq = n; payload = [] }

-- A handshake, two segments that arrive in the wrong order, and the end.
run : Result Assembler
unfolding assemble_with_timestamp new_assembler new_stream_pool
run = do
  a ← assemble_with_timestamp 2 flow (syn_packet 99) 10 (new_assembler new_stream_pool)
  b ← assemble_with_timestamp 2 flow (packet 103 (4 ∷ 5 ∷ [])) 11 a
  c ← assemble_with_timestamp 2 flow (packet 100 (1 ∷ 2 ∷ 3 ∷ [])) 12 b
  assemble_with_timestamp 2 flow (fin_packet 105) 13 c

events : Result (List Event)
unfolding run
events = run >>= (λ a. ok a.events)

-- A connection that waits for byte 90 and holds two pages, in a cache of four.
abbrev held_page : ℕ → List ℕ → Option ℕ → Option ℕ → Page
held_page s bs p n = record {
  reassembly = record { bytes = bs; skip = pos 0; start = false; end = false; seen = 5 };
  seq = pos s;
  index = 0;
  prev = p;
  next = n;
}

abbrev pub held : ℕ → Page
held q =
    if q == 0
    then held_page 100 (1 ∷ 2 ∷ []) none (some 1)
    else if q == 1
    then held_page 102 (3 ∷ []) (some 0) none
    else zero_page

abbrev pub sample_cache : PageCache
sample_cache = record { free = 2 ∷ 3 ∷ []; pc_size = 4; size = 4; used = 2; pages = held }

abbrev pub sample_conn : Connection
sample_conn = record {
  key = flow;
  pages = 2;
  first = some 0;
  last = some 1;
  next_seq = pos 90;
  created = 1;
  last_seen = 5;
  stream = some 0;
  closed = false;
}

abbrev sample : Work
sample = record {
  options = default_assembler_options;
  ret = [];
  pc = sample_cache;
  pool = new_stream_pool;
  events = [];
  id = 0;
  conn = sample_conn;
}

abbrev pub sample_ids : List ℕ
sample_ids = 0 ∷ 1 ∷ []

pub sample-Accounts : Accounts sample_cache sample_ids
sample-Accounts = omega arith

pub sample-Holds : Holds sample_conn held sample_ids
sample-Holds = record { first_is = refl; last_is = refl; linked = (refl, refl, (refl, refl, tt)) }

sample-WorkInv : WorkInv sample sample_ids []
sample-WorkInv = record { accounts = sample-Accounts; list = sample-Holds; counted = refl }

sample-Ready : Ready sample 0 sample_ids []
unfolding has_contiguous difference
sample-Ready = record {
  inv = sample-WorkInv;
  waits = refl;
  is_open = refl;
  has_stream = refl;
  range = inr (90, refl, omega arith);
}

assemble_locked-Outcome_example :
    (w' : Work) × (assemble_locked (packet 95 (7 ∷ [])) 6 sample ≡ ok w') × Outcome sample 0 [] w'
assemble_locked-Outcome_example =
    assemble_locked-Outcome (packet 95 (7 ∷ [])) 6 sample 0 sample_ids [] sample-Ready refl

insert_pages-Inserted_example :
    (w' : Work) × (insert_pages (packet 101 (7 ∷ [])) 6 sample ≡ ok w')
    × Inserted (packet 101 (7 ∷ [])) sample sample_ids [] w'
insert_pages-Inserted_example =
    insert_pages-Inserted (packet 101 (7 ∷ [])) 6 sample sample_ids [] sample-WorkInv

-- The stream that the sample holds parts of: each byte up to 99 is 0, then they count from 1.
abbrev sent_stream : ℕ → ℕ
sent_stream n = n - 99

-- It begins before byte 90, which the sample waits for, and ends within its first page.
abbrev overlapping : Tcp
overlapping = packet 89 (0 ∷ 0 ∷ 0 ∷ 0 ∷ 0 ∷ 0 ∷ 0 ∷ 0 ∷ 0 ∷ 0 ∷ 0 ∷ 1 ∷ [])

sample-AllWithin : AllWithin sent_stream 80 110 held sample_ids
sample-AllWithin = (
  record {
    at = 100;
    seq_is = refl;
    not_before = omega arith;
    not_after = omega arith;
    stretch = (refl, (refl, tt));
  },
  (
    record {
      at = 102;
      seq_is = refl;
      not_before = omega arith;
      not_after = omega arith;
      stretch = (refl, tt);
    },
    tt,
  ),
)

overlapping-Within : Within sent_stream 80 110 (pos 89) overlapping.payload
overlapping-Within = record {
  at = 89;
  seq_is = refl;
  not_before = omega arith;
  not_after = omega arith;
  stretch = (
    refl,
    (refl, (refl, (refl, (refl, (refl, (refl, (refl, (refl, (refl, (refl, (refl, tt))))))))))),
  );
}

sample-Window : Window 80 110
sample-Window = record { small = omega arith; within = omega arith }

assemble_locked-Delivered_example :
    (w' : Work) × (assemble_locked overlapping 6 sample ≡ ok w')
    × Delivered sent_stream 80 110 90 overlapping sample 0 [] w'
unfolding difference
assemble_locked-Delivered_example =
    assemble_locked-Delivered sent_stream 80 110 sample-Window overlapping 6 sample 0 sample_ids []
      90 sample-Ready refl refl (omega arith) (omega arith) sample-AllWithin overlapping-Within refl

-- Bytes 104 and 105 come first, then the overlapping packet, then byte 103, then the overlapping one again.
abbrev arrivals : List (Tcp × ℕ)
arrivals =
    (packet 104 (5 ∷ 6 ∷ []), 6)
    ∷ (overlapping, 7)
    ∷ (packet 103 (4 ∷ []), 8)
    ∷ (overlapping, 9)
    ∷ []

arrivals-Within :
    All (λ (p : Tcp × ℕ). Within sent_stream 80 110 (pos (p.0).seq) (p.0).payload) arrivals
arrivals-Within = (
  record {
    at = 104;
    seq_is = refl;
    not_before = omega arith;
    not_after = omega arith;
    stretch = (refl, (refl, tt));
  },
  (
    overlapping-Within,
    (
      record {
        at = 103;
        seq_is = refl;
        not_before = omega arith;
        not_after = omega arith;
        stretch = (refl, tt);
      },
      (overlapping-Within, tt),
    ),
  ),
)

sample-Reading : Reading sent_stream 80 110 90 0 [] sample
sample-Reading = record {
  ids = sample_ids;
  ready = sample-Ready;
  expects = refl;
  from_lo = omega arith;
  to_hi = omega arith;
  within = sample-AllWithin;
}

assemble_each-Read_example :
    (w' : Work) × (assemble_each arrivals sample ≡ ok w')
    × Read sent_stream 80 110 90 0 [] sample w'
assemble_each-Read_example =
    assemble_each-Read sent_stream 80 110 sample-Window 0 [] arrivals 90 sample
      (record { per_connection = refl; total = refl }) sample-Reading arrivals-Within

push_between-Holds_example :
    let r = push_between sample_conn held (some 0) (some 1) 2 2 in Holds r.0 r.1 (0 ∷ 2 ∷ 1 ∷ [])
push_between-Holds_example =
    push_between-Holds sample_conn held (0 ∷ []) (1 ∷ []) 2 2 [] sample-Holds (refl, refl, tt) refl
      (omega arith) (omega arith) (omega arith)

pages_from_tcp-PagesOf_example :
    (first : ℕ) × (more : List ℕ) × (last : ℕ) × (c' : PageCache) × (pages_from_tcp
        (packet 95 (7 ∷ 8 ∷ []))
        6
        sample_cache
      ≡ ok (first, last, length (first ∷ more), c'))
    × PagesOf (packet 95 (7 ∷ 8 ∷ [])) sample_cache sample_ids first more last c'
pages_from_tcp-PagesOf_example =
    pages_from_tcp-PagesOf (packet 95 (7 ∷ 8 ∷ [])) 6 sample_ids sample_cache sample-Accounts

next-replace_example :
    (c' : PageCache) × (next 6 (replace 0 sample_cache) ≡ ok (0, c'))
    × ((c'.pages 0).bytes ≡ [])
    × ((c'.pages 0).seen ≡ 6)
    × ((c'.pages 0).skip ≡ pos 0)
    × ((c'.pages 0).start ≡ false)
    × ((c'.pages 0).end ≡ false)
next-replace_example = next-replace 6 0 sample_cache

byte_span_lem_example : byte_span (pos 102) (pos 100) (1 ∷ 2 ∷ 3 ∷ []) ≡ (3 ∷ [], pos 103)
byte_span_lem_example =
    byte_span_lem 102 100 (1 ∷ 2 ∷ 3 ∷ []) (omega arith) (omega arith) (omega arith) (omega arith)

byte_span_wrap_example : byte_span (pos 1) (pos 0xFFFF_FFFE) (1 ∷ 2 ∷ 3 ∷ []) ≡ (3 ∷ [], pos 2)
unfolding add
byte_span_wrap_example =
    byte_span_wrap 0xFFFF_FFFE 3 (1 ∷ 2 ∷ 3 ∷ []) (omega arith) (omega arith) (omega arith)
      (omega arith) (omega arith)

difference-add_example : difference (pos 0xFFFF_FFFF) (pos 0) ≡ pos 0
unfolding add
difference-add_example = difference-add 0xFFFF_FFFF 1 (omega arith) (omega arith)
