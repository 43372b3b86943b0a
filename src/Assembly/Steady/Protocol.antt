-- ===== src/Assembly/Steady/Protocol.antt =====
-- The order of the calls that the assembler of capturer/extendedassembly.go makes of its factory and
-- its streams, as the interfaces `StreamFactory` and `Stream` document it.
use data_collector.Base.{
  ℕ, ◌+◌, ◌≡◌, ◌≢◌, refl, sym, subst, List, [], ◌∷◌, ◌++◌, append_assoc, append-nil, arith, ltb,
  if◌then◌else◌, ◌==◌,
}
use data_collector.Assembly.Page.{Reassembly}
use data_collector.Assembly.Work.{Event, Event.created, reassembled, reassembly_complete}

-- `Lawful calls open n`: after these calls the streams `open` were made and are not complete, in the
-- order of the newest first, and n were made. Streams are made with numbers that count up. Only an open
-- stream is called; it is never given nothing; once complete it is not open any more.
pub data Lawful : List Event → List ℕ → ℕ → Type 0 where
  start : Lawful [] [] 0
  creates :
      (calls : List Event) (opened : List ℕ) (n : ℕ)
      → Lawful calls opened n
      → Lawful (calls ++ created n ∷ []) (n ∷ opened) (n + 1)
  sends :
      (calls : List Event) (xs : List ℕ) (s : ℕ) (ys : List ℕ) (n : ℕ) (rs : List Reassembly)
      → rs ≢ []
      → Lawful calls (xs ++ s ∷ ys) n
      → Lawful (calls ++ reassembled s rs ∷ []) (xs ++ s ∷ ys) n
  completes :
      (calls : List Event) (xs : List ℕ) (s : ℕ) (ys : List ℕ) (n : ℕ)
      → Lawful calls (xs ++ s ∷ ys) n
      → Lawful (calls ++ reassembly_complete s ∷ []) (xs ++ ys) n

-- Calls of `Reassembled` of one stream, any number, none with nothing.
pub data Deliveries (s : ℕ) : List Event → Type 0 where
  none_left : Deliveries s []
  one_more :
      (rs : List Reassembly) (calls : List Event)
      → rs ≢ []
      → Deliveries s calls
      → Deliveries s (reassembled s rs ∷ calls)

pub Deliveries-append :
    (s : ℕ) {xs ys : List Event} → Deliveries s xs → Deliveries s ys → Deliveries s (xs ++ ys)
Deliveries-append s none_left d = d
Deliveries-append s (one_more rs calls ne c) d = one_more rs _ ne (Deliveries-append s c d)

pub Lawful-Deliveries :
    (xs : List ℕ) (s : ℕ) (ys : List ℕ) (n : ℕ) (calls : List Event) {more : List Event}
    → Deliveries s more
    → Lawful calls (xs ++ s ∷ ys) n
    → Lawful (calls ++ more) (xs ++ s ∷ ys) n
Lawful-Deliveries xs s ys n calls none_left l =
    subst (λ z. Lawful z (xs ++ s ∷ ys) n) (sym (append-nil calls)) l
Lawful-Deliveries xs s ys n calls (one_more rs more ne d) l =
    subst (λ z. Lawful z (xs ++ s ∷ ys) n) (append_assoc calls (reassembled s rs ∷ []) more)
      (Lawful-Deliveries xs s ys n (calls ++ reassembled s rs ∷ []) d
        (sends calls xs s ys n rs ne l))

pub Lawful-complete :
    (xs : List ℕ) (s : ℕ) (ys : List ℕ) (n : ℕ) (calls : List Event) {more : List Event}
    → Deliveries s more
    → Lawful calls (xs ++ s ∷ ys) n
    → Lawful (calls ++ (more ++ reassembly_complete s ∷ [])) (xs ++ ys) n
Lawful-complete xs s ys n calls {more} d l =
    subst (λ z. Lawful z (xs ++ ys) n) (append_assoc calls more (reassembly_complete s ∷ []))
      (completes (calls ++ more) xs s ys n (Lawful-Deliveries xs s ys n calls d l))

-- How often a stream was made, and completed.
abbrev pub times_made : ℕ → List Event → ℕ
times_made s [] = 0
times_made s (created t ∷ calls) = (if s == t then 1 else 0) + times_made s calls
times_made s (reassembled t rs ∷ calls) = times_made s calls
times_made s (reassembly_complete t ∷ calls) = times_made s calls

abbrev pub times_completed : ℕ → List Event → ℕ
times_completed s [] = 0
times_completed s (created t ∷ calls) = times_completed s calls
times_completed s (reassembled t rs ∷ calls) = times_completed s calls
times_completed s (reassembly_complete t ∷ calls) =
    (if s == t then 1 else 0) + times_completed s calls

abbrev pub times_in : ℕ → List ℕ → ℕ
times_in s [] = 0
times_in s (t ∷ ts) = (if s == t then 1 else 0) + times_in s ts

times_made-append :
    (s : ℕ) (xs ys : List Event) → times_made s (xs ++ ys) ≡ times_made s xs + times_made s ys
times_made-append s [] ys = omega arith
times_made-append s (created t ∷ xs) ys = omega (arith, times_made-append s xs ys)
times_made-append s (reassembled t rs ∷ xs) ys = times_made-append s xs ys
times_made-append s (reassembly_complete t ∷ xs) ys = times_made-append s xs ys

times_completed-append :
    (s : ℕ) (xs ys : List Event)
    → times_completed s (xs ++ ys) ≡ times_completed s xs + times_completed s ys
times_completed-append s [] ys = omega arith
times_completed-append s (created t ∷ xs) ys = times_completed-append s xs ys
times_completed-append s (reassembled t rs ∷ xs) ys = times_completed-append s xs ys
times_completed-append s (reassembly_complete t ∷ xs) ys =
    omega (arith, times_completed-append s xs ys)

times_in-append : (s : ℕ) (xs ys : List ℕ) → times_in s (xs ++ ys) ≡ times_in s xs + times_in s ys
times_in-append s [] ys = omega arith
times_in-append s (t ∷ xs) ys = omega (arith, times_in-append s xs ys)

-- A stream below n is made once, no other one is; and it was completed once, or is open once.
pub Lawful-times :
    {calls : List Event} {opened : List ℕ} {n : ℕ} (s : ℕ)
    → Lawful calls opened n
    → (times_made s calls ≡ (if ltb s n then 1 else 0))
      × (times_completed s calls + times_in s opened ≡ times_made s calls)
Lawful-times s start = (ground arith, refl)
Lawful-times s (creates calls opened n l) =
    let (m, c) = Lawful-times s l in
    let mades = times_made-append s calls (created n ∷ []) in
    let compl = times_completed-append s calls (created n ∷ []) in
    (ground (arith, m, mades), ground (arith, c, compl, mades))
Lawful-times s (sends calls xs t ys n rs ne l) =
    let (m, c) = Lawful-times s l in
    let mades = times_made-append s calls (reassembled t rs ∷ []) in
    let compl = times_completed-append s calls (reassembled t rs ∷ []) in
    (ground (arith, m, mades), ground (arith, c, compl, mades))
Lawful-times s (completes calls xs t ys n l) =
    let (m, c) = Lawful-times s l in
    let mades = times_made-append s calls (reassembly_complete t ∷ []) in
    let compl = times_completed-append s calls (reassembly_complete t ∷ []) in
    let before = times_in-append s xs (t ∷ ys) in
    let after = times_in-append s xs ys in
    (ground (arith, m, mades), ground (arith, c, compl, mades, before, after))
