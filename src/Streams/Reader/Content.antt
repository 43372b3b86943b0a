-- ===== src/Streams/Reader/Content.antt =====
-- What there is to read in a `StreamReader` of capturer/MutiCoroutineAccessReader.go, and what the
-- parts of `Read` do to it.
use data_collector.Base.{
  ℕ, zero, suc, ◌≤◌, ◌<◌, ◌≡◌, refl, sym, ◌∙◌, ap, subst, ◌&&◌, ◌||◌, not, Bool, true, false, List,
  [], ◌∷◌, ◌++◌, length, length-append, length-take, take, drop, arith, ltb, if_cases, pos, eqb_ℤ,
}
use data_collector.Assembly.Page.{Reassembly}
use data_collector.Streams.Reader.{
  StreamReader, strip, strip_empty, receive, copy_head, Read, got, data_lost, eof, waits, stuck,
  panic,
}

abbrev pub bytes_of : List Reassembly → List ℕ
bytes_of [] = []
bytes_of (x ∷ xs) = x.bytes ++ bytes_of xs

abbrev pub queue_bytes : List (List Reassembly) → List ℕ
queue_bytes [] = []
queue_bytes (rs ∷ queue) = bytes_of rs ++ queue_bytes queue

-- The bytes that were written and not read.
abbrev pub content : StreamReader → List ℕ
content r = bytes_of (r.current) ++ queue_bytes (r.reassembled)

-- A reader that has seen the end: the channel is closed and drained.
abbrev pub IsSound : StreamReader → Type 0
IsSound r = r.closed ≡ true → (r.reassembled_closed ≡ true) × (r.reassembled ≡ [])

-- Whether the channel is closed, and whether losses are reported.
abbrev pub flags : StreamReader → Bool × Bool
flags r = (r.reassembled_closed, r.loss_errors)

-- Whether there were bytes lost before the first slice.
abbrev pub head_skips : List Reassembly → Bool
head_skips [] = false
head_skips (x ∷ xs) = not (eqb_ℤ (x.skip) (pos 0))

-- What a call leaves as it is, and that the reader stays sound.
abbrev pub Keeps : Bool × Bool → StreamReader → Type 0
Keeps f r = (flags r ≡ f) × (r.initiated ≡ true) × IsSound r

-- The outcomes of a read of at most n bytes from a reader with the bytes `bs` and these flags. Of a slice
-- that follows a loss bytes are given only if losses are not reported, or this one was.
abbrev pub Delivers : ℕ → List ℕ → Bool × Bool → Read → Type 0
Delivers n bs f (got cs r) =
    (bs ≡ cs ++ content r)
    × (length cs ≤ n)
    × (0 < n → 0 < length cs)
    × (0 < length bs)
    × Keeps f r
    × ((r.loss_errors && (not (r.loss_reported) && head_skips (r.current))) ≡ false)
Delivers n bs f (data_lost r) =
    (bs ≡ content r)
    × (r.loss_reported ≡ true)
    × (0 < length bs)
    × Keeps f r
    × (f.1 ≡ true)
    × (head_skips (r.current) ≡ true)
Delivers n bs f (eof r) = (bs ≡ []) × (f.0 ≡ true) × (content r ≡ []) × Keeps f r
Delivers n bs f (waits r) = (bs ≡ []) × (f.0 ≡ false) × (content r ≡ []) × Keeps f r
Delivers n bs f (stuck r) = ⊥
Delivers n bs f (panic r) = ⊥

abbrev pub HeadFull : List Reassembly → Type 0
HeadFull [] = Unit
HeadFull (x ∷ xs) = 0 < length (x.bytes)

empty_lem : (bs : List ℕ) → length bs ≡ 0 → bs ≡ []
empty_lem [] e = refl
empty_lem (x ∷ xs) e = absurd (omega arith)

strip-bytes : (xs : List Reassembly) (b : Bool) → bytes_of (strip xs b).0 ≡ bytes_of xs
unfolding strip
strip-bytes [] b = refl
strip-bytes (x ∷ xs) b = ground (arith, strip-bytes xs false, empty_lem (x.bytes))

strip-HeadFull : (xs : List Reassembly) (b : Bool) → HeadFull (strip xs b).0
unfolding strip
strip-HeadFull [] b = tt
strip-HeadFull (x ∷ xs) b = ground (arith, strip-HeadFull xs false)

copy_head-eof :
    (n : ℕ) (r : StreamReader)
    → r.current ≡ []
    → r.closed ≡ true
    → r.initiated ≡ true
    → IsSound r
    → Delivers n (content r) (flags r) (eof r)
copy_head-eof n r e c i s =
    let none : content r ≡ [] = rw (e, (s c).1) in (none, (s c).0, none, (refl, i, s))

split_bytes :
    (n : ℕ) (bs cs ds : List ℕ) → (bs ++ cs) ++ ds ≡ take n bs ++ ((drop n bs ++ cs) ++ ds)
split_bytes zero bs cs ds = refl
split_bytes (suc n) [] cs ds = refl
split_bytes (suc n) (x ∷ xs) cs ds = ap (◌∷◌ x) (split_bytes n xs cs ds)

head_length :
    (x : Reassembly) (xs : List Reassembly) (r : StreamReader)
    → r.current ≡ x ∷ xs
    → 0 < length (x.bytes)
    → 0 < length (content r)
head_length x xs r e v =
    subst (λ c. 0 < length (bytes_of c ++ queue_bytes (r.reassembled))) (sym e)
      (omega (
        arith,
        length-append (x.bytes ++ bytes_of xs) (queue_bytes (r.reassembled)),
        length-append (x.bytes) (bytes_of xs),
        v,
      ))

copy_head-got :
    (n : ℕ) (x : Reassembly) (xs : List Reassembly) (r : StreamReader)
    → r.current ≡ x ∷ xs
    → 0 < length (x.bytes)
    → r.initiated ≡ true
    → IsSound r
    → (r.loss_errors && (not (r.loss_reported) && not (eqb_ℤ (x.skip) (pos 0)))) ≡ false
    → Delivers n
        (content r)
        (flags r)
        (got (take n (x.bytes)) (record r { current = record x { bytes = drop n (x.bytes) } ∷ xs }))
copy_head-got n x xs r e v i s told = (
  ap (λ c. bytes_of c ++ queue_bytes (r.reassembled)) e
      ∙ split_bytes n (x.bytes) (bytes_of xs) (queue_bytes (r.reassembled)),
  omega (arith, length-take n (x.bytes)),
  λ h. omega (arith, length-take n (x.bytes)),
  head_length x xs r e v,
  (refl, i, s),
  told,
)

pub copy_head-Delivers :
    (n : ℕ) (xs : List Reassembly) (r : StreamReader)
    → r.current ≡ xs
    → HeadFull xs
    → r.initiated ≡ true
    → IsSound r
    → (r.closed || ltb 0 (length xs)) ≡ true
    → Delivers n (content r) (flags r) (copy_head n xs r)
unfolding copy_head
copy_head-Delivers n [] r e v i s f = copy_head-eof n r e (ground arith) i s
copy_head-Delivers n (x ∷ xs) r e v i s f =
    if_cases (Delivers n (content r) (flags r))
      (r.loss_errors && (not (r.loss_reported) && not (eqb_ℤ (x.skip) (pos 0))))
      (λ lost. (
        refl,
        refl,
        head_length x xs r e v,
        (refl, i, s),
        ground (arith, lost),
        ap head_skips e ∙ ground (arith, lost),
      ))
      (λ told. copy_head-got n x xs r e v i s told)

-- A receive from the channel keeps what there is to read.
pub receive-content :
    (q : List (List Reassembly)) (r : StreamReader)
    → r.reassembled ≡ q
    → r.current ≡ []
    → r.closed ≡ false
    → r.initiated ≡ true
    → (r.reassembled_closed || ltb 0 (length q)) ≡ true
    → (content (receive r q) ≡ content r)
      × HeadFull (receive r q).current
      × Keeps (flags r) (receive r q)
unfolding receive strip_empty
receive-content [] r e c d i y = (rw (e, c), tt, (refl, i, λ h. (ground arith, e)))
receive-content (rs ∷ queue) r e c d i y = (
  ap (λ b. b ++ queue_bytes queue) (strip-bytes rs (r.loss_reported)) ∙ rw (e, c),
  strip-HeadFull rs (r.loss_reported),
  (refl, i, λ h. absurd cc),
)

pub strip_empty-content :
    (r : StreamReader)
    → IsSound r
    → r.initiated ≡ true
    → (content (strip_empty r) ≡ content r)
      × HeadFull (strip_empty r).current
      × Keeps (flags r) (strip_empty r)
unfolding strip_empty
strip_empty-content r s i = (
  ap (λ b. b ++ queue_bytes (r.reassembled)) (strip-bytes (r.current) (r.loss_reported)),
  strip-HeadFull (r.current) (r.loss_reported),
  (refl, i, s),
)
