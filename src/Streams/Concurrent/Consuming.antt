-- ===== src/Streams/Concurrent/Consuming.antt =====
-- What the exclusive reads of a `ConcurrentReader` of capturer/MutiCoroutineAccessReader.go get of its
-- stream.
use data_collector.Base.{
  ℕ, ◌<◌, ◌⊎◌, inl, inr, zero, suc, ◌+◌, ◌≤◌, ◌≡◌, refl, sym, ◌∙◌, ap, subst, Bool, true, false,
  List, [], ◌∷◌, ◌++◌, Option, none, some, length, length-take, take, drop, drop_all, arith, ltb,
  if_cases,
}
use data_collector.Streams.Reader.{
  StreamReader, read, Read, got, data_lost, eof, waits, stuck, panic,
}
use data_collector.Streams.Reader.Content.{content, flags, head_skips, IsSound, Delivers}
use data_collector.Streams.Reader.Loop.{read-Delivers}
use data_collector.Streams.Concurrent.{
  ReadError, stream_not_validated, concurrent_read_not_allowed, lost_data, end_of_file,
  ConcurrentReader, Outcome, copied, fails, held, crashes, unfinished, is_validate, pass_on,
  read_cache, read_reader, exclusive_read, seek_to,
}

abbrev pub stream_bytes : Option StreamReader → List ℕ
stream_bytes none = []
stream_bytes (some r) = content r

-- The bytes of the stream from the cache's first one on.
abbrev pub unread : ConcurrentReader → List ℕ
unread m = m.cache ++ stream_bytes (m.reader)

-- The reader is there once its arrival was broadcast.
abbrev pub IsReady : Bool → Option StreamReader → Type 0
IsReady broadcast none = broadcast ≡ false
IsReady broadcast (some r) = (r.initiated ≡ true) × IsSound r

abbrev pub Sound : ConcurrentReader → Type 0
Sound m = IsReady (m.broadcast) (m.reader)

-- A stream that reports losses, and comes to one.
abbrev pub Loses : Option StreamReader → Type 0
Loses none = ⊥
Loses (some r) = (r.loss_errors ≡ true) × (head_skips (r.current) ≡ true)

-- Why a read failed, of which `bs` was what there was to read.
abbrev pub FailsFor : List ℕ → ReadError → ConcurrentReader → Type 0
FailsFor bs stream_not_validated m = is_validate m ≡ false
FailsFor bs concurrent_read_not_allowed m = ⊥
FailsFor bs lost_data m = Loses (m.reader)
FailsFor bs end_of_file m = bs ≡ []

-- What a read that takes bytes out does, by its outcome: `bs` is what there was to read.
abbrev pub Consumes : ℕ → List ℕ → Outcome → Type 0
Consumes n bs (copied cs m) =
    (bs ≡ cs ++ unread m) × (length cs ≤ n) × Sound m × (0 < n → 0 < length cs)
Consumes n bs (fails e m) = (bs ≡ unread m) × Sound m × FailsFor bs e m
Consumes n bs (held m) = (bs ≡ unread m) × Sound m × ((bs ≡ []) ⊎ (m.broadcast ≡ false))
Consumes n bs (crashes m) = ⊥
Consumes n bs unfinished = ⊥

pass_on-Consumes :
    (n : ℕ) (m : ConcurrentReader) (bs : List ℕ) (f : Bool × Bool) (x : Read)
    → m.cache ≡ []
    → Delivers n bs f x
    → Consumes n bs (pass_on m x)
unfolding pass_on
pass_on-Consumes n m bs f (got cs r) c d =
    (d.0 ∙ ap (λ z. cs ++ (z ++ content r)) (sym c), d.1, (d.4.1, d.4.2), d.2)
pass_on-Consumes n m bs f (data_lost r) c d =
    (d.0 ∙ ap (λ z. z ++ content r) (sym c), (d.3.1, d.3.2), (ap (λ z. z.1) d.3.0 ∙ d.4, d.5))
pass_on-Consumes n m bs f (eof r) c d =
    (d.0 ∙ sym (d.2) ∙ ap (λ z. z ++ content r) (sym c), (d.3.1, d.3.2), d.0)
pass_on-Consumes n m bs f (waits r) c d =
    (d.0 ∙ sym (d.2) ∙ ap (λ z. z ++ content r) (sym c), (d.3.1, d.3.2), inl d.0)
pass_on-Consumes n m bs f (stuck r) c d = absurd d
pass_on-Consumes n m bs f (panic r) c d = absurd d

pub split_cache :
    (n : ℕ) (xs ys : List ℕ) → xs ++ ys ≡ take n xs ++ (drop (length (take n xs)) xs ++ ys)
split_cache zero xs ys = refl
split_cache (suc n) [] ys = refl
split_cache (suc n) (x ∷ xs) ys = ap (◌∷◌ x) (split_cache n xs ys)

all_taken :
    (n : ℕ) (xs : List ℕ)
    → ltb (length (take n xs)) (length xs) ≡ false
    → drop (length (take n xs)) xs ≡ []
all_taken n xs e = drop_all (length (take n xs)) xs (ground arith)

read_cache-Consumes :
    (n : ℕ) (m : ConcurrentReader)
    → Sound m
    → ltb 0 (length (m.cache)) ≡ true
    → Consumes n (unread m) (read_cache n m)
unfolding read_cache
read_cache-Consumes n m s some_cached =
    let bs = take n (m.cache) in
    let cut = split_cache n (m.cache) (stream_bytes (m.reader)) in
    if_cases (Consumes n (unread m)) (ltb (length bs) (length (m.cache)))
      (λ e. (cut, omega (arith, length-take n (m.cache)), s, λ h. some_taken h))
      (λ e. (
        cut ∙ ap (λ z. bs ++ (z ++ stream_bytes (m.reader))) (all_taken n (m.cache) e),
        omega (arith, length-take n (m.cache)),
        s,
        λ h. some_taken h,
      ))
  where
    some_taken : 0 < n → 0 < length (take n (m.cache))
    some_taken h =
        let cached : 0 < length (m.cache) = ground (arith, some_cached) in
        omega (arith, h, cached, length-take n (m.cache))

module _ (pick : StreamReader → Bool) where
  read_reader-Consumes :
      (n : ℕ) (o : Option StreamReader) (m : ConcurrentReader)
      → m.reader ≡ o
      → m.broadcast ≡ true
      → m.cache ≡ []
      → IsReady true o
      → Consumes n (stream_bytes o) (read_reader pick n m o)
  unfolding read_reader
  read_reader-Consumes n none m e b c s = absurd cc
  read_reader-Consumes n (some r) m e b c s =
      pass_on-Consumes n m (content r) (flags r) (read pick n r) c (read-Delivers pick n r s.0 s.1)

  no_cache : (xs : List ℕ) → ltb 0 (length xs) ≡ false → xs ≡ []
  no_cache [] e = refl
  no_cache (x ∷ xs) e = absurd (ground (arith, e))

  pub exclusive_read-Consumes :
      (n : ℕ) (m : ConcurrentReader) → Sound m → Consumes n (unread m) (exclusive_read pick n m)
  unfolding exclusive_read
  exclusive_read-Consumes n m s =
      let P = Consumes n (unread m) in
      if_cases P (is_validate m)
        (λ v.
          if_cases P (ltb 0 (length (m.cache))) (λ c. read_cache-Consumes n m s c)
            (λ c.
              if_cases P (m.broadcast)
                (λ b.
                  let e = no_cache (m.cache) c in
                  subst
                    (λ z.
                      Consumes n (z ++ stream_bytes (m.reader)) (read_reader pick n m (m.reader)))
                    (sym e)
                    (read_reader-Consumes n (m.reader) m refl b e
                      (subst (λ z. IsReady z (m.reader)) b s)))
                (λ b. (refl, s, inr b))))
        (λ v. (refl, s, v))

pub drop-length : (bs cs : List ℕ) → drop (length bs) (bs ++ cs) ≡ cs
drop-length [] cs = refl
drop-length (x ∷ bs) cs = drop-length bs cs

drop-nil : (i : ℕ) → drop {A = ℕ} i [] ≡ []
drop-nil zero = refl
drop-nil (suc i) = refl

pub drop-drop : (i j : ℕ) (xs : List ℕ) → drop (i + j) xs ≡ drop j (drop i xs)
drop-drop zero j xs = let e : 0 + j ≡ j = omega arith in ap (λ k. drop k xs) e
drop-drop (suc i) j [] = drop-nil (suc i + j) ∙ sym (drop-nil j)
drop-drop (suc i) j (x ∷ xs) =
    let e : suc i + j ≡ suc (i + j) = omega arith in ap (λ k. drop k (x ∷ xs)) e ∙ drop-drop i j xs

pub drop-append : (i : ℕ) (xs ys : List ℕ) → i ≤ length xs → drop i (xs ++ ys) ≡ drop i xs ++ ys
drop-append zero xs ys h = refl
drop-append (suc i) [] ys h = absurd (omega arith)
drop-append (suc i) (x ∷ xs) ys h = drop-append i xs ys (omega arith)

seek_returns :
    (i : ℕ) (m m' : ConcurrentReader)
    → seek_to i m ≡ some m'
    → (i ≤ length (m.cache)) × (record m { cache = drop i (m.cache) } ≡ m')
unfolding seek_to
seek_returns i m m' e = ground arith

seek_unread :
    (i : ℕ) (m m' : ConcurrentReader) → seek_to i m ≡ some m' → unread m' ≡ drop i (unread m)
seek_unread i m m' e =
    let (h, same) = seek_returns i m m' e in
    ap unread (sym same) ∙ sym (drop-append i (m.cache) (stream_bytes (m.reader)) h)

-- Of a reader whose stream is there and sound, or not announced: after a seek to place i that is
-- not out of range, a read takes its bytes from place i of what there was to read, in the cache and
-- in the stream.
pub exclusive_read-seek_to :
    (pick : StreamReader → Bool) (i n : ℕ) (m m' : ConcurrentReader)
    → Sound m
    → seek_to i m ≡ some m'
    → Consumes n (drop i (unread m)) (exclusive_read pick n m')
exclusive_read-seek_to pick i n m m' s e =
    let (h, same) = seek_returns i m m' e in
    subst (λ z. Consumes n z (exclusive_read pick n m')) (seek_unread i m m' e)
      (exclusive_read-Consumes pick n m' (subst Sound same s))
