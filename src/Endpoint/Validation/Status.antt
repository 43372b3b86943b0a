-- ===== src/Endpoint/Validation/Status.antt =====
-- The status words of the streams while the goroutines of `newServerEndpoint` in capturer/capture.go set
-- them: what is there, and what is still to come.
use data_collector.Base.{
  ℕ, ◌==◌, ◌≡◌, ◌⊎◌, inl, inr, ◌||◌, Bool, true, false, List, [], ◌∷◌, if◌then◌else◌, All, arith,
}
use data_collector.Streams.Concurrent.{
  ConcurrentReader, is_validate, allow_concurrent_read, validated, forbidden,
}
use data_collector.Streams.Concurrent.Status.{
  set_valid_status, forbidden_concurrent_read, has_bit, with_bit,
}
use data_collector.Endpoint.{TcpConn}
use data_collector.Endpoint.Validation.{
  Side, c2s, s2c, Call, set_valid, forbid, interrupt, seek, Task, search, search_both,
  search_second, accepting, success, failure, stream, with_stream,
}

-- The streams that a type of validation searches.
abbrev pub sides : ℕ → List Side
sides vt =
    if vt == 1
    then c2s ∷ []
    else if vt == 2
    then s2c ∷ []
    else if vt == 3
    then c2s ∷ s2c ∷ []
    else []

abbrev same : Side → Side → Bool
same c2s c2s = true
same c2s s2c = false
same s2c c2s = false
same s2c s2c = true

-- Whether a call is still to come.
abbrev is_to_validate : Side → List Call → Bool
is_to_validate side [] = false
is_to_validate side (set_valid x ∷ cs) = same x side || is_to_validate side cs
is_to_validate side (forbid x ∷ cs) = is_to_validate side cs
is_to_validate side (interrupt x ∷ cs) = is_to_validate side cs
is_to_validate side (seek x n ∷ cs) = is_to_validate side cs

abbrev is_to_forbid : Side → List Call → Bool
is_to_forbid side [] = false
is_to_forbid side (set_valid x ∷ cs) = is_to_forbid side cs
is_to_forbid side (forbid x ∷ cs) = same x side || is_to_forbid side cs
is_to_forbid side (interrupt x ∷ cs) = is_to_forbid side cs
is_to_forbid side (seek x n ∷ cs) = is_to_forbid side cs

-- A stream is validated, and shared reads of it are refused.
pub record Taken (m : ConcurrentReader) : Type 0 where
  pub valid : is_validate m ≡ true
  pub exclusive : allow_concurrent_read m ≡ false

-- What has been done is there, or is still to come.
abbrev pub Coming : TcpConn → List Call → Side → Type 0
Coming c cs side =
    ((is_to_validate side cs ≡ true) ⊎ (is_validate (stream side c) ≡ true))
    × ((is_to_forbid side cs ≡ true) ⊎ (allow_concurrent_read (stream side c) ≡ false))

abbrev pub Fine : TcpConn → ℕ → Task → Type 0
Fine c vt (search side) = sides vt ≡ side ∷ []
Fine c vt search_both = sides vt ≡ c2s ∷ s2c ∷ []
Fine c vt (search_second n) = sides vt ≡ c2s ∷ s2c ∷ []
Fine c vt (accepting cs) = All (Coming c cs) (sides vt)
Fine c vt success = All (λ side. Taken (stream side c)) (sides vt)
Fine c vt failure = Unit {0}

-- No stream loses what was done to it.
abbrev pub Later : TcpConn → TcpConn → Type 0
Later c c1 =
    (side : Side)
    → (is_validate (stream side c) ≡ true → is_validate (stream side c1) ≡ true)
      × (allow_concurrent_read (stream side c) ≡ false
          → allow_concurrent_read (stream side c1) ≡ false)

pub All-later :
    {P Q : Side → Type 0} (xs : List Side) → ((x : Side) → P x → Q x) → All P xs → All Q xs
All-later [] f h = tt
All-later (x ∷ xs) f h = (f x h.0, All-later xs f h.1)

pub or_later : {A B C : Type 0} → (B → C) → A ⊎ B → A ⊎ C
or_later f (inl a) = inl a
or_later f (inr b) = inr (f b)

pub Later-Fine : (c c1 : TcpConn) (vt : ℕ) (t : Task) → Later c c1 → Fine c vt t → Fine c1 vt t
Later-Fine c c1 vt (search side) l h = h
Later-Fine c c1 vt search_both l h = h
Later-Fine c c1 vt (search_second n) l h = h
Later-Fine c c1 vt (accepting cs) l h =
    All-later (sides vt) (λ side x. (or_later (l side).0 x.0, or_later (l side).1 x.1)) h
Later-Fine c c1 vt success l h =
    All-later (sides vt)
      (λ side x. record { valid = (l side).0 x.valid; exclusive = (l side).1 x.exclusive }) h
Later-Fine c c1 vt failure l h = tt

-- A change of one stream.
pub with-Later :
    (side : Side) (m : ConcurrentReader) (c : TcpConn)
    → (is_validate (stream side c) ≡ true → is_validate m ≡ true)
    → (allow_concurrent_read (stream side c) ≡ false → allow_concurrent_read m ≡ false)
    → Later c (with_stream side m c)
with-Later c2s m c v f c2s = (v, f)
with-Later c2s m c v f s2c = (λ e. e, λ e. e)
with-Later s2c m c v f c2s = (λ e. e, λ e. e)
with-Later s2c m c v f s2c = (v, f)

pub status-Later :
    (side : Side) (m : ConcurrentReader) (c : TcpConn)
    → m.status ≡ (stream side c).status
    → Later c (with_stream side m c)
unfolding is_validate allow_concurrent_read
status-Later side m c e =
    with-Later side m c (λ h. ground (arith, e, h)) (λ h. ground (arith, e, h))

pub validated_valid : (m : ConcurrentReader) → is_validate (validated m) ≡ true
unfolding validated is_validate set_valid_status has_bit with_bit
validated_valid m = ground arith

pub validated_exclusive :
    (m : ConcurrentReader)
    → allow_concurrent_read m ≡ false
    → allow_concurrent_read (validated m) ≡ false
unfolding validated allow_concurrent_read set_valid_status has_bit with_bit
validated_exclusive m e = ground (arith, e)

pub forbidden_exclusive : (m : ConcurrentReader) → allow_concurrent_read (forbidden m) ≡ false
unfolding forbidden allow_concurrent_read forbidden_concurrent_read has_bit with_bit
forbidden_exclusive m = ground arith

pub forbidden_valid :
    (m : ConcurrentReader) → is_validate m ≡ true → is_validate (forbidden m) ≡ true
unfolding forbidden is_validate forbidden_concurrent_read has_bit with_bit
forbidden_valid m e = ground (arith, e)
