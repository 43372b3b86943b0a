-- ===== src/Decoder/Default.antt =====
-- `Parse` of the default decoder in capturer/decoder.go. Nothing else changes the status words while it
-- sets them.
use data_collector.Base.{
  ℕ, ◌<◌, ◌⊎◌, inl, inr, false, ◌≤◌, ◌≡◌, refl, Bool, ap, ◌∙◌, sym, subst, Option, none, some, true,
  List, [], ◌++◌, length, take, ltb, arith, if_cases,
}
use data_collector.Streams.Reader.{
  StreamReader, Read, read, got, data_lost, eof, waits, stuck, panic,
}
use data_collector.Streams.Concurrent.{
  ReadError, stream_not_validated, concurrent_read_not_allowed, lost_data, end_of_file,
  ConcurrentReader, Outcome, copied, fails, held, crashes, unfinished, exclusive_read, read_cache,
  read_reader, pass_on, is_validate, validated,
}
use data_collector.Streams.Concurrent.Status.{set_valid_status, has_bit, with_bit, validate_checker}
use data_collector.Streams.Concurrent.Consuming.{
  unread, Sound, Loses, FailsFor, Consumes, exclusive_read-Consumes,
}
use data_collector.Endpoint.{TcpConn}

-- `make([]byte, 1024, 1024)`
abbrev pub temp_size : ℕ
temp_size = 1024

-- How it ends: with the two contents that it logs; in a read that waits, of the client's stream, or of
-- the server's one with the client's content logged; or in a read that crashes or has no end.
pub data DefaultParsed : Type 0 where
  parsed : List ℕ → List ℕ → TcpConn → DefaultParsed
  waits_for_client : TcpConn → DefaultParsed
  waits_for_server : List ℕ → TcpConn → DefaultParsed
  no_end : DefaultParsed

-- The second read, and what follows it; after an error the content is empty.
unfoldable pub after_server : List ℕ → TcpConn → Outcome → DefaultParsed
after_server bs c (copied cs m) = parsed bs cs (record c { server2client_stream = m })
after_server bs c (fails e m) = parsed bs [] (record c { server2client_stream = m })
after_server bs c (held m) = waits_for_server bs (record c { server2client_stream = m })
after_server bs c (crashes m) = no_end
after_server bs c unfinished = no_end

module _ (pick : StreamReader → Bool) where
  unfoldable pub read_server : List ℕ → TcpConn → DefaultParsed
  unfolding after_server exclusive_read
  read_server bs c = after_server bs c (exclusive_read pick temp_size (c.server2client_stream))

  -- The first read; the flags are tested before any of them is set.
  unfoldable pub after_client : TcpConn → Outcome → DefaultParsed
  unfolding read_server
  after_client c (copied bs m) = read_server bs (record c { client2server_stream = m })
  after_client c (fails e m) = read_server [] (record c { client2server_stream = m })
  after_client c (held m) = waits_for_client (record c { client2server_stream = m })
  after_client c (crashes m) = no_end
  after_client c unfinished = no_end

  -- `Parse`
  unfoldable pub default_parse : TcpConn → DefaultParsed
  unfolding validated after_client exclusive_read
  default_parse c =
      let c1 = record c {
        client2server_stream = validated (c.client2server_stream);
        server2client_stream = validated (c.server2client_stream);
      } in
      after_client c1 (exclusive_read pick temp_size (c1.client2server_stream))

-- Of what there was to read of a stream, the first bytes were taken, at most as many as fit; and the
-- stream counts as validated.
pub record Took (bs : List ℕ) (m m' : ConcurrentReader) : Type 0 where
  pub front : unread m ≡ bs ++ unread m'
  pub fits : length bs ≤ temp_size
  pub sound : Sound m'
  pub valid : is_validate m' ≡ true

-- A read that was made and gave these bytes: there are some, or it reported a loss, or nothing was left.
abbrev pub Answered : List ℕ → ConcurrentReader → ConcurrentReader → Type 0
Answered bs m m' = Took bs m m' × ((0 < length bs) ⊎ ((unread m ≡ []) ⊎ Loses m'.reader))

-- A read that was made and waits: nothing was left, or the stream is not announced.
abbrev pub Waited : ConcurrentReader → ConcurrentReader → Type 0
Waited m m' = Took [] m m' × ((unread m ≡ []) ⊎ (m'.broadcast ≡ false))

abbrev pub TookFromBoth : TcpConn → DefaultParsed → Type 0
TookFromBoth c (parsed bs cs c') =
    Answered bs c.client2server_stream c'.client2server_stream
    × Answered cs c.server2client_stream c'.server2client_stream
TookFromBoth c (waits_for_client c') =
    Waited c.client2server_stream c'.client2server_stream
    × Took [] c.server2client_stream c'.server2client_stream
TookFromBoth c (waits_for_server bs c') =
    Answered bs c.client2server_stream c'.client2server_stream
    × Waited c.server2client_stream c'.server2client_stream
TookFromBoth c no_end = ⊥

-- A read leaves the status word as it was.
abbrev SameStatus : ℕ → Outcome → Type 0
SameStatus s (copied bs m) = m.status ≡ s
SameStatus s (fails e m) = m.status ≡ s
SameStatus s (held m) = m.status ≡ s
SameStatus s (crashes m) = m.status ≡ s
SameStatus s unfinished = Unit {0}

pass_on-SameStatus : (m : ConcurrentReader) (x : Read) → SameStatus m.status (pass_on m x)
unfolding pass_on
pass_on-SameStatus m (got bs r) = refl
pass_on-SameStatus m (data_lost r) = refl
pass_on-SameStatus m (eof r) = refl
pass_on-SameStatus m (waits r) = refl
pass_on-SameStatus m (stuck r) = tt
pass_on-SameStatus m (panic r) = refl

module _ (pick : StreamReader → Bool) where
  read_reader-SameStatus :
      (n : ℕ) (m : ConcurrentReader) (o : Option StreamReader)
      → SameStatus m.status (read_reader pick n m o)
  unfolding read_reader
  read_reader-SameStatus n m none = refl
  read_reader-SameStatus n m (some r) = pass_on-SameStatus m (read pick n r)

  exclusive_read-SameStatus :
      (n : ℕ) (m : ConcurrentReader) → SameStatus m.status (exclusive_read pick n m)
  unfolding exclusive_read read_cache
  exclusive_read-SameStatus n m =
      let P = SameStatus m.status in
      if_cases P (is_validate m)
        (λ v.
          if_cases P (ltb 0 (length (m.cache)))
            (λ c.
              if_cases P (ltb (length (take n (m.cache))) (length (m.cache))) (λ l. refl)
                (λ l. refl))
            (λ c.
              if_cases P (m.broadcast) (λ b. read_reader-SameStatus n m (m.reader)) (λ b. refl)))
        (λ v. refl)

validated_lem : (m : ConcurrentReader) → is_validate (validated m) ≡ true
unfolding validated is_validate set_valid_status has_bit with_bit
validated_lem m = ground arith

valid_same :
    (m m' : ConcurrentReader) → m'.status ≡ m.status → is_validate m ≡ true → is_validate m' ≡ true
unfolding is_validate
valid_same m m' e v = ap (has_bit validate_checker) e ∙ v

validated-Took : (m : ConcurrentReader) → Sound m → Took [] m (validated m)
unfolding validated
validated-Took m s = record { front = refl; fits = omega arith; sound = s; valid = validated_lem m }

-- A read after `SetValidStatus`.
abbrev TookBy : ConcurrentReader → Outcome → Type 0
TookBy m (copied bs m') = Answered bs m m'
TookBy m (fails e m') = Answered [] m m'
TookBy m (held m') = Waited m m'
TookBy m (crashes m') = ⊥
TookBy m unfinished = ⊥

failed :
    (m v m' : ConcurrentReader) (f : ReadError)
    → unread m ≡ unread v
    → is_validate m' ≡ true
    → FailsFor (unread v) f m'
    → (unread m ≡ []) ⊎ Loses m'.reader
failed m v m' stream_not_validated e is_valid r = absurd (ground (arith, is_valid, r))
failed m v m' concurrent_read_not_allowed e is_valid r = absurd r
failed m v m' lost_data e is_valid r = inr r
failed m v m' end_of_file e is_valid r = inl (e ∙ r)

by_outcome :
    (m v : ConcurrentReader) (x : Outcome)
    → unread m ≡ unread v
    → is_validate v ≡ true
    → Consumes temp_size (unread v) x
    → SameStatus v.status x
    → TookBy m x
by_outcome m v (copied bs m') e is_valid c s = (
  record { front = e ∙ c.0; fits = c.1; sound = c.2; valid = valid_same v m' s is_valid },
  inl (c.3 (omega arith)),
)
by_outcome m v (fails f m') e is_valid c s = (
  record { front = e ∙ c.0; fits = omega arith; sound = c.1; valid = valid_same v m' s is_valid },
  inr (failed m v m' f e (valid_same v m' s is_valid) c.2),
)
by_outcome m v (held m') e is_valid c s = (
  record { front = e ∙ c.0; fits = omega arith; sound = c.1; valid = valid_same v m' s is_valid },
  waited c.2,
)
  where
    waited : (unread v ≡ []) ⊎ (m'.broadcast ≡ false) → (unread m ≡ []) ⊎ (m'.broadcast ≡ false)
    waited (inl h) = inl (e ∙ h)
    waited (inr h) = inr h
by_outcome m v (crashes m') e is_valid c s = c
by_outcome m v unfinished e is_valid c s = c

module _ (pick : StreamReader → Bool) where
  read-TookBy :
      (m : ConcurrentReader) → Sound m → TookBy m (exclusive_read pick temp_size (validated m))
  unfolding validated
  read-TookBy m s =
      by_outcome m (validated m) (exclusive_read pick temp_size (validated m)) refl
        (validated_lem m) (exclusive_read-Consumes pick temp_size (validated m) s)
        (exclusive_read-SameStatus pick temp_size (validated m))

server_part :
    (c c1 : TcpConn) (bs : List ℕ) (x : Outcome)
    → Answered bs c.client2server_stream c1.client2server_stream
    → TookBy c.server2client_stream x
    → TookFromBoth c (after_server bs c1 x)
unfolding after_server
server_part c c1 bs (copied cs m) t u = (t, u)
server_part c c1 bs (fails e m) t u = (t, u)
server_part c c1 bs (held m) t u = (t, u)
server_part c c1 bs (crashes m) t u = u
server_part c c1 bs unfinished t u = u

module _ (pick : StreamReader → Bool) where
  client_part :
      (c c1 : TcpConn) (x : Outcome)
      → Sound c.server2client_stream
      → c1.server2client_stream ≡ validated c.server2client_stream
      → TookBy c.client2server_stream x
      → TookFromBoth c (after_client pick c1 x)
  unfolding after_client read_server
  client_part c c1 (copied bs m) s e t =
      server_part c (record c1 { client2server_stream = m }) bs
        (exclusive_read pick temp_size (c1.server2client_stream)) t
        (subst (λ v. TookBy c.server2client_stream (exclusive_read pick temp_size v)) (sym e)
          (read-TookBy pick c.server2client_stream s))
  client_part c c1 (fails f m) s e t =
      server_part c (record c1 { client2server_stream = m }) []
        (exclusive_read pick temp_size (c1.server2client_stream)) t
        (subst (λ v. TookBy c.server2client_stream (exclusive_read pick temp_size v)) (sym e)
          (read-TookBy pick c.server2client_stream s))
  client_part c c1 (held m) s e t = (
    t,
    subst (λ v. Took [] c.server2client_stream v) (sym e) (validated-Took c.server2client_stream s),
  )
  client_part c c1 (crashes m) s e t = t
  client_part c c1 unfinished s e t = t

  -- With both streams there and sound, or not announced, the default decoder never crashes, and marks both
  -- streams as validated. It makes one read of each stream, the client's first, which takes at most 1024
  -- bytes off its front, and logs them in their order; the rest stays. Either read gives one byte at
  -- least, or ends with none at the end of the stream or at a loss that is reported, or the decoder waits
  -- in it, with nothing left to read or for a stream that is not announced.
  pub default_parse-TookFromBoth :
      (c : TcpConn)
      → Sound c.client2server_stream
      → Sound c.server2client_stream
      → TookFromBoth c (default_parse pick c)
  unfolding default_parse
  default_parse-TookFromBoth c s t =
      client_part c
        (record c {
          client2server_stream = validated (c.client2server_stream);
          server2client_stream = validated (c.server2client_stream);
        })
        (exclusive_read pick temp_size (validated (c.client2server_stream))) t refl
        (read-TookBy pick c.client2server_stream s)
