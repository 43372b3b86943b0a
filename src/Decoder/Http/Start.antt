-- ===== src/Decoder/Http/Start.antt =====
-- Where the searches of decoder/http.go find a valid start.
use data_collector.Base.{
  ℕ, zero, suc, ◌+◌, ◌*◌, ◌≤◌, ◌≡◌, ◌⊎◌, inl, inr, refl, sym, ◌∙◌, ap, subst, ◌==◌, Bool, true,
  false, List, [], ◌∷◌, ◌++◌, append_assoc, none, some, Bool-cases, Option-cases, length,
  length-append, Text, get_last?-append, take, drop, ◌-◌, arith, All, index_byte,
}
use data_collector.Decoder.Http.{
  read_slice, Located, found, failed, unfinished, ends_in_return, locate,
  locate_to_valid_start_in_c2s_stream, locate_to_valid_start_in_s2c_stream,
}

-- A line is what is before the delimiter.
abbrev pub IsLine : ℕ → Text → Text → Text → Type 0
IsLine delim bs line rest = bs ≡ line ++ delim ∷ rest

index_cases :
    (delim x : ℕ) (xs : Text) (i : ℕ)
    → index_byte delim (x ∷ xs) ≡ some i
    → ((x ≡ delim) × (i ≡ 0)) ⊎ ((j : ℕ) × (index_byte delim xs ≡ some j) × (i ≡ suc j))
unfolding index_byte
index_cases delim x xs i e = elim (Option-cases (index_byte delim xs)) [
  | inl n ↦ inl (ground (arith, n, e), ground (arith, n, e))
  | inr (j, s) ↦ elim (Bool-cases (x == delim)) [
    | inl t ↦ inl (ground (arith, t), ground (arith, t, e))
    | inr t ↦ inr (j, s, ground (arith, t, s, e))
  ]
]

index_byte-split :
    (delim : ℕ) (bs : Text) (i : ℕ)
    → index_byte delim bs ≡ some i
    → (line : Text) × (rest : Text) × IsLine delim bs line rest × (i ≡ length line)
unfolding index_byte
index_byte-split delim [] i e = absurd cc
index_byte-split delim (x ∷ xs) i e = elim (index_cases delim x xs i e) [
  | inl h ↦ ([], xs, ap (λ z. z ∷ xs) h.0, h.1)
  | inr (j, f, k) ↦
      let (line, rest, split, at) = index_byte-split delim xs j f in
      (x ∷ line, rest, ap (◌∷◌ x) split, omega (arith, k, at))
]

take-line :
    (line : Text) (delim : ℕ) (rest : Text)
    → take (suc (length line)) (line ++ delim ∷ rest) ≡ line ++ delim ∷ []
take-line [] delim rest = refl
take-line (x ∷ xs) delim rest = ap (◌∷◌ x) (take-line xs delim rest)

drop-line :
    (line : Text) (delim : ℕ) (rest : Text) → drop (suc (length line)) (line ++ delim ∷ rest) ≡ rest
drop-line [] delim rest = refl
drop-line (x ∷ xs) delim rest = drop-line xs delim rest

slice_index :
    (delim : ℕ) (bs line rest : Text)
    → read_slice delim bs ≡ some (line, rest)
    → (i : ℕ) × (index_byte delim bs ≡ some i) × (take (suc i) bs ≡ line) × (drop (suc i) bs ≡ rest)
unfolding read_slice
slice_index delim bs line rest e = elim (Option-cases (index_byte delim bs)) [
  | inl n ↦ absurd (ground (arith, n, e))
  | inr (i, s) ↦ (i, s, ground (arith, s, e), ground (arith, s, e))
]

-- A slice that was read is a line with the delimiter behind it.
read_slice-IsLine :
    (delim : ℕ) (bs slice rest : Text)
    → read_slice delim bs ≡ some (slice, rest)
    → (line : Text) × (slice ≡ line ++ delim ∷ []) × IsLine delim bs line rest
read_slice-IsLine delim bs slice rest e =
    let (i, at, t, d) = slice_index delim bs slice rest e in
    let (line, more, split, len) = index_byte-split delim bs i at in
    let cut : drop (suc i) bs ≡ more =
      ap (λ z. drop (suc z) bs) len
      ∙ ap (drop (suc (length line))) split
      ∙ drop-line line delim more in
    (
      line,
      sym t
          ∙ ap (λ z. take (suc z) bs) len
          ∙ ap (take (suc (length line))) split
          ∙ take-line line delim more,
      subst (λ z. bs ≡ line ++ delim ∷ z) (sym cut ∙ d) split,
    )

take-length : (line : Text) (delim : ℕ) → take (length line) (line ++ delim ∷ []) ≡ line
take-length [] delim = refl
take-length (x ∷ xs) delim = ap (◌∷◌ x) (take-length xs delim)

-- The lines, each with the carriage return behind it.
abbrev pub joined : List Text → Text
joined [] = []
joined (l ∷ ls) = l ++ b'\r' ∷ joined ls

module _ (check : Text → Bool) where
  -- The answer to a search that has counted `total` before the bytes `bs`.
  abbrev pub Answers : Text → ℕ → Located → Type 0
  Answers bs total (found n) =
      (ls : List Text) × (l : Text) × (rest : Text) × (bs ≡ joined ls ++ (l ++ b'\r' ∷ rest))
      × (n ≡ total + length (joined ls) + 2 * length ls)
      × All (λ x. check x ≡ false) ls
      × (check l ≡ true)
  Answers bs total failed =
      (ls : List Text) × (rest : Text) × (bs ≡ joined ls ++ rest)
      × All (λ x. check x ≡ false) ls
      × (read_slice b'\r' rest ≡ none)
  Answers bs total unfinished = ⊥

  locate-none :
      (delim fuel total : ℕ) (bs : Text)
      → read_slice delim bs ≡ none
      → locate check delim (suc fuel) bs total ≡ failed
  unfolding locate
  locate-none delim fuel total bs e = ground (arith, e)

  locate_found :
      (delim fuel total : ℕ) (bs line rest : Text)
      → read_slice delim bs ≡ some (line, rest)
      → ends_in_return line ≡ true
      → check (take (length line - 1) line) ≡ true
      → locate check delim (suc fuel) bs total ≡ found total
  unfolding locate
  locate_found delim fuel total bs line rest e r c = ground (arith, e, r, c)

  locate_invalid :
      (delim fuel total : ℕ) (bs line rest : Text)
      → read_slice delim bs ≡ some (line, rest)
      → ends_in_return line ≡ true
      → check (take (length line - 1) line) ≡ false
      → locate check delim (suc fuel) bs total
        ≡ locate check delim fuel rest (total + length line + 2)
  unfolding locate
  locate_invalid delim fuel total bs line rest e r c = ground (arith, e, r, c)

  locate_longer :
      (delim fuel total : ℕ) (bs line rest : Text)
      → read_slice delim bs ≡ some (line, rest)
      → ends_in_return line ≡ false
      → locate check delim (suc fuel) bs total
        ≡ locate check delim fuel rest (total + length line + 1)
  unfolding locate
  locate_longer delim fuel total bs line rest e r = ground (arith, e, r)

  ends-line : (delim : ℕ) (line : Text) → ends_in_return (line ++ delim ∷ []) ≡ (delim == b'\r')
  unfolding ends_in_return
  ends-line delim line = ground (arith, get_last?-append line delim)

  init-line :
      (delim : ℕ) (line : Text) → take (length (line ++ delim ∷ []) - 1) (line ++ delim ∷ []) ≡ line
  init-line delim line =
      let e : length (line ++ delim ∷ []) - 1 ≡ length line =
        omega (arith, length-append line (delim ∷ [])) in
      ap (λ z. take z (line ++ delim ∷ [])) e ∙ take-length line delim

  shorter :
      (delim : ℕ) (bs line rest : Text) → IsLine delim bs line rest → suc (length rest) ≤ length bs
  shorter delim bs line rest e =
      subst (λ z. suc (length rest) ≤ length z) (sym e)
        (omega (arith, length-append line (delim ∷ rest)))

  Answers-skip :
      (line bs rest : Text) (total : ℕ) (x : Located)
      → IsLine b'\r' bs line rest
      → check line ≡ false
      → Answers rest (total + length (line ++ b'\r' ∷ []) + 2) x
      → Answers bs total x
  Answers-skip line bs rest total (found n) e c (ls, l, more, split, count, all, ok) = (
    line ∷ ls,
    l,
    more,
    e
        ∙ ap (λ z. line ++ b'\r' ∷ z) split
        ∙ sym (append_assoc line (b'\r' ∷ joined ls) (l ++ b'\r' ∷ more)),
    omega (arith, count, length-append line (b'\r' ∷ []), length-append line (b'\r' ∷ joined ls)),
    (c, all),
    ok,
  )
  Answers-skip line bs rest total failed e c (ls, more, split, all, stop) = (
    line ∷ ls,
    more,
    e ∙ ap (λ z. line ++ b'\r' ∷ z) split ∙ sym (append_assoc line (b'\r' ∷ joined ls) more),
    (c, all),
    stop,
  )
  Answers-skip line bs rest total unfinished e c a = a

  locate-Answers :
      (fuel total : ℕ) (bs : Text)
      → suc (length bs) ≤ fuel
      → Answers bs total (locate check b'\r' fuel bs total)
  locate-Answers zero total bs h = absurd (omega (arith, h))
  locate-Answers (suc fuel) total bs h = elim (Option-cases (read_slice b'\r' bs)) [
    | inl e ↦
        subst (Answers bs total) (sym (locate-none b'\r' fuel total bs e)) ([], bs, refl, tt, e)
    | inr ((slice, rest), e) ↦
        let (line, whole, split) = read_slice-IsLine b'\r' bs slice rest e in
        let e' : read_slice b'\r' bs ≡ some (line ++ b'\r' ∷ [], rest) =
          e ∙ ap (λ z. some (z, rest)) whole in
        let last = ends-line b'\r' line in
        let core = init-line b'\r' line in
        elim (Bool-cases (check line)) [
          | inl c ↦
              subst (Answers bs total)
                (sym (
                  locate_found b'\r' fuel total bs (line ++ b'\r' ∷ []) rest e' last
                    (ap check core ∙ c)))
                ([], line, rest, split, omega arith, tt, c)
          | inr c ↦
              subst (Answers bs total)
                (sym (
                  locate_invalid b'\r' fuel total bs (line ++ b'\r' ∷ []) rest e' last
                    (ap check core ∙ c)))
                (Answers-skip line bs rest total
                  (locate check b'\r' fuel rest (total + length (line ++ b'\r' ∷ []) + 2)) split c
                  (locate-Answers fuel (total + length (line ++ b'\r' ∷ []) + 2) rest
                    (omega (arith, h, shorter b'\r' bs line rest split))))
        ]
  ]

  never_found :
      (fuel total : ℕ) (bs : Text)
      → suc (length bs) ≤ fuel
      → locate check b'\n' fuel bs total ≡ failed
  never_found zero total bs h = absurd (omega (arith, h))
  never_found (suc fuel) total bs h = elim (Option-cases (read_slice b'\n' bs)) [
    | inl e ↦ locate-none b'\n' fuel total bs e
    | inr ((slice, rest), e) ↦
        let (line, whole, split) = read_slice-IsLine b'\n' bs slice rest e in
        locate_longer b'\n' fuel total bs slice rest e
          (ap ends_in_return whole ∙ ends-line b'\n' line)
        ∙ never_found fuel (total + length slice + 1) rest
            (omega (arith, h, shorter b'\n' bs line rest split))
  ]

  -- The search in the client's stream ends. It finds the first line, up to a carriage return, that
  -- passes the test, and answers with the number of bytes before it and two more for each line before
  -- it; or it fails where no such line is whole, or fits the buffer, after lines that do not pass.
  pub locate_to_valid_start_in_c2s_stream-Answers :
      (bs : Text) → Answers bs 0 (locate_to_valid_start_in_c2s_stream check bs)
  unfolding locate_to_valid_start_in_c2s_stream
  locate_to_valid_start_in_c2s_stream-Answers bs =
      locate-Answers (suc (length bs)) 0 bs (omega arith)

  -- The search in the server's stream ends and fails, whatever the stream is and whatever lines pass.
  pub locate_to_valid_start_in_s2c_stream_fails :
      (bs : Text) → locate_to_valid_start_in_s2c_stream check bs ≡ failed
  unfolding locate_to_valid_start_in_s2c_stream
  locate_to_valid_start_in_s2c_stream_fails bs = never_found (suc (length bs)) 0 bs (omega arith)
