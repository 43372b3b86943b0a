-- ===== src/Assembly/Steady/Slots.antt =====
-- The map of a stream pool of capturer/extendedassembly.go as slots: what is known of each connection
-- that the map holds.
use data_collector.Base.{
  ℕ, ◌≡◌, refl, sym, ap, ◌∙◌, ◌⊎◌, inl, inr, true, false, Bool-cases, List, [], ◌∷◌, ◌++◌, none,
  some, All, All-append, All-left, All-right, arith, append_assoc,
}
use data_collector.Assembly.Connection.{Key}
use data_collector.Assembly.Pool.{same_key, find, delete}

-- A connection that the map holds: its key, its number, its stream and its pages.
pub record Slot : Type 0 where
  pub key : Key
  pub id : ℕ
  pub stream : ℕ
  pub ids : List ℕ

abbrev pub entries : List Slot → List (Key × ℕ)
entries [] = []
entries (s ∷ ss) = (s.key, s.id) ∷ entries ss

abbrev pub numbers : List Slot → List ℕ
numbers [] = []
numbers (s ∷ ss) = s.id ∷ numbers ss

abbrev pub streams_of : List Slot → List ℕ
streams_of [] = []
streams_of (s ∷ ss) = s.stream ∷ streams_of ss

abbrev pub pages_of : List Slot → List ℕ
pages_of [] = []
pages_of (s ∷ ss) = s.ids ++ pages_of ss

pub numbers-append : (xs ys : List Slot) → numbers (xs ++ ys) ≡ numbers xs ++ numbers ys
numbers-append [] ys = refl
numbers-append (x ∷ xs) ys = ap (◌∷◌ x.id) (numbers-append xs ys)

pub streams_of-append : (xs ys : List Slot) → streams_of (xs ++ ys) ≡ streams_of xs ++ streams_of ys
streams_of-append [] ys = refl
streams_of-append (x ∷ xs) ys = ap (◌∷◌ x.stream) (streams_of-append xs ys)

pub pages_of-append : (xs ys : List Slot) → pages_of (xs ++ ys) ≡ pages_of xs ++ pages_of ys
pages_of-append [] ys = refl
pages_of-append (x ∷ xs) ys =
    ap (λ z. x.ids ++ z) (pages_of-append xs ys)
    ∙ sym (append_assoc x.ids (pages_of xs) (pages_of ys))

pub entries_same_key :
    (xs : List Slot) (s t : Slot) (ys : List Slot)
    → t.key ≡ s.key
    → t.id ≡ s.id
    → entries (xs ++ s ∷ ys) ≡ entries (xs ++ t ∷ ys)
entries_same_key [] s t ys e f = rw (e, f)
entries_same_key (x ∷ xs) s t ys e f = ap (◌∷◌ (x.key, x.id)) (entries_same_key xs s t ys e f)

-- No two slots have one key.
abbrev pub Other : Key → Slot → Type 0
Other k s = same_key s.key k ≡ false

abbrev pub KeysApart : List Slot → Type 0
KeysApart [] = Unit {0}
KeysApart (s ∷ ss) = All (Other s.key) ss × KeysApart ss

pub same_key_refl : (k : Key) → same_key k k ≡ true
same_key_refl k = ground arith

pub same_key_sym : (j k : Key) → same_key j k ≡ same_key k j
same_key_sym j k = ground arith

pub same_key_eq : (j k : Key) → same_key j k ≡ true → j ≡ k
same_key_eq j k e = ground arith

pub KeysApart-before :
    (xs : List Slot) (s : Slot) (ys : List Slot) → KeysApart (xs ++ s ∷ ys) → All (Other s.key) xs
KeysApart-before [] s ys h = tt
KeysApart-before (x ∷ xs) s ys h =
    (same_key_sym x.key s.key ∙ (All-right _ xs (s ∷ ys) h.0).0, KeysApart-before xs s ys h.1)

pub KeysApart-without :
    (xs : List Slot) (s : Slot) (ys : List Slot) → KeysApart (xs ++ s ∷ ys) → KeysApart (xs ++ ys)
KeysApart-without [] s ys h = h.1
KeysApart-without (x ∷ xs) s ys h = (
  All-append _ xs ys (All-left _ xs (s ∷ ys) h.0) (All-right _ xs (s ∷ ys) h.0).1,
  KeysApart-without xs s ys h.1,
)

pub KeysApart-replaced :
    (xs : List Slot) (s t : Slot) (ys : List Slot)
    → t.key ≡ s.key
    → KeysApart (xs ++ s ∷ ys)
    → KeysApart (xs ++ t ∷ ys)
KeysApart-replaced [] s t ys e h = rw e h
KeysApart-replaced (x ∷ xs) s t ys e h = (
  All-append _ xs (t ∷ ys) (All-left _ xs (s ∷ ys) h.0)
      (rw e ((All-right _ xs (s ∷ ys) h.0).0), (All-right _ xs (s ∷ ys) h.0).1),
  KeysApart-replaced xs s t ys e h.1,
)

find-skip :
    (k : Key) (s : Slot) (ss : List Slot)
    → same_key s.key k ≡ false
    → find k (entries (s ∷ ss)) ≡ find k (entries ss)
unfolding find
find-skip k s ss e = ground (arith, e)

find-here :
    (k : Key) (s : Slot) (ss : List Slot)
    → same_key s.key k ≡ true
    → find k (entries (s ∷ ss)) ≡ some s.id
unfolding find
find-here k s ss e = ground (arith, e)

-- What a search finds: no slot has the key, or one of them.
pub find_cases :
    (k : Key) (ss : List Slot)
    → ((find k (entries ss) ≡ none) × All (Other k) ss)
      ⊎ ((xs : List Slot) × (s : Slot) × (ys : List Slot) × (ss ≡ xs ++ s ∷ ys)
          × (find k (entries ss) ≡ some s.id)
          × (same_key s.key k ≡ true))
unfolding find
find_cases k [] = inl (refl, tt)
find_cases k (s ∷ ss) = elim (Bool-cases (same_key s.key k)) [
  | inl e ↦ inr ([], s, ss, refl, find-here k s ss e, e)
  | inr e ↦ elim (find_cases k ss) [
    | inl (f, others) ↦ inl (find-skip k s ss e ∙ f, (e, others))
    | inr (xs, t, ys, parts, f, same) ↦
        inr (s ∷ xs, t, ys, ap (◌∷◌ s) parts, find-skip k s ss e ∙ f, same)
  ]
]

-- The removal of a slot's key removes that slot.
pub delete-entries :
    (xs : List Slot) (s : Slot) (ys : List Slot)
    → All (Other s.key) xs
    → delete s.key (entries (xs ++ s ∷ ys)) ≡ entries (xs ++ ys)
unfolding delete
delete-entries [] s ys h = ground (arith, same_key_refl s.key)
delete-entries (x ∷ xs) s ys h = ground (arith, h.0, delete-entries xs s ys h.1)
