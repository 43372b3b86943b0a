-- ===== src/Assembly/Connection/Traverse.antt =====
-- `traverseConn` of capturer/extendedassembly.go: where the pages of a packet go.
use data_collector.Base.{
  ℕ, zero, suc, ◌≤◌, ◌≡◌, refl, List, [], ◌∷◌, ◌++◌, Option, none, some, arith, All, All-append,
  length, length-append, append_assoc, append-nil, snoc_cases, inl, inr, sym, ◌∙◌, ap, subst, Bool,
  true, false, Bool-cases, ℤ, pos, ltb_ℤ, Result, ok,
}
use data_collector.Assembly.Page.{Page}
use data_collector.Assembly.Sequence.{difference}
use data_collector.Assembly.Connection.{Connection, traverse, traverse_conn}
use data_collector.Assembly.Connection.Links.{first_of, last_of, Chain, Chain-split, last_of-append}
use data_collector.Assembly.Connection.Insert.{Holds}

-- Whether the page at `p` lies behind `seq`.
abbrev pub lies_behind : (ℕ → Page) → ℤ → ℕ → Bool
lies_behind h seq p = ltb_ℤ (difference (h p).seq seq) (pos 0)

-- The place that was found: the pages in front of it, and those behind it that were passed.
pub record Found (h : ℕ → Page) (seq : ℤ) (ids : List ℕ) (post : List ℕ)
    (r : Result (Option ℕ × Option ℕ)) : Type 0 where
  pub before : List ℕ
  pub passed : List ℕ
  pub parts : ids ≡ before ++ passed
  pub result : r ≡ ok (last_of none before, first_of (passed ++ post) none)
  pub all_behind : All (λ p. lies_behind h seq p ≡ true) passed
  pub stops : (p : ℕ) → last_of none before ≡ some p → lies_behind h seq p ≡ false

traverse-true :
    (fuel : ℕ) (h : ℕ → Page) (seq : ℤ) (p : ℕ) (current : Option ℕ)
    → lies_behind h seq p ≡ true
    → traverse (suc fuel) h seq (some p) current ≡ traverse fuel h seq (h p).prev (some p)
unfolding traverse
traverse-true fuel h seq p current e = ground (arith, e)

traverse-false :
    (fuel : ℕ) (h : ℕ → Page) (seq : ℤ) (p : ℕ) (current : Option ℕ)
    → lies_behind h seq p ≡ false
    → traverse (suc fuel) h seq (some p) current ≡ ok (some p, current)
unfolding traverse
traverse-false fuel h seq p current e = ground (arith, e)

last_of_snoc : (ys : List ℕ) (y : ℕ) → last_of none (ys ++ y ∷ []) ≡ some y
last_of_snoc ys y = last_of-append none ys (y ∷ [])

module _ (h : ℕ → Page) (seq : ℤ) where
  stop_at :
      (fuel : ℕ) (ys : List ℕ) (y : ℕ) (post : List ℕ)
      → lies_behind h seq y ≡ false
      → Found h seq
          (ys ++ y ∷ [])
          post
          (traverse (suc fuel) h seq (last_of none (ys ++ y ∷ [])) (first_of post none))
  stop_at fuel ys y post e = record {
    before = ys ++ y ∷ [];
    passed = [];
    parts = sym (append-nil (ys ++ y ∷ []));
    result = rw (last_of_snoc ys y) (traverse-false fuel h seq y (first_of post none) e);
    all_behind = tt;
    stops = λ p is_p. (let same : y ≡ p = ground (arith, last_of_snoc ys y) in rw (← same) e);
  }

  -- Past the page `y`.
  pass_by :
      (fuel : ℕ) (ys : List ℕ) (y : ℕ) (post : List ℕ)
      → (h y).prev ≡ last_of none ys
      → lies_behind h seq y ≡ true
      → Found h seq ys (y ∷ post) (traverse fuel h seq (last_of none ys) (some y))
      → Found h seq
          (ys ++ y ∷ [])
          post
          (traverse (suc fuel) h seq (last_of none (ys ++ y ∷ [])) (first_of post none))
  pass_by fuel ys y post linked e found = record {
    before = found.before;
    passed = found.passed ++ y ∷ [];
    parts = ap (λ xs. xs ++ y ∷ []) found.parts ∙ append_assoc found.before found.passed (y ∷ []);
    result =
        rw (last_of_snoc ys y, traverse-true fuel h seq y (first_of post none) e, linked)
          (found.result
            ∙ ap (λ xs. ok (last_of none found.before, first_of xs none))
                (sym (append_assoc found.passed (y ∷ []) post)));
    all_behind = All-append _ found.passed (y ∷ []) found.all_behind (e, tt);
    stops = found.stops;
  }

  at_nil :
      (fuel : ℕ) (post : List ℕ)
      → Found h seq [] post (traverse fuel h seq none (first_of post none))
  unfolding traverse
  at_nil fuel post = record {
    before = [];
    passed = [];
    parts = refl;
    result = at_end fuel;
    all_behind = tt;
    stops = λ p e. cc;
  }
    where
      at_end : (n : ℕ) → traverse n h seq none (first_of post none) ≡ ok (none, first_of post none)
      at_end zero = refl
      at_end (suc n) = refl

  traverse-Found :
      (fuel : ℕ) (ids post : List ℕ)
      → Chain h none (ids ++ post) none
      → length ids ≤ fuel
      → Found h seq ids post (traverse fuel h seq (last_of none ids) (first_of post none))
  traverse-Found zero [] post c le = at_nil zero post
  traverse-Found zero (x ∷ xs) post c le = absurd (omega arith)
  traverse-Found (suc fuel) ids post c le = elim (snoc_cases ids) [
    | inl e ↦
        subst
          (λ xs.
            Found h seq xs post (traverse (suc fuel) h seq (last_of none xs) (first_of post none)))
          (sym e) (at_nil (suc fuel) post)
    | inr (ys, y, e) ↦
        (let c' : Chain h none (ys ++ (y ∷ post)) none =
            subst (λ xs. Chain h none xs none)
              (ap (λ xs. xs ++ post) e ∙ append_assoc ys (y ∷ []) post) c in
          let n : length ys ≤ fuel = omega (arith, ap length e, length-append ys (y ∷ [])) in
          subst
            (λ xs.
              Found h seq xs post
                (traverse (suc fuel) h seq (last_of none xs) (first_of post none)))
            (sym e)
            (elim (Bool-cases (lies_behind h seq y)) [
              | inl b ↦
                  pass_by fuel ys y post (Chain-split h none ys (y ∷ post) none c').1.0 b
                    (traverse-Found fuel ys (y ∷ post) c' n)
              | inr b ↦ stop_at fuel ys y post b
            ]))
  ]

-- In a list in order, whose length is the connection's count, the search ends with two neighbours of the
-- list: all pages on the far side lie behind `seq`, and the last on the near side, if any, does not.
pub traverse_conn-Found :
    (c : Connection) (h : ℕ → Page) (seq : ℤ) (ids : List ℕ)
    → Holds c h ids
    → c.pages ≡ length ids
    → Found h seq ids [] (traverse_conn c h seq)
unfolding traverse_conn
traverse_conn-Found c h seq ids v n =
    rw v.last_is (traverse-Found h seq c.pages ids [] (rw (append-nil ids) v.linked) (omega arith))
