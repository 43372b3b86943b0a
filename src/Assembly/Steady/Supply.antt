-- ===== src/Assembly/Steady/Supply.antt =====
-- How the stream pool of capturer/extendedassembly.go supplies a connection that is not in use.
use data_collector.Base.{
  ℕ, ◌+◌, ◌<◌, ◌≡◌, ◌≢◌, refl, sym, ap, ◌∙◌, subst, inl, inr, List, [], ◌∷◌, ◌++◌, list_cases, none,
  All, All-append, All-left, All-map, All-intro, Distinct, Distinct-left, Distinct-append, length,
  arith, update, ok,
}
use data_collector.Assembly.PageCache.{append_free}
use data_collector.Assembly.PageCache.Accounts.{
  append_free-All, append_free-Distinct, length-append_free,
}
use data_collector.Assembly.Page.{Page}
use data_collector.Assembly.Connection.{Key, Connection, reset}
use data_collector.Assembly.Pool.{StreamPool, find, grow, take_free, new_connection, add_connection}
use data_collector.Assembly.Steady.Slots.{Slot, numbers}
use data_collector.Assembly.Steady.Invariant.{Waits}

-- The pool once there is a free connection: `c`, and `rest`.
pub record Supplied (p : StreamPool) (ids : List ℕ) (p' : StreamPool) (c : ℕ) (rest : List ℕ)
    : Type 0 where
  pub free_is : p'.free ≡ c ∷ rest
  pub distinct : Distinct (ids ++ c ∷ rest)
  pub below : All (λ i. i < p'.made) (ids ++ c ∷ rest)
  pub same_all : All (λ i. p'.all i ≡ p.all i) ids
  pub same_conns : p'.conns ≡ p.conns
  pub same_streams : p'.streams ≡ p.streams
  pub room : 0 < p'.next_alloc

supply_run :
    (k : Key) (s ts : ℕ) (p : StreamPool) (c : ℕ) (rest : List ℕ)
    → p.free ≡ c ∷ rest
    → new_connection k s ts p ≡ take_free k s ts p
unfolding new_connection
supply_run k s ts p c rest e = ground (arith, e)

grow_run :
    (k : Key) (s ts : ℕ) (p : StreamPool)
    → p.free ≡ []
    → new_connection k s ts p ≡ take_free k s ts (grow p)
unfolding new_connection
grow_run k s ts p e = ground (arith, e)

grow-Supplied :
    (p : StreamPool) (ids : List ℕ)
    → p.free ≡ []
    → Distinct (ids ++ p.free)
    → All (λ i. i < p.made) (ids ++ p.free)
    → 0 < p.next_alloc
    → (c : ℕ) × (rest : List ℕ) × Supplied p ids (grow p) c rest
unfolding grow
grow-Supplied p ids e d b r =
    let new = append_free p.next_alloc p.made [] in
    let low = All-left _ ids p.free b in
    let fresh : Distinct (ids ++ new) =
      Distinct-append ids new (Distinct-left ids p.free d)
        (append_free-Distinct p.next_alloc p.made [] tt tt)
        (All-map _ _ ids
          (λ i h.
            append_free-All (λ q. i ≢ q) p.next_alloc p.made []
              (λ q lo hi x. omega (arith, h, lo, x)) tt)
          low) in
    let range : All (λ i. i < p.made + p.next_alloc) (ids ++ new) =
      All-append _ ids new (All-map _ _ ids (λ i h. omega (arith, h)) low) (
        append_free-All (λ q. q < p.made + p.next_alloc) p.next_alloc p.made [] (λ q lo hi. hi)
          tt) in
    elim (list_cases new) [
      | inl none_new ↦
          absurd (omega (arith, length-append_free p.next_alloc p.made [], ap length none_new, r))
      | inr (c, rest, is_new) ↦ (
        c,
        rest,
        record {
          free_is = ap (append_free p.next_alloc p.made) e ∙ is_new;
          distinct = subst (λ z. Distinct (ids ++ z)) is_new fresh;
          below = subst (λ z. All (λ i. i < p.made + p.next_alloc) (ids ++ z)) is_new range;
          same_all = All-map _ _ ids (λ i h. ground (arith, h)) low;
          same_conns = refl;
          same_streams = refl;
          room = omega (arith, r);
        },
      )
    ]

take_run :
    (k : Key) (s ts : ℕ) (p : StreamPool) (c : ℕ) (rest : List ℕ)
    → p.free ≡ c ∷ rest
    → take_free k s ts p
      ≡ ok (c, record p { free = rest; all = update p.all c (reset k s ts (p.all c)) })
unfolding take_free
take_run k s ts p c rest e = ground (arith, e)

-- Of a pool with its books kept, a new connection is one that was not in use.
pub new_connection-Supplied :
    (k : Key) (s ts : ℕ) (p : StreamPool) (ids : List ℕ)
    → Distinct (ids ++ p.free)
    → All (λ i. i < p.made) (ids ++ p.free)
    → 0 < p.next_alloc
    → (q : StreamPool) × (c : ℕ) × (rest : List ℕ) × Supplied p ids q c rest
      × (new_connection k s ts p
          ≡ ok (c, record q { free = rest; all = update q.all c (reset k s ts (q.all c)) }))
new_connection-Supplied k s ts p ids d b r = elim (list_cases p.free) [
  | inl e ↦
      let (c, rest, v) = grow-Supplied p ids e d b r in
      (grow p, c, rest, v, grow_run k s ts p e ∙ take_run k s ts (grow p) c rest v.free_is)
  | inr (c, rest, e) ↦ (
    p,
    c,
    rest,
    record {
      free_is = e;
      distinct = subst (λ z. Distinct (ids ++ z)) e d;
      below = subst (λ z. All (λ i. i < p.made) (ids ++ z)) e b;
      same_all = All-intro ids (λ i. refl);
      same_conns = refl;
      same_streams = refl;
      room = r;
    },
    supply_run k s ts p c rest e ∙ take_run k s ts p c rest e,
  )
]

pub Waits-same :
    (ss : List Slot) (f f' : ℕ → Connection) (h : ℕ → Page)
    → All (λ i. f' i ≡ f i) (numbers ss)
    → All (λ s. Waits s (f s.id) h) ss
    → All (λ s. Waits s (f' s.id) h) ss
Waits-same [] f f' h same v = tt
Waits-same (s ∷ ss) f f' h same v =
    (subst (λ c. Waits s c h) (sym same.0) v.0, Waits-same ss f f' h same.1 v.1)

-- A connection that was just made: it has seen nothing and holds nothing.
pub fresh-Waits :
    (k : Key) (c s ts : ℕ) (old : Connection) (h : ℕ → Page)
    → Waits (record { key = k; id = c; stream = s; ids = [] }) (reset k s ts old) h
unfolding reset
fresh-Waits k c s ts old h = record {
  key_is = refl;
  list = record { first_is = refl; last_is = refl; linked = tt };
  counted = refl;
  waits = refl;
  is_open = refl;
  has_stream = refl;
  range = inl (refl, refl);
}

pub add_run :
    (k : Key) (s ts c : ℕ) (p q : StreamPool)
    → new_connection k s ts p ≡ ok (c, q)
    → find k q.conns ≡ none
    → add_connection k s ts p ≡ ok (c, record q { conns = (k, c) ∷ q.conns })
unfolding add_connection
add_run k s ts c p q e f = ground (arith, e, f)
