-- ===== src/Assembly/Steady/Moved.antt =====
-- What stays and what moves when a connection leaves the map of a stream pool of
-- capturer/extendedassembly.go.
use data_collector.Base.{
  ℕ, ◌≡◌, ◌≢◌, sym, subst, ◌⊎◌, true, false, List, [], ◌∷◌, ◌++◌, All, All-left, All-right, NotIn,
  Distinct, Distinct-left, Distinct-block, append_assoc,
}
use data_collector.Assembly.Page.{Page}
use data_collector.Assembly.Connection.{Connection}
use data_collector.Assembly.Work.{Work, Event}
use data_collector.Assembly.Work.Ready.{Ready}
use data_collector.Assembly.Assembler.{unlock}
use data_collector.Assembly.Steady.Slots.{Slot, numbers, numbers-append, pages_of}
use data_collector.Assembly.Steady.Protocol.{Lawful}
use data_collector.Assembly.Steady.Invariant.{Waits, Waits-frame, Steady, rest_of}

-- The other slots wait as before, if their connections and their pages are as before.
pub Waits-others :
    (ss : List Slot) (i : ℕ) (f f' : ℕ → Connection) (h h' : ℕ → Page)
    → ((c : ℕ) → i ≢ c → f' c ≡ f c)
    → NotIn i (numbers ss)
    → All (λ q. h' q ≡ h q) (pages_of ss)
    → All (λ s. Waits s (f s.id) h) ss
    → All (λ s. Waits s (f' s.id) h') ss
Waits-others [] i f f' h h' same far pages v = tt
Waits-others (s ∷ ss) i f f' h h' same far pages v = (
  subst (λ c. Waits s c h') (sym (same s.id far.0))
      (Waits-frame s (f s.id) h h' (All-left _ s.ids (pages_of ss) pages) v.0),
  Waits-others ss i f f' h h' same far.1 (All-right _ s.ids (pages_of ss) pages) v.1,
)

-- A number goes from the list in front to the front of the list behind.
pub to_free :
    (P : List ℕ → Type 0)
    → ((xs ys zs : List ℕ) → P (xs ++ (ys ++ zs)) → P (ys ++ (xs ++ zs)))
    → (xs : List ℕ) (i : ℕ) (ys free : List ℕ) → P ((xs ++ i ∷ ys) ++ free)
    → P ((xs ++ ys) ++ i ∷ free)
to_free P block xs i ys free h =
    let a = subst P (append_assoc xs (i ∷ ys) free) h in
    let b = block xs (i ∷ []) (ys ++ free) a in
    let c = subst (λ z. P (i ∷ z)) (sym (append_assoc xs ys free)) b in
    block (i ∷ []) (xs ++ ys) free c

-- The number of the middle slot is none of the others'.
pub number_apart :
    (xs : List Slot) (s : Slot) (ys : List Slot) (free : List ℕ)
    → Distinct (numbers (xs ++ s ∷ ys) ++ free)
    → NotIn s.id (numbers xs) × NotIn s.id (numbers ys)
number_apart xs s ys free d =
    let e =
      subst Distinct (numbers-append xs (s ∷ ys)) (Distinct-left (numbers (xs ++ s ∷ ys)) free d) in
    let b = Distinct-block (numbers xs) (s.id ∷ []) (numbers ys) e in
    (All-left _ (numbers xs) (numbers ys) b.0, All-right _ (numbers xs) (numbers ys) b.0)

pub Lawful-as :
    {es es' : List Event} {os os' : List ℕ} {n n' : ℕ}
    → Lawful es os n
    → es ≡ es'
    → os ≡ os'
    → n ≡ n'
    → Lawful es' os' n'
Lawful-as {es} {es'} {os} {os'} {n} {n'} l e o m =
    subst (λ z. Lawful es' os' z) m (subst (λ z. Lawful es' z n) o (subst (λ z. Lawful z os n) e l))

-- After steps at the middle slot: it waits again, with other pages, or it is gone.
abbrev pub Changed : List Slot → Slot → List Slot → Work → Type 0
Changed xs s ys w =
    ((ids : List ℕ) × Steady (unlock w) (xs ++ record s { ids = ids } ∷ ys)
      × (w.conn.closed ≡ false)
      × Ready w s.stream ids (rest_of xs ys))
    ⊎ (Steady (unlock w) (xs ++ ys) × (w.conn.closed ≡ true))
