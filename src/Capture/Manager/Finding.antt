-- ===== src/Capture/Manager/Finding.antt =====
-- What the manager of capturer/actor.go keeps of its captures, what it sends, and what
-- `findCaptureByName` finds.
use data_collector.Base.{
  ℕ, if◌then◌else◌, ◌≡◌, ◌⊎◌, refl, sym, ◌∙◌, ap, subst, inl, inr, true, false, List, [], ◌∷◌, ◌++◌,
  map, append_assoc, append-nil, All, Option, none, some, Text, text_eq, text_eq_sound, ok, arith,
}
use data_collector.Capture.Actor.{Message}
use data_collector.Capture.Manager.{
  ActorWrapper, Pair, sends, CaptureManager, send, find_capture_by_name, send_to, send_all,
}

-- Both captures of each device are there.
abbrev pub Present : Text × Pair → Type 0
Present e = (l : ActorWrapper) × (r : ActorWrapper) × (e.1 ≡ (some l, some r))

abbrev pub AllPresent : CaptureManager → Type 0
AllPresent c = All Present (c.captures)

-- The actors of the captures, in the order of the map.
abbrev pub pid_of : Option ActorWrapper → List ℕ
pid_of none = []
pid_of (some a) = a.pid ∷ []

abbrev pub recipients : List (Text × Pair) → List ℕ
recipients [] = []
recipients ((device, pair) ∷ rest) = pid_of (pair.0) ++ (pid_of (pair.1) ++ recipients rest)

abbrev pub IsIn : ℕ → List ℕ → Type 0
IsIn p [] = ⊥
IsIn p (q ∷ qs) = (p ≡ q) ⊎ IsIn p qs

-- The captures of each device, in the order of the map, and the actor of the first one with a name.
abbrev pub present : Option ActorWrapper → List ActorWrapper
present none = []
present (some a) = a ∷ []

abbrev pub all_captures : List (Text × Pair) → List ActorWrapper
all_captures [] = []
all_captures ((device, pair) ∷ rest) = present (pair.0) ++ (present (pair.1) ++ all_captures rest)

abbrev pub first_named : Text → List ActorWrapper → List ℕ
first_named name [] = []
first_named name (a ∷ rest) =
    if text_eq (a.actor_name) name then a.pid ∷ [] else first_named name rest

abbrev pub first_named_each : List Text → List ActorWrapper → List ℕ
first_named_each [] all = []
first_named_each (id ∷ ids) all = first_named id all ++ first_named_each ids all

-- From `c` to `c'`, the message was sent to the actors `ps`, and nothing else happened.
abbrev pub Sent : Message → List ℕ → CaptureManager → CaptureManager → Type 0
Sent m ps c c' =
    (c'.actions ≡ c.actions ++ map (λ p. sends p m) ps)
    × (c'.captures ≡ c.captures)
    × (c'.capture_confs ≡ c.capture_confs)

pub send_to-Sent :
    (o : Option ActorWrapper) (m : Message) (c : CaptureManager)
    → Sent m (pid_of o) c (send_to o m c)
unfolding send_to send
send_to-Sent none m c = (sym (append-nil (c.actions)), refl, refl)
send_to-Sent (some a) m c = (refl, refl, refl)

map-append :
    (m : Message) (ps qs : List ℕ)
    → map (λ p. sends p m) (ps ++ qs) ≡ map (λ p. sends p m) ps ++ map (λ p. sends p m) qs
map-append m [] qs = refl
map-append m (p ∷ ps) qs = ap (◌∷◌ (sends p m)) (map-append m ps qs)

pub Sent-trans :
    (m : Message) (ps qs : List ℕ) (c c1 c2 : CaptureManager)
    → Sent m ps c c1
    → Sent m qs c1 c2
    → Sent m (ps ++ qs) c c2
Sent-trans m ps qs c c1 c2 s t = (
  t.0
      ∙ ap (λ z. z ++ map (λ p. sends p m) qs) s.0
      ∙ append_assoc (c.actions) (map (λ p. sends p m) ps) (map (λ p. sends p m) qs)
      ∙ ap (λ z. c.actions ++ z) (sym (map-append m ps qs)),
  t.1 ∙ s.1,
  t.2 ∙ s.2,
)

pub send_all-Sent :
    (xs : List (Text × Pair)) (m : Message) (c : CaptureManager)
    → Sent m (recipients xs) c (send_all xs m c)
unfolding send_all
send_all-Sent [] m c = (sym (append-nil (c.actions)), refl, refl)
send_all-Sent ((device, pair) ∷ rest) m c =
    let c1 = send_to (pair.0) m c in
    let c2 = send_to (pair.1) m c1 in
    Sent-trans m (pid_of (pair.0)) (pid_of (pair.1) ++ recipients rest) c c1 (send_all rest m c2)
      (send_to-Sent (pair.0) m c)
      (Sent-trans m (pid_of (pair.1)) (recipients rest) c1 c2 (send_all rest m c2)
        (send_to-Sent (pair.1) m c1) (send_all-Sent rest m c2))

-- What a search by name gives: nothing, or a capture of the map that has the name.
abbrev pub IsFound : Text → List (Text × Pair) → Option ActorWrapper → Type 0
IsFound name xs none = first_named name (all_captures xs) ≡ []
IsFound name xs (some a) =
    (a.actor_name ≡ name)
    × IsIn (a.pid) (recipients xs)
    × (first_named name (all_captures xs) ≡ a.pid ∷ [])

abbrev Finds : Text → List (Text × Pair) → Type 0
Finds name xs =
    (o : Option ActorWrapper) × (find_capture_by_name name xs ≡ ok o) × IsFound name xs o

find-here :
    (name : Text) (device : Text) (l r : ActorWrapper) (rest : List (Text × Pair))
    → ((text_eq (l.actor_name) name ≡ true)
        × (find_capture_by_name name ((device, (some l, some r)) ∷ rest) ≡ ok (some l)))
      ⊎ (((text_eq (l.actor_name) name ≡ false)
            × (text_eq (r.actor_name) name ≡ true)
            × (find_capture_by_name name ((device, (some l, some r)) ∷ rest) ≡ ok (some r)))
          ⊎ ((text_eq (l.actor_name) name ≡ false)
              × (text_eq (r.actor_name) name ≡ false)
              × (find_capture_by_name name ((device, (some l, some r)) ∷ rest)
                  ≡ find_capture_by_name name rest)))
unfolding find_capture_by_name
find-here name device l r rest = ground arith

named_left :
    (name device : Text) (l r : ActorWrapper) (rest : List (Text × Pair))
    → text_eq (l.actor_name) name ≡ true
    → first_named name (all_captures ((device, (some l, some r)) ∷ rest)) ≡ l.pid ∷ []
named_left name device l r rest e = ground (arith, e)

named_right :
    (name device : Text) (l r : ActorWrapper) (rest : List (Text × Pair))
    → text_eq (l.actor_name) name ≡ false
    → text_eq (r.actor_name) name ≡ true
    → first_named name (all_captures ((device, (some l, some r)) ∷ rest)) ≡ r.pid ∷ []
named_right name device l r rest e f = ground (arith, e, f)

named_later :
    (name device : Text) (l r : ActorWrapper) (rest : List (Text × Pair))
    → text_eq (l.actor_name) name ≡ false
    → text_eq (r.actor_name) name ≡ false
    → first_named name (all_captures ((device, (some l, some r)) ∷ rest))
      ≡ first_named name (all_captures rest)
named_later name device l r rest e f = ground (arith, e, f)

IsFound-later :
    (name device : Text) (l r : ActorWrapper) (rest : List (Text × Pair)) (o : Option ActorWrapper)
    → text_eq (l.actor_name) name ≡ false
    → text_eq (r.actor_name) name ≡ false
    → IsFound name rest o
    → IsFound name ((device, (some l, some r)) ∷ rest) o
IsFound-later name device l r rest none e f h = named_later name device l r rest e f ∙ h
IsFound-later name device l r rest (some a) e f h =
    (h.0, inr (inr h.1), named_later name device l r rest e f ∙ h.2)

find_pair :
    (name device : Text) (l r : ActorWrapper) (rest : List (Text × Pair))
    → Finds name rest
    → Finds name ((device, (some l, some r)) ∷ rest)
find_pair name device l r rest f = elim (find-here name device l r rest) [
  | inl e ↦ (
    some l,
    e.1,
    (text_eq_sound (l.actor_name) name e.0, inl refl, named_left name device l r rest e.0),
  )
  | inr (inl e) ↦ (
    some r,
    e.2,
    (
      text_eq_sound (r.actor_name) name e.1,
      inr (inl refl),
      named_right name device l r rest e.0 e.1,
    ),
  )
  | inr (inr e) ↦ (f.0, e.2 ∙ f.1, IsFound-later name device l r rest f.0 e.0 e.1 f.2)
]

pub find-Finds : (name : Text) (xs : List (Text × Pair)) → All Present xs → Finds name xs
unfolding find_capture_by_name
find-Finds name [] h = (none, refl, refl)
find-Finds name ((device, pair) ∷ rest) h =
    let (l, r, e) = h.0 in
    subst (λ z. Finds name ((device, z) ∷ rest)) (sym e)
      (find_pair name device l r rest (find-Finds name rest h.1))
