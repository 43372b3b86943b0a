-- ===== src/Capture/Manager/Adding.antt =====
-- The captures that the manager of capturer/actor.go has, and those of a new device.
use data_collector.Base.{
  get, put, get-put_cases, text_eq_self, ◌⊎◌, ℕ, ◌≡◌, refl, ap, subst, inl, inr, Bool, false, List,
  [], ◌∷◌, ◌++◌, append_assoc, All, none, some, if_cases, Text, text_eq, Result, ok, err, arith,
  Bool-cases, ◌>>=◌,
}
use data_collector.Capture.Actor.{
  addr_update, new_capture, CaptureType, listen_stream_capture, connect_stream_capture,
}
use data_collector.Capture.Manager.{
  CaptureConf, ActorWrapper, Pair, sends, spawns, generate_capture_name, CaptureManager, send,
  update_known, register, spawn,
}
use data_collector.Capture.Manager.Finding.{Present, AllPresent}

put-Present :
    (k : Text) (v : Pair) (xs : List (Text × Pair))
    → Present (k, v)
    → All Present xs
    → All Present (put k v xs)
unfolding put
put-Present k v [] p h = (p, tt)
put-Present k v ((k', v') ∷ rest) p h =
    if_cases (All Present) (text_eq k k') (λ e. (p, h.1)) (λ e. (h.0, put-Present k v rest p h.1))

pub get-Present :
    (k : Text) (xs : List (Text × Pair)) (v : Pair)
    → All Present xs
    → get k xs ≡ some v
    → Present (k, v)
unfolding get
get-Present k [] v h e = absurd cc
get-Present k ((k', v') ∷ rest) v h e = elim (Bool-cases (text_eq k k')) [
  | inl t ↦ let same : v' ≡ v = ground (arith, t, e) in subst (λ z. Present (k, z)) same h.0
  | inr t ↦ get-Present k rest v h.1 (ground (arith, t, e))
]

put_new :
    (k : Text) (v : Pair) (xs : List (Text × Pair))
    → get k xs ≡ none
    → put k v xs ≡ xs ++ (k, v) ∷ []
unfolding get put
put_new k v [] e = refl
put_new k v ((k', v') ∷ rest) e = elim (Bool-cases (text_eq k k')) [
  | inl t ↦ absurd (ground (arith, t, e))
  | inr t ↦ let later = put_new k v rest (ground (arith, t, e)) in ground (arith, t, later)
]

pub get-put_other :
    (k : Text) (v : CaptureConf) (xs : List (Text × CaptureConf)) (d : Text)
    → text_eq d k ≡ false
    → get d (put k v xs) ≡ get d xs
get-put_other k v xs d e = elim (get-put_cases k v xs d) [
  | inl h ↦ absurd (ground (arith, ap (λ z. text_eq z k) h.0, text_eq_self k, e))
  | inr h ↦ h
]

-- What a call that returns leaves.
abbrev pub WhereOk : (CaptureManager → Type 0) → Result CaptureManager → Type 0
WhereOk P (ok c) = P c
WhereOk P (err e) = Unit

module _ (spawn_named : CaptureManager → Text → ℕ × Bool) where
  -- The captures of a new device, whose actors were spawned by `a` and by `b`.
  abbrev pub entry : Text → CaptureManager → CaptureManager → Text × Pair
  entry device a b =
      let l = generate_capture_name device listen_stream_capture in
      let r = generate_capture_name device connect_stream_capture in
      (
        device,
        (
          some (record { actor_name = l; pid = (spawn_named a l).0 }),
          some (record { actor_name = r; pid = (spawn_named b r).0 }),
        ),
      )

  -- The manager keeps both captures of each device, and its map is the old one, or the old one and, behind
  -- it, an entry for the device, which was not in it.
  abbrev pub Kept : CaptureConf → CaptureManager → CaptureManager → Type 0
  Kept conf c c' =
      AllPresent c'
      × ((c'.captures ≡ c.captures)
          ⊎ ((get (conf.device_name) (c.captures) ≡ none)
              × (a : CaptureManager) × (b : CaptureManager) × (c'.captures
                  ≡ c.captures ++ entry (conf.device_name) a b ∷ [])))

bind-any :
    {A B : Type 0} (P : CaptureManager → Type 0) (x : Result A) (g : A → B)
    (f : B → Result CaptureManager)
    → ((a : A) → WhereOk P (f (g a)))
    → WhereOk P (x >>= (λ a. ok (g a)) >>= f)
bind-any P (ok a) g f h = h a
bind-any P (err e) g f h = tt

-- A spawn that ends gives the actor of that call, and leaves the maps alone.
pub spawn_any :
    (spawn_named : CaptureManager → Text → ℕ × Bool) (P : CaptureManager → Type 0) (device : Text)
    (addrs : List Text) (category : CaptureType) (c : CaptureManager)
    (f : CaptureManager × (ActorWrapper × Bool) → Result CaptureManager)
    → ((c1 : CaptureManager) (b : Bool)
        → c1.captures ≡ c.captures
        → WhereOk P (
            f (
              c1,
              (
                record {
                  actor_name = generate_capture_name device category;
                  pid = (spawn_named c (generate_capture_name device category)).0;
                },
                b,
              ),
            )))
    → WhereOk P (spawn spawn_named device addrs category c >>= f)
unfolding spawn
spawn_any spawn_named P device addrs category c f h =
    let name = generate_capture_name device category in
    let answer = spawn_named c name in
    bind-any P (new_capture name device addrs category)
      (λ capture. (
        record c { actions = c.actions ++ spawns name capture ∷ [] },
        (record { actor_name = name; pid = answer.0 }, answer.1),
      ))
      f
      (λ capture. h (record c { actions = c.actions ++ spawns name capture ∷ [] }) (answer.1) refl)

pub register-AllPresent :
    (device : Text) (l : ActorWrapper) (r : ActorWrapper × Bool) (c : CaptureManager)
    → AllPresent c
    → AllPresent (register device l r c)
unfolding register
register-AllPresent device l r c h =
    if_cases AllPresent (r.1)
      (λ e. put-Present device (some l, some (r.0)) (c.captures) (l, r.0, refl) h) (λ e. h)

pub register_cases :
    (device : Text) (l : ActorWrapper) (r : ActorWrapper × Bool) (c : CaptureManager)
    → get device (c.captures) ≡ none
    → ((register device l r c).captures ≡ c.captures)
      ⊎ ((register device l r c).captures ≡ c.captures ++ (device, (some l, some (r.0))) ∷ [])
unfolding register
register_cases device l r c e =
    if_cases
      (λ (z : CaptureManager).
        (z.captures ≡ c.captures)
        ⊎ (z.captures ≡ c.captures ++ (device, (some l, some (r.0))) ∷ []))
      (r.1) (λ y. inr (put_new device (some l, some (r.0)) (c.captures) e)) (λ y. inl refl)

pub known_lem :
    (conf : CaptureConf) (c : CaptureManager) (l r : ActorWrapper)
    → (update_known conf c (some l, some r)).actions
      ≡ c.actions
        ++ sends (l.pid) (addr_update (conf.listen_addrs))
          ∷ sends (r.pid) (addr_update (conf.listen_addrs))
          ∷ []
unfolding update_known send
known_lem conf c l r =
    append_assoc (c.actions) (sends (l.pid) (addr_update (conf.listen_addrs)) ∷ [])
      (sends (r.pid) (addr_update (conf.listen_addrs)) ∷ [])

pub known-Present :
    (conf : CaptureConf) (c : CaptureManager) (v : Pair)
    → AllPresent c
    → AllPresent (update_known conf c v)
unfolding update_known send
known-Present conf c (none, conn) h = h
known-Present conf c (some l, none) h = h
known-Present conf c (some l, some r) h = h

pub known-captures :
    (conf : CaptureConf) (c : CaptureManager) (v : Pair)
    → (update_known conf c v).captures ≡ c.captures
unfolding update_known send
known-captures conf c (none, conn) = refl
known-captures conf c (some l, none) = refl
known-captures conf c (some l, some r) = refl
