-- ===== src/Capture/Manager/Sending.antt =====
-- What the manager of capturer/actor.go keeps of its captures and sends them.
use data_collector.Base.{
  ℕ, Bool, if◌then◌else◌, ◌≡◌, refl, sym, ◌∙◌, ap, subst, inl, inr, true, false, List, [], ◌∷◌,
  ◌++◌, append-nil, All, All-append, All-map, Option, none, some, Text, Result, ok, arith,
  Bool-cases,
}
use data_collector.Capture.Actor.{Message, StatusSet, capture_status_set}
use data_collector.Capture.Manager.{
  ActorWrapper, Pair, CaptureManager, find_capture_by_name, send_to, send_all, send_each,
  process_capture_status_set,
}
use data_collector.Capture.Manager.Finding.{
  Present, AllPresent, pid_of, recipients, IsIn, all_captures, first_named, first_named_each, Sent,
  send_to-Sent, Sent-trans, send_all-Sent, IsFound, find-Finds,
}

-- The status message reaches, for each of these ids, the first capture of the map with that name, if
-- there is one; nothing else happens.
abbrev pub Reaches : Message → List Text → CaptureManager → Result CaptureManager → Type 0
Reaches m ids c x =
    (c' : CaptureManager) × (ps : List ℕ) × (x ≡ ok c')
    × Sent m ps c c'
    × All (λ p. IsIn p (recipients (c.captures))) ps
    × (ps ≡ first_named_each ids (all_captures (c.captures)))

send_each_run :
    (id : Text) (ids : List Text) (m : Message) (c : CaptureManager) (o : Option ActorWrapper)
    → find_capture_by_name id (c.captures) ≡ ok o
    → send_each (id ∷ ids) m c ≡ send_each ids m (send_to o m c)
unfolding send_each
send_each_run id ids m c o e = ground (arith, e)

found_pids :
    (name : Text) (xs : List (Text × Pair)) (o : Option ActorWrapper)
    → IsFound name xs o
    → All (λ p. IsIn p (recipients xs)) (pid_of o) × (pid_of o ≡ first_named name (all_captures xs))
found_pids name xs none h = (tt, sym h)
found_pids name xs (some a) h = ((h.1, tt), sym h.2)

send_each-Reaches :
    (ids : List Text) (m : Message) (c : CaptureManager)
    → AllPresent c
    → Reaches m ids c (send_each ids m c)
unfolding send_each
send_each-Reaches [] m c h = (c, [], refl, (sym (append-nil (c.actions)), refl, refl), tt, refl)
send_each-Reaches (id ∷ ids) m c h =
    let (o, e, f) = find-Finds id (c.captures) h in
    let c1 = send_to o m c in
    let s = send_to-Sent o m c in
    let (c', ps, run, t, all, named) =
      send_each-Reaches ids m c1 (subst (All Present) (sym s.1) h) in
    let g = found_pids id (c.captures) o f in
    (
      c',
      pid_of o ++ ps,
      send_each_run id ids m c o e ∙ run,
      Sent-trans m (pid_of o) ps c c1 c' s t,
      All-append (λ p. IsIn p (recipients (c.captures))) (pid_of o) ps g.0
          (subst (λ z. All (λ p. IsIn p (recipients z)) ps) s.1 all),
      ap (λ z. z ++ ps) g.1
          ∙ ap (λ z. first_named id (all_captures (c.captures)) ++ z)
              (named ∙ ap (λ z. first_named_each ids (all_captures z)) s.1),
    )

set_all_run :
    (m : StatusSet) (c : CaptureManager)
    → m.set_all ≡ true
    → process_capture_status_set m c ≡ ok (send_all (c.captures) (capture_status_set m) c)
unfolding process_capture_status_set
set_all_run m c e = ground (arith, e)

set_ids_run :
    (m : StatusSet) (c : CaptureManager)
    → m.set_all ≡ false
    → process_capture_status_set m c ≡ send_each (m.capture_ids) (capture_status_set m) c
unfolding process_capture_status_set
set_ids_run m c e = ground (arith, e)

All-IsIn : (ps : List ℕ) → All (λ p. IsIn p ps) ps
All-IsIn [] = tt
All-IsIn (p ∷ ps) =
    (inl refl, All-map (λ q. IsIn q ps) (λ q. IsIn q (p ∷ ps)) ps (λ q h. inr h) (All-IsIn ps))

-- With both captures of each device there, a status message ends without a fault. It is sent to
-- captures of the map alone, and nothing else happens: if it is for all, to each capture once, in the
-- order of the map; else, for each of its ids in their order, to the first capture of the map that has
-- this name, if there is one.
pub process_capture_status_set-Sent :
    (m : StatusSet) (c : CaptureManager)
    → AllPresent c
    → (c' : CaptureManager) × (ps : List ℕ) × (process_capture_status_set m c ≡ ok c')
      × Sent (capture_status_set m) ps c c'
      × All (λ p. IsIn p (recipients (c.captures))) ps
      × (ps ≡ (
          if m.set_all
          then recipients (c.captures)
          else first_named_each (m.capture_ids) (all_captures (c.captures))))
process_capture_status_set-Sent m c h = elim (Bool-cases (m.set_all)) [
  | inl e ↦ (
    send_all (c.captures) (capture_status_set m) c,
    recipients (c.captures),
    set_all_run m c e,
    send_all-Sent (c.captures) (capture_status_set m) c,
    All-IsIn (recipients (c.captures)),
    sym (by_all e),
  )
  | inr e ↦
      let (c', ps, run, s, all, named) =
        send_each-Reaches (m.capture_ids) (capture_status_set m) c h in
      (c', ps, set_ids_run m c e ∙ run, s, all, named ∙ sym (by_all e))
]
  where
    by_all :
        {b : Bool}
        → m.set_all ≡ b
        → (if m.set_all
            then recipients (c.captures)
            else first_named_each (m.capture_ids) (all_captures (c.captures)))
          ≡ (if b
              then recipients (c.captures)
              else first_named_each (m.capture_ids) (all_captures (c.captures)))
    by_all e =
        ap
          (λ z.
            if z
            then recipients (c.captures)
            else first_named_each (m.capture_ids) (all_captures (c.captures)))
          e
