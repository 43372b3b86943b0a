-- ===== src/Capture/Actor/Idle.antt =====
-- What messages do to a capture of capturer/actor.go.
use data_collector.Base.{
  ℕ, ◌≡◌, ◌∙◌, refl, sym, ap, subst, ◌==◌, false, List, [], ◌∷◌, ◌++◌, Option, none, some, length,
  Text, Result, ok, err, arith, if_cases, if◌then◌else◌, ◌>>=◌,
}
use data_collector.Common.Filter.{generate_bpf_str}
use data_collector.Capture.Actor.{
  Pcap, Capture, InternalStatus, ready, working, CaptureStatus, running, stoppted, new_created,
  is_ready, staring, stoping, unknown, Message, capture_status_set, addr_update, other_message,
  fresh_capture, new_capture, CaptureType, is_listen, start, with_handle, ensure_running,
  set_status, process_addr_update, receive, receive_all,
}

abbrev pub handles : Option ℕ → List ℕ
handles none = []
handles (some h) = h ∷ []

abbrev pub inter_status_of : Option ℕ → InternalStatus
inter_status_of none = ready
inter_status_of (some h) = working

-- The loops are those of the handle, the capture works exactly if it has one, and the filter is the
-- text `bpf`; without a filter there is no handle.
abbrev pub Runs : Text → Capture → Type 0
Runs bpf c =
    (c.loops ≡ handles (c.handle))
    × (c.inter_status ≡ inter_status_of (c.handle))
    × (c.bpf_str ≡ bpf)
    × (bpf ≡ [] → c.handle ≡ none)

abbrev pub Leads : Text → Result Capture → Type 0
Leads bpf (ok c) = Runs bpf c
Leads bpf (err e) = Unit

then-Leads :
    (bpf : Text) (x : Result Capture) (f : Capture → Result Capture)
    → Leads bpf x
    → ((c : Capture) → Runs bpf c → Leads bpf (f c))
    → Leads bpf (x >>= f)
then-Leads bpf (ok c) f l h = h c l
then-Leads bpf (err e) f l h = tt

Leads->>= :
    {A : Type 0} (bpf : Text) (x : Result A) (f : A → Result Capture)
    → ((a : A) → Leads bpf (f a))
    → Leads bpf (x >>= f)
Leads->>= bpf (ok a) f h = h a
Leads->>= bpf (err e) f h = tt

start-Leads :
    (bpf : Text) (pcap : Pcap) (c : Capture) (o : Option ℕ)
    → Runs bpf c
    → (bpf ≡ [] → o ≡ none)
    → c.handle ≡ none
    → Leads bpf (start pcap c o)
unfolding start
start-Leads bpf pcap c none r v e = r
start-Leads bpf pcap c (some h) r v e =
    Leads->>= bpf (pcap.set_bpf_filter (some h) (c.bpf_str))
      (λ set. ok (
        if set
        then record c { handle = some h; loops = c.loops ++ h ∷ []; inter_status = working }
        else c))
      (λ set.
        if_cases (λ x. Runs bpf x) set
          (λ y. (ap (λ z. z ++ h ∷ []) (r.0 ∙ ap handles e), refl, r.2, v)) (λ y. r))

with_handle-Leads :
    (bpf : Text) (pcap : Pcap) (c : Capture) (o : Option ℕ)
    → c.handle ≡ o
    → (bpf ≡ [] → length (c.bpf_str) ≡ 0)
    → (length (c.bpf_str) == 0) ≡ false
    → Runs bpf c
    → Leads bpf (with_handle pcap c o)
unfolding with_handle
with_handle-Leads bpf pcap c none e v f r =
    start-Leads bpf pcap c (pcap.open_live (c.device_name)) r (λ b. absurd (ground (arith, v b, f)))
      e
with_handle-Leads bpf pcap c (some h) e v f r = (r.0, sym (ap inter_status_of e), r.2, r.3)

ensure_running-Leads :
    (bpf : Text) (pcap : Pcap) (c : Capture) → Runs bpf c → Leads bpf (ensure_running pcap c)
unfolding ensure_running
ensure_running-Leads bpf pcap c r =
    if_cases (Leads bpf) (length (c.bpf_str) == 0) (λ e. r)
      (λ e. with_handle-Leads bpf pcap c (c.handle) refl (λ b. ap length (r.2 ∙ b)) e r)

set_status-Leads :
    (bpf : Text) (pcap : Pcap) (c : Capture) (s : CaptureStatus)
    → Runs bpf c
    → Leads bpf (set_status pcap c s)
unfolding set_status
set_status-Leads bpf pcap c running r = ensure_running-Leads bpf pcap c r
set_status-Leads bpf pcap c stoppted r = r
set_status-Leads bpf pcap c new_created r = r
set_status-Leads bpf pcap c is_ready r = r
set_status-Leads bpf pcap c staring r = r
set_status-Leads bpf pcap c stoping r = r
set_status-Leads bpf pcap c (unknown n) r = r

receive-Leads :
    (bpf : Text) (pcap : Pcap) (c : Capture) (m : Message)
    → Runs bpf c
    → Leads bpf (receive pcap c m)
unfolding receive process_addr_update
receive-Leads bpf pcap c (capture_status_set m) r =
    set_status-Leads bpf pcap (record c { old_status = c.status; status = m.new_status })
      (m.new_status) r
receive-Leads bpf pcap c (addr_update addrs) r =
    let bpf_of = generate_bpf_str addrs (is_listen (c.capture_type)) in
    let c0 = record c { addr = addrs } in
    Leads->>= bpf bpf_of (λ b. pcap.set_bpf_filter (c.handle) b >>= (λ set. ok c0))
      (λ b. Leads->>= bpf (pcap.set_bpf_filter (c.handle) b) (λ set. ok c0) (λ set. r))
receive-Leads bpf pcap c other_message r = r

receive_all-Leads :
    (bpf : Text) (ms : List (Pcap × Message)) (c : Capture)
    → Runs bpf c
    → Leads bpf (receive_all c ms)
unfolding receive_all
receive_all-Leads bpf [] c r = r
receive_all-Leads bpf ((pcap, m) ∷ ms) c r =
    then-Leads bpf (receive pcap c m) (λ c1. receive_all c1 ms) (receive-Leads bpf pcap c m r)
      (λ c1 r1. receive_all-Leads bpf ms c1 r1)

-- Whatever messages a new capture gets and whatever pcap answers, if that ends: the capture has one
-- loop for its handle and none without one, it works exactly if it has a handle, and its filter is
-- still the one of the addresses that it was created with. If that filter is empty, it has no handle.
pub receive_all-new_capture :
    (name device : Text) (addr : List Text) (category : CaptureType) (bpf : Text)
    (ms : List (Pcap × Message))
    → generate_bpf_str addr (is_listen category) ≡ ok bpf
    → Leads bpf (new_capture name device addr category >>= (λ c. receive_all c ms))
unfolding new_capture
receive_all-new_capture name device addr category bpf ms e =
    let of = fresh_capture name device addr category in
    subst (λ x. Leads bpf (x >>= (λ b. ok (of b)) >>= (λ c. receive_all c ms))) (sym e)
      (receive_all-Leads bpf ms (of bpf) (refl, refl, refl, λ b. refl))
