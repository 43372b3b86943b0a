-- ===== src/Capture/Launch.antt =====
-- The captures that the messages of main.go start.
use data_collector.Base.{
  ℕ, ◌==◌, ◌≡◌, refl, ap, ◌∙◌, Bool, true, false, List, [], ◌∷◌, ◌++◌, Option, some, ℤ, length,
  Text, codes, get, put, join, ok, ◌>>=◌, arith,
}
use data_collector.Common.Address.{TcpAddr, parse_ip_and_port}
use data_collector.Common.Filter.{generate_bpf_str, in_clause, out_clause}
use data_collector.Common.Filter.Laws.{IsEndpoint, address_text, filter_text, generate_bpf_v2-map}
use data_collector.Capture.Actor.{
  Capture, CaptureType, listen_stream_capture, connect_stream_capture, running, working,
  capture_status_set, new_capture, fresh_capture, Pcap, receive, set_status, ensure_running,
  with_handle, start,
}
use data_collector.Capture.Manager.{
  spawns, sends, CaptureManager, new_capture_manager, generate_capture_name, send, register, spawn,
  add_captures, update_device, process_capture_conf_update, send_all, send_to,
  process_capture_status_set,
}
use data_collector.Capture.Program.{
  ManagerMessage, capture_update, status_set, manager_receive, manager_receive_all, device,
  main_conf, run_all, messages_for, main_messages,
}

abbrev pub listen_name : Text
listen_name = generate_capture_name device listen_stream_capture

abbrev pub conn_name : Text
conn_name = generate_capture_name device connect_stream_capture

abbrev pub listen_capture : Capture
listen_capture = fresh_capture listen_name device [] listen_stream_capture []

abbrev pub conn_capture : Text → Text → Capture
conn_capture addr bpf = fresh_capture conn_name device (addr ∷ []) connect_stream_capture bpf

new_listen : new_capture listen_name device [] listen_stream_capture ≡ ok listen_capture
unfolding new_capture generate_bpf_str
new_listen =
    ap (λ x. x >>= (λ bpf. ok (fresh_capture listen_name device [] listen_stream_capture bpf)))
      (generate_bpf_v2-map [] tt)

new_conn :
    (e : Text × Text)
    → IsEndpoint e
    → new_capture conn_name device (address_text e ∷ []) connect_stream_capture
      ≡ ok (conn_capture (address_text e) (filter_text (e ∷ [])))
unfolding new_capture generate_bpf_str
new_conn e v =
    ap
      (λ x. x >>= (λ bpf.
        ok (fresh_capture conn_name device (address_text e ∷ []) connect_stream_capture bpf)))
      (generate_bpf_v2-map (e ∷ []) (v, tt))

module _ (spawn_named : CaptureManager → Text → ℕ × Bool) where
  spawn_run :
      (addrs : List Text) (category : CaptureType) (c : CaptureManager) (capture : Capture)
      → new_capture (generate_capture_name device category) device addrs category ≡ ok capture
      → spawn spawn_named device addrs category c
        ≡ ok (
          record c {
            actions = c.actions ++ spawns (generate_capture_name device category) capture ∷ [];
          },
          (
            record {
              actor_name = generate_capture_name device category;
              pid = (spawn_named c (generate_capture_name device category)).0;
            },
            (spawn_named c (generate_capture_name device category)).1,
          ),
        )
  unfolding spawn
  spawn_run addrs category c capture e = rw e

  -- The manager after the first message of `main`; the numbers are those of the two actors.
  abbrev with_captures : Text × Text → ℕ → ℕ → CaptureManager → CaptureManager
  with_captures e p q c = record c {
    captures =
        put device
          (
            some (record { actor_name = listen_name; pid = p }),
            some (record { actor_name = conn_name; pid = q }),
          )
          (c.captures);
    actions =
        (c.actions ++ spawns listen_name listen_capture ∷ [])
        ++ spawns conn_name (conn_capture (address_text e) (filter_text (e ∷ []))) ∷ [];
  }

  -- The manager at the first spawn, and at the second one; and the two actors.
  abbrev pub at_listen : Text × Text → CaptureManager
  at_listen e = record {
    captures = [];
    capture_confs = (device, main_conf (address_text e)) ∷ [];
    actions = [];
  }

  abbrev pub at_conn : Text × Text → CaptureManager
  at_conn e = record (at_listen e) { actions = spawns listen_name listen_capture ∷ [] }

  abbrev pub listen_pid : Text × Text → ℕ
  listen_pid e = (spawn_named (at_listen e) listen_name).0

  abbrev pub conn_pid : Text × Text → ℕ
  conn_pid e = (spawn_named (at_conn e) conn_name).0

  add_run :
      (e : Text × Text)
      → IsEndpoint e
      → ((c : CaptureManager) (name : Text) → (spawn_named c name).1 ≡ true)
      → add_captures spawn_named (main_conf (address_text e)) (at_listen e)
        ≡ ok (with_captures e (listen_pid e) (conn_pid e) (at_listen e))
  unfolding add_captures register
  add_run e v h = rw (
    spawn_run [] listen_stream_capture (at_listen e) listen_capture new_listen,
    spawn_run (address_text e ∷ []) connect_stream_capture (at_conn e)
        (conn_capture (address_text e) (filter_text (e ∷ []))) (new_conn e v),
    h (at_conn e) conn_name,
  )

  first_run :
      (e : Text × Text)
      → IsEndpoint e
      → ((c : CaptureManager) (name : Text) → (spawn_named c name).1 ≡ true)
      → process_capture_conf_update spawn_named (main_conf (address_text e)) new_capture_manager
        ≡ ok (with_captures e (listen_pid e) (conn_pid e) (at_listen e))
  unfolding process_capture_conf_update update_device new_capture_manager get put
  first_run e v h = add_run e v h

  both_run :
      (e : Text × Text)
      → IsEndpoint e
      → ((c : CaptureManager) (name : Text) → (spawn_named c name).1 ≡ true)
      → (c : CaptureManager) × (manager_receive_all spawn_named
            (capture_update (main_conf (address_text e)) ∷ status_set run_all ∷ [])
            new_capture_manager
          ≡ ok c)
        × (c.actions
            ≡ spawns listen_name listen_capture
              ∷ spawns conn_name (conn_capture (address_text e) (filter_text (e ∷ [])))
              ∷ sends (listen_pid e) (capture_status_set run_all)
              ∷ sends (conn_pid e) (capture_status_set run_all)
              ∷ [])
  unfolding manager_receive_all manager_receive process_capture_status_set send_all send_to send
      new_capture_manager put
  both_run e v h = (
    send_all
        ((
          device,
          (
            some (record { actor_name = listen_name; pid = listen_pid e }),
            some (record { actor_name = conn_name; pid = conn_pid e }),
          ),
        )
          ∷ [])
        (capture_status_set run_all) (with_captures e (listen_pid e) (conn_pid e) (at_listen e)),
    ap (λ x. x >>= (λ c. process_capture_status_set run_all c >>= (λ d. ok d))) (first_run e v h),
    refl,
  )

messages_run :
    (parse_ip : Text → Option Text) (atoi : Text → Option ℤ) (text_of : TcpAddr → Text)
    (a : TcpAddr)
    → parse_ip_and_port parse_ip atoi (codes "120.92.182.58") (codes "80") ≡ some a
    → main_messages parse_ip atoi text_of
      ≡ capture_update (main_conf (text_of a)) ∷ status_set run_all ∷ []
unfolding main_messages messages_for
messages_run parse_ip atoi text_of a e = rw e

-- The capture of listen addresses has none, so it is never opened.
listen_idle :
    (pcap : Pcap)
    → (c : Capture) × (receive pcap listen_capture (capture_status_set run_all) ≡ ok c)
      × (c.loops ≡ [])
unfolding receive set_status ensure_running
listen_idle pcap = (
  record listen_capture { old_status = Capture.status listen_capture; status = running },
  refl,
  refl,
)

conn_run :
    (pcap : Pcap) (addr bpf : Text) (h : ℕ)
    → (length bpf == 0) ≡ false
    → pcap.open_live device ≡ some h
    → pcap.set_bpf_filter (some h) bpf ≡ ok true
    → (c : Capture) × (receive pcap (conn_capture addr bpf) (capture_status_set run_all) ≡ ok c)
      × (c.loops ≡ h ∷ [])
      × (c.inter_status ≡ working)
unfolding receive set_status ensure_running with_handle start
conn_run pcap addr bpf h l o f = (
  record (conn_capture addr bpf) {
    old_status = Capture.status (conn_capture addr bpf);
    status = running;
    handle = some h;
    loops = h ∷ [];
    inter_status = working;
  },
  rw (l, o, f),
  refl,
  refl,
)

filter_text_nonempty : (e : Text × Text) → (length (filter_text (e ∷ [])) == 0) ≡ false
unfolding join in_clause out_clause
filter_text_nonempty e = ground arith

-- If the address of `main` can be parsed, both spawns succeed, and pcap opens the device as h and takes
-- the filter: the manager takes the two messages without a fault. It spawns a capture of listen addresses
-- and one of connections, with the filter of that address, and sends the status to the actor that each spawn gave. The second one
-- then reads the packets of h, once; the first one, which has no address, never does.
pub main_messages-Captures :
    (parse_ip : Text → Option Text) (atoi : Text → Option ℤ) (text_of : TcpAddr → Text)
    (a : TcpAddr) (spawn_named : CaptureManager → Text → ℕ × Bool) (pcap : Pcap) (e : Text × Text)
    (h : ℕ)
    → parse_ip_and_port parse_ip atoi (codes "120.92.182.58") (codes "80") ≡ some a
    → text_of a ≡ address_text e
    → IsEndpoint e
    → ((c : CaptureManager) (name : Text) → (spawn_named c name).1 ≡ true)
    → pcap.open_live device ≡ some h
    → pcap.set_bpf_filter (some h) (filter_text (e ∷ [])) ≡ ok true
    → (c : CaptureManager) × (l : Capture) × (r : Capture) × (manager_receive_all spawn_named
          (main_messages parse_ip atoi text_of)
          new_capture_manager
        ≡ ok c)
      × (c.actions
          ≡ spawns listen_name listen_capture
            ∷ spawns conn_name (conn_capture (address_text e) (filter_text (e ∷ [])))
            ∷ sends (listen_pid spawn_named e) (capture_status_set run_all)
            ∷ sends (conn_pid spawn_named e) (capture_status_set run_all)
            ∷ [])
      × (receive pcap listen_capture (capture_status_set run_all) ≡ ok l)
      × (l.loops ≡ [])
      × (receive pcap
            (conn_capture (address_text e) (filter_text (e ∷ [])))
            (capture_status_set run_all)
          ≡ ok r)
      × (r.loops ≡ h ∷ [])
main_messages-Captures parse_ip atoi text_of a spawn_named pcap e h parsed text v spawned opened
      set =
    let (c, run, acts) = both_run spawn_named e v spawned in
    let (l, listen, none_read) = listen_idle pcap in
    let (r, conn, reads, at_work) =
      conn_run pcap (address_text e) (filter_text (e ∷ [])) h (filter_text_nonempty e) opened set in
    (
      c,
      l,
      r,
      ap (λ (ms : List ManagerMessage). manager_receive_all spawn_named ms new_capture_manager)
            (messages_run parse_ip atoi text_of a parsed
              ∙ ap (λ t. capture_update (main_conf t) ∷ status_set run_all ∷ []) text)
          ∙ run,
      acts,
      listen,
      none_read,
      conn,
      reads,
    )
