-- ===== src/Capture/Tests.antt =====
-- Runs of captures and of their manager.
use data_collector.Base.{
  ◌+◌, Option, ℤ, pos, arith, ℕ, ◌≡◌, refl, Bool, true, false, List, [], ◌∷◌, some, length, Text,
  text_eq, get, codes, ok, ◌>>=◌, All,
}
use data_collector.Common.Filter.{generate_bpf_str}
use data_collector.Capture.Actor.{
  Pcap, connect_stream_capture, Message, capture_status_set, addr_update, StatusSet, running,
  working, paused, InternalStatus, new_capture, receive_all,
}
use data_collector.Capture.Actor.Idle.{Leads, receive_all-new_capture}
use data_collector.Capture.Manager.{
  CaptureConf, ActorWrapper, Pair, sends, CaptureManager, process_capture_conf_update,
  process_capture_status_set,
}
use data_collector.Capture.Manager.Finding.{first_named_each, AllPresent, Sent, IsIn}
use data_collector.Capture.Manager.Sending.{process_capture_status_set-Sent}
use data_collector.Capture.Manager.Adding.{WhereOk, Kept}
use data_collector.Capture.Manager.Updating.{
  process_capture_conf_update-Keeps, process_capture_conf_update-known,
}
use data_collector.Assembly.Assembler.{Assembler, new_assembler}
use data_collector.Capture.Loop.Running.{Chosen, capture_packets-Chosen}
use data_collector.Capture.Loop.{Segment, assemble_all}
use data_collector.Assembly.Steady.Protocol.{Lawful}
use data_collector.Assembly.Pool.{new_stream_pool}
use data_collector.Assembly.Segment.{Tcp}
use data_collector.Common.Address.{TcpAddr, parse_ip_and_port}
use data_collector.Common.Filter.Laws.{address_text, filter_text}
use data_collector.Capture.Actor.{Capture, receive}
use data_collector.Capture.Manager.{spawns, new_capture_manager}
use data_collector.Capture.Program.{run_all, main_messages, manager_receive_all}
use data_collector.Capture.Launch.{
  listen_name, conn_name, listen_capture, conn_capture, main_messages-Captures,
}
use data_collector.Capture.Loop.{Packet, tcp_layer, other_layer, capture_packets}

abbrev eth : Text
eth = codes "eth0"

-- Every device opens as handle 3, and every filter is taken.
abbrev pcap : Pcap
pcap = record { open_live = λ device. some 3; set_bpf_filter = λ h text. ok true }

abbrev messages : List (Pcap × Message)
messages = (pcap, addr_update (codes "a:8" ∷ [])) ∷ (pcap, capture_status_set run_all) ∷ []

receive_all-new_capture_example :
    Leads []
      (new_capture (codes "c") eth [] connect_stream_capture >>= (λ c. receive_all c messages))
unfolding generate_bpf_str
receive_all-new_capture_example =
    receive_all-new_capture (codes "c") eth [] connect_stream_capture [] messages refl

abbrev left : ActorWrapper
left = record { actor_name = codes "l"; pid = 1 }

abbrev right : ActorWrapper
right = record { actor_name = codes "r"; pid = 2 }

abbrev manager : CaptureManager
manager = record {
  captures = (eth, (some left, some right)) ∷ [];
  capture_confs = [];
  actions = [];
}

manager-AllPresent : AllPresent manager
manager-AllPresent = ((left, right, refl), tt)

abbrev conf : CaptureConf
conf = record { device_name = eth; listen_addrs = codes "a:8" ∷ []; conn_addrs = codes "b:9" ∷ [] }

abbrev spawn_named : CaptureManager → Text → ℕ × Bool
spawn_named c name = (length (c.actions), true)

process_capture_conf_update-Keeps_example :
    WhereOk
      (Kept spawn_named (record conf { device_name = codes "lo" }) manager)
      (process_capture_conf_update spawn_named (record conf { device_name = codes "lo" }) manager)
process_capture_conf_update-Keeps_example =
    process_capture_conf_update-Keeps spawn_named (record conf { device_name = codes "lo" }) manager
      manager-AllPresent

process_capture_conf_update-known_example :
    (l : ActorWrapper) × (r : ActorWrapper) × (c' : CaptureManager) × (◌≡◌ {A = Pair}
      (some left, some right)
      (some l, some r))
    × (process_capture_conf_update spawn_named conf manager ≡ ok c')
    × (c'.actions
        ≡ sends (l.pid) (addr_update (codes "a:8" ∷ []))
          ∷ sends (r.pid) (addr_update (codes "a:8" ∷ []))
          ∷ [])
    × (c'.captures ≡ manager.captures)
    × (get eth (c'.capture_confs) ≡ some conf)
    × (get (codes "lo") (c'.capture_confs) ≡ get (codes "lo") (manager.capture_confs))
unfolding get text_eq
process_capture_conf_update-known_example =
    process_capture_conf_update-known spawn_named conf manager (some left, some right) (codes "lo")
      manager-AllPresent refl refl refl

abbrev run_right : StatusSet
run_right = record {
  capture_ids = codes "r" ∷ codes "none" ∷ [];
  new_status = running;
  set_all = false;
}

process_capture_status_set-Sent_example :
    (c' : CaptureManager) × (ps : List ℕ) × (process_capture_status_set run_right manager ≡ ok c')
    × Sent (capture_status_set run_right) ps manager c'
    × All (λ p. IsIn p (1 ∷ 2 ∷ [])) ps
    × (ps ≡ first_named_each (codes "r" ∷ codes "none" ∷ []) (left ∷ right ∷ []))
process_capture_status_set-Sent_example =
    process_capture_status_set-Sent run_right manager manager-AllPresent

abbrev syn : Tcp
syn = record { syn = true; fin = false; rst = false; seq = 99; payload = [] }

abbrev tcp_packet : Packet
tcp_packet = record { network = some 1; transport = some (tcp_layer 2 syn); timestamp = 5 }

-- One packet in a pause, one that is not TCP, and one that counts.
abbrev packets : List (InternalStatus × Packet)
packets =
    (paused, tcp_packet)
    ∷ (working, record tcp_packet { transport = some other_layer })
    ∷ (working, tcp_packet)
    ∷ []

capture_packets-Chosen_example :
    (ss : List Segment) × (a : Assembler) × (opened : List ℕ) × Chosen packets ss
    × (capture_packets 1 packets (new_assembler new_stream_pool) ≡ ok a)
    × (assemble_all 1 ss (new_assembler new_stream_pool) ≡ ok a)
    × Lawful a.events opened a.pool.streams
    × (length a.pool.conns ≡ length opened)
capture_packets-Chosen_example = capture_packets-Chosen 0 packets

abbrev address : Text × Text
address = (codes "120.92.182.58", codes "80")

abbrev text_of : TcpAddr → Text
text_of a = address_text address

abbrev parse_ip : Text → Option Text
parse_ip t = some t

abbrev atoi : Text → Option ℤ
atoi t = some (pos 80)

abbrev spawn_next : CaptureManager → Text → ℕ × Bool
spawn_next c name = (7 + length (c.actions), true)

main_messages-Captures_example :
    (c : CaptureManager) × (l : Capture) × (r : Capture) × (manager_receive_all spawn_next
        (main_messages parse_ip atoi text_of)
        new_capture_manager
      ≡ ok c)
    × (c.actions
        ≡ spawns listen_name listen_capture
          ∷ spawns conn_name (conn_capture (address_text address) (filter_text (address ∷ [])))
          ∷ sends 7 (capture_status_set run_all)
          ∷ sends 8 (capture_status_set run_all)
          ∷ [])
    × (receive pcap listen_capture (capture_status_set run_all) ≡ ok l)
    × (l.loops ≡ [])
    × (receive pcap
          (conn_capture (address_text address) (filter_text (address ∷ [])))
          (capture_status_set run_all)
        ≡ ok r)
    × (r.loops ≡ 3 ∷ [])
unfolding parse_ip_and_port
main_messages-Captures_example =
    main_messages-Captures parse_ip atoi text_of
      (record { ip = codes "120.92.182.58"; port = pos 80 }) spawn_next pcap address 3 refl refl
      (omega arith, (omega arith, tt)) (λ c name. refl) refl refl
