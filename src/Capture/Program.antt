-- ===== src/Capture/Program.antt =====
-- `captureManager.Receive` of capturer/actor.go, and what `main` of main.go sends to the manager.
use data_collector.Base.{
  ℕ, Bool, true, List, [], ◌∷◌, Option, none, some, ℤ, Text, codes, Result, ok, ◌>>=◌,
}
use data_collector.Common.Address.{TcpAddr, parse_ip_and_port}
use data_collector.Capture.Actor.{StatusSet, running}
use data_collector.Capture.Manager.{
  CaptureConf, CaptureManager, process_capture_conf_update, process_capture_status_set,
}

-- What the manager is sent; a message and a pointer to it are taken alike, others are not looked at.
pub data ManagerMessage : Type 0 where
  capture_update : CaptureConf → ManagerMessage
  status_set : StatusSet → ManagerMessage
  unexpected : ManagerMessage

module _ (spawn_named : CaptureManager → Text → ℕ × Bool) where
  unfoldable pub manager_receive : ManagerMessage → CaptureManager → Result CaptureManager
  unfolding process_capture_conf_update process_capture_status_set
  manager_receive (capture_update conf) c = process_capture_conf_update spawn_named conf c
  manager_receive (status_set m) c = process_capture_status_set m c
  manager_receive unexpected c = ok c

  unfoldable pub manager_receive_all : List ManagerMessage → CaptureManager → Result CaptureManager
  unfolding manager_receive
  manager_receive_all [] c = ok c
  manager_receive_all (m ∷ ms) c = manager_receive m c >>= manager_receive_all ms

abbrev pub device : Text
device = codes "\\Device\\NPF_{7D0089A9-CD14-4C31-926D-B5D61B002A60}"

abbrev pub main_conf : Text → CaptureConf
main_conf addr = record { device_name = device; listen_addrs = []; conn_addrs = addr ∷ [] }

abbrev pub run_all : StatusSet
run_all = record { capture_ids = []; new_status = running; set_all = true }

-- `main`, from the address that it parses on. `text_of` is `TCPAddr.String`.
unfoldable pub messages_for : (TcpAddr → Text) → Option TcpAddr → List ManagerMessage
messages_for text_of none = []
messages_for text_of (some a) = capture_update (main_conf (text_of a)) ∷ status_set run_all ∷ []

unfoldable pub main_messages :
    (Text → Option Text) → (Text → Option ℤ) → (TcpAddr → Text) → List ManagerMessage
unfolding messages_for parse_ip_and_port
main_messages parse_ip atoi text_of =
    messages_for text_of (parse_ip_and_port parse_ip atoi (codes "120.92.182.58") (codes "80"))
