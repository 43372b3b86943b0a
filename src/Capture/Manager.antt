-- ===== src/Capture/Manager.antt =====
-- `captureManager` of capturer/actor.go. A map is an association list in the order of its iteration; an
-- actor is its number. What the actor system does is a list of actions, and what it answers to
-- `SpawnNamed` is a parameter: the actor's number and whether there was no error.
pub mod Finding
pub mod Sending
pub mod Adding
pub mod Updating
use data_collector.Base.{
  ℕ, ◌+◌, ◌==◌, Bool, true, false, List, [], ◌∷◌, ◌++◌, Option, none, some, if◌then◌else◌, length,
  Text, codes, text_eq, get, put, Result, ok, err, nil_dereference, ◌>>=◌, or_fault,
}
use data_collector.Capture.Actor.{
  Capture, CaptureType, listen_stream_capture, connect_stream_capture, StatusSet, Message,
  capture_status_set, addr_update, new_capture,
}

-- `common.CaptureConf`
pub record CaptureConf : Type 0 where
  pub device_name : Text
  pub listen_addrs : List Text
  pub conn_addrs : List Text

-- `common.ActorWrapper`, less its map, which nothing reads.
pub record ActorWrapper : Type 0 where
  pub actor_name : Text
  pub pid : ℕ

abbrev pub Pair : Type 0
Pair = Option ActorWrapper × Option ActorWrapper

pub data Action : Type 0 where
  spawns : Text → Capture → Action
  sends : ℕ → Message → Action

pub record CaptureManager : Type 0 where
  pub captures : List (Text × Pair)
  pub capture_confs : List (Text × CaptureConf)
  pub actions : List Action

unfoldable pub new_capture_manager : CaptureManager
new_capture_manager = record { captures = []; capture_confs = []; actions = [] }

-- `captureType.String`, and `generateCaptureName`.
abbrev pub type_text : CaptureType → Text
type_text listen_stream_capture = codes "listenStreamCapture"
type_text connect_stream_capture = codes "connectStreamCapture"

unfoldable pub generate_capture_name : Text → CaptureType → Text
generate_capture_name device category =
    codes "{" ++ (device ++ (codes "}-{" ++ (type_text category ++ codes "}")))

unfoldable pub send : ℕ → Message → CaptureManager → CaptureManager
send pid m c = record c { actions = c.actions ++ sends pid m ∷ [] }

-- A known device: both captures are sent the listen addresses.
unfoldable pub update_known : CaptureConf → CaptureManager → Pair → CaptureManager
unfolding send
update_known conf c (none, conn) = c
update_known conf c (some l, none) = c
update_known conf c (some l, some r) =
    send (r.pid) (addr_update (conf.listen_addrs))
      (send (l.pid) (addr_update (conf.listen_addrs)) c)

-- Both captures go into the map unless the spawn of the second one failed.
unfoldable pub register :
    Text → ActorWrapper → ActorWrapper × Bool → CaptureManager → CaptureManager
unfolding put
register device l r c =
    if r.1 then record c { captures = put device (some l, some (r.0)) (c.captures) } else c

module _ (spawn_named : CaptureManager → Text → ℕ × Bool) where
  -- `SpawnNamed` of a new capture: the actor, if there was no error.
  unfoldable pub spawn :
      Text
      → List Text
      → CaptureType
      → CaptureManager
      → Result (CaptureManager × (ActorWrapper × Bool))
  unfolding generate_capture_name
  spawn device addrs category c =
      let name = generate_capture_name device category in
      let answer = spawn_named c name in
      (do
        capture ← new_capture name device addrs category
        ok (
          record c { actions = c.actions ++ spawns name capture ∷ [] },
          (record { actor_name = name; pid = answer.0 }, answer.1),
        ))

  -- A new device. An error of the first spawn is only logged.
  unfoldable pub add_captures : CaptureConf → CaptureManager → Result CaptureManager
  unfolding spawn register
  add_captures conf c = do
    l ← spawn (conf.device_name) (conf.listen_addrs) listen_stream_capture c
    r ← spawn (conf.device_name) (conf.conn_addrs) connect_stream_capture (l.0)
    ok (register (conf.device_name) (l.1.0) (r.1) (r.0))

  unfoldable pub update_device : CaptureConf → CaptureManager → Option Pair → Result CaptureManager
  unfolding update_known add_captures
  update_device conf c (some pair) = ok (update_known conf c pair)
  update_device conf c none = add_captures conf c

  -- `processCaptureConfUpdateMsg`
  unfoldable pub process_capture_conf_update : CaptureConf → CaptureManager → Result CaptureManager
  unfolding update_device get put
  process_capture_conf_update conf c =
      let c0 = record c { capture_confs = put (conf.device_name) conf (c.capture_confs) } in
      if length (conf.device_name) == 0
      then ok c
      else update_device conf c0 (get (conf.device_name) (c.captures))

-- `findCaptureByName`: an entry without a capture is a nil dereference.
unfoldable pub find_capture_by_name : Text → List (Text × Pair) → Result (Option ActorWrapper)
find_capture_by_name name [] = ok none
find_capture_by_name name ((device, (none, r)) ∷ rest) = err nil_dereference
find_capture_by_name name ((device, (some l, none)) ∷ rest) =
    if text_eq (l.actor_name) name then ok (some l) else err nil_dereference
find_capture_by_name name ((device, (some l, some r)) ∷ rest) =
    let further = find_capture_by_name name rest in
    if text_eq (l.actor_name) name
    then ok (some l)
    else if text_eq (r.actor_name) name
    then ok (some r)
    else further

unfoldable pub send_to : Option ActorWrapper → Message → CaptureManager → CaptureManager
unfolding send
send_to none m c = c
send_to (some a) m c = send (a.pid) m c

-- The two loops of `processCaptureStatusSetMsg`.
unfoldable pub send_all : List (Text × Pair) → Message → CaptureManager → CaptureManager
unfolding send_to
send_all [] m c = c
send_all ((device, pair) ∷ rest) m c = send_all rest m (send_to (pair.1) m (send_to (pair.0) m c))

unfoldable pub send_each : List Text → Message → CaptureManager → Result CaptureManager
unfolding find_capture_by_name send_to
send_each [] m c = ok c
send_each (id ∷ ids) m c = do
  a ← find_capture_by_name id (c.captures)
  send_each ids m (send_to a m c)

unfoldable pub process_capture_status_set : StatusSet → CaptureManager → Result CaptureManager
unfolding send_all send_each
process_capture_status_set m c =
    if m.set_all
    then ok (send_all (c.captures) (capture_status_set m) c)
    else send_each (m.capture_ids) (capture_status_set m) c
