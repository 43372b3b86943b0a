-- ===== src/Capture/Actor.antt =====
-- `capture` of capturer/actor.go: the actor of one packet capture. A handle is its number. What pcap
-- answers is a parameter; the goroutine that reads a handle's packets is listed in `loops`.
pub mod Idle
use data_collector.Base.{
  ℕ, ◌+◌, ◌==◌, Bool, true, false, List, [], ◌∷◌, ◌++◌, Option, none, some, ℤ, if◌then◌else◌,
  length, Text, Result, ok, err, ◌>>=◌,
}
use data_collector.Common.Filter.{generate_bpf_str}

-- The named values of `CaptureStatus`, and the others.
pub data CaptureStatus : Type 0 where
  new_created is_ready staring running stoping stoppted : CaptureStatus
  unknown : ℤ → CaptureStatus

pub data InternalStatus : Type 0 where
  ready working paused : InternalStatus

pub data CaptureType : Type 0 where
  listen_stream_capture connect_stream_capture : CaptureType

abbrev pub is_listen : CaptureType → Bool
is_listen listen_stream_capture = true
is_listen connect_stream_capture = false

pub record StatusSet : Type 0 where
  pub capture_ids : List Text
  pub new_status : CaptureStatus
  pub set_all : Bool

-- What an actor is sent; other messages are not looked at.
pub data Message : Type 0 where
  capture_status_set : StatusSet → Message
  addr_update : List Text → Message
  other_message : Message

pub record Capture : Type 0 where
  pub name : Text
  pub device_name : Text
  pub capture_type : CaptureType
  pub addr : List Text
  pub bpf_str : Text
  pub status : CaptureStatus
  pub inter_status : InternalStatus
  pub old_status : CaptureStatus
  pub handle : Option ℕ
  pub loops : List ℕ

-- The capture that `newCapture` returns, with the filter `bpf`.
abbrev pub fresh_capture : Text → Text → List Text → CaptureType → Text → Capture
fresh_capture name device addr category bpf = record {
  name = name;
  device_name = device;
  capture_type = category;
  addr = addr;
  bpf_str = bpf;
  status = new_created;
  inter_status = ready;
  old_status = unknown (ℤ.pos 0);
  handle = none;
  loops = [];
}

-- `newCapture`
unfoldable pub new_capture : Text → Text → List Text → CaptureType → Result Capture
new_capture name device addr category = do
  bpf ← generate_bpf_str addr (is_listen category)
  ok (fresh_capture name device addr category bpf)

-- What pcap answers: `pcap.OpenLive` of a device, with no handle for an error, and `SetBPFFilter` of a
-- handle, which may be nil, with false for an error.
pub record Pcap : Type 0 where
  pub open_live : Text → Option ℕ
  pub set_bpf_filter : Option ℕ → Text → Result Bool

-- `c.handle == nil` and an open handle `h`: the filter, the packet source and its goroutine.
unfoldable pub start : Pcap → Capture → Option ℕ → Result Capture
start pcap c none = ok c
start pcap c (some h) = do
  set ← pcap.set_bpf_filter (some h) (c.bpf_str)
  ok (
      if set
      then record c { handle = some h; loops = c.loops ++ h ∷ []; inter_status = working }
      else c)

unfoldable pub with_handle : Pcap → Capture → Option ℕ → Result Capture
unfolding start
with_handle pcap c none = start pcap c (pcap.open_live (c.device_name))
with_handle pcap c (some h) = ok (record c { inter_status = working })

-- `ensureRunning`; its errors are only logged.
unfoldable pub ensure_running : Pcap → Capture → Result Capture
unfolding with_handle
ensure_running pcap c = if length (c.bpf_str) == 0 then ok c else with_handle pcap c (c.handle)

-- `processCaptureStatusSetMsg`; `ensureStopped` does nothing.
unfoldable pub set_status : Pcap → Capture → CaptureStatus → Result Capture
unfolding ensure_running
set_status pcap c running = ensure_running pcap c
set_status pcap c stoppted = ok c
set_status pcap c new_created = ok c
set_status pcap c is_ready = ok c
set_status pcap c staring = ok c
set_status pcap c stoping = ok c
set_status pcap c (unknown n) = ok c

-- `processAddrUpdateMsg`; whether the filter was set is not looked at.
unfoldable pub process_addr_update : Pcap → Capture → List Text → Result Capture
process_addr_update pcap c addrs = do
  let c0 = record c { addr = addrs }
  bpf ← generate_bpf_str addrs (is_listen (c.capture_type))
  set ← pcap.set_bpf_filter (c.handle) bpf
  ok c0

-- `Receive`
unfoldable pub receive : Pcap → Capture → Message → Result Capture
unfolding set_status process_addr_update
receive pcap c (capture_status_set m) =
    set_status pcap (record c { old_status = c.status; status = m.new_status }) (m.new_status)
receive pcap c (addr_update addrs) = process_addr_update pcap c addrs
receive pcap c other_message = ok c

-- The messages of a capture, one after the other, each with what pcap answers meanwhile.
unfoldable pub receive_all : Capture → List (Pcap × Message) → Result Capture
unfolding receive
receive_all c [] = ok c
receive_all c ((pcap, m) ∷ ms) = do c1 ← receive pcap c m; receive_all c1 ms
