-- ===== src/UsbPipe.antt =====
-- firmware/usbpipe.c: the pipe between the USB endpoints and bridge channel 0. The globals are the
-- fields of `UsbPipe`. Of the calls into usb.c's stack and bridge.c the state keeps what their
-- hardware acts on: the buffer that the OUT endpoint was given (`usb_target`), and the buffer and
-- length that `bridge_start_in` was given (`in_slot`, `in_len`). All calls are in `calls`, the
-- latest first.
pub mod Invariant
pub mod Fifo
mod Tests
use t2_firmware.Prelude.{
  ℕ, ◌+◌, ◌%◌, List, [], ◌∷◌, ◌++◌, Bool, true, false, not, ◌&&◌, ltb, ◌==◌, if◌then◌else◌, length,
  get_or, set, drop, replicate,
}

abbrev pub ring_size : ℕ
ring_size = 10

abbrev pub packet_size : ℕ
packet_size = 64

-- uint8_t
abbrev pub u8 : ℕ → ℕ
u8 n = n % 256

pub data PipeState : Type 0 where
  disable wait_for_usb wait_for_bridge : PipeState

pub data Call : Type 0 where
  enable_ep_out enable_ep_in disable_ep_in disable_ep_out : Call
  ep_start_out : (slot : ℕ) → Call
  ep_start_in : (count : ℕ) → Call
  bridge_start_in : (slot len : ℕ) → Call
  bridge_start_out bridge_enable bridge_disable : Call
  invalid : Call

pub record UsbPipe : Type 0 where
  pub ring_buf : List (List ℕ)
  pub count : ℕ
  pub write_pos : ℕ
  pub read_pos : ℕ
  pub short_packet : ℕ
  pub usb_pending : Bool
  pub bridge_pending : Bool
  pub usb_target : ℕ
  pub in_slot : ℕ
  pub in_len : ℕ
  pub soc_to_pc : PipeState
  pub calls : List Call

-- the static initialisers
abbrev pub boot : UsbPipe
boot = record {
  ring_buf = replicate 10 (replicate 64 0);
  count = 0;
  write_pos = 0;
  read_pos = 0;
  short_packet = 0;
  usb_pending = false;
  bridge_pending = false;
  usb_target = 0;
  in_slot = 0;
  in_len = 0;
  soc_to_pc = disable;
  calls = [];
}

-- `usbpipe_init`
unfoldable pub init : UsbPipe → UsbPipe
init s = record s {
  usb_target = s.write_pos;
  usb_pending = true;
  bridge_pending = false;
  soc_to_pc = wait_for_bridge;
  calls =
      bridge_enable
      ∷ bridge_start_out
      ∷ ep_start_out s.write_pos
      ∷ enable_ep_in
      ∷ enable_ep_out
      ∷ s.calls;
}

-- `usbpipe_disable`
unfoldable pub shut_down : UsbPipe → UsbPipe
shut_down s = record s {
  count = 0;
  write_pos = 0;
  read_pos = 0;
  short_packet = 0;
  soc_to_pc = disable;
  calls = bridge_disable ∷ disable_ep_out ∷ disable_ep_in ∷ s.calls;
}

-- the first half of `out_ring_step`: arm the OUT endpoint
unfoldable pub arm_usb : UsbPipe → UsbPipe
arm_usb s =
    if not s.usb_pending && ltb s.count ring_size && s.short_packet == 0
    then record s {
      usb_target = s.write_pos;
      usb_pending = true;
      calls = ep_start_out s.write_pos ∷ s.calls;
    }
    else s

-- the second half: hand a packet to the bridge. `has_short` is the test for a short packet alone
-- in the ring.
abbrev pub has_short : UsbPipe → Bool
has_short s = s.count == 1 && not (s.short_packet == 0)

abbrev pub packet_len : UsbPipe → ℕ
packet_len s = if has_short s then s.short_packet else packet_size

unfoldable pub arm_bridge : UsbPipe → UsbPipe
arm_bridge s =
    if not s.bridge_pending && ltb 0 s.count
    then record s {
      short_packet = if has_short s then 0 else s.short_packet;
      in_slot = s.read_pos;
      in_len = packet_len s;
      bridge_pending = true;
      calls = bridge_start_in s.read_pos (packet_len s) ∷ s.calls;
    }
    else s

-- `out_ring_step`
unfoldable pub out_ring_step : UsbPipe → UsbPipe
unfolding arm_usb arm_bridge
out_ring_step s = arm_bridge (arm_usb s)

-- The USB peripheral writes a packet over the start of the buffer that it was given.
unfoldable pub usb_delivers : List ℕ → UsbPipe → UsbPipe
usb_delivers p s = record s {
  ring_buf = set s.ring_buf s.usb_target (p ++ drop (length p) (get_or s.ring_buf s.usb_target []));
}

-- `pipe_usb_out_completion`; `len` is what `usb_ep_out_length` returns
unfoldable pub usb_out_completion : ℕ → UsbPipe → UsbPipe
unfolding out_ring_step
usb_out_completion len s = out_ring_step (record s {
  short_packet = if ltb len packet_size then u8 len else s.short_packet;
  write_pos = (s.write_pos + 1) % ring_size;
  count = u8 (s.count + 1);
  usb_pending = false;
})

-- `pipe_bridge_in_completion`; `- 1` on a byte
unfoldable pub bridge_in_completion : UsbPipe → UsbPipe
unfolding out_ring_step
bridge_in_completion s = out_ring_step (record s {
  read_pos = (s.read_pos + 1) % ring_size;
  count = u8 (s.count + 255);
  bridge_pending = false;
})

abbrev pub is_waiting_bridge : PipeState → Bool
is_waiting_bridge wait_for_bridge = true
is_waiting_bridge _ = false

abbrev pub is_waiting_usb : PipeState → Bool
is_waiting_usb wait_for_usb = true
is_waiting_usb _ = false

-- `pipe_bridge_out_completion`
unfoldable pub bridge_out_completion : ℕ → UsbPipe → UsbPipe
bridge_out_completion n s =
    if is_waiting_bridge s.soc_to_pc
    then record s { soc_to_pc = wait_for_usb; calls = ep_start_in n ∷ s.calls }
    else record s { calls = invalid ∷ s.calls }

-- `pipe_usb_in_completion`
unfoldable pub usb_in_completion : UsbPipe → UsbPipe
usb_in_completion s =
    if is_waiting_usb s.soc_to_pc
    then record s { soc_to_pc = wait_for_bridge; calls = bridge_start_out ∷ s.calls }
    else record s { calls = invalid ∷ s.calls }
