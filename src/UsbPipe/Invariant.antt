-- ===== src/UsbPipe/Invariant.antt =====
-- What holds of the ring of firmware/usbpipe.c between two interrupts.
use t2_firmware.Prelude.{
  ℕ, ◌+◌, ◌%◌, ◌≤◌, ◌<◌, ◌≡◌, ◌≢◌, List, true, false, arith, length, length-set, drop, get_or, [],
  ◌++◌,
}
use t2_firmware.UsbPipe.{
  UsbPipe, boot, init, usb_delivers, usb_out_completion, bridge_in_completion, ring_size,
  packet_size,
}

pub record IsValid (s : UsbPipe) : Type 0 where
  pub slots : length s.ring_buf ≡ ring_size
  pub count_le : s.count ≤ ring_size
  pub read_lt : s.read_pos < ring_size
  pub write_at : s.write_pos ≡ (s.read_pos + s.count) % ring_size
  pub short_lt : s.short_packet < packet_size
  pub busy : s.bridge_pending ≡ true → (0 < s.count) × (s.in_slot ≡ s.read_pos)
  pub idle : s.bridge_pending ≡ false → s.count ≡ 0
  pub armed :
      s.usb_pending ≡ true
      → (s.count < ring_size)
        × (s.usb_target ≡ s.write_pos)
        × (s.short_packet ≡ 0)
        × (s.bridge_pending ≡ true → s.in_len ≡ packet_size)
  pub full_head : 1 < s.count → s.in_len ≡ packet_size
  pub in_len_le : s.in_len ≤ packet_size
  pub awake : s.usb_pending ≡ false → s.bridge_pending ≡ true
  pub short_last : s.short_packet ≢ 0 → 1 < s.count

pub init-IsValid : IsValid (init boot)
unfolding init
init-IsValid = ground arith

module _ (s : UsbPipe) (v : IsValid s) where
  pub usb_delivers-IsValid : (p : List ℕ) → IsValid (usb_delivers p s)
  unfolding usb_delivers
  usb_delivers-IsValid p = ground (
    arith,
    length-set s.ring_buf s.usb_target (p ++ drop (length p) (get_or s.ring_buf s.usb_target [])),
  )

  completed-IsValid :
      (len : ℕ) → s.usb_pending ≡ true → len ≤ packet_size → IsValid (usb_out_completion len s)
  unfolding usb_out_completion
  completed-IsValid len h le = ground arith

  -- The end of a transfer to the bridge keeps the ring valid.
  pub bridge_in_completion-IsValid : s.bridge_pending ≡ true → IsValid (bridge_in_completion s)
  unfolding bridge_in_completion
  bridge_in_completion-IsValid h = ground arith

  pub valid_slots :
      s.usb_pending ≡ true
      → s.bridge_pending ≡ true
      → (s.usb_target ≢ s.in_slot)
        × (s.usb_target < length s.ring_buf)
        × (s.in_slot < length s.ring_buf)
  valid_slots h k = ground arith

-- A packet that arrives while the OUT endpoint is armed keeps the ring valid.
pub usb_out_completion-IsValid :
    (s : UsbPipe)
    → IsValid s
    → (p : List ℕ) → s.usb_pending ≡ true
    → length p ≤ packet_size
    → IsValid (usb_out_completion (length p) (usb_delivers p s))
unfolding usb_delivers
usb_out_completion-IsValid s v p h le =
    completed-IsValid (usb_delivers p s) (usb_delivers-IsValid s v p) (length p) h le
