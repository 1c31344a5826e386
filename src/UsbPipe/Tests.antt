-- ===== src/UsbPipe/Tests.antt =====
-- Runs of firmware/usbpipe.c.
use t2_firmware.Prelude.{
  ℕ, ◌<◌, ◌≡◌, ◌≢◌, ◌⊎◌, List, [], ◌∷◌, ◌++◌, true, arith, refl, length, take, get_or, replicate,
}
use t2_firmware.UsbPipe.{
  UsbPipe, boot, init, usb_delivers, usb_out_completion, bridge_in_completion, packet_size,
}
use t2_firmware.UsbPipe.Invariant.{init-IsValid}
use t2_firmware.UsbPipe.Fifo.{
  held, handed_over, Reach, begin, arrive, Reach-fifo, Reach-slots_apart, empty_packet,
}

abbrev full : List ℕ
full = replicate 64 7

abbrev short : List ℕ
short = 1 ∷ 2 ∷ 3 ∷ []

abbrev started : UsbPipe
started = init boot

-- A full packet has arrived, and the endpoint is armed again.
abbrev busy : UsbPipe
busy = usb_out_completion (length full) (usb_delivers full started)

busy-Reach : Reach busy (full ∷ []) []
unfolding init
busy-Reach = arrive full begin refl (omega arith) (omega arith)

busy_state : (busy.usb_pending ≡ true) × (busy.bridge_pending ≡ true) × (held busy ≡ full ∷ [])
unfolding init usb_out_completion usb_delivers
busy_state = (refl, refl, refl)

-- A short packet waits behind the full one, and leaves with its own length.
abbrev last : UsbPipe
last = usb_out_completion (length short) (usb_delivers short busy)

last-Reach : Reach last (full ∷ short ∷ []) []
last-Reach = arrive short busy-Reach busy_state.0 (omega arith) (omega arith)

last_runs :
    (held last ≡ full ∷ short ∷ [])
    × (handed_over last ≡ full)
    × (handed_over (bridge_in_completion last) ≡ short)
unfolding init usb_out_completion usb_delivers bridge_in_completion
last_runs = (refl, refl, refl)

Reach-slots_apart_example :
    (busy.usb_target ≢ busy.in_slot)
    × (busy.usb_target < length busy.ring_buf)
    × (busy.in_slot < length busy.ring_buf)
Reach-slots_apart_example = Reach-slots_apart busy-Reach busy_state.0 busy_state.1

Reach-fifo_example :
    (full ∷ short ∷ [] ≡ [] ++ held last)
    × ((last.usb_pending ≡ true) ⊎ (last.bridge_pending ≡ true))
Reach-fifo_example = Reach-fifo last-Reach

empty_packet_example :
    let t = usb_out_completion 0 (usb_delivers [] started) in
    (t.bridge_pending ≡ true)
    × (t.in_len ≡ packet_size)
    × (handed_over t ≡ take packet_size (get_or started.ring_buf started.usb_target []))
unfolding init
empty_packet_example = empty_packet init-IsValid refl refl
