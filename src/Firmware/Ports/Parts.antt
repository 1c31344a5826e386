-- ===== src/Firmware/Ports/Parts.antt =====
-- Which part of firmware/main.c an interrupt belongs to: by the DMA channels, the pins and the SERCOMs
-- of common/board.h and by the channels of the bridge.
use t2_firmware.Prelude.{
  ℕ, ◌≤◌, List, [], ◌∷◌, Bool, true, false, not, ◌==◌, ◌||◌, bit_and, test_bit,
}
use t2_firmware.Channel.{Chan, usb, port_a, port_b}
use t2_firmware.Bridge.{Callback, opened, completion_out, completion_in, closed}
use t2_firmware.Port.{Config, Hw}
use t2_firmware.Firmware.Ports.{Interrupt, dmac, eic, sercom_a, sercom_b, tcc_a, tcc_b, bridge}

abbrev chan_of : Callback → Chan
chan_of (opened c n) = c
chan_of (completion_out c count) = c
chan_of (completion_in c) = c
chan_of (closed c n) = c

abbrev is_usb : Chan → Bool
is_usb usb = true
is_usb _ = false

abbrev is_a : Chan → Bool
is_a port_a = true
is_a _ = false

abbrev is_b : Chan → Bool
is_b port_b = true
is_b _ = false

-- one of the pins of a port
abbrev touches : Config → (flags : ℕ) → Bool
touches c flags = not (bit_and flags c.pin_interrupts == 0)

abbrev pub for_a : Config → Interrupt → Bool
for_a ca (dmac id) = id == 6 || id == 7
for_a ca (eic flags) = touches ca flags
for_a ca (sercom_a rx failed) = true
for_a ca tcc_a = true
for_a ca (bridge c) = is_a (chan_of c)
for_a ca _ = false

abbrev pub for_b : Config → Interrupt → Bool
for_b cb (dmac id) = id == 8 || id == 9
for_b cb (eic flags) = touches cb flags
for_b cb (sercom_b rx failed) = true
for_b cb tcc_b = true
for_b cb (bridge c) = is_b (chan_of c)
for_b cb _ = false

abbrev pub for_pipe : Interrupt → Bool
for_pipe (bridge c) = is_usb (chan_of c)
for_pipe _ = false

-- The pin of the button is among those reported.
abbrev pub is_button : Interrupt → Bool
is_button (eic flags) = test_bit flags 9
is_button _ = false

abbrev pub some_of : (Interrupt → Bool) → List (Hw × Interrupt) → Bool
some_of f [] = false
some_of f ((hw, i) ∷ is) = f i || some_of f is

-- A bridge transfer is at most as long as the buffer.
abbrev pub Comes : Interrupt → Type 0
Comes (bridge (completion_out c count)) = count ≤ 255
Comes _ = Unit {0}

abbrev pub AllCome : List (Hw × Interrupt) → Type 0
AllCome [] = Unit {0}
AllCome ((hw, i) ∷ is) = Comes i × AllCome is
