-- ===== src/Firmware/Ports/Tests.antt =====
-- The interrupts of firmware/main.c at concrete inputs.
use t2_firmware.Prelude.{ℕ, inl, refl, List, [], ◌∷◌, true, false, none, replicate, get_or, arith}
use t2_firmware.Channel.{usb, port_b}
use t2_firmware.Bridge.{opened, completion_out, completion_in}
use t2_firmware.UsbPipe
use t2_firmware.Port.{PortData, Config, Hw, disable, no_mode}
use t2_firmware.Firmware.Ports.{System, Interrupt, dmac, eic, sercom_b, bridge, interrupts}
use t2_firmware.Firmware.Ports.Spared.{Outcome, interrupts-spare}

-- PORT_A and PORT_B of common/board.h
abbrev board_a : Config
board_a = record {
  extint = λ i. get_or (13 ∷ 12 ∷ 7 ∷ 6 ∷ 2 ∷ 14 ∷ 15 ∷ 8 ∷ []) i 0;
  pin_interrupts = 0xC180;
}

abbrev board_b : Config
board_b = record {
  extint = λ i. get_or (9 ∷ 8 ∷ 5 ∷ 7 ∷ 4 ∷ 10 ∷ 11 ∷ 2 ∷ []) i 0;
  pin_interrupts = 0x0C24;
}

abbrev quiet : Hw
quiet = record { level = λ k i. false; adc = λ k i. 0; i2c_data = λ k. 0; eic_mode = λ k i. 0 }

abbrev port_on : ℕ → PortData
port_on n = record {
  cmd_buf = replicate 255 0;
  reply_buf = replicate 255 0;
  chan = n;
  state = disable;
  mode = no_mode;
  cmd_len = 0;
  cmd_pos = 0;
  reply_len = 0;
  cmd = 0;
  arg = replicate 5 0;
  arg_len = 0;
  arg_pos = 0;
  pending_out = false;
  pending_in = false;
  uart_buf = record { head = 0; tail = 0; buf_len = 0; rx_bytes = replicate 32 0 };
  calls = [];
}

abbrev at_start : System
at_start = record { port_a = port_on 1; port_b = port_on 2; pipe = UsbPipe.boot }

abbrev high : Hw
high = record quiet { level = λ k i. true }

abbrev some_interrupts : List (Hw × Interrupt)
some_interrupts =
    (quiet, bridge (opened port_b 0))
    ∷ (quiet, bridge (completion_out port_b 12))
    ∷ (quiet, bridge (completion_in usb))
    ∷ (high, eic 0x0400)
    ∷ (quiet, sercom_b none true)
    ∷ (high, dmac 8)
    ∷ []

-- While the pins read low, the bridge opens the port B, hands it 12 bytes, and reports a transfer of
-- the pipe; then the pins read high at an interrupt of the port's pins.
interrupts-spare_example :
    Outcome board_a board_b some_interrupts at_start
      (interrupts board_a board_b some_interrupts at_start)
interrupts-spare_example =
    interrupts-spare board_a board_b some_interrupts at_start
      (tt, (omega arith, (tt, (tt, (tt, (tt, tt)))))) (inl refl) (inl refl)
