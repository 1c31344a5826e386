-- ===== src/Firmware/Ports.antt =====
-- firmware/main.c: the interrupts and the callbacks of the bridge, as far as they reach the two ports
-- and the pipe.
pub mod Parts
pub mod Spared
mod Tests
use t2_firmware.Prelude.{
  ℕ, List, [], ◌∷◌, Bool, true, false, not, Option, none, some, ◌==◌, if◌then◌else◌, bit_and,
  test_bit,
}
use t2_firmware.Channel.{Chan, usb, port_a, port_b}
use t2_firmware.Bridge.{Callback, opened, completion_out, completion_in, closed}
use t2_firmware.UsbPipe
use t2_firmware.UsbPipe.{UsbPipe}
use t2_firmware.Port.{PortData, Config, Hw}
use t2_firmware.Port.Events
use t2_firmware.Port.Events.{
  port_enable, port_disable, async_completion, sercom_interrupt, extint_interrupt, uart_send_data,
}

pub record System : Type 0 where
  pub port_a : PortData
  pub port_b : PortData
  pub pipe : UsbPipe

-- what a handler ends with; `stuck` is a loop of a port that runs out of fuel
pub data Ending : Type 0 where
  goes_on : System → Ending
  resets stuck : Ending

-- The interrupts with what the hardware reports, and the callbacks of the bridge.
pub data Interrupt : Type 0 where
  dmac : (id : ℕ) → Interrupt
  eic : (flags : ℕ) → Interrupt
  sercom_a sercom_b : (rx : Option ℕ) → (failed : Bool) → Interrupt
  tcc_a tcc_b : Interrupt
  bridge : Callback → Interrupt

abbrev pub on_a : System → Option PortData → Ending
on_a s none = stuck
on_a s (some p) = goes_on (record s { port_a = p })

abbrev pub on_b : System → Option PortData → Ending
on_b s none = stuck
on_b s (some p) = goes_on (record s { port_b = p })

-- The ports' pins, and what the hardware answers during the interrupt to the port that handles it. As
-- a port may drive pins that the other reads, the answers are not tied to those before.
module _ (ca cb : Config) (hw : Hw) where
  -- `DMAC_Handler`; the other channels are those of the bridge, the flash and the terminal
  unfoldable pub dmac_handler : (id : ℕ) → System → Ending
  dmac_handler id s =
      if id == 6
      then on_a s (async_completion ca hw s.port_a)
      else if id == 8
      then on_b s (async_completion cb hw s.port_b)
      else if id == 7
      then on_a s (async_completion ca hw s.port_a)
      else if id == 9
      then on_b s (async_completion cb hw s.port_b)
      else goes_on s

  -- `EIC_Handler`
  unfoldable pub eic_handler : (flags : ℕ) → System → Ending
  eic_handler flags s =
      if test_bit flags 9
      then resets
      else if not (bit_and flags ca.pin_interrupts == 0)
      then on_a s (extint_interrupt ca hw flags s.port_a)
      else if not (bit_and flags cb.pin_interrupts == 0)
      then on_b s (extint_interrupt cb hw flags s.port_b)
      else goes_on s

  -- `bridge_open_0` and so on; the numbers that only the model of the bridge has are dropped
  unfoldable pub bridge_callback : Callback → System → Ending
  bridge_callback (opened usb n) s = goes_on s
  bridge_callback (completion_out usb count) s =
      goes_on (record s { pipe = UsbPipe.bridge_out_completion count s.pipe })
  bridge_callback (completion_in usb) s =
      goes_on (record s { pipe = UsbPipe.bridge_in_completion s.pipe })
  bridge_callback (closed usb n) s = goes_on s
  bridge_callback (opened port_a n) s = on_a s (some (port_enable s.port_a))
  bridge_callback (completion_out port_a count) s =
      on_a s (Events.bridge_out_completion ca hw count s.port_a)
  bridge_callback (completion_in port_a) s = on_a s (Events.bridge_in_completion ca hw s.port_a)
  bridge_callback (closed port_a n) s = on_a s (some (port_disable ca s.port_a))
  bridge_callback (opened port_b n) s = on_b s (some (port_enable s.port_b))
  bridge_callback (completion_out port_b count) s =
      on_b s (Events.bridge_out_completion cb hw count s.port_b)
  bridge_callback (completion_in port_b) s = on_b s (Events.bridge_in_completion cb hw s.port_b)
  bridge_callback (closed port_b n) s = on_b s (some (port_disable cb s.port_b))

  unfoldable pub interrupt : Interrupt → System → Ending
  unfolding dmac_handler eic_handler bridge_callback
  interrupt (dmac id) s = dmac_handler id s
  interrupt (eic flags) s = eic_handler flags s
  interrupt (sercom_a rx failed) s = on_a s (sercom_interrupt ca hw rx failed s.port_a)
  interrupt (sercom_b rx failed) s = on_b s (sercom_interrupt cb hw rx failed s.port_b)
  interrupt tcc_a s = on_a s (uart_send_data ca hw s.port_a)
  interrupt tcc_b s = on_b s (uart_send_data cb hw s.port_b)
  interrupt (bridge c) s = bridge_callback c s

abbrev pub then_run : Ending → (System → Ending) → Ending
then_run (goes_on s) k = k s
then_run resets k = resets
then_run stuck k = stuck

-- interrupts in turn, each with the hardware's answers
module _ (ca cb : Config) where
  unfoldable pub interrupts : List (Hw × Interrupt) → System → Ending
  unfolding interrupt
  interrupts [] s = goes_on s
  interrupts ((hw, i) ∷ is) s = then_run (interrupt ca cb hw i s) (interrupts is)
