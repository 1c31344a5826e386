-- ===== src/Port/Run.antt =====
-- A port of firmware/port.c over all that main.c and the interrupt handlers can call, in any order.
use t2_firmware.Prelude.{
  ap, ◌∙◌, ltb, ◌&&◌, bit_and, ℕ, ◌-◌, ◌==◌, if◌then◌else◌, ◌+◌, ◌≤◌, ◌≡◌, inl, inr, List, [], ◌∷◌,
  Bool, true, false, Option, none, some, arith, refl,
}
use t2_firmware.Port
use t2_firmware.Port.{
  Call, buf_size, PortState, reply_uart_rx, uart_rx_size, arg_at, PortMode, disable, read_cmd,
  read_arg, exec, exec_async, i2c, uart, no_mode, spi, PortData, Config, Hw, log, port_error,
  push_reply, send_status,
}
use t2_firmware.Port.Termination.{Ends, port_step_waits}
use t2_firmware.Port.Step.{port_step, step_from, is_exec_async, is_read_cmd, async_events_allowed}
use t2_firmware.Port.Events.{
  port_enable, port_disable, bridge_out_completion, bridge_in_completion, async_completion,
  uart_interrupt, i2c_interrupt, sercom_interrupt, extint_interrupt, sercom_by, push_uart, each_pin,
  uart_send_data, drain_uart, report_pin,
}
use t2_firmware.Port.Sound.{
  IsSound, log-IsSound, port_error-IsSound, port_enable-IsSound, port_disable-IsSound,
  report_pin-IsSound, each_pin-IsSound, drain_uart-Replied,
}

pub data Event : Type 0 where
  enabled disabled in_done dma_rx dma_tx uart_timeout : Event
  out_done : (len : ℕ) → Event
  sercom : (rx : Option ℕ) → (failed : Bool) → Event
  extint : (flags : ℕ) → Event

-- A bridge transfer is at most as long as the buffer it was given.
abbrev pub IsOffered : Event → Type 0
IsOffered (out_done len) = len ≤ 255
IsOffered _ = Unit {0}

abbrev pub AllOffered : List Event → Type 0
AllOffered [] = Unit {0}
AllOffered (e ∷ es) = IsOffered e × AllOffered es

unfoldable pub run_event : Config → Hw → Event → PortData → Option PortData
run_event c hw enabled p = some (port_enable p)
run_event c hw disabled p = some (port_disable c p)
run_event c hw in_done p = bridge_in_completion c hw p
run_event c hw dma_rx p = async_completion c hw p
run_event c hw dma_tx p = async_completion c hw p
run_event c hw uart_timeout p = uart_send_data c hw p
run_event c hw (out_done len) p = bridge_out_completion c hw len p
run_event c hw (sercom rx failed) p = sercom_interrupt c hw rx failed p
run_event c hw (extint flags) p = extint_interrupt c hw flags p

and_then : Option PortData → (PortData → Option PortData) → Option PortData
and_then none k = none
and_then (some q) k = k q

unfoldable pub run_events : Config → Hw → List Event → PortData → Option PortData
unfolding and_then
run_events c hw [] p = some p
run_events c hw (e ∷ es) p = and_then (run_event c hw e p) (run_events c hw es)

pub record Returns (r : Option PortData) : Type 0 where
  pub result : PortData
  pub returns : r ≡ some result
  pub sound : IsSound result

if-Returns :
    (b : Bool) {x y : Option PortData}
    → (b ≡ true → Returns x)
    → (b ≡ false → Returns y)
    → Returns (if b then x else y)
if-Returns true t e = t refl
if-Returns false t e = e refl

module _ (c : Config) (hw : Hw) where
  here : (p : PortData) → IsSound p → Returns (some p)
  here p v = record { result = p; returns = refl; sound = v }

  step_off :
      (s : PortState)
      → s ≡ disable
      → (p : PortData) → p.state ≡ disable
      → Returns (step_from c hw s p)
  unfolding step_from
  step_off disable h p e = here (port_error p) (port_error-IsSound p (inl e))
  step_off read_cmd h p e = absurd (ground arith)
  step_off read_arg h p e = absurd (ground arith)
  step_off exec h p e = absurd (ground arith)
  step_off exec_async h p e = absurd (ground arith)

  port_step-Returns : (p : PortData) → IsSound p → Returns (port_step c hw p)
  unfolding port_step
  port_step-Returns p (inl e) = step_off p.state e p e
  port_step-Returns p (inr v) =
      let e : Ends (port_step c hw p) = port_step_waits c hw p v in
      record { result = e.result; returns = e.returns; sound = inr e.live }

  async_completion-Returns : (p : PortData) → IsSound p → Returns (async_completion c hw p)
  unfolding async_completion
  async_completion-Returns p v =
      if-Returns (is_exec_async p.state)
        (λ e.
          port_step-Returns (record p { state = if arg_at p 0 == 0 then read_cmd else exec })
            (ground arith))
        (λ e. here (port_error p) (port_error-IsSound p v))

  uart_send_data-Returns : (p : PortData) → IsSound p → Returns (uart_send_data c hw p)
  unfolding uart_send_data
  uart_send_data-Returns p v =
      if-Returns (ltb 0 p.uart_buf.buf_len)
        (λ e.
          if-Returns (ltb buf_size (p.reply_len + p.uart_buf.buf_len + 2))
            (λ k. here (port_error p) (port_error-IsSound p v))
            (λ k. port_step-Returns (drain_uart p) (ground (arith, drain_uart-Replied p))))
        (λ e. here p v)

  uart_interrupt-Returns :
      (d : Option ℕ) (p : PortData) → IsSound p → Returns (uart_interrupt c hw d p)
  unfolding uart_interrupt
  uart_interrupt-Returns none p v = here p v
  uart_interrupt-Returns (some d) p v =
      let q = log Port.delay_start (record p { uart_buf = push_uart d p.uart_buf }) in
      if-Returns (ltb (uart_rx_size - 4) q.uart_buf.buf_len && async_events_allowed q)
        (λ e. uart_send_data-Returns q (ground arith)) (λ e. here q (ground arith))

  sercom_by-Returns :
      (m : PortMode) (d : Option ℕ) (failed : Bool) (p : PortData)
      → IsSound p
      → Returns (sercom_by c hw m d failed p)
  unfolding sercom_by i2c_interrupt
  sercom_by-Returns uart d failed p v = uart_interrupt-Returns d p v
  sercom_by-Returns i2c d failed p v =
      async_completion-Returns (log Port.i2c_clear (if failed then port_error p else p))
        (ground (arith, port_error-IsSound p v))
  sercom_by-Returns no_mode d failed p v = here (port_error p) (port_error-IsSound p v)
  sercom_by-Returns spi d failed p v = here (port_error p) (port_error-IsSound p v)

  extint_interrupt-Returns :
      (flags : ℕ) (p : PortData) → IsSound p → Returns (extint_interrupt c hw flags p)
  unfolding extint_interrupt
  extint_interrupt-Returns flags p v =
      let q = each_pin (report_pin c hw flags) 8 p in
      let w = each_pin-IsSound (report_pin c hw flags) (report_pin-IsSound c hw flags) 8 p v in
      if-Returns (is_read_cmd p.state)
        (λ e.
          port_step-Returns (log (Port.eic_clear (bit_and c.pin_interrupts flags)) q)
            (log-IsSound (Port.eic_clear (bit_and c.pin_interrupts flags)) q w))
        (λ e. here (port_error p) (port_error-IsSound p v))

  pub run_event-Returns :
      (e : Event) (p : PortData) → IsOffered e → IsSound p → Returns (run_event c hw e p)
  unfolding run_event bridge_in_completion bridge_out_completion sercom_interrupt
  run_event-Returns enabled p o v = here (port_enable p) (port_enable-IsSound p)
  run_event-Returns disabled p o v = here (port_disable c p) (port_disable-IsSound c p)
  run_event-Returns in_done p o v =
      port_step-Returns (record p { pending_in = false; reply_len = 0 }) (ground arith)
  run_event-Returns dma_rx p o v = async_completion-Returns p v
  run_event-Returns dma_tx p o v = async_completion-Returns p v
  run_event-Returns uart_timeout p o v = uart_send_data-Returns p v
  run_event-Returns (out_done len) p o v =
      port_step-Returns (record p { pending_out = false; cmd_len = len; cmd_pos = 0 })
        (ground arith)
  run_event-Returns (sercom d failed) p o v = sercom_by-Returns p.mode d failed p v
  run_event-Returns (extint flags) p o v = extint_interrupt-Returns flags p v

  -- Take a port that is disabled or whose positions are in bounds, and any sequence of
  -- enablings, disablings, bridge completions of at most 255 bytes, DMA completions, SERCOM
  -- interrupts, UART timeouts and pin interrupts. Each handler returns within its fuel, and at
  -- the end the port is again disabled or in bounds.
  pub run_events-Returns :
      (es : List Event) (p : PortData) → AllOffered es → IsSound p → Returns (run_events c hw es p)
  unfolding run_events
  run_events-Returns [] p o v = here p v
  run_events-Returns (e ∷ es) p o v =
      let r = run_event-Returns e p o.0 v in
      let rest = run_events-Returns es r.result o.1 r.sound in
      record {
        result = rest.result;
        returns = ap (λ x. and_then x (run_events c hw es)) r.returns ∙ rest.returns;
        sound = rest.sound;
      }
