-- ===== src/Port/Events.antt =====
-- The entry points of firmware/port.c: what main.c and the interrupt handlers call. A byte or a
-- flag that a handler reads from a register is its argument.
use t2_firmware.Prelude.{
  ℕ, zero, suc, ◌+◌, ◌-◌, ◌%◌, Bool, true, false, ◌&&◌, Option, none, some, ltb, ◌==◌,
  if◌then◌else◌, set, get_or, test_bit, bit_and, bit_or,
}
use t2_firmware.Port
use t2_firmware.Port.{
  PortState, disable, read_cmd, exec, exec_async, PortMode, no_mode, i2c, uart, reply_pin_change,
  reply_uart_rx, buf_size, u8, Pin, gpio, power, Config, supports_interrupt, Hw, UartBuf,
  uart_rx_size, PortData, arg_at, log, port_error, push_reply, send_status, selected_pin,
}
use t2_firmware.Port.Step.{
  port_step, disable_async_events, async_events_allowed, is_exec_async, is_read_cmd,
}

-- `port_init`
unfoldable pub port_init : ℕ → PortData → PortData
port_init chan p =
    log (Port.bridge_enable chan)
      (log (Port.clock_enable 1) (log (Port.clock_enable 1) (record p { chan = chan })))

-- `for (i = 0; i < 8; i++)`, from pin `8 - n` on
abbrev pub each_pin : (ℕ → PortData → PortData) → ℕ → PortData → PortData
each_pin f zero p = p
each_pin f (suc n) p = each_pin f n (f (7 - n) p)

-- `port_enable`
unfoldable pub port_enable : PortData → PortData
port_enable p =
    let q = record (log (Port.bridge_start_out p.chan) p) {
      pending_in = false;
      pending_out = true;
      cmd_len = 0;
      cmd_pos = 0;
      reply_len = 0;
      state = read_cmd;
      mode = no_mode;
    } in
    each_pin (λ i. log (Port.pin_pull_up (gpio i))) 8
      (log (Port.pin_high power) (log Port.irq_enable q))

abbrev float_pin : Config → ℕ → PortData → PortData
float_pin c i p =
    log (Port.pin_float (gpio i))
      (if supports_interrupt c i then log (Port.eic_config (gpio i) 0) p else p)

-- `port_disable`
unfoldable pub port_disable : Config → PortData → PortData
port_disable c p =
    let q = log Port.dma_abort_rx (
      log Port.dma_abort_tx
        (log Port.sercom_reset (log Port.sercom_reset (record p { state = disable })))) in
    let r = each_pin (float_pin c) 8 (disable_async_events q) in
    log (Port.bridge_enable p.chan)
      (log (Port.pin_low power) (log (Port.eic_clear c.pin_interrupts) r))

-- `port_bridge_out_completion`
unfoldable pub bridge_out_completion : Config → Hw → ℕ → PortData → Option PortData
bridge_out_completion c hw len p =
    port_step c hw (record p { pending_out = false; cmd_len = len; cmd_pos = 0 })

-- `port_bridge_in_completion`
unfoldable pub bridge_in_completion : Config → Hw → PortData → Option PortData
bridge_in_completion c hw p = port_step c hw (record p { pending_in = false; reply_len = 0 })

-- the end of an asynchronous part of a command; the body of `port_dma_rx_completion`, of
-- `port_dma_tx_completion` and of the I2C interrupt
unfoldable pub async_completion : Config → Hw → PortData → Option PortData
unfolding port_error
async_completion c hw p =
    if is_exec_async p.state
    then port_step c hw (record p { state = if arg_at p 0 == 0 then read_cmd else exec })
    else some (port_error p)

-- the copy loop of `uart_send_data`
unfoldable pub copy_uart : ℕ → PortData → PortData
unfolding push_reply
copy_uart zero p = p
copy_uart (suc n) p =
    let q = push_reply (get_or p.uart_buf.rx_bytes p.uart_buf.tail 0) p in
    copy_uart n
      (record q { uart_buf = record (p.uart_buf) { tail = (p.uart_buf.tail + 1) % uart_rx_size } })

unfoldable pub drain_uart : PortData → PortData
unfolding copy_uart push_reply
drain_uart p =
    let n : ℕ = p.uart_buf.buf_len in
    let q = copy_uart n (push_reply n (push_reply reply_uart_rx p)) in
    record q { uart_buf = record (q.uart_buf) { buf_len = q.uart_buf.buf_len - n } }

-- `uart_send_data`
unfoldable pub uart_send_data : Config → Hw → PortData → Option PortData
unfolding drain_uart port_error
uart_send_data c hw p =
    if ltb 0 p.uart_buf.buf_len
    then (if ltb buf_size (p.reply_len + p.uart_buf.buf_len + 2)
        then some (port_error p)
        else port_step c hw (drain_uart p))
    else some p

-- the push of a received byte: the oldest is dropped when the buffer is full
unfoldable pub push_uart : ℕ → UartBuf → UartBuf
push_uart d b = record b {
  rx_bytes = set b.rx_bytes b.head d;
  head = (b.head + 1) % uart_rx_size;
  buf_len = if ltb b.buf_len uart_rx_size then b.buf_len + 1 else b.buf_len;
  tail = if ltb b.buf_len uart_rx_size then b.tail else (b.tail + 1) % uart_rx_size;
}

-- `port_handle_sercom_uart_i2c` in MODE_UART; `rx` is the byte, if RXC is set
unfoldable pub uart_interrupt : Config → Hw → Option ℕ → PortData → Option PortData
unfolding push_uart uart_send_data
uart_interrupt c hw none p = some p
uart_interrupt c hw (some d) p =
    let q = log Port.delay_start (record p { uart_buf = push_uart d p.uart_buf }) in
    if ltb (uart_rx_size - 4) q.uart_buf.buf_len && async_events_allowed q
    then uart_send_data c hw q
    else some q

-- the same in MODE_I2C; `failed` is the ERROR flag
unfoldable pub i2c_interrupt : Config → Hw → (failed : Bool) → PortData → Option PortData
unfolding async_completion port_error
i2c_interrupt c hw failed p =
    async_completion c hw (log Port.i2c_clear (if failed then port_error p else p))

unfoldable pub sercom_by : Config → Hw → PortMode → Option ℕ → Bool → PortData → Option PortData
unfolding uart_interrupt i2c_interrupt port_error
sercom_by c hw uart d failed p = uart_interrupt c hw d p
sercom_by c hw i2c d failed p = i2c_interrupt c hw failed p
sercom_by c hw _ d failed p = some (port_error p)

-- `port_handle_sercom_uart_i2c`
unfoldable pub sercom_interrupt : Config → Hw → Option ℕ → Bool → PortData → Option PortData
unfolding sercom_by
sercom_interrupt c hw d failed p = sercom_by c hw p.mode d failed p

-- the reply byte for a change of a pin: bit 3 is the level that was read
abbrev pub pin_change : ℕ → Bool → ℕ
pin_change pin high = if high then bit_or (reply_pin_change + pin) 8 else reply_pin_change + pin

-- the body of the loop of `port_handle_extint`; it reads the pin of the last argument byte
unfoldable pub report_pin : Config → Hw → ℕ → ℕ → PortData → PortData
unfolding send_status
report_pin c hw flags pin p =
    if supports_interrupt c pin && test_bit flags (c.extint pin)
    then (let q = send_status (pin_change pin (hw.level p.calls (arg_at p 0 % 8))) p in
        if test_bit (hw.eic_mode q.calls pin) 2 then log (Port.eic_config (gpio pin) 0) q else q)
    else p

-- `port_handle_extint`
unfoldable pub extint_interrupt : Config → Hw → ℕ → PortData → Option PortData
unfolding report_pin port_error
extint_interrupt c hw flags p =
    if is_read_cmd p.state
    then port_step c hw (
        log (Port.eic_clear (bit_and c.pin_interrupts flags))
          (each_pin (report_pin c hw flags) 8 p))
    else some (port_error p)
