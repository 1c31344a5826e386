-- ===== src/Port/Begin.antt =====
-- `port_begin_cmd` of firmware/port.c: the start of a command, or all of it if it has no payload.
use t2_firmware.Prelude.{ℕ, ◌+◌, ◌*◌, ◌/◌, ◌%◌, ◌==◌, if◌then◌else◌, set, test_bit}
use t2_firmware.Port
use t2_firmware.Port.{
  PortState, read_cmd, exec, exec_async, PortMode, no_mode, spi, i2c, uart, Cmd, nop, flush, echo,
  gpio_in, gpio_high, gpio_low, gpio_toggle, gpio_pull, gpio_cfg, gpio_wait, gpio_int, gpio_input,
  gpio_raw_read, analog_read, analog_write, enable_spi, disable_spi, enable_i2c, disable_i2c,
  enable_uart, disable_uart, tx, rx, txrx, start, stop, pwm_duty_cycle, pwm_period, decode,
  reply_high, reply_low, reply_data, Pin, gpio, dac_pin, Call, Config, supports_interrupt, Hw,
  UartBuf, PortData, arg_at, log, port_error, push_reply, send_status, selected_pin,
}

-- `EXEC_DONE` is PORT_READ_CMD, `EXEC_CONTINUE` is PORT_EXEC, `EXEC_ASYNC` is PORT_EXEC_ASYNC.
abbrev pub Exec : Type 0
Exec = PortData × PortState

abbrev done : PortData → Exec
done p = (p, read_cmd)

-- the level of the selected pin, as a reply byte
abbrev level_reply : Hw → PortData → ℕ
level_reply hw p = if hw.level p.calls (arg_at p 0 % 8) then reply_high else reply_low

-- two argument bytes as a number
abbrev pub word : ℕ → ℕ → ℕ
word hi lo = hi * 256 + lo

-- CMD_GPIO_PULL
unfoldable pub begin_pull : PortData → Exec
begin_pull p =
    let pin : Pin = gpio (arg_at p 0 % 8) in
    let mode : ℕ = arg_at p 0 / 16 in
    if mode == 0
    then done (log (Port.pin_pull_down pin) p)
    else if mode == 1
    then done (log (Port.pin_pull_up pin) p)
    else if mode == 2
    then done (log (Port.pin_float pin) p)
    else done p

-- CMD_GPIO_INT
unfoldable pub begin_int : Config → PortData → Exec
begin_int c p =
    let pin : ℕ = arg_at p 0 % 8 in
    let mode : ℕ = arg_at p 0 / 16 % 8 in
    if supports_interrupt c pin
    then (if mode == 0
        then done (log (Port.pin_gpio (gpio pin)) (log (Port.eic_config (gpio pin) mode) p))
        else done (log (Port.eic_config (gpio pin) mode) (log (Port.pin_mux_eic (gpio pin)) p)))
    else done p

-- CMD_ANALOG_READ stores three bytes with no check.
unfoldable pub begin_analog_read : Hw → PortData → Exec
unfolding push_reply
begin_analog_read hw p =
    let val : ℕ = hw.adc p.calls (arg_at p 0 % 8) in
    done (push_reply (val / 256 % 256) (push_reply (val % 256) (push_reply reply_data p)))

-- CMD_ENABLE_SPI. The data pins mosi, miso and sck are 4, 3 and 2.
unfoldable pub begin_enable_spi : PortData → Exec
begin_enable_spi p =
    let q = log Port.dma_enable_rx_interrupt (
      log Port.dma_configure_rx (
        log Port.dma_configure_tx (
          log (Port.spi_init (test_bit (arg_at p 0) 0) (test_bit (arg_at p 0) 1) (arg_at p 1))
            (log (Port.clock_enable (arg_at p 2)) p)))) in
    let r =
      log (Port.pin_mux (gpio 2)) (log (Port.pin_mux (gpio 3)) (log (Port.pin_mux (gpio 4)) q)) in
    done (record r { mode = spi })

-- CMD_START
unfoldable pub begin_start : PortData → Exec
begin_start p =
    let q = log (Port.i2c_address (arg_at p 0)) p in
    let r =
      if test_bit (arg_at p 0) 0 then log Port.i2c_await_slave q else log Port.i2c_await_master q in
    (record r { arg = set p.arg 0 0 }, exec_async)

-- CMD_ENABLE_UART. The pins tx and rx are 5 and 6.
unfoldable pub begin_enable_uart : PortData → Exec
begin_enable_uart p =
    let q = log Port.dma_enable_tx_interrupt (
      log Port.dma_configure_tx (
        log (Port.uart_init (word (arg_at p 0) (arg_at p 1)))
          (log (Port.pin_mux (gpio 6)) (log (Port.pin_mux (gpio 5)) p)))) in
    done (
      log Port.delay_enable (
        log Port.uart_rx_on (record q {
          mode = uart;
          uart_buf = record (q.uart_buf) { head = 0; tail = 0; buf_len = 0 };
        })))

unfoldable pub begin_by : Config → Hw → Cmd → PortData → Exec
unfolding port_error send_status begin_pull begin_int begin_analog_read begin_enable_spi begin_start
    begin_enable_uart
begin_by c hw nop p = done p
begin_by c hw echo p = (send_status reply_data p, exec)
begin_by c hw rx p = (send_status reply_data p, exec)
begin_by c hw txrx p = (send_status reply_data p, exec)
begin_by c hw tx p = (p, exec)
begin_by c hw gpio_in p =
    let q = log (Port.pin_in (selected_pin p)) p in done (send_status (level_reply hw q) q)
begin_by c hw gpio_input p = done (log (Port.pin_in (selected_pin p)) p)
begin_by c hw gpio_raw_read p = done (send_status (level_reply hw p) p)
begin_by c hw gpio_high p =
    done (log (Port.pin_out (selected_pin p)) (log (Port.pin_high (selected_pin p)) p))
begin_by c hw gpio_low p =
    done (log (Port.pin_out (selected_pin p)) (log (Port.pin_low (selected_pin p)) p))
begin_by c hw gpio_toggle p =
    done (log (Port.pin_out (selected_pin p)) (log (Port.pin_toggle (selected_pin p)) p))
begin_by c hw gpio_pull p = begin_pull p
begin_by c hw gpio_int p = begin_int c p
begin_by c hw gpio_wait p = done p
begin_by c hw gpio_cfg p = done p
begin_by c hw analog_read p = begin_analog_read hw p
begin_by c hw analog_write p = done (log (Port.dac_write (word (arg_at p 0) (arg_at p 1))) p)
begin_by c hw enable_spi p = begin_enable_spi p
begin_by c hw disable_spi p =
    let q =
      log (Port.pin_gpio (gpio 2))
        (log (Port.pin_gpio (gpio 3)) (log (Port.pin_gpio (gpio 4)) p)) in
    done (record q { mode = no_mode })
begin_by c hw enable_i2c p =
    let q = log Port.i2c_await_error (
      log (Port.pin_mux (gpio 0))
        (log (Port.pin_mux (gpio 1)) (log (Port.i2c_init (arg_at p 0)) p))) in
    done (record q { mode = i2c })
begin_by c hw disable_i2c p =
    let q = log (Port.pin_gpio (gpio 0)) (log (Port.pin_gpio (gpio 1)) p) in
    done (record q { mode = no_mode })
begin_by c hw start p = begin_start p
begin_by c hw stop p = done (log (Port.i2c_stop 3) p)
begin_by c hw enable_uart p = begin_enable_uart p
begin_by c hw disable_uart p =
    let q = log Port.delay_disable (log Port.uart_rx_off (record p { mode = no_mode })) in
    done (log (Port.pin_gpio (gpio 6)) (log (Port.pin_gpio (gpio 5)) q))
begin_by c hw pwm_duty_cycle p =
    done (log (Port.pwm_duty (gpio (arg_at p 0)) (word (arg_at p 1) (arg_at p 2))) p)
begin_by c hw pwm_period p = done (
    log (Port.pwm_set_period (arg_at p 0 % 8) (arg_at p 0 / 16) (word (arg_at p 1) (arg_at p 2))) p)
begin_by c hw _ p = done (port_error p)

unfoldable pub begin_cmd : Config → Hw → PortData → Exec
begin_cmd c hw p = begin_by c hw (decode p.cmd) p
