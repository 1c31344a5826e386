-- ===== src/Port/Continue.antt =====
-- `port_continue_cmd` of firmware/port.c: a part of the payload of a command.
use t2_firmware.Prelude.{
  ℕ, ◌+◌, ◌-◌, ◌++◌, none, some, ◌==◌, if◌then◌else◌, set, get_or, take, drop,
}
use t2_firmware.Port.{
  PortState, read_cmd, exec, exec_async, PortMode, spi, i2c, uart, Cmd, echo, tx, rx, txrx, decode,
  PortData, dma_start_rx, dma_start_tx, uart_start_tx, i2c_write, i2c_read_next, i2c_await_master,
  i2c_await_slave, Hw, arg_at, log, u8, push_reply, tx_len, rx_len, txrx_len,
}

-- `p->arg[0] -= n`
abbrev pub take_arg : ℕ → PortData → PortData
take_arg n p = record p { arg = set p.arg 0 (u8 (arg_at p 0 + 256 - n)) }

-- `p->cmd_pos += n` and `p->reply_len += n`
abbrev pub advance_cmd : ℕ → PortData → PortData
advance_cmd n p = record p { cmd_pos = u8 (p.cmd_pos + n) }

abbrev pub advance_reply : ℕ → PortData → PortData
advance_reply n p = record p { reply_len = u8 (p.reply_len + n) }

-- `memcpy` of `n` bytes from the command position to the end of the reply
abbrev pub copy_reply : ℕ → PortData → PortData
copy_reply n p = record p {
  reply_buf =
      take p.reply_len p.reply_buf
      ++ (take n (drop p.cmd_pos p.cmd_buf) ++ drop (p.reply_len + n) p.reply_buf);
}

-- CMD_ECHO
unfoldable pub continue_echo : PortData → PortData × PortState
continue_echo p =
    let n = txrx_len p in
    let q = take_arg n (advance_cmd n (advance_reply n (copy_reply n p))) in
    (q, if arg_at q 0 == 0 then read_cmd else exec)

-- CMD_TX, by the mode
unfoldable pub continue_tx : PortMode → PortData → PortData
continue_tx spi p =
    let n = tx_len p in
    take_arg n (advance_cmd n (log (dma_start_tx (some p.cmd_pos) n) (log (dma_start_rx none n) p)))
continue_tx i2c p =
    log i2c_await_master
      (take_arg 1 (advance_cmd 1 (log (i2c_write (get_or p.cmd_buf p.cmd_pos 0)) p)))
continue_tx uart p =
    let n = tx_len p in take_arg n (advance_cmd n (log (uart_start_tx p.cmd_pos n) p))
continue_tx _ p = p

-- CMD_RX; the I2C master acknowledges and reads on
unfoldable pub continue_rx : Hw → PortMode → PortData → PortData
continue_rx hw spi p =
    let n = rx_len p in
    take_arg n
      (advance_reply n (log (dma_start_tx none n) (log (dma_start_rx (some p.reply_len) n) p)))
continue_rx hw i2c p =
    log i2c_await_slave (take_arg 1 (log (i2c_read_next 2) (push_reply (hw.i2c_data p.calls) p)))
continue_rx hw _ p = p

-- CMD_TXRX
unfoldable pub continue_txrx : PortMode → PortData → PortData
continue_txrx spi p =
    let n = txrx_len p in
    take_arg n (
      advance_cmd n (
        advance_reply n
          (log (dma_start_tx (some p.cmd_pos) n) (log (dma_start_rx (some p.reply_len) n) p))))
continue_txrx _ p = p

unfoldable pub continue_by : Hw → Cmd → PortData → PortData × PortState
unfolding continue_echo continue_tx continue_rx continue_txrx
continue_by hw echo p = continue_echo p
continue_by hw tx p = (continue_tx p.mode p, exec_async)
continue_by hw rx p = (continue_rx hw p.mode p, exec_async)
continue_by hw txrx p = (continue_txrx p.mode p, exec_async)
continue_by hw _ p = (p, read_cmd)

unfoldable pub continue_cmd : Hw → PortData → PortData × PortState
unfolding continue_by
continue_cmd hw p = continue_by hw (decode p.cmd) p
