-- ===== src/Port/Sound.antt =====
-- What holds of a port of firmware/port.c between two interrupts, and the handlers that keep it.
use t2_firmware.Prelude.{ℕ, zero, suc, ◌-◌, ◌%◌, get_or, ◌+◌, ◌≤◌, ◌≡◌, ◌⊎◌, arith}
use t2_firmware.Port.{
  Call, reply_uart_rx, uart_rx_size, disable, PortData, Config, Hw, log, port_error, push_reply,
  send_status,
}
use t2_firmware.Port.Live.{IsLive}
use t2_firmware.Port.Step.{disable_async_events}
use t2_firmware.Port.Events.{port_enable, port_disable, copy_uart, each_pin, drain_uart, report_pin}

-- A port is disabled, or its positions are in bounds.
abbrev pub IsSound : PortData → Type 0
IsSound p = (p.state ≡ disable) ⊎ IsLive p

-- what draining the received bytes changes: the reply grows by so many bytes
pub record Replied (n : ℕ) (p q : PortData) : Type 0 where
  pub pos : q.cmd_pos ≡ p.cmd_pos
  pub len : q.cmd_len ≡ p.cmd_len
  pub args : q.arg_len ≡ p.arg_len
  pub state : q.state ≡ p.state
  pub reply : q.reply_len ≡ p.reply_len + n

copy_uart-Replied : (n : ℕ) (p : PortData) → p.reply_len + n ≤ 255 → Replied n p (copy_uart n p)
unfolding copy_uart push_reply
copy_uart-Replied zero p h = ground arith
copy_uart-Replied (suc n) p h = ground (
  arith,
  copy_uart-Replied n (record (push_reply (get_or p.uart_buf.rx_bytes p.uart_buf.tail 0) p) {
    uart_buf = record (p.uart_buf) { tail = (p.uart_buf.tail + 1) % uart_rx_size };
  }),
)

pub drain_uart-Replied :
    (p : PortData)
    → p.reply_len + p.uart_buf.buf_len + 2 ≤ 255
    → Replied (p.uart_buf.buf_len + 2) p (drain_uart p)
unfolding drain_uart push_reply
drain_uart-Replied p h = ground (
  arith,
  copy_uart-Replied p.uart_buf.buf_len (push_reply p.uart_buf.buf_len (push_reply reply_uart_rx p)),
)

pub log-IsSound : (k : Call) (p : PortData) → IsSound p → IsSound (log k p)
log-IsSound k p v = ground arith

pub port_error-IsSound : (p : PortData) → IsSound p → IsSound (port_error p)
unfolding port_error
port_error-IsSound p v = ground arith

pub port_enable-IsSound : (p : PortData) → IsSound (port_enable p)
unfolding port_enable
port_enable-IsSound p = ground arith

pub port_disable-IsSound : (c : Config) (p : PortData) → IsSound (port_disable c p)
unfolding port_disable disable_async_events
port_disable-IsSound c p = ground arith

pub report_pin-IsSound :
    (c : Config) (hw : Hw) (flags pin : ℕ) (p : PortData)
    → IsSound p
    → IsSound (report_pin c hw flags pin p)
unfolding report_pin send_status push_reply port_error
report_pin-IsSound c hw flags pin p v = ground arith

pub each_pin-IsSound :
    (f : ℕ → PortData → PortData)
    → ((i : ℕ) (p : PortData) → IsSound p → IsSound (f i p))
    → (n : ℕ) (p : PortData) → IsSound p
    → IsSound (each_pin f n p)
each_pin-IsSound f h zero p v = v
each_pin-IsSound f h (suc n) p v = each_pin-IsSound f h n (f (7 - n) p) (h (7 - n) p v)
