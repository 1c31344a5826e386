-- ===== src/UsbSerial.antt =====
-- firmware/usbserial.c: the terminal UART over USB. Of the calls into the DMA and the USB stack the
-- state keeps which of the two receive buffers each works on: `filling` for the DMA, `in_buf` for
-- the IN endpoint, with its length. All calls are in `calls`, the latest first.
pub mod Buffers
mod Tests
use t2_firmware.Prelude.{ℕ, ◌-◌, List, [], ◌∷◌, Bool, true, false, not, if◌then◌else◌}

-- `BUF_SIZE`
abbrev pub buf_size : ℕ
buf_size = 64

pub data Call : Type 0 where
  configure dma_abort_rx timeout_clear timeout_enable : Call
  ep_start_out disable_eps : Call
  dma_start_rx : (buf : Bool) → Call
  dma_start_tx : (len : ℕ) → Call
  ep_start_in : (buf : Bool) → (len : ℕ) → Call

-- The two buffers of `usbserial_buf_in` are `false` and `true`.
pub record Serial : Type 0 where
  pub active : Bool
  pub sending : Bool
  pub filling : Bool
  pub in_buf : Bool
  pub in_len : ℕ
  pub calls : List Call

abbrev pub log : Call → Serial → Serial
log c s = record s { calls = c ∷ s.calls }

-- `dma_sercom_start_rx` into the active buffer
abbrev pub fill_active : Serial → Serial
fill_active s = log (dma_start_rx s.active) (record s { filling = s.active })

-- `usbserial_init`; the set-up of the peripherals is one call
unfoldable pub init : Serial → Serial
init s =
    log ep_start_out (fill_active (log configure (record s { active = false; sending = false })))

-- `usbserial_out_completion`
unfoldable pub out_completion : ℕ → Serial → Serial
out_completion len s = log (dma_start_tx len) s

-- `usbserial_dma_tx_completion`
unfoldable pub dma_tx_completion : Serial → Serial
dma_tx_completion s = log ep_start_out s

-- the `if` of `usbserial_rx_flush`
unfoldable pub send_active : ℕ → Serial → Serial
send_active remaining s =
    if not s.sending
    then log (ep_start_in s.active (buf_size - remaining)) (record s {
      in_buf = s.active;
      in_len = buf_size - remaining;
      sending = true;
      active = not s.active;
    })
    else s

-- `usbserial_rx_flush`; `remaining` is what `dma_remaining` returns
unfoldable pub rx_flush : ℕ → Serial → Serial
unfolding send_active
rx_flush remaining s = fill_active (send_active remaining (log timeout_clear (log dma_abort_rx s)))

-- `usbserial_handle_tc`; `overflow` is the flag
unfoldable pub handle_tc : Bool → ℕ → Serial → Serial
unfolding rx_flush
handle_tc overflow remaining s = if overflow then rx_flush remaining s else s

-- `usbserial_in_completion`
unfoldable pub in_completion : Serial → Serial
in_completion s = log timeout_enable (record s { sending = false })

-- `usbserial_disable`
unfoldable pub shut_down : Serial → Serial
shut_down s = log disable_eps s
