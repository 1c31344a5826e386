-- ===== src/UsbSerial/Buffers.antt =====
-- The two receive buffers of firmware/usbserial.c: one is filled while the other is sent.
use t2_firmware.Prelude.{ℕ, ◌-◌, ◌≡◌, ◌≢◌, List, [], ◌∷◌, Bool, true, false, not, arith}
use t2_firmware.UsbSerial.{
  Serial, init, out_completion, dma_tx_completion, rx_flush, handle_tc, in_completion, shut_down,
}

-- The DMA fills the active buffer, and it is not the one that is sent.
pub record IsApart (s : Serial) : Type 0 where
  pub fills_active : s.filling ≡ s.active
  pub apart : s.sending ≡ true → s.in_buf ≢ s.filling

pub data Event : Type 0 where
  started sent written stopped : Event
  arrived : (len : ℕ) → Event
  full : (remaining : ℕ) → Event
  timeout : (overflow : Bool) → (remaining : ℕ) → Event

unfoldable pub handle : Event → Serial → Serial
handle started s = init s
handle sent s = in_completion s
handle written s = dma_tx_completion s
handle stopped s = shut_down s
handle (arrived len) s = out_completion len s
handle (full remaining) s = rx_flush remaining s
handle (timeout overflow remaining) s = handle_tc overflow remaining s

abbrev pub run : List Event → Serial → Serial
run [] s = s
run (e ∷ es) s = run es (handle e s)

rx_flush-IsApart : (s : Serial) (n : ℕ) → IsApart s → IsApart (rx_flush n s)
unfolding rx_flush
rx_flush-IsApart s n v = ground arith

handle-IsApart : (e : Event) (s : Serial) → IsApart s → IsApart (handle e s)
unfolding handle init in_completion dma_tx_completion shut_down out_completion handle_tc
handle-IsApart (full n) s v = rx_flush-IsApart s n v
handle-IsApart (timeout true n) s v = rx_flush-IsApart s n v
handle-IsApart (timeout false n) s v = v
handle-IsApart started s v = ground arith
handle-IsApart sent s v = ground arith
handle-IsApart written s v = ground arith
handle-IsApart stopped s v = ground arith
handle-IsApart (arrived len) s v = ground arith

pub init-IsApart : (s : Serial) → IsApart (init s)
unfolding init
init-IsApart s = ground arith

run-keeps : (es : List Event) (s : Serial) → IsApart s → IsApart (run es s)
run-keeps [] s v = v
run-keeps (e ∷ es) s v = run-keeps es (handle e s) (handle-IsApart e s v)

-- From the initialisation on, whatever completions and timeouts come, the DMA fills the active
-- buffer, and while a buffer is sent to the host it is not the one that is filled.
pub run-IsApart : (es : List Event) (s : Serial) → IsApart (run es (init s))
run-IsApart es s = run-keeps es (init s) (init-IsApart s)

-- A flush while the IN endpoint is free sends the buffer that was filled, with the bytes that the
-- DMA had stored, and fills the other. A flush while it is busy sends nothing and fills the same
-- buffer from its start, over what was received.
rx_flush_buffers :
    (s : Serial) (n : ℕ)
    → IsApart s
    → (s.sending ≡ false
        → ((rx_flush n s).in_buf ≡ s.filling)
          × ((rx_flush n s).in_len ≡ 64 - n)
          × ((rx_flush n s).filling ≡ not s.filling)
          × ((rx_flush n s).sending ≡ true))
      × (s.sending ≡ true
          → ((rx_flush n s).in_buf ≡ s.in_buf)
            × ((rx_flush n s).in_len ≡ s.in_len)
            × ((rx_flush n s).filling ≡ s.filling))
unfolding rx_flush
rx_flush_buffers s n v = ground arith
