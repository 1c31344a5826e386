-- ===== src/Flash/Trace.antt =====
-- The handlers of firmware/flash.c over a whole request.
use t2_firmware.Prelude.{
  ℕ, zero, suc, ◌-◌, ◌≤◌, ◌<◌, ◌≡◌, refl, ap, ◌∙◌, sym, List, [], ◌∷◌, Bool, true, false, subst,
  if◌then◌else◌, test_bit, arith,
}
use t2_firmware.Flash.{
  idle, out, in_spi, in_usb, sr_poll_out, wren_out, Call, ep_start_in, cs_low, cs_high, write_byte,
  read_status, write_buffer, read_buffer, Flash, start_read, start_write, start_wren, start_sr_poll,
  read_sr_poll, usb_out_completion, dma_rx_completion, dma_by, usb_in_completion, receive, log,
}
use t2_firmware.Flash.Request.{
  Event, spi_done, usb_done, handle, run, onto, chunk, read_events, read_calls, write_events,
  write_calls, wren_events, wren_calls, busy_events, busy_calls, poll_events, poll_calls, AllBusy,
  IsParts, Done, in_bytes, wants_poll, wants_wren, request_events, request_calls,
}

-- the state after one part is read and sent
abbrev after_part : Flash → Flash
after_part s = record s {
  in_count = s.in_count - chunk s.in_count;
  state = in_usb;
  calls = ep_start_in (chunk s.in_count) ∷ read_buffer (chunk s.in_count) ∷ s.calls;
}

start_read-busy :
    (s : Flash)
    → 0 < s.in_count
    → start_read s ≡ log (read_buffer (chunk s.in_count)) (record s { state = in_spi })
unfolding start_read
start_read-busy s h = ground arith

read_part :
    (s : Flash)
    → 0 < s.in_count
    → handle usb_done (handle (spi_done 0) (start_read s)) ≡ start_read (after_part s)
unfolding handle dma_rx_completion dma_by usb_in_completion
read_part s h = ap (λ x. handle usb_done (handle (spi_done 0) x)) (start_read-busy s h)

start_read-Done :
    (k : ℕ) (s : Flash)
    → IsParts k s.in_count
    → Done (run (read_events k) (start_read s)) (onto (read_calls k s.in_count) s.calls)
unfolding start_read
start_read-Done zero s h = ground arith
start_read-Done (suc k) s h =
    subst (λ x. Done (run (read_events k) x) (onto (read_calls (suc k) s.in_count) s.calls))
      (sym (read_part s (ground arith))) (start_read-Done k (after_part s) (ground arith))

module _ (k : ℕ) where
  start_write-empty : (s : Flash) → s.out_count ≡ 0 → start_write s ≡ start_read (log cs_low s)
  unfolding start_write
  start_write-empty s e = ground arith

  start_write-busy :
      (s : Flash)
      → 0 < s.out_count
      → start_write s ≡ log (write_buffer s.out_count) (log cs_low (record s { state = out }))
  unfolding start_write
  start_write-busy s e = ground arith

  start_write-Done :
      (n : ℕ) (s : Flash)
      → IsParts k s.in_count
      → s.out_count ≡ n
      → Done
          (run (write_events n (read_events k)) (start_write s))
          (onto (write_calls n (read_calls k s.in_count)) s.calls)
  unfolding handle dma_rx_completion dma_by
  start_write-Done zero s h e =
      subst
        (λ x. Done (run (read_events k) x) (onto (write_calls 0 (read_calls k s.in_count)) s.calls))
        (sym (start_write-empty s e)) (start_read-Done k (log cs_low s) h)
  start_write-Done (suc n) s h e =
      subst
        (λ x.
          Done (run (write_events (suc n) (read_events k)) x)
            (onto (write_calls (suc n) (read_calls k s.in_count)) s.calls))
        (sym (
          start_write-busy s (ground arith)
          ∙ ap (λ i. log (write_buffer i) (log cs_low (record s { state = out }))) e))
        (start_read-Done k (log (write_buffer (suc n)) (log cs_low (record s { state = out }))) h)

  -- what follows the polling of a request
  abbrev pub rest_events : Flash → List Event
  rest_events s = wren_events s.flag_wren (write_events s.out_count (read_events k))

  abbrev pub rest_calls : Flash → List Call
  rest_calls s = wren_calls s.flag_wren (write_calls s.out_count (read_calls k s.in_count))

  start_wren-Done :
      (w : Bool) (s : Flash)
      → IsParts k s.in_count
      → s.flag_wren ≡ w
      → Done
          (run (wren_events w (write_events s.out_count (read_events k))) (start_wren s))
          (onto (wren_calls w (write_calls s.out_count (read_calls k s.in_count))) s.calls)
  unfolding handle dma_rx_completion dma_by start_wren
  start_wren-Done true s h e =
      let t = log (write_byte 0x06) (log cs_low (record s { byte = 0x06; state = wren_out })) in
      subst
        (λ x.
          Done (run (wren_events true (write_events s.out_count (read_events k))) x)
            (onto (wren_calls true (write_calls s.out_count (read_calls k s.in_count))) s.calls))
        (sym (ap (λ b. if b then t else start_write s) e))
        (start_write-Done s.out_count (log cs_high t) h refl)
  start_wren-Done false s h e =
      let t = log (write_byte 0x06) (log cs_low (record s { byte = 0x06; state = wren_out })) in
      subst
        (λ x.
          Done (run (write_events s.out_count (read_events k)) x)
            (onto (write_calls s.out_count (read_calls k s.in_count)) s.calls))
        (sym (ap (λ b. if b then t else start_write s) e)) (start_write-Done s.out_count s h refl)

  module _ (r : ℕ) (ready : test_bit r 0 ≡ false) where
    read_sr_poll-Done :
        (bs : List ℕ)
        → AllBusy bs
        → (s : Flash) → IsParts k s.in_count
        → Done
            (run (busy_events bs r (rest_events s)) (read_sr_poll s))
            (onto (busy_calls bs (rest_calls s)) (read_status ∷ s.calls))
    unfolding handle dma_rx_completion dma_by read_sr_poll
    read_sr_poll-Done [] a s h =
        let t = record (read_sr_poll s) { byte = r } in
        subst
          (λ x.
            Done (run (rest_events s) x) (onto (rest_calls s) (cs_high ∷ read_status ∷ s.calls)))
          (sym (ap (λ b. if b then read_sr_poll t else start_wren (log cs_high t)) ready))
          (start_wren-Done s.flag_wren (log cs_high t) h refl)
    read_sr_poll-Done (b ∷ bs) a s h =
        let t = record (read_sr_poll s) { byte = b } in
        subst
          (λ x.
            Done (run (busy_events bs r (rest_events s)) x)
              (onto (busy_calls bs (rest_calls s)) (read_status ∷ read_status ∷ s.calls)))
          (sym (ap (λ b. if b then read_sr_poll t else start_wren (log cs_high t)) a.0))
          (read_sr_poll-Done bs a.1 t h)

    start_sr_poll-Done :
        (f : Bool) (bs : List ℕ)
        → AllBusy bs
        → (s : Flash) → IsParts k s.in_count
        → s.flag_sr_poll ≡ f
        → Done
            (run (poll_events f bs r (rest_events s)) (start_sr_poll s))
            (onto (poll_calls f bs (rest_calls s)) s.calls)
    unfolding handle dma_rx_completion dma_by read_sr_poll start_sr_poll
    start_sr_poll-Done true bs a s h e =
        let t =
          log (write_byte 0x05) (log cs_low (record s { byte = 0x05; state = sr_poll_out })) in
        subst
          (λ x.
            Done (run (poll_events true bs r (rest_events s)) x)
              (onto (poll_calls true bs (rest_calls s)) s.calls))
          (sym (ap (λ b. if b then t else start_wren s) e)) (read_sr_poll-Done bs a t h)
    start_sr_poll-Done false bs a s h e =
        let t =
          log (write_byte 0x05) (log cs_low (record s { byte = 0x05; state = sr_poll_out })) in
        subst (λ x. Done (run (rest_events s) x) (onto (rest_calls s) s.calls))
          (sym (ap (λ b. if b then t else start_wren s) e)) (start_wren-Done s.flag_wren s h refl)

usb_out_completion-idle :
    (s : Flash) (len : ℕ) → s.state ≡ idle → 4 ≤ len → usb_out_completion len s ≡ receive len s
unfolding usb_out_completion
usb_out_completion-idle s len e h = ground arith

-- A request of at least four bytes that comes when the flash is idle, with `k` the number of
-- 512-byte parts in the length that its header asks to read: if bit 0 of the status is set in `bs`
-- and then clear, the completions of the hardware drive the firmware through exactly these calls, in
-- order: the status is read until bit 0 is clear and writing is enabled, where their flags are set,
-- the payload is sent if there is one, and the parts are read and sent, which are full but for the
-- last. Then it is idle again, with the OUT endpoint armed.
pub request-Done :
    (k r : ℕ) (bs : List ℕ) (s : Flash) (len : ℕ)
    → test_bit r 0 ≡ false
    → AllBusy bs
    → s.state ≡ idle
    → 4 ≤ len
    → IsParts k (in_bytes s.buffer)
    → Done
        (run (request_events k bs r len s.buffer) (usb_out_completion len s))
        (onto (request_calls k bs len s.buffer) s.calls)
unfolding receive
request-Done k r bs s len ready a e l h =
    subst
      (λ x.
        Done (run (request_events k bs r len s.buffer) x)
          (onto (request_calls k bs len s.buffer) s.calls))
      (sym (usb_out_completion-idle s len e l))
      (start_sr_poll-Done k r ready (wants_poll s.buffer) bs a
        (record s {
          out_count = len - 4;
          in_count = in_bytes s.buffer;
          flag_sr_poll = wants_poll s.buffer;
          flag_wren = wants_wren s.buffer;
        })
        h refl)

-- A packet that is shorter than a header changes nothing in an idle flash, so the OUT endpoint is
-- not armed again; and a completion of the DMA or of the IN endpoint leaves the flash idle.
short_request :
    (s : Flash) (len : ℕ)
    → s.state ≡ idle
    → len < 4
    → (usb_out_completion len s ≡ s)
      × ((usb_in_completion s).state ≡ idle)
      × ((dma_rx_completion s).state ≡ idle)
unfolding usb_out_completion usb_in_completion dma_rx_completion dma_by
short_request s len e h = ground arith
