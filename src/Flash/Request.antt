-- ===== src/Flash/Request.antt =====
-- What a request of firmware/flash.c is: the completions that the hardware reports for it, and the
-- calls that answer it. They are those of the protocol in the file's opening comment but for one
-- point: the polling ends when bit 0 of the status is clear, as flash_dma_rx_completion has it, where
-- the comment says bit 1.
use t2_firmware.Prelude.{
  ℕ, zero, suc, ◌+◌, ◌-◌, ◌*◌, ◌^◌, ◌≤◌, ◌<◌, ◌≡◌, List, [], ◌∷◌, Bool, true, false, ltb,
  if◌then◌else◌, get_or, test_bit,
}
use t2_firmware.Flash.{
  idle, Call, ep_start_out, ep_start_in, cs_low, cs_high, write_byte, read_status, write_buffer,
  read_buffer, Flash, dma_rx_completion, usb_in_completion, is_polling,
}

-- The DMA from SPI is done, and brought this byte if it read the status; or the transfer to USB.
pub data Event : Type 0 where
  spi_done : ℕ → Event
  usb_done : Event

unfoldable pub handle : Event → Flash → Flash
unfolding dma_rx_completion usb_in_completion
handle (spi_done b) s = dma_rx_completion (if is_polling s.state then record s { byte = b } else s)
handle usb_done s = usb_in_completion s

abbrev pub run : List Event → Flash → Flash
run [] s = s
run (e ∷ es) s = run es (handle e s)

-- the calls, the first first, before those made earlier
abbrev pub onto : List Call → List Call → List Call
onto [] cs = cs
onto (x ∷ xs) cs = onto xs (x ∷ cs)

abbrev pub chunk : ℕ → ℕ
chunk n = if ltb 512 n then 512 else n

-- reading `n` bytes in `k` parts
abbrev pub read_events : ℕ → List Event
read_events zero = []
read_events (suc k) = spi_done 0 ∷ usb_done ∷ read_events k

abbrev pub read_calls : ℕ → ℕ → List Call
read_calls zero n = cs_high ∷ ep_start_out ∷ []
read_calls (suc k) n = read_buffer (chunk n) ∷ ep_start_in (chunk n) ∷ read_calls k (n - chunk n)

-- writing `n` bytes
abbrev pub write_events : ℕ → List Event → List Event
write_events zero es = es
write_events (suc n) es = spi_done 0 ∷ es

abbrev pub write_calls : ℕ → List Call → List Call
write_calls zero cs = cs_low ∷ cs
write_calls (suc n) cs = cs_low ∷ write_buffer (suc n) ∷ cs

-- the WREN command, if it is asked for
abbrev pub wren_events : Bool → List Event → List Event
wren_events true es = spi_done 0 ∷ es
wren_events false es = es

abbrev pub wren_calls : Bool → List Call → List Call
wren_calls true cs = cs_low ∷ write_byte 0x06 ∷ cs_high ∷ cs
wren_calls false cs = cs

-- polling the status, whose bit 0 is set in `bs` and clear in `r`
abbrev pub busy_events : List ℕ → ℕ → List Event → List Event
busy_events [] r es = spi_done r ∷ es
busy_events (b ∷ bs) r es = spi_done b ∷ busy_events bs r es

abbrev pub busy_calls : List ℕ → List Call → List Call
busy_calls [] cs = cs_high ∷ cs
busy_calls (b ∷ bs) cs = read_status ∷ busy_calls bs cs

abbrev pub poll_events : Bool → List ℕ → ℕ → List Event → List Event
poll_events true bs r es = spi_done 0 ∷ busy_events bs r es
poll_events false bs r es = es

abbrev pub poll_calls : Bool → List ℕ → List Call → List Call
poll_calls true bs cs = cs_low ∷ write_byte 0x05 ∷ read_status ∷ busy_calls bs cs
poll_calls false bs cs = cs

-- Bit 0 of each status byte is set: the code goes on polling.
abbrev pub AllBusy : List ℕ → Type 0
AllBusy [] = Unit {0}
AllBusy (b ∷ bs) = (test_bit b 0 ≡ true) × AllBusy bs

-- `k` parts are what `n` bytes need
abbrev pub IsParts : ℕ → ℕ → Type 0
IsParts k n = (n ≤ 512 * k) × (512 * k < n + 512)

abbrev pub Done : Flash → List Call → Type 0
Done s cs = (s.state ≡ idle) × (s.calls ≡ cs)

-- the header in the buffer: 24 bits of length and two flags
abbrev pub in_bytes : List ℕ → ℕ
in_bytes b = get_or b 0 0 + get_or b 1 0 * 2 ^ 8 + get_or b 2 0 * 2 ^ 16

abbrev pub wants_poll : List ℕ → Bool
wants_poll b = test_bit (get_or b 3 0) 0

abbrev pub wants_wren : List ℕ → Bool
wants_wren b = test_bit (get_or b 3 0) 1

-- what the hardware reports for a request of `len` bytes, and what it is made to do
abbrev pub request_events : ℕ → List ℕ → ℕ → ℕ → List ℕ → List Event
request_events k bs r len b =
    poll_events (wants_poll b) bs r
      (wren_events (wants_wren b) (write_events (len - 4) (read_events k)))

abbrev pub request_calls : ℕ → List ℕ → ℕ → List ℕ → List Call
request_calls k bs len b =
    poll_calls (wants_poll b) bs
      (wren_calls (wants_wren b) (write_calls (len - 4) (read_calls k (in_bytes b))))
