-- ===== src/Flash.antt =====
-- firmware/flash.c: access to the SPI flash over USB. The globals are the fields of `Flash`. The
-- calls into the USB stack, the DMA and the pins are entries of `calls`, the latest first.
pub mod Request
pub mod Trace
mod Tests
use t2_firmware.Prelude.{
  ℕ, ◌+◌, ◌-◌, ◌*◌, ◌^◌, ◌%◌, List, [], ◌∷◌, Bool, true, false, ltb, if◌then◌else◌, get_or, set,
  test_bit,
}

pub data FlashState : Type 0 where
  disable idle out in_spi in_usb sr_poll_out sr_poll_in wren_out : FlashState

pub data Call : Type 0 where
  enable_ep_out enable_ep_in disable_ep_in disable_ep_out : Call
  spi_init configure_tx configure_rx enable_rx_interrupt abort_tx abort_rx : Call
  reset_low reset_out mux_pins cs_high cs_low cs_out release_pins : Call
  ep_start_out : Call
  ep_start_in : (len : ℕ) → Call
  write_byte : ℕ → Call
  read_status : Call
  write_buffer read_buffer : (len : ℕ) → Call
  invalid : Call

-- `FLASH_BUFFER_SIZE`
abbrev pub buffer_size : ℕ
buffer_size = 512

pub record Flash : Type 0 where
  pub buffer : List ℕ
  pub in_count : ℕ
  pub out_count : ℕ
  pub flag_sr_poll : Bool
  pub flag_wren : Bool
  pub byte : ℕ
  pub state : FlashState
  pub calls : List Call

abbrev pub log : Call → Flash → Flash
log c s = record s { calls = c ∷ s.calls }

-- `flash_init`
unfoldable pub init : Flash → Flash
init s =
    let a = log enable_rx_interrupt (
      log configure_rx
        (log configure_tx (log spi_init (log enable_ep_in (log enable_ep_out s))))) in
    let b = log cs_out (log cs_high (log mux_pins (log reset_out (log reset_low a)))) in
    log ep_start_out (record b { state = idle })

-- `flash_disable`
unfoldable pub shut_down : Flash → Flash
shut_down s =
    let a =
      log disable_ep_out (log disable_ep_in (log release_pins (log abort_rx (log abort_tx s)))) in
    record a { state = disable }

-- `flash_in_packet_len`
abbrev pub in_packet_len : Flash → ℕ
in_packet_len s = if ltb buffer_size s.in_count then buffer_size else s.in_count

-- `flash_start_read`
unfoldable pub start_read : Flash → Flash
start_read s =
    if ltb 0 s.in_count
    then log (read_buffer (in_packet_len s)) (record s { state = in_spi })
    else log ep_start_out (log cs_high (record s { state = idle }))

-- `flash_start_write`
unfoldable pub start_write : Flash → Flash
unfolding start_read
start_write s =
    if ltb 0 s.out_count
    then log (write_buffer s.out_count) (log cs_low (record s { state = out }))
    else start_read (log cs_low s)

-- `flash_start_wren`
unfoldable pub start_wren : Flash → Flash
unfolding start_write
start_wren s =
    if s.flag_wren
    then log (write_byte 0x06) (log cs_low (record s { byte = 0x06; state = wren_out }))
    else start_write s

-- `flash_start_sr_poll`
unfoldable pub start_sr_poll : Flash → Flash
unfolding start_wren
start_sr_poll s =
    if s.flag_sr_poll
    then log (write_byte 0x05) (log cs_low (record s { byte = 0x05; state = sr_poll_out }))
    else start_wren s

-- `flash_read_sr_poll`
unfoldable pub read_sr_poll : Flash → Flash
read_sr_poll s = log read_status (record s { state = sr_poll_in })

-- A status byte is read.
abbrev pub is_polling : FlashState → Bool
is_polling sr_poll_in = true
is_polling _ = false

abbrev pub is_idle : FlashState → Bool
is_idle idle = true
is_idle _ = false

-- `flash_usb_out_completion` for a packet with a header; `len` is its length
unfoldable pub receive : ℕ → Flash → Flash
unfolding start_sr_poll
receive len s = start_sr_poll (record s {
  out_count = len - 4;
  in_count = get_or s.buffer 0 0 + get_or s.buffer 1 0 * 2 ^ 8 + get_or s.buffer 2 0 * 2 ^ 16;
  flag_sr_poll = test_bit (get_or s.buffer 3 0) 0;
  flag_wren = test_bit (get_or s.buffer 3 0) 1;
})

-- `flash_usb_out_completion`
unfoldable pub usb_out_completion : ℕ → Flash → Flash
unfolding receive
usb_out_completion len s =
    if is_idle s.state then (if ltb len 4 then s else receive len s) else log invalid s

unfoldable pub dma_by : FlashState → Flash → Flash
unfolding read_sr_poll start_wren start_write start_read
dma_by disable s = s
dma_by sr_poll_out s = read_sr_poll s
dma_by sr_poll_in s = if test_bit s.byte 0 then read_sr_poll s else start_wren (log cs_high s)
dma_by wren_out s = start_write (log cs_high s)
dma_by out s = start_read s
dma_by in_spi s = log (ep_start_in (in_packet_len s)) (record s { state = in_usb })
dma_by _ s = log invalid s

-- `flash_dma_rx_completion`
unfoldable pub dma_rx_completion : Flash → Flash
unfolding dma_by
dma_rx_completion s = dma_by s.state s

abbrev pub is_in_usb : FlashState → Bool
is_in_usb in_usb = true
is_in_usb _ = false

-- `flash_usb_in_completion`
unfoldable pub usb_in_completion : Flash → Flash
unfolding start_read
usb_in_completion s =
    if is_in_usb s.state
    then start_read (record s { in_count = s.in_count - in_packet_len s })
    else log invalid s
