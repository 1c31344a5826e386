-- ===== src/Flash/Tests.antt =====
-- Requests to the flash at concrete packets.
use t2_firmware.Prelude.{ℕ, ◌≡◌, refl, List, [], ◌∷◌, false, arith, test_bit}
use t2_firmware.Flash.{
  Flash, idle, usb_out_completion, cs_low, cs_high, write_byte, read_status, write_buffer,
  read_buffer, ep_start_in, ep_start_out,
}
use t2_firmware.Flash.Trace.{request-Done}
use t2_firmware.Flash.Request.{run, Done, onto, request_events, request_calls}

-- Poll, enable writing, send two bytes and read 600.
abbrev packet : List ℕ
packet = 0x58 ∷ 2 ∷ 0 ∷ 3 ∷ 0x0B ∷ 0xAA ∷ []

abbrev waiting : Flash
waiting = record {
  buffer = packet;
  in_count = 0;
  out_count = 0;
  flag_sr_poll = false;
  flag_wren = false;
  byte = 0;
  state = idle;
  calls = [];
}

request_calls_test :
    request_calls 2 (1 ∷ 3 ∷ []) 6 packet
    ≡ cs_low
      ∷ write_byte 5
      ∷ read_status
      ∷ read_status
      ∷ read_status
      ∷ cs_high
      ∷ cs_low
      ∷ write_byte 6
      ∷ cs_high
      ∷ cs_low
      ∷ write_buffer 2
      ∷ read_buffer 512
      ∷ ep_start_in 512
      ∷ read_buffer 88
      ∷ ep_start_in 88
      ∷ cs_high
      ∷ ep_start_out
      ∷ []
unfolding test_bit
request_calls_test = refl

request-Done_example :
    Done
      (run (request_events 2 (1 ∷ 3 ∷ []) 0 6 packet) (usb_out_completion 6 waiting))
      (onto (request_calls 2 (1 ∷ 3 ∷ []) 6 packet) [])
unfolding test_bit
request-Done_example =
    request-Done 2 0 (1 ∷ 3 ∷ []) waiting 6 refl (refl, (refl, tt)) refl (ground arith)
      (ground arith)
