-- ===== src/Port/Tests.antt =====
-- Runs of a port at concrete states.
use t2_firmware.Prelude.{
  ℕ, zero, suc, ◌+◌, ◌≡◌, refl, arith, List, [], ◌∷◌, ◌++◌, true, false, Option, none, some,
  replicate, inr,
}
use t2_firmware.Port.{
  Config, Hw, PortData, disable, no_mode, UartBuf, Call, decode, push_reply, send_status,
  bridge_start_in,
}
use t2_firmware.Port.Begin.{begin_cmd, begin_by, begin_analog_read}
use t2_firmware.Port.Termination.{Ends, port_step_waits}
use t2_firmware.Port.Step.{
  port_step, step_from, step_loop, follow, turn, wait_or_run, run_state, request_cmd, flush_reply,
  disable_async_events, enable_async_events, async_events_allowed, read_cmd_byte, read_arg_byte,
  fetch_cmd, fetch_arg,
}
use t2_firmware.Port.Events.{port_enable, bridge_out_completion}
use t2_firmware.Port.Run.{
  uart_timeout, run_event, Event, enabled, disabled, out_done, in_done, dma_rx, sercom, extint,
  run_events, run_events-Returns, Returns,
}
use t2_firmware.Port.Analog.{analog_read_overflows}
use t2_firmware.Port.Uart.{IsRing, waiting, keep_latest, push_uart-latest}
use t2_firmware.Port.Events.{push_uart}

-- Pin 5 is on the line 1, which the port may use.
abbrev config : Config
config = record { extint = λ i. i + 12; pin_interrupts = 0x20000 }

abbrev hardware : Hw
hardware = record {
  level = λ k i. true;
  adc = λ k i. 0x321;
  i2c_data = λ k. 7;
  eic_mode = λ k i. 0;
}

abbrev no_bytes : UartBuf
no_bytes = record { head = 0; tail = 0; buf_len = 0; rx_bytes = replicate 32 0 }

abbrev cold : PortData
cold = record {
  cmd_buf = replicate 255 0;
  reply_buf = replicate 255 0;
  chan = 1;
  state = disable;
  mode = no_mode;
  cmd_len = 0;
  cmd_pos = 0;
  reply_len = 0;
  cmd = 0;
  arg = replicate 5 0;
  arg_len = 0;
  arg_pos = 0;
  pending_out = false;
  pending_in = false;
  uart_buf = no_bytes;
  calls = [];
}

-- The commands are in the buffer: echo of two bytes and a reading of pin 3.
abbrev asked : PortData
asked = record (port_enable cold) { cmd_buf = 2 ∷ 2 ∷ 65 ∷ 66 ∷ 3 ∷ 3 ∷ [] }

abbrev started : PortData
started = record asked { cmd_len = 6; pending_out = false }

abbrev some_events : List Event
some_events =
    out_done 6
    ∷ in_done
    ∷ extint 0x20000
    ∷ sercom none true
    ∷ dma_rx
    ∷ uart_timeout
    ∷ disabled
    ∷ enabled
    ∷ []

run_events-Returns_example : Returns (run_events config hardware some_events asked)
unfolding port_enable
run_events-Returns_example =
    run_events-Returns config hardware some_events asked (ground arith) (inr (ground arith))

port_step_waits_example : Ends (port_step config hardware started)
unfolding port_enable
port_step_waits_example = port_step_waits config hardware started (ground arith)

abbrev near_full : PortData
near_full = record started { cmd = 24; reply_len = 254 }

analog_read_overflows_example :
    ((begin_cmd config hardware near_full).0.chan ≡ 0x21)
    × ((begin_cmd config hardware near_full).0.reply_len ≡ 1)
unfolding decode
analog_read_overflows_example = analog_read_overflows config hardware near_full refl refl

abbrev repeated : ℕ → List ℕ → List ℕ → List ℕ
repeated zero a t = t
repeated (suc n) a t = a ++ repeated n a t

abbrev first : List Call → Option Call
first [] = none
first (c ∷ cs) = some c

-- A buffer of 84 analog readings, two digital ones and another analog one: the last reading falls
-- off the reply buffer, and the reply is sent on channel 33.
abbrev readings : List ℕ
readings = repeated 84 (24 ∷ 3 ∷ []) (23 ∷ 1 ∷ 23 ∷ 1 ∷ 24 ∷ 3 ∷ [])

abbrev loaded : PortData
loaded = record (port_enable cold) { cmd_buf = readings }

abbrev latest : Option PortData → Option Call
latest none = none
latest (some p) = first p.calls

overflow_run :
    latest (run_events config hardware (out_done 174 ∷ []) loaded) ≡ some (bridge_start_in 33 1)
unfolding run_events run_event bridge_out_completion port_step step_from step_loop follow turn
    wait_or_run run_state request_cmd flush_reply disable_async_events enable_async_events
    async_events_allowed read_cmd_byte read_arg_byte fetch_cmd fetch_arg begin_cmd begin_by
    begin_analog_read push_reply send_status port_enable decode
overflow_run = refl

-- A full ring of 32 bytes that starts at position 3.
abbrev full_ring : UartBuf
full_ring = record { head = 3; tail = 3; buf_len = 32; rx_bytes = replicate 32 9 }

push_uart-latest_example :
    IsRing (push_uart 7 full_ring)
    × (waiting (push_uart 7 full_ring) ≡ keep_latest (waiting full_ring ++ 7 ∷ []))
push_uart-latest_example = push_uart-latest full_ring (ground arith) 7

abbrev received : PortData
received = record cold {
  reply_len = 2;
  uart_buf = record {
    head = 1;
    tail = 30;
    buf_len = 3;
    rx_bytes = 52 ∷ replicate 29 0 ++ 50 ∷ 51 ∷ [];
  };
}
