-- ===== src/UsbSerial/Tests.antt =====
-- Runs of firmware/usbserial.c.
use t2_firmware.Prelude.{List, [], ◌∷◌, true, false}
use t2_firmware.UsbSerial.{Serial, init}
use t2_firmware.UsbSerial.Buffers.{IsApart, Event, sent, full, timeout, run, run-IsApart}

abbrev cold : Serial
cold = record {
  active = true;
  sending = true;
  filling = false;
  in_buf = false;
  in_len = 0;
  calls = [];
}

abbrev events : List Event
events = full 0 ∷ timeout true 60 ∷ sent ∷ full 0 ∷ []

run-IsApart_example : IsApart (run events (init cold))
run-IsApart_example = run-IsApart events cold
