-- ===== src/Rig/Tests.antt =====
-- The theorems of the test rig at concrete inputs.
use t2_firmware.Prelude.{
  suc, take, drop, ◌*◌, arith, ℕ, ◌≡◌, refl, not, ◌&&◌, some, List, [], ◌∷◌, ◌++◌, true, false,
  replicate,
}
use t2_firmware.Rig.Button.{
  up, bounce, reports, edges, polls, Alternates, reports-edges, reports-glitches,
  reports-Alternates,
}
use t2_firmware.Common.Gpio.{Pin, Gpio}
use t2_firmware.Rig.Pins.{
  Outside, usb_control_req_digital, Request, control_setup, run_requests, init_all_digital_pins,
}
use t2_firmware.Rig.Driving.{
  drive, wanted, run_requests-drive, control_setup-stall, run_requests-keeps,
}
use t2_firmware.Rig.Dap.{Library, Event, write, read, interrupt, host_events}
use t2_firmware.Rig.Phases.{serve}
use t2_firmware.Rig.Answers.{opened, owed, busy, host_events-answers, host_events-busy}
use t2_firmware.Rig.Exchange.{exchanges, exchanges-answered}
use t2_firmware.Rig.Levels.{read_all, byte_at, read_all-driven}

abbrev two_presses : List (ℕ × ℕ)
two_presses = (3, 0) ∷ (0, 4) ∷ []

reports-edges_example : reports up (polls two_presses) ≡ edges false (polls two_presses)
reports-edges_example = reports-edges two_presses

reports-glitches_example : reports up (true ∷ replicate 100 false ++ true ∷ []) ≡ true ∷ []
reports-glitches_example = reports-glitches 100

reports-Alternates_example : Alternates true (reports bounce (false ∷ true ∷ true ∷ false ∷ []))
reports-Alternates_example = reports-Alternates bounce (false ∷ true ∷ true ∷ false ∷ [])

-- pins with nothing on them but a pull-down
abbrev bench : Outside
bench = record {
  wire = λ g p. (g p).output && ((g p).input && not (g p).muxed) && (g p).level;
  sample = λ g c. 100 * c;
  version = 0x31 ∷ [];
  ep0_size = 64;
}

abbrev blank_pins : Gpio
blank_pins p = record {
  output = true;
  level = true;
  input = false;
  pull = false;
  muxed = false;
  function = 0;
}

abbrev digital : (index value : ℕ) → Request
digital i v = record { to_device = true; request = 1; value = v; index = i }

abbrev analog : (index : ℕ) → Request
analog i = record { to_device = true; request = 2; value = 0; index = i }

abbrev session : List Request
session =
    digital 1 1
    ∷ digital 2 0
    ∷ analog 3
    ∷ digital 2 1
    ∷ digital 1 0
    ∷ digital 40 1
    ∷ digital 2 7
    ∷ []

abbrev short_porta33 : Pin
short_porta33 = record { group = 0; pin = 10; mux = 0; chan = 0 }

abbrev start_button : Pin
start_button = record { group = 1; pin = 31; mux = 0; chan = 0 }

run_requests-drive_example :
    drive (run_requests bench session blank_pins short_porta33)
    ≡ wanted 2 session (drive (blank_pins short_porta33))
run_requests-drive_example = run_requests-drive bench session 2 short_porta33 blank_pins refl

control_setup-stall_example : (control_setup bench (digital 26 1) blank_pins).0 ≡ blank_pins
unfolding control_setup usb_control_req_digital
control_setup-stall_example = control_setup-stall bench (digital 26 1) blank_pins refl

run_requests-keeps_example :
    run_requests bench session blank_pins start_button ≡ blank_pins start_button
run_requests-keeps_example = run_requests-keeps bench session start_button blank_pins refl refl

read_all-driven_example :
    byte_at
      (control_setup bench read_all
        (run_requests bench session (init_all_digital_pins blank_pins))).1
      2
    ≡ some 1
read_all-driven_example =
    read_all-driven bench session 2 short_porta33 true blank_pins
      (λ g p h k l. ground (arith, h, k, l)) refl refl

-- a library that counts its commands and echoes the first byte
abbrev echo : Library
echo = record {
  State = ℕ;
  setup = λ n. 0;
  process = λ request response n. (suc n, n ∷ take 1 request);
}

abbrev conversation : List Event
conversation =
    write (5 ∷ [])
    ∷ write (6 ∷ [])
    ∷ read
    ∷ interrupt
    ∷ read
    ∷ interrupt
    ∷ write (7 ∷ [])
    ∷ interrupt
    ∷ []

host_events-answers_example :
    (host_events conversation (opened echo 9 [] [])).answers
    ≡ drop
        (owed (host_events conversation (opened echo 9 [] [])).device)
        (serve echo 0 [] (host_events conversation (opened echo 9 [] [])).accepted).replies
host_events-answers_example = host_events-answers echo 9 [] [] conversation

host_events-busy_example : busy (host_events conversation (opened echo 9 [] [])).device ≡ 1
host_events-busy_example = host_events-busy echo 9 [] [] conversation

exchanges-answered_example :
    (host_events (exchanges ((1 ∷ []) ∷ (2 ∷ []) ∷ [])) (opened echo 9 [] [])).answers
    ≡ (1 ∷ 2 ∷ []) ∷ (0 ∷ 1 ∷ []) ∷ []
exchanges-answered_example = exchanges-answered echo 9 [] [] ((1 ∷ []) ∷ (2 ∷ []) ∷ [])
