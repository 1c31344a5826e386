-- ===== src/Boot/Tests.antt =====
-- The theorems of boot/main.c at concrete inputs.
use t2_firmware.Prelude.{ℕ, ◌/◌, ◌≡◌, refl, List, [], ◌∷◌, false, arith}
use t2_firmware.Common.Rom.{rom, rom-IsNvm}
use t2_firmware.Boot.{
  Loader, fw_size, dnload_block, run_event, run_events, announced, download, start, loader,
  firmware,
}
use t2_firmware.Boot.Download.{
  Downloaded, download-Downloaded, start-download, start-announced, dnload_block-config,
}

-- the stack from 0x20004000 down, and a reset handler at 0x1101
abbrev image : List ℕ
image = 0 ∷ 0x40 ∷ 0 ∷ 0x20 ∷ 0x01 ∷ 0x11 ∷ 0 ∷ 0 ∷ 7 ∷ []

abbrev blank : Loader rom
blank = record {
  memory = record { bytes = λ a. 0; buffer = []; address = 0 };
  errors = [];
  exit_and_jump = false;
}

download-Downloaded_example : Downloaded image blank (run_events (download image) blank)
download-Downloaded_example =
    download-Downloaded rom-IsNvm image blank (omega arith) (omega arith) refl

start-download_example : start rom false false (run_events (download image) blank).memory ≡ firmware
start-download_example =
    start-download rom-IsNvm image blank (omega arith) (omega arith) refl (record {
      stack_above = omega arith;
      stack_below = omega arith;
      reset_below = omega arith;
      has_vector = omega arith;
    })

start-announced_example : start rom false false (run_event (announced 0 256) blank).memory ≡ loader
start-announced_example = start-announced rom-IsNvm 256 false false blank (omega arith)

dnload_block-config_example :
    (rom.read (dnload_block (fw_size / 256) 256 blank).memory 261120 ≡ 255)
    × ((dnload_block (fw_size / 256) 256 blank).errors ≡ blank.errors)
dnload_block-config_example =
    dnload_block-config rom-IsNvm 256 261120 blank (omega arith) (omega arith) (omega arith)
