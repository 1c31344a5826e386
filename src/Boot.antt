-- ===== src/Boot.antt =====
-- boot/main.c: the boot loader. The DFU stack calls `dnload_block` when the host announces a block,
-- `packet_completed` for each packet of it, and `manifest` at the end. The program memory is a
-- parameter (`Nvm` of Common).
pub mod Parts
pub mod Blocks
pub mod Download
mod Tests
use t2_firmware.Prelude.{
  ℕ, zero, suc, ◌+◌, ◌-◌, ◌*◌, ◌/◌, ◌%◌, ◌^◌, ◌≡◌, List, [], ◌∷◌, ◌++◌, Bool, true, false, not,
  ◌&&◌, ◌||◌, ltb, ◌==◌, if◌then◌else◌, take, drop, length, is_empty, min,
}
use t2_firmware.Common.Nvm.{Nvm, erase_row, write_page}

-- FLASH_FW_START, FLASH_FW_SIZE of common/board.h, DFU_TRANSFER_SIZE
abbrev pub fw_start : ℕ
fw_start = 4096

abbrev pub fw_size : ℕ
fw_size = 256 * 1024 - 4096 - 1024

abbrev pub transfer_size : ℕ
transfer_size = 256

-- what `dfu_error` is called with
pub data Status : Type 0 where
  unknown address : Status

-- where `main` ends
pub data Outcome : Type 0 where
  loader firmware : Outcome

module _ (n : Nvm) where
  -- the memory, the errors (the latest first) and `exit_and_jump`
  pub record Loader : Type 0 where
    pub memory : n.State
    pub errors : List Status
    pub exit_and_jump : Bool

module _ {n : Nvm} where
  -- `dfu_cb_dnload_block`; `len` is `wLength`
  unfoldable pub dnload_block : (block len : ℕ) → Loader n → Loader n
  dnload_block block len s =
      if ltb transfer_size len
      then record s { errors = unknown ∷ s.errors }
      else if ltb fw_size (block * transfer_size)
      then record s { errors = address ∷ s.errors }
      else record s { memory = erase_row n (fw_start + block * transfer_size) s.memory }

  -- `dfu_cb_dnload_packet_completed`; `nvm_write_page` takes the length as a byte
  unfoldable pub packet_completed : (block offset : ℕ) → List ℕ → Loader n → Loader n
  packet_completed block offset xs s = record s {
    memory =
        write_page n (fw_start + block * transfer_size + offset) (take (length xs % 2 ^ 8) xs)
          s.memory;
  }

  -- `dfu_cb_manifest`
  unfoldable pub manifest : Loader n → Loader n
  manifest s = record s { exit_and_jump = true }

-- a word of the memory, the lowest byte first
unfoldable pub word_at : (n : Nvm) → ℕ → n.State → ℕ
word_at n a m =
    n.read m a + 2 ^ 8 * n.read m (a + 1) + 2 ^ 16 * n.read m (a + 2) + 2 ^ 24 * n.read m (a + 3)

-- `flash_valid`
unfoldable pub flash_valid : (n : Nvm) → n.State → Bool
unfolding word_at
flash_valid n m =
    let sp : ℕ = word_at n fw_start m in
    let ip : ℕ = word_at n (fw_start + 4) m in
    ltb 0x20000000 sp && ltb sp 0x20008000 && ltb ip 0x400000

-- `main`, by the button and by whether the watchdog caused the reset
unfoldable pub start : (n : Nvm) (button watchdog : Bool) → n.State → Outcome
unfolding flash_valid
start n button watchdog m = if not (flash_valid n m) || button || watchdog then loader else firmware

-- the calls of the DFU stack
pub data Event : Type 0 where
  announced : (block len : ℕ) → Event
  received : (block offset : ℕ) → List ℕ → Event
  ended : Event

module _ {n : Nvm} where
  unfoldable pub run_event : Event → Loader n → Loader n
  unfolding dnload_block packet_completed manifest
  run_event (announced block len) s = dnload_block block len s
  run_event (received block offset xs) s = packet_completed block offset xs s
  run_event ended s = manifest s

  unfoldable pub run_events : List Event → Loader n → Loader n
  unfolding run_event
  run_events [] s = s
  run_events (e ∷ es) s = run_events es (run_event e s)

-- The events of a download: the bytes of a block, at most `k` packets of 64 from `offset` on, and an
-- image of at most `k` blocks from `block` on.
abbrev pub packets : (k block offset : ℕ) → List ℕ → List Event
packets zero block offset xs = []
packets (suc k) block offset xs =
    let rest = packets k block (offset + 64) (drop 64 xs) in
    if is_empty xs then [] else received block offset (take 64 xs) ∷ rest

abbrev pub blocks : (k block : ℕ) → List ℕ → List Event
blocks zero block xs = []
blocks (suc k) block xs =
    let rest = blocks k (suc block) (drop 256 xs) in
    if is_empty xs
    then []
    else announced block (length (take 256 xs)) ∷ packets 4 block 0 (take 256 xs) ++ rest

abbrev pub download : List ℕ → List Event
download image = blocks (suc (length image / 256)) 0 image ++ ended ∷ []
