-- ===== src/Boot/Download.antt =====
-- A download of boot/main.c: the image is in the program memory, and nothing else has changed.
use t2_firmware.Prelude.{
  ℕ, suc, ◌+◌, ◌-◌, ◌*◌, ◌/◌, ◌^◌, ◌≤◌, ◌<◌, ◌≡◌, refl, ap, sym, subst, ◌∙◌, ◌⊎◌, inl, List, [],
  ◌∷◌, Bool, true, false, arith, length, get_or,
}
use t2_firmware.Common.Nvm.{Nvm, IsNvm, AllBytes, erase_row, erase_row_lem, erase_row_keeps}
use t2_firmware.Boot.{
  Loader, fw_start, fw_size, dnload_block, run_event, run_events, manifest, start, word_at,
  firmware, loader, ended, announced, blocks, download,
}
use t2_firmware.Boot.Blocks.{run_events-append, announced-erased, blocks-Stored}

-- the end of a download
pub record Downloaded {n : Nvm} (image : List ℕ) (s t : Loader n) : Type 0 where
  pub content : (i : ℕ) → i < length image → n.read t.memory (fw_start + i) ≡ get_or image i 0
  pub kept :
      (a : ℕ) → (a < fw_start) ⊎ (fw_start + fw_size ≤ a) → n.read t.memory a ≡ n.read s.memory a
  pub no_errors : t.errors ≡ s.errors
  pub jumps : t.exit_and_jump ≡ true

-- the word of an image from byte `i` on
abbrev pub image_word : ℕ → List ℕ → ℕ
image_word i image =
    get_or image i 0
    + 2 ^ 8 * get_or image (i + 1) 0
    + 2 ^ 16 * get_or image (i + 2) 0
    + 2 ^ 24 * get_or image (i + 3) 0

-- The image starts with the initial stack pointer, inside the RAM, and the address of the reset
-- handler, inside the flash.
pub record IsImage (image : List ℕ) : Type 0 where
  pub stack_above : 0x20000000 < image_word 0 image
  pub stack_below : image_word 0 image < 0x20008000
  pub reset_below : image_word 4 image < 0x400000
  pub has_vector : 8 ≤ length image

module _ {n : Nvm} (laws : IsNvm n) where
  -- An image of bytes that fits into the firmware's part of the memory, downloaded over an arbitrary
  -- memory: then it is there from the start of this part on, byte for byte; the boot loader and what
  -- is above that part are as they were; no error was reported; and the boot loader is to jump.
  pub download-Downloaded :
      (image : List ℕ) (s : Loader n)
      → length image ≤ fw_size
      → AllBytes image
      → n.IsClear s.memory
      → Downloaded image s (run_events (download image) s)
  unfolding run_events manifest
  download-Downloaded image s l b c =
      let es = blocks (suc (length image / 256)) 0 image in
      let v =
        blocks-Stored laws (suc (length image / 256)) 0 image s (omega arith) (omega arith) b c in
      subst (Downloaded image s) (sym (run_events-append es (ended ∷ []) s))
        (record { content = v.content; kept = v.kept; no_errors = v.no_errors; jumps = refl })

  word_at-image :
      (image : List ℕ) (m : n.State) (i : ℕ)
      → ((j : ℕ) → j < length image → n.read m (fw_start + j) ≡ get_or image j 0)
      → i + 4 ≤ length image
      → word_at n (fw_start + i) m ≡ image_word i image
  unfolding word_at
  word_at-image image m i h l =
      omega (arith, h i (omega arith), at 1 (omega arith), at 2 (omega arith), at 3 (omega arith))
    where
      at : (k : ℕ) → k < 4 → n.read m (fw_start + i + k) ≡ get_or image (i + k) 0
      at k q =
          let e : fw_start + i + k ≡ fw_start + (i + k) = omega arith in
          ap (n.read m) e ∙ h (i + k) (omega arith)

  -- When the download of an image that begins with a valid vector table is over, the next start
  -- without the button and without a reset by the watchdog runs the firmware.
  pub start-download :
      (image : List ℕ) (s : Loader n)
      → length image ≤ fw_size
      → AllBytes image
      → n.IsClear s.memory
      → IsImage image
      → start n false false (run_events (download image) s).memory ≡ firmware
  unfolding start
  start-download image s l b c v =
      let d = download-Downloaded image s l b c in
      let m = (run_events (download image) s).memory in
      let e = word_at-image image m 0 d.content (omega (arith, v.has_vector)) in
      let f = word_at-image image m 4 d.content (omega (arith, v.has_vector)) in
      ground (arith, e, f, v)

  erased-word : (m : n.State) → word_at n fw_start (erase_row n fw_start m) ≡ 2 ^ 32 - 1
  unfolding word_at
  erased-word m =
      let h = λ (a : ℕ) (k : fw_start ≤ a) (l : a < fw_start + 256).
        erase_row_lem n laws fw_start m (omega arith) a k l in
      omega (
        arith,
        h 4096 (omega arith) (omega arith),
        h 4097 (omega arith) (omega arith),
        h 4098 (omega arith) (omega arith),
        h 4099 (omega arith) (omega arith),
      )

  -- When a download ends after the first block was announced, before any of it came, every start
  -- runs the boot loader again.
  pub start-announced :
      (len : ℕ) (button watchdog : Bool) (s : Loader n)
      → len ≤ 256
      → start n button watchdog (run_event (announced 0 len) s).memory ≡ loader
  unfolding start
  start-announced len button watchdog s l =
      let e = ap (λ (t : Loader n). t.memory) (announced-erased laws 0 len s l (omega arith)) in
      ap (start n button watchdog) e ∙ ground (arith, erased-word s.memory)

  -- No announcement of a block, whatever its number and length, changes the boot loader.
  dnload_block-keeps :
      (block len a : ℕ) (s : Loader n)
      → a < fw_start
      → n.read (dnload_block block len s).memory a ≡ n.read s.memory a
  unfolding dnload_block
  dnload_block-keeps block len a s h = ground (
    arith,
    erase_row_keeps n laws (fw_start + block * 256) s.memory (omega arith) a (inl (omega arith)),
  )

  -- The number of the first block above the firmware's part of the memory is accepted: the first 256
  -- bytes of the configuration that lies there are erased, and no error is reported.
  pub dnload_block-config :
      (len a : ℕ) (s : Loader n)
      → len ≤ 256
      → fw_start + fw_size ≤ a
      → a < fw_start + fw_size + 256
      → (n.read (dnload_block (fw_size / 256) len s).memory a ≡ 255)
        × ((dnload_block (fw_size / 256) len s).errors ≡ s.errors)
  unfolding dnload_block
  dnload_block-config len a s l h k =
      let e = erase_row_lem n laws (fw_start + fw_size) s.memory (omega arith) a h k in
      ground (arith, e)
