-- ===== src/Common/Dma/Tests.antt =====
-- A chain of common/dma.c at concrete inputs.
use t2_firmware.Prelude.{ℕ, suc, ◌+◌, ◌*◌, true, ◌≡◌, List, [], ◌∷◌, arith}
use t2_firmware.Common.Dma.{Descriptor, fill_tx, fill_rx}
use t2_firmware.Common.Dma.Chain.{filled, run_chain, run_chain-places}

-- two bytes, three dummies, and one byte
abbrev transfers : List (ℕ × ℕ)
transfers = (0x20000100, 2) ∷ (0, 3) ∷ (0x20000200, 1) ∷ []

-- what an earlier, longer chain left
abbrev used : ℕ → Descriptor
used i = record {
  src_inc = true;
  dst_inc = true;
  count = 7;
  src = 1;
  dst = 2;
  next = 0x20001000 + 16 * suc i;
}

run_chain-places_example :
    (run_chain 0x20001000 9 (filled (fill_tx 40 8) used 0 transfers)
      ≡ (0x20000100, 40) ∷ (0x20000101, 40) ∷ (8, 40) ∷ (8, 40) ∷ (8, 40) ∷ (0x20000200, 40) ∷ [])
    × (run_chain 0x20001000 9 (filled (fill_rx 40 8) used 0 transfers)
        ≡ (40, 0x20000100) ∷ (40, 0x20000101) ∷ (40, 8) ∷ (40, 8) ∷ (40, 8) ∷ (40, 0x20000200) ∷ [])
run_chain-places_example =
    run_chain-places 0x20001000 40 8 9 used transfers (omega arith) (omega arith) (omega arith)
      (omega arith, (omega arith, (omega arith, tt)))
