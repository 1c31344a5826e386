-- ===== src/Transfer.antt =====
-- The contents of a data phase as README.md ("Bridge", "Signals") derives them from the two setup
-- headers: the specification that firmware/bridge.c and soc/spid.c each implement.
use t2_firmware.Prelude.{ℕ, List, [], ◌∷◌, ◌++◌, Bool, ◌&&◌, ltb, if◌then◌else◌, test_bit}
use t2_firmware.Channel.{Chan, usb, port_a, port_b, index, PerChan, at}

-- one transfer, in the order on the wire
pub data Xfer : Type 0 where
  to_mcu : Chan → ℕ → Xfer
  from_mcu : Chan → ℕ → Xfer

-- what the two headers say, each as the status byte and the sizes
pub record Headers : Type 0 where
  pub mcu_status : ℕ
  pub mcu_size : PerChan ℕ
  pub soc_status : ℕ
  pub soc_size : PerChan ℕ

-- One side accepts data on the channel and the other has some.
abbrev pub flows : ℕ → PerChan ℕ → Chan → Bool
flows status size c = test_bit status (index c) && ltb 0 (at size c)

-- the transfers of one channel
abbrev pub segment : Headers → Chan → List Xfer
segment h c =
    (if flows h.mcu_status h.soc_size c then to_mcu c (at h.soc_size c) ∷ [] else [])
    ++ (if flows h.soc_status h.mcu_size c then from_mcu c (at h.mcu_size c) ∷ [] else [])

-- the whole data phase
abbrev pub plan : Headers → List Xfer
plan h = segment h usb ++ segment h port_a ++ segment h port_b
