-- ===== src/Bridge/Chain.antt =====
-- The DMA chains that firmware/bridge.c builds for the data phase.
use t2_firmware.Prelude.{
  test_bit, not, ◌&&◌, ◌<◌, test_bit-clear_bit, clear_bit-lt, ◌≡◌, [], ◌∷◌, ◌++◌, map, arith,
  if◌then◌else◌, map-append, append-nil, append_assoc, none, some,
}
use t2_firmware.Channel.{Chan, usb, port_a, port_b, at, same, index, open_index, index-lt, index-eq}
use t2_firmware.Transfer.{Xfer, to_mcu, from_mcu, Headers, flows, segment, plan}
use t2_firmware.Bridge.{Bridge, Desc, ChainVars, chain_one, build_chain}

abbrev pub headers : Bridge → Headers
headers s = record {
  mcu_status = s.ctrl_tx.status;
  mcu_size = s.ctrl_tx.size;
  soc_status = s.ctrl_rx.status;
  soc_size = s.ctrl_rx.size;
}

-- The descriptors of a transfer: the MCU is full duplex and sends or drops dummy bytes on the
-- other line.
abbrev pub tx_desc : Bridge → Xfer → Desc
tx_desc s (to_mcu c n) = record { buf = none; count = n }
tx_desc s (from_mcu c n) = record { buf = some (at s.in_chan_ptr c); count = n }

abbrev pub rx_desc : Bridge → Xfer → Desc
rx_desc s (to_mcu c n) = record { buf = some (at s.out_chan_ptr c); count = n }
rx_desc s (from_mcu c n) = record { buf = none; count = n }

module _ (s : Bridge) (c : Chan) (k : ChainVars) where
  chain-tx : (chain_one s c k).tx ≡ k.tx ++ map (tx_desc s) (segment (headers s) c)
  unfolding chain_one
  chain-tx = ground (
    arith,
    append-nil k.tx,
    append_assoc k.tx (tx_desc s (to_mcu c (at s.ctrl_rx.size c)) ∷ [])
        (tx_desc s (from_mcu c (at s.ctrl_tx.size c)) ∷ []),
  )

  chain-rx : (chain_one s c k).rx ≡ k.rx ++ map (rx_desc s) (segment (headers s) c)
  unfolding chain_one
  chain-rx = ground (
    arith,
    append-nil k.rx,
    append_assoc k.rx (rx_desc s (to_mcu c (at s.ctrl_rx.size c)) ∷ [])
        (rx_desc s (from_mcu c (at s.ctrl_tx.size c)) ∷ []),
  )

  -- A channel's round clears the ready bit and the size of what it schedules, and nothing else.
  chain-releases :
      k.ready < 256
      → (d : Chan)
      → let h = headers s in
        let k' = chain_one s c k in
        (test_bit k'.ready (index d)
          ≡ (test_bit k.ready (index d) && not (same c d && flows h.mcu_status h.soc_size c)))
        × (at k'.sizes d
            ≡ (if same c d && flows h.soc_status h.mcu_size c then 0 else at k.sizes d))
        × (k'.ready < 256)
        × (test_bit k'.ready (open_index d) ≡ test_bit k.ready (open_index d))
  unfolding chain_one
  chain-releases hk d = ground (
    arith,
    index-lt c,
    index-lt d,
    index-eq c d,
    test_bit-clear_bit k.ready (index c) (index d),
    test_bit-clear_bit k.ready (index c) (open_index d),
    clear_bit-lt k.ready (index c),
  )

module _ (s : Bridge) where
  start_vars : ChainVars
  start_vars = record { tx = []; rx = []; ready = s.out_chan_ready; sizes = s.in_chan_size }

  -- The descriptors are those of the plan, in its order, for each of the two DMA channels.
  pub build_chain-plan :
      ((build_chain s).tx ≡ map (tx_desc s) (plan (headers s)))
      × ((build_chain s).rx ≡ map (rx_desc s) (plan (headers s)))
  unfolding build_chain
  build_chain-plan = (simp (chain-tx, map-append), simp (chain-rx, map-append))

  -- For every channel the chain clears the ready bit exactly if the SoC's data is scheduled, and
  -- the size exactly if the MCU's data is; the other bits and sizes stay.
  pub build_chain-releases :
      s.out_chan_ready < 256
      → (d : Chan)
      → let h = headers s in
        (test_bit (build_chain s).ready (index d)
          ≡ (test_bit s.out_chan_ready (index d) && not (flows h.mcu_status h.soc_size d)))
        × (at (build_chain s).sizes d
            ≡ (if flows h.soc_status h.mcu_size d then 0 else at s.in_chan_size d))
        × ((build_chain s).ready < 256)
        × (test_bit (build_chain s).ready (open_index d) ≡ test_bit s.out_chan_ready (open_index d))
  unfolding build_chain start_vars
  build_chain-releases hs d =
      let r1 = chain-releases s usb start_vars hs d in
      let r2 = chain-releases s port_a (chain_one s usb start_vars) r1.2 d in
      let r3 = chain-releases s port_b (chain_one s port_a (chain_one s usb start_vars)) r2.2 d in
      ground (arith, r1, r2, r3)
