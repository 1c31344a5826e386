-- ===== src/Bridge/Sync.antt =====
-- `bridge_handle_sync` of firmware/bridge.c, branch by branch.
use t2_firmware.Prelude.{
  ◌≡◌, ◌≢◌, true, false, arith, ◌&&◌, ◌==◌, is_empty, high_nibble, ◌∷◌, if◌then◌else◌,
}
use t2_firmware.Bridge.{
  Bridge, idle, ctrl, data_phase, start_data, unmask_completion, clear_completion, build_chain,
  handle_sync,
}

module _ (s : Bridge) where
  -- the calls for the data phase, from the chains
  pub data_calls :
      s.ctrl_rx.cmd ≡ 0x53
      → let k = build_chain s in
        (is_empty k.tx ≡ false
          → (handle_sync true s).calls
            ≡ unmask_completion ∷ clear_completion ∷ start_data k.tx k.rx ∷ s.calls)
        × (is_empty k.tx ≡ true
            → (handle_sync true s).calls ≡ (
                if high_nibble s.ctrl_rx.status == high_nibble s.was_open
                then s.calls
                else unmask_completion ∷ s.calls))
  unfolding handle_sync
  data_calls e = ((λ h. ground arith), λ h. ground arith)

  -- SYNC low always begins a setup phase: the header that goes out is 0xCA with the ready bits and
  -- the pending sizes, and a header left over from an earlier setup phase cannot be taken for a
  -- new one. Pending data and ready bits stay.
  handle_sync_low :
      let t = handle_sync false s in
      (t.state ≡ ctrl)
      × (t.ctrl_tx ≡ record { cmd = 0xCA; status = s.out_chan_ready; size = s.in_chan_size })
      × (t.ctrl_rx.cmd ≢ 0x53)
      × (t.out_chan_ready ≡ s.out_chan_ready)
      × (t.in_chan_size ≡ s.in_chan_size)
  unfolding handle_sync
  handle_sync_low = ground arith

  -- SYNC high without a valid header from the SoC abandons the transaction: the bridge is idle and
  -- nothing else changes.
  handle_sync_invalid : s.ctrl_rx.cmd ≢ 0x53 → handle_sync true s ≡ record s { state = idle }
  unfolding handle_sync
  handle_sync_invalid h = ground arith

  -- SYNC high with a valid header: the bridge waits for a completion exactly if there is data to
  -- transfer or a channel was opened or closed, else it is idle. The interrupt line falls.
  pub handle_sync_valid :
      s.ctrl_rx.cmd ≡ 0x53
      → let t = handle_sync true s in
        (t.state ≡ (
          if is_empty (build_chain s).tx && high_nibble s.ctrl_rx.status == high_nibble s.was_open
          then idle
          else data_phase))
        × (t.irq ≡ false)
        × (t.booted ≡ true)
        × (t.out_chan_ready ≡ (build_chain s).ready)
        × (t.in_chan_size ≡ (build_chain s).sizes)
  unfolding handle_sync
  handle_sync_valid h = ground arith
