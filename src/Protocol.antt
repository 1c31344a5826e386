-- ===== src/Protocol.antt =====
-- The bridge protocol: firmware/bridge.c and soc/spid.c over one setup phase and the data phase
-- that follows it.
pub mod Desync
mod Tests
use t2_firmware.Prelude.{
  ℕ, ◌<◌, ◌≡◌, List, map, Bool, true, false, arith, refl, ap, sym, ap₂, is_empty-map, ◌∙◌, ◌++◌,
  is_empty, test_bit, not, ◌==◌, high_nibble, ◌∷◌, if◌then◌else◌,
}
use t2_firmware.Channel.{Chan, usb, port_a, port_b, index, open_index, at}
use t2_firmware.Transfer.{Xfer, segment, plan}
use t2_firmware.Bridge.{
  Bridge, ControlPkt, Call, start_data, unmask_completion, clear_completion, begin_ctrl,
  receive_ctrl, build_chain, begin_data, handle_sync,
}
use t2_firmware.Bridge.Chain.{tx_desc, rx_desc, build_chain-plan, headers as mcu_headers}
use t2_firmware.Bridge.Sync.{data_calls}
use t2_firmware.Bridge.Offers.{IsCoherent, offer}
use t2_firmware.Spid.{Spid, Header, header, manage, prepare, data_phase}
use t2_firmware.Spid.Masks.{IsNarrow, header_writable}
use t2_firmware.Spid.Manage.{View, view, managed, view-manage}
use t2_firmware.Spid.Prepare.{prepare-plan, headers as soc_headers}

-- The same bytes, as the two programs name them.
abbrev pub to_mcu_packet : Header → ControlPkt
to_mcu_packet h = record { cmd = h.magic; status = h.status; size = h.size }

abbrev pub from_mcu_packet : ControlPkt → Header
from_mcu_packet c = record { magic = c.cmd; status = c.status; size = c.size }

-- The setup phase: SYNC falls, and the MCU's header and the SoC's header change places.
abbrev pub mcu_after_setup : Bridge → Spid → Bridge
mcu_after_setup m p = receive_ctrl (to_mcu_packet (header p)) (begin_ctrl m)

abbrev pub header_from_mcu : Bridge → Header
header_from_mcu m = from_mcu_packet (begin_ctrl m).ctrl_tx

received : (m : Bridge) (p : Spid) → (mcu_after_setup m p).ctrl_rx.cmd ≡ 0x53
unfolding receive_ctrl header
received m p = refl

module _ (m : Bridge) (p : Spid) (fd : ℕ) (coherent : IsCoherent m) (n : IsNarrow p) where
  same_segment :
      (d : Chan)
      → segment (mcu_headers (mcu_after_setup m p)) d
        ≡ segment (soc_headers (header_from_mcu m) (manage (header_from_mcu m).status fd p)) d
  unfolding begin_ctrl receive_ctrl header
  same_segment d = ground (
    arith,
    coherent d,
    header_writable p.writable p.opened n.writable n.opened d,
    ap (λ (v : View). v.out_length) (view-manage m.out_chan_ready fd p n d),
    ap (λ (v : View). v.writable) (view-manage m.out_chan_ready fd p n d),
  )

  -- what the SoC transfers is what the MCU's chains transfer
  same_plan : plan (mcu_headers (mcu_after_setup m p)) ≡ (data_phase (header_from_mcu m) fd p).1
  unfolding data_phase
  same_plan =
      ap₂ ◌++◌ (ap₂ ◌++◌ (same_segment usb) (same_segment port_a)) (same_segment port_b)
      ∙ sym (prepare-plan (header_from_mcu m) (manage (header_from_mcu m).status fd p))

  -- If the MCU's disabled channels are idle, then after one setup phase the two programs agree on
  -- the data phase: the MCU's DMA chains are the descriptors of exactly the transfers that the SoC
  -- prepares, in the same order and with the same lengths, into and out of the buffers that were
  -- given for these channels. With SYNC high the MCU starts these chains, if there is any transfer,
  -- and otherwise starts no data DMA.
  pub setup_agrees :
      let m' = mcu_after_setup m p in
      let xs = (data_phase (header_from_mcu m) fd p).1 in
      ((build_chain m').tx ≡ map (tx_desc m') xs)
      × ((build_chain m').rx ≡ map (rx_desc m') xs)
      × (is_empty xs ≡ false
          → (handle_sync true m').calls
            ≡ unmask_completion
              ∷ clear_completion
              ∷ start_data (map (tx_desc m') xs) (map (rx_desc m') xs)
              ∷ m'.calls)
      × (is_empty xs ≡ true
          → (handle_sync true m').calls ≡ (
              if high_nibble m'.ctrl_rx.status == high_nibble m'.was_open
              then m'.calls
              else unmask_completion ∷ m'.calls))
  setup_agrees =
      let (tx, rx) = build_chain-plan (mcu_after_setup m p) in
      let tx' = tx ∙ ap (map (tx_desc (mcu_after_setup m p))) same_plan in
      let rx' = rx ∙ ap (map (rx_desc (mcu_after_setup m p))) same_plan in
      let (full, empty) = data_calls (mcu_after_setup m p) (received m p) in
      (
        tx',
        rx',
        (λ h. full (ap is_empty tx' ∙ is_empty-map _ _ ∙ h) ∙ ground (arith, tx', rx')),
        λ h. empty (ap is_empty tx' ∙ is_empty-map _ _ ∙ h),
      )
