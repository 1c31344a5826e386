-- ===== src/Firmware/Exclusive.antt =====
-- firmware/usb.c: the bridge and the flash use the same SERCOM and the same DMA channels.
use t2_firmware.Prelude.{
  ℕ, ◌≡◌, refl, ap, sym, ◌∙◌, Bool, true, false, not, Option, none, some, arith, ◌∷◌, if◌then◌else◌,
}
use t2_firmware.Bridge
use t2_firmware.Bridge.{
  Bridge, ControlPkt, BridgeState, Callback, handle_sync, begin_data, begin_ctrl, build_chain,
}
use t2_firmware.Flash
use t2_firmware.Flash.{Flash, FlashState}
use t2_firmware.Firmware.{
  Mcu, Pending, set_interface, usb_completion, bulk_completion, bridge_dma, sync_event, on_packet,
  is_flash,
}

-- which of the two is on
abbrev pub bridge_on : BridgeState → Bool
bridge_on Bridge.disable = false
bridge_on _ = true

abbrev pub flash_on : FlashState → Bool
flash_on Flash.disable = false
flash_on _ = true

-- The setting decides which of the two is on.
pub record IsExclusive (m : Mcu) : Type 0 where
  pub bridge_as : bridge_on m.bridge.state ≡ not (is_flash m.altsetting)
  pub flash_as : flash_on m.flash.state ≡ is_flash m.altsetting

-- What main and the interrupts can lead to, if the SYNC pin does not change in the flash setting.
-- `run` is what a callback of the bridge does to it, and `u` are the endpoints that are done.
pub data Reach (run : Callback → Bridge → Bridge) : Mcu → Type 0 where
  started :
      (m : Mcu)
      → m.altsetting ≡ 0
      → m.bridge.state ≡ Bridge.idle
      → m.flash.state ≡ Flash.disable
      → Reach run m
  chosen : (m : Mcu) (interface new : ℕ) → Reach run m → Reach run (set_interface interface new m).1
  completed : (m : Mcu) (u : Pending) → Reach run m → Reach run (usb_completion u m)
  transferred : (m : Mcu) → Reach run m → Reach run (bridge_dma run m)
  synced :
      (m : Mcu) (level : Bool)
      → is_flash m.altsetting ≡ false
      → Reach run m
      → Reach run (sync_event level m)

handle_sync-on : (level : Bool) (s : Bridge) → bridge_on (handle_sync level s).state ≡ true
unfolding handle_sync begin_data begin_ctrl
handle_sync-on level s = ground arith

bridge_dma-on :
    (run : Callback → Bridge → Bridge) (s : Bridge)
    → bridge_on (Bridge.dma_rx_completion run s).state ≡ bridge_on s.state
unfolding Bridge.dma_rx_completion
bridge_dma-on run s = ground arith

flash_dma-on : (f : Flash) → flash_on (Flash.dma_rx_completion f).state ≡ flash_on f.state
unfolding Flash.dma_rx_completion
flash_dma-on f = ground arith

out-on : (len : ℕ) (f : Flash) → flash_on (Flash.usb_out_completion len f).state ≡ flash_on f.state
unfolding Flash.usb_out_completion
out-on len f = ground arith

in-on : (f : Flash) → flash_on (Flash.usb_in_completion f).state ≡ flash_on f.state
unfolding Flash.usb_in_completion Flash.start_read
in-on f = ground arith

chosen-IsExclusive :
    (interface new : ℕ) (m : Mcu) → IsExclusive m → IsExclusive (set_interface interface new m).1
unfolding set_interface Flash.init Flash.shut_down Bridge.init Bridge.disable_bridge
chosen-IsExclusive interface new m v = ground (arith, v)

-- the two flash handlers of `usb_cb_completion`
both-on :
    (o : Option ℕ) (i : Bool) (f : Flash)
    → flash_on
        (let g = on_packet Flash.usb_out_completion o f in
          if i then Flash.usb_in_completion g else g).state
      ≡ flash_on f.state
both-on none false f = refl
both-on none true f = in-on f
both-on (some len) false f = out-on len f
both-on (some len) true f = in-on (Flash.usb_out_completion len f) ∙ out-on len f

bulk-IsExclusive : (u : Pending) (m : Mcu) → IsExclusive m → IsExclusive (bulk_completion u m)
unfolding bulk_completion
bulk-IsExclusive u m v = ground (arith, v, both-on u.bulk_out u.bulk_in m.flash)

completed-IsExclusive : (u : Pending) (m : Mcu) → IsExclusive m → IsExclusive (usb_completion u m)
unfolding usb_completion
completed-IsExclusive u m v =
    let w = bulk-IsExclusive u m v in record { bridge_as = w.bridge_as; flash_as = w.flash_as }

-- From the end of main's set-up on, whatever settings the host chooses, whatever USB and DMA
-- transfers end, and however the SYNC pin changes while the flash is not chosen: the flash is on
-- exactly in its setting and the bridge exactly in the others.
pub Reach-IsExclusive : (run : Callback → Bridge → Bridge) (m : Mcu) → Reach run m → IsExclusive m
unfolding bridge_dma sync_event
Reach-IsExclusive run m (started n e b f) = ground (arith, e, b, f)
Reach-IsExclusive run m (chosen n i new r) = chosen-IsExclusive i new n (Reach-IsExclusive run n r)
Reach-IsExclusive run m (completed n u r) = completed-IsExclusive u n (Reach-IsExclusive run n r)
Reach-IsExclusive run m (transferred n r) =
    let v = Reach-IsExclusive run n r in
    record {
      bridge_as = bridge_dma-on run n.bridge ∙ v.bridge_as;
      flash_as = flash_dma-on n.flash ∙ v.flash_as;
    }
Reach-IsExclusive run m (synced n level e r) =
    let v = Reach-IsExclusive run n r in
    record { bridge_as = handle_sync-on level n.bridge ∙ ap not (sym e); flash_as = v.flash_as }

-- In every state of these in which the flash is chosen, a SYNC pin that goes low turns the bridge on
-- beside the flash: it aborts the transfers on the DMA channels of both and makes their SERCOM an
-- SPI slave.
pub sync_event-low :
    (run : Callback → Bridge → Bridge) (m : Mcu)
    → Reach run m
    → is_flash m.altsetting ≡ true
    → (flash_on (sync_event false m).flash.state ≡ true)
      × (bridge_on m.bridge.state ≡ false)
      × (bridge_on (sync_event false m).bridge.state ≡ true)
      × (tx : ControlPkt) × ((sync_event false m).bridge.calls
          ≡ Bridge.mask_completion
            ∷ Bridge.start_control tx
            ∷ Bridge.spi_slave_init
            ∷ Bridge.dma_abort_rx
            ∷ Bridge.dma_abort_tx
            ∷ m.bridge.calls)
unfolding sync_event handle_sync begin_ctrl
sync_event-low run m r h =
    let v = Reach-IsExclusive run m r in
    (v.flash_as ∙ h, v.bridge_as ∙ ap not h, refl, (begin_ctrl m.bridge).ctrl_tx, refl)
