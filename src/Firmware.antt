-- ===== src/Firmware.antt =====
-- firmware/usb.c and firmware/main.c: the alternate settings of the USB interface, which choose
-- between the bridge and the flash, and the interrupts that both share. A part keeps the calls that
-- it makes into another in its own `calls`.
pub mod Exclusive
pub mod Led
pub mod Requests
pub mod Ports
mod Tests
use t2_firmware.Prelude.{
  ℕ, Bool, true, false, not, ◌&&◌, Option, none, some, ltb, ◌==◌, if◌then◌else◌,
}
use t2_firmware.Bridge
use t2_firmware.Bridge.{Bridge, Callback, handle_sync}
use t2_firmware.Flash
use t2_firmware.Flash.{Flash}
use t2_firmware.UsbPipe
use t2_firmware.UsbPipe.{UsbPipe}
use t2_firmware.UsbSerial
use t2_firmware.UsbSerial.{Serial}

-- the animation of the power LED is on or off
pub record Mcu : Type 0 where
  pub bridge : Bridge
  pub flash : Flash
  pub pipe : UsbPipe
  pub serial : Serial
  pub altsetting : ℕ
  pub breathing : Bool

-- ALTSETTING_FLASH and ALTSETTING_PIPE
abbrev pub is_flash : ℕ → Bool
is_flash n = n == 1

abbrev pub is_pipe : ℕ → Bool
is_pipe n = n == 2

-- the end of the old setting
unfoldable pub leave : Mcu → Mcu
leave m =
    if is_flash m.altsetting
    then record m { flash = Flash.shut_down m.flash; breathing = true }
    else if is_pipe m.altsetting
    then record m { pipe = UsbPipe.shut_down m.pipe }
    else m

unfoldable pub switch_bridge : ℕ → Mcu → Mcu
switch_bridge new m =
    if not (is_flash m.altsetting) && is_flash new
    then record m { bridge = Bridge.disable_bridge m.bridge }
    else if is_flash m.altsetting && not (is_flash new)
    then record m { bridge = Bridge.init m.bridge }
    else m

-- the start of the new setting
unfoldable pub enter : ℕ → Mcu → Mcu
enter new m =
    if is_flash new
    then record m { breathing = false; flash = Flash.init m.flash }
    else if m.bridge.booted && is_pipe new
    then record m { pipe = UsbPipe.init m.pipe }
    else m

-- `usb_cb_set_interface`, with the answer to the host
unfoldable pub set_interface : (interface new : ℕ) → Mcu → Bool × Mcu
unfolding leave switch_bridge enter
set_interface interface new m =
    if interface == 0
    then (if ltb 2 new
        then (false, m)
        else (true, record (enter new (switch_bridge new (leave m))) { altsetting = new }))
    else (false, m)

-- the endpoints that `usb_ep_pending` reports; an OUT endpoint with the length of its packet
pub record Pending : Type 0 where
  pub bulk_out : Option ℕ
  pub bulk_in : Bool
  pub cdc_out : Option ℕ
  pub cdc_in : Bool

abbrev pub on_packet {ℓ} : {A : Type ℓ} → (ℕ → A → A) → Option ℕ → A → A
on_packet f none a = a
on_packet f (some len) a = f len a

unfoldable pub bulk_completion : Pending → Mcu → Mcu
bulk_completion u m =
    if is_flash m.altsetting
    then (let f = on_packet Flash.usb_out_completion u.bulk_out m.flash in
        record m { flash = if u.bulk_in then Flash.usb_in_completion f else f })
    else if is_pipe m.altsetting
    then (let p = on_packet UsbPipe.usb_out_completion u.bulk_out m.pipe in
        record m { pipe = if u.bulk_in then UsbPipe.usb_in_completion p else p })
    else m

-- `usb_cb_completion`
unfoldable pub usb_completion : Pending → Mcu → Mcu
unfolding bulk_completion
usb_completion u m =
    let n = bulk_completion u m in
    let t = on_packet UsbSerial.out_completion u.cdc_out n.serial in
    record n { serial = if u.cdc_in then UsbSerial.in_completion t else t }

-- `DMAC_Handler` for DMA_BRIDGE_RX, the channel that the bridge and the flash share; `run` is what
-- a callback of the bridge does
unfoldable pub bridge_dma : (Callback → Bridge → Bridge) → Mcu → Mcu
bridge_dma run m = record m {
  bridge = Bridge.dma_rx_completion run m.bridge;
  flash = Flash.dma_rx_completion m.flash;
}

-- `EVSYS_Handler`; `level` is the SYNC pin
unfoldable pub sync_event : (level : Bool) → Mcu → Mcu
sync_event level m = record m { bridge = handle_sync level m.bridge }
