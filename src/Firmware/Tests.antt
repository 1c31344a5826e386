-- ===== src/Firmware/Tests.antt =====
-- The theorems of firmware/usb.c and firmware/main.c at concrete inputs.
use t2_firmware.Prelude.{
  ℕ, ◌-◌, ◌*◌, ◌+◌, ◌/◌, ◌≡◌, refl, arith, [], ◌∷◌, true, false, none, some, replicate,
}
use t2_firmware.Channel.{PerChan}
use t2_firmware.Bridge
use t2_firmware.Bridge.{Bridge, ControlPkt, Callback}
use t2_firmware.Flash
use t2_firmware.Flash.{Flash}
use t2_firmware.UsbPipe
use t2_firmware.Firmware.{Mcu, Pending, set_interface, usb_completion, sync_event}
use t2_firmware.Firmware.Exclusive.{
  Reach, started, chosen, completed, synced, IsExclusive, Reach-IsExclusive, sync_event-low,
  bridge_on, flash_on,
}
use t2_firmware.Firmware.Requests.{
  Setup, to_device, Consts, control_setup, ep0_in, ep0_out, pin_set, pin_dir, gpio_b, IsAnswered,
  control_setup-IsAnswered,
}
use t2_firmware.Firmware.Led.{max_counter, point, IsBetween, interpolate, interpolate-IsBetween}

abbrev no_bytes : PerChan ℕ
no_bytes = record { c0 = 0; c1 = 0; c2 = 0 }

abbrev fresh : Mcu
fresh = record {
  bridge = record {
    state = Bridge.idle;
    was_open = 0;
    ctrl_rx = record { cmd = 0; status = 0; size = no_bytes };
    ctrl_tx = record { cmd = 0; status = 0; size = no_bytes };
    in_chan_ptr = no_bytes;
    in_chan_size = no_bytes;
    out_chan_ptr = no_bytes;
    out_chan_ready = 0;
    booted = false;
    irq = false;
    calls = [];
  };
  flash = record {
    buffer = replicate 512 0;
    in_count = 0;
    out_count = 0;
    flag_sr_poll = false;
    flag_wren = false;
    byte = 0;
    state = Flash.disable;
    calls = [];
  };
  pipe = UsbPipe.boot;
  serial = record {
    active = false;
    sending = false;
    filling = false;
    in_buf = false;
    in_len = 0;
    calls = [];
  };
  altsetting = 0;
  breathing = true;
}

keep : Callback → Bridge → Bridge
keep c s = s

-- a SYNC edge, then the flash setting and a packet for it
packet_done : Pending
packet_done = record { bulk_out = some 8; bulk_in = false; cdc_out = none; cdc_in = false }

abbrev in_flash : Mcu
in_flash = usb_completion packet_done (set_interface 0 1 (sync_event false fresh)).1

in_flash-reached : Reach keep in_flash
in_flash-reached =
    completed (set_interface 0 1 (sync_event false fresh)).1 packet_done
      (chosen (sync_event false fresh) 0 1 (synced fresh false refl (started fresh refl refl refl)))

Reach-IsExclusive_example : IsExclusive in_flash
Reach-IsExclusive_example = Reach-IsExclusive keep in_flash in_flash-reached

sync_event-low_example :
    (flash_on (sync_event false in_flash).flash.state ≡ true)
    × (bridge_on in_flash.bridge.state ≡ false)
    × (bridge_on (sync_event false in_flash).bridge.state ≡ true)
    × (tx : ControlPkt) × ((sync_event false in_flash).bridge.calls
        ≡ Bridge.mask_completion
          ∷ Bridge.start_control tx
          ∷ Bridge.spi_slave_init
          ∷ Bridge.dma_abort_rx
          ∷ Bridge.dma_abort_tx
          ∷ in_flash.bridge.calls)
unfolding usb_completion set_interface
sync_event-low_example = sync_event-low keep in_flash in_flash-reached refl

interpolate-IsBetween_example :
    (interpolate 4100 ≡ ((max_counter - 64) * point 1 + 64 * point 2) / max_counter)
    × IsBetween (point 1) (point 2) (interpolate 4100)
interpolate-IsBetween_example = interpolate-IsBetween 4100 1 64 (omega arith) (omega arith) refl

-- a request to make pin 3 of port B high
abbrev raise_pin : Setup
raise_pin = record { recipient = to_device; request = 0x10; value = 1; index = 0x53; length = 0 }

abbrev consts : Consts
consts = record { ep0_size = 64; version_len = 40; compatible_len = 88; extended_len = 146 }

control_setup_test :
    control_setup consts true raise_pin []
    ≡ ep0_in 0 ∷ ep0_out ∷ pin_set (gpio_b 3) true ∷ pin_dir (gpio_b 3) true ∷ []
unfolding control_setup
control_setup_test = refl

control_setup-IsAnswered_example : IsAnswered [] (control_setup consts true raise_pin [])
control_setup-IsAnswered_example = control_setup-IsAnswered consts true raise_pin []
