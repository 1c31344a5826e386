-- ===== src/Port/Analog.antt =====
-- CMD_ANALOG_READ of firmware/port.c, which stores its three reply bytes without a check.
use t2_firmware.Prelude.{◌+◌, ◌%◌, ◌≤◌, ◌≡◌, arith}
use t2_firmware.Port.{PortData, Config, Hw, analog_read, decode, arg_at, push_reply}
use t2_firmware.Port.Begin.{begin_cmd, begin_by, begin_analog_read}

module _ (c : Config) (hw : Hw) (p : PortData) (k : decode p.cmd ≡ analog_read) where
  -- Where the reply buffer has 254 bytes, CMD_ANALOG_READ overwrites the bridge channel of the port
  -- with the low byte of the reading, and the reply starts again after one byte.
  pub analog_read_overflows :
      p.reply_len ≡ 254
      → ((begin_cmd c hw p).0.chan ≡ hw.adc p.calls (arg_at p 0 % 8) % 256)
        × ((begin_cmd c hw p).0.reply_len ≡ 1)
  unfolding begin_cmd begin_by begin_analog_read push_reply
  analog_read_overflows h = ground arith

  -- Where the reply buffer has room for three bytes, CMD_ANALOG_READ appends three and keeps the
  -- channel.
  pub analog_read_fits :
      p.reply_len ≤ 252
      → ((begin_cmd c hw p).0.chan ≡ p.chan) × ((begin_cmd c hw p).0.reply_len ≡ p.reply_len + 3)
  unfolding begin_cmd begin_by begin_analog_read push_reply
  analog_read_fits h = ground arith
