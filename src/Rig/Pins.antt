-- ===== src/Rig/Pins.antt =====
-- test_rig/pins.c and the control requests of test_rig/usb.c.
use t2_firmware.Prelude.{
  ℕ, ◌/◌, ◌%◌, ◌^◌, List, [], ◌∷◌, map, Bool, not, ◌==◌, if◌then◌else◌, Option, none, some,
  get_elem?, take,
}
use t2_firmware.Common.Gpio.{Pin, Gpio, pin_analog, pin_low, pin_high, pin_out, pin_in}

abbrev at : (group pin : ℕ) → Pin
at g n = record { group = g; pin = n; mux = 0; chan = 0 }

-- a pin of the converter; its function in the multiplexer is B
abbrev channel : (group pin chan : ℕ) → Pin
channel g n c = record { group = g; pin = n; mux = 1; chan = c }

abbrev pub digital_pins : List Pin
digital_pins =
    at 0 8
    ∷ at 0 9
    ∷ at 0 10
    ∷ at 0 11
    ∷ at 0 22
    ∷ at 0 23
    ∷ at 0 20
    ∷ at 0 21
    ∷ at 0 27
    ∷ at 0 28
    ∷ at 1 30
    ∷ at 1 22
    ∷ at 1 23
    ∷ at 1 17
    ∷ at 0 16
    ∷ at 0 17
    ∷ at 0 18
    ∷ at 0 19
    ∷ at 0 2
    ∷ at 0 12
    ∷ at 0 13
    ∷ at 0 15
    ∷ at 1 12
    ∷ at 1 13
    ∷ at 1 14
    ∷ at 1 15
    ∷ []

abbrev pub analog_pins : List Pin
analog_pins =
    channel 0 6 6
    ∷ channel 1 7 15
    ∷ channel 1 2 10
    ∷ channel 1 9 3
    ∷ channel 0 7 7
    ∷ channel 0 3 1
    ∷ channel 1 4 12
    ∷ channel 1 5 13
    ∷ channel 1 6 14
    ∷ channel 1 8 2
    ∷ channel 0 4 4
    ∷ channel 0 5 5
    ∷ channel 1 0 8
    ∷ channel 1 1 9
    ∷ channel 1 3 11
    ∷ []

-- What the code takes from outside: the level on a pin (a bit of the IN register), the result of the
-- converter for a channel, the text of the version and the size of the control endpoint.
pub record Outside : Type 0 where
  pub wire : Gpio → Pin → Bool
  pub sample : Gpio → (chan : ℕ) → ℕ
  pub version : List ℕ
  pub ep0_size : ℕ

-- how a request is answered; `compatible` is the answer of the USB stack to the request of Microsoft's
-- system, `reset` the empty one after which the watchdog resets the controller
pub data Reply : Type 0 where
  stall compatible reset : Reply
  send : List ℕ → Reply

-- `usb_setup`, by whether its recipient is the device
pub record Request : Type 0 where
  pub to_device : Bool
  pub request : ℕ
  pub value : ℕ
  pub index : ℕ

abbrev pub byte_of : Bool → ℕ
byte_of b = if b then 1 else 0

module _ (o : Outside) where
  abbrev pub pin_read : Gpio → Pin → ℕ
  pin_read g p = byte_of (o.wire g p)

  abbrev reply_level : Pin → Gpio → Gpio × Reply
  reply_level p g = (g, send (pin_read g p ∷ []))

  -- `usb_control_req_digital`, with the pin at the index
  abbrev pub digital_at : Option Pin → (value : ℕ) → Gpio → Gpio × Reply
  digital_at none value g = (g, stall)
  digital_at (some p) value g =
      if value == 0
      then reply_level p (pin_out p (pin_low p g))
      else if value == 1
      then reply_level p (pin_out p (pin_high p g))
      else if value == 2
      then reply_level p (pin_in p g)
      else (g, stall)

  unfoldable pub usb_control_req_digital : (index value : ℕ) → Gpio → Gpio × Reply
  usb_control_req_digital index value g = digital_at (get_elem? digital_pins index) value g

  unfoldable pub usb_control_req_digital_read_all : Gpio → Gpio × Reply
  usb_control_req_digital_read_all g = (g, send (map (pin_read g) digital_pins))

  -- `adc_read`
  abbrev adc_read : Pin → Gpio → Gpio × ℕ
  adc_read p g = let h : Gpio = pin_analog p g in (h, o.sample h p.chan % 2 ^ 16)

  -- `usb_control_req_analog_read`, with the pin at the index
  abbrev pub analog_at : Option Pin → Gpio → Gpio × Reply
  analog_at none g = (g, stall)
  analog_at (some p) g = let (h, val) = adc_read p g in (h, send (val % 2 ^ 8 ∷ val / 2 ^ 8 ∷ []))

  unfoldable pub usb_control_req_analog_read : (index : ℕ) → Gpio → Gpio × Reply
  usb_control_req_analog_read index g = analog_at (get_elem? analog_pins index) g

  unfoldable pub req_info : (index : ℕ) → Reply
  req_info index = if index == 0 then send (take o.ep0_size o.version) else stall

  -- `usb_cb_control_setup`
  unfoldable pub control_setup : Request → Gpio → Gpio × Reply
  unfolding usb_control_req_digital usb_control_req_digital_read_all usb_control_req_analog_read
      req_info
  control_setup s g =
      if not s.to_device
      then (g, stall)
      else if s.request == 0xEE
      then (g, compatible)
      else if s.request == 0x30
      then (g, req_info s.index)
      else if s.request == 1
      then usb_control_req_digital s.index s.value g
      else if s.request == 3
      then usb_control_req_digital_read_all g
      else if s.request == 2
      then usb_control_req_analog_read s.index g
      else if s.request == 0xBB
      then (g, reset)
      else (g, stall)

  -- the pins after some requests
  unfoldable pub run_requests : List Request → Gpio → Gpio
  unfolding control_setup
  run_requests [] g = g
  run_requests (s ∷ ss) g = run_requests ss ((control_setup s g).0)

-- `init_all_digital_pins`
abbrev pub init_pins : List Pin → Gpio → Gpio
init_pins [] g = g
init_pins (p ∷ ps) g = init_pins ps (pin_in p g)

unfoldable pub init_all_digital_pins : Gpio → Gpio
init_all_digital_pins g = init_pins digital_pins g
