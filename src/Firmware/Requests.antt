-- ===== src/Firmware/Requests.antt =====
-- firmware/usb.c: the vendor requests on the control endpoint. The calls are a list, the latest
-- first.
use t2_firmware.Prelude.{
  ℕ, ◌+◌, ◌≡◌, ◌⊎◌, inl, refl, arith, List, [], ◌∷◌, Bool, true, false, not, ◌&&◌, ltb, ◌==◌,
  if◌then◌else◌, bit_and,
}

-- whom `bmRequestType` names
pub data Recipient : Type 0 where
  to_device to_interface to_other : Recipient

-- `usb_setup`
pub record Setup : Type 0 where
  pub recipient : Recipient
  pub request : ℕ
  pub value : ℕ
  pub index : ℕ
  pub length : ℕ

-- What the code takes from outside: USB_EP0_SIZE, the length of the version that the build writes,
-- and the `dwLength` of the two Microsoft descriptors.
pub record Consts : Type 0 where
  pub ep0_size : ℕ
  pub version_len : ℕ
  pub compatible_len : ℕ
  pub extended_len : ℕ

pub data Line : Type 0 where
  soc_rst soc_pwr power_a power_b led : Line
  gpio_a gpio_b : ℕ → Line

pub data Call : Type 0 where
  pin_in pin_low : Line → Call
  pin_dir pin_set : Line → Bool → Call
  write_ep0 : ℕ → Call
  wdt_reset sys_reset : Call
  ep0_stall ep0_out : Call
  ep0_in : (len : ℕ) → Call

abbrev is_set : ℕ → Bool
is_set n = not (n == 0)

-- the two calls that accept a request and answer it with `len` bytes
abbrev pub answer : ℕ → List Call → List Call
answer len cs = ep0_in len ∷ ep0_out ∷ cs

-- a port's pin: an input for 2, and else an output
abbrev pub set_gpio : Line → ℕ → List Call → List Call
set_gpio l value cs =
    if value == 2 then pin_in l ∷ cs else pin_set l (is_set value) ∷ pin_dir l true ∷ cs

-- the switch of `req_gpio`
unfoldable pub switch_power : ℕ → ℕ → List Call → List Call
switch_power index value cs =
    if index == 0x0
    then answer 0 (pin_dir soc_rst (not (is_set value)) ∷ pin_low soc_rst ∷ cs)
    else if index == 0x1
    then answer 0 (pin_set soc_pwr (is_set value) ∷ cs)
    else if index == 0x10
    then answer 0 (pin_set power_a (is_set value) ∷ cs)
    else if index == 0x11
    then answer 0 (pin_set power_b (is_set value) ∷ cs)
    else if index == 0x20
    then answer 0 (pin_set led (is_set value) ∷ cs)
    else ep0_stall ∷ cs

-- `req_gpio`
unfoldable pub req_gpio : ℕ → ℕ → List Call → List Call
unfolding switch_power
req_gpio index value cs =
    if bit_and index 0xF0 == 0x40 && ltb (bit_and index 0x0F) 8
    then answer 0 (set_gpio (gpio_a (bit_and index 0x7)) value cs)
    else if bit_and index 0xF0 == 0x50 && ltb (bit_and index 0x0F) 8
    then answer 0 (set_gpio (gpio_b (bit_and index 0x7)) value cs)
    else switch_power index value cs

abbrev capped : ℕ → ℕ → ℕ
capped len limit = if ltb limit len then limit else len

-- `req_info`
unfoldable pub req_info : Consts → ℕ → List Call → List Call
req_info k index cs =
    if index == 0x0 then answer (capped k.version_len k.ep0_size) cs else ep0_stall ∷ cs

-- `handle_msft_compatible`; `usb_ep_start_in` on endpoint 0 comes before `usb_ep0_out`
unfoldable pub msft_compatible : Consts → Setup → List Call → List Call
msft_compatible k s cs =
    if s.index == 0x5
    then ep0_out ∷ ep0_in (capped k.extended_len s.length) ∷ cs
    else if s.index == 0x4
    then ep0_out ∷ ep0_in (capped k.compatible_len s.length) ∷ cs
    else ep0_stall ∷ cs

abbrev req_boot : List Call → List Call
req_boot cs = answer 0 (wdt_reset ∷ cs)

abbrev req_reset : List Call → List Call
req_reset cs = sys_reset ∷ answer 0 cs

abbrev req_boot_status : Bool → List Call → List Call
req_boot_status booted cs = answer 1 (write_ep0 (if booted then 1 else 0) ∷ cs)

-- the requests to the device: `booted` is the global
unfoldable pub device_request : Consts → Bool → Setup → List Call → List Call
unfolding msft_compatible req_gpio req_info
device_request k booted s cs =
    if s.request == 0xEE
    then msft_compatible k s cs
    else if s.request == 0x10
    then req_gpio s.index s.value cs
    else if s.request == 0x30
    then req_info k s.index cs
    else if s.request == 0xBB
    then req_boot cs
    else if s.request == 0xBD
    then req_reset cs
    else if s.request == 0xBC
    then req_boot_status booted cs
    else ep0_stall ∷ cs

-- `usb_cb_control_setup`
unfoldable pub control_by : Recipient → Consts → Bool → Setup → List Call → List Call
unfolding device_request msft_compatible
control_by to_device k booted s cs = device_request k booted s cs
control_by to_interface k booted s cs =
    if s.request == 0xEE then msft_compatible k s cs else ep0_stall ∷ cs
control_by to_other k booted s cs = ep0_stall ∷ cs

unfoldable pub control_setup : Consts → Bool → Setup → List Call → List Call
unfolding control_by
control_setup k booted s cs = control_by s.recipient k booted s cs

-- how often a request was refused, accepted and answered
abbrev pub stalls : List Call → ℕ
stalls [] = 0
stalls (ep0_stall ∷ cs) = stalls cs + 1
stalls (_ ∷ cs) = stalls cs

abbrev pub outs : List Call → ℕ
outs [] = 0
outs (ep0_out ∷ cs) = outs cs + 1
outs (_ ∷ cs) = outs cs

abbrev pub ins : List Call → ℕ
ins [] = 0
ins (ep0_in len ∷ cs) = ins cs + 1
ins (_ ∷ cs) = ins cs

-- One request more is refused, or one more accepted and answered.
abbrev pub IsAnswered : (before after : List Call) → Type 0
IsAnswered cs ds =
    ((stalls ds ≡ stalls cs + 1) × (outs ds ≡ outs cs) × (ins ds ≡ ins cs))
    ⊎ ((stalls ds ≡ stalls cs) × (outs ds ≡ outs cs + 1) × (ins ds ≡ ins cs + 1))

if-IsAnswered :
    (cs : List Call) (b : Bool) (xs ys : List Call)
    → IsAnswered cs xs
    → IsAnswered cs ys
    → IsAnswered cs (if b then xs else ys)
if-IsAnswered cs true xs ys h k = h
if-IsAnswered cs false xs ys h k = k

set_gpio-IsAnswered :
    (l : Line) (value : ℕ) (cs : List Call) → IsAnswered cs (answer 0 (set_gpio l value cs))
set_gpio-IsAnswered l value cs = ground arith

switch_power-IsAnswered :
    (index value : ℕ) (cs : List Call) → IsAnswered cs (switch_power index value cs)
unfolding switch_power
switch_power-IsAnswered index value cs = ground arith

req_gpio-IsAnswered : (index value : ℕ) (cs : List Call) → IsAnswered cs (req_gpio index value cs)
unfolding req_gpio
req_gpio-IsAnswered index value cs =
    if-IsAnswered cs (bit_and index 0xF0 == 0x40 && ltb (bit_and index 0x0F) 8) _ _
      (set_gpio-IsAnswered (gpio_a (bit_and index 0x7)) value cs)
      (if-IsAnswered cs (bit_and index 0xF0 == 0x50 && ltb (bit_and index 0x0F) 8) _ _
        (set_gpio-IsAnswered (gpio_b (bit_and index 0x7)) value cs)
        (switch_power-IsAnswered index value cs))

msft_compatible-IsAnswered :
    (k : Consts) (s : Setup) (cs : List Call) → IsAnswered cs (msft_compatible k s cs)
unfolding msft_compatible
msft_compatible-IsAnswered k s cs = ground arith

req_info-IsAnswered :
    (k : Consts) (index : ℕ) (cs : List Call) → IsAnswered cs (req_info k index cs)
unfolding req_info
req_info-IsAnswered k index cs = ground arith

device_request-IsAnswered :
    (k : Consts) (booted : Bool) (s : Setup) (cs : List Call)
    → IsAnswered cs (device_request k booted s cs)
unfolding device_request
device_request-IsAnswered k booted s cs =
    if-IsAnswered cs (s.request == 0xEE) _ _ (msft_compatible-IsAnswered k s cs) (
      if-IsAnswered cs (s.request == 0x10) _ _ (req_gpio-IsAnswered s.index s.value cs) (
        if-IsAnswered cs (s.request == 0x30) _ _ (req_info-IsAnswered k s.index cs) (ground arith)))

control_by-IsAnswered :
    (r : Recipient) (k : Consts) (booted : Bool) (s : Setup) (cs : List Call)
    → IsAnswered cs (control_by r k booted s cs)
unfolding control_by
control_by-IsAnswered to_device k booted s cs = device_request-IsAnswered k booted s cs
control_by-IsAnswered to_interface k booted s cs =
    if-IsAnswered cs (s.request == 0xEE) _ _ (msft_compatible-IsAnswered k s cs)
      (inl (refl, refl, refl))
control_by-IsAnswered to_other k booted s cs = inl (refl, refl, refl)

-- Every control request, known or not, is refused once, or else accepted once and answered once.
pub control_setup-IsAnswered :
    (k : Consts) (booted : Bool) (s : Setup) (cs : List Call)
    → IsAnswered cs (control_setup k booted s cs)
unfolding control_setup
control_setup-IsAnswered k booted s cs = control_by-IsAnswered s.recipient k booted s cs
