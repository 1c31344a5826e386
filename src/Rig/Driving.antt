-- ===== src/Rig/Driving.antt =====
-- What test_rig/pins.c does to the pins.
use t2_firmware.Prelude.{
  ℕ, zero, suc, ◌≡◌, ◌≢◌, refl, sym, ap, ◌∙◌, List, [], ◌∷◌, Bool, true, false, ◌&&◌, ◌==◌,
  if◌then◌else◌, Option, none, some, get_elem?, arith, ℕ_discrete,
}
use t2_firmware.Common.Gpio.{
  Pin, PinConfig, Gpio, same, pin_analog, pin_low, pin_high, pin_out, pin_in, pin_gpio, contains,
  distinct, distinct_lem, same_refl, contains-get,
}
use t2_firmware.Rig.Pins.{
  digital_pins, analog_pins, Outside, stall, Request, digital_at, analog_at,
  usb_control_req_digital, usb_control_req_digital_read_all, usb_control_req_analog_read, req_info,
  control_setup, run_requests,
}

-- what a pin puts out
pub data Drive : Type 0 where
  floating : Drive
  driven : Bool → Drive

abbrev pub drive : PinConfig → Drive
drive c = if c.output then driven c.level else floating

-- the meaning of a request for the digital pin `i`, with no register
abbrev asked : (value : ℕ) → Drive → Drive
asked zero d = driven false
asked (suc zero) d = driven true
asked (suc (suc zero)) d = floating
asked (suc (suc (suc value))) d = d

abbrev step : (i : ℕ) → Request → Drive → Drive
step i s d = if s.to_device && s.request == 1 && s.index == i then asked s.value d else d

abbrev pub wanted : (i : ℕ) → List Request → Drive → Drive
wanted i [] d = d
wanted i (s ∷ ss) d = wanted i ss (step i s d)

pub some-injective {ℓ} : {A : Type ℓ} (a b : A) → some a ≡ some b → a ≡ b
some-injective a b h = cc

pub none-ne_some {ℓ} : {A : Type ℓ} (a : A) → none ≢ some a
none-ne_some a h = cc

if-yes {ℓ} : {A : Type ℓ} (x y : A) (m n : ℕ) → m ≡ n → (if m == n then x else y) ≡ x
if-yes x y m n h = ground arith

if-no {ℓ} : {A : Type ℓ} (x y : A) (m n : ℕ) → m ≢ n → (if m == n then x else y) ≡ y
if-no x y m n h = ground arith

module _ (o : Outside) where
  digital_at-drive :
      (p : Pin) (v : ℕ) (g : Gpio) → drive ((digital_at o (some p) v g).0 p) ≡ asked v (drive (g p))
  unfolding pin_low pin_high pin_out pin_in pin_gpio
  digital_at-drive p zero g = ground (arith, same_refl p)
  digital_at-drive p (suc zero) g = ground (arith, same_refl p)
  digital_at-drive p (suc (suc zero)) g = ground (arith, same_refl p)
  digital_at-drive p (suc (suc (suc v))) g = ground arith

  digital_at-keeps :
      (p q : Pin) (v : ℕ) (g : Gpio) → same p q ≡ false → (digital_at o (some p) v g).0 q ≡ g q
  unfolding pin_low pin_high pin_out pin_in pin_gpio
  digital_at-keeps p q v g h = ground (arith, h)

  analog_at-drive :
      (op : Option Pin) (g : Gpio) (q : Pin) → drive ((analog_at o op g).0 q) ≡ drive (g q)
  unfolding pin_analog
  analog_at-drive none g q = refl
  analog_at-drive (some p) g q = ground arith

  -- the effect of a digital request on the pin `i`
  digital_at-pin :
      (ps : List Pin) (i index v : ℕ) (p : Pin) (op : Option Pin) (g : Gpio)
      → distinct ps ≡ true
      → get_elem? ps i ≡ some p
      → get_elem? ps index ≡ op
      → drive ((digital_at o op v g).0 p)
        ≡ (if index == i then asked v (drive (g p)) else drive (g p))
  digital_at-pin ps i index v p none g d e f =
      sym (if-no _ _ index i (λ k. none-ne_some p (sym f ∙ ap (get_elem? ps) k ∙ e)))
  digital_at-pin ps i index v p (some q) g d e f = elim (ℕ_discrete index i) [
    | yes k ↦
        ap (λ (r : Pin). drive ((digital_at o (some r) v g).0 p))
          (some-injective q p (sym f ∙ ap (get_elem? ps) k ∙ e))
        ∙ digital_at-drive p v g
        ∙ sym (if-yes _ _ index i k)
    | no k ↦
        ap drive (digital_at-keeps q p v g (distinct_lem ps index i q p d f e k))
        ∙ sym (if-no _ _ index i k)
  ]

  control_setup-drive :
      (s : Request) (i : ℕ) (p : Pin) (g : Gpio)
      → get_elem? digital_pins i ≡ some p
      → drive ((control_setup o s g).0 p) ≡ step i s (drive (g p))
  unfolding control_setup usb_control_req_digital usb_control_req_digital_read_all
      usb_control_req_analog_read
  control_setup-drive s i p g e =
      let d =
        digital_at-pin digital_pins i s.index s.value p (get_elem? digital_pins s.index) g refl e
          refl in
      let a = analog_at-drive (get_elem? analog_pins s.index) g p in ground (arith, d, a)

  -- After any requests, each digital pin puts out what the latest request for it wanted, whatever the
  -- other requests were.
  pub run_requests-drive :
      (ss : List Request) (i : ℕ) (p : Pin) (g : Gpio)
      → get_elem? digital_pins i ≡ some p
      → drive (run_requests o ss g p) ≡ wanted i ss (drive (g p))
  unfolding run_requests
  run_requests-drive [] i p g e = refl
  run_requests-drive (s ∷ ss) i p g e =
      run_requests-drive ss i p (control_setup o s g).0 e
      ∙ ap (wanted i ss) (control_setup-drive s i p g e)

  digital_at-stall :
      (op : Option Pin) (v : ℕ) (g : Gpio)
      → (digital_at o op v g).1 ≡ stall
      → (digital_at o op v g).0 ≡ g
  digital_at-stall none v g h = refl
  digital_at-stall (some p) v g h = ground (arith, h)

  analog_at-stall :
      (op : Option Pin) (g : Gpio) → (analog_at o op g).1 ≡ stall → (analog_at o op g).0 ≡ g
  analog_at-stall none g h = refl
  analog_at-stall (some p) g h = ground (arith, h)

  -- A refused request changes no pin.
  pub control_setup-stall :
      (s : Request) (g : Gpio) → (control_setup o s g).1 ≡ stall → (control_setup o s g).0 ≡ g
  unfolding control_setup usb_control_req_digital usb_control_req_digital_read_all
      usb_control_req_analog_read req_info
  control_setup-stall s g h =
      let d = digital_at-stall (get_elem? digital_pins s.index) s.value g in
      let a = analog_at-stall (get_elem? analog_pins s.index) g in ground (arith, h, d, a)

  digital_at-table :
      (ps : List Pin) (index v : ℕ) (p : Pin) (op : Option Pin) (g : Gpio)
      → contains p ps ≡ false
      → get_elem? ps index ≡ op
      → (digital_at o op v g).0 p ≡ g p
  digital_at-table ps index v p none g d e = refl
  digital_at-table ps index v p (some q) g d e =
      digital_at-keeps q p v g (contains-get ps index p q d e)

  analog_at-table :
      (ps : List Pin) (index : ℕ) (p : Pin) (op : Option Pin) (g : Gpio)
      → contains p ps ≡ false
      → get_elem? ps index ≡ op
      → (analog_at o op g).0 p ≡ g p
  unfolding pin_analog
  analog_at-table ps index p none g d e = refl
  analog_at-table ps index p (some q) g d e = ground (arith, contains-get ps index p q d e)

  control_setup-keeps :
      (s : Request) (p : Pin) (g : Gpio)
      → contains p digital_pins ≡ false
      → contains p analog_pins ≡ false
      → (control_setup o s g).0 p ≡ g p
  unfolding control_setup usb_control_req_digital usb_control_req_digital_read_all
      usb_control_req_analog_read
  control_setup-keeps s p g d a =
      let h =
        digital_at-table digital_pins s.index s.value p (get_elem? digital_pins s.index) g d refl in
      let k = analog_at-table analog_pins s.index p (get_elem? analog_pins s.index) g a refl in
      ground (arith, h, k)

  -- A pin that is in neither table, like that of the button, is as before any requests.
  pub run_requests-keeps :
      (ss : List Request) (p : Pin) (g : Gpio)
      → contains p digital_pins ≡ false
      → contains p analog_pins ≡ false
      → run_requests o ss g p ≡ g p
  unfolding run_requests
  run_requests-keeps [] p g d a = refl
  run_requests-keeps (s ∷ ss) p g d a =
      run_requests-keeps ss p (control_setup o s g).0 d a ∙ control_setup-keeps s p g d a
