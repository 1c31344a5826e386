-- ===== src/Rig/Levels.antt =====
-- test_rig/pins.c: what the test rig reads back.
use t2_firmware.Prelude.{
  ℕ, zero, suc, ◌≡◌, refl, ap, subst, ◌∙◌, List, [], ◌∷◌, map, Bool, true, false, not, ◌&&◌, Option,
  none, some, get_elem?, arith,
}
use t2_firmware.Common.Gpio.{
  Pin, PinConfig, Gpio, pin_analog, pin_low, pin_high, pin_out, pin_in, pin_gpio, same_refl,
  same_sym, apart, apart_lem,
}
use t2_firmware.Rig.Pins.{
  digital_pins, analog_pins, Outside, Reply, send, Request, byte_of, pin_read, digital_at,
  analog_at, usb_control_req_digital, usb_control_req_digital_read_all, usb_control_req_analog_read,
  control_setup, run_requests, init_pins, init_all_digital_pins,
}
use t2_firmware.Rig.Driving.{
  drive, floating, driven, wanted, run_requests-drive, some-injective, none-ne_some,
}

-- On a pin that is put out and whose input is on, the level is that of the output latch, as long as
-- nothing outside forces another one.
abbrev pub IsWired : Outside → Type 0
IsWired o =
    (g : Gpio) (p : Pin)
    → (g p).output ≡ true
    → (g p).input ≡ true
    → (g p).muxed ≡ false
    → o.wire g p ≡ (g p).level

-- The input is on, and the pin is not in the hands of a peripheral.
abbrev ready : PinConfig → Bool
ready c = c.input && not c.muxed

abbrev released : PinConfig → Bool
released c = ready c && not c.output

pin_in-released : (p q : Pin) (g : Gpio) → released (g p) ≡ true → released (pin_in q g p) ≡ true
unfolding pin_in pin_gpio
pin_in-released p q g h = ground (arith, h)

pin_in_self : (p : Pin) (g : Gpio) → released (pin_in p g p) ≡ true
unfolding pin_in pin_gpio
pin_in_self p g = ground (arith, same_refl p)

init_pins-keeps :
    (ps : List Pin) (p : Pin) (g : Gpio)
    → released (g p) ≡ true
    → released (init_pins ps g p) ≡ true
init_pins-keeps [] p g h = h
init_pins-keeps (q ∷ ps) p g h = init_pins-keeps ps p (pin_in q g) (pin_in-released p q g h)

init_pins-released :
    (ps : List Pin) (i : ℕ) (p : Pin) (g : Gpio)
    → get_elem? ps i ≡ some p
    → released (init_pins ps g p) ≡ true
init_pins-released [] i p g e = ground arith
init_pins-released (q ∷ ps) zero p g e =
    init_pins-keeps ps p (pin_in q g)
      (subst (λ (r : Pin). released (pin_in q g r) ≡ true) (some-injective q p e) (pin_in_self q g))
init_pins-released (q ∷ ps) (suc i) p g e = init_pins-released ps i p (pin_in q g) e

get_elem?-map {ℓ μ} :
    {A : Type ℓ} {B : Type μ} (f : A → B) (xs : List A) (i : ℕ) (a : A)
    → get_elem? xs i ≡ some a
    → get_elem? (map f xs) i ≡ some (f a)
get_elem?-map f [] i a e = absurd (none-ne_some a e)
get_elem?-map f (x ∷ xs) zero a e = ap (λ y. some (f y)) (some-injective x a e)
get_elem?-map f (x ∷ xs) (suc i) a e = get_elem?-map f xs i a e

-- the `i`-th byte of an answer
abbrev pub byte_at : Reply → ℕ → Option ℕ
byte_at (send xs) i = get_elem? xs i
byte_at _ i = none

abbrev pub read_all : Request
read_all = record { to_device = true; request = 3; value = 0; index = 0 }

module _ (o : Outside) where
  digital_at-ready :
      (op : Option Pin) (v : ℕ) (p : Pin) (g : Gpio)
      → ready (g p) ≡ true
      → ready ((digital_at o op v g).0 p) ≡ true
  unfolding pin_low pin_high pin_out pin_in pin_gpio
  digital_at-ready none v p g h = h
  digital_at-ready (some q) v p g h = ground (arith, h)

  analog_at-ready :
      (ps qs : List Pin) (i index : ℕ) (op : Option Pin) (p : Pin) (g : Gpio)
      → apart ps qs ≡ true
      → get_elem? ps i ≡ some p
      → get_elem? qs index ≡ op
      → ready (g p) ≡ true
      → ready ((analog_at o op g).0 p) ≡ true
  unfolding pin_analog
  analog_at-ready ps qs i index none p g a e f h = h
  analog_at-ready ps qs i index (some q) p g a e f h =
      ground (arith, apart_lem ps qs i index p q a e f, same_sym p q, h)

  control_setup-ready :
      (s : Request) (i : ℕ) (p : Pin) (g : Gpio)
      → get_elem? digital_pins i ≡ some p
      → ready (g p) ≡ true
      → ready ((control_setup o s g).0 p) ≡ true
  unfolding control_setup usb_control_req_digital usb_control_req_digital_read_all
      usb_control_req_analog_read
  control_setup-ready s i p g e h =
      let d = digital_at-ready (get_elem? digital_pins s.index) s.value p g h in
      let a =
        analog_at-ready digital_pins analog_pins i s.index (get_elem? analog_pins s.index) p g refl
          e refl h in
      ground (arith, d, a, h)

  run_requests-ready :
      (ss : List Request) (i : ℕ) (p : Pin) (g : Gpio)
      → get_elem? digital_pins i ≡ some p
      → ready (g p) ≡ true
      → ready (run_requests o ss g p) ≡ true
  unfolding run_requests
  run_requests-ready [] i p g e h = h
  run_requests-ready (s ∷ ss) i p g e h =
      run_requests-ready ss i p (control_setup o s g).0 e (control_setup-ready s i p g e h)

  driven-wire :
      (g : Gpio) (p : Pin) (b : Bool)
      → IsWired o
      → drive (g p) ≡ driven b
      → ready (g p) ≡ true
      → o.wire g p ≡ b
  driven-wire g p b w d h =
      w g p (ground (arith, d)) (ground (arith, h)) (ground (arith, h)) ∙ ground (arith, d)

  -- After the start and any requests, the request for all pins answers, for each pin that the
  -- latest request for it put out, the level that this request asked for.
  pub read_all-driven :
      (ss : List Request) (i : ℕ) (p : Pin) (b : Bool) (g : Gpio)
      → IsWired o
      → get_elem? digital_pins i ≡ some p
      → wanted i ss floating ≡ driven b
      → byte_at (control_setup o read_all (run_requests o ss (init_all_digital_pins g))).1 i
        ≡ some (byte_of b)
  unfolding control_setup usb_control_req_digital_read_all init_all_digital_pins
  read_all-driven ss i p b g w e h =
      let start : Gpio = init_pins digital_pins g in
      let c : released (start p) ≡ true = init_pins-released digital_pins i p g e in
      let t : Gpio = run_requests o ss start in
      let r : ready (t p) ≡ true = run_requests-ready ss i p start e (ground (arith, c)) in
      let d : drive (t p) ≡ driven b =
        run_requests-drive o ss i p start e
        ∙ ap (wanted i ss) (released-floating (start p) c)
        ∙ h in
      get_elem?-map (pin_read o t) digital_pins i p e
      ∙ ap (λ (x : Bool). some (byte_of x)) (driven-wire t p b w d r)
    where
      released-floating : (c : PinConfig) → released c ≡ true → drive c ≡ floating
      released-floating c h = ground (arith, h)
