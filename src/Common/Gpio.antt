-- ===== src/Common/Gpio.antt =====
-- common/hw.h: the pins of the two groups of the PORT peripheral. Of a pin, the direction register,
-- the output latch and the configuration hold what a `PinConfig` has.
use t2_firmware.Prelude.{
  ℕ, zero, suc, ◌≡◌, ◌≢◌, refl, ap, ◌∙◌, List, [], ◌∷◌, Bool, true, false, not, ◌&&◌, ◌||◌, ◌==◌,
  if◌then◌else◌, some, get_elem?, arith,
}

-- `mux` is the function in the multiplexer, `chan` the channel of the converter
pub record Pin : Type 0 where
  pub group : ℕ
  pub pin : ℕ
  pub mux : ℕ
  pub chan : ℕ

-- DIR, OUT, INEN, PULLEN, PMUXEN and the pin's half of PMUX
pub record PinConfig : Type 0 where
  pub output : Bool
  pub level : Bool
  pub input : Bool
  pub pull : Bool
  pub muxed : Bool
  pub function : ℕ

abbrev pub Gpio : Type 0
Gpio = Pin → PinConfig

-- Pins are told apart by their place only.
abbrev pub same : Pin → Pin → Bool
same p q = (p.group == q.group) && (p.pin == q.pin)

abbrev pub update : Pin → (PinConfig → PinConfig) → Gpio → Gpio
update p f g q = if same p q then f (g q) else g q

abbrev set_mux : ℕ → PinConfig → PinConfig
set_mux f c = record c { function = f; muxed = true }

unfoldable pub pin_mux : Pin → Gpio → Gpio
pin_mux p = update p (set_mux p.mux)

-- the converter's function of every pin is B
unfoldable pub pin_analog : Pin → Gpio → Gpio
pin_analog p = update p (set_mux 1)

unfoldable pub pin_mux_eic : Pin → Gpio → Gpio
pin_mux_eic p = update p (set_mux 0)

unfoldable pub pin_gpio : Pin → Gpio → Gpio
pin_gpio p = update p (λ c. record c { muxed = false })

unfoldable pub pin_dir : Pin → Bool → Gpio → Gpio
pin_dir p out = update p (λ c. record c { output = out })

unfoldable pub pin_set : Pin → Bool → Gpio → Gpio
pin_set p high = update p (λ c. record c { level = high })

unfoldable pub pin_high : Pin → Gpio → Gpio
pin_high p = update p (λ c. record c { level = true })

unfoldable pub pin_low : Pin → Gpio → Gpio
pin_low p = update p (λ c. record c { level = false })

unfoldable pub pin_toggle : Pin → Gpio → Gpio
pin_toggle p = update p (λ c. record c { level = not c.level })

unfoldable pub pin_out : Pin → Gpio → Gpio
unfolding pin_gpio
pin_out p g = update p (λ c. record c { output = true }) (pin_gpio p g)

unfoldable pub pin_in : Pin → Gpio → Gpio
unfolding pin_gpio
pin_in p g = update p (λ c. record c { input = true; output = false }) (pin_gpio p g)

unfoldable pub pin_pull_up : Pin → Gpio → Gpio
unfolding pin_in pin_high
pin_pull_up p g = pin_high p (update p (λ c. record c { pull = true }) (pin_in p g))

unfoldable pub pin_pull_down : Pin → Gpio → Gpio
unfolding pin_in pin_low
pin_pull_down p g = pin_low p (update p (λ c. record c { pull = true }) (pin_in p g))

unfoldable pub pin_float : Pin → Gpio → Gpio
unfolding pin_in
pin_float p g = update p (λ c. record c { pull = false }) (pin_in p g)

pub same_refl : (p : Pin) → same p p ≡ true
same_refl p = ground arith

pub same_sym : (p q : Pin) → same p q ≡ same q p
same_sym p q = ground arith

pub same_trans : (p q r : Pin) → same p q ≡ true → same p r ≡ same q r
same_trans p q r h = ground arith

abbrev pub contains : Pin → List Pin → Bool
contains p [] = false
contains p (q ∷ qs) = same p q || contains p qs

-- No pin stands twice in the list.
abbrev pub distinct : List Pin → Bool
distinct [] = true
distinct (p ∷ ps) = not (contains p ps) && distinct ps

pub get-contains :
    (ps : List Pin) (i : ℕ) (p q : Pin)
    → get_elem? ps i ≡ some q
    → contains p ps ≡ false
    → same p q ≡ false
get-contains [] i p q e h = ground arith
get-contains (r ∷ ps) zero p q e h = ground arith
get-contains (r ∷ ps) (suc i) p q e h = get-contains ps i p q e (ground arith)

pub distinct_lem :
    (ps : List Pin) (i j : ℕ) (p q : Pin)
    → distinct ps ≡ true
    → get_elem? ps i ≡ some p
    → get_elem? ps j ≡ some q
    → i ≢ j
    → same p q ≡ false
distinct_lem [] i j p q d e f h = ground arith
distinct_lem (r ∷ ps) zero zero p q d e f h = absurd (h refl)
distinct_lem (r ∷ ps) zero (suc j) p q d e f h = ground (arith, get-contains ps j r q f)
distinct_lem (r ∷ ps) (suc i) zero p q d e f h =
    ground (arith, get-contains ps i r p e, same_sym p q)
distinct_lem (r ∷ ps) (suc i) (suc j) p q d e f h =
    distinct_lem ps i j p q (ground arith) e f (λ k. h (ap suc k))

-- The two lists have no pin in common.
abbrev pub apart : List Pin → List Pin → Bool
apart [] qs = true
apart (p ∷ ps) qs = not (contains p qs) && apart ps qs

pub apart_lem :
    (ps qs : List Pin) (i j : ℕ) (p q : Pin)
    → apart ps qs ≡ true
    → get_elem? ps i ≡ some p
    → get_elem? qs j ≡ some q
    → same p q ≡ false
apart_lem [] qs i j p q a e f = ground arith
apart_lem (r ∷ ps) qs zero j p q a e f = ground (arith, get-contains qs j r q f)
apart_lem (r ∷ ps) qs (suc i) j p q a e f = apart_lem ps qs i j p q (ground arith) e f

pub contains-get :
    (ps : List Pin) (i : ℕ) (p q : Pin)
    → contains p ps ≡ false
    → get_elem? ps i ≡ some q
    → same q p ≡ false
contains-get ps i p q h e = same_sym q p ∙ get-contains ps i p q e h
