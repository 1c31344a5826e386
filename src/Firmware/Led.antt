-- ===== src/Firmware/Led.antt =====
-- firmware/main.c: the power LED's animation while the SoC boots.
use t2_firmware.Prelude.{
  ℕ, zero, suc, ◌+◌, ◌-◌, ◌*◌, ◌/◌, ◌%◌, ◌^◌, ◌≤◌, ◌<◌, ◌≡◌, List, [], ◌∷◌, get_or, min, arith, sym,
  ap, ap₂, subst, ◌∙◌, max, dec_lt,
}
use native.Mathlib.Nat.{add-mul, mul-le-mul_left}

abbrev pub max_counter : ℕ
max_counter = 65536

-- `sin_wave_points`
abbrev pub sin_wave_points : List ℕ
sin_wave_points =
    32767 ∷ 45307 ∷ 55937 ∷ 63040 ∷ 65535 ∷ 63040 ∷ 55937 ∷ 45307 ∷ 32767 ∷ 20227 ∷ 9597 ∷ 2494 ∷ 0
    ∷ 2494 ∷ 9597 ∷ 20227 ∷ []

abbrev pub point : ℕ → ℕ
point i = get_or sin_wave_points i 0

-- the slice of a position, and how far it is in the slice
abbrev pub slice : ℕ → ℕ
slice position = (position * 16 % 2 ^ 32) / max_counter % 2 ^ 8

abbrev pub next_slice : ℕ → ℕ
next_slice i = (i + 1) % 16

abbrev pub between : ℕ → ℕ
between position = (position * 16 % 2 ^ 32) % max_counter

-- `interpolate`, in 32-bit arithmetic
unfoldable pub interpolate : ℕ → ℕ
interpolate position =
    let i : ℕ = slice position in
    let b : ℕ = between position in
    (((max_counter - b) * point i % 2 ^ 32) + (b * point (next_slice i) % 2 ^ 32))
    % 2 ^ 32
    / max_counter

-- the step of `counter` in `TCC1_Handler`
unfoldable pub tick : ℕ → ℕ
tick counter = (counter + max_counter / 1000 * max_counter / 48000) % 2 ^ 16

abbrev AllLe : ℕ → List ℕ → Type 0
AllLe n [] = Unit {0}
AllLe n (x ∷ l) = (x ≤ n) × AllLe n l

get_or-le : (n : ℕ) (l : List ℕ) (i : ℕ) → AllLe n l → get_or l i 0 ≤ n
get_or-le n [] i a = omega arith
get_or-le n (x ∷ l) zero a = a.0
get_or-le n (x ∷ l) (suc i) a = get_or-le n l i a.1

point-le : (i : ℕ) → point i ≤ 65535
point-le i = get_or-le 65535 sin_wave_points i (ground arith)

-- the weights of two points
weights : (b x : ℕ) → b < max_counter → (max_counter - b) * x + b * x ≡ max_counter * x
weights b x h = sym (add-mul (max_counter - b) b x) ∙ ap (λ n. n * x) (omega arith)

abbrev mix : (b x y : ℕ) → ℕ
mix b x y = (((max_counter - b) * x % 2 ^ 32) + (b * y % 2 ^ 32)) % 2 ^ 32 / max_counter

-- nothing of it wraps
mix-exact :
    (b x y : ℕ)
    → b < max_counter
    → x ≤ 65535
    → y ≤ 65535
    → mix b x y ≡ ((max_counter - b) * x + b * y) / max_counter
mix-exact b x y h k l =
    let e : (max_counter - b) * 65535 + b * 65535 ≡ max_counter * 65535 = weights b 65535 h in
    let f : (max_counter - b) * x ≤ (max_counter - b) * 65535 =
      mul-le-mul_left (max_counter - b) k in
    let g : b * y ≤ b * 65535 = mul-le-mul_left b l in omega (arith, e, f, g)

mix-up : (b x y : ℕ) → b < max_counter → x ≤ y → y ≤ 65535 → (x ≤ mix b x y) × (mix b x y ≤ y)
mix-up b x y h k l =
    let e : (max_counter - b) * x + b * x ≡ max_counter * x = weights b x h in
    let e' : (max_counter - b) * y + b * y ≡ max_counter * y = weights b y h in
    let f : (max_counter - b) * x ≤ (max_counter - b) * y = mul-le-mul_left (max_counter - b) k in
    let g : b * x ≤ b * y = mul-le-mul_left b k in
    let m = mix-exact b x y h (omega arith) l in
    (omega (arith, e, e', f, g, m), omega (arith, e, e', f, g, m))

mix-down : (b x y : ℕ) → b < max_counter → y ≤ x → x ≤ 65535 → (y ≤ mix b x y) × (mix b x y ≤ x)
mix-down b x y h k l =
    let e : (max_counter - b) * x + b * x ≡ max_counter * x = weights b x h in
    let e' : (max_counter - b) * y + b * y ≡ max_counter * y = weights b y h in
    let f : (max_counter - b) * y ≤ (max_counter - b) * x = mul-le-mul_left (max_counter - b) k in
    let g : b * y ≤ b * x = mul-le-mul_left b k in
    let m = mix-exact b x y h l (omega arith) in
    (omega (arith, e, e', f, g, m), omega (arith, e, e', f, g, m))

-- `n` lies between `x` and `y`, whichever is smaller
abbrev pub IsBetween : (x y n : ℕ) → Type 0
IsBetween x y n = (min x y ≤ n) × (n ≤ max x y)

mix-IsBetween : (b x y : ℕ) → b < max_counter → x ≤ 65535 → y ≤ 65535 → IsBetween x y (mix b x y)
mix-IsBetween b x y h k l = elim (dec_lt x y) [
  | yes p ↦ let s = mix-up b x y h (omega arith) l in (omega (arith, s.0), omega (arith, s.1))
  | no p ↦ let s = mix-down b x y h (omega arith) k in (omega (arith, s.0), omega (arith, s.1))
]

-- At a value of the 16-bit counter that is `b` parts of 65536 into the slice `i`, the duty cycle is
-- exactly the weighted mean of the points `i` and `i + 1` of the wave, the last followed by the
-- first: no step of the 32-bit arithmetic wraps. It lies between these two points.
pub interpolate-IsBetween :
    (position i b : ℕ)
    → i < 16
    → b < max_counter
    → position * 16 ≡ i * max_counter + b
    → (interpolate position
        ≡ ((max_counter - b) * point i + b * point (next_slice i)) / max_counter)
      × IsBetween (point i) (point (next_slice i)) (interpolate position)
unfolding interpolate
interpolate-IsBetween position i b h k e =
    let p : slice position ≡ i = omega arith in
    let q : between position ≡ b = omega arith in
    let r : interpolate position ≡ mix b (point i) (point (next_slice i)) =
      ap₂ (λ n c. mix c (point n) (point (next_slice n))) p q in
    (
      r ∙ mix-exact b (point i) (point (next_slice i)) k (point-le i) (point-le (next_slice i)),
      subst (IsBetween (point i) (point (next_slice i))) (sym r) (
          mix-IsBetween b (point i) (point (next_slice i)) k (point-le i)
            (point-le (next_slice i))),
    )
