-- ===== src/Prelude/Bits.antt =====
-- The bits of a byte: tests, sets and clears of one bit, with their laws. The laws are checked for
-- every byte and every position by evaluation.
use Prim.Native.Nat.{ℕ, zero, suc, ◌+◌, ◌-◌, ◌*◌, ◌^◌, ◌<◌, bit_and, bit_or}
use mathlib.Core.Path.{◌≡◌, refl}
use mathlib.Core.Bool.{Bool, true, false, not, ◌&&◌, ◌||◌}
use native.Mathlib.Omega.{arith}
use t2_firmware.Prelude.Tests.{◌==◌, ltb, leb}

-- `m & (1 << c)`, as a condition
unfoldable pub test_bit : ℕ → ℕ → Bool
test_bit m c = not (bit_and m (2 ^ c) == 0)

-- `m |= 1 << c`, for a position inside the byte
unfoldable pub set_bit : ℕ → ℕ → ℕ
set_bit m c = bit_or m (2 ^ c)

-- `m &= ~(1 << c)`, on a byte
unfoldable pub clear_bit : ℕ → ℕ → ℕ
clear_bit m c = bit_and m (255 - 2 ^ c)

infix 50 ◌=b=◌
abbrev pub ◌=b=◌ : Bool → Bool → Bool
true =b= b = b
false =b= b = not b

-- `test` holds of every number below `n`: a table that is checked by evaluation
unfoldable pub each_below : (n : ℕ) (test : ℕ → Bool) → Bool
each_below zero test = true
each_below (suc n) test = each_below n test && test n

pub each_below-holds :
    (n : ℕ) (test : ℕ → Bool) (k : ℕ) → each_below n test ≡ true → k < n → test k ≡ true
unfolding each_below
each_below-holds zero test k all below = elim below [ ]
each_below-holds (suc n) test k all below = ground (arith, each_below-holds n test k)

pub =b=-eq : (a b : Bool) → (a =b= b) ≡ true → a ≡ b
=b=-eq a b h = ground arith

-- `m &= ~(0x11 << c)`: clears position `c` of both nibbles
unfoldable pub clear_pair : ℕ → ℕ → ℕ
clear_pair m c = bit_and m (255 - 17 * 2 ^ c)

-- A law of a byte and two positions, checked everywhere.
abbrev table : (ℕ → ℕ → ℕ → Bool) → Bool
table p = each_below 256 (λ m. each_below 8 (λ c. each_below 8 (λ d. p m c d)))

table_sound :
    (p : ℕ → ℕ → ℕ → Bool) (m c d : ℕ) → table p ≡ true → m < 256 → c < 8 → d < 8 → p m c d ≡ true
table_sound p m c d h hm hc hd =
    each_below-holds 8 (λ d. p m c d) d
      (each_below-holds 8 (λ c. each_below 8 (λ d. p m c d)) c
        (each_below-holds 256 (λ m. each_below 8 (λ c. each_below 8 (λ d. p m c d))) m h hm) hc)
      hd

set_table : table (λ m c d. test_bit (set_bit m c) d =b= (c == d || test_bit m d)) ≡ true
unfolding each_below test_bit set_bit
set_table = refl

clear_table : table (λ m c d. test_bit (clear_bit m c) d =b= (not (c == d) && test_bit m d)) ≡ true
unfolding each_below test_bit clear_bit
clear_table = refl

pair_table :
    table (λ m c d.
      leb 4 c
      || (test_bit (clear_pair m c) d =b= (not (c == d) && not (c + 4 == d) && test_bit m d)))
    ≡ true
unfolding each_below test_bit clear_pair
pair_table = refl

range_table :
    table (λ m c d. ltb (set_bit m c) 256 && ltb (clear_bit m c) 256 && ltb (clear_pair m c) 256)
    ≡ true
unfolding each_below set_bit clear_bit clear_pair
range_table = refl

module _ (m c d : ℕ) (hm : m < 256) (hc : c < 8) where
  pub test_bit-set_bit : d < 8 → test_bit (set_bit m c) d ≡ (c == d || test_bit m d)
  test_bit-set_bit hd = =b=-eq _ _ (table_sound _ m c d set_table hm hc hd)

  pub test_bit-clear_bit : d < 8 → test_bit (clear_bit m c) d ≡ (not (c == d) && test_bit m d)
  test_bit-clear_bit hd = =b=-eq _ _ (table_sound _ m c d clear_table hm hc hd)

  pub test_bit-clear_pair :
      d < 8
      → c < 4
      → test_bit (clear_pair m c) d ≡ (not (c == d) && not (c + 4 == d) && test_bit m d)
  test_bit-clear_pair hd hc' =
      ground (arith, table_sound _ m c d pair_table hm hc hd, =b=-eq (test_bit (clear_pair m c) d))

  pub set_bit-lt : set_bit m c < 256
  set_bit-lt = ground (arith, table_sound _ m c 0 range_table hm hc (omega arith))

  pub clear_bit-lt : clear_bit m c < 256
  clear_bit-lt = ground (arith, table_sound _ m c 0 range_table hm hc (omega arith))

  pub clear_pair-lt : clear_pair m c < 256
  clear_pair-lt = ground (arith, table_sound _ m c 0 range_table hm hc (omega arith))

-- `m & 0xF0`: the high nibble alone
unfoldable pub high_nibble : ℕ → ℕ
high_nibble m = bit_and m 0xF0

nibble_table :
    table (λ m c d.
      ltb (high_nibble m) 256 && (test_bit (high_nibble m) d =b= (leb 4 d && test_bit m d)))
    ≡ true
unfolding each_below test_bit high_nibble
nibble_table = refl

pub test_bit-high_nibble :
    (m d : ℕ) → m < 256 → d < 8 → test_bit (high_nibble m) d ≡ (leb 4 d && test_bit m d)
test_bit-high_nibble m d hm hd =
    =b=-eq _ _ (ground (arith, table_sound _ m 0 d nibble_table hm (omega arith) hd))

pub high_nibble-lt : (m : ℕ) → m < 256 → high_nibble m < 256
high_nibble-lt m hm =
    ground (arith, table_sound _ m 0 0 nibble_table hm (omega arith) (omega arith))

narrow_table :
    each_below 16 (λ m. each_below 4 (λ c. ltb (set_bit m c) 16 && ltb (clear_bit m c) 16)) ≡ true
unfolding each_below set_bit clear_bit
narrow_table = refl

-- The masks of four channels stay below 16.
module _ (m c : ℕ) (hm : m < 16) (hc : c < 4) where
  narrow : (ltb (set_bit m c) 16 && ltb (clear_bit m c) 16) ≡ true
  narrow =
      each_below-holds 4 (λ c. ltb (set_bit m c) 16 && ltb (clear_bit m c) 16) c
        (each_below-holds 16
          (λ m. each_below 4 (λ c. ltb (set_bit m c) 16 && ltb (clear_bit m c) 16)) m narrow_table
          hm)
        hc

  pub set_bit-narrow : set_bit m c < 16
  set_bit-narrow = ground (arith, narrow)

  pub clear_bit-narrow : clear_bit m c < 16
  clear_bit-narrow = ground (arith, narrow)
