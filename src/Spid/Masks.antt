-- ===== src/Spid/Masks.antt =====
-- The bitmasks of soc/spid.c: what a change of one channel's bit does to each channel, and what the
-- coprocessor reads in the status byte that is built from two masks.
use t2_firmware.Prelude.{
  ℕ, ◌+◌, ◌*◌, ◌<◌, ◌≡◌, refl, Bool, true, ◌&&◌, arith, ltb, if◌then◌else◌, test_bit, bit_or,
  each_below, each_below-holds, ◌=b=◌, =b=-eq, test_bit-set_bit, test_bit-clear_bit, set_bit-narrow,
  clear_bit-narrow,
}
use t2_firmware.Channel.{Chan, index, open_index, same, index-lt, index-eq}
use t2_firmware.Spid.{Spid, get_state, set_state, header_status}

-- Each mask has bits for at most four channels.
pub record IsNarrow (s : Spid) : Type 0 where
  pub writable : s.writable < 16
  pub opened : s.opened < 16
  pub enabled : s.enabled < 16

module _ (m : ℕ) (c : Chan) (b : Bool) (hm : m < 16) where
  pub get_state-set_state :
      (d : Chan) → get_state (set_state m c b) d ≡ (if same c d then b else get_state m d)
  unfolding set_state
  get_state-set_state d = ground (
    arith,
    index-lt c,
    index-lt d,
    index-eq c d,
    test_bit-set_bit m (index c) (index d),
    test_bit-clear_bit m (index c) (index d),
  )

  pub set_state-lt : set_state m c b < 16
  unfolding set_state
  set_state-lt =
      ground (arith, index-lt c, set_bit-narrow m (index c), clear_bit-narrow m (index c))

abbrev header_law : ℕ → ℕ → ℕ → Bool
header_law w o c =
    (test_bit (bit_or w (o * 16)) c =b= test_bit w c)
    && (test_bit (bit_or w (o * 16)) (c + 4) =b= test_bit o c)
    && ltb (bit_or w (o * 16)) 256

header_table : each_below 16 (λ w. each_below 16 (λ o. each_below 4 (header_law w o))) ≡ true
unfolding each_below test_bit
header_table = refl

module _ (w o : ℕ) (hw : w < 16) (ho : o < 16) (c : Chan) where
  header_laws : header_law w o (index c) ≡ true
  header_laws =
      each_below-holds 4 (header_law w o) (index c)
        (each_below-holds 16 (λ o. each_below 4 (header_law w o)) o
          (each_below-holds 16 (λ w. each_below 16 (λ o. each_below 4 (header_law w o))) w
            header_table hw)
          ho)
        (omega (arith, index-lt c))

  pub header_writable : test_bit (header_status w o) (index c) ≡ get_state w c
  unfolding header_status
  header_writable = =b=-eq _ _ (ground (arith, header_laws))

  pub header_opened : test_bit (header_status w o) (open_index c) ≡ get_state o c
  unfolding header_status
  header_opened = =b=-eq _ _ (ground (arith, header_laws))

  pub header_status-lt : header_status w o < 256
  unfolding header_status
  header_status-lt = ground (arith, header_laws)
