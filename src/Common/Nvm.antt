-- ===== src/Common/Nvm.antt =====
-- common/nvm.h: the program memory of the SAMD21. Its controller is hardware, `Nvm`; what its data
-- sheet says of the calls that the code makes is `IsNvm`.
use t2_firmware.Prelude.{
  ℕ, zero, suc, ◌+◌, ◌*◌, ◌/◌, ◌%◌, ◌^◌, ◌≤◌, ◌<◌, ◌≡◌, ◌≢◌, refl, ap, sym, ◌∙◌, ◌⊎◌, inl, inr,
  List, [], ◌∷◌, length, get_or, arith,
}

-- The register ADDR, a 16-bit store into the memory (by the number of the word), and the commands
-- ER, WP and INVALL of CTRLA.
pub record Nvm : Type 1 where
  pub State : Type 0
  pub set_address : ℕ → State → State
  pub store : (word value : ℕ) → State → State
  pub erase : State → State
  pub write : State → State
  pub invalidate : State → State
  pub read : State → ℕ → ℕ
  pub IsClear : State → Type 0

-- `nvm_write_page`'s stores, from the word `w` on; the last word of an odd number of bytes has a
-- high byte of 0. The bytes are below 256, so that `|` is a sum.
unfoldable pub words : List ℕ → List ℕ
words [] = []
words (x ∷ []) = x ∷ []
words (x ∷ y ∷ l) = (x + 2 ^ 8 * y) ∷ words l

module _ (n : Nvm) where
  unfoldable pub stores : ℕ → List ℕ → n.State → n.State
  stores w [] s = s
  stores w (v ∷ vs) s = stores (suc w) vs (n.store w v s)

  -- `nvm_erase_row`
  unfoldable pub erase_row : ℕ → n.State → n.State
  erase_row addr s = n.erase (n.set_address (addr / 2) s)

  -- `nvm_write_page`; `buf` has the `len` bytes
  unfoldable pub write_page : ℕ → List ℕ → n.State → n.State
  unfolding words stores
  write_page addr buf s = n.write (stores (addr / 2) (words buf) s)

-- the bytes of some words, the low one first
abbrev pub bytes_of : List ℕ → List ℕ
bytes_of [] = []
bytes_of (v ∷ vs) = (v % 2 ^ 8) ∷ (v / 2 ^ 8) ∷ bytes_of vs

-- A row has 256 bytes and a page 64. ER erases the row of ADDR to 0xFF. WP writes the words that
-- were stored since the page buffer was cleared, all in one page, and clears it; an erased byte then
-- has the byte written.
pub record IsNvm (n : Nvm) : Type 0 where
  pub erased :
      (w a : ℕ) (s : n.State) → a / 256 ≡ 2 * w / 256 → n.read (n.erase (n.set_address w s)) a ≡ 255
  pub erase_keeps :
      (w a : ℕ) (s : n.State)
      → a / 256 ≢ 2 * w / 256
      → n.read (n.erase (n.set_address w s)) a ≡ n.read s a
  pub erase_clear : (w : ℕ) (s : n.State) → n.IsClear s → n.IsClear (n.erase (n.set_address w s))
  pub written :
      (w i : ℕ) (vs : List ℕ) (s : n.State)
      → n.IsClear s
      → w % 32 + length vs ≤ 32
      → i < 2 * length vs
      → n.read s (2 * w + i) ≡ 255
      → n.read (n.write (stores n w vs s)) (2 * w + i) ≡ get_or (bytes_of vs) i 0
  pub write_keeps :
      (w a : ℕ) (vs : List ℕ) (s : n.State)
      → n.IsClear s
      → w % 32 + length vs ≤ 32
      → (a < 2 * w) ⊎ (2 * w + 2 * length vs ≤ a)
      → n.read (n.write (stores n w vs s)) a ≡ n.read s a
  pub write_clear :
      (w : ℕ) (vs : List ℕ) (s : n.State)
      → n.IsClear s
      → w % 32 + length vs ≤ 32
      → n.IsClear (n.write (stores n w vs s))

abbrev pub AllBytes : List ℕ → Type 0
AllBytes [] = Unit {0}
AllBytes (x ∷ l) = (x < 256) × AllBytes l

-- Out of range both sides are 0.
bytes_of-words :
    (xs : List ℕ) (i : ℕ) → AllBytes xs → get_or (bytes_of (words xs)) i 0 ≡ get_or xs i 0
unfolding words
bytes_of-words [] i h = refl
bytes_of-words (x ∷ []) zero h = omega (arith, h.0)
bytes_of-words (x ∷ []) (suc zero) h = omega (arith, h.0)
bytes_of-words (x ∷ []) (suc (suc i)) h = refl
bytes_of-words (x ∷ y ∷ l) zero h = omega (arith, h.0)
bytes_of-words (x ∷ y ∷ l) (suc zero) h = omega (arith, h.0)
bytes_of-words (x ∷ y ∷ l) (suc (suc i)) h = bytes_of-words l i h.1.1

length-words : (xs : List ℕ) → 2 * length (words xs) ≡ length xs + length xs % 2
unfolding words
length-words [] = refl
length-words (x ∷ []) = refl
length-words (x ∷ y ∷ l) = omega (arith, length-words l)

module _ (n : Nvm) (laws : IsNvm n) (addr : ℕ) (xs : List ℕ) (s : n.State) where
  module _ (e : addr % 64 ≡ 0) (l : length xs ≤ 64) (c : n.IsClear s) where
    -- bytes written to the start of an erased page
    pub write_page_lem :
        (i : ℕ)
        → AllBytes xs
        → i < length xs
        → n.read s (addr + i) ≡ 255
        → n.read (write_page n addr xs s) (addr + i) ≡ get_or xs i 0
    unfolding write_page
    write_page_lem i b h r =
        let q : 2 * (addr / 2) ≡ addr = omega arith in
        ap (λ a. n.read (write_page n addr xs s) (a + i)) (sym q)
        ∙ laws.written (addr / 2) i (words xs) s c (omega (arith, length-words xs))
            (omega (arith, length-words xs)) (ap (λ a. n.read s (a + i)) q ∙ r)
        ∙ bytes_of-words xs i b

    pub write_page_keeps :
        (a : ℕ) → (a < addr) ⊎ (addr + 64 ≤ a) → n.read (write_page n addr xs s) a ≡ n.read s a
    unfolding write_page
    write_page_keeps a h =
        laws.write_keeps (addr / 2) a (words xs) s c (omega (arith, length-words xs)) (outside h)
      where
        outside :
            (a < addr) ⊎ (addr + 64 ≤ a)
            → (a < 2 * (addr / 2)) ⊎ (2 * (addr / 2) + 2 * length (words xs) ≤ a)
        outside (inl k) = inl (omega arith)
        outside (inr k) = inr (omega (arith, length-words xs))

    pub write_page_clear : n.IsClear (write_page n addr xs s)
    unfolding write_page
    write_page_clear = laws.write_clear (addr / 2) (words xs) s c (omega (arith, length-words xs))

module _ (n : Nvm) (laws : IsNvm n) (addr : ℕ) (s : n.State) (e : addr % 256 ≡ 0) where
  -- a row is erased
  pub erase_row_lem : (a : ℕ) → addr ≤ a → a < addr + 256 → n.read (erase_row n addr s) a ≡ 255
  unfolding erase_row
  erase_row_lem a h k = laws.erased (addr / 2) a s (omega arith)

  pub erase_row_keeps :
      (a : ℕ) → (a < addr) ⊎ (addr + 256 ≤ a) → n.read (erase_row n addr s) a ≡ n.read s a
  unfolding erase_row
  erase_row_keeps a (inl h) = laws.erase_keeps (addr / 2) a s (λ q. omega arith)
  erase_row_keeps a (inr h) = laws.erase_keeps (addr / 2) a s (λ q. omega arith)

  pub erase_row_clear : n.IsClear s → n.IsClear (erase_row n addr s)
  unfolding erase_row
  erase_row_clear c = laws.erase_clear (addr / 2) s c
