-- ===== src/Common/Rom.antt =====
-- A program memory with a page buffer that behaves as the data sheet says, for the examples.
use t2_firmware.Prelude.{
  ℕ, zero, suc, ◌+◌, ◌*◌, ◌/◌, ◌%◌, ◌^◌, ◌≤◌, ◌<◌, ◌≡◌, refl, ap, ap₂, sym, ◌∙◌, ◌⊎◌, inl, inr,
  List, [], ◌∷◌, Option, some, none, if◌then◌else◌, ◌==◌, length, get_or, arith, bit_and,
}
use t2_firmware.Common.Nvm.{Nvm, IsNvm, stores, bytes_of}

pub record Rom : Type 0 where
  pub bytes : ℕ → ℕ
  pub buffer : List (ℕ × ℕ)
  pub address : ℕ

abbrev find : ℕ → List (ℕ × ℕ) → Option ℕ
find w [] = none
find w ((u, v) ∷ l) = if u == w then some v else find w l

abbrev byte_of : ℕ → ℕ → ℕ
byte_of a v = if a % 2 == 0 then v % 2 ^ 8 else v / 2 ^ 8

-- Writing can only clear bits.
abbrev program : ℕ → Option ℕ → ℕ → ℕ
program a none old = old
program a (some v) old = if old == 255 then byte_of a v else bit_and old (byte_of a v)

abbrev pub rom : Nvm
rom = record {
  State = Rom;
  set_address = λ w r. record r { address = w };
  store = λ w v r. record r { buffer = (w, v) ∷ r.buffer };
  erase = λ r. record r { bytes = λ a. if a / 256 == 2 * r.address / 256 then 255 else r.bytes a };
  write = λ r. record r { bytes = λ a. program a (find (a / 2) r.buffer) (r.bytes a); buffer = [] };
  invalidate = λ r. r;
  read = λ r a. r.bytes a;
  IsClear = λ r. r.buffer ≡ [];
}

stores-bytes : (w : ℕ) (vs : List ℕ) (r : Rom) → (stores rom w vs r).bytes ≡ r.bytes
unfolding stores
stores-bytes w [] r = refl
stores-bytes w (v ∷ vs) r = stores-bytes (suc w) vs (rom.store w v r)

find-beside :
    (u w : ℕ) (vs : List ℕ) (r : Rom)
    → (u < w) ⊎ (w + length vs ≤ u)
    → find u (stores rom w vs r).buffer ≡ find u r.buffer
unfolding stores
find-beside u w [] r h = refl
find-beside u w (v ∷ vs) r (inl h) =
    find-beside u (suc w) vs (rom.store w v r) (inl (omega arith)) ∙ ground arith
find-beside u w (v ∷ vs) r (inr h) =
    find-beside u (suc w) vs (rom.store w v r) (inr (omega arith)) ∙ ground arith

find-stored :
    (w i : ℕ) (vs : List ℕ) (r : Rom)
    → i < length vs
    → find (w + i) (stores rom w vs r).buffer ≡ some (get_or vs i 0)
unfolding stores
find-stored w i [] r h = absurd (omega arith)
find-stored w zero (v ∷ vs) r h =
    let e : w + 0 ≡ w = omega arith in
    ap (λ u. find u (stores rom (suc w) vs (rom.store w v r)).buffer) e
    ∙ find-beside w (suc w) vs (rom.store w v r) (inl (omega arith))
    ∙ ground arith
find-stored w (suc i) (v ∷ vs) r h =
    let e : w + suc i ≡ suc w + i = omega arith in
    ap (λ u. find u (stores rom (suc w) vs (rom.store w v r)).buffer) e
    ∙ find-stored (suc w) i vs (rom.store w v r) (omega arith)

get_or-bytes_of : (i : ℕ) (vs : List ℕ) → get_or (bytes_of vs) i 0 ≡ byte_of i (get_or vs (i / 2) 0)
get_or-bytes_of i [] = ground arith
get_or-bytes_of zero (v ∷ vs) = refl
get_or-bytes_of (suc zero) (v ∷ vs) = refl
get_or-bytes_of (suc (suc i)) (v ∷ vs) =
    let e : suc (suc i) / 2 ≡ suc (i / 2) = omega arith in
    let p : suc (suc i) % 2 ≡ i % 2 = omega arith in
    get_or-bytes_of i vs
    ∙ ap₂ (λ a k. (if a == 0 then get_or (v ∷ vs) k 0 % 2 ^ 8 else get_or (v ∷ vs) k 0 / 2 ^ 8))
        (sym p) (sym e)

rom-written :
    (w i : ℕ) (vs : List ℕ) (r : Rom)
    → i < 2 * length vs
    → r.bytes (2 * w + i) ≡ 255
    → rom.read (rom.write (stores rom w vs r)) (2 * w + i) ≡ get_or (bytes_of vs) i 0
rom-written w i vs r h e =
    let a : ℕ = 2 * w + i in
    let k : a / 2 ≡ w + i / 2 = omega arith in
    let p : a % 2 ≡ i % 2 = omega arith in
    let f =
      ap (λ u. find u (stores rom w vs r).buffer) k ∙ find-stored w (i / 2) vs r (omega arith) in
    let g = ap (λ b. b a) (stores-bytes w vs r) ∙ e in
    ap₂ (λ o b. program a o b) f g
    ∙ ap (λ b. if b == 0 then get_or vs (i / 2) 0 % 2 ^ 8 else get_or vs (i / 2) 0 / 2 ^ 8) p
    ∙ sym (get_or-bytes_of i vs)

rom-keeps :
    (w a : ℕ) (vs : List ℕ) (r : Rom)
    → r.buffer ≡ []
    → (a / 2 < w) ⊎ (w + length vs ≤ a / 2)
    → rom.read (rom.write (stores rom w vs r)) a ≡ r.bytes a
rom-keeps w a vs r c h =
    ap₂ (λ o b. program a o b) (find-beside (a / 2) w vs r h ∙ ap (find (a / 2)) c)
      (ap (λ b. b a) (stores-bytes w vs r))

pub rom-IsNvm : IsNvm rom
rom-IsNvm = record {
  erased = λ w a r h. ground arith;
  erase_keeps = λ w a r h. ground arith;
  erase_clear = λ w r c. c;
  written = λ w i vs r c l h e. rom-written w i vs r h e;
  write_keeps = λ w a vs r c l h. elim h [
    | inl k ↦ rom-keeps w a vs r c (inl (omega arith))
    | inr k ↦ rom-keeps w a vs r c (inr (omega arith))
  ];
  write_clear = λ w vs r c l. refl;
}
