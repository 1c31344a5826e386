-- ===== src/Common/Dma/Chain.antt =====
-- What the DMA controller does with the chains of common/dma.c.
use t2_firmware.Prelude.{
  ℕ, zero, suc, ◌+◌, ◌-◌, ◌*◌, ◌/◌, ◌%◌, ◌^◌, ◌≡◌, ◌≤◌, ◌<◌, refl, sym, ap, ap₂, ◌∙◌, List, [], ◌∷◌,
  ◌++◌, Option, some, ◌==◌, if◌then◌else◌, length, get_elem?, map, map-append, arith,
}
use t2_firmware.Common.Dma.{
  Descriptor, fill_tx, fill_rx, set_next, link_loop, link_chain, beats_from, beats, walk, fetch_at,
  all_beats,
}

-- the links, descriptor by descriptor
abbrev linked : (base : ℕ) → List Descriptor → List Descriptor
linked base [] = []
linked base (d ∷ []) = record d { next = 0 } ∷ []
linked base (d ∷ e ∷ ds) = record d { next = base + 16 } ∷ linked (base + 16) (e ∷ ds)

link_loop-shift :
    (base k i : ℕ) (x : Descriptor) (ds : List Descriptor)
    → link_loop base k (suc i) (x ∷ ds) ≡ x ∷ link_loop (base + 16) k i ds
unfolding link_loop
link_loop-shift base zero i x ds = refl
link_loop-shift base (suc k) i x ds =
    let e : base + 16 * suc (suc i) ≡ base + 16 + 16 * suc i = omega arith in
    link_loop-shift base k (suc i) x (set_next ds i (base + 16 * suc (suc i)))
    ∙ ap (λ a. x ∷ link_loop (base + 16) k (suc i) (set_next ds i a)) e

link_loop-linked :
    (base k : ℕ) (ds : List Descriptor)
    → length ds ≡ suc k
    → set_next (link_loop base k 0 ds) k 0 ≡ linked base ds
unfolding link_loop
link_loop-linked base k [] h = absurd (omega (arith, h))
link_loop-linked base zero (d ∷ []) h = refl
link_loop-linked base zero (d ∷ e ∷ ds) h = absurd (omega (arith, h))
link_loop-linked base (suc k) (d ∷ []) h = absurd (omega (arith, h))
link_loop-linked base (suc k) (d ∷ e ∷ ds) h =
    let first : Descriptor = record d { next = base + 16 * 1 } in
    ap (λ l. set_next l (suc k) 0) (link_loop-shift base k 0 first (e ∷ ds))
    ∙ ap (first ∷◌) (link_loop-linked (base + 16) k (e ∷ ds) (omega (arith, h)))

link_chain-linked :
    (base : ℕ) (ds : List Descriptor)
    → 0 < length ds
    → length ds < 2 ^ 32
    → link_chain base (length ds) ds ≡ linked base ds
unfolding link_chain
link_chain-linked base [] h l = absurd (omega (arith, h))
link_chain-linked base (d ∷ ds) h l =
    let e : (length (d ∷ ds) + 2 ^ 32 - 1) % 2 ^ 32 ≡ length ds = omega (arith, l) in
    ap (λ last. set_next (link_loop base last 0 (d ∷ ds)) last 0) e
    ∙ link_loop-linked base (length ds) (d ∷ ds) refl

abbrev Reads : (ℕ → Option Descriptor) → (base : ℕ) → List Descriptor → Type 0
Reads fetch base ds =
    (j : ℕ) (x : Descriptor) → get_elem? ds j ≡ some x → fetch (base + 16 * j) ≡ some x

linked-head :
    (base : ℕ) (d : Descriptor) (ds : List Descriptor)
    → (x : Descriptor) × (get_elem? (linked base (d ∷ ds)) 0 ≡ some x)
linked-head base d [] = (record d { next = 0 }, refl)
linked-head base d (e ∷ ds) = (record d { next = base + 16 }, refl)

goes_on : (base : ℕ) (rest : List (ℕ × ℕ)) → (if base + 16 == 0 then [] else rest) ≡ rest
goes_on base rest = ground arith

walk-linked :
    (fetch : ℕ → Option Descriptor) (fuel base : ℕ) (ds : List Descriptor)
    → length ds ≤ fuel
    → Reads fetch base (linked base ds)
    → walk fetch fuel (get_elem? (linked base ds) 0) ≡ all_beats ds
unfolding walk
walk-linked fetch zero base [] h r = refl
walk-linked fetch (suc fuel) base [] h r = refl
walk-linked fetch zero base (d ∷ ds) h r = absurd (omega (arith, h))
walk-linked fetch (suc fuel) base (d ∷ []) h r = refl
walk-linked fetch (suc fuel) base (d ∷ e ∷ ds) h r =
    let (x, k) = linked-head (base + 16) e ds in
    let shifted : Reads fetch (base + 16) (linked (base + 16) (e ∷ ds)) = λ j y m.
      let a : base + 16 + 16 * j ≡ base + 16 * suc j = omega arith in ap fetch a ∙ r (suc j) y m in
    let a : base + 16 ≡ base + 16 * 1 = omega arith in
    let next : fetch (base + 16) ≡ get_elem? (linked (base + 16) (e ∷ ds)) 0 =
      ap fetch a ∙ r 1 x k ∙ sym k in
    ap (beats d ++◌) (
      goes_on base (walk fetch fuel (fetch (base + 16)))
      ∙ ap (walk fetch fuel) next
      ∙ walk-linked fetch fuel (base + 16) (e ∷ ds) (omega (arith, h)) shifted)

fetch_at-Reads : (base : ℕ) (ds : List Descriptor) → Reads (fetch_at base ds) base ds
fetch_at-Reads base ds j x h =
    let e : (base + 16 * j - base) / 16 ≡ j = omega arith in ap (get_elem? ds) e ∙ h

-- The descriptors of some transfers, each a place in memory and a size; `old` is what the array holds
-- before.
module _ (fill : (place size : ℕ) → Descriptor → Descriptor) (old : ℕ → Descriptor) where
  abbrev pub filled : (i : ℕ) → List (ℕ × ℕ) → List Descriptor
  filled i [] = []
  filled i ((p, n) ∷ ts) = fill p n (old i) ∷ filled (suc i) ts

  length-filled : (i : ℕ) (ts : List (ℕ × ℕ)) → length (filled i ts) ≡ length ts
  length-filled i [] = refl
  length-filled i ((p, n) ∷ ts) = ap suc (length-filled (suc i) ts)

-- The bytes of a place, one by one; of NULL, each is the dummy.
abbrev pub places : (dummy p n i : ℕ) → List ℕ
places dummy p zero i = []
places dummy p (suc n) i = (if p == 0 then dummy else p + i) ∷ places dummy p n (suc i)

abbrev pub all_places : (dummy : ℕ) → List (ℕ × ℕ) → List ℕ
all_places dummy [] = []
all_places dummy ((p, n) ∷ ts) = places dummy p n 0 ++ all_places dummy ts

-- BTCNT can hold each size.
abbrev pub AllFit : List (ℕ × ℕ) → Type 0
AllFit [] = Unit {0}
AllFit ((p, n) ∷ ts) = (n < 2 ^ 16) × AllFit ts

module _ (register dummy : ℕ) (old : ℕ → Descriptor) where
  fill_tx-count : (p n : ℕ) (d : Descriptor) → n < 2 ^ 16 → (fill_tx register dummy p n d).count ≡ n
  unfolding fill_tx
  fill_tx-count p n d h = ground arith

  fill_tx-beats :
      (p size n i : ℕ) (d : Descriptor)
      → size < 2 ^ 16
      → beats_from (fill_tx register dummy p size d) n i
        ≡ map (λ a. (a, register)) (places dummy p n i)
  unfolding fill_tx
  fill_tx-beats p size zero i d h = refl
  fill_tx-beats p size (suc n) i d h =
      ap₂ (λ x xs. x ∷ xs) (ground arith) (fill_tx-beats p size n (suc i) d h)

  fill_rx-count : (p n : ℕ) (d : Descriptor) → n < 2 ^ 16 → (fill_rx register dummy p n d).count ≡ n
  unfolding fill_rx
  fill_rx-count p n d h = ground arith

  fill_rx-beats :
      (p size n i : ℕ) (d : Descriptor)
      → size < 2 ^ 16
      → beats_from (fill_rx register dummy p size d) n i
        ≡ map (λ a. (register, a)) (places dummy p n i)
  unfolding fill_rx
  fill_rx-beats p size zero i d h = refl
  fill_rx-beats p size (suc n) i d h =
      ap₂ (λ x xs. x ∷ xs) (ground arith) (fill_rx-beats p size n (suc i) d h)

  filled_tx-beats :
      (i : ℕ) (ts : List (ℕ × ℕ))
      → AllFit ts
      → all_beats (filled (fill_tx register dummy) old i ts)
        ≡ map (λ a. (a, register)) (all_places dummy ts)
  filled_tx-beats i [] f = refl
  filled_tx-beats i ((p, n) ∷ ts) f =
      let d : Descriptor = fill_tx register dummy p n (old i) in
      let first : beats d ≡ map (λ a. (a, register)) (places dummy p n 0) =
        ap (λ c. beats_from d c 0) (fill_tx-count p n (old i) f.0)
        ∙ fill_tx-beats p n n 0 (old i) f.0 in
      ap₂ ◌++◌ first (filled_tx-beats (suc i) ts f.1)
      ∙ sym (map-append (λ a. (a, register)) (places dummy p n 0) (all_places dummy ts))

  filled_rx-beats :
      (i : ℕ) (ts : List (ℕ × ℕ))
      → AllFit ts
      → all_beats (filled (fill_rx register dummy) old i ts)
        ≡ map (λ a. (register, a)) (all_places dummy ts)
  filled_rx-beats i [] f = refl
  filled_rx-beats i ((p, n) ∷ ts) f =
      let d : Descriptor = fill_rx register dummy p n (old i) in
      let first : beats d ≡ map (λ a. (register, a)) (places dummy p n 0) =
        ap (λ c. beats_from d c 0) (fill_rx-count p n (old i) f.0)
        ∙ fill_rx-beats p n n 0 (old i) f.0 in
      ap₂ ◌++◌ first (filled_rx-beats (suc i) ts f.1)
      ∙ sym (map-append (λ a. (register, a)) (places dummy p n 0) (all_places dummy ts))

-- what the controller does, from the first descriptor of a linked chain on
abbrev pub run_chain : (base fuel : ℕ) → List Descriptor → List (ℕ × ℕ)
run_chain base fuel ds =
    let chain = link_chain base (length ds) ds in
    walk (fetch_at base chain) fuel (get_elem? chain 0)

run_chain-beats :
    (base fuel : ℕ) (ds : List Descriptor)
    → 0 < length ds
    → length ds < 2 ^ 32
    → length ds ≤ fuel
    → run_chain base fuel ds ≡ all_beats ds
run_chain-beats base fuel ds h k l =
    ap (λ chain. walk (fetch_at base chain) fuel (get_elem? chain 0))
      (link_chain-linked base ds h k)
    ∙ walk-linked (fetch_at base (linked base ds)) fuel base ds l
        (fetch_at-Reads base (linked base ds))

-- A chain of at least one and fewer than 2 ^ 32 transfers, each of fewer than 2 ^ 16 bytes, whatever
-- its descriptors were before: the controller moves each byte of each place to the register, or
-- from it, in order, and then ends, however many descriptors it might take.
pub run_chain-places :
    (base register dummy fuel : ℕ) (old : ℕ → Descriptor) (ts : List (ℕ × ℕ))
    → 0 < length ts
    → length ts < 2 ^ 32
    → length ts ≤ fuel
    → AllFit ts
    → (run_chain base fuel (filled (fill_tx register dummy) old 0 ts)
        ≡ map (λ a. (a, register)) (all_places dummy ts))
      × (run_chain base fuel (filled (fill_rx register dummy) old 0 ts)
          ≡ map (λ a. (register, a)) (all_places dummy ts))
run_chain-places base register dummy fuel old ts h k l f =
    let m = length-filled (fill_tx register dummy) old 0 ts in
    let n = length-filled (fill_rx register dummy) old 0 ts in
    (
      run_chain-beats base fuel (filled (fill_tx register dummy) old 0 ts) (omega (arith, h, m))
            (omega (arith, k, m)) (omega (arith, l, m))
          ∙ filled_tx-beats register dummy old 0 ts f,
      run_chain-beats base fuel (filled (fill_rx register dummy) old 0 ts) (omega (arith, h, n))
            (omega (arith, k, n)) (omega (arith, l, n))
          ∙ filled_rx-beats register dummy old 0 ts f,
    )
