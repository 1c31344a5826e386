-- ===== src/Common/Dma.antt =====
-- common/dma.c: the chains of descriptors. An address is a number; a chain starts at `base`, and a
-- descriptor takes 16 bytes.
pub mod Chain
mod Tests
use t2_firmware.Prelude.{
  ℕ, zero, suc, ◌+◌, ◌-◌, ◌*◌, ◌/◌, ◌%◌, ◌^◌, ◌≡◌, ◌≤◌, ◌<◌, refl, sym, ap, ap₂, ◌∙◌, List, [], ◌∷◌,
  ◌++◌, Bool, true, false, Option, none, some, ◌==◌, if◌then◌else◌, length, get_elem?, set, map,
  arith,
}

-- `DmacDescriptor`: two bits of BTCTRL, and the other registers
pub record Descriptor : Type 0 where
  pub src_inc : Bool
  pub dst_inc : Bool
  pub count : ℕ
  pub src : ℕ
  pub dst : ℕ
  pub next : ℕ

-- `dma_fill_sercom_tx` and `dma_fill_sercom_rx`; BTCNT has 16 bits. `register` is the address of the data register of the
-- SERCOM, `dummy` that of `dummy_tx` or `dummy_rx`, and NULL is 0
unfoldable pub fill_tx : (register dummy src size : ℕ) → Descriptor → Descriptor
fill_tx register dummy src size d =
    if src == 0
    then record d {
      dst = register;
      count = size % 2 ^ 16;
      src = dummy;
      src_inc = false;
      dst_inc = false;
    }
    else record d {
      dst = register;
      count = size % 2 ^ 16;
      src = src + size;
      src_inc = true;
      dst_inc = false;
    }

unfoldable pub fill_rx : (register dummy dst size : ℕ) → Descriptor → Descriptor
fill_rx register dummy dst size d =
    if dst == 0
    then record d {
      src = register;
      count = size % 2 ^ 16;
      dst = dummy;
      src_inc = false;
      dst_inc = false;
    }
    else record d {
      src = register;
      count = size % 2 ^ 16;
      dst = dst + size;
      src_inc = false;
      dst_inc = true;
    }

abbrev pub set_next : List Descriptor → (i addr : ℕ) → List Descriptor
set_next [] i addr = []
set_next (d ∷ ds) zero addr = record d { next = addr } ∷ ds
set_next (d ∷ ds) (suc i) addr = d ∷ set_next ds i addr

-- the loop of `dma_link_chain` from `i` on, for `k` descriptors
unfoldable pub link_loop : (base k i : ℕ) → List Descriptor → List Descriptor
link_loop base zero i ds = ds
link_loop base (suc k) i ds = link_loop base k (suc i) (set_next ds i (base + 16 * suc i))

-- `dma_link_chain`; `count - 1` is an u32
unfoldable pub link_chain : (base count : ℕ) → List Descriptor → List Descriptor
unfolding link_loop
link_chain base count ds =
    let last : ℕ = (count + 2 ^ 32 - 1) % 2 ^ 32 in set_next (link_loop base last 0 ds) last 0

-- What the controller does with a descriptor: from where to where each byte goes. With increment,
-- the address in the register is the end of the block.
abbrev pub beat_address : Bool → (addr count i : ℕ) → ℕ
beat_address inc addr count i = if inc then addr - count + i else addr

abbrev pub beats_from : Descriptor → (n i : ℕ) → List (ℕ × ℕ)
beats_from d zero i = []
beats_from d (suc n) i =
    (beat_address d.src_inc d.src d.count i, beat_address d.dst_inc d.dst d.count i)
    ∷ beats_from d n (suc i)

abbrev pub beats : Descriptor → List (ℕ × ℕ)
beats d = beats_from d d.count 0

-- The controller goes on at DESCADDR until it is 0; `fetch` reads a descriptor. `fuel` is the most
-- descriptors that it takes.
unfoldable pub walk : (fetch : ℕ → Option Descriptor) (fuel : ℕ) → Option Descriptor → List (ℕ × ℕ)
walk fetch zero d = []
walk fetch (suc fuel) none = []
walk fetch (suc fuel) (some d) =
    let rest = walk fetch fuel (fetch d.next) in beats d ++ (if d.next == 0 then [] else rest)

-- a chain in the memory
abbrev pub fetch_at : (base : ℕ) → List Descriptor → ℕ → Option Descriptor
fetch_at base ds a = get_elem? ds ((a - base) / 16)

abbrev pub all_beats : List Descriptor → List (ℕ × ℕ)
all_beats [] = []
all_beats (d ∷ ds) = beats d ++ all_beats ds
