-- ===== src/Channel.antt =====
-- The three bridge channels (firmware/firmware.h, BRIDGE_USB, BRIDGE_PORT_A and BRIDGE_PORT_B;
-- N_CHANNEL in soc/spid.c) and arrays indexed by them.
use t2_firmware.Prelude.{ℕ, ◌<◌, ◌≡◌, Bool, true, false, arith, ◌==◌, if◌then◌else◌}

pub data Chan : Type 0 where
  usb port_a port_b : Chan

abbrev pub index : Chan → ℕ
index usb = 0
index port_a = 1
index port_b = 2

-- the position of the same channel in the high nibble, `0x10 << chan`
abbrev pub open_index : Chan → ℕ
open_index usb = 4
open_index port_a = 5
open_index port_b = 6

-- an array of BRIDGE_NUM_CHAN elements
pub record PerChan {ℓ} (A : Type ℓ) : Type ℓ where
  pub c0 : A
  pub c1 : A
  pub c2 : A

module _ {ℓ} {A : Type ℓ} where
  abbrev pub at : PerChan A → Chan → A
  at v usb = v.c0
  at v port_a = v.c1
  at v port_b = v.c2

  abbrev pub put : PerChan A → Chan → A → PerChan A
  put v usb a = record v { c0 = a }
  put v port_a a = record v { c1 = a }
  put v port_b a = record v { c2 = a }

  abbrev pub fill : A → PerChan A
  fill a = record { c0 = a; c1 = a; c2 = a }

-- `for (chan = 0; chan < BRIDGE_NUM_CHAN; chan++)`
abbrev pub for_chan {ℓ} : {S : Type ℓ} → (Chan → S → S) → S → S
for_chan body s = body port_b (body port_a (body usb s))

abbrev pub same : Chan → Chan → Bool
same usb usb = true
same port_a port_a = true
same port_b port_b = true
same _ _ = false

pub index-lt : (c : Chan) → index c < 3
index-lt c = ground arith

pub index-eq : (c d : Chan) → (index c == index d) ≡ same c d
index-eq c d = ground arith

pub at-put {ℓ} :
    {A : Type ℓ} (v : PerChan A) (c d : Chan) (a : A)
    → at (put v c a) d ≡ (if same c d then a else at v d)
at-put v c d a = ground arith
