-- ===== src/UsbExec/Ring.antt =====
-- The ring buffer of a pipe of soc/usbexecd.c as a queue of bytes.
use t2_firmware.Prelude.{
  ℕ, zero, suc, ◌+◌, ◌-◌, ◌%◌, ◌≤◌, ◌<◌, ◌≡◌, refl, ap, ap₂, sym, ◌∙◌, List, [], ◌∷◌, ◌++◌, arith,
  length, get_or, set, get_or-set_self, get_or-set_ne, length-set, append_assoc, append-nil,
}
use t2_firmware.UsbExec.{PipeBuf, pipe_size}
use t2_firmware.UsbExec.Pipe.{read_at, write_at}
use t2_firmware.UsbExec.Input.{store}

-- `n` bytes of a buffer from position `s` on
abbrev pub ring : List ℕ → ℕ → ℕ → List ℕ
ring b s zero = []
ring b s (suc n) = get_or b s 0 ∷ ring b ((s + 1) % pipe_size) n

-- the bytes that a pipe holds, the oldest first
abbrev pub contents : PipeBuf → List ℕ
contents p = ring p.buffer p.startpos p.bufcount

pub record IsRing (p : PipeBuf) : Type 0 where
  pub slots : length p.buffer ≡ pipe_size
  pub start_lt : p.startpos < pipe_size
  pub count_le : p.bufcount ≤ pipe_size
  pub end_at : p.endpos ≡ (p.startpos + p.bufcount) % pipe_size

pub length-ring : (b : List ℕ) (s n : ℕ) → length (ring b s n) ≡ n
length-ring b s zero = refl
length-ring b s (suc n) = ap suc (length-ring b ((s + 1) % pipe_size) n)

pub length-contents : (p : PipeBuf) → length (contents p) ≡ p.bufcount
length-contents p = length-ring p.buffer p.startpos p.bufcount

pub ring-split :
    (b : List ℕ) (s m n k : ℕ)
    → s < pipe_size
    → k ≡ m + n
    → ring b s k ≡ ring b s m ++ ring b ((s + m) % pipe_size) n
ring-split b s zero n k h e = ap₂ (ring b) (omega arith) (omega arith)
ring-split b s (suc m) n zero h e = absurd (omega arith)
ring-split b s (suc m) n (suc k) h e =
    ap (λ l. get_or b s 0 ∷ l)
      (ring-split b ((s + 1) % pipe_size) m n k (omega arith) (omega arith)
        ∙ ap (λ i. ring b ((s + 1) % pipe_size) m ++ ring b i n) (omega arith))

pub read_at-ring : (b : List ℕ) (s n : ℕ) → s + n ≤ pipe_size → read_at b s n ≡ ring b s n
unfolding read_at
read_at-ring b s zero h = refl
read_at-ring b s (suc zero) h = refl
read_at-ring b s (suc (suc n)) h =
    ap (λ l. get_or b s 0 ∷ l)
      (read_at-ring b (suc s) (suc n) (omega arith) ∙ ap (λ i. ring b i (suc n)) (omega arith))

-- A write that no position of the part meets does not change it.
ring-set :
    (b : List ℕ) (e x s n : ℕ)
    → s < pipe_size
    → e < pipe_size
    → n ≤ (e + pipe_size - s) % pipe_size
    → ring (set b e x) s n ≡ ring b s n
ring-set b e x s zero i j h = refl
ring-set b e x s (suc n) i j h =
    ap₂ (λ y l. y ∷ l) (get_or-set_ne b e s x 0 (omega arith))
      (ring-set b e x ((s + 1) % pipe_size) n (omega arith) j (omega arith))

-- one more byte after `n`
ring-push :
    (b : List ℕ) (s n x : ℕ)
    → length b ≡ pipe_size
    → s < pipe_size
    → n < pipe_size
    → ring (set b ((s + n) % pipe_size) x) s (suc n) ≡ ring b s n ++ x ∷ []
ring-push b s n x l i h =
    let e = (s + n) % pipe_size in
    ring-split (set b e x) s n 1 (suc n) i (omega arith)
    ∙ ap₂ (λ p y. p ++ y ∷ []) (ring-set b e x s n i (omega arith) (omega arith))
        (get_or-set_self b e x 0 (omega arith))

pub length-write_at : (b : List ℕ) (e : ℕ) (xs : List ℕ) → length (write_at b e xs) ≡ length b
unfolding write_at
length-write_at b e [] = refl
length-write_at b e (x ∷ xs) = length-write_at (set b e x) (suc e) xs ∙ length-set b e x

-- Bytes written behind the last of `n`, without a step past the end of the buffer, follow them.
pub ring-write_at :
    (b : List ℕ) (s n e : ℕ) (xs : List ℕ)
    → length b ≡ pipe_size
    → s < pipe_size
    → n + length xs ≤ pipe_size
    → e % pipe_size ≡ (s + n) % pipe_size
    → e + length xs ≤ pipe_size
    → ring (write_at b e xs) s (n + length xs) ≡ ring b s n ++ xs
unfolding write_at
ring-write_at b s n e [] l i h j k = ap (ring b s) (omega arith) ∙ sym (append-nil (ring b s n))
ring-write_at b s n e (x ∷ xs) l i h j k =
    let e' : ℕ = (s + n) % pipe_size in
    ap (ring (write_at (set b e x) (suc e) xs) s) (omega arith)
    ∙ ring-write_at (set b e x) s (suc n) (suc e) xs (length-set b e x ∙ l) i (omega arith)
        (omega arith) (omega arith)
    ∙ ap (λ r. r ++ xs)
        (ap (λ y. ring (set b y x) s (suc n)) (omega arith) ∙ ring-push b s n x l i (omega arith))
    ∙ append_assoc (ring b s n) (x ∷ []) xs

-- Bytes that fit behind the last, up to the end of the buffer, go to the end of the queue.
pub store_lem :
    (xs : List ℕ) (p : PipeBuf)
    → IsRing p
    → p.bufcount + length xs ≤ pipe_size
    → p.endpos + length xs ≤ pipe_size
    → IsRing (store xs p) × (contents (store xs p) ≡ contents p ++ xs)
unfolding store
store_lem xs p v h k = (
  ground (arith, length-write_at p.buffer p.endpos xs),
  ring-write_at p.buffer p.startpos p.bufcount p.endpos xs v.slots v.start_lt h
      (omega (arith, v.end_at)) k,
)
