-- ===== src/UsbPipe/Fifo.antt =====
-- The ring of firmware/usbpipe.c as a queue of packets: what arrives over USB goes to the bridge
-- once, in order and with its length.
use t2_firmware.Prelude.{
  ℕ, zero, suc, ◌+◌, ◌-◌, ◌%◌, ◌≤◌, ◌<◌, ◌≡◌, ◌≢◌, List, [], ◌∷◌, ◌++◌, true, not, arith, refl, ap,
  ap₂, sym, ◌∙◌, length, take, get_or, set, get_or-set_self, get_or-set_ne, dec_lt, ◌⊎◌,
  append_assoc, take-append_length, ◌==◌, if◌then◌else◌,
}
use t2_firmware.UsbPipe.{
  UsbPipe, boot, init, usb_delivers, usb_out_completion, bridge_in_completion, ring_size,
  packet_size,
}
use t2_firmware.UsbPipe.Invariant.{
  IsValid, usb_delivers-IsValid, usb_out_completion-IsValid, bridge_in_completion-IsValid,
  init-IsValid, valid_slots,
}

-- The packets in `n` slots from `h` on, going round: all are full but the last.
abbrev packets : List (List ℕ) → ℕ → ℕ → ℕ → List (List ℕ)
packets buf h zero last = []
packets buf h (suc zero) last = take last (get_or buf h []) ∷ []
packets buf h (suc (suc n)) last =
    take packet_size (get_or buf h []) ∷ packets buf ((h + 1) % ring_size) (suc n) last

-- the length of the last packet in the ring
abbrev last_len : UsbPipe → ℕ
last_len s =
    if not (s.short_packet == 0)
    then s.short_packet
    else if s.count == 1
    then s.in_len
    else packet_size

-- the packets that the ring holds, oldest first; the first is on its way to the bridge
abbrev pub held : UsbPipe → List (List ℕ)
held s = packets s.ring_buf s.read_pos s.count (last_len s)

-- the bytes that the bridge takes from the buffer that it was given
abbrev pub handed_over : UsbPipe → List ℕ
handed_over s = take s.in_len (get_or s.ring_buf s.in_slot [])

module _ (buf : List (List ℕ)) where
  packets-cons :
      (h n : ℕ)
      → packets buf h (suc n) packet_size
        ≡ take packet_size (get_or buf h []) ∷ packets buf ((h + 1) % ring_size) n packet_size
  packets-cons h zero = refl
  packets-cons h (suc n) = refl

  packets-next :
      (h n last : ℕ)
      → 1 < n
      → packets buf h n last
        ≡ take packet_size (get_or buf h []) ∷ packets buf ((h + 1) % ring_size) (n - 1) last
  packets-next h zero last lt = absurd (omega arith)
  packets-next h (suc zero) last lt = absurd (omega arith)
  packets-next h (suc (suc n)) last lt =
      let e : suc n ≡ suc (suc n) - 1 = omega arith in
      ap (λ k. take packet_size (get_or buf h []) ∷ packets buf ((h + 1) % ring_size) k last) e

-- A packet written past the held ones is the new last one.
packets-set :
    (buf : List (List ℕ)) (v : List ℕ) (len n h i : ℕ)
    → length buf ≡ ring_size
    → h < ring_size
    → n < ring_size
    → i ≡ (h + n) % ring_size
    → packets (set buf i v) h (suc n) len ≡ packets buf h n packet_size ++ take len v ∷ []
packets-set buf v len zero h i e hh hn ei =
    let here : i ≡ h = omega arith in
    ap (λ l. take len l ∷ []) (rw here (get_or-set_self buf h v [] (omega arith)))
packets-set buf v len (suc n) h i e hh hn ei =
    ap₂ ◌∷◌ (ap (take packet_size) (get_or-set_ne buf i h v [] (omega arith)))
      (packets-set buf v len n ((h + 1) % ring_size) i e (omega arith) (omega arith) (omega arith))
    ∙ ap (λ l. l ++ take len v ∷ []) (sym (packets-cons buf h n))

packets-eq :
    (b b' : List (List ℕ)) (h h' n n' l l' : ℕ)
    → b ≡ b'
    → h ≡ h'
    → n ≡ n'
    → l ≡ l'
    → packets b h n l ≡ packets b' h' n' l'
packets-eq b b' h h' n n' l l' eb eh en el = λ i. packets (eb i) (eh i) (en i) (el i)

-- An empty ring holds nothing, whatever its last length is.
packets-empty :
    (buf : List (List ℕ)) (h n l l' : ℕ) → (n ≢ 0 → l ≡ l') → packets buf h n l ≡ packets buf h n l'
packets-empty buf h zero l l' e = refl
packets-empty buf h (suc n) l l' e = ap (packets buf h (suc n)) (e (omega arith))

module _ (s : UsbPipe) (v : IsValid s) where
  -- what the end of a USB transfer of `len` bytes changes of the queue
  arrival :
      (len : ℕ)
      → s.usb_pending ≡ true
      → 0 < len
      → len ≤ packet_size
      → let t = usb_out_completion len s in
        (t.ring_buf ≡ s.ring_buf)
        × (t.read_pos ≡ s.read_pos)
        × (t.count ≡ suc s.count)
        × (last_len t ≡ len)
        × (s.count ≢ 0 → last_len s ≡ packet_size)
  unfolding usb_out_completion
  arrival len h pos le = ground arith

  -- what the end of a transfer to the bridge changes of it
  departure :
      s.bridge_pending ≡ true
      → let t = bridge_in_completion s in
        (t.ring_buf ≡ s.ring_buf)
        × (t.read_pos ≡ (s.read_pos + 1) % ring_size)
        × (t.count ≡ s.count - 1)
        × (1 < s.count → last_len t ≡ last_len s)
        × (s.count ≡ 1 → last_len s ≡ s.in_len)
  unfolding bridge_in_completion
  departure h = ground arith

  -- The bridge takes exactly the oldest packet, and the rest stay.
  pub held-bridge_in_completion :
      s.bridge_pending ≡ true → held s ≡ handed_over s ∷ held (bridge_in_completion s)
  held-bridge_in_completion h =
      let (eb, eh, en, el, e1) = departure h in
      elim (dec_lt 1 s.count) [
        | yes more ↦
            packets-next s.ring_buf s.read_pos s.count (last_len s) more
            ∙ ap₂ ◌∷◌
                (ap₂ (λ n i. take n (get_or s.ring_buf i [])) (sym (v.full_head more))
                  (sym (v.busy h).1))
                (packets-eq _ _ _ _ _ _ _ _ (sym eb) (sym eh) (sym en) (sym (el more)))
        | no single ↦
            let one : s.count ≡ 1 = omega arith in
            let none_left : (bridge_in_completion s).count ≡ 0 = omega arith in
            packets-eq _ _ _ _ _ _ _ _ refl (sym (v.busy h).1) one (e1 one)
            ∙ ap (λ l. handed_over s ∷ l)
                (sym (
                  packets-eq _ _ _ (bridge_in_completion s).read_pos _ _ _
                    (last_len (bridge_in_completion s)) refl refl none_left refl))
      ]

-- A packet of 1 to 64 bytes that arrives over USB joins the ring at its end.
pub held-usb_out_completion :
    (s : UsbPipe)
    → IsValid s
    → (p : List ℕ) → s.usb_pending ≡ true
    → 0 < length p
    → length p ≤ packet_size
    → held (usb_out_completion (length p) (usb_delivers p s)) ≡ held s ++ p ∷ []
unfolding usb_delivers
held-usb_out_completion s v p h pos le =
    let (below, aim, short, full) = v.armed h in
    let (eb, eh, en, el, e64) =
      arrival (usb_delivers p s) (usb_delivers-IsValid s v p) (length p) h pos le in
    packets-eq _ _ _ _ _ _ _ _ eb eh en el
    ∙ packets-set s.ring_buf _ (length p) s.count s.read_pos s.usb_target v.slots v.read_lt below
        (omega arith)
    ∙ ap₂ (λ l q. l ++ q ∷ [])
        (packets-empty s.ring_buf s.read_pos s.count packet_size (last_len s) (λ ne. sym (e64 ne)))
        (take-append_length p _)

-- Everything that can happen to the ring from `usbpipe_init` on: a packet arrives while the OUT
-- endpoint is armed, or the bridge has taken the packet that it was given. The two lists are the
-- packets that arrived and those that the bridge took.
pub data Reach : UsbPipe → List (List ℕ) → List (List ℕ) → Type 0 where
  begin : Reach (init boot) [] []
  arrive :
      {s : UsbPipe} {r f : List (List ℕ)} (p : List ℕ)
      → Reach s r f
      → s.usb_pending ≡ true
      → 0 < length p
      → length p ≤ packet_size
      → Reach (usb_out_completion (length p) (usb_delivers p s)) (r ++ p ∷ []) f
  forward :
      {s : UsbPipe} {r f : List (List ℕ)}
      → Reach s r f
      → s.bridge_pending ≡ true
      → Reach (bridge_in_completion s) r (f ++ handed_over s ∷ [])

pub Reach-IsValid : {s : UsbPipe} {r f : List (List ℕ)} → Reach s r f → IsValid s
Reach-IsValid begin = init-IsValid
Reach-IsValid (arrive {s} p r h pos le) = usb_out_completion-IsValid s (Reach-IsValid r) p h le
Reach-IsValid (forward {s} r h) = bridge_in_completion-IsValid s (Reach-IsValid r) h

awake_either : (s : UsbPipe) → IsValid s → (s.usb_pending ≡ true) ⊎ (s.bridge_pending ≡ true)
awake_either s v = ground arith

Reach-held : {s : UsbPipe} {r f : List (List ℕ)} → Reach s r f → r ≡ f ++ held s
unfolding init
Reach-held begin = refl
Reach-held (arrive {s} {r} {f} p q h pos le) =
    ap (λ l. l ++ p ∷ []) (Reach-held q)
    ∙ append_assoc f (held s) (p ∷ [])
    ∙ ap (λ l. f ++ l) (sym (held-usb_out_completion s (Reach-IsValid q) p h pos le))
Reach-held (forward {s} {r} {f} q h) =
    Reach-held q
    ∙ ap (λ l. f ++ l) (held-bridge_in_completion s (Reach-IsValid q) h)
    ∙ sym (append_assoc f (handed_over s ∷ []) (held (bridge_in_completion s)))

-- In every reachable state, if no packet is empty, what arrived over USB is what the bridge took
-- followed by what the ring holds: no packet is lost, repeated, reordered, cut or padded. And the
-- ring is never stuck: an interrupt of the USB endpoint or of the bridge is still to come.
pub Reach-fifo :
    {s : UsbPipe} {r f : List (List ℕ)}
    → Reach s r f
    → (r ≡ f ++ held s) × ((s.usb_pending ≡ true) ⊎ (s.bridge_pending ≡ true))
Reach-fifo {s} q = (Reach-held q, awake_either s (Reach-IsValid q))

-- In every state that usbpipe_init and the completions reach, if no packet is empty: while the USB
-- peripheral may write and the bridge may read, they use different slots, both inside the ring.
pub Reach-slots_apart :
    {s : UsbPipe} {r f : List (List ℕ)}
    → Reach s r f
    → s.usb_pending ≡ true
    → s.bridge_pending ≡ true
    → (s.usb_target ≢ s.in_slot)
      × (s.usb_target < length s.ring_buf)
      × (s.in_slot < length s.ring_buf)
Reach-slots_apart {s} q h k = valid_slots s (Reach-IsValid q) h k

-- An empty packet is taken for a full one: when it arrives at an empty ring, the code hands the
-- bridge all 64 bytes of the slot, whatever they are.
pub empty_packet :
    {s : UsbPipe}
    → IsValid s
    → s.usb_pending ≡ true
    → s.count ≡ 0
    → let t = usb_out_completion 0 (usb_delivers [] s) in
      (t.bridge_pending ≡ true)
      × (t.in_len ≡ packet_size)
      × (handed_over t ≡ take packet_size (get_or s.ring_buf s.usb_target []))
unfolding usb_out_completion usb_delivers
empty_packet {s} v h e = ground (
  arith,
  v.armed h,
  get_or-set_self s.ring_buf s.usb_target (get_or s.ring_buf s.usb_target []) [],
)
