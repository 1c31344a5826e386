-- ===== src/UsbExec/Daemon/Header.antt =====
-- The headers at which `handle_socket_readable` of soc/usbexecd.c gives up.
use t2_firmware.Prelude.{
  ℕ, ◌≡◌, ◌≢◌, ◌⊎◌, inl, inr, refl, ap, sym, ◌∙◌, List, [], ◌∷◌, ◌++◌, Option, none, some, length,
  take, take-append_length, arith,
}
use t2_firmware.UsbExec.{ok, stop, ◌>>=◌, fatal, bytes}
use t2_firmware.UsbExec.Gather.{AllBytes, stream, read_until-Gathers}
use t2_firmware.UsbExec.Daemon.{
  Daemon, Proc, proc_at, open_proc, host_cmd, dispatch, packet, handle_readable,
}

-- The process that CMD_OPEN is to start exists, or that of any other command but CMD_RESET does not.
abbrev pub IsMisplaced : (c : ℕ) → Option Proc → Type 0
IsMisplaced c p = ((c ≡ 1) × (p ≢ none)) ⊎ ((c ≢ 0) × ((c ≢ 1) × (p ≡ none)))

dispatch-in_use :
    (i a len : ℕ) (forked : Option ℕ) (p : Option Proc) (d : Daemon)
    → p ≢ none
    → dispatch open_proc i a len forked p d ≡ stop fatal
unfolding dispatch
dispatch-in_use i a len forked none d h = absurd (h refl)
dispatch-in_use i a len forked (some p) d h = refl

dispatch-missing :
    (c i a len : ℕ) (forked : Option ℕ) (d : Daemon)
    → c ≢ 0
    → c ≢ 1
    → dispatch (host_cmd c) i a len forked none d ≡ stop fatal
unfolding dispatch host_cmd
dispatch-missing c i a len forked d h k = ground arith

packet-IsMisplaced :
    (c i a len : ℕ) (forked : Option ℕ) (d : Daemon)
    → IsMisplaced c (proc_at d i)
    → packet forked d (bytes (c ∷ i ∷ a ∷ len ∷ [])) ≡ stop fatal
unfolding packet host_cmd
packet-IsMisplaced c i a len forked d (inl (e, h)) =
    ap (λ b. dispatch (host_cmd b) i a len forked (proc_at d i) d) e
    ∙ dispatch-in_use i a len forked (proc_at d i) d h
packet-IsMisplaced c i a len forked d (inr (h, (k, e))) =
    ap (λ p. dispatch (host_cmd c) i a len forked p d) e ∙ dispatch-missing c i a len forked d h k

first_bytes : (xs ys zs ws : List ℕ) → length xs ≡ length zs → xs ++ ys ≡ zs ++ ws → xs ≡ zs
first_bytes xs ys zs ws e h =
    sym (take-append_length xs ys)
    ∙ ap (λ n. take n (xs ++ ys)) e
    ∙ ap (take (length zs)) h
    ∙ take-append_length zs ws

-- However the kernel cuts the bytes that come over the socket, if no `read` of them fails: let the
-- next four be `c`, `i`, `a` and `len`. If `c` is CMD_OPEN (1) and the process `i` exists, or if `c` is
-- neither CMD_RESET (0) nor CMD_OPEN and there is no process `i`, then the daemon ends with an error,
-- whatever `fork` would return.
pub handle_readable-refuses :
    (c i a len : ℕ) (more : List ℕ) (forked : Option ℕ) (d : Daemon)
    → AllBytes d.io.reads
    → stream d.io.reads ≡ c ∷ i ∷ a ∷ len ∷ more
    → IsMisplaced c (proc_at d i)
    → handle_readable forked d ≡ stop fatal
unfolding handle_readable
handle_readable-refuses c i a len more forked d b e h =
    let header = c ∷ i ∷ a ∷ len ∷ [] in
    let s = read_until-Gathers d.io.reads 4 b (omega (arith, ap length e)) in
    let four : s.read ≡ header =
      first_bytes s.read (stream s.rest) header more s.count (sym s.in_order ∙ e) in
    ap (λ r. r >>= λ (g, rs). packet forked (record d { io = record (d.io) { reads = rs } }) g)
      (s.returns ∙ ap (λ xs. ok (bytes xs, s.rest)) four)
    ∙ packet-IsMisplaced c i a len forked (record d { io = record (d.io) { reads = s.rest } }) h
