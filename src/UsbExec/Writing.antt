-- ===== src/UsbExec/Writing.antt =====
-- `write_from_pipebuf` of soc/usbexecd.c: what goes out is what the ring held, in order.
use t2_firmware.Prelude.{
  ℕ, zero, suc, ◌+◌, ◌-◌, ◌*◌, ◌≤◌, ◌<◌, ◌≡◌, refl, ap, ap₂, sym, subst, ◌∙◌, List, [], ◌∷◌, ◌++◌,
  arith, length, min, append_assoc,
}
use t2_firmware.UsbExec.{
  PipeBuf, pipe_size, Call, ack_size, sock_data, pipe_data, pipe_read, sock_read, Io, Write, wrote,
  refused, Res, ok, log,
}
use t2_firmware.UsbExec.Pipe.{
  read_at, until_end, at_end, Target, data_call, to_sock, to_pipe, write_loop, write_from_pipebuf,
}
use t2_firmware.UsbExec.Ring.{ring, contents, IsRing, ring-split, read_at-ring}

-- the bytes that went to the host or to the process, the first first
abbrev pub out : List Call → List ℕ
out [] = []
out (sock_data xs ∷ cs) = out cs ++ xs
out (pipe_data i r xs ∷ cs) = out cs ++ xs
out (_ ∷ cs) = out cs

-- the bytes that were read, the first first
abbrev pub received : List Call → List ℕ
received [] = []
received (pipe_read i r xs ∷ cs) = received cs ++ xs
received (sock_read xs ∷ cs) = received cs ++ xs
received (_ ∷ cs) = received cs

-- the number whose bytes these are, the lowest first
abbrev pub number : List ℕ → ℕ
number [] = 0
number (b ∷ bs) = b + 256 * number bs

-- the credit that the host was given in acknowledgements
abbrev pub acknowledged : List Call → ℕ
acknowledged [] = 0
acknowledged (ack_size bs ∷ cs) = acknowledged cs + number bs
acknowledged (_ ∷ cs) = acknowledged cs

-- Each `write` takes at least one byte.
abbrev pub AllTake : List Write → Type 0
AllTake [] = Unit {0}
AllTake (wrote k ∷ ws) = (0 < k) × AllTake ws
AllTake (refused ∷ ws) = ⊥

-- what a transfer leaves as it was
pub record Same (p q : PipeBuf) : Type 0 where
  pub id : q.id ≡ p.id
  pub role : q.role ≡ p.role
  pub eof : q.eof ≡ p.eof
  pub credit : q.credit ≡ p.credit
  pub is_open : q.is_open ≡ p.is_open
  pub polled : q.polled ≡ p.polled

pub record Settled (io io' : Io) : Type 0 where
  pub sock_open : io'.sock_open ≡ io.sock_open
  pub sock_broken : io'.sock_broken ≡ io.sock_broken
  pub reads : io'.reads ≡ io.reads
  pub acks : acknowledged io'.calls ≡ acknowledged io.calls

-- the bytes sent and those held are together what they were
abbrev pub total : PipeBuf → Io → List ℕ
total p io = out io.calls ++ contents p

pub record Sent (ws : List Write) (n : ℕ) (p : PipeBuf) (io : Io) (r : Res (PipeBuf × Io))
    : Type 0 where
  pub pipe : PipeBuf
  pub after : Io
  pub returns : r ≡ ok (pipe, after)
  pub is_ring : IsRing pipe
  pub same : Same p pipe
  pub settled : Settled io after
  pub counted : pipe.bufcount + n ≡ p.bufcount
  pub total_same : total pipe after ≡ total p io
  pub read_same : received after.calls ≡ received io.calls
  pub takes : AllTake after.writes
  pub left : length ws ≤ length after.writes + n

out-data :
    (t : Target) (p : PipeBuf) (xs : List ℕ) (cs : List Call)
    → out (data_call t p xs ∷ cs) ≡ out cs ++ xs
out-data to_sock p xs cs = refl
out-data to_pipe p xs cs = refl

received-data :
    (t : Target) (p : PipeBuf) (xs : List ℕ) (cs : List Call)
    → received (data_call t p xs ∷ cs) ≡ received cs
received-data to_sock p xs cs = refl
received-data to_pipe p xs cs = refl

-- the pipe after `m` bytes have gone
abbrev pub dropped : ℕ → PipeBuf → PipeBuf
dropped m p = record p { startpos = at_end (p.startpos + m); bufcount = p.bufcount - m }

module _ (p : PipeBuf) (v : IsRing p) (m : ℕ) (h : m ≤ p.bufcount)
    (k : p.startpos + m ≤ pipe_size) where
  pub dropped-IsRing : IsRing (dropped m p)
  dropped-IsRing = ground arith

  pub dropped-contents : contents p ≡ read_at p.buffer p.startpos m ++ contents (dropped m p)
  dropped-contents =
      ring-split p.buffer p.startpos m (p.bufcount - m) p.bufcount v.start_lt (omega arith)
      ∙ ap₂ ◌++◌ (sym (read_at-ring p.buffer p.startpos m k))
          (ap (λ i. ring p.buffer i (p.bufcount - m)) (ground arith))

-- how much one pass writes
abbrev pub pass_size : ℕ → ℕ → PipeBuf → ℕ
pass_size k n p = min k (until_end p.startpos n)

pub pass_io : ℕ → ℕ → Target → PipeBuf → Io → Io
pass_io k n t p io = log (data_call t p (read_at p.buffer p.startpos (pass_size k n p))) io

write_loop-wrote :
    (k : ℕ) (ws : List Write) (n : ℕ) (t : Target) (p : PipeBuf) (io : Io)
    → 0 < n
    → write_loop (wrote k ∷ ws) n t p io
      ≡ write_loop ws (n - pass_size k n p) t (dropped (pass_size k n p) p) (pass_io k n t p io)
unfolding write_loop pass_io
write_loop-wrote k ws n t p io h = ground arith

write_loop-done :
    (ws : List Write) (n : ℕ) (t : Target) (p : PipeBuf) (io : Io)
    → n ≡ 0
    → write_loop ws n t p io ≡ ok (p, record io { writes = ws })
unfolding write_loop
write_loop-done [] n t p io h = ground arith
write_loop-done (w ∷ ws) n t p io h = ground arith

done-Sent :
    (ws : List Write) (n : ℕ) (t : Target) (p : PipeBuf) (io : Io)
    → AllTake ws
    → IsRing p
    → n ≡ 0
    → Sent ws n p io (write_loop ws n t p io)
done-Sent ws n t p io a v h = record {
  pipe = p;
  after = record io { writes = ws };
  returns = write_loop-done ws n t p io h;
  is_ring = v;
  same = ground arith;
  settled = ground arith;
  counted = omega arith;
  total_same = refl;
  read_same = refl;
  takes = a;
  left = omega arith;
}

module _ (k n : ℕ) (t : Target) (p : PipeBuf) (io : Io) (v : IsRing p) (h : n ≤ p.bufcount) where
  pass_total : total (dropped (pass_size k n p) p) (pass_io k n t p io) ≡ total p io
  unfolding pass_io
  pass_total =
      let m : ℕ = pass_size k n p in
      let xs = read_at p.buffer p.startpos m in
      ap (λ o. o ++ contents (dropped m p)) (out-data t p xs io.calls)
      ∙ append_assoc (out io.calls) xs (contents (dropped m p))
      ∙ ap (λ c. out io.calls ++ c) (sym (dropped-contents p v m (ground arith) (ground arith)))

  pass_size-bounds :
      0 < k
      → 0 < n
      → (pass_size k n p ≤ n) × (0 < pass_size k n p) × (p.startpos + pass_size k n p ≤ pipe_size)
  pass_size-bounds a b = ground arith

  pass-Sent :
      (ws : List Write) (r : Res (PipeBuf × Io))
      → 0 < k
      → 0 < n
      → Sent ws (n - pass_size k n p) (dropped (pass_size k n p) p) (pass_io k n t p io) r
      → Sent (wrote k ∷ ws) n p io r
  unfolding pass_io
  pass-Sent ws r a b s = record {
    pipe = s.pipe;
    after = s.after;
    returns = s.returns;
    is_ring = s.is_ring;
    same = ground (arith, s.same);
    settled = ground (arith, s.settled);
    counted = omega (arith, s.counted, pass_size-bounds a b);
    total_same = s.total_same ∙ pass_total;
    read_same =
        s.read_same ∙ received-data t p (read_at p.buffer p.startpos (pass_size k n p)) io.calls;
    takes = s.takes;
    left = omega (arith, s.left, pass_size-bounds a b);
  }

pub write_loop-Sent :
    (ws : List Write) (n : ℕ) (t : Target) (p : PipeBuf) (io : Io)
    → AllTake ws
    → IsRing p
    → n ≤ p.bufcount
    → n ≤ length ws
    → Sent ws n p io (write_loop ws n t p io)
write_loop-Sent [] n t p io a v h l = done-Sent [] n t p io a v (omega arith)
write_loop-Sent (w ∷ ws) zero t p io a v h l = done-Sent (w ∷ ws) 0 t p io a v refl
write_loop-Sent (refused ∷ ws) (suc n) t p io a v h l = elim a [ ]
write_loop-Sent (wrote k ∷ ws) (suc n) t p io a v h l =
    let m : ℕ = pass_size k (suc n) p in
    let b = pass_size-bounds k (suc n) t p io v h a.0 (omega arith) in
    subst (Sent (wrote k ∷ ws) (suc n) p io)
      (sym (write_loop-wrote k ws (suc n) t p io (omega arith)))
      (pass-Sent k (suc n) t p io v h ws
        (write_loop ws (suc n - m) t (dropped m p) (pass_io k (suc n) t p io)) a.0 (omega arith)
        (write_loop-Sent ws (suc n - m) t (dropped m p) (pass_io k (suc n) t p io) a.1
          (dropped-IsRing p v m (omega (arith, b)) b.2) (omega (arith, b)) (omega (arith, b))))

-- If each `write` takes at least one byte and enough answers are there, `write_from_pipebuf`
-- returns; what it sends and what the ring then holds are together, in order, what the ring held,
-- and the ring stays well formed and holds `n` bytes fewer.
pub write_from_pipebuf-Sent :
    (n : ℕ) (t : Target) (p : PipeBuf) (io : Io)
    → AllTake io.writes
    → IsRing p
    → n ≤ p.bufcount
    → n ≤ length io.writes
    → Sent io.writes n p io (write_from_pipebuf n t p io)
unfolding write_from_pipebuf
write_from_pipebuf-Sent n t p io a v h l = write_loop-Sent io.writes n t p io a v h l
