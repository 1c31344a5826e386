-- ===== src/UsbExec/Handled.antt =====
-- What holds of a readable pipe of soc/usbexecd.c between two events, and that its closing keeps it.
use t2_firmware.Prelude.{
  ℕ, ◌+◌, ◌^◌, ◌<◌, ◌≡◌, refl, ap, ◌∙◌, ◌⊎◌, inl, [], ◌++◌, Bool, true, false, arith, length, ◌==◌,
  if◌then◌else◌, ◌&&◌, length-append, dec_lt,
}
use t2_firmware.UsbExec.{role_code, PipeBuf, pipe_size, header, close_fd, Io, log, Res, ok, ◌>>=◌}
use t2_firmware.UsbExec.Ring.{ring, contents, IsRing, length-ring}
use t2_firmware.UsbExec.Writing.{out, AllTake, total}
use t2_firmware.UsbExec.Packets.{IsUp, send_header-up}
use t2_firmware.UsbExec.Flow.{IsFifo}
use t2_firmware.UsbExec.Input.{close_if_done, in_close}

-- What holds of a readable pipe for which the host has granted `g` bytes so far, but for the last
-- step of a handler.
pub record IsOpenInput (g : ℕ) (p : PipeBuf) (io : Io) : Type 0 where
  pub is_ring : IsRing p
  pub opened : io.sock_open ≡ true
  pub sound : io.sock_broken ≡ false
  pub takes : AllTake io.writes
  pub fifo : IsFifo p io
  pub credit : p.credit + length (out io.calls) ≡ g
  pub granted_lt : g < 2 ^ 32
  pub closed : p.is_open ≡ false → (p.bufcount ≡ 0) × (p.polled ≡ false)
  pub watched : p.polled ≡ true → p.bufcount < pipe_size
  pub unwatched : p.is_open ≡ true → p.polled ≡ false → (p.eof ≡ true) ⊎ (p.bufcount ≡ pipe_size)

-- At the end of a handler, a pipe that has ended and is empty is closed.
abbrev pub IsInput : ℕ → PipeBuf → Io → Type 0
IsInput g p io = IsOpenInput g p io × (p.eof ≡ true → p.bufcount ≡ 0 → p.is_open ≡ false)

pub record Handled (g : ℕ) (r : Res (PipeBuf × Io)) : Type 0 where
  pub pipe : PipeBuf
  pub after : Io
  pub returns : r ≡ ok (pipe, after)
  pub valid : IsInput g pipe after

abbrev pub shut : PipeBuf → PipeBuf
shut p = record p {
  eof = true;
  is_open = false;
  polled = false;
  startpos = 0;
  endpos = 0;
  bufcount = 0;
}

abbrev pub shut_io : PipeBuf → Io → Io
shut_io p io = log (header (0x30 + role_code p.role) p.id 0 0) (log (close_fd p.id p.role) io)

pub IsUp-of : (g : ℕ) (p : PipeBuf) (io : Io) → IsOpenInput g p io → IsUp io
IsUp-of g p io v = record { opened = v.opened; sound = v.sound; takes = v.takes }

in_close-shut :
    (p : PipeBuf) (io : Io)
    → IsUp io
    → p.bufcount ≡ 0
    → p.is_open ≡ true
    → in_close false p io ≡ ok (shut p, shut_io p io)
unfolding in_close
in_close-shut p io u h k =
    ground
      (arith, send_header-up (0x30 + role_code p.role) p.id 0 0 (log (close_fd p.id p.role) io))

in_close-again :
    (p : PipeBuf) (io : Io)
    → p.bufcount ≡ 0
    → p.is_open ≡ false
    → in_close false p io ≡ ok (record p { eof = true }, io)
unfolding in_close
in_close-again p io h k = ground arith

pub contents-empty : (p : PipeBuf) → p.bufcount ≡ 0 → contents p ≡ []
contents-empty p h = ap (ring p.buffer p.startpos) h

shut-IsInput :
    (g : ℕ) (p : PipeBuf) (io : Io)
    → IsOpenInput g p io
    → p.bufcount ≡ 0
    → IsInput g (shut p) (shut_io p io)
shut-IsInput g p io v h = (
  record {
    is_ring = ground (arith, v.is_ring);
    opened = v.opened;
    sound = v.sound;
    takes = v.takes;
    fifo = v.fifo ∙ ap (λ l. out io.calls ++ l) (contents-empty p h);
    credit = v.credit;
    granted_lt = v.granted_lt;
    closed = λ _. (refl, refl);
    watched = ground arith;
    unwatched = ground arith;
  },
  λ _ _. refl,
)

in_close-kept :
    (p : PipeBuf) (io : Io)
    → 0 < p.bufcount
    → in_close false p io ≡ ok (record p { eof = true }, io)
unfolding in_close
in_close-kept p io h = ground arith

pub ended-IsOpenInput :
    (g : ℕ) (p : PipeBuf) (io : Io)
    → IsOpenInput g p io
    → IsOpenInput g (record p { eof = true }) io
ended-IsOpenInput g p io v = record {
  is_ring = ground (arith, v.is_ring);
  opened = v.opened;
  sound = v.sound;
  takes = v.takes;
  fifo = v.fifo;
  credit = v.credit;
  granted_lt = v.granted_lt;
  closed = v.closed;
  watched = v.watched;
  unwatched = λ _ _. inl refl;
}

abbrev pub handled :
    (g : ℕ) {r : Res (PipeBuf × Io)} (p : PipeBuf) (io : Io)
    → r ≡ ok (p, io)
    → IsInput g p io
    → Handled g r
handled g p io e v = record { pipe = p; after = io; returns = e; valid = v }

empty-Handled :
    (g : ℕ) (p : PipeBuf) (io : Io)
    → IsOpenInput g p io
    → p.bufcount ≡ 0
    → (b : Bool) → p.is_open ≡ b
    → Handled g (in_close false p io)
empty-Handled g p io v h true e =
    handled g (shut p) (shut_io p io) (in_close-shut p io (IsUp-of g p io v) h e)
      (shut-IsInput g p io v h)
empty-Handled g p io v h false e =
    handled g (record p { eof = true }) io (in_close-again p io h e)
      (ended-IsOpenInput g p io v, λ _ _. e)

-- CMD_CLOSE_STDOUT and CMD_CLOSE_STDERR
pub in_close-Handled :
    (g : ℕ) (p : PipeBuf) (io : Io) → IsOpenInput g p io → Handled g (in_close false p io)
in_close-Handled g p io v = elim (dec_lt 0 p.bufcount) [
  | yes h ↦
      handled g (record p { eof = true }) io (in_close-kept p io h)
        (ended-IsOpenInput g p io v, λ _ k. absurd (omega arith))
  | no h ↦ empty-Handled g p io v (omega arith) p.is_open refl
]

pub if-Handled :
    (g : ℕ) (b : Bool) {x y : Res (PipeBuf × Io)}
    → (b ≡ true → Handled g x)
    → (b ≡ false → Handled g y)
    → Handled g (if b then x else y)
if-Handled g true t e = t refl
if-Handled g false t e = e refl

pub if->>=-Handled :
    (g : ℕ) (b : Bool) (x y : Res (PipeBuf × Io)) (k : PipeBuf × Io → Res (PipeBuf × Io))
    → (b ≡ true → Handled g (x >>= k))
    → (b ≡ false → Handled g (y >>= k))
    → Handled g ((if b then x else y) >>= k)
if->>=-Handled g true x y k t e = t refl
if->>=-Handled g false x y k t e = e refl

pub close_if_done-Handled :
    (g : ℕ) (p : PipeBuf) (io : Io) → IsOpenInput g p io → Handled g (close_if_done p io)
unfolding close_if_done
close_if_done-Handled g p io v =
    if-Handled g (p.eof && p.bufcount == 0) (λ h. in_close-Handled g p io v)
      (λ h. handled g p io refl (v, ground arith))

pub >>=-Handled :
    (g : ℕ) (r : Res (PipeBuf × Io)) (k : PipeBuf × Io → Res (PipeBuf × Io)) (p : PipeBuf) (io : Io)
    → r ≡ ok (p, io)
    → Handled g (k (p, io))
    → Handled g (r >>= k)
>>=-Handled g r k p io e h = handled g h.pipe h.after (ap (λ x. x >>= k) e ∙ h.returns) h.valid

-- what sending keeps, whether the pipe is watched or not
pub length-out :
    (p q : PipeBuf) (io io' : Io) (n : ℕ)
    → total q io' ≡ total p io
    → q.bufcount + n ≡ p.bufcount
    → length (out io'.calls) ≡ length (out io.calls) + n
length-out p q io io' n e h = omega (
  arith,
  ap length e,
  length-append (out io'.calls) (contents q),
  length-append (out io.calls) (contents p),
  length-ring q.buffer q.startpos q.bufcount,
  length-ring p.buffer p.startpos p.bufcount,
)
