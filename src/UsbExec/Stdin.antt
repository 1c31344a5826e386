-- ===== src/UsbExec/Stdin.antt =====
-- A writable pipe of soc/usbexecd.c: what holds of it between two events, and bytes of the host.
use t2_firmware.Prelude.{
  ℕ, ◌+◌, ◌≤◌, ◌<◌, ◌≡◌, ap, sym, subst, true, false, List, ◌++◌, length, length-append, arith,
  length-replicate, dec_lt,
}
use t2_firmware.UsbExec.{
  Role, role_code, Read, PipeBuf, pipe_size, add32, header, ack_size, epoll_add, Io, log, Res, ok,
  ◌>>=◌,
}
use t2_firmware.UsbExec.Ring.{IsRing, contents, length-contents}
use t2_firmware.UsbExec.Writing.{AllTake}
use t2_firmware.UsbExec.Packets.{IsUp, send_header-up}
use t2_firmware.UsbExec.Flow.{IsFifo}
use t2_firmware.UsbExec.Gather.{AllBytes, stream}
use t2_firmware.UsbExec.Filling.{fill-Filled}
use t2_firmware.UsbExec.Input.{After, kept, new_pipe}
use t2_firmware.UsbExec.Output.{encode, out_ack, out_init, fill, out_receive}

-- what holds of a writable pipe between two events
pub record IsOutput (p : PipeBuf) (io : Io) : Type 0 where
  pub is_ring : IsRing p
  pub opened : io.sock_open ≡ true
  pub sound : io.sock_broken ≡ false
  pub fifo : IsFifo p io
  pub balance : p.credit + p.bufcount ≡ pipe_size
  pub watched : p.polled ≡ true → (p.is_open ≡ true) × (0 < p.bufcount)
  pub waits : 0 < p.bufcount → p.polled ≡ true
  pub done : p.eof ≡ true → p.bufcount ≡ 0 → p.is_open ≡ false
  pub closed : p.is_open ≡ false → p.eof ≡ true

-- What a packet of `n` bytes leaves of a pipe that held the bytes `held`, where the socket has the
-- answers `reads`: the bytes that come first are behind those that the ring held, and the others are
-- still to be read.
pub record Kept (n : ℕ) (held : List ℕ) (reads : List Read) (r : Res (After × Io)) : Type 0 where
  pub pipe : PipeBuf
  pub after : Io
  pub returns : r ≡ ok (kept pipe, after)
  pub valid : IsOutput pipe after
  pub arrived : List ℕ
  pub count : length arrived ≡ n
  pub in_order : stream reads ≡ arrived ++ stream after.reads
  pub stored : contents pipe ≡ held ++ arrived

pub out_ack-up :
    (n : ℕ) (p : PipeBuf) (io : Io)
    → IsUp io
    → out_ack n p io
      ≡ ok (
        record p { credit = add32 p.credit n },
        log (ack_size (encode n)) (log (header (0x20 + role_code p.role) p.id 0 4) io),
      )
unfolding out_ack
out_ack-up n p io u = ground (arith, send_header-up (0x20 + role_code p.role) p.id 0 4 io u)

-- the pipe as it is first, and the calls made for it
abbrev first_io : ℕ → Role → Io → Io
first_io i r io = log (ack_size (encode pipe_size)) (log (header (0x20 + role_code r) i 0 4) io)

pub out_init-IsOutput :
    (i : ℕ) (r : Role) (io : Io)
    → IsUp io
    → IsFifo (record (new_pipe i r) { credit = pipe_size }) io
    → (q : PipeBuf) × (io' : Io) × (out_init i r io ≡ ok (q, io')) × IsOutput q io'
unfolding out_init new_pipe
out_init-IsOutput i r io u f =
    let p = new_pipe i r in
    (
      record p { credit = pipe_size },
      first_io i r io,
      ap (λ x. x >>= λ (q, io'). ok (record q { credit = pipe_size }, io'))
          (out_ack-up pipe_size p io u),
      record {
        is_ring = record {
          slots = length-replicate {A = ℕ} pipe_size 0;
          start_lt = omega arith;
          count_le = omega arith;
          end_at = omega arith;
        };
        opened = u.opened;
        sound = u.sound;
        fifo = f;
        balance = omega arith;
        watched = ground arith;
        waits = ground arith;
        done = ground arith;
        closed = ground arith;
      },
    )

-- the pipe when it is filled from: on epoll if it has or gets bytes
record IsFilling (n : ℕ) (p : PipeBuf) (io : Io) : Type 0 where
  is_ring : IsRing p
  opened : io.sock_open ≡ true
  sound : io.sock_broken ≡ false
  fifo : IsFifo p io
  balance : p.credit + p.bufcount ≡ pipe_size
  polled : 0 < p.bufcount + n → p.polled ≡ true
  watched : p.polled ≡ true → 0 < p.bufcount + n
  is_open : p.is_open ≡ true
  eof : p.eof ≡ false

filled-Kept :
    (n : ℕ) (p : PipeBuf) (io : Io)
    → IsFilling n p io
    → AllTake io.writes
    → n ≤ p.credit
    → AllBytes io.reads
    → n ≤ length (stream io.reads)
    → Kept n (contents p) io.reads (fill n n p io)
filled-Kept n p io v t h a l =
    let s =
      fill-Filled n n p io (omega arith) (record { opened = v.opened; sound = v.sound; takes = t })
        v.is_ring (omega (arith, v.balance)) h (omega (arith, v.balance)) a l in
    record {
      pipe = s.pipe;
      after = s.after;
      returns = s.returns;
      valid = record {
        is_ring = s.is_ring;
        opened = s.up.opened;
        sound = s.up.sound;
        fifo = s.fifo v.fifo;
        balance = omega (arith, s.count, s.credit, v.balance);
        watched = ground (arith, s.count, s.polled, s.is_open, v.watched, v.is_open);
        waits = ground (arith, s.count, s.polled, v.polled);
        done = ground (arith, s.eof, v.eof);
        closed = ground (arith, s.is_open, v.is_open);
      };
      arrived = s.arrived;
      count = omega (
        arith,
        s.count,
        length-contents p,
        length-contents s.pipe,
        ap length s.stored,
        length-append (contents p) s.arrived,
      );
      in_order = s.in_order;
      stored = s.stored;
    }

abbrev polling : PipeBuf → PipeBuf
polling p = record p { polled = true }

out_receive-first :
    (n : ℕ) (p : PipeBuf) (io : Io)
    → p.eof ≡ false
    → p.polled ≡ false
    → p.is_open ≡ true
    → p.bufcount ≡ 0
    → 0 < n
    → out_receive n p io ≡ fill n n (polling p) (log (epoll_add p.id p.role) io)
unfolding out_receive
out_receive-first n p io e w o h k = ground arith

out_receive-more :
    (n : ℕ) (p : PipeBuf) (io : Io)
    → p.eof ≡ false
    → (p.bufcount ≡ 0 → n ≡ 0)
    → out_receive n p io ≡ fill n n p io
unfolding out_receive
out_receive-more n p io e h = ground arith

-- Take a writable pipe as it is between two events, not closed by the host, and a packet of `n` bytes,
-- at most the credit. If `n` bytes come and no `read` of the socket fails, however the bytes are cut,
-- and each `write` to come takes a byte: the next `n` bytes that come over the socket follow, in order,
-- those that the ring held, the later ones are left to be read, and what holds of a writable pipe
-- between two events holds again: credit and bytes held make 32768 together, and epoll watches the
-- pipe just as long as it holds bytes.
pub out_receive-Kept :
    (n : ℕ) (p : PipeBuf) (io : Io)
    → IsOutput p io
    → AllTake io.writes
    → p.eof ≡ false
    → n ≤ p.credit
    → AllBytes io.reads
    → n ≤ length (stream io.reads)
    → Kept n (contents p) io.reads (out_receive n p io)
out_receive-Kept n p io v t e h a l = elim (dec_lt 0 n) [
  | yes k ↦ elim (dec_lt 0 p.bufcount) [
    | yes b ↦
        subst (Kept n (contents p) io.reads)
          (sym (out_receive-more n p io e (λ z. absurd (omega arith))))
          (filled-Kept n p io (ground arith) t h a l)
    | no b ↦
        subst (Kept n (contents p) io.reads)
          (sym (out_receive-first n p io e (ground arith) (ground arith) (omega arith) k))
          (filled-Kept n (polling p) (log (epoll_add p.id p.role) io) (ground arith) t h a l)
  ]
  | no k ↦
      subst (Kept n (contents p) io.reads) (sym (out_receive-more n p io e (λ _. omega arith)))
        (filled-Kept n p io (ground arith) t h a l)
]
