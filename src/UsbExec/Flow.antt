-- ===== src/UsbExec/Flow.antt =====
-- A readable pipe of soc/usbexecd.c between two events: order of the bytes, credit, and epoll.
use t2_firmware.Prelude.{
  ℕ, ◌+◌, ◌-◌, ◌≤◌, ◌<◌, ◌≡◌, refl, ap, sym, ◌∙◌, ◌⊎◌, inl, inr, List, [], ◌∷◌, ◌++◌, Bool, true,
  false, arith, length, take, length-take, append_assoc, leb, if◌then◌else◌,
}
use t2_firmware.UsbExec.{
  epoll_del, PipeBuf, pipe_size, pipe_read, Io, log, Read, got, again, failed, Res, ok,
}
use t2_firmware.UsbExec.Pipe.{until_end, delete_epoll}
use t2_firmware.UsbExec.Ring.{contents, IsRing, store_lem}
use t2_firmware.UsbExec.Writing.{out, received, total}
use t2_firmware.UsbExec.Packets.{IsUp}
use t2_firmware.UsbExec.Input.{store, in_loop}

-- What was read is what went out, followed by what the ring holds.
abbrev pub IsFifo : PipeBuf → Io → Type 0
IsFifo p io = received io.calls ≡ total p io

-- No `read` fails but by EAGAIN.
abbrev pub AllRead : List Read → Type 0
AllRead [] = Unit {0}
AllRead (failed ∷ rs) = ⊥
AllRead (_ ∷ rs) = AllRead rs

-- what the read loop leaves
pub record Looped (p : PipeBuf) (io : Io) (r : Res (PipeBuf × Io)) : Type 0 where
  pub pipe : PipeBuf
  pub after : Io
  pub returns : r ≡ ok (pipe, after)
  pub is_ring : IsRing pipe
  pub credit : pipe.credit ≡ p.credit
  pub is_open : pipe.is_open ≡ p.is_open
  pub eof : p.eof ≡ true → pipe.eof ≡ true
  pub polled :
      (pipe.polled ≡ true)
      ⊎ ((pipe.polled ≡ false) × (pipe.eof ≡ true) × (pipe.bufcount < pipe_size))
  pub up : IsUp after
  pub writes : after.writes ≡ io.writes
  pub out_same : out after.calls ≡ out io.calls
  pub fifo : IsFifo p io → IsFifo pipe after

if-Looped :
    (b : Bool) (p : PipeBuf) (io : Io) {x y : Res (PipeBuf × Io)}
    → (b ≡ true → Looped p io x)
    → (b ≡ false → Looped p io y)
    → Looped p io (if b then x else y)
if-Looped true p io t e = t refl
if-Looped false p io t e = e refl

stay-Looped :
    (p : PipeBuf) (io : Io) → IsUp io → IsRing p → p.polled ≡ true → Looped p io (ok (p, io))
stay-Looped p io u v w = record {
  pipe = p;
  after = io;
  returns = refl;
  is_ring = v;
  credit = refl;
  is_open = refl;
  eof = λ h. h;
  polled = inl w;
  up = u;
  writes = refl;
  out_same = refl;
  fifo = λ h. h;
}

pub delete_epoll-ok :
    (p : PipeBuf) (io : Io)
    → p.polled ≡ true
    → delete_epoll p io ≡ ok (record p { polled = false }, log (epoll_del p.id p.role) io)
unfolding delete_epoll
delete_epoll-ok p io h = ground arith

ended : PipeBuf → PipeBuf
ended p = record p { eof = true }

eof-Looped :
    (p : PipeBuf) (io : Io)
    → IsUp io
    → IsRing p
    → p.polled ≡ true
    → p.bufcount < pipe_size
    → Looped p io (delete_epoll (record p { eof = true }) io)
eof-Looped p io u v w h = record {
  pipe = record p { eof = true; polled = false };
  after = log (epoll_del p.id p.role) io;
  returns = delete_epoll-ok (record p { eof = true }) io w;
  is_ring = ground arith;
  credit = refl;
  is_open = refl;
  eof = λ _. refl;
  polled = inr (refl, refl, h);
  up = ground arith;
  writes = refl;
  out_same = refl;
  fifo = λ e. e;
}

-- one `read` of the bytes `ys`, then the rest of the loop
stored-Looped :
    (ys : List ℕ) (p : PipeBuf) (io : Io) (r : Res (PipeBuf × Io))
    → IsRing p
    → p.bufcount + length ys ≤ pipe_size
    → p.endpos + length ys ≤ pipe_size
    → Looped (store ys p) (log (pipe_read p.id p.role ys) io) r
    → Looped p io r
unfolding store
stored-Looped ys p io r v h k s = record {
  pipe = s.pipe;
  after = s.after;
  returns = s.returns;
  is_ring = s.is_ring;
  credit = s.credit;
  is_open = s.is_open;
  eof = s.eof;
  polled = s.polled;
  up = s.up;
  writes = s.writes;
  out_same = s.out_same;
  fifo = λ e. s.fifo (
      ap (λ l. l ++ ys) e
      ∙ append_assoc (out io.calls) (contents p) ys
      ∙ ap (λ l. out io.calls ++ l) (sym (store_lem ys p v h k).1));
}

-- how much a `read` asks for
abbrev room : PipeBuf → ℕ
room p = until_end p.endpos (pipe_size - p.bufcount)

room-take :
    (xs : List ℕ) (p : PipeBuf)
    → IsRing p
    → p.bufcount < pipe_size
    → (p.bufcount + length (take (room p) xs) ≤ pipe_size)
      × (p.endpos + length (take (room p) xs) ≤ pipe_size)
room-take xs p v h = ground (arith, length-take (room p) xs)

stored-polled : (ys : List ℕ) (p : PipeBuf) → (store ys p).polled ≡ p.polled
unfolding store
stored-polled ys p = refl

pub in_loop-Looped :
    (rs : List Read) (p : PipeBuf) (io : Io)
    → AllRead rs
    → IsUp io
    → IsRing p
    → p.polled ≡ true
    → Looped p io (in_loop rs p io)
unfolding in_loop
in_loop-Looped [] p io a u v w = stay-Looped p io u v w
in_loop-Looped (again ∷ rs) p io a u v w = stay-Looped p io u v w
in_loop-Looped (failed ∷ rs) p io a u v w = elim a [ ]
in_loop-Looped (got [] ∷ rs) p io a u v w =
    if-Looped (leb pipe_size p.bufcount) p io (λ _. stay-Looped p io u v w)
      (λ h. eof-Looped p io u v w (ground arith))
in_loop-Looped (got (x ∷ xs) ∷ rs) p io a u v w =
    let ys = take (room p) (x ∷ xs) in
    let io' = log (pipe_read p.id p.role ys) io in
    if-Looped (leb pipe_size p.bufcount) p io (λ _. stay-Looped p io u v w)
      (λ h.
        let b = room-take (x ∷ xs) p v (ground arith) in
        stored-Looped ys p io (in_loop rs (store ys p) io') v b.0 b.1 (
          in_loop-Looped rs (store ys p) io' a (ground arith) (store_lem ys p v b.0 b.1).0
            (stored-polled ys p ∙ w)))
