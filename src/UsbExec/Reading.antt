-- ===== src/UsbExec/Reading.antt =====
-- `pipebuf_in_to_internal_buffer` of soc/usbexecd.c as a whole.
use t2_firmware.Prelude.{
  ℕ, ◌+◌, ◌^◌, ◌≤◌, ◌<◌, ◌≡◌, ap, ap₂, sym, ◌∙◌, ◌⊎◌, List, true, false, arith, length, ltb, ◌==◌,
  if◌then◌else◌, not, ◌&&◌,
}
use t2_firmware.UsbExec.{PipeBuf, pipe_size, epoll_del, Io, log, Read, Res, ok, ◌>>=◌}
use t2_firmware.UsbExec.Pipe.{delete_epoll}
use t2_firmware.UsbExec.Ring.{IsRing}
use t2_firmware.UsbExec.Writing.{out}
use t2_firmware.UsbExec.Packets.{IsUp, Paid, write_to_sock-Paid}
use t2_firmware.UsbExec.Flow.{IsFifo, AllRead, in_loop-Looped, delete_epoll-ok}
use t2_firmware.UsbExec.Input.{in_loop, in_readable, write_to_sock, sendable, close_if_done}
use t2_firmware.UsbExec.Handled.{
  IsOpenInput, IsInput, Handled, handled, IsUp-of, if-Handled, if->>=-Handled,
  close_if_done-Handled, >>=-Handled, length-out,
}

-- the end of `pipebuf_in_to_internal_buffer`
finish : PipeBuf × Io → Res (PipeBuf × Io)
finish (r, io) = if r.bufcount == pipe_size then delete_epoll r io else close_if_done r io

sent-finish :
    (g : ℕ) (p : PipeBuf) (io : Io)
    → IsRing p
    → IsUp io
    → IsFifo p io
    → p.credit + length (out io.calls) ≡ g
    → g < 2 ^ 32
    → p.is_open ≡ true
    → (p.polled ≡ true) ⊎ ((p.polled ≡ false) × (p.eof ≡ true) × (p.bufcount < pipe_size))
    → Handled g (finish (p, io))
unfolding finish
sent-finish g p io v u f c l o w =
    if-Handled g (p.bufcount == pipe_size)
      (λ h.
        handled g (record p { polled = false }) (log (epoll_del p.id p.role) io)
          (delete_epoll-ok p io (ground arith)) (ground arith))
      (λ h. close_if_done-Handled g p io (ground arith))

-- the middle of `pipebuf_in_to_internal_buffer`: send what the credit allows
middle : PipeBuf × Io → Res (PipeBuf × Io)
middle (q, io) =
    (if not (q.credit == 0) && ltb 0 q.bufcount then write_to_sock q.bufcount q io else ok (q, io))
    >>= finish

paid-finish :
    (g n : ℕ) (p : PipeBuf) (io : Io) (r : Res (PipeBuf × Io))
    → (s : Paid n p io r) → IsFifo p io
    → p.credit + length (out io.calls) ≡ g
    → g < 2 ^ 32
    → p.is_open ≡ true
    → (p.polled ≡ true) ⊎ ((p.polled ≡ false) × (p.eof ≡ true) × (p.bufcount < pipe_size))
    → Handled g (r >>= finish)
paid-finish g n p io r s f c l o w = >>=-Handled g r finish s.pipe s.after s.returns (
    sent-finish g s.pipe s.after s.is_ring s.up (s.read_same ∙ f ∙ sym s.total_same)
      (omega (arith, length-out p s.pipe io s.after n s.total_same s.counted, s.credit)) l
      (s.is_open ∙ o) (ground (arith, s.polled, s.eof, s.counted)))

middle-Handled :
    (g : ℕ) (p : PipeBuf) (io : Io)
    → IsRing p
    → IsUp io
    → IsFifo p io
    → p.credit + length (out io.calls) ≡ g
    → g < 2 ^ 32
    → p.is_open ≡ true
    → (p.polled ≡ true) ⊎ ((p.polled ≡ false) × (p.eof ≡ true) × (p.bufcount < pipe_size))
    → p.bufcount ≤ length io.writes
    → Handled g (middle (p, io))
unfolding middle
middle-Handled g p io v u f c l o w k =
    let x = write_to_sock p.bufcount p io in
    if->>=-Handled g (not (p.credit == 0) && ltb 0 p.bufcount) x (ok (p, io)) finish
      (λ _.
        paid-finish g (sendable p.bufcount p) p io x
          (write_to_sock-Paid p.bufcount p io u v (omega arith) k) f c l o w)
      (λ _. sent-finish g p io v u f c l o w)

watched-open :
    (g : ℕ) (p : PipeBuf) (io : Io) → IsOpenInput g p io → p.polled ≡ true → p.is_open ≡ true
watched-open g p io v w = ground arith

-- A pipe is read when epoll watches it.
pub in_readable-Handled :
    (g : ℕ) (rs : List Read) (p : PipeBuf) (io : Io)
    → AllRead rs
    → IsInput g p io
    → p.polled ≡ true
    → pipe_size ≤ length io.writes
    → Handled g (in_readable rs p io)
unfolding in_readable middle finish
in_readable-Handled g rs p io a v w l =
    let s = in_loop-Looped rs p io a (IsUp-of g p io v.0) v.0.is_ring w in
    >>=-Handled g (in_loop rs p io) middle s.pipe s.after s.returns (
      middle-Handled g s.pipe s.after s.is_ring s.up (s.fifo v.0.fifo)
        (ap₂ ◌+◌ s.credit (ap length s.out_same) ∙ v.0.credit) v.0.granted_lt
        (s.is_open ∙ watched-open g p io v.0 w) s.polled
        (omega (arith, s.is_ring.count_le, ap length s.writes)))
