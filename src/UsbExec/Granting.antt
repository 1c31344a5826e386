-- ===== src/UsbExec/Granting.antt =====
-- `pipebuf_in_ack` of soc/usbexecd.c: the host grants credit.
use t2_firmware.Prelude.{
  ℕ, ◌+◌, ◌^◌, ◌≤◌, ◌<◌, ◌≡◌, refl, sym, ◌∙◌, ◌⊎◌, inr, true, false, arith, length, ltb, ◌==◌,
  if◌then◌else◌, ◌&&◌,
}
use t2_firmware.UsbExec.{PipeBuf, pipe_size, add32, epoll_add, Io, log, Res, ok, ◌>>=◌}
use t2_firmware.UsbExec.Pipe.{add_epoll}
use t2_firmware.UsbExec.Ring.{IsRing}
use t2_firmware.UsbExec.Writing.{out, AllTake}
use t2_firmware.UsbExec.Packets.{IsUp, Paid, write_to_sock-Paid}
use t2_firmware.UsbExec.Flow.{IsFifo}
use t2_firmware.UsbExec.Input.{write_to_sock, sendable, close_if_done, grant}
use t2_firmware.UsbExec.Handled.{
  IsOpenInput, IsInput, Handled, if->>=-Handled, close_if_done-Handled, >>=-Handled, length-out,
}

-- the pipe after `n` bytes more are granted
granted : ℕ → PipeBuf → PipeBuf
granted n p = record p { credit = add32 p.credit n }

-- the end of `pipebuf_in_ack`
send_granted : ℕ → PipeBuf × Io → Res (PipeBuf × Io)
send_granted n (q, io) =
    let r = granted n q in
    (if ltb 0 r.bufcount
      then write_to_sock (if ltb r.bufcount n then r.bufcount else n) r io
      else ok (r, io))
    >>= λ (s, io'). close_if_done s io'

Paid-IsOpenInput :
    (g n : ℕ) (p : PipeBuf) (io : Io) (r : Res (PipeBuf × Io))
    → (s : Paid n p io r) → IsFifo p io
    → p.credit + length (out io.calls) ≡ g
    → g < 2 ^ 32
    → p.is_open ≡ true
    → (p.polled ≡ true → p.bufcount < pipe_size + n)
    → (p.polled ≡ false → (p.eof ≡ true) ⊎ (p.bufcount ≡ pipe_size + n))
    → IsOpenInput g s.pipe s.after
Paid-IsOpenInput g n p io r s f c l o w x = record {
  is_ring = s.is_ring;
  opened = s.up.opened;
  sound = s.up.sound;
  takes = s.up.takes;
  fifo = s.read_same ∙ f ∙ sym s.total_same;
  credit = omega (arith, length-out p s.pipe io s.after n s.total_same s.counted, s.credit, c);
  granted_lt = l;
  closed = ground (arith, s.is_open);
  watched = ground (arith, s.polled, s.counted);
  unwatched = ground (arith, s.polled, s.counted, s.eof);
}

-- a pipe that `pipebuf_in_ack` has put on epoll again if it was full
record IsRefilled (n g : ℕ) (p : PipeBuf) (io : Io) : Type 0 where
  is_ring : IsRing p
  opened : io.sock_open ≡ true
  sound : io.sock_broken ≡ false
  takes : AllTake io.writes
  fifo : IsFifo p io
  credit : p.credit + length (out io.calls) ≡ g
  granted_lt : g + n < 2 ^ 32
  closed : p.is_open ≡ false → (p.bufcount ≡ 0) × (p.polled ≡ false)
  watched : p.polled ≡ true → (p.bufcount < pipe_size) ⊎ (0 < n)
  unwatched :
      p.is_open ≡ true → p.polled ≡ false → (p.eof ≡ true) ⊎ ((p.bufcount ≡ pipe_size) × (n ≡ 0))

granted-credit :
    (n g : ℕ) (p : PipeBuf) (io : Io) → IsRefilled n g p io → (granted n p).credit ≡ p.credit + n
unfolding granted
granted-credit n g p io v = omega (arith, v.credit, v.granted_lt)

module _ (n g : ℕ) (p : PipeBuf) (io : Io) (v : IsRefilled n g p io) where
  none_granted : p.bufcount ≡ 0 → IsOpenInput (g + n) (granted n p) io
  unfolding granted
  none_granted h = record {
    is_ring = ground (arith, v.is_ring);
    opened = v.opened;
    sound = v.sound;
    takes = v.takes;
    fifo = v.fifo;
    credit = omega (arith, v.credit, v.granted_lt);
    granted_lt = v.granted_lt;
    closed = v.closed;
    watched = ground arith;
    unwatched = ground (arith, v.unwatched);
  }

  granted-IsRing : IsRing (granted n p)
  unfolding granted
  granted-IsRing = ground (arith, v.is_ring)

  some_granted :
      0 < p.bufcount
      → p.bufcount ≤ length io.writes
      → Handled (g + n) (
          write_to_sock (if ltb p.bufcount n then p.bufcount else n) (granted n p) io
          >>= λ (s, io'). close_if_done s io')
  unfolding granted
  some_granted h l =
      let m : ℕ = if ltb p.bufcount n then p.bufcount else n in
      let u : IsUp io = record { opened = v.opened; sound = v.sound; takes = v.takes } in
      let r = write_to_sock m (granted n p) io in
      let s = write_to_sock-Paid m (granted n p) io u granted-IsRing (omega arith) l in
      >>=-Handled (g + n) r (λ (s, io'). close_if_done s io') s.pipe s.after s.returns
        (close_if_done-Handled (g + n) s.pipe s.after (
          Paid-IsOpenInput (g + n) (sendable m (granted n p)) (granted n p) io r s v.fifo
            (omega (arith, v.credit, v.granted_lt)) v.granted_lt (ground arith) (ground arith)
            (ground arith)))

  send_granted-Handled : p.bufcount ≤ length io.writes → Handled (g + n) (send_granted n (p, io))
  unfolding send_granted granted
  send_granted-Handled l =
      if->>=-Handled (g + n) (ltb 0 p.bufcount)
        (write_to_sock (if ltb p.bufcount n then p.bufcount else n) (granted n p) io)
        (ok (granted n p, io)) (λ (s, io'). close_if_done s io')
        (λ h. some_granted (ground arith) l)
        (λ h. close_if_done-Handled (g + n) (granted n p) io (none_granted (ground arith)))

-- `add_pipebuf_epoll` on a full pipe
refilled : PipeBuf → PipeBuf
refilled p = record p { polled = true }

add_epoll-ok :
    (p : PipeBuf) (io : Io)
    → p.polled ≡ false
    → p.is_open ≡ true
    → add_epoll p io ≡ ok (refilled p, log (epoll_add p.id p.role) io)
unfolding add_epoll refilled
add_epoll-ok p io h k = ground arith

module _ (n g : ℕ) (p : PipeBuf) (io : Io) (v : IsInput g p io) (b : g + n < 2 ^ 32) where
  full-IsRefilled :
      p.bufcount ≡ pipe_size → 0 < n → IsRefilled n g (refilled p) (log (epoll_add p.id p.role) io)
  unfolding refilled
  full-IsRefilled h k = record {
    is_ring = ground (arith, v.0.is_ring);
    opened = v.0.opened;
    sound = v.0.sound;
    takes = v.0.takes;
    fifo = v.0.fifo;
    credit = v.0.credit;
    granted_lt = b;
    closed = ground (arith, v.0.closed);
    watched = λ _. inr k;
    unwatched = ground arith;
  }

  same-IsRefilled : ((p.bufcount ≡ pipe_size) → n ≡ 0) → IsRefilled n g p io
  same-IsRefilled h = record {
    is_ring = v.0.is_ring;
    opened = v.0.opened;
    sound = v.0.sound;
    takes = v.0.takes;
    fifo = v.0.fifo;
    credit = v.0.credit;
    granted_lt = b;
    closed = v.0.closed;
    watched = ground arith;
    unwatched = ground arith;
  }

  refilled-count : (refilled p).bufcount ≡ p.bufcount
  unfolding refilled
  refilled-count = refl

  full-closed : p.bufcount ≡ pipe_size → (p.polled ≡ false) × (p.is_open ≡ true)
  full-closed h = ground arith

  -- `pipebuf_in_ack`, once the number is read
  pub grant-Handled : pipe_size ≤ length io.writes → Handled (g + n) (grant n p io)
  unfolding grant send_granted granted
  grant-Handled l =
      if->>=-Handled (g + n) (p.bufcount == pipe_size && ltb 0 n) (add_epoll p io) (ok (p, io))
        (send_granted n)
        (λ h.
          let q = refilled p in
          let io' = log (epoll_add p.id p.role) io in
          let c : p.bufcount ≡ pipe_size = ground arith in
          >>=-Handled (g + n) (add_epoll p io) (send_granted n) q io'
            (add_epoll-ok p io (full-closed c).0 (full-closed c).1)
            (send_granted-Handled n g q io' (full-IsRefilled c (ground arith))
              (omega (arith, refilled-count))))
        (λ h.
          send_granted-Handled n g p io (same-IsRefilled (ground arith))
            (omega (arith, v.0.is_ring.count_le)))
