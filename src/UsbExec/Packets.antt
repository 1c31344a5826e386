-- ===== src/UsbExec/Packets.antt =====
-- `pipebuf_in_write_to_sock` of soc/usbexecd.c: the packets to the host.
use t2_firmware.Prelude.{
  ℕ, zero, suc, ◌+◌, ◌-◌, ◌/◌, ◌%◌, ◌^◌, ◌≤◌, ◌<◌, ◌≡◌, refl, ap, sym, subst, ◌∙◌, List, Bool, true,
  false, arith, length, ltb, ◌==◌, if◌then◌else◌,
}
use t2_firmware.UsbExec.{
  role_code, PipeBuf, header, Io, Write, Res, ok, ◌>>=◌, log, send_header, sub32,
}
use t2_firmware.UsbExec.Pipe.{to_sock, write_from_pipebuf}
use t2_firmware.UsbExec.Ring.{IsRing}
use t2_firmware.UsbExec.Writing.{received, AllTake, total, Sent, write_from_pipebuf-Sent}
use t2_firmware.UsbExec.Input.{send_packets, write_to_sock, sendable, max_write}

-- The socket is there and takes what is written.
pub record IsUp (io : Io) : Type 0 where
  pub opened : io.sock_open ≡ true
  pub sound : io.sock_broken ≡ false
  pub takes : AllTake io.writes

-- the header of a packet of so many bytes
packet_io : ℕ → PipeBuf → Io → Io
packet_io m p io = log (header (0x10 + role_code p.role) p.id (m / 2 ^ 8) (m % 2 ^ 8)) io

abbrev part_size : ℕ → ℕ
part_size n = if ltb n max_write then n else max_write

after_packet : ℕ → ℕ → PipeBuf × Io → Res (PipeBuf × Io)
after_packet f n (q, io) = send_packets f (n - part_size n) q io

pub send_header-up :
    (cmd id arg len : ℕ) (io : Io)
    → IsUp io
    → send_header cmd id arg len io ≡ ok (log (header cmd id arg len) io)
unfolding send_header
send_header-up cmd id arg len io u = ground arith

send_packets-step :
    (f n : ℕ) (p : PipeBuf) (io : Io)
    → IsUp io
    → 0 < n
    → send_packets (suc f) n p io ≡ (
        write_from_pipebuf (part_size n) to_sock p (packet_io (part_size n) p io)
        >>= after_packet f n)
unfolding send_packets packet_io after_packet
send_packets-step f n p io u h =
    let m : ℕ = part_size n in
    let next : Io → Res (PipeBuf × Io) =
      λ io'. write_from_pipebuf m to_sock p io' >>= λ (q, io''). send_packets f (n - m) q io'' in
    let e : (n == 0) ≡ false = ground arith in
    ap {A = Bool}
      (λ b. elim b as (λ _. Res (PipeBuf × Io)) [
        | true ↦ ok (p, io)
        | false ↦ send_header (0x10 + role_code p.role) p.id (m / 2 ^ 8) (m % 2 ^ 8) io >>= next
      ])
      e
    ∙ ap (λ r. r >>= next)
        (send_header-up (0x10 + role_code p.role) p.id (m / 2 ^ 8) (m % 2 ^ 8) io u)

-- one transfer after another
Sent-trans :
    (ws : List Write) (m n total : ℕ) (p : PipeBuf) (io : Io) (r : Res (PipeBuf × Io))
    (k : PipeBuf × Io → Res (PipeBuf × Io)) (s : Sent ws m p io r)
    → Sent s.after.writes n s.pipe s.after (k (s.pipe, s.after))
    → total ≡ m + n
    → Sent ws total p io (r >>= k)
Sent-trans ws m n total p io r k s t e = record {
  pipe = t.pipe;
  after = t.after;
  returns = ap (λ x. x >>= k) s.returns ∙ t.returns;
  is_ring = t.is_ring;
  same = ground (arith, s.same, t.same);
  settled = ground (arith, s.settled, t.settled);
  counted = omega (arith, s.counted, t.counted);
  total_same = t.total_same ∙ s.total_same;
  read_same = t.read_same ∙ s.read_same;
  takes = t.takes;
  left = omega (arith, s.left, t.left);
}

none_Sent :
    (n : ℕ) (p : PipeBuf) (io : Io)
    → IsUp io
    → IsRing p
    → n ≡ 0
    → Sent io.writes n p io (ok (p, io))
none_Sent n p io u v h = record {
  pipe = p;
  after = io;
  returns = refl;
  is_ring = v;
  same = ground arith;
  settled = ground arith;
  counted = omega arith;
  total_same = refl;
  read_same = refl;
  takes = u.takes;
  left = omega arith;
}

-- the header before a packet changes no data
headed :
    (ws : List Write) (m n : ℕ) (p : PipeBuf) (io : Io) (r : Res (PipeBuf × Io))
    → Sent ws n p (packet_io m p io) r
    → Sent ws n p io r
unfolding packet_io
headed ws m n p io r s = record {
  pipe = s.pipe;
  after = s.after;
  returns = s.returns;
  is_ring = s.is_ring;
  same = s.same;
  settled = ground (arith, s.settled);
  counted = s.counted;
  total_same = s.total_same;
  read_same = s.read_same;
  takes = s.takes;
  left = s.left;
}

pub Sent-IsUp :
    (ws : List Write) (n : ℕ) (p : PipeBuf) (io : Io) (r : Res (PipeBuf × Io))
    → IsUp io
    → (s : Sent ws n p io r) → IsUp s.after
Sent-IsUp ws n p io r u s = record {
  opened = s.settled.sock_open ∙ u.opened;
  sound = s.settled.sock_broken ∙ u.sound;
  takes = s.takes;
}

-- a packet of `m` bytes
one_packet :
    (m : ℕ) (p : PipeBuf) (io : Io)
    → IsUp io
    → IsRing p
    → m ≤ p.bufcount
    → m ≤ length io.writes
    → Sent io.writes m p io (write_from_pipebuf m to_sock p (packet_io m p io))
unfolding packet_io
one_packet m p io u v h k =
    headed io.writes m m p io (write_from_pipebuf m to_sock p (packet_io m p io))
      (write_from_pipebuf-Sent m to_sock p (packet_io m p io) u.takes v h k)

pub send_packets-Sent :
    (f n : ℕ) (p : PipeBuf) (io : Io)
    → IsUp io
    → IsRing p
    → n ≤ f
    → n ≤ p.bufcount
    → n ≤ length io.writes
    → Sent io.writes n p io (send_packets f n p io)
unfolding send_packets after_packet
send_packets-Sent zero n p io u v h k l =
    subst (Sent io.writes n p io) (ground arith) (none_Sent n p io u v (omega arith))
send_packets-Sent (suc f) zero p io u v h k l = none_Sent 0 p io u v refl
send_packets-Sent (suc f) (suc n) p io u v h k l =
    let m : ℕ = part_size (suc n) in
    let r = write_from_pipebuf m to_sock p (packet_io m p io) in
    let s = one_packet m p io u v (ground arith) (ground arith) in
    let t =
      send_packets-Sent f (suc n - m) s.pipe s.after (Sent-IsUp io.writes m p io r u s) s.is_ring
        (ground arith) (ground (arith, s.counted)) (ground (arith, s.left)) in
    subst (Sent io.writes (suc n) p io) (sym (send_packets-step f (suc n) p io u (omega arith))) (
      Sent-trans io.writes m (suc n - m) (suc n) p io r (after_packet f (suc n)) s t (ground arith))

-- what `pipebuf_in_write_to_sock` leaves after `n` bytes
pub record Paid (n : ℕ) (p : PipeBuf) (io : Io) (r : Res (PipeBuf × Io)) : Type 0 where
  pub pipe : PipeBuf
  pub after : Io
  pub returns : r ≡ ok (pipe, after)
  pub is_ring : IsRing pipe
  pub eof : pipe.eof ≡ p.eof
  pub is_open : pipe.is_open ≡ p.is_open
  pub polled : pipe.polled ≡ p.polled
  pub up : IsUp after
  pub counted : pipe.bufcount + n ≡ p.bufcount
  pub credit : pipe.credit + n ≡ p.credit
  pub total_same : total pipe after ≡ total p io
  pub read_same : received after.calls ≡ received io.calls

-- On a socket that takes what is written, with an answer for each byte that the ring holds,
-- `pipebuf_in_write_to_sock` returns: it sends the smallest of what is asked for, held and
-- credited, takes that from the credit, and what is sent and held stays, in order, what it was.
pub write_to_sock-Paid :
    (n : ℕ) (p : PipeBuf) (io : Io)
    → IsUp io
    → IsRing p
    → p.credit < 2 ^ 32
    → p.bufcount ≤ length io.writes
    → Paid (sendable n p) p io (write_to_sock n p io)
unfolding write_to_sock
write_to_sock-Paid n p io u v c l =
    let m : ℕ = sendable n p in
    let s = send_packets-Sent m m p io u v (omega arith) (ground arith) (ground arith) in
    record {
      pipe = record (s.pipe) { credit = sub32 s.pipe.credit m };
      after = s.after;
      returns =
          ap (λ r. r >>= λ (q, io'). ok (record q { credit = sub32 q.credit m }, io')) s.returns;
      is_ring = ground (arith, s.is_ring);
      eof = s.same.eof;
      is_open = s.same.is_open;
      polled = s.same.polled;
      up = Sent-IsUp io.writes m p io (send_packets m m p io) u s;
      counted = s.counted;
      credit = ground (arith, s.same);
      total_same = s.total_same;
      read_same = s.read_same;
    }
