-- ===== src/UsbExec/Filling.antt =====
-- `pipebuf_out_to_internal_buffer` of soc/usbexecd.c: bytes of the host go to the end of the ring.
use t2_firmware.Prelude.{
  ℕ, zero, suc, ◌+◌, ◌-◌, ◌^◌, ◌≤◌, ◌<◌, ◌≡◌, refl, ap, sym, subst, ◌∙◌, List, [], ◌++◌, append-nil,
  arith, length, append_assoc,
}
use t2_firmware.UsbExec.{
  PipeBuf, pipe_size, sub32, sock_read, Io, log, Read, Res, ok, ◌>>=◌, Gathered,
}
use t2_firmware.UsbExec.Pipe.{until_end, read_until}
use t2_firmware.UsbExec.Ring.{contents, IsRing, store_lem}
use t2_firmware.UsbExec.Writing.{out}
use t2_firmware.UsbExec.Packets.{IsUp}
use t2_firmware.UsbExec.Flow.{IsFifo}
use t2_firmware.UsbExec.Gather.{AllBytes, stream, read_until-Gathers, left-Gathers}
use t2_firmware.UsbExec.Input.{After, kept, store}
use t2_firmware.UsbExec.Output.{fill, fill_with}

-- The next `n` bytes are in the ring behind those it held, and the credit is that much smaller.
pub record Filled (n : ℕ) (p : PipeBuf) (io : Io) (r : Res (After × Io)) : Type 0 where
  pub pipe : PipeBuf
  pub after : Io
  pub returns : r ≡ ok (kept pipe, after)
  pub is_ring : IsRing pipe
  pub up : IsUp after
  pub fifo : IsFifo p io → IsFifo pipe after
  pub count : pipe.bufcount ≡ p.bufcount + n
  pub credit : pipe.credit + n ≡ p.credit
  pub polled : pipe.polled ≡ p.polled
  pub is_open : pipe.is_open ≡ p.is_open
  pub eof : pipe.eof ≡ p.eof
  pub arrived : List ℕ
  pub in_order : stream io.reads ≡ arrived ++ stream after.reads
  pub stored : contents pipe ≡ contents p ++ arrived

-- one pass that brought the bytes `xs`
abbrev passed : List ℕ → PipeBuf → PipeBuf
passed xs p = let q = store xs p in record q { credit = sub32 q.credit (length xs) }

abbrev passed_io : List ℕ → List Read → Io → Io
passed_io xs rs io = log (sock_read xs) (record io { reads = rs })

passed-Filled :
    (xs : List ℕ) (rs : List Read) (m n : ℕ) (p : PipeBuf) (io : Io) (r : Res (After × Io))
    → IsRing p
    → p.bufcount + length xs ≤ pipe_size
    → p.endpos + length xs ≤ pipe_size
    → length xs ≤ p.credit
    → p.credit < 2 ^ 32
    → Filled m (passed xs p) (passed_io xs rs io) r
    → n ≡ length xs + m
    → stream io.reads ≡ xs ++ stream rs
    → Filled n p io r
unfolding store
passed-Filled xs rs m n p io r v h k c d s e t = record {
  pipe = s.pipe;
  after = s.after;
  returns = s.returns;
  is_ring = s.is_ring;
  up = s.up;
  fifo = λ f. s.fifo (
      ap (λ l. l ++ xs) f
      ∙ append_assoc (out io.calls) (contents p) xs
      ∙ ap (λ l. out io.calls ++ l) (sym (store_lem xs p v h k).1));
  count = omega (arith, s.count, e);
  credit = omega (arith, s.credit, e, c, d);
  polled = s.polled;
  is_open = s.is_open;
  eof = s.eof;
  arrived = xs ++ s.arrived;
  in_order =
      t ∙ ap (λ l. xs ++ l) s.in_order ∙ sym (append_assoc xs s.arrived (stream s.after.reads));
  stored =
      s.stored
      ∙ ap (λ l. l ++ s.arrived) (store_lem xs p v h k).1
      ∙ append_assoc (contents p) xs s.arrived;
}

passed-IsRing :
    (xs : List ℕ) (p : PipeBuf)
    → IsRing p
    → p.bufcount + length xs ≤ pipe_size
    → p.endpos + length xs ≤ pipe_size
    → IsRing (passed xs p)
      × ((passed xs p).bufcount ≡ p.bufcount + length xs)
      × ((passed xs p).credit ≡ sub32 p.credit (length xs))
unfolding store
passed-IsRing xs p v h k = ground (arith, (store_lem xs p v h k).0)

none_Filled :
    (n : ℕ) (p : PipeBuf) (io : Io) → IsUp io → IsRing p → n ≡ 0 → Filled n p io (ok (kept p, io))
none_Filled n p io u v h = record {
  pipe = p;
  after = io;
  returns = refl;
  is_ring = v;
  up = u;
  fifo = λ f. f;
  count = omega arith;
  credit = omega arith;
  polled = refl;
  is_open = refl;
  eof = refl;
  arrived = [];
  in_order = refl;
  stored = sym (append-nil (contents p));
}

unfoldable pub after_read : ℕ → ℕ → PipeBuf → Io → Gathered × List Read → Res (After × Io)
after_read f n p io (g, rs) =
    fill_with g p (record io { reads = rs }) (fill f (n - until_end p.endpos n))

pub fill-step :
    (f n : ℕ) (p : PipeBuf) (io : Io)
    → 0 < n
    → fill (suc f) n p io ≡ (read_until io.reads (until_end p.endpos n) >>= after_read f n p io)
unfolding fill after_read
fill-step f n p io h = ground arith

pub fill-Filled :
    (f n : ℕ) (p : PipeBuf) (io : Io)
    → n ≤ f
    → IsUp io
    → IsRing p
    → n + p.bufcount ≤ pipe_size
    → n ≤ p.credit
    → p.credit < 2 ^ 32
    → AllBytes io.reads
    → n ≤ length (stream io.reads)
    → Filled n p io (fill f n p io)
unfolding fill after_read fill_with
fill-Filled zero n p io h u v k c d a l =
    subst (Filled n p io) (ground arith) (none_Filled n p io u v (omega arith))
fill-Filled (suc f) zero p io h u v k c d a l = none_Filled 0 p io u v refl
fill-Filled (suc f) (suc n) p io h u v k c d a l =
    let m : ℕ = until_end p.endpos (suc n) in
    let b : (m ≤ suc n) × (0 < m) × (p.endpos + m ≤ pipe_size) = ground (arith, v) in
    let s = read_until-Gathers io.reads m a (omega (arith, b)) in
    let xs = s.read in
    let q = passed xs p in
    let io' = passed_io xs s.rest io in
    let w = passed-IsRing xs p v (omega (arith, s.count, b)) (omega (arith, s.count, b)) in
    let t =
      fill-Filled f (suc n - m) q io' (omega (arith, b)) (ground arith) w.0
        (omega (arith, w.1, s.count, b)) (omega (arith, w.2, s.count, b, c, d))
        (omega (arith, w.2, s.count, c, d)) s.all_bytes (omega (arith, left-Gathers s, b)) in
    subst (Filled (suc n) p io)
      (sym (
        fill-step f (suc n) p io (omega arith)
        ∙ ap (λ r. r >>= after_read f (suc n) p io) s.returns))
      (passed-Filled xs s.rest (suc n - m) (suc n) p io (fill f (suc n - m) q io') v
        (omega (arith, s.count, b)) (omega (arith, s.count, b)) (omega (arith, s.count, b)) d t
        (omega (arith, s.count, b)) s.in_order)
