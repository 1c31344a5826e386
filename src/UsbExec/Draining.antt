-- ===== src/UsbExec/Draining.antt =====
-- A writable pipe of soc/usbexecd.c: its bytes go to the process.
use t2_firmware.Prelude.{ℕ, ◌+◌, ◌≡◌, ◌++◌, true, false, ◌==◌, if◌then◌else◌, ◌&&◌, not}
use t2_firmware.UsbExec.{
  role_code, PipeBuf, add32, header, ack_size, epoll_del, Io, log, Res, ok, ◌>>=◌,
}
use t2_firmware.UsbExec.Pipe.{delete_epoll}
use t2_firmware.UsbExec.Ring.{contents}
use t2_firmware.UsbExec.Writing.{out, acknowledged}
use t2_firmware.UsbExec.Output.{encode, out_ack, out_close}
use t2_firmware.UsbExec.Stdin.{IsOutput}

-- the end of `pipebuf_out_is_writable`
abbrev drained : ℕ → PipeBuf → PipeBuf
drained n p = record p { polled = false; credit = add32 p.credit n }

abbrev drained_io : ℕ → PipeBuf → Io → Io
drained_io n p io =
    log (ack_size (encode n))
      (log (header (0x20 + role_code p.role) p.id 0 4) (log (epoll_del p.id p.role) io))

close_ended : PipeBuf → Io → PipeBuf × Io
close_ended p io = if p.eof && p.bufcount == 0 then out_close false p io else (p, io)

-- the three calls after the write
after_write : ℕ → PipeBuf × Io → Res (PipeBuf × Io)
after_write n (q, io1) =
    delete_epoll q io1 >>= λ (r, io2). out_ack n r io2 >>= λ (s, io3). ok (close_ended s io3)

-- what `pipebuf_out_is_writable` does
pub record Drained (p : PipeBuf) (io : Io) (r : Res (PipeBuf × Io)) : Type 0 where
  pub pipe : PipeBuf
  pub after : Io
  pub returns : r ≡ ok (pipe, after)
  pub valid : IsOutput pipe after
  pub empty : pipe.bufcount ≡ 0
  pub all_out : out after.calls ≡ out io.calls ++ contents p
  pub acks : acknowledged after.calls ≡ acknowledged io.calls + p.bufcount
  pub closes : pipe.is_open ≡ not p.eof

abbrev shut : PipeBuf → PipeBuf
shut p = record p {
  eof = true;
  is_open = false;
  polled = false;
  startpos = 0;
  endpos = 0;
  bufcount = 0;
}

-- a result of `close_ended`
record Finished (p : PipeBuf) (io : Io) (r : PipeBuf × Io) : Type 0 where
  valid : IsOutput r.0 r.1
  empty : r.0.bufcount ≡ 0
  out_same : out r.1.calls ≡ out io.calls
  acks_same : acknowledged r.1.calls ≡ acknowledged io.calls
  closes : r.0.is_open ≡ not p.eof
