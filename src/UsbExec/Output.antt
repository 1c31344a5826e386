-- ===== src/UsbExec/Output.antt =====
-- Writable pipes of soc/usbexecd.c (control and stdin): from the host to the process.
use t2_firmware.Prelude.{
  ℕ, zero, suc, ◌+◌, ◌-◌, ◌/◌, ◌%◌, List, [], ◌∷◌, Bool, true, false, not, ◌&&◌, ltb, ◌==◌,
  if◌then◌else◌, length,
}
use t2_firmware.UsbExec.{
  Role, role_code, PipeBuf, pipe_size, add32, sub32, Io, log, ack_size, sock_read, Res, ok, stop,
  ◌>>=◌, fatal, waiting, send_header, Gathered, bytes, end_of_file,
}
use t2_firmware.UsbExec.Pipe.{
  until_end, read_until, write_from_pipebuf, to_pipe, add_epoll, delete_epoll, common_close,
}
use t2_firmware.UsbExec.Input.{After, kept, hung_up, store, new_pipe}

-- the four bytes of an int in memory, the lowest first
abbrev pub encode : ℕ → List ℕ
encode n = n % 256 ∷ (n / 256 % 256) ∷ (n / 65536 % 256) ∷ (n / 16777216 % 256) ∷ []

-- `pipebuf_out_ack`; a closed socket fails the second write
unfoldable pub out_ack : ℕ → PipeBuf → Io → Res (PipeBuf × Io)
unfolding send_header
out_ack n p io = send_header (0x20 + role_code p.role) p.id 0 4 io >>= λ io'.
    if io'.sock_open && not io'.sock_broken
    then ok (record p { credit = add32 p.credit n }, log (ack_size (encode n)) io')
    else stop fatal

-- `pipebuf_out_init`
unfoldable pub out_init : ℕ → Role → Io → Res (PipeBuf × Io)
unfolding out_ack
out_init i r io =
    out_ack pipe_size (new_pipe i r) io >>= λ (p, io'). ok (record p { credit = pipe_size }, io')

-- `pipebuf_out_close`
unfoldable pub out_close : (now : Bool) → PipeBuf → Io → PipeBuf × Io
unfolding common_close
out_close now p io = let (q, io', r) = common_close now p io in (q, io')

-- the loop of `pipebuf_out_to_internal_buffer` with `n` bytes left; each pass takes at least one
-- byte, so that fuel for `n` passes is enough
unfoldable pub fill_with :
    Gathered → PipeBuf → Io → (PipeBuf → Io → Res (After × Io)) → Res (After × Io)
unfolding store
fill_with end_of_file p io rest = ok (hung_up, io)
fill_with (bytes xs) p io rest =
    let q = store xs p in
    rest (record q { credit = sub32 q.credit (length xs) }) (log (sock_read xs) io)

unfoldable pub fill : (fuel n : ℕ) → PipeBuf → Io → Res (After × Io)
unfolding read_until fill_with
fill zero n p io = if n == 0 then ok (kept p, io) else stop waiting
fill (suc f) n p io =
    let m : ℕ = until_end p.endpos n in
    elim (n == 0) [
      | true ↦ ok (kept p, io)
      | false ↦ read_until io.reads m >>= λ (g, rs).
          fill_with g p (record io { reads = rs }) (fill f (n - m))
    ]

-- `pipebuf_out_to_internal_buffer`
unfoldable pub out_receive : ℕ → PipeBuf → Io → Res (After × Io)
unfolding fill add_epoll
out_receive n p io =
    if p.eof
    then stop fatal
    else ((if p.bufcount == 0 && ltb 0 n then add_epoll p io else ok (p, io)) >>= λ (q, io').
        fill n n q io')

-- `pipebuf_out_is_writable`: `write_from_pipebuf` returns what it was asked for, so the test of
-- the source always holds
unfoldable pub out_writable : PipeBuf → Io → Res (PipeBuf × Io)
unfolding write_from_pipebuf delete_epoll out_ack out_close
out_writable p io =
    let n : ℕ = p.bufcount in
    write_from_pipebuf n to_pipe p io >>= λ (q, io1). delete_epoll q io1 >>= λ (r, io2).
    out_ack n r io2 >>= λ (s, io3).
    ok (if s.eof && s.bufcount == 0 then out_close false s io3 else (s, io3))
