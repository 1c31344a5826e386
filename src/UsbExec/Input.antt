-- ===== src/UsbExec/Input.antt =====
-- Readable pipes of soc/usbexecd.c (stdout and stderr): from the process to the host.
use t2_firmware.Prelude.{
  ℕ, zero, suc, ◌+◌, ◌-◌, ◌*◌, ◌/◌, ◌%◌, ◌^◌, List, [], ◌∷◌, Bool, true, false, not, ◌&&◌, ltb, leb,
  ◌||◌, replicate, ◌==◌, if◌then◌else◌, take, length,
}
use t2_firmware.UsbExec.{
  Role, role_code, PipeBuf, pipe_size, add32, sub32, Io, log, pipe_read, Read, got, again, failed,
  Res, ok, stop, ◌>>=◌, fatal, undefined, waiting, send_header, Gathered, bytes, end_of_file,
}
use t2_firmware.UsbExec.Pipe.{
  write_at, at_end, until_end, read_until, write_from_pipebuf, to_sock, add_epoll, delete_epoll,
  common_close, Closed, success,
}

-- `MAX_WRITE_LEN`
abbrev pub max_write : ℕ
max_write = 255

unfoldable pub notify_closed : Closed → PipeBuf → Io → Res (PipeBuf × Io)
unfolding send_header
notify_closed success p io =
    send_header (0x30 + role_code p.role) p.id 0 0 io >>= λ io'. ok (p, io')
notify_closed _ p io = ok (p, io)

-- `pipebuf_in_close`
unfoldable pub in_close : (now : Bool) → PipeBuf → Io → Res (PipeBuf × Io)
unfolding common_close notify_closed
in_close now p io = let (q, io', r) = common_close now p io in notify_closed r q io'

-- the loop of `pipebuf_in_write_to_sock` with `n` bytes left; each packet has at least one byte, so
-- that fuel for `n` packets is enough
unfoldable pub send_packets : (fuel n : ℕ) → PipeBuf → Io → Res (PipeBuf × Io)
unfolding send_header write_from_pipebuf
send_packets zero n p io = if n == 0 then ok (p, io) else stop waiting
send_packets (suc f) n p io =
    let size : ℕ = if ltb n max_write then n else max_write in
    elim (n == 0) [
      | true ↦ ok (p, io)
      | false ↦
          send_header (0x10 + role_code p.role) p.id (size / 2 ^ 8) (size % 2 ^ 8) io >>= λ io'.
          write_from_pipebuf size to_sock p io' >>= λ (q, io''). send_packets f (n - size) q io''
    ]

-- how much of `n` bytes may be sent
abbrev pub sendable : ℕ → PipeBuf → ℕ
sendable n p =
    let m : ℕ = if ltb p.bufcount n then p.bufcount else n in if ltb p.credit m then p.credit else m

-- `pipebuf_in_write_to_sock`
unfoldable pub write_to_sock : ℕ → PipeBuf → Io → Res (PipeBuf × Io)
unfolding send_packets
write_to_sock n p io =
    let m : ℕ = sendable n p in
    send_packets m m p io >>= λ (q, io'). ok (record q { credit = sub32 q.credit m }, io')

-- the little-endian number of an acknowledgement
abbrev pub decode : List ℕ → ℕ
decode [] = 0
decode (x ∷ xs) = x + 2 ^ 8 * decode xs

-- the end of `pipebuf_in_ack` and of `pipebuf_in_to_internal_buffer`
unfoldable pub close_if_done : PipeBuf → Io → Res (PipeBuf × Io)
unfolding in_close
close_if_done p io = if p.eof && p.bufcount == 0 then in_close false p io else ok (p, io)

-- `pipebuf_in_ack` once the number is read
unfoldable pub grant : ℕ → PipeBuf → Io → Res (PipeBuf × Io)
unfolding add_epoll write_to_sock close_if_done
grant n p io =
    (if p.bufcount == pipe_size && ltb 0 n then add_epoll p io else ok (p, io)) >>= λ (q, io').
    let r = record q { credit = add32 q.credit n } in
    (if ltb 0 r.bufcount
      then write_to_sock (if ltb r.bufcount n then r.bufcount else n) r io'
      else ok (r, io'))
    >>= λ (s, io''). close_if_done s io''

-- A pipe, or the news that the socket was closed: then all processes are to be wiped.
pub data After : Type 0 where
  kept : PipeBuf → After
  hung_up : After

-- The shifts of `pipebuf_in_ack` are undefined past four bytes and for a number that is no `int`.
unfoldable pub after_size : Gathered → PipeBuf → Io → Res (After × Io)
unfolding grant
after_size end_of_file p io = ok (hung_up, io)
after_size (bytes xs) p io =
    if ltb 4 (length xs) || leb (2 ^ 31) (decode xs)
    then stop undefined
    else grant (decode xs) p io >>= λ (q, io'). ok (kept q, io')

-- `pipebuf_in_ack`
unfoldable pub in_ack : ℕ → PipeBuf → Io → Res (After × Io)
unfolding read_until after_size
in_ack n p io = read_until io.reads n >>= λ (g, rs). after_size g p (record io { reads = rs })

-- The bytes of one `read` go to the end of the ring.
unfoldable pub store : List ℕ → PipeBuf → PipeBuf
unfolding write_at
store xs p = record p {
  buffer = write_at p.buffer p.endpos xs;
  bufcount = p.bufcount + length xs;
  endpos = at_end (p.endpos + length xs);
}

-- the read loop of `pipebuf_in_to_internal_buffer`; the end of the list stands for EAGAIN
unfoldable pub in_loop : List Read → PipeBuf → Io → Res (PipeBuf × Io)
unfolding store delete_epoll
in_loop [] p io = ok (p, io)
in_loop (again ∷ rs) p io = ok (p, io)
in_loop (failed ∷ rs) p io = if leb pipe_size p.bufcount then ok (p, io) else stop fatal
in_loop (got [] ∷ rs) p io =
    if leb pipe_size p.bufcount then ok (p, io) else delete_epoll (record p { eof = true }) io
in_loop (got (x ∷ xs) ∷ rs) p io =
    let ys = take (until_end p.endpos (pipe_size - p.bufcount)) (x ∷ xs) in
    let rest = in_loop rs (store ys p) (log (pipe_read p.id p.role ys) io) in
    if leb pipe_size p.bufcount then ok (p, io) else rest

-- `pipebuf_in_to_internal_buffer`; `rs` are the answers of the process's end
unfoldable pub in_readable : List Read → PipeBuf → Io → Res (PipeBuf × Io)
unfolding in_loop write_to_sock delete_epoll close_if_done
in_readable rs p io = in_loop rs p io >>= λ (q, io').
    (if not (q.credit == 0) && ltb 0 q.bufcount
      then write_to_sock q.bufcount q io'
      else ok (q, io'))
    >>= λ (r, io''). if r.bufcount == pipe_size then delete_epoll r io'' else close_if_done r io''

-- `pipebuf_common_init` and `pipebuf_in_init`
unfoldable pub new_pipe : ℕ → Role → PipeBuf
new_pipe i r = record {
  id = i;
  role = r;
  eof = false;
  credit = 0;
  is_open = true;
  polled = false;
  startpos = 0;
  endpos = 0;
  bufcount = 0;
  buffer = replicate pipe_size 0;
}

unfoldable pub in_init : ℕ → Role → Io → Res (PipeBuf × Io)
unfolding add_epoll
in_init i r io = add_epoll (new_pipe i r) io
