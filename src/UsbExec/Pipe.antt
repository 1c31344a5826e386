-- ===== src/UsbExec/Pipe.antt =====
-- The functions of soc/usbexecd.c that all pipes share.
use t2_firmware.Prelude.{
  ℕ, zero, suc, ◌+◌, ◌-◌, List, [], ◌∷◌, ◌++◌, Bool, true, false, not, ◌||◌, ltb, ◌==◌,
  if◌then◌else◌, set, get_or, take, drop, length, min,
}
use t2_firmware.UsbExec.{
  PipeBuf, pipe_size, Io, Call, sock_data, pipe_data, epoll_add, epoll_del, close_fd, log, Read,
  got, again, failed, Write, wrote, refused, Res, ok, stop, ◌>>=◌, fatal, undefined, waiting,
  Gathered, bytes, end_of_file,
}

-- `&buffer[pos]` for `n` bytes, as a read and as a write
unfoldable pub read_at : List ℕ → ℕ → ℕ → List ℕ
read_at b pos zero = []
read_at b pos (suc n) = get_or b pos 0 ∷ read_at b (suc pos) n

unfoldable pub write_at : List ℕ → ℕ → List ℕ → List ℕ
write_at b pos [] = b
write_at b pos (x ∷ xs) = write_at (set b pos x) (suc pos) xs

-- A position that has reached the end of the buffer goes to its start.
abbrev pub at_end : ℕ → ℕ
at_end pos = if pos == pipe_size then 0 else pos

-- as many bytes from `pos` on as are asked for, but not past the end of the buffer
abbrev pub until_end : ℕ → ℕ → ℕ
until_end pos n = if ltb pipe_size (pos + n) then pipe_size - pos else n

-- `read_until`: EAGAIN is tried again. `read` takes at most the bytes that are missing; what an answer
-- has beyond them is there for the next one.
unfoldable pub prepend : List ℕ → Res (Gathered × List Read) → Res (Gathered × List Read)
prepend xs (ok (bytes ys, rs)) = ok (bytes (xs ++ ys), rs)
prepend xs r = r

abbrev pub left_over : List ℕ → List Read → List Read
left_over [] rs = rs
left_over (y ∷ ys) rs = got (y ∷ ys) ∷ rs

unfoldable pub read_until : List Read → ℕ → Res (Gathered × List Read)
unfolding prepend
read_until [] n = if n == 0 then ok (bytes [], []) else stop waiting
read_until (again ∷ rs) n = if n == 0 then ok (bytes [], again ∷ rs) else read_until rs n
read_until (failed ∷ rs) n = if n == 0 then ok (bytes [], failed ∷ rs) else stop fatal
read_until (got [] ∷ rs) n = if n == 0 then ok (bytes [], got [] ∷ rs) else ok (end_of_file, rs)
read_until (got (x ∷ xs) ∷ rs) n =
    if n == 0
    then ok (bytes [], got (x ∷ xs) ∷ rs)
    else if ltb (length (x ∷ xs)) n
    then prepend (x ∷ xs) (read_until rs (n - length (x ∷ xs)))
    else ok (bytes (take n (x ∷ xs)), left_over (drop n (x ∷ xs)) rs)

-- where `write_from_pipebuf` writes: the socket or the pipe's own descriptor
pub data Target : Type 0 where
  to_sock to_pipe : Target

abbrev pub data_call : Target → PipeBuf → List ℕ → Call
data_call to_sock p xs = sock_data xs
data_call to_pipe p xs = pipe_data p.id p.role xs

-- One pass of its loop with `n` bytes left. A `write` that fails returns -1, which the code adds
-- to the position and takes from the counts; at position 0 the next pass would write from outside
-- the buffer.
unfoldable pub write_pass : Write → ℕ → Target → PipeBuf → Io → Res (PipeBuf × Io × ℕ)
unfolding read_at
write_pass (wrote k) n t p io =
    let m : ℕ = min k (until_end p.startpos n) in
    ok (
      record p { startpos = at_end (p.startpos + m); bufcount = p.bufcount - m },
      log (data_call t p (read_at p.buffer p.startpos m)) io,
      n - m,
    )
write_pass refused n t p io =
    if p.startpos == 0
    then stop undefined
    else ok (record p { startpos = p.startpos - 1; bufcount = p.bufcount + 1 }, io, n + 1)

unfoldable pub write_loop : List Write → ℕ → Target → PipeBuf → Io → Res (PipeBuf × Io)
unfolding write_pass
write_loop [] n t p io = if n == 0 then ok (p, record io { writes = [] }) else stop waiting
write_loop (w ∷ ws) n t p io = elim (n == 0) [
  | true ↦ ok (p, record io { writes = w ∷ ws })
  | false ↦ write_pass w n t p io >>= λ (q, io', n'). write_loop ws n' t q io'
]

-- `write_from_pipebuf`; when it returns, it has written `n` bytes
unfoldable pub write_from_pipebuf : ℕ → Target → PipeBuf → Io → Res (PipeBuf × Io)
write_from_pipebuf n t p io = write_loop io.writes n t p io

-- `add_pipebuf_epoll` and `delete_pipebuf_epoll`: `epoll_ctl` fails on a descriptor that is watched
-- already, or not.
unfoldable pub add_epoll : PipeBuf → Io → Res (PipeBuf × Io)
add_epoll p io =
    if p.polled || not p.is_open
    then stop fatal
    else ok (record p { polled = true }, log (epoll_add p.id p.role) io)

unfoldable pub delete_epoll : PipeBuf → Io → Res (PipeBuf × Io)
delete_epoll p io =
    if p.polled
    then ok (record p { polled = false }, log (epoll_del p.id p.role) io)
    else stop fatal

-- `CLOSE_SUCCESS`, `ERR_ALREADY_CLOSED` and `ERR_BUFFER_NOT_EMPTY`
pub data Closed : Type 0 where
  success already_closed not_empty : Closed

-- `pipebuf_common_close`; `now` is NO_FLUSH. Closing a descriptor takes it off epoll.
unfoldable pub common_close : (now : Bool) → PipeBuf → Io → PipeBuf × Io × Closed
common_close now p io =
    if p.bufcount == 0 || now
    then (if p.is_open
        then (
          record p {
            eof = true;
            is_open = false;
            polled = false;
            startpos = 0;
            endpos = 0;
            bufcount = 0;
          },
          log (close_fd p.id p.role) io,
          success,
        )
        else (record p { eof = true }, io, already_closed))
    else (record p { eof = true }, io, not_empty)
