-- ===== src/UsbExec/Tests.antt =====
-- The theorems of soc/usbexecd.c at concrete inputs.
use t2_firmware.Prelude.{
  inr, ℕ, zero, suc, ◌+◌, ◌≡◌, refl, List, [], ◌∷◌, true, false, none, some, arith, replicate,
  length-replicate, get_or,
}
use t2_firmware.UsbExec.{
  sock_read, Role, stdin, stdout, PipeBuf, pipe_size, Io, Read, got, again, Write, wrote, refused,
  ok, stop, fatal,
}
use t2_firmware.UsbExec.Pipe.{to_pipe, write_loop}
use t2_firmware.UsbExec.Ring.{contents, IsRing}
use t2_firmware.UsbExec.Input.{store}
use t2_firmware.UsbExec.Output.{out_receive}
use t2_firmware.UsbExec.Writing.{AllTake, total}
use t2_firmware.UsbExec.Refused.{refused_repeats}
use t2_firmware.UsbExec.Handled.{Handled}
use t2_firmware.UsbExec.Credit.{Event, readable, acked, close_asked}
use t2_firmware.UsbExec.Stdin.{IsOutput, Kept, out_receive-Kept}
use t2_firmware.UsbExec.Daemon.{handle_readable, Proc, Daemon, dispatch, close_proc}
use t2_firmware.UsbExec.Daemon.Hangup.{Ensures}
use t2_firmware.UsbExec.Daemon.Header.{handle_readable-refuses}
use t2_firmware.UsbExec.Daemon.Table.{Leaves, dispatch-Leaves}
use t2_firmware.UsbExec.Child.{child}
use t2_firmware.UsbExec.Child.Args.{reads_of, child-join}

-- a kernel that takes 300 bytes at a time
abbrev answers : ℕ → List Write
answers n = replicate n (wrote 300)

answers-AllTake : (n : ℕ) → AllTake (answers n)
answers-AllTake zero = tt
answers-AllTake (suc n) = (omega arith, answers-AllTake n)

abbrev quiet : List Read → List Write → Io
quiet rs ws = record { sock_open = true; sock_broken = false; reads = rs; writes = ws; calls = [] }

abbrev empty_pipe : Role → PipeBuf
empty_pipe r = record {
  id = 7;
  role = r;
  eof = false;
  credit = 0;
  is_open = true;
  polled = false;
  startpos = 0;
  endpos = 0;
  bufcount = 0;
  buffer = replicate pipe_size 0;
}

empty_pipe-IsRing : (r : Role) → IsRing (empty_pipe r)
empty_pipe-IsRing r = record {
  slots = length-replicate {A = ℕ} pipe_size 0;
  start_lt = omega arith;
  count_le = omega arith;
  end_at = omega arith;
}

abbrev watched_pipe : PipeBuf
watched_pipe = record (empty_pipe stdout) { polled = true }

abbrev three_events : List Event
three_events =
    readable (got (5 ∷ 6 ∷ 7 ∷ []) ∷ again ∷ []) (answers pipe_size)
    ∷ acked 2 (answers pipe_size)
    ∷ close_asked
    ∷ []

-- a pipe of the host's with all its credit
abbrev credited : PipeBuf
credited = record (empty_pipe stdin) { credit = pipe_size }

credited-IsOutput : (rs : List Read) (ws : List Write) → IsOutput credited (quiet rs ws)
credited-IsOutput rs ws = record {
  is_ring = ground (arith, empty_pipe-IsRing stdin);
  opened = refl;
  sound = refl;
  fifo = refl;
  balance = refl;
  watched = ground arith;
  waits = ground arith;
  done = ground arith;
  closed = ground arith;
}

abbrev two_cuts : List Read
two_cuts = got (1 ∷ 2 ∷ []) ∷ again ∷ got (3 ∷ 4 ∷ []) ∷ []

out_receive-Kept_example :
    Kept 3 (contents credited) two_cuts (out_receive 3 credited (quiet two_cuts []))
out_receive-Kept_example =
    out_receive-Kept 3 credited (quiet two_cuts []) (credited-IsOutput two_cuts []) tt refl
      (omega arith) tt (omega arith)

-- the same pipe with three bytes
abbrev loaded : PipeBuf
loaded = record (store (1 ∷ 2 ∷ 3 ∷ []) (empty_pipe stdin)) { credit = 32765; polled = true }

loaded_io : List Write → Io
loaded_io ws = record (quiet [] ws) { calls = sock_read (1 ∷ 2 ∷ 3 ∷ []) ∷ [] }

-- 70000 in three parts
abbrev size_cuts : List Read
size_cuts = got (112 ∷ 17 ∷ []) ∷ again ∷ got (1 ∷ []) ∷ got (0 ∷ []) ∷ []

child-join_example :
    child (reads_of ((65 ∷ 0 ∷ []) ∷ (66 ∷ 67 ∷ []) ∷ [])) ≡ ok ((65 ∷ []) ∷ (66 ∷ 67 ∷ []) ∷ [])
child-join_example =
    child-join (65 ∷ []) ((66 ∷ 67 ∷ []) ∷ []) ((65 ∷ 0 ∷ []) ∷ (66 ∷ 67 ∷ []) ∷ [])
      (ground arith, tt) ((ground arith, (ground arith, tt)), tt) (omega arith) refl (omega arith)
      (omega arith, (omega arith, tt))

-- one byte at position 2
abbrev moved : PipeBuf
moved = record (empty_pipe stdin) { startpos = 2; endpos = 3; bufcount = 1 }

moved-IsRing : IsRing moved
moved-IsRing = record {
  slots = length-replicate {A = ℕ} pipe_size 0;
  start_lt = omega arith;
  count_le = omega arith;
  end_at = omega arith;
}

refused_repeats_example :
    (q : PipeBuf) × (io' : Io) × (write_loop (refused ∷ answers 2) 1 to_pipe moved (quiet [] [])
      ≡ ok (q, io'))
    × (total q io' ≡ get_or moved.buffer 1 0 ∷ contents moved)
    × (q.bufcount + 1 ≡ moved.bufcount)
refused_repeats_example =
    refused_repeats (answers 2) 1 to_pipe moved (quiet [] []) (answers-AllTake 2) moved-IsRing
      (omega arith) (omega arith) (omega arith) (omega arith) (omega arith)

abbrev a_proc : Proc
a_proc = record {
  pid = 1234;
  ctrl_pipe = credited;
  stdin_pipe = credited;
  stdout_pipe = watched_pipe;
  stderr_pipe = watched_pipe;
}

abbrev two_procs : Daemon
two_procs = record {
  procs = some a_proc ∷ some a_proc ∷ none ∷ [];
  listening = false;
  io = quiet [] [];
}

dispatch-Leaves_example :
    Ensures (Leaves 1 two_procs) (dispatch close_proc 0 0 0 none (some a_proc) two_procs)
dispatch-Leaves_example =
    dispatch-Leaves 0 1 two_procs (ground arith) close_proc 0 0 none (some a_proc)

-- CMD_KILL for an id that is not in use, in two parts, with a byte of the next packet
abbrev kill_header : List Read
kill_header = got (3 ∷ []) ∷ again ∷ got (2 ∷ 9 ∷ 0 ∷ 7 ∷ []) ∷ []

abbrev killing : Daemon
killing = record two_procs { io = quiet kill_header [] }

handle_readable-refuses_example : handle_readable none killing ≡ stop fatal
handle_readable-refuses_example =
    handle_readable-refuses 3 2 9 0 (7 ∷ []) none killing tt refl
      (inr ((ground arith), (ground arith, refl)))
