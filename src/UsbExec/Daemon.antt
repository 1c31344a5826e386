-- ===== src/UsbExec/Daemon.antt =====
-- The process table and the event loop of soc/usbexecd.c. What `fork`, `waitpid` and `accept`
-- return is an argument of the event.
pub mod Hangup
pub mod Table
pub mod Header
pub mod Deaths
use mathlib.Core.Option
use t2_firmware.Prelude.{
  ℕ, zero, suc, ◌+◌, ◌-◌, ◌*◌, ◌≡◌, List, [], ◌∷◌, map, Bool, true, false, not, ◌&&◌, Option, none,
  some, ltb, ◌==◌, if◌then◌else◌, set, get_or,
}
use t2_firmware.UsbExec
use t2_firmware.UsbExec.{
  Role, ctrl, stdin, stdout, stderr, PipeBuf, Io, log, header, Read, Res, ok, stop, ◌>>=◌, fatal,
  exit, undefined, send_header, Gathered, bytes, end_of_file,
}
use t2_firmware.UsbExec.Pipe.{read_until}
use t2_firmware.UsbExec.Input.{After, kept, hung_up, in_close, in_ack, in_readable, in_init}
use t2_firmware.UsbExec.Output.{out_init, out_close, out_receive, out_writable}

-- `procinfo_t`; the pid is 0 once the process is dead
pub record Proc : Type 0 where
  pub pid : ℕ
  pub ctrl_pipe : PipeBuf
  pub stdin_pipe : PipeBuf
  pub stdout_pipe : PipeBuf
  pub stderr_pipe : PipeBuf

-- `N_PROC`
abbrev pub n_proc : ℕ
n_proc = 256

-- the table `processes`, and whether the listening socket is watched
pub record Daemon : Type 0 where
  pub procs : List (Option Proc)
  pub listening : Bool
  pub io : Io

abbrev pub proc_at : Daemon → ℕ → Option Proc
proc_at d i = get_or d.procs i none

unfoldable pub close_out : PipeBuf → Io → Io
unfolding out_close
close_out p io = if p.is_open then (out_close true p io).1 else io

unfoldable pub close_in : PipeBuf → Io → Res Io
unfolding in_close
close_in p io = if p.is_open then (in_close true p io >>= λ (q, io'). ok io') else ok io

-- `close_process`; the signal is SIGKILL
unfoldable pub close_process : Proc → Io → Res Io
unfolding close_out close_in
close_process p io =
    let a =
      if p.pid == 0 then io else log (UsbExec.waitpid p.pid) (log (UsbExec.kill p.pid 9) io) in
    close_in p.stdout_pipe (close_out p.stdin_pipe (close_out p.ctrl_pipe a)) >>= λ b.
    close_in p.stderr_pipe b

-- the loop of `wipe_existing_processes`
unfoldable pub wipe : List (Option Proc) → Io → Res Io
unfolding close_process
wipe [] io = ok io
wipe (none ∷ ps) io = wipe ps io
wipe (some p ∷ ps) io = close_process p io >>= λ io'. wipe ps io'

abbrev pub forget : Option Proc → Option Proc
forget p = none

-- `handle_socket_closed`
abbrev pub shut_socket : Io → Io
shut_socket io = record (log UsbExec.close_sock (log UsbExec.unpoll_sock io)) { sock_open = false }

-- `handle_closed_spid_socket`; epoll watches the socket as long as it is open
unfoldable pub handle_closed_socket : Daemon → Res Daemon
unfolding wipe
handle_closed_socket d =
    if d.io.sock_open
    then (wipe d.procs (shut_socket d.io) >>= λ io. ok (record d {
      procs = map forget d.procs;
      listening = true;
      io = log UsbExec.poll_listener io;
    }))
    else stop fatal

-- `handle_incoming_spid_socket`
unfoldable pub handle_incoming : (accepted : Bool) → Daemon → Res Daemon
handle_incoming accepted d =
    if accepted
    then ok (record d {
      listening = false;
      io =
          log UsbExec.unpoll_listener
            (log UsbExec.poll_sock (record (log UsbExec.accept_sock d.io) { sock_open = true }));
    })
    else stop fatal

-- `enum Commands`, as the host may send them
pub data HostCmd : Type 0 where
  reset open_proc close_proc kill_proc write_control write_stdin ack_stdout ack_stderr : HostCmd
  close_control close_stdin close_stdout close_stderr other : HostCmd

abbrev host_cmds : List (ℕ × HostCmd)
host_cmds =
    (0x0, reset)
    ∷ (0x1, open_proc)
    ∷ (0x2, close_proc)
    ∷ (0x3, kill_proc)
    ∷ (0x10, write_control)
    ∷ (0x11, write_stdin)
    ∷ (0x22, ack_stdout)
    ∷ (0x23, ack_stderr)
    ∷ (0x30, close_control)
    ∷ (0x31, close_stdin)
    ∷ (0x32, close_stdout)
    ∷ (0x33, close_stderr)
    ∷ []

find_cmd : List (ℕ × HostCmd) → ℕ → HostCmd
find_cmd [] b = other
find_cmd ((n, c) ∷ t) b = if n == b then c else find_cmd t b

unfoldable pub host_cmd : ℕ → HostCmd
unfolding find_cmd
host_cmd b = find_cmd host_cmds b

-- the process `i` changed
abbrev pub put : ℕ → Option Proc → Io → Daemon → Daemon
put i p io d = record d { procs = set d.procs i p; io = io }

-- the end of a handler that read from the socket
unfoldable pub settle : ℕ → (PipeBuf → Proc) → Daemon → After × Io → Res Daemon
unfolding handle_closed_socket
settle i f d (kept q, io) = ok (put i (some (f q)) io d)
settle i f d (hung_up, io) = handle_closed_socket (record d { io = io })

-- CMD_OPEN; `forked` is the child's pid
unfoldable pub start : ℕ → Option ℕ → (c i o e : PipeBuf) → Daemon → Io → Res Daemon
start n none c i o e d io = stop fatal
start n (some pid) c i o e d io = ok (
    put n
      (some (record { pid = pid; ctrl_pipe = c; stdin_pipe = i; stdout_pipe = o; stderr_pipe = e }))
      (log (UsbExec.fork n) io) d)

unfoldable pub open_process : ℕ → Option ℕ → Daemon → Res Daemon
unfolding start out_init in_init
open_process n forked d = out_init n ctrl d.io >>= λ (c, io1). out_init n stdin io1 >>= λ (i, io2).
    in_init n stdout io2 >>= λ (o, io3).
    in_init n stderr io3 >>= λ (e, io4). start n forked c i o e d io4

-- the commands for a process that exists; `a` and `len` are the last bytes of the header
unfoldable pub command : HostCmd → (i a len : ℕ) → Proc → Daemon → Res Daemon
unfolding close_process settle out_receive in_ack out_close in_close send_header
command close_proc i a len p d =
    close_process p d.io >>= λ io. send_header 0x6 i 255 0 io >>= λ io'. ok (put i none io' d)
command kill_proc i a len p d =
    ok (if p.pid == 0 then d else record d { io = log (UsbExec.kill p.pid a) d.io })
command write_control i a len p d =
    out_receive (len + a * 256) p.ctrl_pipe d.io >>= settle i (λ q. record p { ctrl_pipe = q }) d
command write_stdin i a len p d =
    out_receive (len + a * 256) p.stdin_pipe d.io >>= settle i (λ q. record p { stdin_pipe = q }) d
command ack_stdout i a len p d =
    in_ack len p.stdout_pipe d.io >>= settle i (λ q. record p { stdout_pipe = q }) d
command ack_stderr i a len p d =
    in_ack len p.stderr_pipe d.io >>= settle i (λ q. record p { stderr_pipe = q }) d
command close_control i a len p d =
    let (q, io) = out_close false p.ctrl_pipe d.io in
    ok (put i (some (record p { ctrl_pipe = q })) io d)
command close_stdin i a len p d =
    let (q, io) = out_close false p.stdin_pipe d.io in
    ok (put i (some (record p { stdin_pipe = q })) io d)
command close_stdout i a len p d = in_close false p.stdout_pipe d.io >>= λ (q, io).
    ok (put i (some (record p { stdout_pipe = q })) io d)
command close_stderr i a len p d = in_close false p.stderr_pipe d.io >>= λ (q, io).
    ok (put i (some (record p { stderr_pipe = q })) io d)
command _ i a len p d = ok d

-- the switch of `handle_socket_readable`, with the test before it
unfoldable pub dispatch : HostCmd → (i a len : ℕ) → Option ℕ → Option Proc → Daemon → Res Daemon
unfolding open_process command
dispatch reset i a len forked p d = stop exit
dispatch open_proc i a len forked none d = open_process i forked d
dispatch open_proc i a len forked (some p) d = stop fatal
dispatch c i a len forked none d = stop fatal
dispatch c i a len forked (some p) d = command c i a len p d

unfoldable pub packet : Option ℕ → Daemon → Gathered → Res Daemon
unfolding dispatch host_cmd
packet forked d end_of_file = stop fatal
packet forked d (bytes h) =
    let i : ℕ = get_or h 1 0 in
    dispatch (host_cmd (get_or h 0 0)) i (get_or h 2 0) (get_or h 3 0) forked (proc_at d i) d

-- `handle_socket_readable`
unfoldable pub handle_readable : Option ℕ → Daemon → Res Daemon
unfolding read_until packet
handle_readable forked d = read_until d.io.reads 4 >>= λ (g, rs).
    packet forked (record d { io = record (d.io) { reads = rs } }) g

-- `find_by_pid`
unfoldable pub has_pid : ℕ → Option Proc → Bool
has_pid pid none = false
has_pid pid (some p) = p.pid == pid

unfoldable pub find_by_pid : ℕ → List (Option Proc) → Option ℕ
unfolding has_pid
find_by_pid pid [] = none
find_by_pid pid (p ∷ ps) = if has_pid pid p then some 0 else Option.map suc (find_by_pid pid ps)

-- A child that `waitpid` reports as exited or killed, with its exit status or the signal that ended it.
pub record Death : Type 0 where
  pub pid : ℕ
  pub code : ℕ

unfoldable pub bury_at : Option ℕ → ℕ → Daemon → Res Daemon
unfolding send_header
bury_at none code d = ok d
bury_at (some i) code d = send_header 0x5 i code 0 d.io >>= λ io.
    ok (put i (Option.map (λ (p : Proc). record p { pid = 0 }) (proc_at d i)) io d)

-- the body of the second loop of `handle_sigchld`
unfoldable pub bury : Death → Daemon → Res Daemon
unfolding bury_at find_by_pid
bury e d = bury_at (find_by_pid e.pid d.procs) e.code d

unfoldable pub handle_sigchld : List Death → Daemon → Res Daemon
unfolding bury
handle_sigchld [] d = ok d
handle_sigchld (e ∷ es) d = bury e d >>= λ d'. handle_sigchld es d'

-- what `epoll_wait` reports
pub data Event : Type 0 where
  incoming : (accepted : Bool) → Event
  hang_up : Event
  readable : (forked : Option ℕ) → Event
  deaths : List Death → Event
  pipe_ready : (id : ℕ) → Role → List Read → Event

-- The source finds the pipe by the address in the event. Here the event names the pipe by its process
-- and role, as `add_pipebuf_epoll` set it. If there is no such process, the memory at that address has
-- been freed, so that the event's handling is taken to be undefined.
unfoldable pub pipe_event : ℕ → Role → List Read → Option Proc → Daemon → Res Daemon
unfolding in_readable out_writable
pipe_event i r rs none d = stop undefined
pipe_event i ctrl rs (some p) d =
    out_writable p.ctrl_pipe d.io >>= λ (q, io). ok (put i (some (record p { ctrl_pipe = q })) io d)
pipe_event i stdin rs (some p) d = out_writable p.stdin_pipe d.io >>= λ (q, io).
    ok (put i (some (record p { stdin_pipe = q })) io d)
pipe_event i stdout rs (some p) d = in_readable rs p.stdout_pipe d.io >>= λ (q, io).
    ok (put i (some (record p { stdout_pipe = q })) io d)
pipe_event i stderr rs (some p) d = in_readable rs p.stderr_pipe d.io >>= λ (q, io).
    ok (put i (some (record p { stderr_pipe = q })) io d)

-- the body of the inner loop of `main`
unfoldable pub handle_event : Event → Daemon → Res Daemon
unfolding handle_incoming handle_closed_socket handle_readable handle_sigchld pipe_event
handle_event (incoming accepted) d = if d.io.sock_open then ok d else handle_incoming accepted d
handle_event hang_up d = handle_closed_socket d
handle_event (readable forked) d = handle_readable forked d
handle_event (deaths es) d = handle_sigchld es d
handle_event (pipe_ready i r rs) d = pipe_event i r rs (proc_at d i) d
