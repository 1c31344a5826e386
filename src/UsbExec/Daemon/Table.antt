-- ===== src/UsbExec/Daemon/Table.antt =====
-- The process table of soc/usbexecd.c: which entries a packet changes.
use t2_firmware.Prelude.{
  ℕ, ◌+◌, ◌*◌, ◌≡◌, ◌≢◌, ◌⊎◌, inl, inr, refl, sym, map, true, false, Option, none, some,
  get_or-set_ne, arith,
}
use t2_firmware.UsbExec
use t2_firmware.UsbExec.{
  bytes, log, Role, ctrl, stdin, stdout, stderr, PipeBuf, Io, Read, Res, ok, stop, Stop, ◌>>=◌,
  fatal, undefined, send_header,
}
use t2_firmware.UsbExec.Input.{After, kept, hung_up, in_close, in_init}
use t2_firmware.UsbExec.Output.{out_close, out_init}
use t2_firmware.UsbExec.Daemon.Hangup.{
  Ensures, >>=-Ensures, >>=-Ensures_from, if-Ensures, ends, Hung, in_ack-Hung, out_receive-Hung,
}
use t2_firmware.UsbExec.Daemon.{
  Proc, Daemon, proc_at, put, forget, wipe, handle_closed_socket, HostCmd, reset, open_proc,
  close_proc, kill_proc, write_control, write_stdin, ack_stdout, ack_stderr, close_control,
  close_stdin, close_stdout, close_stderr, other, settle, start, open_process, command, dispatch,
  close_process,
}

-- The entry `j` is as it was, or the host has hung up and the table is empty.
abbrev pub Leaves : ℕ → Daemon → Daemon → Type 0
Leaves j d d' =
    (proc_at d' j ≡ proc_at d j) ⊎ ((ends d.io.reads ≡ true) × (d'.procs ≡ map forget d.procs))

module _ (i j : ℕ) (d : Daemon) (h : j ≢ i) where
  put-Leaves : (p : Option Proc) (io : Io) → Leaves j d (put i p io d)
  put-Leaves p io = inl (get_or-set_ne d.procs i j p none (λ e. h (sym e)))

  closed-Leaves :
      (io : Io)
      → ends d.io.reads ≡ true
      → Ensures (Leaves j d) (handle_closed_socket (record d { io = io }))
  unfolding handle_closed_socket
  closed-Leaves io g =
      let io' = record (log UsbExec.close_sock (log UsbExec.unpoll_sock io)) {
        sock_open = false;
      } in
      let end = λ (a : Io). ok (record d {
        procs = map forget d.procs;
        listening = true;
        io = log UsbExec.poll_listener a;
      }) in
      if-Ensures (Leaves j d) io.sock_open (wipe d.procs io' >>= end) (stop fatal)
        (>>=-Ensures (Leaves j d) (wipe d.procs io') end (λ a. inr (g, refl))) tt

  settle-Leaves :
      (f : PipeBuf → Proc) (r : After × Io)
      → Hung d.io.reads r
      → Ensures (Leaves j d) (settle i f d r)
  unfolding settle
  settle-Leaves f (kept q, io) g = put-Leaves (some (f q)) io
  settle-Leaves f (hung_up, io) g = closed-Leaves io g

  received-Leaves :
      (f : PipeBuf → Proc) (r : Res (After × Io))
      → Ensures (Hung d.io.reads) r
      → Ensures (Leaves j d) (r >>= settle i f d)
  received-Leaves f r g =
      >>=-Ensures_from (Hung d.io.reads) (Leaves j d) r (settle i f d) g (settle-Leaves f)

  start-Leaves :
      (forked : Option ℕ) (c i' o e : PipeBuf) (io : Io)
      → Ensures (Leaves j d) (start i forked c i' o e d io)
  unfolding start
  start-Leaves none c i' o e io = tt
  start-Leaves (some pid) c i' o e io =
      put-Leaves
        (some
          (record { pid = pid; ctrl_pipe = c; stdin_pipe = i'; stdout_pipe = o; stderr_pipe = e }))
        (log (UsbExec.fork i) io)

  open_process-Leaves : (forked : Option ℕ) → Ensures (Leaves j d) (open_process i forked d)
  unfolding open_process
  open_process-Leaves forked =
      let P = Leaves j d in
      >>=-Ensures P (out_init i ctrl d.io)
        (λ (c, io1). out_init i stdin io1 >>= λ (i', io2). in_init i stdout io2 >>= λ (o, io3).
          in_init i stderr io3 >>= λ (e, io4). start i forked c i' o e d io4)
        (λ (c, io1).
          >>=-Ensures P (out_init i stdin io1)
            (λ (i', io2). in_init i stdout io2 >>= λ (o, io3).
              in_init i stderr io3 >>= λ (e, io4). start i forked c i' o e d io4)
            (λ (i', io2).
              >>=-Ensures P (in_init i stdout io2)
                (λ (o, io3). in_init i stderr io3 >>= λ (e, io4). start i forked c i' o e d io4)
                (λ (o, io3).
                  >>=-Ensures P (in_init i stderr io3) (λ (e, io4). start i forked c i' o e d io4)
                    (λ (e, io4). start-Leaves forked c i' o e io4))))

  command-Leaves :
      (c : HostCmd) (a len : ℕ) (p : Proc) → Ensures (Leaves j d) (command c i a len p d)
  unfolding command
  command-Leaves close_proc a len p =
      let P = Leaves j d in
      >>=-Ensures P (close_process p d.io)
        (λ io. send_header 0x6 i 255 0 io >>= λ io'. ok (put i none io' d))
        (λ io.
          >>=-Ensures P (send_header 0x6 i 255 0 io) (λ io'. ok (put i none io' d))
            (λ io'. put-Leaves none io'))
  command-Leaves kill_proc a len p = ground arith
  command-Leaves write_control a len p =
      received-Leaves (λ q. record p { ctrl_pipe = q }) _
        (out_receive-Hung (len + a * 256) p.ctrl_pipe d.io)
  command-Leaves write_stdin a len p =
      received-Leaves (λ q. record p { stdin_pipe = q }) _
        (out_receive-Hung (len + a * 256) p.stdin_pipe d.io)
  command-Leaves ack_stdout a len p =
      received-Leaves (λ q. record p { stdout_pipe = q }) _ (in_ack-Hung len p.stdout_pipe d.io)
  command-Leaves ack_stderr a len p =
      received-Leaves (λ q. record p { stderr_pipe = q }) _ (in_ack-Hung len p.stderr_pipe d.io)
  command-Leaves close_control a len p =
      put-Leaves (some (record p { ctrl_pipe = (out_close false p.ctrl_pipe d.io).0 }))
        (out_close false p.ctrl_pipe d.io).1
  command-Leaves close_stdin a len p =
      put-Leaves (some (record p { stdin_pipe = (out_close false p.stdin_pipe d.io).0 }))
        (out_close false p.stdin_pipe d.io).1
  command-Leaves close_stdout a len p =
      >>=-Ensures (Leaves j d) (in_close false p.stdout_pipe d.io)
        (λ (q, io). ok (put i (some (record p { stdout_pipe = q })) io d))
        (λ (q, io). put-Leaves (some (record p { stdout_pipe = q })) io)
  command-Leaves close_stderr a len p =
      >>=-Ensures (Leaves j d) (in_close false p.stderr_pipe d.io)
        (λ (q, io). ok (put i (some (record p { stderr_pipe = q })) io d))
        (λ (q, io). put-Leaves (some (record p { stderr_pipe = q })) io)
  command-Leaves reset a len p = inl refl
  command-Leaves open_proc a len p = inl refl
  command-Leaves other a len p = inl refl

  -- If the daemon goes on after a packet for one process, the table's entry of any other is as it
  -- was, or the table is empty; this only if a `read` of the socket, among those to come, returns 0
  -- since the host hung up.
  pub dispatch-Leaves :
      (c : HostCmd) (a len : ℕ) (forked : Option ℕ) (p : Option Proc)
      → Ensures (Leaves j d) (dispatch c i a len forked p d)
  unfolding dispatch
  dispatch-Leaves open_proc a len forked none = open_process-Leaves forked
  dispatch-Leaves open_proc a len forked (some p) = tt
  dispatch-Leaves reset a len forked p = tt
  dispatch-Leaves close_proc a len forked (some p) = command-Leaves close_proc a len p
  dispatch-Leaves kill_proc a len forked (some p) = command-Leaves kill_proc a len p
  dispatch-Leaves write_control a len forked (some p) = command-Leaves write_control a len p
  dispatch-Leaves write_stdin a len forked (some p) = command-Leaves write_stdin a len p
  dispatch-Leaves ack_stdout a len forked (some p) = command-Leaves ack_stdout a len p
  dispatch-Leaves ack_stderr a len forked (some p) = command-Leaves ack_stderr a len p
  dispatch-Leaves close_control a len forked (some p) = command-Leaves close_control a len p
  dispatch-Leaves close_stdin a len forked (some p) = command-Leaves close_stdin a len p
  dispatch-Leaves close_stdout a len forked (some p) = command-Leaves close_stdout a len p
  dispatch-Leaves close_stderr a len forked (some p) = command-Leaves close_stderr a len p
  dispatch-Leaves other a len forked (some p) = command-Leaves other a len p
  dispatch-Leaves close_proc a len forked none = tt
  dispatch-Leaves kill_proc a len forked none = tt
  dispatch-Leaves write_control a len forked none = tt
  dispatch-Leaves write_stdin a len forked none = tt
  dispatch-Leaves ack_stdout a len forked none = tt
  dispatch-Leaves ack_stderr a len forked none = tt
  dispatch-Leaves close_control a len forked none = tt
  dispatch-Leaves close_stdin a len forked none = tt
  dispatch-Leaves close_stdout a len forked none = tt
  dispatch-Leaves close_stderr a len forked none = tt
  dispatch-Leaves other a len forked none = tt
