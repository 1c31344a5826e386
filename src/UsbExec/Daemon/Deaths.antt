-- ===== src/UsbExec/Daemon/Deaths.antt =====
-- Processes that end: `find_by_pid`, `handle_sigchld` and `close_process` of soc/usbexecd.c.
use mathlib.Core.Option
use t2_firmware.Prelude.{
  ℕ, zero, suc, ◌≡◌, ◌<◌, ap, ap₂, subst, ◌∙◌, List, [], ◌∷◌, true, false, Option, none, some,
  get_or, arith, if◌then◌else◌, ◌==◌,
}
use t2_firmware.UsbExec
use t2_firmware.UsbExec.{PipeBuf, Call, header, Io, log, Res, ok, stop, ◌>>=◌, send_header}
use t2_firmware.UsbExec.Packets.{IsUp, send_header-up}
use t2_firmware.UsbExec.Input.{in_close}
use t2_firmware.UsbExec.Output.{out_close}
use t2_firmware.UsbExec.Daemon.{
  Proc, Daemon, put, close_out, close_in, close_process, Death, has_pid, find_by_pid, bury, bury_at,
}
use t2_firmware.UsbExec.Daemon.Hangup.{Ensures, >>=-Ensures_from}

-- the process `p` is the first of the table with its pid, and at `i`
pub record IsFirst (pid i : ℕ) (p : Proc) (ps : List (Option Proc)) : Type 0 where
  pub at : get_or ps i none ≡ some p
  pub pid_same : p.pid ≡ pid
  pub before : (j : ℕ) → j < i → has_pid pid (get_or ps j none) ≡ false

has_pid_self : (pid : ℕ) (p : Proc) → p.pid ≡ pid → has_pid pid (some p) ≡ true
unfolding has_pid
has_pid_self pid p h = ground arith

find_by_pid-IsFirst :
    (pid i : ℕ) (p : Proc) (ps : List (Option Proc))
    → IsFirst pid i p ps
    → find_by_pid pid ps ≡ some i
unfolding find_by_pid
find_by_pid-IsFirst pid i p [] v = absurd (cc v.at)
find_by_pid-IsFirst pid zero p (q ∷ ps) v =
    ap (λ b. if b then some 0 else Option.map suc (find_by_pid pid ps))
      (ap (has_pid pid) v.at ∙ has_pid_self pid p v.pid_same)
find_by_pid-IsFirst pid (suc i) p (q ∷ ps) v =
    ap₂ (λ b r. if b then some 0 else Option.map suc r) (v.before 0 (omega arith))
      (find_by_pid-IsFirst pid i p ps (record {
        at = v.at;
        pid_same = v.pid_same;
        before = λ j h. v.before (suc j) (omega arith);
      }))

abbrev dead : Proc → Proc
dead p = record p { pid = 0 }

-- When a child ends whose process is the first with its pid in the table, at `i`, the host is told
-- `i` and the exit code, and only the entry `i` changes: it has no pid any more.
bury-IsFirst :
    (e : Death) (i : ℕ) (p : Proc) (d : Daemon)
    → IsUp d.io
    → IsFirst e.pid i p d.procs
    → bury e d ≡ ok (put i (some (dead p)) (log (header 0x5 i e.code 0) d.io) d)
unfolding bury bury_at
bury-IsFirst e i p d u v =
    ap (λ r. bury_at r e.code d) (find_by_pid-IsFirst e.pid i p d.procs v)
    ∙ ap₂ (λ r q. r >>= λ io. ok (put i (Option.map dead q) io d))
        (send_header-up 0x5 i e.code 0 d.io u) v.at

-- the pids to which SIGKILL was sent, the latest first
abbrev pub kills : List Call → List ℕ
kills [] = []
kills (UsbExec.kill pid sig ∷ cs) = pid ∷ kills cs
kills (_ ∷ cs) = kills cs

abbrev Kills : List ℕ → Io → Type 0
Kills ks io = kills io.calls ≡ ks

close_out-kills : (p : PipeBuf) (io : Io) → kills (close_out p io).calls ≡ kills io.calls
unfolding close_out out_close
close_out-kills p io = ground arith

close_in-kills : (p : PipeBuf) (io : Io) → Ensures (Kills (kills io.calls)) (close_in p io)
unfolding close_in in_close send_header
close_in-kills p io = ground arith

-- the calls when `close_process` starts
abbrev killed : Proc → Io → List ℕ
killed p io = if p.pid == 0 then kills io.calls else p.pid ∷ kills io.calls

first_kills :
    (p : Proc) (io : Io)
    → kills
        (if p.pid == 0
          then io
          else log (UsbExec.waitpid p.pid) (log (UsbExec.kill p.pid 9) io)).calls
      ≡ killed p io
first_kills p io = ground arith

-- If `close_process` returns, it has sent one kill, to the process, if its pid is not 0, and none
-- if it is.
close_process-kills :
    (p : Proc) (io : Io) → Ensures (λ io'. kills io'.calls ≡ killed p io) (close_process p io)
unfolding close_process
close_process-kills p io =
    let a =
      if p.pid == 0 then io else log (UsbExec.waitpid p.pid) (log (UsbExec.kill p.pid 9) io) in
    let b = close_out p.ctrl_pipe a in
    let c = close_out p.stdin_pipe b in
    let e : kills c.calls ≡ killed p io =
      close_out-kills p.stdin_pipe b ∙ close_out-kills p.ctrl_pipe a ∙ first_kills p io in
    let P = λ (io' : Io). kills io'.calls ≡ killed p io in
    >>=-Ensures_from P P (close_in p.stdout_pipe c) (close_in p.stderr_pipe)
      (subst (λ k. Ensures (Kills k) (close_in p.stdout_pipe c)) e (close_in-kills p.stdout_pipe c))
      (λ io' h.
        subst (λ k. Ensures (Kills k) (close_in p.stderr_pipe io')) h
          (close_in-kills p.stderr_pipe io'))
