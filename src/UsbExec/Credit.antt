-- ===== src/UsbExec/Credit.antt =====
-- A readable pipe of soc/usbexecd.c over all its events: the host gets what the process wrote, in
-- order and within the credit that it granted.
use t2_firmware.Prelude.{ℕ, ◌+◌, ◌≤◌, List, [], ◌∷◌, false, length, if◌then◌else◌}
use t2_firmware.UsbExec.{PipeBuf, pipe_size, Io, Read, Write, Res, ok, ◌>>=◌}
use t2_firmware.UsbExec.Writing.{AllTake}
use t2_firmware.UsbExec.Flow.{AllRead}
use t2_firmware.UsbExec.Input.{in_readable, grant, in_close}
use t2_firmware.UsbExec.Handled.{Handled}

-- The process's end is readable, the host grants credit, or it asks to close the pipe. Each event
-- brings the answers of the socket's `write` for it.
pub data Event : Type 0 where
  readable : List Read → List Write → Event
  acked : ℕ → List Write → Event
  close_asked : Event

-- Epoll reports a pipe only while it watches it.
unfoldable pub run_event : Event → PipeBuf → Io → Res (PipeBuf × Io)
run_event (readable rs ws) p io =
    if p.polled then in_readable rs p (record io { writes = ws }) else ok (p, io)
run_event (acked n ws) p io = grant n p (record io { writes = ws })
run_event close_asked p io = in_close false p io

unfoldable pub run_events : List Event → PipeBuf × Io → Res (PipeBuf × Io)
unfolding run_event
run_events [] s = ok s
run_events (e ∷ es) (p, io) = run_event e p io >>= run_events es

-- what the host grants in all
abbrev pub grants : List Event → ℕ
grants [] = 0
grants (acked n ws ∷ es) = n + grants es
grants (_ ∷ es) = grants es

-- No `read` or `write` fails, and a ring can be sent.
abbrev pub IsAnswered : Event → Type 0
IsAnswered (readable rs ws) = AllRead rs × AllTake ws × (pipe_size ≤ length ws)
IsAnswered (acked n ws) = AllTake ws × (pipe_size ≤ length ws)
IsAnswered close_asked = Unit {0}

abbrev pub AllAnswered : List Event → Type 0
AllAnswered [] = Unit {0}
AllAnswered (e ∷ es) = IsAnswered e × AllAnswered es

event_grant : Event → ℕ
event_grant (acked n ws) = n
event_grant _ = 0
