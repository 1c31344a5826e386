-- ===== src/Rig/Answers.antt =====
-- The order of commands and answers in test_rig/dap_hid.c.
use t2_firmware.Prelude.{
  ℕ, ◌+◌, ◌≡◌, refl, ap, List, [], Bool, false, if◌then◌else◌, ◌||◌, drop, arith,
}
use t2_firmware.Rig.Dap.{Library, Dap, dap_enable, Event, Session, host_events}
use t2_firmware.Rig.Phases.{serve, at_out, out_done, at_in, in_done, Phase, host_events-Phase}

-- the session in which the interface was selected, with both endpoints quiet
unfoldable pub opened : (l : Library) (t : l.State) (buf_in buf_out : List ℕ) → Session l
unfolding dap_enable
opened l t buf_in buf_out = record {
  device = dap_enable (record {
    library = t;
    dap_buf_in = buf_in;
    dap_buf_out = buf_out;
    out_armed = false;
    out_pending = false;
    in_armed = false;
    in_pending = false;
  });
  accepted = [];
  answers = [];
}

-- whether a command has no answer that the host has read
abbrev pub owed : {l : Library} → Dap l → ℕ
owed d = if d.out_pending || d.in_armed then 1 else 0

abbrev pub busy : {l : Library} → Dap l → ℕ
busy d =
    let one = λ (b : Bool). if b then 1 else 0 in
    one d.out_armed + one d.out_pending + one d.in_armed + one d.in_pending

module _ (l : Library) (t : l.State) (buf_in buf_out : List ℕ) where
  opened-Phase : Phase (l.setup t) buf_in (opened l t buf_in buf_out)
  unfolding opened
  opened-Phase = (
    at_out,
    (
      [],
      record {
        out_armed = refl;
        out_pending = refl;
        in_armed = refl;
        in_pending = refl;
        accepted = refl;
        library = refl;
        buffer = refl;
        answers = refl;
      },
    ),
  )

  run-Phase :
      (es : List Event) → Phase (l.setup t) buf_in (host_events es (opened l t buf_in buf_out))
  run-Phase es = host_events-Phase (l.setup t) buf_in es (opened l t buf_in buf_out) opened-Phase

  Phase-answers :
      (s : Session l)
      → Phase (l.setup t) buf_in s
      → s.answers ≡ drop (owed s.device) (serve l (l.setup t) buf_in s.accepted).replies
  Phase-answers s (at_out, (done, p)) = ground (arith, p)
  Phase-answers s (out_done, (done, p)) =
      ground
        (arith, p, ap (λ (cs : List (List ℕ)). (serve l (l.setup t) buf_in cs).replies) p.accepted)
  Phase-answers s (at_in, (done, p)) =
      ground
        (arith, p, ap (λ (cs : List (List ℕ)). (serve l (l.setup t) buf_in cs).replies) p.accepted)
  Phase-answers s (in_done, (done, p)) = ground (arith, p)

  Phase-busy : (s : Session l) → Phase (l.setup t) buf_in s → busy s.device ≡ 1
  Phase-busy s (at_out, (done, p)) = ground (arith, p)
  Phase-busy s (out_done, (done, p)) = ground (arith, p)
  Phase-busy s (at_in, (done, p)) = ground (arith, p)
  Phase-busy s (in_done, (done, p)) = ground (arith, p)

  -- Whatever the host and the interrupts do, the answers that the host has read are those of the
  -- library to the commands that the device accepted, in their order, at most the latest missing.
  pub host_events-answers :
      (es : List Event)
      → let s = host_events es (opened l t buf_in buf_out) in
        s.answers ≡ drop (owed s.device) (serve l (l.setup t) buf_in s.accepted).replies
  host_events-answers es = Phase-answers (host_events es (opened l t buf_in buf_out)) (run-Phase es)

  -- Whatever the host and the interrupts do, exactly one of the two transfers is armed or pending: a
  -- buffer is never overwritten while its packet is under way.
  pub host_events-busy :
      (es : List Event) → busy (host_events es (opened l t buf_in buf_out)).device ≡ 1
  host_events-busy es = Phase-busy (host_events es (opened l t buf_in buf_out)) (run-Phase es)
