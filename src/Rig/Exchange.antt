-- ===== src/Rig/Exchange.antt =====
-- A host that writes a command, waits for the answer and reads it: test_rig/dap_hid.c.
use t2_firmware.Prelude.{ℕ, ◌≡◌, refl, ap₂, ◌∙◌, List, [], ◌∷◌, true, false, drop, arith}
use t2_firmware.Rig.Dap.{
  Library, dap_handle_usb_in_completion, dap_handle_usb_out_completion, usb_cb_completion,
  complete_in, complete_out, Event, write, read, interrupt, Session, filled, event_at, host_event,
  host_events,
}
use t2_firmware.Rig.Phases.{serve}
use t2_firmware.Rig.Answers.{opened, owed, host_events-answers}

abbrev pub exchanges : List (List ℕ) → List Event
exchanges [] = []
exchanges (c ∷ cs) = write c ∷ interrupt ∷ read ∷ interrupt ∷ exchanges cs

-- the buffers that hold these commands, the latest first, on top of `done`: a command is followed by
-- what the buffer held before
abbrev pub requests : List (List ℕ) → (buf : List ℕ) → (done : List (List ℕ)) → List (List ℕ)
requests [] buf done = done
requests (c ∷ cs) buf done = requests cs (filled c buf) (filled c buf ∷ done)

module _ {l : Library} where
  -- only the endpoint for commands is armed
  record Ready (s : Session l) : Type 0 where
    out_armed : s.device.out_armed ≡ true
    out_pending : s.device.out_pending ≡ false
    in_armed : s.device.in_armed ≡ false
    in_pending : s.device.in_pending ≡ false

  -- one command and its answer
  exchange : List ℕ → Session l → Session l
  unfolding host_event
  exchange c s =
      host_event interrupt (host_event read (host_event interrupt (host_event (write c) s)))

  exchange-Ready : (c : List ℕ) (s : Session l) → Ready s → Ready (exchange c s)
  unfolding exchange event_at usb_cb_completion complete_in complete_out
      dap_handle_usb_in_completion dap_handle_usb_out_completion
  exchange-Ready c s r = record {
    out_armed = ground (arith, r);
    out_pending = ground (arith, r);
    in_armed = ground (arith, r);
    in_pending = ground (arith, r);
  }

  exchange-accepted :
      (c : List ℕ) (s : Session l)
      → Ready s
      → (exchange c s).accepted ≡ filled c s.device.dap_buf_out ∷ s.accepted
  unfolding exchange event_at usb_cb_completion complete_in complete_out
      dap_handle_usb_in_completion dap_handle_usb_out_completion
  exchange-accepted c s r = ground (arith, r)

  exchange-buffer :
      (c : List ℕ) (s : Session l)
      → Ready s
      → (exchange c s).device.dap_buf_out ≡ filled c s.device.dap_buf_out
  unfolding exchange event_at usb_cb_completion complete_in complete_out
      dap_handle_usb_in_completion dap_handle_usb_out_completion
  exchange-buffer c s r = ground (arith, r)

  exchanges-Ready :
      (cs : List (List ℕ)) (s : Session l)
      → Ready s
      → Ready (host_events (exchanges cs) s)
        × ((host_events (exchanges cs) s).accepted ≡ requests cs s.device.dap_buf_out s.accepted)
  unfolding host_events exchange
  exchanges-Ready [] s r = (r, refl)
  exchanges-Ready (c ∷ cs) s r =
      let (q, e) = exchanges-Ready cs (exchange c s) (exchange-Ready c s r) in
      (q, e ∙ ap₂ (requests cs) (exchange-buffer c s r) (exchange-accepted c s r))

module _ (l : Library) (t : l.State) (buf_in buf_out : List ℕ) where
  -- When the host reads each answer before it writes the next command, the device accepts all of
  -- the commands, and the host gets the library's answers to all of them, in order.
  pub exchanges-answered :
      (cs : List (List ℕ))
      → let s = host_events (exchanges cs) (opened l t buf_in buf_out) in
        s.answers ≡ (serve l (l.setup t) buf_in (requests cs buf_out [])).replies
  unfolding opened
  exchanges-answered cs =
      let s = opened l t buf_in buf_out in
      let r : Ready s = record {
        out_armed = refl;
        out_pending = refl;
        in_armed = refl;
        in_pending = refl;
      } in
      let (q, e) = exchanges-Ready cs s r in
      let o : owed (host_events (exchanges cs) s).device ≡ 0 = ground (arith, q) in
      host_events-answers l t buf_in buf_out (exchanges cs)
      ∙ ap₂ (λ (n : ℕ) (done : List (List ℕ)). drop n (serve l (l.setup t) buf_in done).replies) o e
