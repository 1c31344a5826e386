-- ===== src/Rig/Phases.antt =====
-- Where the one packet of a conversation of test_rig/dap_hid.c is, after each event.
use t2_firmware.Prelude.{ℕ, ◌≡◌, sym, subst, List, [], ◌∷◌, Bool, true, false, arith}
use t2_firmware.Rig.Dap.{
  Library, dap_handle_usb_in_completion, dap_handle_usb_out_completion, usb_cb_completion,
  complete_in, complete_out, Event, write, read, interrupt, Session, event_at, host_event,
  host_events,
}

module _ (l : Library) where
  -- The library by itself: its state, the buffer of its answers and its answers, the latest first,
  -- after some commands, the latest first.
  pub record Served : Type 0 where
    pub state : l.State
    pub buffer : List ℕ
    pub replies : List (List ℕ)

  abbrev pub serve : l.State → List ℕ → List (List ℕ) → Served
  serve t buf [] = record { state = t; buffer = buf; replies = [] }
  serve t buf (c ∷ cs) =
      let s = serve t buf cs in
      let (u, response) = l.process c s.buffer s.state in
      record { state = u; buffer = response; replies = response ∷ s.replies }

-- where the one packet of a conversation is
pub data Token : Type 0 where
  at_out out_done at_in in_done : Token

abbrev pub commands : Token → (last : List ℕ) → List (List ℕ) → List (List ℕ)
commands out_done last cs = last ∷ cs
commands _ last cs = cs

abbrev pub given : Token → (next : List ℕ) → List (List ℕ) → List (List ℕ)
given at_in next rs = next ∷ rs
given _ next rs = rs

abbrev pub is_at : Token → Token → Bool
is_at at_out at_out = true
is_at out_done out_done = true
is_at at_in at_in = true
is_at in_done in_done = true
is_at _ _ = false

module _ {l : Library} (t : l.State) (buf : List ℕ) where
  pub record InPhase (k : Token) (done : List (List ℕ)) (s : Session l) : Type 0 where
    pub out_armed : s.device.out_armed ≡ is_at k at_out
    pub out_pending : s.device.out_pending ≡ is_at k out_done
    pub in_armed : s.device.in_armed ≡ is_at k at_in
    pub in_pending : s.device.in_pending ≡ is_at k in_done
    pub accepted : s.accepted ≡ commands k s.device.dap_buf_out done
    pub library : s.device.library ≡ (serve l t buf done).state
    pub buffer : s.device.dap_buf_in ≡ (serve l t buf done).buffer
    pub answers : given k s.device.dap_buf_in s.answers ≡ (serve l t buf done).replies

  abbrev pub Phase : Session l → Type 0
  Phase s = (k : Token) × ((done : List (List ℕ)) × InPhase k done s)

  -- An event that changes nothing leaves the packet where it is.
  stays : (k : Token) (done : List (List ℕ)) (s u : Session l) → InPhase k done s → u ≡ s → Phase u
  stays k done s u p e = (k, (done, subst (InPhase k done) (sym e) p))

  write-Phase :
      (xs : List ℕ) (s : Session l) (k : Token) (done : List (List ℕ))
      → InPhase k done s
      → Phase (event_at (write xs) s.device s)
  unfolding event_at
  write-Phase xs s at_out done p = (
    out_done,
    (
      done,
      record {
        out_armed = ground (arith, p);
        out_pending = ground (arith, p);
        in_armed = ground (arith, p);
        in_pending = ground (arith, p);
        accepted = ground (arith, p);
        library = ground (arith, p);
        buffer = ground (arith, p);
        answers = ground (arith, p);
      },
    ),
  )
  write-Phase xs s out_done done p = stays out_done done s _ p (ground (arith, p))
  write-Phase xs s at_in done p = stays at_in done s _ p (ground (arith, p))
  write-Phase xs s in_done done p = stays in_done done s _ p (ground (arith, p))

  read-Phase :
      (s : Session l) (k : Token) (done : List (List ℕ))
      → InPhase k done s
      → Phase (event_at read s.device s)
  unfolding event_at
  read-Phase s at_in done p = (
    in_done,
    (
      done,
      record {
        out_armed = ground (arith, p);
        out_pending = ground (arith, p);
        in_armed = ground (arith, p);
        in_pending = ground (arith, p);
        accepted = ground (arith, p);
        library = ground (arith, p);
        buffer = ground (arith, p);
        answers = ground (arith, p);
      },
    ),
  )
  read-Phase s at_out done p = stays at_out done s _ p (ground (arith, p))
  read-Phase s out_done done p = stays out_done done s _ p (ground (arith, p))
  read-Phase s in_done done p = stays in_done done s _ p (ground (arith, p))

  interrupt-Phase :
      (s : Session l) (k : Token) (done : List (List ℕ))
      → InPhase k done s
      → Phase (event_at interrupt s.device s)
  unfolding event_at usb_cb_completion complete_in complete_out dap_handle_usb_in_completion
      dap_handle_usb_out_completion
  interrupt-Phase s out_done done p = (
    at_in,
    (
      s.device.dap_buf_out ∷ done,
      record {
        out_armed = ground (arith, p);
        out_pending = ground (arith, p);
        in_armed = ground (arith, p);
        in_pending = ground (arith, p);
        accepted = ground (arith, p);
        library = ground (arith, p);
        buffer = ground (arith, p);
        answers = ground (arith, p);
      },
    ),
  )
  interrupt-Phase s in_done done p = (
    at_out,
    (
      done,
      record {
        out_armed = ground (arith, p);
        out_pending = ground (arith, p);
        in_armed = ground (arith, p);
        in_pending = ground (arith, p);
        accepted = ground (arith, p);
        library = ground (arith, p);
        buffer = ground (arith, p);
        answers = ground (arith, p);
      },
    ),
  )
  interrupt-Phase s at_out done p = stays at_out done s _ p (ground (arith, p))
  interrupt-Phase s at_in done p = stays at_in done s _ p (ground (arith, p))

  host_event-Phase : (e : Event) (s : Session l) → Phase s → Phase (host_event e s)
  unfolding host_event
  host_event-Phase (write xs) s (k, (done, p)) = write-Phase xs s k done p
  host_event-Phase read s (k, (done, p)) = read-Phase s k done p
  host_event-Phase interrupt s (k, (done, p)) = interrupt-Phase s k done p

  pub host_events-Phase : (es : List Event) (s : Session l) → Phase s → Phase (host_events es s)
  unfolding host_events
  host_events-Phase [] s p = p
  host_events-Phase (e ∷ es) s p = host_events-Phase es (host_event e s) (host_event-Phase e s p)
