-- ===== src/Bridge/Completion.antt =====
-- `bridge_dma_rx_completion` of firmware/bridge.c: which callbacks it makes.
use t2_firmware.Prelude.{
  ◌≡◌, ℕ, ◌<◌, true, false, arith, not, ◌&&◌, List, [], ◌∷◌, ◌++◌, ◌∙◌, ap, sym, subst, refl,
  if◌then◌else◌, test_bit, high_nibble, test_bit-high_nibble,
}
use t2_firmware.Channel.{Chan, usb, port_a, port_b, open_index, at, for_chan}
use t2_firmware.Transfer.{Xfer, to_mcu, from_mcu, Headers, segment, plan}
use t2_firmware.Bridge.{
  Bridge, ControlPkt, Callback, opened, completion_out, completion_in, closed, is_data_phase, idle,
  CompletionLocals, check_open, check_completion_out, check_completion_in, check_close, run_checks,
  dma_rx_completion,
}
use t2_firmware.Bridge.Chain.{headers}

-- The callbacks that a transfer deserves: each data transfer has one completion.
abbrev pub outs : List Xfer → List Callback
outs [] = []
outs (to_mcu c n ∷ xs) = completion_out c n ∷ outs xs
outs (from_mcu c n ∷ xs) = outs xs

abbrev pub ins : List Xfer → List Callback
ins [] = []
ins (to_mcu c n ∷ xs) = ins xs
ins (from_mcu c n ∷ xs) = completion_in c ∷ ins xs

outs-append : (xs ys : List Xfer) → outs (xs ++ ys) ≡ outs xs ++ outs ys
outs-append [] ys = refl
outs-append (to_mcu c n ∷ xs) ys = ap (λ l. completion_out c n ∷ l) (outs-append xs ys)
outs-append (from_mcu c n ∷ xs) ys = outs-append xs ys

ins-append : (xs ys : List Xfer) → ins (xs ++ ys) ≡ ins xs ++ ins ys
ins-append [] ys = refl
ins-append (to_mcu c n ∷ xs) ys = ins-append xs ys
ins-append (from_mcu c n ∷ xs) ys = ap (λ l. completion_in c ∷ l) (ins-append xs ys)

-- the open bit of a channel rose, or fell
abbrev pub opens : Bridge → Chan → List Callback
opens s c =
    if test_bit s.ctrl_rx.status (open_index c) && not (test_bit s.was_open (open_index c))
    then opened c (at s.ctrl_rx.size c) ∷ []
    else []

abbrev closes : Bridge → Chan → List Callback
closes s c =
    if not (test_bit s.ctrl_rx.status (open_index c)) && test_bit s.was_open (open_index c)
    then closed c (at s.ctrl_rx.size c) ∷ []
    else []

abbrev all_chans : (Chan → List Callback) → List Callback
all_chans f = f usb ++ f port_a ++ f port_b

outs-plan : (h : Headers) → outs (plan h) ≡ all_chans (λ c. outs (segment h c))
outs-plan h =
    outs-append (segment h usb ++ segment h port_a) (segment h port_b)
    ∙ ap (λ l. l ++ outs (segment h port_b)) (outs-append (segment h usb) (segment h port_a))

ins-plan : (h : Headers) → ins (plan h) ≡ all_chans (λ c. ins (segment h c))
ins-plan h =
    ins-append (segment h usb ++ segment h port_a) (segment h port_b)
    ∙ ap (λ l. l ++ ins (segment h port_b)) (ins-append (segment h usb) (segment h port_a))

abbrev pub callbacks : Bridge → List Callback
callbacks s =
    all_chans (opens s) ++ outs (plan (headers s)) ++ ins (plan (headers s)) ++ all_chans (closes s)

-- the handlers, one after the other
abbrev pub run_all : (Callback → Bridge → Bridge) → List Callback → Bridge → Bridge
run_all run [] s = s
run_all run (c ∷ cs) s = run_all run cs (run c s)

module _ (run : Callback → Bridge → Bridge) where
  run_all-append :
      (cs ds : List Callback) (s : Bridge)
      → run_all run (cs ++ ds) s ≡ run_all run ds (run_all run cs s)
  run_all-append [] ds s = refl
  run_all-append (c ∷ cs) ds s = run_all-append cs ds (run c s)

  module _ (keeps : (c : Callback) (s : Bridge) → (run c s).was_open ≡ s.was_open) where
    was_open-run_all : (cs : List Callback) (s : Bridge) → (run_all run cs s).was_open ≡ s.was_open
    was_open-run_all [] s = refl
    was_open-run_all (c ∷ cs) s = was_open-run_all cs (run c s) ∙ keeps c s

    -- `f` is the handlers of `cs`, at a state whose open channels are `w`.
    record Runs (w : ℕ) (f : Bridge → Bridge) (cs : List Callback) : Type 0 where
      apply : (s : Bridge) → s.was_open ≡ w → f s ≡ run_all run cs s

    Runs-then :
        {w : ℕ} {f g : Bridge → Bridge} {cs ds : List Callback}
        → Runs w f cs
        → Runs w g ds
        → Runs w (λ s. g (f s)) (cs ++ ds)
    Runs-then {g} {cs} {ds} hf hg = record {
      apply = λ s e.
          ap g (hf.apply s e)
          ∙ hg.apply (run_all run cs s) (was_open-run_all cs s ∙ e)
          ∙ sym (run_all-append cs ds s);
    }

    for_chan-Runs :
        {w : ℕ} {check : Chan → Bridge → Bridge} {seg : Chan → List Callback}
        → ((c : Chan) → Runs w (check c) (seg c))
        → Runs w (for_chan check) (all_chans seg)
    for_chan-Runs h = Runs-then (Runs-then (h usb) (h port_a)) (h port_b)

    module _ (s : Bridge) where
      locals : CompletionLocals
      locals = (s.ctrl_rx, s.ctrl_tx)

      open_Runs : (c : Chan) → Runs s.was_open (check_open run locals c) (opens s c)
      unfolding locals check_open
      open_Runs c = record { apply = λ t e. ground arith }

      close_Runs : (c : Chan) → Runs s.was_open (check_close run locals c) (closes s c)
      unfolding locals check_close
      close_Runs c = record { apply = λ t e. ground arith }

      out_Runs :
          (c : Chan)
          → Runs s.was_open (check_completion_out run locals c) (outs (segment (headers s) c))
      unfolding locals check_completion_out
      out_Runs c = record { apply = λ t e. ground arith }

      in_Runs :
          (c : Chan)
          → Runs s.was_open (check_completion_in run locals c) (ins (segment (headers s) c))
      unfolding locals check_completion_in
      in_Runs c = record { apply = λ t e. ground arith }

      checks_Runs : Runs s.was_open (run_checks run locals) (callbacks s)
      unfolding run_checks
      checks_Runs =
          Runs-then
            (Runs-then
              (Runs-then (for_chan-Runs open_Runs)
                (subst (Runs s.was_open _) (sym (outs-plan (headers s))) (for_chan-Runs out_Runs)))
              (subst (Runs s.was_open _) (sym (ins-plan (headers s))) (for_chan-Runs in_Runs)))
            (for_chan-Runs close_Runs)

  -- If no callback changes the record of open channels, the completion interrupt of a data phase
  -- makes, in order: a callback for each channel whose open bit rose, one completion for each
  -- transfer of the plan, those from the SoC first, and a callback for each channel whose open bit
  -- fell. Then the bridge is idle and remembers the open bits of the header it finds.
  pub dma_rx_completion_calls :
      ((c : Callback) (s : Bridge) → (run c s).was_open ≡ s.was_open)
      → (s : Bridge) → is_data_phase s.state ≡ true
      → let t = run_all run (callbacks s) s in
        dma_rx_completion run s ≡ record t { was_open = high_nibble t.ctrl_rx.status; state = idle }
  unfolding dma_rx_completion locals
  dma_rx_completion_calls keeps s h = rw h (
      ap (λ (t : Bridge). record t { was_open = high_nibble t.ctrl_rx.status; state = idle })
        ((checks_Runs keeps s).apply s refl))

  -- In any other state the interrupt is not the bridge's and does nothing.
  pub dma_rx_completion_ignored :
      (s : Bridge) → is_data_phase s.state ≡ false → dma_rx_completion run s ≡ s
  unfolding dma_rx_completion
  dma_rx_completion_ignored s h = rw h

  -- The handler tests a copy of the header, and at its end remembers the open bits of the header
  -- that is in place by then. If the copy leaves a channel closed, and an interrupt during the
  -- callbacks has brought a header that opens it, then the check of this handler makes no open
  -- callback for the channel, in whatever state it runs; and that of a completion that follows, with
  -- the new header's status, makes none either.
  pub lost_open :
      (s : Bridge) (c : Chan)
      → is_data_phase s.state ≡ true
      → test_bit s.ctrl_rx.status (open_index c) ≡ false
      → let v = (run_checks run (s.ctrl_rx, s.ctrl_tx) s).ctrl_rx.status in
        v < 256
        → test_bit v (open_index c) ≡ true
        → (rx tx : ControlPkt) → rx.status ≡ v
        → ((t : Bridge) → check_open run (s.ctrl_rx, s.ctrl_tx) c t ≡ t)
          × (check_open run (rx, tx) c (dma_rx_completion run s) ≡ dma_rx_completion run s)
  unfolding dma_rx_completion check_open
  lost_open s c h off lt on rx tx e =
      let v = (run_checks run (s.ctrl_rx, s.ctrl_tx) s).ctrl_rx.status in
      (λ t. ground arith, rw h (ground (arith, test_bit-high_nibble v (open_index c))))
