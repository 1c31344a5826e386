-- ===== src/Firmware/Ports/Spared.antt =====
-- What the interrupts of firmware/main.c leave alone.
use t2_firmware.Prelude.{
  ℕ, ◌≡◌, ◌⊎◌, inl, inr, refl, ap, ◌∙◌, List, [], ◌∷◌, Bool, true, false, ◌==◌, Bool-cases,
  if◌then◌else◌, test_bit, arith,
}
use t2_firmware.Channel.{usb, port_a, port_b}
use t2_firmware.Bridge.{Callback, opened, completion_out, completion_in, closed}
use t2_firmware.UsbPipe
use t2_firmware.UsbPipe.{UsbPipe}
use t2_firmware.Port.{Config, Hw}
use t2_firmware.Port.Sound.{IsSound}
use t2_firmware.Port.Run.{
  Event, run_event, IsOffered, run_event-Returns, enabled, disabled, in_done, dma_rx, dma_tx,
  uart_timeout, out_done, sercom, extint,
}
use t2_firmware.Firmware.Ports.{
  System, Ending, goes_on, resets, Interrupt, dmac, eic, sercom_a, sercom_b, tcc_a, tcc_b, bridge,
  on_a, on_b, dmac_handler, eic_handler, bridge_callback, interrupt, interrupts, then_run,
}
use t2_firmware.Firmware.Ports.Parts.{for_a, for_b, for_pipe, is_button, some_of, Comes, AllCome}

-- The run goes on, with both ports disabled or in bounds, and what is not concerned is as it was.
pub record Goes (a b p : Bool) (s : System) (e : Ending) : Type 0 where
  pub result : System
  pub returns : e ≡ goes_on result
  pub sound_a : IsSound result.port_a
  pub sound_b : IsSound result.port_b
  pub spared_a : a ≡ false → result.port_a ≡ s.port_a
  pub spared_b : b ≡ false → result.port_b ≡ s.port_b
  pub spared_pipe : p ≡ false → result.pipe ≡ s.pipe

idle : (a b p : Bool) (s : System) → IsSound s.port_a → IsSound s.port_b → Goes a b p s (goes_on s)
idle a b p s v w = record {
  result = s;
  returns = refl;
  sound_a = v;
  sound_b = w;
  spared_a = λ _. refl;
  spared_b = λ _. refl;
  spared_pipe = λ _. refl;
}

moves_a :
    (c : Config) (hw : Hw) (e : Event) (a b p : Bool) (s : System)
    → a ≡ true
    → IsOffered e
    → IsSound s.port_a
    → IsSound s.port_b
    → Goes a b p s (on_a s (run_event c hw e s.port_a))
moves_a c hw e a b p s t o v w =
    let r = run_event-Returns c hw e s.port_a o v in
    record {
      result = record s { port_a = r.result };
      returns = ap (on_a s) r.returns;
      sound_a = r.sound;
      sound_b = w;
      spared_a = λ f. cc;
      spared_b = λ _. refl;
      spared_pipe = λ _. refl;
    }

moves_b :
    (c : Config) (hw : Hw) (e : Event) (a b p : Bool) (s : System)
    → b ≡ true
    → IsOffered e
    → IsSound s.port_a
    → IsSound s.port_b
    → Goes a b p s (on_b s (run_event c hw e s.port_b))
moves_b c hw e a b p s t o v w =
    let r = run_event-Returns c hw e s.port_b o w in
    record {
      result = record s { port_b = r.result };
      returns = ap (on_b s) r.returns;
      sound_a = v;
      sound_b = r.sound;
      spared_a = λ _. refl;
      spared_b = λ f. cc;
      spared_pipe = λ _. refl;
    }

if-Goes :
    (t a b p : Bool) (s : System) (x y : Ending)
    → (t ≡ true → Goes a b p s x)
    → Goes a b p s y
    → Goes a b p s (if t then x else y)
if-Goes true a b p s x y h k = h refl
if-Goes false a b p s x y h k = k

unless-Goes :
    (t a b p : Bool) (s : System) (x y : Ending)
    → t ≡ false
    → Goes a b p s y
    → Goes a b p s (if t then x else y)
unless-Goes true a b p s x y h k = cc
unless-Goes false a b p s x y h k = k

module _ (ca cb : Config) where
  -- what an interrupt does
  abbrev Handled : Interrupt → System → Ending → Type 0
  Handled i s e = Goes (for_a ca i) (for_b cb i) (for_pipe i) s e

  dmac-Goes :
      (hw : Hw) (id : ℕ) (s : System)
      → IsSound s.port_a
      → IsSound s.port_b
      → Goes (for_a ca (dmac id)) (for_b cb (dmac id)) false s (dmac_handler ca cb hw id s)
  unfolding dmac_handler run_event
  dmac-Goes hw id s v w =
      if-Goes (id == 6) _ _ _ s _ _ (λ e. moves_a ca hw dma_tx _ _ _ s (ground arith) tt v w)
        (if-Goes (id == 8) _ _ _ s _ _ (λ e. moves_b cb hw dma_tx _ _ _ s (ground arith) tt v w)
          (if-Goes (id == 7) _ _ _ s _ _ (λ e. moves_a ca hw dma_rx _ _ _ s (ground arith) tt v w)
            (if-Goes (id == 9) _ _ _ s _ _ (λ e. moves_b cb hw dma_rx _ _ _ s (ground arith) tt v w)
              (idle _ _ _ s v w))))

  eic-Goes :
      (hw : Hw) (flags : ℕ) (s : System)
      → test_bit flags 9 ≡ false
      → IsSound s.port_a
      → IsSound s.port_b
      → Goes (for_a ca (eic flags)) (for_b cb (eic flags)) false s (eic_handler ca cb hw flags s)
  unfolding eic_handler run_event
  eic-Goes hw flags s e v w = unless-Goes (test_bit flags 9) _ _ _ s _ _ e (
      if-Goes (for_a ca (eic flags)) _ _ _ s _ _
        (λ t. moves_a ca hw (extint flags) _ _ _ s t tt v w)
        (if-Goes (for_b cb (eic flags)) _ _ _ s _ _
          (λ t. moves_b cb hw (extint flags) _ _ _ s t tt v w) (idle _ _ _ s v w)))

  pipe-Goes :
      (a b : Bool) (s : System) (p : UsbPipe)
      → IsSound s.port_a
      → IsSound s.port_b
      → Goes a b true s (goes_on (record s { pipe = p }))
  pipe-Goes a b s p v w = record {
    result = record s { pipe = p };
    returns = refl;
    sound_a = v;
    sound_b = w;
    spared_a = λ _. refl;
    spared_b = λ _. refl;
    spared_pipe = λ f. cc;
  }

  bridge-Goes :
      (hw : Hw) (c : Callback) (s : System)
      → Comes (bridge c)
      → IsSound s.port_a
      → IsSound s.port_b
      → Handled (bridge c) s (bridge_callback ca cb hw c s)
  unfolding bridge_callback run_event
  bridge-Goes hw (opened usb n) s o v w = idle _ _ _ s v w
  bridge-Goes hw (closed usb n) s o v w = idle _ _ _ s v w
  bridge-Goes hw (completion_out usb count) s o v w =
      pipe-Goes false false s (UsbPipe.bridge_out_completion count s.pipe) v w
  bridge-Goes hw (completion_in usb) s o v w =
      pipe-Goes false false s (UsbPipe.bridge_in_completion s.pipe) v w
  bridge-Goes hw (opened port_a n) s o v w = moves_a ca hw enabled _ _ _ s refl tt v w
  bridge-Goes hw (closed port_a n) s o v w = moves_a ca hw disabled _ _ _ s refl tt v w
  bridge-Goes hw (completion_out port_a count) s o v w =
      moves_a ca hw (out_done count) _ _ _ s refl o v w
  bridge-Goes hw (completion_in port_a) s o v w = moves_a ca hw in_done _ _ _ s refl tt v w
  bridge-Goes hw (opened port_b n) s o v w = moves_b cb hw enabled _ _ _ s refl tt v w
  bridge-Goes hw (closed port_b n) s o v w = moves_b cb hw disabled _ _ _ s refl tt v w
  bridge-Goes hw (completion_out port_b count) s o v w =
      moves_b cb hw (out_done count) _ _ _ s refl o v w
  bridge-Goes hw (completion_in port_b) s o v w = moves_b cb hw in_done _ _ _ s refl tt v w

  interrupt-Goes :
      (hw : Hw) (i : Interrupt) (s : System)
      → Comes i
      → is_button i ≡ false
      → IsSound s.port_a
      → IsSound s.port_b
      → Handled i s (interrupt ca cb hw i s)
  unfolding interrupt run_event
  interrupt-Goes hw (dmac id) s o e v w = dmac-Goes hw id s v w
  interrupt-Goes hw (eic flags) s o e v w = eic-Goes hw flags s e v w
  interrupt-Goes hw (sercom_a rx failed) s o e v w =
      moves_a ca hw (sercom rx failed) _ _ _ s refl tt v w
  interrupt-Goes hw (sercom_b rx failed) s o e v w =
      moves_b cb hw (sercom rx failed) _ _ _ s refl tt v w
  interrupt-Goes hw tcc_a s o e v w = moves_a ca hw uart_timeout _ _ _ s refl tt v w
  interrupt-Goes hw tcc_b s o e v w = moves_b cb hw uart_timeout _ _ _ s refl tt v w
  interrupt-Goes hw (bridge c) s o e v w = bridge-Goes hw c s o v w

  button-resets :
      (hw : Hw) (i : Interrupt) (s : System) → is_button i ≡ true → interrupt ca cb hw i s ≡ resets
  unfolding interrupt eic_handler
  button-resets hw (eic flags) s e = ground (arith, e)
  button-resets hw (dmac id) s e = cc
  button-resets hw (sercom_a rx failed) s e = cc
  button-resets hw (sercom_b rx failed) s e = cc
  button-resets hw tcc_a s e = cc
  button-resets hw tcc_b s e = cc
  button-resets hw (bridge c) s e = cc

  -- The board is reset by the button, or there was none of it and the run goes on.
  abbrev pub Outcome : List (Hw × Interrupt) → System → Ending → Type 0
  Outcome is s e =
      ((some_of is_button is ≡ true) × (e ≡ resets))
      ⊎ ((some_of is_button is ≡ false)
          × Goes (some_of (for_a ca) is) (some_of (for_b cb) is) (some_of for_pipe is) s e)

  after_one :
      (hw : Hw) (i : Interrupt) (is : List (Hw × Interrupt)) (s : System)
      → is_button i ≡ false
      → (g : Handled i s (interrupt ca cb hw i s))
      → Outcome is g.result (interrupts ca cb is g.result)
      → Outcome ((hw, i) ∷ is) s (interrupts ca cb ((hw, i) ∷ is) s)
  unfolding interrupts
  after_one hw i is s n g (inl (t, r)) =
      inl (ground (arith, t), ap (λ e. then_run e (interrupts ca cb is)) g.returns ∙ r)
  after_one hw i is s n g (inr (t, r)) = inr (
    ground (arith, n, t),
    record {
      result = r.result;
      returns = ap (λ e. then_run e (interrupts ca cb is)) g.returns ∙ r.returns;
      sound_a = r.sound_a;
      sound_b = r.sound_b;
      spared_a = λ f. r.spared_a (ground (arith, f)) ∙ g.spared_a (ground (arith, f));
      spared_b = λ f. r.spared_b (ground (arith, f)) ∙ g.spared_b (ground (arith, f));
      spared_pipe = λ f. r.spared_pipe (ground (arith, f)) ∙ g.spared_pipe (ground (arith, f));
    },
  )

  -- Take two ports that are disabled or whose positions are in bounds, and any interrupts and bridge
  -- callbacks, with bridge transfers of at most 255 bytes, each with any answers of the hardware. If
  -- the button is among them the board is reset. Otherwise all handlers return, the ports are again
  -- disabled or in bounds, and the state of a port or of the pipe that none of them is for is as it
  -- was: the port A and the port B have their DMA channels, pins, SERCOMs and bridge channels.
  pub interrupts-spare :
      (is : List (Hw × Interrupt)) (s : System)
      → AllCome is
      → IsSound s.port_a
      → IsSound s.port_b
      → Outcome is s (interrupts ca cb is s)
  unfolding interrupts
  interrupts-spare [] s o v w = inr (refl, idle _ _ _ s v w)
  interrupts-spare ((hw, i) ∷ is) s o v w = elim (Bool-cases (is_button i)) [
    | inl t ↦
        inl (ground (arith, t), ap (λ e. then_run e (interrupts ca cb is)) (button-resets hw i s t))
    | inr n ↦
        let g = interrupt-Goes hw i s o.0 n v w in
        after_one hw i is s n g (interrupts-spare is g.result o.1 g.sound_a g.sound_b)
  ]
