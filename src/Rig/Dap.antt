-- ===== src/Rig/Dap.antt =====
-- test_rig/dap_hid.c and `usb_cb_completion` of test_rig/usb.c: the commands for the debug library come
-- in on one endpoint, and its answers go out on another one. The library (`DAP_Setup`,
-- `DAP_ProcessCommand`) is a parameter. Of an endpoint, the model has the flags that the calls of the
-- USB stack set: whether it is armed, and whether a completion is pending.
use t2_firmware.Prelude.{ℕ, List, [], ◌∷◌, ◌++◌, Bool, true, false, if◌then◌else◌, length, drop}

-- The library's state; what it is after `DAP_Setup`; and `DAP_ProcessCommand`, which reads the one
-- buffer and writes over the other.
pub record Library : Type 1 where
  pub State : Type 0
  pub setup : State → State
  pub process : (request : List ℕ) → (response : List ℕ) → State → State × List ℕ

module _ (l : Library) where
  pub record Dap : Type 0 where
    pub library : l.State
    pub dap_buf_in : List ℕ
    pub dap_buf_out : List ℕ
    pub out_armed : Bool
    pub out_pending : Bool
    pub in_armed : Bool
    pub in_pending : Bool

module _ {l : Library} where
  unfoldable pub dap_enable : Dap l → Dap l
  dap_enable s = record s { library = l.setup s.library; out_armed = true }

  unfoldable pub dap_handle_usb_in_completion : Dap l → Dap l
  dap_handle_usb_in_completion s = record s { out_armed = true }

  unfoldable pub dap_handle_usb_out_completion : Dap l → Dap l
  dap_handle_usb_out_completion s =
      let (t, response) = l.process s.dap_buf_out s.dap_buf_in s.library in
      record s { library = t; dap_buf_in = response; in_armed = true }

  unfoldable pub complete_out : Dap l → Dap l
  unfolding dap_handle_usb_out_completion
  complete_out s =
      if s.out_pending then record (dap_handle_usb_out_completion s) { out_pending = false } else s

  unfoldable pub complete_in : Dap l → Dap l
  unfolding dap_handle_usb_in_completion
  complete_in s =
      if s.in_pending then record (dap_handle_usb_in_completion s) { in_pending = false } else s

  -- `usb_cb_completion`
  unfoldable pub usb_cb_completion : Dap l → Dap l
  unfolding complete_out complete_in
  usb_cb_completion s = complete_in (complete_out s)

-- What the host does, and the interrupt. A packet comes into the buffer only where the endpoint is
-- armed, and is over its first bytes.
pub data Event : Type 0 where
  write : List ℕ → Event
  read interrupt : Event

-- the device; the commands that it accepted and the answers that the host read, the latest first
module _ (l : Library) where
  pub record Session : Type 0 where
    pub device : Dap l
    pub accepted : List (List ℕ)
    pub answers : List (List ℕ)

abbrev pub filled : List ℕ → List ℕ → List ℕ
filled xs buf = xs ++ drop (length xs) buf

module _ {l : Library} where
  unfoldable pub event_at : Event → Dap l → Session l → Session l
  unfolding usb_cb_completion
  event_at (write xs) d s =
      if d.out_armed
      then record {
        device = record d {
          dap_buf_out = filled xs d.dap_buf_out;
          out_armed = false;
          out_pending = true;
        };
        accepted = filled xs d.dap_buf_out ∷ s.accepted;
        answers = s.answers;
      }
      else s
  event_at read d s =
      if d.in_armed
      then record s {
        device = record d { in_armed = false; in_pending = true };
        answers = d.dap_buf_in ∷ s.answers;
      }
      else s
  event_at interrupt d s = record s { device = usb_cb_completion d }

  unfoldable pub host_event : Event → Session l → Session l
  unfolding event_at
  host_event e s = event_at e s.device s

  unfoldable pub host_events : List Event → Session l → Session l
  unfolding host_event
  host_events [] s = s
  host_events (e ∷ es) s = host_events es (host_event e s)
