-- ===== src/Bridge.antt =====
-- firmware/bridge.c: the MCU's side of the SPI bridge. The globals are the fields of `Bridge`; a
-- call into the hardware that is not a field is an entry of `calls`, the latest first. What the
-- DMA engine writes into `ctrl_rx` is an argument of `receive_ctrl`, and the handlers that
-- firmware/main.c attaches to a completion are the parameter `run`.
pub mod Chain
pub mod Sync
pub mod Completion
pub mod Offers
use t2_firmware.Prelude.{
  ℕ, List, [], ◌∷◌, ◌++◌, Bool, true, false, not, ◌&&◌, Option, none, some, ltb, ◌==◌,
  if◌then◌else◌, test_bit, set_bit, clear_bit, clear_pair, high_nibble, is_empty,
}
use t2_firmware.Channel.{Chan, index, open_index, PerChan, at, put, for_chan}

pub data BridgeState : Type 0 where
  disable idle ctrl data_phase : BridgeState

-- `bridge_state == BRIDGE_STATE_DATA`
abbrev pub is_data_phase : BridgeState → Bool
is_data_phase data_phase = true
is_data_phase _ = false

-- `ControlPkt`; the fields are bytes
pub record ControlPkt : Type 0 where
  pub cmd : ℕ
  pub status : ℕ
  pub size : PerChan ℕ

-- A `DmacDescriptor` as `dma_fill_sercom_tx` and `dma_fill_sercom_rx` fill it: the address of the
-- buffer, `none` for the dummy byte that stands for NULL, and the number of bytes.
pub record Desc : Type 0 where
  pub buf : Option ℕ
  pub count : ℕ

-- what the code does to the DMA controller, the SERCOM and the interrupt masks
pub data Call : Type 0 where
  dma_abort_tx dma_abort_rx : Call
  spi_slave_init : Call
  start_control : ControlPkt → Call
  start_data : (tx rx : List Desc) → Call
  unmask_completion mask_completion clear_completion : Call
  disable_sercom_irq : Call

pub record Bridge : Type 0 where
  pub state : BridgeState
  pub was_open : ℕ
  pub ctrl_rx : ControlPkt
  pub ctrl_tx : ControlPkt
  pub in_chan_ptr : PerChan ℕ
  pub in_chan_size : PerChan ℕ
  pub out_chan_ptr : PerChan ℕ
  pub out_chan_ready : ℕ
  pub booted : Bool
  pub irq : Bool
  pub calls : List Call

-- `bridge_init`: the pins, the control chains and the event system are configured once and are
-- not state of the model; the interrupt line is low.
unfoldable pub init : Bridge → Bridge
init s = record s { irq = false; state = idle }

unfoldable pub disable_bridge : Bridge → Bridge
disable_bridge s = record s {
  calls = dma_abort_rx ∷ dma_abort_tx ∷ disable_sercom_irq ∷ s.calls;
  irq = false;
  state = disable;
}

-- The DMA engine fills `ctrl_rx` with the bytes of the master's header.
unfoldable pub receive_ctrl : ControlPkt → Bridge → Bridge
receive_ctrl p s = record s { ctrl_rx = p }

-- the branch of `bridge_handle_sync` for SYNC low
unfoldable pub begin_ctrl : Bridge → Bridge
begin_ctrl s =
    let tx : ControlPkt = record { cmd = 0xCA; status = s.out_chan_ready; size = s.in_chan_size } in
    record s {
      ctrl_rx = record (s.ctrl_rx) { cmd = 0x00 };
      ctrl_tx = tx;
      calls =
          mask_completion
          ∷ start_control tx
          ∷ spi_slave_init
          ∷ dma_abort_rx
          ∷ dma_abort_tx
          ∷ s.calls;
      state = ctrl;
    }

-- The loop variables of the chain construction: the two chains, in order, and the globals that
-- the loop clears.
pub record ChainVars : Type 0 where
  pub tx : List Desc
  pub rx : List Desc
  pub ready : ℕ
  pub sizes : PerChan ℕ

-- the first half of the loop body: a transfer from the SoC into the buffer of `bridge_start_out`
unfoldable pub chain_out : Bridge → Chan → ChainVars → ChainVars
chain_out s chan k =
    let size : ℕ = at s.ctrl_rx.size chan in
    if test_bit s.ctrl_tx.status (index chan) && ltb 0 size
    then record k {
      ready = clear_bit k.ready (index chan);
      tx = k.tx ++ record { buf = none; count = size } ∷ [];
      rx = k.rx ++ record { buf = some (at s.out_chan_ptr chan); count = size } ∷ [];
    }
    else k

-- the second half: a transfer to the SoC from the buffer of `bridge_start_in`
unfoldable pub chain_in : Bridge → Chan → ChainVars → ChainVars
chain_in s chan k =
    let size : ℕ = at s.ctrl_tx.size chan in
    if test_bit s.ctrl_rx.status (index chan) && ltb 0 size
    then record k {
      sizes = put k.sizes chan 0;
      tx = k.tx ++ record { buf = some (at s.in_chan_ptr chan); count = size } ∷ [];
      rx = k.rx ++ record { buf = none; count = size } ∷ [];
    }
    else k

-- the loop body
unfoldable pub chain_one : Bridge → Chan → ChainVars → ChainVars
unfolding chain_out chain_in
chain_one s chan k = chain_in s chan (chain_out s chan k)

unfoldable pub build_chain : Bridge → ChainVars
build_chain s =
    for_chan (chain_one s)
      (record { tx = []; rx = []; ready = s.out_chan_ready; sizes = s.in_chan_size })

-- the branch for SYNC high with a valid header
unfoldable pub begin_data : Bridge → Bridge
begin_data s =
    let k = build_chain s in
    let t = record s {
      booted = true;
      out_chan_ready = k.ready;
      in_chan_size = k.sizes;
      irq = false;
    } in
    if not (is_empty k.tx)
    then record t {
      calls = unmask_completion ∷ clear_completion ∷ start_data k.tx k.rx ∷ s.calls;
      state = data_phase;
    }
    else if not (high_nibble s.ctrl_rx.status == high_nibble s.was_open)
    then record t { calls = unmask_completion ∷ s.calls; state = data_phase }
    else record t { state = idle }

-- `bridge_handle_sync`; `level` is what `pin_read(PIN_BRIDGE_SYNC)` returns
unfoldable pub handle_sync : Bool → Bridge → Bridge
unfolding begin_ctrl begin_data
handle_sync level s =
    if not level
    then begin_ctrl s
    else if not (s.ctrl_rx.cmd == 0x53)
    then record s { state = idle }
    else begin_data s

-- the calls of `bridge_open_x`, `bridge_completion_out_x`, `bridge_completion_in_x` and
-- `bridge_close_x`
pub data Callback : Type 0 where
  opened : Chan → ℕ → Callback
  completion_out : Chan → ℕ → Callback
  completion_in : Chan → Callback
  closed : Chan → ℕ → Callback

-- The copies on the stack of `bridge_dma_rx_completion`: `ctrl_rx` and `ctrl_tx` as they are when
-- the handler starts.
abbrev pub CompletionLocals : Type 0
CompletionLocals = ControlPkt × ControlPkt

-- `run` is what the handler of a callback does to the bridge, together with any interrupt that
-- preempts it.
module _ (run : Callback → Bridge → Bridge) where
  -- CHECK_OPEN
  unfoldable pub check_open : CompletionLocals → Chan → Bridge → Bridge
  check_open (rx, tx) x s =
      if test_bit rx.status (open_index x) && not (test_bit s.was_open (open_index x))
      then run (opened x (at rx.size x)) s
      else s

  -- CHECK_COMPLETION_OUT
  unfoldable pub check_completion_out : CompletionLocals → Chan → Bridge → Bridge
  check_completion_out (rx, tx) x s =
      if test_bit tx.status (index x) && ltb 0 (at rx.size x)
      then run (completion_out x (at rx.size x)) s
      else s

  -- CHECK_COMPLETION_IN
  unfoldable pub check_completion_in : CompletionLocals → Chan → Bridge → Bridge
  check_completion_in (rx, tx) x s =
      if test_bit rx.status (index x) && ltb 0 (at tx.size x) then run (completion_in x) s else s

  -- CHECK_CLOSE
  unfoldable pub check_close : CompletionLocals → Chan → Bridge → Bridge
  check_close (rx, tx) x s =
      if not (test_bit rx.status (open_index x)) && test_bit s.was_open (open_index x)
      then run (closed x (at rx.size x)) s
      else s

  -- the twelve checks, in order
  unfoldable pub run_checks : CompletionLocals → Bridge → Bridge
  run_checks l s = for_chan (check_close l) (
      for_chan (check_completion_in l)
        (for_chan (check_completion_out l) (for_chan (check_open l) s)))

  unfoldable pub dma_rx_completion : Bridge → Bridge
  dma_rx_completion s =
      if is_data_phase s.state
      then (let t = run_checks (s.ctrl_rx, s.ctrl_tx) s in
          record t { was_open = high_nibble t.ctrl_rx.status; state = idle })
      else s

-- The four entry points for the pipes. Each raises the interrupt line.
unfoldable pub start_in : Chan → ℕ → ℕ → Bridge → Bridge
start_in chan ptr len s = record s {
  in_chan_ptr = put s.in_chan_ptr chan ptr;
  in_chan_size = put s.in_chan_size chan len;
  irq = true;
}

unfoldable pub start_out : Chan → ℕ → Bridge → Bridge
start_out chan ptr s = record s {
  out_chan_ptr = put s.out_chan_ptr chan ptr;
  out_chan_ready = set_bit s.out_chan_ready (index chan);
  irq = true;
}

unfoldable pub enable_chan : Chan → Bridge → Bridge
enable_chan chan s = record s {
  out_chan_ready = set_bit s.out_chan_ready (open_index chan);
  irq = true;
}

unfoldable pub disable_chan : Chan → Bridge → Bridge
disable_chan chan s = record s {
  out_chan_ready = clear_pair s.out_chan_ready (index chan);
  in_chan_size = put s.in_chan_size chan 0;
  irq = true;
}
