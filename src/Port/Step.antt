-- ===== src/Port/Step.antt =====
-- `port_step` of firmware/port.c: the loop that runs commands until the port has to wait.
use t2_firmware.Prelude.{
  ℕ, zero, suc, ◌+◌, ◌-◌, Bool, true, false, not, ◌&&◌, ◌||◌, Option, none, some, ltb, leb, ◌==◌,
  if◌then◌else◌, set, get_or,
}
use t2_firmware.Port.{
  PortState, disable, read_cmd, read_arg, exec, exec_async, PortMode, uart, Cmd, tx, rx, unknown,
  decode, buf_size, u8, bridge_start_out, bridge_start_in, eic_enable, eic_disable, tcc_enable,
  tcc_disable, invalid, Config, Hw, PortData, log, port_error, cmd_args,
}
use t2_firmware.Port.Begin.{begin_cmd}
use t2_firmware.Port.Continue.{continue_cmd}

-- `port_tx_locked` and `port_rx_locked`
abbrev pub tx_locked : Cmd → Bool
tx_locked rx = false
tx_locked _ = true

abbrev pub rx_locked : Cmd → Bool
rx_locked tx = false
rx_locked _ = true

abbrev pub is_exec_async : PortState → Bool
is_exec_async exec_async = true
is_exec_async _ = false

abbrev pub is_read_cmd : PortState → Bool
is_read_cmd read_cmd = true
is_read_cmd _ = false

abbrev pub is_uart : PortMode → Bool
is_uart uart = true
is_uart _ = false

-- `port_enable_async_events` and `port_disable_async_events`
unfoldable pub enable_async_events : PortData → PortData
enable_async_events p =
    if is_uart p.mode then log tcc_enable (log eic_enable p) else log eic_enable p

unfoldable pub disable_async_events : PortData → PortData
disable_async_events p =
    if is_uart p.mode then log tcc_disable (log eic_disable p) else log eic_disable p

-- `port_async_events_allowed`
unfoldable pub async_events_allowed : PortData → Bool
async_events_allowed p =
    not p.pending_in
    && (is_read_cmd p.state || (is_exec_async p.state && not (rx_locked (decode p.cmd))))

-- the first `if` of the loop: request a new command buffer
unfoldable pub request_cmd : PortData → PortData
request_cmd p =
    if leb p.cmd_len p.cmd_pos
      && not p.pending_out
      && not (is_exec_async p.state && tx_locked (decode p.cmd))
    then log (bridge_start_out p.chan) (record p { pending_out = true })
    else p

-- the second `if` of the loop: flush the reply buffer
unfoldable pub flush_reply : PortData → PortData
flush_reply p =
    if (leb buf_size p.reply_len || (p.pending_out && ltb 0 p.reply_len))
      && not p.pending_in
      && not (is_exec_async p.state && rx_locked (decode p.cmd))
    then log (bridge_start_in p.chan p.reply_len) (record p { pending_in = true })
    else p

-- The end of one turn of the loop: the next turn, `break`, or `return` after an error.
pub data Turn : Type 0 where
  next break error : PortData → Turn

-- `p->state = ...`
abbrev pub enter : PortData × PortState → PortData
enter (p, s) = record p { state = s }

-- `port_cmd_args` reports an unknown command with `invalid`.
abbrev pub check_known : Cmd → PortData → PortData
check_known unknown p = log invalid p
check_known _ p = p

-- `p->cmd` and `p->arg_len` from the next command byte
unfoldable pub fetch_cmd : PortData → PortData
fetch_cmd p =
    let b : ℕ = get_or p.cmd_buf p.cmd_pos 0 in
    check_known (decode b)
      (record p { cmd = b; cmd_pos = u8 (p.cmd_pos + 1); arg_len = cmd_args (decode b) })

-- the branch of PORT_READ_CMD
unfoldable pub read_cmd_byte : Config → Hw → PortData → PortData
unfolding fetch_cmd
read_cmd_byte c hw p =
    let q = fetch_cmd p in
    if ltb 0 q.arg_len then record q { arg_pos = 0; state = read_arg } else enter (begin_cmd c hw q)

-- the next argument byte
unfoldable pub fetch_arg : PortData → PortData
fetch_arg p = record p {
  arg = set p.arg p.arg_pos (get_or p.cmd_buf p.cmd_pos 0);
  arg_pos = u8 (p.arg_pos + 1);
  cmd_pos = u8 (p.cmd_pos + 1);
  arg_len = p.arg_len - 1;
}

-- the branch of PORT_READ_ARG
unfoldable pub read_arg_byte : Config → Hw → PortData → PortData
unfolding fetch_arg
read_arg_byte c hw p = let q = fetch_arg p in if q.arg_len == 0 then enter (begin_cmd c hw q) else q

-- the chain of tests on the state, when no transfer is pending
unfoldable pub run_state : Config → Hw → PortState → PortData → Turn
unfolding port_error read_cmd_byte read_arg_byte
run_state c hw read_cmd p = next (read_cmd_byte c hw p)
run_state c hw read_arg p =
    if p.arg_len == 0 then error (port_error p) else next (read_arg_byte c hw p)
run_state c hw exec p = next (enter (continue_cmd hw p))
run_state c hw exec_async p = break p
run_state c hw disable p = next p

-- `if (p->pending_in || p->pending_out)` and what follows
unfoldable pub wait_or_run : Config → Hw → PortData → Turn
unfolding enable_async_events async_events_allowed run_state
wait_or_run c hw p =
    if p.pending_in || p.pending_out
    then break (if async_events_allowed p then enable_async_events p else p)
    else run_state c hw p.state p

-- one turn of the loop
unfoldable pub turn : Config → Hw → PortData → Turn
unfolding request_cmd flush_reply wait_or_run
turn c hw p = wait_or_run c hw (flush_reply (request_cmd p))

unfoldable pub follow : Turn → (PortData → Option PortData) → Option PortData
follow (next p) loop = loop p
follow (break p) loop = some p
follow (error p) loop = some p

-- the loop, for at most so many turns
unfoldable pub step_loop : Config → Hw → ℕ → PortData → Option PortData
unfolding follow turn
step_loop c hw zero p = none
step_loop c hw (suc n) p = follow (turn c hw p) (step_loop c hw n)

-- Two turns for each of the 255 bytes of a command buffer, and two more.
abbrev pub step_fuel : ℕ
step_fuel = 512

unfoldable pub step_from : Config → Hw → PortState → PortData → Option PortData
unfolding port_error
step_from c hw disable p = some (port_error p)
step_from c hw _ p = step_loop c hw step_fuel (disable_async_events p)

-- `port_step`
unfoldable pub port_step : Config → Hw → PortData → Option PortData
unfolding step_from
port_step c hw p = step_from c hw p.state p
