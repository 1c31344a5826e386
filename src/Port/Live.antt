-- ===== src/Port/Live.antt =====
-- What holds of a port of firmware/port.c while it is enabled, and that each branch of the loop in
-- `port_step` keeps it and leaves less work.
use t2_firmware.Prelude.{get_or-set_zero, ℕ, ◌+◌, ◌-◌, ◌*◌, ◌≤◌, ◌<◌, ◌≡◌, ◌≢◌, arith}
use t2_firmware.Port.{
  PortState, disable, read_arg, exec, exec_async, PortData, Cmd, Config, Hw, PortMode, u8, arg_at,
  push_reply, tx_len, rx_len, txrx_len,
}
use t2_firmware.Port.Begin.{begin_by}
use t2_firmware.Port.Continue.{continue_by, continue_echo, continue_tx, continue_rx, continue_txrx}
use t2_firmware.Port.Step.{fetch_cmd, fetch_arg, enter}

-- What a command leaves as it was.
pub record Keeps (p q : PortData) : Type 0 where
  pub pos : q.cmd_pos ≡ p.cmd_pos
  pub len : q.cmd_len ≡ p.cmd_len
  pub out : q.pending_out ≡ p.pending_out
  pub in_ : q.pending_in ≡ p.pending_in
  pub reply : p.reply_len ≤ 255 → q.reply_len ≤ 255

abbrev pub exec_weight : PortState → ℕ
exec_weight exec = 1
exec_weight _ = 0

-- the states that a command may end in
abbrev pub IsResult : PortState → Type 0
IsResult s = (s ≢ disable) × (s ≢ read_arg)

module _ (c : Config) (hw : Hw) where
  pub begin_by-Keeps : (k : Cmd) (p : PortData) → Keeps p ((begin_by c hw k p).0)
  unfolding begin_by
  begin_by-Keeps k p = ground arith

  pub begin_by-IsResult : (k : Cmd) (p : PortData) → IsResult ((begin_by c hw k p).1)
  unfolding begin_by
  begin_by-IsResult k p = ground arith

-- What holds of a port that is not disabled, at every turn of the loop.
pub record IsLive (p : PortData) : Type 0 where
  pub pos_le : p.cmd_pos ≤ p.cmd_len
  pub len_le : p.cmd_len ≤ 255
  pub reply_le : p.reply_len ≤ 255
  pub enabled : p.state ≢ disable
  pub wants_arg : p.state ≡ read_arg → 0 < p.arg_len

-- a measure of the work left
abbrev pub weight : PortData → ℕ
weight p = 2 * (p.cmd_len - p.cmd_pos) + exec_weight p.state

module _ (p : PortData) (v : IsLive p) where
  tx_len-le : tx_len p ≤ p.cmd_len - p.cmd_pos
  unfolding tx_len
  tx_len-le = ground arith

  rx_len-le : rx_len p ≤ 255 - p.reply_len
  unfolding rx_len
  rx_len-le = ground arith

  txrx_len-le :
      (txrx_len p ≤ p.cmd_len - p.cmd_pos)
      × (txrx_len p ≤ 255 - p.reply_len)
      × (txrx_len p ≤ arg_at p 0)
  unfolding txrx_len
  txrx_len-le = ground arith

  txrx_len-pos : p.cmd_pos < p.cmd_len → p.reply_len < 255 → 0 < arg_at p 0 → 0 < txrx_len p
  unfolding txrx_len
  txrx_len-pos a b h = ground arith

-- What a turn that runs a command does: it keeps the port live, and less work is left.
abbrev pub Advances : PortData → PortData → Type 0
Advances p q =
    IsLive q
    × (weight q < weight p)
    × (q.pending_in ≡ p.pending_in)
    × (q.pending_out ≡ p.pending_out)

module _ (p : PortData) (v : IsLive p) (a : p.cmd_pos < p.cmd_len) (b : p.reply_len < 255)
    (s : p.state ≡ exec) where
  continue_echo-Advances : Advances p (enter (continue_echo p))
  unfolding continue_echo
  continue_echo-Advances = ground (
    arith,
    txrx_len-le p v,
    txrx_len-pos p v a b,
    get_or-set_zero p.arg (u8 (arg_at p 0 + 256 - txrx_len p)),
  )

  continue_tx-Advances : (m : PortMode) → Advances p (enter (continue_tx m p, exec_async))
  unfolding continue_tx
  continue_tx-Advances m = ground (arith, tx_len-le p v)

  continue_rx-Advances :
      (hw : Hw) (m : PortMode) → Advances p (enter (continue_rx hw m p, exec_async))
  unfolding continue_rx push_reply
  continue_rx-Advances hw m = ground (arith, rx_len-le p v)

  continue_txrx-Advances : (m : PortMode) → Advances p (enter (continue_txrx m p, exec_async))
  unfolding continue_txrx
  continue_txrx-Advances m = ground (arith, txrx_len-le p v)

  pub continue_by-Advances : (hw : Hw) (k : Cmd) → Advances p (enter (continue_by hw k p))
  unfolding continue_by
  continue_by-Advances hw k = ground (
    arith,
    continue_echo-Advances,
    continue_tx-Advances p.mode,
    continue_rx-Advances hw p.mode,
    continue_txrx-Advances p.mode,
  )

-- what reading a byte of the command buffer changes
pub record Fetches (p q : PortData) : Type 0 where
  pub pos : q.cmd_pos ≡ p.cmd_pos + 1
  pub len : q.cmd_len ≡ p.cmd_len
  pub state : q.state ≡ p.state
  pub reply : q.reply_len ≡ p.reply_len
  pub in_ : q.pending_in ≡ p.pending_in
  pub out : q.pending_out ≡ p.pending_out

module _ (p : PortData) (v : IsLive p) (a : p.cmd_pos < p.cmd_len) where
  pub fetch_cmd-Fetches : Fetches p (fetch_cmd p)
  unfolding fetch_cmd
  fetch_cmd-Fetches = ground arith

  pub fetch_arg-Fetches : Fetches p (fetch_arg p) × ((fetch_arg p).arg_len ≡ p.arg_len - 1)
  unfolding fetch_arg
  fetch_arg-Fetches = ground arith
