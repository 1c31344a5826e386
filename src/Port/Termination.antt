-- ===== src/Port/Termination.antt =====
-- The loop of `port_step` in firmware/port.c ends, and what the port waits for then.
use t2_firmware.Prelude.{
  ℕ, ◌+◌, ◌<◌, ◌≡◌, ◌≢◌, refl, Bool, true, false, arith, ◌⊎◌, zero, suc, some, Option, inr, subst,
  sym, if◌then◌else◌, ◌||◌,
}
use t2_firmware.Port.{
  PortState, disable, read_cmd, read_arg, exec, exec_async, PortData, Config, Hw, decode,
}
use t2_firmware.Port.Begin.{begin_cmd}
use t2_firmware.Port.Continue.{continue_cmd}
use t2_firmware.Port.Step.{
  request_cmd, flush_reply, Turn, next, break, error, turn, run_state, wait_or_run, read_cmd_byte,
  fetch_cmd, fetch_arg, read_arg_byte, step_loop, follow, step_from, port_step,
  disable_async_events, enable_async_events, async_events_allowed, step_fuel, enter,
}
use t2_firmware.Port.Live.{
  IsLive, weight, Advances, begin_by-Keeps, begin_by-IsResult, continue_by-Advances,
  fetch_cmd-Fetches, fetch_arg-Fetches,
}

-- The port waits for a transfer of the bridge or for the end of an asynchronous command.
abbrev pub IsWaiting : PortData → Type 0
IsWaiting p = (p.pending_in ≡ true) ⊎ ((p.pending_out ≡ true) ⊎ (p.state ≡ exec_async))

-- a turn of the loop from a live state: no error
pub data Ran (p : PortData) : Turn → Type 0 where
  goes : {q : PortData} → Advances p q → Ran p (next q)
  rests : {q : PortData} → IsLive q → IsWaiting q → Ran p (break q)

-- what the first two tests of a turn see to, where no transfer is pending
abbrev IsReady : PortData → Type 0
IsReady p =
    p.pending_in ≡ false
    → p.pending_out ≡ false
    → ((p.cmd_pos < p.cmd_len) ⊎ (p.state ≡ exec_async))
      × ((p.reply_len < 255) ⊎ (p.state ≡ exec_async))

module _ (c : Config) (hw : Hw) (p : PortData) (v : IsLive p) where
  begin-Advances :
      (q : PortData)
      → p.cmd_pos < p.cmd_len
      → p.state ≢ exec
      → q.cmd_pos ≡ p.cmd_pos + 1
      → q.cmd_len ≡ p.cmd_len
      → q.reply_len ≡ p.reply_len
      → q.pending_in ≡ p.pending_in
      → q.pending_out ≡ p.pending_out
      → Advances p (enter (begin_cmd c hw q))
  unfolding begin_cmd
  begin-Advances q a s h1 h2 h3 h4 h5 =
      ground (arith, begin_by-Keeps c hw (decode q.cmd) q, begin_by-IsResult c hw (decode q.cmd) q)

  read_cmd_byte-Advances :
      p.cmd_pos < p.cmd_len → p.state ≡ read_cmd → Advances p (read_cmd_byte c hw p)
  unfolding read_cmd_byte
  read_cmd_byte-Advances a s = ground (arith, fetch_cmd-Fetches p v a, begin-Advances (fetch_cmd p))

  read_arg_byte-Advances :
      p.cmd_pos < p.cmd_len → p.state ≡ read_arg → Advances p (read_arg_byte c hw p)
  unfolding read_arg_byte
  read_arg_byte-Advances a s = ground (arith, fetch_arg-Fetches p v a, begin-Advances (fetch_arg p))

  continue_cmd-Advances :
      p.cmd_pos < p.cmd_len
      → p.reply_len < 255
      → p.state ≡ exec
      → Advances p (enter (continue_cmd hw p))
  unfolding continue_cmd
  continue_cmd-Advances a b s = continue_by-Advances p v a b s hw (decode p.cmd)

  read_arg_next : p.state ≡ read_arg → run_state c hw read_arg p ≡ next (read_arg_byte c hw p)
  unfolding run_state
  read_arg_next e = ground arith

  run_state-Ran :
      (s : PortState)
      → p.state ≡ s
      → (p.cmd_pos < p.cmd_len) ⊎ (p.state ≡ exec_async)
      → (p.reply_len < 255) ⊎ (p.state ≡ exec_async)
      → Ran p (run_state c hw s p)
  unfolding run_state
  run_state-Ran disable e a b = absurd (v.enabled e)
  run_state-Ran read_cmd e a b = goes (read_cmd_byte-Advances (ground arith) e)
  run_state-Ran read_arg e a b =
      subst (Ran p) (sym (read_arg_next e)) (goes (read_arg_byte-Advances (ground arith) e))
  run_state-Ran exec e a b = goes (continue_cmd-Advances (ground arith) (ground arith) e)
  run_state-Ran exec_async e a b = rests v (inr (inr e))

  watching : PortData
  unfolding enable_async_events
  watching = if async_events_allowed p then enable_async_events p else p

  watching-IsLive : (p.pending_in || p.pending_out) ≡ true → IsLive watching × IsWaiting watching
  unfolding watching
  watching-IsLive e = ground arith

  by_pending-Ran :
      (b : Bool)
      → (p.pending_in || p.pending_out) ≡ b
      → IsReady p
      → Ran p (if b then break watching else run_state c hw p.state p)
  by_pending-Ran true e r = rests (watching-IsLive e).0 (watching-IsLive e).1
  by_pending-Ran false e r = run_state-Ran p.state refl (ground arith) (ground arith)

  wait_or_run-Ran : IsReady p → Ran p (wait_or_run c hw p)
  unfolding wait_or_run watching
  wait_or_run-Ran r = by_pending-Ran (p.pending_in || p.pending_out) refl r

flush_reply-IsLive :
    (p : PortData) → IsLive p → IsLive (flush_reply p) × (weight (flush_reply p) ≡ weight p)
unfolding flush_reply
flush_reply-IsLive p v = ground arith

request_cmd-IsLive :
    (p : PortData) → IsLive p → IsLive (request_cmd p) × (weight (request_cmd p) ≡ weight p)
unfolding request_cmd
request_cmd-IsLive p v = ground arith

flush_reply-IsReady : (p : PortData) → IsReady (flush_reply (request_cmd p))
unfolding flush_reply request_cmd
flush_reply-IsReady p = ground arith

disable_async_events-IsLive : (p : PortData) → IsLive p → IsLive (disable_async_events p)
unfolding disable_async_events
disable_async_events-IsLive p v = ground arith

weight_lt : (p : PortData) → IsLive p → weight p < step_fuel
weight_lt p v = ground arith

-- the end of the loop: within the fuel, and the port waits
pub record Ends (r : Option PortData) : Type 0 where
  pub result : PortData
  pub returns : r ≡ some result
  pub live : IsLive result
  pub waits : IsWaiting result

module _ (c : Config) (hw : Hw) where
  follow-Ends :
      (p : PortData) (t : Turn)
      → Ran p t
      → (n : ℕ) → weight p < suc n
      → ((q : PortData) → IsLive q → weight q < n → Ends (step_loop c hw n q))
      → Ends (follow t (step_loop c hw n))
  unfolding follow
  follow-Ends p (next _) (goes {q} a) n h k = k q a.0 (ground arith)
  follow-Ends p (break _) (rests {q} v w) n h k = record {
    result = q;
    returns = refl;
    live = v;
    waits = w;
  }
  follow-Ends p (error _) x n h k = elim x [ ]

  pub step_loop-Ends : (n : ℕ) (p : PortData) → IsLive p → weight p < n → Ends (step_loop c hw n p)
  unfolding step_loop turn
  step_loop-Ends zero p v h = absurd (omega arith)
  step_loop-Ends (suc n) p v h =
      let q = request_cmd p in
      let v' = (request_cmd-IsLive p v).0 in
      let r = flush_reply q in
      let v'' = (flush_reply-IsLive q v').0 in
      follow-Ends r (wait_or_run c hw r) (wait_or_run-Ran c hw r v'' (flush_reply-IsReady p)) n
        (ground (arith, flush_reply-IsLive q v', request_cmd-IsLive p v)) (step_loop-Ends n)

  step_from-Ends :
      (s : PortState) → s ≢ disable → (p : PortData) → IsLive p → Ends (step_from c hw s p)
  unfolding step_from
  step_from-Ends disable h p v = absurd (h refl)
  step_from-Ends read_cmd h p v =
      step_loop-Ends step_fuel (disable_async_events p) (disable_async_events-IsLive p v)
        (weight_lt (disable_async_events p) (disable_async_events-IsLive p v))
  step_from-Ends read_arg h p v =
      step_loop-Ends step_fuel (disable_async_events p) (disable_async_events-IsLive p v)
        (weight_lt (disable_async_events p) (disable_async_events-IsLive p v))
  step_from-Ends exec h p v =
      step_loop-Ends step_fuel (disable_async_events p) (disable_async_events-IsLive p v)
        (weight_lt (disable_async_events p) (disable_async_events-IsLive p v))
  step_from-Ends exec_async h p v =
      step_loop-Ends step_fuel (disable_async_events p) (disable_async_events-IsLive p v)
        (weight_lt (disable_async_events p) (disable_async_events-IsLive p v))

  -- From a port that is enabled and whose positions are in bounds, `port_step` returns within its
  -- fuel, in a state that is again in bounds and in which the port waits: for a bridge transfer, or
  -- for the end of an asynchronous command.
  pub port_step_waits : (p : PortData) → IsLive p → Ends (port_step c hw p)
  unfolding port_step
  port_step_waits p v = step_from-Ends p.state v.enabled p v
