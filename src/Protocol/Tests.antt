-- ===== src/Protocol/Tests.antt =====
-- Runs of the bridge protocol at concrete states.
use t2_firmware.Prelude.{
  ◌≡◌, List, [], ◌∷◌, true, false, arith, refl, none, some, map, test_bit, high_nibble, clear_bit,
  clear_pair, set_bit, is_empty, if◌then◌else◌, ◌==◌,
}
use t2_firmware.Channel.{at, usb, port_a, port_b}
use t2_firmware.Transfer.{to_mcu, from_mcu}
use t2_firmware.Bridge.{
  Bridge, Callback, opened, completion_out, completion_in, ControlPkt, idle,
  data_phase as in_data_phase, start_data, unmask_completion, clear_completion, begin_ctrl,
  receive_ctrl, build_chain, chain_one, handle_sync, disable_chan, start_out, dma_rx_completion,
  check_open, check_completion_out, check_completion_in, check_close, run_checks,
}
use t2_firmware.Bridge.Chain.{tx_desc, rx_desc}
use t2_firmware.Bridge.Completion.{callbacks, run_all, dma_rx_completion_calls, lost_open}
use t2_firmware.Bridge.Offers.{
  offer, IsCoherent, transaction, offer-transaction, Event, send, disable, transact, run_events,
  run_events-IsCoherent,
}
use t2_firmware.Spid.{Spid, header, header_status, data_phase}
use t2_firmware.Spid.Masks.{IsNarrow}
use t2_firmware.Protocol.{mcu_after_setup, header_from_mcu, setup_agrees}
use t2_firmware.Protocol.Desync.{Contains, brings, setup_disagrees}

abbrev no_packet : ControlPkt
no_packet = record { cmd = 0; status = 0; size = record { c0 = 0; c1 = 0; c2 = 0 } }

-- USB and port A are enabled; USB accepts data and port A has five bytes for the SoC.
abbrev mcu : Bridge
mcu = record {
  state = idle;
  was_open = 0x10;
  ctrl_rx = no_packet;
  ctrl_tx = no_packet;
  in_chan_ptr = record { c0 = 100; c1 = 200; c2 = 300 };
  in_chan_size = record { c0 = 0; c1 = 5; c2 = 0 };
  out_chan_ptr = record { c0 = 400; c1 = 500; c2 = 600 };
  out_chan_ready = 0x31;
  booted = false;
  irq = true;
  calls = [];
}

-- Both channels are open; USB has three bytes for the MCU and port A is writable.
abbrev soc : Spid
soc = record {
  out_buf = record { c0 = 1 ∷ 2 ∷ 3 ∷ []; c1 = []; c2 = [] };
  out_length = record { c0 = 3; c1 = 0; c2 = 0 };
  writable = 2;
  opened = 3;
  enabled = 3;
  conn_fd = record { c0 = some 7; c1 = some 8; c2 = none };
  conn_events = record {
    c0 = record { pollin = false; pollout = true; pollerr = true };
    c1 = record { pollin = true; pollout = false; pollerr = false };
    c2 = record { pollin = false; pollout = false; pollerr = false };
  };
  sock_pollin = record { c0 = false; c1 = false; c2 = false };
  retries = 0;
  calls = [];
}

mcu-IsCoherent : IsCoherent mcu
unfolding test_bit
mcu-IsCoherent usb h = cc
mcu-IsCoherent port_a h = cc
mcu-IsCoherent port_b h = (refl, refl)

soc-IsNarrow : IsNarrow soc
soc-IsNarrow = omega arith

-- three bytes in, five bytes out
chains_run :
    let k = build_chain (mcu_after_setup mcu soc) in
    (k.tx ≡ record { buf = none; count = 3 } ∷ record { buf = some 200; count = 5 } ∷ [])
    × (k.rx ≡ record { buf = some 400; count = 3 } ∷ record { buf = none; count = 5 } ∷ [])
    × ((data_phase (header_from_mcu mcu) 9 soc).1 ≡ to_mcu usb 3 ∷ from_mcu port_a 5 ∷ [])
unfolding build_chain chain_one receive_ctrl begin_ctrl header header_status test_bit data_phase
    clear_bit
chains_run = (refl, refl, refl)

setup_agrees_example :
    let m' = mcu_after_setup mcu soc in
    let xs = (data_phase (header_from_mcu mcu) 9 soc).1 in
    ((build_chain m').tx ≡ map (tx_desc m') xs)
    × ((build_chain m').rx ≡ map (rx_desc m') xs)
    × (is_empty xs ≡ false
        → (handle_sync true m').calls
          ≡ unmask_completion
            ∷ clear_completion
            ∷ start_data (map (tx_desc m') xs) (map (rx_desc m') xs)
            ∷ m'.calls)
    × (is_empty xs ≡ true
        → (handle_sync true m').calls ≡ (
            if high_nibble m'.ctrl_rx.status == high_nibble m'.was_open
            then m'.calls
            else unmask_completion ∷ m'.calls))
setup_agrees_example = setup_agrees mcu soc 9 mcu-IsCoherent soc-IsNarrow

-- the MCU after `bridge_disable_chan(0)` and then `bridge_start_out(0, buf)`
abbrev stale : Bridge
stale = record mcu { out_chan_ready = 0x21 }

stale_reached : (start_out usb 400 (disable_chan usb mcu)).out_chan_ready ≡ 0x21
unfolding start_out disable_chan set_bit clear_pair
stale_reached = refl

setup_disagrees_example :
    Contains
      (record { buf = some (at stale.out_chan_ptr usb); count = at soc.out_length usb })
      (build_chain (mcu_after_setup stale soc)).rx
    × (brings usb (data_phase (header_from_mcu stale) 9 soc).1 ≡ false)
unfolding test_bit
setup_disagrees_example = setup_disagrees stale soc 9 soc-IsNarrow usb refl refl refl (omega arith)

-- after the setup phase and SYNC high, waiting for the transfers
abbrev waiting : Bridge
waiting = record mcu {
  state = in_data_phase;
  ctrl_rx = record { cmd = 0x53; status = 0x32; size = record { c0 = 3; c1 = 0; c2 = 0 } };
  ctrl_tx = record { cmd = 0xCA; status = 0x31; size = record { c0 = 0; c1 = 5; c2 = 0 } };
}

abbrev no_effect : Callback → Bridge → Bridge
no_effect c s = s

callbacks-waiting :
    callbacks waiting ≡ opened port_a 0 ∷ completion_out usb 3 ∷ completion_in port_a ∷ []
unfolding test_bit
callbacks-waiting = refl

dma_rx_completion_calls_example :
    let t = run_all no_effect (callbacks waiting) waiting in
    dma_rx_completion no_effect waiting
    ≡ record t { was_open = high_nibble t.ctrl_rx.status; state = idle }
dma_rx_completion_calls_example = dma_rx_completion_calls no_effect (λ c s. refl) waiting refl

-- During the callbacks a header arrives that opens port B as well.
abbrev preempted : Callback → Bridge → Bridge
preempted c s = record s { ctrl_rx = record (s.ctrl_rx) { status = 0x72 } }

abbrev next_header : ControlPkt
next_header = record { cmd = 0x53; status = 0x72; size = record { c0 = 0; c1 = 0; c2 = 0 } }

lost_open_example :
    ((t : Bridge) → check_open preempted (waiting.ctrl_rx, waiting.ctrl_tx) port_b t ≡ t)
    × (check_open preempted (next_header, no_packet) port_b (dma_rx_completion preempted waiting)
        ≡ dma_rx_completion preempted waiting)
unfolding run_checks check_open check_completion_out check_completion_in check_close test_bit
lost_open_example =
    lost_open preempted waiting port_b refl refl (omega arith) refl next_header no_packet refl

offer-transaction_example :
    offer (transaction waiting.ctrl_rx mcu) port_a
    ≡ record { enabled = true; accepts = false; size = 0 }
unfolding test_bit
offer-transaction_example = offer-transaction mcu (omega arith) waiting.ctrl_rx refl port_a

abbrev events : List Event
events = send usb 700 9 ∷ transact waiting.ctrl_rx ∷ disable port_a ∷ []

run_events-IsCoherent_example : IsCoherent (run_events events mcu)
unfolding test_bit
run_events-IsCoherent_example =
    run_events-IsCoherent events mcu (omega arith) (refl, (refl, (tt, tt))) mcu-IsCoherent
