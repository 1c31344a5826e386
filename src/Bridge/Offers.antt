-- ===== src/Bridge/Offers.antt =====
-- The offers of firmware/bridge.c: a channel offers to send (`bridge_start_in`) or to receive
-- (`bridge_start_out`), and the offer stands in every header until the SoC takes it up.
use t2_firmware.Prelude.{
  ◌≡◌, ℕ, ◌<◌, Bool, true, false, arith, ◌&&◌, ◌==◌, List, [], ◌∷◌, if◌then◌else◌, test_bit,
  test_bit-set_bit, test_bit-clear_pair, set_bit-lt, clear_pair-lt,
}
use t2_firmware.Channel.{Chan, usb, index, open_index, at, same, index-lt, index-eq, at-put}
use t2_firmware.Bridge.{
  Bridge, ControlPkt, receive_ctrl, handle_sync, start_in, start_out, enable_chan, disable_chan,
}
use t2_firmware.Bridge.Chain.{build_chain-releases}
use t2_firmware.Bridge.Sync.{handle_sync_valid}

-- what a channel shows in the MCU's header
pub record Offer : Type 0 where
  pub enabled : Bool
  pub accepts : Bool
  pub size : ℕ

abbrev pub offer : Bridge → Chan → Offer
offer s d = record {
  enabled = test_bit s.out_chan_ready (open_index d);
  accepts = test_bit s.out_chan_ready (index d);
  size = at s.in_chan_size d;
}

module _ (s : Bridge) (hs : s.out_chan_ready < 256) (c d : Chan) where
  -- `bridge_start_in` offers the data on its channel alone.
  pub offer-start_in :
      (ptr len : ℕ)
      → offer (start_in c ptr len s) d
        ≡ (if same c d then record (offer s d) { size = len } else offer s d)
  unfolding start_in
  offer-start_in ptr len = ground (arith, at-put s.in_chan_size c d len)

  pub offer-start_out :
      (ptr : ℕ)
      → offer (start_out c ptr s) d
        ≡ (if same c d then record (offer s d) { accepts = true } else offer s d)
  unfolding start_out
  offer-start_out ptr = ground (
    arith,
    index-eq c d,
    test_bit-set_bit s.out_chan_ready (index c) (index d),
    test_bit-set_bit s.out_chan_ready (index c) (open_index d),
  )

  pub offer-enable_chan :
      offer (enable_chan c s) d
      ≡ (if same c d then record (offer s d) { enabled = true } else offer s d)
  unfolding enable_chan
  offer-enable_chan = ground (
    arith,
    test_bit-set_bit s.out_chan_ready (open_index c) (index d),
    test_bit-set_bit s.out_chan_ready (open_index c) (open_index d),
  )

  -- `bridge_disable_chan` withdraws all that its channel offers, and leaves the others alone.
  pub offer-disable_chan :
      offer (disable_chan c s) d
      ≡ (if same c d then record { enabled = false; accepts = false; size = 0 } else offer s d)
  unfolding disable_chan
  offer-disable_chan = ground (
    arith,
    at-put s.in_chan_size c d 0,
    test_bit-clear_pair s.out_chan_ready (index c) (index d),
    test_bit-clear_pair s.out_chan_ready (index c) (open_index d),
  )

-- a whole transaction: SYNC falls, the SoC's header arrives, SYNC rises
abbrev pub transaction : ControlPkt → Bridge → Bridge
transaction p s = handle_sync true (receive_ctrl p (handle_sync false s))

module _ (s : Bridge) (hs : s.out_chan_ready < 256) (p : ControlPkt) (valid : p.cmd ≡ 0x53) where
  -- A transaction takes up an offer to receive exactly if the SoC has data on the channel, and an
  -- offer of data exactly if the SoC is ready for it. What is not taken up stands unchanged in the
  -- next header, and channels stay enabled or disabled.
  pub offer-transaction :
      (d : Chan)
      → offer (transaction p s) d ≡ record {
        enabled = (offer s d).enabled;
        accepts = (offer s d).accepts && (at p.size d == 0);
        size = if test_bit p.status (index d) then 0 else (offer s d).size;
      }
  unfolding receive_ctrl handle_sync
  offer-transaction d = ground (
    arith,
    handle_sync_valid (receive_ctrl p (handle_sync false s)) valid,
    build_chain-releases (receive_ctrl p (handle_sync false s)) hs d,
  )

  transaction-lt : (transaction p s).out_chan_ready < 256
  unfolding receive_ctrl handle_sync
  transaction-lt = ground (
    arith,
    handle_sync_valid (receive_ctrl p (handle_sync false s)) valid,
    build_chain-releases (receive_ctrl p (handle_sync false s)) hs usb,
  )

-- What may happen to the bridge between two headers.
pub data Event : Type 0 where
  send : Chan → (ptr len : ℕ) → Event
  receive : Chan → (ptr : ℕ) → Event
  enable disable : Chan → Event
  transact : ControlPkt → Event

abbrev pub step : Event → Bridge → Bridge
step (send c ptr len) s = start_in c ptr len s
step (receive c ptr) s = start_out c ptr s
step (enable c) s = enable_chan c s
step (disable c) s = disable_chan c s
step (transact p) s = transaction p s

abbrev pub run_events : List Event → Bridge → Bridge
run_events [] s = s
run_events (e ∷ es) s = run_events es (step e s)

-- A transfer is started only on a channel that is enabled; a header is valid.
abbrev pub Allowed : Event → Bridge → Type 0
Allowed (send c ptr len) s = (offer s c).enabled ≡ true
Allowed (receive c ptr) s = (offer s c).enabled ≡ true
Allowed (transact p) s = p.cmd ≡ 0x53
Allowed _ s = Unit

abbrev pub AllAllowed : List Event → Bridge → Type 0
AllAllowed [] s = Unit
AllAllowed (e ∷ es) s = Allowed e s × AllAllowed es (step e s)

-- A channel that the MCU does not enable neither accepts nor offers data.
abbrev pub IsCoherent : Bridge → Type 0
IsCoherent s =
    (d : Chan)
    → (offer s d).enabled ≡ false
    → ((offer s d).accepts ≡ false) × ((offer s d).size ≡ 0)

step-lt :
    (e : Event) (s : Bridge)
    → s.out_chan_ready < 256
    → Allowed e s
    → (step e s).out_chan_ready < 256
unfolding start_in start_out enable_chan disable_chan
step-lt (send c ptr len) s h a = h
step-lt (receive c ptr) s h a = ground (arith, index-lt c, set_bit-lt s.out_chan_ready (index c))
step-lt (enable c) s h a = ground (arith, set_bit-lt s.out_chan_ready (open_index c))
step-lt (disable c) s h a = ground (arith, index-lt c, clear_pair-lt s.out_chan_ready (index c))
step-lt (transact p) s h a = transaction-lt s h p a

step-IsCoherent :
    (e : Event) (s : Bridge)
    → s.out_chan_ready < 256
    → Allowed e s
    → IsCoherent s
    → IsCoherent (step e s)
step-IsCoherent (send c ptr len) s h a i d off = ground (arith, i d, offer-start_in s h c d ptr len)
step-IsCoherent (receive c ptr) s h a i d off = ground (arith, i d, offer-start_out s h c d ptr)
step-IsCoherent (enable c) s h a i d off = ground (arith, i d, offer-enable_chan s h c d)
step-IsCoherent (disable c) s h a i d off = ground (arith, i d, offer-disable_chan s h c d)
step-IsCoherent (transact p) s h a i d off = ground (arith, i d, offer-transaction s h p a d)

-- As long as transfers are started on enabled channels only, every sequence of calls and
-- transactions keeps the disabled channels idle.
pub run_events-IsCoherent :
    (es : List Event) (s : Bridge)
    → s.out_chan_ready < 256
    → AllAllowed es s
    → IsCoherent s
    → IsCoherent (run_events es s)
run_events-IsCoherent [] s h a i = i
run_events-IsCoherent (e ∷ es) s h a i =
    run_events-IsCoherent es (step e s) (step-lt e s h a.0) a.1 (step-IsCoherent e s h a.0 i)
