-- ===== src/Spid.antt =====
-- soc/spid.c: the SoC's side of the SPI bridge. The globals are the fields of `Spid`: the channel
-- buffers, the three bitmasks, the descriptors and the polled events. The kernel is a parameter:
-- one round of the main loop takes what `poll`, `accept`, `read` and the header transfer returned.
pub mod Masks
pub mod Prepare
mod Tests
pub mod Manage
use t2_firmware.Prelude.{
  ℕ, ◌*◌, List, [], ◌∷◌, ◌++◌, Bool, true, false, not, ◌&&◌, ◌||◌, Option, none, some, ltb, ◌==◌,
  if◌then◌else◌, test_bit, set_bit, clear_bit, bit_or, length, ◌+◌, is_empty,
}
use t2_firmware.Channel.{Chan, usb, index, open_index, PerChan, at, put, fill, for_chan}
use t2_firmware.Transfer.{Xfer, to_mcu, from_mcu}

-- the `events` of a connected socket's pollfd: POLLIN, POLLOUT and POLLERR
pub record Events : Type 0 where
  pub pollin : Bool
  pub pollout : Bool
  pub pollerr : Bool

abbrev pub no_events : Events
no_events = record { pollin = false; pollout = false; pollerr = false }

-- the calls into the kernel that the loop makes for a channel
pub data Call : Type 0 where
  close_fd : Option ℕ → Call
  write_fd : Chan → ℕ → Call
  connect_usbd : ℕ → Call

-- `ChannelData channels[]` is `out_buf` with `out_length`; `in_buf` is filled and emptied within
-- one round. A descriptor of -1 is `none`.
pub record Spid : Type 0 where
  pub out_buf : PerChan (List ℕ)
  pub out_length : PerChan ℕ
  pub writable : ℕ
  pub opened : ℕ
  pub enabled : ℕ
  pub conn_fd : PerChan (Option ℕ)
  pub conn_events : PerChan Events
  pub sock_pollin : PerChan Bool
  pub retries : ℕ
  pub calls : List Call

abbrev pub is_usbd : Chan → Bool
is_usbd usb = true
is_usbd _ = false

-- `get_channel_bitmask_state`, as a condition
abbrev pub get_state : ℕ → Chan → Bool
get_state mask c = test_bit mask (index c)

-- `set_channel_bitmask_state`
unfoldable pub set_state : ℕ → Chan → Bool → ℕ
set_state mask c on = if on then set_bit mask (index c) else clear_bit mask (index c)

-- `extract_enabled_state`, of the status byte of the coprocessor's header
abbrev pub extract_enabled : ℕ → Chan → Bool
extract_enabled status c = test_bit status (open_index c)

-- `close_channel_connection`
unfoldable pub close_connection : Chan → Spid → Spid
close_connection c s = record s {
  calls = close_fd (at s.conn_fd c) ∷ s.calls;
  conn_fd = put s.conn_fd c none;
  out_length = put s.out_length c 0;
  sock_pollin =
      if get_state s.enabled c && not (is_usbd c) then put s.sock_pollin c true else s.sock_pollin;
  opened = set_state s.opened c false;
  writable = set_state s.writable c false;
}

unfoldable pub disable_listening : Chan → Spid → Spid
disable_listening c s = record s { sock_pollin = put s.sock_pollin c false }

unfoldable pub enable_listening : Chan → Spid → Spid
enable_listening c s = record s { sock_pollin = put s.sock_pollin c true }

-- `enable_usb_daemon_socket`, with the descriptor that `socket` returned
unfoldable pub enable_usb_daemon : ℕ → Spid → Spid
enable_usb_daemon fd s = record s {
  conn_fd = put s.conn_fd usb (some fd);
  conn_events = put s.conn_events usb (record { pollin = true; pollout = true; pollerr = true });
  opened = set_state s.opened usb true;
  calls = connect_usbd fd ∷ s.calls;
}

-- the branch of `manage_channel_active_status` for a channel that has been enabled
unfoldable pub enable_chan : ℕ → Chan → Spid → Spid
unfolding enable_listening enable_usb_daemon
enable_chan fd c s =
    let t = if is_usbd c then enable_usb_daemon fd s else enable_listening c s in
    record t { enabled = set_state t.enabled c true }

-- The branch for a channel that has been disabled. After `close_channel_connection` the USB
-- channel's events are cleared, and the other channels stop listening.
unfoldable pub disable_chan : Chan → Spid → Spid
unfolding close_connection disable_listening
disable_chan c s =
    let t = close_connection c s in
    let u =
      if is_usbd c
      then record t { conn_events = put t.conn_events c no_events }
      else disable_listening c t in
    record u { enabled = set_state u.enabled c false }

-- One round of the loop of `manage_channel_active_status`.
unfoldable pub manage_one : ℕ → ℕ → Chan → Spid → Spid
unfolding enable_chan disable_chan
manage_one status fd c s =
    if extract_enabled status c
    then (if get_state s.enabled c then s else enable_chan fd c s)
    else if get_state s.enabled c
    then disable_chan c s
    else s

-- `manage_channel_active_status`; `fd` is the socket for the USB daemon
unfoldable pub manage : ℕ → ℕ → Spid → Spid
unfolding manage_one
manage status fd s = for_chan (manage_one status fd) s

-- what `poll` reported, what `accept` returned and what `read` returned for a channel: `none` is an
-- error, and no byte is the end of the file
pub record Ready : Type 0 where
  pub sock_ready : Bool
  pub accepted : ℕ
  pub readable : Bool
  pub read_result : Option (List ℕ)
  pub hangup : Bool
  pub can_write : Bool

-- the check for a new connection
unfoldable pub accept_one : PerChan Ready → Chan → Spid → Spid
accept_one r c s =
    if is_usbd c
    then s
    else if (at r c).sock_ready
    then record s {
      conn_fd = put s.conn_fd c (some (at r c).accepted);
      conn_events = put s.conn_events c (record { pollin = true; pollout = true; pollerr = false });
      sock_pollin = put s.sock_pollin c false;
      opened = set_state s.opened c true;
    }
    else s

-- the `read` of a readable connection: the new state, and `to_close`
unfoldable pub read_into : Chan → Option (List ℕ) → Spid → Spid × Bool
read_into c none s = (s, true)
read_into c (some []) s = (s, true)
read_into c (some (b ∷ bs)) s = (
  record s {
    out_buf = put s.out_buf c (b ∷ bs);
    out_length = put s.out_length c (length (b ∷ bs));
  },
  false,
)

unfoldable pub read_one : PerChan Ready → Chan → Spid → Spid × Bool
unfolding read_into
read_one r c s =
    if (at r c).readable
    then read_into c (at r c).read_result (record s {
      conn_events = put s.conn_events c (record (at s.conn_events c) { pollin = false });
    })
    else (s, false)

-- the check of a connected socket. `hangup` is any of POLLHUP, POLLERR and POLLRDHUP.
unfoldable pub check_one : PerChan Ready → Chan → Spid → Spid
unfolding read_one close_connection
check_one r c s =
    let (t, to_close) = read_one r c s in
    if to_close || (at r c).hangup
    then close_connection c t
    else if (at r c).can_write
    then record t {
      conn_events = put t.conn_events c (record (at t.conn_events c) { pollout = false });
      writable = set_state t.writable c true;
    }
    else t

-- the header that the SoC sends
pub record Header : Type 0 where
  pub magic : ℕ
  pub status : ℕ
  pub size : PerChan ℕ

-- `channels_writable_bitmask | (channels_opened_bitmask << 4)`, as the byte `tx_buf[1]`
unfoldable pub header_status : ℕ → ℕ → ℕ
header_status w o = bit_or w (o * 16)

unfoldable pub header : Spid → Header
header s = record { magic = 0x53; status = header_status s.writable s.opened; size = s.out_length }

-- the first half of the loop that prepares the data transfer, with the coprocessor's header
unfoldable pub prepare_send : Header → Chan → Spid × List Xfer → Spid × List Xfer
prepare_send rx c (s, xs) =
    if test_bit rx.status (index c) && ltb 0 (at s.out_length c)
    then (
      record s {
        conn_events = put s.conn_events c (record (at s.conn_events c) { pollin = true });
        out_length = put s.out_length c 0;
      },
      xs ++ to_mcu c (at s.out_length c) ∷ [],
    )
    else (s, xs)

-- the second half
unfoldable pub prepare_receive : Header → Chan → Spid × List Xfer → Spid × List Xfer
prepare_receive rx c (s, xs) =
    if get_state s.writable c && ltb 0 (at rx.size c)
    then (s, xs ++ from_mcu c (at rx.size c) ∷ [])
    else (s, xs)

unfoldable pub prepare : Header → Spid → Spid × List Xfer
unfolding prepare_send prepare_receive
prepare rx s = for_chan (λ c p. prepare_receive rx c (prepare_send rx c p)) (s, [])

-- the loop that writes what was received to the sockets
unfoldable pub deliver_one : Header → Chan → Spid → Spid
deliver_one rx c s =
    if get_state s.writable c && ltb 0 (at rx.size c)
    then record s {
      calls = write_fd c (at rx.size c) ∷ s.calls;
      conn_events = put s.conn_events c (record (at s.conn_events c) { pollout = true });
      writable = set_state s.writable c false;
    }
    else s

-- the data phase, after the headers were exchanged
unfoldable pub data_phase : Header → ℕ → Spid → Spid × List Xfer
unfolding manage prepare deliver_one
data_phase rx fd s =
    let (t, xs) = prepare rx (manage rx.status fd s) in
    (if is_empty xs then t else for_chan (deliver_one rx) t, xs)

-- the socket part of a round, up to the header
unfoldable pub serve_sockets : PerChan Ready → Spid → Spid
unfolding accept_one check_one
serve_sockets r s = for_chan (check_one r) (for_chan (accept_one r) s)

-- One round of `while (1)`: the header that was sent, then either a rejected reply, `none` after
-- the sixteenth in a row (the daemon exits), or the data phase.
unfoldable pub round : PerChan Ready → Header → ℕ → Spid → Option (Spid × List Xfer)
unfolding serve_sockets data_phase
round r rx fd s =
    let t = serve_sockets r s in
    if not (rx.magic == 0xCA)
    then if ltb 15 (t.retries + 1) then none else some (record t { retries = t.retries + 1 }, [])
    else let (u, xs) = data_phase rx fd t in some (record u { retries = 0 }, xs)

-- the state before the loop. The pollfds of the connections were zeroed, but for the USB one.
unfoldable pub start : Spid
start = record {
  out_buf = fill [];
  out_length = fill 0;
  writable = 0;
  opened = 0;
  enabled = 0;
  conn_fd = record { c0 = none; c1 = some 0; c2 = some 0 };
  conn_events = fill no_events;
  sock_pollin = fill false;
  retries = 0;
  calls = [];
}
