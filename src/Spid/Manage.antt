-- ===== src/Spid/Manage.antt =====
-- `manage_channel_active_status` of soc/spid.c: which channels it enables and closes.
use t2_firmware.Prelude.{
  ℕ, ◌≡◌, Bool, true, false, arith, if◌then◌else◌, ◌∙◌, ap, Option, none, some,
}
use t2_firmware.Channel.{Chan, usb, port_a, port_b, at, same}
use t2_firmware.Spid.{
  Spid, Events, no_events, is_usbd, get_state, extract_enabled, manage_one, manage,
}
use t2_firmware.Spid.Masks.{IsNarrow, get_state-set_state, set_state-lt}

-- What the daemon has of one channel but for the data that waits: the bits, the descriptor and the
-- polled events of the connection, and whether the listening socket is polled.
pub record View : Type 0 where
  pub out_length : ℕ
  pub writable : Bool
  pub opened : Bool
  pub enabled : Bool
  pub conn_fd : Option ℕ
  pub conn_events : Events
  pub sock_pollin : Bool

abbrev pub view : Spid → Chan → View
view s d = record {
  out_length = at s.out_length d;
  writable = get_state s.writable d;
  opened = get_state s.opened d;
  enabled = get_state s.enabled d;
  conn_fd = at s.conn_fd d;
  conn_events = at s.conn_events d;
  sock_pollin = at s.sock_pollin d;
}

-- A channel that is closed: of the USB channel no event is polled, and the others stop listening.
abbrev pub closed_view : Chan → View → View
closed_view c v = record {
  out_length = 0;
  writable = false;
  opened = false;
  enabled = false;
  conn_fd = none;
  conn_events = if is_usbd c then no_events else v.conn_events;
  sock_pollin = if is_usbd c then v.sock_pollin else false;
}

-- A channel that is enabled: the USB channel is connected at once, the others start to listen.
abbrev pub enabled_view : (fd : ℕ) → Chan → View → View
enabled_view fd c v =
    if is_usbd c
    then record v {
      enabled = true;
      opened = true;
      conn_fd = some fd;
      conn_events = record { pollin = true; pollout = true; pollerr = true };
    }
    else record v { enabled = true; sock_pollin = true }

-- A channel after its round of the loop: closed if it was enabled and the header disables it, and
-- enabled exactly as the header says.
abbrev pub managed : (status fd : ℕ) → Chan → View → View
managed status fd c v =
    if extract_enabled status c
    then (if v.enabled then v else enabled_view fd c v)
    else if v.enabled
    then closed_view c v
    else v

managed_follows :
    (status fd : ℕ) (c : Chan) (v : View)
    → ((managed status fd c v).enabled ≡ extract_enabled status c)
      × (v.enabled ≡ true
          → extract_enabled status c ≡ false
          → managed status fd c v ≡ closed_view c v)
      × (v.enabled ≡ false
          → extract_enabled status c ≡ true
          → managed status fd c v ≡ enabled_view fd c v)
      × (v.enabled ≡ extract_enabled status c → managed status fd c v ≡ v)
managed_follows status fd c v =
    (ground arith, (λ h k. ground arith), (λ h k. ground arith), λ h. ground arith)

module _ (status fd : ℕ) (c : Chan) (s : Spid) (n : IsNarrow s) where
  pub manage_one-IsNarrow : IsNarrow (manage_one status fd c s)
  unfolding manage_one
  manage_one-IsNarrow = ground (
    arith,
    set_state-lt s.writable c false,
    set_state-lt s.opened c false,
    set_state-lt s.opened usb true,
    set_state-lt s.enabled c true,
    set_state-lt s.enabled c false,
  )

  pub view-manage_one :
      (d : Chan)
      → view (manage_one status fd c s) d
        ≡ (if same c d then managed status fd c (view s c) else view s d)
  unfolding manage_one
  view-manage_one d = ground (
    arith,
    get_state-set_state s.writable c false n.writable d,
    get_state-set_state s.opened c false n.opened d,
    get_state-set_state s.opened usb true n.opened d,
    get_state-set_state s.enabled c true n.enabled d,
    get_state-set_state s.enabled c false n.enabled d,
  )

manage_one_same :
    (status fd : ℕ) (c : Chan) (s : Spid)
    → get_state s.enabled c ≡ extract_enabled status c
    → manage_one status fd c s ≡ s
unfolding manage_one
manage_one_same status fd c s h = ground arith

module _ (status fd : ℕ) (s : Spid) (n : IsNarrow s) where
  first : Spid
  first = manage_one status fd usb s

  second : Spid
  unfolding first
  second = manage_one status fd port_a first

  first-IsNarrow : IsNarrow first
  unfolding first
  first-IsNarrow = manage_one-IsNarrow status fd usb s n

  second-IsNarrow : IsNarrow second
  unfolding second
  second-IsNarrow = manage_one-IsNarrow status fd port_a first first-IsNarrow

  pub manage-IsNarrow : IsNarrow (manage status fd s)
  unfolding manage second
  manage-IsNarrow = manage_one-IsNarrow status fd port_b second second-IsNarrow

  -- The loop treats each channel on its own.
  pub view-manage : (d : Chan) → view (manage status fd s) d ≡ managed status fd d (view s d)
  unfolding manage second
  view-manage usb =
      view-manage_one status fd port_b second second-IsNarrow usb
      ∙ view-manage_one status fd port_a first first-IsNarrow usb
      ∙ view-manage_one status fd usb s n usb
  view-manage port_a =
      view-manage_one status fd port_b second second-IsNarrow port_a
      ∙ view-manage_one status fd port_a first first-IsNarrow port_a
      ∙ ap (managed status fd port_a) (view-manage_one status fd usb s n port_a)
  view-manage port_b =
      view-manage_one status fd port_b second second-IsNarrow port_b
      ∙ ap (managed status fd port_b) (
          view-manage_one status fd port_a first first-IsNarrow port_b
          ∙ view-manage_one status fd usb s n port_b)

  -- If the header changes no channel, the loop does nothing.
  manage_same :
      ((d : Chan) → get_state s.enabled d ≡ extract_enabled status d) → manage status fd s ≡ s
  unfolding manage
  manage_same h =
      ap (λ t. manage_one status fd port_b (manage_one status fd port_a t))
        (manage_one_same status fd usb s (h usb))
      ∙ ap (manage_one status fd port_b) (manage_one_same status fd port_a s (h port_a))
      ∙ manage_one_same status fd port_b s (h port_b)

  -- After the loop the daemon's enabled channels are exactly those that the coprocessor's header
  -- enables. A channel that it disables has nothing to send, no descriptor, and is neither writable
  -- nor open; one that it enables is connected to the USB daemon or listens; and of a channel whose
  -- status did not change, the bits, the length to send, the descriptor and the polled events are as
  -- they were. If no status changed, nothing has changed, and no call was made.
  pub manage_follows_header :
      (d : Chan)
      → (get_state (manage status fd s).enabled d ≡ extract_enabled status d)
        × (get_state s.enabled d ≡ true
            → extract_enabled status d ≡ false
            → view (manage status fd s) d ≡ closed_view d (view s d))
        × (get_state s.enabled d ≡ false
            → extract_enabled status d ≡ true
            → view (manage status fd s) d ≡ enabled_view fd d (view s d))
        × (get_state s.enabled d ≡ extract_enabled status d
            → view (manage status fd s) d ≡ view s d)
        × (((c : Chan) → get_state s.enabled c ≡ extract_enabled status c) → manage status fd s ≡ s)
  manage_follows_header d =
      let e = view-manage d in
      let (enabled, closed, opened, kept) = managed_follows status fd d (view s d) in
      (
        ap (λ (v : View). v.enabled) e ∙ enabled,
        (λ h k. e ∙ closed h k),
        (λ h k. e ∙ opened h k),
        (λ h. e ∙ kept h),
        manage_same,
      )
