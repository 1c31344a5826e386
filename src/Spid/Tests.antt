-- ===== src/Spid/Tests.antt =====
-- Runs of soc/spid.c.
use t2_firmware.Prelude.{◌≡◌, true, false, arith}
use t2_firmware.Channel.{Chan, port_a}
use t2_firmware.Spid.{start, get_state, extract_enabled, manage}
use t2_firmware.Spid.Masks.{IsNarrow}
use t2_firmware.Spid.Manage.{view, closed_view, enabled_view, manage_follows_header}

start-IsNarrow : IsNarrow start
unfolding start
start-IsNarrow = omega arith

-- the header 0x30 enables USB and port A
manage_follows_header_example :
    (get_state (manage 0x30 9 start).enabled port_a ≡ extract_enabled 0x30 port_a)
    × (get_state start.enabled port_a ≡ true
        → extract_enabled 0x30 port_a ≡ false
        → view (manage 0x30 9 start) port_a ≡ closed_view port_a (view start port_a))
    × (get_state start.enabled port_a ≡ false
        → extract_enabled 0x30 port_a ≡ true
        → view (manage 0x30 9 start) port_a ≡ enabled_view 9 port_a (view start port_a))
    × (get_state start.enabled port_a ≡ extract_enabled 0x30 port_a
        → view (manage 0x30 9 start) port_a ≡ view start port_a)
    × (((c : Chan) → get_state start.enabled c ≡ extract_enabled 0x30 c)
        → manage 0x30 9 start ≡ start)
manage_follows_header_example = manage_follows_header 0x30 9 start start-IsNarrow port_a
