-- ===== src/Spid/Prepare.antt =====
-- The data transfer that soc/spid.c prepares is the one that the headers determine.
use t2_firmware.Prelude.{
  ◌≡◌, List, [], ◌∷◌, ◌++◌, false, arith, append-nil, append_assoc, refl, ap₂, ◌∙◌,
}
use t2_firmware.Channel.{Chan, usb, port_a, port_b, at, same}
use t2_firmware.Transfer.{Xfer, to_mcu, from_mcu, Headers, segment, plan}
use t2_firmware.Spid.{Spid, Header, prepare_send, prepare_receive, prepare}

-- the headers as the loop reads them: its own state for the SoC's side
abbrev pub headers : Header → Spid → Headers
headers rx s = record {
  mcu_status = rx.status;
  mcu_size = rx.size;
  soc_status = s.writable;
  soc_size = s.out_length;
}

abbrev prepare_one : Header → Chan → Spid × List Xfer → Spid × List Xfer
prepare_one rx c p = prepare_receive rx c (prepare_send rx c p)

module _ (rx : Header) (c : Chan) (s : Spid) (xs : List Xfer) where
  prepare_one-plan : (prepare_one rx c (s, xs)).1 ≡ xs ++ segment (headers rx s) c
  unfolding prepare_send prepare_receive
  prepare_one-plan = ground (
    arith,
    append-nil xs,
    append_assoc xs (to_mcu c (at s.out_length c) ∷ []) (from_mcu c (at rx.size c) ∷ []),
  )

  prepare_one-keeps :
      (d : Chan)
      → (same c d ≡ false
          → segment (headers rx (prepare_one rx c (s, xs)).0) d ≡ segment (headers rx s) d)
  unfolding prepare_send prepare_receive
  prepare_one-keeps d h = ground arith

-- For the headers that the loop sees, the descriptors are the plan, in its order.
pub prepare-plan : (rx : Header) (s : Spid) → (prepare rx s).1 ≡ plan (headers rx s)
unfolding prepare
prepare-plan rx s =
    prepare_one-plan rx port_b q.0 q.1
    ∙ ap₂ ◌++◌
        (prepare_one-plan rx port_a p.0 p.1
          ∙ ap₂ ◌++◌ (prepare_one-plan rx usb s []) (prepare_one-keeps rx usb s [] port_a refl))
        (prepare_one-keeps rx port_a p.0 p.1 port_b refl
          ∙ prepare_one-keeps rx usb s [] port_b refl)
  where
    p : Spid × List Xfer
    p = prepare_one rx usb (s, [])

    q : Spid × List Xfer
    q = prepare_one rx port_a p
