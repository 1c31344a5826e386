-- ===== src/Protocol/Desync.antt =====
-- What the agreement of Protocol.setup_agrees rests on: a channel that the MCU disables while it
-- still accepts data.
use t2_firmware.Prelude.{
  ◌≡◌, ℕ, ◌<◌, Bool, true, false, arith, ◌||◌, List, [], ◌∷◌, test_bit, ap, sym, subst, ◌∙◌, ◌++◌,
  if◌then◌else◌, map, map-append, append_assoc, some, lt→ltb,
}
use t2_firmware.Channel.{Chan, usb, port_a, port_b, index, open_index, at, same}
use t2_firmware.Transfer.{Xfer, to_mcu, from_mcu, Headers, flows, segment, plan}
use t2_firmware.Bridge.{Bridge, begin_ctrl, receive_ctrl, build_chain}
use t2_firmware.Bridge.Chain.{rx_desc, build_chain-plan, headers as mcu_headers}
use t2_firmware.Spid.{Spid, header, get_state, data_phase, manage}
use t2_firmware.Spid.Masks.{IsNarrow}
use t2_firmware.Spid.Manage.{View, view-manage}
use t2_firmware.Spid.Prepare.{prepare-plan}
use t2_firmware.Protocol.{mcu_after_setup, header_from_mcu}

-- some transfer brings data of the channel to the MCU
abbrev pub brings : Chan → List Xfer → Bool
brings d [] = false
brings d (to_mcu c n ∷ xs) = same c d || brings d xs
brings d (from_mcu c n ∷ xs) = brings d xs

brings-plan : (d : Chan) (h : Headers) → brings d (plan h) ≡ flows h.mcu_status h.soc_size d
brings-plan d h = ground arith

-- The element stands somewhere in the list.
abbrev pub Contains {ℓ} : {A : Type ℓ} → A → List A → Type ℓ
Contains x l = (xs : List _) × ((ys : List _) × (l ≡ xs ++ x ∷ ys))

Contains-left {ℓ} : {A : Type ℓ} (x : A) (l m : List A) → Contains x l → Contains x (l ++ m)
Contains-left x l m (xs, (ys, e)) = (xs, (ys ++ m, ap (λ k. k ++ m) e ∙ append_assoc xs (x ∷ ys) m))

Contains-right {ℓ} : {A : Type ℓ} (x : A) (l m : List A) → Contains x m → Contains x (l ++ m)
Contains-right x l m (xs, (ys, e)) =
    (l ++ xs, (ys, ap (λ k. l ++ k) e ∙ sym (append_assoc l xs (x ∷ ys))))

Contains-map {ℓ κ} :
    {A : Type ℓ} {B : Type κ} (f : A → B) (x : A) (l : List A)
    → Contains x l
    → Contains (f x) (map f l)
Contains-map f x l (xs, (ys, e)) = (map f xs, (map f ys, ap (map f) e ∙ map-append f xs (x ∷ ys)))

Contains-segment :
    (h : Headers) (d : Chan)
    → flows h.mcu_status h.soc_size d ≡ true
    → Contains (to_mcu d (at h.soc_size d)) (segment h d)
Contains-segment h d e =
    ([], (_, ap (λ b. (if b then to_mcu d (at h.soc_size d) ∷ [] else []) ++ from_soc) e))
  where
    from_soc : List Xfer
    from_soc = if flows h.soc_status h.mcu_size d then from_mcu d (at h.mcu_size d) ∷ [] else []

Contains-plan :
    (h : Headers) (d : Chan)
    → flows h.mcu_status h.soc_size d ≡ true
    → Contains (to_mcu d (at h.soc_size d)) (plan h)
Contains-plan h usb e =
    Contains-left _ (segment h usb ++ segment h port_a) (segment h port_b)
      (Contains-left _ (segment h usb) (segment h port_a) (Contains-segment h usb e))
Contains-plan h port_a e =
    Contains-left _ (segment h usb ++ segment h port_a) (segment h port_b)
      (Contains-right _ (segment h usb) (segment h port_a) (Contains-segment h port_a e))
Contains-plan h port_b e =
    Contains-right _ (segment h usb ++ segment h port_a) (segment h port_b)
      (Contains-segment h port_b e)

module _ (m : Bridge) (p : Spid) (fd : ℕ) (n : IsNarrow p) (d : Chan) where
  -- If the MCU's header disables a channel on which it still accepts data, and the SoC has the
  -- channel enabled with data to send, then a descriptor of the MCU's receiving chain takes that many
  -- bytes into the channel's buffer, in a data phase in which the SoC sends none on the channel.
  pub setup_disagrees :
      test_bit m.out_chan_ready (open_index d) ≡ false
      → test_bit m.out_chan_ready (index d) ≡ true
      → get_state p.enabled d ≡ true
      → 0 < at p.out_length d
      → Contains
          (record { buf = some (at m.out_chan_ptr d); count = at p.out_length d })
          (build_chain (mcu_after_setup m p)).rx
        × (brings d (data_phase (header_from_mcu m) fd p).1 ≡ false)
  unfolding begin_ctrl receive_ctrl header data_phase
  setup_disagrees off accepts on some_data = (
    subst (Contains _) (sym (build_chain-plan (mcu_after_setup m p)).1) (
        Contains-map (rx_desc (mcu_after_setup m p)) (to_mcu d (at p.out_length d)) _ (
          Contains-plan (mcu_headers (mcu_after_setup m p)) d
            (ground (arith, lt→ltb 0 (at p.out_length d))))),
    ap (brings d) (prepare-plan (header_from_mcu m) (manage (header_from_mcu m).status fd p))
        ∙ brings-plan d _
        ∙ ground (arith, ap (λ (v : View). v.out_length) (view-manage m.out_chan_ready fd p n d)),
  )
