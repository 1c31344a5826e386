-- ===== src/Port/Echo.antt =====
-- CMD_ECHO of firmware/port.c: each part of the payload goes to the end of the reply.
use t2_firmware.Prelude.{
  ℕ, ◌+◌, ◌-◌, ◌≤◌, ◌≡◌, ap, sym, ◌∙◌, List, ◌++◌, arith, min, length, take, drop, length-append,
  length-take, length-drop, append_assoc, take-append_length,
}
use t2_firmware.Port.{PortData, txrx_len, arg_at}
use t2_firmware.Port.Live.{IsLive}
use t2_firmware.Port.Uart.{replies}
use t2_firmware.Port.Continue.{continue_echo, advance_reply, copy_reply}

-- the next `n` bytes of the command buffer
abbrev pub payload : ℕ → PortData → List ℕ
payload n p = take n (drop p.cmd_pos p.cmd_buf)

take-append_at : (xs ys : List ℕ) (n : ℕ) → length xs ≡ n → take n (xs ++ ys) ≡ xs
take-append_at xs ys n h = ap (λ i. take i (xs ++ ys)) (sym h) ∙ take-append_length xs ys

-- how many bytes a part has
abbrev pub part : PortData → ℕ
part p = min (arg_at p 0) (min (p.cmd_len - p.cmd_pos) (255 - p.reply_len))

txrx_len-part : (p : PortData) → IsLive p → txrx_len p ≡ part p
unfolding txrx_len
txrx_len-part p v = ground arith

-- the reply buffer after the copy: the replies, the bytes and what stood behind
copied :
    (p : PortData) (n : ℕ)
    → IsLive p
    → n ≤ p.cmd_len - p.cmd_pos
    → n ≤ 255 - p.reply_len
    → length p.reply_buf ≡ 255
    → length p.cmd_buf ≡ 255
    → replies (advance_reply n (copy_reply n p)) ≡ replies p ++ payload n p
copied p n v a b r c =
    let rest = drop (p.reply_len + n) p.reply_buf in
    ap (λ i. take i (replies p ++ (payload n p ++ rest))) (omega (arith, v.reply_le))
    ∙ ap (take (p.reply_len + n)) (sym (append_assoc (replies p) (payload n p) rest))
    ∙ take-append_at (replies p ++ payload n p) rest (p.reply_len + n) (
        omega (
          arith,
          length-append (replies p) (payload n p),
          length-take p.reply_len p.reply_buf,
          length-take n (drop p.cmd_pos p.cmd_buf),
          length-drop p.cmd_pos p.cmd_buf,
          v.reply_le,
          v.len_le,
          v.pos_le,
        ))

-- A part of an echo takes as many bytes as the argument, the command buffer and the reply buffer
-- allow, and appends them, from the position in the command buffer on, to the replies; both
-- positions move on by them.
continue_echo-copies :
    (p : PortData)
    → IsLive p
    → length p.reply_buf ≡ 255
    → length p.cmd_buf ≡ 255
    → (replies ((continue_echo p).0) ≡ replies p ++ payload (part p) p)
      × ((continue_echo p).0.cmd_pos ≡ p.cmd_pos + part p)
      × ((continue_echo p).0.reply_len ≡ p.reply_len + part p)
unfolding continue_echo
continue_echo-copies p v r c =
    let n = txrx_len p in
    let e = txrx_len-part p v in
    (
      copied p n v (omega (arith, e)) (omega (arith, e)) r c ∙ ap (λ i. replies p ++ payload i p) e,
      omega (arith, e, v.pos_le, v.len_le),
      omega (arith, e, v.reply_le),
    )
