-- ===== src/UsbExec/Refused.antt =====
-- `write_from_pipebuf` of soc/usbexecd.c where `write` fails: -1 is added to its positions.
use t2_firmware.Prelude.{
  ℕ, zero, suc, ◌+◌, ◌-◌, ◌≤◌, ◌<◌, ◌≡◌, ap, ◌∙◌, List, ◌∷◌, ◌++◌, arith, length, ◌≢◌, get_or,
  replicate,
}
use t2_firmware.UsbExec.{PipeBuf, pipe_size, Io, Write, refused, ok, stop, undefined}
use t2_firmware.UsbExec.Pipe.{Target, write_loop}
use t2_firmware.UsbExec.Ring.{ring, contents, IsRing, ring-split}
use t2_firmware.UsbExec.Writing.{out, AllTake, total, write_loop-Sent}

module _ (n : ℕ) (t : Target) (io : Io) where
  write_loop-refused :
      (ws : List Write) (p : PipeBuf) (m : ℕ)
      → 0 < m
      → p.startpos ≢ 0
      → write_loop (refused ∷ ws) m t p io
        ≡ write_loop ws
            (m + 1)
            t
            (record p { startpos = p.startpos - 1; bufcount = p.bufcount + 1 })
            io
  unfolding write_loop
  write_loop-refused ws p m h k = ground arith

  write_loop-undefined :
      (ws : List Write) (p : PipeBuf) (m : ℕ)
      → 0 < m
      → p.startpos ≡ 0
      → write_loop (refused ∷ ws) m t p io ≡ stop undefined
  unfolding write_loop
  write_loop-undefined ws p m h k = ground arith

-- the pipe after a `write` that fails: the byte before its first is in the ring again
abbrev pub taken_back : PipeBuf → PipeBuf
taken_back p = record p { startpos = p.startpos - 1; bufcount = p.bufcount + 1 }

-- If a `write` fails when the ring is not full and does not start at position 0, and the following
-- ones take at least a byte each, then the loop returns, but what was sent and what the ring then
-- holds are what they were with one byte more before the ring's first: the one in the slot in front
-- of it.
pub refused_repeats :
    (ws : List Write) (n : ℕ) (t : Target) (p : PipeBuf) (io : Io)
    → AllTake ws
    → IsRing p
    → 0 < p.startpos
    → p.bufcount < pipe_size
    → 0 < n
    → n ≤ p.bufcount
    → n < length ws
    → (q : PipeBuf) × (io' : Io) × (write_loop (refused ∷ ws) n t p io ≡ ok (q, io'))
      × (total q io' ≡ out io.calls ++ get_or p.buffer (p.startpos - 1) 0 ∷ contents p)
      × (q.bufcount + n ≡ p.bufcount)
refused_repeats ws n t p io a v b c d h l =
    let s =
      write_loop-Sent ws (n + 1) t (taken_back p) io a (ground arith) (omega arith) (omega arith) in
    (
      s.pipe,
      s.after,
      write_loop-refused n t io ws p n d (omega arith) ∙ s.returns,
      s.total_same
          ∙ ap (λ r. out io.calls ++ r)
              (ring-split p.buffer (p.startpos - 1) 1 p.bufcount (p.bufcount + 1) (omega arith)
                  (omega arith)
                ∙ ap (λ i. get_or p.buffer (p.startpos - 1) 0 ∷ ring p.buffer i p.bufcount)
                    (omega (arith, v.start_lt))),
      omega (arith, s.counted),
    )

-- When one more `write` in a row fails than the ring's start position, the run ends where the next
-- `write` would be given an address in front of the buffer.
refused_undefined :
    (k : ℕ) (ws : List Write) (n : ℕ) (t : Target) (p : PipeBuf) (io : Io)
    → p.startpos ≡ k
    → 0 < n
    → write_loop (replicate (suc k) refused ++ ws) n t p io ≡ stop undefined
refused_undefined zero ws n t p io e h = write_loop-undefined n t io ws p n h e
refused_undefined (suc k) ws n t p io e h =
    write_loop-refused n t io (replicate (suc k) refused ++ ws) p n h (omega arith)
    ∙ refused_undefined k ws (n + 1) t (taken_back p) io (omega arith) (omega arith)
