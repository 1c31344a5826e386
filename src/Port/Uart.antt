-- ===== src/Port/Uart.antt =====
-- The UART receive ring of firmware/port.c as a queue of the latest bytes.
use t2_firmware.Prelude.{
  length-append, dec_lt, ℕ, zero, suc, ◌+◌, ◌-◌, ◌%◌, ◌≤◌, ◌<◌, ◌≡◌, refl, ap, ap₂, ◌∙◌, sym, List,
  [], ◌∷◌, ◌++◌, arith, length, get_or, set, take, drop, get_or-set_self, get_or-set_ne, length-set,
  ltb, if◌then◌else◌, append_assoc, append-nil,
}
use t2_firmware.Port.{UartBuf, uart_rx_size, PortData, push_reply, reply_uart_rx}
use t2_firmware.Port.Events.{push_uart, copy_uart, drain_uart}

-- `n` bytes of the ring from position `t` on
abbrev ring : List ℕ → ℕ → ℕ → List ℕ
ring xs t zero = []
ring xs t (suc n) = get_or xs t 0 ∷ ring xs ((t + 1) % uart_rx_size) n

-- the bytes that wait, the oldest first
abbrev pub waiting : UartBuf → List ℕ
waiting b = ring b.rx_bytes b.tail b.buf_len

pub record IsRing (b : UartBuf) : Type 0 where
  pub slots : length b.rx_bytes ≡ uart_rx_size
  pub tail_lt : b.tail < uart_rx_size
  pub count_le : b.buf_len ≤ uart_rx_size
  pub head_at : b.head ≡ (b.tail + b.buf_len) % uart_rx_size

-- The oldest byte makes room when there are more than 32.
abbrev pub keep_latest : List ℕ → List ℕ
keep_latest xs = if ltb uart_rx_size (length xs) then drop 1 xs else xs

length-ring : (xs : List ℕ) (t n : ℕ) → length (ring xs t n) ≡ n
length-ring xs t zero = refl
length-ring xs t (suc n) = ap suc (length-ring xs ((t + 1) % uart_rx_size) n)

ring-last :
    (xs : List ℕ) (t n : ℕ)
    → t < 32
    → ring xs t (suc n) ≡ ring xs t n ++ get_or xs ((t + n) % uart_rx_size) 0 ∷ []
ring-last xs t zero h = ap (λ i. get_or xs i 0 ∷ []) (omega arith)
ring-last xs t (suc n) h =
    ap (λ l. get_or xs t 0 ∷ l)
      (ring-last xs ((t + 1) % uart_rx_size) n (omega arith)
        ∙ ap (λ i. ring xs ((t + 1) % uart_rx_size) n ++ get_or xs i 0 ∷ []) (omega arith))

-- A write that no position of the part meets does not change it.
ring-set :
    (xs : List ℕ) (h d t n : ℕ)
    → t < 32
    → h < 32
    → n ≤ (h + 32 - t) % 32
    → ring (set xs h d) t n ≡ ring xs t n
ring-set xs h d t zero a b c = refl
ring-set xs h d t (suc n) a b c =
    ap₂ (λ x l. x ∷ l) (get_or-set_ne xs h t d 0 (omega arith))
      (ring-set xs h d ((t + 1) % 32) n (omega arith) b (omega arith))

-- the ring with one more byte after `n`
ring-push :
    (xs : List ℕ) (t n d : ℕ)
    → length xs ≡ 32
    → t < 32
    → n < 32
    → ring (set xs ((t + n) % 32) d) t (suc n) ≡ ring xs t n ++ d ∷ []
ring-push xs t n d l a b =
    ring-last (set xs ((t + n) % 32) d) t n a
    ∙ ap₂ (λ p x. p ++ x ∷ []) (ring-set xs ((t + n) % 32) d t n a (omega arith) (omega arith))
        (get_or-set_self xs ((t + n) % 32) d 0 (omega arith))

push_uart-IsRing : (b : UartBuf) (d : ℕ) → IsRing b → IsRing (push_uart d b)
unfolding push_uart
push_uart-IsRing b d v = ground (arith, length-set b.rx_bytes b.head d)

keep_latest-few : (xs : List ℕ) → length xs ≤ 32 → keep_latest xs ≡ xs
keep_latest-few xs h = ground arith

keep_latest-many : (xs : List ℕ) → 32 < length xs → keep_latest xs ≡ drop 1 xs
keep_latest-many xs h = ground arith

module _ (b : UartBuf) (v : IsRing b) (d : ℕ) where
  push_uart-room :
      b.buf_len < 32
      → waiting (push_uart d b) ≡ ring (set b.rx_bytes b.head d) b.tail (suc b.buf_len)
  unfolding push_uart
  push_uart-room h = ground arith

  push_uart-full :
      b.buf_len ≡ 32
      → waiting (push_uart d b) ≡ ring (set b.rx_bytes b.head d) ((b.tail + 1) % 32) 32
  unfolding push_uart
  push_uart-full h = ground arith

  few : b.buf_len < 32 → waiting (push_uart d b) ≡ keep_latest (waiting b ++ d ∷ [])
  few h =
      push_uart-room h
      ∙ ap (λ i. ring (set b.rx_bytes i d) b.tail (suc b.buf_len)) v.head_at
      ∙ ring-push b.rx_bytes b.tail b.buf_len d v.slots v.tail_lt h
      ∙ sym (
          keep_latest-few (waiting b ++ d ∷ []) (
            omega
              (arith, length-append (waiting b) (d ∷ []), length-ring b.rx_bytes b.tail b.buf_len)))

  many : b.buf_len ≡ 32 → waiting (push_uart d b) ≡ keep_latest (waiting b ++ d ∷ [])
  many h =
      push_uart-full h
      ∙ ap (λ i. ring (set b.rx_bytes i d) ((b.tail + 1) % 32) 32) (v.head_at ∙ omega arith)
      ∙ ring-push b.rx_bytes ((b.tail + 1) % 32) 31 d v.slots (omega arith) (omega arith)
      ∙ sym (
          keep_latest-many (waiting b ++ d ∷ []) (
            omega
              (arith, length-append (waiting b) (d ∷ []), length-ring b.rx_bytes b.tail b.buf_len))
          ∙ ap (λ n. drop 1 (ring b.rx_bytes b.tail n ++ d ∷ [])) h)

  -- A received byte goes behind those that wait; when there are more than 32, the oldest is
  -- dropped, and the ring stays well formed.
  pub push_uart-latest :
      IsRing (push_uart d b) × (waiting (push_uart d b) ≡ keep_latest (waiting b ++ d ∷ []))
  push_uart-latest = (
    push_uart-IsRing b d v,
    elim (dec_lt b.buf_len 32) [ yes h ↦ few h | no h ↦ many (omega (arith, v.count_le)) ],
  )

-- the replies that wait to be sent
abbrev pub replies : PortData → List ℕ
replies p = take p.reply_len p.reply_buf

take-set : (xs : List ℕ) (i v : ℕ) → i < length xs → take (suc i) (set xs i v) ≡ take i xs ++ v ∷ []
take-set [] i v h = absurd (omega arith)
take-set (x ∷ xs) zero v h = refl
take-set (x ∷ xs) (suc i) v h = ap (λ l. x ∷ l) (take-set xs i v (omega arith))

-- one more reply byte
record Pushed (d : ℕ) (p q : PortData) : Type 0 where
  last : replies q ≡ replies p ++ d ∷ []
  count : q.reply_len ≡ p.reply_len + 1
  size : length q.reply_buf ≡ 255
  kept : q.uart_buf ≡ p.uart_buf

push_reply-fits :
    (p : PortData) (d : ℕ)
    → p.reply_len < 255
    → push_reply d p
      ≡ record p { reply_buf = set p.reply_buf p.reply_len d; reply_len = suc p.reply_len }
unfolding push_reply
push_reply-fits p d h = ground arith

push_reply-Pushed :
    (p : PortData) (d : ℕ)
    → p.reply_len < 255
    → length p.reply_buf ≡ 255
    → Pushed d p (push_reply d p)
push_reply-Pushed p d h l =
    let e = push_reply-fits p d h in
    record {
      last = ap replies e ∙ take-set p.reply_buf p.reply_len d (omega arith);
      count = ap (λ q. q.reply_len) e ∙ omega arith;
      size = ap (λ q. length q.reply_buf) e ∙ length-set p.reply_buf p.reply_len d ∙ l;
      kept = ap (λ q. q.uart_buf) e;
    }

copy_uart-replies :
    (n : ℕ) (p : PortData)
    → p.reply_len + n ≤ 255
    → length p.reply_buf ≡ 255
    → replies (copy_uart n p) ≡ replies p ++ ring p.uart_buf.rx_bytes p.uart_buf.tail n
unfolding copy_uart
copy_uart-replies zero p h l = sym (append-nil (replies p))
copy_uart-replies (suc n) p h l =
    let x = get_or p.uart_buf.rx_bytes p.uart_buf.tail 0 in
    let q = push_reply x p in
    let w = push_reply-Pushed p x (omega arith) l in
    let b = record (p.uart_buf) { tail = (p.uart_buf.tail + 1) % uart_rx_size } in
    copy_uart-replies n (record q { uart_buf = b }) (omega (arith, w.count)) w.size
    ∙ ap (λ r. r ++ ring p.uart_buf.rx_bytes ((p.uart_buf.tail + 1) % uart_rx_size) n) w.last
    ∙ append_assoc (replies p) (x ∷ [])
        (ring p.uart_buf.rx_bytes ((p.uart_buf.tail + 1) % uart_rx_size) n)

copy_uart-count : (n : ℕ) (p : PortData) → (copy_uart n p).uart_buf.buf_len ≡ p.uart_buf.buf_len
unfolding copy_uart
copy_uart-count zero p = refl
copy_uart-count (suc n) p =
    let b = record (p.uart_buf) { tail = (p.uart_buf.tail + 1) % uart_rx_size } in
    copy_uart-count n
      (record (push_reply (get_or p.uart_buf.rx_bytes p.uart_buf.tail 0) p) { uart_buf = b })

-- Where the reply buffer has room for them, `drain_uart` appends to the replies the byte 0xD0, the
-- number of bytes that wait and these bytes in the order in which they came; then none waits.
drain_uart-replies :
    (p : PortData)
    → p.reply_len + p.uart_buf.buf_len + 2 ≤ 255
    → length p.reply_buf ≡ 255
    → (replies (drain_uart p)
        ≡ replies p ++ reply_uart_rx ∷ p.uart_buf.buf_len ∷ waiting p.uart_buf)
      × ((drain_uart p).uart_buf.buf_len ≡ 0)
unfolding drain_uart
drain_uart-replies p h l =
    let n = p.uart_buf.buf_len in
    let q = push_reply reply_uart_rx p in
    let w = push_reply-Pushed p reply_uart_rx (omega arith) l in
    let r = push_reply n q in
    let u = push_reply-Pushed q n (omega (arith, w.count)) w.size in
    let kept = u.kept ∙ w.kept in
    (
      copy_uart-replies n r (omega (arith, w.count, u.count)) u.size
          ∙ ap₂ (λ l b. l ++ ring (b.rx_bytes) (b.tail) n) (u.last ∙ ap (λ l. l ++ n ∷ []) w.last)
              kept
          ∙ append_assoc (replies p ++ reply_uart_rx ∷ []) (n ∷ []) (waiting p.uart_buf)
          ∙ append_assoc (replies p) (reply_uart_rx ∷ []) (n ∷ waiting p.uart_buf),
      omega (arith, copy_uart-count n r ∙ ap (λ b. b.buf_len) kept),
    )
