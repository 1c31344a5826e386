-- ===== src/Boot/Blocks.antt =====
-- The blocks of a download of boot/main.c, packet by packet.
use t2_firmware.Prelude.{
  ℕ, zero, suc, ◌+◌, ◌-◌, ◌*◌, ◌%◌, ◌≤◌, ◌<◌, ◌≡◌, refl, ap, sym, subst, dec_lt, ◌∙◌, ◌⊎◌, inl, inr,
  List, [], ◌∷◌, ◌++◌, arith, take, drop, length, get_or, length-take, length-drop,
}
use t2_firmware.Common.Nvm.{
  Nvm, IsNvm, AllBytes, erase_row, erase_row_lem, erase_row_keeps, erase_row_clear, write_page,
  write_page_lem, write_page_keeps, write_page_clear,
}
use t2_firmware.Boot.{
  Loader, fw_start, fw_size, dnload_block, run_event, run_events, Event, announced, received,
  packets, blocks,
}
use t2_firmware.Boot.Parts.{get_or-take, get_or-drop, AllBytes-take, AllBytes-drop, take_short}

module _ {n : Nvm} where
  pub run_events-append :
      (es fs : List Event) (s : Loader n)
      → run_events (es ++ fs) s ≡ run_events fs (run_events es s)
  unfolding run_events
  run_events-append [] fs s = refl
  run_events-append (e ∷ es) fs s = run_events-append es fs (run_event e s)

-- After some events: the bytes `xs` are at `base`, and what is below `base` or from `top` on is as it
-- was.
pub record Stored {n : Nvm} (base top : ℕ) (xs : List ℕ) (s t : Loader n) : Type 0 where
  pub content : (i : ℕ) → i < length xs → n.read t.memory (base + i) ≡ get_or xs i 0
  pub kept : (a : ℕ) → (a < base) ⊎ (top ≤ a) → n.read t.memory a ≡ n.read s.memory a
  pub clear : n.IsClear t.memory
  pub no_errors : t.errors ≡ s.errors
  pub jump_same : t.exit_and_jump ≡ s.exit_and_jump

-- two parts of some bytes, one after the other
Stored-split :
    {n : Nvm} (base top m : ℕ) (xs : List ℕ) (s t u : Loader n)
    → base + m ≤ top
    → Stored base (base + m) (take m xs) s t
    → Stored (base + m) top (drop m xs) t u
    → Stored base top xs s u
Stored-split {n} base top m xs s t u l v w = record {
  content = λ i h. elim (dec_lt i m) [
    | yes k ↦
        w.kept (base + i) (inl (omega arith))
        ∙ v.content i (omega (arith, length-take m xs))
        ∙ get_or-take m i xs k
    | no k ↦ second i h (omega arith)
  ];
  kept = λ a h. elim h [
    | inl p ↦ w.kept a (inl (omega arith)) ∙ v.kept a (inl p)
    | inr p ↦ w.kept a (inr p) ∙ v.kept a (inr (omega arith))
  ];
  clear = w.clear;
  no_errors = w.no_errors ∙ v.no_errors;
  jump_same = w.jump_same ∙ v.jump_same;
}
  where
    second : (i : ℕ) → i < length xs → m ≤ i → n.read u.memory (base + i) ≡ get_or xs i 0
    second i h k =
        let e : base + i ≡ base + m + (i - m) = omega arith in
        let f : m + (i - m) ≡ i = omega arith in
        ap (n.read u.memory) e
        ∙ w.content (i - m) (omega (arith, length-drop m xs))
        ∙ get_or-drop m (i - m) xs
        ∙ ap (λ j. get_or xs j 0) f

-- where a packet goes
abbrev pub packet_start : ℕ → ℕ → ℕ
packet_start block offset = fw_start + block * 256 + offset

module _ {n : Nvm} (laws : IsNvm n) where
  packet-Stored :
      (block offset : ℕ) (xs : List ℕ) (s : Loader n)
      → offset % 64 ≡ 0
      → length xs ≤ 64
      → AllBytes xs
      → n.IsClear s.memory
      → ((i : ℕ) → i < length xs → n.read s.memory (packet_start block offset + i) ≡ 255)
      → Stored
          (packet_start block offset)
          (packet_start block offset + 64)
          xs
          s
          (run_event (received block offset xs) s)
  unfolding run_event
  packet-Stored block offset xs s e l b c r =
      let base : ℕ = packet_start block offset in
      let q : take (length xs % 256) xs ≡ xs = take_short (length xs % 256) xs (omega arith) in
      let t = record s { memory = write_page n base xs s.memory } in
      let v : Stored base (base + 64) xs s t = record {
        content = λ i h. write_page_lem n laws base xs s.memory (omega arith) l c i b h (r i h);
        kept = λ a h. write_page_keeps n laws base xs s.memory (omega arith) l c a h;
        clear = write_page_clear n laws base xs s.memory (omega arith) l c;
        no_errors = refl;
        jump_same = refl;
      } in
      subst
        (λ ys. Stored base (base + 64) xs s (record s { memory = write_page n base ys s.memory }))
        (sym q) v

  nothing-Stored : (base top : ℕ) (s : Loader n) → n.IsClear s.memory → Stored base top [] s s
  nothing-Stored base top s c = record {
    content = λ i h. absurd (omega arith);
    kept = λ a h. refl;
    clear = c;
    no_errors = refl;
    jump_same = refl;
  }

  packets-Stored :
      (k block offset : ℕ) (xs : List ℕ) (s : Loader n)
      → offset % 64 ≡ 0
      → offset + 64 * k ≤ 256
      → length xs ≤ 64 * k
      → AllBytes xs
      → n.IsClear s.memory
      → ((a : ℕ)
          → packet_start block offset ≤ a
          → a < packet_start block 256
          → n.read s.memory a ≡ 255)
      → Stored
          (packet_start block offset)
          (packet_start block 256)
          xs
          s
          (run_events (packets k block offset xs) s)
  unfolding run_events
  packets-Stored zero block offset [] s e m l b c r =
      nothing-Stored (packet_start block offset) (packet_start block 256) s c
  packets-Stored zero block offset (x ∷ xs) s e m l b c r = absurd (omega arith)
  packets-Stored (suc k) block offset [] s e m l b c r =
      nothing-Stored (packet_start block offset) (packet_start block 256) s c
  packets-Stored (suc k) block offset (x ∷ xs) s e m l b c r =
      let ys = x ∷ xs in
      let base : ℕ = packet_start block offset in
      let t = run_event (received block offset (take 64 ys)) s in
      let v : Stored base (base + 64) (take 64 ys) s t =
        packet-Stored block offset (take 64 ys) s e (omega (arith, length-take 64 ys))
          (AllBytes-take 64 ys b) c
          (λ i h. r (base + i) (omega arith) (omega (arith, length-take 64 ys))) in
      let w =
        packets-Stored k block (offset + 64) (drop 64 ys) t (omega arith) (omega arith)
          (omega (arith, length-drop 64 ys)) (AllBytes-drop 64 ys b) v.clear
          (λ a h i. v.kept a (inr (omega arith)) ∙ r a (omega arith) i) in
      let q : packet_start block (offset + 64) ≡ base + 64 = omega arith in
      Stored-split base (packet_start block 256) 64 ys s t
        (run_events (packets k block (offset + 64) (drop 64 ys)) t) (omega arith) v
        (subst
          (λ o.
            Stored o (packet_start block 256) (drop 64 ys) t
              (run_events (packets k block (offset + 64) (drop 64 ys)) t))
          q w)

  -- the announcement of a block inside the firmware's part of the memory
  pub announced-erased :
      (block len : ℕ) (s : Loader n)
      → len ≤ 256
      → block * 256 ≤ fw_size
      → run_event (announced block len) s
        ≡ record s { memory = erase_row n (packet_start block 0) s.memory }
  unfolding run_event dnload_block
  announced-erased block len s h k =
      let e : fw_start + block * 256 ≡ packet_start block 0 = omega arith in
      ground (arith, ap (λ a. erase_row n a s.memory) e)

  block-Stored :
      (block : ℕ) (xs : List ℕ) (s : Loader n)
      → length xs ≤ 256
      → block * 256 ≤ fw_size
      → AllBytes xs
      → n.IsClear s.memory
      → Stored
          (packet_start block 0)
          (packet_start block 256)
          xs
          s
          (run_events (announced block (length xs) ∷ packets 4 block 0 xs) s)
  unfolding run_events
  block-Stored block xs s l k b c =
      let base : ℕ = packet_start block 0 in
      let t = record s { memory = erase_row n base s.memory } in
      let w =
        packets-Stored 4 block 0 xs t refl (omega arith) l b
          (erase_row_clear n laws base s.memory (omega arith) c)
          (λ a h i. erase_row_lem n laws base s.memory (omega arith) a h (omega arith)) in
      let v : Stored base (packet_start block 256) xs s (run_events (packets 4 block 0 xs) t) =
        record {
          content = w.content;
          kept =
              λ a h. w.kept a h ∙ erase_row_keeps n laws base s.memory (omega arith) a (beside h);
          clear = w.clear;
          no_errors = w.no_errors;
          jump_same = w.jump_same;
        } in
      subst (λ u. Stored base (packet_start block 256) xs s (run_events (packets 4 block 0 xs) u))
        (sym (announced-erased block (length xs) s l k)) v
    where
      beside :
          {a : ℕ}
          → (a < packet_start block 0) ⊎ (packet_start block 256 ≤ a)
          → (a < packet_start block 0) ⊎ (packet_start block 0 + 256 ≤ a)
      beside (inl h) = inl h
      beside (inr h) = inr (omega arith)

  pub blocks-Stored :
      (k block : ℕ) (xs : List ℕ) (s : Loader n)
      → length xs ≤ 256 * k
      → block * 256 + length xs ≤ fw_size
      → AllBytes xs
      → n.IsClear s.memory
      → Stored (packet_start block 0) (fw_start + fw_size) xs s (run_events (blocks k block xs) s)
  unfolding run_events
  blocks-Stored zero block [] s l m b c =
      nothing-Stored (packet_start block 0) (fw_start + fw_size) s c
  blocks-Stored zero block (x ∷ xs) s l m b c = absurd (omega arith)
  blocks-Stored (suc k) block [] s l m b c =
      nothing-Stored (packet_start block 0) (fw_start + fw_size) s c
  blocks-Stored (suc k) block (x ∷ xs) s l m b c =
      let ys = x ∷ xs in
      let base : ℕ = packet_start block 0 in
      let top : ℕ = fw_start + fw_size in
      let es = announced block (length (take 256 ys)) ∷ packets 4 block 0 (take 256 ys) in
      let rest = blocks k (suc block) (drop 256 ys) in
      let t = run_events es s in
      let p : packet_start block 256 ≡ base + 256 = omega arith in
      let q : packet_start (suc block) 0 ≡ base + 256 = omega arith in
      let v =
        block-Stored block (take 256 ys) s (omega (arith, length-take 256 ys)) (omega arith)
          (AllBytes-take 256 ys b) c in
      let w =
        blocks-Stored k (suc block) (drop 256 ys) t (omega (arith, length-drop 256 ys))
          (omega (arith, length-drop 256 ys)) (AllBytes-drop 256 ys b) v.clear in
      subst (Stored base top ys s) (sym (run_events-append es rest s)) (
        Stored-split base top 256 ys s t (run_events rest t) (omega arith)
          (subst (λ o. Stored base o (take 256 ys) s t) p v)
          (subst (λ o. Stored o top (drop 256 ys) t (run_events rest t)) q w))
