-- ===== src/UsbExec/Gather.antt =====
-- `read_until` of soc/usbexecd.c, however the kernel cuts the bytes.
use t2_firmware.Prelude.{
  ℕ, zero, suc, ◌+◌, ◌-◌, ◌≤◌, ◌<◌, ◌≡◌, refl, ap, ◌∙◌, List, [], ◌∷◌, ◌++◌, arith, length, take,
  drop, sym, append_assoc, dec_lt, take-append-drop, length-take, length-append,
}
use t2_firmware.UsbExec.{Read, got, again, failed, ok, bytes}
use t2_firmware.UsbExec.Pipe.{read_until, prepend, left_over}

-- Each `read` returns at least a byte or EAGAIN.
abbrev pub AllBytes : List Read → Type 0
AllBytes [] = Unit {0}
AllBytes (got [] ∷ rs) = ⊥
AllBytes (failed ∷ rs) = ⊥
AllBytes (_ ∷ rs) = AllBytes rs

-- the bytes that come
abbrev pub stream : List Read → List ℕ
stream [] = []
stream (got xs ∷ rs) = xs ++ stream rs
stream (_ ∷ rs) = stream rs

pub record Gathers (n : ℕ) (rs : List Read) : Type 0 where
  pub read : List ℕ
  pub rest : List Read
  pub returns : read_until rs n ≡ ok (bytes read, rest)
  pub count : length read ≡ n
  pub all_bytes : AllBytes rest
  pub in_order : stream rs ≡ read ++ stream rest

pub left-Gathers :
    {n : ℕ} {rs : List Read} (s : Gathers n rs) → length (stream rs) ≡ n + length (stream s.rest)
left-Gathers s =
    ap length s.in_order
    ∙ length-append s.read (stream s.rest)
    ∙ ap (λ k. k + length (stream s.rest)) s.count

nothing : (rs : List Read) (n : ℕ) → AllBytes rs → n ≡ 0 → Gathers n rs
unfolding read_until
nothing [] n a h = record {
  read = [];
  rest = [];
  returns = ground arith;
  count = omega arith;
  all_bytes = a;
  in_order = refl;
}
nothing (again ∷ rs) n a h = record {
  read = [];
  rest = again ∷ rs;
  returns = ground arith;
  count = omega arith;
  all_bytes = a;
  in_order = refl;
}
nothing (failed ∷ rs) n a h = elim a [ ]
nothing (got [] ∷ rs) n a h = elim a [ ]
nothing (got (x ∷ xs) ∷ rs) n a h = record {
  read = [];
  rest = got (x ∷ xs) ∷ rs;
  returns = ground arith;
  count = omega arith;
  all_bytes = a;
  in_order = refl;
}

read_until-again : (rs : List Read) (n : ℕ) → 0 < n → read_until (again ∷ rs) n ≡ read_until rs n
unfolding read_until
read_until-again rs n h = ground arith

read_until-short :
    (x : ℕ) (xs : List ℕ) (rs : List Read) (n : ℕ)
    → length (x ∷ xs) < n
    → read_until (got (x ∷ xs) ∷ rs) n ≡ prepend (x ∷ xs) (read_until rs (n - length (x ∷ xs)))
unfolding read_until
read_until-short x xs rs n h = ground arith

read_until-long :
    (x : ℕ) (xs : List ℕ) (rs : List Read) (n : ℕ)
    → 0 < n
    → n ≤ length (x ∷ xs)
    → read_until (got (x ∷ xs) ∷ rs) n
      ≡ ok (bytes (take n (x ∷ xs)), left_over (drop n (x ∷ xs)) rs)
unfolding read_until
read_until-long x xs rs n k h = ground arith

stream-left_over : (ys : List ℕ) (rs : List Read) → stream (left_over ys rs) ≡ ys ++ stream rs
stream-left_over [] rs = refl
stream-left_over (y ∷ ys) rs = refl

left_over-AllBytes : (ys : List ℕ) (rs : List Read) → AllBytes rs → AllBytes (left_over ys rs)
left_over-AllBytes [] rs a = a
left_over-AllBytes (y ∷ ys) rs a = a

-- If no `read` fails, the socket stays open and `n` bytes come, `read_until` returns exactly the next `n` bytes, and
-- leaves the others.
pub read_until-Gathers :
    (rs : List Read) (n : ℕ) → AllBytes rs → n ≤ length (stream rs) → Gathers n rs
unfolding prepend
read_until-Gathers [] n a h = nothing [] n a (omega arith)
read_until-Gathers (failed ∷ rs) n a h = elim a [ ]
read_until-Gathers (got [] ∷ rs) n a h = elim a [ ]
read_until-Gathers (r ∷ rs) zero a h = nothing (r ∷ rs) 0 a refl
read_until-Gathers (again ∷ rs) (suc n) a h =
    let s = read_until-Gathers rs (suc n) a h in
    record {
      read = s.read;
      rest = s.rest;
      returns = read_until-again rs (suc n) (omega arith) ∙ s.returns;
      count = s.count;
      all_bytes = s.all_bytes;
      in_order = s.in_order;
    }
read_until-Gathers (got (x ∷ xs) ∷ rs) (suc n) a h = elim (dec_lt (length (x ∷ xs)) (suc n)) [
  | yes k ↦
      let s =
        read_until-Gathers rs (suc n - length (x ∷ xs)) a
          (omega (arith, length-append (x ∷ xs) (stream rs))) in
      record {
        read = (x ∷ xs) ++ s.read;
        rest = s.rest;
        returns = read_until-short x xs rs (suc n) k ∙ ap (prepend (x ∷ xs)) s.returns;
        count = omega (arith, length-append (x ∷ xs) s.read, s.count);
        all_bytes = s.all_bytes;
        in_order =
            ap (λ l. (x ∷ xs) ++ l) s.in_order ∙ sym (append_assoc (x ∷ xs) s.read (stream s.rest));
      }
  | no k ↦ record {
    read = take (suc n) (x ∷ xs);
    rest = left_over (drop (suc n) (x ∷ xs)) rs;
    returns = read_until-long x xs rs (suc n) (omega arith) (omega arith);
    count = omega (arith, length-take (suc n) (x ∷ xs));
    all_bytes = left_over-AllBytes (drop (suc n) (x ∷ xs)) rs a;
    in_order =
        ap (λ l. l ++ stream rs) (sym (take-append-drop (suc n) (x ∷ xs)))
        ∙ append_assoc (take (suc n) (x ∷ xs)) (drop (suc n) (x ∷ xs)) (stream rs)
        ∙ ap (λ l. take (suc n) (x ∷ xs) ++ l) (sym (stream-left_over (drop (suc n) (x ∷ xs)) rs));
  }
]
