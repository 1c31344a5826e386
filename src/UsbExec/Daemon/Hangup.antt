-- ===== src/UsbExec/Daemon/Hangup.antt =====
-- When the handlers of soc/usbexecd.c take the host's socket for closed.
use t2_firmware.Prelude.{
  ℕ, zero, suc, ◌-◌, ◌≡◌, sym, subst, not, ◌∙◌, refl, List, [], ◌∷◌, length, drop, Bool, true,
  false, if◌then◌else◌, ◌==◌, ltb, leb, ◌||◌, ◌&&◌, ◌^◌, arith,
}
use t2_firmware.UsbExec.{
  PipeBuf, Io, Read, got, again, failed, Res, ok, stop, ◌>>=◌, undefined, Gathered, bytes,
  end_of_file,
}
use t2_firmware.UsbExec.Filling.{after_read, fill-step}
use t2_firmware.UsbExec.Pipe.{read_until, prepend, left_over, add_epoll, until_end}
use t2_firmware.UsbExec.Input.{After, kept, hung_up, in_ack, after_size, grant, decode}
use t2_firmware.UsbExec.Output.{fill, fill_with, out_receive}

-- What holds of the result if a function returns one.
abbrev pub Ensures {ℓ} : {A : Type ℓ} → (A → Type 0) → Res A → Type 0
Ensures P (ok a) = P a
Ensures P (stop e) = Unit {0}

pub >>=-Ensures {ℓ κ} :
    {A : Type ℓ} {B : Type κ} (P : B → Type 0) (m : Res A) (f : A → Res B)
    → ((a : A) → Ensures P (f a))
    → Ensures P (m >>= f)
>>=-Ensures P (ok a) f h = h a
>>=-Ensures P (stop e) f h = tt

-- the same if something is known of the first result
pub >>=-Ensures_from {ℓ κ} :
    {A : Type ℓ} {B : Type κ} (Q : A → Type 0) (P : B → Type 0) (m : Res A) (f : A → Res B)
    → Ensures Q m
    → ((a : A) → Q a → Ensures P (f a))
    → Ensures P (m >>= f)
>>=-Ensures_from Q P (ok a) f q h = h a q
>>=-Ensures_from Q P (stop e) f q h = tt

pub if-Ensures {ℓ} :
    {A : Type ℓ} (P : A → Type 0) (b : Bool) (x y : Res A)
    → Ensures P x
    → Ensures P y
    → Ensures P (if b then x else y)
if-Ensures P true x y h k = h
if-Ensures P false x y h k = k

-- Some `read` of the socket returns 0: the host has hung up.
abbrev pub ends : List Read → Bool
ends [] = false
ends (got [] ∷ rs) = true
ends (_ ∷ rs) = ends rs

abbrev Told : List Read → Gathered × List Read → Type 0
Told rs (bytes xs, rest) = ends rest ≡ true → ends rs ≡ true
Told rs (end_of_file, rest) = ends rs ≡ true

ends-left_over : (ys : List ℕ) (rs : List Read) → ends (left_over ys rs) ≡ ends rs
ends-left_over [] rs = refl
ends-left_over (y ∷ ys) rs = refl

prepend-Told :
    (xs : List ℕ) (rs : List Read) (r : Res (Gathered × List Read))
    → Ensures (Told rs) r
    → Ensures (Told rs) (prepend xs r)
unfolding prepend
prepend-Told xs rs (ok (bytes ys, rest)) h = h
prepend-Told xs rs (ok (end_of_file, rest)) h = h
prepend-Told xs rs (stop e) h = tt

read_until-Told : (rs : List Read) (n : ℕ) → Ensures (Told rs) (read_until rs n)
unfolding read_until
read_until-Told [] n = if-Ensures (Told []) (n == 0) _ _ (λ e. e) tt
read_until-Told (again ∷ rs) n =
    if-Ensures (Told (again ∷ rs)) (n == 0) _ _ (λ e. e) (read_until-Told rs n)
read_until-Told (failed ∷ rs) n = if-Ensures (Told (failed ∷ rs)) (n == 0) _ _ (λ e. e) tt
read_until-Told (got [] ∷ rs) n = if-Ensures (Told (got [] ∷ rs)) (n == 0) _ _ (λ e. e) refl
read_until-Told (got (x ∷ xs) ∷ rs) n =
    let P = Told (got (x ∷ xs) ∷ rs) in
    if-Ensures P (n == 0) _ _ (λ e. e)
      (if-Ensures P (ltb (length (x ∷ xs)) n) _ _
        (prepend-Told (x ∷ xs) (got (x ∷ xs) ∷ rs) (read_until rs (n - length (x ∷ xs)))
          (read_until-Told rs (n - length (x ∷ xs))))
        (λ e. sym (ends-left_over (drop n (x ∷ xs)) rs) ∙ e))

-- The socket is taken for closed only if the host has hung up.
abbrev pub Hung : List Read → After × Io → Type 0
Hung rs (kept q, io) = Unit {0}
Hung rs (hung_up, io) = ends rs ≡ true

after_size-Hung :
    (rs rest : List Read) (g : Gathered) (p : PipeBuf) (io : Io)
    → Told rs (g, rest)
    → Ensures (Hung rs) (after_size g p io)
unfolding after_size
after_size-Hung rs rest end_of_file p io h = h
after_size-Hung rs rest (bytes xs) p io h =
    if-Ensures (Hung rs) (ltb 4 (length xs) || leb (2 ^ 31) (decode xs)) (stop undefined) _ tt
      (>>=-Ensures (Hung rs) (grant (decode xs) p io) (λ (q, io'). ok (kept q, io')) (λ a. tt))

pub in_ack-Hung : (n : ℕ) (p : PipeBuf) (io : Io) → Ensures (Hung io.reads) (in_ack n p io)
unfolding in_ack
in_ack-Hung n p io =
    >>=-Ensures_from (Told io.reads) (Hung io.reads) (read_until io.reads n)
      (λ (g, rs). after_size g p (record io { reads = rs })) (read_until-Told io.reads n)
      (λ (g, rs) h. after_size-Hung io.reads rs g p (record io { reads = rs }) h)

weaken-Hung :
    (rs rest : List Read) (r : Res (After × Io))
    → (ends rest ≡ true → ends rs ≡ true)
    → Ensures (Hung rest) r
    → Ensures (Hung rs) r
weaken-Hung rs rest (ok (kept q, io)) h k = tt
weaken-Hung rs rest (ok (hung_up, io)) h k = h k
weaken-Hung rs rest (stop e) h k = tt

read-Hung :
    (f n : ℕ) (p : PipeBuf) (io : Io) (x : Gathered × List Read)
    → ((q : PipeBuf) (io' : Io)
        → Ensures (Hung io'.reads) (fill f (n - until_end p.endpos n) q io'))
    → Told io.reads x
    → Ensures (Hung io.reads) (after_read f n p io x)
unfolding fill_with after_read
read-Hung f n p io (end_of_file, rs) k h = h
read-Hung f n p io (bytes xs, rs) k h = weaken-Hung io.reads rs _ h (k _ _)

fill-Hung : (f n : ℕ) (p : PipeBuf) (io : Io) → Ensures (Hung io.reads) (fill f n p io)
unfolding fill
fill-Hung zero n p io = if-Ensures (Hung io.reads) (n == 0) (ok (kept p, io)) _ tt tt
fill-Hung (suc f) zero p io = tt
fill-Hung (suc f) (suc n) p io =
    subst (Ensures (Hung io.reads)) (sym (fill-step f (suc n) p io (omega arith))) (
      >>=-Ensures_from (Told io.reads) (Hung io.reads)
        (read_until io.reads (until_end p.endpos (suc n))) (after_read f (suc n) p io)
        (read_until-Told io.reads (until_end p.endpos (suc n)))
        (λ x. read-Hung f (suc n) p io x (fill-Hung f (suc n - until_end p.endpos (suc n)))))

pub out_receive-Hung :
    (n : ℕ) (p : PipeBuf) (io : Io) → Ensures (Hung io.reads) (out_receive n p io)
unfolding out_receive add_epoll
out_receive-Hung n p io =
    let P = Hung io.reads in
    let f = λ (x : PipeBuf × Io). fill n n x.0 x.1 in
    if-Ensures P p.eof _ _ tt (
      >>=-Ensures_from (λ x. x.1.reads ≡ io.reads) P
        (if p.bufcount == 0 && ltb 0 n then add_epoll p io else ok (p, io)) f
        (if-Ensures (λ x. x.1.reads ≡ io.reads) (p.bufcount == 0 && ltb 0 n) _ _
          (if-Ensures (λ x. x.1.reads ≡ io.reads) (p.polled || not p.is_open) _ _ tt refl) refl)
        (λ (q, io') e. subst (λ rs. Ensures (Hung rs) (fill n n q io')) e (fill-Hung n n q io')))
