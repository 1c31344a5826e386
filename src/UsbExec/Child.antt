-- ===== src/UsbExec/Child.antt =====
-- `child` of soc/usbexecd.c: the new process reads its command line from the control pipe and
-- splits it into arguments. A C string is the list of its bytes, without the final 0.
pub mod Args
use t2_firmware.Prelude.{
  ℕ, suc, ◌+◌, ◌-◌, List, [], ◌∷◌, ◌++◌, map, Bool, true, false, ltb, leb, ◌==◌, if◌then◌else◌,
  take, drop, length, is_empty,
}
use t2_firmware.UsbExec.{Read, got, again, failed, Res, ok, stop, fatal, waiting, ◌>>=◌}

-- `MAX_COMMAND_LEN - 1` and `MAX_CTRL_ARGS`
abbrev pub max_command : ℕ
max_command = 1023

abbrev pub max_args : ℕ
max_args = 255

-- the read loop; a `read` of no bytes returns 0, which ends it as the end of the file does
unfoldable pub read_command : List Read → List ℕ → Res (List ℕ)
read_command [] cmd = if leb max_command (length cmd) then ok cmd else stop waiting
read_command (got xs ∷ rs) cmd =
    let ys = take (max_command - length cmd) xs in
    let rest = read_command rs (cmd ++ ys) in if is_empty ys then ok cmd else rest
read_command (_ ∷ rs) cmd = if leb max_command (length cmd) then ok cmd else stop fatal

-- the loop that finds where the arguments start: `bs` is the rest of the command from `i` on
unfoldable pub scan : List ℕ → ℕ → ℕ → List ℕ
scan [] i argc = []
scan (b ∷ bs) i argc =
    let rest = scan bs (suc i) (if b == 0 then suc argc else argc) in
    if ltb argc max_args then (if b == 0 then suc i ∷ rest else rest) else []

-- the bytes up to a 0
abbrev pub c_string : List ℕ → List ℕ
c_string [] = []
c_string (b ∷ bs) = if b == 0 then [] else b ∷ c_string bs

abbrev pub string_at : List ℕ → ℕ → List ℕ
string_at cmd i = c_string (drop i cmd)

-- what `execvp` gets
unfoldable pub argv : List ℕ → List (List ℕ)
unfolding scan
argv cmd = map (string_at cmd) (0 ∷ scan cmd 0 1)

-- `child`: the command that is read, as the arguments of the call of `execvp`
unfoldable pub child : List Read → Res (List (List ℕ))
unfolding read_command argv
child rs = read_command rs [] >>= λ cmd. ok (argv cmd)
