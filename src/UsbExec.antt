-- ===== src/UsbExec.antt =====
-- soc/usbexecd.c: the daemon that runs processes on the SoC for the host. The host's packets come
-- over a socket; each process has four pipes with a ring buffer and a credit. A `read` or `write`
-- of the kernel is answered from a list (`Read`, `Write`); all other calls are entries of `calls`,
-- the latest first. A `fatal` of the source, its `exit` and an access outside an array end a run.
pub mod Ring
pub mod Pipe
pub mod Input
pub mod Output
pub mod Writing
pub mod Refused
pub mod Packets
pub mod Flow
pub mod Handled
pub mod Reading
pub mod Granting
pub mod Credit
pub mod Gather
pub mod Filling
pub mod Stdin
pub mod Draining
pub mod Daemon
pub mod Child
mod Tests
use t2_firmware.Prelude.{
  ℕ, ◌+◌, ◌-◌, ◌%◌, ◌^◌, List, [], ◌∷◌, ◌++◌, Bool, true, false, ltb, if◌then◌else◌,
}

-- `enum Roles`
pub data Role : Type 0 where
  ctrl stdin stdout stderr : Role

abbrev pub role_code : Role → ℕ
role_code ctrl = 0
role_code stdin = 1
role_code stdout = 2
role_code stderr = 3

-- `INTERNAL_PIPE_BUF_SIZE`
abbrev pub pipe_size : ℕ
pipe_size = 32768

-- `pipebuf_t`. `is_open` is false if the descriptor is -1; `polled` is whether epoll watches it.
-- `credit` is an int that is only compared with unsigned numbers: it is kept modulo 2 ^ 32.
pub record PipeBuf : Type 0 where
  pub id : ℕ
  pub role : Role
  pub eof : Bool
  pub credit : ℕ
  pub is_open : Bool
  pub polled : Bool
  pub startpos : ℕ
  pub endpos : ℕ
  pub bufcount : ℕ
  pub buffer : List ℕ

-- `int` and `size_t` arithmetic
abbrev pub add32 : ℕ → ℕ → ℕ
add32 a b = (a + b) % 2 ^ 32

abbrev pub sub32 : ℕ → ℕ → ℕ
sub32 a b = (a + 2 ^ 32 - b) % 2 ^ 32

pub data Call : Type 0 where
  header : (cmd id arg len : ℕ) → Call
  ack_size : List ℕ → Call
  sock_data : List ℕ → Call
  pipe_data pipe_read : (id : ℕ) → Role → List ℕ → Call
  sock_read : List ℕ → Call
  epoll_add epoll_del close_fd : (id : ℕ) → Role → Call
  kill : (pid sig : ℕ) → Call
  waitpid : (pid : ℕ) → Call
  fork : (id : ℕ) → Call
  unpoll_sock close_sock accept_sock poll_sock poll_listener unpoll_listener : Call

-- what a `read` returns: bytes (none at the end of the file), EAGAIN or another error
pub data Read : Type 0 where
  got : List ℕ → Read
  again failed : Read

-- what a `write` returns: a number of bytes or -1
pub data Write : Type 0 where
  wrote : ℕ → Write
  refused : Write

-- The socket to the host, the answers to come and the calls made. `sock_broken`: a header or an
-- acknowledgement cannot be written.
pub record Io : Type 0 where
  pub sock_open : Bool
  pub sock_broken : Bool
  pub reads : List Read
  pub writes : List Write
  pub calls : List Call

abbrev pub log : Call → Io → Io
log c io = record io { calls = c ∷ io.calls }

-- Why a run ends. `waiting`: the list of answers is used up.
pub data Stop : Type 0 where
  fatal exit undefined waiting : Stop

pub data Res {ℓ} (A : Type ℓ) : Type ℓ where
  ok : A → Res A
  stop : Stop → Res A

infixl 5 ◌>>=◌
abbrev pub ◌>>=◌ {ℓ κ} : {A : Type ℓ} {B : Type κ} → Res A → (A → Res B) → Res B
ok a >>= f = f a
stop e >>= f = stop e

-- `send_header`
unfoldable pub send_header : ℕ → ℕ → ℕ → ℕ → Io → Res Io
send_header cmd id arg len io =
    if io.sock_open
    then (if io.sock_broken then stop fatal else ok (log (header cmd id arg len) io))
    else ok io

-- the loop of `read_until`: so many bytes, or nothing at the end of the file
pub data Gathered : Type 0 where
  bytes : List ℕ → Gathered
  end_of_file : Gathered
