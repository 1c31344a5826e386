-- ===== src/Port.antt =====
-- firmware/port.c: the command interpreter of a module port. `PortData` keeps the fields of the
-- struct in firmware/firmware.h that the code changes; the board's constants are `Config`. Calls
-- into the bridge and the peripherals are entries of `calls`, the latest first. What the hardware
-- answers (`Hw`) may depend on all calls made before.
pub mod Begin
pub mod Continue
pub mod Step
pub mod Events
pub mod Live
pub mod Termination
pub mod Sound
pub mod Run
pub mod Analog
pub mod Uart
pub mod Echo
mod Tests
use t2_firmware.Prelude.{
  ℕ, ◌+◌, ◌-◌, ◌%◌, ◌^◌, List, [], ◌∷◌, ◌++◌, Bool, true, false, Option, none, some, ltb, leb, ◌==◌,
  if◌then◌else◌, set, get_or, test_bit,
}

pub data PortState : Type 0 where
  disable read_cmd read_arg exec exec_async : PortState

pub data PortMode : Type 0 where
  no_mode spi i2c uart : PortMode

-- `PortCmd`, as the switch statements see a command byte
pub data Cmd : Type 0 where
  nop flush echo gpio_in gpio_high gpio_low gpio_toggle gpio_pull gpio_cfg gpio_wait gpio_int : Cmd
  gpio_input gpio_raw_read analog_read analog_write enable_spi disable_spi enable_i2c : Cmd
  disable_i2c enable_uart disable_uart tx rx txrx start stop pwm_duty_cycle pwm_period : Cmd
  unknown : Cmd

abbrev cmd_table : List (ℕ × Cmd)
cmd_table =
    (0, nop)
    ∷ (1, flush)
    ∷ (2, echo)
    ∷ (3, gpio_in)
    ∷ (4, gpio_high)
    ∷ (5, gpio_low)
    ∷ (21, gpio_toggle)
    ∷ (26, gpio_pull)
    ∷ (6, gpio_cfg)
    ∷ (7, gpio_wait)
    ∷ (8, gpio_int)
    ∷ (22, gpio_input)
    ∷ (23, gpio_raw_read)
    ∷ (24, analog_read)
    ∷ (25, analog_write)
    ∷ (10, enable_spi)
    ∷ (11, disable_spi)
    ∷ (12, enable_i2c)
    ∷ (13, disable_i2c)
    ∷ (14, enable_uart)
    ∷ (15, disable_uart)
    ∷ (16, tx)
    ∷ (17, rx)
    ∷ (18, txrx)
    ∷ (19, start)
    ∷ (20, stop)
    ∷ (27, pwm_duty_cycle)
    ∷ (28, pwm_period)
    ∷ []

find_cmd : List (ℕ × Cmd) → ℕ → Cmd
find_cmd [] b = unknown
find_cmd ((n, c) ∷ t) b = if n == b then c else find_cmd t b

unfoldable pub decode : ℕ → Cmd
unfolding find_cmd
decode b = find_cmd cmd_table b

-- the bytes of `PortReply`
abbrev pub reply_high : ℕ
reply_high = 0x82

abbrev pub reply_low : ℕ
reply_low = 0x83

abbrev pub reply_data : ℕ
reply_data = 0x84

abbrev pub reply_pin_change : ℕ
reply_pin_change = 0xC0

abbrev pub reply_uart_rx : ℕ
reply_uart_rx = 0xD0

abbrev pub buf_size : ℕ
buf_size = 255

abbrev pub u8 : ℕ → ℕ
u8 n = n % 256

-- A `u32` difference of two bytes.
abbrev pub sub32 : ℕ → ℕ → ℕ
sub32 a b = (a + 2 ^ 32 - b) % 2 ^ 32

-- A pin of the port's table `gpio`: scl, sda, sck, miso, mosi, tx, rx and g3 are 0 to 7.
pub data Pin : Type 0 where
  gpio : ℕ → Pin
  power dac_pin : Pin

pub data Call : Type 0 where
  bridge_start_out bridge_enable bridge_disable : (chan : ℕ) → Call
  bridge_start_in : (chan len : ℕ) → Call
  pin_in pin_out pin_high pin_low pin_toggle pin_pull_up pin_pull_down pin_float : Pin → Call
  pin_mux pin_mux_eic pin_gpio : Pin → Call
  eic_config : Pin → ℕ → Call
  eic_enable eic_disable tcc_enable tcc_disable : Call
  eic_clear : ℕ → Call
  clock_enable : ℕ → Call
  spi_init : Bool → Bool → ℕ → Call
  i2c_init uart_init : ℕ → Call
  dma_configure_tx dma_configure_rx dma_enable_tx_interrupt dma_enable_rx_interrupt : Call
  dma_start_rx dma_start_tx : Option ℕ → (size : ℕ) → Call
  uart_start_tx : (pos size : ℕ) → Call
  dma_abort_tx dma_abort_rx sercom_reset : Call
  i2c_address i2c_write i2c_read_next i2c_stop : ℕ → Call
  i2c_await_master i2c_await_slave i2c_await_error i2c_clear : Call
  uart_rx_on uart_rx_off delay_enable delay_disable delay_start : Call
  dac_write : ℕ → Call
  pwm_duty : Pin → ℕ → Call
  pwm_set_period : ℕ → ℕ → ℕ → Call
  irq_enable : Call
  invalid : Call

-- `TesselPort`: the external interrupt of each pin, and the mask of those that the port may use
pub record Config : Type 0 where
  pub extint : ℕ → ℕ
  pub pin_interrupts : ℕ

-- `port_pin_supports_interrupt`
abbrev pub supports_interrupt : Config → ℕ → Bool
supports_interrupt c i = test_bit c.pin_interrupts (c.extint i)

-- what the hardware answers after the given calls
pub record Hw : Type 0 where
  pub level : List Call → ℕ → Bool
  pub adc : List Call → ℕ → ℕ
  pub i2c_data : List Call → ℕ
  pub eic_mode : List Call → ℕ → ℕ

-- `UartBuf`
pub record UartBuf : Type 0 where
  pub head : ℕ
  pub tail : ℕ
  pub buf_len : ℕ
  pub rx_bytes : List ℕ

abbrev pub uart_rx_size : ℕ
uart_rx_size = 32

pub record PortData : Type 0 where
  pub cmd_buf : List ℕ
  pub reply_buf : List ℕ
  pub chan : ℕ
  pub state : PortState
  pub mode : PortMode
  pub cmd_len : ℕ
  pub cmd_pos : ℕ
  pub reply_len : ℕ
  pub cmd : ℕ
  pub arg : List ℕ
  pub arg_len : ℕ
  pub arg_pos : ℕ
  pub pending_out : Bool
  pub pending_in : Bool
  pub uart_buf : UartBuf
  pub calls : List Call

abbrev pub arg_at : PortData → ℕ → ℕ
arg_at p i = get_or p.arg i 0

-- one more call
abbrev pub log : Call → PortData → PortData
log c p = record p { calls = c ∷ p.calls }

-- `port_error`
unfoldable pub port_error : PortData → PortData
port_error p = log (bridge_disable p.chan) p

-- `p->reply_buf[p->reply_len++] = d` with no check. `reply_buf` has 255 bytes, so a store at index
-- 255, the largest that a byte can hold, hits the next byte of the struct, which is `chan`.
unfoldable pub push_reply : ℕ → PortData → PortData
push_reply d p =
    if ltb p.reply_len buf_size
    then record p { reply_buf = set p.reply_buf p.reply_len d; reply_len = u8 (p.reply_len + 1) }
    else record p { chan = d; reply_len = u8 (p.reply_len + 1) }

-- `port_send_status`
unfoldable pub send_status : ℕ → PortData → PortData
unfolding port_error push_reply
send_status d p = if leb buf_size p.reply_len then port_error p else push_reply d p

-- `port_cmd_args`; for an unknown command the code also calls `invalid` (in `Step.begin`)
abbrev pub cmd_args : Cmd → ℕ
cmd_args nop = 0
cmd_args flush = 0
cmd_args disable_spi = 0
cmd_args disable_i2c = 0
cmd_args disable_uart = 0
cmd_args stop = 0
cmd_args analog_write = 2
cmd_args enable_spi = 3
cmd_args enable_uart = 2
cmd_args pwm_duty_cycle = 3
cmd_args pwm_period = 3
cmd_args unknown = 0
cmd_args _ = 1

-- `port_tx_len`, `port_rx_len` and `port_txrx_len`
abbrev pub smaller : ℕ → ℕ → ℕ
smaller size remaining = if ltb remaining size then remaining else size

unfoldable pub tx_len : PortData → ℕ
tx_len p = smaller (arg_at p 0) (sub32 p.cmd_len p.cmd_pos)

unfoldable pub rx_len : PortData → ℕ
rx_len p = smaller (arg_at p 0) (sub32 buf_size p.reply_len)

unfoldable pub txrx_len : PortData → ℕ
txrx_len p = smaller (smaller (arg_at p 0) (sub32 p.cmd_len p.cmd_pos)) (sub32 buf_size p.reply_len)

-- `port_selected_pin`
abbrev pub selected_pin : PortData → Pin
selected_pin p = gpio (arg_at p 0 % 8)
