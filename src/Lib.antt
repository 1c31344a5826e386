-- ===== src/Lib.antt =====
-- A verification library for the firmware of the Tessel 2 and the daemons of its SoC.
--
-- The program. A SAMD21 coprocessor (the MCU, firmware/) stands between USB, two module ports and a
-- MediaTek SoC (soc/). The SoC and the MCU talk over SPI: each transaction has a setup phase, in
-- which both send a header with ready bits and sizes, and a data phase, whose transfers the two
-- headers determine. Three channels share the bridge: USB (0) and the ports A (1) and B (2). On the
-- MCU, firmware/bridge.c runs the protocol and calls back the users of the channels: the USB pipe
-- (firmware/usbpipe.c) and the command interpreter of a port (firmware/port.c). On the SoC,
-- soc/spid.c runs it and connects each channel to a Unix socket. With another USB setting the bridge
-- is off and firmware/flash.c gives USB access to the SPI flash; firmware/usb.c switches.
-- firmware/usbserial.c is the terminal. boot/main.c is the MCU's boot loader, to which the host
-- downloads this firmware, and test_rig/ the firmware of the controller that tests the boards in
-- manufacturing; common/ is shared by the three. Behind the socket of the USB channel,
-- soc/usbexecd.c runs processes for the host and carries their standard streams, with a credit for
-- each stream.
--
-- Which file models what. Prelude has the shared names and the lemmas on Boolean tests, lists and
-- bits; Channel the three channels and the arrays that they index.
--   - Bridge: firmware/bridge.c. The globals are the record `Bridge`; `handle_sync` is
--     bridge_handle_sync, `dma_rx_completion` is bridge_dma_rx_completion, with the callbacks of
--     firmware/main.c as its parameter; `start_in`, `start_out`, `enable_chan` and `disable_chan` are
--     the calls of the channel's user. Chain, Sync, Completion and Offers prove its theorems.
--   - Spid: soc/spid.c. `round` is one turn of the loop of main: sockets, setup phase, channel
--     management (`manage`), and data phase. What the kernel and the SPI driver return is an argument.
--   - Transfer: what README.md says of a data phase, from the two headers alone. Protocol: both sides
--     over one transaction.
--   - UsbPipe: firmware/usbpipe.c. The USB peripheral and the bridge act on the buffers that they were
--     given (`usb_delivers`).
--   - Port: firmware/port.c, and the struct PortData of firmware/firmware.h. Port.Begin is
--     port_begin_cmd, Port.Continue is port_continue_cmd, Port.Step is port_step and Port.Events has
--     the entry points that firmware/main.c calls. Live, Termination, Sound, Run, Analog, Uart and Echo
--     have its theorems.
--   - UsbSerial: firmware/usbserial.c, with the two receive buffers named by a Boolean.
--   - Flash: firmware/flash.c, one function per function of the file. Request is its protocol as the
--     opening comment of the source gives it, but with the status bit that the code tests, 0 for the
--     comment's 1; Trace has the theorems.
--   - Firmware: firmware/usb.c's settings and endpoint completions over the bridge, the flash, the pipe
--     and the terminal, with the interrupts of firmware/main.c that they share. Exclusive has the
--     theorems on the shared SERCOM; Requests has the control requests of firmware/usb.c; Led is the
--     animation of firmware/main.c. Ports has the interrupts and bridge callbacks of firmware/main.c
--     that reach the two ports and the pipe, each with the answers of the hardware, which the ports
--     share; Ports.Parts says which part an interrupt is for, and Ports.Spared has the theorem.
--   - UsbExec: soc/usbexecd.c. Pipe has the functions that all pipes share, Input those of stdout
--     and stderr (pipebuf_in_*), Output those of control and stdin (pipebuf_out_*). Ring reads a
--     pipe's buffer as a queue. Refused is about writes that fail. Writing, Packets, Flow, Handled,
--     Reading, Granting and Credit have the theorems of Input, Gather, Filling, Stdin and Draining
--     those of Output. Daemon is the process table and the event loop, with the theorems in
--     Daemon.Header, Daemon.Table and Daemon.Deaths, and Daemon.Hangup on the closing of the socket.
--     An event of a pipe names it by process and role, where the source has its address. Child is the new process up to its execvp, Child.Args has the
--     theorem on its arguments.
--   - Common: Common.Gpio is the pins of common/hw.h, Common.Dma the chains of common/dma.c, with what
--     the DMA controller does with them, and Common.Nvm the program memory of common/nvm.h.
--     The memory's controller is the record `Nvm`, with the laws `IsNvm` of its data sheet, which the
--     memory of Common.Rom keeps.
--   - Boot: boot/main.c. `start` is main, `flash_valid` its test of the firmware, and `dnload_block`,
--     `packet_completed` and `manifest` are the calls dfu_cb_* of the DFU stack. Parts and Blocks are
--     about the packets and the blocks of a download, Download about the whole.
--   - Rig: test_rig/. Button is button.c; Pins is pins.c with the control requests of usb.c, Driving
--     and Levels have its theorems; Dap is dap_hid.c with the completions of usb.c, and Phases, Answers
--     and Exchange have its theorems. The debug library DAP.c is the parameter `Library`.
-- A state has a list `calls` of the calls into hardware and other parts, the latest first. What the
-- hardware answers is a function of the calls before (`Hw`) or an argument of the handler. In UsbExec,
-- the answers of the kernel's read and write are lists, which a loop takes one by one (`Read`,
-- `Write`); a run that would need more ends as `waiting`, and the theorems ask for enough.
--
-- Numbers are natural numbers; a byte that the source lets wrap is taken modulo 256, a u32 modulo
-- 2 ^ 32. Buffers are lists; `set` past the end of a list does nothing, and where the source does
-- write past a buffer (`push_reply` in Port) the model says what it hits.
--
-- Fuel. The loop of port_step runs for at most 512 turns (`step_fuel`). A turn takes a byte of the
-- command buffer, which has at most 255, or ends the payload of a command, so that 2 * 255 + 2 turns
-- are enough. In UsbExec, `send_packets` and `fill` have as much fuel as bytes to move, and each turn
-- moves at least one. In Common.Dma the controller's `walk` has any fuel that suffices for a
-- descriptor each. The other loops are structural.
--
-- Not modelled. The clocks and the registers of the peripherals but for the pins and the DMA chains
-- (common/), the USB stack, which is a submodule, and the descriptors (usb.c of firmware/, boot/ and
-- test_rig/), start-up and the set-up of the LED in firmware/main.c, the set-up of the sockets and
-- signals and the closing of descriptors after the fork in soc/usbexecd.c, the debug library of the
-- test rig (DAP.c, SW_DP.c), which is a copy of another project's, and the JavaScript library. Of
-- boot/main.c, the loop that waits for the download's end. In Firmware the parts keep their calls
-- into each other as entries of `calls`. An interrupt runs to its end before the next; the nesting
-- of the SYNC interrupt in a callback is modelled in Bridge, by a callback that changes the header.
-- An address of a buffer is a number.
pub mod Prelude
pub mod Channel
pub mod Transfer
pub mod Bridge
pub mod Spid
pub mod Protocol
pub mod UsbPipe
pub mod Port
pub mod Flash
pub mod UsbSerial
pub mod UsbExec
pub mod Firmware
pub mod Common
pub mod Boot
pub mod Rig
