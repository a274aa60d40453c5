-- ===== src/Lib.antt =====
-- The C code of the Caliptra subsystem's microcontroller (MCU): the host side of its virtual JTAG
-- probe, and the firmware's library for output and for control and status registers.
--
-- The parts, and how they meet. In a simulation OpenOCD connects to a TCP server
-- (src/mcu/test_suites/libs/tcp_server/tcp_server.c) that runs in a thread of its own. It moves
-- bytes between the socket and two ring buffers. The simulation ticks a probe
-- (src/mcu/test_suites/libs/jtagdpi/jtagdpi.c), which takes a command from the one buffer, drives
-- the JTAG pins and puts its response into the other. On the simulated processor the firmware
-- prints through src/integration/test_suites/libs/printf/printf.c and reaches the processor's
-- registers through src/integration/test_suites/libs/caliptra_isr/riscv-csr.h, and those of devices
-- through src/integration/test_suites/libs/riscv_hw_if/riscv_hw_if.h.
--
-- The files, with the names of the C functions kept (camel case written with underscores).
--   Base: the tests on numbers and the lists that all parts share.
--   Tcp/Buffer: `struct tcp_buf`. Tcp/Queue is what it promises, a bounded FIFO queue; Inv, Refine,
--     Spin and Uses under it hold its invariant, its contents, the polling loop and the two
--     threads in turns, where a put that finds no room goes on polling. The loop of
--     `tcp_buffer_put_byte` takes a number of polls, and a function that says what the other thread
--     does to the buffer between two of them.
--   Tcp/Threads: the two threads at the ends of one buffer, as a relation whose steps are the tests
--     and the single assignments; the byte and the pointer of `buf[wptr++] = dat` are stored in
--     either order. Bounds, Inv, Writer and Fifo are about its invariants, Races about a torn store.
--   Tcp/Os: the operating system's calls. They are no part of the repository: a record of functions
--     from the history of calls to an answer stands for them, and so does what the simulation
--     thread does to the buffers while the socket thread runs.
--   Tcp/Server: Monad has the server's state and its failures, Setup has `start`,
--     `client_tryaccept`, `stop` and `tcp_server_client_close`, Transfer has `get_byte`, `put_byte`
--     and the two inner loops, Thread has `server_create` and the interface. Lifecycle and Ends
--     follow the descriptors, Host what the simulation thread leaves of the server, Flow and Pass
--     the bytes that the two inner loops and one pass of the outer one move, Hangup a client that
--     goes away. Loops that wait for the world take a number of rounds.
--   Tcp/Lifetime: the blocks of memory that creating and closing a probe and its server allocate
--     and free, and Freed what is left of them.
--   Jtag: the probe. Jtag/Protocol is the remote_bitbang protocol, written apart from the code.
--     Dispatch, Refine and Session compare one command, one tick and a run of ticks with it. Link
--     composes passes of the server's loop with the ticks. Debug is the waveform of JTAGDPI_DEBUG,
--     which is off: `jtagdpi_tick` is modelled without it.
--   Printf: Digits and Number are the number printers, Format is the interpreter of format strings,
--     Mcycle is `get_mcycle`. Width compares a printed number with a width in a format. Pieces are
--     formats made of characters and directives, and Whole is what is printed for them. The buffer
--     of 20 characters is enough for ten digits. The scans get 12 and 9 rounds for 11 and 8 digits,
--     and the interpreter gets one round more than the format has characters.
--   Firmware: instructions as events of a trace, with the hardware's answers as an argument.
--   Csr: Blocks is a table of the 111 sections of riscv-csr.h, Access has the accessors of any
--     register, Fields compares the field macros with one another.
--   Isr: src/integration/test_suites/libs/caliptra_isr/caliptra_isr.c. Interrupts has the numbers
--     of src/integration/test_suites/libs/caliptra_isr/riscv-interrupts.h. Sources has the
--     interrupt sources of src/integration/test_suites/includes/caliptra_defines.h and the vector
--     table of external interrupts. Pic has
--     src/integration/test_suites/libs/caliptra_isr/veer-csr.h, with the addresses of the interrupt
--     controller, which a generated header defines, as parameters. Init is `init_interrupts`; its
--     loops over the sources get a number of rounds, of which 255 are enough for fewer than 255
--     sources. Loops, Stores, Effects, Registers, Configured, Masked and Wraps under it follow its
--     events. Handler has the one that the macro `nonstd_veer_isr` lays down, around any service
--     routine, and `std_rv_isr`; Service has the service routines of
--     src/integration/test_suites/mcu_hello_world/caliptra_isr.h that do anything. Dispatch runs
--     the vector table; Traps has the one that `mtvec` points to. Exception has the exception
--     handler, built with MCU_RV_EXCEPTION_STRUCT, and those of the timers and of corrected errors.
--     Context, Serviced, Dispatched, Faults and Fates say how they end and what they leave behind.
--     The handlers enable nested interrupts: what a service routine becomes with those that preempt
--     it is an argument of the dispatch.
--   Bringup: src/integration/test_suites/mcu_cptra_bringup/mcu_cptra_bringup.c, which waits for
--     Caliptra, writes its fuses and lets it boot. Two polls more than events are missing until
--     Caliptra answers are enough.
--
-- Numbers are natural numbers. A word of 32 bits is its bit pattern, and a wrap is written out.
--
-- Not modelled: the messages on the terminal; the creation and joining of the thread, but for
-- whether it starts; the messages of VPRINTF in the handlers; assembly, RTL, test benches,
-- generated headers and scripts.
pub mod Base
pub mod Tcp
pub mod Jtag
pub mod Printf
pub mod Firmware
pub mod Csr
pub mod Isr
pub mod Bringup
