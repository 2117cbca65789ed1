-- ===== src/Lib.antt =====
-- libmodbus, a Modbus client and server library in C. A client builds a request, sends it over a
-- backend (a serial line, RTU, or TCP), reads the confirmation and checks it; a server reads an
-- indication, answers it from a mapping of four tables, and sends the response.
--
-- The parts, each with the file that models it:
--   Context.antt   `modbus_t` and the constants of src/modbus.h and src/modbus-private.h; the setters
--                  and getters of src/modbus.c. `Result` is a value or -1 with `errno`; `Run` adds
--                  what a call does to the line.
--   Crc.antt       `crc16` of src/modbus-rtu.c, with its two tables (Crc/Tables).
--   Backend.antt   the framing operations of the backends' tables, in src/modbus-rtu.c and
--                  src/modbus-tcp.c: request and response basis, `send_msg_pre`, `check_integrity`,
--                  `pre_check_confirmation`. A function for each splits on the backend.
--   System.antt    a system call's result, and the descriptors and blocks that are held.
--   Tcp.antt       the sockets of src/modbus-tcp.c: connecting, listening, accepting, flushing.
--   Rtu.antt       the serial port of src/modbus-rtu.c on POSIX: settings, RTS signal, opening.
--   Create.antt    `modbus_new_rtu`, `modbus_new_tcp`, `modbus_new_tcp_pi` and their release.
--   Lengths.antt   the length computations of src/modbus.c, which frame messages on both ends.
--   Send.antt      `send_msg` with its retries, and the raw requests.
--   Receive.antt   `_modbus_receive_msg`: `receive_loop` is its loop, `advance` one round, and the
--                  `receive` of the backends.
--   Mapping.antt   `modbus_mapping_t`, its allocation and its release.
--   Reply.antt     `modbus_reply`: `respond` checks the request and `dispatch` is the switch, with
--                  one function for each case; `reply` adds the sending.
--   Confirm.antt   `check_confirmation`. Confirm/Answers is the protocol's own account of an answer.
--   Client.antt    the requests of a client; `exchange` is what they share. Its child modules follow a
--                  request through `modbus_reply` and back: Reading, Writing, Single, Refused.
--   Memory.antt    the specification of the two ends together, in no file of the code: the tables as
--                  cells at addresses, and what each of nine client calls does to them (Client/Calls).
--   Proxy.antt     `modbus_proxy`, over two contexts.
--   Data.antt      src/modbus-data.c: bits and floats. A float is its 32-bit pattern.
--   Base.antt      lists indexed by native numbers, bit operations, Boolean tests.
--   Tests.antt     runs at concrete inputs.
--
-- How C is read: a buffer is the list of its bytes, and a message under construction the list of
-- those written so far. Numbers are natural numbers, with the wrap-around of a C type written out
-- where a value is stored in it. A read past the end of a list gives 0 and a write there changes
-- nothing. What the environment does is a list: the outcomes of the calls of `send`, and for the
-- receive loop the events that each round meets. A list that is used up before a call has returned
-- gives `pending`. A mapping's start addresses are taken below 2^31, where the C code stores them as
-- they are, and the slave of an RTU request is taken to be set, which the C code asserts. Sleeps, flushes, reconnections and transmissions are recorded as actions in order.
--
-- The receive loop is by recursion on fuel, 300 for one message: a frame has at most 260 bytes, a round
-- reads one byte at least, and the rest is room for the round that finds the message complete. The
-- delay behind a transmission with RTS takes at most 1001 chunks, its fuel: it is at most 1000000000
-- microseconds, in chunks of 999999.
--
-- The system is an argument: each call's result is a value that is chosen freely, and a theorem that
-- needs it says so, as that a new descriptor is none of those that are open.
--
-- Not modelled: null pointers (they are taken to be valid), debug output and error strings, timeouts
-- as durations (a timeout is the event that `select` fails with ETIMEDOUT), the descriptor that a
-- reconnection changes, single system calls such as `read`, socket options that are not checked, and
-- the code for Windows.
-- LIBMODBUS_VERSION_STRING is made by the build, and is a parameter of the server's functions.
pub mod Base
pub mod Data
pub mod Crc
pub mod Context
pub mod Backend
pub mod System
pub mod Tcp
pub mod Rtu
pub mod Create
pub mod Lengths
pub mod Send
pub mod Mapping
pub mod Reply
pub mod Confirm
pub mod Receive
pub mod Client
pub mod Memory
pub mod Proxy
pub mod Tests
