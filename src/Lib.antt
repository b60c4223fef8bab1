-- ===== src/Lib.antt =====
-- The Alex rover: the program on the Raspberry Pi that drives it, the serial link to its Arduino,
-- and the server that can take that program's place.
--
-- The program reads characters and keys, and sends commands to the Arduino as packets over a
-- serial port; a second thread reads the port, puts the packets together again and prints what
-- the Arduino answers. The parts, with the files that model them:
--   * Serialize, RPi/serialize.cpp: the framing, 140 bytes for every structure. `assemble` with
--     its static variables is `Receiver` and `assemble`; Pending holds the abstract view of that
--     state, a queue of bytes, and Refinement what `assemble` does to it; Frame, Roundtrip and
--     Checksum are about complete packets, Calls about one call of `deserialize` in a run.
--   * Packet, RPi/packet.h: the structure `TPacket` and its 100 bytes in memory.
--   * Link, RPi/usart.cpp: the loop of `receiveThread`, over any handlers; Stream and Delivery
--     are about streams of good packets, Blocks and Chains about any bytes. The server has the same
--     loop, `uartReceiveThread` of server/tls-alex-server.cpp.
--   * Pi, RPi/*.cpp: the globals of the program and the calls that reach the outside. Handlers is
--     the receiving half of RPi/usart.cpp, with Colour for RPi/colour.cpp; Send the sending half;
--     Prints is RPi/prints.cpp, Serial RPi/serial.cpp; Control, Keys and Main are
--     RPi/alex-pi.cpp. Table, Requests, Sound, Steady, Quiet, Drive, Hold, Presses, Opening, Boot, Arrival
--     and Defined are about what they do. Threads is the step relation of the two threads, Delay
--     and Bound below it are how far the delay gets.
--   * Server, server/tls-alex-server.cpp: Uart is its serial half, Network its network half,
--     Listener the loop of its serial listener, Turns the step relation of its threads; Table,
--     Requests, Closing and Receiving are about them.
--   * Tls, server/make_tls_server.cpp: Listener is the accept loop of `_tls_listener`, Session
--     what it uses of server/tls_server_lib.cpp and server/tls_common_lib.cpp; Gate is about
--     which connections get a worker. Context is the contexts of server/tls_common_lib.cpp, Startup
--     `createServer` and the start of the listener, Echo the worker of
--     server/test_tls_server.cpp; Secure and Stale are about them.
--   * Alex, alex/*.ino, the firmware of the Arduino: Motion is robotlib.ino, Encoders and Main are
--     alex.ino with the reading half of serial.ino, Replies and Commands are usart.ino, Sensors is
--     colour_sensor.ino, ultrasonic.ino and servo.ino, and Led led.ino. Happenings are the
--     interrupts of the wheels and the turns of `loop` between two packets; Halting, Going,
--     Starting, Arriving, Turning, Driving and Losing are about what they do to a movement, Typed,
--     Ranges and Running about what holds from `setup` on. Wires, Readings, Reach, Dispatch,
--     Answering and Answers are about the commands and the sensors. Framing is what the firmware
--     relies on in its framing library, Delivery and Journey lead from a character typed on the
--     Raspberry Pi to the motors, Carrying, Return and Unheard lead back, and Remote starts from a
--     client of the server.
--   * Memory holds the arrays of C and words in memory, Base what all the parts share.
--
-- A byte is a number below 256 and a word one below 2 ^ 32, lowest byte first in memory, as on
-- both processors. An access outside an array is undefined behaviour and a fault, `none`, also
-- when `printf` reads a text that has no terminator. Every
-- read of the serial port is taken to be at most 140 bytes long; the port gives more only if more
-- had queued up. An `int` is an integer without bounds; the delay, which grows by 50 with a key
-- press, would need more than 40 million of them to overflow. What comes from outside is a
-- parameter: the contents of uninitialised locals, what `scanf` reads, the `float` type,
-- `SDL_GetKeyName`, the operating system's side of the serial port with `cfmakeraw`, and what
-- OpenSSL answers.
-- Loops that wait for input run over the list of the inputs that were made, so they end with it;
-- no loop needs fuel. A turn of the step relations is a whole turn of a control, a whole SDL
-- event, a whole packet, or one half of a turn of a worker of the server: the threads' accesses
-- to the globals inside such turns are not interleaved. In the firmware an interrupt counts as one
-- before or after a turn of `loop`. Its `int` has 16 bits and its counters wrap around at 2 ^ 32;
-- its `float` arithmetic, the pulses of the sensors and the motor and servo libraries are
-- parameters, as is its framing library, which is not in the repository: what is assumed of that
-- is a record of laws that the framing code of the Raspberry Pi is shown to fill; on bytes that the
-- laws do not speak of it may fault.
--
-- Not modelled: the clock of RPi/time.cpp, the line that `deserialize` prints for a bad magic
-- number, `mod` and `find_max` of RPi/prints.cpp, which nothing calls, the thread locking of
-- server/tls_pthread.cpp, the last line of the echo server's worker, `main` of the two servers, which only
-- start the rest, and `dbprintf` of alex/usart.ino, which nothing calls.
pub mod Alex
pub mod Base
pub mod Memory
pub mod Serialize
pub mod Packet
pub mod Link
pub mod Pi
pub mod Server
pub mod Tls
