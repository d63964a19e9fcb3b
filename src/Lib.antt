-- ===== src/Lib.antt =====
-- KickCAT: an EtherCAT master and slave stack in C++. The library models the parts of it that carry
-- the protocol logic: the CANopen SDO services and the mailbox queues that carry them, the EtherCAT
-- state machine of a slave, the DS402 drive state machine of the master, and the ring that hands
-- messages from one thread to another.
--
-- The parts, and the files that model them:
--   * lib/include/kickcat/Ring.h: Ring. The two 32-bit counters wrap; `Ring.Refine` relates a ring
--     to a bounded queue.
--   * lib/src/CoE/CiA/DS402/StateMachine.cc and its header: Ds402. What now() returns is an argument
--     of every call (`Reads`), one reading per place where the code reads the clock.
--   * lib/slave/src/AbstractESC.cc: Slave/Esc, the sync managers; lib/slave/src/PDO.cc: Slave/Pdo;
--     the sync managers of lib/src/Mailbox.cc: Slave/Mbx; lib/slave/src/ESM.cc and ESMStates.cc:
--     Slave/Esm. `play` is one call of StateMachine::play; what the master and the hardware write
--     between two calls is any change of the registers.
--   * lib/src/CoE/protocol.cc: CoE/Segment; lib/src/CoE/mailbox/request.cc: CoE/Client (SDOMessage);
--     lib/src/CoE/mailbox/response.cc: CoE/Server and its children (SDOMessage); lib/src/CoE/OD.cc and
--     lib/include/kickcat/CoE/OD.h: CoE/Dictionary. CoE/Transfer runs the client and the server
--     against each other. CoE/Information is SDOInformationMessage, on both sides.
--   * lib/src/Mailbox.cc: Mailbox/Request (the master's queues) and Mailbox/Response (the slave's).
--     Both work on messages through a record of operations, which stands for the virtual functions of
--     AbstractMessage; CoE/Client/Interface fills it with the SDO request.
--   * lib/include/kickcat/protocol.h: EtherCat, the headers and the commands; lib/src/Frame.cc: Frame,
--     with readFrame and writeFrame. What the socket returns is an argument.
--   * lib/master/src/Link.cc and its header: Link. The queue of callbacks is a function from the index
--     of 8 bits; the two sockets are functions on a state of their own. Link/Merge is
--     the merge of the copies of a logical frame, Link/Process the loop of processDatagrams.
--   * lib/master/src/MailboxSequencer.cc: Sequencer, the turns of the mailbox operations of the bus.
--   * lib/slave/src/EmulatedNetwork.cc: Emulated/Network, the wires, the walk of a frame, the routing;
--     lib/slave/src/ESC/EmulatedESC.cc: Emulated/Chip, the memory accesses (Registers), the FMMUs, the
--     commands, and the internal logic (Logic). The memory is a function from addresses to bytes.
-- How they interact: the link queues the datagrams in a frame, sends it by a socket and hands each
-- answer to the callback of its index; the emulated network routes a frame through the emulated
-- chips; the master's request mailbox sends the message of an SDO client; the slave's response
-- mailbox offers it to the messages in progress, and the SDO server answers from the object
-- dictionary; the slave's state machine activates the mailbox and the process data through the sync
-- managers; the drive state machine runs in the master on top of the process data.
--
-- State is a record, and an operation is a function from the state to the state and its result; what
-- a call writes to a register or a queue is a field of the result. Counters of 8, 16 and 32 bits keep
-- their wrap-around. Bytes are numbers; a copy with memcpy is `take` and `blit`, and what would fall
-- past the end of a destination is dropped, so that the theorems on bounds speak of the positions and
-- of the bytes behind a buffer. Pointers into the dictionary are positions in it (`Place`).
--
-- Loops are structural recursion: over the entries of an object, over the messages in a queue, over
-- the sync managers. The exchange of SDO segments (`transfer`) runs on fuel, and as many rounds as the
-- entry has bytes are enough, since each brings at least one. The reception of a frame runs on the
-- fuel 256, more turns than there are datagrams in the buffers of two frames; the routing on 128,
-- more than the datagrams of a frame; the walk of a frame on its budget, which the code keeps itself.
-- The code follows the bit `multiple` of a datagram without a bound; in the model a read behind the
-- buffer of a frame gives 0, and the chain ends there.
--
-- Assumptions. A register of the ESC holds what is written to it, so that the loops that poll an
-- acknowledge end at the first read. What PDO::configureMapping returns is a function of the process
-- data. The callbacks of a dictionary entry belong to the application: they are functions on its
-- data. A factory of the response mailbox and the bytes of its error reply are parameters. Mailboxes
-- have at least 16 bytes where a theorem does not ask for more.
--
-- Not modelled: the sockets, threads, clocks and drivers of the operating systems, which only pass
-- bytes and times on; the bus and the distributed clocks of the master; the receive times and the
-- drifting clock of the emulated slaves, which are numbers with a fraction; the parser of the EEPROM;
-- the ESI files; the gateway; printing; the tools, bindings and examples.
pub mod Base
pub mod Ring
pub mod Ds402
pub mod Slave
pub mod Mailbox
pub mod CoE
pub mod EtherCat
pub mod Frame
pub mod Link
pub mod Sequencer
pub mod Emulated
