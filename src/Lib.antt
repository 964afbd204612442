-- ===== src/Lib.antt =====
-- libpolycall: a model of the C library's core, and what has been proved of it.
--
-- The library has a context (src/polycall.c), a state machine with locks, checksums and
-- snapshots (src/polycall_state_machine.c), a message protocol that drives its session through
-- such a machine and sends over a socket (src/polycall_protocol.c), a layer of micro services
-- with their command queues (src/polycall_micro.c), tokens with a tokenizer
-- (src/polycall_token.c, src/polycall_tokenizer.c), a parser over them (src/polycall_parser.c),
-- a reader of configuration files (src/polycall_config.c), and a server of network clients
-- (src/network.c). The program of src/main.c puts a console over them, and maps ports to
-- services. A record stands for each struct, a data type for each enum, and a function for each
-- operation, which takes the old state and returns the new one with the status; what the code
-- answers through out pointers is a component of the result.
--
-- Context: polycall_init_with_config is init_with_config, polycall_get_last_error is
-- get_last_error.
-- Machine: the arrays are lists of fixed length with a count; polycall_sm_X is X. Machine/Build
-- adds states and transitions, Machine/Execute is polycall_sm_execute_transition with the
-- callbacks it runs as a list of calls, Machine/Integrity and Machine/Snapshot are the
-- functions of those names, Machine/Default the default machine, Machine/Run a history of
-- calls. Machine/Invariant says what a valid machine is and Machine/Preserved that the calls
-- keep it. The machine of a call is not NULL.
-- Protocol: Protocol/Wire is the header as bytes (little-endian, no padding) and the checksum,
-- Protocol/Send and Protocol/Process are polycall_protocol_send and polycall_protocol_process,
-- Protocol/Session the other operations, Protocol/Actions a history of them. The answer of
-- net_send is a parameter, deliver; the callbacks are the events that are reported. The
-- callbacks and last_error lie behind a context in its internal part, which
-- polycall_protocol_init does not copy into the caller's context: polycall_protocol_process and
-- a step to another state read the callbacks there, and polycall_protocol_set_error writes
-- last_error there. The model gives these functions the internal part, and a history that
-- begins with polycall_protocol_init has neither polycall_protocol_process nor
-- polycall_protocol_set_error.
-- Micro: Micro/Services is the service array, Micro/Commands the functions on commands,
-- Micro/Context the initialisation, Micro/History a history of calls. The 32-bit mask is the
-- list of its bits, lowest first.
-- Token: arrays, filter, chain and map; Token/Values the values. What malloc, calloc and
-- realloc answer is an argument.
-- Tokenizer: Tokenizer/Match has the matchers, Tokenizer/Process the scan, Tokenizer/Compose
-- the creation and the sets of operations. strtod, strtoll and the equality of floating-point
-- numbers are parameters.
-- Parser: Parser/Tree has the operations on nodes and trees, Parser/Parse the parsing of
-- tokens, Parser/Strings that of texts, Parser/Optimize the optimisation. A node is a place in
-- a memory. The loops of the parser run on fuel, since some of them do not end; a visit of a
-- tree runs on fuel for its depth.
-- Config: the functions of src/polycall_config.c under their names. Config/Text has the texts
-- and numbers, Config/Store the table of values and the servers, Config/Lines the lines of a
-- file as fgets delivers them and what each does, Config/Load the hierarchy of files,
-- Config/Show the printing, Config/Commands the commands of `polycall config`. The file system
-- is a function from paths to contents. Config/Valid is the invariant, Config/Layers and
-- Config/Hierarchy what each key ends up with.
-- Network: Network/Endpoint opens and closes endpoints, Network/Clients is the table of
-- clients, Network/Run is net_run. What the system answers is an argument, and a thread's
-- requests for mutexes, closed sockets and handlers are events, in their order. Network/Locks
-- is a thread that holds mutexes which are not recursive, as outside Windows; Network/Deadlock
-- and Network/Round find where a round blocks itself.
-- Runtime: Runtime/Ports is the table of port mappings, Runtime/Services what a file and a
-- directory configure, Runtime/History and Runtime/Commands the console, Runtime/Serve the
-- program without one, Runtime/Show the listings. The array of programs has 8 places and the
-- code does not test its count: a write past them, which has no defined behaviour, ends a run
-- (overran), with the runtime before the write. A program that a mapping starts is the answer
-- of net_init_program.
--
-- Numbers are natural numbers; a 32-bit counter wraps by a remainder where the code lets it.
-- time is an argument, now. Pointers that are only stored, compared with NULL or handed on are
-- their addresses. The scan of the tokenizer runs on fuel, one round for each byte of the
-- buffer and one more, which is enough for patterns that take something. The character classes
-- are those of the C locale.
--
-- Not modelled: the bindings, the signal handlers, the texts of single messages of the console,
-- and the functions that only free memory. Of the network two threads at once are left out. Of
-- the micro services the end of polycall_micro_cleanup is not modelled.
pub mod Prelude
pub mod Context
pub mod Machine
pub mod Protocol
pub mod Micro
pub mod Token
pub mod Tokenizer
pub mod Parser
pub mod Config
pub mod Network
pub mod Runtime
