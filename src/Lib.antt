-- ===== src/Lib.antt =====
-- EMI, a message bus between processes: the daemon emi_core keeps a table of the processes that
-- registered for a message number, takes messages from TCP connections, puts each into a slot of
-- shared memory, and signals every process that is registered for its number; the library
-- (emi_if.c) builds messages, sends them, and registers functions.
--
-- - Prelude: shared names, Boolean tests, lists, integers and bit masks over the native numbers.
-- - ListHead: include/list.h. The links of all list heads are two functions on addresses; each
--   function is the sequence of its writes. ListHead/Ring has the predicate that says which list
--   the links spell, ListHead/Ops the effect of writes on it, ListHead/Refine what the functions do,
--   ListHead/Each what the loops `list_for_each` and `list_for_each_tail` pass.
-- - MsgTable: include/msg_table.h. A table maps an index to its chain; `none` is an index outside
--   the array. `hsearch` is `__emi_hsearch`, `hinsert_front` is `__emi_hinsert`, `hash_key` is
--   `__emi_hash`; the others keep their names. MsgTable/Search is about searching, MsgTable/Registry
--   about inserting and deleting, MsgTable/Bounds about the bounds of the array, MsgTable/History
--   about sequences of changes from `init_msg_table` (emi_core.c) on.
-- - Core/Dispatch: the delivery loop of `emi_recieve_operation` (emi_core.c), over MsgTable.
-- - Core/Receive: `emi_recieve_operation` (emi_core.c) as a whole, as `receive`, over Core/Dispatch,
--   Space, Message and Socket; `serve` is what lies between taking the slot and the label `e0`,
--   `finish` is the label. Core/Receive/Paths is about its paths, Core/Receive/Requests about
--   the answers that it writes.
-- - Core/Start: `main` (emi_core.c) up to its accept loop, over what each call answers, with the calls
--   that it makes; `start_daemon` is the part from the lock file on, `start_server` the part from
--   `setsid` on. Core/Start/Order is about the order of the calls.
-- - Core/LockFile: `construct_local_lock_name` (emi_shmem.c), `runing_check` and `sig_release`
--   (emi_core.c).
-- - Core/Race: the delivery loop of `emi_recieve_operation` (emi_core.c) and `func_sterotype`
--   (emi_if.c) as threads, a shared access at a time: `System` is the state, `Act` a step of the
--   daemon, `Turn` a step of a handler. Core/Race/Lost is about updates of the count
--   that are lost.
-- - Core/Cell: the index cells between several threads of the daemon, in the section of the delivery
--   loop that `critical_shmem_lock` protects, and the handlers; a step is a `Turn`.
-- - Core/Slots: any number of messages at once, each a `System` of Core/Race in a slot of the pool; a
--   step is an `Advance`. Core/Slots/Safe is about what a message has of its slot.
-- - Core/Nodes: several threads of the daemon on one bucket of the table, with the nodes by their
--   addresses; `Doing` is what a thread does, `Progress` a step. Core/Nodes/Freed is about a run in
--   which a freed node is used.
-- - Space: emi_shmem.c and include/shmem.h, the pool of slots, as the list of its elements;
--   `obtain_space` is `__emi_obtain_space`, `return_space` is `__emi_return_space`. Space/Linked has
--   the same with the links of ListHead and what stands beside them: `obtain_linked`, `return_linked`
--   and, in Space/Linked/Init, `init_linked` for `emi_init_space`; Space/Linked/Runs is about sequences
--   of calls. Space/Pool and
--   Space/Misuse are about right and wrong use, Space/Init about the start, Space/Race the
--   threads that take slots at once, Space/Consecutive
--   is `__emi_obtain_consecutive_space`, Space/Bounds about
--   the layout in the shared memory of `int_global_shm_space` (emi_core.c).
-- - Message: include/emi.h and the functions of emi_if.c that build messages. Message/Fill is about
--   what they build. Message/Secret is `emi_msg_encode_aes` and `emi_msg_decode_aes`,
--   Message/Secret/Key is `emi_aes_encrypt` and `emi_aes_decrypt` (emi_aes.c), Message/Secret/Lost is
--   about what comes back.
-- - Socket: emi_sock.c, the side of the client; Socket/Server is the side of the daemon, and the
--   accept loop of `main` (emi_core.c). What the kernel answers is a parameter, and may
--   depend on how many calls were made before; Socket/Connect is about the tries of `emi_connect`.
-- - Client: `emi_msg_send`, `__emi_msg_register` (`register`) and `emi_msg_unregister` (emi_if.c),
--   over Message and Socket. Client/Send is about answers, Client/Descriptors about sockets left
--   open, Client/Register about the list of functions. Client/Highlevel is the functions
--   `emi_msg_send_highlevel*`, Client/Init is `emi_init`, Client/Handler is `func_sterotype`, the
--   handler of the signal.
-- - Bus: the daemon and the processes together, over Core/Receive, Client/Handler and Client.
--   Bus/Handlers is about the handlers that run one after the other on shared memory,
--   Bus/Delivery about a delivery to them and the wait for the count, Bus/Answer
--   about what comes back to the sender, Bus/Registration about a registration and what it is for.
-- - Config: `get_config` (emi_config.c) on the bytes of the file. Config/Lines is about files of
--   settings and comments, Config/Faults about comments that are not skipped.
-- - Lock: the spin locks of include/emi_semaphore.h; `x86_try` and `arm_try` are one turn of the
--   loop of `__emi_lock`. Lock/Exclusion is about the threads that share a lock, Lock/Daemon about
--   `emi_init_locks` (emi_shmem.c) and the threads that use the three locks of the daemon.
-- - Debug: emi_dbg.c. A `Line` is a call of printf. Debug/Rows is about what is shown of the table,
--   Debug/Content about what is read and said of a message.
--
-- Bounds and fuel: numbers of C are natural numbers with their wrap-around written out where they
-- are added to or shifted. The delivery loop and the loop of `emi_hsearch` have fuel; one round
-- more than the chain has nodes is enough. `emi_connect` has fuel; three rounds are enough for the
-- only `retry` that is used, which is 1. The layout takes an `int` to have 4 bytes and a
-- `struct emi_msg` to have 68. The loop over the configuration file has as much fuel as the file
-- has bytes, and one more. The name of the lock file has fuel for ten digits, which is enough for
-- the numbers of users below 2 ^ 31.
--
-- Parameters: the results of `malloc`, of system calls, and of `inet_addr`, `htons`, `atoi` and
-- `sprintf`. In Core/Receive also what the daemon finds in the slot when it sees the count at zero, if it
-- ever does: the field `wait` of `Around`, which Bus fills in for handlers that run one after the other
-- and are done when the daemon looks.
--
-- Not modelled: pthread mutexes (include/emi_semaphore.h), so in Core/Receive a critical section is
-- one step and nothing runs between two rounds of a delivery; Core/Race has the interleavings of one
-- delivery, Core/Cell those of several threads of the daemon on the index cells, Core/Nodes those on
-- the table and Space/Race those on the pool, each for itself; Core/Slots has
-- any number of deliveries with the pool. What `fork`, `setsid`,
-- `umask`, `sigaction` and `chdir` change in the system, of which `main` (emi_core.c) is modelled as
-- making the calls; the block cipher (the rest of
-- emi_aes.c, which copies another library; an argument where it is called); the addresses that the
-- debug output shows; tests.

pub mod Prelude
pub mod MsgTable
pub mod Core
pub mod Space
pub mod ListHead
pub mod Message
pub mod Socket
pub mod Client
pub mod Config
pub mod Lock
pub mod Debug
pub mod Bus
