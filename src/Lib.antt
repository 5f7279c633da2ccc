-- ===== src/Lib.antt =====
-- The OS interface library of a Bluetooth stack: containers, timers, the wake lock, configuration
-- files and queues between threads. The rest of the stack calls these parts; among themselves the
-- alarms keep their pending alarms in a list, hand expired ones to fixed queues, and hold the wake
-- lock while a timer is set. A fixed queue is a list between two semaphores; the data dispatcher puts
-- data into one of several queues by a hash map, and the eager reader passes buffers through one.
--
-- Prelude: what all modules share: Boolean tests, and lists over the native numbers.
-- RingBuffer: src/ringbuffer.c. `ringbuffer_x` is `x`. Pointers are offsets into the storage. Window
--   has the bytes held and the invariant, Insert and Remove the calls, Fifo the specification.
-- HashMap: src/hash_map.c. `hash_map_x` is `x`, and `hash_map_set` is `set_key`. A bucket is NULL or a
--   list of entries, and the answers of the allocator are the record `Alloc`. Bucket and Search have
--   the searches, Set, Erase, Count and Iterate the calls.
-- Wakelock: src/wakelock.c. `wakelock_x` is `x`, and `update_wakelock_x_stats` is `update_x_stats`. What
--   the system answers is the record `System`.
-- Alarm: src/alarm.c. `alarm_x` is `x`, `callback_dispatch` is `dispatch`, `alarm_queue_ready` is
--   `queue_ready`. Setup has `lazy_initialize` and `alarm_cleanup`, Cycles what they leave. Types has the data, Schedule the list of pending alarms and the timers, Calls the
--   functions of the header and the rounds of the two threads; Order, Valid, Preserve, Pending and
--   Period have the proofs, Reach any order of calls and rounds. A callback is a function on the state.
-- Config: src/config.c. `config_x` is `x`. Entries, Access, Sections and Iterate are about sections and keys, File
--   about `config_save`, Parse about `config_new` and `config_parse`; Scan, Lines, Rebuild and RoundTrip
--   are about reading what was saved.
-- FixedQueue: src/fixed_queue.c and src/semaphore.c. A thread in a call stands between two of its
--   statements; a call with nothing in between is `enqueue_call` and the like. Flags has the threads that
--   interleave, with the flags of the descriptors that `semaphore_try_wait` changes; Counts and Moves have
--   what a step keeps, Reach any interleaving.
-- AllocationTracker: src/allocation_tracker.c and src/allocator.c, on the hash map of src/hash_map.c.
--   `allocation_tracker_x` is `x`. Canary has the bytes around a block, Notify the calls, Strings the
--   copies of strings.
-- LinkedList: src/list.c. `list_x` is `x`, `list_node` is `value_at`. Nodes are in a store by their
--   address. Cells has the chain of nodes, Insert, Remove and Walk the calls, Sequence the specification.
-- EagerReader: src/eager_reader.c. The two threads as steps, with `inbound_data_waiting` as `inbound_step`
--   and `eager_reader_read` as `outbound_step`; `read` is a call with nothing in between. Window has the
--   bytes held and the invariant, Copy and Steps every interleaving, Read one call, Free the end.
-- Reactor: src/reactor.c. `reactor_x` is `x`. What any thread does is an `Action`; `reactor_unregister` is
--   the actions `unregisters`, `appends` and `frees`. Invariant has the invariant and what callers keep
--   to, Changed, Register and Unregister the calls, Waits and Rounds the loop, Kept the
--   objects that are allocated, Reach any order of steps, Once a call of `reactor_run_once`.
-- DataDispatcher: src/data_dispatcher.c, on HashMap and FixedQueue. `data_dispatcher_x` is `x`. Register
--   has the table of queues, Deliver the dispatch.
-- HashMapUtils: src/hash_map_utils.c and src/hash_functions.c, on HashMap and with the search of a byte
--   of Config. Params has the parsing.
-- Future: src/future.c, on the count of a semaphore. The statements of two threads; Reach has their orders.
-- Thread: src/thread.c, on FixedQueue. `thread_post` is `post`, the end of `run_thread` is `drain`. Life
--   has `run_thread` and its caller, in `thread_new_sized`, `thread_join` and `thread_free`, as the
--   statements of two threads; Places has what is there at each, Alive, Starts and Ends their steps, Reach
--   their orders, Moves and Progress who can go on.
-- Socket: src/socket.c and src/socket_utils. `socket_x` is `x` and `osi_socket_x` is `x`. Sockaddr has
-- `osi_socket_make_sockaddr_un`, Local the clients and servers, Descriptors what POSIX says of the calls,
-- Owner and Preserve the invariant, Callers what callers may do, Kept and Uses what each function keeps.
-- The system is a record of calls, and the reactor the set that its `epoll_wait` watches, a table of what
-- it was given: events that were reported before are not part of it.
-- Buffer: src/buffer.c. `buffer_x` is `x`. Counts has what is held and the invariant, Calls and Free the
--   calls, Reach their orders, View the bytes.
-- Array: src/array.c. What `realloc` answers is an argument.
--
-- Bounds and fuel. `uint64_t` and `size_t` values that the code lets wrap do so at 2 ^ 64: the times of
-- alarms and the wake lock, and the size of a hash map. Counters of calls are not run to their end. The
-- fuel of `ringbuffer_peek` is the count asked for, that of the loop of `remove_pending_alarm` is the
-- length of the queue, that of `config_parse` is the length of the file, that of a loop over a linked
-- list is its length and one more, that of `eager_reader_read` is the count asked for and two more, that
-- of `reactor_run_once` is `enough`, and that of the end of `run_thread` is the capacity and one more.
-- Each round uses up at least one of these.
--
-- Not modelled: logging and printing, and in most parts the release of memory; the registration of a
-- fixed queue or an eager reader with a reactor, and the error paths of `fixed_queue_new`,
-- `eager_reader_new` and `reactor_new`; `alarm_free`. A failure of EPOLL_CTL_DEL, which `reactor_unregister`
-- logs, and of the `reactor_register` of `run_thread` are left out, and sizes in bytes that wrap in `grow`
-- of src/array.c. The files src/properties.c, src/time.c,
-- src/compat.c, src/mutex.c, src/osi.c and the metrics are left out: they call the operating system or a
-- library.
pub mod Prelude
pub mod Reactor
pub mod RingBuffer
pub mod Future
pub mod HashMap
pub mod Socket
pub mod Thread
pub mod Wakelock
pub mod Alarm
pub mod Buffer
pub mod Config
pub mod Array
pub mod FixedQueue
pub mod AllocationTracker
pub mod LinkedList
pub mod EagerReader
pub mod DataDispatcher
pub mod HashMapUtils
