-- ===== src/DataDispatcher.antt =====
-- src/data_dispatcher.c: data of a type goes to the queue that is registered for the type, or to the
-- default queue. The table is a map of src/hash_map.c. A queue is a number that stands for a pointer
-- (`none` is NULL), and a store gives the `fixed_queue_t` of each.
pub mod Register
pub mod Deliver
mod Tests
use osi.Prelude.{
  update, ℕ, Bool, true, false, Option, none, some, List, ◌==◌, if◌then◌else◌, is_some,
}
use osi.HashMap.{KeyOps, HashMap, new_map, get, set_key, erase}
use osi.HashMap.New.{all_ok}
use osi.HashMapUtils.{hash_function_naive}
use osi.FixedQueue.{FixedQueue, enqueue_call}

-- `hash_function_naive`, and equality of the types.
abbrev pub type_ops : KeyOps ℕ
type_ops = record { hash_fn = hash_function_naive; keys_are_equal = ◌==◌ }

abbrev pub default_table_buckets : ℕ
default_table_buckets = 10

pub record DataDispatcher : Type 0 where
  pub dispatch_table : HashMap ℕ ℕ
  pub default_queue : Option ℕ

-- `data_dispatcher_new`
abbrev pub new : DataDispatcher
new = record { dispatch_table = new_map default_table_buckets; default_queue = none }

abbrev pub set_queue : HashMap ℕ ℕ → (type : ℕ) → Option ℕ → HashMap ℕ ℕ
set_queue table type none = table
set_queue table type (some queue) = (set_key type_ops all_ok table type queue).2

unfoldable pub register : DataDispatcher → (type : ℕ) → (queue : Option ℕ) → DataDispatcher
register d type queue = record d {
  dispatch_table = set_queue (erase type_ops d.dispatch_table type).2 type queue;
}

unfoldable pub register_default : DataDispatcher → Option ℕ → DataDispatcher
register_default d queue = record d { default_queue = queue }

abbrev pub or_default : Option ℕ → Option ℕ → Option ℕ
or_default none default_queue = default_queue
or_default (some queue) default_queue = some queue

-- The queue that `data_dispatcher_dispatch` chooses.
unfoldable pub choose : DataDispatcher → (type : ℕ) → Option ℕ
choose d type = or_default (get type_ops d.dispatch_table type) d.default_queue

abbrev pub stored : (ℕ → FixedQueue) → ℕ → Option FixedQueue → Option (Bool × (ℕ → FixedQueue))
stored queues queue none = none
stored queues queue (some q) = some (true, update queues queue q)

abbrev pub deliver : (ℕ → FixedQueue) → ℕ → Option ℕ → Option (Bool × (ℕ → FixedQueue))
deliver queues value none = some (false, queues)
deliver queues value (some queue) = stored queues queue (enqueue_call (queues queue) value)

-- `data_dispatcher_dispatch`; `none` is a call that waits for room in the queue.
unfoldable pub dispatch :
    DataDispatcher → (ℕ → FixedQueue) → (type value : ℕ) → Option (Bool × (ℕ → FixedQueue))
unfolding choose
dispatch d queues type value = deliver queues value (choose d type)
