-- ===== src/Producers/Semaphores.antt =====
-- workshop/producer-consumer-problem-semaphore.c: threads that share the buffer under three semaphores. A
-- thread is given by where it is; a run is a sequence of steps of any of the threads, one at a time.
pub mod Place
pub mod Moving
pub mod Handling
pub mod Safety
pub mod Blocked
use comp.Base.{
  ℕ, zero, suc, ◌+◌, ◌-◌, List, [], ◌∷◌, ◌++◌, Option, none, some, Bool, true, false, ◌==◌,
  if◌then◌else◌, get_elem?, set, Outcome, ok, ◌>>=◌,
}
use comp.Producers.{
  Buffer, buffer_size, empty_buffer, Critical, inserting, stored, removing, fetched, critical_step,
}
use comp.Producers.Mutex.{
  Message, producer_produced, producer_exiting, buffer_is_full, consumer_consumed, consumer_exiting,
  buffer_is_empty, Event, steps, exits,
}

-- A call of insert_item is at the test of is_exiting, at one of its calls of sem_wait(), in the critical
-- section, at its last call of sem_post(), or has returned 0 or not. A call of remove_item likewise.
pub data Thread : Type 0 where
  producing : Thread
  insert_start : ℕ → Thread
  insert_wait_space : ℕ → Thread
  insert_wait_buffer : ℕ → Thread
  insert_post_items : ℕ → Thread
  insert_returned : ℕ → Bool → Thread
  consuming : Thread
  remove_start : Thread
  remove_wait_items : Thread
  remove_wait_buffer : Thread
  remove_post_space : ℕ → Thread
  remove_returned : Option ℕ → Thread
  working : Critical → Thread
  exited : Thread

-- The variables that the threads share, with the values of the semaphores.
pub record Variables : Type 0 where
  pub shared : Buffer
  pub buffer_sem : ℕ
  pub space_sem : ℕ
  pub items_sem : ℕ
  pub is_exiting : Bool
  pub output : List Message

print : Message → Variables → Variables
print line v = record v { output = v.output ++ line ∷ [] }

-- sem_wait(): a thread stays where it is while the value is 0.
wait : ℕ → Thread → Variables → Thread → Variables → Thread × Variables
wait value waits v goes v' = if value == 0 then (waits, v) else (goes, v')

-- A step inside the critical section.
work : Critical → Variables → Outcome (Thread × Variables)
unfolding critical_step
work c v = do (c', b) ← critical_step c v.shared; ok (working c', record v { shared = b })

-- What a producer does when insert_item has returned, and a consumer when remove_item has.
producer_prints : ℕ → Bool → Variables → Thread × Variables
unfolding print
producer_prints item true v = (producing, print (producer_produced item) v)
producer_prints item false v =
    if v.is_exiting then (exited, print producer_exiting v) else (producing, print buffer_is_full v)

consumer_prints : Option ℕ → Variables → Thread × Variables
unfolding print
consumer_prints (some item) v = (consuming, print (consumer_consumed item) v)
consumer_prints none v =
    if v.is_exiting
    then (exited, print consumer_exiting v)
    else (consuming, print buffer_is_empty v)

-- The next step of a thread. `item` is what rand() gives a producer.
pub thread_step : ℕ → Thread → Variables → Outcome (Thread × Variables)
unfolding producer_prints consumer_prints wait work
thread_step item producing v = ok (insert_start item, v)
thread_step _ (insert_start item) v =
    ok ((if v.is_exiting then insert_returned item false else insert_wait_space item), v)
thread_step _ (insert_wait_space item) v = ok (
    wait v.space_sem (insert_wait_space item) v (insert_wait_buffer item)
      (record v { space_sem = v.space_sem - 1 }))
thread_step _ (insert_wait_buffer item) v = ok (
    wait v.buffer_sem (insert_wait_buffer item) v (working (inserting item))
      (record v { buffer_sem = v.buffer_sem - 1 }))
thread_step _ (insert_post_items item) v =
    ok (insert_returned item true, record v { items_sem = v.items_sem + 1 })
thread_step _ (insert_returned item result) v = ok (producer_prints item result v)
thread_step _ consuming v = ok (remove_start, v)
thread_step _ remove_start v =
    ok ((if v.is_exiting then remove_returned none else remove_wait_items), v)
thread_step _ remove_wait_items v = ok (
    wait v.items_sem remove_wait_items v remove_wait_buffer
      (record v { items_sem = v.items_sem - 1 }))
thread_step _ remove_wait_buffer v = ok (
    wait v.buffer_sem remove_wait_buffer v (working removing)
      (record v { buffer_sem = v.buffer_sem - 1 }))
thread_step _ (remove_post_space item) v =
    ok (remove_returned (some item), record v { space_sem = v.space_sem + 1 })
thread_step _ (remove_returned result) v = ok (consumer_prints result v)
thread_step _ (working (stored item)) v =
    ok (insert_post_items item, record v { buffer_sem = v.buffer_sem + 1 })
thread_step _ (working (fetched item)) v =
    ok (remove_post_space item, record v { buffer_sem = v.buffer_sem + 1 })
thread_step _ (working c) v = work c v
thread_step _ exited v = ok (exited, v)

pub record Process : Type 0 where
  pub threads : List Thread
  pub variables : Variables

-- A step of the thread at a place of the list, or main() setting is_exiting.
move : ℕ → ℕ → Option Thread → Process → Outcome Process
unfolding thread_step
move i item none p = ok p
move i item (some t) p = do
  (t', v) ← thread_step item t p.variables
  ok (record { threads = set p.threads i t'; variables = v })

pub process_step : Event → Process → Outcome Process
unfolding move
process_step (steps i item) p = move i item (get_elem? p.threads i) p
process_step exits p =
    let v = p.variables in ok (record p { variables = record v { is_exiting = true } })

unfoldable pub run : List Event → Process → Outcome Process
unfolding process_step
run [] p = ok p
run (e ∷ es) p = do p' ← process_step e p; run es p'

pub repeat : ℕ → Thread → List Thread → List Thread
repeat zero t ts = ts
repeat (suc n) t ts = t ∷ repeat n t ts

-- What main() starts: producers and consumers on an empty buffer. A thread that is not
-- created yet is one that has not moved.
unfoldable pub main : ℕ → ℕ → Process
unfolding repeat
main n_producer_threads n_consumer_threads = record {
  threads = repeat n_producer_threads producing (repeat n_consumer_threads consuming []);
  variables = record {
    shared = empty_buffer;
    buffer_sem = 1;
    space_sem = buffer_size;
    items_sem = 0;
    is_exiting = false;
    output = [];
  };
}
