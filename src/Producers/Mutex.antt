-- ===== src/Producers/Mutex.antt =====
-- workshop/producer-consumer-problem.c: threads that share the buffer under a mutex. A thread is given
-- by where it is; a run is a sequence of steps of any of the threads, one at a time.
pub mod Place
pub mod Moving
pub mod Handling
pub mod Safety
use comp.Base.{
  ℕ, zero, suc, ◌+◌, ◌-◌, List, [], ◌∷◌, ◌++◌, Option, none, some, Bool, true, false, ◌||◌, ◌==◌,
  if◌then◌else◌, get_elem?, set, Outcome, ok, ◌>>=◌,
}
use comp.Producers.{
  Buffer, empty_buffer, buffer_has_space, buffer_has_item, Critical, inserting, stored, removing,
  fetched, critical_step,
}

-- A line that a thread prints.
pub data Message : Type 0 where
  producer_produced : ℕ → Message
  producer_exiting : Message
  buffer_is_full : Message
  consumer_consumed : ℕ → Message
  consumer_exiting : Message
  buffer_is_empty : Message

-- A call of insert_item is at the test of its loop, which has inserted the item or not yet; at the call
-- that locks the mutex; behind it; in the body of the if; at the call that unlocks; or has returned 0 or
-- not. A call of remove_item likewise.
pub data Thread : Type 0 where
  producing : Thread
  insert_loop : ℕ → Bool → Thread
  insert_lock : ℕ → Thread
  insert_locked : ℕ → Thread
  insert_unlock : ℕ → Thread
  insert_returned : ℕ → Bool → Thread
  consuming : Thread
  remove_loop : Option ℕ → Thread
  remove_lock : Thread
  remove_locked : Thread
  remove_unlock : Thread
  remove_returned : Option ℕ → Thread
  working : Critical → Thread
  exited : Thread

-- The variables that the threads share; `buffer_lock` is 1 when the mutex is free and 0 when it is not.
pub record Variables : Type 0 where
  pub shared : Buffer
  pub buffer_lock : ℕ
  pub is_exiting : Bool
  pub output : List Message

print : Message → Variables → Variables
print line v = record v { output = v.output ++ line ∷ [] }

-- pthread_mutex_lock(): a thread that cannot have the mutex stays where it is.
lock : Thread → Thread → Variables → Thread × Variables
lock waits enters v =
    if v.buffer_lock == 0
    then (waits, v)
    else (enters, record v { buffer_lock = v.buffer_lock - 1 })

unlock : Variables → Variables
unlock v = record v { buffer_lock = v.buffer_lock + 1 }

-- A step inside the critical section.
work : Critical → Variables → Outcome (Thread × Variables)
unfolding critical_step
work c v = do (c', b) ← critical_step c v.shared; ok (working c', record v { shared = b })

-- The end of the loops: the item is inserted or is_exiting is set.
insert_again : ℕ → Bool → Variables → Thread
insert_again item true v = insert_returned item true
insert_again item false v = if v.is_exiting then insert_returned item false else insert_lock item

remove_again : Option ℕ → Variables → Thread
remove_again (some item) v = remove_returned (some item)
remove_again none v = if v.is_exiting then remove_returned none else remove_lock

-- What a producer does when insert_item has returned, and a consumer when remove_item has.
producer_prints : ℕ → Bool → Variables → Thread × Variables
unfolding print
producer_prints item true v = (producing, print (producer_produced item) v)
producer_prints item false v =
    if v.is_exiting then (exited, print producer_exiting v) else (producing, print buffer_is_full v)

consumer_prints : Option ℕ → Variables → Thread × Variables
unfolding print
consumer_prints (some item) v = (consuming, print (consumer_consumed item) v)
consumer_prints none v =
    if v.is_exiting
    then (exited, print consumer_exiting v)
    else (consuming, print buffer_is_empty v)

-- The next step of a thread. `item` is what rand() gives a producer.
pub thread_step : ℕ → Thread → Variables → Outcome (Thread × Variables)
unfolding producer_prints consumer_prints lock unlock work insert_again remove_again
    buffer_has_space buffer_has_item
thread_step item producing v = ok (insert_loop item false, v)
thread_step _ (insert_loop item is_inserted) v = ok (insert_again item is_inserted v, v)
thread_step _ (insert_lock item) v = ok (lock (insert_lock item) (insert_locked item) v)
thread_step _ (insert_locked item) v =
    ok ((if buffer_has_space v.shared then working (inserting item) else insert_unlock item), v)
thread_step _ (insert_unlock item) v = ok (insert_loop item false, unlock v)
thread_step _ (insert_returned item result) v = ok (producer_prints item result v)
thread_step _ consuming v = ok (remove_loop none, v)
thread_step _ (remove_loop result) v = ok (remove_again result v, v)
thread_step _ remove_lock v = ok (lock remove_lock remove_locked v)
thread_step _ remove_locked v =
    ok ((if buffer_has_item v.shared then working removing else remove_unlock), v)
thread_step _ remove_unlock v = ok (remove_loop none, unlock v)
thread_step _ (remove_returned result) v = ok (consumer_prints result v)
thread_step _ (working (stored item)) v = ok (insert_loop item true, unlock v)
thread_step _ (working (fetched item)) v = ok (remove_loop (some item), unlock v)
thread_step _ (working c) v = work c v
thread_step _ exited v = ok (exited, v)

pub record Process : Type 0 where
  pub threads : List Thread
  pub variables : Variables

-- A step of the thread at a place of the list, or main() setting is_exiting.
pub data Event : Type 0 where
  steps : ℕ → ℕ → Event
  exits : Event

move : ℕ → ℕ → Option Thread → Process → Outcome Process
unfolding thread_step
move i item none p = ok p
move i item (some t) p = do
  (t', v) ← thread_step item t p.variables
  ok (record { threads = set p.threads i t'; variables = v })

pub process_step : Event → Process → Outcome Process
unfolding move
process_step (steps i item) p = move i item (get_elem? p.threads i) p
process_step exits p =
    let v = p.variables in ok (record p { variables = record v { is_exiting = true } })

unfoldable pub run : List Event → Process → Outcome Process
unfolding process_step
run [] p = ok p
run (e ∷ es) p = do p' ← process_step e p; run es p'

pub repeat : ℕ → Thread → List Thread → List Thread
repeat zero t ts = ts
repeat (suc n) t ts = t ∷ repeat n t ts

-- What main() starts: producers and consumers on an empty buffer with a free mutex. A thread that is not
-- created yet is one that has not moved.
unfoldable pub main : ℕ → ℕ → Process
unfolding repeat
main n_producer_threads n_consumer_threads = record {
  threads = repeat n_producer_threads producing (repeat n_consumer_threads consuming []);
  variables = record { shared = empty_buffer; buffer_lock = 1; is_exiting = false; output = [] };
}
