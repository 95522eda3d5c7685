-- ===== src/Producers/Semaphores/Place.antt =====
-- Where a thread of workshop/producer-consumer-problem-semaphore.c is, against the buffer, and what it
-- holds of the semaphores.
use comp.Base.{ℕ, ◌≡◌, arith}
use comp.Producers.{Buffer}
use comp.Producers.Order.{Fits, held_space, held_items}
use comp.Producers.Semaphores.{
  Thread, producing, insert_start, insert_wait_space, insert_wait_buffer, insert_post_items,
  insert_returned, consuming, remove_start, remove_wait_items, remove_wait_buffer,
  remove_post_space, remove_returned, working, exited,
}

-- The threads in the critical section.
abbrev pub inside : Thread → ℕ
inside (working c) = 1
inside _ = 0

abbrev pub InPlace : Thread → Buffer → Type 0
InPlace (working c) b = Fits c b
InPlace _ b = Unit

-- The space that a thread has from space_sem but not yet taken off buffer_space, or that it has added to
-- buffer_space but not yet given back to space_sem; the items likewise.
abbrev pub spaces : Thread → ℕ
spaces (insert_wait_buffer item) = 1
spaces (working c) = held_space c
spaces (remove_post_space item) = 1
spaces _ = 0

abbrev pub items : Thread → ℕ
items (insert_post_items item) = 1
items (working c) = held_items c
items remove_wait_buffer = 1
items _ = 0

pub outside : (t : Thread) (b : Buffer) → inside t ≡ 0 → InPlace t b
outside producing b e = tt
outside (insert_start item) b e = tt
outside (insert_wait_space item) b e = tt
outside (insert_wait_buffer item) b e = tt
outside (insert_post_items item) b e = tt
outside (insert_returned item is_inserted) b e = tt
outside consuming b e = tt
outside remove_start b e = tt
outside remove_wait_items b e = tt
outside remove_wait_buffer b e = tt
outside (remove_post_space item) b e = tt
outside (remove_returned result) b e = tt
outside (working c) b e = ground (arith, e)
outside exited b e = tt
