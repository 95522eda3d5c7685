-- ===== src/Producers/Mutex/Place.antt =====
-- Where a thread of workshop/producer-consumer-problem.c is, against the mutex and the buffer.
use comp.Base.{ℕ, ◌≡◌, arith}
use comp.Producers.{Buffer}
use comp.Producers.Order.{Tidy, Fits}
use comp.Producers.Mutex.{
  Thread, producing, insert_loop, insert_lock, insert_locked, insert_unlock, insert_returned,
  consuming, remove_loop, remove_lock, remove_locked, remove_unlock, remove_returned, working,
  exited,
}

-- The threads that have the mutex.
abbrev pub inside : Thread → ℕ
inside (insert_locked item) = 1
inside (insert_unlock item) = 1
inside remove_locked = 1
inside remove_unlock = 1
inside (working c) = 1
inside _ = 0

abbrev pub InPlace : Thread → Buffer → Type 0
InPlace (insert_locked item) b = Tidy b
InPlace (insert_unlock item) b = Tidy b
InPlace remove_locked b = Tidy b
InPlace remove_unlock b = Tidy b
InPlace (working c) b = Fits c b
InPlace _ b = Unit

pub outside : (t : Thread) (b : Buffer) → inside t ≡ 0 → InPlace t b
outside producing b e = tt
outside (insert_loop item is_inserted) b e = tt
outside (insert_lock item) b e = tt
outside (insert_locked item) b e = ground (arith, e)
outside (insert_unlock item) b e = ground (arith, e)
outside (insert_returned item is_inserted) b e = tt
outside consuming b e = tt
outside (remove_loop result) b e = tt
outside remove_lock b e = tt
outside remove_locked b e = ground (arith, e)
outside remove_unlock b e = ground (arith, e)
outside (remove_returned result) b e = tt
outside (working c) b e = ground (arith, e)
outside exited b e = tt
