-- ===== src/Producers.antt =====
-- workshop/producer-consumer-problem.c and workshop/producer-consumer-problem-semaphore.c: the buffer,
-- which is the same in both, and what a thread does with it between the calls that enter and leave the
-- critical section, one access of a shared variable at a time.
pub mod Order
pub mod Threads
pub mod Mutex
pub mod Semaphores
use comp.Base.{
  ℕ, zero, suc, ◌+◌, ◌-◌, List, [], ◌∷◌, ◌++◌, Bool, true, false, ltb, leb, ◌==◌, if◌then◌else◌,
  length, get_elem?, set, Outcome, ok, ◌>>=◌, deref,
}

abbrev pub buffer_size : ℕ
buffer_size = 5

-- `inserted` and `removed` record the items in the order in which buffer_space counted them; no function
-- reads them. An item, an int, is given by its bit pattern.
pub record Buffer : Type 0 where
  pub buffer : List ℕ
  pub buffer_space : ℕ
  pub inserted : List ℕ
  pub removed : List ℕ

-- The buffer that main() sets up.
abbrev pub empty_buffer : Buffer
empty_buffer = record {
  buffer = 0 ∷ 0 ∷ 0 ∷ 0 ∷ 0 ∷ [];
  buffer_space = buffer_size;
  inserted = [];
  removed = [];
}

pub buffer_has_space : Buffer → Bool
buffer_has_space b = ltb 0 b.buffer_space

pub buffer_has_item : Buffer → Bool
buffer_has_item b = ltb b.buffer_space buffer_size

-- Where a thread is in the critical section of insert_item or remove_item.
pub data Critical : Type 0 where
  inserting : ℕ → Critical
  written : ℕ → Critical
  stored : ℕ → Critical
  removing : Critical
  taken : ℕ → ℕ → Critical
  shifting : ℕ → ℕ → ℕ → Critical
  fetched : ℕ → Critical

-- A write outside the array is undefined.
write_item : Buffer → ℕ → ℕ → Outcome Buffer
write_item b i item =
    if ltb i (length b.buffer)
    then ok (record b { buffer = set b.buffer i item })
    else Outcome.undefined

-- The next step; at the end of the section there is none. Where buf_pos or buffer_space would be negative
-- the step is undefined, but for the buf_pos of remove_item, which is -1 or 0 to the same effect.
pub critical_step : Critical → Buffer → Outcome (Critical × Buffer)
unfolding write_item
critical_step (inserting item) b =
    if leb b.buffer_space buffer_size
    then (do b' ← write_item b (buffer_size - b.buffer_space) item; ok (written item, b'))
    else Outcome.undefined
critical_step (written item) b =
    if b.buffer_space == 0
    then Outcome.undefined
    else ok (
      stored item,
      record b { buffer_space = b.buffer_space - 1; inserted = b.inserted ++ item ∷ [] },
    )
critical_step (stored item) b = ok (stored item, b)
critical_step removing b = do
  item ← deref (get_elem? b.buffer 0)
  ok (taken item (buffer_size - b.buffer_space - 1), b)
critical_step (taken item buf_pos) b = ok (
  shifting item 0 buf_pos,
  record b { buffer_space = b.buffer_space + 1; removed = b.removed ++ item ∷ [] },
)
critical_step (shifting item i buf_pos) b =
    if ltb i buf_pos
    then (do
      next ← deref (get_elem? b.buffer (i + 1))
      b' ← write_item b i next
      ok (shifting item (i + 1) buf_pos, b'))
    else ok (fetched item, b)
critical_step (fetched item) b = ok (fetched item, b)
