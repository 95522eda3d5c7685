-- ===== src/Scheduler/Queue.antt =====
-- The sorted insertion `add_pcb_to_pcbs_queue` of project1/process-scheduler.c.
use comp.Base.{◌≤◌, ◌≡◌, refl, ap, [], ◌∷◌, ◌++◌, All, Bool-cases, inl, inr, true, false, arith}
use comp.Scheduler.{ProcessControlBlock, PcbsQueue, goes_before, add_pcb_to_pcbs_queue}

-- A process joined the waiting ones at some place.
pub record Joins (pcb : ProcessControlBlock) (queue queue' : PcbsQueue) : Type 0 where
  pub ahead : PcbsQueue
  pub behind : PcbsQueue
  pub old : queue ≡ ahead ++ behind
  pub new : queue' ≡ ahead ++ pcb ∷ behind

-- A smaller priority value, or the same and an id that is no larger.
abbrev pub IsBefore : ProcessControlBlock → ProcessControlBlock → Type 0
IsBefore a b = (a.priority ≤ b.priority) × (a.priority ≡ b.priority → a.process_id ≤ b.process_id)

-- The queue is ordered by priority, and by id where the priorities agree.
abbrev pub IsOrdered : PcbsQueue → Type 0
IsOrdered [] = Unit
IsOrdered (pcb ∷ rest) = All (IsBefore pcb) rest × IsOrdered rest

IsBefore-trans : (a b c : ProcessControlBlock) → IsBefore a b → IsBefore b c → IsBefore a c
IsBefore-trans a b c h k = (omega (arith, h.0, k.0), λ e. ground (arith, h, k))

All-IsBefore :
    (a b : ProcessControlBlock) (l : PcbsQueue)
    → IsBefore a b
    → All (IsBefore b) l
    → All (IsBefore a) l
All-IsBefore a b [] h k = tt
All-IsBefore a b (c ∷ l) h k = (IsBefore-trans a b c h k.0, All-IsBefore a b l h k.1)

All-add :
    (P : ProcessControlBlock → Type 0) (pcb : ProcessControlBlock) (queue : PcbsQueue)
    → P pcb
    → All P queue
    → All P (add_pcb_to_pcbs_queue pcb queue)
unfolding add_pcb_to_pcbs_queue
All-add P pcb [] p h = (p, tt)
All-add P pcb (curr ∷ rest) p h = elim (Bool-cases (goes_before pcb curr)) [
  | inl before ↦ rw before (p, h)
  | inr after ↦ rw after (h.0, All-add P pcb rest p h.1)
]

goes_before-IsBefore : (a b : ProcessControlBlock) → goes_before a b ≡ true → IsBefore a b
unfolding goes_before
goes_before-IsBefore a b h = (ground arith, λ e. ground arith)

not-goes_before-IsBefore : (a b : ProcessControlBlock) → goes_before a b ≡ false → IsBefore b a
unfolding goes_before
not-goes_before-IsBefore a b h = (ground arith, λ e. ground arith)

later :
    (pcb curr : ProcessControlBlock) (rest queue' : PcbsQueue)
    → Joins pcb rest queue'
    → Joins pcb (curr ∷ rest) (curr ∷ queue')
later pcb curr rest queue' j = record {
  ahead = curr ∷ j.ahead;
  behind = j.behind;
  old = ap (λ l. curr ∷ l) j.old;
  new = ap (λ l. curr ∷ l) j.new;
}

-- A process that is added to an ordered queue joins it at some place, the others keep their order,
-- and the queue is ordered afterwards.
pub add_pcb_to_pcbs_queue_lem :
    (pcb : ProcessControlBlock) (queue : PcbsQueue)
    → IsOrdered queue
    → IsOrdered (add_pcb_to_pcbs_queue pcb queue)
      × Joins pcb queue (add_pcb_to_pcbs_queue pcb queue)
unfolding add_pcb_to_pcbs_queue
add_pcb_to_pcbs_queue_lem pcb [] h =
    ((tt, tt), record { ahead = []; behind = []; old = refl; new = refl })
add_pcb_to_pcbs_queue_lem pcb (curr ∷ rest) h = elim (Bool-cases (goes_before pcb curr)) [
  | inl before ↦
      let b = goes_before-IsBefore pcb curr before in
      rw before (
        ((b, All-IsBefore pcb curr rest b h.0), h),
        record { ahead = []; behind = curr ∷ rest; old = refl; new = refl },
      )
  | inr after ↦
      let (o, j) = add_pcb_to_pcbs_queue_lem pcb rest h.1 in
      rw after (
        (All-add (IsBefore curr) pcb rest (not-goes_before-IsBefore pcb curr after) h.0, o),
        later pcb curr rest _ j,
      )
]
