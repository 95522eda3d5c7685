-- ===== src/Scheduler/Work.antt =====
-- The CPU time that the processes of project1/process-scheduler.c still need.
use comp.Base.{
  ◌&&◌, ℕ, ◌+◌, ◌-◌, ◌<◌, ◌≡◌, List, [], ◌∷◌, ◌++◌, map, ltb, ◌==◌, if◌then◌else◌, arith, Option,
  none, some,
}
use comp.Parser.{ScheduledProcess}
use comp.Scheduler.{ProcessControlBlock, PcbsQueue}

-- A job runs for one time step at least, also where its job time is 0.
abbrev pub total : ℕ → ℕ
total job_time = if job_time == 0 then 1 else job_time

abbrev pub remaining : ProcessControlBlock → ℕ
remaining pcb = total pcb.job_time - pcb.cpu_time

abbrev pub work : PcbsQueue → ℕ
work [] = 0
work (pcb ∷ rest) = remaining pcb + work rest

abbrev pub running_work : Option ProcessControlBlock → ℕ
running_work none = 0
running_work (some pcb) = remaining pcb

abbrev pub future : List ScheduledProcess → ℕ
future [] = 0
future (sp ∷ rest) = total sp.job_time + future rest

abbrev pub last_start : List ScheduledProcess → ℕ
last_start [] = 0
last_start (sp ∷ rest) =
    if ltb (last_start rest) sp.start_time then sp.start_time else last_start rest

-- A process by its id and its job time.
abbrev pub pcb_key : ProcessControlBlock → ℕ × ℕ
pcb_key pcb = (pcb.process_id, pcb.job_time)

abbrev pub scheduled_key : ScheduledProcess → ℕ × ℕ
scheduled_key sp = (sp.process_id, sp.job_time)

abbrev pub pcb_keys : PcbsQueue → List (ℕ × ℕ)
pcb_keys = map pcb_key

abbrev pub scheduled_keys : List ScheduledProcess → List (ℕ × ℕ)
scheduled_keys = map scheduled_key

abbrev pub IsUnfinished : ProcessControlBlock → Type 0
IsUnfinished pcb = pcb.cpu_time < total pcb.job_time

pub work-append : (xs ys : PcbsQueue) → work (xs ++ ys) ≡ work xs + work ys
work-append [] ys = omega arith
work-append (x ∷ xs) ys = omega (arith, work-append xs ys)

-- How often a job, an id and a job time, stands in a list.
abbrev pub times : ℕ → ℕ → List (ℕ × ℕ) → ℕ
times id job [] = 0
times id job ((i, j) ∷ rest) = (if id == i && job == j then 1 else 0) + times id job rest

pub times-append :
    (id job : ℕ) (xs ys : List (ℕ × ℕ))
    → times id job (xs ++ ys) ≡ times id job xs + times id job ys
times-append id job [] ys = omega arith
times-append id job ((i, j) ∷ xs) ys = omega (arith, times-append id job xs ys)
