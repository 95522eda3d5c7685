-- ===== src/Scheduler/Arrivals.antt =====
-- `check_scheduled_processes` of project1/process-scheduler.c.
use mathlib.Core.List.{append_assoc, append-nil}
use comp.Base.{
  ℕ, ◌+◌, ◌≤◌, ◌<◌, ◌≡◌, refl, sym, ap, subst, ◌∙◌, inl, inr, List, [], ◌∷◌, ◌++◌, length,
  length-append, All, All-append, arith, Bool-cases, leb,
}
use comp.Segments.{FreeMemorySegment}
use comp.Processes.{ProcessMemory, new_process_memory, add_process_memory_to_process_memories_list}
use comp.Processes.Updates.{sizes, sizes-append, IsPlaced, resident-add, count-add, add-append}
use comp.Swap.Invariant.{IsConsistent}
use comp.Parser.{ScheduledProcess}
use comp.Scheduler.{
  ProcessControlBlock, PcbsQueue, Admission, ready, append_pcb_to_pcbs_list,
  new_process_control_block_by_scheduled_process, check_scheduled_processes,
}
use comp.Scheduler.Admitting.{CanLoad, IsAhead, blocks_from, Admits}
use comp.Scheduler.Loading.{AllFit}

pub append_pcb-append :
    (pcb : ProcessControlBlock) (l : PcbsQueue) → append_pcb_to_pcbs_list pcb l ≡ l ++ pcb ∷ []
unfolding append_pcb_to_pcbs_list
append_pcb-append pcb [] = refl
append_pcb-append pcb (x ∷ l) = ap (λ r. x ∷ r) (append_pcb-append pcb l)

module _ (memsize time : ℕ) (free : List FreeMemorySegment) where
  module _ (procs : List ProcessMemory)
      (v : IsConsistent memsize (record { processes = procs; free = free }))
      (fit : AllFit memsize procs) (size process_id : ℕ) (h : 0 < size) (k : size ≤ memsize) where
    abbrev q : ProcessMemory
    unfolding new_process_memory
    q = new_process_memory size process_id

    abbrev more : List ProcessMemory
    more = add_process_memory_to_process_memories_list (new_process_memory size process_id) procs

    more-append : more ≡ procs ++ new_process_memory size process_id ∷ []
    more-append = add-append (new_process_memory size process_id) procs

    more-IsConsistent : IsConsistent memsize (record { processes = more; free = free })
    unfolding new_process_memory
    more-IsConsistent = record {
      tidy = v.tidy;
      placed =
          subst (All IsPlaced) (sym more-append)
            (All-append IsPlaced procs _ v.placed ((h, tt), tt));
      tiled = λ x.
          omega (arith, v.tiled x, resident-add (new_process_memory size process_id) refl procs x);
    }

    more-AllFit : AllFit memsize more
    unfolding new_process_memory
    more-AllFit =
        subst (λ l. AllFit memsize l) (sym more-append)
          (subst (All (λ n. n ≤ memsize)) (sym (sizes-append procs _))
            (All-append (λ n. n ≤ memsize) (sizes procs) _ fit (k, tt)))

  nothing_due :
      (sps : List ScheduledProcess) (queue : PcbsQueue) (procs : List ProcessMemory)
      → IsConsistent memsize (record { processes = procs; free = free })
      → AllFit memsize procs
      → All (CanLoad memsize) sps
      → IsAhead time sps
      → Admits memsize time sps queue free procs
          (record { scheduled = sps; ready_queue = queue; processes = procs })
  nothing_due sps queue procs v fit c ahead = record {
    admitted = [];
    divided = refl;
    due = tt;
    new = [];
    blocks = refl;
    queued = sym (append-nil queue);
    consistent = v;
    all_fit = fit;
    fresh = tt;
    same_jobs = refl;
    same_work = omega arith;
    no_later = omega arith;
    ahead = ahead;
    can_load = c;
    added = [];
    extended = sym (append-nil procs);
    memories = refl;
    same_count = refl;
  }

  abbrev born : ScheduledProcess → List ProcessMemory → ProcessControlBlock
  born sp procs = record {
    process_id = sp.process_id;
    process_state = ready;
    process_memory = length procs;
    priority = 1;
    job_time = sp.job_time;
    burst_time = 0;
    cpu_time = 0;
  }

  abbrev with_memory : ScheduledProcess → List ProcessMemory → List ProcessMemory
  with_memory sp procs =
      add_process_memory_to_process_memories_list (new_process_memory sp.memory_size sp.process_id)
        procs

  length-with_memory :
      (sp : ScheduledProcess) (procs : List ProcessMemory)
      → length (with_memory sp procs) ≡ length procs + 1
  length-with_memory sp procs = omega (
    arith,
    ap length (add-append (new_process_memory sp.memory_size sp.process_id) procs),
    length-append procs (new_process_memory sp.memory_size sp.process_id ∷ []),
  )

  is_listed :
      (sp : ScheduledProcess) (procs more : List ProcessMemory) {all : List ProcessMemory}
      → all ≡ with_memory sp procs ++ more
      → length procs < length all
  is_listed sp procs more e =
      omega
        (arith, ap length e, length-append (with_memory sp procs) more, length-with_memory sp procs)

  one_started :
      (sp : ScheduledProcess) (rest : List ScheduledProcess) (queue : PcbsQueue)
      (procs : List ProcessMemory) (a : Admission)
      → Admits memsize time rest
          (append_pcb_to_pcbs_list (born sp procs) queue)
          free
          (with_memory sp procs)
          a
      → sp.start_time ≤ time
      → Admits memsize time (sp ∷ rest) queue free procs a
  unfolding new_process_memory
  one_started sp rest queue procs a r due = record {
    admitted = sp ∷ r.admitted;
    divided = ap (λ l. sp ∷ l) r.divided;
    due = (due, r.due);
    blocks =
        ap (λ l. born sp procs ∷ l)
          (r.blocks ∙ ap (λ n. blocks_from n r.admitted) (length-with_memory sp procs));
    memories = ap (λ l. new_process_memory sp.memory_size sp.process_id ∷ l) r.memories;
    new = born sp procs ∷ r.new;
    queued =
        r.queued
        ∙ ap (λ l. l ++ r.new) (append_pcb-append (born sp procs) queue)
        ∙ append_assoc queue (born sp procs ∷ []) r.new;
    consistent = r.consistent;
    all_fit = r.all_fit;
    fresh = (
      record {
        pointed = is_listed sp procs r.added r.extended;
        at_once = refl;
        top = refl;
        waits = refl;
      },
      r.fresh,
    );
    same_jobs = ap (λ l. (sp.process_id, sp.job_time) ∷ l) r.same_jobs;
    same_work = ground (arith, r.same_work);
    no_later = ground (arith, r.no_later);
    ahead = r.ahead;
    can_load = r.can_load;
    added = new_process_memory sp.memory_size sp.process_id ∷ r.added;
    extended =
        r.extended
        ∙ ap (λ l. l ++ r.added)
            (add-append (new_process_memory sp.memory_size sp.process_id) procs)
        ∙ append_assoc procs (new_process_memory sp.memory_size sp.process_id ∷ []) r.added;
    same_count =
        r.same_count ∙ count-add (new_process_memory sp.memory_size sp.process_id) refl procs;
  }

  -- In a consistent memory where each process memory fits, as each scheduled process does: the processes are
  -- divided into those up to the first whose time has not come, all of which are due, and the rest, which
  -- stay scheduled and of which the first is not due. Each of the former gets, in order, a fresh process
  -- control block at the end of the queue, with its id and its job time, and a process memory with its id
  -- and its size, on the disk, at the end of the list, at the position that the block points to. The
  -- memory stays consistent, no process memory is moved, and the jobs and their work are the same as
  -- before.
  pub check_scheduled_processes_lem :
      (sps : List ScheduledProcess) (queue : PcbsQueue) (procs : List ProcessMemory)
      → IsConsistent memsize (record { processes = procs; free = free })
      → AllFit memsize procs
      → All (CanLoad memsize) sps
      → Admits memsize time sps queue free procs (check_scheduled_processes sps time queue procs)
  unfolding check_scheduled_processes new_process_control_block_by_scheduled_process
  check_scheduled_processes_lem [] queue procs v fit c = nothing_due [] queue procs v fit tt tt
  check_scheduled_processes_lem (sp ∷ rest) queue procs v fit c =
      elim (Bool-cases (leb sp.start_time time)) [
        | inl due ↦ rw due (
            one_started sp rest queue procs _
              (check_scheduled_processes_lem rest (append_pcb_to_pcbs_list (born sp procs) queue)
                (with_memory sp procs)
                (more-IsConsistent procs v fit sp.memory_size sp.process_id c.0.0 c.0.1)
                (more-AllFit procs v fit sp.memory_size sp.process_id c.0.0 c.0.1) c.1)
              (ground (arith, due)))
        | inr early ↦ rw early (nothing_due (sp ∷ rest) queue procs v fit c (ground arith))
      ]
