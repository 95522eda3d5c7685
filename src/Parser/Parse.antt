-- ===== src/Parser/Parse.antt =====
-- `parse_process_data_file` of project1/process-data-file-parser.c.
use mathlib.Core.List.{append_assoc, append-nil}
use comp.Base.{
  ℕ, ◌≤◌, ◌<◌, ◌≡◌, ◌≢◌, refl, sym, ap, subst, ◌∙◌, List, [], ◌∷◌, ◌++◌, Option, none, some, length,
  length-append, All, arith, Outcome, ok,
}
use comp.Parser.{
  ScheduledProcess, new_scheduled_process, ScheduledProcesses, parse_line, add_scheduled_process,
  parse_lines, parse_process_data_file,
}

module _ {T : Type 0} (atoi : T → ℕ) where
  -- The process of a line of four tokens or more; a shorter line gives none.
  abbrev pub line_process : List T → List ScheduledProcess
  line_process (a ∷ b ∷ c ∷ d ∷ rest) =
      new_scheduled_process (atoi a) (atoi b) (atoi c) (atoi d) ∷ []
  line_process _ = []

  abbrev pub line_processes : List (List T) → List ScheduledProcess
  line_processes [] = []
  line_processes (line ∷ rest) = line_process line ++ line_processes rest

  abbrev as_option : List ScheduledProcess → Option ScheduledProcess
  as_option [] = none
  as_option (sp ∷ _) = some sp

  parse_line_defined :
      (line : List T) → length line ≢ 3 → parse_line atoi line ≡ ok (as_option (line_process line))
  unfolding parse_line
  parse_line_defined [] h = refl
  parse_line_defined (a ∷ []) h = refl
  parse_line_defined (a ∷ b ∷ []) h = refl
  parse_line_defined (a ∷ b ∷ c ∷ []) h = absurd (h refl)
  parse_line_defined (a ∷ b ∷ c ∷ d ∷ rest) h = refl

  abbrev IsStored : List ScheduledProcess → ScheduledProcesses → Type 0
  IsStored procs sps =
      (sps.scheduled_procs ≡ procs)
      × (length procs ≤ sps.scheduled_procs_max_len)
      × (0 < sps.scheduled_procs_max_len)

  skipped-IsStored :
      (procs : List ScheduledProcess) (sps : ScheduledProcesses)
      → IsStored procs sps
      → IsStored (procs ++ []) sps
  skipped-IsStored procs sps h =
      (h.0 ∙ sym (append-nil procs), omega (arith, h.1, length-append procs []), h.2)

  append-IsStored :
      (sp : ScheduledProcess) (procs : List ScheduledProcess) (sps : ScheduledProcesses)
      → IsStored procs sps
      → IsStored (procs ++ sp ∷ []) (add_scheduled_process atoi (some sp) sps)
  unfolding add_scheduled_process
  append-IsStored sp procs sps h = (
    ap (λ l. l ++ sp ∷ []) h.0,
    ground (arith, h.1, h.2, ap length h.0, length-append procs (sp ∷ [])),
    ground (arith, h.2),
  )

  add-IsStored :
      (line : List T) (procs : List ScheduledProcess) (sps : ScheduledProcesses)
      → IsStored procs sps
      → IsStored
          (procs ++ line_process line)
          (add_scheduled_process atoi (as_option (line_process line)) sps)
  unfolding add_scheduled_process
  add-IsStored [] procs sps h = skipped-IsStored procs sps h
  add-IsStored (a ∷ []) procs sps h = skipped-IsStored procs sps h
  add-IsStored (a ∷ b ∷ []) procs sps h = skipped-IsStored procs sps h
  add-IsStored (a ∷ b ∷ c ∷ []) procs sps h = skipped-IsStored procs sps h
  add-IsStored (a ∷ b ∷ c ∷ d ∷ rest) procs sps h =
      append-IsStored (new_scheduled_process (atoi a) (atoi b) (atoi c) (atoi d)) procs sps h

  parse_lines-IsStored :
      (lines : List (List T)) (procs : List ScheduledProcess) (sps : ScheduledProcesses)
      → All (λ line. length line ≢ 3) lines
      → IsStored procs sps
      → (result : ScheduledProcesses) × (parse_lines atoi lines sps ≡ ok result)
        × IsStored (procs ++ line_processes lines) result
  unfolding parse_lines
  parse_lines-IsStored [] procs sps h k = (sps, refl, skipped-IsStored procs sps k)
  parse_lines-IsStored (line ∷ rest) procs sps h k =
      let sps' = add_scheduled_process atoi (as_option (line_process line)) sps in
      let (result, e, r) =
        parse_lines-IsStored rest (procs ++ line_process line) sps' h.1
          (add-IsStored line procs sps k) in
      (
        result,
        rw (parse_line_defined line h.0) e,
        subst (λ l. IsStored l result)
            (append_assoc procs (line_process line) (line_processes rest)) r,
      )

  -- When no line has three tokens, the parse is defined: it gives the processes of the lines of four
  -- tokens or more, in their order and with the numbers of the first four tokens, and stores no more
  -- of them than the array is allocated for.
  pub parse_process_data_file_lem :
      (lines : List (List T))
      → All (λ line. length line ≢ 3) lines
      → (result : ScheduledProcesses) × (parse_process_data_file atoi lines ≡ ok result)
        × (result.scheduled_procs ≡ line_processes lines)
        × (length result.scheduled_procs ≤ result.scheduled_procs_max_len)
  unfolding parse_process_data_file
  parse_process_data_file_lem lines h =
      let (result, e, r) = parse_lines-IsStored lines [] _ h (refl, omega arith, omega arith) in
      (result, e, r.0, omega (arith, r.1, ap length r.0))

  parse_line_undefined :
      (line : List T) → length line ≡ 3 → parse_line atoi line ≡ Outcome.undefined
  unfolding parse_line
  parse_line_undefined [] h = absurd (omega (arith, h))
  parse_line_undefined (a ∷ []) h = absurd (omega (arith, h))
  parse_line_undefined (a ∷ b ∷ []) h = absurd (omega (arith, h))
  parse_line_undefined (a ∷ b ∷ c ∷ []) h = refl
  parse_line_undefined (a ∷ b ∷ c ∷ d ∷ rest) h = absurd (omega (arith, h))

  parse_lines_undefined :
      (before : List (List T)) (line : List T) (after : List (List T)) (sps : ScheduledProcesses)
      → All (λ l. length l ≢ 3) before
      → length line ≡ 3
      → parse_lines atoi (before ++ line ∷ after) sps ≡ Outcome.undefined
  unfolding parse_lines
  parse_lines_undefined [] line after sps h k = rw (parse_line_undefined line k) refl
  parse_lines_undefined (l ∷ before) line after sps h k = rw (parse_line_defined l h.0) (
      parse_lines_undefined before line after
        (add_scheduled_process atoi (as_option (line_process l)) sps) h.1 k)

  -- At the first line of three tokens the parse passes a null pointer to atoi(), which is undefined.
  pub parse_process_data_file_undefined :
      (before : List (List T)) (line : List T) (after : List (List T))
      → All (λ l. length l ≢ 3) before
      → length line ≡ 3
      → parse_process_data_file atoi (before ++ line ∷ after) ≡ Outcome.undefined
  unfolding parse_process_data_file
  parse_process_data_file_undefined before line after h k =
      parse_lines_undefined before line after _ h k
