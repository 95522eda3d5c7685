-- ===== src/Examples/Printing.antt =====
-- Instances of the theorems about project2/print-helpers.c and resource-usage.c.
use comp.Base.{ℕ, ◌≡◌, refl, List, [], ◌∷◌, ◌++◌, some, arith, ok}
use comp.Decimal.{decimal, numbers}
use comp.PrintHelpers.{Time, fprint_current_time_and_ip_address}
use comp.PrintHelpers.Reading.{fields, octets, address_of, fprint_current_time_and_ip_address_lem}
use comp.ResourceUsage.{get_proc_self_status_info}
use comp.ResourceUsage.Field.{IsLine, get_proc_self_status_info_lem}

abbrev time : Time
time = record { tm_mday = 3; tm_mon = 0; tm_year = 116; tm_hour = 23; tm_min = 5; tm_sec = 0 }

fprint_current_time_and_ip_address_lem_example :
    (text : List ℕ) × (fprint_current_time_and_ip_address (some time) 0x100007f ≡ some text)
    × (numbers text ≡ fields time ++ octets 0x100007f)
    × (address_of (octets 0x100007f) ≡ 0x100007f)
fprint_current_time_and_ip_address_lem_example =
    fprint_current_time_and_ip_address_lem time 0x100007f (omega arith)

-- `VmSize`.
abbrev field : List ℕ
field = b'V' ∷ b'm' ∷ b'S' ∷ b'i' ∷ b'z' ∷ b'e' ∷ []

abbrev more : List ℕ
more = b':' ∷ 32 ∷ []

abbrev garbage : List ℕ
garbage = 7 ∷ 7 ∷ 7 ∷ 7 ∷ 7 ∷ 7 ∷ []

-- `Vm`, and `VmSize: 12 kB`.
abbrev first_line : List ℕ
first_line = b'V' ∷ b'm' ∷ 0 ∷ []

abbrev line : List ℕ
line = (field ++ more) ++ (b'1' ∷ b'2' ∷ 32 ∷ b'k' ∷ b'B' ∷ 10 ∷ 0 ∷ garbage)

line-IsLine : IsLine (field ++ more) 12 line
unfolding decimal
line-IsLine = record {
  no_digits = (refl, (refl, (refl, (refl, (refl, (refl, (refl, (refl, tt))))))));
  not_null = omega arith;
  garbage = garbage;
  text = refl;
  room = omega arith;
}

get_proc_self_status_info_lem_example :
    get_proc_self_status_info field (some (first_line ∷ line ∷ [])) ≡ ok (some 12)
get_proc_self_status_info_lem_example =
    get_proc_self_status_info_lem field more line 12 (first_line ∷ []) [] (omega arith)
      ((λ h. h.1.1.1), tt) line-IsLine
