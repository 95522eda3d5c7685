-- ===== src/PrintHelpers.antt =====
-- project2/print-helpers.c: the time and the address at the beginning of a line of the log. time() and
-- localtime() are a parameter.
pub mod Reading
use comp.Base.{ℕ, ◌+◌, ◌/◌, ◌%◌, List, [], ◌∷◌, ◌++◌, Option, none, some}
use mathlib.Core.Option
use comp.Decimal.{decimal, padded}

pub record Time : Type 0 where
  pub tm_mday : ℕ
  pub tm_mon : ℕ
  pub tm_year : ℕ
  pub tm_hour : ℕ
  pub tm_min : ℕ
  pub tm_sec : ℕ

pub time_text : Time → List ℕ
time_text t =
    b'['
    ∷ (padded 2 t.tm_mday
        ++ (32
            ∷ (padded 2 (t.tm_mon + 1)
                ++ (32
                    ∷ (padded 4 (t.tm_year + 1900)
                        ++ (32
                            ∷ (padded 2 t.tm_hour
                                ++ (b':'
                                    ∷ (padded 2 t.tm_min
                                        ++ (b':' ∷ (padded 2 t.tm_sec ++ (b']' ∷ []))))))))))))

-- What is printed, where `none` is exit(1) after time() has failed.
pub fprint_current_time : Option Time → Option (List ℕ)
unfolding time_text
fprint_current_time t = Option.map time_text t

-- `ip_address_as_ulong >> 8 * i`, and its lowest eight bits.
pub octet : ℕ → ℕ → ℕ
octet address shifted = address / shifted % 256

pub fprint_ip_address : ℕ → List ℕ
unfolding octet
fprint_ip_address address =
    b'('
    ∷ (decimal (octet address 1)
        ++ (b'.'
            ∷ (decimal (octet address 0x100)
                ++ (b'.'
                    ∷ (decimal (octet address 0x10000)
                        ++ (b'.' ∷ (decimal (octet address 0x1000000) ++ (b')' ∷ []))))))))

pub fprint_current_time_and_ip_address : Option Time → ℕ → Option (List ℕ)
unfolding fprint_current_time fprint_ip_address
fprint_current_time_and_ip_address time address =
    Option.map (λ text. text ++ fprint_ip_address address) (fprint_current_time time)
