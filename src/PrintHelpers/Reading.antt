-- ===== src/PrintHelpers/Reading.antt =====
-- What can be read off the beginning of a line of the log that project2/print-helpers.c prints.
use mathlib.Core.List.{append_assoc}
use comp.Base.{ℕ, ◌+◌, ◌*◌, ◌<◌, ◌≡◌, ◌∙◌, refl, ap, List, [], ◌∷◌, ◌++◌, some, false, arith}
use comp.Decimal.{
  is_digit, decimal, padded, numbers, numbers-decimal, numbers-padded, numbers-skip, numbers-nil,
}
use comp.PrintHelpers.{
  Time, time_text, fprint_current_time, octet, fprint_ip_address,
  fprint_current_time_and_ip_address,
}

module _ (n c : ℕ) (s l : List ℕ) (e : is_digit c ≡ false) (read : numbers s ≡ l) where
  after_padded : (width : ℕ) → numbers (padded width n ++ c ∷ s) ≡ n ∷ l
  after_padded width = numbers-padded width n c s e ∙ ap (λ k. n ∷ k) read

  after_decimal : numbers (decimal n ++ c ∷ s) ≡ n ∷ l
  after_decimal = numbers-decimal n c s e ∙ ap (λ k. n ∷ k) read

-- The numbers of an address.
abbrev pub octets : ℕ → List ℕ
octets address =
    octet address 1 ∷ octet address 0x100 ∷ octet address 0x10000 ∷ octet address 0x1000000 ∷ []

numbers-fprint_ip_address : (address : ℕ) → numbers (fprint_ip_address address) ≡ octets address
unfolding fprint_ip_address
numbers-fprint_ip_address address =
    numbers-skip b'(' _ refl
    ∙ after_decimal (octet address 1) b'.' _ _ refl (
        after_decimal (octet address 0x100) b'.' _ _ refl (
          after_decimal (octet address 0x10000) b'.' _ _ refl
            (after_decimal (octet address 0x1000000) b')' [] [] refl numbers-nil)))

-- The address that octets make up, the lowest first.
abbrev pub address_of : List ℕ → ℕ
address_of [] = 0
address_of (o ∷ os) = o + 256 * address_of os

octets_lem : (address : ℕ) → address < 0x100000000 → address_of (octets address) ≡ address
unfolding octet
octets_lem address h = omega (arith, h)

abbrev pub fields : Time → List ℕ
fields t = t.tm_mday ∷ (t.tm_mon + 1) ∷ (t.tm_year + 1900) ∷ t.tm_hour ∷ t.tm_min ∷ t.tm_sec ∷ []

numbers-time_text :
    (t : Time) (rest : List ℕ) → numbers (time_text t ++ rest) ≡ fields t ++ numbers rest
unfolding time_text
numbers-time_text t rest =
    numbers-skip b'[' _ refl
    ∙ simp append_assoc (
        after_padded t.tm_mday 32 _ _ refl
          (after_padded (t.tm_mon + 1) 32 _ _ refl
            (after_padded (t.tm_year + 1900) 32 _ _ refl
              (after_padded t.tm_hour b':' _ _ refl
                (after_padded t.tm_min b':' _ _ refl
                  (after_padded t.tm_sec b']' rest (numbers rest) refl refl 2) 2)
                2)
              4)
            2)
          2)

-- When the time is known, the beginning of a line of the log is printed, and the numbers that stand in it are
-- the day, the month from 1 on, the year and the time of day, and the four octets of the address, which
-- make up any address of 32 bits.
pub fprint_current_time_and_ip_address_lem :
    (t : Time) (address : ℕ)
    → address < 0x100000000
    → (text : List ℕ) × (fprint_current_time_and_ip_address (some t) address ≡ some text)
      × (numbers text ≡ fields t ++ octets address)
      × (address_of (octets address) ≡ address)
unfolding fprint_current_time_and_ip_address fprint_current_time
fprint_current_time_and_ip_address_lem t address h = (
  time_text t ++ fprint_ip_address address,
  refl,
  numbers-time_text t (fprint_ip_address address)
      ∙ ap (λ l. fields t ++ l) (numbers-fprint_ip_address address),
  octets_lem address h,
)
