-- ===== src/Processes/Updates.antt =====
-- Reading and writing one process memory of the list in memory-management.c.
pub use comp.Base.{All-set, All-get_elem?, get_elem?-set_self, get_elem?-set_ne, get_elem?-lt}
use comp.Base.{
  ◌++◌, ℕ, zero, suc, ◌+◌, ◌≤◌, ◌<◌, ◌≡◌, refl, ap, List, [], ◌∷◌, some, if◌then◌else◌, arith,
  length, get_elem?, set, map,
}
use comp.Segments.Coverage.{holds}
use comp.Processes.{
  Address, in_disk, in_ram, ProcessMemory, is_process_memory_in_disk,
  get_process_memories_list_not_in_disk_count, add_process_memory_to_process_memories_list,
}

-- 1 if the process memory holds the address `x` of memory, else 0.
abbrev pub occupies : Address → ℕ → ℕ → ℕ
occupies in_disk size x = 0
occupies (in_ram a) size x = holds a size x

-- How many process memories of the list hold `x`.
abbrev pub resident : List ProcessMemory → ℕ → ℕ
resident [] x = 0
resident (p ∷ rest) x = occupies p.start_address p.size x + resident rest x

abbrev pub FitsUnder : Address → ℕ → Type 0
FitsUnder in_disk size = Unit
FitsUnder (in_ram a) size = size ≤ a

-- A process memory has a size, and its block does not reach below address 0.
abbrev pub IsPlaced : ProcessMemory → Type 0
IsPlaced p = (0 < p.size) × FitsUnder p.start_address p.size

abbrev pub sizes : List ProcessMemory → List ℕ
sizes = map (λ p. p.size)

abbrev count : List ProcessMemory → ℕ
count = get_process_memories_list_not_in_disk_count

pub resident-set :
    (ps : List ProcessMemory) (i : ℕ) (p q : ProcessMemory) (x : ℕ)
    → get_elem? ps i ≡ some p
    → resident (set ps i q) x + occupies p.start_address p.size x
      ≡ resident ps x + occupies q.start_address q.size x
resident-set [] i p q x e = cc
resident-set (r ∷ ps) zero p q x e = ground arith
resident-set (r ∷ ps) (suc i) p q x e = omega (arith, resident-set ps i p q x e)

pub occupies-le-resident :
    (ps : List ProcessMemory) (i : ℕ) (p : ProcessMemory) (x : ℕ)
    → get_elem? ps i ≡ some p
    → occupies p.start_address p.size x ≤ resident ps x
occupies-le-resident [] i p x e = cc
occupies-le-resident (r ∷ ps) zero p x e = ground arith
occupies-le-resident (r ∷ ps) (suc i) p x e = omega (arith, occupies-le-resident ps i p x e)

abbrev weight : ProcessMemory → ℕ
weight p = if is_process_memory_in_disk p then 0 else 1

pub count-set :
    (ps : List ProcessMemory) (i : ℕ) (p q : ProcessMemory)
    → get_elem? ps i ≡ some p
    → count (set ps i q) + weight p ≡ count ps + weight q
unfolding get_process_memories_list_not_in_disk_count
count-set [] i p q e = cc
count-set (r ∷ ps) zero p q e = ground arith
count-set (r ∷ ps) (suc i) p q e = omega (arith, count-set ps i p q e)

pub resident_none : (ps : List ProcessMemory) (x : ℕ) → count ps ≡ 0 → resident ps x ≡ 0
unfolding get_process_memories_list_not_in_disk_count
resident_none [] x e = refl
resident_none (p ∷ ps) x e = ground (arith, resident_none ps x)

pub sizes-set :
    (ps : List ProcessMemory) (i : ℕ) (p q : ProcessMemory)
    → get_elem? ps i ≡ some p
    → q.size ≡ p.size
    → sizes (set ps i q) ≡ sizes ps
sizes-set [] i p q e s = cc
sizes-set (r ∷ ps) zero p q e s = ground arith
sizes-set (r ∷ ps) (suc i) p q e s = ap (λ l. r.size ∷ l) (sizes-set ps i p q e s)

pub count-le-length :
    (ps : List ProcessMemory) → get_process_memories_list_not_in_disk_count ps ≤ length ps
unfolding get_process_memories_list_not_in_disk_count
count-le-length [] = omega arith
count-le-length (p ∷ ps) = ground (arith, count-le-length ps)

pub get_elem?-sizes :
    (ps : List ProcessMemory) (i : ℕ) (p : ProcessMemory)
    → get_elem? ps i ≡ some p
    → get_elem? (sizes ps) i ≡ some p.size
get_elem?-sizes [] i p e = cc
get_elem?-sizes (q ∷ ps) zero p e = ground arith
get_elem?-sizes (q ∷ ps) (suc i) p e = get_elem?-sizes ps i p e

pub length-sizes : (ps : List ProcessMemory) → length (sizes ps) ≡ length ps
length-sizes [] = refl
length-sizes (p ∷ ps) = ap suc (length-sizes ps)

-- A process memory in the disk that joins the list holds no address.
module _ (q : ProcessMemory) (d : q.start_address ≡ in_disk) where
  pub resident-add :
      (ps : List ProcessMemory) (x : ℕ)
      → resident (add_process_memory_to_process_memories_list q ps) x ≡ resident ps x
  unfolding add_process_memory_to_process_memories_list
  resident-add [] x = ground arith
  resident-add (p ∷ ps) x = omega (arith, resident-add ps x)

  pub count-add :
      (ps : List ProcessMemory)
      → get_process_memories_list_not_in_disk_count
          (add_process_memory_to_process_memories_list q ps)
        ≡ get_process_memories_list_not_in_disk_count ps
  unfolding add_process_memory_to_process_memories_list get_process_memories_list_not_in_disk_count
  count-add [] = ground arith
  count-add (p ∷ ps) = omega (arith, count-add ps)

pub add-append :
    (q : ProcessMemory) (ps : List ProcessMemory)
    → add_process_memory_to_process_memories_list q ps ≡ ps ++ q ∷ []
unfolding add_process_memory_to_process_memories_list
add-append q [] = refl
add-append q (p ∷ ps) = ap (λ l. p ∷ l) (add-append q ps)

pub sizes-append : (ps qs : List ProcessMemory) → sizes (ps ++ qs) ≡ sizes ps ++ sizes qs
sizes-append [] qs = refl
sizes-append (p ∷ ps) qs = ap (λ l. p.size ∷ l) (sizes-append ps qs)

pub get_elem?-append {ℓ} :
    {A : Type ℓ} (xs ys : List A) (i : ℕ) {a : A}
    → get_elem? xs i ≡ some a
    → get_elem? (xs ++ ys) i ≡ some a
get_elem?-append [] ys i e = cc
get_elem?-append (x ∷ xs) ys zero e = e
get_elem?-append (x ∷ xs) ys (suc i) e = get_elem?-append xs ys i e

pub get_elem?-some-lt {ℓ} :
    {A : Type ℓ} (xs : List A) (i : ℕ) {a : A} → get_elem? xs i ≡ some a → i < length xs
get_elem?-some-lt [] i e = cc
get_elem?-some-lt (x ∷ xs) zero e = omega arith
get_elem?-some-lt (x ∷ xs) (suc i) e = omega (arith, get_elem?-some-lt xs i e)
