-- ===== src/Producers/Order.antt =====
-- The buffer is a queue: what the steps of a critical section keep.
use comp.Base.{
  ℕ, suc, ◌+◌, ◌-◌, ◌≤◌, ◌<◌, ◌≡◌, refl, sym, ap, ◌∙◌, List, [], ◌∷◌, ◌++◌, some, true, false, ltb,
  leb, ◌==◌, length, get_elem?, set, take, drop, arith, ok, length-set, get_elem?-lt,
  get_elem?-set_self, take-set, take-suc, drop-get_elem?, take-shift, inl, inr, Bool-cases,
}
use mathlib.Core.List.{append_assoc, append-nil}
use comp.Producers.{
  buffer_size, Buffer, Critical, inserting, written, stored, removing, taken, shifting, fetched,
  critical_step,
}

-- The items in the buffer, the next to be removed first.
abbrev pub contents : Buffer → List ℕ
contents b = take (buffer_size - b.buffer_space) b.buffer

-- No thread is halfway through a change: what was inserted is what was removed and what is still there.
pub record Tidy (b : Buffer) : Type 0 where
  pub size : length b.buffer ≡ buffer_size
  pub space : b.buffer_space ≤ buffer_size
  pub order : b.inserted ≡ b.removed ++ contents b

-- Halfway through the loop of remove_item.
pub record Shifting (b : Buffer) (i buf_pos : ℕ) : Type 0 where
  pub size : length b.buffer ≡ buffer_size
  pub count : buf_pos + b.buffer_space ≡ buffer_size
  pub within : i ≤ buf_pos
  pub room : buf_pos < buffer_size
  pub order :
      b.inserted ≡ b.removed ++ (take i b.buffer ++ take (buf_pos - i) (drop (suc i) b.buffer))

abbrev pub Fits : Critical → Buffer → Type 0
Fits (inserting item) b = Tidy b × (1 ≤ b.buffer_space)
Fits (written item) b =
    Tidy b × (1 ≤ b.buffer_space) × (get_elem? b.buffer (buffer_size - b.buffer_space) ≡ some item)
Fits (stored item) b = Tidy b
Fits removing b = Tidy b × (b.buffer_space < buffer_size)
Fits (taken item buf_pos) b =
    Tidy b
    × (b.buffer_space < buffer_size)
    × (get_elem? b.buffer 0 ≡ some item)
    × (buf_pos + suc b.buffer_space ≡ buffer_size)
Fits (shifting item i buf_pos) b = Shifting b i buf_pos
Fits (fetched item) b = Tidy b

-- The space that a thread has been given but not yet taken off buffer_space, or that it has added to
-- buffer_space but not yet given back.
abbrev pub held_space : Critical → ℕ
held_space (inserting item) = 1
held_space (written item) = 1
held_space (shifting item i buf_pos) = 1
held_space (fetched item) = 1
held_space _ = 0

-- The same for the items.
abbrev pub held_items : Critical → ℕ
held_items (stored item) = 1
held_items removing = 1
held_items (taken item buf_pos) = 1
held_items _ = 0

pub record Progress (c : Critical) (b : Buffer) : Type 0 where
  pub next : Critical
  pub after : Buffer
  pub result : critical_step c b ≡ ok (next, after)
  pub fits : Fits next after
  pub spaces : after.buffer_space + held_space c ≡ b.buffer_space + held_space next
  pub items : after.buffer_space + held_items next ≡ b.buffer_space + held_items c

module _ (b : Buffer) where
  inserting-Progress : (item : ℕ) → Fits (inserting item) b → Progress (inserting item) b
  unfolding critical_step
  inserting-Progress item (t, room) =
      let pos = buffer_size - b.buffer_space in
      let inside : ltb pos (length b.buffer) ≡ true = ground (arith, t.size, room) in
      let (old, e) = get_elem?-lt b.buffer pos (omega (arith, t.size, room)) in
      let fitting : leb b.buffer_space buffer_size ≡ true = ground (arith, t.space) in
      record {
        next = written item;
        after = record b { buffer = set b.buffer pos item };
        result = simp (fitting, inside);
        fits = (
          record {
            size = length-set b.buffer pos item ∙ t.size;
            space = t.space;
            order = t.order ∙ ap (λ l. b.removed ++ l) (sym (take-set b.buffer pos item));
          },
          room,
          get_elem?-set_self b.buffer pos old item e,
        );
        spaces = refl;
        items = refl;
      }

  written-Progress : (item : ℕ) → Fits (written item) b → Progress (written item) b
  unfolding critical_step
  written-Progress item (t, room, e) =
      let some_space : (b.buffer_space == 0) ≡ false = ground (arith, room) in
      let one_more : buffer_size - (b.buffer_space - 1) ≡ suc (buffer_size - b.buffer_space) =
        omega (arith, room, t.space) in
      let now = take-suc b.buffer (buffer_size - b.buffer_space) item e in
      record {
        next = stored item;
        after = record b { buffer_space = b.buffer_space - 1; inserted = b.inserted ++ item ∷ [] };
        result = simp some_space;
        fits = record {
          size = t.size;
          space = omega (arith, t.space);
          order =
              ap (λ l. l ++ item ∷ []) t.order
              ∙ append_assoc b.removed (contents b) (item ∷ [])
              ∙ ap (λ l. b.removed ++ l) (sym now ∙ ap (λ k. take k b.buffer) (sym one_more));
        };
        spaces = omega (arith, room);
        items = omega (arith, room);
      }

  removing-Progress : Fits removing b → Progress removing b
  unfolding critical_step
  removing-Progress (t, filled) =
      let (item, e) = get_elem?-lt b.buffer 0 (omega (arith, t.size)) in
      record {
        next = taken item (buffer_size - b.buffer_space - 1);
        after = b;
        result = simp e;
        fits = (t, filled, e, omega (arith, filled));
        spaces = refl;
        items = refl;
      }

  taken-Progress :
      (item buf_pos : ℕ) → Fits (taken item buf_pos) b → Progress (taken item buf_pos) b
  unfolding critical_step
  taken-Progress item buf_pos (t, filled, e, p) =
      let all : buffer_size - b.buffer_space ≡ suc buf_pos = omega (arith, p) in
      let whole : buf_pos - 0 ≡ buf_pos = omega arith in
      let row : take (suc buf_pos) b.buffer ≡ item ∷ take buf_pos (drop 1 b.buffer) =
        ap (take (suc buf_pos)) (drop-get_elem? b.buffer 0 item e) in
      record {
        next = shifting item 0 buf_pos;
        after = record b { buffer_space = b.buffer_space + 1; removed = b.removed ++ item ∷ [] };
        result = refl;
        fits = record {
          size = t.size;
          count = omega (arith, p);
          within = omega arith;
          room = omega (arith, p);
          order =
              t.order
              ∙ ap (λ k. b.removed ++ take k b.buffer) all
              ∙ ap (λ l. b.removed ++ l) row
              ∙ sym (append_assoc b.removed (item ∷ []) (take buf_pos (drop 1 b.buffer)))
              ∙ ap (λ k. (b.removed ++ item ∷ []) ++ take k (drop 1 b.buffer)) (sym whole);
        };
        spaces = omega arith;
        items = omega arith;
      }

  -- A round of the loop moves one item up.
  shifting-on :
      (item i rest buf_pos : ℕ)
      → buf_pos ≡ suc (i + rest)
      → Fits (shifting item i buf_pos) b
      → Progress (shifting item i buf_pos) b
  unfolding critical_step
  shifting-on item i rest buf_pos lt s =
      let (v, e) = get_elem?-lt b.buffer (suc i) (omega (arith, s.size, s.room, lt)) in
      let plus : i + 1 ≡ suc i = omega arith in
      let left : buf_pos - i ≡ suc rest = omega (arith, lt) in
      let left' : buf_pos - suc i ≡ rest = omega (arith, lt) in
      let goes : ltb i buf_pos ≡ true = ground (arith, lt) in
      let inside : ltb i (length b.buffer) ≡ true = ground (arith, s.size, s.room, lt) in
      record {
        next = shifting item (suc i) buf_pos;
        after = record b { buffer = set b.buffer i v };
        result = simp (goes, plus, e, inside);
        fits = record {
          size = length-set b.buffer i v ∙ s.size;
          count = s.count;
          within = omega (arith, lt);
          room = s.room;
          order =
              s.order
              ∙ ap (λ l. b.removed ++ l) (rw (left, left') (take-shift b.buffer i rest v e));
        };
        spaces = refl;
        items = refl;
      }

  shifting-end :
      (item i buf_pos : ℕ)
      → buf_pos ≤ i
      → Fits (shifting item i buf_pos) b
      → Progress (shifting item i buf_pos) b
  unfolding critical_step
  shifting-end item i buf_pos le s =
      let stops : ltb i buf_pos ≡ false = ground (arith, le) in
      let none_left : buf_pos - i ≡ 0 = omega (arith, le) in
      let here : i ≡ buffer_size - b.buffer_space = omega (arith, le, s.within, s.count) in
      record {
        next = fetched item;
        after = b;
        result = simp stops;
        fits = record {
          size = s.size;
          space = omega (arith, s.count);
          order =
              s.order
              ∙ ap (λ l. b.removed ++ l)
                  (ap (λ k. take i b.buffer ++ take k (drop (suc i) b.buffer)) none_left
                    ∙ append-nil (take i b.buffer)
                    ∙ ap (λ k. take k b.buffer) here);
        };
        spaces = refl;
        items = refl;
      }

  -- Every step of a critical section is defined and keeps what the section is to do.
  pub critical_step_lem : (c : Critical) → Fits c b → Progress c b
  unfolding critical_step
  critical_step_lem (inserting item) f = inserting-Progress item f
  critical_step_lem (written item) f = written-Progress item f
  critical_step_lem (stored item) f = record {
    next = stored item;
    after = b;
    result = refl;
    fits = f;
    spaces = refl;
    items = refl;
  }
  critical_step_lem removing f = removing-Progress f
  critical_step_lem (taken item buf_pos) f = taken-Progress item buf_pos f
  critical_step_lem (shifting item i buf_pos) f = elim (Bool-cases (ltb i buf_pos)) [
    | inl e ↦ shifting-on item i (buf_pos - suc i) buf_pos (ground (arith, e)) f
    | inr e ↦ shifting-end item i buf_pos (ground (arith, e)) f
  ]
  critical_step_lem (fetched item) f = record {
    next = fetched item;
    after = b;
    result = refl;
    fits = f;
    spaces = refl;
    items = refl;
  }
