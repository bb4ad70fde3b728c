-- ===== src/OverTime/History.antt =====
-- The history: the slots of the last day, each of the ring once, in the order of their times.
use nimbusdns.Common.{
  ℕ, zero, suc, ◌+◌, ◌-◌, ◌%◌, ◌≤◌, ◌<◌, ◌≡◌, refl, sym, ◌∙◌, subst, inl, inr, Bool, true, ◌&&◌,
  ℕ_discrete, List, [], ◌∷◌, keep, leb, arith, All, All-imp, Bool-cases, if◌then◌else◌,
}
use native.Mathlib.Nat.{le_trans}
use nimbusdns.OverTime.{
  TimeSlot, OverTime, slot_index, slot_at, insert_sorted, sort_slots, walk_back, recent,
  recent_slots, get_history,
}

-- The times do not decrease.
abbrev pub Sorted : List TimeSlot → Type 0
Sorted [] = Unit
Sorted (s ∷ slots) = All (λ t. s.timestamp ≤ t.timestamp) slots × Sorted slots

-- How often a test holds in a list.
unfoldable pub count_if : (TimeSlot → Bool) → List TimeSlot → ℕ
count_if p [] = 0
count_if p (s ∷ slots) = let rest = count_if p slots in if p s then rest + 1 else rest

insert_sorted-All :
    (P : TimeSlot → Type 0) (s : TimeSlot) (slots : List TimeSlot)
    → P s
    → All P slots
    → All P (insert_sorted s slots)
unfolding insert_sorted
insert_sorted-All P s [] h k = (h, tt)
insert_sorted-All P s (t ∷ slots) h k = elim (Bool-cases (leb s.timestamp t.timestamp)) [
  | inl e ↦ rw e (h, k)
  | inr e ↦ rw e (k.0, insert_sorted-All P s slots h k.1)
]

insert_sorted-Sorted :
    (s : TimeSlot) (slots : List TimeSlot) → Sorted slots → Sorted (insert_sorted s slots)
unfolding insert_sorted
insert_sorted-Sorted s [] h = (tt, tt)
insert_sorted-Sorted s (t ∷ slots) h = elim (Bool-cases (leb s.timestamp t.timestamp)) [
  | inl e ↦
      let le : s.timestamp ≤ t.timestamp = ground arith in
      rw e ((le, All-imp _ (λ x k. le_trans le k) slots h.0), h)
  | inr e ↦ rw e (insert_sorted-All _ s slots (ground arith) h.0, insert_sorted-Sorted s slots h.1)
]

sort_slots-Sorted : (slots : List TimeSlot) → Sorted (sort_slots slots)
unfolding sort_slots
sort_slots-Sorted [] = tt
sort_slots-Sorted (s ∷ slots) = insert_sorted-Sorted s (sort_slots slots) (sort_slots-Sorted slots)

count_if-insert_sorted :
    (p : TimeSlot → Bool) (s : TimeSlot) (slots : List TimeSlot)
    → count_if p (insert_sorted s slots) ≡ count_if p (s ∷ slots)
unfolding insert_sorted count_if
count_if-insert_sorted p s [] = refl
count_if-insert_sorted p s (t ∷ slots) = ground (arith, count_if-insert_sorted p s slots)

count_if-sort_slots :
    (p : TimeSlot → Bool) (slots : List TimeSlot) → count_if p (sort_slots slots) ≡ count_if p slots
unfolding sort_slots count_if
count_if-sort_slots p [] = refl
count_if-sort_slots p (s ∷ slots) =
    ground (arith, count_if-insert_sorted p s (sort_slots slots), count_if-sort_slots p slots)

count_if-keep :
    (p q : TimeSlot → Bool) (slots : List TimeSlot)
    → count_if p (keep q slots) ≡ count_if (λ s. p s && q s) slots
unfolding count_if
count_if-keep p q [] = refl
count_if-keep p q (s ∷ slots) = ground (arith, count_if-keep p q slots)

walk_back-some :
    (p : TimeSlot → Bool) (current : ℕ) (slots : List TimeSlot) (n i : ℕ)
    → 0 < count_if p (walk_back n i current slots)
    → (j : ℕ) × (j < 144) × (p (slot_at j slots) ≡ true)
unfolding walk_back count_if
walk_back-some p current slots zero i h = absurd (omega arith)
walk_back-some p current slots (suc n) i h =
    elim (Bool-cases (p (slot_at ((current + 144 - i) % 144) slots))) [
      | inl e ↦ ((current + 144 - i) % 144, omega arith, e)
      | inr e ↦ walk_back-some p current slots n (i + 1) (ground arith)
    ]

walk_back-visits :
    (p : TimeSlot → Bool) (current : ℕ) (slots : List TimeSlot) (k : ℕ)
    → p (slot_at ((current + 144 - k) % 144) slots) ≡ true
    → (n i : ℕ) → i ≤ k
    → k < i + n
    → 0 < count_if p (walk_back n i current slots)
unfolding walk_back count_if
walk_back-visits p current slots k h zero i le lt = absurd (omega arith)
walk_back-visits p current slots k h (suc n) i le lt = elim (ℕ_discrete i k) [
  | yes e ↦
      let here : p (slot_at ((current + 144 - i) % 144) slots) ≡ true =
        subst (λ x. p (slot_at ((current + 144 - x) % 144) slots) ≡ true) (sym e) h in
      rw here (omega arith)
  | no ne ↦ ground (arith, walk_back-visits p current slots k h n (i + 1))
]

distance :
    (current j : ℕ)
    → current < 144
    → j < 144
    → (current + 144 - (current + 144 - j) % 144) % 144 ≡ j
distance current j c h = omega arith

module _ (now : ℕ) (o : OverTime) where
  both : (TimeSlot → Bool) → TimeSlot → Bool
  both p s = p s && recent now s

  count_if-get_history :
      (p : TimeSlot → Bool)
      → count_if p (get_history now o)
        ≡ count_if (both p) (walk_back 144 0 (slot_index now) o.slots)
  unfolding get_history recent_slots both
  count_if-get_history p = count_if-sort_slots p _ ∙ count_if-keep p (recent now) _

  slot_index_lt : slot_index now < 144
  unfolding slot_index
  slot_index_lt = omega arith

  -- The history is in the order of the times; it holds only slots of the ring that began at most a day
  -- before the current slot; and each such slot of the ring is in it.
  pub get_history-Sorted :
      Sorted (get_history now o)
      × ((p : TimeSlot → Bool)
          → 0 < count_if p (get_history now o)
          → (j : ℕ) × (j < 144)
            × (p (slot_at j o.slots) ≡ true)
            × (recent now (slot_at j o.slots) ≡ true))
      × ((p : TimeSlot → Bool) (j : ℕ)
          → j < 144
          → p (slot_at j o.slots) ≡ true
          → recent now (slot_at j o.slots) ≡ true
          → 0 < count_if p (get_history now o))
  unfolding get_history recent_slots both
  get_history-Sorted = (
    sort_slots-Sorted _,
    λ p h.
        let (j, lt, e) =
          walk_back-some (both p) (slot_index now) o.slots 144 0
            (subst (λ n. 0 < n) (count_if-get_history p) h) in
        (j, lt, ground arith, ground arith),
    λ p j lt h r.
        let k = (slot_index now + 144 - j) % 144 in
        let at : both p (slot_at ((slot_index now + 144 - k) % 144) o.slots) ≡ true =
          rw (distance (slot_index now) j slot_index_lt lt) (ground arith) in
        subst (λ n. 0 < n) (sym (count_if-get_history p))
          (walk_back-visits (both p) (slot_index now) o.slots k at 144 0 (omega arith)
            (omega arith)),
  )
