-- ===== src/Keyset/Sorting.antt =====
-- What `ORDER BY` makes of the rows of a listing.
use llm_dating_app.Prelude.{
  ℕ, ◌+◌, ◌≡◌, refl, inl, inr, Bool, true, false, List, [], ◌∷◌, arith, ◌==◌, if◌then◌else◌,
  Bool-cases, length, select, All, All-mono,
}
use llm_dating_app.Keyset.{Keyset, insert_by, sort_by, IsKeyset}
use llm_dating_app.Keyset.Selecting.{All-select}

-- No two rows have the same key.
abbrev pub HasDistinct : {A : Type 0} → (A → ℕ) → List A → Type 0
HasDistinct id [] = Unit
HasDistinct id (m ∷ ms) = All (λ x. (id x == id m) ≡ false) ms × HasDistinct id ms

module _ {A C : Type 0} (k : Keyset A C) where
  abbrev pub IsAfter : A → A → Type 0
  IsAfter a b = k.precedes a b ≡ true

  -- Every entry comes before the ones behind it.
  abbrev pub IsDescending : List A → Type 0
  IsDescending [] = Unit
  IsDescending (m ∷ ms) = All (IsAfter m) ms × IsDescending ms

  abbrev IsOther : A → A → Type 0
  IsOther m x = (k.id x == k.id m) ≡ false

  abbrev pub HasDistinctIds : List A → Type 0
  HasDistinctIds ms = HasDistinct k.id ms

  pub select-HasDistinctIds :
      (p : A → Bool) (ms : List A) → HasDistinctIds ms → HasDistinctIds (select p ms)
  select-HasDistinctIds p [] d = tt
  select-HasDistinctIds p (m ∷ ms) d = elim (Bool-cases (p m)) [
    | inl e ↦ rw e (All-select (IsOther m) p ms d.0, select-HasDistinctIds p ms d.1)
    | inr e ↦ rw e (select-HasDistinctIds p ms d.1)
  ]

module _ {A : Type 0} (first : A → A → Bool) where
  All-insert_by :
      (P : A → Type 0) (m : A) (ms : List A) → P m → All P ms → All P (insert_by first m ms)
  unfolding insert_by
  All-insert_by P m [] p h = (p, tt)
  All-insert_by P m (x ∷ ms) p h = elim (Bool-cases (first m x)) [
    | inl e ↦ rw e (p, (h.0, h.1))
    | inr e ↦ rw e (h.0, All-insert_by P m ms p h.1)
  ]

  pub All-sort_by : (P : A → Type 0) (ms : List A) → All P ms → All P (sort_by first ms)
  unfolding sort_by
  All-sort_by P [] h = tt
  All-sort_by P (m ∷ ms) h = All-insert_by P m (sort_by first ms) h.0 (All-sort_by P ms h.1)

  length-insert_by : (m : A) (ms : List A) → length (insert_by first m ms) ≡ length ms + 1
  unfolding insert_by
  length-insert_by m [] = refl
  length-insert_by m (x ∷ ms) = ground (arith, length-insert_by m ms)

  pub length-sort_by : (ms : List A) → length (sort_by first ms) ≡ length ms
  unfolding sort_by
  length-sort_by [] = refl
  length-sort_by (m ∷ ms) = ground (arith, length-sort_by ms, length-insert_by m (sort_by first ms))

module _ {A C : Type 0} (k : Keyset A C) (laws : IsKeyset k) where
  All-later : (m x : A) (ms : List A) → IsAfter k m x → All (IsAfter k x) ms → All (IsAfter k m) ms
  All-later m x ms e h =
      All-mono (IsAfter k x) (IsAfter k m) ms (λ a l. laws.precedes_trans m x a e l) h

  insert_by-IsDescending :
      (m : A) (ms : List A)
      → All (IsOther k m) ms
      → IsDescending k ms
      → IsDescending k (insert_by k.precedes m ms)
  unfolding insert_by
  insert_by-IsDescending m [] n h = (tt, tt)
  insert_by-IsDescending m (x ∷ ms) n h = elim (Bool-cases (k.precedes m x)) [
    | inl e ↦ rw e ((e, All-later m x ms e h.0), (h.0, h.1))
    | inr e ↦ rw e (
      All-insert_by k.precedes (IsAfter k x) m ms (laws.precedes_total m x n.0 e) h.0,
      insert_by-IsDescending m ms n.1 h.1,
    )
  ]

  pub sort_by-IsDescending :
      (ms : List A) → HasDistinctIds k ms → IsDescending k (sort_by k.precedes ms)
  unfolding sort_by
  sort_by-IsDescending [] d = tt
  sort_by-IsDescending (m ∷ ms) d =
      insert_by-IsDescending m (sort_by k.precedes ms) (All-sort_by k.precedes (IsOther k m) ms d.0)
        (sort_by-IsDescending ms d.1)

  insert_by-first :
      (m : A) (ms : List A) → All (IsAfter k m) ms → insert_by k.precedes m ms ≡ m ∷ ms
  unfolding insert_by
  insert_by-first m [] h = refl
  insert_by-first m (x ∷ ms) h = rw h.0 refl

  select-insert_by :
      (p : A → Bool) (m : A) (ms : List A)
      → IsDescending k ms
      → select p (insert_by k.precedes m ms)
        ≡ (if p m then insert_by k.precedes m (select p ms) else select p ms)
  unfolding insert_by
  select-insert_by p m [] h = ground arith
  select-insert_by p m (x ∷ ms) h = elim (Bool-cases (k.precedes m x)) [
    | inl e ↦
        let later : All (IsAfter k m) (x ∷ ms) = (e, All-later m x ms e h.0) in
        ground (
          arith,
          e,
          insert_by-first m (select p (x ∷ ms)) (All-select (IsAfter k m) p (x ∷ ms) later),
        )
    | inr e ↦ ground (arith, e, select-insert_by p m ms h.1)
  ]

  pub sort_by-select :
      (p : A → Bool) (ms : List A)
      → HasDistinctIds k ms
      → sort_by k.precedes (select p ms) ≡ select p (sort_by k.precedes ms)
  unfolding sort_by
  sort_by-select p [] d = refl
  sort_by-select p (m ∷ ms) d = ground (
    arith,
    select-insert_by p m (sort_by k.precedes ms) (sort_by-IsDescending ms d.1),
    sort_by-select p ms d.1,
  )
