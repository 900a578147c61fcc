-- ===== src/Keyset/Pages.antt =====
-- One page of a listing.
use llm_dating_app.Prelude.{
  ℕ, zero, suc, ◌≤◌, ◌<◌, min, ◌≡◌, refl, sym, ap, subst, inl, inr, true, false, none, some, List,
  [], ◌∷◌, ◌++◌, arith, ltb, is_some, Bool-cases, length, take, select, All,
}
use llm_dating_app.Keyset.{cursor_of, page_of, Keyset, last, IsKeyset}
use llm_dating_app.Keyset.Selecting.{
  length-take, take-take, take-le, select-whole, last-All, All-take,
}
use llm_dating_app.Keyset.Sorting.{IsAfter, IsDescending}

module _ {A C : Type 0} (cursor : A → C) where
  cursor_of-last : (ms : List A) → 1 ≤ length ms → is_some (cursor_of cursor (last ms)) ≡ true
  cursor_of-last [] h = ground arith
  cursor_of-last (m ∷ []) h = refl
  cursor_of-last (m ∷ n ∷ ms) h = cursor_of-last (n ∷ ms) (omega arith)

  -- A page of a positive size has as many entries as there are, up to its size, and a cursor exactly
  -- when there are more.
  pub page_of-size :
      (size : ℕ) (ms : List A)
      → 1 ≤ size
      → (length (page_of cursor size ms).entries ≡ min size (length ms))
        × (is_some (page_of cursor size ms).next_cursor ≡ ltb size (length ms))
  unfolding page_of
  page_of-size size ms h = ground (arith, length-take size ms, cursor_of-last (take size ms))

  -- The two cases of a page of what is left.
  pub page_of-more :
      (n : ℕ) (ms : List A)
      → n < length ms
      → page_of cursor n (take (suc n) ms)
        ≡ record { entries = take n ms; next_cursor = cursor_of cursor (last (take n ms)) }
  unfolding page_of
  page_of-more n ms h = ground (arith, length-take (suc n) ms, take-take n ms)

  pub page_of-whole :
      (n : ℕ) (ms : List A)
      → length ms ≤ n
      → page_of cursor n (take (suc n) ms) ≡ record { entries = ms; next_cursor = none }
  unfolding page_of
  page_of-whole n ms h = ground (arith, length-take (suc n) ms, take-le (suc n) ms (omega arith))

  pub page_of-nonempty :
      (n : ℕ) (ms : List A) (c : C)
      → (page_of cursor (suc n) ms).next_cursor ≡ some c
      → 1 ≤ length (page_of cursor (suc n) ms).entries
  unfolding page_of
  page_of-nonempty n ms c e = ground (arith, length-take (suc n) ms)

module _ {A C : Type 0} (k : Keyset A C) (laws : IsKeyset k) where
  precedes_irrefl : (a : A) → k.precedes a a ≡ false
  precedes_irrefl a = elim (Bool-cases (k.precedes a a)) [
    | inl e ↦ laws.precedes_asym a a e
    | inr e ↦ e
  ]

  take-own :
      (m x : A) (ms : List A)
      → All (IsAfter k m) ms
      → m ≡ x
      → m ∷ ms ≡ m ∷ select (k.precedes x) (m ∷ ms)
  take-own m x ms d same =
      let own : select (k.precedes m) (m ∷ ms) ≡ ms =
        ground (arith, precedes_irrefl m, select-whole (k.precedes m) ms d) in
      subst (λ y. m ∷ ms ≡ m ∷ select (k.precedes y) (m ∷ ms)) same (ap (λ l. m ∷ l) (sym own))

  -- The entries behind a page are those that come after its last one.
  pub take-select :
      (n : ℕ) (ms : List A) (x : A)
      → IsDescending k ms
      → last (take (suc n) ms) ≡ some x
      → ms ≡ take (suc n) ms ++ select (k.precedes x) ms
  take-select n [] x d e = cc
  take-select zero (m ∷ ms) x d e = take-own m x ms d.0 cc
  take-select (suc n) (m ∷ []) x d e = take-own m x [] tt cc
  take-select (suc n) (m ∷ y ∷ ms) x d e =
      let ahead =
        last-All (IsAfter k m) (take (suc n) (y ∷ ms)) x
          (All-take (IsAfter k m) (suc n) (y ∷ ms) d.0) e in
      rw (laws.precedes_asym m x ahead) (ap (λ l. m ∷ l) (take-select n (y ∷ ms) x d.1 e))
