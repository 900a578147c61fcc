-- ===== src/Keyset/Following.antt =====
-- The pages that a client gets by following the cursors of a listing.
use llm_dating_app.Prelude.{
  ℕ, zero, suc, ◌+◌, ◌≤◌, ◌<◌, ◌≡◌, sym, ap, subst, ◌∙◌, inl, inr, Bool, true, ◌&&◌, Option, none,
  some, List, [], ◌++◌, arith, Option-cases, lt_or_le, length, take, select, All, All-mono,
}
use llm_dating_app.Keyset.{Page, Keyset, IsKeyset, remaining, sort_by, page_at, cursor_of, page_of}
use llm_dating_app.Keyset.Sorting.{
  HasDistinctIds, IsDescending, All-sort_by, sort_by-IsDescending, select-HasDistinctIds,
  sort_by-select, length-sort_by,
}
use llm_dating_app.Keyset.Selecting.{
  select-holds, select-cong, last-some, length-select, length-take, length-append, select-and,
  last-All, All-take, append-nil, take_add,
}
use llm_dating_app.Keyset.Pages.{page_of-nonempty, take-select, page_of-more, page_of-whole}

-- The pages in a row, `fuel` of them at most.
unfoldable pub follow : {A C : Type 0} → (Option C → Page A C) → ℕ → Option C → List A
follow page_from zero before = []
follow page_from (suc fuel) before =
    let page = page_from before in
    page.entries ++ elim page.next_cursor [ none ↦ [] | some c ↦ follow page_from fuel (some c) ]

module _ {A C : Type 0} (k : Keyset A C) (laws : IsKeyset k) (wanted : A → Bool) (rows : List A)
    (d : HasDistinctIds k rows) where
  abbrev left : Option C → List A
  left before = remaining k wanted rows before

  abbrev after_cursor : Option C → List A
  after_cursor none = []
  after_cursor (some c) = left (some c)

  abbrev listed : Option C → A → Bool
  listed b m = wanted m && k.is_after b m

  remaining-IsDescending : (b : Option C) → IsDescending k (left b)
  remaining-IsDescending b =
      sort_by-IsDescending k laws (select (listed b) rows)
        (select-HasDistinctIds k (listed b) rows d)

  remaining-is_after : (b : Option C) → All (λ m. k.is_after b m ≡ true) (left b)
  remaining-is_after b =
      All-sort_by k.precedes (λ m. k.is_after b m ≡ true) (select (listed b) rows)
        (All-mono (λ m. listed b m ≡ true) (λ m. k.is_after b m ≡ true) (select (listed b) rows)
          (λ m e. ground arith) (select-holds (listed b) rows))

  listed-cursor :
      (b : Option C) (x m : A)
      → k.is_after b x ≡ true
      → listed (some (k.cursor x)) m ≡ (listed b m && k.precedes x m)
  listed-cursor b x m h = ground (arith, laws.is_after_cursor b x m h)

  remaining-select :
      (b : Option C) (x : A)
      → k.is_after b x ≡ true
      → left (some (k.cursor x)) ≡ select (k.precedes x) (left b)
  remaining-select b x h =
      let ms = sort_by k.precedes rows in
      ap (sort_by k.precedes) (
        select-cong (listed (some (k.cursor x))) (λ m. listed b m && k.precedes x m) rows
          (λ m. listed-cursor b x m h))
      ∙ sort_by-select k laws (λ m. listed b m && k.precedes x m) rows d
      ∙ select-and (listed b) (k.precedes x) ms
      ∙ ap (select (k.precedes x)) (sym (sort_by-select k laws (listed b) rows d))

  page-remaining :
      (n : ℕ) (b : Option C)
      → let page = page_at k wanted rows (suc n) b in
        left b ≡ page.entries ++ after_cursor page.next_cursor
  page-remaining n b =
      let l = left b in
      let shorter = ap (page_of k.cursor (suc n)) (take_add (suc n) l) in
      let whole = λ (p : Page A C). l ≡ p.entries ++ after_cursor p.next_cursor in
      elim (lt_or_le (suc n) (length l)) [
        | inl more ↦
            let (x, e) = last-some (take (suc n) l) (ground (arith, length-take (suc n) l)) in
            let seen =
              last-All (λ m. k.is_after b m ≡ true) (take (suc n) l) x
                (All-take (λ m. k.is_after b m ≡ true) (suc n) l (remaining-is_after b)) e in
            let there = take-select k laws n l x (remaining-IsDescending b) e in
            subst whole (sym (shorter ∙ page_of-more k.cursor (suc n) l more)) (
              there
              ∙ ap (λ r. take (suc n) l ++ r)
                  (sym (remaining-select b x seen)
                    ∙ ap (λ o. after_cursor (cursor_of k.cursor o)) (sym e)))
        | inr few ↦
            subst whole (sym (shorter ∙ page_of-whole k.cursor (suc n) l few)) (sym (append-nil l))
      ]

  follow-remaining :
      (fuel n : ℕ) (b : Option C)
      → length (left b) < fuel
      → follow (page_at k wanted rows (suc n)) fuel b ≡ left b
  unfolding follow
  follow-remaining zero n b h = absurd (omega arith)
  follow-remaining (suc fuel) n b h =
      let page = page_at k wanted rows (suc n) b in
      let whole = page-remaining n b in
      let tail : Option C → List A =
        λ o. elim o [ none ↦ [] | some c ↦ follow (page_at k wanted rows (suc n)) fuel (some c) ] in
      elim (Option-cases page.next_cursor) [
        | inl e ↦
            ap (λ o. page.entries ++ tail o) e
            ∙ sym (whole ∙ ap (λ o. page.entries ++ after_cursor o) e)
        | inr (c, e) ↦
            let rest = left (some c) in
            let some' = page_of-nonempty k.cursor n (take (suc n + 1) (left b)) c e in
            let parts : left b ≡ page.entries ++ rest =
              whole ∙ ap (λ o. page.entries ++ after_cursor o) e in
            let size = ap length parts ∙ length-append page.entries rest in
            let next = follow-remaining fuel n (some c) (omega arith) in
            ap (λ o. page.entries ++ tail o) e ∙ ap (λ r. page.entries ++ r) next ∙ sym parts
      ]

  -- Following the cursors through pages of a positive size lists the rows that are wanted, in order
  -- and each once, and no more pages are needed than there are rows, and one.
  pub follow-wanted :
      (size fuel : ℕ)
      → 1 ≤ size
      → length rows < fuel
      → follow (page_at k wanted rows size) fuel none ≡ sort_by k.precedes (select wanted rows)
  follow-wanted zero fuel one h = absurd (omega arith)
  follow-wanted (suc n) fuel one h =
      let few = length-select (listed none) rows in
      let same = length-sort_by k.precedes (select (listed none) rows) in
      follow-remaining fuel n none (omega arith)
      ∙ ap (sort_by k.precedes)
          (select-cong (listed none) wanted rows (λ m. ground (arith, laws.is_after_none m)))
