-- ===== src/Keyset.antt =====
-- Listings that a client reads page by page, where a cursor holds the place of the last entry of the
-- page before: `ORDER BY … LIMIT` with the condition of the cursor, one entry more asked for than the
-- page holds. History, ListMatches and Discover are such listings.
pub mod Selecting
pub mod Sorting
pub mod Pages
pub mod Following
use llm_dating_app.Prelude.{
  ℕ, ◌+◌, ◌≡◌, Bool, true, false, ◌&&◌, Option, none, some, List, [], ◌∷◌, ltb, ◌==◌, if◌then◌else◌,
  length, take, select,
}

-- The order of a listing, the cursor of an entry, and which entries are behind a cursor.
pub record Keyset (A C : Type 0) : Type 0 where
  pub id : A → ℕ
  pub precedes : A → A → Bool
  pub cursor : A → C
  pub is_after : Option C → A → Bool

-- The order is a strict one that decides between entries of different ids, and the entries behind the
-- cursor of an entry are those that it comes before.
pub record IsKeyset {A C : Type 0} (k : Keyset A C) : Type 0 where
  pub precedes_trans :
      (a b c : A) → k.precedes a b ≡ true → k.precedes b c ≡ true → k.precedes a c ≡ true
  pub precedes_asym : (a b : A) → k.precedes a b ≡ true → k.precedes b a ≡ false
  pub precedes_total :
      (a b : A) → (k.id b == k.id a) ≡ false → k.precedes a b ≡ false → k.precedes b a ≡ true
  pub is_after_none : (x : A) → k.is_after none x ≡ true
  pub is_after_cursor :
      (b : Option C) (x m : A)
      → k.is_after b x ≡ true
      → k.is_after (some (k.cursor x)) m ≡ (k.is_after b m && k.precedes x m)

pub record Page (A C : Type 0) : Type 0 where
  pub entries : List A
  pub next_cursor : Option C

-- The last entry of a page.
abbrev pub last : {A : Type 0} → List A → Option A
last [] = none
last (m ∷ []) = some m
last (m ∷ n ∷ ms) = last (n ∷ ms)

abbrev pub cursor_of : {A C : Type 0} → (A → C) → Option A → Option C
cursor_of cursor none = none
cursor_of cursor (some m) = some (cursor m)

-- The page of a listing that asked for one entry more than the page holds.
unfoldable pub page_of : {A C : Type 0} → (A → C) → ℕ → List A → Page A C
page_of cursor size ms =
    if ltb size (length ms)
    then record { entries = take size ms; next_cursor = cursor_of cursor (last (take size ms)) }
    else record { entries = ms; next_cursor = none }

unfoldable pub insert_by : {A : Type 0} → (A → A → Bool) → A → List A → List A
insert_by first m [] = m ∷ []
insert_by first m (x ∷ xs) = if first m x then m ∷ x ∷ xs else x ∷ insert_by first m xs

-- `ORDER BY`
unfoldable pub sort_by : {A : Type 0} → (A → A → Bool) → List A → List A
unfolding insert_by
sort_by first [] = []
sort_by first (m ∷ ms) = insert_by first m (sort_by first ms)

-- The rows that are wanted and behind the cursor, in order.
abbrev pub remaining : {A C : Type 0} → Keyset A C → (A → Bool) → List A → Option C → List A
remaining k wanted rows before =
    sort_by k.precedes (select (λ x. wanted x && k.is_after before x) rows)

-- What a page is to be: the first of the remaining rows.
abbrev pub page_at : {A C : Type 0} → Keyset A C → (A → Bool) → List A → ℕ → Option C → Page A C
page_at k wanted rows size before =
    page_of k.cursor size (take (size + 1) (remaining k wanted rows before))
