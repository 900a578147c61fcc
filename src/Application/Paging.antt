-- ===== src/Application/Paging.antt =====
-- Page sizes: `pageLimit` and `withDefaults` of application/matching/service.go and
-- `normalizePageSize` of application/messaging/service.go. Requests and settings are Go's `int`.
use llm_dating_app.Prelude.{
  ℕ, suc, ◌≤◌, ◌<◌, max, ◌≡◌, ◌||◌, Option, none, some, arith, ltb, ◌==◌, if◌then◌else◌, ℤ, pos,
  negsuc,
}

pub record RawConfig : Type 0 where
  pub daily_swipe_limit : ℤ
  pub default_page_size : ℤ
  pub max_page_size : ℤ

pub record Config : Type 0 where
  pub daily_swipe_limit : ℕ
  pub default_page_size : ℕ
  pub max_page_size : ℕ

-- The setting, or the default where it is not positive or above the bound.
abbrev pub within_or : ℕ → Option ℕ → ℤ → ℕ
within_or d bound (negsuc _) = d
within_or d none (pos n) = if n == 0 then d else n
within_or d (some b) (pos n) = if n == 0 || ltb b n then d else n

-- The weights of the ranking are in Application/Matching/Weights.
unfoldable pub with_defaults : RawConfig → Config
with_defaults c =
    let top = within_or 50 (some 50) c.max_page_size in
    record {
      daily_swipe_limit = within_or 100 none c.daily_swipe_limit;
      max_page_size = top;
      default_page_size = within_or 20 (some top) c.default_page_size;
    }

unfoldable pub page_limit : Config → ℤ → Option ℕ
page_limit c (negsuc _) = none
page_limit c (pos n) =
    if ltb c.max_page_size n then none else if n == 0 then some c.default_page_size else some n

unfoldable pub normalize_page_size : ℤ → Option ℕ
normalize_page_size (negsuc _) = none
normalize_page_size (pos n) = if n == 0 then some 30 else if ltb 100 n then none else some n

-- A page size that is accepted is between 1 and 50, and at most the configured maximum where that is
-- at least 20.
pub page_limit_bounds :
    (c : RawConfig) (requested : ℤ) (n : ℕ)
    → page_limit (with_defaults c) requested ≡ some n
    → (1 ≤ n) × (n ≤ 50) × (n ≤ max 20 (with_defaults c).max_page_size)
unfolding page_limit with_defaults
page_limit_bounds c requested n e = ground arith

-- With a maximum below 20 and no default set, a request that names no size gets pages of 20, more
-- than the maximum.
pub page_limit_above_max :
    (c : RawConfig) (m : ℕ)
    → c.max_page_size ≡ pos (suc m)
    → suc m < 20
    → c.default_page_size ≡ pos 0
    → (page_limit (with_defaults c) (pos 0) ≡ some 20) × ((with_defaults c).max_page_size ≡ suc m)
unfolding page_limit with_defaults
page_limit_above_max c m e h d = ground arith

-- A page size of messages that is accepted is between 1 and 100.
pub normalize_page_size_bounds :
    (requested : ℤ) (n : ℕ) → normalize_page_size requested ≡ some n → (1 ≤ n) × (n ≤ 100)
unfolding normalize_page_size
normalize_page_size_bounds requested n e = ground arith
