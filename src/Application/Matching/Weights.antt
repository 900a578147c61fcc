-- ===== src/Application/Matching/Weights.antt =====
-- The weights of the ranking that the service is made with (`validWeights` and `withDefaults` of
-- backend/internal/application/matching/service.go).
use llm_dating_app.Platform.{Float, finite, is_less, unit, is_at_most_zero}
use llm_dating_app.Prelude.{◌≡◌, Bool, true, false, not, ◌&&◌, ◌||◌, arith, if◌then◌else◌, pos}
use llm_dating_app.Domain.Matching.{RankingWeights, total}

abbrev is_nan : Float → Bool
is_nan Float.nan = true
is_nan _ = false

abbrev is_infinite : Float → Bool
is_infinite Float.neg_infinity = true
is_infinite Float.pos_infinity = true
is_infinite _ = false

abbrev is_refused : Float → Bool
is_refused x = is_less x (finite (pos 0)) || is_nan x || is_infinite x

unfoldable pub valid_weights : RankingWeights → Bool
unfolding total
valid_weights w =
    not (is_refused w.interests)
    && not (is_refused w.questionnaire)
    && not (is_refused w.distance)
    && not (is_refused w.activity)
    && is_less (finite (pos 0)) (total w)

abbrev pub default_weights : RankingWeights
default_weights = record {
  interests = finite (pos 350_000);
  questionnaire = finite (pos 300_000);
  distance = finite (pos 200_000);
  activity = finite (pos 150_000);
}

unfoldable pub with_default_weights : RankingWeights → RankingWeights
unfolding valid_weights
with_default_weights w = if valid_weights w then w else default_weights

-- What `float64Env` accepts of a weight.
abbrev pub is_accepted : Float → Bool
is_accepted x = not (is_less x (finite (pos 0))) && not (is_less (finite (pos unit)) x)

-- Of the weights that a configuration is accepted with, the service takes all as they are, unless one
-- is NaN, which is neither below the least weight nor above the greatest: then it takes none.
pub with_default_weights-accepted :
    (w : RankingWeights)
    → is_accepted w.interests ≡ true
    → is_accepted w.questionnaire ≡ true
    → is_accepted w.distance ≡ true
    → is_accepted w.activity ≡ true
    → is_at_most_zero (total w) ≡ false
    → with_default_weights w ≡ (
        if is_nan w.interests || is_nan w.questionnaire || is_nan w.distance || is_nan w.activity
        then default_weights
        else w)
unfolding with_default_weights total
with_default_weights-accepted w a b c d e = ground arith
