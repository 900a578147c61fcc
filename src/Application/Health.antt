-- ===== src/Application/Health.antt =====
-- backend/internal/application/health/service.go: liveness, and readiness from checks that run at the
-- same time. The goroutines write into the map under a mutex, so a run is the order in which they do.
use mathlib.Core.List.{Perm, Permᴰ}
use mathlib.Core.Logic.{∥∥₁_elim}
use llm_dating_app.Prelude.{
  ◌≡◌, refl, ap, ◌∙◌, inl, inr, Bool, true, false, ◌||◌, List, [], ◌∷◌, arith, if◌then◌else◌,
  Bool-cases, any, All, Text, text_eq,
}
use mathlib.Core.List.{Perm}

-- `StatusHealthy` and `StatusDegraded`, `CheckUp` and `CheckDown`
pub data Status : Type 0 where
  healthy degraded : Status

pub data CheckStatus : Type 0 where
  up down : CheckStatus

abbrev pub is_down : CheckStatus → Bool
is_down up = false
is_down down = true

pub record Check : Type 0 where
  pub name : Text
  pub status : CheckStatus

-- `Checks` is the map, one entry for a name.
pub record Result : Type 0 where
  pub status : Status
  pub checks : List Check

-- "process"
abbrev pub process : Text
process = b'p' ∷ b'r' ∷ b'o' ∷ b'c' ∷ b'e' ∷ b's' ∷ b's' ∷ []

unfoldable pub liveness : Result
liveness = record { status = healthy; checks = record { name = process; status = up } ∷ [] }

-- `result.Checks[name] = status`
unfoldable pub put : Check → List Check → List Check
put c [] = c ∷ []
put c (x ∷ xs) = let rest = put c xs in if text_eq x.name c.name then c ∷ xs else x ∷ rest

-- What a checker that has run writes: whether its check failed.
pub record Finished : Type 0 where
  pub name : Text
  pub has_failed : Bool

abbrev pub check_of : Finished → Check
check_of f = record { name = f.name; status = if f.has_failed then down else up }

unfoldable pub write_checks : List Finished → List Check → List Check
unfolding put
write_checks [] checks = checks
write_checks (f ∷ fs) checks = write_checks fs (put (check_of f) checks)

-- The result of a run in which the checkers finish in this order.
unfoldable pub readiness : List Finished → Result
unfolding write_checks
readiness finished =
    let checks = write_checks finished [] in
    record {
      status = if any (λ c. is_down c.status) checks then degraded else healthy;
      checks = checks;
    }

abbrev IsNewName : Text → Check → Type 0
IsNewName name c = text_eq c.name name ≡ false

abbrev pub HasDistinctNames : List Finished → Type 0
HasDistinctNames [] = Unit
HasDistinctNames (f ∷ fs) = All (λ g. text_eq f.name g.name ≡ false) fs × HasDistinctNames fs

any-put :
    (c : Check) (xs : List Check)
    → All (IsNewName c.name) xs
    → any (λ x. is_down x.status) (put c xs) ≡ (is_down c.status || any (λ x. is_down x.status) xs)
unfolding put
any-put c [] h = ground arith
any-put c (x ∷ xs) h = ground (arith, h.0, any-put c xs h.1)

All-put : (P : Check → Type 0) (c : Check) (xs : List Check) → P c → All P xs → All P (put c xs)
unfolding put
All-put P c [] p h = (p, tt)
All-put P c (x ∷ xs) p h = elim (Bool-cases (text_eq x.name c.name)) [
  | inl e ↦ rw e (p, h.1)
  | inr e ↦ rw e (h.0, All-put P c xs p h.1)
]

-- The names that are still to be written are new.
abbrev AllNew : List Finished → List Check → Type 0
AllNew [] xs = Unit
AllNew (f ∷ fs) xs = All (IsNewName f.name) xs × AllNew fs xs

AllNew-put :
    (f : Finished) (fs : List Finished) (xs : List Check)
    → All (λ g. text_eq f.name g.name ≡ false) fs
    → AllNew fs xs
    → AllNew fs (put (check_of f) xs)
AllNew-put f [] xs d h = tt
AllNew-put f (g ∷ gs) xs d h =
    (All-put (IsNewName g.name) (check_of f) xs d.0 h.0, AllNew-put f gs xs d.1 h.1)

write_checks-down :
    (fs : List Finished) (xs : List Check)
    → HasDistinctNames fs
    → AllNew fs xs
    → any (λ x. is_down x.status) (write_checks fs xs)
      ≡ (any (λ f. f.has_failed) fs || any (λ x. is_down x.status) xs)
unfolding write_checks
write_checks-down [] xs d h = ground arith
write_checks-down (f ∷ fs) xs d h = ground (
  arith,
  any-put (check_of f) xs h.0,
  write_checks-down fs (put (check_of f) xs) d.1 (AllNew-put f fs xs d.0 h.1),
)

AllNew-nil : (fs : List Finished) → AllNew fs []
AllNew-nil [] = tt
AllNew-nil (f ∷ fs) = (tt, AllNew-nil fs)

any-Permᴰ : {A : Type 0} (p : A → Bool) {xs ys : List A} → Permᴰ xs ys → any p xs ≡ any p ys
any-Permᴰ p Permᴰ.nil = refl
any-Permᴰ p (Permᴰ.cons e d) = ground (arith, ap p e, any-Permᴰ p d)
any-Permᴰ p (Permᴰ.swap e f) = ground (arith, ap p e, ap p f)
any-Permᴰ p (Permᴰ.trans d e) = any-Permᴰ p d ∙ any-Permᴰ p e

-- Checkers of different names whose checks run at the same time give the same status in whatever order
-- they finish: degraded exactly where a check has failed.
pub readiness-Perm :
    (checkers order : List Finished)
    → Perm order checkers
    → HasDistinctNames order
    → (readiness order).status ≡ (if any (λ f. f.has_failed) checkers then degraded else healthy)
unfolding readiness
readiness-Perm checkers order h d =
    let same : any (λ f. f.has_failed) order ≡ any (λ f. f.has_failed) checkers =
      ∥∥₁_elim h (hlevel) (any-Permᴰ (λ f. f.has_failed)) in
    ground (arith, write_checks-down order [] d (AllNew-nil order), same)
