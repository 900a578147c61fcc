-- ===== src/Connection.antt =====
-- The connections to the stores behind the adapters (pgx and go-redis; postgres/pool.go and
-- redis/client.go open them): the data of the store, the state that a rollback restores, and whether
-- each round trip to come fails. Concurrent transactions are serialised by the row and advisory locks
-- that they take, and a Lua script runs alone, so each is one action.
use llm_dating_app.Prelude.{Bool, true, false, Option, none, some, List, [], ◌∷◌, Action, ok, err}

pub record Conn (T : Type 0) : Type 0 where
  pub tables : T
  -- What an open transaction began with.
  pub saved : Option T
  -- Whether each of the next statements fails; past the end of the list none does.
  pub faults : List Bool

abbrev pub next_fault : List Bool → Bool
next_fault [] = false
next_fault (b ∷ bs) = b

abbrev pub later_faults : List Bool → List Bool
later_faults [] = []
later_faults (b ∷ bs) = bs

-- The deferred `tx.Rollback`, which does nothing after a commit.
abbrev pub rollback : {T : Type 0} → Conn T → Conn T
rollback c = elim c.saved [ none ↦ c | some t ↦ record c { tables = t; saved = none } ]

module _ {T E : Type 0} where
  -- One round trip: it fails with `e` and changes nothing, or applies `f`.
  abbrev pub statement : {A : Type 0} → E → (T → A × T) → Action (Conn T) E A
  statement e f c = elim (next_fault c.faults) [
    | true ↦ (err e, record c { faults = later_faults c.faults })
    | false ↦
        (ok (f c.tables).0, record c { tables = (f c.tables).1; faults = later_faults c.faults })
  ]

  abbrev pub query : {A : Type 0} → E → (T → A) → Action (Conn T) E A
  query e f = statement e (λ t. (f t, t))

  abbrev pub exec : E → (T → T) → Action (Conn T) E (Unit {0})
  exec e f = statement e (λ t. (tt, f t))

  -- `tx.Commit`
  abbrev pub commit : E → Action (Conn T) E (Unit {0})
  commit e c = elim (next_fault c.faults) [
    | true ↦ (err e, record c { faults = later_faults c.faults })
    | false ↦ (ok tt, record c { saved = none; faults = later_faults c.faults })
  ]

  -- `tx := pool.Begin; defer tx.Rollback`
  abbrev pub transaction : {A : Type 0} → E → Action (Conn T) E A → Action (Conn T) E A
  transaction e body c = elim (next_fault c.faults) [
    | true ↦ (err e, record c { faults = later_faults c.faults })
    | false ↦
        let (r, c') = body (record c { saved = some c.tables; faults = later_faults c.faults }) in
        (r, rollback c')
  ]
