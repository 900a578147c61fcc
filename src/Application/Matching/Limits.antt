-- ===== src/Application/Matching/Limits.antt =====
-- Swipe of application/matching/service.go, over its adapters: the daily counter.
use llm_dating_app.Prelude.{
  ℕ, ◌+◌, ◌≤◌, ◌<◌, ◌≡◌, refl, ◌⊎◌, Bool, false, Option, none, some, [], arith, if◌then◌else◌,
  Result, ok, err,
}
use llm_dating_app.Domain.Matching.{Error, SwipeOutcome, Swipe, infra}
use llm_dating_app.Postgres.Matching
use llm_dating_app.Redis.SwipeLimiter
use llm_dating_app.Application.Matching.Live.{World, live_repository, live_limiter}
use llm_dating_app.Postgres.Schema.{Postgis, Tables}
use llm_dating_app.Redis.Keys.{get_or_zero, current}
use llm_dating_app.Application.Matching.{
  SwipeInput, swipe, after_record, swipe_new, start_of_day, record_reserved, swipe_counted,
  after_find, Swipe, infra,
}
use llm_dating_app.Redis.SwipeLimiter.Interleaving.{
  Outlives, release_count, day_end, reserve_count, reserve-Outlives, ttl_of,
}
use llm_dating_app.Postgres.Queries.{count_swipes_since_rows}
use llm_dating_app.Redis.SwipeLimiter.{reserve_script, retry_after}
use llm_dating_app.Connection.{Conn}

-- The swipes of the actor's day that are counted.
abbrev pub counted_swipes : ℕ → World → ℕ
counted_swipes now w = get_or_zero (current now w.counter.tables)

abbrev pub is_new : Result Error SwipeOutcome → Bool
is_new (ok o) = o.created
is_new (err e) = false

module _ (g : Postgis) (match_id daily actor now : ℕ) where
  abbrev pub live_swipe : SwipeInput → ℕ → World → Result Error SwipeOutcome × World
  live_swipe input id =
      swipe (live_repository g match_id) (live_limiter now) daily actor input now id

  abbrev after : ℕ → Result Error (Option SwipeOutcome) → World → Result Error SwipeOutcome × World
  after persisted r =
      after_record (live_repository g match_id) (live_limiter now) daily actor now persisted r

  -- A reservation that stored nothing is given back.
  after_record-counted_swipes :
      (persisted end : ℕ) (r : Result Error (Option SwipeOutcome)) (w : World)
      → w.counter.faults ≡ []
      → now < end
      → Outlives end w.counter.tables
      → persisted < counted_swipes now w
      → let (x, w') = after persisted r w in
        counted_swipes now w' + 1 ≡ counted_swipes now w + (if is_new x then 1 else 0)
  unfolding after_record SwipeLimiter.release
  after_record-counted_swipes persisted end (err e) w nf today o h =
      ground (arith, release_count end now persisted w.counter.tables today o)
  after_record-counted_swipes persisted end (ok none) w nf today o h =
      ground (arith, release_count end now persisted w.counter.tables today o)
  after_record-counted_swipes persisted end (ok (some x)) w nf today o h =
      ground (arith, release_count end now persisted w.counter.tables today o)

  -- The limiter answers, and by how much it counts.
  reserve-counted_swipes :
      (persisted : ℕ) (w : World)
      → w.counter.faults ≡ []
      → now < day_end (start_of_day now)
      → Outlives (day_end (start_of_day now)) w.counter.tables
      → persisted ≤ counted_swipes now w
      → let (r, w') = (live_limiter now).reserve actor (start_of_day now) daily persisted w in
        (b : Bool) × (t : ℕ) × (r ≡ ok (b, t))
        × (w'.db ≡ w.db)
        × (w'.counter.faults ≡ [])
        × Outlives (day_end (start_of_day now)) w'.counter.tables
        × (counted_swipes now w' ≡ counted_swipes now w + (if b then 1 else 0))
  unfolding SwipeLimiter.reserve
  reserve-counted_swipes persisted w nf today o h =
      let k = w.counter.tables in
      let c = reserve_count (start_of_day now) daily persisted now k today o in
      let ro = reserve-Outlives (start_of_day now) daily persisted now k today o in
      (
        (reserve_script now persisted daily (ttl_of (start_of_day now) now) k).0,
        retry_after (start_of_day now) now,
        ground arith,
        refl,
        ground arith,
        ground (arith, ro),
        ground (arith, c),
      )

  record_reserved-counted_swipes :
      (input : SwipeInput) (id persisted end : ℕ) (w : World)
      → w.counter.faults ≡ []
      → now < end
      → Outlives end w.counter.tables
      → persisted < counted_swipes now w
      → let (x, w') =
          record_reserved
            (live_repository g match_id)
            (live_limiter now)
            daily
            actor
            input
            now
            id
            persisted
            w in
        counted_swipes now w' + 1 ≡ counted_swipes now w + (if is_new x then 1 else 0)
  unfolding record_reserved
  record_reserved-counted_swipes input id persisted end w nf today o h =
      let s : Swipe = record {
        id = id;
        actor_id = actor;
        target_id = input.target_id;
        action = input.action;
        created_at = now;
      } in
      let (r, w1) = (live_repository g match_id).record_swipe s w in
      after_record-counted_swipes persisted end r w1 nf today o h

  swipe_counted-counted_swipes :
      (input : SwipeInput) (id persisted : ℕ) (w : World)
      → w.counter.faults ≡ []
      → now < day_end (start_of_day now)
      → Outlives (day_end (start_of_day now)) w.counter.tables
      → persisted ≤ counted_swipes now w
      → let (r, w') =
          swipe_counted
            (live_repository g match_id)
            (live_limiter now)
            daily
            actor
            input
            now
            id
            persisted
            w in
        counted_swipes now w' ≡ counted_swipes now w + (if is_new r then 1 else 0)
  unfolding swipe_counted
  swipe_counted-counted_swipes input id persisted w nf today o h =
      let w1 = ((live_limiter now).reserve actor (start_of_day now) daily persisted w).1 in
      ground (
        arith,
        reserve-counted_swipes persisted w nf today o h,
        record_reserved-counted_swipes input id persisted (day_end (start_of_day now)) w1,
      )

  find_swipe-reads :
      (target : ℕ) (c : Conn Tables)
      → let (r, c') = Matching.find_swipe actor target c in
        (c'.tables ≡ c.tables) × (is_new r ≡ false)
  unfolding Matching.find_swipe
  find_swipe-reads target c = ground arith

  count_swipes_since-reads :
      (since : ℕ) (c : Conn Tables)
      → let (r, c') = Matching.count_swipes_since actor since c in
        (c'.tables ≡ c.tables)
        × ((r ≡ err infra) ⊎ (r ≡ ok (count_swipes_since_rows actor since c.tables)))
  unfolding Matching.count_swipes_since
  count_swipes_since-reads since c = ground arith

  swipe_new-counted_swipes :
      (input : SwipeInput) (id : ℕ) (w : World)
      → w.counter.faults ≡ []
      → now < day_end (start_of_day now)
      → Outlives (day_end (start_of_day now)) w.counter.tables
      → count_swipes_since_rows actor (start_of_day now) w.db.tables ≤ counted_swipes now w
      → let (r, w') =
          swipe_new (live_repository g match_id) (live_limiter now) daily actor input now id w in
        counted_swipes now w' ≡ counted_swipes now w + (if is_new r then 1 else 0)
  unfolding swipe_new
  swipe_new-counted_swipes input id w nf today o covered =
      let p = count_swipes_since_rows actor (start_of_day now) w.db.tables in
      let c = (Matching.count_swipes_since actor (start_of_day now) w.db).1 in
      ground (
        arith,
        count_swipes_since-reads (start_of_day now) w.db,
        swipe_counted-counted_swipes input id p (record w { db = c }) nf today o covered,
      )

  -- While Redis answers and the counter covers the swipes in the database, a swipe that is stored
  -- counts once, and any other answer, errors of the database included, leaves the count as it was.
  pub swipe-counted_swipes :
      (input : SwipeInput) (id : ℕ) (w : World)
      → w.counter.faults ≡ []
      → Outlives (day_end (start_of_day now)) w.counter.tables
      → count_swipes_since_rows actor (start_of_day now) w.db.tables ≤ counted_swipes now w
      → let (r, w') = live_swipe input id w in
        counted_swipes now w' ≡ counted_swipes now w + (if is_new r then 1 else 0)
  unfolding swipe after_find
  swipe-counted_swipes input id w nf o covered =
      let today : now < day_end (start_of_day now) = omega arith in
      let c = (Matching.find_swipe actor input.target_id w.db).1 in
      ground (
        arith,
        find_swipe-reads input.target_id w.db,
        swipe_new-counted_swipes input id (record w { db = c }) nf today o,
      )
