-- ===== src/Redis/SwipeLimiter/Interleaving.antt =====
-- Any number of swipes of one user in flight at once, on one day: each reads the persisted count,
-- reserves, and then either records its swipe or releases its reservation.
use llm_dating_app.Prelude.{
  ℕ, ◌+◌, ◌-◌, ◌*◌, ◌/◌, ◌≤◌, ◌<◌, max, ◌≡◌, refl, true, false, Option, none, some, arith, ltb,
  if◌then◌else◌,
}
use llm_dating_app.Redis.Keys.{Key, get_or_zero, current, is_alive}
use llm_dating_app.Redis.SwipeLimiter.{retry_after, reserve_script, release_script}

pub record Day : Type 0 where
  pub now : ℕ
  pub counter : Key
  -- Swipes of the day in the database.
  pub persisted : ℕ
  -- Reservations neither recorded nor released yet.
  pub in_flight : ℕ

abbrev pub dawn : ℕ → Day
dawn day_start = record { now = day_start; counter = none; persisted = 0; in_flight = 0 }

abbrev pub day_end : ℕ → ℕ
day_end day_start = day_start + 86_400_000

abbrev pub ttl_of : ℕ → ℕ → ℕ
ttl_of day_start now = retry_after day_start now / 1000 + 3600

-- A count that was read earlier may be out of date, but persisted swipes only grow in number.
pub data Step (day_start limit : ℕ) (d : Day) : Day → Type 0 where
  wait : (t : ℕ) → d.now ≤ t → t < day_end day_start → Step day_start limit d (record d { now = t })
  reserves :
      (seen : ℕ) (k : Key) (n : ℕ)
      → seen ≤ d.persisted
      → reserve_script d.now seen limit (ttl_of day_start d.now) d.counter ≡ (true, k)
      → n ≡ d.in_flight + 1
      → Step day_start limit d (record d { counter = k; in_flight = n })
  refused :
      (seen : ℕ) (k : Key)
      → seen ≤ d.persisted
      → reserve_script d.now seen limit (ttl_of day_start d.now) d.counter ≡ (false, k)
      → Step day_start limit d (record d { counter = k })
  records :
      (n : ℕ)
      → d.in_flight ≡ n + 1
      → Step day_start limit d (record d { in_flight = n; persisted = d.persisted + 1 })
  releases :
      (floor n : ℕ)
      → floor ≤ d.persisted
      → d.in_flight ≡ n + 1
      → Step day_start limit d
          (record d { in_flight = n; counter = release_script d.now floor d.counter })

pub data Reach (day_start limit : ℕ) : Day → Type 0 where
  start : Reach day_start limit (dawn day_start)
  next : {d e : Day} → Reach day_start limit d → Step day_start limit d e → Reach day_start limit e

-- The counter outlives the day.
abbrev pub Lasts : ℕ → Option ℕ → Type 0
Lasts end none = Unit
Lasts end (some x) = end ≤ x

abbrev pub Outlives : ℕ → Key → Type 0
Outlives end none = Unit
Outlives end (some e) = Lasts end e.expires

record IsSafe (day_start limit : ℕ) (d : Day) : Type 0 where
  today : d.now < day_end day_start
  outlives : Outlives (day_end day_start) d.counter
  covered : d.persisted + d.in_flight ≤ get_or_zero (current d.now d.counter)
  capped : get_or_zero (current d.now d.counter) ≤ limit

alive_of_Lasts : (end now : ℕ) (x : Option ℕ) → now < end → Lasts end x → is_alive now x ≡ true
alive_of_Lasts end now none h o = refl
alive_of_Lasts end now (some e) h o = ground arith

current-Outlives : (end now : ℕ) (k : Key) → now < end → Outlives end k → current now k ≡ k
current-Outlives end now none h o = refl
current-Outlives end now (some e) h o = ground (arith, alive_of_Lasts end now e.expires)

ttl_reaches_day_end :
    (day_start now : ℕ)
    → now < day_end day_start
    → day_end day_start ≤ now + ttl_of day_start now * 1000
ttl_reaches_day_end day_start now h = omega arith

module _ (day_start limit seen now : ℕ) (k : Key) (h : now < day_end day_start)
    (o : Outlives (day_end day_start) k) where
  pub reserve-Outlives :
      Outlives (day_end day_start) (reserve_script now seen limit (ttl_of day_start now) k).1
  unfolding reserve_script
  reserve-Outlives =
      ground
        (arith, current-Outlives (day_end day_start) now k h o, ttl_reaches_day_end day_start now h)

  pub reserve_count :
      let (b, k') = reserve_script now seen limit (ttl_of day_start now) k in
      let m = max (get_or_zero (current now k)) seen in
      (get_or_zero (current now k') ≡ (if b then m + 1 else m)) × (b ≡ ltb m limit)
  unfolding reserve_script
  reserve_count =
      ground
        (arith, current-Outlives (day_end day_start) now k h o, ttl_reaches_day_end day_start now h)

release-Outlives :
    (end now floor : ℕ) (k : Key)
    → now < end
    → Outlives end k
    → Outlives end (release_script now floor k)
unfolding release_script
release-Outlives end now floor k h o = ground (arith, current-Outlives end now k h o)

pub release_count :
    (end now floor : ℕ) (k : Key)
    → now < end
    → Outlives end k
    → let m = get_or_zero (current now k) in
      get_or_zero (current now (release_script now floor k)) ≡ (if ltb floor m then m - 1 else m)
unfolding release_script
release_count end now floor k h o = ground (arith, current-Outlives end now k h o)

wait_count :
    (end now t : ℕ) (k : Key)
    → now < end
    → t < end
    → Outlives end k
    → get_or_zero (current t k) ≡ get_or_zero (current now k)
wait_count end now t k h h' o = cc (current-Outlives end now k h o, current-Outlives end t k h' o)

Step-IsSafe :
    (day_start limit : ℕ) {d e : Day}
    → Step day_start limit d e
    → IsSafe day_start limit d
    → IsSafe day_start limit e
Step-IsSafe day_start limit {d} (wait t h h') s = record {
  today = h';
  outlives = s.outlives;
  covered =
      omega (arith, s, wait_count (day_end day_start) d.now t d.counter s.today h' s.outlives);
  capped = omega (arith, s, wait_count (day_end day_start) d.now t d.counter s.today h' s.outlives);
}
Step-IsSafe day_start limit {d} (reserves seen k n le e m) s =
    let o = reserve-Outlives day_start limit seen d.now d.counter s.today s.outlives in
    let c = reserve_count day_start limit seen d.now d.counter s.today s.outlives in
    record {
      today = s.today;
      outlives = rw e at o;
      covered = ground (arith, c);
      capped = ground (arith, c);
    }
Step-IsSafe day_start limit {d} (refused seen k le e) s =
    let o = reserve-Outlives day_start limit seen d.now d.counter s.today s.outlives in
    let c = reserve_count day_start limit seen d.now d.counter s.today s.outlives in
    record {
      today = s.today;
      outlives = rw e at o;
      covered = ground (arith, c);
      capped = ground (arith, c);
    }
Step-IsSafe day_start limit {d} (records n e) s = record {
  today = s.today;
  outlives = s.outlives;
  covered = omega (arith, s);
  capped = s.capped;
}
Step-IsSafe day_start limit {d} (releases floor n le e) s = record {
  today = s.today;
  outlives = release-Outlives (day_end day_start) d.now floor d.counter s.today s.outlives;
  covered =
      ground (arith, release_count (day_end day_start) d.now floor d.counter s.today s.outlives);
  capped =
      ground (arith, release_count (day_end day_start) d.now floor d.counter s.today s.outlives);
}

Reach-IsSafe : (day_start limit : ℕ) {d : Day} → Reach day_start limit d → IsSafe day_start limit d
Reach-IsSafe day_start limit start = omega arith
Reach-IsSafe day_start limit (next r st) =
    Step-IsSafe day_start limit st (Reach-IsSafe day_start limit r)

-- However the swipes of a user in flight on one day interleave, each with a count of the database
-- that may be out of date, the swipes recorded and those still reserved never exceed the limit.
pub swipes-le-limit :
    (day_start limit : ℕ) {d : Day} → Reach day_start limit d → d.persisted + d.in_flight ≤ limit
swipes-le-limit day_start limit r = omega (arith, Reach-IsSafe day_start limit r)
