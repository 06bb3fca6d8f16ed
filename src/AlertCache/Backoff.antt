-- ===== src/AlertCache/Backoff.antt =====
-- The retries of `fetchWithBackoff`.
use native.Mathlib.Nat.{pow-suc}
use Prim.Native.Nat.{min}
use notip_data_consumer.Prelude.{
  ℕ, zero, suc, ◌+◌, ◌*◌, ◌^◌, ◌≤◌, ◌<◌, false, ◌≡◌, refl, ap, ◌∙◌, ◌⊎◌, inl, inr, some, List, [],
  ◌∷◌, length, if◌then◌else◌, arith, Bool-cases, get_elem?,
}
use notip_data_consumer.Prelude.Bytes.{Bytes}
use notip_data_consumer.Prelude.Int.{pos, pos_part, int64, ◌*ℤ◌}
use notip_data_consumer.Prelude.Outcome.{Result, ok, err}
use notip_data_consumer.Model.{Duration, AlertConfig}
use notip_data_consumer.AlertCache.{
  AlertConfigCache, empty_snapshot, file_configs, refresh, loaded, exhausted, cancelled, next_delay,
  Weather, Fetched, fetch_loop, fetch_with_backoff,
}

-- The first `n` delays from `delay` on.
pub schedule : ℕ → Duration → Duration → List Duration
schedule zero max delay = []
schedule (suc n) max delay = delay ∷ schedule n max (next_delay max delay)

-- What a run of the loop, from `c` with `rounds` attempts, keeps in step with its waits.
pub record Kept (rounds : ℕ) (delay : Duration) (c : AlertConfigCache) (r : Fetched) : Type 0 where
  pub few : length r.waits ≤ rounds
  pub counted : r.cache.refresh_errors ≡ c.refresh_errors + length r.waits
  pub growing : r.waits ≡ schedule (length r.waits) c.max_backoff delay
  pub ended :
      ((r.ending ≡ loaded) × (length r.waits < rounds))
      ⊎ (((r.ending ≡ cancelled) × (r.cache.snapshot ≡ c.snapshot))
          ⊎ ((r.ending ≡ exhausted) × (r.cache.snapshot ≡ c.snapshot) × (length r.waits ≡ rounds)))

loop_cases :
    (left : ℕ) (w : Weather) (attempt : ℕ) (delay : Duration) (c : AlertConfigCache)
    → ((configs : List AlertConfig) × (w.fetched attempt ≡ ok configs))
      ⊎ ((e : Bytes) × (w.fetched attempt ≡ err e))
loop_cases left w attempt delay c = go (w.fetched attempt) refl
  where
    go :
        (r : Result Bytes (List AlertConfig))
        → w.fetched attempt ≡ r
        → ((configs : List AlertConfig) × (w.fetched attempt ≡ ok configs))
          ⊎ ((e : Bytes) × (w.fetched attempt ≡ err e))
    go (ok configs) e = inl (configs, e)
    go (err x) e = inr (x, e)

abbrev failed_once : AlertConfigCache → AlertConfigCache
failed_once c = record c { refresh_errors = c.refresh_errors + 1 }

loop_loaded :
    (left : ℕ) (w : Weather) (attempt : ℕ) (delay : Duration) (c : AlertConfigCache)
    (configs : List AlertConfig)
    → w.fetched attempt ≡ ok configs
    → fetch_loop (suc left) w attempt delay c
      ≡ record { cache = (refresh (ok configs) (w.clock attempt) c).0; ending = loaded; waits = [] }
unfolding fetch_loop
loop_loaded left w attempt delay c configs e = ground arith

loop_failed :
    (left : ℕ) (w : Weather) (attempt : ℕ) (delay : Duration) (c : AlertConfigCache) (x : Bytes)
    → w.fetched attempt ≡ err x
    → fetch_loop (suc left) w attempt delay c ≡ (
        if w.interrupted attempt
        then record { cache = failed_once c; ending = cancelled; waits = delay ∷ [] }
        else let rest =
            fetch_loop left w (attempt + 1) (next_delay c.max_backoff delay) (failed_once c) in
          record rest { waits = delay ∷ rest.waits })
unfolding fetch_loop
loop_failed left w attempt delay c x e = ground arith

again-Kept :
    (left : ℕ) (delay : Duration) (c : AlertConfigCache) (r : Fetched)
    → Kept left (next_delay c.max_backoff delay) (failed_once c) r
    → Kept (suc left) delay c (record r { waits = delay ∷ r.waits })
unfolding schedule
again-Kept left delay c r h = record {
  few = omega (arith, h.few);
  counted = omega (arith, h.counted);
  growing = ap (◌∷◌ delay) h.growing;
  ended = ground (arith, h.ended);
}

fetch_loop-Kept :
    (left : ℕ) (w : Weather) (attempt : ℕ) (delay : Duration) (c : AlertConfigCache)
    → Kept left delay c (fetch_loop left w attempt delay c)
unfolding schedule refresh
fetch_loop-Kept zero w attempt delay c =
    unfold fetch_loop in
    record { few = omega arith; counted = omega arith; growing = refl; ended = ground arith }
fetch_loop-Kept (suc left) w attempt delay c = elim (loop_cases left w attempt delay c) [
  | inl (configs, e) ↦
      rw (loop_loaded left w attempt delay c configs e)
        (record { few = omega arith; counted = omega arith; growing = refl; ended = ground arith })
  | inr (x, e) ↦
      rw (loop_failed left w attempt delay c x e) (elim (Bool-cases (w.interrupted attempt)) [
        | inl stop ↦ rw stop (record {
          few = omega arith;
          counted = omega arith;
          growing = refl;
          ended = ground arith;
        })
        | inr go ↦ rw go (
            again-Kept left delay c _ (
              fetch_loop-Kept left w (attempt + 1) (next_delay c.max_backoff delay)
                (failed_once c)))
      ])
]

-- Whatever the fetches and the waits come to, `fetchWithBackoff` waits after each failed attempt and
-- at no other time, so no more often than there are retries; counts each failed attempt once; waits
-- by the schedule of delays; and leaves the snapshot alone unless it ends loaded. It ends loaded
-- before the last retry is used up, cancelled, or exhausted with as many waits as retries.
pub fetch_with_backoff-Kept :
    (w : Weather) (c : AlertConfigCache)
    → Kept (pos_part c.max_retries) c.initial_backoff c (fetch_with_backoff w c)
unfolding fetch_with_backoff
fetch_with_backoff-Kept w c = fetch_loop-Kept (pos_part c.max_retries) w 0 c.initial_backoff c

-- The fetches from `attempt` on fail `k` times with no interruption.
abbrev pub FailsFor : ℕ → Weather → ℕ → Type 0
FailsFor zero w attempt = Unit {0}
FailsFor (suc k) w attempt =
    ((x : Bytes) × (w.fetched attempt ≡ err x))
    × (w.interrupted attempt ≡ false)
    × FailsFor k w (attempt + 1)

loop_reaches :
    (k left : ℕ) (w : Weather) (attempt : ℕ) (delay : Duration) (c : AlertConfigCache)
    (configs : List AlertConfig)
    → k < left
    → FailsFor k w attempt
    → w.fetched (attempt + k) ≡ ok configs
    → (fetch_loop left w attempt delay c).cache ≡ record c {
      snapshot = file_configs configs (empty_snapshot (some (w.clock (attempt + k))));
      last_success = some (w.clock (attempt + k));
      refresh_errors = c.refresh_errors + k;
    }
unfolding refresh
loop_reaches zero zero w attempt delay c configs room fails e = absurd (omega arith)
loop_reaches (suc k) zero w attempt delay c configs room fails e = absurd (omega arith)
loop_reaches zero (suc left) w attempt delay c configs room fails e =
    let here : attempt + 0 ≡ attempt = omega arith in
    let none_yet : c.refresh_errors + 0 ≡ c.refresh_errors = omega arith in
    rw (here, none_yet, loop_loaded left w attempt delay c configs (rw here at e))
loop_reaches (suc k) (suc left) w attempt delay c configs room (failure, quiet, rest) e =
    let there : attempt + suc k ≡ attempt + 1 + k = omega arith in
    let more : c.refresh_errors + suc k ≡ c.refresh_errors + 1 + k = omega arith in
    rw (there, more, loop_failed left w attempt delay c failure.0 failure.1, quiet)
      (loop_reaches k left w (attempt + 1) (next_delay c.max_backoff delay) (failed_once c) configs
        (omega arith) rest (rw there at e))

-- If the first `k` fetches fail with no interruption, `k` is less than the number of retries, and
-- the next fetch succeeds, then `fetchWithBackoff` installs what that fetch brought, with the time
-- at which it came, and has counted `k` errors.
pub fetch_with_backoff_loads :
    (k : ℕ) (w : Weather) (c : AlertConfigCache) (configs : List AlertConfig)
    → k < pos_part c.max_retries
    → FailsFor k w 0
    → w.fetched k ≡ ok configs
    → (fetch_with_backoff w c).cache ≡ record c {
      snapshot = file_configs configs (empty_snapshot (some (w.clock k)));
      last_success = some (w.clock k);
      refresh_errors = c.refresh_errors + k;
    }
unfolding fetch_with_backoff
fetch_with_backoff_loads k w c configs room fails e =
    let here : 0 + k ≡ k = omega arith in
    rw here at (
      loop_reaches k (pos_part c.max_retries) w 0 c.initial_backoff c configs room fails
        (rw here e))

next_delay_capped :
    (m d : ℕ) → d ≤ m → m < 2 ^ 62 → next_delay (pos m) (pos d) ≡ pos (min (d * 2) m)
unfolding next_delay int64 ◌*ℤ◌
next_delay_capped m d h small = ground arith

doubled : (k m i : ℕ) → min (min (i * 2 ^ k) m * 2) m ≡ min (i * 2 ^ suc k) m
doubled k m i = rw (pow-suc 2 k) (omega arith)

schedule_from :
    (n k j m i : ℕ)
    → m < 2 ^ 62
    → j < n
    → get_elem? (schedule n (pos m) (pos (min (i * 2 ^ k) m))) j
      ≡ some (pos (min (i * 2 ^ (k + j)) m))
unfolding schedule
schedule_from zero k j m i small h = absurd (omega arith)
schedule_from (suc n) k zero m i small h = let e : k + 0 ≡ k = omega arith in rw e refl
schedule_from (suc n) k (suc j) m i small h =
    let e : k + suc j ≡ suc k + j = omega arith in
    rw (e, next_delay_capped m (min (i * 2 ^ k) m) (omega arith) small, doubled k m i)
      (schedule_from n (suc k) j m i small (omega arith))

-- The `j`-th delay of the schedule, where the doubling does not overflow.
schedule_capped :
    (n j initial max : ℕ)
    → initial ≤ max
    → max < 2 ^ 62
    → j < n
    → get_elem? (schedule n (pos max) (pos initial)) j ≡ some (pos (min (initial * 2 ^ j) max))
schedule_capped n j initial max h small room =
    let e : min (initial * 2 ^ 0) max ≡ initial = omega arith in
    let z : 0 + j ≡ j = omega arith in rw (e, z) at (schedule_from n 0 j max initial small room)

-- If the initial backoff is no longer than the maximum, and that is less than 2^62 nanoseconds, then
-- the wait after the failed attempt number `j`, counted from zero, if there is one, lasts as long as
-- the initial backoff doubled `j` times, or as the maximum if that is less.
pub fetch_with_backoff_waits :
    (w : Weather) (c : AlertConfigCache) (initial max j : ℕ)
    → c.initial_backoff ≡ pos initial
    → c.max_backoff ≡ pos max
    → initial ≤ max
    → max < 2 ^ 62
    → j < length (fetch_with_backoff w c).waits
    → get_elem? (fetch_with_backoff w c).waits j ≡ some (pos (min (initial * 2 ^ j) max))
fetch_with_backoff_waits w c initial max j first most h small room =
    let waits = (fetch_with_backoff w c).waits in
    let planned : waits ≡ schedule (length waits) (pos max) (pos initial) =
      (fetch_with_backoff-Kept w c).growing
      ∙ ap (λ d. schedule (length waits) d c.initial_backoff) most
      ∙ ap (schedule (length waits) (pos max)) first in
    ap (λ ds. get_elem? ds j) planned ∙ schedule_capped (length waits) j initial max h small room
