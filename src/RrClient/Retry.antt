-- ===== src/RrClient/Retry.antt =====
-- What `requestWithRetry` does on the network, and how its result comes about.
use notip_data_consumer.Prelude.{
  ℕ, zero, suc, ◌+◌, ◌≤◌, ◌<◌, ◌≡◌, refl, sym, ap, ◌∙◌, ◌⊎◌, inl, inr, none, some, List, [], ◌∷◌,
  ◌++◌, append_assoc, length, arith, Option-cases,
}
use notip_data_consumer.Prelude.Bytes.{Bytes}
use notip_data_consumer.Prelude.Outcome.{returns, Result, ok, err}
use notip_data_consumer.Model.{Duration}
use notip_data_consumer.RrClient.Delays.{nth_or_last, planned, delay_of-nth_or_last, delay_exists}
use notip_data_consumer.RrClient.{
  RrError, exhausted, interrupted, NatsRrClient, Network, Attempts, attempts_at, Exchange, delay_of,
  after_attempt, last_attempt, retry_loop, request_with_retry,
}

-- The errors of the attempts from `attempt` on.
abbrev pub FailuresAre : Attempts → ℕ → List Bytes → Type 0
FailuresAre net attempt [] = Unit {0}
FailuresAre net attempt (e ∷ es) = (net.reply attempt ≡ err e) × FailuresAre net (attempt + 1) es

-- Where a result comes from, after `n` requests from `attempt` on: the reply to the last one, the
-- sleep after it, or the errors of all of them, `errs` being those before.
abbrev pub Explains : NatsRrClient → Attempts → List Bytes → ℕ → ℕ → Result RrError Bytes → Type 0
Explains c net errs attempt n (ok msg) = (i : ℕ) × (attempt + n ≡ suc i) × (net.reply i ≡ ok msg)
Explains c net errs attempt n (err (interrupted s)) =
    (i : ℕ) × (attempt + n ≡ suc i) × (net.sleep i ≡ some s)
Explains c net errs attempt n (err (exhausted m es)) =
    (m ≡ c.max_retries)
    × (fails : List Bytes) × (es ≡ errs ++ fails)
    × (length fails ≡ n)
    × FailuresAre net attempt fails
Explains c net errs attempt n (err e) = ⊥

-- How many sleeps go with the requests: one between two of them, and one more, which is cut short,
-- where the result is the error of a sleep. Giving up takes all requests.
abbrev pub IsPaced : Result RrError Bytes → ℕ → ℕ → ℕ → Type 0
IsPaced (err (interrupted s)) left sleeps requests = (sleeps ≡ requests) × (requests ≤ left)
IsPaced (err (exhausted m es)) left sleeps requests =
    (sleeps + 1 ≡ requests) × (requests ≡ left + 1)
IsPaced _ left sleeps requests = (sleeps + 1 ≡ requests) × (requests ≤ left + 1)

-- What a run of the loop with `left` retries from `attempt` on comes to.
pub record Kept (c : NatsRrClient) (net : Attempts) (errs : List Bytes) (left attempt : ℕ)
    (x : Exchange) : Type 0 where
  pub paced : IsPaced x.result left (length x.delays) x.requests
  pub growing : x.delays ≡ planned (length x.delays) c.backoff attempt
  pub explained : Explains c net errs attempt x.requests x.result

Result-cases :
    (r : Result Bytes Bytes) → ((msg : Bytes) × (r ≡ ok msg)) ⊎ ((e : Bytes) × (r ≡ err e))
Result-cases (ok msg) = inl (msg, refl)
Result-cases (err e) = inr (e, refl)

module _ (c : NatsRrClient) (net : Attempts) where
  last-Kept :
      (r : Result Bytes Bytes) (attempt : ℕ) (errs : List Bytes)
      → net.reply attempt ≡ r
      → Kept c net errs 0 attempt (last_attempt r c errs)
  unfolding last_attempt planned
  last-Kept (ok msg) attempt errs e = record {
    paced = omega arith;
    growing = refl;
    explained = (attempt, omega arith, e);
  }
  last-Kept (err x) attempt errs e = record {
    paced = omega arith;
    growing = refl;
    explained = (refl, x ∷ [], refl, omega arith, (e, tt));
  }

  replied-Kept :
      (left attempt : ℕ) (errs : List Bytes) (msg : Bytes)
      → net.reply attempt ≡ ok msg
      → Kept c net errs left attempt (record { result = ok msg; requests = 1; delays = [] })
  unfolding planned
  replied-Kept left attempt errs msg e = record {
    paced = omega arith;
    growing = refl;
    explained = (attempt, omega arith, e);
  }

  stopped-Kept :
      (left attempt : ℕ) (errs : List Bytes) (d : Duration) (s : Bytes)
      → delay_of c.backoff attempt ≡ some d
      → net.sleep attempt ≡ some s
      → Kept c net errs
          (suc left)
          attempt
          (record { result = err (interrupted s); requests = 1; delays = d ∷ [] })
  unfolding planned
  stopped-Kept left attempt errs d s at e = record {
    paced = omega arith;
    growing = rw (sym (delay_of-nth_or_last c.backoff attempt) ∙ at) refl;
    explained = (attempt, omega arith, e);
  }

  again-Explains :
      (errs : List Bytes) (attempt n : ℕ) (x : Bytes) (r : Result RrError Bytes)
      → net.reply attempt ≡ err x
      → Explains c net (errs ++ x ∷ []) (attempt + 1) n r
      → Explains c net errs attempt (n + 1) r
  again-Explains errs attempt n x (ok msg) e (i, at, h) = (i, omega arith, h)
  again-Explains errs attempt n x (err (interrupted s)) e (i, at, h) = (i, omega arith, h)
  again-Explains errs attempt n x (err (exhausted m es)) e (all, fails, same, many, h) =
      (all, x ∷ fails, same ∙ append_assoc errs (x ∷ []) fails, omega arith, (e, h))
  again-Explains errs attempt n x _ e h = absurd h

  again-IsPaced :
      (left sleeps requests : ℕ) (r : Result RrError Bytes)
      → IsPaced r left sleeps requests
      → IsPaced r (suc left) (suc sleeps) (requests + 1)
  again-IsPaced left sleeps requests (ok msg) h = omega (arith, h)
  again-IsPaced left sleeps requests (err (interrupted s)) h = omega (arith, h)
  again-IsPaced left sleeps requests (err (exhausted m es)) h = omega (arith, h)
  again-IsPaced left sleeps requests (err _) h = omega (arith, h)

  again-Kept :
      (left attempt : ℕ) (errs : List Bytes) (x : Bytes) (d : Duration) (r : Exchange)
      → net.reply attempt ≡ err x
      → delay_of c.backoff attempt ≡ some d
      → Kept c net (errs ++ x ∷ []) left (attempt + 1) r
      → Kept c net errs (suc left) attempt (after_attempt d r)
  unfolding planned
  again-Kept left attempt errs x d r e at h = record {
    paced = again-IsPaced left (length r.delays) r.requests r.result h.paced;
    growing = rw (sym (delay_of-nth_or_last c.backoff attempt) ∙ at) (ap (◌∷◌ d) h.growing);
    explained = again-Explains errs attempt r.requests x r.result e h.explained;
  }

  retry_loop-Kept :
      (left attempt : ℕ) (errs : List Bytes)
      → 0 < length c.backoff
      → (x : Exchange) × (retry_loop left c net attempt errs ≡ returns x)
        × Kept c net errs left attempt x
  unfolding retry_loop
  retry_loop-Kept zero attempt errs h =
      (last_attempt (net.reply attempt) c errs, refl, last-Kept _ attempt errs refl)
  retry_loop-Kept (suc left) attempt errs h = elim (Result-cases (net.reply attempt)) [
    | inl (msg, e) ↦ (_, rw (e, retry_loop), replied-Kept (suc left) attempt errs msg e)
    | inr (x, e) ↦
        let (d, at) = delay_exists c.backoff attempt h in
        elim (Option-cases (net.sleep attempt)) [
          | inl slept ↦
              let (r, same, kept) = retry_loop-Kept left (attempt + 1) (errs ++ x ∷ []) h in
              (
                after_attempt d r,
                ground (arith, same),
                again-Kept left attempt errs x d r e at kept,
              )
          | inr (s, stop) ↦ (_, ground arith, stopped-Kept left attempt errs d s at stop)
        ]
  ]

-- With a backoff that is not empty, `requestWithRetry` comes back whatever the network does, after
-- at most one request more than there are retries. It sleeps once between two requests, by the
-- delays of the backoff in order, the last of which stands for all later ones, and after its last
-- request only where that sleep is cut short, with a retry left. A reply that it returns is that
-- of its last request; the error of an interrupted sleep is that of the sleep after it; and when it
-- gives up, it has made all its requests, and reports the error of each, in order.
pub request_with_retry-Kept :
    (c : NatsRrClient) (net : Network) (subject body : Bytes)
    → 0 < length c.backoff
    → (x : Exchange) × (request_with_retry c net subject body ≡ returns x)
      × Kept c (attempts_at net subject body) [] c.max_retries 0 x
unfolding request_with_retry
request_with_retry-Kept c net subject body h =
    retry_loop-Kept c (attempts_at net subject body) c.max_retries 0 [] h

-- The first `k` requests fail, and the sleeps after them are not cut short.
abbrev pub FailsFor : ℕ → Attempts → ℕ → Type 0
FailsFor zero net attempt = Unit {0}
FailsFor (suc k) net attempt =
    ((e : Bytes) × (net.reply attempt ≡ err e))
    × (net.sleep attempt ≡ none)
    × FailsFor k net (attempt + 1)

module _ (c : NatsRrClient) (net : Attempts) (h : 0 < length c.backoff) (msg : Bytes) where
  reaches :
      (k left attempt : ℕ) (errs : List Bytes)
      → k ≤ left
      → FailsFor k net attempt
      → net.reply (attempt + k) ≡ ok msg
      → retry_loop left c net attempt errs
        ≡ returns
            (record { result = ok msg; requests = k + 1; delays = planned k c.backoff attempt })
  unfolding retry_loop planned
  reaches zero zero attempt errs room fails e =
      let here : attempt + 0 ≡ attempt = omega arith in ground (arith, ap net.reply here)
  reaches zero (suc left) attempt errs room fails e =
      let here : attempt + 0 ≡ attempt = omega arith in ground (arith, ap net.reply here)
  reaches (suc k) zero attempt errs room fails e = absurd (omega arith)
  reaches (suc k) (suc left) attempt errs room (failure, slept, rest) e =
      let (d, at) = delay_exists c.backoff attempt h in
      let there : attempt + suc k ≡ attempt + 1 + k = omega arith in
      let delay : nth_or_last c.backoff attempt ≡ some d =
        sym (delay_of-nth_or_last c.backoff attempt) ∙ at in
      ground (
        arith,
        failure.1,
        at,
        delay,
        reaches k left (attempt + 1) (errs ++ failure.0 ∷ []) (omega arith) rest (rw there at e),
      )

-- If the first `k` requests fail, with no sleep cut short, and the next one is answered, `k` being
-- no more than the number of retries, then that answer is the result, after `k + 1` requests and
-- the first `k` delays of the backoff.
pub request_with_retry_reaches :
    (c : NatsRrClient) (net : Network) (subject body msg : Bytes) (k : ℕ)
    → 0 < length c.backoff
    → k ≤ c.max_retries
    → FailsFor k (attempts_at net subject body) 0
    → net.request subject body k ≡ ok msg
    → request_with_retry c net subject body
      ≡ returns (record { result = ok msg; requests = k + 1; delays = planned k c.backoff 0 })
unfolding request_with_retry
request_with_retry_reaches c net subject body msg k h room fails e =
    let here : 0 + k ≡ k = omega arith in
    reaches c (attempts_at net subject body) h msg k c.max_retries 0 [] room fails (rw here e)
