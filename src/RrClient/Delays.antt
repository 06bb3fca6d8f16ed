-- ===== src/RrClient/Delays.antt =====
-- The delays between the requests of `requestWithRetry` in internal/adapter/driven/nats_rr_client.go.
use Prim.Native.Nat.{min}
use notip_data_consumer.Prelude.{
  ℕ, zero, suc, ◌+◌, ◌-◌, ◌<◌, ◌≡◌, refl, ap, ◌∙◌, Option, none, some, List, [], ◌∷◌, length,
  get_elem?, arith,
}
use notip_data_consumer.Model.{Duration}
use notip_data_consumer.RrClient.{new_nats_rr_client, delay_of, seconds}

-- The element with the number, or the last one if there are not so many.
abbrev pub nth_or_last : List Duration → ℕ → Option Duration
nth_or_last [] i = none
nth_or_last (d ∷ []) i = some d
nth_or_last (d ∷ e ∷ ds) zero = some d
nth_or_last (d ∷ e ∷ ds) (suc i) = nth_or_last (e ∷ ds) i

at_min : (ds : List Duration) (i : ℕ) → get_elem? ds (min i (length ds - 1)) ≡ nth_or_last ds i
at_min [] i = refl
at_min (d ∷ []) i =
    let here : min i (length (d ∷ []) - 1) ≡ 0 = omega arith in ap (get_elem? (d ∷ [])) here
at_min (d ∷ e ∷ ds) zero =
    let here : min 0 (length (d ∷ e ∷ ds) - 1) ≡ 0 = omega arith in ap (get_elem? (d ∷ e ∷ ds)) here
at_min (d ∷ e ∷ ds) (suc i) =
    let next : min (suc i) (length (d ∷ e ∷ ds) - 1) ≡ suc (min i (length (e ∷ ds) - 1)) =
      omega arith in
    ap (get_elem? (d ∷ e ∷ ds)) next ∙ at_min (e ∷ ds) i

pub delay_of-nth_or_last :
    (backoff : List Duration) (attempt : ℕ) → delay_of backoff attempt ≡ nth_or_last backoff attempt
unfolding delay_of
delay_of-nth_or_last = at_min

-- A delay that there is, before the later ones.
abbrev delay_or : Option Duration → List Duration → List Duration
delay_or none ds = []
delay_or (some d) ds = d ∷ ds

-- The first `n` delays of the backoff from an attempt on.
unfoldable pub planned : ℕ → List Duration → ℕ → List Duration
planned zero backoff attempt = []
planned (suc n) backoff attempt =
    delay_or (nth_or_last backoff attempt) (planned n backoff (attempt + 1))

-- A list of delays that is not empty has one for every attempt.
pub delay_exists :
    (backoff : List Duration) (attempt : ℕ)
    → 0 < length backoff
    → (d : Duration) × (delay_of backoff attempt ≡ some d)
unfolding delay_of
delay_exists backoff attempt h = at_index backoff (min attempt (length backoff - 1)) (omega arith)
  where
    at_index :
        (ds : List Duration) (i : ℕ) → i < length ds → (d : Duration) × (get_elem? ds i ≡ some d)
    at_index [] i h = elim h [ ]
    at_index (d ∷ ds) zero h = (d, refl)
    at_index (d ∷ ds) (suc i) h = at_index ds i (omega arith)

-- The delays of the client that the program builds: 1, 2 and 4 seconds.
default_delays : planned 3 new_nats_rr_client.backoff 0 ≡ seconds 1 ∷ seconds 2 ∷ seconds 4 ∷ []
unfolding planned new_nats_rr_client delay_of
default_delays = refl
