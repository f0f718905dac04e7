-- ===== src/Webhook/Worker/Retries.antt =====
-- The retry schedule of the delivery worker (`scheduleRetry` of internal/webhook/worker.go).
use letterbox.Prelude.{ℕ, zero, suc, refl, ◌^◌, ◌<◌, ◌≡◌, some, arith, leb}
use letterbox.Webhook.Worker.{wrap32, ge32, backoff_for}

pub wrap32_small : (n : ℕ) → n < 2 ^ 32 → wrap32 n ≡ n
wrap32_small n h = omega arith

-- On counters that are not negative the signed comparison is that of the numbers.
pub ge32_small : (a b : ℕ) → a < 2 ^ 31 → b < 2 ^ 31 → ge32 a b ≡ leb b a
ge32_small a b h k = ground arith

-- The n-th failure waits the n-th entry of the table, and a later one the last entry.
abbrev pub wait_after : ℕ → ℕ
wait_after zero = 60
wait_after (suc zero) = 300
wait_after (suc (suc zero)) = 900
wait_after (suc (suc (suc zero))) = 3600
wait_after (suc (suc (suc (suc n)))) = 14400

pub backoff_for_total : (n : ℕ) → n < 2 ^ 31 → backoff_for n ≡ some (wait_after n)
unfolding backoff_for
backoff_for_total zero h = refl
backoff_for_total (suc zero) h = refl
backoff_for_total (suc (suc zero)) h = refl
backoff_for_total (suc (suc (suc zero))) h = refl
backoff_for_total (suc (suc (suc (suc zero)))) h = refl
backoff_for_total (suc (suc (suc (suc (suc n))))) h = ground arith
