-- ===== src/Worker/Backoff.antt =====
-- The delay of `retryBackoff` in morf/worker/worker.go, in closed form.
use Prim.Native.Nat.{min}
use native.Mathlib.Nat.{pow-suc}
use morf.Prelude.{ℕ, zero, suc, ◌*◌, ◌^◌, ◌≤◌, ◌<◌, ◌≡◌, arith}
use morf.Worker.Retry.{backoff_loop, retry_backoff}

pow-pos : (k : ℕ) → 1 ≤ 2 ^ k
pow-pos zero = omega arith
pow-pos (suc k) = rw pow-suc (omega (arith, pow-pos k))

double : (d k : ℕ) → d * 2 ^ suc k ≡ d * 2 * 2 ^ k
double d k = rw pow-suc (omega arith)

mul-le : (d k : ℕ) → d * 2 ≤ d * 2 * 2 ^ k
mul-le d k = grind (arith, pow-pos k)

backoff_loop-min : (k max d : ℕ) → backoff_loop k max d ≡ min (d * 2 ^ k) max
unfolding backoff_loop
backoff_loop-min zero max d = ground arith
backoff_loop-min (suc k) max d =
    ground (arith, double d k, mul-le d k, backoff_loop-min k max (d * 2))

-- With positive settings, failure number n + 1 of a job is followed by a wait of the base delay
-- doubled n times, capped at the maximum.
pub retry_backoff-min :
    (base max n : ℕ) → 0 < base → 0 < max → retry_backoff base max (suc n) ≡ min (base * 2 ^ n) max
unfolding retry_backoff
retry_backoff-min base max n b m = ground (arith, backoff_loop-min n max base)
