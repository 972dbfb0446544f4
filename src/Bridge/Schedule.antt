-- ===== src/Bridge/Schedule.antt =====
-- The delays between attempts in internal/bridge/bridge.go.
use Prim.Native.Nat.{◌*◌}
use omp_telegram.Common.{
  ℕ, zero, suc, ◌+◌, ◌-◌, ◌≤◌, ltb, if◌then◌else◌, Bool-cases, true, false, ◌≡◌, refl, inl, inr,
  arith,
}
use omp_telegram.Telegram.Failures.{ErrorInfo}
use omp_telegram.Store.Schema.{OutboxRow}
use omp_telegram.Bridge.Delivery.{
  double_delay, backoff, max_server_retry_delay_seconds, is_rate_limited,
  retryable_server_rejection, delivery_retry_delay_seconds,
}

double_delay-last :
    (n d : ℕ)
    → let last = double_delay n d in
      double_delay (suc n) d ≡ (if ltb last max_server_retry_delay_seconds then last * 2 else last)
unfolding double_delay
double_delay-last zero d = refl
double_delay-last (suc n) d =
    let ih = double_delay-last n (d * 2) in
    elim (Bool-cases (ltb d max_server_retry_delay_seconds)) [
      | inl e ↦ rw e ih
      | inr e ↦ rw e (rw e refl)
    ]

double_delay-positive : (n d : ℕ) → 1 ≤ d → 1 ≤ double_delay n d
unfolding double_delay
double_delay-positive zero d h = h
double_delay-positive (suc n) d h =
    ground (arith, double_delay-positive n (d * 2) (omega (arith, h)))

backoff-suc :
    (n : ℕ)
    → backoff (suc n) ≡ (
        if ltb max_server_retry_delay_seconds (double_delay n 1)
        then max_server_retry_delay_seconds
        else double_delay n 1)
unfolding backoff
backoff-suc n = let minus : suc n - 1 ≡ n = omega arith in rw minus refl

backoff_doubles :
    (n : ℕ)
    → let before = backoff (suc n) in
      (backoff 1 ≡ 1)
      × (backoff (suc (suc n)) ≡ (if ltb 300 (before * 2) then 300 else before * 2))
      × (1 ≤ before)
      × (before ≤ 300)
backoff_doubles n =
    let last = double_delay-last n 1 in
    let positive = double_delay-positive n 1 (omega arith) in
    let first : double_delay zero 1 ≡ 1 = unfold double_delay in refl in
    ground (arith, last, positive, first, backoff-suc 0, backoff-suc n, backoff-suc (suc n))

-- The delay after a rejection that is no rate limit is that of the attempt's count.
delay_of :
    (o : OutboxRow) (info : ErrorInfo)
    → is_rate_limited info ≡ false
    → delivery_retry_delay_seconds o info
      ≡ backoff
          (if retryable_server_rejection info then suc o.server_retry_count else o.attempt_count)
unfolding delivery_retry_delay_seconds
delay_of o info e =
    let count : o.server_retry_count + 1 ≡ suc o.server_retry_count = omega arith in
    rw e (elim (Bool-cases (retryable_server_rejection info)) [
      | inl r ↦ rw (r, count) refl
      | inr r ↦ rw r refl
    ])

rejected_delay :
    (n : ℕ) (o : OutboxRow) (info : ErrorInfo)
    → is_rate_limited info ≡ false
    → retryable_server_rejection info ≡ true
    → delivery_retry_delay_seconds (record o { server_retry_count = n }) info ≡ backoff (suc n)
rejected_delay n o info other r =
    let h = delay_of (record o { server_retry_count = n }) info other in rw r at h

-- The delay that the sender waits when the server rejects a message with a code 500, 502, 503 or 504 and a
-- reason that is no rate limit: 1 second the first time, then each twice the one before it, and never
-- more than 5 minutes.
pub delay_doubles :
    (n : ℕ) (o : OutboxRow) (info : ErrorInfo)
    → is_rate_limited info ≡ false
    → retryable_server_rejection info ≡ true
    → let delay = λ (count : ℕ).
      delivery_retry_delay_seconds (record o { server_retry_count = count }) info in
      (delay 0 ≡ 1)
      × (delay (suc n) ≡ (if ltb 300 (delay n * 2) then 300 else delay n * 2))
      × (1 ≤ delay n)
      × (delay n ≤ 300)
delay_doubles n o info other r =
    let steps = backoff_doubles n in
    let delay_at = λ (count : ℕ). rejected_delay count o info other r in
    rw (delay_at 0, delay_at (suc n), delay_at n) steps
