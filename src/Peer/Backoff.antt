-- ===== src/Peer/Backoff.antt =====
-- The delay before a peer link is tried again.
use boardwalk.Common.{
  ℕ, ◌+◌, ◌-◌, ◌*◌, ◌/◌, ◌%◌, ◌^◌, ◌≤◌, Bool, ◌==◌, if◌then◌else◌, leb, ◌≡◌, arith,
}
use native.Mathlib.Nat.{one-le-pow, pow-le-pow_right}
use boardwalk.Peer.Capabilities.{bitwise}
use boardwalk.Peer.Tokens.{differ}

abbrev pub min : ℕ → ℕ → ℕ
min a b = if leb a b then a else b

-- `^`, `<<` and `>>` of a `u64`.
unfoldable pub xor64 : ℕ → ℕ → ℕ
xor64 a b = bitwise differ 64 a b

-- `xorshift`: the state becomes the number that is given; a state of 0 starts from the clock.
unfoldable pub xorshift : ℕ → ℕ → ℕ
unfolding xor64
xorshift state nanos =
    let x0 = if state == 0 then (if leb 1 nanos then nanos else 1) else state in
    let x1 = xor64 x0 (x0 * 2 ^ 13 % 2 ^ 64) in
    let x2 = xor64 x1 (x1 / 2 ^ 7) in xor64 x2 (x2 * 2 ^ 17 % 2 ^ 64)

-- The delay in milliseconds; `jitter` is what `xorshift` gives.
unfoldable pub backoff_ms : ℕ → ℕ → ℕ
backoff_ms attempt jitter =
    let computed = min (100 * 2 ^ min attempt 10) (2 ^ 64 - 1) in
    min (min computed 30000 + jitter % 1000) (2 ^ 64 - 1)

-- The counter of attempts after one that ended well or not.
unfoldable pub next_attempt : ℕ → Bool → ℕ
next_attempt attempt succeeded = min ((if succeeded then 0 else attempt) + 1) (2 ^ 32 - 1)

-- Whatever the jitter, the delay before an attempt is at least 100 ms and at most 30 999 ms; for the
-- same jitter it does not get shorter with more attempts, and from the ninth on it is the longest.
pub backoff_ms_bounds :
    (attempt more jitter : ℕ)
    → (100 + jitter % 1000 ≤ backoff_ms attempt jitter)
      × (backoff_ms attempt jitter ≤ 30000 + jitter % 1000)
      × (backoff_ms attempt jitter ≤ backoff_ms (attempt + more) jitter)
      × (backoff_ms (9 + more) jitter ≡ 30000 + jitter % 1000)
unfolding backoff_ms
backoff_ms_bounds attempt more jitter =
    let p = one-le-pow (min attempt 10) 2 (omega arith) in
    let q =
      pow-le-pow_right {n = 2} (omega arith) {i = min attempt 10} {j = min (attempt + more) 10}
        (ground arith) in
    let r = pow-le-pow_right {n = 2} (omega arith) {i = 9} {j = min (9 + more) 10} (ground arith) in
    (ground arith, ground arith, ground arith, ground arith)
