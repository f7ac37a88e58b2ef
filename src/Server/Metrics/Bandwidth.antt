-- ===== src/Server/Metrics/Bandwidth.antt =====
-- server/metrics.go: the bandwidth of an upload that lasts a few seconds.
use mathlib.Core.Path.{ap₂}
use native.Mathlib.Nat.{div-eq_of_lt-le}
use bittorrent_over_scion.Common.{
  ℕ, zero, suc, ◌-◌, ◌*◌, ◌/◌, ◌≤◌, ◌<◌, ◌≡◌, refl, ap, ◌∙◌, pos, quot, sub_ℕ, sub_int, mul_int-pos,
  sub_int-pos, max_int, ok, arith,
}
use bittorrent_over_scion.Server.Metrics.{div_int, csv_secs, csv_bandwidth}

csv_secs-pos :
    (n : ℕ) → 3 < n → n * 1000000000 ≤ max_int → csv_secs (pos n) ≡ pos ((n - 3) * 1000000000)
unfolding csv_secs
csv_secs-pos n lo hi =
    ap₂ sub_int (mul_int-pos n 1000000000 hi) (mul_int-pos 3 1000000000 (omega arith))
    ∙ sub_int-pos (n * 1000000000) 3000000000 hi (omega arith)
    ∙ difference
  where
    difference : sub_ℕ (n * 1000000000) 3000000000 ≡ pos ((n - 3) * 1000000000)
    difference = ground arith

div_int-pos : (a s : ℕ) → 0 < s → div_int (pos a) (pos s) ≡ ok (pos (a / s))
unfolding div_int
div_int-pos a zero h = absurd (omega arith)
div_int-pos a (suc s) h = refl

-- For an upload of any number of bytes whose eightfold fits an int64, that lasted from one second
-- up to the longest time whose billionfold number of nanoseconds fits an int64: the bandwidth of
-- the csv line is 0.
pub csv_bandwidth_zero :
    (written n : ℕ)
    → written * 8 ≤ max_int
    → 1000000000 ≤ n
    → n * 1000000000 ≤ max_int
    → csv_bandwidth (pos written) (pos n) ≡ ok (pos 0)
unfolding csv_bandwidth
csv_bandwidth_zero written n fits lo hi =
    ap₂ (λ a s. div_int (quot (quot a 1024) 1024) s) (mul_int-pos written 8 fits)
      (csv_secs-pos n (omega arith) hi)
    ∙ div_int-pos (written * 8 / 1024 / 1024) ((n - 3) * 1000000000) (omega arith)
    ∙ ap (λ q. ok (pos q)) (div-eq_of_lt-le ((n - 3) * 1000000000) (omega arith) (omega arith))
