-- ===== src/Server/Metrics/Examples.antt =====
-- Tests of the metrics, and the theorem on the bandwidth at a concrete input.
use bittorrent_over_scion.Common.{
  ◌≡◌, refl, true, false, pos, negsuc, mul_int, sub_int, wrap, ok, halt, panic, arith,
}
use bittorrent_over_scion.Server.Metrics.{div_int, csv_secs, csv_bandwidth, export_csv}
use bittorrent_over_scion.Server.Metrics.Bandwidth.{csv_bandwidth_zero}

-- 100 MB in two seconds.
csv_bandwidth_zero_example : csv_bandwidth (pos 100000000) (pos 2000000000) ≡ ok (pos 0)
csv_bandwidth_zero_example =
    csv_bandwidth_zero 100000000 2000000000 (omega arith) (omega arith) (omega arith)

-- Three nanoseconds divide by zero, and ten seconds give a negative number of seconds.
three_nanoseconds : csv_bandwidth (pos 100000000) (pos 3) ≡ halt panic
unfolding csv_bandwidth div_int csv_secs mul_int sub_int wrap
three_nanoseconds = refl

ten_seconds : csv_secs (pos 10000000000) ≡ negsuc 8446744076709551615
unfolding csv_secs mul_int sub_int wrap
ten_seconds = refl

-- A file that cannot be opened leaves the server locked.
no_file :
    (export_csv (record {
      stat_ok = true;
      open_ok = false;
      close_file_ok = true;
      close_conn_ok = true;
    })).locked
    ≡ true
unfolding export_csv
no_file = refl
