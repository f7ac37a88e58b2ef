-- ===== src/Server/Metrics.antt =====
-- server/metrics.go and the export of server/server.go: the bandwidth of the csv line, and the lock
-- around the file.
pub mod Bandwidth
mod Examples
use bittorrent_over_scion.Common.{
  ℕ, zero, suc, Bool, true, false, if◌then◌else◌, ℤ, pos, negsuc, quot, mul_int, sub_int, sub_ℕ,
  Result, ok, err, halt, panic,
}

-- time.Second, in nanoseconds.
abbrev second : ℤ
second = pos 1000000000

-- Go's `/` on int64; a quotient out of range wraps, which only -2^63 / -1 is.
unfoldable pub div_int : ℤ → ℤ → Result ℤ
div_int a (pos zero) = halt panic
div_int a (pos (suc n)) = ok (quot a (suc n))
div_int a (negsuc n) = ok (sub_int (pos 0) (quot a (suc n)))

-- A Duration is a number of nanoseconds.
unfoldable pub csv_secs : ℤ → ℤ
csv_secs duration = sub_int (mul_int duration second) (mul_int (pos 3) second)

-- The bandwidth that GetCsv prints.
unfoldable pub csv_bandwidth : ℤ → ℤ → Result ℤ
csv_bandwidth written_bytes duration =
    div_int (quot (quot (mul_int written_bytes (pos 8)) 1024) 1024) (csv_secs duration)

-- What the calls on the file and the connection return: whether the file is there, and whether
-- opening it, closing it and closing the connection succeed.
pub record Outcomes : Type 0 where
  pub stat_ok : Bool
  pub open_ok : Bool
  pub close_file_ok : Bool
  pub close_conn_ok : Bool

-- What measureConnMetrics leaves: whether it still holds the server's lock, the lines written, and
-- whether it has closed the connection.
pub record Exported : Type 0 where
  pub locked : Bool
  pub header_written : Bool
  pub line_written : Bool
  pub conn_closed : Bool

-- The branch for a csv file, from the lock on.
unfoldable pub export_csv : Outcomes → Exported
export_csv o =
    if o.open_ok
    then (if o.close_file_ok
        then (if o.close_conn_ok
            then record {
              locked = false;
              header_written = not_there;
              line_written = true;
              conn_closed = true;
            }
            else record {
              locked = true;
              header_written = not_there;
              line_written = true;
              conn_closed = false;
            })
        else record {
          locked = true;
          header_written = not_there;
          line_written = true;
          conn_closed = false;
        })
    else record { locked = true; header_written = false; line_written = false; conn_closed = false }
  where
    not_there : Bool
    not_there = if o.stat_ok then false else true
