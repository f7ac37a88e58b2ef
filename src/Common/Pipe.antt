-- ===== src/Common/Pipe.antt =====
-- A connection to run the model on: the bytes that wait, and those that were sent. It shows that
-- what `IsStream` asks of a connection can be had.
use Prim.Native.Nat.{ℕ}
use mathlib.Core.Path.{refl, sym}
use mathlib.Core.List.{List, [], ◌++◌, append-nil}
use mathlib.Core.Bool.{true}
use native.Mathlib.Omega.{arith}
use bittorrent_over_scion.Common.Tests.{leb, le→leb, lt→leb, if◌then◌else◌}
use bittorrent_over_scion.Common.Lists.{
  length, take, drop, length-append, take-append_length, drop-append_length,
}
use bittorrent_over_scion.Common.Results.{ok, err, eof, pure}
use bittorrent_over_scion.Common.Stream.{Conn, View, IsStream, Runs-pure}

pub record Pipe : Type 0 where
  pub input : List ℕ
  pub output : List ℕ

abbrev pub pipe : Conn
pipe = record {
  State = Pipe;
  read_full = λ n s.
      if leb n (length s.input)
      then (ok (take n s.input), record s { input = drop n s.input })
      else (err eof, record s { input = [] });
  write = λ bs s. (ok tt, record s { output = s.output ++ bs });
  set_deadline = λ n. pure tt;
  close = pure tt;
  has_remote = λ s. true;
  ping = λ n. pure tt;
}

abbrev pub view : View Pipe
view = record { incoming = λ s. s.input; sent = λ s. s.output }

pub pipe-IsStream : IsStream pipe view
pipe-IsStream = record {
  reads = λ bs rest. record {
    run = λ s e. (
      record s { input = rest },
      simp (
        e,
        le→leb (length bs) (length (bs ++ rest)) (omega (arith, length-append bs rest)),
        take-append_length,
        drop-append_length,
      ),
      refl,
      sym (append-nil s.output),
    );
  };
  ends = λ n bs h. record {
    run = λ s e. (
      record s { input = [] },
      simp (e, lt→leb n (length bs) h),
      refl,
      sym (append-nil s.output),
    );
  };
  writes = λ bs inp. record { run = λ s e. (record s { output = s.output ++ bs }, refl, e, refl) };
  deadlines = λ n inp. Runs-pure tt inp;
  pings = λ n inp. Runs-pure tt inp;
}
