-- ===== src/Filters/Rounds.antt =====
-- How many rounds the loop of `split_csv` takes.
use bluez_obex_native.Common.{ℕ, ◌+◌, ◌-◌, ◌≤◌, ◌<◌, ◌≡◌, some, List, arith, length}
use bluez_obex_native.Common.Strings.{Str}
use bluez_obex_native.Filters.{split_csv_loop}
use bluez_obex_native.Filters.Csv.{split_csv_loop_lem}

-- From any position in the text, or its end, the loop returns within as many rounds as there are
-- bytes left, and one more; with more fuel it returns the same.
pub split_csv_loop-enough :
    (value : Str) (start : ℕ) (result : List Str) (fuel more : ℕ)
    → start ≤ length value
    → length value - start < fuel
    → (out : List Str) × (split_csv_loop fuel value start result ≡ some out)
      × (split_csv_loop (fuel + more) value start result ≡ some out)
split_csv_loop-enough value start result fuel more h enough = (
  _,
  split_csv_loop_lem fuel value start result h enough,
  split_csv_loop_lem (fuel + more) value start result h (omega arith),
)
