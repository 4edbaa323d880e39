-- ===== src/Access/Text/RoundTrip.antt =====
-- Printing a mode and reading it back.
use server_chat.Common.{ℕ, suc, ◌<◌, ◌≡◌, refl, ap, true, false, Bool, arith, ◌==◌, ◌+◌}
use server_chat.Common.Result.{Result, ok, err}
use server_chat.Common.Bytes.{Bytes, eq_bytes, eq_bytes_iff}
use server_chat.Common.Tables.{all_below, all_below-holds}
use server_chat.Access.Text.{ModeErr, marshal_text, mode_string, parse_acs, unmarshal_text}
use server_chat.Access.Mode

is_ok : ℕ → Result ModeErr ℕ → Bool
is_ok m (ok n) = n == m
is_ok m (err e) = false

is_ok-eq : (m : ℕ) (r : Result ModeErr ℕ) → is_ok m r ≡ true → r ≡ ok m
unfolding is_ok
is_ok-eq m (ok n) h = ground arith
is_ok-eq m (err e) h = cc

parses : ℕ → Bool
parses m = is_ok (Mode.unset + suc m) (parse_acs (mode_string (suc m)))

parses_table : all_below 255 parses ≡ true
unfolding all_below parses parse_acs mode_string is_ok
parses_table = refl

-- The letters of a mode other than `N` are read as that mode, with the marker bit `unset` added.
pub parse_acs-mode_string :
    (m : ℕ) → m < 255 → parse_acs (mode_string (suc m)) ≡ ok (Mode.unset + suc m)
unfolding parses
parse_acs-mode_string m h =
    is_ok-eq (Mode.unset + suc m) _ (all_below-holds 255 parses m parses_table h)

prints_as : Bytes → Result ModeErr Bytes → Bool
prints_as t (ok s) = eq_bytes s t
prints_as t (err e) = false

prints_as-eq : (t : Bytes) (r : Result ModeErr Bytes) → prints_as t r ≡ true → r ≡ ok t
unfolding prints_as
prints_as-eq t (ok s) h = ap ok ((eq_bytes_iff s t).0 h)
prints_as-eq t (err e) h = cc

prints : ℕ → Bool
prints m = prints_as (mode_string m) (marshal_text m)

reads_back : ℕ → ℕ → Bool
reads_back old m = is_ok m (unmarshal_text old (mode_string m))

prints_table : all_below 256 prints ≡ true
unfolding all_below prints prints_as marshal_text mode_string eq_bytes
prints_table = refl

reads_back_table : (old : ℕ) → all_below 256 (reads_back old) ≡ true
unfolding all_below reads_back mode_string unmarshal_text is_ok
reads_back_table old = refl

-- A mode of permission bits is printed without an error, and reading its text sets any mode to it.
pub unmarshal_text-marshal_text :
    (m old : ℕ)
    → m < 256
    → (marshal_text m ≡ ok (mode_string m)) × (unmarshal_text old (mode_string m) ≡ ok m)
unfolding reads_back prints
unmarshal_text-marshal_text m old h = (
  prints_as-eq _ _ (all_below-holds 256 prints m prints_table h),
  is_ok-eq m _ (all_below-holds 256 (reads_back old) m (reads_back_table old) h),
)
