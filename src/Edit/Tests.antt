-- ===== src/Edit/Tests.antt =====
-- Runs of the edit formats, and their theorems at concrete specs.
use renameutils.Common.{
  some, ℕ, Bool, true, false, ◌&&◌, List, [], ◌∷◌, none, ◌≡◌, refl, arith, leb, Bytes, codes,
}
use renameutils.Quote.Printable.{PrintsAscii}
use renameutils.Plan.{FileSpec, unchecked}
use renameutils.Edit.{found, finished}
use renameutils.Edit.Generator.{completions, filter, completions_lem}
use renameutils.Edit.SingleColumn as Single
use renameutils.Edit.SingleColumn.RoundTrip.{Usable, Written, input-output, input-output_swap}
use renameutils.Edit.DestinationOnly as Destination
use renameutils.Edit.DestinationOnly.RoundTrip.{Renamed, destination_only_lem}

abbrev printable : ℕ → Bool
printable c = leb 32 c && leb c 126

printable-PrintsAscii : PrintsAscii printable
printable-PrintsAscii = record {
  prints_backslash = refl;
  prints_octal = λ c p q. ground arith;
  prints_lower = λ c p q. ground arith;
}

abbrev spec_of : Bytes → Bytes → FileSpec
spec_of old new = record {
  old_name = old;
  new_name = new;
  prev_spec = none;
  next_spec = none;
  status = unchecked;
}

abbrev options : Bool → Single.Options
options swap = record {
  swap = swap;
  separate = true;
  indicator1 = codes "< ";
  indicator2 = codes "> ";
}

abbrev before : List FileSpec
before = spec_of (codes "a") (codes "a") ∷ spec_of (codes "b") (codes "b") ∷ []

abbrev after : List FileSpec
after = spec_of (codes "a") (codes "x\n") ∷ spec_of (codes "b") (codes "b") ∷ []

options-Usable : (swap : Bool) → Usable printable (options swap)
options-Usable swap = record {
  ascii = printable-PrintsAscii;
  unprinted = refl;
  string1 = omega arith;
  string2 = omega arith;
  line1 = ground arith;
  line2 = ground arith;
}

after-Written : Written before after
unfolding Written
after-Written = (
  refl,
  omega arith,
  omega arith,
  (λ e. absurd (ground arith)),
  (refl, omega arith, omega arith, (λ e. absurd (ground arith)), tt),
)

after-Renamed : Renamed before after
unfolding Renamed
after-Renamed = (
  refl,
  omega arith,
  (λ e. absurd (ground arith)),
  (refl, omega arith, (λ e. absurd (ground arith)), tt),
)

input-output_example :
    Single.input (options false) before (Single.output printable (options false) after)
    ≡ (finished, after, [])
input-output_example =
    input-output printable (options false) before after (options-Usable false) refl after-Written

input-output_swap_example :
    Single.input
      (options true)
      (spec_of (codes "a") (codes "a") ∷ [])
      (Single.output printable (options true) (spec_of (codes "a") (codes "b") ∷ []))
    ≡ (finished, spec_of (codes "a") (codes "a") ∷ [], [])
input-output_swap_example =
    input-output_swap printable (options true) (spec_of (codes "a") (codes "b"))
      (options-Usable true) refl (omega arith) (omega arith) (λ e. absurd (ground arith))
      (spec_of (codes "a") (codes "a")) refl

destination_only_lem_example :
    Destination.input true before (Destination.output printable true after) ≡ (finished, after, [])
destination_only_lem_example =
    destination_only_lem printable true before after printable-PrintsAscii refl after-Renamed

-- `help` leaves the options that came before it.
help_keeps :
    Single.parse_options (found Single.swap_opt none ∷ found Single.help_opt none ∷ [])
    ≡ (false, record { swap = true; separate = false; indicator1 = []; indicator2 = [] })
unfolding Single.parse_options Single.parse_from
help_keeps = refl

abbrev option_array : List Bytes
option_array =
    codes "help" ∷ codes "swap" ∷ codes "separate" ∷ codes "indicator1" ∷ codes "indicator2" ∷ []

completions_lem_example :
    completions 6 option_array 4 (codes "s") 0 ≡ some (filter option_array (codes "s"))
completions_lem_example = completions_lem 6 4 option_array (codes "s") (omega arith)
