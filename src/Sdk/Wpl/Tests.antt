-- ===== src/Sdk/Wpl/Tests.antt =====
-- Routes over floats that are written as tallies.
use Prim.Native.String.append
use sbd_drones_economics.Base.{
  ℕ, zero, suc, String, true, Option, some, List, [], ◌∷◌, ◌⊕◌, lacks, length, ◌≡◌, refl, ap,
  split_by, splitlines, join, decimal,
}
use sbd_drones_economics.Base.Floats.{hundredths}
use sbd_drones_economics.Outcome.{ok}
use sbd_drones_economics.Sdk.Wpl.{number, Entry, point, points_to_wpl, parse_wpl_route}
use sbd_drones_economics.Sdk.Wpl.RoundTrip.{
  is_separator, IsPrinted, places, parse_wpl_route-points_to_wpl,
}

unfoldable tally : ℕ → String
tally zero = ""
tally (suc n) = "I" ⊕ tally n

unfoldable count : String → ℕ
count String.[] = 0
count (String.◌∷◌ c s) = suc (count s)

count-tally : (n : ℕ) → count (tally n) ≡ n
unfolding count tally
count-tally zero = refl
count-tally (suc n) = rw (append.cons, append.nil) (ap suc (count-tally n))

tally-plain : (n : ℕ) → lacks is_separator (tally n) ≡ true
unfolding tally is_separator
tally-plain zero = refl
tally-plain (suc n) = rw (append.cons, append.nil) (tally-plain n)

abbrev read_tally : String → Option ℕ
read_tally s = some (count s)

tally-IsPrinted : IsPrinted hundredths tally read_tally
tally-IsPrinted = record { back = λ x. ap some (count-tally x); plain = tally-plain }

abbrev field : List (Entry ℕ)
field =
    point (("lat", number 1) ∷ ("lon", number 2) ∷ ("alt_m", number 0) ∷ [])
    ∷ point
        (("lat", number 3) ∷ ("lon", number 1) ∷ ("alt_m", number 2) ∷ ("param1", number 1) ∷ [])
    ∷ []

abbrev plan : String
plan = "QGC WPL 110\n0\t1\t3\t16\t\t\t\t\tI\tII\t\t1\n1\t0\t3\t16\tI\t\t\t\tIII\tI\tII\t1\n"

field-written : points_to_wpl hundredths tally field 3 ≡ ok plan
unfolding points_to_wpl tally join decimal
field-written = refl

parse_wpl_route-points_to_wpl_example :
    (parse_wpl_route read_tally plan ≡ places field) × (length (places field) ≡ 2)
parse_wpl_route-points_to_wpl_example =
    parse_wpl_route-points_to_wpl hundredths tally read_tally field 3 plan tally-IsPrinted
      field-written

-- Both ends of a line break are one, and what is short or no number is passed over.
odd_text : parse_wpl_route read_tally "1\t2\r\n\r\n" ≡ []
unfolding parse_wpl_route splitlines split_by
odd_text = refl
