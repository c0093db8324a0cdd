-- ===== src/Base/Text.antt =====
-- `format!`, decimal printing, and the tests on `&str` that the source uses.
use Prim.Native.Nat.{ℕ, zero, suc, ◌/◌, ◌%◌}
use Prim.Native.String.{String, ◌++◌ as text_append}
use mathlib.Core.Bool.{Bool, true, false}
use mathlib.Core.Option.{Option, none, some}
use mathlib.Core.List.{List, [], ◌∷◌}
use text.Mathlib.Text.{◌==◌, find?}
use fabricd.Base.Tests.{nat_eq, ltb, if◌then◌else◌}

-- `format!`: the pieces of the template and the printed arguments, in order.
abbrev pub format : List String → String
format [] = ""
format (s ∷ []) = s
format (s ∷ t ∷ ss) = text_append s (format (t ∷ ss))

abbrev pub is_empty : String → Bool
is_empty s = s == ""

digit : ℕ → String
digit n =
    if nat_eq n 0
    then "0"
    else if nat_eq n 1
    then "1"
    else if nat_eq n 2
    then "2"
    else if nat_eq n 3
    then "3"
    else if nat_eq n 4
    then "4"
    else if nat_eq n 5
    then "5"
    else if nat_eq n 6
    then "6"
    else if nat_eq n 7
    then "7"
    else if nat_eq n 8
    then "8"
    else "9"

-- A number below `10 ^ fuel` in decimal.
digits_fuel : ℕ → ℕ → String
unfolding digit
digits_fuel zero n = ""
digits_fuel (suc fuel) n =
    let more = text_append (digits_fuel fuel (n / 10)) (digit (n % 10)) in
    if ltb n 10 then digit n else more

-- `Display` of an unsigned integer of at most 128 bits, which has at most 39 digits.
unfoldable pub show : ℕ → String
unfolding digits_fuel
show n = digits_fuel 39 n

-- `str::contains`
unfoldable pub contains : String → String → Bool
contains s piece = elim (find? s piece) [ none ↦ false | some i ↦ true ]

-- `Option<String>::filter(|text| !text.is_empty())`
abbrev pub non_empty : Option String → Option String
non_empty none = none
non_empty (some s) = if is_empty s then none else some s
