-- ===== src/Base/Columns.antt =====
-- What Postgres stores of a value: the columns of type UUID, CHAR(3) and BIGINT.
use Prim.Native.Char.{Char}
use Prim.Native.Nat.{◌-◌, ◌^◌}
use Prim.Native.String.{String}
use mathlib.Core.Bool.{Bool, true, false, ◌&&◌}
use mathlib.Core.Option.{Option, none, some}
use program_capacity_invoice.Base.Tests.{if◌then◌else◌}
use program_capacity_invoice.Base.Words.{is_char}
use program_capacity_invoice.Base.Int.{ℤ, pos, negsuc, leb_ℤ}

-- A hexadecimal digit as Postgres writes it.
abbrev pub hex_digit : Char → Char
hex_digit c =
    if is_char c "A"
    then "a"
    else if is_char c "B"
    then "b"
    else if is_char c "C"
    then "c"
    else if is_char c "D"
    then "d"
    else if is_char c "E"
    then "e"
    else if is_char c "F"
    then "f"
    else c

-- `${text}::uuid`, of a text that is a UUID: the value's own text, in lower case.
abbrev pub as_uuid : String → String
as_uuid String.[] = ""
as_uuid (String.◌∷◌ c s) = String.◌∷◌ (hex_digit c) (as_uuid s)

abbrev pub is_blank : String → Bool
is_blank String.[] = true
is_blank (String.◌∷◌ c s) = is_char c " " && is_blank s

-- What is left of a text behind its third character: blanks are dropped.
abbrev pub past_three : String → String
past_three rest = if is_blank rest then "" else rest

-- A CHAR(3) column pads a shorter text with blanks.
abbrev pub char_3 : String → String
char_3 String.[] = "   "
char_3 (String.◌∷◌ c String.[]) = String.◌∷◌ c "  "
char_3 (String.◌∷◌ c (String.◌∷◌ d String.[])) = String.◌∷◌ c (String.◌∷◌ d " ")
char_3 (String.◌∷◌ c (String.◌∷◌ d (String.◌∷◌ e rest))) =
    String.◌∷◌ c (String.◌∷◌ d (String.◌∷◌ e (past_three rest)))

-- It refuses a longer one.
abbrev pub fits_char_3 : String → Bool
fits_char_3 String.[] = true
fits_char_3 (String.◌∷◌ c String.[]) = true
fits_char_3 (String.◌∷◌ c (String.◌∷◌ d String.[])) = true
fits_char_3 (String.◌∷◌ c (String.◌∷◌ d (String.◌∷◌ e String.[]))) = true
fits_char_3 (String.◌∷◌ c (String.◌∷◌ d (String.◌∷◌ e (String.◌∷◌ f rest)))) = false

-- The range of a BIGINT column.
abbrev pub max_bigint : ℤ
max_bigint = pos (2 ^ 63 - 1)

abbrev pub in_bigint : ℤ → Bool
in_bigint amount = leb_ℤ (negsuc (2 ^ 63 - 1)) amount && leb_ℤ amount max_bigint

abbrev pub in_nullable_bigint : Option ℤ → Bool
in_nullable_bigint none = true
in_nullable_bigint (some amount) = in_bigint amount
