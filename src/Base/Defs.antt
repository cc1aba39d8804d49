-- ===== src/Base/Defs.antt =====
-- Values of the program's language: numbers as JavaScript has them, dates, and JSON-like metadata.
use Prim.Native.String.{String}
use Prim.Native.Nat.{ℕ}
use mathlib.Core.List.{List}
use program_capacity_invoice.Base.Int.{ℤ}

-- A `number`: one with an integer value, one with a fractional part, an infinity, or NaN. The code
-- reads nothing else of the last three.
pub data JsNumber : Type 0 where
  integer : ℤ → JsNumber
  fraction : JsNumber
  infinite : JsNumber
  nan : JsNumber

-- A `Date`, in milliseconds.
abbrev pub Date : Type 0
Date = ℤ

-- One value of a `Record<string, unknown>` that the code writes into details or metadata.
pub data Detail : Type 0 where
  words : String → Detail
  minor : ℤ → Detail
  count : ℕ → Detail
  strings : List String → Detail
  nested : List (String × String) → Detail

abbrev pub Details : Type 0
Details = List (String × Detail)
