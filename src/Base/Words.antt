-- ===== src/Base/Words.antt =====
-- `split` and `join` on texts, at a separator of one character, and `slice` up to a character.
use Prim.Native.Char.{Char, code}
use Prim.Native.String
use Prim.Native.String.{String}
use mathlib.Core.Path.{◌≡◌, refl, sym, ◌∙◌, ap}
use mathlib.Core.Logic.{inl, inr}
use mathlib.Core.Bool.{Bool, true, false, not, ◌&&◌}
use mathlib.Core.List.{List, [], ◌∷◌}
use native.Mathlib.Omega.{arith}
use text.Mathlib.TextEquality.{Char-path}
use text.Mathlib.TextLemmas.{nil-append, cons-append}
use program_capacity_invoice.Base.Tests.{eqb, if◌then◌else◌, Bool-cases}

-- `text.length > 0`, and the coercion of a text to a Boolean.
abbrev pub is_text : String → Bool
is_text String.[] = false
is_text (String.◌∷◌ c s) = true

abbrev pub is_char : Char → Char → Bool
is_char c d = eqb (code c) (code d)

abbrev pub Lacks : Char → String → Type 0
Lacks sep String.[] = Unit
Lacks sep (String.◌∷◌ c s) = (is_char c sep ≡ false) × Lacks sep s

unfoldable pub lacks : Char → String → Bool
lacks c String.[] = true
lacks c (String.◌∷◌ d s) = not (is_char d c) && lacks c s

pub lacks_lem : (c : Char) (s : String) → lacks c s ≡ true → Lacks c s
unfolding lacks
lacks_lem c String.[] h = tt
lacks_lem c (String.◌∷◌ d s) h = (ground arith, lacks_lem c s (ground arith))

-- The character in front of the first part.
abbrev pub into_first : Char → List String → List String
into_first c [] = (String.◌∷◌ c "") ∷ []
into_first c (part ∷ parts) = (String.◌∷◌ c part) ∷ parts

-- `text.split(sep)`
unfoldable pub split : Char → String → List String
split sep String.[] = "" ∷ []
split sep (String.◌∷◌ c s) =
    let rest = split sep s in if is_char c sep then "" ∷ rest else into_first c rest

-- `parts.join(sep)`
unfoldable pub join : Char → List String → String
join sep [] = ""
join sep (part ∷ []) = part
join sep (part ∷ next ∷ parts) = String.◌++◌ part (String.◌∷◌ sep (join sep (next ∷ parts)))

-- `text.slice(0, text.indexOf(c))`, or the text where it lacks the character.
unfoldable pub before : Char → String → String
before c String.[] = ""
before c (String.◌∷◌ d s) = let rest = before c s in if is_char d c then "" else String.◌∷◌ d rest

is_char_refl : (c : Char) → is_char c c ≡ true
is_char_refl c = ground arith

is_char→eq : (c d : Char) → is_char c d ≡ true → c ≡ d
is_char→eq c d h = Char-path c d (ground arith)

pub split-Lacks : (sep : Char) (s : String) → Lacks sep s → split sep s ≡ s ∷ []
unfolding split
split-Lacks sep String.[] h = refl
split-Lacks sep (String.◌∷◌ c s) h = rw (h.0, split-Lacks sep s h.1) refl

pub split-append :
    (sep : Char) (s rest : String)
    → Lacks sep s
    → split sep (String.◌++◌ s (String.◌∷◌ sep rest)) ≡ s ∷ split sep rest
unfolding split
split-append sep String.[] rest h = rw (nil-append, is_char_refl sep) refl
split-append sep (String.◌∷◌ c s) rest h =
    rw (cons-append c s (String.◌∷◌ sep rest), h.0, split-append sep s rest h.1) refl

-- What the first part of a text is.
pub data Splits (sep : Char) (s : String) (parts : List String) : Type 0 where
  whole : Lacks sep s → parts ≡ s ∷ [] → Splits sep s parts
  at :
      (part rest : String)
      → Lacks sep part
      → s ≡ String.◌++◌ part (String.◌∷◌ sep rest)
      → parts ≡ part ∷ split sep rest
      → Splits sep s parts

pub split-Splits : (sep : Char) (s : String) → Splits sep s (split sep s)
unfolding split
split-Splits sep String.[] = whole tt refl
split-Splits sep (String.◌∷◌ c s) = elim (Bool-cases (is_char c sep)) [
  | inl is ↦
      at "" s tt (ap (λ x. String.◌∷◌ x s) (is_char→eq c sep is) ∙ sym (nil-append _)) (rw is refl)
  | inr other ↦ elim (split-Splits sep s) [
    | whole lacks same ↦ whole (other, lacks) (rw (other, same) refl)
    | at part rest lacks same parts ↦
        at (String.◌∷◌ c part) rest (other, lacks)
          (ap (String.◌∷◌ c) same ∙ sym (cons-append c part _)) (rw (other, parts) refl)
  ]
]

abbrev pub AllLack : Char → List String → Type 0
AllLack sep [] = Unit
AllLack sep (part ∷ parts) = Lacks sep part × AllLack sep parts

into_first-AllLack :
    (sep c : Char) (parts : List String)
    → is_char c sep ≡ false
    → AllLack sep parts
    → AllLack sep (into_first c parts)
into_first-AllLack sep c [] other h = ((other, tt), tt)
into_first-AllLack sep c (part ∷ parts) other h = ((other, h.0), h.1)

pub split-AllLack : (sep : Char) (s : String) → AllLack sep (split sep s)
unfolding split
split-AllLack sep String.[] = (tt, tt)
split-AllLack sep (String.◌∷◌ c s) = elim (Bool-cases (is_char c sep)) [
  | inl is ↦ rw is (tt, split-AllLack sep s)
  | inr other ↦ rw other (into_first-AllLack sep c (split sep s) other (split-AllLack sep s))
]

-- Splitting a join gives the parts back, if there is a part and none holds the separator.
pub split-join :
    (sep : Char) (part : String) (parts : List String)
    → AllLack sep (part ∷ parts)
    → split sep (join sep (part ∷ parts)) ≡ part ∷ parts
unfolding join
split-join sep part [] h = split-Lacks sep part h.0
split-join sep part (next ∷ parts) h =
    split-append sep part _ h.0 ∙ ap (λ x. part ∷ x) (split-join sep next parts h.1)

pub before-Lacks : (c : Char) (s : String) → Lacks c s → before c s ≡ s
unfolding before
before-Lacks c String.[] h = refl
before-Lacks c (String.◌∷◌ d s) h = rw (h.0, before-Lacks c s h.1) refl

pub before-append :
    (c : Char) (s rest : String) → Lacks c s → before c (String.◌++◌ s (String.◌∷◌ c rest)) ≡ s
unfolding before
before-append c String.[] rest h = rw (nil-append, is_char_refl c) refl
before-append c (String.◌∷◌ d s) rest h =
    rw (cons-append d s (String.◌∷◌ c rest), h.0, before-append c s rest h.1) refl

-- What stands before a character.
pub data Cuts (c : Char) (s part : String) : Type 0 where
  whole : Lacks c s → part ≡ s → Cuts c s part
  at : (rest : String) → s ≡ String.◌++◌ part (String.◌∷◌ c rest) → Cuts c s part

pub before-Cuts : (c : Char) (s : String) → Cuts c s (before c s)
unfolding before
before-Cuts c String.[] = whole tt refl
before-Cuts c (String.◌∷◌ d s) = elim (Bool-cases (is_char d c)) [
  | inl is ↦
      rw is
        (at s (ap (λ x. String.◌∷◌ x s) (is_char→eq d c is) ∙ sym (nil-append (String.◌∷◌ c s))))
  | inr other ↦ elim (before-Cuts c s) [
    | whole lacks same ↦ rw other (whole (other, lacks) (ap (String.◌∷◌ d) same))
    | at rest same ↦
        rw other
          (at rest (ap (String.◌∷◌ d) same ∙ sym (cons-append d (before c s) (String.◌∷◌ c rest))))
  ]
]
