-- ===== src/Prelude/Text.antt =====
-- What the source uses of Python's str: a text is the list of its code points. `lower` changes the
-- letters of ASCII only.
use Prim.Native.Nat.{ℕ, ◌+◌, ◌-◌, ◌*◌}
use Prim.Native.Char.{code}
use Prim.Native.String.{String}
use mathlib.Core.Bool.{Bool, true, false, ◌&&◌, ◌||◌}
use mathlib.Core.Option.{Option, none, some}
use mathlib.Core.List.{List, [], ◌∷◌, map}
use flux_llm_inference_engin.Prelude.Tests.{leb, nat_beq, tokens_beq, if◌then◌else◌}

abbrev pub codes : String → List ℕ
codes String.[] = []
codes (String.◌∷◌ c s) = code c ∷ codes s

-- str.isspace of one code point
abbrev pub is_space : ℕ → Bool
is_space c =
    leb 9 c && leb c 13
    || (leb 28 c && leb c 32
        || (nat_beq c 133
            || (nat_beq c 160
                || (nat_beq c 5760
                    || (leb 8192 c && leb c 8202
                        || (nat_beq c 8232
                            || (nat_beq c 8233
                                || (nat_beq c 8239 || (nat_beq c 8287 || nat_beq c 12288)))))))))

abbrev pub lstrip : List ℕ → List ℕ
lstrip [] = []
lstrip (c ∷ text) = if is_space c then lstrip text else c ∷ text

-- A blank tail falls away.
abbrev pub cons_rstrip : ℕ → List ℕ → List ℕ
cons_rstrip c [] = if is_space c then [] else c ∷ []
cons_rstrip c (d ∷ text) = c ∷ d ∷ text

abbrev pub rstrip : List ℕ → List ℕ
rstrip [] = []
rstrip (c ∷ text) = cons_rstrip c (rstrip text)

unfoldable pub strip : List ℕ → List ℕ
strip text = rstrip (lstrip text)

unfoldable pub lower : List ℕ → List ℕ
lower text = map (λ c. if leb 65 c && leb c 90 then c + 32 else c) text

-- Whether a text is one of the names.
abbrev pub is_among : List ℕ → List String → Bool
is_among text [] = false
is_among text (name ∷ names) = tokens_beq (codes name) text || is_among text names

abbrev pub is_empty : List ℕ → Bool
is_empty [] = true
is_empty (c ∷ text) = false

-- The pieces around each separator.
abbrev pub cons_piece : ℕ → List (List ℕ) → List (List ℕ)
cons_piece c [] = (c ∷ []) ∷ []
cons_piece c (piece ∷ pieces) = (c ∷ piece) ∷ pieces

-- str.split on one character
unfoldable pub split : ℕ → List ℕ → List (List ℕ)
split sep [] = [] ∷ []
split sep (c ∷ text) =
    let rest = split sep text in if nat_beq c sep then [] ∷ rest else cons_piece c rest

abbrev is_digit : ℕ → Bool
is_digit c = leb 48 c && leb c 57

-- The rest of a number, after a digit (`true`) or where a digit must come.
unfoldable pub read_digits : Bool → ℕ → List ℕ → Option ℕ
read_digits true n [] = some n
read_digits false n [] = none
read_digits after n (c ∷ text) =
    let rest = read_digits (is_digit c) (if is_digit c then 10 * n + (c - 48) else n) text in
    if is_digit c || (after && nat_beq c 95) then rest else none

abbrev pub drop_plus : List ℕ → List ℕ
drop_plus [] = []
drop_plus (c ∷ text) = if nat_beq c 43 then text else c ∷ text

-- `int` of a text with the digits of ASCII, where it is not negative. `none` is the ValueError, and
-- also a number below zero, which all callers refuse with a ValueError.
unfoldable pub read_int : List ℕ → Option ℕ
unfolding strip
read_int text = read_digits false 0 (drop_plus (strip text))
