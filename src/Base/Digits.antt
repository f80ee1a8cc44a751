-- ===== src/Base/Digits.antt =====
-- Decimal text as a list of byte codes: `String(n)` and `padStart`.
use Prim.Native.Nat.{ℕ, zero, suc, ◌+◌, ◌-◌, ◌*◌, ◌/◌, ◌%◌, ◌<◌}
use mathlib.Core.Path.{◌≡◌, refl, ◌∙◌}
use mathlib.Core.List.{List, [], ◌∷◌}
use Prim.Native.Char.{code}
use Prim.Native.String.{String}
use mathlib.Core.Bool.{Bool, true, false, ◌&&◌, ◌||◌}
use native.Mathlib.Omega.{arith}
use travelo.Base.Tests.{ltb, ◌==◌, if◌then◌else◌}
use travelo.Base.Lists.{length}

-- The digits of `n` before `acc`; `n` has at most `fuel` digits where `n < fuel`.
digits_before : ℕ → ℕ → List ℕ → List ℕ
digits_before zero n acc = acc
digits_before (suc fuel) n acc =
    let rest = digits_before fuel (n / 10) ((b'0' + n % 10) ∷ acc) in
    if ltb n 10 then (b'0' + n) ∷ acc else rest

-- `String(n)`
unfoldable pub decimal : ℕ → List ℕ
unfolding digits_before
decimal n = digits_before (suc n) n []

replicate : ℕ → ℕ → List ℕ → List ℕ
replicate zero c tail = tail
replicate (suc n) c tail = c ∷ replicate n c tail

-- `text.padStart(width, '0')`
unfoldable pub pad_start : ℕ → List ℕ → List ℕ
unfolding replicate
pad_start width text = replicate (width - length text) b'0' text

-- The number that a decimal text stands for.
unfoldable pub value_from : ℕ → List ℕ → ℕ
value_from n [] = n
value_from n (c ∷ cs) = value_from (n * 10 + (c - b'0')) cs

value_from-digits_before :
    (fuel n : ℕ) (acc : List ℕ)
    → n < fuel
    → value_from 0 (digits_before fuel n acc) ≡ value_from n acc
unfolding value_from digits_before
value_from-digits_before zero n acc h = absurd (omega arith)
value_from-digits_before (suc fuel) n acc h =
    ground (arith, value_from-digits_before fuel (n / 10) ((b'0' + n % 10) ∷ acc))

value_from-replicate :
    (k : ℕ) (text : List ℕ) → value_from 0 (replicate k b'0' text) ≡ value_from 0 text
unfolding value_from replicate
value_from-replicate zero text = refl
value_from-replicate (suc k) text = value_from-replicate k text

-- Reading a padded number back gives the number, whatever the width.
pub value_from-pad_start : (width n : ℕ) → value_from 0 (pad_start width (decimal n)) ≡ n
unfolding pad_start decimal value_from
value_from-pad_start width n =
    value_from-replicate (width - length (decimal n)) (decimal n)
    ∙ value_from-digits_before (suc n) n [] (omega arith)

-- The code points of a text.
abbrev pub codes : String → List ℕ
codes (String.◌∷◌ letter rest) = code letter ∷ codes rest
codes String.[] = []

-- `===` on such texts.
unfoldable pub codes_eq : List ℕ → List ℕ → Bool
codes_eq [] [] = true
codes_eq (x ∷ xs) (y ∷ ys) = (x == y) && codes_eq xs ys
codes_eq [] (y ∷ ys) = false
codes_eq (x ∷ xs) [] = false

-- `order by` a text column.
unfoldable pub codes_leb : List ℕ → List ℕ → Bool
codes_leb [] ys = true
codes_leb (x ∷ xs) [] = false
codes_leb (x ∷ xs) (y ∷ ys) = ltb x y || ((x == y) && codes_leb xs ys)
