-- ===== src/Base/Trim.antt =====
-- `String.prototype.trim` on code points.
use Prim.Native.Nat.{ℕ}
use mathlib.Core.Path.{◌≡◌, refl}
use mathlib.Core.Logic.{inl, inr}
use mathlib.Core.Bool.{Bool, true, false, not, ◌&&◌, ◌||◌}
use mathlib.Core.Option.{Option, none, some}
use mathlib.Core.List.{List, [], ◌∷◌}
use native.Mathlib.Omega.{arith}
use travelo.Base.Tests.{leb, ◌==◌, if◌then◌else◌, Bool-cases}
use travelo.Base.Lists.{any}

-- The white space that `String.prototype.trim` removes.
is_space : ℕ → Bool
is_space c =
    (leb 9 c && leb c 13)
    || c == 32
    || c == 160
    || c == 5760
    || (leb 8192 c && leb c 8202)
    || c == 8232
    || c == 8233
    || c == 8239
    || c == 8287
    || c == 12288
    || c == 65279

trim_start : List ℕ → List ℕ
unfolding is_space
trim_start [] = []
trim_start (c ∷ cs) = let rest = trim_start cs in if is_space c then rest else c ∷ cs

trim_end : List ℕ → List ℕ
unfolding is_space
trim_end [] = []
trim_end (c ∷ cs) = elim (trim_end cs) [
  | [] ↦ if is_space c then [] else c ∷ []
  | d ∷ ds ↦ c ∷ d ∷ ds
]

-- `text.trim()`
unfoldable pub trim : List ℕ → List ℕ
unfolding trim_start trim_end
trim text = trim_end (trim_start text)

-- `text?.trim() || null`: the trimmed text, where one is given and not blank.
unfoldable pub given_text : Option (List ℕ) → Option (List ℕ)
unfolding trim
given_text none = none
given_text (some text) = elim (trim text) [ [] ↦ none | c ∷ cs ↦ some (c ∷ cs) ]

-- Some character of the text is not white space.
visible : List ℕ → Bool
unfolding is_space any
visible text = any (λ c. not (is_space c)) text

-- A text is there, and it is not blank.
unfoldable pub says_something : Option (List ℕ) → Bool
unfolding visible
says_something none = false
says_something (some text) = visible text

trim_end-visible :
    (cs : List ℕ) (d : ℕ) (ds : List ℕ) → trim_end cs ≡ d ∷ ds → visible (d ∷ ds) ≡ true
unfolding trim_end visible any
trim_end-visible [] d ds h = cc
trim_end-visible (c ∷ cs) d ds h = go (λ x xs e. trim_end-visible cs x xs e) (trim_end cs) refl
  where
    go :
        ((x : ℕ) (xs : List ℕ) → trim_end cs ≡ x ∷ xs → visible (x ∷ xs) ≡ true)
        → (rest : List ℕ) → trim_end cs ≡ rest
        → visible (d ∷ ds) ≡ true
    go seen [] e = elim (Bool-cases (is_space c)) [
      | inl blank ↦ absurd (ground (arith, e, blank, h))
      | inr shown ↦ ground (arith, e, shown, h)
    ]
    go seen (x ∷ xs) e = ground (arith, seen x xs e, e, h)

pub given_text-says :
    (text : Option (List ℕ)) {t : List ℕ}
    → given_text text ≡ some t
    → says_something (some t) ≡ true
unfolding given_text trim says_something
given_text-says none h = cc
given_text-says (some text) {t} h = go (trim text) refl
  where
    go : (rest : List ℕ) → trim text ≡ rest → visible t ≡ true
    go [] e = absurd (ground (arith, e, h))
    go (x ∷ xs) e = ground (arith, trim_end-visible (trim_start text) x xs e, e, h)
