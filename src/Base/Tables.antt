-- ===== src/Base/Tables.antt =====
-- Database tables as lists of rows with a numeric primary key: `select … limit 1`,
-- `update … where id = …` and `insert`.
use Prim.Native.Nat.{ℕ}
use mathlib.Core.Path.{◌≡◌, refl, sym, ap, ◌∙◌}
use mathlib.Core.Logic.{◌≢◌, ◌⊎◌, inl, inr}
use mathlib.Core.Bool.{Bool, true, false, ◌&&◌}
use mathlib.Core.Option.{Option, none, some}
use mathlib.Core.List.{List, [], ◌∷◌, ◌++◌}
use native.Mathlib.Omega.{arith}
use travelo.Base.Tests.{◌==◌, if◌then◌else◌, Bool-cases}
use travelo.Base.Lists.{In, In-append, filter, count_of}

module _ {A : Type 0} where
  -- The first row that satisfies the condition.
  unfoldable pub select : (A → Bool) → List A → Option A
  select p [] = none
  select p (x ∷ xs) = let rest = select p xs in if p x then some x else rest

  pub select-some :
      (p : A → Bool) (xs : List A) {a : A} → select p xs ≡ some a → In a xs × (p a ≡ true)
  unfolding select
  select-some p [] h = cc
  select-some p (x ∷ xs) {a} h = elim (Bool-cases (p x)) [
    | inl y ↦ (inl (ground arith), ground arith)
    | inr n ↦ let t = select-some p xs (ground arith) in (inr t.0, t.1)
  ]

module _ {A : Type 0} (key : A → ℕ) where
  -- `update … set f where key = k`
  unfoldable pub update_row : ℕ → (A → A) → List A → List A
  update_row k f [] = []
  update_row k f (x ∷ xs) = (if key x == k then f x else x) ∷ update_row k f xs

  -- What an updated table holds: rows with the key, changed, and the others, as they were.
  pub update_row-In :
      (k : ℕ) (f : A → A) (a : A) (xs : List A)
      → In a (update_row k f xs)
      → (b : A) × In b xs × (((key b ≡ k) × (a ≡ f b)) ⊎ ((key b ≢ k) × (a ≡ b)))
  unfolding update_row
  update_row-In k f a [] m = elim m [ ]
  update_row-In k f a (x ∷ xs) (inl e) = elim (Bool-cases (key x == k)) [
    | inl y ↦ (x, inl refl, inl (ground arith, ground arith))
    | inr n ↦ (x, inl refl, inr ((λ q. ground arith), ground arith))
  ]
  update_row-In k f a (x ∷ xs) (inr m) = let (b, i, r) = update_row-In k f a xs m in (b, inr i, r)

  -- A row with another key is still there.
  pub In-update_row_other :
      (k : ℕ) (f : A → A) (b : A) (xs : List A) → key b ≢ k → In b xs → In b (update_row k f xs)
  unfolding update_row
  In-update_row_other k f b [] n m = m
  In-update_row_other k f b (x ∷ xs) n (inl e) = inl (ground arith)
  In-update_row_other k f b (x ∷ xs) n (inr m) = inr (In-update_row_other k f b xs n m)

  pub In-update_row_self :
      (k : ℕ) (f : A → A) (b : A) (xs : List A) → key b ≡ k → In b xs → In (f b) (update_row k f xs)
  unfolding update_row
  In-update_row_self k f b [] n m = elim m [ ]
  In-update_row_self k f b (x ∷ xs) n (inl e) = inl (ground arith)
  In-update_row_self k f b (x ∷ xs) n (inr m) = inr (In-update_row_self k f b xs n m)

module _ {A : Type 0} where
  pub select-append_hit :
      (p : A → Bool) (xs : List A) (a : A)
      → p a ≡ true
      → (b : A) × (select p (xs ++ a ∷ []) ≡ some b)
  unfolding select
  select-append_hit p [] a h = (a, ground arith)
  select-append_hit p (x ∷ xs) a h = elim (Bool-cases (p x)) [
    | inl y ↦ (x, rw y)
    | inr n ↦ let t = select-append_hit p xs a h in (t.0, rw n t.1)
  ]

  -- An update that no part of the condition reads: the row is found as before, changed.
  pub select-update_row :
      (p : A → Bool) (key : A → ℕ) (k : ℕ) (f : A → A) (xs : List A)
      → ((a : A) → p (f a) ≡ p a)
      → select p (update_row key k f xs)
        ≡ elim (select p xs) [ none ↦ none | some a ↦ some (if key a == k then f a else a) ]
  unfolding select update_row
  select-update_row p key k f [] same = refl
  select-update_row p key k f (x ∷ xs) same =
      ground (arith, same x, select-update_row p key k f xs same)

module _ {A : Type 0} (key : A → ℕ) where
  -- The key is a primary key.
  unfoldable pub Keyed : List A → Type 0
  Keyed xs = (a b : A) → In a xs → In b xs → key a ≡ key b → a ≡ b

  pub update_row-Keyed :
      (k : ℕ) (f : A → A) (xs : List A)
      → ((a : A) → key (f a) ≡ key a)
      → Keyed xs
      → Keyed (update_row key k f xs)
  unfolding Keyed
  update_row-Keyed k f xs keeps u a b m n e =
      let (a0, m0, from_a) = update_row-In key k f a xs m in
      let (b0, n0, from_b) = update_row-In key k f b xs n in
      elim from_a [
        | inl x ↦ elim from_b [
          | inl y ↦ x.1 ∙ ap f (u a0 b0 m0 n0 (x.0 ∙ sym y.0)) ∙ sym y.1
          | inr y ↦ absurd (y.0 (ap key (sym y.1) ∙ sym e ∙ ap key x.1 ∙ keeps a0 ∙ x.0))
        ]
        | inr x ↦ elim from_b [
          | inl y ↦ absurd (x.0 (ap key (sym x.1) ∙ e ∙ ap key y.1 ∙ keeps b0 ∙ y.0))
          | inr y ↦ x.1 ∙ u a0 b0 m0 n0 (ap key (sym x.1) ∙ e ∙ ap key y.1) ∙ sym y.1
        ]
      ]

  pub append-Keyed :
      (a : A) (xs : List A) → ((x : A) → In x xs → key x ≢ key a) → Keyed xs → Keyed (xs ++ a ∷ [])
  unfolding Keyed
  append-Keyed a xs fresh u x y m n e = elim (In-append x xs (a ∷ []) m) [
    | inl p ↦ elim (In-append y xs (a ∷ []) n) [
      | inl q ↦ u x y p q e
      | inr (inl q) ↦ absurd (fresh x p (e ∙ ap key q))
      | inr (inr q) ↦ elim q [ ]
    ]
    | inr (inl p) ↦ elim (In-append y xs (a ∷ []) n) [
      | inl q ↦ absurd (fresh y q (sym e ∙ ap key p))
      | inr (inl q) ↦ p ∙ sym q
      | inr (inr q) ↦ elim q [ ]
    ]
    | inr (inr p) ↦ elim p [ ]
  ]

module _ {A : Type 0} where
  -- The one row of a table with a property.
  unfoldable pub Sole : (A → Type 0) → List A → A → Type 0
  Sole P xs a = In a xs × P a × ((b : A) → In b xs → P b → b ≡ a)

  pub singleton-Sole : (P : A → Type 0) (a : A) → P a → Sole P (a ∷ []) a
  unfolding Sole
  singleton-Sole P a has = (inl refl, has, only)
    where
      only : (b : A) → In b (a ∷ []) → P b → b ≡ a
      only b (inl e) h = e
      only b (inr m) h = elim m [ ]

  -- A condition that says the property finds that row.
  pub select-Sole :
      (P : A → Type 0) (p : A → Bool) (xs : List A) (a : A)
      → ((x : A) → P x → p x ≡ true)
      → ((x : A) → p x ≡ true → P x)
      → Sole P xs a
      → select p xs ≡ some a
  unfolding Sole select
  select-Sole P p xs a says means (m, has, only) = found xs m (λ b n. only b n)
    where
      clash : true ≡ false → ⊥
      clash e = cc

      found : (ys : List A) → In a ys → ((b : A) → In b ys → P b → b ≡ a) → select p ys ≡ some a
      found [] n one = elim n [ ]
      found (y ∷ ys) n one = elim (Bool-cases (p y)) [
        | inl hit ↦ rw hit (ap some (one y (inl refl) (means y hit)))
        | inr miss ↦ elim n [
          | inl e ↦ absurd (clash (sym (says a has) ∙ ap p e ∙ miss))
          | inr r ↦ rw miss (found ys r (λ b k. one b (inr k)))
        ]
      ]

  pub select-filter :
      (p q : A → Bool) (xs : List A) → select q (filter p xs) ≡ select (λ x. p x && q x) xs
  unfolding select filter
  select-filter p q [] = refl
  select-filter p q (x ∷ xs) = ground (arith, select-filter p q xs)

  pub count_of-filter :
      (p q : A → Bool) (xs : List A) → count_of q (filter p xs) ≡ count_of (λ x. p x && q x) xs
  unfolding count_of filter
  count_of-filter p q [] = refl
  count_of-filter p q (x ∷ xs) = ground (arith, count_of-filter p q xs)

  pub count_of-same :
      (p q : A → Bool) (xs : List A) → ((x : A) → p x ≡ q x) → count_of p xs ≡ count_of q xs
  unfolding count_of
  count_of-same p q [] same = refl
  count_of-same p q (x ∷ xs) same = ground (arith, same x, count_of-same p q xs same)
