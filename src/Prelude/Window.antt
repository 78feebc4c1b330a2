-- ===== src/Prelude/Window.antt =====
-- The newest elements of a list.
use Prim.Native.Nat.{ℕ, zero, suc, ◌-◌, ◌≤◌, ◌<◌}
use mathlib.Core.Path.{◌≡◌, refl, sym, ap, ◌∙◌}
use mathlib.Core.Logic.{inl, inr}
use mathlib.Core.List.{List, [], ◌∷◌, ◌++◌}
use native.Mathlib.Omega.{arith}
use pitch_bot.Prelude.Tests.{ltb, if◌then◌else◌, Bool-cases}
use pitch_bot.Prelude.Lists.{drop, length, All, length-append, length-drop}

module _ {ℓ} {A : Type ℓ} where
  -- at most `n` of them, in order
  unfoldable pub latest : ℕ → List A → List A
  latest n xs = drop (length xs - n) xs

  pub drop-append : (n : ℕ) (xs ys : List A) → n ≤ length xs → drop n (xs ++ ys) ≡ drop n xs ++ ys
  drop-append zero xs ys h = refl
  drop-append (suc n) [] ys h = absurd (omega (arith, h))
  drop-append (suc n) (x ∷ xs) ys h = drop-append n xs ys (omega (arith, h))

  drop-suc : (n : ℕ) (xs : List A) → drop (suc n) xs ≡ drop 1 (drop n xs)
  drop-suc zero xs = refl
  drop-suc (suc n) [] = refl
  drop-suc (suc n) (x ∷ xs) = drop-suc n xs

  pub length-latest : (n : ℕ) (xs : List A) → length (latest n xs) ≤ n
  unfolding latest
  length-latest n xs = omega (arith, length-drop (length xs - n) xs)

  pub latest_all : (n : ℕ) (xs : List A) → length xs ≤ n → latest n xs ≡ xs
  unfolding latest
  latest_all n xs h = ap (λ k. drop k xs) {y = 0} (omega (arith, h))

  latest_few :
      (n : ℕ) (xs : List A) (x : A)
      → length xs < n
      → (if ltb n (length (xs ++ x ∷ [])) then drop 1 (xs ++ x ∷ []) else xs ++ x ∷ [])
        ≡ latest n (xs ++ x ∷ [])
  latest_few n xs x few = ground (arith, length-append xs (x ∷ []), latest_all n (xs ++ x ∷ []))

  latest_full :
      (n : ℕ) (ys : List A) (x : A)
      → length ys ≡ n
      → (if ltb n (length (ys ++ x ∷ [])) then drop 1 (ys ++ x ∷ []) else ys ++ x ∷ [])
        ≡ drop 1 (ys ++ x ∷ [])
  latest_full n ys x full = ground (arith, length-append ys (x ∷ []))

  -- one more element, and the oldest one dropped if there are too many
  pub latest-append :
      (n : ℕ) (xs : List A) (x : A)
      → 0 < n
      → (if ltb n (length (latest n xs ++ x ∷ []))
          then drop 1 (latest n xs ++ x ∷ [])
          else latest n xs ++ x ∷ [])
        ≡ latest n (xs ++ x ∷ [])
  unfolding latest
  latest-append n xs x pos = elim (Bool-cases (ltb (length xs) n)) [
    | inl few ↦
        ap (λ ys. if ltb n (length (ys ++ x ∷ [])) then drop 1 (ys ++ x ∷ []) else ys ++ x ∷ [])
          (latest_all n xs (ground (arith, few)))
        ∙ latest_few n xs x (ground (arith, few))
    | inr many ↦
        let le : n ≤ length xs = ground (arith, many) in
        let gap : length (xs ++ x ∷ []) - n ≡ suc (length xs - n) =
          omega (arith, le, length-append xs (x ∷ [])) in
        latest_full n (latest n xs) x (omega (arith, le, length-drop (length xs - n) xs))
        ∙ ap (drop 1) (sym (drop-append (length xs - n) xs (x ∷ []) (omega arith)))
        ∙ sym (drop-suc (length xs - n) (xs ++ x ∷ []))
        ∙ sym (ap (λ k. drop k (xs ++ x ∷ [])) gap)
  ]

  All-drop {κ} : (P : A → Type κ) (n : ℕ) (xs : List A) → All P xs → All P (drop n xs)
  All-drop P zero xs h = h
  All-drop P (suc n) [] h = tt
  All-drop P (suc n) (x ∷ xs) h = All-drop P n xs h.1

  pub All-latest {κ} : (P : A → Type κ) (n : ℕ) (xs : List A) → All P xs → All P (latest n xs)
  unfolding latest
  All-latest P n xs h = All-drop P (length xs - n) xs h

  pub All-append {κ} : (P : A → Type κ) (xs ys : List A) → All P xs → All P ys → All P (xs ++ ys)
  All-append P [] ys hx hy = hy
  All-append P (x ∷ xs) ys hx hy = (hx.0, All-append P xs ys hx.1 hy)
