-- ===== src/Prelude/Texts.antt =====
-- Texts as lists of code points, their equality, and the string methods that the program calls.
use Prim.Native.Nat.{ℕ}
use mathlib.Core.Path.{◌≡◌, refl}
use mathlib.Core.Logic.{◌↔◌}
use mathlib.Core.Bool.{Bool, true, false, ◌&&◌}
use mathlib.Core.List.{List, [], ◌∷◌}
use native.Mathlib.Omega.{arith}
use pitch_bot.Prelude.Tests.{◌==◌, if◌then◌else◌}
use pitch_bot.Prelude.Keys.{Eq}

abbrev pub Text : Type 0
Text = List ℕ

unfoldable pub text_beq : Text → Text → Bool
text_beq [] [] = true
text_beq (c ∷ s) (d ∷ t) = (c == d) && text_beq s t
text_beq _ _ = false

pub text_beq_iff : (s t : Text) → (text_beq s t ≡ true) ↔ (s ≡ t)
unfolding text_beq
text_beq_iff [] [] = (λ h. refl, λ h. refl)
text_beq_iff [] (d ∷ t) = ground arith
text_beq_iff (c ∷ s) [] = ground arith
text_beq_iff (c ∷ s) (d ∷ t) = ground (arith, text_beq_iff s t)

instance abbrev pub text_eq : Eq Text
text_eq = record { beq = text_beq; beq_iff = text_beq_iff }

abbrev pub is_empty {ℓ} : {A : Type ℓ} → List A → Bool
is_empty [] = true
is_empty (c ∷ s) = false

-- s.split(sep)
abbrev cut : Bool → ℕ → List Text → List Text
cut true c ts = [] ∷ ts
cut false c [] = (c ∷ []) ∷ []
cut false c (t ∷ ts) = (c ∷ t) ∷ ts

unfoldable pub split : ℕ → Text → List Text
split sep [] = [] ∷ []
split sep (c ∷ s) = cut (c == sep) c (split sep s)

-- s.partition(sep): the text before, whether the separator is there, and the text after
unfoldable pub partition : ℕ → Text → Text × Bool × Text
partition sep [] = ([], false, [])
partition sep (c ∷ s) =
    let (before, found, after) = partition sep s in
    if c == sep then ([], true, s) else (c ∷ before, found, after)

-- s.strip(), where the argument tells what is white space
module _ (is_space : ℕ → Bool) where
  unfoldable pub strip_left : Text → Text
  strip_left [] = []
  strip_left (c ∷ s) = let rest = strip_left s in if is_space c then rest else c ∷ s

  unfoldable pub strip_right : Text → Text
  strip_right [] = []
  strip_right (c ∷ s) =
      let rest = strip_right s in if is_empty rest && is_space c then [] else c ∷ rest

  unfoldable pub strip : Text → Text
  unfolding strip_left strip_right
  strip s = strip_left (strip_right s)
