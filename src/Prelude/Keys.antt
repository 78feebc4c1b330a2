-- ===== src/Prelude/Keys.antt =====
-- Equality of keys, as an interface, and Python's `dict`: entries in the order of insertion, and a
-- write to a key that is there keeps its place.
use Prim.Native.Nat.{ℕ, suc, ◌≤◌}
use Prim.Native.String.{String}
use mathlib.Core.Path.{◌≡◌, refl}
use mathlib.Core.Logic.{◌↔◌, ◌≢◌}
use mathlib.Core.Bool.{Bool, true, false}
use mathlib.Core.Option.{Option, none, some}
use mathlib.Core.List.{List, [], ◌∷◌}
use native.Mathlib.Omega.{arith}
use text.Mathlib.Text.{◌==◌ as str_eq}
use text.Mathlib.TextEquality.{eq_iff}
use pitch_bot.Prelude.Tests.{◌==◌, ==_iff, if◌then◌else◌}
use pitch_bot.Prelude.Lists.{length}

pub record Eq {ℓ} (A : Type ℓ) : Type ℓ where
  pub beq : A → A → Bool
  pub beq_iff : (a b : A) → (beq a b ≡ true) ↔ (a ≡ b)

abbrev nat_beq : ℕ → ℕ → Bool
nat_beq a b = a == b

instance abbrev pub nat_eq : Eq ℕ
nat_eq = record { beq = nat_beq; beq_iff = ==_iff }

instance abbrev pub string_eq : Eq String
string_eq = record { beq = str_eq; beq_iff = eq_iff }

module _ {ℓ} {K : Type ℓ} ⦃e : Eq K⦄ where
  pub beq_refl : (k : K) → e.beq k k ≡ true
  beq_refl k = (e.beq_iff k k).1 refl

  pub beq_ne : (k j : K) → k ≢ j → e.beq k j ≡ false
  beq_ne k j h = ground (arith, e.beq_iff k j)

abbrev pub Dict {ℓ κ} : Type ℓ → Type κ → Type (ℓ ⊔ κ)
Dict K V = List (K × V)

module _ {ℓ κ} {K : Type ℓ} {V : Type κ} ⦃e : Eq K⦄ where
  -- d.get(k)
  unfoldable pub get : K → Dict K V → Option V
  get k [] = none
  get k ((j, v) ∷ d) = if e.beq j k then some v else get k d

  -- d[k] = v
  unfoldable pub put : K → V → Dict K V → Dict K V
  put k v [] = (k, v) ∷ []
  put k v ((j, w) ∷ d) = if e.beq j k then (j, v) ∷ d else (j, w) ∷ put k v d

  -- d.pop(k, None); the keys of a `dict` are distinct, so one entry goes
  unfoldable pub remove : K → Dict K V → Dict K V
  remove k [] = []
  remove k ((j, v) ∷ d) = let rest = remove k d in if e.beq j k then rest else (j, v) ∷ rest

  pub get-put :
      (k j : K) (v : V) (d : Dict K V) → get j (put k v d) ≡ (if e.beq k j then some v else get j d)
  unfolding get put
  get-put k j v [] = refl
  get-put k j v ((i, w) ∷ d) =
      ground (arith, e.beq_iff k j, e.beq_iff i k, e.beq_iff i j, get-put k j v d)

  pub get-put_same : (k : K) (v : V) (d : Dict K V) → get k (put k v d) ≡ some v
  get-put_same k v d = rw (get-put k k v d) (rw (beq_refl k) refl)

  pub get-remove :
      (k j : K) (d : Dict K V) → get j (remove k d) ≡ (if e.beq k j then none else get j d)
  unfolding get remove
  get-remove k j [] = ground arith
  get-remove k j ((i, w) ∷ d) =
      ground (arith, e.beq_iff k j, e.beq_iff i k, e.beq_iff i j, get-remove k j d)

  pub get-remove_same : (k : K) (d : Dict K V) → get k (remove k d) ≡ none
  get-remove_same k d = rw (get-remove k k d) (rw (beq_refl k) refl)

  pub length-put : (k : K) (v : V) (d : Dict K V) → length (put k v d) ≤ suc (length d)
  unfolding put
  length-put k v [] = omega arith
  length-put k v ((j, w) ∷ d) = ground (arith, length-put k v d)

pub ruleset dict_laws = (get-put, get-remove, beq_refl)

pub same_pair_iff {ℓ κ} :
    {A : Type ℓ} {B : Type κ} ⦃e : Eq A⦄ ⦃f : Eq B⦄ (x y : A × B)
    → ((if e.beq x.0 y.0 then f.beq x.1 y.1 else false) ≡ true) ↔ (x ≡ y)
same_pair_iff ⦃e⦄ ⦃f⦄ x y = ground (arith, e.beq_iff x.0 y.0, f.beq_iff x.1 y.1)

instance abbrev pub pair_eq {ℓ κ} : {A : Type ℓ} {B : Type κ} ⦃e : Eq A⦄ ⦃f : Eq B⦄ → Eq (A × B)
pair_eq ⦃e⦄ ⦃f⦄ = record {
  beq = λ x y. if e.beq x.0 y.0 then f.beq x.1 y.1 else false;
  beq_iff = same_pair_iff;
}

module _ {ℓ} {K : Type ℓ} ⦃e : Eq K⦄ where
  -- x in xs
  unfoldable pub member : K → List K → Bool
  member x [] = false
  member x (y ∷ ys) = if e.beq y x then true else member x ys

  unfoldable pub without : K → List K → List K
  without x [] = []
  without x (y ∷ ys) = let rest = without x ys in if e.beq x y then rest else y ∷ rest

  -- tuple(dict.fromkeys(xs)), and the elements of set(xs)
  unfoldable pub from_keys : List K → List K
  from_keys [] = []
  from_keys (x ∷ xs) = x ∷ without x (from_keys xs)
