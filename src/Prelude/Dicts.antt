-- ===== src/Prelude/Dicts.antt =====
-- The sizes and the keys of a `dict`.
use Prim.Native.Nat.{suc}
use mathlib.Core.Path.{◌≡◌, refl, ap, ◌∙◌}
use mathlib.Core.Logic.{inl, inr}
use mathlib.Core.Bool.{Bool, true, false}
use mathlib.Core.Option.{Option, none, some}
use mathlib.Core.List.{List, [], ◌∷◌, map}
use native.Mathlib.Omega.{arith}
use pitch_bot.Prelude.Tests.{if◌then◌else◌, Bool-cases}
use pitch_bot.Prelude.Lists.{length, All}
use pitch_bot.Prelude.Keys.{Eq, Dict, get, put, beq_refl, member, without, from_keys}

abbrev pub is_some {ℓ} : {A : Type ℓ} → Option A → Bool
is_some none = false
is_some (some x) = true

module _ {ℓ} {K : Type ℓ} ⦃e : Eq K⦄ where
  pub length-put_known :
      {V : Type 0} (k : K) (v : V) (d : Dict K V)
      → is_some (get k d) ≡ true
      → length (put k v d) ≡ length d
  unfolding get put
  length-put_known k v [] known = ground (arith, known)
  length-put_known k v ((j, w) ∷ d) known = ground (arith, known, length-put_known k v d)

  pub length-put_new :
      {V : Type 0} (k : K) (v : V) (d : Dict K V)
      → get k d ≡ none
      → length (put k v d) ≡ suc (length d)
  unfolding get put
  length-put_new k v [] fresh = refl
  length-put_new k v ((j, w) ∷ d) fresh = ground (arith, fresh, length-put_new k v d)

  pub put_twice : {V : Type 0} (k : K) (v w : V) (d : Dict K V) → put k w (put k v d) ≡ put k w d
  unfolding put
  put_twice k v w [] = rw (beq_refl k) refl
  put_twice k v w ((j, u) ∷ d) = ground (arith, put_twice k v w d)

  beq_flip : (j k : K) → e.beq j k ≡ false → e.beq k j ≡ false
  beq_flip j k h = ground (arith, h, e.beq_iff j k, e.beq_iff k j)

  -- no key stands twice
  abbrev pub IsDistinct : List K → Type 0
  IsDistinct [] = Unit
  IsDistinct (k ∷ ks) = (member k ks ≡ false) × IsDistinct ks

  without_absent : (k : K) (ks : List K) → member k ks ≡ false → without k ks ≡ ks
  unfolding member without
  without_absent k [] h = refl
  without_absent k (j ∷ ks) h = ground (arith, h, without_absent k ks, e.beq_iff j k, e.beq_iff k j)

  pub from_keys_distinct : (ks : List K) → IsDistinct ks → from_keys ks ≡ ks
  unfolding from_keys
  from_keys_distinct [] h = refl
  from_keys_distinct (k ∷ ks) h =
      rw (from_keys_distinct ks h.1) (ap (λ l. k ∷ l) (without_absent k ks h.0))

  module _ {V : Type 0} where
    abbrev pub keys : Dict K V → List K
    keys = map (λ entry. entry.0)

    pub member-keys : (k : K) (d : Dict K V) → member k (keys d) ≡ is_some (get k d)
    unfolding member get
    member-keys k [] = refl
    member-keys k ((j, v) ∷ d) = ground (arith, member-keys k d)

    member-put :
        (j k : K) (v : V) (d : Dict K V)
        → member j (keys (put k v d)) ≡ (if e.beq k j then true else member j (keys d))
    unfolding member put
    member-put j k v [] = refl
    member-put j k v ((i, w) ∷ d) =
        ground (arith, member-put j k v d, e.beq_iff i k, e.beq_iff k j, e.beq_iff i j)

    pub put-IsDistinct :
        (k : K) (v : V) (d : Dict K V) → IsDistinct (keys d) → IsDistinct (keys (put k v d))
    unfolding put member
    put-IsDistinct k v [] h = (refl, tt)
    put-IsDistinct k v ((j, w) ∷ d) h = elim (Bool-cases (e.beq j k)) [
      | inl same ↦ rw same h
      | inr other ↦
          rw other (member-put j k v d ∙ rw (beq_flip j k other) h.0, put-IsDistinct k v d h.1)
    ]

    pub put-All {κ} :
        (P : K × V → Type κ) (k : K) (v : V) (d : Dict K V)
        → ((j : K) → e.beq j k ≡ true → P (j, v))
        → All P d
        → All P (put k v d)
    unfolding put
    put-All P k v [] new all = (new k (beq_refl k), tt)
    put-All P k v ((j, w) ∷ d) new all = elim (Bool-cases (e.beq j k)) [
      | inl same ↦ rw same (new j same, all.1)
      | inr other ↦ rw other (all.0, put-All P k v d new all.1)
    ]
