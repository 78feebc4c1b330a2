-- ===== src/Storage/Privacy/Rows.antt =====
-- What the statements of the privacy operations do to the rows of one aggregate.
use pitch_bot.Prelude.{
  ℕ, ◌+◌, ◌<◌, ◌≡◌, ◌≢◌, ◌⊎◌, refl, arith, Bool, true, false, List, [], ◌∷◌, ◌==◌, length, nat_eq,
  Bool-cases, inl, inr,
}
use pitch_bot.Storage.Models.{EventRecord}
use pitch_bot.Storage.Repository.{of_aggregate}
use pitch_bot.Storage.Repository.Order.{Ascends, Ascends-below}
use pitch_bot.Storage.Privacy.{
  in_aggregate, to_anonymize, anonymize_rows, count_where, delete_where,
}

of_aggregate-head :
    (id lo : ℕ) (r : EventRecord) (rs : List EventRecord) (hi : ℕ)
    → Ascends lo (of_aggregate id (r ∷ rs)) hi
    → ((r.aggregate_id ≡ id)
        × ((lo < r.aggregate_version) × Ascends r.aggregate_version (of_aggregate id rs) hi))
      ⊎ ((r.aggregate_id ≢ id) × Ascends lo (of_aggregate id rs) hi)
unfolding of_aggregate
of_aggregate-head id lo r rs hi a = elim (Bool-cases (r.aggregate_id == id)) [
  | inl same ↦
      let a' : Ascends lo (r ∷ of_aggregate id rs) hi = rw (same) at a in inl (ground arith, a')
  | inr other ↦
      let a' : Ascends lo (of_aggregate id rs) hi = rw (other) at a in inr (ground arith, a')
]

pub Ascends-cons :
    (id lo : ℕ) (r : EventRecord) (rs : List EventRecord) (hi : ℕ)
    → r.aggregate_id ≡ id
    → lo < r.aggregate_version
    → Ascends r.aggregate_version (of_aggregate id rs) hi
    → Ascends lo (of_aggregate id (r ∷ rs)) hi
unfolding of_aggregate
Ascends-cons id lo r rs hi q h a =
    let same : (r.aggregate_id == id) ≡ true = ground arith in rw (same) (h, a)

pub Ascends-skip :
    (id lo : ℕ) (r : EventRecord) (rs : List EventRecord) (hi : ℕ)
    → r.aggregate_id ≢ id
    → Ascends lo (of_aggregate id rs) hi
    → Ascends lo (of_aggregate id (r ∷ rs)) hi
unfolding of_aggregate
Ascends-skip id lo r rs hi q a =
    let other : (r.aggregate_id == id) ≡ false = ground arith in rw (other) a

pub Ascends-delete_where :
    (test : EventRecord → Bool) (id lo : ℕ) (rs : List EventRecord) (hi : ℕ)
    → Ascends lo (of_aggregate id rs) hi
    → Ascends lo (of_aggregate id (delete_where test rs)) hi
unfolding delete_where
Ascends-delete_where test id lo [] hi a = a
Ascends-delete_where test id lo (r ∷ rs) hi a = elim (of_aggregate-head id lo r rs hi a) [
  | inl (q, (h, rest)) ↦
      let kept = Ascends-delete_where test id r.aggregate_version rs hi rest in
      elim (Bool-cases (test r)) [
        | inl gone ↦ rw (gone) (Ascends-below r.aggregate_version lo _ hi (omega arith) kept)
        | inr stays ↦ rw (stays) (Ascends-cons id lo r (delete_where test rs) hi q h kept)
      ]
  | inr (q, rest) ↦
      let kept = Ascends-delete_where test id lo rs hi rest in
      elim (Bool-cases (test r)) [
        | inl gone ↦ rw (gone) kept
        | inr stays ↦ rw (stays) (Ascends-skip id lo r (delete_where test rs) hi q kept)
      ]
]

pub Ascends-anonymize_rows :
    (j now id lo : ℕ) (rs : List EventRecord) (hi : ℕ)
    → Ascends lo (of_aggregate id rs) hi
    → Ascends lo (of_aggregate id (anonymize_rows j now rs)) hi
unfolding anonymize_rows
Ascends-anonymize_rows j now id lo [] hi a = a
Ascends-anonymize_rows j now id lo (r ∷ rs) hi a = elim (of_aggregate-head id lo r rs hi a) [
  | inl (q, (h, rest)) ↦
      let kept = Ascends-anonymize_rows j now id r.aggregate_version rs hi rest in
      elim (Bool-cases (to_anonymize j r)) [
        | inl hit ↦ rw (hit) (Ascends-cons id lo _ (anonymize_rows j now rs) hi q h kept)
        | inr miss ↦ rw (miss) (Ascends-cons id lo r (anonymize_rows j now rs) hi q h kept)
      ]
  | inr (q, rest) ↦
      let kept = Ascends-anonymize_rows j now id lo rs hi rest in
      elim (Bool-cases (to_anonymize j r)) [
        | inl hit ↦ rw (hit) (Ascends-skip id lo _ (anonymize_rows j now rs) hi q kept)
        | inr miss ↦ rw (miss) (Ascends-skip id lo r (anonymize_rows j now rs) hi q kept)
      ]
]

pub delete_where-own :
    (id : ℕ) (rs : List EventRecord) → of_aggregate id (delete_where (in_aggregate id) rs) ≡ []
unfolding delete_where of_aggregate
delete_where-own id [] = refl
delete_where-own id (r ∷ rs) = ground (arith, delete_where-own id rs)

pub delete_where-empty :
    (test : EventRecord → Bool) (id : ℕ) (rs : List EventRecord)
    → of_aggregate id rs ≡ []
    → of_aggregate id (delete_where test rs) ≡ []
unfolding delete_where of_aggregate
delete_where-empty test id [] h = refl
delete_where-empty test id (r ∷ rs) h = ground (arith, delete_where-empty test id rs)

pub anonymize_rows-empty :
    (j now id : ℕ) (rs : List EventRecord)
    → of_aggregate id rs ≡ []
    → of_aggregate id (anonymize_rows j now rs) ≡ []
unfolding anonymize_rows of_aggregate
anonymize_rows-empty j now id [] h = refl
anonymize_rows-empty j now id (r ∷ rs) h = ground (arith, anonymize_rows-empty j now id rs)

pub length-delete_where :
    (test : EventRecord → Bool) (rs : List EventRecord)
    → length (delete_where test rs) + count_where test rs ≡ length rs
unfolding delete_where count_where
length-delete_where test [] = refl
length-delete_where test (r ∷ rs) = ground (arith, length-delete_where test rs)
