-- ===== src/Storage/Repository/Order.antt =====
-- The rows of one aggregate: their versions ascend, and what inserting, changing and deleting rows
-- does to that.
use pitch_bot.Prelude.{
  ℕ, ◌≤◌, ◌<◌, ◌≡◌, refl, arith, false, List, [], ◌∷◌, ◌++◌, any, ◌==◌, nat_eq, Bool-cases, inl,
  inr,
}
use pitch_bot.Storage.Models.{EventRecord}
use pitch_bot.Storage.Repository.{
  AuditEvent, duplicates, of_aggregate, insert_by_version, by_version,
}

-- The versions lie above `lo`, ascend, and end at `hi` at the latest.
abbrev pub Ascends : ℕ → List EventRecord → ℕ → Type 0
Ascends lo [] hi = lo ≤ hi
Ascends lo (r ∷ rs) hi = (lo < r.aggregate_version) × Ascends r.aggregate_version rs hi

pub of_aggregate-append :
    (id : ℕ) (xs ys : List EventRecord)
    → of_aggregate id (xs ++ ys) ≡ of_aggregate id xs ++ of_aggregate id ys
unfolding of_aggregate
of_aggregate-append id [] ys = refl
of_aggregate-append id (x ∷ xs) ys = ground (arith, of_aggregate-append id xs ys)

pub Ascends-below :
    (lo lo' : ℕ) (rs : List EventRecord) (hi : ℕ) → lo' ≤ lo → Ascends lo rs hi → Ascends lo' rs hi
Ascends-below lo lo' [] hi h a = omega arith
Ascends-below lo lo' (r ∷ rs) hi h a = (omega arith, a.1)

pub Ascends-append :
    (lo : ℕ) (rs : List EventRecord) (hi : ℕ) (r : EventRecord)
    → hi < r.aggregate_version
    → Ascends lo rs hi
    → Ascends lo (rs ++ r ∷ []) r.aggregate_version
Ascends-append lo [] hi r h a = omega arith
Ascends-append lo (x ∷ rs) hi r h a = (a.0, Ascends-append x.aggregate_version rs hi r h a.1)

-- what stands after a row that comes first is not read again
insert_by_version-first :
    (lo : ℕ) (r : EventRecord) (rs : List EventRecord) (hi : ℕ)
    → Ascends r.aggregate_version rs hi
    → insert_by_version r rs ≡ r ∷ rs
unfolding insert_by_version
insert_by_version-first lo r [] hi a = refl
insert_by_version-first lo r (s ∷ rs) hi a = ground arith

pub by_version-Ascends :
    (lo : ℕ) (rs : List EventRecord) (hi : ℕ) → Ascends lo rs hi → by_version rs ≡ rs
unfolding by_version
by_version-Ascends lo [] hi a = refl
by_version-Ascends lo (r ∷ rs) hi a =
    rw (by_version-Ascends r.aggregate_version rs hi a.1) (insert_by_version-first lo r rs hi a.1)

pub Ascends-le : (lo : ℕ) (rs : List EventRecord) (hi : ℕ) → Ascends lo rs hi → lo ≤ hi
Ascends-le lo [] hi a = a
Ascends-le lo (r ∷ rs) hi a = omega (arith, Ascends-le r.aggregate_version rs hi a.1)

-- no row of the aggregate has a version above the last one
pub duplicates-Ascends :
    (e : AuditEvent) (lo hi : ℕ) (rs : List EventRecord)
    → Ascends lo (of_aggregate e.aggregate_id rs) hi
    → hi < e.aggregate_version
    → any (λ r. r.event_id == e.event_id) rs ≡ false
    → duplicates e rs ≡ false
unfolding duplicates of_aggregate
duplicates-Ascends e lo hi [] a h fresh = refl
duplicates-Ascends e lo hi (r ∷ rs) a h fresh =
    let later : any (λ x. x.event_id == e.event_id) rs ≡ false = ground arith in
    elim (Bool-cases (r.aggregate_id == e.aggregate_id)) [
      | inl same ↦
          let a' : Ascends lo (r ∷ of_aggregate e.aggregate_id rs) hi = rw (same) at a in
          ground (
            arith,
            duplicates-Ascends e r.aggregate_version hi rs a'.1 h later,
            Ascends-le r.aggregate_version (of_aggregate e.aggregate_id rs) hi a'.1,
          )
      | inr other ↦
          let a' : Ascends lo (of_aggregate e.aggregate_id rs) hi = rw (other) at a in
          ground (arith, duplicates-Ascends e lo hi rs a' h later)
    ]
