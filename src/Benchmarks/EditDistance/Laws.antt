-- ===== src/Benchmarks/EditDistance/Laws.antt =====
-- The table holds the least number of edits.
use pitch_bot.Prelude.{
  ℕ, suc, ◌+◌, ◌≤◌, ◌≡◌, ◌⊎◌, refl, sym, ap, ◌∙◌, arith, min, List, [], ◌∷◌, length, Eq, Bool-cases,
  inl, inr,
}
use pitch_bot.Benchmarks.EditDistance.{count_up, last, differ, fill_row, fill_rows, edit_distance}

-- A way to turn one sequence into another, item by item, and what it costs.
pub data Edits {ℓ} {A : Type ℓ} : List A → List A → ℕ → Type ℓ where
  done : Edits [] [] 0
  keep : {xs ys : List A} {n : ℕ} (x : A) → Edits xs ys n → Edits (x ∷ xs) (x ∷ ys) n
  replace : {xs ys : List A} {n : ℕ} (x y : A) → Edits xs ys n → Edits (x ∷ xs) (y ∷ ys) (suc n)
  delete : {xs ys : List A} {n : ℕ} (x : A) → Edits xs ys n → Edits (x ∷ xs) ys (suc n)
  insert : {xs ys : List A} {n : ℕ} (y : A) → Edits xs ys n → Edits xs (y ∷ ys) (suc n)

zero_add_lem : (m : ℕ) → 0 + m ≡ m
zero_add_lem m = omega arith

suc_add_lem : (n m : ℕ) → suc n + m ≡ n + suc m
suc_add_lem n m = omega arith

min-cases : (n m : ℕ) → (min n m ≡ n) ⊎ (min n m ≡ m)
min-cases n m = ground arith

module _ {ℓ} {A : Type ℓ} ⦃e : Eq A⦄ where
  -- The recursion of the textbook.
  unfoldable pub distance : List A → List A → ℕ
  distance [] ys = length ys
  distance (x ∷ xs) [] = suc (length xs)
  distance (x ∷ xs) (y ∷ ys) =
      min (min (distance (x ∷ xs) ys + 1) (distance xs (y ∷ ys) + 1)) (distance xs ys + differ x y)

  distance-delete : (x : A) (xs ys : List A) → distance (x ∷ xs) ys ≤ suc (distance xs ys)
  unfolding distance
  distance-delete x [] [] = omega arith
  distance-delete x (z ∷ xs) [] = omega arith
  distance-delete x xs (y ∷ ys) = omega arith

  distance-insert : (y : A) (xs ys : List A) → distance xs (y ∷ ys) ≤ suc (distance xs ys)
  unfolding distance
  distance-insert y [] ys = omega arith
  distance-insert y (x ∷ xs) ys = omega arith

  distance-keep : (x : A) (xs ys : List A) → distance (x ∷ xs) (x ∷ ys) ≤ distance xs ys
  unfolding distance
  distance-keep x xs ys = ground (arith, (e.beq_iff x x).1 refl)

  distance-replace : (x y : A) (xs ys : List A) → distance (x ∷ xs) (y ∷ ys) ≤ suc (distance xs ys)
  unfolding distance
  distance-replace x y xs ys = ground arith

  -- no way to edit costs less
  distance-le : {xs ys : List A} {n : ℕ} → Edits xs ys n → distance xs ys ≤ n
  unfolding distance
  distance-le done = omega arith
  distance-le (keep {xs} {ys} x d) = omega (arith, distance-keep x xs ys, distance-le d)
  distance-le (replace {xs} {ys} x y d) = omega (arith, distance-replace x y xs ys, distance-le d)
  distance-le (delete {xs} {ys} x d) = omega (arith, distance-delete x xs ys, distance-le d)
  distance-le (insert {xs} {ys} y d) = omega (arith, distance-insert y xs ys, distance-le d)

  inserts : (ys : List A) → Edits [] ys (length ys)
  inserts [] = done
  inserts (y ∷ ys) = insert y (inserts ys)

  deletes : (xs : List A) → Edits xs [] (length xs)
  deletes [] = done
  deletes (x ∷ xs) = delete x (deletes xs)

  Edits-min : (xs ys : List A) (n m : ℕ) → Edits xs ys n → Edits xs ys m → Edits xs ys (min n m)
  Edits-min xs ys n m a b = elim (min-cases n m) [ inl q ↦ rw q a | inr q ↦ rw q b ]

  Edits-suc : (xs ys : List A) (n : ℕ) → Edits xs ys (suc n) → Edits xs ys (n + 1)
  Edits-suc xs ys n a = let q : n + 1 ≡ suc n = omega arith in rw q a

  Edits-differ :
      (x y : A) (xs ys : List A) (n : ℕ) → Edits xs ys n → Edits (x ∷ xs) (y ∷ ys) (n + differ x y)
  Edits-differ x y xs ys n a = elim (Bool-cases (e.beq x y)) [
    | inl same ↦
        let q : y ≡ x = sym ((e.beq_iff x y).0 same) in
        let z : n + differ x y ≡ n = ground arith in rw (z, q) (keep x a)
    | inr other ↦ let z : n + differ x y ≡ suc n = ground arith in rw z (replace x y a)
  ]

  -- some way costs as much
  distance-Edits : (xs ys : List A) → Edits xs ys (distance xs ys)
  unfolding distance
  distance-Edits [] ys = inserts ys
  distance-Edits (x ∷ xs) [] = delete x (deletes xs)
  distance-Edits (x ∷ xs) (y ∷ ys) =
      Edits-min (x ∷ xs) (y ∷ ys) _ _
        (Edits-min (x ∷ xs) (y ∷ ys) _ _
          (Edits-suc (x ∷ xs) (y ∷ ys) _ (insert y (distance-Edits (x ∷ xs) ys)))
          (Edits-suc (x ∷ xs) (y ∷ ys) _ (delete x (distance-Edits xs (y ∷ ys)))))
        (Edits-differ x y xs ys _ (distance-Edits xs ys))

  -- The loops read the sequences from the left, so a row is about their reversed prefixes.
  unfoldable pub onto : List A → List A → List A
  onto [] acc = acc
  onto (x ∷ xs) acc = onto xs (x ∷ acc)

  onto-onto : (xs acc : List A) → onto (onto xs acc) [] ≡ onto acc xs
  unfolding onto
  onto-onto [] acc = refl
  onto-onto (x ∷ xs) acc = onto-onto xs (x ∷ acc)

  Edits-onto :
      {xs ys : List A} {n : ℕ} (us vs : List A) (m : ℕ)
      → Edits xs ys n
      → Edits us vs m
      → Edits (onto xs us) (onto ys vs) (n + m)
  unfolding onto
  Edits-onto us vs m done b = rw (zero_add_lem m) b
  Edits-onto us vs m (keep x a) b = Edits-onto (x ∷ us) (x ∷ vs) m a (keep x b)
  Edits-onto us vs m (replace {n} x y a) b =
      rw (suc_add_lem n m) (Edits-onto (x ∷ us) (y ∷ vs) (suc m) a (replace x y b))
  Edits-onto us vs m (delete {n} x a) b =
      rw (suc_add_lem n m) (Edits-onto (x ∷ us) vs (suc m) a (delete x b))
  Edits-onto us vs m (insert {n} y a) b =
      rw (suc_add_lem n m) (Edits-onto us (y ∷ vs) (suc m) a (insert y b))

  row_tail : List A → List A → List A → List ℕ
  row_tail rs acc [] = []
  row_tail rs acc (y ∷ ys) = distance rs (y ∷ acc) ∷ row_tail rs (y ∷ acc) ys

  -- the distances of one reversed prefix to each of the other sequence's
  abbrev row : List A → List A → List A → List ℕ
  row rs acc ys = distance rs acc ∷ row_tail rs acc ys

  count_up-row :
      (start : ℕ) (acc ys : List A) → start ≡ length acc → count_up start ys ≡ row [] acc ys
  unfolding count_up row_tail distance
  count_up-row start acc [] h = ap (λ n. n ∷ []) h
  count_up-row start acc (y ∷ ys) h =
      ground (arith, count_up-row (start + 1) (y ∷ acc) ys (omega (arith, h)))

  fill_row-row :
      (x : A) (rs acc ys : List A)
      → fill_row x ys (row rs acc ys) (distance (x ∷ rs) acc) ≡ row (x ∷ rs) acc ys
  unfolding fill_row row_tail distance
  fill_row-row x rs acc [] = refl
  fill_row-row x rs acc (y ∷ ys) =
      ap (λ l. distance (x ∷ rs) acc ∷ l) (fill_row-row x rs (y ∷ acc) ys)

  fill_rows-row :
      (index : ℕ) (rs xs ys : List A)
      → index ≡ suc (length rs)
      → fill_rows index xs ys (row rs [] ys) ≡ row (onto xs rs) [] ys
  unfolding fill_rows onto distance
  fill_rows-row index rs [] ys h = refl
  fill_rows-row index rs (x ∷ xs) ys h =
      let first : index ≡ distance (x ∷ rs) [] = h in
      ap (λ l. fill_rows (index + 1) xs ys l)
        (ap (fill_row x ys (row rs [] ys)) first ∙ fill_row-row x rs [] ys)
      ∙ fill_rows-row (index + 1) (x ∷ rs) xs ys (omega (arith, h))

  last-row : (rs acc ys : List A) → last (row rs acc ys) ≡ distance rs (onto ys acc)
  unfolding last row_tail onto
  last-row rs acc [] = refl
  last-row rs acc (y ∷ ys) = last-row rs (y ∷ acc) ys

  -- what the table computes
  edit_distance-distance :
      (xs ys : List A) → edit_distance xs ys ≡ distance (onto xs []) (onto ys [])
  unfolding edit_distance
  edit_distance-distance xs ys =
      rw (count_up-row 0 [] ys refl, fill_rows-row 1 [] xs ys refl) (last-row (onto xs []) [] ys)

  Edits-reversed : {xs ys : List A} {n : ℕ} → Edits xs ys n → Edits (onto xs []) (onto ys []) n
  Edits-reversed {n} a = let q : n + 0 ≡ n = omega arith in rw q at (Edits-onto [] [] 0 a done)

  -- The edit distance is the cost of some way to turn the reference into the hypothesis by keeping,
  -- replacing, deleting and inserting items, and no way costs less.
  pub edit_distance_least :
      (reference hypothesis : List A)
      → Edits reference hypothesis (edit_distance reference hypothesis)
        × ((n : ℕ) → Edits reference hypothesis n → edit_distance reference hypothesis ≤ n)
  unfolding onto
  edit_distance_least xs ys = (
    rw (edit_distance-distance xs ys) (
        rw (onto-onto xs [], onto-onto ys []) at
          (Edits-reversed (distance-Edits (onto xs []) (onto ys [])))),
    λ n a. rw (edit_distance-distance xs ys) (distance-le (Edits-reversed a)),
  )
