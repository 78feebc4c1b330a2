-- ===== src/Security/RateLimit/Laws.antt =====
-- How many requests the buckets of rate_limit.py admit, and when a refused one succeeds.
use native.Mathlib.Nat.{zero-add, le_of_eq, le_trans, div-add-mod, mod-lt}
use pitch_bot.Prelude.{
  ℕ, ◌+◌, ◌-◌, ◌*◌, ◌/◌, ◌≤◌, ◌<◌, max, ◌≡◌, ◌↔◌, refl, ap, Bool, true, false, Option, none, some,
  String, List, [], ◌∷◌, get, get-put, beq_refl, string_eq, if◌then◌else◌, arith, inl, inr,
  Bool-cases,
}
use pitch_bot.Security.RateLimit.{
  Limits, limits_ok, RateLimitDecision, Bucket, Buckets, full, check_bucket, check,
  retry_after_header,
}

-- a request of a credential at a time
abbrev pub Request : Type 0
Request = String × ℕ

abbrev pub one_if : Bool → ℕ
one_if true = 1
one_if false = 0

-- how many requests of `key` are admitted while all are checked in order
unfoldable pub admitted : Limits → String → List Request → Buckets → ℕ
admitted l key [] buckets = 0
admitted l key ((k, now) ∷ rs) buckets =
    let (d, after) = check l k now buckets in
    one_if (if string_eq.beq k key then d.allowed else false) + admitted l key rs after

-- the clock does not run backwards, from a first time to a last
abbrev pub Ordered : ℕ → ℕ → List Request → Type 0
Ordered from until [] = from ≤ until
Ordered from until ((k, now) ∷ rs) = (from ≤ now) × Ordered now until rs

last_after : (from until : ℕ) (rs : List Request) → Ordered from until rs → from ≤ until
last_after from until [] h = h
last_after from until ((k, now) ∷ rs) h = omega (arith, last_after now until rs h.1)

split_time : (r a b c : ℕ) → a ≤ b → b ≤ c → (b - a) * r + (c - b) * r ≡ (c - a) * r
split_time r a b c h k = grind arith

header_bounds :
    (second deficit : ℕ)
    → 0 < second
    → (1 ≤ max 1 ((1000 * deficit + 999 * second) / (1000 * second)))
      × (1000 * deficit
          < (1000 * max 1 ((1000 * deficit + 999 * second) / (1000 * second)) + 1) * second)
header_bounds second deficit h =
    let n : ℕ = 1000 * deficit + 999 * second in
    let q : ℕ = n / (1000 * second) in
    let small : 1000 * deficit < (1000 * q + 1) * second = grind (
      arith,
      div-add-mod n (1000 * second),
      mod-lt n (let pos : 0 < 1000 * second = omega arith in pos),
    ) in
    (omega arith, grind arith)

module _ (l : Limits) (valid : limits_ok l ≡ true) where
  -- the parts that a bucket can pay out by a time; a key with no bucket starts with a full one
  abbrev budget : ℕ → ℕ → Option Bucket → ℕ
  budget from until none = full l + (until - from) * l.refill
  budget from until (some b) = b.tokens + (until - b.updated_at) * l.refill

  abbrev Started : ℕ → Option Bucket → Type 0
  Started from none = Unit
  Started from (some b) = b.updated_at ≤ from

  -- one request, paid from the budget
  check_pays :
      (from now until : ℕ) (o : Option Bucket)
      → Started from o
      → from ≤ now
      → now ≤ until
      → one_if (check_bucket l now o).0.allowed * l.unit
          + budget now until (some (check_bucket l now o).1)
        ≤ budget from until o
  unfolding check_bucket
  check_pays from now until none h p q = ground (arith, split_time l.refill from now until)
  check_pays from now until (some b) h p q =
      ground (arith, split_time l.refill b.updated_at now until (omega arith) q)

  -- a credential's budget does not grow by waiting for its next request
  budget_later :
      (from now until : ℕ) (o : Option Bucket)
      → from ≤ now
      → now ≤ until
      → budget now until o ≤ budget from until o
  budget_later from now until none p q = ground (arith, split_time l.refill from now until p q)
  budget_later from now until (some b) p q = omega arith

  Started-later : (from now : ℕ) (o : Option Bucket) → Started from o → from ≤ now → Started now o
  Started-later from now none h p = tt
  Started-later from now (some b) h p = omega arith

  updated_now : (now : ℕ) (o : Option Bucket) → (check_bucket l now o).1.updated_at ≡ now
  unfolding check_bucket
  updated_now now none = ground arith
  updated_now now (some b) = ground arith

  get-check :
      (k j : String) (now : ℕ) (buckets : Buckets)
      → get j (check l k now buckets).1
        ≡ (if string_eq.beq k j then some (check_bucket l now (get k buckets)).1 else get j buckets)
  unfolding check
  get-check k j now buckets = get-put k j (check_bucket l now (get k buckets)).1 buckets

  allowed-check :
      (k : String) (now : ℕ) (buckets : Buckets)
      → (check l k now buckets).0 ≡ (check_bucket l now (get k buckets)).0
  unfolding check
  allowed-check k now buckets = refl

  -- one request of the credential, and what is admitted after it
  paid_step :
      (a from now until : ℕ) (o o' : Option Bucket)
      → Started from o
      → from ≤ now
      → now ≤ until
      → o' ≡ some (check_bucket l now o).1
      → (Started now o' → a * l.unit ≤ budget now until o')
      → (one_if (check_bucket l now o).0.allowed + a) * l.unit ≤ budget from until o
  paid_step a from now until o o' h p q e ih =
      let rest : a * l.unit ≤ budget now until (some (check_bucket l now o).1) =
        rw e at ih (le_of_eq (updated_now now o)) in
      omega (arith, check_pays from now until o h p q)

  skipped_step :
      (a from now until : ℕ) (o o' : Option Bucket)
      → Started from o
      → from ≤ now
      → now ≤ until
      → o' ≡ o
      → (Started now o' → a * l.unit ≤ budget now until o')
      → a * l.unit ≤ budget from until o
  skipped_step a from now until o o' h p q e ih =
      let rest : a * l.unit ≤ budget now until o = rw e at ih (Started-later from now o h p) in
      le_trans rest (budget_later from now until o p q)

  admitted_le_budget :
      (key : String) (from until : ℕ) (rs : List Request) (buckets : Buckets)
      → Started from (get key buckets)
      → Ordered from until rs
      → admitted l key rs buckets * l.unit ≤ budget from until (get key buckets)
  unfolding admitted
  admitted_le_budget key from until [] buckets h o = omega arith
  admitted_le_budget key from until ((k, now) ∷ rs) buckets h o =
      let ih = λ (s : Started now (get key (check l k now buckets).1)).
        admitted_le_budget key now until rs (check l k now buckets).1 s o.1 in
      let until_ok : now ≤ until = last_after now until rs o.1 in
      elim (Bool-cases (string_eq.beq k key)) [
        | inl e ↦
            let p : k ≡ key = (string_eq.beq_iff k key).0 e in
            rw (e, allowed-check k now buckets, ap (λ j. get j buckets) p)
              (paid_step _ from now until (get key buckets) (get key (check l k now buckets).1) h
                o.0 until_ok (rw (get-check k key now buckets, e, ap (λ j. get j buckets) p)) ih)
        | inr e ↦
            rw (e, zero-add)
              (skipped_step _ from now until (get key buckets) (get key (check l k now buckets).1) h
                o.0 until_ok (rw (get-check k key now buckets, e)) ih)
      ]

  full_unit : l.unit ≤ full l
  full_unit = grind arith

  bucket_retry :
      (now later : ℕ) (o : Option Bucket)
      → now ≤ later
      → (check_bucket l now o).0.allowed ≡ false
      → ((check_bucket l later (some (check_bucket l now o).1)).0.allowed ≡ true)
        ↔ ((check_bucket l now o).0.deficit ≤ (later - now) * l.refill)
  unfolding check_bucket
  bucket_retry now later none h d = ground (arith, full_unit)
  bucket_retry now later (some b) h d = ground (arith, full_unit)

  -- A refused credential is admitted again exactly when the clock has refilled the deficit that the
  -- refusal reported, if no other request of it comes in between.
  pub retry_after_exact :
      (key : String) (now later : ℕ) (buckets : Buckets)
      → now ≤ later
      → (check l key now buckets).0.allowed ≡ false
      → ((check l key later (check l key now buckets).1).0.allowed ≡ true)
        ↔ ((check l key now buckets).0.deficit ≤ (later - now) * l.refill)
  retry_after_exact key now later buckets h d =
      rw (allowed-check, allowed-check, get-check, beq_refl ⦃e = string_eq⦄ key)
        (bucket_retry now later (get key buckets) h (rw allowed-check at d))

  second_pos : 0 < l.refill * l.ticks_per_second
  second_pos =
      let r : 1 ≤ l.refill = ground arith in
      let t : 1 ≤ l.ticks_per_second = ground arith in grind arith

  -- The requests of one credential that are admitted from its first one to a last time are paid by
  -- a full bucket and what the clock refilled since, however the requests of others lie in between.
  pub admitted_bound :
      (key : String) (from until : ℕ) (rs : List Request) (buckets : Buckets)
      → get key buckets ≡ none
      → Ordered from until rs
      → admitted l key rs buckets * l.unit ≤ l.capacity * l.unit + (until - from) * l.refill
  admitted_bound key from until rs buckets n o =
      rw n at (admitted_le_budget key from until rs buckets (rw n tt) o)

  -- `Retry-After` is at least one second, and less than a millisecond short of the exact wait.
  pub retry_after_header_bounds :
      (d : RateLimitDecision)
      → (1 ≤ retry_after_header l d)
        × (1000 * d.deficit < (1000 * retry_after_header l d + 1) * (l.refill * l.ticks_per_second))
  unfolding retry_after_header
  retry_after_header_bounds d = header_bounds (l.refill * l.ticks_per_second) d.deficit second_pos
