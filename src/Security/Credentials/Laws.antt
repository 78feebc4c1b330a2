-- ===== src/Security/Credentials/Laws.antt =====
-- What credentials.py accepts, and whom it identifies.
use pitch_bot.Prelude.{
  ℕ, ◌≤◌, ◌≡◌, ◌↔◌, refl, ap, ◌⊎◌, inl, inr, Bool, true, false, Option, none, some, List, [], ◌∷◌,
  ◌++◌, All, length, is_empty, if◌then◌else◌, sym, ◌∙◌, Text, text_eq, split, partition, strip,
  Bool-cases, arith,
}
use pitch_bot.Security.Credentials.{
  Result, ok, err, Entry, seen, Parsed, nothing_parsed, add_entry, parse_item, parse_items,
  parse_api_keys, match_entries, identify, min_secret_length,
}

abbrev pub names : List Entry → List Text
names [] = []
names ((n, s) ∷ es) = n ∷ names es

abbrev pub secrets : List Entry → List Text
secrets [] = []
secrets ((n, s) ∷ es) = s ∷ secrets es

abbrev pub Distinct : List Text → Type 0
Distinct [] = Unit
Distinct (t ∷ ts) = (seen t ts ≡ false) × Distinct ts

-- an entry that a name and a long enough secret stand in
abbrev pub EntryOk : Entry → Type 0
EntryOk (n, s) = (is_empty n ≡ false) × (min_secret_length ≤ length s)

pub record EntriesOk (es : List Entry) : Type 0 where
  pub distinct_names : Distinct (names es)
  pub distinct_secrets : Distinct (secrets es)
  pub each : All EntryOk es

seen-append : (t x : Text) (ts : List Text) → seen t (ts ++ x ∷ []) ≡ seen t (x ∷ ts)
seen-append t x [] = refl
seen-append t x (y ∷ ts) = ground (arith, seen-append t x ts)

seen_sym : (t x : Text) → text_eq.beq t x ≡ text_eq.beq x t
seen_sym t x = ground (arith, text_eq.beq_iff t x, text_eq.beq_iff x t)

Distinct-append :
    (ts : List Text) (x : Text) → Distinct ts → seen x ts ≡ false → Distinct (ts ++ x ∷ [])
Distinct-append [] x d h = (refl, tt)
Distinct-append (t ∷ ts) x d h =
    (ground (arith, seen-append t x ts, seen_sym t x), Distinct-append ts x d.1 (ground arith))

names-append : (es : List Entry) (n s : Text) → names (es ++ (n, s) ∷ []) ≡ names es ++ n ∷ []
names-append [] n s = refl
names-append ((m, t) ∷ es) n s = ap (λ l. m ∷ l) (names-append es n s)

secrets-append : (es : List Entry) (n s : Text) → secrets (es ++ (n, s) ∷ []) ≡ secrets es ++ s ∷ []
secrets-append [] n s = refl
secrets-append ((m, t) ∷ es) n s = ap (λ l. t ∷ l) (secrets-append es n s)

each-append :
    (es : List Entry) (n s : Text)
    → All EntryOk es
    → EntryOk (n, s)
    → All EntryOk (es ++ (n, s) ∷ [])
each-append [] n s a e = (e, tt)
each-append (x ∷ es) n s a e = (a.0, each-append es n s a.1 e)

-- the sets of the loop hold what the entries hold
record Inv (p : Parsed) : Type 0 where
  fine : EntriesOk p.entries
  same_names : (t : Text) → seen t p.seen_names ≡ seen t (names p.entries)
  same_secrets : (t : Text) → seen t p.seen_secrets ≡ seen t (secrets p.entries)

abbrev Keeps : Result Parsed → Type 0
Keeps (ok p) = Inv p
Keeps (err e) = Unit

accepted-Inv :
    (name secret : Text) (p : Parsed)
    → Inv p
    → is_empty name ≡ false
    → min_secret_length ≤ length secret
    → seen name p.seen_names ≡ false
    → seen secret p.seen_secrets ≡ false
    → Inv (record {
      entries = p.entries ++ (name, secret) ∷ [];
      seen_names = name ∷ p.seen_names;
      seen_secrets = secret ∷ p.seen_secrets;
    })
accepted-Inv name secret p h e l a b = record {
  fine = record {
    distinct_names =
        rw names-append
          (Distinct-append (names p.entries) name h.fine.distinct_names (rw h.same_names at a));
    distinct_secrets = rw secrets-append (
        Distinct-append (secrets p.entries) secret h.fine.distinct_secrets
          (rw h.same_secrets at b));
    each = each-append p.entries name secret h.fine.each (e, l);
  };
  same_names = λ t. rw (names-append, seen-append, h.same_names t);
  same_secrets = λ t. rw (secrets-append, seen-append, h.same_secrets t);
}

add_entry-Keeps :
    (name : Text) (separator : Bool) (secret : Text) (p : Parsed)
    → Inv p
    → Keeps (add_entry name separator secret p)
unfolding add_entry
add_entry-Keeps name separator secret p h = ground (arith, accepted-Inv name secret p h)

module _ (is_space : ℕ → Bool) where
  parse_item-Keeps : (item : Text) (p : Parsed) → Inv p → Keeps (parse_item is_space item p)
  unfolding parse_item
  parse_item-Keeps item p h =
      let (name, separator, secret) = partition b':' (strip is_space item) in
      ground (arith, add_entry-Keeps (strip is_space name) separator (strip is_space secret) p h)

  parse_items-Keeps :
      (items : List Text) (p : Parsed) → Inv p → Keeps (parse_items is_space items p)
  unfolding parse_items
  parse_items-Keeps [] p h = h
  parse_items-Keeps (item ∷ items) p h =
      go (parse_item is_space item p) (parse_item-Keeps item p h)
        (λ q k. parse_items-Keeps items q k)
    where
      go :
          (r : Result Parsed)
          → Keeps r
          → ((q : Parsed) → Inv q → Keeps (parse_items is_space items q))
          → Keeps (elim r [ ok q ↦ parse_items is_space items q | err e ↦ err e ])
      go (ok q) k next = next q k
      go (err e) k next = tt

  nothing-Inv : Inv nothing_parsed
  nothing-Inv = record {
    fine = record { distinct_names = tt; distinct_secrets = tt; each = tt };
    same_names = λ t. refl;
    same_secrets = λ t. refl;
  }

  -- The keys of an accepted configuration have names and secrets that are all distinct, no name is
  -- empty, and no secret is shorter than the minimum.
  pub parse_api_keys-EntriesOk :
      (value : Text) (es : List Entry) → parse_api_keys is_space value ≡ ok es → EntriesOk es
  unfolding parse_api_keys
  parse_api_keys-EntriesOk value es h =
      go (parse_items is_space (split b',' value) nothing_parsed)
        (parse_items-Keeps (split b',' value) nothing_parsed nothing-Inv) h
    where
      go :
          (r : Result Parsed)
          → Keeps r
          → elim r [ ok p ↦ ok p.entries | err e ↦ err e ] ≡ ok es
          → EntriesOk es
      go (ok p) k e = let same : p.entries ≡ es = cc in rw same at k.fine
      go (err x) k e = cc

-- the name stands beside the secret in an entry
abbrev pub Owns : Text → Text → List Entry → Type 0
Owns n s [] = ⊥
Owns n s ((m, t) ∷ es) = ((n ≡ m) × (s ≡ t)) ⊎ Owns n s es

match_unseen :
    (s : Text) (m : Option Text) (es : List Entry)
    → seen s (secrets es) ≡ false
    → match_entries s m es ≡ m
unfolding match_entries
match_unseen s m [] h = refl
match_unseen s m ((n, t) ∷ es) h =
    ground (arith, match_unseen s (if text_eq.beq s t then some n else m) es)

seen-Owns : (n s : Text) (es : List Entry) → Owns n s es → seen s (secrets es) ≡ true
seen-Owns n s [] o = elim o [ ]
seen-Owns n s ((m, t) ∷ es) (inl (a, b)) = ground (arith, text_eq.beq_iff s t)
seen-Owns n s ((m, t) ∷ es) (inr o) = ground (arith, seen-Owns n s es o)

match_hit :
    (n s t : Text) (m : Option Text) (es : List Entry)
    → seen t (secrets es) ≡ false
    → s ≡ t
    → match_entries s m ((n, t) ∷ es) ≡ some n
unfolding match_entries
match_hit n s t m es d e = rw ((text_eq.beq_iff s t).1 e) (match_unseen s (some n) es (rw e d))

match_miss :
    (n s t : Text) (m : Option Text) (es : List Entry)
    → text_eq.beq s t ≡ false
    → match_entries s m ((n, t) ∷ es) ≡ match_entries s m es
unfolding match_entries
match_miss n s t m es e = rw e

match-Owns :
    (n s : Text) (es : List Entry)
    → Distinct (secrets es)
    → match_entries s none es ≡ some n
    → Owns n s es
match-Owns n s [] d h = cc (h, match_unseen s none [] refl)
match-Owns n s ((m, t) ∷ es) d h = elim (Bool-cases (text_eq.beq s t)) [
  | inl e ↦
      let p : s ≡ t = (text_eq.beq_iff s t).0 e in inl (cc (match_hit m s t none es d.0 p, h), p)
  | inr e ↦ inr (match-Owns n s es d.1 (sym (match_miss m s t none es e) ∙ h))
]

Owns-match :
    (n s : Text) (es : List Entry)
    → Distinct (secrets es)
    → Owns n s es
    → match_entries s none es ≡ some n
Owns-match n s [] d o = elim o [ ]
Owns-match n s ((m, t) ∷ es) d (inl (a, b)) = match_hit m s t none es d.0 b ∙ ap some (sym a)
Owns-match n s ((m, t) ∷ es) d (inr o) =
    match_miss m s t none es (ground (arith, text_eq.beq_iff s t, seen-Owns n s es o, d.0, other))
    ∙ Owns-match n s es d.1 o
  where
    other : s ≡ t → seen t (secrets es) ≡ true
    other p = rw (← p) (seen-Owns n s es o)

-- With the keys of an accepted configuration, a presented secret identifies a name exactly when the
-- two stand in one entry.
identify_exact :
    (is_space : ℕ → Bool) (value : Text) (es : List Entry) (n s : Text)
    → parse_api_keys is_space value ≡ ok es
    → (identify es (some s) ≡ some n) ↔ Owns n s es
unfolding identify
identify_exact is_space value [] n s h = (λ e. cc, λ o. elim o [ ])
identify_exact is_space value (x ∷ es) n s h =
    let d = (parse_api_keys-EntriesOk is_space value (x ∷ es) h).distinct_secrets in
    (match-Owns n s (x ∷ es) d, Owns-match n s (x ∷ es) d)
