-- ===== src/Storage/Suppression/Laws.antt =====
-- What the newest record decides.
use Prim.Native.String.{String}
use pitch_bot.Prelude.{
  ℕ, ◌≡◌, ◌≢◌, refl, arith, Bool, false, ◌||◌, ◌&&◌, none, some, List, [], ◌∷◌, ◌++◌, ◌==◌,
  string_eq, if◌then◌else◌,
}
use pitch_bot.Storage.Models.{SuppressionRecord, Database, empty_database}
use pitch_bot.Storage.Suppression.{
  is_empty_text, suppress, concerns, latest_state, is_true, is_suppressed,
}

pub latest_state-append :
    (lead : ℕ) (channel : String) (rs : List SuppressionRecord) (r : SuppressionRecord)
    → latest_state lead channel (rs ++ r ∷ [])
      ≡ (if concerns lead channel r then some r.suppressed else latest_state lead channel rs)
unfolding latest_state
latest_state-append lead channel [] r = refl
latest_state-append lead channel (x ∷ rs) r = ground (arith, latest_state-append lead channel rs r)

-- What the repository promises: for each lead and channel, whether it is suppressed.
abbrev pub Ledger : Type 0
Ledger = ℕ → String → Bool

abbrev pub nothing : Ledger
nothing lead channel = false

abbrev pub set_state : ℕ → String → Bool → Ledger → Ledger
set_state lead channel suppressed l other asked =
    if (lead == other) && string_eq.beq channel asked then suppressed else l other asked

-- A call of `record`.
pub record Call : Type 0 where
  pub suppression_id : ℕ
  pub lead_id : ℕ
  pub channel : String
  pub suppressed : Bool
  pub reason : String
  pub at : ℕ

module _ (fold strip : String → String) where
  unfoldable pub run : List Call → Database → Database
  run [] db = db
  run (c ∷ cs) db =
      run cs
        (elim (suppress fold strip c.suppression_id c.lead_id c.channel c.suppressed c.reason c.at
          db) [ none ↦ db | some (id, db') ↦ db' ])

  -- the same calls on the ledger, where one without a channel or a reason is no call
  unfoldable pub replay : List Call → Ledger → Ledger
  replay [] l = l
  replay (c ∷ cs) l = replay cs (
      if is_empty_text (fold c.channel) || is_empty_text (strip c.reason)
      then l
      else set_state c.lead_id (fold c.channel) c.suppressed l)

  abbrev view : Database → Ledger
  view db lead channel = is_true (latest_state lead channel db.suppressions)

  call_refines :
      (c : Call) (db : Database) (l : Ledger)
      → ((lead : ℕ) (channel : String) → view db lead channel ≡ l lead channel)
      → (lead : ℕ) (channel : String)
      → view
          (elim (suppress fold strip c.suppression_id c.lead_id c.channel c.suppressed c.reason c.at
            db) [ none ↦ db | some (id, db') ↦ db' ])
          lead
          channel
        ≡ (if is_empty_text (fold c.channel) || is_empty_text (strip c.reason)
              then l
              else set_state c.lead_id (fold c.channel) c.suppressed l)
            lead channel
  unfolding suppress
  call_refines c db l h lead channel = ground (
    arith,
    h lead channel,
    latest_state-append lead channel db.suppressions (record {
      suppression_id = c.suppression_id;
      lead_id = c.lead_id;
      channel = fold c.channel;
      suppressed = c.suppressed;
      reason = strip c.reason;
      occurred_at = c.at;
    }),
  )

  run_views :
      (cs : List Call) (db : Database) (l : Ledger)
      → ((lead : ℕ) (channel : String) → view db lead channel ≡ l lead channel)
      → (lead : ℕ) (channel : String) → view (run cs db) lead channel ≡ replay cs l lead channel
  unfolding run replay
  run_views [] db l h lead channel = h lead channel
  run_views (c ∷ cs) db l h lead channel = run_views cs _ _ (call_refines c db l h) lead channel

  -- After any calls, a channel of a lead is reported as suppressed exactly when the last call that
  -- was made for it, or the last one that was made for all channels, suppresses it; calls without a
  -- channel or a reason count for nothing.
  pub run_refines :
      (cs : List Call) (lead : ℕ) (asked : String)
      → fold asked ≢ ""
      → is_suppressed fold lead asked (run cs empty_database)
        ≡ some (replay cs nothing lead "all" || replay cs nothing lead (fold asked))
  unfolding is_suppressed latest_state
  run_refines cs lead asked named = ground (
    arith,
    string_eq.beq_iff (fold asked) "",
    run_views cs empty_database nothing (λ i c. refl) lead "all",
    run_views cs empty_database nothing (λ i c. refl) lead (fold asked),
  )
