-- ===== src/Actions/Callbacks/Removal.antt =====
-- What the end of a session forgets, and what it keeps.
use Prim.Native.String.{String}
use pitch_bot.Prelude.{
  ℕ, none, ◌≡◌, ◌↔◌, arith, string_eq, pair_eq, nat_eq, get, get-put_same, get-remove_same,
}
use pitch_bot.Actions.Callbacks.{
  CallbackConfig, CallbackService, Outcome, next_cleanup_key, record_failed_cancellation,
}
use pitch_bot.Actions.Callbacks.Cancel.{mark_pending, cancel_rejected}
use pitch_bot.Actions.Callbacks.Teardown.{
  forget_callback, settle_removal, remove_scheduled, settle_ephemeral, remove_dispatched,
  remove_by_status, remove_record, settle_pending_removal, cancellation_key_for,
  remove_pending_schedule,
}

-- Removing a callback's record returns exactly when there is no record of it afterwards: what a
-- scheduler refuses to cancel is not forgotten.
pub removed_iff_returns :
    (cfg : CallbackConfig) (id : String) (outcome : Outcome) (now : ℕ) (s : CallbackService)
    → ((remove_record cfg id outcome now s).0 ≡ none)
      ↔ (get id (remove_record cfg id outcome now s).1.records ≡ none)
unfolding remove_record remove_by_status remove_scheduled remove_dispatched settle_removal
    settle_ephemeral forget_callback mark_pending cancel_rejected record_failed_cancellation
    next_cleanup_key
removed_iff_returns cfg id outcome now s = grind (arith, get-put_same, get-remove_same)

-- Removing a pending schedule returns exactly when it is not pending afterwards.
pub pending_removed_iff_returns :
    (cfg : CallbackConfig) (key : String) (outcome : Outcome) (s : CallbackService)
    → ((remove_pending_schedule cfg key outcome s).0 ≡ none)
      ↔ (get key (remove_pending_schedule cfg key outcome s).1.pending_schedules ≡ none)
unfolding remove_pending_schedule settle_pending_removal cancellation_key_for
    record_failed_cancellation next_cleanup_key
pending_removed_iff_returns cfg key outcome s = grind (arith, get-put_same, get-remove_same)
