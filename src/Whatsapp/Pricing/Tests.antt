-- ===== src/Whatsapp/Pricing/Tests.antt =====
-- Messages at given hours, for pricing.py.
use pitch_bot.Prelude.{◌<◌, ◌≡◌, ◌↔◌, ◌⊎◌, refl, true, false, none, some}
use pitch_bot.Whatsapp.Pricing.{
  utility, marketing, free_only, allow_paid, decide, window_closes_at, free_entry_point_closes_at,
}
use pitch_bot.Whatsapp.Pricing.Laws.{
  IsFree, charged_iff_no_rule, free_only_exact, free_until_closes,
}

marketing_charged : (decide allow_paid (some 0) 1000 (some marketing) none).would_be_charged ≡ true
unfolding decide
marketing_charged = refl

charged_iff_no_rule_example :
    ((decide allow_paid (some 0) 1000 (some marketing) none).would_be_charged ≡ false)
    ↔ IsFree (some 0) 1000 (some marketing) none
charged_iff_no_rule_example = charged_iff_no_rule (some 0) 1000 (some marketing) none allow_paid

free_only_exact_example :
    ((decide free_only (some 0) 1000 (some utility) none).allowed ≡ true)
    ↔ IsFree (some 0) 1000 (some utility) none
free_only_exact_example = free_only_exact (some 0) 1000 (some utility) none

free_until_closes_example :
    ((decide free_only (some 0) 5000 none (some 10)).allowed ≡ true)
    ↔ ((5000 < window_closes_at 0) ⊎ (5000 < free_entry_point_closes_at 10))
free_until_closes_example = free_until_closes 0 10 5000
