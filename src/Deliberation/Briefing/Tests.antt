-- ===== src/Deliberation/Briefing/Tests.antt =====
-- Two observations, and a plan that the second one makes stale.
use pitch_bot.Prelude.{List, [], ◌∷◌}
use pitch_bot.Deliberation.Briefing.{Deliberation, budget_stated, timeline, new_briefing}
use pitch_bot.Deliberation.Briefing.Laws.{
  Action, observe, conclude_with, act_all, BriefingOk, Forward, Exact, briefing_stays_current,
}

abbrev first_plan : Deliberation
first_plan = record {
  plan = record { competitors = []; differentiator = "fast"; pages = [] };
  derived_from_version = 1;
  model_id = "m";
}

abbrev actions : List Action
actions = observe budget_stated "5k" ∷ conclude_with first_plan ∷ []

abbrev later : List Action
later = observe timeline "May" ∷ []

briefing_stays_current_example :
    BriefingOk (act_all (λ t. t) (λ n t. t) actions new_briefing)
    × Forward
        (act_all (λ t. t) (λ n t. t) actions new_briefing)
        (act_all (λ t. t) (λ n t. t) later (act_all (λ t. t) (λ n t. t) actions new_briefing))
    × Exact (act_all (λ t. t) (λ n t. t) actions new_briefing) first_plan
briefing_stays_current_example = briefing_stays_current (λ t. t) (λ n t. t) actions later first_plan
