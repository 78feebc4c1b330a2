-- ===== src/Speech/Backchannel/Laws.antt =====
-- When the agent fills a silence, and that it does.
use pitch_bot.Prelude.{
  String, ℕ, ◌+◌, ◌≤◌, ◌<◌, ◌≡◌, refl, sym, ap, ◌∙◌, arith, true, false, ◌&&◌, Option, none, some,
  List, [], ◌∷◌, map, length, All, max, ltb, Bool-cases, inl, inr,
}
use pitch_bot.Conversation.Language.{LanguageCode, english, hindi, telugu, mixed, unknown}
use pitch_bot.Speech.Backchannel.{
  BackchannelPhrases, phrases_of, Backchannel, backchannel_ok, work_floor_ms, work_target_ms,
  begin_turn, rotate, say, due, Wait, Filler, say_answer, fill_targets, fill,
}

-- the settings, which no operation changes
abbrev SameSettings : Backchannel → Backchannel → Type 0
SameSettings b b' =
    (b'.first_after_ms ≡ b.first_after_ms)
    × (b'.second_after_ms ≡ b.second_after_ms)
    × (work_floor_ms b' ≡ work_floor_ms b)
    × (b'.max_per_turn ≡ b.max_per_turn)

-- what `due` does: nothing, or a phrase that is allowed and not early
abbrev DueOk : ℕ → Backchannel → Option String × Backchannel → Type 0
DueOk waited b (none, b') = b' ≡ b
DueOk waited b (some phrase, b') =
    (b'.said_this_turn ≡ b.said_this_turn + 1)
    × (b'.said_this_turn ≤ b.max_per_turn)
    × (b.first_after_ms ≤ waited)
    × SameSettings b b'

due-DueOk :
    (waited : ℕ) (language : LanguageCode) (b : Backchannel)
    → b.first_after_ms < b.second_after_ms
    → DueOk waited b (due waited language b)
unfolding due work_floor_ms phrases_of
due-DueOk waited english b order = ground arith
due-DueOk waited hindi b order = ground arith
due-DueOk waited telugu b order = ground arith
due-DueOk waited mixed b order = ground arith
due-DueOk waited unknown b order = refl

-- A filler that is not early: the work has taken `floor` and the buyer has been silent for `beat`.
abbrev NotEarly : ℕ → ℕ → ℕ → Filler → Type 0
NotEarly silent floor beat f = (floor ≤ f.work_ms) × (beat ≤ silent + f.work_ms)

NotEarly-same :
    (silent floor floor' beat beat' : ℕ) (fs : List Filler)
    → floor ≡ floor'
    → beat ≡ beat'
    → All (NotEarly silent floor beat) fs
    → All (NotEarly silent floor' beat') fs
NotEarly-same silent floor floor' beat beat' [] same_floor same_beat all = tt
NotEarly-same silent floor floor' beat beat' (f ∷ fs) same_floor same_beat all = (
  (omega (arith, same_floor, all.0.0), omega (arith, same_beat, all.0.1)),
  NotEarly-same silent floor floor' beat beat' fs same_floor same_beat all.1,
)

-- from a point of the turn on
abbrev FillOk : ℕ → Backchannel → List Filler × Backchannel → Type 0
FillOk silent b r =
    All (NotEarly silent (work_floor_ms b) b.first_after_ms) (r.0)
    × (length (r.0) + b.said_this_turn ≡ r.1.said_this_turn)
    × (r.1.said_this_turn ≤ max b.max_per_turn b.said_this_turn)

say_answer-FillOk :
    (silent work : ℕ) (b : Backchannel) (answer : Option String × Backchannel)
    (rest : List Filler × Backchannel)
    → work_floor_ms b ≤ work
    → DueOk (silent + work) b answer
    → FillOk silent answer.1 rest
    → FillOk silent b (say_answer work (answer.0) rest)
say_answer-FillOk silent work b (none, b') rest floor due_ok ok = rw (sym due_ok) ok
say_answer-FillOk silent work b (some phrase, b') rest floor due_ok ok =
    let same = due_ok.3 in
    (
      ((floor, due_ok.2), NotEarly-same silent _ _ _ _ (rest.0) same.2 same.0 (ok.0)),
      omega (arith, ok.1, due_ok.0),
      omega (arith, ok.2, due_ok.0, due_ok.1, same.3),
    )

due_keeps_order :
    (waited : ℕ) (b : Backchannel) (answer : Option String × Backchannel)
    → DueOk waited b answer
    → b.first_after_ms < b.second_after_ms
    → answer.1.first_after_ms < answer.1.second_after_ms
due_keeps_order waited b (none, b') due_ok order = rw due_ok order
due_keeps_order waited b (some phrase, b') due_ok order =
    omega (arith, order, due_ok.3.0, due_ok.3.1)

fill_targets-FillOk :
    (silent : ℕ) (targets : List (ℕ × Wait)) (b : Backchannel)
    → b.first_after_ms < b.second_after_ms
    → FillOk silent b (fill_targets silent targets b)
unfolding fill_targets work_target_ms
fill_targets-FillOk silent [] b order = (tt, omega arith, omega arith)
fill_targets-FillOk silent ((target, wait) ∷ targets) b order =
    let work_target = work_target_ms b target silent in
    let work = max work_target wait.elapsed_after_ms in
    let answer = due (silent + work) wait.spoken b in
    let due_ok = due-DueOk (silent + work) wait.spoken b order in
    elim (Bool-cases (ltb wait.elapsed_before_ms work_target && wait.reply_ready)) [
      | inl stopped ↦ rw stopped (tt, omega arith, omega arith)
      | inr waited ↦ rw waited (
          say_answer-FillOk silent work b answer (fill_targets silent targets answer.1)
            (omega arith) due_ok
            (fill_targets-FillOk silent targets answer.1
              (due_keeps_order (silent + work) b answer due_ok order)))
    ]

-- While the buyer waits, the agent says no more than its phrases for one turn, none of them before
-- the work has taken the floor, and none before the buyer has been silent for the first threshold,
-- whatever the clock and the languages are, and whenever the reply is ready.
fill_never_early :
    (silent : ℕ) (first second : Wait) (b : Backchannel)
    → backchannel_ok b ≡ true
    → (length ((fill silent first second b).0) ≤ b.max_per_turn)
      × All
          (λ f. (work_floor_ms b ≤ f.work_ms) × (b.first_after_ms ≤ silent + f.work_ms))
          ((fill silent first second b).0)
unfolding fill begin_turn work_floor_ms
fill_never_early silent first second b ok =
    let all =
      fill_targets-FillOk silent ((b.first_after_ms, first) ∷ (b.second_after_ms, second) ∷ [])
        (begin_turn b) (ground (arith, ok)) in
    (ground (arith, ok, all.1, all.2), all.0)

due_at_first :
    (waited : ℕ) (language : LanguageCode) (b : Backchannel) (p : BackchannelPhrases)
    → phrases_of language ≡ some p
    → b.said_this_turn ≡ 0
    → 1 ≤ b.max_per_turn
    → b.first_after_ms ≤ waited
    → due waited language b ≡ say (rotate p.brief b.cursor) b
unfolding due
due_at_first waited language b p has none_said many late = rw (due, has) ground arith

due_at_second :
    (waited : ℕ) (language : LanguageCode) (b : Backchannel) (p : BackchannelPhrases)
    → phrases_of language ≡ some p
    → b.said_this_turn ≡ 1
    → 2 ≤ b.max_per_turn
    → b.second_after_ms ≤ waited
    → due waited language b ≡ say (rotate p.patient b.cursor) b
unfolding due
due_at_second waited language b p has one_said many late = rw (due, has) ground arith

fill_targets_go_on :
    (silent target : ℕ) (wait : Wait) (targets : List (ℕ × Wait)) (b : Backchannel)
    (phrase : String)
    → wait.reply_ready ≡ false
    → ((waited : ℕ) → target ≤ waited → due waited wait.spoken b ≡ say phrase b)
    → map (λ f. f.phrase) ((fill_targets silent ((target, wait) ∷ targets) b).0)
      ≡ phrase ∷ map (λ f. f.phrase) ((fill_targets silent targets ((say phrase b).1)).0)
unfolding fill_targets work_target_ms
fill_targets_go_on silent target wait targets b phrase calm says =
    let on : (ltb wait.elapsed_before_ms (work_target_ms b target silent) && wait.reply_ready)
        ≡ false =
      ground (arith, calm) in
    rw
      (on, says (silent + max (work_target_ms b target silent) wait.elapsed_after_ms) (omega arith))
      refl

-- If the reply is not ready before, the agent does fill the silence: with a brief phrase and then a
-- patient one, of the languages that are spoken then, if it may say two and has phrases for them.
pub fill_says_both :
    (silent : ℕ) (first second : Wait) (b : Backchannel) (p q : BackchannelPhrases)
    → backchannel_ok b ≡ true
    → 2 ≤ b.max_per_turn
    → first.reply_ready ≡ false
    → second.reply_ready ≡ false
    → phrases_of first.spoken ≡ some p
    → phrases_of second.spoken ≡ some q
    → map (λ f. f.phrase) ((fill silent first second b).0)
      ≡ rotate p.brief b.cursor ∷ rotate q.patient (b.cursor + 1) ∷ []
unfolding fill begin_turn fill_targets
fill_says_both silent first second b p q ok two w1 w2 s1 s2 =
    fill_targets_go_on silent b.first_after_ms first ((b.second_after_ms, second) ∷ [])
      (begin_turn b) (rotate p.brief b.cursor) w1
      (λ waited late. due_at_first waited first.spoken (begin_turn b) p s1 refl (omega arith) late)
    ∙ ap (λ l. rotate p.brief b.cursor ∷ l)
        (fill_targets_go_on silent b.second_after_ms second []
          (say (rotate p.brief b.cursor) (begin_turn b)).1 (rotate q.patient (b.cursor + 1)) w2
          (λ waited late. due_at_second waited second.spoken _ q s2 refl two late))
