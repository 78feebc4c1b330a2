-- ===== src/Lib.antt =====
-- PitchBot, a sales assistant that talks with leads of Indian small businesses (Python, package
-- src/pitchbot): a verification library of its core logic. A buyer's audio is cut into turns, a turn
-- is answered in the language of the conversation, the answer is synthesised and sent back in frames;
-- actions for the lead, such as a callback, pass a policy; calls of providers go through retries and
-- a circuit breaker; requests from outside are authenticated and limited. Background deliberation
-- gives way to turns.
--
-- The files, by the code that they model (paths from the repository's root):
-- Speech/Models, Speech/TurnTaking: `TurnTaking` of src/pitchbot/speech/turn_taking.py with the
--     frames and events of speech/models.py. A method takes the state and gives the new one with what
--     it returns; an assertion that fails is a result of its own. Invariant, Observe and Runs hold
--     the proofs: of the counters, of one frame, and of sequences of frames and notifications.
-- Speech/ReplyAudio: the generator of src/pitchbot/speech/reply_audio.py as a function from the
--     chunks to the frames and the way it ends.
-- Adapters/CircuitBreaker, Adapters/Retry: src/pitchbot/adapters/resilience.py. Calls of a breaker
--     are events, a call's begin and its end, in any order.
-- Security/RateLimit: src/pitchbot/security/rate_limit.py, in exact arithmetic.
-- Security/Credentials: src/pitchbot/security/credentials.py.
-- Whatsapp/Pricing: the cost decision of src/pitchbot/whatsapp/pricing.py.
-- Conversation/Language: `decide_language` of src/pitchbot/conversation/language.py and
--     `_resolve_language` of src/pitchbot/conversation/engine.py.
-- Conversation/Planning: src/pitchbot/conversation/planning.py, with phrases by their place in the
--     tables.
-- Conversation/State, Domain/Facts: the records of src/pitchbot/conversation/state.py,
--     conversation/models.py and domain/models.py.
-- Conversation/Classify: `_classify` and `_phase_for` of src/pitchbot/conversation/engine.py.
-- Conversation/Engine: what follows from the signals of a text, as in `extract_business_signals` of
--     src/pitchbot/conversation/rules.py, and in Process `process_turn` of engine.py: it settles the
--     language with Conversation/Language, plans with Conversation/Planning, rates with
--     Conversation/Classify and tells Deliberation/Briefing. A turn takes a session, a state with its
--     briefing, and gives its outcome. Parts and Invariant hold the proofs that a turn keeps a state
--     valid; Sessions, Safety, Reading and Asking are about sequences of turns, what ends them, what a
--     model's reading changes and how often the bot asks. Table has the engine's sessions, and
--     Isolation is about calls for several of them.
-- Conversation/Checkpoint: `ConversationStateCheckpoint` of src/pitchbot/conversation/models.py and
--     its export and restoring in engine.py.
-- Conversation/Journal: the events and the replay of src/pitchbot/conversation/journal.py, on the
--     checkpoints of Conversation/Checkpoint. Accepting, Recorded, Step, Folded and Replays hold the
--     proofs about the turns of Conversation/Engine. Load has `_load_events` and `_find_operation`, and
--     Commit has `prepare_turn`, `commit_turn` and `process_turn`, which read and append with
--     Storage/Repository; Found, Steps and Settled hold the proofs. A load has the databases that
--     its reads see.
-- Actions/Policy: `ActionPolicy.authorize` of src/pitchbot/actions/policy.py.
-- Actions/Callbacks: `CallbackService` of src/pitchbot/actions/callbacks.py: scheduling,
--     cancelling, dispatching and the removal at the end of a session. The first three are cut in two
--     at their call of an adapter and can have others in between. They ask Actions/Policy.
-- Deliberation/Briefing: `Briefing` of src/pitchbot/deliberation/briefing.py.
-- Deliberation/Lanes: `LaneScheduler` and `YieldBudget` of src/pitchbot/deliberation/lanes.py.
-- Storage/Models, Storage/Repository: the tables of src/pitchbot/storage/models.py as lists of rows,
--     and `SqlAlchemyEventRepository` of storage/repository.py as functions on them. An append is cut
--     between its read and its commit. Order, Laws and Appends hold the proofs.
-- Storage/Privacy: `SqlAlchemyPrivacyRepository`; Rows, Reach and Laws hold the proofs: of the rows
--     that stay, of histories of all sessions, and of the operations.
-- Storage/Suppression: `SqlAlchemySuppressionRepository`, against a function of the last calls.
-- Storage/Redaction: `redact_json` of storage/privacy.py, on Domain/Json.
-- Whatsapp/Webhook: parsing and deduplication in src/pitchbot/whatsapp/webhook.py.
-- Speech/Backchannel: `Backchannel` of src/pitchbot/speech/backchannel.py and the loop of
--     `ThinkingFiller._fill` of simulator/speech_output.py that asks it.
-- Observability/Histogram: `Histogram` of src/pitchbot/observability/metrics.py, with numbers for
--     floats. Observability/Registry: `MetricsRegistry`, with keys for names and labels; Series,
--     Steps and Laws hold the proofs.
-- Benchmarks/EditDistance, Benchmarks/Intervals: src/pitchbot/benchmarks/metrics.py.
-- Prelude: Boolean tests, lists, dicts as association lists with equality of keys as an interface,
--     texts as lists of code points, the newest elements of a list, and in Floats the sums of
--     Python's floats (3.12 and later), by which a lead is rated.
-- In each part Laws (or the files named) has the theorems and Tests runs them at concrete inputs.
--
-- Times, durations, counts and byte counts are natural numbers, which have no bound, as Python's
-- integers have none. Subtraction stops at 0: it is written where the code cannot go below 0, or
-- takes the greater of the difference and a bound that is not below 0. No definition runs on fuel:
-- every loop goes over a list or a number that falls.
--
-- Parameters, for what the code only calls: the float product of a delay and the multiplier in
-- Adapters/Retry, the JSON text of a request and the string functions of Python in
-- Actions/Callbacks, the reading of a text's language in Conversation/Language, what the rules read
-- in a text, the digest of a text, `strip` and the cut of a text in Conversation/Engine, the encoding
-- and decoding of an event and the fingerprint of a request in Conversation/Journal, random
-- identifiers, what a provider answers, `str`, the clock and the conversion of timestamps in
-- Whatsapp/Webhook, the folding of case in Storage, and in Speech/Backchannel what the clock reads.
--
-- Not modelled: the projections of the journal, speech recognition and synthesis, SQL and its
-- sessions, retrieval, the knowledge graph, the rules that read a text, the HTTP application, the
-- drivers of the benchmarks, simulation and configuration: they call libraries and services, or are
-- tables of words.
mod Prelude
pub mod Speech
pub mod Adapters
pub mod Security
pub mod Whatsapp
pub mod Conversation
pub mod Actions
pub mod Deliberation
pub mod Domain
pub mod Storage
pub mod Benchmarks
pub mod Observability
