-- ===== src/Lib.antt =====
-- Arbiter: the triage brain of a small company's security monitor (arbiter/, Python).
--
-- Collectors turn logs into events. `TriageEngine.triage` decides each event: deterministic guardrails
-- first, then a cheap prefilter over the event's history, then a language model for what is left, and
-- the guardrails again over a suppression of the model. The verdict goes into the memory, whose history
-- the prefilter reads, and into an audit trail, from which an analyst labels past verdicts. Before it,
-- adapters put telemetry into security events, whose form for the brain carries only the marks that the
-- adapter gives, and correlation rules relate them. Behind it, an escalation opens a review case with a
-- deadline; a case that an operator enrolled may block a remote address for five minutes. A
-- second-level review of escalations by another model has cases and deadlines of its own.
--
-- Which file models which part:
--   Base            helpers: tests on numbers, lists, texts as Python's str methods have them
--   Values          what Python gives: dynamic values of `Event.fields`, and floats
--   Schema          arbiter/schema.py: Event, Verdict, `__post_init__`
--   Guardrails      arbiter/guardrails.py: detectors (Access, Behaviour), regular expressions
--                   (Patterns), `guardrail_check` and `fact_downgrade`
--   Memory          arbiter/memory.py: the tables as lists of rows, `history` with its cache,
--                   `record_verdict`, `label_verdicts`; facts and briefings in Memory.Facts
--   Facts           arbiter/facts.py: `scope_check` and `render`
--   Prefilter       arbiter/prefilter.py: `score_event`, `routine_telemetry`, `prefilter`
--   Triage          arbiter/triage.py: `triage`, `_llm_triage`, the counters and the audit trail
--   Respond         arbiter/respond.py: the planners (Catalog), `plan` and `Responder`
--   Iam             arbiter/iam.py: accounts with the lockout (`IAM.authenticate`), and the cookies
--                   of `issue_session` and `verify_session` (Sessions)
--   Buffer          arbiter/ingestion/store.py: the queue of `EventBuffer` (`enqueue`, `claim`, ...)
--   Backends        arbiter/llm.py: `parse_response`; `MockBackend` and `RulesOnlyBackend` in Keywords
--   Review          arbiter/review.py: `group_items`, `apply_feedback` and `_prompt_fact`
--   Audit           arbiter/store.py: `AuditStore` (`record_verdict` is `store_verdict`, `prune` is
--                   `prune_audit`)
--   Telemetry       arbiter/ingestion/schema.py: `SecurityEvent`; its `to_event` in Legacy, and
--                   arbiter/ingestion/evidence.py's `artifact` and `tool_finding` in Evidence
--   Correlation     arbiter/ingestion/correlation.py: one function for each rule; `correlate` in Malware
--   Containment     arbiter/ingestion/containment.py: `ContainmentScope` and `permits`
--   Protection      arbiter/ingestion/protection.py: the rows of `protection_actions`; `proposal` in
--                   Proposals; `approve`, `undo` and `reconcile` in Operations
--   Workflow        arbiter/ingestion/response_workflow.py: the cases; `ensure` in Opening; `control` in
--                   Requests and Control; `fresh_evidence` in Evidence; `tick` in Tick
--   Analyst         arbiter/l2_evidence.py: `dossier` and `assess`; in Grounding the `validate` of
--                   arbiter/l2_guardrails.py, in Engine `L2Brain.review` and `authorize` of
--                   arbiter/l2.py; of arbiter/l2_workflow.py the `ResponsePolicy` in Policy, the cases
--                   in Cases, `control` in Commands (`l2_control`), the loops of `tick` in Observe,
--                   Results and Due, and `tick` in Tick (`l2_tick`)
--   Tests           runs on concrete events and instances of the theorems
-- A child module named after what it proves holds the proofs of its parent.
--
-- How the code corresponds. Functions keep their names without a leading underscore. A method that
-- changes an object takes the object's record and gives it back, with the result in front where there
-- is one. A record stands for a dataclass, a list for a Python list, a table or, with the source's
-- replacement rule written out, a dict. A failing model answers `failed` with the exception's text;
-- the detectors of guardrails.py raise nothing on the values that an event can hold, so their
-- `except` branches have no counterpart. The current time is an argument.
--
-- Floats are a parameter: `Runtime F` names the tests and operations on CPython's floats that the code
-- uses and four laws of their order, which hold of IEEE doubles and NaN. The tests instantiate it by
-- thousandths in ℕ. Parameters are also the model, a function from what `LLMBackend.triage` gets to an
-- answer or a failure; the shell of the responder, which may time out; the password hash, the HMAC and
-- the encoding of a cookie; `json.loads` and `float` of a JSON value, which may raise; Python's
-- `ipaddress`, dates and paths; and the firewall, whose answer to a command may depend on all the
-- commands before it. Where the code reads the clock several times, each reading is an argument of its
-- own, by case or by action. SQLite is
-- modelled by what the statements do to the rows. Its `data_version` is a counter that another
-- connection's commit moves, and its transactions are atomic.
--
-- Bounds. Text operations follow Python on ASCII: `lower`, `strip`, `\w`, `\s` and `\d` treat
-- other characters as letters of no case that are no word characters. All loops are over lists or
-- characters, so every function is total and there is no fuel. `_context_signature` is a text or
-- absent, as the pipeline writes it. A confidence that is a bool, which the engine turns down as it does
-- one that is not finite, has no value in the model's float type.
--
-- Not modelled: JSON and file formats, the command line, the HTTP server, the collectors, the installer,
-- the web console, the parts of arbiter/ that stand on the network, the migrations of old databases, the
-- inventory and the incidents beside the queue, the adapters that normalize telemetry, the scripts of
-- the two firewalls, and the transport to the second-level model, whose answers are a parameter. A packet
-- is modelled without its digest and its untrusted text, an assessment without its reason, and a brief of
-- the second level by what its workflow reads. A scheduler's round is one step: what an operator asks for
-- stands before or behind it, since both hold the lock. Where an exception ends a round of
-- either level, the state at that moment is kept. An error of SQLite itself is not modelled.
pub mod Base
pub mod Values
pub mod Schema
pub mod Guardrails
pub mod Memory
pub mod Facts
pub mod Prefilter
pub mod Triage
pub mod Respond
pub mod Iam
pub mod Buffer
pub mod Backends
pub mod Review
pub mod Audit
pub mod Telemetry
pub mod Correlation
pub mod Containment
pub mod Protection
pub mod Workflow
pub mod Analyst
pub mod Tests
