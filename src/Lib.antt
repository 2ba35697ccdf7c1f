-- ===== src/Lib.antt =====
-- Verification of the LLM router, a local proxy that routes requests to model targets.
--
-- A request is routed to an execution plan (src/llm_router/routing), which is executed against the
-- providers (src/llm_router/execution). Both consult the health coordinator (src/llm_router/health):
-- routing reads a snapshot of it, and execution acquires a lease for each attempt and records the
-- attempt's outcome under it.
--
-- Common holds the shared names, Boolean tests, equality as an instance, lists, and Python's `dict` as
-- an association list in insertion order. Domain models src/llm_router/domain.py, and Domain.Exchange its records of one request and response.
--
-- Health models src/llm_router/health. Health.Models has the values of models.py. In coordinator.py
-- a `_DomainRecord` and the methods on one record are Health.DomainRecord (`_transition` is `move`,
-- `_cooldown_seconds` is `cooldown_length`, and the branches of `_transient_failure` are
-- `count_failure` and `enter_cooldown`). The state of the coordinator is Health.Coordinator,
-- `snapshot` is Health.Availability, `acquire` is Health.Admission and `record` is Health.Outcome
-- (`record_outcome`). Health.History runs sequences of calls. The lock of the coordinator covers the
-- whole body of each method, so concurrent calls are one sequence of whole calls. Instants and
-- durations are whole microseconds. The backoff multiplier is a fraction, which every float is, and
-- its power is exact; where Python's float power overflows, the model raises. `retry_after` is not
-- negative. The observer of transitions is outside the model: it is called after the lock is released
-- and its exceptions are dropped. Health.Disabled is the DisabledHealthCoordinator.
--
-- Errors models the errors of src/llm_router/errors.py. Routing models
-- src/llm_router/routing: Routing.Policy the compiled policy (policy.py) and the facts of one decision
-- (context.py), Routing.Kernel the choice and the health filter of targets in kernel.py (`_capable`,
-- `_auto_tier`, `_ordered_auto_targets` and `_available_targets`, whose loop is `filter_targets`),
-- Routing.Plan the method `plan` in the order of its raises, with the errors as values, and
-- Routing.Session the store of session.py (`_get` is `touch`, `record` is `record_session`). A mapping
-- is a `Dict`, and the hash of the policy is a field. Aliases are compared as Python compares strings,
-- by code points. Routing.Canary is the CanaryPolicySelector of canary.py with the CanaryAssignment of
-- src/llm_router/evaluation/canary_models.py: an exception is `none`, `_control` is `select_control`,
-- the body of the `try` of `select` is `select_tried`, and the HMAC of a bucket is a parameter.
--
-- Routing.Startup is the gate of canary_runtime.py with the selector that it builds, and Routing.Resolve
-- is `resolve` of coordinator.py: the recorder is an argument, and the shadow has no effect on the result.
--
-- Execution models src/llm_router/execution. Execution.Failures is failures.py, with `parse_retry_after`
-- and `decision_for_http` in Execution.Failures.RetryAfter. In engine.py, `execute` is Execution.Execute:
-- `round` is one round of its loop, `try_target` an attempt with a lease and `after_attempt` what follows
-- it; the body of the `try` with its handlers is `attempt` of Execution.Invoke, on the values of
-- Execution.Attempt, and what follows the loop is `conclude` of Execution.Engine. The engine's clocks, the
-- answers of `acquire`, what each provider does and whether the call of `record` raises are the `visits`, one for
-- each place in the plan; an exception of `record` that no handler takes is `escapes`. The
-- calls of the health port and of the providers are listed in their order; closing an exchange is taken to
-- return. Header values are Latin-1 texts (Common.Text), and `parsedate_to_datetime` is a parameter.
--
-- Execution.Sse is stream_semantics.py with the delimiters of streaming.py, Execution.Accumulator is
-- `SSEUsageAccumulator`, Execution.Relay is `read_first_event` and `relay_stream`, and Execution.Completion how
-- `relay_stream` ends, with `finish`, the completion and the handlers, as functions of what
-- each read gives, of what the consumer does at the start and at each `yield`, of whether the call of
-- `record_outcome` raises and of whether the completion is done by others. `json.loads` is a parameter, and JSON
-- values are Common.Json. Usage breakdowns are Observability.Models and the readers of usage are
-- Observability.Usage (src/llm_router/observability/models.py and usage.py). Observability.Pricing is
-- `CostCalculator.estimate` of pricing.py: rates are decimals, products are rounded to 28 digits as Decimal
-- rounds them, and an exception is `none`. Gateway.Renderers has the
-- bodies of errors of src/llm_router/gateway/renderers.py.
--
-- The loop of `feed` runs on fuel, the length of the buffer; each round removes at least two bytes, and
-- `drain_complete` in Execution.Accumulator.Bounded shows that the fuel is enough. The
-- rounding of a product runs on the product itself as fuel, which `excess_enough` in Observability.Pricing.Rounded
-- shows to be enough. Every other recursion
-- is over a list or a string.
--
-- Configuration models what routing reads of src/llm_router/config.py and canary_config.py:
-- Configuration.Validate has `validate_references` as the first error of a list of checks, and
-- Configuration.References what a configuration that passes them has. Routing.Compile is the canonical document
-- and `compile_routing_policy` of policy.py, with `model_targets` and `to_domain`. Routing.Candidate is
-- candidate.py. The texts of JSON values, digests and floats, `ip_address` and expanded paths are arguments.
--
-- Evaluation models src/llm_router/evaluation: Evaluation.Codec has the JSON that codec.py writes,
-- Evaluation.Decoded the readers of a JSON value, Evaluation.Requests the decoders of requests and sessions, with
-- Requests.Ordered the order of keys in what `canonical_json` writes, Evaluation.Policies the snapshot of a policy and
-- `decode_policy_snapshot`, Evaluation.Changes the comparison of two results, Evaluation.Replay the ReplayEngine of replay.py (`_verify_historical` is
-- `verified_as`, and the steps of `replay` from the decoded policy on are `decode_historical`, `in_mode` and
-- `in_history`), and Evaluation.Shadow the admission and the evaluation of shadow.py. A decoder takes some values
-- of another type than their field's as they are; such a value is `untyped` and followed no further.
--
-- Not modelled: the extraction of request features, the gateway but for the bodies of errors, the provider
-- adapters, the decoders of plans, errors and health snapshots, the queues of the recorder and
-- of the shadow's worker, the rest of observability, the dashboard, the validators of single settings and the
-- loading of files. The provider adapters, the stores, the command line and the
-- application object are input and output around third-party libraries.
pub mod Common
pub mod Domain
pub mod Configuration
pub mod Errors
pub mod Evaluation
pub mod Execution
pub mod Gateway
pub mod Health
pub mod Observability
pub mod Routing
