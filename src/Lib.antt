-- ===== src/Lib.antt =====
-- TryOps is a product stack around AI virtual try-on. This library is about the parts of its Python code
-- that decide which work is accepted and who does it.
--
-- The parts, and the file that models each:
--   * Jobs: src/tryops/jobs.py, the in-memory queue of try-on jobs. Jobs/Record.antt has `JobRecord` and the
--     methods of `InMemoryJobQueue` (`submit`, `get`, `active_count_locked`, `queue_depth_locked`, `reset`) under
--     their own names, and `_run` as `start` and `finish`, the two blocks that it executes under the queue's
--     lock; Jobs/Listing.antt has `list` (`list_jobs`) and `snapshot`. Jobs/Pool.antt puts the queue beside the
--     executor: an event is one such block, and a run is a sequence of events, each enabled where it happens.
--   * Quota: src/tryops/quota.py, the daily limits by plan. Quota/Ledger.antt has
--     `UsageQuotaLedger.check_and_record` with its loops (`run_checks`, `record_usage`), Quota/Snapshot.antt
--     `snapshot` and `reset`, Quota/Gateway.antt
--     `check_and_record_quota`, which asks the quota gateway first.
--   * Router: scripts/serve_fashn_vton_router.py, which shares requests out to one worker process for each GPU.
--     Router/State.antt has `WorkerState`, the router's state and `probe_worker`; Router/Schedule.antt has
--     `claim_worker` and `readiness`; Router/Body.antt has `_request_attrs_from_body`; Router/Requests.antt has
--     `route_infer`, cut where the request is with the worker into `route_begin` and `route_end`; Router/Traffic.antt has the runs of many such requests.
--   * Policy: src/tryops/policy.py with the records of src/tryops/contracts.py, the gates in front of the
--     promotion of a model. Policy/Model.antt has the records, Policy/Gates.antt and Policy/Promotion.antt the ten
--     gates and `evaluate_promotion` under their own names; Policy/Conditions.antt says what a promotion requires.
--   * Routing: src/tryops/routing.py, the choice of the model that serves a request. Routing/Alias.antt has
--     `resolve_model_alias`, Routing/Canary.antt `build_routing_decision` and `apply_fallback_route`;
--     Routing/Expected.antt writes the decisions down apart from the code.
--   * Cache: src/tryops/semantic_cache.py, the answers kept for prompts that come again. Cache/Entries.antt has
--     `put`, `get_generation` and `reset` of `SemanticCache`.
--   * Image: src/tryops/simple_image.py, PNG files and images of RGB pixels. Image/Filter.antt has the filters of
--     a row, Image/Png.antt `read_png_rgb` and `write_png_rgb` on the bytes of a file, Image/Resize.antt
--     `resize_nearest`, Image/Overlay.antt `overlay`; Image/Standard.antt has the filters of the PNG standard; Image/Stream.antt is about the loop over the chunks.
--   * Auth: src/tryops/auth.py, API keys and sessions. Auth/Keys.antt has `authenticate_api_key` and
--     `_find_active_key_by_hash`, Auth/Audit.antt `audit_api_key_registry`, Auth/Session.antt
--     `build_rbac_session`; Auth/Search.antt says which entry of a registry is found.
--   * Guardrails: src/tryops/guardrails.py, what is done to a prompt and an answer. Guardrails/Redaction.antt has
--     `redact_pii` and `restore_pii_placeholders`, Guardrails/Findings.antt `_dedupe_findings` and `_build_verdict`,
--     Guardrails/Ingress.antt `evaluate_ingress_guardrails`, Guardrails/Structure.antt `validate_structured_output`,
--     Guardrails/Merge.antt `merge_guardrail_verdicts`; Guardrails/Order.antt and Guardrails/Spans.antt are about the
--     spans that the loops of `redact_pii` take.
--   * Api: src/tryops/api.py. Api/Merge.antt has `_merge_job_records`, which puts the jobs of the database and of the
--     queue on one page, and Api/Loop.antt is about its loop; Api/Concurrency.antt has `_vton_job_concurrency` and the
--     submission of a try-on job under the limit of its plan, for which it uses `submit` of Jobs/Record.antt.
--   * Contracts: src/tryops/api_contracts.py, the validation of requests. Contracts/Checks.antt has the checks
--     (`_validate_int_range`, `_validate_float_range`, `_validate_timeout_ms`, `_validate_local_image_path` and
--     those that the function writes out), Contracts/Vton.antt `validate_vton_payload`; Contracts/Accepted.antt
--     says what a request is in which no error was found.
--   * Accounts: src/tryops/db.py, the members of a workspace and the invitations to it. Accounts/Store.antt has
--     the tables, Accounts/Table.antt what a statement does to one, Accounts/Members.antt
--     `update_account_member` and `remove_account_member`, Accounts/Invitations.antt
--     `_accept_pending_invitations`, Accounts/Inviting.antt `create_account_invitation` and
--     `revoke_account_invitation`; Accounts/Operations.antt puts them in sequences.
--   * Admission: src/tryops/native_admission.py, the admission of requests in Python where the native controller
--     is not built. Admission/State.antt has its records, Admission/Controller.antt the loop of `_python_fallback`,
--     with the rounds of it that a `continue` ends as verdicts.
--   * Base: lists and dicts over the native numbers, JSON values, Python's sort, sets and text methods, and what a
--     call comes to (Base/Result.antt).
-- The API (src/tryops/api.py) asks for a routing decision and a quota decision on an inference; the runner of a
-- try-on job is such an inference, and its request goes to the router. Before that the API validates the payload:
-- an accepted one names an alias that the routing resolves and a plan that the quota knows.
--
-- Conventions. A dict is an association list, in which writing to a key that is there keeps its place. A
-- value from the clock, a fresh id, an environment variable or a reply of another process is an argument.
-- Times and latencies are natural numbers, but for the integers of the admission and the texts of the
-- tables. Of SHA-256, a parameter, nothing is assumed. Parameters are also Python's floats and its `str`
-- and `int` on any value (`Python` of Base/Python.antt), zlib (`Zlib` of Image/Png.antt), what a compiled
-- pattern finds in a text, the order in which Python goes through a set, the bucket of a request id
-- (`Percents` of Routing/Canary.antt), the values of a payload and the files it names (`Python` of
-- Contracts/Checks.antt), the floats of the admission (`Floats` of Admission/State.antt), and the ids and
-- the lower case of texts in the tables (`Services` of Accounts/Store.antt). A body that the router is sent
-- is given by what Python's decoding and `json.loads` make of it. The calls on the tables run
-- one after the other; an exception leaves what was committed before it. The policy of a promotion has
-- every section that `DEFAULT_POLICY` has. An exception is its text, without the values that the source
-- puts into it. The functions are total by structural recursion. Two loops have a count: the scheduler's
-- is the number of workers, as in the source, and that of the loop over the chunks of a PNG file is the
-- number of bytes, of which each round takes twelve or all that are left.
--
-- Not modelled: the processes, sockets, logs and metric texts, the callbacks of the queue (their
-- exceptions are swallowed in the source), the verdict on an answer and the built-in substitute for the
-- native guardrail, the validation of pipelines and of LLM requests, the creation of accounts and the
-- other tables of the database, the text form of admission events, and the remaining modules of
-- src/tryops, which render reports, call services or compute with floating-point numbers.
pub mod Accounts
pub mod Admission
pub mod Api
pub mod Auth
pub mod Base
pub mod Cache
pub mod Contracts
pub mod Guardrails
pub mod Image
pub mod Jobs
pub mod Policy
pub mod Quota
pub mod Router
pub mod Routing
