-- ===== src/Lib.antt =====
-- The Python package agentrust_telemetry (src/agentrust_telemetry): events that describe what an
-- agent did are validated, recorded as a chain of evidence, projected to operational telemetry and,
-- at the end of a run, turned into a signed TRACE record.
--
-- The parts and the files that model them:
--   Base        lists, Booleans, integers and `Outcome`: Python's exceptions as values (errors.py)
--   Value       Python's values with `==`, subscripts, `int()`, `str` operations
--   Bytes       `bytes.hex`, `bytes.fromhex`, `int.to_bytes`
--   Evidence    evidence.py: the entry digest and, in Evidence/Accumulator, the accumulator with
--               `append`, `seal` and `snapshot`. Append has the behaviour of one call, Invariant
--               what every call keeps, Sealing the runs of calls, Progress when an
--               event is taken.
--   Trace       trace_adapter.py: Chain (`_verify_chain`), Policy (`_policy_binding`), DataClass
--               (`_highest_data_class`), Approvals (`_bound_approvals`), Actions
--               (`_action_approval_binding`), Appraisal (`_appraisal`) and Finalize
--               (`finalize_trace`); Events holds what they share. The theorems of each are in its
--               Laws; Chain/Binding and Chain/Collision say what a chain digest commits to,
--               Appraisal/Decisions which decisions an appraisal counts.
--   Validation  validation.py: `SchemaValidator.validate`, with Shape for `_json_shape_error`,
--               Privacy for `_prohibited_paths` and Accepts for the whole.
--   Client      client.py, projection.py and context.py: `TelemetryClient.emit`; Delivery
--               describes its external calls
--   Usage       usage.py: `UsageAccumulator.add`, in Record `CostObservation` and `usage_record`, in
--               Rollup `rollup`
--   Factory     adapters/base.py: `EventFactory.build`, with Extra for `**envelope`; Build and
--               Optional say what the envelope of an event is, Payload where an event holds what it
--               was built from, Time reads a time back
--   Propagation propagation.py: `inject_context`, `extract_context`, `event_fields`
--   DataFlow    data_flow.py: `classified_data_flow`
--   Otel        otel.py: `OTelLogEmitter.emit` up to the logger, `OTelMetricEmitter.emit`
--   Conformance conformance/runner/validate.py: `validate_record`, `validate_appraisal_case`
--   Adapters    adapters/: Source reads the fields of an object or a dictionary, AgtApproval, AgtAudit,
--               AgtData and Cedar are the modules of those names, Agt is the sink of agt.py with its
--               decisions and reason codes
--   Tests       sample inputs and runs on them
--
-- How they meet: a client validates an event, hands it to its evidence sink, which an accumulator
-- is meant for, and then to the exporters; the snapshot of a sealed accumulator is what
-- `finalize_trace` takes. The digests that `append` makes and those that `_verify_chain` computes
-- again come from one function, `entry_digest`, as in the source. The adapters build their events
-- with the factory; the approvals that they map are what finalization looks for.
--
-- State and errors: a method is a function from the state, and the world of its external calls, to
-- a result and the new state and world. An exception is a value of `Exn`, with the constant part of
-- its message. A Python dictionary is the list of its items, a float a multiple of 2^-1074.
--
-- Parameters: rfc8785, hashlib, the JSON Schema library and the schema files, agentrust-trace and
-- the signing key, OpenTelemetry's spans, the exporters, the durable callback, `str` of a value
-- that is no text, uuid5, `float()`, the sum of costs as decimals, the division of a duration, the
-- meter and the logger of OpenTelemetry, the classifier, the mapper of AGT's events.
--
-- Fuel: the walk of `_json_shape_error` runs on as much fuel as the value holds values; each round
-- takes one of them off the stack. The digits of a number n are written on fuel n + 1.
--
-- Left out: the lock of the accumulator, which makes a call atomic but for the durable callback,
-- during which its thread is the owner; a callback that itself calls the accumulator; `deepcopy`,
-- since values are immutable here; the parts that an exception's text formats, the order of the
-- messages it joins; digits and white space outside ASCII in `int()`; that a NaN inside a container
-- equals itself; subclasses of Python's types.
-- adapters/opa.py and `agt_policy_decision` of adapters/agt.py, which pass values of any type on as
-- trace ids, `link` of propagation.py, the reading of files and the printing are not modelled.
pub mod Base
pub mod Value
pub mod Bytes
pub mod Evidence
pub mod Trace
pub mod Validation
pub mod Client
pub mod Usage
pub mod Factory
pub mod Propagation
pub mod DataFlow
pub mod Otel
pub mod Conformance
pub mod Adapters
pub mod Tests
