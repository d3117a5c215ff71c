-- ===== src/Factory/Optional.antt =====
-- `EventFactory.build` of adapters/base.py: the optional fields of the envelope.
use mathlib.Core.Option
use agentrust_telemetry.Base.{◌≡◌, refl, ◌∙◌, false, String, Option, none, some, str_eq}
use agentrust_telemetry.Value.{str, Fields, lookup}
use agentrust_telemetry.Value.Lookup.{lookup-assign, lookup-assign_other}
use agentrust_telemetry.Factory.{Envelope, given, with_optional}

lookup-given_other :
    (k j : String) (o : Option String) (fs : Fields)
    → str_eq j k ≡ false
    → lookup k (given j o fs) ≡ lookup k fs
unfolding given
lookup-given_other k j none fs h = refl
lookup-given_other k j (some s) fs h = lookup-assign_other k j (str s) fs h

lookup-given :
    (k : String) (o : Option String) (fs : Fields)
    → lookup k fs ≡ none
    → lookup k (given k o fs) ≡ Option.map str o
unfolding given
lookup-given k none fs h = h
lookup-given k (some s) fs h = lookup-assign k (str s) fs

-- The optional fields leave the other keys alone.
pub with_optional_other :
    (k : String) (e : Envelope) (fs : Fields)
    → str_eq "agent_id" k ≡ false
    → str_eq "workflow_id" k ≡ false
    → str_eq "parent_agent_id" k ≡ false
    → str_eq "task_id" k ≡ false
    → str_eq "trace_id" k ≡ false
    → str_eq "span_id" k ≡ false
    → lookup k (with_optional e fs) ≡ lookup k fs
unfolding with_optional
with_optional_other k e fs a b c d x y =
    lookup-given_other k "span_id" e.span_id _ y
    ∙ lookup-given_other k "trace_id" e.trace_id _ x
    ∙ lookup-given_other k "task_id" e.task_id _ d
    ∙ lookup-given_other k "parent_agent_id" e.parent_agent_id _ c
    ∙ lookup-given_other k "workflow_id" e.workflow_id _ b
    ∙ lookup-given_other k "agent_id" e.agent_id fs a

pub agent_lem :
    (e : Envelope) (fs : Fields)
    → lookup "agent_id" fs ≡ none
    → lookup "agent_id" (with_optional e fs) ≡ Option.map str e.agent_id
unfolding with_optional
agent_lem e fs h =
    lookup-given_other "agent_id" "span_id" e.span_id _ refl
    ∙ lookup-given_other "agent_id" "trace_id" e.trace_id _ refl
    ∙ lookup-given_other "agent_id" "task_id" e.task_id _ refl
    ∙ lookup-given_other "agent_id" "parent_agent_id" e.parent_agent_id _ refl
    ∙ lookup-given_other "agent_id" "workflow_id" e.workflow_id _ refl
    ∙ lookup-given "agent_id" e.agent_id _ (h)

pub workflow_lem :
    (e : Envelope) (fs : Fields)
    → lookup "workflow_id" fs ≡ none
    → lookup "workflow_id" (with_optional e fs) ≡ Option.map str e.workflow_id
unfolding with_optional
workflow_lem e fs h =
    lookup-given_other "workflow_id" "span_id" e.span_id _ refl
    ∙ lookup-given_other "workflow_id" "trace_id" e.trace_id _ refl
    ∙ lookup-given_other "workflow_id" "task_id" e.task_id _ refl
    ∙ lookup-given_other "workflow_id" "parent_agent_id" e.parent_agent_id _ refl
    ∙ lookup-given "workflow_id" e.workflow_id _
        (lookup-given_other "workflow_id" "agent_id" e.agent_id _ refl ∙ h)

pub parent_lem :
    (e : Envelope) (fs : Fields)
    → lookup "parent_agent_id" fs ≡ none
    → lookup "parent_agent_id" (with_optional e fs) ≡ Option.map str e.parent_agent_id
unfolding with_optional
parent_lem e fs h =
    lookup-given_other "parent_agent_id" "span_id" e.span_id _ refl
    ∙ lookup-given_other "parent_agent_id" "trace_id" e.trace_id _ refl
    ∙ lookup-given_other "parent_agent_id" "task_id" e.task_id _ refl
    ∙ lookup-given "parent_agent_id" e.parent_agent_id _ (
        lookup-given_other "parent_agent_id" "workflow_id" e.workflow_id _ refl
        ∙ lookup-given_other "parent_agent_id" "agent_id" e.agent_id _ refl
        ∙ h)

pub task_lem :
    (e : Envelope) (fs : Fields)
    → lookup "task_id" fs ≡ none
    → lookup "task_id" (with_optional e fs) ≡ Option.map str e.task_id
unfolding with_optional
task_lem e fs h =
    lookup-given_other "task_id" "span_id" e.span_id _ refl
    ∙ lookup-given_other "task_id" "trace_id" e.trace_id _ refl
    ∙ lookup-given "task_id" e.task_id _ (
        lookup-given_other "task_id" "parent_agent_id" e.parent_agent_id _ refl
        ∙ lookup-given_other "task_id" "workflow_id" e.workflow_id _ refl
        ∙ lookup-given_other "task_id" "agent_id" e.agent_id _ refl
        ∙ h)

pub trace_lem :
    (e : Envelope) (fs : Fields)
    → lookup "trace_id" fs ≡ none
    → lookup "trace_id" (with_optional e fs) ≡ Option.map str e.trace_id
unfolding with_optional
trace_lem e fs h =
    lookup-given_other "trace_id" "span_id" e.span_id _ refl
    ∙ lookup-given "trace_id" e.trace_id _ (
        lookup-given_other "trace_id" "task_id" e.task_id _ refl
        ∙ lookup-given_other "trace_id" "parent_agent_id" e.parent_agent_id _ refl
        ∙ lookup-given_other "trace_id" "workflow_id" e.workflow_id _ refl
        ∙ lookup-given_other "trace_id" "agent_id" e.agent_id _ refl
        ∙ h)

pub span_lem :
    (e : Envelope) (fs : Fields)
    → lookup "span_id" fs ≡ none
    → lookup "span_id" (with_optional e fs) ≡ Option.map str e.span_id
unfolding with_optional
span_lem e fs h = lookup-given "span_id" e.span_id _ (
    lookup-given_other "span_id" "trace_id" e.trace_id _ refl
    ∙ lookup-given_other "span_id" "task_id" e.task_id _ refl
    ∙ lookup-given_other "span_id" "parent_agent_id" e.parent_agent_id _ refl
    ∙ lookup-given_other "span_id" "workflow_id" e.workflow_id _ refl
    ∙ lookup-given_other "span_id" "agent_id" e.agent_id _ refl
    ∙ h)
