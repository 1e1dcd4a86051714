-- ===== src/Tests/Brain.antt =====
-- Runs of the brain, and its theorems at concrete inputs.
use arbiter_ai.Base.{
  ℕ, String, ◌≡◌, ◌≢◌, refl, none, some, Option, [], ◌∷◌, arith, eq_iff, leb, Among, if◌then◌else◌,
}
use arbiter_ai.Values.{Value, Entries}
use arbiter_ai.Schema.{Event, escalate, suppress, guardrail, prefilter}
use arbiter_ai.Guardrails.{guardrail_check, GuardrailHit, fact_downgrade, guardrail_run}
use arbiter_ai.Guardrails.Downgrade.{Covers, downgrade-Covers}
use arbiter_ai.Facts.{facts_run, checks, scope_check, scoped, unscoped, in_window}
use arbiter_ai.Facts.Scope.{verdict_of, scope_check-verdict_of}
use arbiter_ai.Facts.Window.{elapsed, in_window-elapsed}
use arbiter_ai.Memory.{memory_run}
use arbiter_ai.Memory.Facts.{fact_rows_run, scoped_fact}
use arbiter_ai.Prefilter
use arbiter_ai.Prefilter.{prefilter_run}
use arbiter_ai.Triage.Rails.{triage, triage_run}
use arbiter_ai.Triage.Stats.{Advances, triage-Advances, Balanced, triage-Balanced}
use arbiter_ai.Triage.Guarded.{triage-rail, triage-failing}
use arbiter_ai.Tests.Fixtures.{
  root_account, dump, spike, wheel_fact, agreeing, down, engine, thousandths,
}

abbrev name_of : Option GuardrailHit → String
name_of none = ""
name_of (some h) = h.name

checks_run :
    (name_of (guardrail_check dump) ≡ "credential_access")
    × (name_of (guardrail_check root_account) ≡ "privilege_expansion")
    × (name_of (guardrail_check spike) ≡ "")
unfolding guardrail_run
checks_run = (refl, refl, refl)

abbrev upload : String → Event ℕ
upload address = record spike {
  event_type = "data_upload";
  message = "uploaded an archive";
  fields = Entries.entry "dst" (Value.str address) Entries.end;
}

-- An address outside is seen, but not one in which the text of an internal prefix occurs.
exfil_run :
    (name_of (guardrail_check (upload "203.0.113.9")) ≡ "data_exfil")
    × (name_of (guardrail_check (upload "203.110.4.4")) ≡ "")
unfolding guardrail_run
exfil_run = (refl, refl)

abbrev cred_hit : GuardrailHit
cred_hit = record {
  code = "NON_SUPPRESSIBLE_CRED_ACCESS";
  name = "credential_access";
  reason = "access to credential material (shadow/SAM/ntds/lsass) is always escalated";
}

abbrev privilege_hit : GuardrailHit
privilege_hit = record {
  code = "NON_SUPPRESSIBLE_PRIVESC";
  name = "privilege_expansion";
  reason =
      "creation or elevation of a privileged account (uid-0/wheel/sudo/admin) is always escalated";
}

dump_hit : guardrail_check dump ≡ some cred_hit
unfolding guardrail_run
dump_hit = refl

cred-ne-privilege : cred_hit.name ≢ "privilege_expansion"
cred-ne-privilege = ground (arith, eq_iff "credential_access" "privilege_expansion")

triage-rail_example :
    ((triage agreeing "now" dump engine).0.decision ≡ escalate)
    × ((triage agreeing "now" dump engine).0.tier ≡ guardrail)
    × (triage agreeing "now" dump engine ≡ triage down "now" dump engine)
triage-rail_example =
    triage-rail cred_hit dump dump_hit cred-ne-privilege agreeing down "now" engine

triage-Advances_example : Advances agreeing "now" spike engine (triage agreeing "now" spike engine)
triage-Advances_example = triage-Advances agreeing "now" spike engine

triage-Balanced_example : Balanced (triage agreeing "now" spike engine).1.stats
triage-Balanced_example = triage-Balanced agreeing "now" spike engine (omega arith)

spike_outage : (triage down "now" spike engine).0.decision ≡ suppress
unfolding guardrail_run facts_run memory_run fact_rows_run prefilter_run triage_run
spike_outage = refl

triage-failing_example :
    (guardrail_check spike ≡ none)
    × ((Prefilter.prefilter spike engine.memory).0.decision ≡ suppress)
triage-failing_example =
    triage-failing down "now" spike engine (λ c s fs. ("timed out", refl)) spike_outage

wheel_downgrade :
    fact_downgrade privilege_hit root_account (wheel_fact.fact ∷ []) ≡ some wheel_fact.fact
unfolding guardrail_run
wheel_downgrade = refl

downgrade-Covers_example :
    (privilege_hit.name ≡ "privilege_expansion")
    × Among wheel_fact.fact (wheel_fact.fact ∷ [])
    × Covers root_account wheel_fact.fact
downgrade-Covers_example =
    downgrade-Covers privilege_hit root_account (wheel_fact.fact ∷ []) wheel_fact.fact
      wheel_downgrade

scope_check-verdict_of_example : (scope_check (scoped_fact wheel_fact) root_account).status ≡ (
    if scoped (scoped_fact wheel_fact)
    then verdict_of (checks (scoped_fact wheel_fact) root_account)
    else unscoped)
scope_check-verdict_of_example = scope_check-verdict_of (scoped_fact wheel_fact) root_account

-- 22:00 to 02:30 covers 02:05
in_window-elapsed_example : in_window 1320 150 125 ≡ leb (elapsed 1320 125) (elapsed 1320 150)
in_window-elapsed_example = in_window-elapsed 1320 150 125 (omega arith) (omega arith) (omega arith)

abbrev unnamed : Event ℕ
unnamed = record spike { id = ""; timestamp = "" }
