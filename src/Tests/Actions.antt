-- ===== src/Tests/Actions.antt =====
-- Runs of the response actuator, and its theorems at concrete inputs.
use arbiter_ai.Base.{ℕ, ◌≡◌, refl, true, false, none, some, [], ◌∷◌, ◌++◌, Among, inl}
use arbiter_ai.Values.{Value, Entries}
use arbiter_ai.Schema.{Event, Verdict, escalate}
use arbiter_ai.Respond.{
  ResponseAction, auto, plan, Shell, exited, timed_out, Responder, respond, respond_run,
}
use arbiter_ai.Respond.Catalog.{block_ip}
use arbiter_ai.Respond.Auto.{Autonomous, plan-Autonomous}
use arbiter_ai.Respond.Runs.{Completed, respond-dry, respond-Completed}
use arbiter_ai.Tests.Fixtures.{thousandths, root_account, benign_verdict}

abbrev brute_force : Event ℕ
brute_force = record root_account {
  event_type = "auth_bruteforce";
  fields = Entries.entry "src_ip" (Value.str "203.0.113.9") Entries.end;
}

abbrev raised : Verdict ℕ
raised = record benign_verdict { decision = escalate }

abbrev block : ResponseAction
block = record {
  kind = block_ip;
  target = "203.0.113.9";
  host = "web-01";
  ttl_minutes = some 60;
  command = "nft add element inet arbiter blocked { 203.0.113.9 timeout 60m }";
  reason = "brute force from 203.0.113.9; drop that source for 60m";
  mode = auto;
  event_id = "e1";
  signature = "auditd:auth_bruteforce:web-01";
  executed = false;
  dry_run = true;
  timestamp = "now";
}

abbrev willing : Shell
willing past c = exited 0

abbrev stuck : Shell
stuck past c = timed_out

abbrev rehearsal : Responder
rehearsal = record { dry_run = true; audit = []; ran = [] }

abbrev live : Responder
live = record { dry_run = false; audit = []; ran = [] }

-- A live responder runs the block; a shell that hangs leaves no audit entry; a suppression and an
-- unknown event type have no action.
respond_runs :
    (plan "now" brute_force raised ≡ block ∷ [])
    × (respond willing "now" brute_force raised live ≡ (
      some (record block { executed = true; dry_run = false } ∷ []),
      record {
        dry_run = false;
        audit = record block { executed = true; dry_run = false } ∷ [];
        ran = block.command ∷ [];
      },
    ))
    × (respond stuck "now" brute_force raised live
        ≡ (none, record { dry_run = false; audit = []; ran = block.command ∷ [] }))
    × (plan "now" brute_force benign_verdict ≡ [])
    × (plan "now" (record brute_force { event_type = "io_spike" }) raised ≡ [])
unfolding respond_run
respond_runs = (refl, refl, refl, refl, refl)

block-planned : Among block (plan "now" brute_force raised)
unfolding respond_run
block-planned = inl refl

plan-Autonomous_example : Autonomous "now" brute_force raised block
plan-Autonomous_example = plan-Autonomous "now" brute_force raised block block-planned refl

respond-dry_example : respond stuck "now" brute_force raised rehearsal ≡ (
  some (plan "now" brute_force raised),
  record rehearsal { audit = [] ++ plan "now" brute_force raised },
)
respond-dry_example = respond-dry stuck "now" brute_force raised rehearsal refl

respond-Completed_example :
    Completed (plan "now" brute_force raised) live (respond willing "now" brute_force raised live)
respond-Completed_example =
    respond-Completed willing "now" brute_force raised live refl (λ past c. (0, refl))
