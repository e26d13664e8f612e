-- ===== src/Approvals/Tests.antt =====
-- Runs of the approvals on a sheet whose rows a person has let go before.
use ai_agents_carrier.Base.{
  String, ℕ, ◌≤◌, Bool, true, false, Option, some, List, [], ◌∷◌, ◌≡◌, refl, ◌⊎◌, arith,
}
use ai_agents_carrier.Approvals.Case
use ai_agents_carrier.Approvals.Case.{ApprovalCase, MetaLlmVerdict}
use ai_agents_carrier.Base.{◌&&◌, none, length, filter}
use ai_agents_carrier.Base.Json.{end}
use ai_agents_carrier.Auth.Principal.{Subject}
use ai_agents_carrier.Visibility.Model.{Kind, Visibility, Resource}
use ai_agents_carrier.Visibility.Guard.{Platform}
use ai_agents_carrier.Approvals.Backend.{Backend, get, history, newest_first, take}
use ai_agents_carrier.Approvals.Listing.{
  Query, matches, drop, list_cases, of_operation, count, approval_exclusions, approval_case_visible,
}
use ai_agents_carrier.Approvals.Hiding.{list_cases-exclusions}
use ai_agents_carrier.Approvals.Opening.{Service, Request, decide_case, threshold}
use ai_agents_carrier.Approvals.Deciding.{Answer, cancel_open_for_run}
use ai_agents_carrier.Approvals.Moves
use ai_agents_carrier.Approvals.Moves.{Move, after, closings}
use ai_agents_carrier.Approvals.Once.{closed_once}
use ai_agents_carrier.Approvals.Stays.{IsVetoed, opens, closed_stays}
use ai_agents_carrier.Approvals.Streak.{IsBacked, decide_case-IsBacked, threshold_beyond_window}
use ai_agents_carrier.Approvals.Cancelling.{IsDrained, cancel_open_for_run_ends}

abbrev verdict : ApprovalCase → List ApprovalCase → Bool → Option MetaLlmVerdict
verdict case past alone = some record {
  decision = Case.MetaDecision.approve;
  reason = "as before";
  model = "m";
  autonomous = false;
  history_size = 0;
}

abbrev service : Service
service = record {
  auto_decide_threshold = 1;
  veto_window_seconds = 60;
  probation_runs = 5;
  meta_llm_enabled = λ workflow. true;
  ask = verdict;
}

abbrev cautious : Service
cautious = record service { auto_decide_threshold = 26 }

abbrev request : String → ℕ → Request
request id now = record {
  id = id;
  now = now;
  workflow_id = "clean";
  run_id = "r1";
  step_id = some "delete";
  surface = Case.CallSurface.workflow;
  datasource_id = "sheet";
  operation = "remove";
  affected_rows = 3;
  generated_write = false;
}

abbrev yes : Answer
yes = record {
  now = 5;
  approved = true;
  source = Case.DecisionSource.ui;
  by_name = "Ann";
  by_id = "u1";
  reason = "fine";
}

abbrev empty : Backend
empty = record { cases = []; claimed = [] }

abbrev approved_once : Backend
approved_once = after (Moves.answer yes "a") (after (Moves.hold service (request "a" 1)) empty)

abbrev decided_alone : Backend
decided_alone = after (Moves.hold service (request "b" 10)) approved_once

closed_once_example :
    closings "a"
      (Moves.hold service (request "a" 1) ∷ Moves.answer yes "a" ∷ Moves.drop 6 "" "a" ∷ [])
      empty
    ≤ 1
closed_once_example =
    closed_once "a"
      (Moves.hold service (request "a" 1) ∷ Moves.answer yes "a" ∷ Moves.drop 6 "" "a" ∷ []) empty

decide_case-IsBacked_example : IsBacked service (request "b" 10) approved_once
unfolding decide_case history after Case.history_key_for
decide_case-IsBacked_example = decide_case-IsBacked service (request "b" 10) approved_once refl

threshold_beyond_window_example :
    Case.is_pending (decide_case cautious (request "b" 10) approved_once) ≡ true
unfolding threshold
threshold_beyond_window_example =
    threshold_beyond_window cautious (request "b" 10) approved_once (omega arith)

closed_stays_example :
    (get "b" (after (Moves.take_back 20 "Bob" "b") decided_alone)
      ≡ some (decide_case service (request "b" 10) approved_once))
    ⊎ IsVetoed "b"
        (Moves.take_back 20 "Bob" "b")
        decided_alone
        (decide_case service (request "b" 10) approved_once)
unfolding get after history Case.history_key_for opens
closed_stays_example =
    closed_stays "b" (Moves.take_back 20 "Bob" "b") decided_alone
      (decide_case service (request "b" 10) approved_once) refl refl refl

abbrev two_open : Backend
two_open =
    after (Moves.hold service (request "b" 2)) (after (Moves.hold service (request "a" 1)) empty)

cancel_open_for_run_ends_example :
    (result : List ApprovalCase × Backend) × (cancel_open_for_run 9 "r1" "stopped" two_open
      ≡ some result)
    × IsDrained "r1" two_open result
unfolding after history Case.history_key_for
cancel_open_for_run_ends_example = cancel_open_for_run_ends 9 "r1" "stopped" two_open refl refl

-- a private workflow, whose case somebody else does not see
abbrev clean : Resource
clean = record {
  id = "clean";
  name = "clean";
  kind = Kind.workflow;
  readonly = false;
  visibility = Visibility.private;
  visibility_set = true;
  owner_id = some "ann";
  owner_name = none;
  team_id = some "red";
  team_id_set = true;
  grants = [];
  body = end;
}

abbrev platform : Platform
platform = record {
  agents = none;
  datasources = some [];
  scripts = none;
  workflows = some (clean ∷ []);
  directory = none;
  graphql_writes = λ v. false;
}

abbrev bob : Subject
bob = record {
  id = some "bob";
  name = none;
  is_super_admin = false;
  team_id = some "red";
  team_role = none;
}

abbrev anything : Query
anything = record {
  status = none;
  workflow_id = none;
  datasource_id = none;
  run_id = none;
  operation = none;
}

hidden_from_bob :
    length (list_cases anything (approval_exclusions platform (some bob)) 50 0 approved_once) ≡ 0
unfolding list_cases approval_exclusions after history
hidden_from_bob = refl

seen_by_all :
    length (list_cases anything (approval_exclusions platform none) 50 0 approved_once) ≡ 1
unfolding list_cases approval_exclusions after history
seen_by_all = refl

list_cases-exclusions_example :
    (list_cases anything (approval_exclusions platform (some bob)) 50 0 approved_once
      ≡ take 50 (
          drop 0 (
            newest_first
              (λ c. c.created_at)
              (filter
                (λ c. matches anything c && approval_case_visible platform (some bob) c)
                approved_once.cases))))
    × (count anything (approval_exclusions platform (some bob)) approved_once
        ≡ length (
            filter
              (λ c.
                matches anything c
                && (of_operation anything c && approval_case_visible platform (some bob) c))
              approved_once.cases))
list_cases-exclusions_example =
    list_cases-exclusions platform (some bob) anything 50 0 approved_once refl refl
