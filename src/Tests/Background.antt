-- ===== src/Tests/Background.antt =====
-- The stored sessions, the tasks, their scheduler and the linking of accounts, at concrete inputs.
use home_gate.InviteAccountLinking.Linked.{owned, find_by_id-link_found}
use home_gate.Tests.Fixtures.{server, first_account, world}
use home_gate.InviteAccountLinking.Kept.{Stored, handle_invite_claimed-Keeps}
use home_gate.InviteAccountLinking.{link_found, handle_invite_claimed}
use home_gate.SchedulerService.Updating.{asked, OthersKept, Reports, update_task-Follows}
use home_gate.SchedulerService.Applying.{Follows}
use home_gate.SchedulerService.{UpdateTaskConfig, TaskConfigResponse, update_task}
use home_gate.TaskService.Runs.{runs_of, run_task-returns}
use home_gate.TaskService.{run_task}
use home_gate.SessionStore.Refinement.{changed_at, view, IsUnshared, get-set}
use home_gate.SessionStore.{SessionData, session_expiration, set}
use home_gate.Model.{purge_old_logs, purge_old_task_runs, InviteAccount, ApplicationUser, World}
use home_gate.Effects.{M, final, plain, returned, threw}
use home_gate.Common.{
  ◌+◌, String, ◌≡◌, refl, Bool, true, false, Option, none, some, [], ◌∷◌, leb, if◌then◌else◌,
}
use home_gate.Repositories.Subscriptions
use home_gate.Repositories.Accounts
use text.Mathlib.TextLemmas.{append_cancel_left}
use home_gate.Repositories.SystemMetadata

abbrev bobs_session : SessionData
bobs_session = record {
  cookie_expires = some 9000;
  original_max_age = none;
  max_age = none;
  user_id = some "bob";
  username = some "bob";
  ip_address = none;
  user_agent = none;
  rest = "";
}

abbrev to_json : SessionData → String
to_json d = "{}"

abbrev from_json : String → Option SessionData
from_json text = some bobs_session

-- The hash of the small server puts a text before the id.
b-IsUnshared : IsUnshared server to_json from_json world "b"
b-IsUnshared = λ other_sid e. append_cancel_left "sha256:" other_sid "b" e

get-set_example :
    view server to_json from_json world
      (final (set server to_json from_json "b" bobs_session world))
    ≡ changed_at "b"
        (if leb (session_expiration 1000 bobs_session) 1000 then none else some bobs_session)
        (view server to_json from_json world world)
get-set_example = get-set server to_json from_json world "b" bobs_session b-IsUnshared refl

abbrev failing_work : M Bool
failing_work w = threw (plain "no connection") w

run_task-returns_example :
    (run_task server purge_old_logs failing_work world
      ≡ returned false (final (run_task server purge_old_logs failing_work world)))
    × (runs_of server purge_old_logs (final (run_task server purge_old_logs failing_work world))
        ≡ runs_of server purge_old_logs world + 1)
run_task-returns_example = run_task-returns server purge_old_logs failing_work world

abbrev started_world : World
started_world = record world { discovered = purge_old_logs ∷ purge_old_task_runs ∷ [] }

abbrev request : UpdateTaskConfig
request = record {
  enabled = some false;
  run_on_startup = none;
  cron_expression = some "*/5 * * * *";
}

update_task-Follows_example :
    (v : World) × (r : TaskConfigResponse) × (update_task server purge_old_logs request
        started_world
      ≡ returned r v)
    × Reports server purge_old_logs request started_world r
    × (SystemMetadata.get server v purge_old_logs
        ≡ asked server purge_old_logs request started_world)
    × Follows server purge_old_logs (asked server purge_old_logs request started_world) v
    × OthersKept server purge_old_logs request started_world v
update_task-Follows_example =
    update_task-Follows server purge_old_logs request started_world refl refl

abbrev on_films : InviteAccount
on_films = record {
  id = "ia1";
  invite_id = "i1";
  service_id = 1;
  service_name = "jellyfin";
  username = some "eve";
  email = none;
  account_id = some "v1";
}

found : Accounts.find_by_id server "a1" world ≡ some first_account
unfolding Accounts.find_by_id
found = refl

handle_invite_claimed-Keeps_example :
    (v : World) × (handle_invite_claimed server 30 "eve" (on_films ∷ []) world ≡ returned tt v)
    × Stored server 30 "a1" first_account v
handle_invite_claimed-Keeps_example =
    handle_invite_claimed-Keeps server 30 "a1" first_account "eve" (on_films ∷ []) world found

abbrev vendor_user : ApplicationUser
vendor_user = record { id = "v1"; username = "ann"; is_active = true; is_admin = false }

unsubscribed : Subscriptions.find server "ann" 1 world ≡ none
unfolding Subscriptions.find
unsubscribed = refl

unlinked : Accounts.find_by_external_id server 1 "v1" world ≡ []
unfolding Accounts.find_by_external_id
unlinked = refl

find_by_id-link_found_example :
    (v : World) × (link_found server 30 "ann" 1 vendor_user world ≡ returned tt v)
    × (Accounts.find_by_id server "ir" v ≡ some (owned server 30 "ann" 1 vendor_user world))
find_by_id-link_found_example =
    find_by_id-link_found server 30 "ann" 1 vendor_user world unsubscribed unlinked refl
