-- ===== src/Examples/Dashboard.antt =====
-- Examples of src/service/Dashboard.cpp.
use thread_haul_daemon.Base.{
  ℕ, ◌≡◌, ◌⊎◌, true, false, List, [], ◌∷◌, ◌++◌, none, some, codes, eq_text, nat_real,
}
use thread_haul_daemon.Telemetry.Safety.{Queries, local_system}
use thread_haul_daemon.Service.Session.{Limits, Guard}
use thread_haul_daemon.Service.Dashboard.{HttpRequest, authorized, command_request, handle}
use thread_haul_daemon.Service.Dashboard.Gate.{IsAdmitted, IsHarmless, handle-IsAdmitted}
use thread_haul_daemon.Service.Dashboard.Confirm.{IsAnswered, command_request_lem}
use thread_haul_daemon.Examples.Daemon.{os, api, host, running, app}

abbrev queries : Queries
queries = record {
  current_pid = 99;
  same_name = eq_text;
  image_of = λ pid. some [];
  token_of = λ pid. some pid;
  user_of = λ token. some (18 ∷ []);
  well_known_sid = λ a. elim a [ local_system ↦ some (18 ∷ []) | _ ↦ none ];
  equal_sid = eq_text;
  session_of = λ pid. some 1;
  windows_directory = codes "C:/Windows";
}

abbrev limits : Limits
limits = record {
  idle = 1800;
  absolute = 43200;
  max_failures = 5;
  failure_window = 60;
  lockout = 60;
}

abbrev guard : Guard
guard = record { key = codes "key"; issued = 5; last_use = 5; locked_until = 0; failures = [] }

abbrev foreign : HttpRequest
foreign = record {
  method = codes "POST";
  path = codes "/api/command";
  headers = (codes "host", codes "evil.example") ∷ [];
  offset = [];
  body = [];
}

handle-IsAdmitted_example :
    let s =
      handle os api host queries
        (λ t. none)
        (λ t. true)
        []
        []
        (codes "8787")
        limits
        6
        foreign
        guard
        running
        0 in
    (IsAdmitted (codes "8787") limits 6 foreign guard ⊎ IsHarmless running 0 s)
    × (authorized (codes "8787") foreign ≡ false → s.guard ≡ guard)
handle-IsAdmitted_example =
    handle-IsAdmitted os api host queries (λ t. none) (λ t. true) [] [] (codes "8787") limits 6
      foreign guard running 0

-- A vertical tab and more after the name.
abbrev tail : List ℕ
tail = 11 ∷ codes "x"

command_request_lem_example :
    IsAnswered os api host queries
      (λ t. none)
      (λ t. true)
      (app ∷ [])
      (app ∷ [])
      (some (codes "suspend"))
      (some (codes "app" ++ tail))
      (some false)
      guard
      running
      0
      (command_request os api host queries
        (λ t. none)
        (λ t. true)
        (app ∷ [])
        (app ∷ [])
        (some (codes "suspend"))
        (some (codes "app" ++ tail))
        (some false)
        guard
        running
        0)
command_request_lem_example =
    command_request_lem os api host queries (λ t. none) (λ t. true) (app ∷ []) (app ∷ [])
      (some (codes "suspend")) (some (codes "app" ++ tail)) (some false) guard running 0
