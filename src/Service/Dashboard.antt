-- ===== src/Service/Dashboard.antt =====
-- src/service/Dashboard.cpp: `Authorized` and `Handle`, and `SafetyOf` of src/service/Daemon.cpp. The
-- JSON parser and `std::stoll` are arguments; a reply that only reads is named, not written out.
pub mod Gate
pub mod Confirm
use thread_haul_daemon.Base.{
  ℕ, Bool, true, false, not, ◌&&◌, ◌||◌, List, [], ◌∷◌, ◌++◌, Option, none, some, ◌==◌,
  if◌then◌else◌, any_of, codes, eq_text, starts_with, is_some, Real, ltb,
}
use thread_haul_daemon.Actuator.Os.{Os}
use thread_haul_daemon.Actuator.Manager.{always_protected_names}
use thread_haul_daemon.Telemetry.Safety.{
  ProcessSafety, normal, service, system, essential, Queries, classify_process,
}
use thread_haul_daemon.Config.Json.{Json, boolean, text, object, Members, find_member}
use thread_haul_daemon.Config.Fields.{is_empty}
use thread_haul_daemon.Service.AutoProtect.{ProtectApi}
use thread_haul_daemon.Service.Session.{
  Verdict, valid, invalid, expired, locked, Limits, Guard, check, revoke,
}
use thread_haul_daemon.Service.Daemon.{Host, Daemon, ProcessEntry, Ran}
use thread_haul_daemon.Service.Daemon.Commands.{Reply, thrown, Handled, all_digits, handle_command}

-- src/service/HttpServer.h
pub record HttpRequest : Type 0 where
  pub method : List ℕ
  pub path : List ℕ
  pub headers : List (List ℕ × List ℕ)
  -- what `QueryParam("offset")` returns
  pub offset : List ℕ
  pub body : List ℕ

-- An empty text for a header that is not there.
unfoldable pub header_in : List (List ℕ × List ℕ) → List ℕ → List ℕ
header_in [] name = []
header_in ((key, value) ∷ rest) name = if eq_text key name then value else header_in rest name

abbrev pub header : HttpRequest → List ℕ → List ℕ
header req name = header_in req.headers name

pub data Response : Type 0 where
  -- a status of 400 or above
  error : ℕ → Response
  -- `ServeFile`
  page : List ℕ → Response
  signed_out overview processes : Response
  -- `ReadLog` from an offset
  log_from : List ℕ → Response
  needs_confirmation : ProcessSafety → Response
  commanded : Reply → Response
  -- the call of `SetRole` that is made
  set_role : List ℕ → List ℕ → Bool → Response

pub record Served (D W : Type 0) : Type 0 where
  pub response : Response
  pub guard : Guard
  pub ran : Ran D W

-- The port in decimal.
unfoldable pub authorized : List ℕ → HttpRequest → Bool
unfolding header_in
authorized port req =
    let host = header req (codes "host") in
    let origin = header req (codes "origin") in
    (eq_text host (codes "127.0.0.1:" ++ port) || eq_text host (codes "localhost:" ++ port))
    && (is_empty origin
        || eq_text origin (codes "http://127.0.0.1:" ++ port)
        || eq_text origin (codes "http://localhost:" ++ port))

-- `static_cast<int>(level)`
abbrev pub severity : ProcessSafety → ℕ
severity normal = 0
severity service = 1
severity system = 2
severity essential = 3

abbrev pub worse : ProcessSafety → ProcessSafety → ProcessSafety
worse a b = if ltb (severity b) (severity a) then a else b

module _ (q : Queries) (host : Host) where
  -- Does the process match the target?
  abbrev pub matches : List ℕ → ProcessEntry → Bool
  matches target e =
      if not (is_empty target) && all_digits target
      then eq_text (host.decimal e.pid) target
      else host.same_name e.name (host.widen target)

  unfoldable pub worst_of : List ℕ → ProcessSafety → List ProcessEntry → ProcessSafety
  worst_of target worst [] = worst
  worst_of target worst (e ∷ es) =
      let level = (classify_process q e.pid e.name always_protected_names).level in
      worst_of target (if matches target e then worse level worst else worst) es

  unfoldable pub safety_of : List ProcessEntry → List ℕ → ProcessSafety
  unfolding worst_of
  safety_of snapshot target =
      let worst = worst_of target normal snapshot in
      if not (not (is_empty target) && all_digits target)
        && any_of (λ n. host.same_name n (host.widen target)) always_protected_names
      then essential
      else worst

-- `body.value(key, "")`: `none` is the exception for a value that is no text.
unfoldable pub text_value : {D : Type 0} → List ℕ → Members D → Option (List ℕ)
text_value key ms = elim (find_member key ms) [
  | none ↦ some []
  | some v ↦ elim v [ text t ↦ some t | _ ↦ none ]
]

-- `body.value(key, false)`
unfoldable pub bool_value : {D : Type 0} → List ℕ → Members D → Option Bool
bool_value key ms = elim (find_member key ms) [
  | none ↦ some false
  | some v ↦ elim v [ boolean b ↦ some b | _ ↦ none ]
]

-- `find_first_of(" \t\r\n")`
abbrev pub has_blank : List ℕ → Bool
has_blank t = any_of (λ c. c == b' ' || c == 9 || c == 13 || c == 10) t

abbrev pub is_verb : List ℕ → Bool
is_verb v =
    eq_text v (codes "throttle")
    || eq_text v (codes "suspend")
    || eq_text v (codes "resume")
    || eq_text v (codes "release")
    || eq_text v (codes "exempt")

-- A command that a person has to confirm where the target is a service or a part of Windows.
abbrev pub is_risky : List ℕ → Bool
is_risky v =
    not (eq_text v (codes "release"))
    && not (eq_text v (codes "resume"))
    && not (eq_text v (codes "exempt"))

abbrev pub asks : ProcessSafety → Bool
asks system = true
asks service = true
asks _ = false

-- The status for an exception in the handler.
abbrev pub caught : Reply → Response
caught thrown = error 500
caught r = commanded r

module _ {D W : Type 0} ⦃real : Real D⦄ (os : Os W) (api : ProtectApi W) (host : Host) (q : Queries)
    (parse : List ℕ → Option (Json D)) (stoll_throws : List ℕ → Bool)
    (seen snapshot : List ProcessEntry) where
  abbrev pub served : Response → Guard → Daemon D → W → Served D W
  served r g d w = record {
    response = r;
    guard = g;
    ran = record { daemon = d; world = w; notes = [] };
  }

  -- `HandleCommand` of the verb and the target; it is no `stop`, which alone reads the first argument.
  unfoldable pub execute : List ℕ → List ℕ → Guard → Daemon D → W → Served D W
  unfolding handle_command
  execute verb target g d w =
      let h = handle_command os api host true snapshot (verb ++ b' ' ∷ target) d w in
      record { response = caught h.reply; guard = g; ran = h.ran }

  -- The target was checked; `none` is where reading `confirm` throws. `SafetyOf` takes a snapshot of
  -- its own.
  unfoldable pub judge : List ℕ → List ℕ → Option Bool → Guard → Daemon D → W → Served D W
  unfolding execute safety_of
  judge verb target none g d w =
      if is_risky verb then served (error 500) g d w else execute verb target g d w
  judge verb target (some confirmed) g d w =
      let level = safety_of q host seen target in
      if is_risky verb && not confirmed && asks level
      then served (needs_confirmation level) g d w
      else execute verb target g d w

  unfoldable pub command_request :
      Option (List ℕ) → Option (List ℕ) → Option Bool → Guard → Daemon D → W → Served D W
  unfolding judge
  command_request (some verb) (some target) confirm g d w =
      if not (is_verb verb)
      then served (error 400) g d w
      else if is_empty target || has_blank target
      then served (error 400) g d w
      else judge verb target confirm g d w
  command_request (some verb) none confirm g d w = served (error 500) g d w
  command_request none target confirm g d w = served (error 500) g d w

  unfoldable pub role_request :
      Option (List ℕ) → Option (List ℕ) → Option Bool → Guard → Daemon D → W → Served D W
  role_request (some name) (some role) (some confirm) g d w =
      served (set_role name role confirm) g d w
  role_request _ _ _ g d w = served (error 500) g d w

  unfoldable pub posted_members : Bool → Members D → Guard → Daemon D → W → Served D W
  unfolding command_request role_request text_value bool_value
  posted_members is_command ms g d w =
      let flag = bool_value (codes "confirm") ms in
      if is_command
      then command_request (text_value (codes "command") ms) (text_value (codes "target") ms) flag g
          d w
      else role_request (text_value (codes "name") ms) (text_value (codes "role") ms) flag g d w

  -- The body must be a JSON object.
  unfoldable pub posted : Bool → Option (Json D) → Guard → Daemon D → W → Served D W
  unfolding posted_members
  posted is_command (some (object ms)) g d w = posted_members is_command ms g d w
  posted is_command _ g d w = served (error 400) g d w

  -- A request to `/api/` whose key is valid.
  unfoldable pub handle_admitted : HttpRequest → Guard → Daemon D → W → Served D W
  unfolding posted
  handle_admitted req g d w =
      let get = eq_text req.method (codes "GET") in
      let post = eq_text req.method (codes "POST") in
      let is_command = eq_text req.path (codes "/api/command") in
      if post && eq_text req.path (codes "/api/logout")
      then served signed_out (revoke g) d w
      else if get && eq_text req.path (codes "/api/status")
      then served overview g d w
      else if get && eq_text req.path (codes "/api/processes")
      then served processes g d w
      else if get && eq_text req.path (codes "/api/log")
      then served
          (if not (is_empty req.offset) && stoll_throws req.offset
            then error 400
            else log_from req.offset)
          g d w
      else if post && (is_command || eq_text req.path (codes "/api/role"))
      then (if starts_with (header req (codes "content-type")) (codes "application/json")
          then posted is_command (parse req.body) g d w
          else served (error 400) g d w)
      else served (error (if get || post then 404 else 405)) g d w

  unfoldable pub handle_checked : HttpRequest → Verdict × Guard → Daemon D → W → Served D W
  unfolding handle_admitted
  handle_checked req (valid, g) d w = handle_admitted req g d w
  handle_checked req (locked, g) d w = served (error 429) g d w
  handle_checked req (expired, g) d w = served (error 401) g d w
  handle_checked req (invalid, g) d w = served (error 401) g d w

  -- `Handle`
  unfoldable pub handle : List ℕ → Limits → ℕ → HttpRequest → Guard → Daemon D → W → Served D W
  unfolding authorized handle_checked check
  handle port limits now req g d w =
      if not (authorized port req)
      then served (error 403) g d w
      else if not (starts_with req.path (codes "/api/"))
      then served
          (if eq_text req.method (codes "GET")
            then page (if eq_text req.path (codes "/") then codes "/index.html" else req.path)
            else error 405)
          g d w
      else handle_checked req (check limits (header req (codes "x-threadhaul-token")) now g) d w
