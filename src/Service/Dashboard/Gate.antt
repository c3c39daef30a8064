-- ===== src/Service/Dashboard/Gate.antt =====
-- What a request to the dashboard may do (src/service/Dashboard.cpp).
use thread_haul_daemon.Base.{
  ℕ, ◌≡◌, ◌⊎◌, inl, inr, refl, Bool, true, false, not, List, Option, if◌then◌else◌, codes, eq_text,
  starts_with, Real, by_test, either_way, Bool-cases,
}
use thread_haul_daemon.Actuator.Os.{Os}
use thread_haul_daemon.Telemetry.Safety.{Queries}
use thread_haul_daemon.Config.Json.{Json}
use thread_haul_daemon.Service.AutoProtect.{ProtectApi}
use thread_haul_daemon.Service.Session.{
  Verdict, valid, invalid, expired, locked, Limits, Guard, check,
}
use thread_haul_daemon.Service.Daemon.{Host, Daemon, ProcessEntry}
use thread_haul_daemon.Service.Dashboard.{
  HttpRequest, Response, error, page, Served, header, authorized, handle_checked, handle,
}

-- An error, or one of the static files.
abbrev pub is_public : Response → Bool
is_public (error status) = true
is_public (page path) = true
is_public _ = false

-- The request came to this server, from no other site, with a key that is valid now.
abbrev pub IsAdmitted : List ℕ → Limits → ℕ → HttpRequest → Guard → Type 0
IsAdmitted port limits now req g =
    (authorized port req ≡ true)
    × ((check limits (header req (codes "x-threadhaul-token")) now g).0 ≡ valid)

-- Nothing but an error or a file is served, and nothing happens.
abbrev pub IsHarmless : {D W : Type 0} → Daemon D → W → Served D W → Type 0
IsHarmless d w s = (is_public s.response ≡ true) × (s.ran.daemon ≡ d) × (s.ran.world ≡ w)

module _ {D W : Type 0} ⦃real : Real D⦄ (os : Os W) (api : ProtectApi W) (host : Host) (q : Queries)
    (parse : List ℕ → Option (Json D)) (stoll_throws : List ℕ → Bool)
    (seen snapshot : List ProcessEntry) where
  handle_checked-IsHarmless :
      (req : HttpRequest) (c : Verdict × Guard) (d : Daemon D) (w : W)
      → (c.0 ≡ valid)
        ⊎ IsHarmless d w (handle_checked os api host q parse stoll_throws seen snapshot req c d w)
  unfolding handle_checked
  handle_checked-IsHarmless req (valid, g) d w = inl refl
  handle_checked-IsHarmless req (locked, g) d w = inr (refl, refl, refl)
  handle_checked-IsHarmless req (expired, g) d w = inr (refl, refl, refl)
  handle_checked-IsHarmless req (invalid, g) d w = inr (refl, refl, refl)

  public_page :
      (req : HttpRequest)
      → is_public (
          if eq_text req.method (codes "GET")
          then page (if eq_text req.path (codes "/") then codes "/index.html" else req.path)
          else error 405)
        ≡ true
  public_page req =
      either_way (λ r. is_public r ≡ true) (eq_text req.method (codes "GET")) refl refl

  -- Either a request is addressed to this server, comes from no other site and has a key that is
  -- valid at that time, or it gets an error or a static file and changes nothing in the service; and
  -- one that fails the first two tests does not touch the session either.
  pub handle-IsAdmitted :
      (port : List ℕ) (limits : Limits) (now : ℕ) (req : HttpRequest) (g : Guard) (d : Daemon D)
      (w : W)
      → let s = handle os api host q parse stoll_throws seen snapshot port limits now req g d w in
        (IsAdmitted port limits now req g ⊎ IsHarmless d w s)
        × (authorized port req ≡ false → s.guard ≡ g)
  unfolding handle
  handle-IsAdmitted port limits now req g d w = elim (Bool-cases (authorized port req)) [
    | inr no_ ↦ rw no_ (inr (refl, refl, refl), λ _. refl)
    | inl yes_ ↦
        let P : Served D W → Type 0 = λ s. IsAdmitted port limits now req g ⊎ IsHarmless d w s in
        let key = header req (codes "x-threadhaul-token") in
        (
          by_test P (not (authorized port req)) (λ no_. cc (rw yes_ at no_))
              (λ _.
                either_way P (not (starts_with req.path (codes "/api/")))
                  (inr (public_page req, refl, refl))
                  (elim (handle_checked-IsHarmless req (check limits key now g) d w) [
                    | inl good ↦ inl (yes_, good)
                    | inr nothing ↦ inr nothing
                  ])),
          λ no_. cc (yes_, no_),
        )
  ]
