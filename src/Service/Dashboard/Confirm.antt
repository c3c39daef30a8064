-- ===== src/Service/Dashboard/Confirm.antt =====
-- Which target a confirmed command acts on (src/service/Dashboard.cpp, src/service/Daemon.cpp).
use thread_haul_daemon.Base.{
  ◌⊎◌, inl, inr, eq_text, codes, none, subst, some_inj, ℕ, ◌≡◌, ◌≢◌, refl, ap, sym, ◌∙◌, Bool, true,
  false, not, ◌&&◌, ◌||◌, List, [], ◌∷◌, ◌++◌, Option, some, Real, by_test, arith,
}
use thread_haul_daemon.Actuator.Os.{Os}
use thread_haul_daemon.Telemetry.Safety.{Queries}
use thread_haul_daemon.Config.Json.{Json}
use thread_haul_daemon.Config.Fields.{is_empty}
use thread_haul_daemon.Service.AutoProtect.{ProtectApi}
use thread_haul_daemon.Service.Session.{Guard}
use thread_haul_daemon.Service.Daemon.{Host, Daemon, ProcessEntry}
use thread_haul_daemon.Service.Daemon.Commands.{
  next_word, verb_in, target_in, handle_command, Handled,
}
use thread_haul_daemon.Service.Daemon.Commands.Words.{
  IsWord, next_word-solid, IsFirstWord, next_word-IsFirstWord, line_lem, known-IsWord, text-IsWord,
}
use thread_haul_daemon.Service.Dashboard.{
  caught, Served, safety_of, is_verb, is_risky, asks, has_blank, execute, judge, command_request,
}

abbrev verbs : List (List ℕ)
verbs = codes "throttle" ∷ codes "suspend" ∷ codes "resume" ∷ codes "release" ∷ codes "exempt" ∷ []

is_verb-known :
    (a b c d e : Bool) → (a || b || c || d || e) ≡ (a || (b || (c || (d || (e || false)))))
is_verb-known a b c d e = ground arith

verb-IsWord : (v : List ℕ) → is_verb v ≡ true → IsWord v
verb-IsWord v h =
    known-IsWord v verbs
      (sym (
          is_verb-known (eq_text v (codes "throttle")) (eq_text v (codes "suspend"))
            (eq_text v (codes "resume")) (eq_text v (codes "release")) (eq_text v (codes "exempt")))
        ∙ h)
      (
        text-IsWord (codes "throttle") (λ e. cc) refl,
        (
          text-IsWord (codes "suspend") (λ e. cc) refl,
          (
            text-IsWord (codes "resume") (λ e. cc) refl,
            (
              text-IsWord (codes "release") (λ e. cc) refl,
              (text-IsWord (codes "exempt") (λ e. cc) refl, tt),
            ),
          ),
        ),
      )

-- Why a command may be carried out: it was confirmed, or none needs to confirm it.
abbrev pub IsAllowed : Option Bool → Bool → Bool → Type 0
IsAllowed confirm risky asked = (confirm ≡ some true) ⊎ (risky ≡ false) ⊎ (asked ≡ false)

not-false : (b : Bool) → not b ≡ false → b ≡ true
not-false b h = ground arith

or_true : (a b : Bool) → (a || b) ≡ true → (a ≡ true) ⊎ (b ≡ true)
or_true true b h = inl refl
or_true false b h = inr h

allowed : (c r a : Bool) → (r && not c && a) ≡ false → IsAllowed (some c) r a
allowed true r a e = inl refl
allowed false false a e = inr (inl refl)
allowed false true false e = inr (inr refl)
allowed false true true e = cc

asked_parts : (c r a : Bool) → (r && not c && a) ≡ true → (r ≡ true) × (c ≡ false) × (a ≡ true)
asked_parts c r a e = ground arith

module _ {D W : Type 0} ⦃real : Real D⦄ (os : Os W) (api : ProtectApi W) (host : Host) (q : Queries)
    (parse : List ℕ → Option (Json D)) (stoll_throws : List ℕ → Bool)
    (seen snapshot : List ProcessEntry) where
  same_line :
      (a b : List ℕ) (d : Daemon D) (w : W)
      → verb_in a ≡ verb_in b
      → target_in a ≡ target_in b
      → handle_command os api host true snapshot a d w
        ≡ handle_command os api host true snapshot b d w
  unfolding handle_command
  same_line a b d w v t = rw (v, t) refl

  -- Why a command is not carried out: no known command, no target or a blank in it, or a risky
  -- command that is not confirmed, where `confirm` is no Boolean or the target asks for it.
  abbrev pub IsRefused : List ℕ → List ℕ → Option Bool → Type 0
  IsRefused verb target confirm =
      (is_verb verb ≡ false)
      ⊎ (is_empty target ≡ true)
      ⊎ (has_blank target ≡ true)
      ⊎ ((is_risky verb ≡ true)
          × (confirm ≢ some true)
          × (confirm ≢ none → asks (safety_of q host seen target) ≡ true))

  -- Either nothing happens, for one of the reasons, or the command is carried out on the first word
  -- of its target.
  abbrev pub IsAnswered :
      Option (List ℕ) → Option (List ℕ) → Option Bool → Guard → Daemon D → W → Served D W → Type 0
  IsAnswered command target confirm g d w s =
      ((s.ran.daemon ≡ d)
        × (s.ran.world ≡ w)
        × ((v t : List ℕ) → command ≡ some v → target ≡ some t → IsRefused v t confirm))
      ⊎ ((v : List ℕ) × (t : List ℕ) × (word : List ℕ) × (command ≡ some v)
          × (target ≡ some t)
          × IsFirstWord word t
          × IsAllowed confirm (is_risky v) (asks (safety_of q host seen t))
          × (s ≡ execute os api host q parse stoll_throws seen snapshot v word g d w))

  refuse :
      (verb target : List ℕ) (confirm : Option Bool)
      → IsRefused verb target confirm
      → (v t : List ℕ) → some verb ≡ some v
      → some target ≡ some t
      → IsRefused v t confirm
  refuse verb target confirm h v t e f =
      subst (λ x. IsRefused x t confirm) (some_inj e)
        (subst (λ x. IsRefused verb x confirm) (some_inj f) h)

  execute-word :
      (verb target : List ℕ) (g : Guard) (d : Daemon D) (w : W)
      → is_verb verb ≡ true
      → execute os api host q parse stoll_throws seen snapshot verb target g d w
        ≡ execute os api host q parse stoll_throws seen snapshot verb (next_word target).0 g d w
  unfolding execute
  execute-word verb target g d w known =
      let word = (next_word target).0 in
      let hv = verb-IsWord verb known in
      let long = line_lem verb target hv in
      let short = line_lem verb word hv in
      let again = next_word-solid word (next_word-IsFirstWord target).solid in
      ap (λ (h : Handled D W). record { response = caught h.reply; guard = g; ran = h.ran })
        (same_line (verb ++ b' ' ∷ target) (verb ++ b' ' ∷ word) d w (long.0 ∙ sym short.0)
          (long.1 ∙ sym (short.1 ∙ again)))

  executed :
      (verb target : List ℕ) (confirm : Option Bool) (g : Guard) (d : Daemon D) (w : W)
      → is_verb verb ≡ true
      → IsAllowed confirm (is_risky verb) (asks (safety_of q host seen target))
      → IsAnswered
          (some verb)
          (some target)
          confirm
          g
          d
          w
          (execute os api host q parse stoll_throws seen snapshot verb target g d w)
  executed verb target confirm g d w known free = inr (
    verb,
    target,
    (next_word target).0,
    refl,
    refl,
    next_word-IsFirstWord target,
    free,
    execute-word verb target g d w known,
  )

  judge-IsAnswered :
      (verb target : List ℕ) (confirm : Option Bool) (g : Guard) (d : Daemon D) (w : W)
      → is_verb verb ≡ true
      → IsAnswered
          (some verb)
          (some target)
          confirm
          g
          d
          w
          (judge os api host q parse stoll_throws seen snapshot verb target confirm g d w)
  unfolding judge
  judge-IsAnswered verb target none g d w known =
      by_test (IsAnswered (some verb) (some target) none g d w) (is_risky verb)
        (λ e. inl (
          refl,
          refl,
          refuse verb target none (inr (inr (inr (e, λ x. cc, λ x. absurd (x refl))))),
        ))
        (λ e. executed verb target none g d w known (inr (inl e)))
  judge-IsAnswered verb target (some c) g d w known =
      let a = asks (safety_of q host seen target) in
      by_test (IsAnswered (some verb) (some target) (some c) g d w) (is_risky verb && not c && a)
        (λ e.
          let parts = asked_parts c (is_risky verb) a e in
          inl (
            refl,
            refl,
            refuse verb target (some c)
                (inr (inr (inr (parts.0, λ x. cc (x, parts.1), λ x. parts.2)))),
          ))
        (λ e. executed verb target (some c) g d w known (allowed c (is_risky verb) a e))

  -- Whatever a command request holds, it is answered in one of two ways. Nothing in the service
  -- changes, and then, if it has a command and a target at all, the command is unknown, the target is
  -- empty or has a blank, a tab or a line end, or the command is risky, not confirmed, and
  -- `confirm` is no Boolean or the target is judged a service or a part of Windows. Or the command is
  -- carried out, not on the target but on its first word: what stands before a vertical tab or a
  -- form feed, which the dashboard lets pass, and after those it begins with; and then it was
  -- confirmed, is not risky, or the whole target is judged neither a service nor a part of Windows.
  pub command_request_lem :
      (command target : Option (List ℕ)) (confirm : Option Bool) (g : Guard) (d : Daemon D) (w : W)
      → IsAnswered command target confirm g d w (
          command_request os api host q parse stoll_throws seen snapshot command target confirm g d
            w)
  unfolding command_request
  command_request_lem none target confirm g d w = inl (refl, refl, λ v t e f. cc)
  command_request_lem (some verb) none confirm g d w = inl (refl, refl, λ v t e f. cc)
  command_request_lem (some verb) (some target) confirm g d w =
      by_test (IsAnswered (some verb) (some target) confirm g d w) (not (is_verb verb))
        (λ e. inl (refl, refl, refuse verb target confirm (inl (ground arith))))
        (λ k.
          by_test (IsAnswered (some verb) (some target) confirm g d w)
            (is_empty target || has_blank target)
            (λ e. inl (
              refl,
              refl,
              refuse verb target confirm (
                  inr (elim (or_true (is_empty target) (has_blank target) e) [
                    | inl empty ↦ inl empty
                    | inr blank ↦ inr (inl blank)
                  ])),
            ))
            (λ e. judge-IsAnswered verb target confirm g d w (not-false (is_verb verb) k)))
