-- ===== src/Service/Daemon/Commands/Refusals.antt =====
-- When a command throws (src/service/Daemon.cpp): nothing catches the exception in the threads of the
-- pipe and of the controller's connection.
use thread_haul_daemon.Base.{
  ℕ, ◌≡◌, ◌≢◌, ◌<◌, ◌⊎◌, inl, inr, refl, Bool, true, false, List, [], ◌∷◌, Option, none, some,
  if◌then◌else◌, Real, arith, eq_text_eq, eq_text, codes, ltb, Bool-cases, Option-cases, either_way,
  by_test, sym, ap, subst,
}
use thread_haul_daemon.Actuator.Os.{Os}
use thread_haul_daemon.Config.Fields.{is_empty}
use thread_haul_daemon.Service.AutoProtect.{ProtectApi}
use thread_haul_daemon.Service.Daemon.{Host, Daemon, ProcessEntry, Ran}
use thread_haul_daemon.Service.Daemon.Commands.{
  Verb, Result, Refusal, thrown, Handled, all_digits, number_from, stoul, targets_of, exempt_each,
  exempt_found, command_found, command_verb, verb_of, verb_in, target_in, handle_command, refused,
  stopping, no_process, unknown_command, runs_as_service,
}

-- A number that the service's `unsigned long` cannot hold.
abbrev pub IsOverlong : List ℕ → Type 0
IsOverlong target = (all_digits target ≡ true) × (4294967295 < number_from 0 target)

-- Why a command on a target can throw.
abbrev pub IsBad : Host → List ℕ → Type 0
IsBad host target = (host.is_utf8 target ≡ false) ⊎ IsOverlong target

-- A handled command that threw changed nothing, and for one of the reasons.
abbrev pub ThrewFor : {D W : Type 0} → Type 0 → Daemon D → W → Handled D W → Type 0
ThrewFor reason d w h = h.reply ≡ thrown → (h.ran.daemon ≡ d) × (h.ran.world ≡ w) × reason

stoul-IsOverlong : (target : List ℕ) → stoul target ≡ none → 4294967295 < number_from 0 target
unfolding stoul
stoul-IsOverlong target e = ground arith

targets_of-IsOverlong :
    (host : Host) (target : List ℕ) (es : List ProcessEntry)
    → targets_of host target es ≡ none
    → IsOverlong target
unfolding targets_of
targets_of-IsOverlong host target [] e = cc
targets_of-IsOverlong host target (p ∷ ps) e = elim (Bool-cases (all_digits target)) [
  | inr other ↦ cc (rw other at e)
  | inl digits ↦ elim (Option-cases (stoul target)) [
    | inl none_ ↦ (digits, stoul-IsOverlong target none_)
    | inr (n, found) ↦ cc (rw (digits, found) at e)
  ]
]

said-thrown : (b : Bool) (r : Refusal) → (if b then refused r else thrown) ≡ thrown → b ≡ false
said-thrown true r e = cc
said-thrown false r e = refl

not_said : (b : Bool) (r : Refusal) → (if b then stopping else refused r) ≢ thrown
not_said true r e = cc
not_said false r e = cc

-- A word that is a verb is none of the others.
other_word :
    (word other : List ℕ) (v : Verb)
    → verb_of word ≡ some v
    → verb_of other ≡ none
    → eq_text word other ≢ true
other_word word other v h k e = cc (h, k, ap verb_of (eq_text_eq word other e))

no_verb :
    (verb_of (codes "status") ≡ none)
    × (verb_of (codes "stop") ≡ none)
    × (verb_of (codes "exempt") ≡ none)
unfolding verb_of
no_verb = (refl, refl, refl)

overlong-targets_of :
    (host : Host) (target : List ℕ) (es : List ProcessEntry)
    → IsOverlong target
    → es ≢ []
    → targets_of host target es ≡ none
unfolding targets_of stoul
overlong-targets_of host target [] o ne = absurd (ne refl)
overlong-targets_of host target (e ∷ es) o ne =
    let far : ltb 4294967295 (number_from 0 target) ≡ true = ground (arith, o.1) in
    rw (o.0, far) refl

overlong_nonempty : (target : List ℕ) → IsOverlong target → is_empty target ≡ false
unfolding number_from
overlong_nonempty [] o = absurd (omega (arith, o.1))
overlong_nonempty (c ∷ cs) o = refl

module _ {D W : Type 0} ⦃real : Real D⦄ (os : Os W) (api : ProtectApi W) (host : Host) where
  command_found-thrown :
      (v : Verb) (target : List ℕ) (es : List ProcessEntry) (d : Daemon D) (w : W)
      → (o : Option (List ProcessEntry)) → targets_of host target es ≡ o
      → ThrewFor (IsBad host target) d w (command_found os api host v target o d w)
  unfolding command_found
  command_found-thrown v target es d w none e t =
      (refl, refl, inr (targets_of-IsOverlong host target es e))
  command_found-thrown v target es d w (some []) e t =
      (refl, refl, inl (said-thrown (host.is_utf8 target) no_process t))
  command_found-thrown v target es d w (some (p ∷ ps)) e t = cc

  exempt_found-thrown :
      (target : List ℕ) (rs : List (ℕ × Result)) (ran : Ran D W) (d : Daemon D) (w : W)
      → ThrewFor (IsBad host target) d w (exempt_found os api host target rs ran d w)
  unfolding exempt_found
  exempt_found-thrown target [] ran d w t =
      (refl, refl, inl (said-thrown (host.is_utf8 target) no_process t))
  exempt_found-thrown target (r ∷ rs) ran d w t = cc

  command_verb-thrown :
      (o : Option Verb) (word target : List ℕ) (es : List ProcessEntry) (d : Daemon D) (w : W)
      → ThrewFor
          ((host.is_utf8 word ≡ false) ⊎ IsBad host target)
          d
          w
          (command_verb os api host o word target es d w)
  unfolding command_verb
  command_verb-thrown none word target es d w =
      λ t. (refl, refl, inl (said-thrown (host.is_utf8 word) unknown_command t))
  command_verb-thrown (some v) word target es d w =
      either_way (ThrewFor ((host.is_utf8 word ≡ false) ⊎ IsBad host target) d w) (is_empty target)
        (λ t. cc)
        (λ t.
          let (same, still, why) =
            command_found-thrown v target es d w (targets_of host target es) refl t in
          (same, still, inr why))

  command_verb-overlong :
      (v : Verb) (word target : List ℕ) (es : List ProcessEntry) (d : Daemon D) (w : W)
      → IsOverlong target
      → es ≢ []
      → (command_verb os api host (some v) word target es d w).reply ≡ thrown
  unfolding command_verb command_found
  command_verb-overlong v word target es d w o ne =
      rw (overlong_nonempty target o, overlong-targets_of host target es o ne) refl

  -- A command throws only where its verb or its target is no UTF-8, or where its target is a number
  -- above 4294967295; it has then changed nothing. A command on managed processes whose target is
  -- such a number does throw, unless the snapshot is empty.
  pub handle_command-thrown :
      (remote : Bool) (snapshot : List ProcessEntry) (line : List ℕ) (d : Daemon D) (w : W)
      → let h = handle_command os api host remote snapshot line d w in
        (h.reply ≡ thrown
          → (h.ran.daemon ≡ d)
            × (h.ran.world ≡ w)
            × ((host.is_utf8 (verb_in line) ≡ false) ⊎ IsBad host (target_in line)))
        × ((v : Verb)
            → verb_of (verb_in line) ≡ some v
            → snapshot ≢ []
            → IsOverlong (target_in line)
            → h.reply ≡ thrown)
  unfolding handle_command
  handle_command-thrown remote snapshot line d w =
      let verb = verb_in line in
      let target = target_in line in
      let bad : Type 0 = (host.is_utf8 verb ≡ false) ⊎ IsBad host target in
      let P : Handled D W → Type 0 = ThrewFor bad d w in
      let found = exempt_each os api host target snapshot d w in
      (
        either_way P (eq_text verb (codes "status")) (λ t. cc)
            (either_way P (eq_text verb (codes "stop"))
              (λ t. absurd (not_said remote runs_as_service t))
              (either_way P (eq_text verb (codes "exempt"))
                (either_way P (is_empty target) (λ t. cc)
                  (λ t.
                    let (same, still, why) =
                      exempt_found-thrown target found.results found.ran d w t in
                    (same, still, inr why)))
                (command_verb-thrown (verb_of verb) verb target snapshot d w))),
        λ v known some_ far.
            let (one, two, three) = no_verb in
            let Q : Handled D W → Type 0 = λ h. h.reply ≡ thrown in
            by_test Q (eq_text verb (codes "status"))
              (λ e. absurd (other_word verb (codes "status") v known one e))
              (λ _.
                by_test Q (eq_text verb (codes "stop"))
                  (λ e. absurd (other_word verb (codes "stop") v known two e))
                  (λ _.
                    by_test Q (eq_text verb (codes "exempt"))
                      (λ e. absurd (other_word verb (codes "exempt") v known three e))
                      (λ _.
                        subst
                          (λ o.
                            (command_verb os api host o verb target snapshot d w).reply ≡ thrown)
                          (sym known)
                          (command_verb-overlong v verb target snapshot d w far some_)))),
      )
