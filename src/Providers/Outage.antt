-- ===== src/Providers/Outage.antt =====
-- app/core/provider_health.py and app/pipeline/mine.py: what an outage does to the worker and to a call.
use rfp_shred.Prelude.{
  Bool, Bool-cases, String, arith, eq_iff, false, false≢true, inl, inr, ltb, none, refl, some,
  str_eq, sym, true, ℕ, ◌&&◌, ◌↔◌, ◌∙◌, ◌≡◌, ◌≢◌, ◌≤◌, ◌⊎◌,
}
use rfp_shred.Models.{Session}
use rfp_shred.Worker.Process.{process_one_job}
use rfp_shred.Worker.Runner.{Outside, RunSettings}
use rfp_shred.Providers.{
  http_error, answered, is_degraded, probe, probe_once, provider_name, status_word, current_state,
  HttpReply, ProviderSettings,
}

-- The provider has a key, and it cannot be reached or answers with an error.
abbrev pub IsDown {ℓ} : {B : Type ℓ} → String → HttpReply B → Type 0
IsDown key http_error = key ≢ ""
IsDown key (answered status body) = (key ≢ "") × (400 ≤ status)

not_same : (a b : String) → str_eq a b ≡ false → a ≢ b
not_same a b e h = false≢true (sym e ∙ (eq_iff a b).1 h)

status_word-IsDown {ℓ} :
    {B : Type ℓ} (key : String) (reply : HttpReply B)
    → (key ≢ "")
    → (str_eq (status_word reply) "down" ≡ true) ↔ IsDown key reply
status_word-IsDown key http_error filled = (λ h. filled, λ h. refl)
status_word-IsDown key (answered status body) filled = elim (Bool-cases (ltb status 400)) [
  | inl e ↦ rw e (λ h. absurd (false≢true h), λ h. ground arith)
  | inr e ↦ rw e (λ h. (filled, ground arith), λ h. refl)
]

down-filled {ℓ} : {B : Type ℓ} (key : String) (reply : HttpReply B) → IsDown key reply → key ≢ ""
down-filled key http_error h = h
down-filled key (answered status body) h = h.0

probe-IsDown {ℓ} :
    {B : Type ℓ} (key : String) (reply : HttpReply B)
    → (str_eq (probe key reply) "down" ≡ true) ↔ IsDown key reply
unfolding probe
probe-IsDown key reply = elim (Bool-cases (str_eq key "")) [
  | inl e ↦
      rw e (λ h. absurd (false≢true h), λ h. absurd (down-filled key reply h ((eq_iff key "").0 e)))
  | inr e ↦ rw e (status_word-IsDown key reply (not_same key "" e))
]

-- A provider is configured, other than the mock, and both providers are down.
abbrev pub IsOut {ℓ} :
    {B : Type ℓ} → (String → String) → ProviderSettings → HttpReply B → HttpReply B → Type 0
IsOut lower providers of_openai of_anthropic =
    (provider_name lower providers ≢ "mock")
    × (IsDown providers.openai_api_key of_openai × IsDown providers.anthropic_api_key of_anthropic)

both_true : (a b : Bool) → (a && b ≡ true) ↔ ((a ≡ true) × (b ≡ true))
both_true true b = (λ h. (refl, h), λ h. h.1)
both_true false b = (λ h. absurd (false≢true h), λ h. h.0)

is_degraded-probe {ℓ} :
    {B : Type ℓ} (lower : String → String) (providers : ProviderSettings)
    (of_openai of_anthropic : HttpReply B) (now : String)
    → (is_degraded lower providers (some (probe_once providers of_openai of_anthropic now)) ≡ true)
      ↔ IsOut lower providers of_openai of_anthropic
unfolding is_degraded probe_once current_state
is_degraded-probe lower providers of_openai of_anthropic now =
    let one = probe-IsDown providers.openai_api_key of_openai in
    let two = probe-IsDown providers.anthropic_api_key of_anthropic in
    let both =
      both_true (str_eq (probe providers.openai_api_key of_openai) "down")
        (str_eq (probe providers.anthropic_api_key of_anthropic) "down") in
    elim (Bool-cases (str_eq (provider_name lower providers) "mock")) [
      | inl e ↦ rw e (
        λ h. absurd (false≢true h),
        λ h. absurd (h.0 ((eq_iff (provider_name lower providers) "mock").0 e)),
      )
      | inr e ↦ rw e (
        λ h. (
          not_same (provider_name lower providers) "mock" e,
          (one.0 (both.0 h).0, two.0 (both.0 h).1),
        ),
        λ h. both.1 (one.1 h.1.0, two.1 h.1.1),
      )
    ]

-- What the worker does in the state that a probe wrote: where a provider other than the mock is
-- configured and both providers are down, no job is claimed and nothing changes; in every other case
-- the worker takes its job as it does without an outage.
pub probe_once-resumes {ℓ} :
    {B : Type ℓ} (o : Outside) (settings : RunSettings) (lower : String → String)
    (providers : ProviderSettings) (of_openai of_anthropic : HttpReply B) (now worker_id : String)
    (locked started finished : ℕ) (s : Session)
    → let round = λ (degraded : Bool).
      process_one_job o settings finished degraded locked started worker_id s in
      let after =
        round
          (is_degraded lower providers (some (probe_once providers of_openai of_anthropic now))) in
      (IsOut lower providers of_openai of_anthropic × (after ≡ (none, s)))
      ⊎ ((¬ IsOut lower providers of_openai of_anthropic) × (after ≡ round false))
unfolding process_one_job
probe_once-resumes o settings lower providers of_openai of_anthropic now worker_id locked started
      finished s =
    let same = is_degraded-probe lower providers of_openai of_anthropic now in
    elim (Bool-cases
      (is_degraded lower providers (some (probe_once providers of_openai of_anthropic now)))) [
        | inl e ↦ inl (same.0 e, rw e refl)
        | inr e ↦ inr (λ h. false≢true (sym e ∙ same.1 h), rw e refl)
      ]
