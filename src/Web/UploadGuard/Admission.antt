-- ===== src/Web/UploadGuard/Admission.antt =====
-- app/web/upload_guard.py: what the guard bounds.
use rfp_shred.Prelude.{
  Bool, Bool-cases, List, [], arith, false, if◌then◌else◌, inl, inr, leb, ltb, refl, suc, true, ℕ,
  ◌+◌, ◌∷◌, ◌≡◌, ◌≤◌,
}
use rfp_shred.Web.UploadGuard.{
  App, receive, start_response, finish, fail, Message, body, other, run, Guard, try_admit, release,
}

module _ (bound : ℕ) where
  delivered-run :
      (app : App) (ms : List Message) (received delivered : ℕ) (started : Bool)
      → delivered ≤ received
      → delivered ≤ bound
      → (run bound app ms received delivered started).delivered ≤ bound
  unfolding run
  delivered-run finish ms received delivered started h k = k
  delivered-run (fail e) ms received delivered started h k = k
  delivered-run (start_response next) ms received delivered started h k =
      delivered-run next ms received delivered true h k
  delivered-run (receive next refused) [] received delivered started h k =
      delivered-run next [] received delivered started h k
  delivered-run (receive next refused) (other ∷ ms) received delivered started h k =
      delivered-run next ms received delivered started h k
  delivered-run (receive next refused) (body n ∷ ms) received delivered started h k =
      elim (Bool-cases (ltb bound (received + n))) [
        | inl e ↦ rw e (delivered-run refused ms (received + n) delivered started (omega arith) k)
        | inr e ↦ rw e (
            delivered-run next ms (received + n) (delivered + n) started (omega arith)
              (ground arith))
      ]

  -- The bytes that reach the parser are bounded: whatever the application does, and however it goes
  -- on when the guard raises, it is given at most `max_request_bytes` bytes of a body, in whatever
  -- parts the body arrives.
  run_bounded : (app : App) (ms : List Message) → (run bound app ms 0 0 false).delivered ≤ bound
  run_bounded app ms = delivered-run app ms 0 0 false (omega arith) (omega arith)

-- Requests that come and go in any order. The state is the counter and the number of bodies that are
-- really in flight.
pub data Reachable (guard : Guard) : ℕ → ℕ → Type 0 where
  idle : Reachable guard 0 0
  arrives :
      {active flying : ℕ}
      → Reachable guard active flying
      → Reachable guard
          (try_admit guard active).1
          (if (try_admit guard active).0 then flying + 1 else flying)
  leaves :
      {active flying : ℕ}
      → Reachable guard active (suc flying)
      → Reachable guard (release active) flying

-- At most `max_concurrent` bodies are in flight: in every state that arrivals and departures can
-- reach, in whatever order, the counter is the number of bodies in flight and within the bound.
pub admission_bounded :
    (guard : Guard) (active flying : ℕ)
    → Reachable guard active flying
    → (active ≡ flying) × (flying ≤ guard.max_concurrent)
unfolding try_admit
admission_bounded guard _ _ idle = (refl, omega arith)
admission_bounded guard _ _ (arrives {active = a} {flying = f} r) =
    let (same, low) = admission_bounded guard a f r in
    elim (Bool-cases (leb guard.max_concurrent a)) [
      | inl e ↦ rw e (same, low)
      | inr e ↦ rw e (omega (arith, same), ground arith)
    ]
admission_bounded guard _ _ (leaves {active = a} {flying = f} r) =
    let (same, low) = admission_bounded guard a (suc f) r in
    (omega (arith, same), omega (arith, low))
