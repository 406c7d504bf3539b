-- ===== src/Exposure/Pausing.antt =====
-- When the monitor of zongo/apps/worker/src/pilot-exposure-monitor.service.ts raises a signal, and
-- what it does to the control that lets new transfers start.
use zongo_v.Prelude.{
  ℕ, zero, suc, ◌*◌, ◌≤◌, ◌<◌, ◌≡◌, ◌≢◌, ◌↔◌, refl, ◌∙◌, ◌⊎◌, inl, inr, Bool, true, false, Option,
  none, some, List, [], ◌∷◌, String, arith, template, find_where, any_where, Option-cases,
  Bool-cases, find_where-update_where, find_where-append_none, if◌then◌else◌,
}
use zongo_v.Prelude.Int.{ℤ, pos, negsuc, ◌≤ℤ◌}
use zongo_v.Db.Rows.{
  Severity, PilotControl, ControlKey, ControlState, permanently_stopped, paused, Db,
}
use zongo_v.Db.Env.{Env}
use zongo_v.Db.Monad.{◌>>=◌}
use zongo_v.Db.Invariant.{Keeps, Keeps-pure, Keeps-bind}
use zongo_v.Exposure.Monitor.{
  ExposureMetric, severity_of, is_control, state_of, is_stopped, pause_initiation, signals_for,
  same_severity, emit, signal, evaluate_metric, evaluate_all, evaluate,
}

-- With a positive limit a signal is urgent exactly from the limit on, and is more than normal
-- exactly from 80 % of the limit on, with no rounding error.
pub severity_of_iff :
    (observed limit : ℕ)
    → 0 < limit
    → ((severity_of (pos observed) limit ≡ Severity.urgent) ↔ (limit ≤ observed))
      × ((severity_of (pos observed) limit ≢ Severity.normal) ↔ (limit * 80 ≤ observed * 100))
unfolding severity_of
severity_of_iff observed limit h = ground arith

urgent_at :
    (observed : ℤ) (n : ℕ)
    → pos (suc n) ≤ℤ observed
    → severity_of observed (suc n) ≡ Severity.urgent
unfolding severity_of
urgent_at observed n h = ground arith

abbrev pub initiation_state : List PilotControl → Option ControlState
initiation_state rows = state_of (find_where (is_control ControlKey.initiation) rows)

-- A row is found where one passes the test.
any_where-find {ℓ} :
    {A : Type ℓ} (p : A → Bool) (xs : List A) {a : A}
    → find_where p xs ≡ some a
    → any_where p xs ≡ true
any_where-find p [] e = cc
any_where-find p (x ∷ xs) {a} e = ground (arith, any_where-find p xs {a = a})

any_where-none {ℓ} :
    {A : Type ℓ} (p : A → Bool) (xs : List A) → find_where p xs ≡ none → any_where p xs ≡ false
any_where-none p [] e = refl
any_where-none p (x ∷ xs) e = ground (arith, any_where-none p xs)

abbrev pause_row : String → PilotControl
pause_row metric = record {
  key = ControlKey.initiation;
  state = paused;
  reason = some (template ("Automatic exposure pause: " ∷ metric ∷ []));
  changed_by = none;
}

abbrev set_pause : String → PilotControl → PilotControl
set_pause metric old = record old {
  state = paused;
  reason = some (template ("Automatic exposure pause: " ∷ metric ∷ []));
}

-- The pause leaves new transfers paused or stopped, and stopped where they were stopped.
pause_initiation-state :
    (metric : String) (rows : List PilotControl)
    → initiation_state (pause_initiation metric rows)
      ≡ (if is_stopped (initiation_state rows) then some permanently_stopped else some paused)
unfolding pause_initiation
pause_initiation-state metric rows =
    elim (Option-cases (find_where (is_control ControlKey.initiation) rows)) [
      | inl e ↦
          let added =
            find_where-append_none (is_control ControlKey.initiation) rows (pause_row metric ∷ [])
              e in
          rw (e, any_where-none (is_control ControlKey.initiation) rows e, added)
      | inr (c, e) ↦
          let updated =
            find_where-update_where (is_control ControlKey.initiation) (set_pause metric) rows
              (λ x. refl) e in
          rw (e, any_where-find (is_control ControlKey.initiation) rows e) (ground (arith, updated))
    ]

module _ (env : Env) (key : String) (observed : ℤ) (limit : ℕ) (db : Db) where
  -- What a signal does to the controls.
  abbrev controls_after : Severity → List PilotControl
  controls_after severity = (signal env key observed limit severity db).1.controls

  abbrev is_repeated : Severity → Bool
  is_repeated severity = same_severity severity (find_where (signals_for key) db.signals)

  warning-controls : controls_after Severity.warning ≡ db.controls
  unfolding signal emit ◌>>=◌
  warning-controls = elim (Bool-cases (is_repeated Severity.warning)) [
    | inl e ↦ ground arith
    | inr e ↦ ground arith
  ]

  urgent-controls :
      controls_after Severity.urgent
      ≡ (if is_repeated Severity.urgent then db.controls else pause_initiation key db.controls)
  unfolding signal emit ◌>>=◌
  urgent-controls = elim (Bool-cases (is_repeated Severity.urgent)) [
    | inl e ↦ ground arith
    | inr e ↦ ground arith
  ]

  normal-controls : controls_after Severity.normal ≡ db.controls
  unfolding signal ◌>>=◌
  normal-controls = refl

  signal-controls :
      (severity : Severity)
      → (controls_after severity ≡ db.controls)
        ⊎ (controls_after severity ≡ pause_initiation key db.controls)
  signal-controls Severity.normal = inl normal-controls
  signal-controls Severity.warning = inl warning-controls
  signal-controls Severity.urgent = elim (Bool-cases (is_repeated Severity.urgent)) [
    | inl e ↦ inl (urgent-controls ∙ rw e)
    | inr e ↦ inr (urgent-controls ∙ rw e)
  ]

-- A metric at or over its positive limit, whose signal is not yet urgent, leaves the control of new
-- transfers paused, or stopped for good where it was so before.
pub urgent-pauses :
    (env : Env) (key : String) (observed : ℤ) (n : ℕ) (db : Db)
    → pos (suc n) ≤ℤ observed
    → same_severity Severity.urgent (find_where (signals_for key) db.signals) ≡ false
    → let metric : ExposureMetric = record {
      key = key;
      observed = observed;
      limit = some (pos (suc n));
    } in
      initiation_state (evaluate_metric env metric db).1.controls ≡ (
        if is_stopped (initiation_state db.controls) then some permanently_stopped else some paused)
unfolding evaluate_metric ◌>>=◌
urgent-pauses env key observed n db over fresh =
    rw (urgent_at observed n over, urgent-controls env key observed (suc n) db, fresh)
      (pause_initiation-state key db.controls)

-- Permanently stopped, by the row that the services find.
abbrev pub IsStopped : List PilotControl → Type 0
IsStopped rows = initiation_state rows ≡ some permanently_stopped

evaluate_metric-IsStopped :
    (env : Env) (m : ExposureMetric) (db : Db)
    → IsStopped db.controls
    → IsStopped (evaluate_metric env m db).1.controls
unfolding evaluate_metric ◌>>=◌
evaluate_metric-IsStopped env m db h = go m.limit refl
  where
    paused_too : initiation_state (pause_initiation m.key db.controls) ≡ some permanently_stopped
    paused_too = pause_initiation-state m.key db.controls ∙ rw h

    go : (l : Option ℤ) → m.limit ≡ l → IsStopped (evaluate_metric env m db).1.controls
    go none e = rw (e, evaluate_metric) h
    go (some (negsuc n)) e = rw (e, evaluate_metric) h
    go (some (pos zero)) e = rw (e, evaluate_metric) h
    go (some (pos (suc n))) e =
        elim (signal-controls env m.key m.observed (suc n) db (severity_of m.observed (suc n))) [
          | inl same ↦ rw (e, evaluate_metric, same) h
          | inr halted ↦ rw (e, evaluate_metric, halted) paused_too
        ]

evaluate_all-IsStopped :
    (env : Env) (ms : List ExposureMetric)
    → Keeps (λ db. IsStopped db.controls) (evaluate_all env ms)
unfolding evaluate_all
evaluate_all-IsStopped env [] = Keeps-pure tt
evaluate_all-IsStopped env (m ∷ ms) =
    Keeps-bind (evaluate_metric env m) (λ _. evaluate_all env ms)
      (record { at = evaluate_metric-IsStopped env m }) (λ _. evaluate_all-IsStopped env ms)

-- A round of the monitor never revives transfers that were stopped for good.
pub evaluate-IsStopped :
    (env : Env) (db : Db) → IsStopped db.controls → IsStopped (evaluate env db).1.controls
unfolding evaluate ◌>>=◌
evaluate-IsStopped env db h = (evaluate_all-IsStopped env _).at db h
