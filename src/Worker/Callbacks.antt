-- ===== src/Worker/Callbacks.antt =====
-- What a partner callback does to the transfers: `handlePartnerCallback` of
-- zongo/apps/worker/src/worker-job.processor.ts.
use zongo_v.Prelude.{
  Bool, true, false, not, Option, some, List, String, ◌≡◌, ◌⊎◌, inl, inr, refl, subst, is_text,
  arith, find_where, update_where, find_where-update_selected, find_where-update_unselected,
  Bool-cases,
}
use zongo_v.Domain.Lifecycle.{TransferStatus, no_context, status_eq, can_transition}
use zongo_v.Db.Rows.{Transaction, Db}
use zongo_v.Db.Tags.{status_eq→eq}
use zongo_v.Db.Env.{Env}
use zongo_v.Db.Invariant.{
  Keeps, Keeps-if, Keeps-pure, Keeps-throw, Keeps-bind, Keeps-when, bind-reaches,
  transaction-reaches, gets-reaches, modify-reaches, throw_if-reaches, if-reaches, lookup-reaches,
}
use zongo_v.Ledger.Posting.{by_id}
use zongo_v.Worker.Ports.{Services}
use zongo_v.Worker.Store.{transaction_of}
use zongo_v.Worker.Sessions.{is_resolved}
use zongo_v.Worker.Recheck.{assert_transition}
use zongo_v.Worker.Leg.{provider_index}
use zongo_v.Worker.Retry.{with_status}
use zongo_v.Worker.Callback.{
  is_closed, called_back, apply_callback, ignore_callback, finish_callback, advance,
  repeat_callback, react, handle_partner_callback,
}
use zongo_v.Worker.Frames.{
  OnTransfers, append_audit-Keeps, payout_job-Keeps, record_lifecycle_success-Keeps,
  resolve_waiting_session-Keeps,
}

-- The row of a transfer is as it was, or was open and took one step of the lifecycle.
abbrev pub IsStepOf : Transaction → Transaction → Type 0
IsStepOf t0 t1 =
    (t1 ≡ t0)
    ⊎ ((is_resolved t0.status ≡ false)
        × (status_eq t0.status t1.status ≡ false)
        × (can_transition t0.status t1.status no_context ≡ true))

abbrev pub Stepped : Transaction → List Transaction → Type 0
Stepped t0 rows = (t1 : Transaction) × (find_where (by_id t0.id) rows ≡ some t1) × IsStepOf t0 t1

not-false : (b : Bool) → not b ≡ false → b ≡ true
not-false b h = ground arith

module _ (t0 : Transaction) where
  ignore-Keeps :
      (env : Env) (t : Transaction) (name : String)
      → Keeps (OnTransfers (Stepped t0)) (ignore_callback env t name)
  unfolding ignore_callback
  ignore-Keeps env t name =
      Keeps-bind _ _ (append_audit-Keeps (Stepped t0) _ _ _ _) λ u. Keeps-pure _

  finish-Keeps :
      (env : Env) (t : Transaction) (status : TransferStatus)
      → Keeps (OnTransfers (Stepped t0)) (finish_callback env t status)
  unfolding finish_callback
  finish-Keeps env t status =
      Keeps-bind _ _ (record_lifecycle_success-Keeps (Stepped t0) _ _ _) λ u.
        Keeps-bind _ _ (resolve_waiting_session-Keeps (Stepped t0) _ _ _)
          λ v. Keeps-bind _ _ (append_audit-Keeps (Stepped t0) _ _ _ _) λ w. Keeps-pure _

  repeat-Keeps :
      (env : Env) (t : Transaction) (reference : String)
      → Keeps (OnTransfers (Stepped t0)) (repeat_callback env t reference)
  repeat-Keeps env t reference =
      Keeps-if (is_text t.partner_reference reference) _ _ (ignore-Keeps env t _) (Keeps-throw _)

  after-apply :
      (env : Env) (t : Transaction) (status : TransferStatus) (is_applied : Bool)
      → Keeps (OnTransfers (Stepped t0)) (elim is_applied [
        | true ↦ finish_callback env t status
        | false ↦ ignore_callback env t "transfer.callback.concurrent-state-change"
      ])
  after-apply env t status true = finish-Keeps env t status
  after-apply env t status false = ignore-Keeps env t _

  selected-status : (t : Transaction) → with_status t.id t.status t0 ≡ true → t.status ≡ t0.status
  selected-status t e = status_eq→eq t.status t0.status (ground (arith, e))

  step-from :
      (t : Transaction) (status : TransferStatus)
      → t.status ≡ t0.status
      → is_closed t.status ≡ false
      → status_eq t.status status ≡ false
      → can_transition t.status status no_context ≡ true
      → (is_resolved t0.status ≡ false)
        × (status_eq t0.status status ≡ false)
        × (can_transition t0.status status no_context ≡ true)
  step-from t status e o n c =
      subst
        (λ s.
          (is_resolved s ≡ false)
          × (status_eq s status ≡ false)
          × (can_transition s status no_context ≡ true))
        e (o, n, c)

  -- The update of the callback's transaction is one step of the lifecycle.
  update-steps :
      (t : Transaction) (status : TransferStatus) (reference : String) (index : Option String)
      (rows : List Transaction)
      → is_closed t.status ≡ false
      → status_eq t.status status ≡ false
      → can_transition t.status status no_context ≡ true
      → find_where (by_id t0.id) rows ≡ some t0
      → Stepped t0
          (update_where (with_status t.id t.status) (called_back status reference index) rows)
  update-steps t status reference index rows o n c h =
      elim (Bool-cases (with_status t.id t.status t0)) [
        | inl e ↦ (
          called_back status reference index t0,
          find_where-update_selected (by_id t0.id) (with_status t.id t.status)
              (called_back status reference index) rows (λ x. refl) h e,
          inr (step-from t status (selected-status t e) o n c),
        )
        | inr e ↦ (
          t0,
          find_where-update_unselected (by_id t0.id) (with_status t.id t.status)
              (called_back status reference index) rows (λ x. refl) h e,
          inl refl,
        )
      ]

  apply-steps :
      (env : Env) (services : Services) (t : Transaction) (status : TransferStatus)
      (reference : String) (db : Db)
      → is_closed t.status ≡ false
      → status_eq t.status status ≡ false
      → can_transition t.status status no_context ≡ true
      → find_where (by_id t0.id) db.transactions ≡ some t0
      → Stepped t0 (apply_callback env services t status reference db).1.transactions
  unfolding apply_callback
  apply-steps env services t status reference db o n c h =
      let index = provider_index env services reference in
      transaction-reaches (OnTransfers (Stepped t0)) _ db (t0, h, inl refl)
        (gets-reaches (OnTransfers (Stepped t0)) _ _ db (
          modify-reaches (OnTransfers (Stepped t0)) _ _ db
            (update-steps t status reference index db.transactions o n c h)
            λ u.
              Keeps-bind _ _ (Keeps-when _ _ (payout_job-Keeps (Stepped t0) env t))
                λ v. Keeps-pure _))

  advance-steps :
      (env : Env) (services : Services) (t : Transaction) (status : TransferStatus)
      (reference : String) (db : Db)
      → is_closed t.status ≡ false
      → status_eq t.status status ≡ false
      → find_where (by_id t0.id) db.transactions ≡ some t0
      → Stepped t0 (advance env services t status reference db).1.transactions
  unfolding advance assert_transition
  advance-steps env services t status reference db o n h =
      throw_if-reaches (OnTransfers (Stepped t0)) _ _ _ db (t0, h, inl refl)
        λ c.
          bind-reaches (OnTransfers (Stepped t0)) _ _ db
            (apply-steps env services t status reference db o n (not-false _ c) h)
            (after-apply env t status)

  react-steps :
      (env : Env) (services : Services) (t : Transaction) (status : TransferStatus)
      (reference : String) (db : Db)
      → find_where (by_id t0.id) db.transactions ≡ some t0
      → Stepped t0 (react env services t status reference db).1.transactions
  unfolding react
  react-steps env services t status reference db h =
      if-reaches (OnTransfers (Stepped t0)) _ _ _ db
        (λ c. (ignore-Keeps env t _).at db (t0, h, inl refl))
        λ o.
          if-reaches (OnTransfers (Stepped t0)) _ _ _ db
            (λ e. (repeat-Keeps env t reference).at db (t0, h, inl refl))
            λ n. advance-steps env services t status reference db o n h

-- A partner callback moves no transfer outside the lifecycle: whatever callback arrives and
-- however it ends, the row found under an id is afterwards the row that was there, or that row
-- was not closed (`COLLECTION_FAILED`, `PAYOUT_SUCCESS`, `PAYOUT_FAILED`) and has a different
-- status now, which `assertTransition` allows from the former one without a manual retry.
pub handle_partner_callback-steps :
    (env : Env) (services : Services) (reference : String) (status : TransferStatus)
    (partner_reference : String) (t0 : Transaction) (db : Db)
    → find_where (by_id t0.id) db.transactions ≡ some t0
    → Stepped t0
        (handle_partner_callback env services reference status partner_reference db).1.transactions
unfolding handle_partner_callback transaction_of
handle_partner_callback-steps env services reference status partner_reference t0 db h =
    lookup-reaches (OnTransfers (Stepped t0)) _ _ _ db (t0, h, inl refl)
      λ t. react-steps t0 env services t status partner_reference db h
