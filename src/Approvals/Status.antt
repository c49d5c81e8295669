-- ===== src/Approvals/Status.antt =====
-- What the status of an approval workflow says of the rows that it is read off: `toApprovalState` of
-- apps/api/src/modules/approvals/infrastructure/prisma-approvals.repository.ts.
use jimpitan.Base.{
  ℕ, ◌≤◌, ◌<◌, Bool, true, false, ◌&&◌, ◌||◌, ◌⊎◌, inl, inr, List, [], ◌∷◌, ltb, leb, Bool-cases,
  ◌≡◌, refl, sym, subst, arith,
}
use jimpitan.Base.Kept.{Some, Some-weaken}
use jimpitan.Base.Rows.{length, select, All}
use jimpitan.Finance.Schema.{ExpenseApprovalRow}
use jimpitan.Finance.Guards.{approved_count, rejected_count, is_rejected, is_pending, is_cancelled}
use jimpitan.Approvals.Schema.{ApprovalWorkflowStatus}
use jimpitan.Approvals.State.{
  pending_rows, cancelled_count, is_expired, some_expired, approval_status,
}

-- No row is rejected and the approved ones are too few.
abbrev pub Undecided : ℕ → List ExpenseApprovalRow → Type 0
Undecided required rows =
    All (λ a. is_rejected a.status ≡ false) rows × (approved_count rows < required)

abbrev pub Overdue : ℕ → ExpenseApprovalRow → Type 0
Overdue now a = (is_pending a.status ≡ true) × (is_expired now a ≡ true)

-- The description of each status by the rows.
abbrev pub Workflow : ℕ → List ExpenseApprovalRow → ℕ → ApprovalWorkflowStatus → Type 0
Workflow now rows required ApprovalWorkflowStatus.rejected =
    Some (λ a. is_rejected a.status ≡ true) rows
Workflow now rows required ApprovalWorkflowStatus.approved =
    All (λ a. is_rejected a.status ≡ false) rows × (required ≤ approved_count rows)
Workflow now rows required ApprovalWorkflowStatus.expired =
    Undecided required rows × Some (Overdue now) rows
Workflow now rows required ApprovalWorkflowStatus.pending =
    Undecided required rows
    × All (λ a. is_pending a.status && is_expired now a ≡ false) rows
    × ((rows ≡ []) ⊎ Some (λ a. is_cancelled a.status ≡ false) rows)
Workflow now rows required ApprovalWorkflowStatus.cancelled =
    Undecided required rows × (All (λ a. is_cancelled a.status ≡ true) rows × (0 < length rows))
Workflow now rows required ApprovalWorkflowStatus.not_required = ⊥

module _ {A : Type 0} (p : A → Bool) where
  count_none :
      (rows : List A) → ltb 0 (length (select p rows)) ≡ false → All (λ a. p a ≡ false) rows
  count_none [] h = tt
  count_none (a ∷ rest) h = elim (Bool-cases (p a)) [
    | inl chosen ↦ absurd (ground arith)
    | inr passed ↦ (passed, count_none rest (ground arith))
  ]

  count_found :
      (rows : List A) → ltb 0 (length (select p rows)) ≡ true → Some (λ a. p a ≡ true) rows
  count_found [] h = ground arith
  count_found (a ∷ rest) h = elim (Bool-cases (p a)) [
    | inl chosen ↦ inl chosen
    | inr passed ↦ inr (count_found rest (ground arith))
  ]

  count_bound : (rows : List A) → length (select p rows) ≤ length rows
  count_bound [] = omega arith
  count_bound (a ∷ rest) = let h = count_bound rest in ground arith

  count_every : (rows : List A) → length rows ≤ length (select p rows) → All (λ a. p a ≡ true) rows
  count_every [] h = tt
  count_every (a ∷ rest) h =
      let b = count_bound rest in
      elim (Bool-cases (p a)) [
        | inl chosen ↦ (chosen, count_every rest (ground arith))
        | inr passed ↦ absurd (ground arith)
      ]

  count_missing :
      (rows : List A) → length (select p rows) < length rows → Some (λ a. p a ≡ false) rows
  count_missing [] h = ground arith
  count_missing (a ∷ rest) h = elim (Bool-cases (p a)) [
    | inl chosen ↦ inr (count_missing rest (ground arith))
    | inr passed ↦ inl passed
  ]

late_row :
    (now : ℕ) (rows : List ExpenseApprovalRow)
    → some_expired now (pending_rows rows) ≡ true
    → Some (Overdue now) rows
late_row now [] h = ground arith
late_row now (a ∷ rest) h = elim (Bool-cases (is_pending a.status)) [
  | inr passed ↦ inr (late_row now rest (ground arith))
  | inl chosen ↦ elim (Bool-cases (is_expired now a)) [
    | inl late ↦ inl (chosen, late)
    | inr passed ↦ inr (late_row now rest (ground arith))
  ]
]

on_time_rows :
    (now : ℕ) (rows : List ExpenseApprovalRow)
    → some_expired now (pending_rows rows) ≡ false
    → All (λ a. is_pending a.status && is_expired now a ≡ false) rows
on_time_rows now [] h = tt
on_time_rows now (a ∷ rest) h = (ground arith, on_time_rows now rest (ground arith))

waiting_rows :
    (rows : List ExpenseApprovalRow)
    → ltb 0 (length (pending_rows rows)) || leb (length rows) 0 ≡ true
    → (rows ≡ []) ⊎ Some (λ a. is_cancelled a.status ≡ false) rows
waiting_rows [] h = inl refl
waiting_rows (a ∷ rest) h = inr (
    Some-weaken (λ (x : ExpenseApprovalRow). is_pending x.status ≡ true)
      (λ x. is_cancelled x.status ≡ false) (λ x k. ground arith) (a ∷ rest)
      (count_found (λ (x : ExpenseApprovalRow). is_pending x.status) (a ∷ rest) (ground arith)))

module _ (now : ℕ) (rows : List ExpenseApprovalRow) (required : ℕ) where
  abbrev status : ApprovalWorkflowStatus
  status = approval_status now rows required

  -- Neither decided nor overdue: pending or cancelled.
  waiting-Workflow :
      Undecided required rows
      → some_expired now (pending_rows rows) ≡ false
      → ltb 0 (rejected_count rows) ≡ false
      → leb required (approved_count rows) ≡ false
      → Workflow now rows required status
  unfolding approval_status
  waiting-Workflow undecided fresh r a =
      let on_time = on_time_rows now rows fresh in
      elim (Bool-cases (ltb 0 (length (pending_rows rows)) || leb (length rows) 0)) [
        | inl waits ↦
            let q : status ≡ ApprovalWorkflowStatus.pending = ground arith in
            subst (Workflow now rows required) (sym q) (undecided, on_time, waiting_rows rows waits)
        | inr none_waits ↦
            elim (Bool-cases (
              leb (length rows) (cancelled_count rows)
              && leb (cancelled_count rows) (length rows))) [
                | inl all ↦
                    let q : status ≡ ApprovalWorkflowStatus.cancelled = ground arith in
                    subst (Workflow now rows required) (sym q) (
                      undecided,
                      (count_every (λ a. is_cancelled a.status) rows (ground arith), ground arith),
                    )
                | inr mixed ↦
                    let q : status ≡ ApprovalWorkflowStatus.pending = ground arith in
                    let b = count_bound (λ (a : ExpenseApprovalRow). is_cancelled a.status) rows in
                    subst (Workflow now rows required) (sym q) (
                      undecided,
                      on_time,
                      inr (count_missing (λ a. is_cancelled a.status) rows (ground arith)),
                    )
              ]
      ]

  -- The derived status is the one that describes the approvals: REJECTED if one of them is rejected,
  -- else APPROVED if enough are approved, else EXPIRED if a pending one is past its date, CANCELLED if
  -- there are approvals and all are cancelled, and PENDING in the cases left.
  pub approval_status-Workflow : Workflow now rows required status
  unfolding approval_status
  approval_status-Workflow = elim (Bool-cases (ltb 0 (rejected_count rows))) [
    | inl refused ↦
        let q : status ≡ ApprovalWorkflowStatus.rejected = ground arith in
        subst (Workflow now rows required) (sym q)
          (count_found (λ a. is_rejected a.status) rows refused)
    | inr r ↦
        let clean = count_none (λ (a : ExpenseApprovalRow). is_rejected a.status) rows r in
        elim (Bool-cases (leb required (approved_count rows))) [
          | inl enough ↦
              let q : status ≡ ApprovalWorkflowStatus.approved = ground arith in
              subst (Workflow now rows required) (sym q) (clean, ground arith)
          | inr a ↦ elim (Bool-cases (some_expired now (pending_rows rows))) [
            | inl late ↦
                let q : status ≡ ApprovalWorkflowStatus.expired = ground arith in
                subst (Workflow now rows required) (sym q)
                  ((clean, ground arith), late_row now rows late)
            | inr fresh ↦ waiting-Workflow (clean, ground arith) fresh r a
          ]
        ]
  ]
