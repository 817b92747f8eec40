-- ===== src/Connectors/Approvals.antt =====
-- The approvals of triggers on ui/src/app/connectors/page.tsx. A kind that is missing counts as the
-- empty text, and approval requests that are no list as none.
use multi_job.Prelude.{
  ℕ, ◌+◌, String, ◌==◌, List, [], ◌∷◌, Option, none, some, filter, length, ltb, ◌≡◌, refl, arith,
}

data StatusApproval : Type 0 where
  pending approved rejected : StatusApproval

-- `labelStatusApproval` and `kelasStatusApproval`
unfoldable label_status_approval : StatusApproval → String
label_status_approval approved = "Disetujui"
label_status_approval rejected = "Ditolak"
label_status_approval pending = "Menunggu"

unfoldable kelas_status_approval : StatusApproval → String
kelas_status_approval approved = "status-baik"
kelas_status_approval rejected = "status-buruk"
kelas_status_approval pending = "status-waspada"

-- `TriggerApprovalFilter`, `none` being "all", and its parameter of the request.
abbrev TriggerApprovalFilter : Type 0
TriggerApprovalFilter = Option StatusApproval

unfoldable label_filter_trigger_approval : TriggerApprovalFilter → String
label_filter_trigger_approval none = "Semua"
label_filter_trigger_approval (some approved) = "Disetujui"
label_filter_trigger_approval (some rejected) = "Ditolak"
label_filter_trigger_approval (some pending) = "Menunggu"

record ApprovalRequest : Type 0 where
  pub approval_id : String
  pub status : StatusApproval
  pub kinds : List String

module _ (to_lower_case : String → String) where
  -- `trigger_requests`
  abbrev trigger_requests : ApprovalRequest → List String
  trigger_requests approval = filter (λ kind. to_lower_case kind == "trigger") approval.kinds

  -- `triggerApprovalRows`
  unfoldable trigger_approval_rows : List ApprovalRequest → List ApprovalRequest
  trigger_approval_rows daftar =
      filter (λ (approval : ApprovalRequest). ltb 0 (length (trigger_requests approval))) daftar

record StatistikApproval : Type 0 where
  pub total : ℕ
  pub pending : ℕ
  pub approved : ℕ
  pub rejected : ℕ

unfoldable tambah_status : StatusApproval → StatistikApproval → StatistikApproval
tambah_status pending acc = record acc { total = acc.total + 1; pending = acc.pending + 1 }
tambah_status approved acc = record acc { total = acc.total + 1; approved = acc.approved + 1 }
tambah_status rejected acc = record acc { total = acc.total + 1; rejected = acc.rejected + 1 }

-- `triggerApprovalStats`, from the numbers that are there
unfoldable trigger_approval_stats : StatistikApproval → List ApprovalRequest → StatistikApproval
unfolding tambah_status
trigger_approval_stats acc [] = acc
trigger_approval_stats acc (row ∷ rows) = trigger_approval_stats (tambah_status row.status acc) rows

tambah_status-kept :
    (status : StatusApproval) (acc : StatistikApproval)
    → acc.total ≡ acc.pending + acc.approved + acc.rejected
    → let t = tambah_status status acc in t.total ≡ t.pending + t.approved + t.rejected
unfolding tambah_status
tambah_status-kept pending acc h = omega (arith, h)
tambah_status-kept approved acc h = omega (arith, h)
tambah_status-kept rejected acc h = omega (arith, h)

tambah_status-total :
    (status : StatusApproval) (acc : StatistikApproval)
    → (tambah_status status acc).total ≡ acc.total + 1
unfolding tambah_status
tambah_status-total pending acc = refl
tambah_status-total approved acc = refl
tambah_status-total rejected acc = refl

-- The total is the number of the rows, and the three states add up to it.
trigger_approval_stats_lem :
    (acc : StatistikApproval) (rows : List ApprovalRequest)
    → acc.total ≡ acc.pending + acc.approved + acc.rejected
    → let s = trigger_approval_stats acc rows in
      (s.total ≡ acc.total + length rows) × (s.total ≡ s.pending + s.approved + s.rejected)
unfolding trigger_approval_stats
trigger_approval_stats_lem acc [] h = (omega arith, h)
trigger_approval_stats_lem acc (row ∷ rows) h =
    let (a, b) =
      trigger_approval_stats_lem (tambah_status row.status acc) rows
        (tambah_status-kept row.status acc h) in
    (omega (arith, a, tambah_status-total row.status acc), b)
