-- ===== src/Automation/Lanes/Dominant.antt =====
-- The dominant priority of a lane has the highest score, and on a tie the more urgent one is it.
use multi_job.Prelude.{ℕ, ◌≤◌, ◌≡◌, arith}
use multi_job.Automation.Request.{PressurePriority, critical, normal, low}
use multi_job.Automation.Lanes.{SkorPrioritas, prioritas_dominan}

pub skor : SkorPrioritas → PressurePriority → ℕ
skor s critical = s.critical
skor s normal = s.normal
skor s low = s.low

-- How urgent a priority is.
pub rank : PressurePriority → ℕ
rank critical = 2
rank normal = 1
rank low = 0

-- No priority has a higher score than the dominant one, and one with the same score is no more
-- urgent.
pub prioritas_dominan-max :
    (s : SkorPrioritas) (p : PressurePriority)
    → (skor s p ≤ skor s (prioritas_dominan s))
      × (skor s p ≡ skor s (prioritas_dominan s) → rank p ≤ rank (prioritas_dominan s))
unfolding prioritas_dominan skor rank
prioritas_dominan-max s critical = ground arith
prioritas_dominan-max s normal = ground arith
prioritas_dominan-max s low = ground arith
