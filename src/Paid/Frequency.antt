-- ===== src/Paid/Frequency.antt =====
-- backend/services/paid_frequency.py.
use connextion_z_luna.Prelude.{
  ℕ, ℤ, pos, negsuc, String, Bool, true, false, ◌||◌, ltb, leb, ◌*◌, ◌-◌, Option, none, some,
  if◌then◌else◌,
}
use connextion_z_luna.Errors.{Error, Result, ok, err, ◌>>◌, raise_if}
use connextion_z_luna.Paid.Model.{PaidCampaign}
use connextion_z_luna.Paid.Database.{Database}

pub data FrequencyStatus : Type 0 where
  allowed capped attribution_unavailable not_checked : FrequencyStatus

pub record FrequencyEligibility : Type 0 where
  pub status : FrequencyStatus
  pub impressions : Option ℕ
  pub reason : Option String

abbrev pub is_allowed : FrequencyEligibility → Bool
is_allowed e = elim e.status [ FrequencyStatus.allowed ↦ true | _ ↦ false ]

-- `PaidImpressionHistoryReader`: viewer, campaign, start and end of the window.
abbrev pub PaidImpressionHistoryReader : Type 0
PaidImpressionHistoryReader = ℕ → ℕ → ℕ → ℕ → Database → Result ℤ

abbrev pub microseconds : ℕ → ℕ
microseconds seconds = seconds * 1000000

-- What follows the count of the viewer's impressions.
unfoldable pub decide : ℕ → Result ℤ → Result FrequencyEligibility
decide cap (err (Error.history_unavailable reason)) = ok (record {
  status = FrequencyStatus.attribution_unavailable;
  impressions = none;
  reason = some reason;
})
decide cap (err e) = err e
decide cap (ok (negsuc n)) =
    err (Error.value_error "Paid impression history must return a nonnegative integer count")
decide cap (ok (pos n)) = ok (record {
  status = if ltb n cap then FrequencyStatus.allowed else FrequencyStatus.capped;
  impressions = some n;
  reason = none;
})

-- A time before the year 1 overflows.
unfoldable pub check_window :
    PaidImpressionHistoryReader → ℕ → ℕ → ℕ → ℕ → ℕ → Database → Result FrequencyEligibility
unfolding decide
check_window history cap window campaign_id viewer_id now s = do
  raise_if (leb cap 0 || leb window 0)
      (Error.value_error "Frequency cap and window must be positive integers specified together")
  raise_if (ltb now (microseconds window)) Error.overflow_error
  decide cap (history viewer_id campaign_id (now - microseconds window) now s)

unfoldable pub check_pair :
    PaidImpressionHistoryReader
    → Option ℕ
    → Option ℕ
    → ℕ
    → ℕ
    → ℕ
    → Database
    → Result FrequencyEligibility
unfolding check_window
check_pair history none none campaign_id viewer_id now s =
    ok (record { status = FrequencyStatus.allowed; impressions = none; reason = none })
check_pair history (some cap) (some window) campaign_id viewer_id now s =
    check_window history cap window campaign_id viewer_id now s
check_pair history _ _ campaign_id viewer_id now s =
    err (Error.value_error "Frequency cap and window must be positive integers specified together")

unfoldable pub check :
    PaidImpressionHistoryReader → PaidCampaign → ℕ → ℕ → Database → Result FrequencyEligibility
unfolding check_pair
check history campaign viewer_id now s =
    check_pair history campaign.frequency_cap campaign.frequency_window_seconds campaign.id
      viewer_id now s
