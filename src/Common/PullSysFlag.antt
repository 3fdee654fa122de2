-- ===== src/Common/PullSysFlag.antt =====
-- src/common/PullSysFlag.cpp: the flags of a pull request, as the bits of a number that is not negative.
use test.Prelude.{ℕ, ◌+◌, ◌-◌, ◌/◌, ◌%◌, ◌≡◌, refl, Bool, true, false, ◌==◌, if◌then◌else◌}

unfoldable pub build_sys_flag : Bool → Bool → Bool → ℕ
build_sys_flag commit_offset suspend subscription =
    (if commit_offset then 1 else 0)
    + ((if suspend then 2 else 0) + (if subscription then 4 else 0))

unfoldable pub clear_commit_offset_flag : ℕ → ℕ
clear_commit_offset_flag sys_flag = sys_flag - sys_flag % 2

unfoldable pub has_commit_offset_flag : ℕ → Bool
has_commit_offset_flag sys_flag = sys_flag % 2 == 1

unfoldable pub has_suspend_flag : ℕ → Bool
has_suspend_flag sys_flag = sys_flag / 2 % 2 == 1

unfoldable pub has_subscription_flag : ℕ → Bool
has_subscription_flag sys_flag = sys_flag / 4 % 2 == 1

-- Each flag that is built is read back, and the one that is cleared is gone while the others stay.
pub has_flag-build_sys_flag :
    (c s b : Bool)
    → let flag = build_sys_flag c s b in
      let cleared = clear_commit_offset_flag flag in
      (has_commit_offset_flag flag ≡ c)
      × (has_suspend_flag flag ≡ s)
      × (has_subscription_flag flag ≡ b)
      × (has_commit_offset_flag cleared ≡ false)
      × (has_suspend_flag cleared ≡ s)
      × (has_subscription_flag cleared ≡ b)
unfolding build_sys_flag clear_commit_offset_flag has_commit_offset_flag has_suspend_flag
    has_subscription_flag
has_flag-build_sys_flag true true true = (refl, refl, refl, refl, refl, refl)
has_flag-build_sys_flag true true false = (refl, refl, refl, refl, refl, refl)
has_flag-build_sys_flag true false true = (refl, refl, refl, refl, refl, refl)
has_flag-build_sys_flag true false false = (refl, refl, refl, refl, refl, refl)
has_flag-build_sys_flag false true true = (refl, refl, refl, refl, refl, refl)
has_flag-build_sys_flag false true false = (refl, refl, refl, refl, refl, refl)
has_flag-build_sys_flag false false true = (refl, refl, refl, refl, refl, refl)
has_flag-build_sys_flag false false false = (refl, refl, refl, refl, refl, refl)
