-- ===== src/Retention/Guard.antt =====
-- `checkDataLoss` of packages/sync/src/data-loss-guard.ts. A fraction is compared in whole numbers, which
-- gives what division in floating point gives on counts of pages.
use knowtion.Base.{ℕ, ◌-◌, ◌*◌, ◌≤◌, ◌≡◌, ltb, leb, if◌then◌else◌, ◌↔◌, arith}

-- `threshold` is `tenths / 10`.
pub record DataLossGuardOptions : Type 0 where
  pub tenths : ℕ
  pub minimum_pages : ℕ

abbrev pub defaults : DataLossGuardOptions
defaults = record { tenths = 9; minimum_pages = 10 }

pub data DataLossVerdict : Type 0 where
  safe refused : DataLossVerdict

unfoldable pub check_data_loss : DataLossGuardOptions → ℕ → ℕ → DataLossVerdict
check_data_loss options before after =
    if ltb before options.minimum_pages
    then safe
    else if leb before after
    then safe
    else if ltb ((before - after) * 10) (options.tenths * before)
    then safe
    else refused

-- With the default options a transition is refused exactly when there were ten pages or more and at
-- most a tenth of them would be left.
pub check_data_loss-refused :
    (before after : ℕ)
    → (check_data_loss defaults before after ≡ refused) ↔ ((10 ≤ before) × (10 * after ≤ before))
unfolding check_data_loss
check_data_loss-refused before after = ground arith
