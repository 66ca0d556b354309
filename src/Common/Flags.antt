-- ===== src/Common/Flags.antt =====
-- bryllite-common/enum.hpp and clog.hpp: setting and clearing a level in a filter.
use bcp_concept_prototype.Prelude.{ℕ, zero, suc, ◌^◌, ◌<◌, ◌≡◌, refl, Bool, true, ◌&&◌, arith, ◌==◌}
use bcp_concept_prototype.Common.Bits.{enum_and, enum_not, and_assign, or_assign}
use bcp_concept_prototype.Common.Log.{
  Level, off, fatal, error, warning, notice, verbose, info, debug, trace, user, all_levels,
  level_value,
}

all_under : ℕ → (ℕ → Bool) → Bool
all_under zero p = true
all_under (suc n) p = p n && all_under n p

all_under_sound : (n : ℕ) (p : ℕ → Bool) (x : ℕ) → all_under n p ≡ true → x < n → p x ≡ true
unfolding all_under
all_under_sound zero p x h l = absurd (omega arith)
all_under_sound (suc n) p x h l = ground (arith, all_under_sound n p x)

abbrev set_and_cleared : ℕ → ℕ → Bool
set_and_cleared value mask =
    enum_and (or_assign mask value) value == value
    && enum_and (and_assign mask (enum_not 32 value)) value == 0

levels_checked : (l : Level) → all_under 512 (set_and_cleared (level_value l)) ≡ true
unfolding level_value all_under enum_and enum_not and_assign or_assign
levels_checked off = refl
levels_checked fatal = refl
levels_checked error = refl
levels_checked warning = refl
levels_checked notice = refl
levels_checked verbose = refl
levels_checked info = refl
levels_checked debug = refl
levels_checked trace = refl
levels_checked user = refl
levels_checked all_levels = refl

-- In a filter of the nine levels, a level that |= sets is there by &, and after &= with its ~
-- nothing of it is there.
pub or_assign-enum_and :
    (l : Level) (mask : ℕ)
    → mask < 2 ^ 9
    → (enum_and (or_assign mask (level_value l)) (level_value l) ≡ level_value l)
      × (enum_and (and_assign mask (enum_not 32 (level_value l))) (level_value l) ≡ 0)
or_assign-enum_and l mask h =
    ground (arith, all_under_sound 512 (set_and_cleared (level_value l)) mask (levels_checked l) h)
