-- ===== src/Height/Order.antt =====
-- The order of heights, and the steps from one to another.
use ibc_solo_machine.Base.{◌<◌, ◌≡◌, ◌↔◌, ◌⊎◌, arith, Ordering}
use ibc_solo_machine.Height.{Height, cmp}

-- `cmp` answers `lt` exactly when the revision number is smaller, or it is the same and the
-- revision height is smaller.
pub cmp-lt_iff :
    (a b : Height)
    → (cmp a b ≡ Ordering.lt) ↔ (
        (a.revision_number < b.revision_number)
        ⊎ ((a.revision_number ≡ b.revision_number) × (a.revision_height < b.revision_height)))
unfolding cmp
cmp-lt_iff a b = ground arith

pub cmp-eq_iff : (a b : Height) → (cmp a b ≡ Ordering.eq) ↔ (a ≡ b)
unfolding cmp
cmp-eq_iff a b = ground arith

pub cmp_flip : (a b : Height) → (cmp a b ≡ Ordering.gt) ↔ (cmp b a ≡ Ordering.lt)
unfolding cmp
cmp_flip a b = ground arith
