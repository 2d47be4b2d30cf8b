-- ===== src/Upgrade/Quantity.antt =====
-- src/v1.cpp: the quantity of a statistic when it grows from 32 bits to 64.
use databento_cpp.Base.{ℕ, ◌+◌, ◌^◌, ◌≤◌, ◌<◌, ◌≡◌, ◌↔◌, arith}
use databento_cpp.Upgrade.Messages.{
  upgrade_quantity, undef_stat_quantity_v1, undef_stat_quantity_v3,
}

-- For every `int32_t`: the quantity comes out undefined exactly when it was undefined; else a
-- non-negative one keeps its bit pattern, and a negative one stands as far below 2^64 as it stood
-- below 2^32, so both keep their value.
pub upgrade_quantity_lem :
    (quantity : ℕ)
    → quantity < 2 ^ 32
    → ((upgrade_quantity quantity ≡ undef_stat_quantity_v3) ↔ (quantity ≡ undef_stat_quantity_v1))
      × (quantity < undef_stat_quantity_v1 → upgrade_quantity quantity ≡ quantity)
      × (2 ^ 31 ≤ quantity → upgrade_quantity quantity + 2 ^ 32 ≡ quantity + 2 ^ 64)
unfolding upgrade_quantity
upgrade_quantity_lem quantity h =
    ((λ e. ground arith, λ e. ground arith), λ l. ground arith, λ l. ground arith)
