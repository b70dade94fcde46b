-- ===== src/Timelock/Examples.antt =====
-- The timelock theorems at the default parameters (swap-common/src/timelock.rs).
use pubky_swap.Prelude.{◌≡◌, refl, ◌↔◌, ◌≤◌, ◌+◌, ◌-◌, ok, arith}
use pubky_swap.Timelock.{
  default_params, check_reverse_before_fund, onchain_timeout, reverse_invoice_cltv_delta,
}
use pubky_swap.Timelock.Reverse.{check_reverse_before_fund-ok, issued_terms_pass}

check_reverse_before_fund-ok_example :
    (check_reverse_before_fund 800_000 800_144 800_186 default_params ≡ ok tt)
    ↔ ((800_144 + 18 + 24 ≤ 800_186) × (1 + 18 + 18 ≤ 800_144 - 800_000))
check_reverse_before_fund-ok_example =
    check_reverse_before_fund-ok 800_000 800_144 800_186 default_params (omega arith) (omega arith)

issued_terms_pass_example :
    check_reverse_before_fund 800_100 800_144 (800_003 + 216) default_params ≡ ok tt
unfolding onchain_timeout reverse_invoice_cltv_delta
issued_terms_pass_example =
    issued_terms_pass 800_000 800_100 800_003 800_144 216 default_params refl refl (omega arith)
      (omega arith) (omega arith)
