-- ===== src/Bitcoins/Sighash/Laws.antt =====
-- The bytes of the sighash modes (bitcoins/src/types/tx.rs).
use bitcoins_rs.Base.{arith, ok, ok-injective, refl, sym, ℕ, ◌<◌, ◌↔◌, ◌∙◌, ◌≡◌}
use bitcoins_rs.Bitcoins.Sighash.{
  Sighash, all, all_acp, from_u8, none_acp, single, single_acp, to_u8,
}

-- A byte gives a mode exactly if it is that mode's byte.
pub from_u8_lem : (b : ℕ) (flag : Sighash) → (from_u8 b ≡ ok flag) ↔ (b ≡ to_u8 flag)
unfolding from_u8 to_u8
from_u8_lem b all = (ground arith, λ h. rw h)
from_u8_lem b Sighash.none = (ground arith, λ h. rw h)
from_u8_lem b single = (ground arith, λ h. rw h)
from_u8_lem b all_acp = (ground arith, λ h. rw h)
from_u8_lem b none_acp = (ground arith, λ h. rw h)
from_u8_lem b single_acp = (ground arith, λ h. rw h)

pub to_u8-IsByte : (flag : Sighash) → to_u8 flag < 256
unfolding to_u8
to_u8-IsByte all = omega arith
to_u8-IsByte Sighash.none = omega arith
to_u8-IsByte single = omega arith
to_u8-IsByte all_acp = omega arith
to_u8-IsByte Sighash.none_acp = omega arith
to_u8-IsByte single_acp = omega arith

pub to_u8-injective : (f g : Sighash) → to_u8 f ≡ to_u8 g → f ≡ g
to_u8-injective f g e =
    ok-injective (sym ((from_u8_lem (to_u8 f) f).1 refl) ∙ (from_u8_lem (to_u8 f) g).1 e)
