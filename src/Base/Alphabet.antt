-- ===== src/Base/Alphabet.antt =====
-- The order of texts by their code units, `left < right` on strings.
use Prim.Native.Nat.{compare}
use mathlib.Core.Bool.{Bool, true, false}
use mathlib.Core.Path.{◌≡◌}
use native.Mathlib.Omega.{arith}
use salience.Base.Texts.{Text, text_eq, text_eq_iff}
use salience.Base.Order.{
  IsTotalOrder, compare_list, compare_list-IsTotalOrder, compare-IsTotalOrder, is_lt,
}

abbrev pub lower : Text → Text → Bool
lower a b = is_lt (compare_list compare a b)

text_order : IsTotalOrder (compare_list compare)
text_order = compare_list-IsTotalOrder compare-IsTotalOrder

pub lower_trans : (a b c : Text) → lower a b ≡ true → lower b c ≡ true → lower a c ≡ true
lower_trans a b c h k = ground (arith, text_order.trans a b c)

pub lower_irrefl : (a : Text) → lower a a ≡ false
lower_irrefl a = ground (arith, text_order.self a)

pub lower_total : (a b : Text) → lower a b ≡ false → text_eq a b ≡ false → lower b a ≡ true
lower_total a b h k = ground (arith, text_order.swap a b, text_order.eq a b, text_eq_iff a b)

pub lower_asym : (a b : Text) → lower a b ≡ true → lower b a ≡ false
lower_asym a b h = ground (arith, h, lower_trans a b a, lower_irrefl a)

pub not_lower_trans : (a b c : Text) → lower b a ≡ false → lower c b ≡ false → lower c a ≡ false
not_lower_trans a b c h k =
    ground (arith, h, k, text_eq_iff c b, lower_total c b, lower_trans b c a)
