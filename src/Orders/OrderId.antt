-- ===== src/Orders/OrderId.antt =====
-- app/order-service/src/modules/orders/order-id.ts. The pattern is run on the code points.
use kafka_nest_playground.Prelude.{
  ℕ, zero, suc, String, Bool, true, false, List, [], ◌∷◌, leb, eqb, ◌&&◌, ◌||◌,
}
use kafka_nest_playground.Prelude.Text.{codes}
use kafka_nest_playground.Prelude.Tx.{Result, Error, guard}

-- `[0-9a-f]` under the flag `i`.
abbrev pub is_hex : ℕ → Bool
is_hex c = (leb b'0' c && leb c b'9') || (leb b'a' c && leb c b'f') || (leb b'A' c && leb c b'F')

-- `[0-9a-f]{n}` and then a dash and the groups that are left, or the end of the text.
unfoldable pub match_groups : (n : ℕ) (groups : List ℕ) → List ℕ → Bool
match_groups zero [] [] = true
match_groups zero [] (c ∷ cs) = false
match_groups zero (m ∷ groups) [] = false
match_groups zero (m ∷ groups) (c ∷ cs) = eqb c b'-' && match_groups m groups cs
match_groups (suc n) groups [] = false
match_groups (suc n) groups (c ∷ cs) = is_hex c && match_groups n groups cs

-- `UUID_PATTERN.test(text)`.
unfoldable pub is_uuid : String → Bool
unfolding match_groups
is_uuid text = match_groups 8 (4 ∷ 4 ∷ 4 ∷ 12 ∷ []) (codes text)

unfoldable pub assert_valid_order_id : String → Result (Unit {0})
assert_valid_order_id order_id = guard (is_uuid order_id) (Error.non_retryable "INVALID_ORDER_ID")
