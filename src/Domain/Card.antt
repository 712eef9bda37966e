-- ===== src/Domain/Card.antt =====
-- domain/Card.h: a card is its value, a `std::size_t`.
use the_game.Base.{ℕ, Bool, ltb, nat_beq}

pub record Card : Type 0 where
  pub value : ℕ

-- `operator<` and `operator==`
abbrev pub card_lt : Card → Card → Bool
card_lt a b = ltb a.value b.value

abbrev pub card_eq : Card → Card → Bool
card_eq a b = nat_beq a.value b.value

unfoldable pub get_value : Card → ℕ
get_value c = c.value
