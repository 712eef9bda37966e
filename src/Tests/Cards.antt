-- ===== src/Tests/Cards.antt =====
-- Decks and players.
use mathlib.Core.List.{Perm}
use the_game.Base.{ℕ, ◌-◌, ◌≡◌, refl, true, List, [], ◌∷◌, none, some, arith}
use the_game.Domain.Card.{Card}
use the_game.Domain.Deck.{Deck, empty_deck, pick_card, is_sorted, sort, build, size_mod}
use the_game.Domain.Deck.Order.{sort_lem}
use the_game.Domain.Deck.Building.{numbered, build_lem, build-eq-none}
use the_game.Domain.Deck.Dealing.{deal, countdown, deal_lem}

abbrev card : ℕ → Card
card n = record { value = n }

abbrev three_cards : Deck
three_cards = record { cards = card 3 ∷ card 1 ∷ card 2 ∷ [] }

sort_lem_example :
    (is_sorted (sort three_cards) ≡ true)
    × Perm (sort three_cards).cards three_cards.cards
    × ((e : Deck) → is_sorted e ≡ true → Perm e.cards three_cards.cards → e ≡ sort three_cards)
sort_lem_example = sort_lem three_cards

build_lem_example : (d : Deck) × (build (λ i. 0) 10 4 ≡ some d) × Perm d.cards (numbered 1 4)
build_lem_example = build_lem (λ i. 0) 10 4 (omega arith) (omega arith)

deal_lem_example :
    (d : Deck) × (cs : List Card) × (build (λ i. i) 10 4 ≡ some d)
    × (deal 4 d ≡ some (cs, empty_deck))
    × Perm cs (numbered 1 4)
    × (deal 4 (sort d) ≡ some (countdown 4, empty_deck))
deal_lem_example = deal_lem (λ i. i) 10 4 (omega arith) (omega arith)

build-eq-none_example : build (λ i. 0) 3 (size_mod - 1) ≡ none
build-eq-none_example = build-eq-none (λ i. 0) 3

sorted_three : (sort three_cards).cards ≡ card 1 ∷ card 2 ∷ card 3 ∷ []
unfolding sort
sorted_three = refl

built_three : build (λ i. 0) 4 3 ≡ some (record { cards = card 3 ∷ card 1 ∷ card 2 ∷ [] })
unfolding build
built_three = refl

picked_two : pick_card three_cards ≡ some (card 2, record { cards = card 3 ∷ card 1 ∷ [] })
unfolding pick_card
picked_two = refl
