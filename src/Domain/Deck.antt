-- ===== src/Domain/Deck.antt =====
-- domain/Deck.h and domain/Deck.cpp. `cards` is the vector, its back (the top of the deck) last.
-- `back` and `pop_back` of an empty vector are undefined: `none`.
pub mod Stack
pub mod Order
pub mod Shuffling
pub mod Building
pub mod Dealing
pub mod Classes
use the_game.Base.{
  ℕ, zero, suc, ◌+◌, ◌%◌, ◌^◌, Bool, true, false, List, [], ◌∷◌, ◌++◌, Option, none, some, length,
  leb, not, if◌then◌else◌,
}
use the_game.Domain.Card.{Card, card_lt}

pub record Deck : Type 0 where
  pub cards : List Card

abbrev pub empty_deck : Deck
empty_deck = record { cards = [] }

-- `vector::back`
unfoldable pub last : List Card → Option Card
last [] = none
last (c ∷ []) = some c
last (c ∷ d ∷ cs) = last (d ∷ cs)

-- `vector::pop_back`
unfoldable pub pop_back : List Card → List Card
pop_back [] = []
pop_back (c ∷ []) = []
pop_back (c ∷ d ∷ cs) = c ∷ pop_back (d ∷ cs)

unfoldable pub add_card : Deck → Card → Deck
add_card d c = record { cards = d.cards ++ c ∷ [] }

unfoldable pub get_top_card : Deck → Option Card
unfolding last
get_top_card d = last d.cards

-- The card, and the deck without it.
unfoldable pub pick_card : Deck → Option (Card × Deck)
unfolding last pop_back
pick_card d = elim (last d.cards) [
  | none ↦ none
  | some c ↦ some (c, record { cards = pop_back d.cards })
]

unfoldable pub is_empty : Deck → Bool
is_empty d = elim d.cards [ [] ↦ true | _ ∷ _ ↦ false ]

unfoldable pub get_size : Deck → ℕ
get_size d = length d.cards

-- `std::is_sorted`: no card is less than the one before it.
unfoldable pub sorted_cards : List Card → Bool
sorted_cards [] = true
sorted_cards (c ∷ []) = true
sorted_cards (c ∷ d ∷ cs) = if card_lt d c then false else sorted_cards (d ∷ cs)

unfoldable pub is_sorted : Deck → Bool
unfolding sorted_cards
is_sorted d = sorted_cards d.cards

-- `std::sort`. Which algorithm the library uses is left open by its contract; this one inserts.
unfoldable pub insert_card : Card → List Card → List Card
insert_card c [] = c ∷ []
insert_card c (d ∷ ds) = if card_lt d c then d ∷ insert_card c ds else c ∷ d ∷ ds

unfoldable pub sort_cards : List Card → List Card
unfolding insert_card
sort_cards [] = []
sort_cards (c ∷ cs) = insert_card c (sort_cards cs)

unfoldable pub sort : Deck → Deck
unfolding sort_cards
sort d = record { cards = sort_cards d.cards }

-- `std::shuffle`: the card at each position i from 1 on is swapped with the one at a drawn position
-- up to i. `place i r c front` does this for the card `c` behind the `front` of length i.
unfoldable pub swap_in : ℕ → Card → List Card → List Card
swap_in r c [] = c ∷ []
swap_in zero c (d ∷ ds) = c ∷ ds ++ d ∷ []
swap_in (suc r) c (d ∷ ds) = d ∷ swap_in r c ds

-- `draw i` is the number that the generator gives for position i, reduced to 0 … i.
unfoldable pub shuffle_from : (ℕ → ℕ) → List Card → List Card → List Card
unfolding swap_in
shuffle_from draw front [] = front
shuffle_from draw front (c ∷ cs) =
    shuffle_from draw (swap_in (draw (length front) % suc (length front)) c front) cs

unfoldable pub shuffle : (ℕ → ℕ) → Deck → Deck
unfolding shuffle_from
shuffle draw d = record { cards = shuffle_from draw [] d.cards }

abbrev pub size_mod : ℕ
size_mod = 2 ^ 64

-- The loop of `Build`, whose counter is a `std::size_t`; `none` when the fuel runs out.
unfoldable pub build_from : ℕ → ℕ → ℕ → Deck → Option Deck
unfolding add_card
build_from zero n i d = none
build_from (suc fuel) n i d =
    let rest = build_from fuel n ((i + 1) % size_mod) (add_card d (record { value = i })) in
    if leb i n then rest else some d

unfoldable pub build : (ℕ → ℕ) → ℕ → ℕ → Option Deck
unfolding build_from shuffle
build draw fuel n = elim (build_from fuel n 1 empty_deck) [
  | none ↦ none
  | some d ↦ some (shuffle draw d)
]
