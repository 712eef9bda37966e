-- ===== src/Domain/Deck/Building.antt =====
-- `Deck::Build` of domain/Deck.h: the loop over a `std::size_t`, then the shuffle.
use mathlib.Core.List.{Perm}
use the_game.Base.{
  ℕ, zero, suc, ◌+◌, ◌-◌, ◌<◌, ◌≡◌, refl, ap, List, [], ◌∷◌, ◌++◌, none, some, arith, append-nil,
  append_assoc, ◌%◌, ◌∙◌, true, leb, length,
}
use the_game.Domain.Card.{Card}
use the_game.Domain.Deck.{Deck, empty_deck, add_card, build, build_from, size_mod, shuffle}
use the_game.Domain.Deck.Shuffling.{shuffle-perm}

-- The cards of values i, i + 1, … , k of them.
abbrev pub numbered : ℕ → ℕ → List Card
numbered i zero = []
numbered i (suc k) = record { value = i } ∷ numbered (i + 1) k

abbrev deck_of : List Card → Deck
deck_of cs = record { cards = cs }

build_from_lem :
    (fuel n i k : ℕ) (d : Deck)
    → n < size_mod - 1
    → i + k ≡ n + 1
    → k < fuel
    → build_from fuel n i d ≡ some (record { cards = d.cards ++ numbered i k })
unfolding build_from
build_from_lem zero n i k d b e f = absurd (omega arith)
build_from_lem (suc fuel) n i zero d b e f = ground (arith, append-nil d.cards)
build_from_lem (suc fuel) n i (suc k) d b e f =
    let goes : leb i n ≡ true = ground arith in
    let small : (i + 1) % size_mod ≡ i + 1 = omega arith in
    let c : Card = record { value = i } in
    let rest : build_from fuel n (i + 1) (add_card d c)
        ≡ some (record { cards = (add_card d c).cards ++ numbered (i + 1) k }) =
      build_from_lem fuel n (i + 1) k (add_card d c) b (omega arith) (omega arith) in
    rw (goes, small)
      (rest
        ∙ ap (λ (cs : List Card). some (deck_of cs))
            (append_assoc d.cards (c ∷ []) (numbered (i + 1) k)))

pub length-numbered : (i k : ℕ) → length (numbered i k) ≡ k
length-numbered i zero = refl
length-numbered i (suc k) = ap suc (length-numbered (i + 1) k)

-- For every n below the largest `std::size_t` and enough rounds for the loop, `Build n` returns a
-- deck that holds each card from 1 to n once and no other, whatever numbers the shuffle draws.
pub build_lem :
    (draw : ℕ → ℕ) (fuel n : ℕ)
    → n < size_mod - 1
    → n < fuel
    → (d : Deck) × (build draw fuel n ≡ some d) × Perm d.cards (numbered 1 n)
unfolding build
build_lem draw fuel n b f =
    let made : build_from fuel n 1 empty_deck ≡ some (deck_of (numbered 1 n)) =
      build_from_lem fuel n 1 n empty_deck b (omega arith) f in
    (shuffle draw (deck_of (numbered 1 n)), ground arith, shuffle-perm draw _)

build_from-eq-none :
    (fuel i : ℕ) (d : Deck) → i < size_mod → build_from fuel (size_mod - 1) i d ≡ none
unfolding build_from
build_from-eq-none zero i d h = refl
build_from-eq-none (suc fuel) i d h =
    let goes : leb i (size_mod - 1) ≡ true = ground arith in
    rw goes (
      build_from-eq-none fuel ((i + 1) % size_mod) (add_card d (record { value = i }))
        (omega arith))

-- The loop's condition holds for every counter when n is the largest `std::size_t`: then `Build`
-- does not return, however many rounds it is given.
pub build-eq-none : (draw : ℕ → ℕ) (fuel : ℕ) → build draw fuel (size_mod - 1) ≡ none
unfolding build
build-eq-none draw fuel = rw (build_from-eq-none fuel 1 empty_deck (omega arith), build)
