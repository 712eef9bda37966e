-- ===== src/Domain/Deck/Classes.antt =====
-- Decks of domain/Deck.h up to the order of their cards: what `Shuffle` leaves alone, and what `Sort`
-- depends on.
use mathlib.Core.List.{Perm}
use mathlib.Core.List.Perm
use mathlib.Core.Quot
use mathlib.Core.Quot.{Quot, Quot-set}
use the_game.Base.{ℕ, ◌≡◌, ◌↔◌, refl, Bool, true, ap, sym, ◌∙◌}
use the_game.Domain.Deck.{Deck, is_sorted, sort, shuffle}
use the_game.Domain.Deck.Order.{sort_lem}
use the_game.Domain.Deck.Shuffling.{shuffle-perm}

-- The same cards, each as often.
abbrev pub SameCards : Deck → Deck → Type 0
SameCards d e = Perm d.cards e.cards

-- The cards of a deck in no order.
abbrev pub Bag : Type 0
Bag = Quot SameCards

pub Deck-set : IsSet Deck
Deck-set = hlevel

Bool-set : IsSet Bool
Bool-set = hlevel

pub sort-SameCards : (d e : Deck) → SameCards d e → sort d ≡ sort e
sort-SameCards d e p =
    let (sorted, same, _) = sort_lem d in
    let (_, _, unique) = sort_lem e in unique (sort d) sorted (Perm.trans same p)

-- What `Sort` makes of the cards, in whatever order they come.
abbrev pub in_order : Bag → Deck
in_order = Quot.lift Deck-set sort sort-SameCards

sorted-bag : (d : Deck) → ◌≡◌ {A = Bag} (Quot.mk (sort d)) (Quot.mk d)
sorted-bag d = Quot.sound (sort_lem d).1

in_order-IsSorted : (bag : Bag) → is_sorted (in_order bag) ≡ true
in_order-IsSorted = Quot.ind (λ bag. Bool-set _ _) (λ d. (sort_lem d).0)

bag_of-in_order : (bag : Bag) → Quot.mk (in_order bag) ≡ bag
bag_of-in_order = Quot.ind (λ bag. Quot-set _ _) sorted-bag

-- The decks up to the order of their cards are the sorted decks. To each bag of cards there is a
-- deck in order, which `IsSorted` accepts and which has these cards, and it is what `Sort` makes of any deck
-- with them; `Sort` makes the same of two decks exactly if they are the same bag of cards; and
-- `Shuffle`, whatever the random numbers are, changes neither the bag nor what `Sort` makes of the deck.
pub bags_lem :
    ((bag : Bag) → (is_sorted (in_order bag) ≡ true) × (Quot.mk (in_order bag) ≡ bag))
    × ((d : Deck) → in_order (Quot.mk d) ≡ sort d)
    × ((d e : Deck) → (sort d ≡ sort e) ↔ ◌≡◌ {A = Bag} (Quot.mk d) (Quot.mk e))
    × ((draw : ℕ → ℕ) (d : Deck)
        → ◌≡◌ {A = Bag} (Quot.mk (shuffle draw d)) (Quot.mk d) × (sort (shuffle draw d) ≡ sort d))
bags_lem = (
  λ bag. (in_order-IsSorted bag, bag_of-in_order bag),
  λ d. refl,
  λ d e. (λ same. sym (sorted-bag d) ∙ ap Quot.mk same ∙ sorted-bag e, λ same. ap in_order same),
  λ draw d. (Quot.sound (shuffle-perm draw d), sort-SameCards _ d (shuffle-perm draw d)),
)
