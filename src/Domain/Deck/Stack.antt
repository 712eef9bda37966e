-- ===== src/Domain/Deck/Stack.antt =====
-- The deck as a stack: `AddCard`, `PickCard`, `GetTopCard`, `GetSize` and `IsEmpty` of
-- domain/Deck.cpp together.
use the_game.Base.{
  ◌+◌, ◌≡◌, refl, sym, ap, subst, ◌⊎◌, inl, inr, true, false, List, [], ◌∷◌, ◌++◌, none, some,
  length-append, arith,
}
use the_game.Domain.Card.{Card}
use the_game.Domain.Deck.{
  Deck, last, pop_back, add_card, get_top_card, pick_card, is_empty, get_size,
}

last-append : (cs : List Card) (c : Card) → last (cs ++ c ∷ []) ≡ some c
unfolding last
last-append [] c = refl
last-append (d ∷ []) c = refl
last-append (d ∷ e ∷ cs) c = last-append (e ∷ cs) c

pop_back-append : (cs : List Card) (c : Card) → pop_back (cs ++ c ∷ []) ≡ cs
unfolding pop_back
pop_back-append [] c = refl
pop_back-append (d ∷ []) c = refl
pop_back-append (d ∷ e ∷ cs) c = ap (◌∷◌ d) (pop_back-append (e ∷ cs) c)

pub pick_card-add_card : (d : Deck) (c : Card) → pick_card (add_card d c) ≡ some (c, d)
unfolding pick_card add_card
pick_card-add_card d c = ground (arith, last-append d.cards c, pop_back-append d.cards c)

is_empty-append : (e : List Card) (c : Card) → is_empty (record { cards = e ++ c ∷ [] }) ≡ false
unfolding is_empty
is_empty-append [] c = refl
is_empty-append (d ∷ e) c = refl

-- `c` is the top card of `d`, and `e` is what lies below it.
pub record IsTop (d : Deck) (c : Card) (e : Deck) : Type 0 where
  pub nonempty : is_empty d ≡ false
  pub added : d ≡ add_card e c
  pub top : get_top_card d ≡ some c
  pub picked : pick_card d ≡ some (c, e)
  pub smaller : get_size d ≡ get_size e + 1

-- There is nothing to take.
pub record IsBare (d : Deck) : Type 0 where
  pub empty : is_empty d ≡ true
  pub size : get_size d ≡ 0
  pub top : get_top_card d ≡ none
  pub picked : pick_card d ≡ none

add_card-IsTop : (e : Deck) (c : Card) → IsTop (add_card e c) c e
unfolding add_card get_top_card get_size
add_card-IsTop e c = record {
  nonempty = is_empty-append e.cards c;
  added = refl;
  top = last-append e.cards c;
  picked = pick_card-add_card e c;
  smaller = omega (arith, length-append e.cards (c ∷ []));
}

unsnoc : (c : Card) (cs : List Card) → (e : List Card) × (z : Card) × (c ∷ cs ≡ e ++ z ∷ [])
unsnoc c [] = ([], c, refl)
unsnoc c (d ∷ cs) = let (e, z, p) = unsnoc d cs in (c ∷ e, z, ap (◌∷◌ c) p)

cases_of :
    (cs : List Card)
    → let d : Deck = record { cards = cs } in IsBare d ⊎ ((c : Card) × (e : Deck) × IsTop d c e)
unfolding is_empty get_size get_top_card pick_card add_card
cases_of [] = inl (record { empty = refl; size = refl; top = refl; picked = refl })
cases_of (c ∷ cs) =
    let (e, z, p) = unsnoc c cs in
    inr (
      z,
      record { cards = e },
      subst (λ l. IsTop (record { cards = l }) z (record { cards = e })) (sym p)
          (add_card-IsTop (record { cards = e }) z),
    )

-- Every deck is either empty, where `GetTopCard` and `PickCard` have no card to return, or is some
-- deck with one card added; that card is then the top card, it is what `PickCard` returns,
-- `PickCard` leaves the deck that the card was added to, and `GetSize` falls by one.
pub pick_card_cases : (d : Deck) → IsBare d ⊎ ((c : Card) × (e : Deck) × IsTop d c e)
pick_card_cases d = cases_of d.cards
