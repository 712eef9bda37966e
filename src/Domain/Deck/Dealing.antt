-- ===== src/Domain/Deck/Dealing.antt =====
-- `Build`, `Sort` and `PickCard` of domain/Deck.h and domain/Deck.cpp one after the other: a deck is
-- made and all its cards are picked.
use mathlib.Core.Logic.{∥∥₁_elim}
use mathlib.Core.List.{Perm, Permᴰ, perm_append_comm}
use mathlib.Core.List.Perm
use the_game.Base.{
  ℕ, zero, suc, ◌+◌, ◌-◌, ◌≤◌, ◌<◌, ◌≡◌, refl, sym, ap, subst, ◌∙◌, List, [], ◌∷◌, ◌++◌, Option,
  none, some, length, arith, All, inl, inr, true,
}
use the_game.Domain.Card.{Card}
use the_game.Domain.Deck.{
  Deck, empty_deck, add_card, pick_card, get_size, is_sorted, sort, build, size_mod,
}
use the_game.Domain.Deck.Stack.{pick_card_cases, pick_card-add_card}
use the_game.Domain.Deck.Order.{Ascending, is_sorted_iff, sort_lem}
use the_game.Domain.Deck.Building.{numbered, length-numbered, build_lem}

-- So many cards picked, in order, and the deck that is left.
abbrev pub deal : ℕ → Deck → Option (List Card × Deck)
deal zero d = some ([], d)
deal (suc n) d = elim (pick_card d) [
  | none ↦ none
  | some (c, e) ↦ elim (deal n e) [ none ↦ none | some (cs, f) ↦ some (c ∷ cs, f) ]
]

-- The cards of values n, n - 1, … , 1.
abbrev pub countdown : ℕ → List Card
countdown zero = []
countdown (suc n) = record { value = suc n } ∷ countdown n

Cards-length : {cs ds : List Card} → Permᴰ cs ds → length cs ≡ length ds
Cards-length Permᴰ.nil = refl
Cards-length (Permᴰ.cons e p) = ap suc (Cards-length p)
Cards-length (Permᴰ.swap e f) = refl
Cards-length (Permᴰ.trans p q) = Cards-length p ∙ Cards-length q

ℕ-set : IsSet ℕ
ℕ-set = hlevel

Perm-length : {cs ds : List Card} → Perm cs ds → length cs ≡ length ds
Perm-length p = ∥∥₁_elim p (ℕ-set _ _) Cards-length

-- All cards are picked, each once.
deal_all :
    (n : ℕ) (d : Deck)
    → get_size d ≡ n
    → (cs : List Card) × (deal n d ≡ some (cs, empty_deck)) × Perm cs d.cards
unfolding get_size add_card
deal_all zero d h = elim (pick_card_cases d) [
  | inl bare ↦ nothing d.cards h
  | inr (c, e, top) ↦ absurd (omega (arith, top.smaller, h))
]
  where
    nothing :
        (cs : List Card)
        → length cs ≡ 0
        → (ds : List Card) × (deal 0 (record { cards = cs }) ≡ some (ds, empty_deck)) × Perm ds cs
    nothing [] none_there = ([], refl, Perm.refl [])
    nothing (c ∷ cs) some_there = absurd (omega (arith, some_there))
deal_all (suc n) d h = elim (pick_card_cases d) [
  | inl bare ↦ absurd (omega (arith, bare.size, h))
  | inr (c, e, top) ↦
      let (cs, dealt, same) = deal_all n e (omega (arith, top.smaller, h)) in
      (
        c ∷ cs,
        ground (arith, top.picked, dealt),
        subst (λ (x : Deck). Perm (c ∷ cs) x.cards) (sym top.added)
            (Perm.trans (Perm.cons c same) (perm_append_comm (c ∷ []) e.cards)),
      )
]

AtLeast-numbered : (v i k : ℕ) → v ≤ i → All (λ (c : Card). v ≤ c.value) (numbered i k)
AtLeast-numbered v i zero h = tt
AtLeast-numbered v i (suc k) h = (h, AtLeast-numbered v (i + 1) k (omega arith))

numbered-Ascending : (i k : ℕ) → Ascending (numbered i k)
numbered-Ascending i zero = tt
numbered-Ascending i (suc k) =
    (AtLeast-numbered i (i + 1) k (omega arith), numbered-Ascending (i + 1) k)

numbered-snoc : (i k : ℕ) → numbered i (suc k) ≡ numbered i k ++ record { value = i + k } ∷ []
numbered-snoc i zero = ap (λ n. let c : Card = record { value = n } in c ∷ []) (omega arith)
numbered-snoc i (suc k) = ap (◌∷◌ (record { value = i })) (
    numbered-snoc (i + 1) k
    ∙ ap (λ n. let c : Card = record { value = n } in numbered (i + 1) k ++ c ∷ []) (omega arith))

deck_of : List Card → Deck
deck_of cs = record { cards = cs }

deal-numbered : (n : ℕ) → deal n (deck_of (numbered 1 n)) ≡ some (countdown n, empty_deck)
unfolding deck_of add_card
deal-numbered zero = refl
deal-numbered (suc n) =
    let c : Card = record { value = suc n } in
    let last_on_top : deck_of (numbered 1 (suc n)) ≡ add_card (deck_of (numbered 1 n)) c =
      ap deck_of (
        numbered-snoc 1 n
        ∙ ap (λ m. let top : Card = record { value = m } in numbered 1 n ++ top ∷ [])
            (omega arith)) in
    let picked : pick_card (deck_of (numbered 1 (suc n))) ≡ some (c, deck_of (numbered 1 n)) =
      ap pick_card last_on_top ∙ pick_card-add_card (deck_of (numbered 1 n)) c in
    ground (arith, picked, deal-numbered n)

-- For every n below the largest `std::size_t` and enough rounds for its loop, `Build n` returns a deck from which n
-- cards can be picked, each of 1 to n once, until it is empty, whatever numbers the shuffle draws;
-- and once the deck has been sorted, they are picked in the order n, n - 1, … , 1.
pub deal_lem :
    (draw : ℕ → ℕ) (fuel n : ℕ)
    → n < size_mod - 1
    → n < fuel
    → (d : Deck) × (cs : List Card) × (build draw fuel n ≡ some d)
      × (deal n d ≡ some (cs, empty_deck))
      × Perm cs (numbered 1 n)
      × (deal n (sort d) ≡ some (countdown n, empty_deck))
unfolding get_size deck_of
deal_lem draw fuel n b f =
    let (d, built, same) = build_lem draw fuel n b f in
    let (_, _, only) = sort_lem d in
    let (cs, dealt, each) = deal_all n d (Perm-length same ∙ length-numbered 1 n) in
    let sorted : is_sorted (deck_of (numbered 1 n)) ≡ true =
      (is_sorted_iff (deck_of (numbered 1 n))).1 (numbered-Ascending 1 n) in
    let ordered : deck_of (numbered 1 n) ≡ sort d =
      only (deck_of (numbered 1 n)) sorted (Perm.symm same) in
    (d, cs, built, dealt, Perm.trans each same, ap (deal n) (sym ordered) ∙ deal-numbered n)
