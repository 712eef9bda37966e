-- ===== src/Domain/Deck/Order.antt =====
-- `Deck::IsSorted` and `Deck::Sort` of domain/Deck.cpp against an independent notion of order.
use mathlib.Core.Logic.{∥∥₁_elim}
use mathlib.Core.List.{Perm, Permᴰ}
use mathlib.Core.List.Perm
use the_game.Base.{
  ℕ, ◌≤◌, ◌≡◌, refl, sym, ap, ◌∙◌, ◌↔◌, true, List, [], ◌∷◌, arith, All, Bool-cases, inl, inr,
}
use the_game.Domain.Card.{Card, card_lt}
use the_game.Domain.Deck.{Deck, is_sorted, sorted_cards, sort, sort_cards, insert_card}

abbrev AtLeast : ℕ → List Card → Type 0
AtLeast v = All (λ c. v ≤ c.value)

-- No card stands before a smaller one, however far apart the two are.
abbrev pub Ascending : List Card → Type 0
Ascending [] = Unit
Ascending (c ∷ cs) = AtLeast c.value cs × Ascending cs

AtLeast-mono : {u v : ℕ} (cs : List Card) → u ≤ v → AtLeast v cs → AtLeast u cs
AtLeast-mono [] h a = tt
AtLeast-mono (c ∷ cs) h a = (omega arith, AtLeast-mono cs h a.1)

sorted_cards-Ascending : (cs : List Card) → sorted_cards cs ≡ true → Ascending cs
unfolding sorted_cards
sorted_cards-Ascending [] h = tt
sorted_cards-Ascending (c ∷ []) h = (tt, tt)
sorted_cards-Ascending (c ∷ d ∷ cs) h =
    let rest : Ascending (d ∷ cs) = sorted_cards-Ascending (d ∷ cs) (ground arith) in
    let first : c.value ≤ d.value = ground arith in ((first, AtLeast-mono cs first rest.0), rest)

Ascending-sorted_cards : (cs : List Card) → Ascending cs → sorted_cards cs ≡ true
unfolding sorted_cards
Ascending-sorted_cards [] a = refl
Ascending-sorted_cards (c ∷ []) a = refl
Ascending-sorted_cards (c ∷ d ∷ cs) a = ground (arith, Ascending-sorted_cards (d ∷ cs) a.1)

-- `IsSorted` answers true exactly when no card of the deck stands before a smaller one.
pub is_sorted_iff : (d : Deck) → (is_sorted d ≡ true) ↔ Ascending d.cards
unfolding is_sorted
is_sorted_iff d = (sorted_cards-Ascending d.cards, Ascending-sorted_cards d.cards)

insert_card-AtLeast :
    (v : ℕ) (c : Card) (cs : List Card) → v ≤ c.value → AtLeast v cs → AtLeast v (insert_card c cs)
unfolding insert_card
insert_card-AtLeast v c [] h a = (h, tt)
insert_card-AtLeast v c (d ∷ ds) h a = ground (arith, insert_card-AtLeast v c ds h a.1)

insert_card-Ascending : (c : Card) (cs : List Card) → Ascending cs → Ascending (insert_card c cs)
unfolding insert_card
insert_card-Ascending c [] a = (tt, tt)
insert_card-Ascending c (d ∷ ds) a = elim (Bool-cases (card_lt d c)) [
  | inl less ↦
      rw less (insert_card-AtLeast d.value c ds (ground arith) a.0, insert_card-Ascending c ds a.1)
  | inr more ↦
      let le : c.value ≤ d.value = ground arith in rw more ((le, AtLeast-mono ds le a.0), a)
]

sort_cards-Ascending : (cs : List Card) → Ascending (sort_cards cs)
unfolding sort_cards
sort_cards-Ascending [] = tt
sort_cards-Ascending (c ∷ cs) = insert_card-Ascending c (sort_cards cs) (sort_cards-Ascending cs)

insert_card-perm : (c : Card) (cs : List Card) → Perm (insert_card c cs) (c ∷ cs)
unfolding insert_card
insert_card-perm c [] = Perm.refl (c ∷ [])
insert_card-perm c (d ∷ ds) = elim (Bool-cases (card_lt d c)) [
  | inl less ↦ rw less (Perm.trans (Perm.cons d (insert_card-perm c ds)) (Perm.swap c d ds))
  | inr more ↦ rw more (Perm.refl (c ∷ d ∷ ds))
]

sort_cards-perm : (cs : List Card) → Perm (sort_cards cs) cs
unfolding sort_cards
sort_cards-perm [] = Perm.refl []
sort_cards-perm (c ∷ cs) =
    Perm.trans (insert_card-perm c (sort_cards cs)) (Perm.cons c (sort_cards-perm cs))

-- Cards are equal when neither is less, so the order of equal cards cannot be seen.
insert_card_comm :
    (c d : Card) (cs : List Card)
    → insert_card c (insert_card d cs) ≡ insert_card d (insert_card c cs)
unfolding insert_card
insert_card_comm c d [] = ground arith
insert_card_comm c d (e ∷ cs) = ground (arith, insert_card_comm c d cs)

sort_cards-Permᴰ : {xs ys : List Card} → Permᴰ xs ys → sort_cards xs ≡ sort_cards ys
unfolding sort_cards
sort_cards-Permᴰ Permᴰ.nil = refl
sort_cards-Permᴰ (Permᴰ.cons e p) = cc (sort_cards-Permᴰ p)
sort_cards-Permᴰ (Permᴰ.swap {a} {b} {l = cs} e f) =
    rw (← e, ← f) (insert_card_comm a b (sort_cards cs))
sort_cards-Permᴰ (Permᴰ.trans p q) = sort_cards-Permᴰ p ∙ sort_cards-Permᴰ q

Cards-set : IsSet (List Card)
Cards-set = hlevel

insert_card-first : (c : Card) (cs : List Card) → AtLeast c.value cs → insert_card c cs ≡ c ∷ cs
unfolding insert_card
insert_card-first c [] a = refl
insert_card-first c (d ∷ ds) a = ground arith

sort_cards-fixed : (cs : List Card) → Ascending cs → sort_cards cs ≡ cs
unfolding sort_cards
sort_cards-fixed [] a = refl
sort_cards-fixed (c ∷ cs) a = rw (sort_cards-fixed cs a.1) (insert_card-first c cs a.0)

-- `Sort` leaves a deck that `IsSorted` accepts and that holds the same cards, as often; and it is
-- the only one: whatever deck is sorted and holds the same cards is the result.
pub sort_lem :
    (d : Deck)
    → (is_sorted (sort d) ≡ true)
      × Perm (sort d).cards d.cards
      × ((e : Deck) → is_sorted e ≡ true → Perm e.cards d.cards → e ≡ sort d)
unfolding sort
sort_lem d = (
  (is_sorted_iff (sort d)).1 (sort_cards-Ascending d.cards),
  sort_cards-perm d.cards,
  λ e s p.
      let same : sort_cards e.cards ≡ sort_cards d.cards =
        ∥∥₁_elim p (Cards-set _ _) sort_cards-Permᴰ in
      let fixed : sort_cards e.cards ≡ e.cards = sort_cards-fixed e.cards ((is_sorted_iff e).0 s) in
      ap (λ (cs : List Card). let x : Deck = record { cards = cs } in x) (sym fixed ∙ same),
)
