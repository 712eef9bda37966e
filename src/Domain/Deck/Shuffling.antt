-- ===== src/Domain/Deck/Shuffling.antt =====
-- `Deck::Shuffle` of domain/Deck.cpp, whatever the random numbers are.
use mathlib.Core.List.{Perm, perm_middle, perm_append_comm}
use mathlib.Core.List.Perm
use the_game.Base.{ℕ, zero, suc, ◌%◌, List, [], ◌∷◌, ◌++◌, length, append-nil}
use the_game.Domain.Card.{Card}
use the_game.Domain.Deck.{Deck, shuffle, shuffle_from, swap_in}

swap_in-perm : (r : ℕ) (c : Card) (front : List Card) → Perm (swap_in r c front) (c ∷ front)
unfolding swap_in
swap_in-perm zero c [] = Perm.refl (c ∷ [])
swap_in-perm (suc r) c [] = Perm.refl (c ∷ [])
swap_in-perm zero c (d ∷ ds) = Perm.cons c (perm_append_comm ds (d ∷ []))
swap_in-perm (suc r) c (d ∷ ds) = Perm.trans (Perm.cons d (swap_in-perm r c ds)) (Perm.swap c d ds)

shuffle_from-perm :
    (draw : ℕ → ℕ) (front cs : List Card) → Perm (shuffle_from draw front cs) (front ++ cs)
unfolding shuffle_from
shuffle_from-perm draw front [] = rw (append-nil front) (Perm.refl front)
shuffle_from-perm draw front (c ∷ cs) =
    Perm.trans
      (shuffle_from-perm draw (swap_in (draw (length front) % suc (length front)) c front) cs)
      (Perm.trans
        (Perm.append_right cs (swap_in-perm (draw (length front) % suc (length front)) c front))
        (Perm.symm (perm_middle front cs)))

-- Whatever numbers are drawn, `Shuffle` leaves the same cards in the deck, each as often.
pub shuffle-perm : (draw : ℕ → ℕ) (d : Deck) → Perm (shuffle draw d).cards d.cards
unfolding shuffle
shuffle-perm draw d = shuffle_from-perm draw [] d.cards
