-- ===== src/Domain/Player.antt =====
-- domain/Player.h: a player, whose `uid_` is the new value of the class's counter, an `int`.
use the_game.Base.{
  map, All, length, ◌≤◌, ◌≡◌, refl, arith, ℕ, ◌+◌, ◌-◌, ◌^◌, List, [], ◌∷◌, Text, Result, ok, fault,
  int_overflow, ltb, if◌then◌else◌, ◌>>=◌,
}
use the_game.Domain.Card.{Card}

pub record Player : Type 0 where
  pub uid : ℕ
  pub name : Text
  pub hand : List Card

abbrev int_max : ℕ
int_max = 2 ^ 31 - 1

-- The constructor: the new counter and the player.
unfoldable pub make_player : Text → ℕ → Result (ℕ × Player)
make_player name n =
    if ltb n int_max
    then ok (n + 1, record { uid = n + 1; name = name; hand = [] })
    else fault int_overflow

-- Players made one after the other.
unfoldable pub make_players : List Text → ℕ → Result (List Player)
unfolding make_player
make_players [] n = ok []
make_players (t ∷ ts) n = do (m, p) ← make_player t n; ps ← make_players ts m; ok (p ∷ ps)

abbrev pub uids_from : ℕ → List Text → List ℕ
uids_from n [] = []
uids_from n (t ∷ ts) = (n + 1) ∷ uids_from (n + 1) ts

-- As long as the counter stays within `int`, players get consecutive identifiers from the counter
-- on, in the order in which they are made; each keeps its name and has no card.
pub make_players_lem :
    (ts : List Text) (n : ℕ)
    → n + length ts ≤ int_max
    → (ps : List Player) × (make_players ts n ≡ ok ps)
      × (map (λ p. p.uid) ps ≡ uids_from n ts)
      × (map (λ p. p.name) ps ≡ ts)
      × All (λ p. p.hand ≡ []) ps
unfolding make_players
make_players_lem [] n h = ([], refl, refl, refl, tt)
make_players_lem (t ∷ ts) n h =
    let (ps, made, uids, names, hands) = make_players_lem ts (n + 1) (omega arith) in
    (record { uid = n + 1; name = t; hand = [] } ∷ ps, ground arith, cc, cc, (refl, hands))
