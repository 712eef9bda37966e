-- ===== src/Base/Keys.antt =====
-- Association lists that hold each key once, as a map does.
use mathlib.Core.Path.{◌≡◌}
use mathlib.Core.List.{[], ◌∷◌}
use mathlib.Core.Option.{none}
use native.Mathlib.Omega.{arith}
use the_game.Base.Tests.{Eq}
use the_game.Base.Dicts.{Dict, find, assign, erase, find-assign, find-erase}

module _ {ℓ κ} {K : Type ℓ} {V : Type κ} ⦃e : Eq K⦄ where
  abbrev pub IsKeyed : Dict K V → Type κ
  IsKeyed [] = Unit
  IsKeyed ((k, v) ∷ m) = (find k m ≡ none) × IsKeyed m

  pub assign-IsKeyed : (k : K) (v : V) (m : Dict K V) → IsKeyed m → IsKeyed (assign k v m)
  unfolding find assign
  assign-IsKeyed k v [] h = ground arith
  assign-IsKeyed k v ((j, w) ∷ m) h =
      ground (arith, e.beq_iff j k, e.beq_iff k j, assign-IsKeyed k v m h.1, find-assign k j v m)

  pub erase-IsKeyed : (k : K) (m : Dict K V) → IsKeyed m → IsKeyed (erase k m)
  unfolding find erase
  erase-IsKeyed k [] h = tt
  erase-IsKeyed k ((j, w) ∷ m) h =
      ground (arith, e.beq_iff j k, e.beq_iff k j, erase-IsKeyed k m h.1, find-erase k j m)
