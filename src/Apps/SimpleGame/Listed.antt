-- ===== src/Apps/SimpleGame/Listed.antt =====
-- Which sessions the map of contexts of apps/simple_game/beast.cpp lists.
use the_game.Base.{
  ℕ, ◌≡◌, refl, Bool, true, false, [], ◌∷◌, some, none, Text, Dict, find, nat_eq, list_eq, nat_beq,
  nat_beq_iff, list_beq_iff, arith, Bool-cases, inl, inr, if◌then◌else◌, IsKeyed, All,
}
use the_game.Networking.Boost.{Boost}
use the_game.Apps.Connections.{Server}
use the_game.Apps.Connections.Registry.{IsLive, IsConsistent}

-- Whether an entry of the map has this address.
abbrev pub is_listed : ℕ → Dict Text ℕ → Bool
is_listed id [] = false
is_listed id ((uuid, j) ∷ m) = if nat_beq j id then true else is_listed id m

-- Each entry is what the map has for its key.
abbrev pub Agrees : Dict Text ℕ → Dict Text ℕ → Type 0
Agrees whole = All (λ (e : Text × ℕ). find e.0 whole ≡ some e.1)

Agrees-cons :
    (k : Text) (v : ℕ) (whole m : Dict Text ℕ)
    → find k m ≡ none
    → Agrees whole m
    → Agrees ((k, v) ∷ whole) m
unfolding find
Agrees-cons k v whole [] absent h = tt
Agrees-cons k v whole ((j, w) ∷ m) absent h = (
  ground (arith, absent, h.0, list_beq_iff k j, list_beq_iff j k),
  Agrees-cons k v whole m (ground (arith, absent)) h.1,
)

pub Agrees-self : (m : Dict Text ℕ) → IsKeyed m → Agrees m m
unfolding find
Agrees-self [] h = tt
Agrees-self ((k, v) ∷ m) h =
    (ground (arith, list_beq_iff k k), Agrees-cons k v m m h.0 (Agrees-self m h.1))

listed_entry :
    (id : ℕ) (whole m : Dict Text ℕ)
    → Agrees whole m
    → is_listed id m ≡ true
    → (uuid : Text) × (find uuid whole ≡ some id)
listed_entry id whole [] h l = absurd (ground arith)
listed_entry id whole ((uuid, j) ∷ m) h l = elim (Bool-cases (nat_beq j id)) [
  | inl here ↦ (uuid, ground (arith, h.0, nat_beq_iff j id))
  | inr other ↦ listed_entry id whole m h.1 (ground (arith, other))
]

-- Under one entry for each uuid, what is listed has an entry.
pub entry_of :
    (id : ℕ) (m : Dict Text ℕ)
    → IsKeyed m
    → is_listed id m ≡ true
    → (uuid : Text) × (find uuid m ≡ some id)
entry_of id m k l = listed_entry id m m (Agrees-self m k) l

module _ (b : Boost) where
  -- No other entry has the address of a live one.
  pub unlisted :
      (uuid : Text) (id : ℕ) (st : Server b) (m : Dict Text ℕ)
      → IsLive b st uuid id
      → find uuid m ≡ none
      → All (λ (e : Text × ℕ). IsLive b st e.0 e.1) m
      → is_listed id m ≡ false
  unfolding find
  unlisted uuid id st [] l absent ls = refl
  unlisted uuid id st ((k, j) ∷ m) l absent ls = ground (
    arith,
    nat_beq_iff j id,
    list_beq_iff k uuid,
    l.alive,
    l.named,
    ls.0.alive,
    ls.0.named,
    unlisted uuid id st m l (ground (arith, absent)) ls.1,
  )

  pub All-IsLive :
      (st : Server b) (m : Dict Text ℕ)
      → IsConsistent b st
      → Agrees st.app.ctxs m
      → All (λ (e : Text × ℕ). IsLive b st e.0 e.1) m
  All-IsLive st [] c h = tt
  All-IsLive st ((uuid, id) ∷ m) c h = (c.live uuid id h.0, All-IsLive st m c h.1)
