-- ===== src/Networking/Http/Method.antt =====
-- `HttpMethod` of networking/http/common.hpp, and `ConvertVerbBeast` of
-- networking/http/beast_utils.hpp. `http::verb` is Boost's: a parameter, with its equality and the
-- six enumerators that the table names.
use the_game.Base.{
  ℕ, ◌≡◌, refl, ◌≢◌, ◌↔◌, Bool, List, [], ◌∷◌, Eq, nat_beq, ◌==◌, if◌then◌else◌, arith, All, true,
}

pub data HttpMethod : Type 0 where
  unknown get post put delete patch : HttpMethod

-- The enumerators' values.
abbrev ordinal : HttpMethod → ℕ
ordinal unknown = 0
ordinal get = 1
ordinal post = 2
ordinal put = 3
ordinal delete = 4
ordinal patch = 5

abbrev pub method_beq : HttpMethod → HttpMethod → Bool
method_beq a b = nat_beq (ordinal a) (ordinal b)

pub method_beq_iff : (a b : HttpMethod) → (method_beq a b ≡ true) ↔ (a ≡ b)
method_beq_iff a b = ground arith

instance abbrev pub method_eq : Eq HttpMethod
method_eq = record { beq = method_beq; beq_iff = method_beq_iff }

-- Any two entries of the list differ.
abbrev pub Distinct {ℓ} : {A : Type ℓ} → List A → Type ℓ
Distinct [] = Unit
Distinct (x ∷ xs) = All (λ y. x ≢ y) xs × Distinct xs

-- Boost's `http::verb`. The enumerators are different values.
pub record Verbs : Type 1 where
  pub Verb : Type 0
  pub eq : Eq Verb
  pub verb_get : Verb
  pub verb_post : Verb
  pub verb_put : Verb
  pub verb_delete : Verb
  pub verb_patch : Verb
  pub verb_unknown : Verb
  pub distinct :
      Distinct (verb_get ∷ verb_post ∷ verb_put ∷ verb_delete ∷ verb_patch ∷ verb_unknown ∷ [])

module _ (vs : Verbs) where
  open vs use {
    Verb, eq, verb_get, verb_post, verb_put, verb_delete, verb_patch, verb_unknown, distinct,
  }

  -- The table `map`.
  abbrev verb_map : List (Verb × HttpMethod)
  verb_map =
      (verb_get, get)
      ∷ (verb_post, post)
      ∷ (verb_put, put)
      ∷ (verb_delete, delete)
      ∷ (verb_patch, patch)
      ∷ (verb_unknown, unknown)
      ∷ []

  -- The two loops of `find`.
  unfoldable pub find_method : Verb → List (Verb × HttpMethod) → HttpMethod
  find_method value [] = unknown
  find_method value ((v, m) ∷ map) = if ◌==◌ ⦃e = eq⦄ v value then m else find_method value map

  unfoldable pub find_verb : HttpMethod → List (Verb × HttpMethod) → Verb
  find_verb value [] = verb_unknown
  find_verb value ((v, m) ∷ map) = if m == value then v else find_verb value map

  -- `ConvertVerbBeast` at each of the two types that it takes.
  unfoldable pub method_of_verb : Verb → HttpMethod
  unfolding find_method
  method_of_verb value = find_method value verb_map

  unfoldable pub verb_of_method : HttpMethod → Verb
  unfolding find_verb
  verb_of_method value = find_verb value verb_map

  reads_iff :
      (m : HttpMethod) (v : Verb) → m ≢ unknown → (method_of_verb v ≡ m) ↔ (v ≡ verb_of_method m)
  unfolding method_of_verb verb_of_method
  reads_iff unknown v h = absurd (h refl)
  reads_iff _ v h = ground (
    arith,
    eq.beq_iff verb_get v,
    eq.beq_iff verb_post v,
    eq.beq_iff verb_put v,
    eq.beq_iff verb_delete v,
    eq.beq_iff verb_patch v,
    eq.beq_iff verb_unknown v,
    distinct,
  )

  reads_unknown : method_of_verb verb_unknown ≡ unknown
  unfolding method_of_verb
  reads_unknown = ground (
    arith,
    eq.beq_iff verb_get verb_unknown,
    eq.beq_iff verb_post verb_unknown,
    eq.beq_iff verb_put verb_unknown,
    eq.beq_iff verb_delete verb_unknown,
    eq.beq_iff verb_patch verb_unknown,
    distinct,
  )

  -- Every method survives the way to a verb and back, and a verb is read as a method other than
  -- UNKNOWN exactly when it is the verb that the method is written as.
  pub method_of_verb_lem :
      (m : HttpMethod)
      → (method_of_verb (verb_of_method m) ≡ m)
        × ((v : Verb) → m ≢ unknown → (method_of_verb v ≡ m) ↔ (v ≡ verb_of_method m))
  unfolding method_of_verb verb_of_method
  method_of_verb_lem unknown = (reads_unknown, λ v h. absurd (h refl))
  method_of_verb_lem get = ((reads_iff get verb_get (λ e. cc)).1 refl, reads_iff get)
  method_of_verb_lem post = ((reads_iff post verb_post (λ e. cc)).1 refl, reads_iff post)
  method_of_verb_lem put = ((reads_iff put verb_put (λ e. cc)).1 refl, reads_iff put)
  method_of_verb_lem delete = ((reads_iff delete verb_delete (λ e. cc)).1 refl, reads_iff delete)
  method_of_verb_lem patch = ((reads_iff patch verb_patch (λ e. cc)).1 refl, reads_iff patch)
