-- ===== src/Visit/Walk.antt =====
-- The order in which libs/visit/visitable.hpp visits the members of an instance, and when it throws.
use the_game.Base.{
  ◌≡◌, refl, ap, sym, if◌then◌else◌, ◌∙◌, Bool, true, false, List, [], ◌∷◌, ◌++◌, Option, none,
  some, Text,
}
use the_game.Visit.{
  Members, done, field, nested, Visitor, Outcome, accept, hook, and_then, within, no_visit_nested,
  no_exit_nested,
}

-- What a visitor is told.
pub data Visit (T : Type 0) : Type 0 where
  visited : Text → T → Visit T
  entered exited : Text → Visit T

module _ {T : Type 0} where
  -- The members in order, the members of a nested instance between its start and its end.
  abbrev pub visits : Members T → List (Visit T)
  visits done = []
  visits (field name x ms) = visited name x ∷ visits ms
  visits (nested name inner ms) = entered name ∷ (visits inner ++ exited name ∷ visits ms)

  -- The names and how they are nested, without the values.
  abbrev pub shape : Members T → Members (Unit {0})
  shape done = done
  shape (field name x ms) = field name tt (shape ms)
  shape (nested name inner ms) = nested name (shape inner) (shape ms)

  -- The members in front of the first nested one.
  abbrev pub before_nested : Members T → List (Visit T)
  before_nested done = []
  before_nested (field name x ms) = visited name x ∷ before_nested ms
  before_nested (nested name inner ms) = []

  abbrev pub is_flat : Members T → Bool
  is_flat done = true
  is_flat (field name x ms) = is_flat ms
  is_flat (nested name inner ms) = false

module _ {T S : Type 0} (v : Visitor T S) where
  abbrev pub told : (Text → S → S) → (Text → S → S) → List (Visit T) → S → S
  told enter leave [] s = s
  told enter leave (visited name x ∷ es) s = told enter leave es (v.visit name x s).1
  told enter leave (entered name ∷ es) s = told enter leave es (enter name s)
  told enter leave (exited name ∷ es) s = told enter leave es (leave name s)

  told-append :
      (enter leave : Text → S → S) (es fs : List (Visit T)) (s : S)
      → told enter leave (es ++ fs) s ≡ told enter leave fs (told enter leave es s)
  told-append enter leave [] fs s = refl
  told-append enter leave (visited name x ∷ es) fs s =
      told-append enter leave es fs (v.visit name x s).1
  told-append enter leave (entered name ∷ es) fs s = told-append enter leave es fs (enter name s)
  told-append enter leave (exited name ∷ es) fs s = told-append enter leave es fs (leave name s)

  pub hook-some :
      (o : Option (Text → S → S)) (f : Text → S → S) (what name : Text) (s : S)
      (stopped : Members T) (next : S → Outcome (Members T) S)
      → o ≡ some f
      → hook o what name s stopped next ≡ next (f name s)
  unfolding hook
  hook-some o f what name s stopped next h = rw h refl

  pub hook-none :
      (o : Option (Text → S → S)) (what name : Text) (s : S) (stopped : Members T)
      (next : S → Outcome (Members T) S)
      → o ≡ none
      → hook o what name s stopped next
        ≡ record { instance_after = stopped; state = s; thrown = some what }
  unfolding hook
  hook-none o what name s stopped next h = rw h refl

  pub and_then-none :
      (o : Outcome (Members T) S) (around : Members T → Members T)
      (next : Members T → S → Outcome (Members T) S)
      → o.thrown ≡ none
      → and_then o around next ≡ next o.instance_after o.state
  unfolding and_then
  and_then-none o around next h = rw h refl

  pub accept_nested :
      (name : Text) (inner ms : Members T) (s : S)
      → accept v (nested name inner ms) s
        ≡ hook v.visit_nested no_visit_nested name s (nested name inner ms) λ s1.
          and_then
            (accept v inner s1)
            (λ i. nested name i ms)
            λ i s2.
              hook v.exit_nested no_exit_nested name s2
                (nested name i ms)
                λ s3. within (nested name i) (accept v ms s3)
  unfolding accept
  accept_nested name inner ms s = refl

  accept_field :
      (name : Text) (x : T) (ms : Members T) (s : S)
      → accept v (field name x ms) s
        ≡ within (field name (v.visit name x s).0) (accept v ms (v.visit name x s).1)
  unfolding accept
  accept_field name x ms s = refl

  module _ (enter leave : Text → S → S) (has_visit : v.visit_nested ≡ some enter)
      (has_exit : v.exit_nested ≡ some leave) where
    -- What a visitor with both functions finds.
    abbrev pub Completes : Members T → S → Outcome (Members T) S → Type 0
    Completes ms s o =
        (o.thrown ≡ none)
        × (o.state ≡ told enter leave (visits ms) s)
        × (shape o.instance_after ≡ shape ms)

    accept-nested :
        (name : Text) (inner ms : Members T) (s : S)
        → (accept v inner (enter name s)).thrown ≡ none
        → accept v (nested name inner ms) s
          ≡ within
              (nested name (accept v inner (enter name s)).instance_after)
              (accept v ms (leave name (accept v inner (enter name s)).state))
    accept-nested name inner ms s h =
        accept_nested name inner ms s
        ∙ hook-some v.visit_nested enter no_visit_nested name s (nested name inner ms) _ has_visit
        ∙ and_then-none (accept v inner (enter name s)) (λ i. nested name i ms) _ h
        ∙ hook-some v.exit_nested leave no_exit_nested name _ _ _ has_exit

    Completes-nested :
        (name : Text) (inner ms : Members T) (s : S)
        → Completes inner (enter name s) (accept v inner (enter name s))
        → ((s' : S) → Completes ms s' (accept v ms s'))
        → Completes (nested name inner ms) s (accept v (nested name inner ms) s)
    Completes-nested name inner ms s (fine, state, same) rest =
        let o = accept v inner (enter name s) in
        let (fine2, state2, same2) = rest (leave name o.state) in
        rw (accept-nested name inner ms s fine) (
          fine2,
          state2
              ∙ ap (λ x. told enter leave (visits ms) (leave name x)) state
              ∙ sym
                  (told-append enter leave (visits inner) (exited name ∷ visits ms) (enter name s)),
          rw (same, same2) refl,
        )

    -- A visitor that has both `visit_nested` and `exit_nested`: `accept` throws nothing, tells the
    -- visitor of each member once, in the order of the properties, with the members of a nested instance
    -- between its `visit_nested` and its `exit_nested`, and changes no more of the instance than the
    -- values of its fields.
    pub accept-Completes : (ms : Members T) (s : S) → Completes ms s (accept v ms s)
    unfolding accept
    accept-Completes done s = (refl, refl, refl)
    accept-Completes (field name x ms) s =
        let (fine, state, same) = accept-Completes ms (v.visit name x s).1 in
        (fine, state, ap (field name tt) same)
    accept-Completes (nested name inner ms) s =
        Completes-nested name inner ms s (accept-Completes inner (enter name s))
          (accept-Completes ms)

  -- A visitor without `visit_nested`: `accept` throws the text that says so exactly if some member is a
  -- nested instance; up to there, and through all members if there is none, it visits each field.
  pub accept-no_visit_nested :
      (ms : Members T) (s : S)
      → v.visit_nested ≡ none
      → ((accept v ms s).thrown ≡ (if is_flat ms then none else some no_visit_nested))
        × ((accept v ms s).state ≡ told (λ name s'. s') (λ name s'. s') (before_nested ms) s)
        × (shape (accept v ms s).instance_after ≡ shape ms)
  unfolding accept
  accept-no_visit_nested done s h = (refl, refl, refl)
  accept-no_visit_nested (field name x ms) s h =
      let (threw, state, same) = accept-no_visit_nested ms (v.visit name x s).1 h in
      (threw, state, ap (field name tt) same)
  accept-no_visit_nested (nested name inner ms) s h =
      rw
        (accept_nested name inner ms s
          ∙ hook-none v.visit_nested no_visit_nested name s (nested name inner ms) _ h)
        (refl, refl, refl)
