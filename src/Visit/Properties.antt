-- ===== src/Visit/Properties.antt =====
-- `Property` of libs/visit/property.hpp and `Visitable` of libs/visit/visitable.hpp on an instance of a
-- class `C`. A pointer to a member is how the member is read and how it is written; `T` has the values of
-- the members that are not visitable themselves.
use the_game.Base.{none, Text}
use the_game.Visit.{
  Members, done, field, nested, Visitor, Outcome, hook, and_then, no_visit_nested, no_exit_nested,
}

pub record Property (C M : Type 0) : Type 0 where
  pub name : Text
  -- What `Get` refers to.
  pub get : C → M
  pub set : M → C → C

abbrev pub property : {C M : Type 0} → Text → (C → M) → (M → C → C) → Property C M
property name get set = record { name = name; get = get; set = set }

-- The properties in order; a member with `GetVisitable` comes with what that returns.
pub data Visitable (T : Type 0) : Type 0 → Type 1 where
  no_properties : {C : Type 0} → Visitable T C
  with_value : {C : Type 0} → Property C T → Visitable T C → Visitable T C
  with_nested : {C M : Type 0} → Property C M → Visitable T M → Visitable T C → Visitable T C

module _ {T S : Type 0} (v : Visitor T S) where
  -- `accept` of a `Visitable`, property by property.
  unfoldable pub accept_instance : {C : Type 0} → Visitable T C → C → S → Outcome C S
  unfolding hook and_then
  accept_instance no_properties c s = record { instance_after = c; state = s; thrown = none }
  accept_instance (with_value p ps) c s =
      let (x, s1) = v.visit p.name (p.get c) s in accept_instance ps (p.set x c) s1
  accept_instance (with_nested p inner ps) c s =
      hook v.visit_nested no_visit_nested p.name s c λ s1.
        and_then (accept_instance inner (p.get c) s1) (λ m. p.set m c)
          λ m s2.
            hook v.exit_nested no_exit_nested p.name s2 (p.set m c)
              λ s3. accept_instance ps (p.set m c) s3

-- The members of an instance that the properties name.
abbrev pub members : {T C : Type 0} → Visitable T C → C → Members T
members no_properties c = done
members (with_value p ps) c = field p.name (p.get c) (members ps c)
members (with_nested p inner ps) c = nested p.name (members inner (p.get c)) (members ps c)
