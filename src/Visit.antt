-- ===== src/Visit.antt =====
-- libs/visit: `VisitorBase` of visitor_base.hpp, and `Visitable::accept` of visitable.hpp on the members
-- that the properties of an instance name, in the order in which they are declared: a member is a
-- field or again an instance. Visit/Properties has the instance itself. A visitor gets a reference to
-- each field and may change it. What is thrown is the text of the `runtime_error`.
pub mod Walk
pub mod Exits
pub mod Properties
pub mod Apart
use the_game.Base.{List, [], ◌∷◌, Option, none, some, Text, codes}

pub data Members (T : Type 0) : Type 0 where
  done : Members T
  field : Text → T → Members T → Members T
  nested : Text → Members T → Members T → Members T

-- The derived class, on its state. It may lack `visit_nested` and `exit_nested`.
pub record Visitor (T S : Type 0) : Type 0 where
  pub visit : Text → T → S → T × S
  pub visit_nested : Option (Text → S → S)
  pub exit_nested : Option (Text → S → S)

-- The instance and the visitor afterwards, and what was thrown.
pub record Outcome (I S : Type 0) : Type 0 where
  pub instance_after : I
  pub state : S
  pub thrown : Option Text

abbrev pub no_visit_nested : Text
no_visit_nested =
    codes "visit_nested is not a member function, please implement it in the derived class"

abbrev pub no_exit_nested : Text
no_exit_nested =
    codes "exit_nested is not a member function, please implement it in the derived class"

module _ {S I : Type 0} where
  -- `visit_nested_base` and `exit_nested_base`, before what comes next; `stopped` is the instance
  -- if the function throws.
  unfoldable pub hook :
      Option (Text → S → S) → Text → Text → S → I → (S → Outcome I S) → Outcome I S
  hook none what name s stopped next = record {
    instance_after = stopped;
    state = s;
    thrown = some what;
  }
  hook (some f) what name s stopped next = next (f name s)

  -- The visit of a member goes on unless something was thrown; `around` puts the member into the
  -- instance.
  unfoldable pub and_then :
      {J : Type 0} → Outcome J S → (J → I) → (J → S → Outcome I S) → Outcome I S
  and_then o around next = elim o.thrown [
    | none ↦ next o.instance_after o.state
    | some what ↦ record {
      instance_after = around o.instance_after;
      state = o.state;
      thrown = some what;
    }
  ]

module _ {T S : Type 0} where
  abbrev pub within : (Members T → Members T) → Outcome (Members T) S → Outcome (Members T) S
  within f o = record o { instance_after = f o.instance_after }

  -- `accept`, through `visit_foreach_property` and `visit_property`.
  unfoldable pub accept : Visitor T S → Members T → S → Outcome (Members T) S
  unfolding hook and_then
  accept v done s = record { instance_after = done; state = s; thrown = none }
  accept v (field name x ms) s =
      let (x', s1) = v.visit name x s in within (field name x') (accept v ms s1)
  accept v (nested name inner ms) s =
      hook v.visit_nested no_visit_nested name s (nested name inner ms) λ s1.
        and_then (accept v inner s1) (λ i. nested name i ms)
          λ i s2.
            hook v.exit_nested no_exit_nested name s2 (nested name i ms)
              λ s3. within (nested name i) (accept v ms s3)
