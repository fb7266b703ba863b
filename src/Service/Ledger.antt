-- ===== src/Service/Ledger.antt =====
-- What service.py promises about the context managers that it enters: a ledger of what was entered
-- and left, and of what each tunnel holds, with the four ways in which it may change.
pub mod Conservation
pub mod Handlers
pub mod Rounds
pub mod Refinement
use mathlib.Core.List.{reverse}
use vpn_passthrough.Prelude.{String, string_eq, ◌≡◌, false, some, List, [], ◌∷◌, ◌++◌, map, or_else}
use vpn_passthrough.Prelude.Dict.{Dict, lookup, contains, insert, erase}
use vpn_passthrough.Service.State.{Resource, Action, acquire, release, Service}

-- The stack of a tunnel has the last entered at its head.
pub record Ledger : Type 0 where
  pub trace : List Action
  pub stacks : Dict String (List Resource)

-- What was entered is left again, the last entered first.
abbrev pub failed_with : List Resource → Ledger → Ledger
failed_with rs l = record l { trace = l.trace ++ (map acquire rs ++ map release (reverse rs)) }

-- What was entered is held by a tunnel.
abbrev pub opened_with : String → List Resource → Ledger → Ledger
opened_with name rs l = record {
  trace = l.trace ++ map acquire rs;
  stacks = insert name (reverse rs) l.stacks;
}

-- One more is entered on a tunnel's stack.
abbrev pub extended_with : String → Resource → List Resource → Ledger → Ledger
extended_with name r stack l = record {
  trace = l.trace ++ acquire r ∷ [];
  stacks = insert name (r ∷ stack) l.stacks;
}

-- All that a tunnel holds is left, from the top of its stack down.
abbrev pub closed_for : String → Ledger → Ledger
closed_for name l = record {
  trace = l.trace ++ map release (or_else (lookup name l.stacks) []);
  stacks = erase name l.stacks;
}

-- A tunnel that could not be built has left all that it entered; one that was built holds all that
-- it entered; a tunnel that is there may enter one more; one that is removed leaves all that it
-- holds, from the top of its stack down.
pub data Move : Ledger → Ledger → Type 0 where
  fails : (rs : List Resource) (l : Ledger) → Move l (failed_with rs l)
  opens :
      (name : String) (rs : List Resource) (l : Ledger)
      → contains name l.stacks ≡ false
      → Move l (opened_with name rs l)
  extends :
      (name : String) (r : Resource) (stack : List Resource) (l : Ledger)
      → lookup name l.stacks ≡ some stack
      → Move l (extended_with name r stack l)
  closes : (name : String) (l : Ledger) → Move l (closed_for name l)

-- Moves one after the other.
pub data Moves (l : Ledger) : Ledger → Type 0 where
  rest : Moves l l
  next : {m n : Ledger} → Moves l m → Move m n → Moves l n

pub Moves-trans : {l m n : Ledger} → Moves l m → Moves m n → Moves l n
Moves-trans p rest = p
Moves-trans p (next q move) = next (Moves-trans p q) move

-- What the ledger says of a service.
unfoldable pub ledger : Service → Ledger
ledger s = record { trace = s.trace; stacks = s.exit_stacks }
