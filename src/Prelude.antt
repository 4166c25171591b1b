-- ===== src/Prelude.antt =====
-- The names that the other modules share: the libraries', passed on, and those of the children.
mod Tests
mod Lists
mod Command
unfoldable pub use Tests.{all_below}
pub use Tests.{ltb, leb, ◌==◌, if◌then◌else◌, ==_iff, Bool-cases, Option-cases, all_below_sound}
pub use Lists.*
unfoldable pub use Command.{◌>>=◌, pure, fail, gets, modify, check}
pub use Command.{Outcome, Cmd, ◌>>◌, Ends, Triple, Keeps, keeps, keeps_rules}
pub use Command.{Keeps-pure, Keeps-fail, Keeps-gets, Keeps-if, Keeps-bind, ◌▹◌}
pub use Command.{Triple-pure, Triple-fail, Triple-gets, Triple-if, Triple-bind}
pub use Command.{Triple-check, Triple-modify, Ends-bind, Ends-if, Ends-split, Ends-mono, >>=-eq}
pub use Command.Outcome.{ok, err, aborted}
pub use Prim.Native.Nat.{ℕ, zero, suc, ◌+◌, ◌-◌, ◌*◌, ◌/◌, ◌%◌, ◌^◌, ◌≤◌, ◌<◌, min, max}
pub use Prim.Native.Nat.{bit_and, bit_or, bit_xor}
pub use mathlib.Core.Path.{◌≡◌, refl, sym, ap, subst, ◌∙◌}
pub use mathlib.Core.Logic.{◌≢◌, ◌↔◌, ◌⊎◌, inl, inr}
pub use mathlib.Core.Bool.{Bool, true, false, not, ◌&&◌, ◌||◌}
pub use mathlib.Core.Option.{Option, none, some}
pub use mathlib.Core.List.{List, [], ◌∷◌, ◌++◌, map}
pub use native.Mathlib.Omega.{arith}
