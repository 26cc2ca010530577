-- ===== src/Prelude/Text.antt =====
-- Texts are compared whole: their equality can be decided, so they form a set.
use Prim.Native.String.{String}
use mathlib.Core.Logic.{inl, inr}
use mathlib.Core.HLevel.{hedberg}
use text.Mathlib.Text.{◌==◌}
use text.Mathlib.TextEquality.{eq_iff}
use rideway_api.Prelude.Tests.{Bool-cases}

String_discrete : Discrete String
String_discrete s t = elim (Bool-cases (s == t)) [
  | inl same ↦ yes ((eq_iff s t).0 same)
  | inr other ↦ no (λ e. let bad = (eq_iff s t).1 e in cc)
]

pub String_set : IsSet String
String_set = hedberg String_discrete
