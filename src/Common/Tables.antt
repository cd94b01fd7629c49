-- ===== src/Common/Tables.antt =====
-- The tables of a database: lists of rows in the order of their insertion, and the clauses of a
-- statement as tests on a row.
pub mod Laws
use mathlib.Core.Path.{◌≡◌, refl}
use mathlib.Core.Bool.{Bool, true, false, not, ◌&&◌}
use mathlib.Core.Option.{Option, none, some}
use mathlib.Core.List.{List, [], ◌∷◌, ◌++◌}
use native.Mathlib.Omega.{arith}
use qf.Common.Tests.{if◌then◌else◌}

module _ {A : Type 0} (test : A → Bool) where
  -- SELECT … WHERE: one row, and all.
  unfoldable pub find_row : List A → Option A
  find_row [] = none
  find_row (r ∷ rs) = let rest = find_row rs in if test r then some r else rest

  unfoldable pub rows_where : List A → List A
  rows_where [] = []
  rows_where (r ∷ rs) = let rest = rows_where rs in if test r then r ∷ rest else rest

  -- DELETE … WHERE.
  unfoldable pub delete_where : List A → List A
  delete_where [] = []
  delete_where (r ∷ rs) = let rest = delete_where rs in if test r then rest else r ∷ rest

  -- UPDATE … SET … WHERE.
  unfoldable pub update_where : (A → A) → List A → List A
  update_where f [] = []
  update_where f (r ∷ rs) = let rest = update_where f rs in if test r then f r ∷ rest else r ∷ rest
