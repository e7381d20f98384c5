-- ===== src/Engine/IndexColumns/Split.antt =====
-- internal/engine/postgres.go: what splitTopLevel makes of a text.
use queryforge.Prelude.{◌≡◌, false, List, [], ◌∷◌, Bytes}
use queryforge.Prelude.Int.{ℤ, pos}
use queryforge.Engine.IndexColumns.{depth_after, cuts}

-- A text that splitTopLevel would not cut.
abbrev pub IsWhole : ℤ → Bytes → Type 0
IsWhole d [] = Unit
IsWhole d (c ∷ s) = (cuts d c ≡ false) × IsWhole (depth_after d c) s

-- The depth behind a text.
abbrev pub depth_behind : ℤ → Bytes → ℤ
depth_behind d [] = d
depth_behind d (c ∷ s) = depth_behind (depth_after d c) s

-- Every part but the last closes the parentheses that it opens: a cut is at depth 0.
abbrev pub AreClosed : List Bytes → Type 0
AreClosed [] = Unit
AreClosed (p ∷ []) = Unit
AreClosed (p ∷ q ∷ ps) = (depth_behind (pos 0) p ≡ pos 0) × AreClosed (q ∷ ps)
