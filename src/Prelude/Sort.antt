-- ===== src/Prelude/Sort.antt =====
-- `sorted` on texts: a stable insertion sort by code points, and the facts the callers use.
use Prim.Native.String.{String, compare}
use text.Mathlib.Text.{◌==◌, is_le}
use mathlib.Core.Path.{◌≡◌, sym, ◌∙◌}
use mathlib.Core.Bool.{Bool, ◌||◌}
use mathlib.Core.List.{List, [], ◌∷◌, Perm}
use mathlib.Core.List.Perm
use native.Mathlib.Omega.{arith}
use perpetua_core.Prelude.Tests.{if◌then◌else◌, Bool-cases}
use perpetua_core.Prelude.Lists.{contains}
use mathlib.Core.Logic.{inl, inr}
use text.Mathlib.TextEquality.{eq_iff}

abbrev pub text_le : String → String → Bool
text_le s t = is_le (compare s t)

unfoldable pub insert_sorted : String → List String → List String
insert_sorted s [] = s ∷ []
insert_sorted s (t ∷ ts) =
    let rest = insert_sorted s ts in if text_le s t then s ∷ t ∷ ts else t ∷ rest

unfoldable pub sorted : List String → List String
unfolding insert_sorted
sorted [] = []
sorted (s ∷ ss) = insert_sorted s (sorted ss)

insert_sorted-perm : (s : String) (ts : List String) → Perm (insert_sorted s ts) (s ∷ ts)
unfolding insert_sorted
insert_sorted-perm s [] = Perm.refl _
insert_sorted-perm s (t ∷ ts) = ground (
  arith,
  Perm.trans (Perm.cons t (insert_sorted-perm s ts)) (Perm.swap s t ts),
  Perm.refl (s ∷ t ∷ ts),
)

-- Sorting rearranges: nothing is lost, repeated or added.
pub sorted-perm : (ss : List String) → Perm (sorted ss) ss
unfolding sorted
sorted-perm [] = Perm.refl []
sorted-perm (s ∷ ss) = Perm.trans (insert_sorted-perm s (sorted ss)) (Perm.cons s (sorted-perm ss))

pub contains-insert_sorted :
    (k s : String) (ts : List String) → contains k (insert_sorted s ts) ≡ (s == k || contains k ts)
unfolding insert_sorted
contains-insert_sorted k s [] = ground arith
contains-insert_sorted k s (t ∷ ts) = ground (arith, contains-insert_sorted k s ts)

pub contains-sorted : (k : String) (ss : List String) → contains k (sorted ss) ≡ contains k ss
unfolding sorted
contains-sorted k [] = ground arith
contains-sorted k (s ∷ ss) =
    ground (arith, contains-insert_sorted k s (sorted ss), contains-sorted k ss)

pub eq_sym : (s t : String) → (s == t) ≡ (t == s)
eq_sym s t = elim (Bool-cases (s == t)) [
  | inl e ↦ e ∙ sym ((eq_iff t s).1 (sym ((eq_iff s t).0 e)))
  | inr e ↦ elim (Bool-cases (t == s)) [
    | inl f ↦ (eq_iff s t).1 (sym ((eq_iff t s).0 f)) ∙ sym f
    | inr f ↦ e ∙ sym f
  ]
]
