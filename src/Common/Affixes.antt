-- ===== src/Common/Affixes.antt =====
-- What the prefix, suffix and part tests of Common/Texts decide.
use mathlib.Core.Path.{◌≡◌, sym, ap, ◌∙◌}
use mathlib.Core.Logic.{◌↔◌, inl, inr}
use mathlib.Core.Bool.{true}
use mathlib.Core.List.{◌++◌, reverse, reverse-reverse, reverse-append}
use native.Mathlib.Omega.{arith}
use speakertrail.Common.Tests.{Option-cases}
use speakertrail.Common.Texts.{
  Text, after_prefix, has_prefix, has_suffix, after_prefix-append, after_prefix_sound,
}

pub has_prefix_iff : (p s : Text) → (has_prefix p s ≡ true) ↔ ((r : Text) × (s ≡ p ++ r))
unfolding has_prefix
has_prefix_iff p s = (
  λ h. elim (Option-cases (after_prefix p s)) [
    | inl e ↦ absurd (ground arith)
    | inr (r, e) ↦ (r, after_prefix_sound p s r e)
  ],
  λ w. rw (w.1, after_prefix-append p w.0),
)

pub has_suffix_iff : (t s : Text) → (has_suffix t s ≡ true) ↔ ((p : Text) × (s ≡ p ++ t))
unfolding has_suffix
has_suffix_iff t s = (
  λ h. let (r, e) = (has_prefix_iff (reverse t) (reverse s)).0 h in (reverse r, back r e),
  λ w. (has_prefix_iff (reverse t) (reverse s)).1 (reverse w.0, rw (w.1) (reverse-append w.0 t)),
)
  where
    back : (r : Text) → reverse s ≡ reverse t ++ r → s ≡ reverse r ++ t
    back r e =
        sym (reverse-reverse s)
        ∙ ap reverse e
        ∙ reverse-append (reverse t) r
        ∙ ap (λ u. reverse r ++ u) (reverse-reverse t)
