-- ===== src/Text/Suffix.antt =====
-- The end of a text: what is there is found, and what is found is there.
use tenantkit.Prelude.{
  ◌-◌, ◌≤◌, ◌≡◌, refl, sym, ap, ◌∙◌, true, [], ◌∷◌, ◌++◌, reverse, arith, length, drop,
  length-append, take-append_left,
}
use mathlib.Core.List.{reverse-append, reverse-cons, reverse-reverse}
use tenantkit.Text.{Bytes, has_prefix, has_suffix, trim_suffix}
use tenantkit.Text.Search.{has_prefix-append, has_prefix-split, has_prefix-le}

pub has_suffix-append : (s t : Bytes) → has_suffix (s ++ t) t ≡ true
unfolding has_suffix
has_suffix-append s t = rw reverse-append (has_prefix-append (reverse t) (reverse s))

length-reverse : (s : Bytes) → length (reverse s) ≡ length s
length-reverse [] = refl
length-reverse (c ∷ s) =
    rw reverse-cons (omega (arith, length-append (reverse s) (c ∷ []), length-reverse s))

pub has_suffix-le : (s t : Bytes) → has_suffix s t ≡ true → length t ≤ length s
unfolding has_suffix
has_suffix-le s t h =
    omega (arith, has_prefix-le (reverse s) (reverse t) h, length-reverse s, length-reverse t)

pub has_suffix-split : (s t : Bytes) → has_suffix s t ≡ true → (u : Bytes) × (s ≡ u ++ t)
unfolding has_suffix
has_suffix-split s t h =
    let u = drop (length (reverse t)) (reverse s) in
    let e : reverse (reverse s) ≡ reverse (reverse t ++ u) =
      ap reverse (has_prefix-split (reverse s) (reverse t) h) in
    (
      reverse u,
      sym (reverse-reverse s)
          ∙ (e ∙ (reverse-append (reverse t) u ∙ ap (λ w. reverse u ++ w) (reverse-reverse t))),
    )

pub trim_suffix-append : (s t : Bytes) → trim_suffix (s ++ t) t ≡ s
unfolding trim_suffix
trim_suffix-append s t =
    let found : has_prefix (reverse (s ++ t)) (reverse t) ≡ true =
      unfold has_suffix in has_suffix-append s t in
    let same : length (s ++ t) - length t ≡ length s = omega (arith, length-append s t) in
    rw (found, same) (take-append_left s t)
