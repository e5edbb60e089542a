-- ===== src/Intelligence/Order.antt =====
-- internal/intelligence/version.go: CompareVersions orders the versions.
use mossward.Common.{
  ℕ, ◌≡◌, ◌≢◌, refl, sym, ap, subst, ◌∙◌, false, ◌&&◌, List, [], ◌∷◌, arith, Text, text_less,
}
use mossward.Intelligence.Version.{
  Order, less, same, greater, VersionPart, no_part, number_order, text_order, part_order,
  then_order, compare_parts, cleaned_parts, compare_versions,
}

abbrev pub flip : Order → Order
flip less = greater
flip same = same
flip greater = less

text_less_total : (a b : Text) → (text_less a b && text_less b a) ≡ false
unfolding text_less
text_less_total [] [] = refl
text_less_total [] (d ∷ ds) = refl
text_less_total (c ∷ cs) [] = refl
text_less_total (c ∷ cs) (d ∷ ds) = ground (arith, text_less_total cs ds)

-- The order of two texts goes by their first difference.
text_order-cons :
    (c d : ℕ) (cs ds : Text)
    → text_order (c ∷ cs) (d ∷ ds) ≡ then_order (number_order c d) (text_order cs ds)
unfolding text_order text_less
text_order-cons c d cs ds = ground (arith, text_less_total cs ds)

then_order-flip : (a b : Order) → then_order (flip a) (flip b) ≡ flip (then_order a b)
then_order-flip less b = refl
then_order-flip same b = refl
then_order-flip greater b = refl

text_order-flip : (a b : Text) → text_order b a ≡ flip (text_order a b)
unfolding text_order
text_order-flip a b = ground (arith, text_less_total a b)

part_order-flip : (a b : VersionPart) → part_order b a ≡ flip (part_order a b)
unfolding part_order
part_order-flip a b = ground (arith, text_less_total a.text b.text)

compare_parts-flip : (xs ys : List VersionPart) → compare_parts ys xs ≡ flip (compare_parts xs ys)
unfolding compare_parts
compare_parts-flip [] [] = refl
compare_parts-flip [] (b ∷ ys) = ground (arith, compare_parts-flip [] ys, part_order-flip no_part b)
compare_parts-flip (a ∷ xs) [] = ground (arith, compare_parts-flip xs [], part_order-flip a no_part)
compare_parts-flip (a ∷ xs) (b ∷ ys) = ground (arith, compare_parts-flip xs ys, part_order-flip a b)

-- Where neither step goes up, the two steps together are their composition.
abbrev Composes : {A : Type 0} → (A → A → Order) → A → A → A → Type 0
Composes order a b c =
    order a b ≢ greater → order b c ≢ greater → order a c ≡ then_order (order a b) (order b c)

number_order-Composes : (a b c : ℕ) → Composes number_order a b c
number_order-Composes a b c p q = ground (arith)

-- A step at the head and the steps after it compose.
then_order-Composes :
    (x y z r s t : Order)
    → (x ≢ greater → y ≢ greater → z ≡ then_order x y)
    → (r ≢ greater → s ≢ greater → t ≡ then_order r s)
    → then_order x r ≢ greater
    → then_order y s ≢ greater
    → then_order z t ≡ then_order (then_order x r) (then_order y s)
then_order-Composes less less z r s t head rest p q =
    ap (λ o. then_order o t) (head (ground (arith, q)) (ground (arith, q)))
then_order-Composes less same z r s t head rest p q =
    ap (λ o. then_order o t) (head (ground (arith, q)) (ground (arith, q)))
then_order-Composes less greater z r s t head rest p q = ground (arith, p, q, head, rest)
then_order-Composes same less z r s t head rest p q = ground (arith, p, q, head, rest)
then_order-Composes same same z r s t head rest p q = ground (arith, p, q, head, rest)
then_order-Composes same greater z r s t head rest p q = ground (arith, p, q, head, rest)
then_order-Composes greater y z r s t head rest p q = ground (arith, p, q, head, rest)

text_order-Composes : (a b c : Text) → Composes text_order a b c
unfolding text_order text_less
text_order-Composes [] [] c p q = refl
text_order-Composes [] (l ∷ ls) [] p q = ground (arith)
text_order-Composes [] (l ∷ ls) (m ∷ ms) p q = refl
text_order-Composes (k ∷ ks) [] c p q = ground (arith)
text_order-Composes (k ∷ ks) (l ∷ ls) [] p q = ground (arith)
text_order-Composes (k ∷ ks) (l ∷ ls) (m ∷ ms) p q =
    let first = text_order-cons k l ks ls in
    let second = text_order-cons l m ls ms in
    text_order-cons k m ks ms
    ∙ then_order-Composes (number_order k l) (number_order l m) (number_order k m)
        (text_order ks ls) (text_order ls ms) (text_order ks ms) (number_order-Composes k l m)
        (text_order-Composes ks ls ms) (subst (λ o. o ≢ greater) first p)
        (subst (λ o. o ≢ greater) second q)
    ∙ sym (
        ap (λ o. then_order o (text_order (l ∷ ls) (m ∷ ms))) first
        ∙ ap (then_order (then_order (number_order k l) (text_order ks ls))) second)

part_order-Composes : (a b c : VersionPart) → Composes part_order a b c
unfolding part_order
part_order-Composes a b c p q = ground (arith, text_order-Composes a.text b.text c.text)

compare_parts-Composes : (xs ys zs : List VersionPart) → Composes compare_parts xs ys zs
unfolding compare_parts part_order text_order text_less
compare_parts-Composes [] [] [] p q = refl
compare_parts-Composes [] [] (z ∷ zs) p q = refl
compare_parts-Composes [] (y ∷ ys) [] p q =
    then_order-Composes (part_order no_part y) (part_order y no_part) same (compare_parts [] ys)
      (compare_parts ys []) same (part_order-Composes no_part y no_part)
      (compare_parts-Composes [] ys []) p q
compare_parts-Composes [] (y ∷ ys) (z ∷ zs) p q =
    then_order-Composes (part_order no_part y) (part_order y z) (part_order no_part z)
      (compare_parts [] ys) (compare_parts ys zs) (compare_parts [] zs)
      (part_order-Composes no_part y z) (compare_parts-Composes [] ys zs) p q
compare_parts-Composes (x ∷ xs) [] [] p q = ground (arith)
compare_parts-Composes (x ∷ xs) [] (z ∷ zs) p q =
    then_order-Composes (part_order x no_part) (part_order no_part z) (part_order x z)
      (compare_parts xs []) (compare_parts [] zs) (compare_parts xs zs)
      (part_order-Composes x no_part z) (compare_parts-Composes xs [] zs) p q
compare_parts-Composes (x ∷ xs) (y ∷ ys) [] p q =
    then_order-Composes (part_order x y) (part_order y no_part) (part_order x no_part)
      (compare_parts xs ys) (compare_parts ys []) (compare_parts xs [])
      (part_order-Composes x y no_part) (compare_parts-Composes xs ys []) p q
compare_parts-Composes (x ∷ xs) (y ∷ ys) (z ∷ zs) p q =
    then_order-Composes (part_order x y) (part_order y z) (part_order x z) (compare_parts xs ys)
      (compare_parts ys zs) (compare_parts xs zs) (part_order-Composes x y z)
      (compare_parts-Composes xs ys zs) p q

-- Swapping the versions turns the answer of CompareVersions round.
pub compare_versions-flip : (a b : Text) → compare_versions b a ≡ flip (compare_versions a b)
unfolding compare_versions
compare_versions-flip a b = compare_parts-flip (cleaned_parts a) (cleaned_parts b)

-- CompareVersions is transitive: of three versions that do not descend, the first and the last
-- compare as the two steps together, that is equal when both steps are, and less otherwise.
pub compare_versions-Composes : (a b c : Text) → Composes compare_versions a b c
unfolding compare_versions
compare_versions-Composes a b c =
    compare_parts-Composes (cleaned_parts a) (cleaned_parts b) (cleaned_parts c)
