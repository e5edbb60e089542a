-- ===== src/CoveragePolicy/Containment.antt =====
-- What a normalized policy of coverage discovery may reach.
use mossward.Common.{
  ℕ, zero, suc, ◌+◌, ◌-◌, ◌/◌, ◌≤◌, ◌≡◌, ◌≢◌, refl, sym, ◌∙◌, ap, true, false, some, List, [], ◌∷◌,
  arith, length, Text, text_eq, text_eq_iff, text_eq_refl, trim_space, byte_length, ok,
  Result-cases, Option-cases, Bool-cases, inl, inr, All,
}
use mossward.CoveragePolicy.Normalization.{
  shift_right, Prefixes, CoverageDiscoveryPolicy, seen_text, parse_prefixes, is_inside,
  within_allowed_scope, normalize_cidrs, normalize,
}

shift_right_add : (m n x : ℕ) → shift_right (m + n) x ≡ shift_right n (shift_right m x)
unfolding shift_right
shift_right_add zero n x = let k : 0 + n ≡ n = omega arith in rw k refl
shift_right_add (suc m) n x =
    let k : suc m + n ≡ suc (m + n) = omega arith in rw k (shift_right_add m n (x / 2))

-- Numbers with the same first bits have the same fewer first bits.
fewer_bits :
    (m n x y : ℕ) → m ≤ n → shift_right m x ≡ shift_right m y → shift_right n x ≡ shift_right n y
fewer_bits m n x y h e =
    let k : n ≡ m + (n - m) = omega arith in
    rw (k, shift_right_add m (n - m) x, shift_right_add m (n - m) y, e) refl

-- One of the server's networks holds the address.
pub data Allowed {A P : Type 0} (net : Prefixes A P) (a : A) : List Text → Type 0 where
  allowed_here :
      {c : Text} {cs : List Text} (b : P)
      → net.parse_prefix c ≡ some b
      → net.contains b a ≡ true
      → Allowed net a (c ∷ cs)
  allowed_there : {c : Text} {cs : List Text} → Allowed net a cs → Allowed net a (c ∷ cs)

-- The text of a network all of whose addresses the server allows.
pub record Within {A P : Type 0} (net : Prefixes A P) (allowed : List Text) (v : Text)
    : Type 0 where
  pub prefix : P
  pub text : v ≡ net.string (net.masked prefix)
  pub inside : (a : A) → net.contains prefix a ≡ true → Allowed net a allowed

unfoldable pub Unique : List Text → Type 0
Unique [] = Unit
Unique (t ∷ ts) = (seen_text ts t ≡ false) × Unique ts

seen_first : (t : Text) (ts : List Text) → seen_text (t ∷ ts) t ≡ true
unfolding seen_text
seen_first t ts = ground (arith, text_eq_refl t)

module _ {A P : Type 0} (net : Prefixes A P) where
  inside-contains :
      (c b : P) (a : A)
      → is_inside net c b ≡ true
      → net.contains c a ≡ true
      → net.contains b a ≡ true
  unfolding is_inside
  inside-contains c b a h k =
      let f = net.contains_iff c a in
      let g = net.contains_iff b (net.address c) in
      let l : net.bit_len (net.address c) ≡ net.bit_len a = ground (arith, f, k) in
      let m : net.bit_len a - net.bits c ≤ net.bit_len a - net.bits b = ground (arith, h) in
      let e =
        fewer_bits (net.bit_len a - net.bits c) (net.bit_len a - net.bits b)
          (net.value (net.address c)) (net.value a) m (ground (arith, f, k)) in
      let d : shift_right (net.bit_len (net.address c) - net.bits b) (net.value (net.address b))
          ≡ shift_right (net.bit_len (net.address c) - net.bits b) (net.value (net.address c)) =
        ground (arith, g, h) in
      let d' = rw l at d in ground (arith, net.contains_iff b a, f, g, h, k, l, d', e)

  within-Allowed :
      (c : P) (a : A) (allowed : List Text) (bs : List P)
      → parse_prefixes net allowed ≡ ok bs
      → within_allowed_scope net c bs ≡ true
      → net.contains c a ≡ true
      → Allowed net a allowed
  unfolding parse_prefixes within_allowed_scope
  within-Allowed c a [] bs e h k = ground (arith, e, h)
  within-Allowed c a (t ∷ ts) bs e h k = elim (Option-cases (net.parse_prefix t)) [
    | inl n ↦ ground (arith, n)
    | inr (b, f) ↦ elim (Result-cases (parse_prefixes net ts)) [
      | inr (x, g) ↦ ground (arith, f, g)
      | inl (qs, g) ↦ elim (Bool-cases (is_inside net c (net.masked b))) [
        | inl i ↦
            allowed_here b f
              (sym (net.contains_masked b a) ∙ inside-contains c (net.masked b) a i k)
        | inr i ↦ allowed_there (within-Allowed c a ts qs g (ground (arith, f, g, i)) k)
      ]
    ]
  ]

  -- One step of the loop over the networks.
  record Step (allowed : List P) (seen : List Text) (raw : Text) (raws vs : List Text)
      : Type 0 where
    prefix : P
    parsed : net.parse_prefix (trim_space raw) ≡ some prefix
    scoped : within_allowed_scope net (net.masked prefix) allowed ≡ true
    first : seen_text seen (net.string (net.masked prefix)) ≡ false
    rest : List Text
    others : normalize_cidrs net allowed (net.string (net.masked prefix) ∷ seen) raws ≡ ok rest
    all : vs ≡ net.string (net.masked prefix) ∷ rest

  normalize_cidrs-Step :
      (allowed : List P) (seen : List Text) (raw : Text) (raws vs : List Text)
      → normalize_cidrs net allowed seen (raw ∷ raws) ≡ ok vs
      → Step allowed seen raw raws vs
  unfolding normalize_cidrs
  normalize_cidrs-Step allowed seen raw raws vs e =
      elim (Option-cases (net.parse_prefix (trim_space raw))) [
        | inl n ↦ ground (arith, n)
        | inr (p, f) ↦
            elim (Result-cases
              (normalize_cidrs net allowed (net.string (net.masked p) ∷ seen) raws)) [
                | inr (x, g) ↦ ground (arith, f, g)
                | inl (ws, g) ↦ record {
                  prefix = p;
                  parsed = f;
                  scoped = ground (arith, f, g);
                  first = ground (arith, f, g);
                  rest = ws;
                  others = g;
                  all = ground (arith, f, g);
                }
              ]
      ]

  normalize_cidrs-Within :
      (texts : List Text) (allowed : List P) (seen raws vs : List Text)
      → parse_prefixes net texts ≡ ok allowed
      → normalize_cidrs net allowed seen raws ≡ ok vs
      → All (Within net texts) vs × (length vs ≡ length raws)
  unfolding normalize_cidrs
  normalize_cidrs-Within texts allowed seen [] vs e h =
      let i : vs ≡ [] = ground (arith, h) in rw i (tt, refl)
  normalize_cidrs-Within texts allowed seen (raw ∷ raws) vs e h =
      let s = normalize_cidrs-Step allowed seen raw raws vs h in
      let (w, l) =
        normalize_cidrs-Within texts allowed (net.string (net.masked s.prefix) ∷ seen) raws s.rest e
          s.others in
      rw s.all (
        (
          record {
            prefix = s.prefix;
            text = refl;
            inside = λ a k.
                within-Allowed (net.masked s.prefix) a texts allowed e s.scoped
                  (net.contains_masked s.prefix a ∙ k);
          },
          w,
        ),
        ap suc l,
      )

  -- What was seen before the loop does not come again.
  normalize_cidrs-fresh :
      (allowed : List P) (seen raws vs : List Text) (t : Text)
      → normalize_cidrs net allowed seen raws ≡ ok vs
      → seen_text seen t ≡ true
      → seen_text vs t ≡ false
  unfolding normalize_cidrs seen_text
  normalize_cidrs-fresh allowed seen [] vs t h k = let i : vs ≡ [] = ground (arith, h) in rw i refl
  normalize_cidrs-fresh allowed seen (raw ∷ raws) vs t h k =
      let s = normalize_cidrs-Step allowed seen raw raws vs h in
      let v = net.string (net.masked s.prefix) in
      let f = normalize_cidrs-fresh allowed (v ∷ seen) raws s.rest t s.others (ground (arith, k)) in
      rw s.all (elim (Bool-cases (text_eq v t)) [
        | inl b ↦ ground (arith, k, s.first, ap (seen_text seen) ((text_eq_iff v t).0 b))
        | inr b ↦ ground (arith, b, f)
      ])

  normalize_cidrs-Unique :
      (allowed : List P) (seen raws vs : List Text)
      → normalize_cidrs net allowed seen raws ≡ ok vs
      → Unique vs
  unfolding normalize_cidrs Unique
  normalize_cidrs-Unique allowed seen [] vs h = let i : vs ≡ [] = ground (arith, h) in rw i (tt)
  normalize_cidrs-Unique allowed seen (raw ∷ raws) vs h =
      let s = normalize_cidrs-Step allowed seen raw raws vs h in
      let v = net.string (net.masked s.prefix) in
      rw s.all (
        (
          normalize_cidrs-fresh allowed (v ∷ seen) raws s.rest v s.others (seen_first v seen),
          normalize_cidrs-Unique allowed (v ∷ seen) raws s.rest s.others,
        ))

  -- A policy of coverage discovery that is accepted has a name of at most 100 bytes that is not empty, and as many networks as it
  -- was given, 1 to 50, no two the same; and each address that one of its networks holds is an address that
  -- the server allows.
  pub normalize-Within :
      (policy q : CoverageDiscoveryPolicy) (allowed : List Text)
      → normalize net policy allowed ≡ ok q
      → (q.name ≢ [])
        × (byte_length q.name ≤ 100)
        × (length q.cidrs ≡ length policy.cidrs)
        × (1 ≤ length q.cidrs)
        × (length q.cidrs ≤ 50)
        × Unique q.cidrs
        × All (Within net allowed) q.cidrs
  unfolding normalize
  normalize-Within policy q allowed e = elim (Result-cases (parse_prefixes net allowed)) [
    | inr (x, f) ↦ ground (arith, f)
    | inl (bs, f) ↦ elim (Result-cases (normalize_cidrs net bs [] policy.cidrs)) [
      | inr (x, g) ↦ ground (arith, f, g)
      | inl (vs, g) ↦
          (let (w, l) = normalize_cidrs-Within allowed bs [] policy.cidrs vs f g in
            let i : q.cidrs ≡ vs = ground (arith, f, g) in
            let n : q.name ≡ trim_space policy.name = ground (arith, f, g) in
            rw (i, n)
              (
                λ z. ground (arith, f, g, z),
                ground (arith, f, g),
                l,
                rw l (ground (arith)),
                rw l (ground (arith)),
                normalize_cidrs-Unique bs [] policy.cidrs vs g,
                w,
              ))
    ]
  ]
