-- ===== src/Cursor/Fingerprint/PredicateCodes.antt =====
-- The bytes of a predicate end by themselves.
use mikura.Common.{ℕ, ◌^◌, ◌<◌, ◌≡◌, refl, sym, ap, ◌∙◌, arith, List, ◌++◌, append_assoc}
use mikura.Common.Words.{to_le}
use mikura.Common.Text.{Str}
use mikura.Request.{
  Predicate, Predicates, eq, neq, range, missing, and_all, or_any, negate, bbox, nil, cons,
}
use mikura.Cursor.Fingerprint.{count}
use mikura.Cursor.Fingerprint.Bytes.{text_bytes, opt_bytes, predicate_bytes, predicates_bytes}
use mikura.Cursor.Fingerprint.Codes.{
  first_byte, behind, then-Ends, Wide, Opt, Ends-le, Ends-text, Ends-opt,
}

-- Its texts and lists have lengths that fit four bytes.
unfoldable mutual
  unfolding count

  pub WidePredicate : Predicate → Type 0
  WidePredicate (eq p v) = Wide p × Wide v
  WidePredicate (neq p v) = Wide p × Wide v
  WidePredicate (range p lo hi) = Wide p × (Opt Wide lo × Opt Wide hi)
  WidePredicate (missing p) = Wide p
  WidePredicate (and_all ps) = (count ps < 2 ^ 32) × WidePredicates ps
  WidePredicate (or_any ps) = (count ps < 2 ^ 32) × WidePredicates ps
  WidePredicate (negate p) = WidePredicate p
  WidePredicate (bbox p a b c d) = Wide p × (Wide a × (Wide b × (Wide c × Wide d)))

  pub WidePredicates : Predicates → Type 0
  WidePredicates nil = Unit {0}
  WidePredicates (cons p ps) = WidePredicate p × WidePredicates ps

Ends-two :
    (a b x y : Str) (r s : List ℕ)
    → Wide a
    → Wide b
    → Wide x
    → Wide y
    → (text_bytes a ++ text_bytes b) ++ r ≡ (text_bytes x ++ text_bytes y) ++ s
    → (a ≡ x) × ((b ≡ y) × (r ≡ s))
Ends-two a b x y r s pa pb px py h =
    then-Ends Wide Wide text_bytes text_bytes Ends-text Ends-text a x b y r s pa px pb py h

counted :
    (m n : ℕ) (xs ys r s : List ℕ)
    → m < 2 ^ 32
    → n < 2 ^ 32
    → (to_le 4 m ++ xs) ++ r ≡ (to_le 4 n ++ ys) ++ s
    → (m ≡ n) × (xs ++ r ≡ ys ++ s)
counted m n xs ys r s p q h =
    Ends-le 4 m n (xs ++ r) (ys ++ s) p q
      (sym (append_assoc (to_le 4 m) xs r) ∙ h ∙ append_assoc (to_le 4 n) ys s)

mutual
  unfolding predicate_bytes WidePredicate count

  pub Ends-predicate :
      (p q : Predicate) (r s : List ℕ)
      → WidePredicate p
      → WidePredicate q
      → predicate_bytes p ++ r ≡ predicate_bytes q ++ s
      → (p ≡ q) × (r ≡ s)
  Ends-predicate (eq p v) (eq q w) r s (a, b) (c, d) h =
      let (names, (values, rest)) = Ends-two p v q w r s a b c d (ap behind h) in
      (ap (λ n. eq n v) names ∙ ap (eq q) values, rest)
  Ends-predicate (neq p v) (neq q w) r s (a, b) (c, d) h =
      let (names, (values, rest)) = Ends-two p v q w r s a b c d (ap behind h) in
      (ap (λ n. neq n v) names ∙ ap (neq q) values, rest)
  Ends-predicate (range p lo hi) (range q min max) r s (a, (b, c)) (d, (e, f)) h =
      let (names, rest) =
        Ends-text p q ((opt_bytes text_bytes lo ++ opt_bytes text_bytes hi) ++ r)
          ((opt_bytes text_bytes min ++ opt_bytes text_bytes max) ++ s) a d
          (sym (append_assoc (text_bytes p) (opt_bytes text_bytes lo ++ opt_bytes text_bytes hi) r)
            ∙ ap behind h
            ∙ append_assoc (text_bytes q) (opt_bytes text_bytes min ++ opt_bytes text_bytes max)
                s) in
      let (lows, (highs, last)) =
        then-Ends (Opt Wide) (Opt Wide) (opt_bytes text_bytes) (opt_bytes text_bytes)
          (Ends-opt Wide text_bytes Ends-text) (Ends-opt Wide text_bytes Ends-text) lo min hi max r
          s b e c f rest in
      (ap (λ n. range n lo hi) names ∙ ap (λ n. range q n hi) lows ∙ ap (range q min) highs, last)
  Ends-predicate (missing p) (missing q) r s a b h =
      let (names, rest) = Ends-text p q r s a b (ap behind h) in (ap missing names, rest)
  Ends-predicate (and_all ps) (and_all qs) r s (n, a) (m, b) h =
      let (counts, args) =
        counted (count ps) (count qs) (predicates_bytes ps) (predicates_bytes qs) r s n m
          (ap behind h) in
      let (same, rest) = Ends-predicates ps qs r s counts a b args in (ap and_all same, rest)
  Ends-predicate (or_any ps) (or_any qs) r s (n, a) (m, b) h =
      let (counts, args) =
        counted (count ps) (count qs) (predicates_bytes ps) (predicates_bytes qs) r s n m
          (ap behind h) in
      let (same, rest) = Ends-predicates ps qs r s counts a b args in (ap or_any same, rest)
  Ends-predicate (negate p) (negate q) r s a b h =
      let (same, rest) = Ends-predicate p q r s a b (ap behind h) in (ap negate same, rest)
  Ends-predicate (bbox p a b c d) (bbox q x y z w) r s (p1, (a1, (b1, (c1, d1))))
        (q2, (x2, (y2, (z2, w2)))) h =
      let (names, rest) =
        peel p q (text_bytes a ++ (text_bytes b ++ (text_bytes c ++ text_bytes d)))
          (text_bytes x ++ (text_bytes y ++ (text_bytes z ++ text_bytes w))) r s p1 q2
          (ap behind h) in
      let (souths, rest) =
        peel a x (text_bytes b ++ (text_bytes c ++ text_bytes d))
          (text_bytes y ++ (text_bytes z ++ text_bytes w)) r s a1 x2 rest in
      let (wests, rest) =
        peel b y (text_bytes c ++ text_bytes d) (text_bytes z ++ text_bytes w) r s b1 y2 rest in
      let (norths, (easts, last)) = Ends-two c d z w r s c1 d1 z2 w2 rest in
      (
        ap (λ n. bbox n a b c d) names
            ∙ ap (λ n. bbox q n b c d) souths
            ∙ ap (λ n. bbox q x n c d) wests
            ∙ ap (λ n. bbox q x y n d) norths
            ∙ ap (bbox q x y z) easts,
        last,
      )
    where
      peel :
          (a b : Str) (m n r s : List ℕ)
          → Wide a
          → Wide b
          → (text_bytes a ++ m) ++ r ≡ (text_bytes b ++ n) ++ s
          → (a ≡ b) × (m ++ r ≡ n ++ s)
      peel a b m n r s u v h =
          Ends-text a b (m ++ r) (n ++ s) u v
            (sym (append_assoc (text_bytes a) m r) ∙ h ∙ append_assoc (text_bytes b) n s)
  Ends-predicate (eq p1 v1) (neq p2 v2) r s u v h = absurd (omega (arith, ap first_byte h))
  Ends-predicate (eq p1 v1) (range p2 lo2 hi2) r s u v h = absurd (omega (arith, ap first_byte h))
  Ends-predicate (eq p1 v1) (missing p2) r s u v h = absurd (omega (arith, ap first_byte h))
  Ends-predicate (eq p1 v1) (and_all ps2) r s u v h = absurd (omega (arith, ap first_byte h))
  Ends-predicate (eq p1 v1) (or_any ps2) r s u v h = absurd (omega (arith, ap first_byte h))
  Ends-predicate (eq p1 v1) (negate p2) r s u v h = absurd (omega (arith, ap first_byte h))
  Ends-predicate (eq p1 v1) (bbox p2 a2 b2 c2 d2) r s u v h =
      absurd (omega (arith, ap first_byte h))
  Ends-predicate (neq p1 v1) (eq p2 v2) r s u v h = absurd (omega (arith, ap first_byte h))
  Ends-predicate (neq p1 v1) (range p2 lo2 hi2) r s u v h = absurd (omega (arith, ap first_byte h))
  Ends-predicate (neq p1 v1) (missing p2) r s u v h = absurd (omega (arith, ap first_byte h))
  Ends-predicate (neq p1 v1) (and_all ps2) r s u v h = absurd (omega (arith, ap first_byte h))
  Ends-predicate (neq p1 v1) (or_any ps2) r s u v h = absurd (omega (arith, ap first_byte h))
  Ends-predicate (neq p1 v1) (negate p2) r s u v h = absurd (omega (arith, ap first_byte h))
  Ends-predicate (neq p1 v1) (bbox p2 a2 b2 c2 d2) r s u v h =
      absurd (omega (arith, ap first_byte h))
  Ends-predicate (range p1 lo1 hi1) (eq p2 v2) r s u v h = absurd (omega (arith, ap first_byte h))
  Ends-predicate (range p1 lo1 hi1) (neq p2 v2) r s u v h = absurd (omega (arith, ap first_byte h))
  Ends-predicate (range p1 lo1 hi1) (missing p2) r s u v h = absurd (omega (arith, ap first_byte h))
  Ends-predicate (range p1 lo1 hi1) (and_all ps2) r s u v h =
      absurd (omega (arith, ap first_byte h))
  Ends-predicate (range p1 lo1 hi1) (or_any ps2) r s u v h = absurd (omega (arith, ap first_byte h))
  Ends-predicate (range p1 lo1 hi1) (negate p2) r s u v h = absurd (omega (arith, ap first_byte h))
  Ends-predicate (range p1 lo1 hi1) (bbox p2 a2 b2 c2 d2) r s u v h =
      absurd (omega (arith, ap first_byte h))
  Ends-predicate (missing p1) (eq p2 v2) r s u v h = absurd (omega (arith, ap first_byte h))
  Ends-predicate (missing p1) (neq p2 v2) r s u v h = absurd (omega (arith, ap first_byte h))
  Ends-predicate (missing p1) (range p2 lo2 hi2) r s u v h = absurd (omega (arith, ap first_byte h))
  Ends-predicate (missing p1) (and_all ps2) r s u v h = absurd (omega (arith, ap first_byte h))
  Ends-predicate (missing p1) (or_any ps2) r s u v h = absurd (omega (arith, ap first_byte h))
  Ends-predicate (missing p1) (negate p2) r s u v h = absurd (omega (arith, ap first_byte h))
  Ends-predicate (missing p1) (bbox p2 a2 b2 c2 d2) r s u v h =
      absurd (omega (arith, ap first_byte h))
  Ends-predicate (and_all ps1) (eq p2 v2) r s u v h = absurd (omega (arith, ap first_byte h))
  Ends-predicate (and_all ps1) (neq p2 v2) r s u v h = absurd (omega (arith, ap first_byte h))
  Ends-predicate (and_all ps1) (range p2 lo2 hi2) r s u v h =
      absurd (omega (arith, ap first_byte h))
  Ends-predicate (and_all ps1) (missing p2) r s u v h = absurd (omega (arith, ap first_byte h))
  Ends-predicate (and_all ps1) (or_any ps2) r s u v h = absurd (omega (arith, ap first_byte h))
  Ends-predicate (and_all ps1) (negate p2) r s u v h = absurd (omega (arith, ap first_byte h))
  Ends-predicate (and_all ps1) (bbox p2 a2 b2 c2 d2) r s u v h =
      absurd (omega (arith, ap first_byte h))
  Ends-predicate (or_any ps1) (eq p2 v2) r s u v h = absurd (omega (arith, ap first_byte h))
  Ends-predicate (or_any ps1) (neq p2 v2) r s u v h = absurd (omega (arith, ap first_byte h))
  Ends-predicate (or_any ps1) (range p2 lo2 hi2) r s u v h = absurd (omega (arith, ap first_byte h))
  Ends-predicate (or_any ps1) (missing p2) r s u v h = absurd (omega (arith, ap first_byte h))
  Ends-predicate (or_any ps1) (and_all ps2) r s u v h = absurd (omega (arith, ap first_byte h))
  Ends-predicate (or_any ps1) (negate p2) r s u v h = absurd (omega (arith, ap first_byte h))
  Ends-predicate (or_any ps1) (bbox p2 a2 b2 c2 d2) r s u v h =
      absurd (omega (arith, ap first_byte h))
  Ends-predicate (negate p1) (eq p2 v2) r s u v h = absurd (omega (arith, ap first_byte h))
  Ends-predicate (negate p1) (neq p2 v2) r s u v h = absurd (omega (arith, ap first_byte h))
  Ends-predicate (negate p1) (range p2 lo2 hi2) r s u v h = absurd (omega (arith, ap first_byte h))
  Ends-predicate (negate p1) (missing p2) r s u v h = absurd (omega (arith, ap first_byte h))
  Ends-predicate (negate p1) (and_all ps2) r s u v h = absurd (omega (arith, ap first_byte h))
  Ends-predicate (negate p1) (or_any ps2) r s u v h = absurd (omega (arith, ap first_byte h))
  Ends-predicate (negate p1) (bbox p2 a2 b2 c2 d2) r s u v h =
      absurd (omega (arith, ap first_byte h))
  Ends-predicate (bbox p1 a1 b1 c1 d1) (eq p2 v2) r s u v h =
      absurd (omega (arith, ap first_byte h))
  Ends-predicate (bbox p1 a1 b1 c1 d1) (neq p2 v2) r s u v h =
      absurd (omega (arith, ap first_byte h))
  Ends-predicate (bbox p1 a1 b1 c1 d1) (range p2 lo2 hi2) r s u v h =
      absurd (omega (arith, ap first_byte h))
  Ends-predicate (bbox p1 a1 b1 c1 d1) (missing p2) r s u v h =
      absurd (omega (arith, ap first_byte h))
  Ends-predicate (bbox p1 a1 b1 c1 d1) (and_all ps2) r s u v h =
      absurd (omega (arith, ap first_byte h))
  Ends-predicate (bbox p1 a1 b1 c1 d1) (or_any ps2) r s u v h =
      absurd (omega (arith, ap first_byte h))
  Ends-predicate (bbox p1 a1 b1 c1 d1) (negate p2) r s u v h =
      absurd (omega (arith, ap first_byte h))

  Ends-predicates :
      (ps qs : Predicates) (r s : List ℕ)
      → count ps ≡ count qs
      → WidePredicates ps
      → WidePredicates qs
      → predicates_bytes ps ++ r ≡ predicates_bytes qs ++ s
      → (ps ≡ qs) × (r ≡ s)
  Ends-predicates nil nil r s n a b h = (refl, h)
  Ends-predicates nil (cons q qs) r s n a b h = absurd (omega (arith, n))
  Ends-predicates (cons p ps) nil r s n a b h = absurd (omega (arith, n))
  Ends-predicates (cons p ps) (cons q qs) r s n (a, us) (b, vs) h =
      let (first, rest) =
        Ends-predicate p q (predicates_bytes ps ++ r) (predicates_bytes qs ++ s) a b (
          sym (append_assoc (predicate_bytes p) (predicates_bytes ps) r)
          ∙ h
          ∙ append_assoc (predicate_bytes q) (predicates_bytes qs) s) in
      let (others, last) = Ends-predicates ps qs r s (omega (arith, n)) us vs rest in
      (ap (λ z. cons z ps) first ∙ ap (cons q) others, last)
