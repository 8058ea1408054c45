-- ===== src/EventStream/Boundary.antt =====
-- The first boundary of an event, for internal/streaming/observed_sse_stream.go: found by two
-- searches, and by one pass over the bytes.
use thinroute.Text.{has_prefix}
use thinroute.EventStream.{
  Bytes, nearer, next_event_boundary, shifted, lf_event_boundary, later, index_of,
  crlf_event_boundary,
}
use thinroute.Prelude.{
  Bool, Bool-cases, Option, [], ap, arith, false, if◌then◌else◌, inl, inr, length, ltb, none, refl,
  some, suc, sym, true, ℕ, ◌&&◌, ◌++◌, ◌+◌, ◌<◌, ◌==◌, ◌∙◌, ◌∷◌, ◌≡◌, ◌≤◌,
}

-- The first place at which a boundary begins, and the length of that boundary.
unfoldable pub first_boundary : Bytes → Option (ℕ × ℕ)
first_boundary [] = none
first_boundary (b ∷ s) =
    let on = shifted 1 (first_boundary s) in
    if has_prefix (b ∷ s) lf_event_boundary
    then some (0, 2)
    else if has_prefix (b ∷ s) crlf_event_boundary
    then some (0, 4)
    else on

-- Not both boundaries begin at a place.
lf-not_crlf :
    (s : Bytes) → has_prefix s lf_event_boundary ≡ true → has_prefix s crlf_event_boundary ≡ false
unfolding has_prefix
lf-not_crlf [] h = refl
lf-not_crlf (b ∷ s) h = ground arith

nearer-later : (lf crlf : Option ℕ) → nearer (later lf) (later crlf) ≡ shifted 1 (nearer lf crlf)
nearer-later none none = refl
nearer-later none (some j) = ap (λ x. some (x, 4)) (omega arith)
nearer-later (some i) none = ap (λ x. some (x, 2)) (omega arith)
nearer-later (some i) (some j) = elim (Bool-cases (ltb i j)) [
  | inl e ↦ rw e (ground arith)
  | inr e ↦ rw e (ground arith)
]

nearer-lf : (crlf : Option ℕ) → nearer (some 0) (later crlf) ≡ some (0, 2)
nearer-lf none = refl
nearer-lf (some j) = ground arith

nearer-crlf : (lf : Option ℕ) → nearer (later lf) (some 0) ≡ some (0, 4)
nearer-crlf none = refl
nearer-crlf (some j) = ground arith

pub next_event_boundary-first_boundary : (s : Bytes) → next_event_boundary s ≡ first_boundary s
unfolding next_event_boundary first_boundary index_of
next_event_boundary-first_boundary [] = refl
next_event_boundary-first_boundary (b ∷ s) =
    elim (Bool-cases (has_prefix (b ∷ s) lf_event_boundary)) [
      | inl e ↦ rw (e, lf-not_crlf (b ∷ s) e) (nearer-lf (index_of s crlf_event_boundary))
      | inr e ↦ elim (Bool-cases (has_prefix (b ∷ s) crlf_event_boundary)) [
        | inl f ↦ rw (e, f) (nearer-crlf (index_of s lf_event_boundary))
        | inr f ↦
            rw (e, f)
              (nearer-later (index_of s lf_event_boundary) (index_of s crlf_event_boundary)
                ∙ ap (shifted 1) (next_event_boundary-first_boundary s))
      ]
    ]

-- Behind which the bytes of a boundary that begins in q end, beyond q.
unfoldable pub crossing : (q chunk : Bytes) → Option (ℕ × ℕ)
crossing [] chunk = none
crossing (b ∷ q) chunk =
    let on = shifted 1 (crossing q chunk) in
    if ltb (length (b ∷ q)) 2 && has_prefix ((b ∷ q) ++ chunk) lf_event_boundary
    then some (0, 2)
    else if ltb (length (b ∷ q)) 4 && has_prefix ((b ∷ q) ++ chunk) crlf_event_boundary
    then some (0, 4)
    else on

abbrev pub or_next : Option (ℕ × ℕ) → Option (ℕ × ℕ) → Option (ℕ × ℕ)
or_next none b = b
or_next (some a) b = some a

pub prefix-nil : (s : Bytes) → has_prefix s [] ≡ true
unfolding has_prefix
prefix-nil [] = refl
prefix-nil (b ∷ s) = refl

pub shifted_zero : (a : Option (ℕ × ℕ)) → a ≡ shifted 0 a
shifted_zero none = refl
shifted_zero (some (i, l)) = ap (λ x. some (x, l)) (omega arith)

-- A boundary that fits is there without what follows.
fits-prefix :
    (s chunk sep : Bytes) → length sep ≤ length s → has_prefix (s ++ chunk) sep ≡ has_prefix s sep
unfolding has_prefix
fits-prefix [] chunk [] h = prefix-nil chunk
fits-prefix [] chunk (c ∷ sep) h = absurd (omega (arith, h))
fits-prefix (b ∷ s) chunk [] h = refl
fits-prefix (b ∷ s) chunk (c ∷ sep) h =
    ap (λ x. (b == c) && x) (fits-prefix s chunk sep (omega (arith, h)))

shifted-or_next :
    (a b : Option (ℕ × ℕ)) → shifted 1 (or_next a b) ≡ or_next (shifted 1 a) (shifted 1 b)
shifted-or_next none b = refl
shifted-or_next (some a) b = refl

pub shifted-shifted : (m n : ℕ) (a : Option (ℕ × ℕ)) → shifted m (shifted n a) ≡ shifted (m + n) a
shifted-shifted m n none = refl
shifted-shifted m n (some (i, l)) = ap (λ x. some (x, l)) (omega arith)

pub suc-shifted : (n : ℕ) (a : Option (ℕ × ℕ)) → shifted 1 (shifted n a) ≡ shifted (suc n) a
suc-shifted n none = refl
suc-shifted n (some (i, l)) = ap (λ x. some (x, l)) (omega arith)

shifted-none : (a : Option (ℕ × ℕ)) → shifted 1 a ≡ none → a ≡ none
shifted-none none h = refl
shifted-none (some (i, l)) h = absurd (ground arith)

-- A boundary that does not begin in s alone begins there only if it goes beyond s.
gated :
    (s chunk sep : Bytes)
    → has_prefix s sep ≡ false
    → (ltb (length s) (length sep) && has_prefix (s ++ chunk) sep) ≡ has_prefix (s ++ chunk) sep
gated s chunk sep h = elim (Bool-cases (ltb (length s) (length sep))) [
  | inl e ↦ rw e refl
  | inr e ↦ rw e (sym (fits-prefix s chunk sep (ground arith) ∙ h))
]

choice-or_next :
    (x y x' y' : Bool) (r c t : Option (ℕ × ℕ))
    → x' ≡ x
    → y' ≡ y
    → r ≡ or_next c t
    → (if x then some (0, 2) else if y then some (0, 4) else shifted 1 r)
      ≡ or_next (if x' then some (0, 2) else if y' then some (0, 4) else shifted 1 c) (shifted 1 t)
choice-or_next x y x' y' r c t hx hy h = rw (hx, hy, h) (cases x y)
  where
    cases :
        (x y : Bool)
        → (if x then some (0, 2) else if y then some (0, 4) else shifted 1 (or_next c t))
          ≡ or_next
              (if x then some (0, 2) else if y then some (0, 4) else shifted 1 c)
              (shifted 1 t)
    cases true y = refl
    cases false true = refl
    cases false false = shifted-or_next c t

-- With no boundary in p, the first one in p and what follows crosses the end of p, or comes after.
pub first_boundary-append :
    (p chunk : Bytes)
    → first_boundary p ≡ none
    → first_boundary (p ++ chunk)
      ≡ or_next (crossing p chunk) (shifted (length p) (first_boundary chunk))
unfolding first_boundary crossing
first_boundary-append [] chunk h = shifted_zero (first_boundary chunk)
first_boundary-append (b ∷ p) chunk h = elim (Bool-cases (has_prefix (b ∷ p) lf_event_boundary)) [
  | inl e ↦ absurd (ground (arith, h, e))
  | inr e ↦ elim (Bool-cases (has_prefix (b ∷ p) crlf_event_boundary)) [
    | inl f ↦ absurd (ground (arith, h, e, f))
    | inr f ↦
        let none_after : first_boundary p ≡ none =
          shifted-none (first_boundary p) (sym (rw (e, f) refl) ∙ h) in
        choice-or_next (has_prefix ((b ∷ p) ++ chunk) lf_event_boundary)
          (has_prefix ((b ∷ p) ++ chunk) crlf_event_boundary) _ _ (first_boundary (p ++ chunk))
          (crossing p chunk) (shifted (length p) (first_boundary chunk))
          (gated (b ∷ p) chunk lf_event_boundary e) (gated (b ∷ p) chunk crlf_event_boundary f)
          (first_boundary-append p chunk none_after)
        ∙ ap (or_next (crossing (b ∷ p) chunk)) (suc-shifted (length p) (first_boundary chunk))
  ]
]

-- It begins before n and ends beyond n.
abbrev pub Across : ℕ → Option (ℕ × ℕ) → Type 0
Across n none = Unit
Across n (some (i, l)) = (i < n) × (n < i + l)

shifted-Across : (n : ℕ) (o : Option (ℕ × ℕ)) → Across n o → Across (suc n) (shifted 1 o)
shifted-Across n none h = tt
shifted-Across n (some (i, l)) (a, b) = (omega (arith, a), omega (arith, b))

-- A boundary that crosses the end of q begins in q and ends beyond it.
pub crossing-Across : (q chunk : Bytes) → Across (length q) (crossing q chunk)
unfolding crossing
crossing-Across [] chunk = tt
crossing-Across (b ∷ q) chunk =
    elim (Bool-cases (ltb (length (b ∷ q)) 2 && has_prefix ((b ∷ q) ++ chunk) lf_event_boundary)) [
      | inl e ↦ rw e (omega arith, ground (arith, e))
      | inr e ↦
          elim (Bool-cases
            (ltb (length (b ∷ q)) 4 && has_prefix ((b ∷ q) ++ chunk) crlf_event_boundary)) [
              | inl f ↦ rw (e, f) (omega arith, ground (arith, f))
              | inr f ↦
                  rw (e, f) (shifted-Across (length q) (crossing q chunk) (crossing-Across q chunk))
            ]
    ]
