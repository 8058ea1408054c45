-- ===== src/EventStream/Joined.antt =====
-- nextJoinedEventBoundary of internal/streaming/observed_sse_stream.go finds, without joining two
-- slices, the boundary that nextEventBoundary finds in them joined.
use thinroute.EventStream.Boundary.{
  crossing, Across, prefix-nil, shifted_zero, shifted-shifted, suc-shifted, or_next, first_boundary,
  next_event_boundary-first_boundary, crossing-Across, first_boundary-append,
}
use thinroute.Text.{has_prefix}
use thinroute.EventStream.{
  joined_byte, joined_bytes_match, Bytes, check_boundary, cross_from, next_boundary_across_join,
  next_joined_event_boundary, is_byte, lf_event_boundary, crlf_event_boundary, shifted,
  nearer_in_data, next_event_boundary,
}
use thinroute.Prelude.{
  Bool, Bool-cases, Option, [], ap, arith, drop, false, get_elem?, if◌then◌else◌, inl, inr, leb,
  length, length-drop, ltb, none, refl, some, subst, suc, sym, true, zero, ℕ, ◌&&◌, ◌++◌, ◌+◌, ◌-◌,
  ◌<◌, ◌∙◌, ◌∷◌, ◌≡◌, ◌≤◌,
}

joined_byte-get : (p chunk : Bytes) (i : ℕ) → joined_byte p chunk i ≡ get_elem? (p ++ chunk) i
unfolding joined_byte
joined_byte-get [] chunk i =
    let f : ltb i 0 ≡ false = ground arith in rw f (ap (get_elem? chunk) (omega arith))
joined_byte-get (b ∷ p) chunk zero =
    let f : ltb 0 (suc (length p)) ≡ true = ground arith in rw f refl
joined_byte-get (b ∷ p) chunk (suc i) = elim (Bool-cases (ltb i (length p))) [
  | inl e ↦
      let f : ltb (suc i) (suc (length p)) ≡ true = ground arith in
      let g : joined_byte p chunk i ≡ get_elem? p i = rw e refl in
      rw f (sym g ∙ joined_byte-get p chunk i)
  | inr e ↦
      let f : ltb (suc i) (suc (length p)) ≡ false = ground arith in
      let g : joined_byte p chunk i ≡ get_elem? chunk (i - length p) = rw e refl in
      rw f (ap (get_elem? chunk) (omega arith) ∙ (sym g ∙ joined_byte-get p chunk i))
]

prefix-get :
    (s sep : Bytes) (w i : ℕ)
    → has_prefix (drop i s) (w ∷ sep)
      ≡ (is_byte (get_elem? s i) w && has_prefix (drop (suc i) s) sep)
unfolding has_prefix
prefix-get [] sep w zero = refl
prefix-get [] sep w (suc i) = refl
prefix-get (b ∷ s) sep w zero = refl
prefix-get (b ∷ s) sep w (suc i) = prefix-get s sep w i

joined_bytes_match-prefix :
    (p chunk sep : Bytes) (i : ℕ)
    → joined_bytes_match p chunk i sep ≡ has_prefix (drop i (p ++ chunk)) sep
unfolding joined_bytes_match
joined_bytes_match-prefix p chunk [] i = sym (prefix-nil (drop i (p ++ chunk)))
joined_bytes_match-prefix p chunk (w ∷ sep) i =
    let next : i + 1 ≡ suc i = omega arith in
    rw (joined_byte-get p chunk i) (
      ap (λ x. is_byte (get_elem? (p ++ chunk) i) w && x)
        (joined_bytes_match-prefix p chunk sep (i + 1)
          ∙ ap (λ x. has_prefix (drop x (p ++ chunk)) sep) next)
      ∙ sym (prefix-get (p ++ chunk) sep w i))

stays : {A : Type 0} (x y : Bool) (a c : A) → (if x then a else if y && false then c else a) ≡ a
stays true y a c = refl
stays false true a c = refl
stays false false a c = refl

always : {A : Type 0} (y : Bool) (a c : A) → (if y && true then a else c) ≡ (if y then a else c)
always true a c = refl
always false a c = refl

pub drop_within : (p chunk : Bytes) (i : ℕ) → i ≤ length p → drop i (p ++ chunk) ≡ drop i p ++ chunk
drop_within p chunk zero h = refl
drop_within [] chunk (suc i) h = absurd (omega (arith, h))
drop_within (b ∷ p) chunk (suc i) h = drop_within p chunk i (omega (arith, h))

check_boundary-found :
    (p chunk : Bytes) (offset i l : ℕ) (sep : Bytes)
    → i ≤ offset
    → check_boundary p chunk offset sep (some (i, l)) ≡ some (i, l)
unfolding check_boundary
check_boundary-found p chunk offset i l sep h =
    let f : ltb offset i ≡ false = ground arith in
    rw f (
      stays (leb (offset + length sep) (length p)) (joined_bytes_match p chunk offset sep)
        (some (i, l)) (some (offset, length sep)))

-- The first check of a boundary at an offset.
check_boundary-none :
    (p chunk : Bytes) (offset : ℕ) (sep : Bytes)
    → offset ≤ length p
    → check_boundary p chunk offset sep none ≡ (
        if ltb (length (drop offset p)) (length sep) && has_prefix (drop offset p ++ chunk) sep
        then some (offset, length sep)
        else none)
unfolding check_boundary
check_boundary-none p chunk offset sep h =
    let m : joined_bytes_match p chunk offset sep ≡ has_prefix (drop offset p ++ chunk) sep =
      joined_bytes_match-prefix p chunk sep offset
      ∙ ap (λ x. has_prefix x sep) (drop_within p chunk offset h) in
    let n = length-drop offset p in
    rw m (elim (Bool-cases (leb (offset + length sep) (length p))) [
      | inl e ↦
          let f : ltb (length (drop offset p)) (length sep) ≡ false = ground (arith, n) in
          rw (e, f) refl
      | inr e ↦
          let f : ltb (length (drop offset p)) (length sep) ≡ true = ground (arith, n) in
          rw (e, f)
            (always (has_prefix (drop offset p ++ chunk) sep) (some (offset, length sep)) none)
    ])

-- A boundary that is found stays the best.
cross_from-found :
    (p chunk : Bytes) (count offset i l : ℕ)
    → i ≤ offset
    → cross_from p chunk count offset (some (i, l)) ≡ some (i, l)
unfolding cross_from
cross_from-found p chunk zero offset i l h = refl
cross_from-found p chunk (suc count) offset i l h =
    rw (check_boundary-found p chunk offset i l lf_event_boundary h) (
      rw (check_boundary-found p chunk offset i l crlf_event_boundary h)
        (cross_from-found p chunk count (offset + 1) i l (omega (arith, h))))

drop-length : (s : Bytes) (n : ℕ) → n ≡ length s → drop n s ≡ []
drop-length [] zero h = refl
drop-length [] (suc n) h = refl
drop-length (b ∷ s) zero h = absurd (omega (arith, h))
drop-length (b ∷ s) (suc n) h = drop-length s n (omega (arith, h))

-- A place inside the slice: its byte and the rest.
drop-cons : (s : Bytes) (n : ℕ) → n < length s → (b : ℕ) × (drop n s ≡ b ∷ drop (suc n) s)
drop-cons [] n h = absurd (omega (arith, h))
drop-cons (b ∷ s) zero h = (b, refl)
drop-cons (b ∷ s) (suc n) h = drop-cons s n (omega (arith, h))

-- Both checks at an offset.
both :
    (p chunk : Bytes) (offset : ℕ)
    → offset ≤ length p
    → check_boundary p chunk offset crlf_event_boundary
        (check_boundary p chunk offset lf_event_boundary none)
      ≡ (if ltb (length (drop offset p)) 2 && has_prefix (drop offset p ++ chunk) lf_event_boundary
          then some (offset, 2)
          else if ltb (length (drop offset p)) 4
              && has_prefix (drop offset p ++ chunk) crlf_event_boundary
          then some (offset, 4)
          else none)
both p chunk offset h =
    rw (check_boundary-none p chunk offset lf_event_boundary h)
      (elim (Bool-cases
        (ltb (length (drop offset p)) 2 && has_prefix (drop offset p ++ chunk) lf_event_boundary)) [
          | inl e ↦
              rw e (check_boundary-found p chunk offset offset 2 crlf_event_boundary (omega arith))
          | inr e ↦ rw e (check_boundary-none p chunk offset crlf_event_boundary h)
        ])

crossing-cons :
    (q chunk : Bytes) (b : ℕ) (r : Bytes)
    → q ≡ b ∷ r
    → crossing q chunk ≡ (
        if ltb (length q) 2 && has_prefix (q ++ chunk) lf_event_boundary
        then some (0, 2)
        else if ltb (length q) 4 && has_prefix (q ++ chunk) crlf_event_boundary
        then some (0, 4)
        else shifted 1 (crossing r chunk))
unfolding crossing
crossing-cons q chunk b r h = rw h refl

-- The loop over the offsets finds the first crossing boundary.
cross_from-crossing :
    (p chunk : Bytes) (count offset : ℕ)
    → offset + count ≡ length p
    → cross_from p chunk count offset none ≡ shifted offset (crossing (drop offset p) chunk)
unfolding cross_from crossing
cross_from-crossing p chunk zero offset h = rw (drop-length p offset (omega (arith, h))) refl
cross_from-crossing p chunk (suc count) offset h =
    let (b, q) = drop-cons p offset (omega (arith, h)) in
    let next : suc offset ≡ offset + 1 = omega arith in
    let ih = cross_from-crossing p chunk count (offset + 1) (omega (arith, h)) in
    let x =
      ltb (length (drop offset p)) 2 && has_prefix (drop offset p ++ chunk) lf_event_boundary in
    let y =
      ltb (length (drop offset p)) 4 && has_prefix (drop offset p ++ chunk) crlf_event_boundary in
    rw (both p chunk offset (omega (arith, h))) (
      subst
        (λ z.
          cross_from p chunk count (offset + 1)
            (if x then some (offset, 2) else if y then some (offset, 4) else none)
          ≡ shifted offset z)
        (sym (
          crossing-cons (drop offset p) chunk b (drop (offset + 1) p)
            (q ∙ ap (λ z. b ∷ drop z p) next)))
        (elim (Bool-cases x) [
          | inl e ↦ rw e (
              cross_from-found p chunk count (offset + 1) offset 2 (omega arith)
              ∙ ap (λ i. some (i, 2)) (omega arith))
          | inr e ↦ elim (Bool-cases y) [
            | inl f ↦
                rw (e, f)
                  (cross_from-found p chunk count (offset + 1) offset 4 (omega arith)
                    ∙ ap (λ i. some (i, 4)) (omega arith))
            | inr f ↦
                rw (e, f)
                  (ih ∙ sym (shifted-shifted offset 1 (crossing (drop (offset + 1) p) chunk)))
          ]
        ]))

crossing-long :
    (b : ℕ) (p chunk : Bytes) → 3 ≤ length p → crossing (b ∷ p) chunk ≡ shifted 1 (crossing p chunk)
unfolding crossing
crossing-long b p chunk h =
    let two : ltb (suc (length p)) 2 ≡ false = ground arith in
    let four : ltb (suc (length p)) 4 ≡ false = ground arith in rw (two, four) refl

-- No boundary crosses the end that begins more than three bytes before it.
crossing-drop :
    (p chunk : Bytes) (n : ℕ)
    → length p ≡ n + 3
    → shifted n (crossing (drop n p) chunk) ≡ crossing p chunk
crossing-drop p chunk zero h = sym (shifted_zero (crossing p chunk))
crossing-drop [] chunk (suc n) h = absurd (omega (arith, h))
crossing-drop (b ∷ p) chunk (suc n) h =
    sym (suc-shifted n (crossing (drop n p) chunk))
    ∙ (ap (shifted 1) (crossing-drop p chunk n (omega (arith, h)))
        ∙ sym (crossing-long b p chunk (omega (arith, h))))

pub across_join-crossing : (p chunk : Bytes) → next_boundary_across_join p chunk ≡ crossing p chunk
unfolding next_boundary_across_join
across_join-crossing p chunk =
    let start = length p - 3 in
    cross_from-crossing p chunk (length p - start) start (omega arith)
    ∙ elim (Bool-cases (leb 3 (length p))) [
      | inl e ↦ crossing-drop p chunk start (ground arith)
      | inr e ↦
          let none_before : start ≡ 0 = ground arith in
          rw none_before (sym (shifted_zero (crossing p chunk)))
    ]

pub nearer_in_data-or_next :
    (n : ℕ) (a b : Option (ℕ × ℕ))
    → Across n a
    → nearer_in_data a (shifted n b) ≡ or_next a (shifted n b)
nearer_in_data-or_next n none none h = refl
nearer_in_data-or_next n none (some (j, m)) h = refl
nearer_in_data-or_next n (some (i, l)) none h = refl
nearer_in_data-or_next n (some (i, l)) (some (j, m)) (before, beyond) =
    let f : ltb (n + j) i ≡ false = ground (arith, before) in rw f refl

-- nextJoinedEventBoundary, which searches the last three bytes of what is pending and the chunk,
-- finds the boundary that nextEventBoundary finds in the two joined. Condition: there is no boundary
-- in what is pending.
pub next_joined-next_event :
    (prefix chunk : Bytes)
    → next_event_boundary prefix ≡ none
    → next_joined_event_boundary prefix chunk ≡ next_event_boundary (prefix ++ chunk)
unfolding next_joined_event_boundary
next_joined-next_event p chunk h =
    let no_boundary : first_boundary p ≡ none = sym (next_event_boundary-first_boundary p) ∙ h in
    rw (across_join-crossing p chunk, next_event_boundary-first_boundary chunk)
      (nearer_in_data-or_next (length p) (crossing p chunk) (first_boundary chunk)
          (crossing-Across p chunk)
        ∙ (sym (first_boundary-append p chunk no_boundary)
            ∙ sym (next_event_boundary-first_boundary (p ++ chunk))))
