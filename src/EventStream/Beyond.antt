-- ===== src/EventStream/Beyond.antt =====
-- Where the boundaries end that nextJoinedEventBoundary of
-- internal/streaming/observed_sse_stream.go finds.
use thinroute.EventStream.Joined.{across_join-crossing, nearer_in_data-or_next}
use thinroute.EventStream.Boundary.{Across, or_next, crossing-Across}
use thinroute.EventStream.{
  nearer, next_event_boundary, Bytes, next_joined_event_boundary, index_of, lf_event_boundary,
  next_boundary_across_join, crlf_event_boundary, shifted,
}
use mathlib.Core.Option.{some-injective}
use thinroute.Prelude.{
  Bool-cases, Option, Option-cases, ap, arith, inl, inr, length, ltb, none, refl, some, subst, sym,
  ℕ, ◌+◌, ◌<◌, ◌∙◌, ◌≡◌, ◌≤◌,
}

second_of : (x y : ℕ × ℕ) → some x ≡ some y → 2 ≤ x.1 → 2 ≤ y.1
second_of x y h b = subst (λ z. 2 ≤ z.1) (some-injective x y h) b

nearer-long : (a b : Option ℕ) (i l : ℕ) → nearer a b ≡ some (i, l) → 2 ≤ l
nearer-long none none i l h = absurd (ground arith)
nearer-long none (some j) i l h = second_of (j, 4) (i, l) h (omega arith)
nearer-long (some j) none i l h = second_of (j, 2) (i, l) h (omega arith)
nearer-long (some j) (some k) i l h = elim (Bool-cases (ltb j k)) [
  | inl e ↦ second_of (j, 2) (i, l) (sym (rw e refl) ∙ h) (omega arith)
  | inr e ↦ second_of (k, 4) (i, l) (sym (rw e refl) ∙ h) (omega arith)
]

-- A boundary has two bytes at least.
pub next_event_boundary-long : (s : Bytes) (i l : ℕ) → next_event_boundary s ≡ some (i, l) → 2 ≤ l
unfolding next_event_boundary
next_event_boundary-long s i l h =
    nearer-long (index_of s lf_event_boundary) (index_of s crlf_event_boundary) i l h

beyond :
    (n : ℕ) (chunk : Bytes) (a : Option (ℕ × ℕ)) (i l : ℕ)
    → Across n a
    → or_next a (shifted n (next_event_boundary chunk)) ≡ some (i, l)
    → n < i + l
beyond n chunk none i l h e = elim (Option-cases (next_event_boundary chunk)) [
  | inl q ↦ absurd (ground (arith, e, q))
  | inr ((j, m), q) ↦
      let same = some-injective (n + j, m) (i, l) (sym (ap (shifted n) q) ∙ e) in
      let long = next_event_boundary-long chunk j m q in
      subst (λ x. n < x.0 + x.1) same (omega (arith, long))
]
beyond n chunk (some (j, m)) i l (before, over) e =
    subst (λ x. n < x.0 + x.1) (some-injective (j, m) (i, l) e) over

-- What nextJoinedEventBoundary finds ends in the chunk.
pub next_joined_beyond :
    (prefix chunk : Bytes) (i l : ℕ)
    → next_joined_event_boundary prefix chunk ≡ some (i, l)
    → length prefix < i + l
unfolding next_joined_event_boundary
next_joined_beyond p chunk i l h =
    let across : Across (length p) (next_boundary_across_join p chunk) =
      subst (Across (length p)) (sym (across_join-crossing p chunk)) (crossing-Across p chunk) in
    beyond (length p) chunk (next_boundary_across_join p chunk) i l across (
      sym (
        nearer_in_data-or_next (length p) (next_boundary_across_join p chunk)
          (next_event_boundary chunk) across)
      ∙ h)
