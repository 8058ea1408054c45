-- ===== src/UserPath/Ancestors.antt =====
-- UserPathAncestors of internal/core/user_path.go: its loop ends, and its answers are the paths of
-- the leading segments.
use thinroute.Text.Laws.{text_eq_iff}
use thinroute.UserPath.Normal.{
  path_of, IsSegment, normalize-path_of, path_of-is_empty, normalize_user_path-IsUserPath, no_path,
  segments,
}
use thinroute.Text.{Text, text_eq, is_empty}
use thinroute.Text.Split.{last_index, separated, Free, last_index-append}
use thinroute.UserPath.{
  climb, parent, ancestors_of, user_path_ancestors, above, Normalized, normalize_user_path, path,
  dot_segment, colon_segment,
}
use thinroute.Prelude.{
  All, Bool-cases, List, Option-cases, [], ap, arith, false, inl, inr, length, length-append,
  length-take, refl, some, suc, sym, take, zero, ℕ, ◌++◌, ◌<◌, ◌==◌, ◌∙◌, ◌∷◌, ◌≡◌, ◌≤◌,
}
use mathlib.Core.List.{append-nil, append_assoc}

climb-step :
    (fuel : ℕ) (c : Text) (r : List Text)
    → text_eq c (b'/' ∷ []) ≡ false
    → climb fuel (parent c) ≡ some r
    → climb (suc fuel) c ≡ some (parent c ∷ r)
unfolding climb
climb-step fuel c r ne h = rw (ne, h) refl

last_index-bound : (s : Text) (sep i : ℕ) → last_index s sep ≡ some i → i < length s
unfolding last_index
last_index-bound [] sep i h = absurd (ground arith)
last_index-bound (c ∷ s) sep i h = elim (Option-cases (last_index s sep)) [
  | inl e ↦ elim (Bool-cases (c == sep)) [ inl b ↦ ground arith | inr b ↦ absurd (ground arith) ]
  | inr (j, e) ↦ ground (arith, last_index-bound s sep j e)
]

-- The path above is no longer than the path, not even as long unless it is /, and never empty.
data Above (c p : Text) : Type 0 where
  root : p ≡ b'/' ∷ [] → Above c p
  shorter : 1 ≤ length p → length p < length c → Above c p

parent-Above : (c : Text) → Above c (parent c)
unfolding parent above
parent-Above c = elim (Option-cases (last_index c b'/')) [
  | inl e ↦ rw e (root refl)
  | inr (zero, e) ↦ rw e (root refl)
  | inr (suc i, e) ↦
      let b = last_index-bound c b'/' (suc i) e in
      let l = length-take (suc i) c in rw e (shorter (omega (arith, b, l)) (omega (arith, b, l)))
]

climb-root : (fuel : ℕ) → climb (suc fuel) (b'/' ∷ []) ≡ some []
unfolding climb text_eq
climb-root fuel = refl

climb-ends :
    (fuel : ℕ) (c : Text)
    → 1 ≤ length c
    → length c < fuel
    → (r : List Text) × (climb fuel c ≡ some r)
climb-ends zero c h k = absurd (omega (arith, k))
climb-ends (suc zero) c h k = absurd (omega (arith, h, k))
climb-ends (suc (suc fuel)) c h k = elim (Bool-cases (text_eq c (b'/' ∷ []))) [
  | inl e ↦ ([], rw ((text_eq_iff c (b'/' ∷ [])).0 e) (climb-root (suc fuel)))
  | inr e ↦ elim (parent-Above c) [
    | root p ↦
        let q : climb (suc fuel) (parent c) ≡ some [] = rw p (climb-root fuel) in
        (parent c ∷ [], climb-step (suc fuel) c [] e q)
    | shorter a b ↦
        let (r, q) = climb-ends (suc fuel) (parent c) a (omega (arith, b, k)) in
        (parent c ∷ r, climb-step (suc fuel) c r e q)
  ]
]

ancestors_of-climb :
    (p : Text) (r : List Text)
    → is_empty p ≡ false
    → text_eq p (b'/' ∷ []) ≡ false
    → climb (suc (length p)) p ≡ some r
    → ancestors_of (path p) ≡ some (p ∷ r)
unfolding ancestors_of
ancestors_of-climb p r ne b q = rw (ne, b, q) refl

ancestors_of-ends : (n : Normalized) → (r : List Text) × (ancestors_of n ≡ some r)
unfolding ancestors_of
ancestors_of-ends dot_segment = ([], refl)
ancestors_of-ends colon_segment = ([], refl)
ancestors_of-ends (path []) = ([], refl)
ancestors_of-ends (path (c ∷ p)) = elim (Bool-cases (text_eq (c ∷ p) (b'/' ∷ []))) [
  | inl b ↦ ((b'/' ∷ []) ∷ [], rw b refl)
  | inr b ↦
      let (r, q) = climb-ends (suc (length (c ∷ p))) (c ∷ p) (omega arith) (omega arith) in
      ((c ∷ p) ∷ r, ancestors_of-climb (c ∷ p) r refl b q)
]

-- The loop of UserPathAncestors ends on every input: the fuel, one more than the length of the
-- normalized path, is never spent.
pub user_path_ancestors-ends : (raw : Text) → (r : List Text) × (user_path_ancestors raw ≡ some r)
unfolding user_path_ancestors
user_path_ancestors-ends raw = ancestors_of-ends (normalize_user_path raw)

-- The paths of the first n - 1, ..., 0 segments.
abbrev pub upward : ℕ → List Text → List Text
upward zero ws = []
upward (suc n) ws = path_of (take n ws) ∷ upward n ws

separated-snoc :
    (ws : List Text) (w : Text) → separated (ws ++ w ∷ []) b'/' ≡ separated ws b'/' ++ b'/' ∷ w
unfolding separated
separated-snoc [] w = ap (λ x. b'/' ∷ x) (append-nil w)
separated-snoc (v ∷ ws) w =
    ap (λ x. b'/' ∷ x)
      (ap (λ x. v ++ x) (separated-snoc ws w) ∙ sym (append_assoc v (separated ws b'/') (b'/' ∷ w)))

take-append : (s t : Text) → take (length s) (s ++ t) ≡ s
take-append [] t = refl
take-append (c ∷ s) t = ap (λ x. c ∷ x) (take-append s t)

parent-snoc :
    (ws : List Text) (w : Text) → Free b'/' w → parent (separated (ws ++ w ∷ []) b'/') ≡ path_of ws
unfolding parent above path_of separated
parent-snoc [] w h =
    let q : last_index (separated ([] ++ w ∷ []) b'/') b'/' ≡ some 0 =
      ap (λ x. last_index x b'/') (separated-snoc [] w) ∙ last_index-append [] w b'/' h in
    rw q refl
parent-snoc (v ∷ ws) w h =
    let s = separated (v ∷ ws) b'/' in
    let q : last_index (separated ((v ∷ ws) ++ w ∷ []) b'/') b'/' ≡ some (length s) =
      ap (λ x. last_index x b'/') (separated-snoc (v ∷ ws) w) ∙ last_index-append s w b'/' h in
    rw q (ap (take (length s)) (separated-snoc (v ∷ ws) w) ∙ take-append s (b'/' ∷ w))

module _ {ℓ} {A : Type ℓ} (P : A → Type 0) where
  take-snoc :
      (xs : List A) (n : ℕ)
      → All P xs
      → n < length xs
      → (x : A) × (P x × (take (suc n) xs ≡ take n xs ++ x ∷ []))
  take-snoc [] n h k = absurd (omega (arith, k))
  take-snoc (x ∷ xs) zero (p, h) k = (x, (p, refl))
  take-snoc (x ∷ xs) (suc n) (p, h) k =
      let (y, (q, e)) = take-snoc xs n h (omega (arith, k)) in (y, (q, ap (λ r. x ∷ r) e))

separated-not_root :
    (v : Text) (vs : List Text)
    → is_empty v ≡ false
    → text_eq (separated (v ∷ vs) b'/') (b'/' ∷ []) ≡ false
unfolding separated text_eq
separated-not_root [] vs h = absurd (ground arith)
separated-not_root (c ∷ v) vs h = refl

take-not_root :
    (ws : List Text) (n : ℕ)
    → All IsSegment ws
    → n < length ws
    → text_eq (separated (take (suc n) ws) b'/') (b'/' ∷ []) ≡ false
take-not_root [] n h k = absurd (omega (arith, k))
take-not_root (w ∷ ws) n (s, h) k = separated-not_root w (take n ws) s.not_empty

path_of-take :
    (ws : List Text) (n : ℕ)
    → n < length ws
    → path_of (take (suc n) ws) ≡ separated (take (suc n) ws) b'/'
unfolding path_of
path_of-take [] n k = absurd (omega (arith, k))
path_of-take (w ∷ ws) n k = refl

climb-upward :
    (ws : List Text) (n fuel : ℕ)
    → All IsSegment ws
    → n ≤ length ws
    → n < fuel
    → climb fuel (path_of (take n ws)) ≡ some (upward n ws)
unfolding path_of
climb-upward ws n zero h k f = absurd (omega (arith, f))
climb-upward ws zero (suc fuel) h k f = climb-root fuel
climb-upward ws (suc n) (suc fuel) h k f =
    let (w, (s, e)) = take-snoc IsSegment ws n h k in
    let up : parent (separated (take (suc n) ws) b'/') ≡ path_of (take n ws) =
      ap (λ x. parent (separated x b'/')) e ∙ parent-snoc (take n ws) w s.no_slash in
    let rest : climb fuel (parent (separated (take (suc n) ws) b'/')) ≡ some (upward n ws) =
      ap (climb fuel) up ∙ climb-upward ws n fuel h (omega (arith, k)) (omega (arith, f)) in
    ap (climb (suc fuel)) (path_of-take ws n k)
    ∙ (climb-step fuel (separated (take (suc n) ws) b'/') (upward n ws) (take-not_root ws n h k)
          rest
        ∙ ap (λ p. some (p ∷ upward n ws)) up)

length-path_of : (ws : List Text) → length ws ≤ length (path_of ws)
unfolding path_of separated
length-path_of [] = omega arith
length-path_of (w ∷ []) = omega arith
length-path_of (w ∷ v ∷ ws) =
    let rest : length (v ∷ ws) ≤ length (path_of (v ∷ ws)) = length-path_of (v ∷ ws) in
    omega (arith, rest, length-append w (path_of (v ∷ ws)))

take-all : (ws : List Text) → take (length ws) ws ≡ ws
take-all [] = refl
take-all (w ∷ ws) = ap (λ r. w ∷ r) (take-all ws)

ancestors_of-path_of :
    (ws : List Text)
    → All IsSegment ws
    → ancestors_of (path (path_of ws)) ≡ some (path_of ws ∷ upward (length ws) ws)
unfolding ancestors_of path_of text_eq
ancestors_of-path_of [] h = refl
ancestors_of-path_of (w ∷ ws) (s, h) =
    let p = path_of (w ∷ ws) in
    let q : climb (suc (length p)) p ≡ some (upward (length (w ∷ ws)) (w ∷ ws)) =
      ap (λ x. climb (suc (length p)) (path_of x)) (sym (take-all (w ∷ ws)))
      ∙ climb-upward (w ∷ ws) (length (w ∷ ws)) (suc (length p)) (s, h) (omega arith)
          (omega (arith, length-path_of (w ∷ ws))) in
    ancestors_of-climb p (upward (length (w ∷ ws)) (w ∷ ws)) (path_of-is_empty (w ∷ ws))
      (separated-not_root w ws s.not_empty) q

pub ancestors-path_of :
    (ws : List Text)
    → All IsSegment ws
    → user_path_ancestors (path_of ws) ≡ some (path_of ws ∷ upward (length ws) ws)
unfolding user_path_ancestors
ancestors-path_of ws h = rw (normalize-path_of ws h) (ancestors_of-path_of ws h)

-- UserPathAncestors answers the path that NormalizeUserPath gives, then the paths of its first
-- n - 1, ..., 1 of its n segments, then /.
pub user_path_ancestors-upward :
    (raw p : Text)
    → normalize_user_path raw ≡ path p
    → is_empty p ≡ false
    → (ws : List Text) × (All IsSegment ws
        × ((p ≡ path_of ws)
            × (user_path_ancestors raw ≡ some (path_of ws ∷ upward (length ws) ws))))
unfolding user_path_ancestors
user_path_ancestors-upward raw p e ne = elim (normalize_user_path-IsUserPath raw p e) [
  | no_path h ↦ absurd (ground arith)
  | segments ws h q ↦ (ws, (h, (q, rw (e, q) (ancestors_of-path_of ws h))))
]
