-- ===== src/VirtualModels/Paths/Allowed.antt =====
-- Which users the normalized paths of a row allow.
use thinroute.Prelude.{
  All, Bool, Bool-cases, List, [], any, ap, arith, false, inl, inr, length, ltb, ltb→lt, refl, some,
  subst, suc, sym, take, true, zero, ℕ, ◌<◌, ◌==◌, ◌||◌, ◌↔◌, ◌∙◌, ◌∷◌, ◌≡◌, ◌≤◌,
}
use thinroute.Text.{Text, is_empty}
use thinroute.UserPath.{
  Normalized, normalize_user_path, path, dot_segment, user_path_ancestors, colon_segment,
}
use thinroute.VirtualModels.{◌>>=◌, Checked, valid, invalid}
use thinroute.Text.Order.{Ordered, mem, sort_texts, sort_texts-Ordered}
use thinroute.Text.Search.{binary_search, binary_search-mem}
use thinroute.UserPath.Ancestors.{upward, ancestors-path_of}
use thinroute.UserPath.Normal.{
  path_of, IsSegment, normalize_user_path-IsUserPath, no_path, path_of-is_empty, segments,
}
use thinroute.VirtualModels.Paths.{
  normalize_user_paths, path_allowed, user_path_allowed, distinct_paths,
}

pub bind-valid {ℓ κ} :
    {A : Type ℓ} {B : Type κ} (c : Checked A) (f : A → Checked B) (b : B)
    → (c >>= f) ≡ valid b
    → (a : A) × ((c ≡ valid a) × (f a ≡ valid b))
bind-valid (valid a) f b h = (a, (refl, h))
bind-valid (invalid e) f b h = absurd (ground arith)

pub valid-injective {ℓ} : {A : Type ℓ} (a b : A) → valid a ≡ valid b → a ≡ b
valid-injective a b h = ap (from a) h
  where
    from : {A : Type ℓ} → A → Checked A → A
    from a (valid b) = b
    from a (invalid e) = a

pub normalize_user_paths-Ordered :
    (raws allowed : List Text) → normalize_user_paths raws ≡ valid allowed → Ordered allowed
unfolding normalize_user_paths
normalize_user_paths-Ordered raws allowed h =
    let (ps, (e, q)) =
      bind-valid (distinct_paths raws []) (λ ps. valid (sort_texts ps)) allowed h in
    subst Ordered (valid-injective (sort_texts ps) allowed q) (sort_texts-Ordered ps)

-- The rows' paths allow a user whose path has the segments ws: there are none, or the path of some
-- leading segments is one of them.
pub data Granted (ws allowed : List Text) : Type 0 where
  anyone : length allowed ≡ 0 → Granted ws allowed
  ancestor : (n : ℕ) → n ≤ length ws → mem (path_of (take n ws)) allowed ≡ true → Granted ws allowed

any-upward :
    (f : Text → Bool) (ws : List Text) (n : ℕ)
    → any f (upward n ws) ≡ true
    → (k : ℕ) × ((k < n) × (f (path_of (take k ws)) ≡ true))
any-upward f ws zero h = absurd (ground arith)
any-upward f ws (suc n) h = elim (Bool-cases (f (path_of (take n ws)))) [
  | inl e ↦ (n, (omega arith, e))
  | inr e ↦ let (k, (l, q)) = any-upward f ws n (ground arith) in (k, (omega (arith, l), q))
]

upward-any :
    (f : Text → Bool) (ws : List Text) (n k : ℕ)
    → k < n
    → f (path_of (take k ws)) ≡ true
    → any f (upward n ws) ≡ true
upward-any f ws zero k l h = absurd (omega (arith, l))
upward-any f ws (suc n) k l h = elim (Bool-cases (ltb k n)) [
  | inl b ↦ ground (arith, upward-any f ws n k (ltb→lt k n b) h)
  | inr b ↦
      let same : k ≡ n = ground arith in
      let top : f (path_of (take n ws)) ≡ true =
        subst (λ i. f (path_of (take i ws)) ≡ true) same h in
      rw top refl
]

take-length : (ws : List Text) → take (length ws) ws ≡ ws
take-length [] = refl
take-length (w ∷ ws) = ap (λ r. w ∷ r) (take-length ws)

path_allowed-path_of :
    (ws allowed : List Text)
    → All IsSegment ws
    → path_allowed (path (path_of ws)) allowed
      ≡ any (λ q. binary_search allowed q) (path_of ws ∷ upward (length ws) ws)
unfolding path_allowed
path_allowed-path_of ws allowed h =
    let p = path_of ws in
    let e : user_path_ancestors p ≡ some (p ∷ upward (length ws) ws) = ancestors-path_of ws h in
    rw (path_of-is_empty ws, e) refl

user_path_allowed-cases :
    (raw : Text) (n : Normalized) (allowed : List Text)
    → normalize_user_path raw ≡ n
    → user_path_allowed raw allowed
      ≡ (length allowed == 0 || (binary_search allowed (b'/' ∷ []) || path_allowed n allowed))
unfolding user_path_allowed
user_path_allowed-cases raw n allowed e = rw e (ground arith)

granted :
    (ws allowed : List Text)
    → Ordered allowed
    → All IsSegment ws
    → (length allowed == 0
        || (binary_search allowed (b'/' ∷ []) || path_allowed (path (path_of ws)) allowed))
      ≡ true
    → Granted ws allowed
unfolding path_of
granted ws allowed o h e = elim (Bool-cases (length allowed == 0)) [
  | inl z ↦ anyone (ground arith)
  | inr z ↦ elim (Bool-cases (binary_search allowed (b'/' ∷ []))) [
    | inl r ↦ ancestor 0 (omega arith) (sym (binary_search-mem allowed (b'/' ∷ []) o) ∙ r)
    | inr r ↦
        let f : Text → Bool = λ q. binary_search allowed q in
        let hit : any f (path_of ws ∷ upward (length ws) ws) ≡ true =
          ground (arith, e, z, r, path_allowed-path_of ws allowed h) in
        elim (Bool-cases (f (path_of ws))) [
          | inl b ↦ ancestor (length ws) (omega arith) (
              ap (λ x. mem (path_of x) allowed) (take-length ws)
              ∙ (sym (binary_search-mem allowed (path_of ws) o) ∙ b))
          | inr b ↦
              let (k, (l, q)) = any-upward f ws (length ws) (ground (arith, hit, b)) in
              ancestor k (omega (arith, l))
                (sym (binary_search-mem allowed (path_of (take k ws)) o) ∙ q)
        ]
  ]
]

allows :
    (ws allowed : List Text)
    → Ordered allowed
    → All IsSegment ws
    → Granted ws allowed
    → (length allowed == 0
        || (binary_search allowed (b'/' ∷ []) || path_allowed (path (path_of ws)) allowed))
      ≡ true
allows ws allowed o h (anyone z) = ground arith
allows ws allowed o h (ancestor n l m) =
    let f : Text → Bool = λ q. binary_search allowed q in
    let found : f (path_of (take n ws)) ≡ true =
      binary_search-mem allowed (path_of (take n ws)) o ∙ m in
    elim (Bool-cases (ltb n (length ws))) [
      | inl b ↦ ground (
        arith,
        path_allowed-path_of ws allowed h,
        upward-any f ws (length ws) n (ltb→lt n (length ws) b) found,
      )
      | inr b ↦
          let same : n ≡ length ws = ground arith in
          let top : f (path_of ws) ≡ true =
            sym (ap (λ x. f (path_of x)) (ap (λ i. take i ws) same ∙ take-length ws)) ∙ found in
          ground (arith, path_allowed-path_of ws allowed h, top)
    ]

-- A user whose path is normalized to a path, not the empty one, is allowed by the normalized paths
-- of a row exactly if there are none, or if the path of some leading segments of the user's path
-- (all of them, or none, which is /) is one of them.
pub user_path_allowed-Granted :
    (raws allowed : List Text) (raw p : Text)
    → normalize_user_paths raws ≡ valid allowed
    → normalize_user_path raw ≡ path p
    → is_empty p ≡ false
    → (ws : List Text) × ((All IsSegment ws × (p ≡ path_of ws))
        × ((user_path_allowed raw allowed ≡ true) ↔ Granted ws allowed))
user_path_allowed-Granted raws allowed raw p n e ne =
    let o = normalize_user_paths-Ordered raws allowed n in
    elim (normalize_user_path-IsUserPath raw p e) [
      | no_path h ↦ absurd (ground arith)
      | segments ws h q ↦
          let c = user_path_allowed-cases raw (path (path_of ws)) allowed (e ∙ ap path q) in
          (
            ws,
            (
              (h, q),
              ((λ t. granted ws allowed o h (sym c ∙ t)), (λ g. c ∙ allows ws allowed o h g)),
            ),
          )
    ]

-- No user path: the path is empty, or NormalizeUserPath refuses it.
abbrev pub Pathless : Normalized → Type 0
Pathless (path p) = is_empty p ≡ true
Pathless dot_segment = Unit
Pathless colon_segment = Unit

Pathless-path_allowed :
    (n : Normalized) (allowed : List Text) → Pathless n → path_allowed n allowed ≡ false
unfolding path_allowed
Pathless-path_allowed (path p) allowed h = rw h refl
Pathless-path_allowed dot_segment allowed h = refl
Pathless-path_allowed colon_segment allowed h = refl

-- A request with no user path, or with one that is refused, is allowed by the normalized paths of a
-- row exactly if there are none or / is one of them.
pub user_path_allowed-Pathless :
    (raws allowed : List Text) (raw : Text)
    → normalize_user_paths raws ≡ valid allowed
    → Pathless (normalize_user_path raw)
    → user_path_allowed raw allowed ≡ (length allowed == 0 || mem (b'/' ∷ []) allowed)
user_path_allowed-Pathless raws allowed raw n h =
    let o = normalize_user_paths-Ordered raws allowed n in
    ground (
      arith,
      user_path_allowed-cases raw (normalize_user_path raw) allowed refl,
      Pathless-path_allowed (normalize_user_path raw) allowed h,
      binary_search-mem allowed (b'/' ∷ []) o,
    )
