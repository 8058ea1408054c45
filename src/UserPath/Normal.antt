-- ===== src/UserPath/Normal.antt =====
-- The paths that NormalizeUserPath of internal/core/user_path.go gives.
use thinroute.Text.Trim.{
  solid, Trimmed, Trimmed-trim_space, Trimmed-append, trim_space-Trimmed, trim_space-any,
}
use thinroute.UserPath.{
  Segments, canonical_segments, joined_path, normalize_user_path, Normalized, kept, keep, path,
  is_dots, refused_dots, dot_segment, colon_segment, refused_colon,
}
use thinroute.Text.Split.{separated, Free, join_texts, split, split-separated, split-Free}
use thinroute.Text.{Text, is_space, has_prefix, is_empty, trim_space, trim_left, contains}
use thinroute.Prelude.{
  All, Bool-cases, List, [], ap, arith, false, if◌then◌else◌, inl, inr, refl, subst, sym, true,
  ◌==◌, ◌∙◌, ◌∷◌, ◌≡◌,
}
use mathlib.Core.List.{append-nil}

-- What the path is made of: a segment as it stands between two slashes.
pub record IsSegment (w : Text) : Type 0 where
  pub trimmed : Trimmed w
  pub not_empty : is_empty w ≡ false
  pub no_dots : is_dots w ≡ false
  pub no_colon : contains w (b':' ∷ []) ≡ false
  pub no_slash : Free b'/' w

-- The path with these segments.
unfoldable pub path_of : List Text → Text
unfolding separated
path_of [] = b'/' ∷ []
path_of (w ∷ ws) = separated (w ∷ ws) b'/'

abbrev KeptSegments : Segments → Type 0
KeptSegments (kept ws) = All IsSegment ws
KeptSegments refused_dots = Unit
KeptSegments refused_colon = Unit

keep-KeptSegments :
    (w : Text) (r : Segments) → IsSegment w → KeptSegments r → KeptSegments (keep w r)
keep-KeptSegments w (kept ws) h k = (h, k)
keep-KeptSegments w refused_dots h k = tt
keep-KeptSegments w refused_colon h k = tt

segments-KeptSegments :
    (raws : List Text) → All (Free b'/') raws → KeptSegments (canonical_segments raws)
unfolding canonical_segments
segments-KeptSegments [] h = tt
segments-KeptSegments (raw ∷ rest) (free, h) =
    let others = segments-KeptSegments rest h in
    let w = trim_space raw in
    elim (Bool-cases (is_empty w)) [
      | inl e ↦ rw e others
      | inr e ↦ elim (Bool-cases (is_dots w)) [
        | inl d ↦ rw (e, d) tt
        | inr d ↦ elim (Bool-cases (contains w (b':' ∷ []))) [
          | inl c ↦ rw (e, d, c) tt
          | inr c ↦
              rw (e, d, c)
                (keep-KeptSegments w (canonical_segments rest)
                  (record {
                    trimmed = trim_space-Trimmed raw;
                    not_empty = e;
                    no_dots = d;
                    no_colon = c;
                    no_slash = trim_space-any (λ x. x == b'/') raw free;
                  })
                  others)
        ]
      ]
    ]

-- The loop keeps segments as they are.
canonical_segments-segments : (ws : List Text) → All IsSegment ws → canonical_segments ws ≡ kept ws
unfolding canonical_segments
canonical_segments-segments [] h = refl
canonical_segments-segments (w ∷ ws) (s, h) =
    rw (Trimmed-trim_space w s.trimmed, s.not_empty, s.no_dots, s.no_colon)
      (rw (canonical_segments-segments ws h) refl)

All-Free : (ws : List Text) → All IsSegment ws → All (Free b'/') ws
All-Free [] h = tt
All-Free (w ∷ ws) (s, h) = (s.no_slash, All-Free ws h)

slash-Trimmed : Trimmed (b'/' ∷ [])
unfolding solid is_space
slash-Trimmed = (refl, refl)

separated-Trimmed :
    (w : Text) (ws : List Text) → All IsSegment (w ∷ ws) → Trimmed (separated (w ∷ ws) b'/')
unfolding separated
separated-Trimmed w [] (s, h) =
    subst (λ x. Trimmed (b'/' ∷ x)) (sym (append-nil w))
      (Trimmed-append (b'/' ∷ []) w [] refl s.not_empty slash-Trimmed s.trimmed)
separated-Trimmed w (v ∷ ws) (s, h) =
    Trimmed-append (b'/' ∷ []) (separated (v ∷ ws) b'/') w refl refl slash-Trimmed
      (separated-Trimmed v ws h)

path_of-Trimmed : (ws : List Text) → All IsSegment ws → Trimmed (path_of ws)
unfolding path_of
path_of-Trimmed [] h = slash-Trimmed
path_of-Trimmed (w ∷ ws) h = separated-Trimmed w ws h

path_of-rooted : (ws : List Text) → has_prefix (path_of ws) (b'/' ∷ []) ≡ true
unfolding path_of separated has_prefix
path_of-rooted [] = refl
path_of-rooted (w ∷ ws) = refl

pub path_of-is_empty : (ws : List Text) → is_empty (path_of ws) ≡ false
unfolding path_of separated
path_of-is_empty [] = refl
path_of-is_empty (w ∷ ws) = refl

joined_path-path_of : (ws : List Text) → joined_path (kept ws) ≡ path (path_of ws)
unfolding joined_path path_of join_texts separated
joined_path-path_of [] = refl
joined_path-path_of (w ∷ ws) = refl

canonical_segments-nil : (ws : List Text) → canonical_segments ([] ∷ ws) ≡ canonical_segments ws
unfolding canonical_segments trim_space trim_left
canonical_segments-nil ws = refl

canonical_segments-path_of :
    (ws : List Text) → All IsSegment ws → canonical_segments (split (path_of ws) b'/') ≡ kept ws
unfolding path_of canonical_segments
canonical_segments-path_of [] h =
    ap canonical_segments (split-separated [] ([] ∷ []) b'/' refl (refl, tt))
    ∙ (canonical_segments-nil ([] ∷ []) ∙ canonical_segments-nil [])
canonical_segments-path_of (w ∷ ws) h =
    ap canonical_segments (split-separated [] (w ∷ ws) b'/' refl (All-Free (w ∷ ws) h))
    ∙ (canonical_segments-nil (w ∷ ws) ∙ canonical_segments-segments (w ∷ ws) h)

pub normalize-path_of :
    (ws : List Text) → All IsSegment ws → normalize_user_path (path_of ws) ≡ path (path_of ws)
unfolding normalize_user_path
normalize-path_of ws h = rw (Trimmed-trim_space (path_of ws) (path_of-Trimmed ws h)) (
    rw (path_of-rooted ws, path_of-is_empty ws)
      (rw (canonical_segments-path_of ws h) (joined_path-path_of ws)))

-- The empty path, or the path with some segments.
pub data IsUserPath (p : Text) : Type 0 where
  no_path : p ≡ [] → IsUserPath p
  segments : (ws : List Text) → All IsSegment ws → p ≡ path_of ws → IsUserPath p

abbrev path_text : Normalized → Text
path_text (path p) = p
path_text dot_segment = []
path_text colon_segment = []

joined_path-IsUserPath :
    (r : Segments) (p : Text) → KeptSegments r → joined_path r ≡ path p → IsUserPath p
unfolding joined_path
joined_path-IsUserPath (kept ws) p h e =
    segments ws h (ap path_text (sym e ∙ joined_path-path_of ws))
joined_path-IsUserPath refused_dots p h e = absurd (ground arith)
joined_path-IsUserPath refused_colon p h e = absurd (ground arith)

-- A path that NormalizeUserPath gives is empty, or it is / alone, or it is made of segments behind
-- slashes, each of them trimmed, not empty, neither . nor .., and without a colon or a slash.
pub normalize_user_path-IsUserPath :
    (raw p : Text) → normalize_user_path raw ≡ path p → IsUserPath p
unfolding normalize_user_path
normalize_user_path-IsUserPath raw p e =
    let t = trim_space raw in
    let rooted = if has_prefix t (b'/' ∷ []) then t else b'/' ∷ t in
    let r = canonical_segments (split rooted b'/') in
    elim (Bool-cases (is_empty t)) [
      | inl h ↦
          let q : normalize_user_path raw ≡ path [] = rw h refl in
          no_path (ap path_text (sym e ∙ q))
      | inr h ↦
          let q : normalize_user_path raw ≡ joined_path r = rw h refl in
          joined_path-IsUserPath r p
            (segments-KeptSegments (split rooted b'/') (split-Free rooted b'/')) (sym q ∙ e)
    ]

-- NormalizeUserPath leaves a path that it has given as it is.
pub normalize_user_path-again :
    (raw p : Text) → normalize_user_path raw ≡ path p → normalize_user_path p ≡ path p
unfolding normalize_user_path trim_space trim_left
normalize_user_path-again raw p e = elim (normalize_user_path-IsUserPath raw p e) [
  | no_path h ↦ rw h refl
  | segments ws h q ↦ rw q (normalize-path_of ws h)
]
