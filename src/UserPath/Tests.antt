-- ===== src/UserPath/Tests.antt =====
-- Runs of NormalizeUserPath and UserPathAncestors.
use thinroute.Prelude.{All, List, [], length, refl, some, ◌∷◌, ◌≡◌}
use thinroute.Text.{
  Text, codes, contains, has_prefix, text_eq, trim_space, trim_left, is_space, to_lower,
}
use thinroute.UserPath.{
  normalize_user_path, canonical_segments, user_path_ancestors, joined_path, path, dot_segment,
  is_dots, colon_segment, ancestors_of, climb, parent, above,
}
use thinroute.Text.Split.{split, join_texts, separated, last_index}
use thinroute.UserPath.Ancestors.{user_path_ancestors-ends, upward, user_path_ancestors-upward}
use thinroute.UserPath.Normal.{IsSegment, path_of, normalize_user_path-again}

program : Unit {0}
unfolding normalize_user_path canonical_segments joined_path split is_dots contains has_prefix
    text_eq trim_space trim_left is_space join_texts separated user_path_ancestors ancestors_of
    climb parent above last_index to_lower
program = tt

runs :
    (normalize_user_path (codes " team// alice ") ≡ path (codes "/team/alice"))
    × ((normalize_user_path (codes "/a/../b") ≡ dot_segment)
        × ((normalize_user_path (codes "a:b") ≡ colon_segment)
            × ((normalize_user_path (codes "//") ≡ path (codes "/"))
                × (user_path_ancestors (codes "team/alice")
                    ≡ some (codes "/team/alice" ∷ codes "/team" ∷ codes "/" ∷ [])))))
unfolding program
runs = (refl, (refl, (refl, (refl, refl))))

read_alice : normalize_user_path (codes " team// alice ") ≡ path (codes "/team/alice")
read_alice = runs.0

normalize_user_path-again_example :
    normalize_user_path (codes "/team/alice") ≡ path (codes "/team/alice")
normalize_user_path-again_example =
    normalize_user_path-again (codes " team// alice ") (codes "/team/alice") read_alice

user_path_ancestors-ends_example :
    (r : List Text) × (user_path_ancestors (codes "team/alice") ≡ some r)
user_path_ancestors-ends_example = user_path_ancestors-ends (codes "team/alice")

user_path_ancestors-upward_example :
    (ws : List Text) × (All IsSegment ws
      × ((codes "/team/alice" ≡ path_of ws)
          × (user_path_ancestors (codes " team// alice ")
              ≡ some (path_of ws ∷ upward (length ws) ws))))
user_path_ancestors-upward_example =
    user_path_ancestors-upward (codes " team// alice ") (codes "/team/alice") read_alice refl
