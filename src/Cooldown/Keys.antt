-- ===== src/Cooldown/Keys.antt =====
-- Laws of the map of cooldowns.
use thinroute.Text.Laws.{text_eq_iff}
use thinroute.Cooldown.{key_eq, find, CooldownKey, drop_key, Entries, CooldownEntry, put}
use thinroute.Prelude.{[], arith, if◌then◌else◌, none, some, true, ◌↔◌, ◌∷◌, ◌≡◌}

pub key_eq_iff : (a b : CooldownKey) → (key_eq a b ≡ true) ↔ (a ≡ b)
unfolding key_eq
key_eq_iff a b = ground (
  arith,
  text_eq_iff a.provider_name b.provider_name,
  text_eq_iff a.model b.model,
  text_eq_iff a.scope b.scope,
)

pub find-drop_key :
    (k j : CooldownKey) (m : Entries)
    → find j (drop_key k m) ≡ (if key_eq k j then none else find j m)
unfolding find drop_key
find-drop_key k j [] = ground arith
find-drop_key k j ((i, e) ∷ m) =
    ground (arith, key_eq_iff i k, key_eq_iff k j, key_eq_iff i j, find-drop_key k j m)

pub find-put :
    (k j : CooldownKey) (e : CooldownEntry) (m : Entries)
    → find j (put k e m) ≡ (if key_eq k j then some e else find j m)
unfolding find
find-put k j e m = ground (arith, find-drop_key k j m)
