-- ===== src/Registry/Key.antt =====
-- The keys of services: six labels when the UUID, the region, the name and the environment hold no
-- dot (the host and the version have theirs replaced).
use skydns.Shared.{
  Text, dot, List, [], ◌∷◌, ◌++◌, reverse, map, length, IsLabel, join, split-join, hyphenate,
  hyphenate-IsLabel, to_lower, to_lower-IsLabel, to_lower-append, ◌≡◌, refl, ap, ◌∙◌,
}
use skydns.Msg.{Service}
use skydns.Registry.{path_of}

-- The parts of a service's key.
abbrev pub key_parts : Service → List Text
key_parts s =
    s.uuid ∷ hyphenate s.host ∷ s.region ∷ hyphenate s.version ∷ s.name ∷ s.environment ∷ []

to_lower-dot : (t : Text) → to_lower (dot ∷ t) ≡ dot ∷ to_lower t
unfolding to_lower
to_lower-dot t = refl

to_lower-nil : to_lower [] ≡ []
unfolding to_lower
to_lower-nil = refl

pub to_lower-join : (ps : List Text) → to_lower (join ps) ≡ join (map to_lower ps)
unfolding join
to_lower-join [] = to_lower-nil
to_lower-join (p ∷ []) = refl
to_lower-join (p ∷ q ∷ ps) =
    to_lower-append p (dot ∷ join (q ∷ ps))
    ∙ ap (λ (t : Text). to_lower p ++ t)
        (to_lower-dot (join (q ∷ ps)) ∙ ap (◌∷◌ dot) (to_lower-join (q ∷ ps)))

-- No part of the key but the host and the version can hold a dot.
abbrev pub IsDotFree : Service → Type 0
IsDotFree s = IsLabel s.uuid × IsLabel s.region × IsLabel s.name × IsLabel s.environment

-- The path of such a service: its six parts, in lower case, from the environment to the UUID.
pub path_of_lem : (s : Service) → IsDotFree s → path_of s ≡ reverse (map to_lower (key_parts s))
unfolding path_of
path_of_lem s (uuid, region, name, environment) = rw (to_lower-join (key_parts s)) (
    ap reverse (
      split-join (to_lower s.uuid)
        (map to_lower
          (hyphenate s.host ∷ s.region ∷ hyphenate s.version ∷ s.name ∷ s.environment ∷ []))
        (
          to_lower-IsLabel s.uuid uuid,
          (
            to_lower-IsLabel (hyphenate s.host) (hyphenate-IsLabel s.host),
            (
              to_lower-IsLabel s.region region,
              (
                to_lower-IsLabel (hyphenate s.version) (hyphenate-IsLabel s.version),
                (to_lower-IsLabel s.name name, (to_lower-IsLabel s.environment environment, tt)),
              ),
            ),
          ),
        )))

-- So it has six labels.
pub length-path_of : (s : Service) → IsDotFree s → length (path_of s) ≡ 6
length-path_of s d = rw (path_of_lem s d)
