-- ===== src/TopicMap/Tests.antt =====
-- Topic keys after a few requests, and the theorems about the map at these requests.
use spraybus.Prelude.{◌≤◌, ◌≡◌, refl, List, [], ◌∷◌, some, arith, bytes_eq, length}
use spraybus.Containers.Dict
use spraybus.Text.{text}
use spraybus.TopicMap.{Topic, TopicMap, empty, get, get_or_create, register}
use spraybus.TopicMap.Names.{Represents, requested, empty-Represents, register-Represents}
use spraybus.TopicMap.Keys.{register_keys, get-get_or_create, get_or_create_again}

abbrev asked : List Topic
asked = text "a" ∷ text "b" ∷ text "a" ∷ text "" ∷ []

abbrev after_asked : TopicMap
after_asked = register empty asked

asked_keys :
    (get after_asked (text "a") ≡ some 1)
    × (get after_asked (text "b") ≡ some 2)
    × (get after_asked (text "") ≡ some 3)
unfolding register empty get get_or_create Dict.get Dict.put Dict.empty bytes_eq
asked_keys = (refl, refl, refl)

register-Represents_example : Represents after_asked (requested [] asked)
register-Represents_example = register-Represents empty [] asked empty-Represents (omega arith)

register_keys_example : (1 ≤ 2) × (2 ≤ length (requested [] asked))
register_keys_example = (register_keys asked (omega arith)).1 (text "b") 2 (asked_keys.1)

get-get_or_create_example : get (get_or_create after_asked (text "c")).0 (text "b") ≡ some 2
get-get_or_create_example = get-get_or_create after_asked (text "b") (text "c") 2 (asked_keys.1)

get_or_create_again_example :
    get (get_or_create empty (text "c")).0 (text "c") ≡ some (get_or_create empty (text "c")).1
get_or_create_again_example = (get_or_create_again empty (text "c")).0
