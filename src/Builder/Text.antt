-- ===== src/Builder/Text.antt =====
-- The functions of Go's strings that the builders use.
use testground.Base.{String, Bool, true, false, ◌&&◌, ◌||◌, str_eq, if◌then◌else◌}

-- strings.HasPrefix
unfoldable pub has_prefix : String → String → Bool
has_prefix String.[] s = true
has_prefix (String.◌∷◌ c p) String.[] = false
has_prefix (String.◌∷◌ c p) (String.◌∷◌ d s) =
    let rest = has_prefix p s in str_eq (String.◌∷◌ c String.[]) (String.◌∷◌ d String.[]) && rest

-- strings.Contains
unfoldable pub contains_text : String → String → Bool
unfolding has_prefix
contains_text sub String.[] = has_prefix sub String.[]
contains_text sub (String.◌∷◌ c s) =
    let further = contains_text sub s in has_prefix sub (String.◌∷◌ c s) || further

drop_prefix : String → String → String
drop_prefix String.[] s = s
drop_prefix (String.◌∷◌ c p) String.[] = String.[]
drop_prefix (String.◌∷◌ c p) (String.◌∷◌ d s) = drop_prefix p s

-- strings.TrimPrefix
unfoldable pub trim_prefix : String → String → String
unfolding has_prefix drop_prefix
trim_prefix p s = if has_prefix p s then drop_prefix p s else s

-- the spaces of strings.TrimSpace that occur in the output of a build
abbrev is_space : String → Bool
is_space c = str_eq c " " || str_eq c "\t" || str_eq c "\r" || str_eq c "\n"

trim_left : String → String
trim_left String.[] = String.[]
trim_left (String.◌∷◌ c s) =
    let further = trim_left s in
    if is_space (String.◌∷◌ c String.[]) then further else String.◌∷◌ c s

trim_right : String → String
trim_right String.[] = String.[]
trim_right (String.◌∷◌ c s) =
    let further = trim_right s in
    if str_eq further "" && is_space (String.◌∷◌ c String.[])
    then String.[]
    else String.◌∷◌ c further

-- strings.TrimSpace
unfoldable pub trim_space : String → String
unfolding trim_left trim_right
trim_space s = trim_left (trim_right s)
