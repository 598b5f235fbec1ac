-- ===== src/Path.antt =====
-- src/path.rs. A `PathBuf` that `lexical_clean` builds is the list of its components, the last one
-- first; every push there is of one component. The variable HOME is an argument.
pub mod Walk
pub mod Shape
use fleetcom.Common.{
  Bool, true, false, ◌&&◌, ◌||◌, Option, none, some, List, [], ◌∷◌, ◌++◌, ◌==◌, if◌then◌else◌, ℕ,
}
use fleetcom.Text.{Text, text, text_eq, strip_prefix}

-- `std::path::Component` on Unix.
pub data Component : Type 0 where
  root_dir cur_dir parent_dir : Component
  normal : Text → Component

abbrev pub slash : ℕ
slash = b'/'

-- The segments between slashes.
abbrev cons_head : ℕ → List Text → List Text
cons_head c [] = (c ∷ []) ∷ []
cons_head c (s ∷ ss) = (c ∷ s) ∷ ss

unfoldable pub split : Text → List Text
split [] = [] ∷ []
split (c ∷ cs) = let rest = split cs in if c == slash then [] ∷ rest else cons_head c rest

-- A segment as a component; `.` counts only where `first` says that it leads a relative path.
unfoldable pub segment : Bool → Text → List Component
unfolding text_eq text
segment first s =
    if text_eq s []
    then []
    else if text_eq s (text ".")
    then (if first then cur_dir ∷ [] else [])
    else if text_eq s (text "..")
    then parent_dir ∷ []
    else normal s ∷ []

unfoldable pub segments : List Text → List Component
unfolding segment
segments [] = []
segments (s ∷ ss) = segment false s ++ segments ss

abbrev first_segments : List Text → List Component
first_segments [] = []
first_segments (s ∷ ss) = segment true s ++ segments ss

unfoldable pub is_absolute : Text → Bool
is_absolute [] = false
is_absolute (c ∷ cs) = c == slash

-- `Path::components`.
unfoldable pub components : Text → List Component
components s = if is_absolute s then root_dir ∷ segments (split s) else first_segments (split s)

-- One round of the loop of `lexical_clean`.
unfoldable pub clean_step : List Component → Component → List Component
clean_step out cur_dir = out
clean_step out root_dir = root_dir ∷ []
clean_step out (normal s) = normal s ∷ out
clean_step [] parent_dir = parent_dir ∷ []
clean_step (normal s ∷ out) parent_dir = out
clean_step (root_dir ∷ out) parent_dir = root_dir ∷ out
clean_step (cur_dir ∷ out) parent_dir = parent_dir ∷ cur_dir ∷ out
clean_step (parent_dir ∷ out) parent_dir = parent_dir ∷ parent_dir ∷ out

unfoldable pub clean_loop : List Component → List Component → List Component
clean_loop out [] = out
clean_loop out (c ∷ cs) = clean_loop (clean_step out c) cs

abbrev or_dot : List Component → List Component
or_dot [] = cur_dir ∷ []
or_dot (c ∷ cs) = c ∷ cs

unfoldable pub lexical_clean : List Component → List Component
lexical_clean cs = or_dot (clean_loop [] cs)

abbrev name : Component → Text
name root_dir = slash ∷ []
name cur_dir = text "."
name parent_dir = text ".."
name (normal s) = s

-- The text of a path, the last component first: `push` puts a slash between, but not behind `/`.
unfoldable pub render : List Component → Text
unfolding text
render [] = []
render (c ∷ []) = name c
render (c ∷ root_dir ∷ rest) = slash ∷ name c
render (c ∷ d ∷ rest) = render (d ∷ rest) ++ slash ∷ name c

abbrev tilde_rest : Text → Option Text → Text → Text
tilde_rest s none rest = s
tilde_rest s (some home) [] = home
tilde_rest s (some home) (c ∷ cs) = if c == slash then home ++ c ∷ cs else s

unfoldable pub expand_tilde : Option Text → Text → Text
unfolding strip_prefix text
expand_tilde home s = elim (strip_prefix (text "~") s) [
  | none ↦ s
  | some rest ↦ tilde_rest s home rest
]

-- `Path::join` of a relative path: `push` onto the base.
abbrev ends_in_slash : Text → Bool
ends_in_slash [] = false
ends_in_slash (c ∷ []) = c == slash
ends_in_slash (c ∷ d ∷ ds) = ends_in_slash (d ∷ ds)

unfoldable pub join : Text → Text → Text
join base s = if text_eq base [] || ends_in_slash base then base ++ s else base ++ slash ∷ s

abbrev pub or_base : Text → Text → Text
or_base base [] = base
or_base base (c ∷ cs) = if c == slash then c ∷ cs else join base (c ∷ cs)

-- `resolve`: the cleaned path, and its text.
unfoldable pub resolve_components : Option Text → Text → Text → List Component
resolve_components home base s = lexical_clean (components (or_base base (expand_tilde home s)))

unfoldable pub resolve : Option Text → Text → Text → Text
resolve home base s = render (resolve_components home base s)

-- `abbreviate`. An unset HOME is `none`.
abbrev under_home : Text → Option Text → Text
under_home s none = s
under_home s (some []) = text "~"
under_home s (some (c ∷ cs)) = if c == slash then text "~" ++ c ∷ cs else s

abbrev abbreviate_home : Text → Option Text → Text
abbreviate_home s none = s
abbreviate_home s (some []) = s
abbreviate_home s (some (h ∷ hs)) = under_home s (strip_prefix (h ∷ hs) s)

unfoldable pub abbreviate : Option Text → Text → Text
unfolding strip_prefix text
abbreviate home s = abbreviate_home s home
