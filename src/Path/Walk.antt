-- ===== src/Path/Walk.antt =====
-- What `lexical_clean` keeps of a path: where it leads in a tree without symbolic links.
use mathlib.Core.List.{tail}
use fleetcom.Common.{◌≡◌, refl, ap, ◌∙◌, List, [], ◌∷◌}
use fleetcom.Text.{Text}
use fleetcom.Path.{
  Component, root_dir, cur_dir, parent_dir, normal, clean_step, clean_loop, lexical_clean,
}

-- A position is the list of the directories above it, the innermost first. At the root `..` stays.
abbrev pub move : Component → List Text → List Text
move root_dir pos = []
move cur_dir pos = pos
move parent_dir pos = tail pos
move (normal s) pos = s ∷ pos

abbrev pub walk : List Component → List Text → List Text
walk [] pos = pos
walk (c ∷ cs) pos = walk cs (move c pos)

-- The same for a path whose last component stands first.
abbrev pub walk_back : List Component → List Text → List Text
walk_back [] pos = pos
walk_back (c ∷ out) pos = move c (walk_back out pos)

walk_back-clean_step :
    (out : List Component) (c : Component) (pos : List Text)
    → walk_back (clean_step out c) pos ≡ move c (walk_back out pos)
unfolding clean_step
walk_back-clean_step out cur_dir pos = refl
walk_back-clean_step out root_dir pos = refl
walk_back-clean_step out (normal s) pos = refl
walk_back-clean_step [] parent_dir pos = refl
walk_back-clean_step (normal s ∷ out) parent_dir pos = refl
walk_back-clean_step (root_dir ∷ out) parent_dir pos = refl
walk_back-clean_step (cur_dir ∷ out) parent_dir pos = refl
walk_back-clean_step (parent_dir ∷ out) parent_dir pos = refl

walk_back-clean_loop :
    (out cs : List Component) (pos : List Text)
    → walk_back (clean_loop out cs) pos ≡ walk cs (walk_back out pos)
unfolding clean_loop
walk_back-clean_loop out [] pos = refl
walk_back-clean_loop out (c ∷ cs) pos =
    walk_back-clean_loop (clean_step out c) cs pos ∙ ap (walk cs) (walk_back-clean_step out c pos)

walk_back-or_dot :
    (out : List Component) (cs : List Component) (pos : List Text)
    → clean_loop [] cs ≡ out
    → walk_back (lexical_clean cs) pos ≡ walk_back out pos
unfolding lexical_clean
walk_back-or_dot [] cs pos e = rw e
walk_back-or_dot (c ∷ out) cs pos e = rw e

-- A cleaned path leads from every position to the directory that the path led to.
pub walk_back-lexical_clean :
    (cs : List Component) (pos : List Text) → walk_back (lexical_clean cs) pos ≡ walk cs pos
walk_back-lexical_clean cs pos =
    walk_back-or_dot (clean_loop [] cs) cs pos refl ∙ walk_back-clean_loop [] cs pos
