-- ===== src/Path/Shape.antt =====
-- The shape of what `lexical_clean` returns.
use mathlib.Core.List.{reverse, reverse-cons}
use fleetcom.Common.{true, ◌≡◌, refl, ap, sym, ◌⊎◌, inl, inr, Option, List, [], ◌∷◌, ◌++◌, arith}
use fleetcom.Text.{Text, text_eq}
use fleetcom.Path.{
  Component, root_dir, cur_dir, parent_dir, normal, clean_step, clean_loop, lexical_clean,
  components, is_absolute, segments, resolve_components, expand_tilde, or_base, or_dot, join, split,
}

-- Nothing but `..`.
abbrev Climbs : List Component → Type 0
Climbs [] = Unit {0}
Climbs (parent_dir ∷ out) = Climbs out
Climbs (root_dir ∷ out) = ⊥
Climbs (cur_dir ∷ out) = ⊥
Climbs (normal s ∷ out) = ⊥

-- Names only, above a root, above a run of `..`, or above nothing.
abbrev pub IsClean : List Component → Type 0
IsClean [] = Unit {0}
IsClean (normal s ∷ out) = IsClean out
IsClean (parent_dir ∷ out) = Climbs out
IsClean (root_dir ∷ out) = out ≡ []
IsClean (cur_dir ∷ out) = ⊥

clean_step-IsClean :
    (out : List Component) (c : Component) → IsClean out → IsClean (clean_step out c)
unfolding clean_step
clean_step-IsClean out cur_dir v = v
clean_step-IsClean out root_dir v = refl
clean_step-IsClean out (normal s) v = v
clean_step-IsClean [] parent_dir v = tt
clean_step-IsClean (normal s ∷ out) parent_dir v = v
clean_step-IsClean (root_dir ∷ out) parent_dir v = v
clean_step-IsClean (cur_dir ∷ out) parent_dir v = absurd v
clean_step-IsClean (parent_dir ∷ out) parent_dir v = v

clean_loop-IsClean : (out cs : List Component) → IsClean out → IsClean (clean_loop out cs)
unfolding clean_loop
clean_loop-IsClean out [] v = v
clean_loop-IsClean out (c ∷ cs) v =
    clean_loop-IsClean (clean_step out c) cs (clean_step-IsClean out c v)

or_dot-IsClean :
    (out cs : List Component)
    → clean_loop [] cs ≡ out
    → IsClean out
    → IsClean (lexical_clean cs) ⊎ (lexical_clean cs ≡ cur_dir ∷ [])
unfolding lexical_clean
or_dot-IsClean [] cs e v = inr (rw e)
or_dot-IsClean (c ∷ out) cs e v = inl (rw e v)

lexical_clean-IsClean :
    (cs : List Component) → IsClean (lexical_clean cs) ⊎ (lexical_clean cs ≡ cur_dir ∷ [])
lexical_clean-IsClean cs = or_dot-IsClean (clean_loop [] cs) cs refl (clean_loop-IsClean [] cs tt)

clean_loop-append :
    (out xs ys : List Component) → clean_loop out (xs ++ ys) ≡ clean_loop (clean_loop out xs) ys
unfolding clean_loop
clean_loop-append out [] ys = refl
clean_loop-append out (x ∷ xs) ys = clean_loop-append (clean_step out x) xs ys

clean_step-cons :
    (c : Component) (out : List Component) → IsClean (c ∷ out) → clean_step out c ≡ c ∷ out
unfolding clean_step
clean_step-cons root_dir out v = ap (root_dir ∷◌) (sym v)
clean_step-cons cur_dir out v = absurd v
clean_step-cons (normal s) out v = refl
clean_step-cons parent_dir [] v = refl
clean_step-cons parent_dir (parent_dir ∷ out) v = refl
clean_step-cons parent_dir (root_dir ∷ out) v = absurd v
clean_step-cons parent_dir (cur_dir ∷ out) v = absurd v
clean_step-cons parent_dir (normal s ∷ out) v = absurd v

Climbs-IsClean : (out : List Component) → Climbs out → IsClean out
Climbs-IsClean [] v = tt
Climbs-IsClean (parent_dir ∷ out) v = v
Climbs-IsClean (root_dir ∷ out) v = absurd v
Climbs-IsClean (cur_dir ∷ out) v = absurd v
Climbs-IsClean (normal s ∷ out) v = absurd v

IsClean-tail : (c : Component) (out : List Component) → IsClean (c ∷ out) → IsClean out
IsClean-tail root_dir out v = rw v tt
IsClean-tail cur_dir out v = absurd v
IsClean-tail parent_dir out v = Climbs-IsClean out v
IsClean-tail (normal s) out v = v

clean_loop-reverse : (out : List Component) → IsClean out → clean_loop [] (reverse out) ≡ out
unfolding clean_loop
clean_loop-reverse [] v = refl
clean_loop-reverse (c ∷ out) v =
    rw
      (
        reverse-cons c out,
        clean_loop-append [] (reverse out) (c ∷ []),
        clean_loop-reverse out (IsClean-tail c out v),
      )
      (clean_step-cons c out v)

lexical_clean-reverse :
    (d : Component) (out : List Component)
    → IsClean (d ∷ out)
    → lexical_clean (reverse (d ∷ out)) ≡ d ∷ out
unfolding lexical_clean
lexical_clean-reverse d out v = rw (clean_loop-reverse (d ∷ out) v)

idempotent_at :
    (out cs : List Component)
    → lexical_clean cs ≡ out
    → IsClean out ⊎ (out ≡ cur_dir ∷ [])
    → lexical_clean (reverse out) ≡ out
unfolding lexical_clean clean_loop clean_step
idempotent_at [] cs e (inl v) = absurd (or_dot_ne (clean_loop [] cs) e)
  where
    or_dot_ne : (xs : List Component) → or_dot xs ≡ [] → ⊥
    or_dot_ne [] p = cc
    or_dot_ne (x ∷ xs) p = cc
idempotent_at (d ∷ out) cs e (inl v) = lexical_clean-reverse d out v
idempotent_at out cs e (inr p) = rw p

-- Cleaning a cleaned path changes nothing, and a cleaned path is `.` or holds names only, above a
-- root, above a run of `..`, or above nothing.
pub lexical_clean_normal :
    (cs : List Component)
    → (lexical_clean (reverse (lexical_clean cs)) ≡ lexical_clean cs)
      × (IsClean (lexical_clean cs) ⊎ (lexical_clean cs ≡ cur_dir ∷ []))
lexical_clean_normal cs =
    let v = lexical_clean-IsClean cs in (idempotent_at (lexical_clean cs) cs refl v, v)

-- Names only, above the root.
abbrev pub IsRooted : List Component → Type 0
IsRooted [] = ⊥
IsRooted (normal s ∷ out) = IsRooted out
IsRooted (root_dir ∷ out) = out ≡ []
IsRooted (parent_dir ∷ out) = ⊥
IsRooted (cur_dir ∷ out) = ⊥

clean_step-IsRooted :
    (out : List Component) (c : Component) → IsRooted out → IsRooted (clean_step out c)
unfolding clean_step
clean_step-IsRooted out cur_dir v = v
clean_step-IsRooted out root_dir v = refl
clean_step-IsRooted out (normal s) v = v
clean_step-IsRooted [] parent_dir v = absurd v
clean_step-IsRooted (normal s ∷ out) parent_dir v = v
clean_step-IsRooted (root_dir ∷ out) parent_dir v = v
clean_step-IsRooted (cur_dir ∷ out) parent_dir v = absurd v
clean_step-IsRooted (parent_dir ∷ out) parent_dir v = absurd v

clean_loop-IsRooted : (out cs : List Component) → IsRooted out → IsRooted (clean_loop out cs)
unfolding clean_loop
clean_loop-IsRooted out [] v = v
clean_loop-IsRooted out (c ∷ cs) v =
    clean_loop-IsRooted (clean_step out c) cs (clean_step-IsRooted out c v)

or_dot-IsRooted : (out : List Component) → IsRooted out → IsRooted (or_dot out)
or_dot-IsRooted [] v = absurd v
or_dot-IsRooted (c ∷ out) v = v

lexical_clean-IsRooted : (cs : List Component) → IsRooted (lexical_clean (root_dir ∷ cs))
unfolding lexical_clean clean_loop clean_step
lexical_clean-IsRooted cs =
    or_dot-IsRooted (clean_loop (root_dir ∷ []) cs) (clean_loop-IsRooted (root_dir ∷ []) cs refl)

is_absolute-or_base :
    (base e : Text) → is_absolute base ≡ true → is_absolute (or_base base e) ≡ true
unfolding is_absolute join text_eq
is_absolute-or_base [] e h = cc
is_absolute-or_base (b ∷ bs) [] h = h
is_absolute-or_base (b ∷ bs) (c ∷ cs) h = ground arith

components-IsRooted : (s : Text) → is_absolute s ≡ true → IsRooted (lexical_clean (components s))
unfolding components
components-IsRooted s h = rw h (lexical_clean-IsRooted (segments (split s)))

-- Against an absolute base every path resolves to an absolute one without `.` and `..`, whatever
-- HOME is: it cannot climb past the root.
pub resolve_components-IsRooted :
    (home : Option Text) (base s : Text)
    → is_absolute base ≡ true
    → IsRooted (resolve_components home base s)
unfolding resolve_components
resolve_components-IsRooted home base s h =
    components-IsRooted (or_base base (expand_tilde home s))
      (is_absolute-or_base base (expand_tilde home s) h)
