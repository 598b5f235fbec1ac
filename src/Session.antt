-- ===== src/Session.antt =====
-- src/session.rs: the recipe data. A `BTreeMap` is the list of its entries in key order.
pub mod Codec
pub mod Order
pub mod Safety
mod Entries
pub mod RoundTrip
pub mod Store
use fleetcom.Common.{
  ℕ, ◌+◌, Bool, true, false, Option, List, [], ◌∷◌, ◌++◌, ltb, ◌==◌, if◌then◌else◌, length,
}
use fleetcom.Text.{Text, text_eq}

pub data EntryKind : Type 0 where
  literal : Text → EntryKind
  managed : Text → Option Text → EntryKind

pub record SessionEntry : Type 0 where
  pub kind : EntryKind
  pub group : Option Text
  pub name : Option Text
  pub tagged : Bool
  pub flagship : Bool
  pub stopped : Bool

abbrev pub SessionConfig : Type 0
SessionConfig = List (Text × List SessionEntry)

-- `Ord for str`: the order of the UTF-8 bytes is that of the scalar values.
unfoldable pub text_lt : Text → Text → Bool
text_lt xs [] = false
text_lt [] (y ∷ ys) = true
text_lt (x ∷ xs) (y ∷ ys) = if x == y then text_lt xs ys else ltb x y

-- `cfg.entry(dir).or_default().push(entry)`.
unfoldable pub push_entry : Text → SessionEntry → SessionConfig → SessionConfig
push_entry dir e [] = (dir, e ∷ []) ∷ []
push_entry dir e ((k, es) ∷ rest) =
    let later = push_entry dir e rest in
    if text_eq k dir
    then (k, es ++ e ∷ []) ∷ rest
    else if text_lt dir k
    then (dir, e ∷ []) ∷ (k, es) ∷ rest
    else (k, es) ∷ later

-- `cfg.values().map(Vec::len).sum()`.
unfoldable pub entry_count : SessionConfig → ℕ
entry_count [] = 0
entry_count ((k, es) ∷ rest) = length es + entry_count rest
