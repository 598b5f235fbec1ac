-- ===== src/Harness.antt =====
-- src/harness/mod.rs: the registered agents and the shape of a session id.
use fleetcom.Common.{
  ℕ, suc, Bool, true, ◌&&◌, ◌||◌, Option, none, some, List, [], ◌∷◌, leb, ◌==◌, if◌then◌else◌,
  length,
}
use fleetcom.Text.{Text, text, text_eq, utf8}

-- `AGENTS`, in launcher order.
pub data Agent : Type 0 where
  claude codex grok omp : Agent

abbrev agents : List Agent
agents = claude ∷ codex ∷ grok ∷ omp ∷ []

-- The program word of `shape`.
unfoldable pub program : Agent → Text
program claude = text "claude"
program codex = text "codex"
program grok = text "grok"
program omp = text "omp"

abbrev find_agent : Text → List Agent → Option Agent
find_agent word [] = none
find_agent word (a ∷ as') = if text_eq (program a) word then some a else find_agent word as'

-- `agent`, and `registered` with it.
unfoldable pub registered : Text → Option Agent
unfolding program
registered word = find_agent word agents

abbrev dash_at : ℕ → Bool
dash_at i = i == 8 || (i == 13 || (i == 18 || i == 23))

abbrev lower_hex : ℕ → Bool
lower_hex c = leb b'0' c && leb c b'9' || leb b'a' c && leb c b'f'

abbrev uuid_bytes : ℕ → List ℕ → Bool
uuid_bytes i [] = true
uuid_bytes i (c ∷ cs) = (if dash_at i then c == b'-' else lower_hex c) && uuid_bytes (suc i) cs

unfoldable pub is_uuid : Text → Bool
is_uuid s = length (utf8 s) == 36 && uuid_bytes 0 (utf8 s)
