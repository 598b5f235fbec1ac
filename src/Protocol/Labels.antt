-- ===== src/Protocol/Labels.antt =====
-- The labels of the protocol's tags, and their parsers: src/protocol.rs.
use fleetcom.Common.{◌≡◌, refl, ◌↔◌, Option, none, some, arith, if◌then◌else◌}
use fleetcom.Text.{Text, text, text_eq}
use fleetcom.Text.Laws.{text_eq→eq}
use fleetcom.Protocol.{
  Lifecycle, PreviewSource, ClipboardKind, active, idle, ok, failed, stopped, floor, marker, title,
  anchor, clipboard, primary, selection,
}

-- `Lifecycle::label` and `Lifecycle::from_label`.
pub life_label : Lifecycle → Text
life_label active = text "active"
life_label idle = text "idle"
life_label ok = text "ok"
life_label failed = text "failed"
life_label stopped = text "stopped"

pub life_from_label : Text → Option Lifecycle
life_from_label s =
    if text_eq s (text "active")
    then some active
    else if text_eq s (text "idle")
    then some idle
    else if text_eq s (text "ok")
    then some ok
    else if text_eq s (text "failed")
    then some failed
    else if text_eq s (text "stopped")
    then some stopped
    else none

-- `PreviewSource::label` and `PreviewSource::from_label`.
pub source_label : PreviewSource → Text
source_label floor = text "floor"
source_label marker = text "marker"
source_label title = text "title"
source_label anchor = text "anchor"

pub source_from_label : Text → Option PreviewSource
source_from_label s =
    if text_eq s (text "floor")
    then some floor
    else if text_eq s (text "marker")
    then some marker
    else if text_eq s (text "title")
    then some title
    else if text_eq s (text "anchor")
    then some anchor
    else none

-- `ClipboardKind::selector` and `ClipboardKind::from_selector`.
pub selector : ClipboardKind → Text
selector clipboard = text "c"
selector primary = text "p"
selector selection = text "s"

pub from_selector : Text → Option ClipboardKind
from_selector s =
    if text_eq s (text "c")
    then some clipboard
    else if text_eq s (text "p")
    then some primary
    else if text_eq s (text "s")
    then some selection
    else none

pub life_from_label-life_label_self : (l : Lifecycle) → life_from_label (life_label l) ≡ some l
unfolding life_from_label life_label text text_eq
life_from_label-life_label_self active = refl
life_from_label-life_label_self idle = refl
life_from_label-life_label_self ok = refl
life_from_label-life_label_self failed = refl
life_from_label-life_label_self stopped = refl

life_label_of_life_from_label :
    (s : Text) (l : Lifecycle) → life_from_label s ≡ some l → s ≡ life_label l
unfolding life_from_label life_label
life_label_of_life_from_label s l h = ground (
  arith,
  text_eq→eq s (text "active"),
  text_eq→eq s (text "idle"),
  text_eq→eq s (text "ok"),
  text_eq→eq s (text "failed"),
  text_eq→eq s (text "stopped"),
)

pub source_from_label-source_label_self :
    (l : PreviewSource) → source_from_label (source_label l) ≡ some l
unfolding source_from_label source_label text text_eq
source_from_label-source_label_self floor = refl
source_from_label-source_label_self marker = refl
source_from_label-source_label_self title = refl
source_from_label-source_label_self anchor = refl

source_label_of_source_from_label :
    (s : Text) (l : PreviewSource) → source_from_label s ≡ some l → s ≡ source_label l
unfolding source_from_label source_label
source_label_of_source_from_label s l h = ground (
  arith,
  text_eq→eq s (text "floor"),
  text_eq→eq s (text "marker"),
  text_eq→eq s (text "title"),
  text_eq→eq s (text "anchor"),
)

pub from_selector-selector_self : (l : ClipboardKind) → from_selector (selector l) ≡ some l
unfolding from_selector selector text text_eq
from_selector-selector_self clipboard = refl
from_selector-selector_self primary = refl
from_selector-selector_self selection = refl

selector_of_from_selector :
    (s : Text) (l : ClipboardKind) → from_selector s ≡ some l → s ≡ selector l
unfolding from_selector selector
selector_of_from_selector s l h =
    ground (arith, text_eq→eq s (text "c"), text_eq→eq s (text "p"), text_eq→eq s (text "s"))

-- For lifecycles, preview sources and clipboard kinds alike: the printed label is read back, and
-- a text that is read is the label of what was read.
pub labels_round_trip :
    ((s : Text) (l : Lifecycle) → (life_from_label s ≡ some l) ↔ (s ≡ life_label l))
    × ((s : Text) (l : PreviewSource) → (source_from_label s ≡ some l) ↔ (s ≡ source_label l))
    × ((s : Text) (l : ClipboardKind) → (from_selector s ≡ some l) ↔ (s ≡ selector l))
labels_round_trip = (
  (λ s l. (life_label_of_life_from_label s l, λ e. rw e (life_from_label-life_label_self l))),
  (λ s l.
      (source_label_of_source_from_label s l, λ e. rw e (source_from_label-source_label_self l))),
  (λ s l. (selector_of_from_selector s l, λ e. rw e (from_selector-selector_self l))),
)
