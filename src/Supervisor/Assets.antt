-- ===== src/Supervisor/Assets.antt =====
-- src/supervisor.rs: the roots that the launch context gives, and the capture assets below them.
use fleetcom.Common.{Option, none, some, List, [], ◌∷◌, if◌then◌else◌}
use fleetcom.Text.{Text, text, text_eq, utf8}
use fleetcom.Path.{join}
use fleetcom.Protocol.{LaunchContext, env_get}
use fleetcom.Supervisor.Host.{Host}
use fleetcom.Supervisor.Labels.{fnv1a_hex}
use fleetcom.Supervisor.State.{Supervisor, or_empty}

unfoldable pub lookup_root : Text → List (Text × Text) → Option Text
lookup_root key [] = none
lookup_root key ((k, v) ∷ rest) = if text_eq k key then some v else lookup_root key rest

abbrev env_path : Option LaunchContext → Text → Option Text
env_path none key = none
env_path (some ctx) key = env_get ctx.env key

abbrev canonical : Option Text → Text → Text
canonical none root = root
canonical (some key) root = key

abbrev cached : List (Text × Text) → Option Text → Option Text
cached capture none = none
cached capture (some key) = lookup_root key capture

module _ {E : Type 0} where
  -- `launch_env_path` and `sessions_root`.
  unfoldable pub launch_env_path : Supervisor E → Text → Option Text
  unfolding env_get
  launch_env_path s key = env_path s.launch key

  unfoldable pub sessions_root : Host → Supervisor E → Option Text
  sessions_root h s = h.sessions_dir (launch_env_path s (text "FLEETCOM_CONFIG_DIR"))

  abbrev partitioned : Host → Supervisor E → Option Text → Option Text
  partitioned h s none = none
  partitioned h s (some base) = some (join base (fnv1a_hex (utf8 (or_empty (sessions_root h s)))))

  abbrev capture_root : Host → Supervisor E → Option Text → Option Text
  capture_root h s (some dir) = some dir
  capture_root h s none = partitioned h s h.runtime_root

  -- `self.capture.entry(key).or_insert(installed)`, newest first.
  abbrev keep_assets : Text → Text → Supervisor E → Option Text → Supervisor E × Option Text
  keep_assets key installed s (some old) = (s, some old)
  keep_assets key installed s none =
      (record s { capture = (key, installed) ∷ s.capture }, some installed)

  abbrev installed_assets : Host → Text → Supervisor E → Option Text → Supervisor E × Option Text
  installed_assets h root s none = (s, none)
  installed_assets h root s (some assets) =
      let key = canonical (h.canonicalize root) root in
      keep_assets key assets s (lookup_root key s.capture)

  abbrev assets_at : Host → Text → Supervisor E → Option Text → Supervisor E × Option Text
  assets_at h root s (some assets) = (s, some assets)
  assets_at h root s none = installed_assets h root s (h.install_assets root)

  abbrev assets_below : Host → Supervisor E → Option Text → Supervisor E × Option Text
  assets_below h s none = (s, none)
  assets_below h s (some root) = assets_at h root s (cached s.capture (h.canonicalize root))

  -- `ensure_capture_assets`: the assets are named by what `install` returned.
  unfoldable pub ensure_capture_assets : Host → Supervisor E → Supervisor E × Option Text
  unfolding lookup_root
  ensure_capture_assets h s =
      assets_below h s (capture_root h s (launch_env_path s (text "FLEETCOM_RUNTIME_DIR")))
