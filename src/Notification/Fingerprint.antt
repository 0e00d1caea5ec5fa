-- ===== src/Notification/Fingerprint.antt =====
-- internal/notification/fingerprint.go: the key under which repeated alerts are counted.
use dozzle_gaia_fork.Common.{String, [], ◌∷◌, ltb, if◌then◌else◌}
use dozzle_gaia_fork.Common.Text.{join}
use dozzle_gaia_fork.Notification.Platform.{Platform}
use dozzle_gaia_fork.Notification.Types.{Values}

module _ {V : Values} (P : Platform V) where
  unfoldable pub normalize_message : String → String
  normalize_message s =
      let t = P.single_spaced (P.trim_space s) in
      if ltb 200 (P.byte_length t) then P.byte_prefix 200 t else t

  -- The parts are joined by a zero byte.
  unfoldable pub alert_fingerprint : String → String → String → String → String → String
  unfolding normalize_message
  alert_fingerprint name host container kind raw =
      P.sha256_hex (join "\0" (name ∷ host ∷ container ∷ kind ∷ normalize_message raw ∷ []))
